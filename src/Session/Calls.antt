-- ===== src/Session/Calls.antt =====
-- The calls that a client makes on a ValidationSession of lirix/core/session.py, and what a
-- sequence of calls leaves. A call that raises is one whose caller went on.
use lirix.Prelude.{Bool, List, [], ◌∷◌, Text}
use lirix.Status.{Status}
use lirix.Session.Types.{Doc, EventType, TraceKind, Verdict, Payload}
use lirix.Session.Store.{Session, ExecutionPlan, Outcome, link_trace, record_event}
use lirix.Session.Methods.{
  Trace, TraceMeta, record_trace, record_plan, bind_execution_plan, record_draft, record_tool_call,
  record_decision, finalize,
}

pub data Call : Type 0 where
  link : Text → Call
  trace : TraceKind → Trace → Status → TraceMeta → Text → Call
  event : EventType → Payload → Status → Text → Call
  plan : Doc → Text → Call
  bind : ExecutionPlan → Doc → Text → Call
  draft : Doc → Text → Call
  tool_call : Doc → Bool → Text → Call
  decide : Verdict → Doc → Text → Call
  finish : Bool → Doc → Text → Call

module _ (trace_digest : Trace → Text) where
  unfoldable pub call : Call → Session → Outcome
  call (link id) = link_trace id
  call (trace kind t status info now) = record_trace trace_digest kind t status info now
  call (event et payload status now) = record_event et payload status now
  call (plan content now) = record_plan content now
  call (bind p content now) = bind_execution_plan p content now
  call (draft content now) = record_draft content now
  call (tool_call content done now) = record_tool_call content done now
  call (decide verdict content now) = record_decision verdict content now
  call (finish good content now) = finalize good content now

  unfoldable pub run : List Call → Session → Session
  run [] s = s
  run (c ∷ rest) s = run rest (call c s).1
