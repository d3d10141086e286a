-- ===== src/Orchestrator/Laws/Ended.antt =====
-- lirix/core/orchestrator.py: how a run on a session of its own ends.
use mathlib.Core.Path.{subst}
use lirix.Prelude.{
  ◌≡◌, sym, true, false, Option, List, Text, Dict, Result, returned, raised, if_when,
}
use lirix.Status.{Status}
use lirix.Session.Types.{Doc, TraceKind, Verdict}
use lirix.Orchestrator.Types.{
  PipelineError, is_lirix, Client, RunState, after, raise, Request, is_own,
}
use lirix.Orchestrator.Actions.{record_rejection, record_failure, handled, unbind}
use lirix.Orchestrator.Runs.{approve}
use lirix.Orchestrator.Laws.Closing.{IsClosed, IsRecorded, rejection-IsRecorded, approve-IsRecorded}
use lirix.Orchestrator.Laws.Untouched.{IsOpened}

-- The ends of a run on a session of its own: a report, and the session is closed as approved; an
-- exception of the program, and the session is closed as blocked; or another exception, and the
-- session is open, without an entry.
pub data RunEnd {V X W A : Type 0} (kind : TraceKind) (id now : Text) (ids : List Text)
    : Result (PipelineError V X) A × RunState V W → Type 0 where
  approved_end :
      {a : A} {st : RunState V W}
      → IsClosed kind Status.ok Verdict.approved st.session
      → RunEnd kind id now ids (returned a, st)
  blocked_end :
      {e : PipelineError V X} {st : RunState V W}
      → is_lirix e ≡ true
      → IsClosed kind Status.rejected Verdict.blocked st.session
      → RunEnd kind id now ids (raised e, st)
  foreign_end :
      {e : PipelineError V X} {st : RunState V W}
      → is_lirix e ≡ false
      → IsOpened id now ids st
      → RunEnd kind id now ids (raised e, st)

-- The ends of what stands in the `try`.
pub data BodyEnd {V X W A : Type 0} (kind : TraceKind) (id now : Text) (ids : List Text)
    : Result (PipelineError V X) A × RunState V W → Type 0 where
  body_approved :
      {a : A} {st : RunState V W}
      → IsClosed kind Status.ok Verdict.approved st.session
      → BodyEnd kind id now ids (returned a, st)
  body_raised :
      {e : PipelineError V X} {st : RunState V W}
      → IsOpened id now ids st
      → BodyEnd kind id now ids (raised e, st)

module _ {V X W A : Type 0} (kind : TraceKind) (id now : Text) (ids : List Text) where
  recorded-BodyEnd :
      (r : Result (PipelineError V X) A × RunState V W)
      → IsRecorded kind Status.ok Verdict.approved r
      → BodyEnd kind id now ids r
  recorded-BodyEnd (returned a, st) h = body_approved h.closed
  recorded-BodyEnd (raised e, st) h = cc h.returns

  rejected-RunEnd :
      (e : PipelineError V X) (r : Result (PipelineError V X) (Unit {0}) × RunState V W)
      → is_lirix e ≡ true
      → IsRecorded kind Status.rejected Verdict.blocked r
      → RunEnd {A = A} kind id now ids (after r (λ _. raise e))
  rejected-RunEnd e (returned u, st) t h = blocked_end t h.closed
  rejected-RunEnd e (raised x, st) t h = cc h.returns

  pub unbind-RunEnd :
      (r : Result (PipelineError V X) A × RunState V W)
      → RunEnd kind id now ids r
      → RunEnd kind id now ids (r.0, unbind r.1)
  unbind-RunEnd r (approved_end c) = approved_end c
  unbind-RunEnd r (blocked_end t c) = blocked_end t c
  unbind-RunEnd r (foreign_end f o) = foreign_end f o

module _ {V O P X W : Type 0} (client : Client V O P X W) (id now : Text) (ids : List Text) where
  rejection-RunEnd :
      {A : Type 0} (kind : TraceKind) (note : Doc) (e : PipelineError V X) (st : RunState V W)
      → is_lirix e ≡ true
      → IsOpened id now ids st
      → RunEnd {A = A} kind id now ids (record_failure client kind true note e st)
  unfolding record_failure
  rejection-RunEnd kind note e st t (flag, h) =
      rejected-RunEnd kind id now ids e (record_rejection client kind true note e st) t (
        subst
          (λ s.
            IsRecorded kind Status.rejected Verdict.blocked
              (record_rejection client kind true note e (record st { session = s })))
          (sym h) (rejection-IsRecorded client id now ids flag st kind note e))

  pub handled-RunEnd :
      {A : Type 0} (kind : TraceKind) (note : Doc) (r : Result (PipelineError V X) A × RunState V W)
      → BodyEnd kind id now ids r
      → RunEnd kind id now ids (handled client kind true note r)
  handled-RunEnd kind note r (body_approved c) = approved_end c
  handled-RunEnd kind note (raised e, st) (body_raised o) =
      if_when (RunEnd kind id now ids) (is_lirix e) _ (raised e, st)
        (λ t. rejection-RunEnd kind note e st t o) (λ f. foreign_end f o)

  -- A phase that leaves the session, then the approval.
  pub approved-BodyEnd :
      {B : Type 0} (request : Request V) (rationale : Text) (digests : W → Dict Text)
      (out : B → Option O) (policy : B → Option P) (r : Result (PipelineError V X) B × RunState V W)
      → is_own request.session ≡ true
      → IsOpened id now ids r.1
      → BodyEnd request.kind id now ids
          (after r (λ b. approve client request rationale digests (out b) (policy b)))
  approved-BodyEnd request rationale digests out policy (returned b, st) own (flag, h) =
      recorded-BodyEnd request.kind id now ids
        (approve client request rationale digests (out b) (policy b) st)
        (subst
          (λ s. IsRecorded request.kind Status.ok Verdict.approved (
            approve client request rationale digests (out b) (policy b)
              (record st { session = s })))
          (sym h)
          (approve-IsRecorded client id now ids flag st request rationale digests (out b) (policy b)
            own))
  approved-BodyEnd request rationale digests out policy (raised e, st) own o = body_raised o
