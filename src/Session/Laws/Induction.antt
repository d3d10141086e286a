-- ===== src/Session/Laws/Induction.antt =====
-- The induction rule for invariants of a session over any sequence of calls of
-- lirix/core/session.py.
use lirix.Prelude.{
  ◌≡◌, refl, false, ◌||◌, not, elem, is_empty, ◌&&◌, List, [], ◌∷◌, snoc, Text, inl, inr,
  Bool-cases, some,
}
use lirix.Status.{Status}
use lirix.Session.Types.{
  Doc, EventType, finalize, TraceKind, Lifecycle, Payload, is_finalized, same_event, Verdict,
}
use lirix.Session.Fsm.{seen}
use lirix.Session.Store.{
  Session, ExecutionPlan, after_event, record_event, link_trace, effective_workflow_strict,
}
use lirix.Session.Methods.{
  Trace, TraceMeta, after_trace, start, record_plan, bind_execution_plan, record_draft,
  record_tool_call, record_decision, verdict_allowed, verdict_status, doc_payload,
}
use lirix.Session.Calls.{Call, link, trace, event, bind, decide, finish, call, run}
use lirix.Session.Laws.Accepted.{Accepted, record_event_keeps}
use lirix.Session.Laws.Preserved.{finalize_keeps, record_trace_keeps}

-- No finalize event is written but by `finalize`, and the metadata of each trace satisfies `Q`.
abbrev pub Admissible : (TraceMeta → Type 0) → Call → Type 0
Admissible Q (event et payload status now) = same_event finalize et ≡ false
Admissible Q (trace kind t status info now) = Q info
Admissible Q _ = Unit

abbrev pub AllAdmissible : (TraceMeta → Type 0) → List Call → Type 0
AllAdmissible Q [] = Unit
AllAdmissible Q (c ∷ cs) = Admissible Q c × AllAdmissible Q cs

-- `P` survives every change that a call can make.
pub record Kept (trace_digest : Trace → Text) (Q : TraceMeta → Type 0) (P : Session → Type 0)
    : Type 0 where
  pub linked : (s : Session) (ids : List Text) → P s → P (record s { correlation_ids = ids })
  pub planned :
      (s : Session) (plan : ExecutionPlan)
      → P s
      → P (record s { state = record s.state { execution_plan = some plan } })
  pub recorded :
      (s : Session) (et : EventType) (payload : Payload) (status : Status) (now : Text)
      → same_event finalize et ≡ false
      → Accepted s et status
      → P s
      → P (after_event et payload status now s)
  pub ended :
      (s : Session) (payload : Payload) (status : Status) (now : Text)
      → is_finalized s.lifecycle ≡ false
      → Accepted s finalize status
      → P s
      → P (record (after_event finalize payload status now s) { lifecycle = Lifecycle.finalized })
  pub traced :
      (s : Session) (kind : TraceKind) (t : Trace) (status : Status) (info : TraceMeta) (now : Text)
      → is_finalized s.lifecycle ≡ false
      → Q info
      → P s
      → P (
          after_trace trace_digest kind t status info now
            (record s { lifecycle = start s.lifecycle }))

module _ {trace_digest : Trace → Text} {Q : TraceMeta → Type 0} {P : Session → Type 0}
    (kept : Kept trace_digest Q P) where
  record_event_kept :
      (et : EventType) (payload : Payload) (status : Status) (now : Text) (s : Session)
      → same_event finalize et ≡ false
      → P s
      → P (record_event et payload status now s).1
  record_event_kept et payload status now s other p =
      record_event_keeps P et payload status now s p
        (λ accepted. kept.recorded s et payload status now other accepted p)

  link_trace_kept : (id : Text) (s : Session) → P s → P (link_trace id s).1
  unfolding link_trace
  link_trace_kept id s p = elim (Bool-cases (is_finalized s.lifecycle)) [
    | inl closed ↦ rw closed p
    | inr live ↦ elim (Bool-cases (not (is_empty id) && not (elem id s.correlation_ids))) [
      | inl new ↦ rw (live, new) (kept.linked s (snoc s.correlation_ids id) p)
      | inr old ↦ rw (live, old) p
    ]
  ]

  bind_kept :
      (plan : ExecutionPlan) (content : Doc) (now : Text) (s : Session)
      → P s
      → P (bind_execution_plan plan content now s).1
  unfolding bind_execution_plan
  bind_kept plan content now s p = elim (Bool-cases (is_finalized s.lifecycle)) [
    | inl closed ↦ rw closed p
    | inr live ↦ rw live (
        record_event_kept EventType.plan (doc_payload content) Status.info now
          (record s { state = record s.state { execution_plan = some plan } }) refl
          (kept.planned s plan p))
  ]

  decide_kept :
      (verdict : Verdict) (content : Doc) (now : Text) (s : Session)
      → P s
      → P (record_decision verdict content now s).1
  unfolding record_decision
  decide_kept verdict content now s p =
      elim (Bool-cases (
        effective_workflow_strict s
        && (not (seen EventType.plan s.timeline) || not (seen EventType.draft s.timeline)))) [
          | inl missing ↦ rw missing p
          | inr ready ↦ elim (Bool-cases (verdict_allowed verdict)) [
            | inl valid ↦
                rw (ready, valid)
                  (record_event_kept EventType.decision _ (verdict_status verdict) now s refl p)
            | inr invalid ↦ rw (ready, invalid) p
          ]
        ]

  pub call_kept : (c : Call) (s : Session) → Admissible Q c → P s → P (call trace_digest c s).1
  unfolding call record_plan record_draft record_tool_call
  call_kept (link id) s ok p = link_trace_kept id s p
  call_kept (trace kind t status info now) s ok p =
      record_trace_keeps trace_digest P kind t status info now s p
        (λ live. kept.traced s kind t status info now live ok p)
  call_kept (event et payload status now) s ok p = record_event_kept et payload status now s ok p
  call_kept (Call.plan content now) s ok p = record_event_kept EventType.plan _ _ now s refl p
  call_kept (bind plan content now) s ok p = bind_kept plan content now s p
  call_kept (Call.draft content now) s ok p = record_event_kept EventType.draft _ _ now s refl p
  call_kept (Call.tool_call content done now) s ok p =
      record_event_kept EventType.tool_call _ _ now s refl p
  call_kept (decide verdict content now) s ok p = decide_kept verdict content now s p
  call_kept (finish good content now) s ok p =
      finalize_keeps P good content now s p (λ live accepted. kept.ended s _ _ now live accepted p)

  -- Whatever is called, in whatever order, an invariant that every change keeps still holds.
  pub run_kept :
      (cs : List Call) (s : Session) → AllAdmissible Q cs → P s → P (run trace_digest cs s)
  unfolding run
  run_kept [] s ok p = p
  run_kept (c ∷ cs) s (ok, oks) p = run_kept cs (call trace_digest c s).1 oks (call_kept c s ok p)
