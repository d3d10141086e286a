-- ===== src/Session/Laws/Lifecycle.antt =====
-- What the lifecycle of a session in lirix/core/session.py guarantees.
use lirix.Prelude.{
  ◌≡◌, refl, ap, ◌∙◌, Bool, true, false, not, ◌&&◌, ◌||◌, Option, some, List, [], ◌∷◌, count,
  count-append, arith, Text, returned, raised, if◌then◌else◌, inl, inr, ◌⊎◌, Bool-cases,
}
use lirix.Status.{Status}
use lirix.Session.Types.{
  Doc, SessionError, session_lifecycle_violation, missing_fsm_prerequisites,
  session_decision_verdict_invalid, EventType, plan, draft, tool_call, decision, finalize,
  annotation, Lifecycle, Payload, Entry, mapping, is_finalized, same_event, is_event, Verdict,
}
use lirix.Session.Fsm.{seen, validate_append}
use lirix.Session.Store.{
  Session, WorkflowMode, Outcome, new_session, effective_workflow_strict, after_event, record_event,
  link_trace, event_item,
}
use lirix.Session.Methods
use lirix.Session.Methods.{
  Trace, TraceMeta, trace_item, record_trace, record_plan, bind_execution_plan, record_draft,
  record_tool_call, record_decision, verdict_allowed, verdict_status, start, after_trace,
}
use lirix.Session.Calls.{Call, link, trace, event, bind, decide, finish, call, run}
use lirix.Session.Laws.Accepted.{record_event_cases, incoming}
use lirix.Session.Laws.Induction.{Kept, AllAdmissible, run_kept}
use lirix.Session.Laws.Preserved.{start-live}
use lirix.Session.Laws.RoundTrip.{new_session_starts}

abbrev pub Refused : Outcome → Session → Type 0
Refused o s = (e : SessionError) × (o ≡ (raised e, s))

annotation_of : (et : EventType) → same_event annotation et ≡ true → et ≡ annotation
annotation_of annotation h = refl
annotation_of plan h = cc
annotation_of _ h = cc

closed_refuses :
    (l : Lifecycle) (timeline : List Entry) (et : EventType) (own : Bool)
    → is_finalized l ≡ true
    → same_event annotation et ≡ false
    → validate_append l timeline (incoming et) own ≡ returned tt
    → ⊥
unfolding validate_append
closed_refuses l timeline et own closed other h = ground arith

event-Refused :
    (et : EventType) (payload : Payload) (status : Status) (now : Text) (s : Session)
    → is_finalized s.lifecycle ≡ true
    → same_event annotation et ≡ false
    → Refused (record_event et payload status now s) s
event-Refused et payload status now s closed other =
    elim (record_event_cases et payload status now s) [
      | inl refused ↦ refused
      | inr (accepted, _) ↦ absurd (
          closed_refuses s.lifecycle s.timeline et (effective_workflow_strict s) closed other
            accepted.legal)
    ]

decision-Refused :
    (verdict : Verdict) (content : Doc) (now : Text) (s : Session)
    → is_finalized s.lifecycle ≡ true
    → Refused (record_decision verdict content now s) s
unfolding record_decision
decision-Refused verdict content now s closed =
    elim (Bool-cases (
      effective_workflow_strict s && (not (seen plan s.timeline) || not (seen draft s.timeline)))) [
        | inl missing ↦ rw missing (missing_fsm_prerequisites, refl)
        | inr ready ↦ elim (Bool-cases (verdict_allowed verdict)) [
          | inl valid ↦
              rw (ready, valid)
                (event-Refused decision (record { verdict = some verdict; content = content })
                  (verdict_status verdict) now s closed refl)
          | inr invalid ↦ rw (ready, invalid) (session_decision_verdict_invalid, refl)
        ]
      ]

-- The call is a record_event of an annotation that went through.
abbrev pub Annotates : Call → Session → Outcome → Type 0
Annotates c s o =
    (payload : Payload) × (status : Status) × (now : Text) × (c
      ≡ event annotation payload status now)
    × (o ≡ (returned tt, after_event annotation payload status now s))

-- On a finalized session every call either raises and changes nothing, or is a record_event of an
-- annotation that returns and appends it.
pub finalized_frozen :
    (trace_digest : Trace → Text) (c : Call) (s : Session)
    → is_finalized s.lifecycle ≡ true
    → Refused (call trace_digest c s) s ⊎ Annotates c s (call trace_digest c s)
unfolding call link_trace record_trace record_plan bind_execution_plan record_draft record_tool_call
    Methods.finalize
finalized_frozen trace_digest (link id) s closed = inl (session_lifecycle_violation, rw closed refl)
finalized_frozen trace_digest (trace kind t status info now) s closed =
    inl (session_lifecycle_violation, rw closed refl)
finalized_frozen trace_digest (event et payload status now) s closed =
    elim (Bool-cases (same_event annotation et)) [
      | inr other ↦ inl (event-Refused et payload status now s closed other)
      | inl same ↦ elim (record_event_cases et payload status now s) [
        | inl refused ↦ inl refused
        | inr (_, e) ↦ inr (
          payload,
          status,
          now,
          ap (λ (x : EventType). event x payload status now) (annotation_of et same),
          e
              ∙ ap (λ (x : EventType). (returned tt, after_event x payload status now s))
                  (annotation_of et same),
        )
      ]
    ]
finalized_frozen trace_digest (Call.plan content now) s closed =
    inl (event-Refused plan _ _ now s closed refl)
finalized_frozen trace_digest (bind p content now) s closed =
    inl (session_lifecycle_violation, rw closed refl)
finalized_frozen trace_digest (Call.draft content now) s closed =
    inl (event-Refused draft _ _ now s closed refl)
finalized_frozen trace_digest (Call.tool_call content done now) s closed =
    inl (event-Refused tool_call _ _ now s closed refl)
finalized_frozen trace_digest (decide verdict content now) s closed =
    inl (decision-Refused verdict content now s closed)
finalized_frozen trace_digest (finish good content now) s closed =
    inl (session_lifecycle_violation, rw closed refl)

-- The number of finalize events, as the lifecycle tells it.
abbrev pub FinalizesOnce : Session → Type 0
FinalizesOnce s = count (is_event finalize) s.timeline ≡ (if is_finalized s.lifecycle then 1 else 0)

-- No condition on the metadata of a trace.
abbrev pub AnyMeta : TraceMeta → Type 0
AnyMeta info = Unit

FinalizesOnce-kept : (trace_digest : Trace → Text) → Kept trace_digest AnyMeta FinalizesOnce
FinalizesOnce-kept trace_digest = record {
  linked = λ s ids p. p;
  planned = λ s p_ p. p;
  recorded = λ s et payload status now other accepted p. ground (
    arith,
    count-append (is_event finalize) s.timeline (mapping (event_item now et status payload) ∷ []),
  );
  ended = λ s payload status now live accepted p. ground (
    arith,
    count-append (is_event finalize) s.timeline
        (mapping (event_item now finalize status payload) ∷ []),
  );
  traced = λ s kind t status info now live ok p. ground (
    arith,
    start-live s.lifecycle live,
    count-append (is_event finalize) s.timeline
        (mapping (trace_item trace_digest now kind t status info) ∷ []),
  );
}

-- A new session, after any calls of which none writes a finalize event but `finalize`, holds
-- exactly one finalize event if it is finalized, and none otherwise.
pub finalizes_once :
    (trace_digest : Trace → Text) (id created : Text) (mode : Option WorkflowMode) (own : Bool)
    (s : Session) (cs : List Call)
    → new_session id created mode own ≡ returned s
    → AllAdmissible AnyMeta cs
    → FinalizesOnce (run trace_digest cs s)
finalizes_once trace_digest id created mode own s cs made ok =
    let started = new_session_starts id created mode own s made in
    run_kept (FinalizesOnce-kept trace_digest) cs s ok (rw (started.0, started.1) refl)

-- A record_decision that returns on a strict session found a plan, a draft and a tool call on the
-- timeline, a verdict it knows, and a session that was not finalized.
pub decision_backed :
    (verdict : Verdict) (content : Doc) (now : Text) (s t : Session)
    → effective_workflow_strict s ≡ true
    → record_decision verdict content now s ≡ (returned tt, t)
    → (seen plan s.timeline ≡ true)
      × (seen draft s.timeline ≡ true)
      × (seen tool_call s.timeline ≡ true)
      × (verdict_allowed verdict ≡ true)
      × (is_finalized s.lifecycle ≡ false)
unfolding record_decision record_event validate_append
decision_backed verdict content now s t own h =
    (ground arith, ground arith, ground arith, ground arith, ground arith)
