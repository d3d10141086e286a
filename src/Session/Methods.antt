-- ===== src/Session/Methods.antt =====
-- The other methods of ValidationSession in lirix/core/session.py: record_trace, the wrappers of
-- record_event, and finalize.
use lirix.Prelude.{
  Bool, true, false, not, ◌&&◌, ◌||◌, Option, none, some, List, [], ◌∷◌, snoc, Text, Dict, count,
  is_empty, text_eq, codes, returned, raised, if◌then◌else◌,
}
use lirix.Status.{Status, aggregate_statuses}
use lirix.Session.Types
use lirix.Session.Types.{
  Doc, SessionError, session_lifecycle_violation, session_trace_status_invalid,
  missing_fsm_prerequisites, session_decision_verdict_invalid, EventType, TraceKind, Lifecycle,
  Verdict, Payload, Scalar, Item, Entry, TraceSummary, is_finalized,
}
use lirix.Session.Fsm.{validate_append, seen}
use lirix.Session.Store.{
  Session, ExecutionPlan, Outcome, checked, trace_status_allowed, with_outcome,
  effective_workflow_strict, record_event,
}

-- A step of a trace: its `status`, `none` when it is no text or the step is no dict.
pub record Trace : Type 0 where
  pub correlation_id : Text
  pub steps : List (Option Text)
  pub content : Doc

-- The keyword arguments of record_trace.
pub record TraceMeta : Type 0 where
  pub migration_modes : Option Doc
  pub config_fingerprint : Option Text
  pub artifact_digests : Option (Dict Text)
  pub registry_closure_digest : Option Text
  pub replay_proof : Option (Dict Scalar)
  pub include_full_trace : Bool
  pub extra : Option Doc

abbrev status_is : Text → Option Text → Bool
status_is t none = false
status_is t (some s) = text_eq s t

-- _trace_summary
pub trace_summary : Trace → TraceSummary
trace_summary trace = record {
  ok_steps = count (status_is (codes "ok")) trace.steps;
  rejected_steps = count (status_is (codes "rejected")) trace.steps;
}

-- The non-empty texts among the steps' statuses.
pub step_statuses : List (Option Text) → List Text
step_statuses [] = []
step_statuses (none ∷ rest) = step_statuses rest
step_statuses (some s ∷ rest) =
    let later = step_statuses rest in if is_empty s then later else s ∷ later

-- if self._lifecycle == "open": self._lifecycle = "running"
abbrev pub start : Lifecycle → Lifecycle
start Lifecycle.opened = Lifecycle.running
start l = l

module _ (trace_digest : Trace → Text) where
  abbrev pub trace_item : Text → TraceKind → Trace → Status → TraceMeta → Item
  trace_item now kind trace status info = record {
    timestamp = now;
    kind = Types.Kind.trace_record kind;
    event_type = none;
    status = some status;
    payload = none;
    correlation_id = some trace.correlation_id;
    trace_digest = some (trace_digest trace);
    trace_summary = some (trace_summary trace);
    trace_overall_status = some (aggregate_statuses (step_statuses trace.steps));
    migration_modes = info.migration_modes;
    config_fingerprint = info.config_fingerprint;
    artifact_digests = info.artifact_digests;
    registry_closure_digest = info.registry_closure_digest;
    replay_proof = info.replay_proof;
    security_trace = if info.include_full_trace then some trace.content else none;
    extra = info.extra;
  }

  abbrev pub after_trace : TraceKind → Trace → Status → TraceMeta → Text → Session → Session
  after_trace kind trace status info now s = record s {
    timeline = snoc s.timeline (Entry.mapping (trace_item now kind trace status info));
    state = with_outcome s.state (aggregate_statuses (step_statuses trace.steps));
  }

  unfoldable pub record_trace : TraceKind → Trace → Status → TraceMeta → Text → Session → Outcome
  record_trace kind trace status info now s =
      if is_finalized s.lifecycle
      then (raised session_lifecycle_violation, s)
      else if not (trace_status_allowed status)
      then (raised session_trace_status_invalid, s)
      else let started : Session = record s { lifecycle = start s.lifecycle } in
        checked
          (validate_append started.lifecycle started.timeline
            (record { kind = Types.Kind.trace_record kind; event_type = none }) false)
          started (after_trace kind trace status info now started)

abbrev pub doc_payload : Doc → Payload
doc_payload content = record { verdict = none; content = content }

-- The payloads below are given by their JSON content.
unfoldable pub record_plan : Doc → Text → Session → Outcome
record_plan content = record_event EventType.plan (doc_payload content) Status.info

-- The plan is stored before the event is recorded, so it stays when the event is refused.
unfoldable pub bind_execution_plan : ExecutionPlan → Doc → Text → Session → Outcome
bind_execution_plan plan content now s =
    if is_finalized s.lifecycle
    then (raised session_lifecycle_violation, s)
    else record_event EventType.plan (doc_payload content) Status.info now
        (record s { state = record s.state { execution_plan = some plan } })

unfoldable pub record_draft : Doc → Text → Session → Outcome
record_draft content = record_event EventType.draft (doc_payload content) Status.info

unfoldable pub record_tool_call : Doc → Bool → Text → Session → Outcome
record_tool_call content succeeded =
    record_event EventType.tool_call (doc_payload content)
      (if succeeded then Status.ok else Status.rejected)

abbrev pub verdict_allowed : Verdict → Bool
verdict_allowed (Verdict.other_verdict t) = false
verdict_allowed _ = true

abbrev pub verdict_status : Verdict → Status
verdict_status Verdict.info = Status.info
verdict_status Verdict.approved = Status.ok
verdict_status _ = Status.rejected

unfoldable pub record_decision : Verdict → Doc → Text → Session → Outcome
record_decision verdict content now s =
    if effective_workflow_strict s
      && (not (seen EventType.plan s.timeline) || not (seen EventType.draft s.timeline))
    then (raised missing_fsm_prerequisites, s)
    else if not (verdict_allowed verdict)
    then (raised session_decision_verdict_invalid, s)
    else record_event EventType.decision (record { verdict = some verdict; content = content })
        (verdict_status verdict) now s

abbrev pub finalize_status : Bool → Status
finalize_status outcome_ok = if outcome_ok then Status.ok else Status.rejected

abbrev close : Outcome → Outcome
close (returned _, s) = (returned tt, record s { lifecycle = Lifecycle.finalized })
close (raised e, s) = (raised e, s)

unfoldable pub finalize : Bool → Doc → Text → Session → Outcome
finalize outcome_ok content now s =
    if is_finalized s.lifecycle
    then (raised session_lifecycle_violation, s)
    else close
        (record_event EventType.finalize (doc_payload content) (finalize_status outcome_ok) now s)
