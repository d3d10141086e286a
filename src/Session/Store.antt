-- ===== src/Session/Store.antt =====
-- ValidationSession of lirix/core/session.py: its state and the methods that change it. A method
-- returns its result or exception and the session that it leaves. `now` is the clock's answer,
-- and `trace_digest` the digest of lirix/core/evidence.py.
use lirix.Prelude.{
  ℕ, Bool, true, false, not, ◌&&◌, ◌||◌, Option, none, some, List, [], ◌∷◌, snoc, Text, elem,
  is_empty, value_or, Result, returned, raised, raise_if, ◌>>◌, if◌then◌else◌,
}
use lirix.Status.{Status, aggregate_statuses, token}
use lirix.Session.Types
use lirix.Session.Types.{
  Doc, SessionError, session_lifecycle_violation, session_workflow_mode_invalid,
  session_trace_status_invalid, session_event_type_invalid, session_event_status_invalid,
  missing_fsm_prerequisites, session_decision_verdict_invalid, EventType, TraceKind, Lifecycle,
  Verdict, Payload, Scalar, Item, Entry, TraceSummary, is_finalized,
}
use lirix.Session.Fsm.{validate_append}

pub data WorkflowMode : Type 0 where
  direct agent : WorkflowMode

-- class ExecutionPlan
pub record ExecutionPlan : Type 0 where
  pub plan_id : Text
  pub objective : Text
  pub steps : List Text
  pub retry_budget : ℕ
  pub constraints : List Text

-- The keys of `state`. `l1_l3_ok` is written by the facade.
pub record SessionState : Type 0 where
  pub session_outcome : Option Status
  pub workflow_decision_state : Option (Option Verdict)
  pub execution_plan : Option ExecutionPlan
  pub l1_l3_ok : Bool

pub record Session : Type 0 where
  pub session_id : Text
  pub created_at : Text
  pub correlation_ids : List Text
  pub timeline : List Entry
  pub state : SessionState
  pub lifecycle : Lifecycle
  pub workflow_mode : WorkflowMode
  pub workflow_strict : Bool

abbrev is_agent : WorkflowMode → Bool
is_agent agent = true
is_agent direct = false

abbrev empty_state : SessionState
empty_state = record {
  session_outcome = none;
  workflow_decision_state = none;
  execution_plan = none;
  l1_l3_ok = false;
}

-- The constructor with __post_init__; `none` is a mode that is neither.
unfoldable pub new_session : Text → Text → Option WorkflowMode → Bool → Result SessionError Session
new_session session_id created_at none workflow_strict = raised session_workflow_mode_invalid
new_session session_id created_at (some mode) workflow_strict = returned (record {
  session_id = session_id;
  created_at = created_at;
  correlation_ids = [];
  timeline = [];
  state = empty_state;
  lifecycle = Lifecycle.opened;
  workflow_mode = mode;
  workflow_strict = workflow_strict || is_agent mode;
})

abbrev pub effective_workflow_strict : Session → Bool
effective_workflow_strict s = s.workflow_strict || is_agent s.workflow_mode

abbrev pub Outcome : Type 0
Outcome = Result SessionError (Unit {0}) × Session

-- A check that may raise on the session `s`, then the session `next`.
abbrev pub checked : Result SessionError (Unit {0}) → Session → Session → Outcome
checked (returned _) s next = (returned tt, next)
checked (raised e) s next = (raised e, s)

abbrev pub ensure_not_finalized : Session → Result SessionError (Unit {0})
ensure_not_finalized s = raise_if (is_finalized s.lifecycle) session_lifecycle_violation

unfoldable pub link_trace : Text → Session → Outcome
link_trace correlation_id s = checked (ensure_not_finalized s) s (
    if not (is_empty correlation_id) && not (elem correlation_id s.correlation_ids)
    then record s { correlation_ids = snoc s.correlation_ids correlation_id }
    else s)

-- SESSION_ALLOWED_STATUS, TRACE_ALLOWED_STATUS, SESSION_ALLOWED_EVENT_TYPES
abbrev pub session_status_allowed : Status → Bool
session_status_allowed Status.ok = true
session_status_allowed Status.rejected = true
session_status_allowed Status.info = true
session_status_allowed _ = false

abbrev pub trace_status_allowed : Status → Bool
trace_status_allowed Status.ok = true
trace_status_allowed Status.rejected = true
trace_status_allowed _ = false

abbrev pub event_type_allowed : EventType → Bool
event_type_allowed (EventType.other_event t) = false
event_type_allowed _ = true

abbrev pub is_decision : EventType → Bool
is_decision EventType.decision = true
is_decision _ = false

-- state["session_outcome"] = aggregate_statuses([prev, status])
abbrev pub with_outcome : SessionState → Status → SessionState
with_outcome state status = record state {
  session_outcome =
      some (
        aggregate_statuses
          (token (value_or state.session_outcome Status.info) ∷ token status ∷ []));
}

abbrev pub event_item : Text → EventType → Status → Payload → Item
event_item now event_type status payload = record {
  timestamp = now;
  kind = Types.Kind.session_event;
  event_type = some event_type;
  status = some status;
  payload = some payload;
  correlation_id = none;
  trace_digest = none;
  trace_summary = none;
  trace_overall_status = none;
  migration_modes = none;
  config_fingerprint = none;
  artifact_digests = none;
  registry_closure_digest = none;
  replay_proof = none;
  security_trace = none;
  extra = none;
}

-- if event_type == "decision" and strict: state["workflow_decision_state"] = payload.get("verdict")
abbrev pub decided_state : EventType → Payload → Session → SessionState
decided_state event_type payload s =
    if is_decision event_type && effective_workflow_strict s
    then record s.state { workflow_decision_state = some payload.verdict }
    else s.state

abbrev pub after_event : EventType → Payload → Status → Text → Session → Session
after_event event_type payload status now s = record s {
  timeline = snoc s.timeline (Entry.mapping (event_item now event_type status payload));
  state = with_outcome (decided_state event_type payload s) status;
}

abbrev pub check_event : EventType → Status → Session → Result SessionError (Unit {0})
check_event event_type status s = do
  raise_if (not (event_type_allowed event_type)) session_event_type_invalid
  raise_if (not (session_status_allowed status)) session_event_status_invalid
  validate_append s.lifecycle s.timeline
      (record { kind = Types.Kind.session_event; event_type = some event_type })
      (effective_workflow_strict s)

unfoldable pub record_event : EventType → Payload → Status → Text → Session → Outcome
record_event event_type payload status now s =
    checked (check_event event_type status s) s (after_event event_type payload status now s)
