-- ===== src/Session/Tests.antt =====
-- Runs of lirix/core/session.py and session_fsm.py on one agent session.
use lirix.Prelude.{
  ◌≡◌, refl, true, false, none, some, List, [], ◌∷◌, ◌≤◌, ◌+◌, ◌⊎◌, Text, codes, returned, count,
}
use lirix.Status.{Status}
use lirix.Contracts.{is_hex_digest}
use lirix.Session.Types.{EventType, TraceKind, Lifecycle, Verdict, Payload, is_event, is_finalized}
use lirix.Session.Fsm.{seen, validate_append}
use lirix.Session.Store.{
  WorkflowMode, Session, new_session, effective_workflow_strict, link_trace, record_event,
}
use lirix.Session.Methods
use lirix.Session.Methods.{Trace, verdict_allowed, TraceMeta, record_trace, record_decision}
use lirix.Session.Replay.{drifts, DigestPayload, Bundle, bundle_of, last_trace, replay_bundle}
use lirix.Session.Verify.{verify_replay_bundle}
use lirix.Session.Calls.{Call, call, run}
use lirix.Session.Laws.Meta.{TraceMetaOk, MetaOk-none}
use lirix.Session.Laws.Induction.{AllAdmissible}
use lirix.Session.Laws.RoundTrip.{verify-replay_bundle}
use lirix.Session.Laws.Lifecycle.{
  finalized_frozen, finalizes_once, decision_backed, AnyMeta, Refused, Annotates, FinalizesOnce,
}
use lirix.Session.Laws.Unbounded.{Ready, rounds, finalize_unbounded}
use lirix.Session.Laws.Outcome.{outcome_rank, outcome_rank-run}
use lirix.Session.Laws.Verified.{verify_sound, IsVerified}

abbrev zeros : Text
zeros = codes "0000000000000000000000000000000000000000000000000000000000000000"

abbrev digest_of_trace : Trace → Text
digest_of_trace t = zeros

abbrev digest_of_payload : DigestPayload → Text
digest_of_payload p = codes "d"

abbrev agent_session : Session
agent_session = record {
  session_id = codes "s";
  created_at = codes "0";
  correlation_ids = [];
  timeline = [];
  state = record {
    session_outcome = none;
    workflow_decision_state = none;
    execution_plan = none;
    l1_l3_ok = false;
  };
  lifecycle = Lifecycle.opened;
  workflow_mode = WorkflowMode.agent;
  workflow_strict = true;
}

abbrev bare : TraceMeta
bare = record {
  migration_modes = none;
  config_fingerprint = none;
  artifact_digests = none;
  registry_closure_digest = none;
  replay_proof = none;
  include_full_trace = false;
  extra = none;
}

abbrev a_trace : Trace
a_trace = record { correlation_id = codes "c"; steps = some (codes "ok") ∷ []; content = [] }

-- A plan, a draft, a tool call, a trace, a decision, the end, and one call after it.
abbrev workflow : List Call
workflow =
    Call.plan [] (codes "1")
    ∷ Call.draft [] (codes "2")
    ∷ Call.tool_call [] true (codes "3")
    ∷ Call.trace TraceKind.validate_only a_trace Status.ok bare (codes "4")
    ∷ Call.decide Verdict.approved [] (codes "5")
    ∷ Call.finish true [] (codes "6")
    ∷ Call.link (codes "late")
    ∷ []

abbrev ended : Session
ended = run digest_of_trace workflow agent_session

abbrev exported : Bundle
exported = bundle_of digest_of_payload (last_trace ended.timeline) ended

zeros_hex : (t : Trace) → is_hex_digest (digest_of_trace t) ≡ true
unfolding is_hex_digest
zeros_hex t = refl

agent_session_new :
    new_session (codes "s") (codes "0") (some WorkflowMode.agent) false ≡ returned agent_session
unfolding new_session
agent_session_new = refl

bare_ok : TraceMetaOk bare
bare_ok = MetaOk-none

workflow_ok : AllAdmissible TraceMetaOk workflow
workflow_ok = (tt, (tt, (tt, (bare_ok, (tt, (tt, (tt, tt)))))))

workflow_any : AllAdmissible AnyMeta workflow
workflow_any = (tt, (tt, (tt, (tt, (tt, (tt, (tt, tt)))))))

exported_eq : replay_bundle digest_of_payload ended ≡ returned exported
unfolding replay_bundle run call record_event record_trace Methods.record_plan Methods.record_draft
    Methods.record_tool_call record_decision Methods.finalize link_trace drifts validate_append
exported_eq = refl

verify-replay_bundle_example :
    verify_replay_bundle digest_of_payload exported true false none ≡ returned tt
verify-replay_bundle_example =
    verify-replay_bundle digest_of_trace digest_of_payload true (codes "s") (codes "0")
      (some WorkflowMode.agent) false agent_session workflow exported zeros_hex agent_session_new
      (λ e. refl) workflow_ok exported_eq

exported_accepted : verify_replay_bundle digest_of_payload exported true false none ≡ returned tt
exported_accepted =
    verify-replay_bundle digest_of_trace digest_of_payload true (codes "s") (codes "0")
      (some WorkflowMode.agent) false agent_session workflow exported zeros_hex agent_session_new
      (λ e. refl) workflow_ok exported_eq

verify_sound_example : IsVerified digest_of_payload exported
verify_sound_example = verify_sound digest_of_payload exported true false none exported_accepted

abbrev closed : Session
closed = record agent_session { lifecycle = Lifecycle.finalized }

finalized_frozen_example :
    Refused (call digest_of_trace (Call.draft [] (codes "7")) closed) closed
    ⊎ Annotates
        (Call.draft [] (codes "7"))
        closed
        (call digest_of_trace (Call.draft [] (codes "7")) closed)
finalized_frozen_example = finalized_frozen digest_of_trace (Call.draft [] (codes "7")) closed refl

finalizes_once_example : FinalizesOnce ended
finalizes_once_example =
    finalizes_once digest_of_trace (codes "s") (codes "0") (some WorkflowMode.agent) false
      agent_session workflow agent_session_new workflow_any

outcome_rank-run_example : outcome_rank agent_session.state ≤ outcome_rank ended.state
outcome_rank-run_example = outcome_rank-run digest_of_trace agent_session workflow

abbrev prepared : Session
prepared =
    run digest_of_trace
      (Call.plan [] (codes "1")
        ∷ Call.draft [] (codes "2")
        ∷ Call.tool_call [] true (codes "3")
        ∷ [])
      agent_session

abbrev approved_session : Session
approved_session = (record_decision Verdict.approved [] (codes "5") prepared).1

approved_eq :
    record_decision Verdict.approved [] (codes "5") prepared ≡ (returned tt, approved_session)
unfolding run call record_event record_trace Methods.record_plan Methods.record_draft
    Methods.record_tool_call record_decision Methods.finalize link_trace validate_append
approved_eq = refl

prepared_strict : effective_workflow_strict prepared ≡ true
unfolding run call record_event record_trace Methods.record_plan Methods.record_draft
    Methods.record_tool_call record_decision Methods.finalize link_trace validate_append
prepared_strict = refl

decision_backed_example :
    (seen EventType.plan prepared.timeline ≡ true)
    × (seen EventType.draft prepared.timeline ≡ true)
    × (seen EventType.tool_call prepared.timeline ≡ true)
    × (verdict_allowed Verdict.approved ≡ true)
    × (is_finalized prepared.lifecycle ≡ false)
decision_backed_example =
    decision_backed Verdict.approved [] (codes "5") prepared approved_session prepared_strict
      approved_eq

abbrev direct_session : Session
direct_session = record agent_session {
  workflow_mode = WorkflowMode.direct;
  workflow_strict = false;
}

abbrev ending : Payload
ending = record { verdict = none; content = [] }

finalize_unbounded_example :
    Ready (run digest_of_trace (rounds digest_of_trace ending (codes "1") 2) direct_session)
    × (count
          (is_event EventType.finalize)
          (run digest_of_trace
            (rounds digest_of_trace ending (codes "1") 2)
            direct_session).timeline
        ≡ count (is_event EventType.finalize) direct_session.timeline + 2)
finalize_unbounded_example =
    finalize_unbounded digest_of_trace ending (codes "1") 2 direct_session
      (record { live = refl; unseen = refl; backed = refl })
