-- ===== src/Session/Verify.antt =====
-- `verify_replay_bundle` of lirix/core/session.py.
use lirix.Prelude.{
  ℕ, ◌+◌, Bool, true, false, not, ◌&&◌, ◌||◌, Option, none, some, List, [], ◌∷◌, snoc, all, count,
  length, ltb, ◌==◌, Text, Dict, codes, text_eq, elem, is_empty, has_key, get, take, value_or,
  Result, returned, raised, raise_if, ◌>>=◌, ◌>>◌, if◌then◌else◌,
}
use lirix.Contracts.{is_hex_digest}
use lirix.Session.Types
use lirix.Session.Types.{
  Doc, SessionError, EventType, Kind, session_event, Scalar, text, other, Item, Entry, not_mapping,
  mapping, is_event,
}
use lirix.Session.Fsm.{validate_append}
use lirix.Session.Store.{session_status_allowed, event_type_allowed}
use lirix.Session.Replay.{
  BundlePayload, Bundle, DigestPayload, Field, absent, ill_typed, given, replay_bundle_version,
  empty_doc,
}
use lirix.Status.{Status}

-- The `reason` of the exception. Two reasons of the source are each split by the check that
-- raises them; `fsm` is what `validate_append` raised.
pub data VerifyError : Type 0 where
  version malformed workflow_mode_missing_or_invalid : VerifyError
  timeline_event_type timeline_status timeline_order timeline_finalize_duplicate : VerifyError
  timeline_size_mismatch decision_count_mismatch : VerifyError
  registry_closure_digest_malformed config_fingerprint_malformed : VerifyError
  last_trace_digest_malformed artifact_digests_malformed artifact_digests_key_not_allowed :
      VerifyError
  replay_proof_malformed replay_proof_missing_keys integrity : VerifyError
  fsm : SessionError → VerifyError

abbrev Check : Type 0
Check = Result VerifyError (Unit {0})

-- The variables of the loop over the timeline.
pub record Replayed : Type 0 where
  pub timeline : List Entry
  pub saw_finalize : Bool
  pub finalize_count : ℕ

abbrev pub is_finalize : EventType → Bool
is_finalize EventType.finalize = true
is_finalize _ = false

-- event_type in {"plan", "draft", "tool_call", "decision"}
abbrev pub is_session_mutation : EventType → Bool
is_session_mutation EventType.plan = true
is_session_mutation EventType.draft = true
is_session_mutation EventType.tool_call = true
is_session_mutation EventType.decision = true
is_session_mutation _ = false

abbrev from_fsm : Result SessionError (Unit {0}) → Check
from_fsm (returned u) = returned u
from_fsm (raised e) = raised (fsm e)

abbrev replay_event : Entry → EventType → Replayed → Result VerifyError Replayed
replay_event entry et st =
    if is_finalize et
    then returned (record {
      timeline = snoc st.timeline entry;
      saw_finalize = true;
      finalize_count = st.finalize_count + 1;
    })
    else if st.saw_finalize && is_session_mutation et
    then raised timeline_order
    else returned (record st { timeline = snoc st.timeline entry })

abbrev known_event : Option EventType → Result VerifyError EventType
known_event none = raised timeline_event_type
known_event (some et) = if event_type_allowed et then returned et else raised timeline_event_type

abbrev known_status : Option Status → Check
known_status none = raised timeline_status
known_status (some st) = if session_status_allowed st then returned tt else raised timeline_status

abbrev check_event : Bool → Item → Replayed → Result VerifyError Replayed
check_event strict item st = do
  et ← known_event item.event_type
  known_status item.status
  if strict
      then from_fsm (
          validate_append Types.Lifecycle.running st.timeline
            (record { kind = session_event; event_type = some et }) true)
      else returned tt
  replay_event (mapping item) et st

abbrev by_kind : Kind → Bool → Item → Replayed → Result VerifyError Replayed
by_kind session_event strict item st = check_event strict item st
by_kind _ strict item st = returned st

-- One round of the loop over the timeline.
unfoldable pub replay_entry : Bool → Replayed → Entry → Result VerifyError Replayed
replay_entry strict st not_mapping = raised malformed
replay_entry strict st (mapping item) = by_kind item.kind strict item st

unfoldable pub replay_timeline : Bool → Replayed → List Entry → Result VerifyError Replayed
replay_timeline strict st [] = returned st
replay_timeline strict st (e ∷ rest) = do
  st' ← replay_entry strict st e
  replay_timeline strict st' rest

abbrev pub replay_start : Replayed
replay_start = record { timeline = []; saw_finalize = false; finalize_count = 0 }

abbrev pub matches : Option ℕ → ℕ → Bool
matches none n = true
matches (some m) n = m == n

abbrev pub hex_or_none : Option Text → Bool
hex_or_none none = true
hex_or_none (some t) = is_hex_digest t

-- `value or {}`
abbrev pub or_empty {ℓ} : {A : Type ℓ} → Field (Dict A) → VerifyError → Result VerifyError (Dict A)
or_empty absent e = returned []
or_empty ill_typed e = raised e
or_empty (given d) e = returned d

-- REPLAY_ARTIFACT_ALLOWED_KEYS, or the ext_ namespace
abbrev pub artifact_key_allowed : Text → Bool
artifact_key_allowed key =
    elem key (
      codes "config_snapshot_digest"
      ∷ codes "rpc_evidence_digest"
      ∷ codes "policy_decision_digest"
      ∷ codes "chain_profile_digest"
      ∷ [])
    || text_eq (take 4 key) (codes "ext_")

unfoldable pub check_artifacts : Dict Text → Check
check_artifacts [] = returned tt
check_artifacts ((key, value) ∷ rest) = do
  raise_if (is_empty key) artifact_digests_malformed
  raise_if (not (artifact_key_allowed key)) artifact_digests_key_not_allowed
  raise_if (not (is_hex_digest value)) artifact_digests_malformed
  check_artifacts rest

-- REPLAY_PROOF_STRICT_REQUIRED_KEYS
abbrev pub has_required_keys : Dict Scalar → Bool
has_required_keys proof =
    all (λ key. has_key key proof)
      (codes "chain_registry_digest"
        ∷ codes "decoder_registry_digest"
        ∷ codes "registry_version"
        ∷ codes "registry_source"
        ∷ [])

abbrev scalar_is_hex : Option Scalar → Bool
scalar_is_hex none = true
scalar_is_hex (some (text t)) = is_hex_digest t
scalar_is_hex (some (other t)) = is_hex_digest t

abbrev scalar_is_text : Option Scalar → Bool
scalar_is_text none = true
scalar_is_text (some (text t)) = true
scalar_is_text (some (other t)) = false

unfoldable pub check_proof : Bool → Dict Scalar → Check
check_proof strict proof = do
  raise_if (strict && not (has_required_keys proof)) replay_proof_missing_keys
  raise_if (not (scalar_is_hex (get (codes "chain_registry_digest") proof))) replay_proof_malformed
  raise_if (not (scalar_is_hex (get (codes "decoder_registry_digest") proof)))
      replay_proof_malformed
  raise_if (not (scalar_is_text (get (codes "registry_version") proof))) replay_proof_malformed
  raise_if (not (scalar_is_text (get (codes "registry_source") proof))) replay_proof_malformed

abbrev pub required {ℓ} : {A : Type ℓ} → Option A → VerifyError → Result VerifyError A
required none e = raised e
required (some a) e = returned a

abbrev pub version_ok : Option Text → Bool
version_ok none = false
version_ok (some v) = text_eq v replay_bundle_version

-- The checks of the timeline and of the counts that the bundle states.
unfoldable pub check_timeline : Bool → Bundle → List Entry → Check
check_timeline strict bundle timeline = do
  st ← replay_timeline strict replay_start timeline
  raise_if (ltb 1 st.finalize_count) timeline_finalize_duplicate
  raise_if (not (matches bundle.timeline_size (length timeline))) timeline_size_mismatch
  raise_if (not (matches bundle.decision_count (count (is_event EventType.decision) timeline)))
      decision_count_mismatch

module _ (stable_digest : DigestPayload → Text) where
  abbrev pub recomputed : Bundle → Dict Text → Dict Scalar → BundlePayload → Text
  recomputed bundle artifacts proof payload = stable_digest (record {
    bundle_version = replay_bundle_version;
    migration_modes = value_or bundle.migration_modes empty_doc;
    config_fingerprint = bundle.config_fingerprint;
    last_trace_digest = bundle.last_trace_digest;
    artifact_digests = artifacts;
    replay_proof = proof;
    payload = payload;
    registry_closure_digest = bundle.registry_closure_digest;
  })

  unfoldable pub verify_replay_bundle : Bundle → Bool → Bool → Option Bool → Check
  verify_replay_bundle bundle enforce_workflow_strict enforce_replay_proof_strict enforce_order = do
    raise_if (not (version_ok bundle.bundle_version)) version
    digest_expected ← required bundle.bundle_digest malformed
    payload ← required bundle.payload malformed
    _mode ← required payload.workflow_mode workflow_mode_missing_or_invalid
    timeline ← required payload.timeline malformed
    check_timeline (value_or enforce_order enforce_workflow_strict) bundle timeline
    raise_if (not (hex_or_none bundle.registry_closure_digest)) registry_closure_digest_malformed
    raise_if (not (hex_or_none bundle.config_fingerprint)) config_fingerprint_malformed
    raise_if (not (hex_or_none bundle.last_trace_digest)) last_trace_digest_malformed
    artifacts ← or_empty bundle.artifact_digests artifact_digests_malformed
    check_artifacts artifacts
    proof ← or_empty bundle.replay_proof replay_proof_malformed
    check_proof enforce_replay_proof_strict proof
    raise_if (not (text_eq (recomputed bundle artifacts proof payload) digest_expected)) integrity
