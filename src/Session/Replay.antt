-- ===== src/Session/Replay.antt =====
-- The replay bundle of lirix/core/session.py and how a session produces it. `stable_digest` is
-- the digest of lirix/core/contracts.py (the SHA-256 of a canonical JSON text).
use lirix.Prelude.{
  ℕ, Bool, true, false, not, ◌||◌, Option, none, some, List, [], ◌∷◌, reverse, any, count, length,
  Text, Dict, codes, text_eq, value_or, Result, returned, raised, if◌then◌else◌,
}
use lirix.Session.Types.{
  Doc, SessionError, replay_bundle_metadata_drift, Kind, trace_record, EventType, Scalar, Item,
  Entry, not_mapping, mapping, is_event,
}
use lirix.Session.Store.{Session, SessionState, WorkflowMode, effective_workflow_strict}

-- The payload of a bundle. A bundle from outside may have no valid `workflow_mode`, or a
-- `timeline` that is no list: `none`.
pub record BundlePayload : Type 0 where
  pub session_id : Text
  pub created_at : Text
  pub correlation_ids : List Text
  pub timeline : Option (List Entry)
  pub state : SessionState
  pub workflow_mode : Option WorkflowMode
  pub workflow_strict : Bool

-- What is digested.
pub record DigestPayload : Type 0 where
  pub bundle_version : Text
  pub migration_modes : Doc
  pub config_fingerprint : Option Text
  pub last_trace_digest : Option Text
  pub artifact_digests : Dict Text
  pub replay_proof : Dict Scalar
  pub payload : BundlePayload
  pub registry_closure_digest : Option Text

-- A value of a bundle from outside: absent, of another type than the code expects, or given.
pub data Field {ℓ} (A : Type ℓ) : Type ℓ where
  absent ill_typed : Field A
  given : A → Field A

-- `none` where the key is absent or the value has another type; a digest that is no text is given
-- by its `str()`.
pub record Bundle : Type 0 where
  pub bundle_version : Option Text
  pub bundle_digest : Option Text
  pub migration_modes : Option Doc
  pub config_fingerprint : Option Text
  pub last_trace_digest : Option Text
  pub artifact_digests : Field (Dict Text)
  pub replay_proof : Field (Dict Scalar)
  pub timeline_size : Option ℕ
  pub decision_count : Option ℕ
  pub payload : Option BundlePayload
  pub registry_closure_digest : Option Text

-- REPLAY_BUNDLE_VERSION
abbrev pub replay_bundle_version : Text
replay_bundle_version = codes "2.0"

abbrev pub is_trace_kind : Kind → Bool
is_trace_kind (trace_record k) = true
is_trace_kind _ = false

abbrev pub trace_of : Entry → Option Item
trace_of not_mapping = none
trace_of (mapping item) = if is_trace_kind item.kind then some item else none

-- What the trace records carry under one key, absent ones left out.
abbrev pub with_some : Option Text → List Text → List Text
with_some none rest = rest
with_some (some t) rest = t ∷ rest

abbrev key_of : (Item → Option Text) → Option Item → Option Text
key_of key none = none
key_of key (some item) = key item

abbrev pub trace_values : (Item → Option Text) → List Entry → List Text
trace_values key [] = []
trace_values key (e ∷ rest) = with_some (key_of key (trace_of e)) (trace_values key rest)

-- len(set(values)) > 1
unfoldable pub drifts : List Text → Bool
drifts [] = false
drifts (v ∷ rest) = any (λ w. not (text_eq v w)) rest

abbrev pub or_else : Option Item → Option Item → Option Item
or_else none later = later
or_else (some item) later = some item

abbrev pub first_trace : List Entry → Option Item
first_trace [] = none
first_trace (e ∷ rest) = or_else (trace_of e) (first_trace rest)

-- _last_trace_metadata: the record that it reads, if there is one
abbrev pub last_trace : List Entry → Option Item
last_trace timeline = first_trace (reverse timeline)

abbrev pub meta {ℓ} : {A : Type ℓ} → (Item → Option A) → Option Item → Option A
meta key none = none
meta key (some item) = key item

abbrev pub timeline_payload : Session → BundlePayload
timeline_payload s = record {
  session_id = s.session_id;
  created_at = s.created_at;
  correlation_ids = s.correlation_ids;
  timeline = some s.timeline;
  state = s.state;
  workflow_mode = some s.workflow_mode;
  workflow_strict = effective_workflow_strict s;
}

-- `{}` as a document
abbrev pub empty_doc : Doc
empty_doc = codes "{}"

module _ (stable_digest : DigestPayload → Text) where
  abbrev digest_payload : Option Item → Session → DigestPayload
  digest_payload last s = record {
    bundle_version = replay_bundle_version;
    migration_modes = value_or (meta (λ i. i.migration_modes) last) empty_doc;
    config_fingerprint = meta (λ i. i.config_fingerprint) last;
    last_trace_digest = meta (λ i. i.trace_digest) last;
    artifact_digests = value_or (meta (λ i. i.artifact_digests) last) [];
    replay_proof = value_or (meta (λ i. i.replay_proof) last) [];
    payload = timeline_payload s;
    registry_closure_digest = meta (λ i. i.registry_closure_digest) last;
  }

  abbrev pub bundle_of : Option Item → Session → Bundle
  bundle_of last s = record {
    bundle_version = some replay_bundle_version;
    bundle_digest = some (stable_digest (digest_payload last s));
    migration_modes = some (value_or (meta (λ i. i.migration_modes) last) empty_doc);
    config_fingerprint = meta (λ i. i.config_fingerprint) last;
    last_trace_digest = meta (λ i. i.trace_digest) last;
    artifact_digests = given (value_or (meta (λ i. i.artifact_digests) last) []);
    replay_proof = given (value_or (meta (λ i. i.replay_proof) last) []);
    timeline_size = some (length s.timeline);
    decision_count = some (count (is_event EventType.decision) s.timeline);
    payload = some (timeline_payload s);
    registry_closure_digest = meta (λ i. i.registry_closure_digest) last;
  }

  -- ValidationSession.replay_bundle
  unfoldable pub replay_bundle : Session → Result SessionError Bundle
  replay_bundle s =
      if drifts (trace_values (λ i. i.config_fingerprint) s.timeline)
        || drifts (trace_values (λ i. i.registry_closure_digest) s.timeline)
      then raised replay_bundle_metadata_drift
      else returned (bundle_of (last_trace s.timeline) s)
