-- ===== src/Session/Types.antt =====
-- The data of lirix/core/session.py and session_fsm.py: session events, timeline entries, errors.
-- A literal string of the source is a constructor; any other string is carried by the last one.
-- Content that the session stores and never reads is a `Doc`.
use lirix.Prelude.{ℕ, Bool, true, false, Option, none, some, Text, Dict}
use lirix.Status.{Status}

abbrev pub Doc : Type 0
Doc = Text

-- The `reason` of a ConfigurationGuardException.
pub data SessionError : Type 0 where
  session_fsm_finalized session_fsm_workflow_order session_fsm_finalize_once : SessionError
  session_fsm_after_finalize session_lifecycle_violation session_workflow_mode_invalid :
      SessionError
  session_trace_status_invalid session_event_type_invalid session_event_status_invalid :
      SessionError
  missing_fsm_prerequisites session_decision_verdict_invalid : SessionError
  replay_bundle_metadata_drift : SessionError

pub data EventType : Type 0 where
  plan draft tool_call decision finalize annotation : EventType
  other_event : Text → EventType

pub data TraceKind : Type 0 where
  validate_and_simulate async_validate_and_simulate validate_only : TraceKind
  async_validate_only simulate_only async_simulate_only : TraceKind

-- `other_kind`: no `kind`, or one that the session never writes.
pub data Kind : Type 0 where
  session_event : Kind
  trace_record : TraceKind → Kind
  other_kind : Kind

pub data Lifecycle : Type 0 where
  opened running finalized : Lifecycle

pub data Verdict : Type 0 where
  approved blocked info : Verdict
  other_verdict : Text → Verdict

pub record Payload : Type 0 where
  pub verdict : Option Verdict
  pub content : Doc

-- A value of a `replay_proof`: a text, or the `str()` of something else.
pub data Scalar : Type 0 where
  text : Text → Scalar
  other : Text → Scalar

pub record TraceSummary : Type 0 where
  pub ok_steps : ℕ
  pub rejected_steps : ℕ

-- One entry of the timeline. `event_type` and `status` are `none` when absent or not a text.
pub record Item : Type 0 where
  pub timestamp : Text
  pub kind : Kind
  pub event_type : Option EventType
  pub status : Option Status
  pub payload : Option Payload
  pub correlation_id : Option Text
  pub trace_digest : Option Text
  pub trace_summary : Option TraceSummary
  pub trace_overall_status : Option Status
  pub migration_modes : Option Doc
  pub config_fingerprint : Option Text
  pub artifact_digests : Option (Dict Text)
  pub registry_closure_digest : Option Text
  pub replay_proof : Option (Dict Scalar)
  pub security_trace : Option Doc
  pub extra : Option Doc

-- What a timeline may hold when it comes from outside: `not_mapping` is no dict.
pub data Entry : Type 0 where
  not_mapping : Entry
  mapping : Item → Entry

abbrev pub is_finalized : Lifecycle → Bool
is_finalized finalized = true
is_finalized _ = false

-- Equality of the six known event types; an unknown one equals none of them.
abbrev pub same_event : EventType → EventType → Bool
same_event plan plan = true
same_event draft draft = true
same_event tool_call tool_call = true
same_event decision decision = true
same_event finalize finalize = true
same_event annotation annotation = true
same_event _ _ = false

-- `item.get("event_type")` of a session event.
abbrev pub event_of_kind : Kind → Option EventType → Option EventType
event_of_kind session_event et = et
event_of_kind _ et = none

abbrev pub session_event_of : Entry → Option EventType
session_event_of not_mapping = none
session_event_of (mapping item) = event_of_kind item.kind item.event_type

abbrev pub is_some_event : EventType → Option EventType → Bool
is_some_event et none = false
is_some_event et (some e) = same_event et e

-- The entry is the session event `et`.
abbrev pub is_event : EventType → Entry → Bool
is_event et entry = is_some_event et (session_event_of entry)
