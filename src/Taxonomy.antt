-- ===== src/Taxonomy.antt =====
-- lirix/core/constants.py and canonical_taxonomy.py: the canonical codes of errors, reasons and
-- failures. A value that is None is the empty text, as `str(raw or "")` makes it, and `lower` is
-- that of ASCII letters.
use lirix.Prelude.{
  Bool, true, false, not, ◌&&◌, Option, none, some, List, [], ◌∷◌, Text, Dict, codes, text_eq, elem,
  is_empty, strip, lower, get, take, value_or, if◌then◌else◌,
}
pub mod Table
pub mod Laws
mod Tests

-- LEGACY_TO_CANONICAL_ERROR_CODE
abbrev pub legacy_to_canonical_error_code : Dict Text
legacy_to_canonical_error_code =
    (codes "LRX_L4_CONSENSUS_FAILED", codes "LIRIX_ERR_RPC_CONSENSUS_FAILED")
    ∷ (codes "LRX_RPC_QUORUM_FAILED", codes "LIRIX_ERR_RPC_QUORUM_FAILED")
    ∷ (codes "LRX_SHADOW_POLICY_BLOCKED", codes "LIRIX_ERR_POLICY_BLOCKED")
    ∷ (codes "LRX_LEGACY_ERROR", codes "LIRIX_ERR_LEGACY_ERROR")
    ∷ (codes "LRX_SIM_ASYNC_PAYLOAD", codes "LIRIX_ERR_VALIDATION_FAILED")
    ∷ (codes "LRX_TIMEOUT_BLOCK", codes "LIRIX_ERR_RPC_UNAVAILABLE")
    ∷ (codes "LRX_SIM_TARGET_REQUIRED", codes "LIRIX_ERR_VALIDATION_FAILED")
    ∷ (codes "LRX_SIM_ARGS_TYPE", codes "LIRIX_ERR_VALIDATION_FAILED")
    ∷ (codes "LRX_SIM_SIGNATURE_REQUIRED", codes "LIRIX_ERR_VALIDATION_FAILED")
    ∷ (codes "LRX_VALIDATION_ARG_COUNT", codes "LIRIX_ERR_VALIDATION_FAILED")
    ∷ (codes "LRX_VALIDATION_ABI_ENCODE", codes "LIRIX_ERR_VALIDATION_FAILED")
    ∷ (codes "LRX_VALIDATION_NUMERIC_TYPE", codes "LIRIX_ERR_VALIDATION_FAILED")
    ∷ (codes "LRX_VALIDATION_SIGNATURE_EMPTY", codes "LIRIX_ERR_VALIDATION_FAILED")
    ∷ (codes "LRX_VALIDATION_SIGNATURE_FORMAT", codes "LIRIX_ERR_VALIDATION_FAILED")
    ∷ (codes "LRX_INTENT_TYPE_UNSUPPORTED", codes "LIRIX_ERR_INVALID_INTENT")
    ∷ (codes "LRX_INTENT_MISSING_FIELDS", codes "LIRIX_ERR_INVALID_INTENT")
    ∷ (codes "LRX_BRIDGE_SIGNATURE_UNSUPPORTED", codes "LIRIX_ERR_INVALID_INTENT")
    ∷ (codes "LRX_BRIDGE_PROTOCOL_UNSUPPORTED", codes "LIRIX_ERR_VALIDATION_FAILED")
    ∷ (codes "LRX_BRIDGE_ROUTE_UNSUPPORTED", codes "LIRIX_ERR_VALIDATION_FAILED")
    ∷ (codes "LRX_HALLUCINATION_ADDRESS", codes "LIRIX_ERR_MALICIOUS_PAYLOAD")
    ∷ (codes "LRX_ASSERTION_CONFIG_INVALID", codes "LIRIX_ERR_CONFIGURATION_GUARD")
    ∷ (codes "LRX_HONEYPOT_DETECTED", codes "LIRIX_ERR_MALICIOUS_PAYLOAD")
    ∷ (codes "LRX_STATE_MISMATCH", codes "LIRIX_ERR_SIMULATION_FAILED")
    ∷ (codes "LRX_DEP_SIMULATION_MISSING", codes "LIRIX_ERR_SIMULATION_FAILED")
    ∷ (codes "LRX_SIM_CONTRACT_LOGIC", codes "LIRIX_ERR_SIMULATION_FAILED")
    ∷ (codes "LRX_SIM_WEB3_ERROR", codes "LIRIX_ERR_RPC_UNAVAILABLE")
    ∷ (codes "LRX_SIM_VALUE_ERROR", codes "LIRIX_ERR_SIMULATION_FAILED")
    ∷ []

-- CANONICAL_ERROR_CODE_KNOWN
abbrev pub canonical_error_code_known : List Text
canonical_error_code_known =
    codes "LIRIX_ERR_CIRCUIT_BREAKER_OPEN"
    ∷ codes "LIRIX_ERR_INVALID_INTENT"
    ∷ codes "LIRIX_ERR_CONFIGURATION_GUARD"
    ∷ codes "LIRIX_ERR_HOOK_EXECUTION"
    ∷ codes "LIRIX_ERR_RPC_UNAVAILABLE"
    ∷ codes "LIRIX_ERR_VALIDATION_FAILED"
    ∷ codes "LIRIX_ERR_HOOK_UNKNOWN_POINT"
    ∷ codes "LIRIX_ERR_HOOK_ASYNC_REQUIRED"
    ∷ codes "LIRIX_ERR_ADDRESS_CHECKSUM"
    ∷ codes "LIRIX_ERR_SCHEMA_VALIDATION"
    ∷ codes "LIRIX_ERR_MALICIOUS_PAYLOAD"
    ∷ codes "LIRIX_ERR_SIMULATION_FAILED"
    ∷ codes "LIRIX_ERR_MULTICALL_ENCODING"
    ∷ codes "LIRIX_ERR_DEFI_SLIPPAGE_MISSING"
    ∷ codes "LIRIX_ERR_RPC_QUOTA_EXHAUSTED"
    ∷ codes "LIRIX_ERR_INSUFFICIENT_FEE"
    ∷ codes "LIRIX_ERR_NONCE_DESYNC"
    ∷ codes "LIRIX_ERR_CONTRACT_PAUSED"
    ∷ codes "LIRIX_ERR_RPC_CONSENSUS_FAILED"
    ∷ codes "LIRIX_ERR_RPC_QUORUM_FAILED"
    ∷ codes "LIRIX_ERR_POLICY_BLOCKED"
    ∷ codes "LIRIX_ERR_LEGACY_ERROR"
    ∷ codes "LIRIX_ERR_BROADCAST_PAYLOAD_INVARIANT"
    ∷ []

-- LIRIX_ERR_LEGACY_ERROR
abbrev pub legacy_error : Text
legacy_error = codes "LIRIX_ERR_LEGACY_ERROR"

unfoldable pub canonicalize_error_code : Text → Bool → Text
unfolding text_eq strip get elem
canonicalize_error_code raw strict =
    let token = strip raw in
    let canonical = value_or (get token legacy_to_canonical_error_code) token in
    if is_empty token
    then legacy_error
    else if strict && not (elem canonical canonical_error_code_known)
    then legacy_error
    else canonical

-- AGENT_FEEDBACK_REASON_CODE_MAP
abbrev pub agent_feedback_reason_code_map : Dict Text
agent_feedback_reason_code_map =
    (codes "ok", codes "LIRIX_REASON_OK")
    ∷ (codes "timeout", codes "LIRIX_REASON_TIMEOUT")
    ∷ (codes "transport_error", codes "LIRIX_REASON_TRANSPORT_ERROR")
    ∷ (codes "consensus_failure", codes "LIRIX_REASON_CONSENSUS_FAILURE")
    ∷ (codes "schema_validation_failed", codes "LIRIX_REASON_SCHEMA_INVALID")
    ∷ (codes "invalid_intent", codes "LIRIX_REASON_INTENT_INVALID")
    ∷ (codes "policy_violation", codes "LIRIX_REASON_POLICY_VIOLATION")
    ∷ (codes "reconcile_partial_failure", codes "LIRIX_REASON_RECONCILE_PARTIAL_FAILURE")
    ∷ (codes "reconcile_failed", codes "LIRIX_REASON_RECONCILE_PARTIAL_FAILURE")
    ∷ (codes "height_spread_exceeded", codes "LIRIX_REASON_CONSENSUS_FAILURE")
    ∷ (codes "hook_blocked", codes "LIRIX_REASON_POLICY_VIOLATION")
    ∷ (codes "schema_invalid", codes "LIRIX_REASON_SCHEMA_INVALID")
    ∷ (codes "rpc_error", codes "LIRIX_REASON_TRANSPORT_ERROR")
    ∷ []

-- AGENT_FEEDBACK_REASON_KNOWN
abbrev pub agent_feedback_reason_known : List Text
agent_feedback_reason_known =
    codes "LIRIX_REASON_OK"
    ∷ codes "LIRIX_REASON_UNKNOWN"
    ∷ codes "LIRIX_REASON_TIMEOUT"
    ∷ codes "LIRIX_REASON_TRANSPORT_ERROR"
    ∷ codes "LIRIX_REASON_CONSENSUS_FAILURE"
    ∷ codes "LIRIX_REASON_SCHEMA_INVALID"
    ∷ codes "LIRIX_REASON_INTENT_INVALID"
    ∷ codes "LIRIX_REASON_POLICY_VIOLATION"
    ∷ codes "LIRIX_REASON_RECONCILE_PARTIAL_FAILURE"
    ∷ []

-- AGENT_FEEDBACK_REASON_UNKNOWN, AGENT_FEEDBACK_REASON_TIMEOUT
abbrev pub reason_unknown : Text
reason_unknown = codes "LIRIX_REASON_UNKNOWN"

abbrev pub reason_timeout : Text
reason_timeout = codes "LIRIX_REASON_TIMEOUT"

-- CANONICAL_FAILURE_TYPE_MAP
abbrev pub canonical_failure_type_map : Dict Text
canonical_failure_type_map =
    (codes "ok", codes "none")
    ∷ (codes "none", codes "none")
    ∷ (codes "timeout", codes "timeout")
    ∷ (codes "transport_error", codes "transport_error")
    ∷ (codes "consensus_failure", codes "consensus_failure")
    ∷ (codes "schema_validation_failed", codes "schema_validation_failed")
    ∷ (codes "invalid_intent", codes "invalid_intent")
    ∷ (codes "policy_violation", codes "policy_violation")
    ∷ (codes "reconcile_partial_failure", codes "reconcile_partial_failure")
    ∷ (codes "reconcile_failed", codes "reconcile_partial_failure")
    ∷ (codes "height_spread_exceeded", codes "consensus_failure")
    ∷ (codes "hook_blocked", codes "policy_violation")
    ∷ (codes "schema_invalid", codes "schema_validation_failed")
    ∷ (codes "rpc_error", codes "transport_error")
    ∷ (codes "security_rejection", codes "security_rejection")
    ∷ []

-- FAILURE_TYPE_UNKNOWN
abbrev pub failure_unknown : Text
failure_unknown = codes "unknown"

-- _REASON_CODE_FALLBACK_FROM_ERROR
abbrev pub reason_code_fallback_from_error : Dict Text
reason_code_fallback_from_error =
    (codes "LIRIX_ERR_RPC_CONSENSUS_FAILED", codes "LIRIX_REASON_CONSENSUS_FAILURE")
    ∷ (codes "LIRIX_ERR_RPC_QUORUM_FAILED", codes "LIRIX_REASON_CONSENSUS_FAILURE")
    ∷ (codes "LIRIX_ERR_POLICY_BLOCKED", codes "LIRIX_REASON_POLICY_VIOLATION")
    ∷ (codes "LIRIX_ERR_SCHEMA_VALIDATION", codes "LIRIX_REASON_SCHEMA_INVALID")
    ∷ (codes "LIRIX_ERR_INVALID_INTENT", codes "LIRIX_REASON_INTENT_INVALID")
    ∷ (codes "LIRIX_ERR_BROADCAST_PAYLOAD_INVARIANT", codes "LIRIX_REASON_SCHEMA_INVALID")
    ∷ []

-- _REASON_TO_FAILURE_TYPE
abbrev pub reason_to_failure_type : Dict Text
reason_to_failure_type =
    (codes "LIRIX_REASON_OK", codes "none")
    ∷ (codes "LIRIX_REASON_TIMEOUT", codes "timeout")
    ∷ (codes "LIRIX_REASON_TRANSPORT_ERROR", codes "transport_error")
    ∷ (codes "LIRIX_REASON_CONSENSUS_FAILURE", codes "consensus_failure")
    ∷ (codes "LIRIX_REASON_SCHEMA_INVALID", codes "schema_validation_failed")
    ∷ (codes "LIRIX_REASON_INTENT_INVALID", codes "invalid_intent")
    ∷ (codes "LIRIX_REASON_POLICY_VIOLATION", codes "policy_violation")
    ∷ (codes "LIRIX_REASON_RECONCILE_PARTIAL_FAILURE", codes "reconcile_partial_failure")
    ∷ []

unfoldable pub is_known_reason_code : Text → Bool
unfolding strip elem
is_known_reason_code raw = elem (strip raw) agent_feedback_reason_known

-- `token.startswith("LIRIX_REASON_")`
abbrev pub is_reason_token : Text → Bool
is_reason_token token = text_eq (take 13 token) (codes "LIRIX_REASON_")

-- The reason of the fallback error code; none is not given.
unfoldable pub reason_of_error : Option Text → Text
unfolding canonicalize_error_code
reason_of_error none = reason_unknown
reason_of_error (some code) =
    value_or (get (canonicalize_error_code code false) reason_code_fallback_from_error)
      reason_unknown

unfoldable pub canonicalize_reason_code : Text → Option Text → Bool → Text
unfolding text_eq strip get elem
canonicalize_reason_code raw fallback_error_code strict =
    let token = strip raw in
    if is_reason_token token
    then (if strict && not (elem token agent_feedback_reason_known) then reason_unknown else token)
    else value_or (get (lower token) agent_feedback_reason_code_map)
        (reason_of_error fallback_error_code)

-- The failure type of the fallback reason code; none is not given.
unfoldable pub failure_of_reason : Option Text → Text
failure_of_reason none = failure_unknown
failure_of_reason (some reason) =
    value_or (get (canonicalize_reason_code reason none false) reason_to_failure_type)
      failure_unknown

unfoldable pub canonicalize_failure_type : Text → Option Text → Text
unfolding strip get
canonicalize_failure_type raw fallback_reason_code =
    value_or (get (lower (strip raw)) canonical_failure_type_map)
      (failure_of_reason fallback_reason_code)

-- The FAILURE_TYPE_ constants.
abbrev pub failure_types : List Text
failure_types =
    codes "none"
    ∷ codes "timeout"
    ∷ codes "transport_error"
    ∷ codes "consensus_failure"
    ∷ codes "schema_validation_failed"
    ∷ codes "invalid_intent"
    ∷ codes "policy_violation"
    ∷ codes "reconcile_partial_failure"
    ∷ codes "security_rejection"
    ∷ codes "unknown"
    ∷ []
