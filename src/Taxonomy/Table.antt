-- ===== src/Taxonomy/Table.antt =====
-- The table of reasons of lirix/core/canonical_taxonomy.py and its readers.
use lirix.Prelude.{
  Bool, true, false, Option, none, some, [], ◌∷◌, Text, Dict, codes, text_eq, is_empty, strip,
  lower, get, value_or, if◌then◌else◌,
}
use lirix.Taxonomy.{reason_timeout, canonicalize_reason_code}

-- class ReasonTaxon
pub record ReasonTaxon : Type 0 where
  pub reason_code : Text
  pub default_failure_type : Text
  pub retry_allowed : Bool
  pub human_action_required : Bool
  pub default_remediation : Text
  pub severity : Text

abbrev taxon_ok : ReasonTaxon
taxon_ok = record {
  reason_code = codes "LIRIX_REASON_OK";
  default_failure_type = codes "none";
  retry_allowed = false;
  human_action_required = false;
  default_remediation = codes "No action required; continue the workflow.";
  severity = codes "info";
}

abbrev taxon_timeout : ReasonTaxon
taxon_timeout = record {
  reason_code = codes "LIRIX_REASON_TIMEOUT";
  default_failure_type = codes "timeout";
  retry_allowed = true;
  human_action_required = false;
  default_remediation =
      codes
        "NEXT STEP: Point Lirix at faster or closer RPC endpoints (or raise `LirixConfig` timeout / quorum budgets), then retry the same call.";
  severity = codes "medium";
}

abbrev taxon_transport_error : ReasonTaxon
taxon_transport_error = record {
  reason_code = codes "LIRIX_REASON_TRANSPORT_ERROR";
  default_failure_type = codes "transport_error";
  retry_allowed = true;
  human_action_required = false;
  default_remediation =
      codes
        "NEXT STEP: Remove dead RPC URLs, verify TLS/network reachability, and retry once a healthy endpoint answers `eth_chainId` / `eth_blockNumber`.";
  severity = codes "high";
}

abbrev taxon_consensus_failure : ReasonTaxon
taxon_consensus_failure = record {
  reason_code = codes "LIRIX_REASON_CONSENSUS_FAILURE";
  default_failure_type = codes "consensus_failure";
  retry_allowed = false;
  human_action_required = true;
  default_remediation =
      codes
        "ACTION REQUIRED: RPC quorum disagrees on canonical state. Isolate the outlier nodes (compare block hash / latest block), drop or replace them in `rpc_urls`, then re-run with a trusted set only.";
  severity = codes "critical";
}

abbrev taxon_schema_invalid : ReasonTaxon
taxon_schema_invalid = record {
  reason_code = codes "LIRIX_REASON_SCHEMA_INVALID";
  default_failure_type = codes "schema_validation_failed";
  retry_allowed = false;
  human_action_required = true;
  default_remediation =
      codes
        "ACTION REQUIRED: Payload failed structural validation. Open `agent_feedback.details.context` for field-level errors, repair the mapping (types, required keys, hex encoding), and re-submit.";
  severity = codes "high";
}

abbrev taxon_intent_invalid : ReasonTaxon
taxon_intent_invalid = record {
  reason_code = codes "LIRIX_REASON_INTENT_INVALID";
  default_failure_type = codes "invalid_intent";
  retry_allowed = false;
  human_action_required = true;
  default_remediation =
      codes
        "ACTION REQUIRED: Intent text or metadata is not executable. Normalize the intent string to a supported operation, align it with the payload (e.g. swap vs transfer), and run validation again.";
  severity = codes "high";
}

abbrev taxon_policy_violation : ReasonTaxon
taxon_policy_violation = record {
  reason_code = codes "LIRIX_REASON_POLICY_VIOLATION";
  default_failure_type = codes "policy_violation";
  retry_allowed = false;
  human_action_required = true;
  default_remediation =
      codes
        "ACTION REQUIRED: Policy blocked this path. Either relax the relevant `LirixConfig` / auditor rule, or change the payload so it satisfies the active policy bundle, then re-run.";
  severity = codes "high";
}

abbrev taxon_reconcile_partial_failure : ReasonTaxon
taxon_reconcile_partial_failure = record {
  reason_code = codes "LIRIX_REASON_RECONCILE_PARTIAL_FAILURE";
  default_failure_type = codes "reconcile_partial_failure";
  retry_allowed = true;
  human_action_required = false;
  default_remediation =
      codes
        "NEXT STEP: Some quorum members failed transiently. Inspect `security_trace` / RPC evidence for which node errored, fix or rotate that endpoint, and retry reconciliation.";
  severity = codes "medium";
}

abbrev taxon_unknown : ReasonTaxon
taxon_unknown = record {
  reason_code = codes "LIRIX_REASON_UNKNOWN";
  default_failure_type = codes "unknown";
  retry_allowed = false;
  human_action_required = true;
  default_remediation =
      codes
        "ACTION REQUIRED: Failure reason could not be classified. Read `agent_feedback.details` plus the last rejected `security_trace` step, fix the root cause you find there, then retry—do not blindly loop.";
  severity = codes "high";
}

-- _TAXONOMY_TABLE
abbrev pub taxonomy_table : Dict ReasonTaxon
taxonomy_table =
    (codes "LIRIX_REASON_OK", taxon_ok)
    ∷ (codes "LIRIX_REASON_TIMEOUT", taxon_timeout)
    ∷ (codes "LIRIX_REASON_TRANSPORT_ERROR", taxon_transport_error)
    ∷ (codes "LIRIX_REASON_CONSENSUS_FAILURE", taxon_consensus_failure)
    ∷ (codes "LIRIX_REASON_SCHEMA_INVALID", taxon_schema_invalid)
    ∷ (codes "LIRIX_REASON_INTENT_INVALID", taxon_intent_invalid)
    ∷ (codes "LIRIX_REASON_POLICY_VIOLATION", taxon_policy_violation)
    ∷ (codes "LIRIX_REASON_RECONCILE_PARTIAL_FAILURE", taxon_reconcile_partial_failure)
    ∷ (codes "LIRIX_REASON_UNKNOWN", taxon_unknown)
    ∷ []

unfoldable pub lookup_reason_taxon : Text → ReasonTaxon
unfolding strip get
lookup_reason_taxon reason_code =
    let token = strip reason_code in
    if is_empty token then taxon_unknown else value_or (get token taxonomy_table) taxon_unknown

-- HOOK_ERR_TIMEOUT
abbrev pub hook_err_timeout : Text
hook_err_timeout = codes "LIRIX_HOOK_TIMEOUT"

unfoldable pub retry_allowed_for_hook_error_code : Text → Bool
unfolding strip text_eq lookup_reason_taxon canonicalize_reason_code
retry_allowed_for_hook_error_code error_code =
    let token = strip error_code in
    if text_eq token hook_err_timeout
    then (lookup_reason_taxon reason_timeout).retry_allowed
    else (lookup_reason_taxon (canonicalize_reason_code [] (some token) false)).retry_allowed

-- RPC_REASON_TO_CANONICAL_REASON
abbrev pub rpc_reason_to_canonical_reason : Dict Text
rpc_reason_to_canonical_reason =
    (codes "none", codes "LIRIX_REASON_OK")
    ∷ (codes "timeout", codes "LIRIX_REASON_TIMEOUT")
    ∷ (codes "transport_error", codes "LIRIX_REASON_TRANSPORT_ERROR")
    ∷ (codes "inconsistent_result", codes "LIRIX_REASON_CONSENSUS_FAILURE")
    ∷ (codes "suspicious_consistency", codes "LIRIX_REASON_CONSENSUS_FAILURE")
    ∷ (codes "consensus_failure", codes "LIRIX_REASON_CONSENSUS_FAILURE")
    ∷ (codes "malformed_response", codes "LIRIX_REASON_SCHEMA_INVALID")
    ∷ []

unfoldable pub canonical_reason_from_rpc_reason : Text → Option Text
unfolding strip get
canonical_reason_from_rpc_reason rpc_reason_code =
    let token = lower (strip rpc_reason_code) in
    if is_empty token then none else get token rpc_reason_to_canonical_reason
