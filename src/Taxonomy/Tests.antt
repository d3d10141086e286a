-- ===== src/Taxonomy/Tests.antt =====
-- Runs of lirix/core/constants.py and canonical_taxonomy.py.
use lirix.Prelude.{◌≡◌, refl, true, none, some, codes, text_eq, strip, lstrip, is_space, get, elem}
use lirix.Taxonomy.{canonicalize_error_code, canonicalize_failure_type}
use lirix.Taxonomy.Table.{canonical_reason_from_rpc_reason}
use lirix.Taxonomy.Laws.{IsCanonical, canonicalize-IsCanonical}

legacy_code :
    canonicalize_error_code (codes " LRX_TIMEOUT_BLOCK ") true ≡ codes "LIRIX_ERR_RPC_UNAVAILABLE"
unfolding canonicalize_error_code strip lstrip is_space get elem text_eq
legacy_code = refl

hook_blocked : canonicalize_failure_type (codes "Hook_Blocked") none ≡ codes "policy_violation"
unfolding canonicalize_failure_type strip lstrip is_space get text_eq
hook_blocked = refl

slow_node :
    canonical_reason_from_rpc_reason (codes "malformed_response")
    ≡ some (codes "LIRIX_REASON_SCHEMA_INVALID")
unfolding canonical_reason_from_rpc_reason strip lstrip is_space get text_eq
slow_node = refl

canonicalize-IsCanonical_example : IsCanonical (codes "LIRIX_REASON_NEW") (some (codes "ok"))
canonicalize-IsCanonical_example =
    canonicalize-IsCanonical (codes "LIRIX_REASON_NEW") (some (codes "ok"))
