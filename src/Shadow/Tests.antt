-- ===== src/Shadow/Tests.antt =====
-- Runs of ShadowAuditor in lirix/layers/l5_shadow_auditor.py.
use lirix.Prelude.{
  ◌≡◌, ◌↔◌, refl, true, false, none, some, [], ◌∷◌, Text, codes, text_eq, elem, strip, lstrip,
  is_space, returned, raised,
}
use lirix.Intent.{text, Draft}
use lirix.Shield.{pos}
use lirix.Shadow.{
  PolicyVersion, PolicyBundle, PolicySource, default_policy, mapping, measured, fraction, no_metric,
  Digests, method_forbidden, builtin_policy, integrity_enforced, find_version, resolve_policy,
  enforce_forbidden_method, enforce_slippage, enforce_target_contract, audit,
}
use lirix.Shadow.Laws.{Trusted, resolve_policy-Verified}
use lirix.Shadow.Audits.{Passes, audit-Passes}

abbrev constant_digest : Digests
constant_digest = record {
  is_address = λ t. true;
  to_checksum_address = λ t. some t;
  digest = λ p. codes "d";
}

abbrev calling : Text → Draft
calling data_raw = record {
  function_name = text (codes "swap");
  to = text (codes "t");
  data_raw = text data_raw;
}

swap_passes :
    audit constant_digest
      (codes "digest_verified")
      default_policy
      (calling (codes "0xD004F0F8"))
      no_metric
      (measured (pos 50))
    ≡ returned tt
unfolding audit resolve_policy enforce_target_contract enforce_forbidden_method enforce_slippage
    text_eq elem strip lstrip is_space
swap_passes = refl

-- 509 / 10 basis points pass a limit of 50.
fraction_passes :
    audit constant_digest
      (codes "digest_verified")
      default_policy
      (calling (codes "0xD004F0F8"))
      (fraction false 509 9)
      no_metric
    ≡ returned tt
unfolding audit resolve_policy enforce_target_contract enforce_forbidden_method enforce_slippage
    text_eq elem strip lstrip is_space
fraction_passes = refl

transfer_refused :
    audit constant_digest
      (codes "digest_verified")
      default_policy
      (calling (codes "0xA9059CBB"))
      no_metric
      no_metric
    ≡ raised method_forbidden
unfolding audit resolve_policy enforce_target_contract enforce_forbidden_method enforce_slippage
    text_eq elem strip lstrip is_space
transfer_refused = refl

audit-Passes_example :
    (audit constant_digest
        (codes "digest_verified")
        default_policy
        (calling (codes "0xD004F0F8"))
        (fraction false 509 9)
        no_metric
      ≡ returned tt)
    ↔ Passes constant_digest
        (codes "digest_verified")
        default_policy
        (calling (codes "0xD004F0F8"))
        (fraction false 509 9)
        no_metric
audit-Passes_example =
    audit-Passes constant_digest (codes "digest_verified") default_policy
      (calling (codes "0xD004F0F8")) (fraction false 509 9) no_metric

abbrev signed_version : PolicyVersion
signed_version = record {
  version = codes "1";
  environment = codes "default";
  status = codes "active";
  signature = none;
  integrity_digest = some (codes "d");
  rollback_to = none;
  policy = builtin_policy;
}

abbrev one_version : PolicyBundle
one_version = record { active_version = none; versions = signed_version ∷ [] }

abbrev from_bundle : PolicySource
from_bundle = record {
  sets_lifecycle_mode = false;
  policy_bundle = some one_version;
  policy_environment = codes "default";
  policy_version = none;
  overrides = λ p. some p;
}

signed_resolves :
    resolve_policy constant_digest (codes "signed_only") (mapping from_bundle)
    ≡ returned builtin_policy
unfolding resolve_policy find_version text_eq strip lstrip is_space
signed_resolves = refl

signed_enforced : integrity_enforced (codes "signed_only") ≡ true
unfolding text_eq
signed_enforced = refl

resolve_policy-Verified_example : Trusted constant_digest one_version from_bundle builtin_policy
resolve_policy-Verified_example =
    resolve_policy-Verified constant_digest (codes "signed_only") from_bundle one_version
      builtin_policy refl signed_enforced signed_resolves
