-- ===== src/Shadow.antt =====
-- ShadowAuditor of lirix/layers/l5_shadow_auditor.py: the choice of a policy and its enforcement.
-- `lower` is that of ASCII letters, and an address list of none is "ANY".
use lirix.Prelude.{
  ℕ, suc, ◌+◌, ◌/◌, Bool, true, false, not, ◌&&◌, ◌||◌, Option, none, some, List, [], ◌∷◌, map,
  length, take, Text, codes, text_eq, elem, is_empty, strip, lower, ltb, leb, ◌==◌, Result,
  returned, raised, raise_if, ◌>>=◌, ◌>>◌, if◌then◌else◌,
}
use lirix.Intent.{Field, absent, other, text, Draft}
use lirix.Shield.{ℤ, pos, negate, ltb_int}
pub mod Laws
pub mod Enforced
pub mod Audits
mod Tests

-- ShadowPolicySchema
pub record Policy : Type 0 where
  pub policy_id : Text
  pub policy_version : Text
  pub environment : Text
  pub max_slippage_bps : Option ℕ
  pub allowed_target_contracts : Option (List Text)
  pub forbidden_methods : List Text

pub record PolicyVersion : Type 0 where
  pub version : Text
  pub environment : Text
  pub status : Text
  pub signature : Option Text
  pub integrity_digest : Option Text
  pub rollback_to : Option Text
  pub policy : Policy

pub record PolicyBundle : Type 0 where
  pub active_version : Option Text
  pub versions : List PolicyVersion

-- The mapping that a caller gives, its other keys as what they make of a policy: the exception of
-- the schema is none.
pub record PolicySource : Type 0 where
  pub sets_lifecycle_mode : Bool
  pub policy_bundle : Option PolicyBundle
  pub policy_environment : Text
  pub policy_version : Option Text
  pub overrides : Policy → Option Policy

pub data SecurityPolicy : Type 0 where
  default_policy : SecurityPolicy
  direct : Policy → SecurityPolicy
  mapping : PolicySource → SecurityPolicy

-- The value under `slippage_bps`: an int, or a float. `fraction negative n d` is the finite float
-- n / (d + 1), or its negation; `not_finite` is an infinity or a NaN, which `int` raises at.
pub data Metric : Type 0 where
  no_metric not_a_number not_finite : Metric
  measured : ℤ → Metric
  fraction : Bool → ℕ → ℕ → Metric

pub data ShadowError : Type 0 where
  lifecycle_mode_override schema_invalid not_an_address : ShadowError
  policy_status policy_integrity target_not_allowed method_forbidden slippage_exceeded : ShadowError
  int_raised : ShadowError

abbrev pub Audited : Type 0 → Type 0
Audited A = Result ShadowError A

-- web3, and the sha256 of the JSON of a policy with all its fields.
pub record Digests : Type 0 where
  pub is_address : Text → Bool
  pub to_checksum_address : Text → Option Text
  pub digest : Policy → Text

-- ShadowAuditor._DEFAULT_POLICY
abbrev pub builtin_policy : Policy
builtin_policy = record {
  policy_id = codes "lirix-default";
  policy_version = codes "1.0.0";
  environment = codes "default";
  max_slippage_bps = some 50;
  allowed_target_contracts = none;
  forbidden_methods =
      codes "0xa9059cbb"
      ∷ codes "0x095ea7b3"
      ∷ codes "0x23b872dd"
      ∷ codes "0x38ed1739"
      ∷ codes "0x18cbafe5"
      ∷ codes "0x7ff36ab5"
      ∷ [];
}

-- The version that stands for an empty bundle.
abbrev pub default_version : PolicyVersion
default_version = record {
  version = codes "default";
  environment = codes "default";
  status = codes "active";
  signature = none;
  integrity_digest = none;
  rollback_to = none;
  policy = builtin_policy;
}

abbrev pub or_first {ℓ} : {A : Type ℓ} → Option A → Option A → Option A
or_first none b = b
or_first (some a) b = some a

unfoldable pub find_version : (PolicyVersion → Bool) → List PolicyVersion → Option PolicyVersion
find_version p [] = none
find_version p (v ∷ vs) = let later = find_version p vs in if p v then some v else later

abbrev pub is_version : Text → Text → PolicyVersion → Bool
is_version version environment v = text_eq v.version version && text_eq v.environment environment

abbrev pub find_named : Option Text → Text → List PolicyVersion → Option PolicyVersion
find_named none environment vs = none
find_named (some version) environment vs = find_version (is_version version environment) vs

abbrev pub or_version : Option PolicyVersion → PolicyVersion → PolicyVersion
or_version none v = v
or_version (some w) v = w

abbrev pub select_version : Option Text → Text → Option Text → List PolicyVersion → PolicyVersion
select_version active environment preferred [] = default_version
select_version active environment preferred (v ∷ vs) =
    or_version
      (or_first (find_named preferred environment (v ∷ vs)) (
        or_first (find_named active environment (v ∷ vs))
          (find_version (λ w. text_eq w.environment environment) (v ∷ vs))))
      v

-- _select_bundle_version
abbrev pub select_bundle_version : PolicyBundle → Text → Option Text → PolicyVersion
select_bundle_version bundle environment preferred =
    select_version bundle.active_version environment preferred bundle.versions

-- `rollback_to` is falsy where it is empty.
abbrev pub named_rollback : Option Text → Option Text
named_rollback none = none
named_rollback (some t) = if is_empty t then none else some t

-- The rollback of a version that is not active, where the bundle has its target.
abbrev pub rolled_back : List PolicyVersion → PolicyVersion → PolicyVersion
rolled_back vs v =
    if text_eq v.status (codes "active")
    then v
    else or_version (find_named (named_rollback v.rollback_to) v.environment vs) v

-- (integrity_digest or signature or "").strip()
abbrev pub stripped : Option Text → Text
stripped none = []
stripped (some t) = strip t

abbrev pub declared_digest : Option Text → Option Text → Text
declared_digest none s = stripped s
declared_digest (some d) s = if is_empty d then stripped s else strip d

-- normalize_policy_lifecycle_mode, policy_lifecycle_integrity_enforced
abbrev pub integrity_enforced : Text → Bool
integrity_enforced mode =
    text_eq (if text_eq mode (codes "signed_only") then codes "digest_verified" else mode)
      (codes "digest_verified")

abbrev pub or_schema_invalid : Option Policy → Audited Policy
or_schema_invalid none = raised schema_invalid
or_schema_invalid (some p) = returned p

abbrev pub starts_with_0x : Text → Bool
starts_with_0x t = text_eq (take 2 t) (codes "0x")

-- The selector that _enforce_forbidden_method reads.
abbrev pub selector_of : Field → Text
selector_of absent = codes "0x"
selector_of other = codes "0x"
selector_of (text t) =
    if starts_with_0x t && leb 10 (length t) then lower (take 10 t) else codes "0x"

abbrev pub names_forbidden : List Text → Field → Bool
names_forbidden forbidden absent = false
names_forbidden forbidden other = false
names_forbidden forbidden (text t) = elem (strip t) forbidden

-- _enforce_forbidden_method; an empty list forbids nothing.
unfoldable pub enforce_forbidden_method : Policy → Draft → Audited (Unit {0})
enforce_forbidden_method policy draft =
    raise_if
      (elem (selector_of draft.data_raw) policy.forbidden_methods
        || names_forbidden policy.forbidden_methods draft.function_name)
      method_forbidden

-- _read_metric
abbrev pub read_metric : Metric → Metric → Metric
read_metric no_metric nested = nested
read_metric not_a_number nested = not_a_number
read_metric not_finite nested = not_finite
read_metric (measured i) nested = measured i
read_metric (fraction negative n d) nested = fraction negative n d

-- int(x) of a finite float: towards zero
abbrev pub truncated : Bool → ℕ → ℕ → ℤ
truncated true n d = negate (n / suc d)
truncated false n d = pos (n / suc d)

abbrev pub check_slippage : ℕ → Metric → Audited (Unit {0})
check_slippage most no_metric = returned tt
check_slippage most not_a_number = raised slippage_exceeded
check_slippage most not_finite = raised int_raised
check_slippage most (measured i) = raise_if (ltb_int (pos most) i) slippage_exceeded
check_slippage most (fraction negative n d) =
    raise_if (ltb_int (pos most) (truncated negative n d)) slippage_exceeded

abbrev pub check_limit : Option ℕ → Metric → Audited (Unit {0})
check_limit none value = returned tt
check_limit (some most) value = check_slippage most value

-- _enforce_slippage, for the value of a simulation result and that of its nested metrics
unfoldable pub enforce_slippage : Policy → Metric → Metric → Audited (Unit {0})
enforce_slippage policy value nested =
    check_limit policy.max_slippage_bps (read_metric value nested)

abbrev pub or_not_an_address : Option Text → Audited Text
or_not_an_address none = raised not_an_address
or_not_an_address (some t) = returned t

module _ (digests : Digests) where
  -- _verify_policy_integrity
  abbrev pub verify_policy_integrity : PolicyVersion → Bool
  verify_policy_integrity v =
      let declared = declared_digest v.integrity_digest v.signature in
      not (is_empty declared) && text_eq declared (digests.digest v.policy)

  abbrev pub check_version : Bool → PolicyVersion → Audited Policy
  check_version false v = returned v.policy
  check_version true v = do
    raise_if (not (text_eq v.status (codes "active"))) policy_status
    raise_if (not (verify_policy_integrity v)) policy_integrity
    returned v.policy

  abbrev pub base_policy : Text → PolicySource → Option PolicyBundle → Audited Policy
  base_policy mode source none = returned builtin_policy
  base_policy mode source (some bundle) = check_version (integrity_enforced mode) (
      rolled_back bundle.versions
        (select_bundle_version bundle source.policy_environment source.policy_version))

  -- _resolve_policy
  unfoldable pub resolve_policy : Text → SecurityPolicy → Audited Policy
  resolve_policy mode default_policy = returned builtin_policy
  resolve_policy mode (direct p) = returned p
  resolve_policy mode (mapping source) = do
    raise_if source.sets_lifecycle_mode lifecycle_mode_override
    base ← base_policy mode source source.policy_bundle
    or_schema_invalid (source.overrides base)

  abbrev pub check_target : List Text → Field → Audited (Unit {0})
  check_target allowed absent = raised target_not_allowed
  check_target allowed other = raised target_not_allowed
  check_target allowed (text t) = do
    raise_if (not (digests.is_address t)) target_not_allowed
    target ← or_not_an_address (digests.to_checksum_address t)
    raise_if (not (elem target allowed)) target_not_allowed

  abbrev pub check_targets : Option (List Text) → Field → Audited (Unit {0})
  check_targets none to = returned tt
  check_targets (some allowed) to = check_target allowed to

  -- _enforce_target_contract
  unfoldable pub enforce_target_contract : Policy → Draft → Audited (Unit {0})
  enforce_target_contract policy draft = check_targets policy.allowed_target_contracts draft.to

  -- ShadowAuditor.audit
  unfoldable pub audit : Text → SecurityPolicy → Draft → Metric → Metric → Audited (Unit {0})
  audit mode security_policy draft value nested = do
    policy ← resolve_policy mode security_policy
    enforce_target_contract policy draft
    enforce_forbidden_method policy draft
    enforce_slippage policy value nested
