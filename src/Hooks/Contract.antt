-- ===== src/Hooks/Contract.antt =====
-- lirix/core/hook_manager.py: the contract states of a call and of what a callback
-- returned, the shapes of a result, and lirix/core/hook_contract.py: the application of a patch.
use lirix.Prelude.{
  Bool, true, false, not, Option, none, some, List, [], ◌∷◌, Text, Dict, codes, elem, get, put,
  value_or, text_eq, filter, map, text_leb, length, ◌==◌, if◌then◌else◌,
}
use lirix.Taxonomy.{canonicalize_error_code}
use lirix.Taxonomy.Table.{retry_allowed_for_hook_error_code}
use lirix.Hooks.Types.{
  ContractMode, is_shadow, HookPatch, HookReturn, no_result, hook_decision, hook_patch,
  hook_annotation, other_result, Kwargs, PayloadArg, payload_dict, readonly_payload, in_kwargs,
  hook_payload_required_fields, hook_failure_levels, default_hook_failure_level, PayloadContract,
  ResultContract, HookItem, HookError,
}

-- HOOK_CONTRACT_SCHEMA_VERSION
abbrev pub schema_version : Text
schema_version = codes "1.0"

-- `sorted` on texts
unfoldable pub insert_text : Text → List Text → List Text
insert_text k [] = k ∷ []
insert_text k (j ∷ js) = if text_leb k j then k ∷ j ∷ js else j ∷ insert_text k js

unfoldable pub sorted : List Text → List Text
unfolding insert_text
sorted [] = []
sorted (k ∷ ks) = insert_text k (sorted ks)

module _ {ℓ} {V : Type ℓ} where
  unfoldable pub payload_contract_state : Text → Kwargs V → PayloadContract
  payload_contract_state point kwargs =
      let required = value_or (get point hook_payload_required_fields) [] in
      let missing = filter (λ k. not (in_kwargs k kwargs)) required in
      record {
        version = schema_version;
        required_fields = required;
        missing_fields = missing;
        valid = length missing == 0;
      }

  -- _wrap_payload_for_contract: a dict becomes a read-only copy of one level, which binds its keys to
  -- what they are bound to now and shares the objects themselves.
  unfoldable pub wrap_payload : Option (PayloadArg V) → Option (PayloadArg V)
  wrap_payload (some (payload_dict d)) = some (readonly_payload d)
  wrap_payload p = p

  abbrev pub failure_level_of : HookReturn V → Text
  failure_level_of (hook_decision d) =
      if elem d.failure_level hook_failure_levels
      then d.failure_level
      else default_hook_failure_level
  failure_level_of _ = default_hook_failure_level

  -- HookContractRegistry.validate_result
  abbrev pub validate_result : HookReturn V → Bool
  validate_result (other_result t) = false
  validate_result _ = true

  abbrev pub type_name : HookReturn V → Text
  type_name no_result = codes "NoneType"
  type_name (hook_decision d) = codes "HookDecision"
  type_name (hook_patch p) = codes "HookPatch"
  type_name (hook_annotation t m) = codes "HookAnnotation"
  type_name (other_result t) = t

  abbrev pub targets_payload : HookPatch V → Bool
  targets_payload p = text_eq p.target (codes "payload")

  abbrev pub patch_of : HookReturn V → Option (HookPatch V)
  patch_of (hook_patch p) = some p
  patch_of _ = none

  abbrev pub map_patch {κ} : {B : Type κ} → (HookPatch V → B) → Option (HookPatch V) → Option B
  map_patch f none = none
  map_patch f (some p) = some (f p)

  abbrev pub result_contract_state : ContractMode → HookReturn V → ResultContract
  result_contract_state mode r = record {
    mode = mode;
    valid = validate_result r;
    result_type = type_name r;
    patch_target = map_patch (λ p. p.target) (patch_of r);
    patch_target_valid = map_patch targets_payload (patch_of r);
  }

  unfoldable pub hook_error_result :
      Text → HookError → Text → Text → PayloadContract → Option ResultContract → Text → HookItem V
  hook_error_result point error code type pc rc level = record {
    ok = false;
    hook_point = point;
    schema_version = schema_version;
    error = some error;
    error_code = some code;
    canonical_error_code = some (canonicalize_error_code code false);
    error_type = some type;
    retryable = retry_allowed_for_hook_error_code code;
    payload_contract = pc;
    result_contract = rc;
    failure_level = level;
    contract_warning = false;
    shadow_only = none;
    patch_allowed = none;
    result = none;
    patch_applied_fields = none;
  }

  -- A warning, by its code outside the shadow mode and in it.
  unfoldable pub hook_warning_result :
      Text
      → ContractMode
      → Text
      → Text
      → PayloadContract
      → ResultContract
      → Option Bool
      → HookReturn V
      → HookItem V
  hook_warning_result point mode code shadow_code pc rc allowed r =
      let warning_code = if is_shadow mode then shadow_code else code in
      record {
        ok = true;
        hook_point = point;
        schema_version = schema_version;
        error = none;
        error_code = some warning_code;
        canonical_error_code = some (canonicalize_error_code warning_code false);
        error_type = some (codes "contract_warning");
        retryable = false;
        payload_contract = pc;
        result_contract = some rc;
        failure_level = if is_shadow mode then codes "shadow_only" else codes "observe_only";
        contract_warning = true;
        shadow_only = some (is_shadow mode);
        patch_allowed = allowed;
        result = some r;
        patch_applied_fields = none;
      }

  unfoldable pub returned_result :
      Text → ContractMode → PayloadContract → ResultContract → Bool → HookReturn V → HookItem V
  returned_result point mode pc rc allowed r = record {
    ok = true;
    hook_point = point;
    schema_version = schema_version;
    error = none;
    error_code = none;
    canonical_error_code = none;
    error_type = none;
    retryable = false;
    payload_contract = pc;
    result_contract = some rc;
    failure_level = failure_level_of r;
    contract_warning = false;
    shadow_only = some (is_shadow mode);
    patch_allowed = some allowed;
    result = some r;
    patch_applied_fields = none;
  }

  -- apply_hook_patch
  unfoldable pub apply_updates : Dict V → Dict V → Dict V
  unfolding put
  apply_updates target [] = target
  apply_updates target ((k, v) ∷ updates) = apply_updates (put k v target) updates

  abbrev pub keys : Dict V → List Text
  keys = map (λ e. e.0)
