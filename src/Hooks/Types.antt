-- ===== src/Hooks/Types.antt =====
-- The data of lirix/core/hook_contract.py and hook_manager.py, and the hook tables of
-- lirix/core/constants.py. `V` is the type of what stands under a key of a payload: an immutable
-- value, or a reference to an object such as a nested dict. What that object holds is not in `V` but
-- in the world of the callbacks, since the copies of a payload are of one level and share it.
use lirix.Prelude.{
  Bool, true, false, Option, none, some, List, [], ◌∷◌, Text, Dict, codes, elem, is_some, has_key,
  text_eq, if◌then◌else◌,
}

-- HookManager._contract_mode, which the configuration restricts to these.
pub data ContractMode : Type 0 where
  legacy warn shadow enforce : ContractMode

abbrev pub is_enforce : ContractMode → Bool
is_enforce enforce = true
is_enforce _ = false

abbrev pub is_shadow : ContractMode → Bool
is_shadow shadow = true
is_shadow _ = false

-- `in {"warn", "shadow"}`
abbrev pub is_warning_mode : ContractMode → Bool
is_warning_mode warn = true
is_warning_mode shadow = true
is_warning_mode _ = false

-- `in {"warn", "shadow", "enforce"}`
abbrev pub is_guarded : ContractMode → Bool
is_guarded legacy = false
is_guarded _ = true

pub record HookPatch {ℓ} (V : Type ℓ) : Type ℓ where
  pub updates : Dict V
  pub target : Text
  pub reason : Text

-- HookDecision, without its metadata.
pub record HookDecision : Type 0 where
  pub status : Text
  pub reason : Text
  pub failure_level : Text

-- What a callback returns: None, one of the three controlled results (an annotation by its tag and
-- message), or a value of another type, by the name of that type.
pub data HookReturn {ℓ} (V : Type ℓ) : Type ℓ where
  no_result : HookReturn V
  hook_decision : HookDecision → HookReturn V
  hook_patch : HookPatch V → HookReturn V
  hook_annotation : Text → Text → HookReturn V
  other_result : Text → HookReturn V

-- The keyword `payload` of a call: a dict, a ReadonlyHookPayload, or another value.
pub data PayloadArg {ℓ} (V : Type ℓ) : Type ℓ where
  payload_dict : Dict V → PayloadArg V
  readonly_payload : Dict V → PayloadArg V
  other_payload : V → PayloadArg V

pub record Kwargs {ℓ} (V : Type ℓ) : Type ℓ where
  pub payload : Option (PayloadArg V)
  pub others : Dict V

abbrev pub in_kwargs {ℓ} : {V : Type ℓ} → Text → Kwargs V → Bool
in_kwargs k kwargs =
    if text_eq k (codes "payload") then is_some kwargs.payload else has_key k kwargs.others

-- PREDEFINED_HOOK_POINTS
abbrev pub predefined_hook_points : List Text
predefined_hook_points =
    codes "pre_validate"
    ∷ codes "post_validate"
    ∷ codes "pre_simulation"
    ∷ codes "post_simulation"
    ∷ codes "on_audit_log"
    ∷ codes "rpc_fallback"
    ∷ codes "layer_l1_validate"
    ∷ codes "layer_l2_validate"
    ∷ codes "layer_l3_validate"
    ∷ codes "layer_l4_rpc"
    ∷ codes "layer_l5_simulation"
    ∷ codes "multicall_pack"
    ∷ []

-- HOOK_PAYLOAD_REQUIRED_FIELDS, each set sorted.
abbrev pub hook_payload_required_fields : Dict (List Text)
hook_payload_required_fields =
    (codes "pre_validate", codes "intent" ∷ codes "payload" ∷ [])
    ∷ (codes "post_validate", codes "intent" ∷ codes "payload" ∷ [])
    ∷ (codes "pre_simulation", codes "intent" ∷ codes "payload" ∷ [])
    ∷ (codes "post_simulation", codes "intent" ∷ codes "payload" ∷ codes "simulation" ∷ [])
    ∷ (codes "layer_l4_rpc", codes "block_number" ∷ codes "layer" ∷ codes "mode" ∷ [])
    ∷ (codes "layer_l5_simulation", codes "block_number" ∷ codes "layer" ∷ codes "simulation" ∷ [])
    ∷ (codes "multicall_pack", codes "encoded" ∷ codes "subcall_count" ∷ [])
    ∷ []

-- HOOK_FAILURE_LEVELS, DEFAULT_HOOK_FAILURE_LEVEL
abbrev pub hook_failure_levels : List Text
hook_failure_levels = codes "fatal" ∷ codes "soft" ∷ codes "observe_only" ∷ []

abbrev pub default_hook_failure_level : Text
default_hook_failure_level = codes "soft"

-- HOOK_PATCH_ALLOWED_POINTS
abbrev pub hook_patch_allowed_points : List Text
hook_patch_allowed_points = codes "pre_validate" ∷ codes "pre_simulation" ∷ []

-- trace_hooks of _hook_point_capabilities
abbrev pub trace_hooks : List Text
trace_hooks =
    codes "pre_validate"
    ∷ codes "pre_simulation"
    ∷ codes "post_simulation"
    ∷ codes "post_validate"
    ∷ codes "layer_l1_validate"
    ∷ codes "layer_l2_validate"
    ∷ codes "layer_l3_validate"
    ∷ codes "layer_l4_rpc"
    ∷ codes "layer_l5_simulation"
    ∷ []

pub record Capability : Type 0 where
  pub allows_patch : Bool
  pub requires_trace : Bool

-- HOOK_POINT_CAPABILITIES.get(point)
unfoldable pub hook_point_capabilities : Text → Option Capability
hook_point_capabilities point =
    if elem point predefined_hook_points
    then some (record {
      allows_patch = elem point hook_patch_allowed_points;
      requires_trace = elem point trace_hooks;
    })
    else none

-- The `error` of a result, by what its message is made from.
pub data HookError : Type 0 where
  async_hook_requires_ainvoke : HookError
  timeout_after : Text → HookError
  raised_error : Text → Text → HookError
  hook_patch_target_not_allowed hook_patch_not_allowed_at_point : HookError
  hook_decision_rejected : Text → HookError
  hook_contract_violation : HookError

pub record PayloadContract : Type 0 where
  pub version : Text
  pub required_fields : List Text
  pub missing_fields : List Text
  pub valid : Bool

-- The two last fields are there for a patch only.
pub record ResultContract : Type 0 where
  pub mode : ContractMode
  pub valid : Bool
  pub result_type : Text
  pub patch_target : Option Text
  pub patch_target_valid : Option Bool

-- One result of an isolated invocation. A key that the source leaves out is none; without the
-- key, `contract_warning` is false, and a result contract of none is the empty dict.
pub record HookItem {ℓ} (V : Type ℓ) : Type ℓ where
  pub ok : Bool
  pub hook_point : Text
  pub schema_version : Text
  pub error : Option HookError
  pub error_code : Option Text
  pub canonical_error_code : Option Text
  pub error_type : Option Text
  pub retryable : Bool
  pub payload_contract : PayloadContract
  pub result_contract : Option ResultContract
  pub failure_level : Text
  pub contract_warning : Bool
  pub shadow_only : Option Bool
  pub patch_allowed : Option Bool
  pub result : Option (HookReturn V)
  pub patch_applied_fields : Option (List Text)
