-- ===== src/Hooks/Verdict.antt =====
-- lirix/core/hook_manager.py: the verdict on what a callback returned. `hook_ok_result` is
-- HookManager._hook_ok_result, whose tests are in its order.
use lirix.Prelude.{
  Bool, true, false, not, ◌&&◌, Option, none, some, [], ◌∷◌, Text, codes, elem, value_or, text_eq,
  lower, if◌then◌else◌,
}
use lirix.Hooks.Types.{
  ContractMode, is_enforce, is_shadow, is_warning_mode, HookPatch, HookReturn, hook_decision,
  hook_patch, hook_patch_allowed_points, hook_point_capabilities, Capability, PayloadContract,
  ResultContract, HookItem, hook_patch_target_not_allowed, hook_patch_not_allowed_at_point,
  hook_decision_rejected, hook_contract_violation,
}
use lirix.Hooks.Contract.{
  targets_payload, hook_error_result, hook_warning_result, returned_result, result_contract_state,
}

-- Whether the point takes patches: HOOK_POINT_CAPABILITIES, or its default.
abbrev pub point_allows : Text → Option Capability → Bool
point_allows point none = elem point hook_patch_allowed_points
point_allows point (some c) = c.allows_patch

unfoldable pub patch_allowed_at : Text → ContractMode → Bool
patch_allowed_at point mode =
    if is_shadow mode then false else point_allows point (hook_point_capabilities point)

module _ {ℓ} {V : Type ℓ} where
  -- What is returned early for a patch.
  unfoldable pub patch_verdict :
      Text
      → ContractMode
      → PayloadContract
      → ResultContract
      → Bool
      → HookPatch V
      → Option (HookItem V)
  patch_verdict point mode pc rc allowed p =
      if not (targets_payload p)
      then some (
          if is_enforce mode
          then hook_error_result point hook_patch_target_not_allowed
              (codes "LIRIX_HOOK_PATCH_TARGET_FORBIDDEN") (codes "contract_violation") pc (some rc)
              (codes "fatal")
          else hook_warning_result point mode (codes "LIRIX_HOOK_PATCH_TARGET_WARNING")
              (codes "LIRIX_HOOK_PATCH_TARGET_SHADOW_WARNING") pc rc (some false) (hook_patch p))
      else if is_enforce mode && not allowed
      then some (
          hook_error_result point hook_patch_not_allowed_at_point
            (codes "LIRIX_HOOK_PATCH_FORBIDDEN") (codes "contract_violation") pc (some rc)
            (codes "fatal"))
      else if is_warning_mode mode && not allowed
      then some (
          hook_warning_result point mode (codes "LIRIX_HOOK_PATCH_FORBIDDEN_WARNING")
            (codes "LIRIX_HOOK_PATCH_FORBIDDEN_SHADOW_WARNING") pc rc (some false) (hook_patch p))
      else none

  abbrev pub early_verdict :
      Text
      → ContractMode
      → PayloadContract
      → ResultContract
      → Bool
      → HookReturn V
      → Option (HookItem V)
  early_verdict point mode pc rc allowed (hook_patch p) = patch_verdict point mode pc rc allowed p
  early_verdict point mode pc rc allowed _ = none

  -- A decision that rejects, and says that this is fatal.
  abbrev pub rejects_fatally : HookReturn V → Bool
  rejects_fatally (hook_decision d) =
      elem (lower d.status) (codes "reject" ∷ codes "rejected" ∷ codes "blocked" ∷ [])
      && text_eq d.failure_level (codes "fatal")
  rejects_fatally _ = false

  abbrev pub decision_reason : HookReturn V → Text
  decision_reason (hook_decision d) = d.reason
  decision_reason _ = []

  unfoldable pub later_verdict :
      Text → ContractMode → PayloadContract → ResultContract → Bool → HookReturn V → HookItem V
  later_verdict point mode pc rc allowed r =
      if rejects_fatally r && is_enforce mode
      then hook_error_result point (hook_decision_rejected (decision_reason r))
          (codes "LIRIX_HOOK_DECISION_REJECTED") (codes "policy_rejection") pc (some rc)
          (codes "fatal")
      else if is_enforce mode && not (pc.valid && rc.valid)
      then hook_error_result point hook_contract_violation (codes "LIRIX_HOOK_CONTRACT_VIOLATION")
          (codes "contract_violation") pc (some rc) (codes "fatal")
      else if is_warning_mode mode && not (pc.valid && rc.valid)
      then hook_warning_result point mode (codes "LIRIX_HOOK_CONTRACT_WARNING")
          (codes "LIRIX_HOOK_CONTRACT_SHADOW_WARNING") pc rc none r
      else returned_result point mode pc rc allowed r

  abbrev is_patch : HookReturn V → Bool
  is_patch (hook_patch p) = true
  is_patch _ = false

  unfoldable pub hook_ok_result : Text → ContractMode → HookReturn V → PayloadContract → HookItem V
  unfolding patch_allowed_at patch_verdict later_verdict
  hook_ok_result point mode r pc =
      let rc = result_contract_state mode r in
      let allowed = if is_patch r then patch_allowed_at point mode else true in
      value_or (early_verdict point mode pc rc allowed r) (later_verdict point mode pc rc allowed r)
