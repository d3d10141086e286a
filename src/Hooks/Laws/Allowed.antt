-- ===== src/Hooks/Laws/Allowed.antt =====
-- Lemmas on lirix/core/hook_manager.py: which patches are applied, and what a patch changes.
use lirix.Prelude.{
  ◌≡◌, refl, Bool, true, false, ◌&&◌, ◌||◌, List, [], ◌∷◌, Text, Dict, elem, get, put, get-put,
  value_or, text_eq, text_eq→eq, text_eq_refl, arith,
}
use lirix.Hooks.Types.{
  ContractMode, is_shadow, HookPatch, hook_patch, hook_patch_allowed_points,
  hook_point_capabilities, PayloadContract, ResultContract, HookItem,
}
use lirix.Hooks.Contract.{
  targets_payload, hook_error_result, hook_warning_result, returned_result, result_contract_state,
  apply_updates, sorted, insert_text, keys,
}
use lirix.Hooks.Verdict.{hook_ok_result, patch_verdict, later_verdict, patch_allowed_at}

abbrev pub applies {ℓ} : {V : Type ℓ} → HookItem V → Bool
applies res = res.ok && value_or res.patch_allowed true

module _ {ℓ} {V : Type ℓ} where
  allowed_verdict :
      (point : Text) (mode : ContractMode) (pc : PayloadContract) (rc : ResultContract)
      (allowed : Bool) (p : HookPatch V)
      → applies (
          value_or
            (patch_verdict point mode pc rc allowed p)
            (later_verdict point mode pc rc allowed (hook_patch p)))
        ≡ true
      → (targets_payload p ≡ true) × (allowed ≡ true)
  unfolding patch_verdict later_verdict hook_error_result hook_warning_result returned_result
  allowed_verdict point ContractMode.legacy pc rc allowed p h = ground arith
  allowed_verdict point ContractMode.warn pc rc allowed p h = ground arith
  allowed_verdict point ContractMode.shadow pc rc allowed p h = ground arith
  allowed_verdict point ContractMode.enforce pc rc allowed p h = ground arith

  -- A patch is applied only where it targets the payload and the point allows patches.
  pub ok_result-allowed :
      (point : Text) (mode : ContractMode) (p : HookPatch V) (pc : PayloadContract)
      → applies (hook_ok_result point mode (hook_patch p) pc) ≡ true
      → (targets_payload p ≡ true) × (patch_allowed_at point mode ≡ true)
  unfolding hook_ok_result
  ok_result-allowed point mode p pc h =
      allowed_verdict point mode pc (result_contract_state mode (hook_patch p))
        (patch_allowed_at point mode) p h

  get-apply_updates :
      (k : Text) (d updates : Dict V)
      → elem k (keys updates) ≡ false
      → get k (apply_updates d updates) ≡ get k d
  unfolding apply_updates elem
  get-apply_updates k d [] h = refl
  get-apply_updates k d ((j, v) ∷ updates) h = ground (
    arith,
    get-apply_updates k (put j v d) updates,
    get-put j k v d,
    text_eq→eq j k,
    text_eq_refl k,
  )

pub patch_allowed_at-point :
    (point : Text) (mode : ContractMode)
    → patch_allowed_at point mode ≡ true
    → (is_shadow mode ≡ false) × (elem point hook_patch_allowed_points ≡ true)
unfolding patch_allowed_at hook_point_capabilities
patch_allowed_at-point point mode h = ground arith

elem-insert_text :
    (k j : Text) (js : List Text) → elem k (insert_text j js) ≡ (text_eq k j || elem k js)
unfolding insert_text elem
elem-insert_text k j [] = refl
elem-insert_text k j (i ∷ js) = ground (arith, elem-insert_text k j js)

elem-sorted : (k : Text) (ks : List Text) → elem k (sorted ks) ≡ elem k ks
unfolding sorted elem
elem-sorted k [] = refl
elem-sorted k (j ∷ ks) = rw (elem-insert_text k j (sorted ks), elem-sorted k ks) refl

-- A key that is not among the sorted keys of the updates keeps its value.
pub get-sorted_updates {ℓ} :
    {V : Type ℓ} (k : Text) (d updates : Dict V)
    → elem k (sorted (keys updates)) ≡ false
    → get k (apply_updates d updates) ≡ get k d
get-sorted_updates k d updates h =
    get-apply_updates k d updates (rw (elem-sorted k (keys updates)) at h)
