-- ===== src/Hooks/Laws/Judged.antt =====
-- lirix/core/hook_manager.py: what a result says, whatever the callback did.
use lirix.Prelude.{
  ◌≡◌, refl, ◌∙◌, Bool, true, false, not, ◌&&◌, Option, none, some, Text, codes, text_eq, strip,
  lstrip, is_space, value_or, arith, if_of, if_when, &&_true,
}
use lirix.Taxonomy.Table.{retry_allowed_for_hook_error_code, hook_err_timeout}
use lirix.Taxonomy.Laws.{retry_allowed-eq}
use lirix.Hooks.Types.{
  ContractMode, is_enforce, is_warning_mode, HookPatch, HookReturn, no_result, hook_patch,
  hook_decision, hook_annotation, other_result, PayloadContract, ResultContract, HookItem,
  HookError, timeout_after, hook_patch_target_not_allowed, hook_patch_not_allowed_at_point,
  hook_decision_rejected, hook_contract_violation,
}
use lirix.Hooks.Contract.{
  targets_payload, hook_error_result, hook_warning_result, returned_result, result_contract_state,
}
use lirix.Hooks.Verdict.{
  hook_ok_result, patch_verdict, later_verdict, early_verdict, rejects_fatally, decision_reason,
}
use lirix.Hooks.Settle.{error_item}

-- The test of _has_blocking_hook_result in lirix/core/orchestrator.py.
abbrev pub blocks {ℓ} : {V : Type ℓ} → HookItem V → Bool
blocks item = not item.ok && text_eq item.failure_level (codes "fatal")

abbrev pub is_timeout : Option HookError → Bool
is_timeout (some (timeout_after limit)) = true
is_timeout _ = false

-- The result names its point, blocks only in the mode enforce, and is retryable exactly where it
-- reports a time-out.
pub record IsJudged {ℓ} {V : Type ℓ} (point : Text) (mode : ContractMode) (item : HookItem V)
    : Type 0 where
  pub named : item.hook_point ≡ point
  pub blocking : blocks item ≡ true → is_enforce mode ≡ true
  pub retry : item.retryable ≡ is_timeout item.error

retry_of :
    (code : Text) (b : Bool)
    → text_eq (strip code) hook_err_timeout ≡ b
    → retry_allowed_for_hook_error_code code ≡ b
retry_of code b h = retry_allowed-eq code ∙ h

module _ {ℓ} {V : Type ℓ} (point : Text) (pc : PayloadContract) where
  pub error_item-IsJudged :
      (mode : ContractMode) (error : HookError) (code type : Text)
      → text_eq (strip code) hook_err_timeout ≡ is_timeout (some error)
      → IsJudged {V = V} point mode (error_item point error code type pc)
  unfolding error_item hook_error_result text_eq
  error_item-IsJudged mode error code type h = record {
    named = refl;
    blocking = λ e. ground arith;
    retry = retry_of code _ h;
  }

  fatal-IsJudged :
      (mode : ContractMode) (error : HookError) (code type : Text) (rc : Option ResultContract)
      → text_eq (strip code) hook_err_timeout ≡ is_timeout (some error)
      → is_enforce mode ≡ true
      → IsJudged {V = V} point mode (hook_error_result point error code type pc rc (codes "fatal"))
  unfolding hook_error_result
  fatal-IsJudged mode error code type rc h k = record {
    named = refl;
    blocking = λ e. k;
    retry = retry_of code _ h;
  }

  warning-IsJudged :
      (mode : ContractMode) (code shadow_code : Text) (rc : ResultContract) (allowed : Option Bool)
      (r : HookReturn V)
      → IsJudged point mode (hook_warning_result point mode code shadow_code pc rc allowed r)
  unfolding hook_warning_result
  warning-IsJudged mode code shadow_code rc allowed r = record {
    named = refl;
    blocking = λ e. ground arith;
    retry = refl;
  }

  plain-IsJudged :
      (mode : ContractMode) (rc : ResultContract) (allowed : Bool) (r : HookReturn V)
      → IsJudged point mode (returned_result point mode pc rc allowed r)
  unfolding returned_result
  plain-IsJudged mode rc allowed r = record {
    named = refl;
    blocking = λ e. ground arith;
    retry = refl;
  }

  later-IsJudged :
      (mode : ContractMode) (rc : ResultContract) (allowed : Bool) (r : HookReturn V)
      → IsJudged point mode (later_verdict point mode pc rc allowed r)
  unfolding later_verdict text_eq strip lstrip is_space
  later-IsJudged mode rc allowed r =
      let broken = not (pc.valid && rc.valid) in
      if_when (IsJudged point mode) (rejects_fatally r && is_enforce mode) _ _
        (λ t.
          fatal-IsJudged mode (hook_decision_rejected (decision_reason r))
            (codes "LIRIX_HOOK_DECISION_REJECTED") (codes "policy_rejection") (some rc) refl
            (&&_true (rejects_fatally r) (is_enforce mode) t).1)
        (λ f.
          if_when (IsJudged point mode) (is_enforce mode && broken) _ _
            (λ t.
              fatal-IsJudged mode hook_contract_violation (codes "LIRIX_HOOK_CONTRACT_VIOLATION")
                (codes "contract_violation") (some rc) refl (&&_true (is_enforce mode) broken t).0)
            (λ f.
              if_of (IsJudged point mode) (is_warning_mode mode && broken) _ _
                (warning-IsJudged mode (codes "LIRIX_HOOK_CONTRACT_WARNING")
                  (codes "LIRIX_HOOK_CONTRACT_SHADOW_WARNING") rc none r)
                (plain-IsJudged mode rc allowed r)))

  abbrev JudgedIfAny : ContractMode → Option (HookItem V) → Type 0
  JudgedIfAny mode none = Unit
  JudgedIfAny mode (some item) = IsJudged point mode item

  patch-IsJudged :
      (mode : ContractMode) (rc : ResultContract) (allowed : Bool) (p : HookPatch V)
      → JudgedIfAny mode (patch_verdict point mode pc rc allowed p)
  unfolding patch_verdict text_eq strip lstrip is_space
  patch-IsJudged mode rc allowed p =
      if_of (JudgedIfAny mode) (not (targets_payload p)) _ _
        (if_when (IsJudged point mode) (is_enforce mode) _ _
          (fatal-IsJudged mode hook_patch_target_not_allowed
            (codes "LIRIX_HOOK_PATCH_TARGET_FORBIDDEN") (codes "contract_violation") (some rc) refl)
          (λ f.
            warning-IsJudged mode (codes "LIRIX_HOOK_PATCH_TARGET_WARNING")
              (codes "LIRIX_HOOK_PATCH_TARGET_SHADOW_WARNING") rc (some false) (hook_patch p)))
        (if_when (JudgedIfAny mode) (is_enforce mode && not allowed) _ _
          (λ t.
            fatal-IsJudged mode hook_patch_not_allowed_at_point (codes "LIRIX_HOOK_PATCH_FORBIDDEN")
              (codes "contract_violation") (some rc) refl
              (&&_true (is_enforce mode) (not allowed) t).0)
          (λ f.
            if_of (JudgedIfAny mode) (is_warning_mode mode && not allowed) _ _
              (warning-IsJudged mode (codes "LIRIX_HOOK_PATCH_FORBIDDEN_WARNING")
                (codes "LIRIX_HOOK_PATCH_FORBIDDEN_SHADOW_WARNING") rc (some false) (hook_patch p))
              tt))

  early-IsJudged :
      (mode : ContractMode) (rc : ResultContract) (allowed : Bool) (r : HookReturn V)
      → JudgedIfAny mode (early_verdict point mode pc rc allowed r)
  early-IsJudged mode rc allowed (hook_patch p) = patch-IsJudged mode rc allowed p
  early-IsJudged mode rc allowed no_result = tt
  early-IsJudged mode rc allowed (hook_decision d) = tt
  early-IsJudged mode rc allowed (hook_annotation t m) = tt
  early-IsJudged mode rc allowed (other_result t) = tt

  value_or-IsJudged :
      (mode : ContractMode) (o : Option (HookItem V)) (item : HookItem V)
      → JudgedIfAny mode o
      → IsJudged point mode item
      → IsJudged point mode (value_or o item)
  value_or-IsJudged mode none item h k = k
  value_or-IsJudged mode (some x) item h k = h

  pub ok_result-IsJudged :
      (mode : ContractMode) (r : HookReturn V)
      → IsJudged point mode (hook_ok_result point mode r pc)
  unfolding hook_ok_result
  ok_result-IsJudged mode r =
      let rc = result_contract_state mode r in
      value_or-IsJudged mode _ _ (early-IsJudged mode rc _ r) (later-IsJudged mode rc _ r)
