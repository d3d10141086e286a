-- ===== src/Hooks/Laws/Confined.antt =====
-- lirix/core/hook_manager.py: where patches are not taken, the dict of the payload stays as it was.
use lirix.Prelude.{◌≡◌, refl, true}
use lirix.Hooks.Types.{ContractMode, is_guarded}
use lirix.Hooks.Manager.{Response, Shared, Manager}
use lirix.Hooks.Settle.{after_call}

-- An invocation keeps the payload of the shared state: its keys and what they are bound to.
abbrev pub Keeps {ℓ κ μ} :
    {V : Type ℓ} {A : Type κ} {W : Type μ} → A × Shared V W → Shared V W → Type ℓ
Keeps r sh = r.1.payload ≡ sh.payload

module _ {ℓ κ μ} {V : Type ℓ} {E : Type κ} {W : Type μ} where
  pub after_call-Keeps :
      (mode : ContractMode) (r : Response V E W) (sh : Shared V W)
      → is_guarded mode ≡ true
      → (after_call mode r sh).payload ≡ sh.payload
  unfolding after_call
  after_call-Keeps mode r sh g = rw g refl
