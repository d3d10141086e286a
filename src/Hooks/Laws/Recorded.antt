-- ===== src/Hooks/Laws/Recorded.antt =====
-- lirix/core/hook_manager.py: every key of the payload that is bound anew is listed in a result.
use lirix.Prelude.{
  ◌≡◌, false, Option, none, some, List, [], Text, Dict, elem, get, any, value_or, Result, returned,
  raised,
}
use lirix.Hooks.Types.{HookItem}
use lirix.Hooks.Manager.{Shared, Manager}
use lirix.Hooks.Invoke.{Settled, Invoked}

module _ {ℓ} {V : Type ℓ} where
  -- The `patch_applied_fields` of a result.
  abbrev pub applied_fields : HookItem V → List Text
  applied_fields item = value_or item.patch_applied_fields []

  -- What a key of the shared payload is bound to.
  abbrev pub lookup : Text → Option (Dict V) → Option V
  lookup k none = none
  lookup k (some d) = get k d

module _ {ℓ μ} {V : Type ℓ} {W : Type μ} (k : Text) where
  abbrev Same : Shared V W → Shared V W → Type ℓ
  Same next sh = lookup k next.payload ≡ lookup k sh.payload

  abbrev NotedItem : HookItem V × Shared V W → Shared V W → Type ℓ
  NotedItem (item, next) sh = elem k (applied_fields item) ≡ false → Same next sh

module _ {ℓ κ μ} {V : Type ℓ} {E : Type κ} {W : Type μ} (k : Text) where
  abbrev Noted : Settled V E W → Shared V W → Type ℓ
  Noted (returned item, next) sh = NotedItem k (item, next) sh
  Noted (raised e, next) sh = Unit

  abbrev NotedAll : Result E (List (HookItem V)) × Shared V W → Shared V W → Type ℓ
  NotedAll (returned items, next) sh =
      any (λ i. elem k (applied_fields i)) items ≡ false → Same k next sh
  NotedAll (raised e, next) sh = Unit

  abbrev NotedEnd : Invoked V E W → Shared V W → Type ℓ
  NotedEnd (returned items, next) sh =
      any (λ i. elem k (applied_fields i)) items ≡ false → Same k next sh
  NotedEnd (raised e, next) sh = Unit
