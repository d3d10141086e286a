-- ===== src/Hooks/Laws/Turn.antt =====
-- lirix/core/hook_manager.py: the cases of one turn of the two loops, and what holds along them.
use lirix.Prelude.{
  ◌≡◌, false, Option, List, Text, Result, returned, raised, any, elem, if_of, if_when, codes,
}
use lirix.Hooks.Types.{
  ContractMode, PayloadContract, HookItem, Kwargs, predefined_hook_points,
  async_hook_requires_ainvoke,
}
use lirix.Hooks.Manager.{Response, Callback, Shared, Manager, hook_unknown_point}
use lirix.Hooks.Contract.{payload_contract_state}
use lirix.Hooks.Settle.{settle_end, after_call, call_kwargs, error_item}
use lirix.Hooks.Invoke.{
  TimeLimit, Settled, invoke_sync, invoke_async, invoke_all, timed_out, recorded, Invoked,
  invoke_hooks_isolated, ainvoke_hooks_isolated, callbacks_of,
}

module _ {ℓ κ μ} {V : Type ℓ} {E : Type κ} {W : Type μ} where
  abbrev pub response : ContractMode → Kwargs V → Callback V E W → Shared V W → Response V E W
  response mode kwargs cb sh = cb.react sh.world (call_kwargs mode kwargs sh.payload)

  abbrev pub called : ContractMode → Kwargs V → Callback V E W → Shared V W → Shared V W
  called mode kwargs cb sh = after_call mode (response mode kwargs cb sh) sh

  module _ {ν} (P : Settled V E W → Type ν) (point : Text) (mode : ContractMode)
      (limit : Option TimeLimit) (kwargs : Kwargs V) (pc : PayloadContract) (cb : Callback V E W)
      (sh : Shared V W) where
    pub invoke_sync-of :
        P (
          returned (
              error_item point async_hook_requires_ainvoke
                (codes "LIRIX_HOOK_ASYNC_REQUIRED")
                (codes "contract_violation")
                pc),
          sh,
        )
        → P (timed_out point limit pc (called mode kwargs cb sh))
        → P (
            settle_end point mode pc (response mode kwargs cb sh).ending (called mode kwargs cb sh))
        → P (invoke_sync point mode limit kwargs pc cb sh)
    unfolding invoke_sync
    invoke_sync-of a t s = if_of P _ _ _ a (if_of P _ _ _ t s)

    pub invoke_async-of :
        P (timed_out point limit pc (called mode kwargs cb sh))
        → P (
            settle_end point mode pc (response mode kwargs cb sh).ending (called mode kwargs cb sh))
        → P (invoke_async point mode limit kwargs pc cb sh)
    unfolding invoke_async
    invoke_async-of t s = if_of P _ _ _ t s

  module _ {ν} (P : Invoked V E W → Type ν) (m : Manager V E W) (point : Text)
      (limit : Option TimeLimit) (kwargs : Kwargs V) (sh : Shared V W) where
    abbrev sync_loop : Result E (List (HookItem V)) × Shared V W
    sync_loop =
        invoke_all
          (invoke_sync point m.contract_mode limit kwargs (payload_contract_state point kwargs))
          (callbacks_of point m) sh

    abbrev async_loop : Result E (List (HookItem V)) × Shared V W
    async_loop =
        invoke_all
          (invoke_async point m.contract_mode limit kwargs (payload_contract_state point kwargs))
          (callbacks_of point m) sh

    pub invoke-of :
        P (recorded point sync_loop)
        → (elem point predefined_hook_points ≡ false → P (raised (hook_unknown_point point), sh))
        → P (invoke_hooks_isolated m point limit kwargs sh)
    unfolding invoke_hooks_isolated
    invoke-of s u = if_when P (elem point predefined_hook_points) _ _ (λ k. s) u

    pub ainvoke-of :
        P (recorded point async_loop)
        → P (recorded point sync_loop)
        → (elem point predefined_hook_points ≡ false → P (raised (hook_unknown_point point), sh))
        → P (ainvoke_hooks_isolated m point limit kwargs sh)
    unfolding ainvoke_hooks_isolated
    ainvoke-of a s u =
        if_when P (elem point predefined_hook_points) _ _
          (λ k. if_of P (any (λ cb. cb.is_coroutine) (callbacks_of point m)) _ _ a (invoke-of s u))
          u
