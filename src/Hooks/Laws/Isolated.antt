-- ===== src/Hooks/Laws/Isolated.antt =====
-- lirix/core/hook_manager.py: the isolation of the callbacks of a point from each other.
use lirix.Prelude.{
  ◌≡◌, refl, ap, false, Option, List, [], ◌∷◌, length, suc, All, Text, elem, codes, text_eq, strip,
  lstrip, is_space, Result, returned, raised, if_of,
}
use lirix.Hooks.Types.{
  ContractMode, PayloadContract, HookReturn, HookItem, Kwargs, predefined_hook_points,
  async_hook_requires_ainvoke, timeout_after, raised_error,
}
use lirix.Hooks.Contract.{payload_contract_state, patch_of}
use lirix.Hooks.Verdict.{hook_ok_result}
use lirix.Hooks.Manager.{
  CallEnd, value, security, timeout_error, failure, Callback, Shared, Manager, hook_unknown_point,
  of_callback,
}
use lirix.Hooks.Settle.{
  settle_end, settle_value, settle_timeout, settle_failure, error_item, patches,
}
use lirix.Hooks.Invoke.{
  TimeLimit, Settled, Invoked, invoke_sync, invoke_async, invoke_all, ainvoke_hooks_isolated,
  callbacks_of, follow, timed_out, recorded, shown_limit,
}
use lirix.Hooks.Laws.Turn.{response, called, invoke_sync-of, invoke_async-of, ainvoke-of}
use lirix.Hooks.Laws.Judged.{IsJudged, error_item-IsJudged, ok_result-IsJudged}

-- Some callback raises the LirixSecurityException on some call.
pub data RaisedBy {ℓ κ μ} {V : Type ℓ} {E : Type κ} {W : Type μ} (e : E)
    : List (Callback V E W) → Type (ℓ ⊔ κ ⊔ μ) where
  here :
      {cb : Callback V E W} {cbs : List (Callback V E W)} (w : W) (kwargs : Kwargs V)
      → (cb.react w kwargs).ending ≡ security e
      → RaisedBy e (cb ∷ cbs)
  there :
      {cb : Callback V E W} {cbs : List (Callback V E W)} → RaisedBy e cbs → RaisedBy e (cb ∷ cbs)

-- One turn gives a judged result, or what its callback raises.
data TurnEnd {ℓ κ μ} {V : Type ℓ} {E : Type κ} {W : Type μ} (point : Text) (mode : ContractMode)
    (cb : Callback V E W) : Settled V E W → Type (ℓ ⊔ κ ⊔ μ) where
  turn_judged :
      {item : HookItem V} {next : Shared V W}
      → IsJudged point mode item
      → TurnEnd point mode cb (returned item, next)
  turn_raised :
      {e : E} {next : Shared V W} (w : W) (kwargs : Kwargs V)
      → (cb.react w kwargs).ending ≡ security e
      → TurnEnd point mode cb (raised e, next)

data LoopEnd {ℓ κ μ} {V : Type ℓ} {E : Type κ} {W : Type μ} (point : Text) (mode : ContractMode)
    (cbs : List (Callback V E W))
    : Result E (List (HookItem V)) × Shared V W → Type (ℓ ⊔ κ ⊔ μ) where
  loop_judged :
      {items : List (HookItem V)} {next : Shared V W}
      → length items ≡ length cbs
      → All (IsJudged point mode) items
      → LoopEnd point mode cbs (returned items, next)
  loop_raised :
      {e : E} {next : Shared V W} → RaisedBy e cbs → LoopEnd point mode cbs (raised e, next)

-- The ends of an invocation.
pub data IsIsolated {ℓ κ μ} {V : Type ℓ} {E : Type κ} {W : Type μ} (point : Text)
    (m : Manager V E W) : Invoked V E W → Type (ℓ ⊔ κ ⊔ μ) where
  all_judged :
      {items : List (HookItem V)} {next : Shared V W}
      → length items ≡ length (callbacks_of point m)
      → All (IsJudged point m.contract_mode) items
      → IsIsolated point m (returned items, next)
  stopped :
      {e : E} {next : Shared V W}
      → RaisedBy e (callbacks_of point m)
      → IsIsolated point m (raised (of_callback e), next)
  unknown_point :
      {next : Shared V W}
      → elem point predefined_hook_points ≡ false
      → IsIsolated point m (raised (hook_unknown_point point), next)

applied_IsJudged {ℓ} :
    {V : Type ℓ} (point : Text) (mode : ContractMode) (item : HookItem V)
    (fields : Option (List Text))
    → IsJudged point mode item
    → IsJudged point mode (record item { patch_applied_fields = fields })
applied_IsJudged point mode item fields h = record {
  named = h.named;
  blocking = h.blocking;
  retry = h.retry;
}

module _ {ℓ κ μ} {V : Type ℓ} {E : Type κ} {W : Type μ} (point : Text) (mode : ContractMode) where
  module _ (cb : Callback V E W) (pc : PayloadContract) where
    settle_value-judged :
        (r : HookReturn V) (sh : Shared V W)
        → IsJudged point mode (settle_value point mode pc r sh).0
    unfolding settle_value
    settle_value-judged r sh =
        let item = hook_ok_result point mode r pc in
        if_of (λ (x : HookItem V × Shared V W). IsJudged point mode x.0)
          (patches item (patch_of r) sh.payload) _ (item, sh)
          (applied_IsJudged point mode item _ (ok_result-IsJudged point pc mode r))
          (ok_result-IsJudged point pc mode r)

    failed :
        (type message : Text) (sh : Shared V W)
        → IsJudged point mode (settle_failure {W = W} point type message pc sh).0
    unfolding settle_failure text_eq strip lstrip is_space
    failed type message sh =
        error_item-IsJudged point pc mode (raised_error type message)
          (codes "LIRIX_HOOK_RUNTIME_ERROR") type refl

    settle_end-ends :
        (w : W) (kwargs : Kwargs V) (ending : CallEnd V E) (sh : Shared V W)
        → (cb.react w kwargs).ending ≡ ending
        → TurnEnd point mode cb (settle_end point mode pc ending sh)
    unfolding settle_end
    settle_end-ends w kwargs (value r) sh h = turn_judged (settle_value-judged r sh)
    settle_end-ends w kwargs (security e) sh h = turn_raised w kwargs h
    settle_end-ends w kwargs (timeout_error message) sh h =
        turn_judged (failed (codes "TimeoutError") message sh)
    settle_end-ends w kwargs (failure type message) sh h = turn_judged (failed type message sh)

    late :
        (limit : Option TimeLimit) (sh : Shared V W)
        → TurnEnd point mode cb (timed_out point limit pc sh)
    unfolding settle_timeout text_eq strip lstrip is_space
    late limit sh = turn_judged (
        error_item-IsJudged point pc mode (timeout_after (shown_limit limit))
          (codes "LIRIX_HOOK_TIMEOUT") (codes "timeout") refl)

    refused :
        (sh : Shared V W)
        → TurnEnd point mode cb (
          returned (
              error_item point async_hook_requires_ainvoke
                (codes "LIRIX_HOOK_ASYNC_REQUIRED")
                (codes "contract_violation")
                pc),
          sh,
        )
    unfolding text_eq strip lstrip is_space
    refused sh = turn_judged (
        error_item-IsJudged point pc mode async_hook_requires_ainvoke
          (codes "LIRIX_HOOK_ASYNC_REQUIRED") (codes "contract_violation") refl)

    module _ (limit : Option TimeLimit) (kwargs : Kwargs V) where
      invoke_sync-ends :
          (sh : Shared V W) → TurnEnd point mode cb (invoke_sync point mode limit kwargs pc cb sh)
      invoke_sync-ends sh =
          invoke_sync-of (TurnEnd point mode cb) point mode limit kwargs pc cb sh (refused sh)
            (late limit (called mode kwargs cb sh))
            (settle_end-ends sh.world _ (response mode kwargs cb sh).ending
              (called mode kwargs cb sh) refl)

      invoke_async-ends :
          (sh : Shared V W) → TurnEnd point mode cb (invoke_async point mode limit kwargs pc cb sh)
      invoke_async-ends sh =
          invoke_async-of (TurnEnd point mode cb) point mode limit kwargs pc cb sh
            (late limit (called mode kwargs cb sh))
            (settle_end-ends sh.world _ (response mode kwargs cb sh).ending
              (called mode kwargs cb sh) refl)

  follow-ends :
      (cb : Callback V E W) (cbs : List (Callback V E W)) (r : Settled V E W)
      (rest : Result E (List (HookItem V)) × Shared V W)
      → TurnEnd point mode cb r
      → LoopEnd point mode cbs rest
      → LoopEnd point mode (cb ∷ cbs) (follow r rest)
  follow-ends cb cbs r rest (turn_judged h) (loop_judged same hs) =
      loop_judged (ap suc same) (h, hs)
  follow-ends cb cbs r rest (turn_judged h) (loop_raised by) = loop_raised (there by)
  follow-ends cb cbs r rest (turn_raised w kwargs h) ends = loop_raised (here w kwargs h)

  invoke_all-ends :
      (turn : Callback V E W → Shared V W → Settled V E W)
      → ((cb : Callback V E W) (sh : Shared V W) → TurnEnd point mode cb (turn cb sh))
      → (cbs : List (Callback V E W)) (sh : Shared V W)
      → LoopEnd point mode cbs (invoke_all turn cbs sh)
  unfolding invoke_all
  invoke_all-ends turn h [] sh = loop_judged refl tt
  invoke_all-ends turn h (cb ∷ cbs) sh =
      let r = turn cb sh in
      follow-ends cb cbs r (invoke_all turn cbs r.1) (h cb sh) (invoke_all-ends turn h cbs r.1)

module _ {ℓ κ μ} {V : Type ℓ} {E : Type κ} {W : Type μ} (m : Manager V E W) (point : Text)
    (limit : Option TimeLimit) (kwargs : Kwargs V) (sh : Shared V W) where
  recorded-ends :
      (r : Result E (List (HookItem V)) × Shared V W)
      → LoopEnd point m.contract_mode (callbacks_of point m) r
      → IsIsolated point m (recorded point r)
  recorded-ends r (loop_judged same hs) = all_judged same hs
  recorded-ends r (loop_raised by) = stopped by

  -- An invocation of the hooks of a predefined point gives one result for each callback, or raises
  -- a LirixSecurityException that one of the callbacks raises; nothing else that a callback does
  -- stops the others. Each result names the point, is blocking only in the mode enforce, and is
  -- retryable exactly where it reports a time-out. An invocation of another point raises.
  pub ainvoke-IsIsolated : IsIsolated point m (ainvoke_hooks_isolated m point limit kwargs sh)
  ainvoke-IsIsolated =
      let pc = payload_contract_state point kwargs in
      let mode = m.contract_mode in
      ainvoke-of (IsIsolated point m) m point limit kwargs sh
        (recorded-ends _ (
          invoke_all-ends point mode (invoke_async point mode limit kwargs pc)
            (λ cb. invoke_async-ends point mode cb pc limit kwargs) (callbacks_of point m) sh))
        (recorded-ends _ (
          invoke_all-ends point mode (invoke_sync point mode limit kwargs pc)
            (λ cb. invoke_sync-ends point mode cb pc limit kwargs) (callbacks_of point m) sh))
        unknown_point
