-- ===== src/Hooks/Direct.antt =====
-- invoke_hooks and ainvoke_hooks of lirix/core/hook_manager.py, which isolate nothing: the first
-- exception ends the loop, and each callback gets the dict of the caller.
use lirix.Prelude.{ℕ, List, [], ◌∷◌, Text, elem, get, ltb, Result, returned, raised, if◌then◌else◌}
use lirix.Hooks.Types.{ContractMode, HookReturn, Kwargs, predefined_hook_points}
use lirix.Hooks.Manager.{
  CallEnd, value, security, timeout_error, failure, Callback, Shared, Manager, HookFailure,
  hook_unknown_point, hook_async_context, hook_execution, of_callback,
}
use lirix.Hooks.Settle.{call_kwargs, after_call}
use lirix.Hooks.Invoke.{prepend, callbacks_of}

-- _AINVOKE_HOOKS_WALL_TIMEOUT_SEC, in milliseconds
abbrev pub wall_timeout : ℕ
wall_timeout = 30000

-- A LirixSecurityException stays, another exception becomes a HookExecutionException.
abbrev pub direct_end {ℓ κ} :
    {V : Type ℓ} {E : Type κ} → Text → CallEnd V E → Result (HookFailure E) (HookReturn V)
direct_end point (value r) = returned r
direct_end point (security e) = raised (of_callback e)
direct_end point (timeout_error message) = raised (hook_execution point)
direct_end point (failure type message) = raised (hook_execution point)

module _ {ℓ κ μ} {V : Type ℓ} {E : Type κ} {W : Type μ} where
  unfoldable pub direct_sync :
      Text
      → Kwargs V
      → Callback V E W
      → Shared V W
      → Result (HookFailure E) (HookReturn V) × Shared V W
  unfolding call_kwargs after_call
  direct_sync point kwargs cb sh =
      let r = cb.react sh.world (call_kwargs ContractMode.legacy kwargs sh.payload) in
      if cb.is_coroutine
      then (raised (hook_async_context point), sh)
      else (direct_end point r.ending, after_call ContractMode.legacy r sh)

  unfoldable pub direct_async :
      Text
      → Kwargs V
      → Callback V E W
      → Shared V W
      → Result (HookFailure E) (HookReturn V) × Shared V W
  unfolding call_kwargs after_call
  direct_async point kwargs cb sh =
      let r = cb.react sh.world (call_kwargs ContractMode.legacy kwargs sh.payload) in
      (
        if ltb wall_timeout r.elapsed
            then raised (hook_execution point)
            else direct_end point r.ending,
        after_call ContractMode.legacy r sh,
      )

  abbrev pub direct_follow :
      Result (HookFailure E) (HookReturn V) × Shared V W
      → Result (HookFailure E) (List (HookReturn V)) × Shared V W
      → Result (HookFailure E) (List (HookReturn V)) × Shared V W
  direct_follow (returned r, next) rest = prepend r rest
  direct_follow (raised e, next) rest = (raised e, next)

  unfoldable pub direct_all :
      (Callback V E W → Shared V W → Result (HookFailure E) (HookReturn V) × Shared V W)
      → List (Callback V E W)
      → Shared V W
      → Result (HookFailure E) (List (HookReturn V)) × Shared V W
  direct_all turn [] sh = (returned [], sh)
  direct_all turn (cb ∷ cbs) sh = let r = turn cb sh in direct_follow r (direct_all turn cbs r.1)

  unfoldable pub invoke_hooks :
      Manager V E W
      → Text
      → Kwargs V
      → Shared V W
      → Result (HookFailure E) (List (HookReturn V)) × Shared V W
  unfolding elem get direct_sync direct_all
  invoke_hooks m point kwargs sh =
      if elem point predefined_hook_points
      then direct_all (direct_sync point kwargs) (callbacks_of point m) sh
      else (raised (hook_unknown_point point), sh)

  unfoldable pub ainvoke_hooks :
      Manager V E W
      → Text
      → Kwargs V
      → Shared V W
      → Result (HookFailure E) (List (HookReturn V)) × Shared V W
  unfolding elem get direct_async direct_all
  ainvoke_hooks m point kwargs sh =
      if elem point predefined_hook_points
      then direct_all (direct_async point kwargs) (callbacks_of point m) sh
      else (raised (hook_unknown_point point), sh)
