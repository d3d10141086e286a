-- ===== src/Hooks/Settle.antt =====
-- What one callback of HookManager.invoke_hooks_isolated leaves: its result, and the shared state.
use lirix.Prelude.{
  Bool, true, false, ◌&&◌, Option, none, some, [], snoc, Text, Dict, codes, value_or, Result,
  returned, raised, if◌then◌else◌,
}
use lirix.Hooks.Types.{
  ContractMode, is_guarded, HookPatch, HookReturn, Kwargs, PayloadArg, payload_dict,
  default_hook_failure_level, PayloadContract, HookItem, HookError, timeout_after, raised_error,
}
use lirix.Hooks.Contract.{wrap_payload, hook_error_result, apply_updates, keys, patch_of, sorted}
use lirix.Hooks.Verdict.{hook_ok_result}
use lirix.Hooks.Manager.{CallEnd, value, security, timeout_error, failure, Response, Shared}

module _ {ℓ} {V : Type ℓ} where
  -- The keywords that the next callback gets: the read-only copy that was made before the first
  -- one, or, in the legacy mode, the dict as the callbacks before have left it.
  unfoldable pub call_kwargs : ContractMode → Kwargs V → Option (Dict V) → Kwargs V
  unfolding wrap_payload
  call_kwargs mode kwargs now =
      if is_guarded mode
      then record kwargs { payload = wrap_payload kwargs.payload }
      else record kwargs { payload = current now }
    where
      current : Option (Dict V) → Option (PayloadArg V)
      current none = kwargs.payload
      current (some d) = some (payload_dict d)

  abbrev pub overwrite : Dict V → Option (Dict V) → Option (Dict V)
  overwrite written none = none
  overwrite written (some d) = some written

  -- The patch is applied: `res.get("ok") and res.get("patch_allowed", True)`, on a dict.
  abbrev pub patches : HookItem V → Option (HookPatch V) → Option (Dict V) → Bool
  patches res (some p) (some d) = res.ok && value_or res.patch_allowed true
  patches res _ _ = false

  abbrev pub updates_of : Option (HookPatch V) → Dict V
  updates_of none = []
  updates_of (some p) = p.updates

  abbrev pub patched : Dict V → Option (Dict V) → Option (Dict V)
  patched updates none = none
  patched updates (some d) = some (apply_updates d updates)

  unfoldable pub error_item : Text → HookError → Text → Text → PayloadContract → HookItem V
  unfolding hook_error_result
  error_item point error code type pc =
      hook_error_result point error code type pc none default_hook_failure_level

module _ {ℓ μ} {V : Type ℓ} {W : Type μ} where
  -- The result of a callback that returned, and its patch.
  unfoldable pub settle_value :
      Text → ContractMode → PayloadContract → HookReturn V → Shared V W → HookItem V × Shared V W
  unfolding hook_ok_result sorted apply_updates
  settle_value point mode pc r sh =
      let res = hook_ok_result point mode r pc in
      let updates = updates_of (patch_of r) in
      if patches res (patch_of r) sh.payload
      then (
        record res { patch_applied_fields = some (sorted (keys updates)) },
        record sh { payload = patched updates sh.payload },
      )
      else (res, sh)

  -- _emit_hook_timeout_audit, and the result
  unfoldable pub settle_timeout :
      Text → Text → PayloadContract → Shared V W → HookItem V × Shared V W
  unfolding error_item
  settle_timeout point limit pc sh = (
    error_item point (timeout_after limit) (codes "LIRIX_HOOK_TIMEOUT") (codes "timeout") pc,
    record sh { timeouts = snoc sh.timeouts point },
  )

  unfoldable pub settle_failure :
      Text → Text → Text → PayloadContract → Shared V W → HookItem V × Shared V W
  unfolding error_item
  settle_failure point type message pc sh =
      (error_item point (raised_error type message) (codes "LIRIX_HOOK_RUNTIME_ERROR") type pc, sh)

module _ {ℓ κ μ} {V : Type ℓ} {E : Type κ} {W : Type μ} where
  -- What the call itself changes. The read-only copy gives no access to the dict, but it shares the
  -- objects under its keys; what the callback does to those is in the world that it leaves.
  unfoldable pub after_call : ContractMode → Response V E W → Shared V W → Shared V W
  after_call mode r sh = record sh {
    payload = if is_guarded mode then sh.payload else overwrite r.written sh.payload;
    world = r.world;
  }

  -- One call that ended in time.
  unfoldable pub settle_end :
      Text
      → ContractMode
      → PayloadContract
      → CallEnd V E
      → Shared V W
      → Result E (HookItem V) × Shared V W
  unfolding settle_value settle_failure
  settle_end point mode pc (value r) sh =
      let (res, next) = settle_value point mode pc r sh in (returned res, next)
  settle_end point mode pc (security e) sh = (raised e, sh)
  settle_end point mode pc (timeout_error message) sh =
      let (res, next) = settle_failure point (codes "TimeoutError") message pc sh in
      (returned res, next)
  settle_end point mode pc (failure type message) sh =
      let (res, next) = settle_failure point type message pc sh in (returned res, next)
