-- ===== src/Hooks/Invoke.antt =====
-- The loops of lirix/core/hook_manager.py: invoke_hooks_isolated and ainvoke_hooks_isolated.
use lirix.Prelude.{
  ℕ, Bool, true, false, ◌&&◌, ◌||◌, Option, none, some, List, [], ◌∷◌, snoc, Text, Dict, codes,
  elem, get, value_or, any, map, ltb, Result, returned, raised, if◌then◌else◌,
}
use lirix.Status.{Status, aggregate_statuses}
use lirix.Hooks.Types.{
  ContractMode, Kwargs, PayloadArg, payload_dict, predefined_hook_points, hook_point_capabilities,
  Capability, PayloadContract, HookItem, async_hook_requires_ainvoke,
}
use lirix.Hooks.Contract.{payload_contract_state}
use lirix.Hooks.Manager.{
  CallEnd, timeout_error, Callback, Shared, Manager, HookFailure, hook_unknown_point, of_callback,
  Step,
}
use lirix.Hooks.Settle.{call_kwargs, after_call, settle_end, settle_timeout, error_item}

-- `timeout_sec`, in milliseconds, and the text of it; a limit of zero is none.
pub record TimeLimit : Type 0 where
  pub limit : ℕ
  pub shown : Text

abbrev pub exceeds : Option TimeLimit → ℕ → Bool
exceeds none elapsed = false
exceeds (some t) elapsed = ltb 0 t.limit && ltb t.limit elapsed

abbrev pub shown_limit : Option TimeLimit → Text
shown_limit none = codes "None"
shown_limit (some t) = t.shown

-- The dict `payload` of the keywords, which the caller shares.
abbrev pub dict_of {ℓ} : {V : Type ℓ} → Option (PayloadArg V) → Option (Dict V)
dict_of (some (payload_dict d)) = some d
dict_of _ = none

abbrev pub prepend {ℓ κ μ} :
    {A : Type ℓ} {E : Type κ} {S : Type μ} → A → Result E (List A) × S → Result E (List A) × S
prepend x (returned xs, s) = (returned (x ∷ xs), s)
prepend x (raised e, s) = (raised e, s)

abbrev pub Settled {ℓ κ μ} : Type ℓ → Type κ → Type μ → Type (ℓ ⊔ κ ⊔ μ)
Settled V E W = Result E (HookItem V) × Shared V W

abbrev pub Invoked {ℓ κ μ} : Type ℓ → Type κ → Type μ → Type (ℓ ⊔ κ ⊔ μ)
Invoked V E W = Result (HookFailure E) (List (HookItem V)) × Shared V W

abbrev requires_trace : Option Capability → Bool
requires_trace none = false
requires_trace (some c) = c.requires_trace

abbrev append_step : Step → Option (List Step) → Option (List Step)
append_step step none = none
append_step step (some steps) = some (snoc steps step)

module _ {ℓ} {V : Type ℓ} where
  -- _aggregate_isolated_hook_trace_status
  abbrev pub trace_status : List (HookItem V) → Status
  trace_status items =
      aggregate_statuses (map (λ i. if i.ok then codes "ok" else codes "degraded") items)

module _ {ℓ κ} {V : Type ℓ} {E : Type κ} where
  abbrev is_timeout_error : CallEnd V E → Bool
  is_timeout_error (timeout_error message) = true
  is_timeout_error _ = false

module _ {ℓ μ} {V : Type ℓ} {W : Type μ} where
  -- _maybe_record_hook_trace
  unfoldable pub maybe_record_hook_trace : Text → List (HookItem V) → Shared V W → Shared V W
  unfolding hook_point_capabilities aggregate_statuses
  maybe_record_hook_trace point items sh =
      if requires_trace (hook_point_capabilities point)
      then record sh {
        steps =
            append_step
              (record { layer = codes "hooks"; stage = point; status = trace_status items })
              sh.steps;
      }
      else sh

module _ {ℓ κ μ} {V : Type ℓ} {E : Type κ} {W : Type μ} where
  abbrev pub timed_out : Text → Option TimeLimit → PayloadContract → Shared V W → Settled V E W
  timed_out point limit pc sh =
      let (res, next) = settle_timeout point (shown_limit limit) pc sh in (returned res, next)

  -- One turn of the loop of invoke_hooks_isolated.
  unfoldable pub invoke_sync :
      Text
      → ContractMode
      → Option TimeLimit
      → Kwargs V
      → PayloadContract
      → Callback V E W
      → Shared V W
      → Settled V E W
  unfolding call_kwargs after_call settle_end settle_timeout error_item
  invoke_sync point mode limit kwargs pc cb sh =
      let r = cb.react sh.world (call_kwargs mode kwargs sh.payload) in
      let after = after_call mode r sh in
      if cb.is_coroutine
      then (
        returned (
            error_item point async_hook_requires_ainvoke (codes "LIRIX_HOOK_ASYNC_REQUIRED")
              (codes "contract_violation") pc),
        sh,
      )
      else if exceeds limit r.elapsed
      then timed_out point limit pc after
      else settle_end point mode pc r.ending after

  -- One turn of the loop of ainvoke_hooks_isolated, which awaits a coroutine.
  unfoldable pub invoke_async :
      Text
      → ContractMode
      → Option TimeLimit
      → Kwargs V
      → PayloadContract
      → Callback V E W
      → Shared V W
      → Settled V E W
  unfolding call_kwargs after_call settle_end settle_timeout
  invoke_async point mode limit kwargs pc cb sh =
      let r = cb.react sh.world (call_kwargs mode kwargs sh.payload) in
      let after = after_call mode r sh in
      if exceeds limit r.elapsed || is_timeout_error r.ending
      then timed_out point limit pc after
      else settle_end point mode pc r.ending after

  -- After one turn, the rest of the loop: a LirixSecurityException ends it.
  abbrev pub follow :
      Settled V E W
      → Result E (List (HookItem V)) × Shared V W
      → Result E (List (HookItem V)) × Shared V W
  follow (returned item, next) rest = prepend item rest
  follow (raised e, next) rest = (raised e, next)

  unfoldable pub invoke_all :
      (Callback V E W → Shared V W → Settled V E W)
      → List (Callback V E W)
      → Shared V W
      → Result E (List (HookItem V)) × Shared V W
  invoke_all turn [] sh = (returned [], sh)
  invoke_all turn (cb ∷ cbs) sh = let r = turn cb sh in follow r (invoke_all turn cbs r.1)

  abbrev pub recorded :
      Text
      → Result E (List (HookItem V)) × Shared V W
      → Result (HookFailure E) (List (HookItem V)) × Shared V W
  recorded point (returned items, sh) = (returned items, maybe_record_hook_trace point items sh)
  recorded point (raised e, sh) = (raised (of_callback e), sh)

  abbrev pub callbacks_of : Text → Manager V E W → List (Callback V E W)
  callbacks_of point m = value_or (get point m.registry) []

  unfoldable pub invoke_hooks_isolated :
      Manager V E W → Text → Option TimeLimit → Kwargs V → Shared V W → Invoked V E W
  unfolding elem get payload_contract_state invoke_sync invoke_all maybe_record_hook_trace
  invoke_hooks_isolated m point limit kwargs sh =
      let pc = payload_contract_state point kwargs in
      if elem point predefined_hook_points
      then recorded point
          (invoke_all (invoke_sync point m.contract_mode limit kwargs pc) (callbacks_of point m) sh)
      else (raised (hook_unknown_point point), sh)

  unfoldable pub ainvoke_hooks_isolated :
      Manager V E W → Text → Option TimeLimit → Kwargs V → Shared V W → Invoked V E W
  unfolding elem get payload_contract_state invoke_async invoke_all maybe_record_hook_trace
      invoke_hooks_isolated
  ainvoke_hooks_isolated m point limit kwargs sh =
      let pc = payload_contract_state point kwargs in
      if elem point predefined_hook_points
      then (if any (λ cb. cb.is_coroutine) (callbacks_of point m)
          then recorded point (
              invoke_all (invoke_async point m.contract_mode limit kwargs pc) (callbacks_of point m)
                sh)
          else invoke_hooks_isolated m point limit kwargs sh)
      else (raised (hook_unknown_point point), sh)
