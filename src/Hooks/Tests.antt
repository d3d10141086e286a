-- ===== src/Hooks/Tests.antt =====
-- Runs of lirix/core/hook_manager.py on two callbacks, one of which patches the payload, and both of
-- which write to the nested object 2. A value is a reference, and the world says what it names holds.
use lirix.Prelude.{
  ℕ, ◌==◌, if◌then◌else◌, ◌≡◌, refl, false, Option, none, some, List, [], ◌∷◌, Text, Dict, codes,
  elem, get, put, text_eq, returned, raised, strip, lstrip, is_space, text_leb, remove,
}
use lirix.Hooks.Types.{
  ContractMode, hook_patch, HookItem, Kwargs, payload_dict, hook_point_capabilities,
}
use lirix.Hooks.Contract.{
  payload_contract_state, wrap_payload, hook_error_result, hook_warning_result, returned_result,
  sorted, apply_updates,
}
use lirix.Hooks.Verdict.{hook_ok_result, patch_allowed_at, patch_verdict, later_verdict}
use lirix.Hooks.Manager.{
  CallEnd, value, failure, Response, Callback, Shared, Manager, register_hook, clear,
  hook_execution,
}
use lirix.Hooks.Settle.{
  call_kwargs, after_call, settle_end, settle_value, settle_failure, error_item,
}
use lirix.Hooks.Invoke.{
  TimeLimit, Invoked, invoke_sync, invoke_all, maybe_record_hook_trace, ainvoke_hooks_isolated,
  callbacks_of,
}
use lirix.Hooks.Direct.{invoke_hooks, ainvoke_hooks, direct_sync, direct_async, direct_all}
use lirix.Hooks.Laws.Isolated.{IsIsolated, ainvoke-IsIsolated}

abbrev Heap : Type 0
Heap = ℕ → ℕ

abbrev fives : Heap
fives n = 5

abbrev write_2 : Heap → Heap
write_2 heap n = if n == 2 then 7 else heap n

abbrev draft : Dict ℕ
draft = (codes "value", 1) ∷ (codes "gas", 2) ∷ []

abbrev reply : CallEnd ℕ Text → Heap → Kwargs ℕ → Response ℕ Text Heap
reply ending w kwargs = record {
  ending = ending;
  elapsed = 3;
  written = (codes "to", 0) ∷ [];
  world = write_2 w;
}

abbrev patching : Callback ℕ Text Heap
patching = record {
  is_coroutine = false;
  react = reply (
      value (
        hook_patch
          (record { updates = (codes "value", 9) ∷ []; target = codes "payload"; reason = [] })));
}

abbrev failing : Callback ℕ Text Heap
failing = record { is_coroutine = false; react = reply (failure (codes "ValueError") (codes "no")) }

abbrev managed : ContractMode → Text → Manager ℕ Text Heap
managed mode point = record {
  registry = (point, patching ∷ failing ∷ []) ∷ [];
  contract_mode = mode;
}

abbrev kwargs : Kwargs ℕ
kwargs = record { payload = some (payload_dict draft); others = (codes "intent", 0) ∷ [] }

abbrev shared : Shared ℕ Heap
shared = record { payload = some draft; steps = some []; timeouts = []; world = fives }

abbrev half_second : Option TimeLimit
half_second = some (record { limit = 500; shown = codes "0.5" })

abbrev run_at : ContractMode → Text → Invoked ℕ Text Heap
run_at mode point = ainvoke_hooks_isolated (managed mode point) point half_second kwargs shared

abbrev items_of : Invoked ℕ Text Heap → List (HookItem ℕ)
items_of (returned items, next) = items
items_of (raised e, next) = []

-- The patch is applied at pre_simulation, and the writes of a callback to its dict are not seen.
patch_applied :
    (run_at ContractMode.enforce (codes "pre_simulation")).1.payload
    ≡ some ((codes "value", 9) ∷ (codes "gas", 2) ∷ [])
unfolding ainvoke_hooks_isolated text_eq elem get put is_space lstrip strip text_leb
    payload_contract_state wrap_payload hook_ok_result patch_allowed_at hook_point_capabilities
    patch_verdict later_verdict hook_error_result returned_result apply_updates sorted call_kwargs
    after_call settle_end settle_value settle_failure error_item invoke_sync invoke_all
    maybe_record_hook_trace
patch_applied = refl

-- In the legacy mode the callbacks write to the dict itself.
legacy_writes :
    (run_at ContractMode.legacy (codes "post_validate")).1.payload ≡ some ((codes "to", 0) ∷ [])
unfolding ainvoke_hooks_isolated text_eq elem get put is_space lstrip strip text_leb
    payload_contract_state wrap_payload hook_ok_result patch_allowed_at hook_point_capabilities
    patch_verdict later_verdict hook_error_result returned_result apply_updates sorted call_kwargs
    after_call settle_end settle_value settle_failure error_item invoke_sync invoke_all
    maybe_record_hook_trace
legacy_writes = refl

-- In the mode warn the dict is kept, and the object under "gas" is written to all the same.
nested_written :
    (run_at ContractMode.warn (codes "post_validate")).1.payload ≡ some draft
    × ((run_at ContractMode.warn (codes "post_validate")).1.world 2 ≡ 7)
unfolding ainvoke_hooks_isolated text_eq elem get put is_space lstrip strip text_leb
    payload_contract_state wrap_payload hook_ok_result patch_allowed_at hook_point_capabilities
    patch_verdict later_verdict hook_error_result returned_result apply_updates sorted call_kwargs
    after_call settle_end settle_value settle_failure error_item invoke_sync invoke_all
    maybe_record_hook_trace hook_warning_result
nested_written = (refl, refl)

abbrev ran : Invoked ℕ Text Heap
ran = run_at ContractMode.enforce (codes "pre_simulation")

ainvoke-IsIsolated_example :
    IsIsolated (codes "pre_simulation") (managed ContractMode.enforce (codes "pre_simulation")) ran
ainvoke-IsIsolated_example =
    ainvoke-IsIsolated (managed ContractMode.enforce (codes "pre_simulation"))
      (codes "pre_simulation") half_second kwargs shared

unknown_point_refused :
    register_hook (codes "pre_flight") patching (managed ContractMode.warn (codes "pre_validate"))
    ≡ none
unfolding register_hook elem text_eq
unknown_point_refused = refl

cleared :
    callbacks_of
      (codes "pre_validate")
      (clear (some (codes "pre_validate")) (managed ContractMode.warn (codes "pre_validate")))
    ≡ []
unfolding clear remove text_eq get
cleared = refl

-- The second callback raises, which ends the direct invocation, sync or async.
direct_stops :
    (invoke_hooks
      (managed ContractMode.enforce (codes "pre_simulation"))
      (codes "pre_simulation")
      kwargs
      shared).0
    ≡ raised (hook_execution (codes "pre_simulation"))
unfolding invoke_hooks direct_sync direct_all call_kwargs after_call elem text_eq get
direct_stops = refl

direct_async_stops :
    (ainvoke_hooks
      (managed ContractMode.enforce (codes "pre_simulation"))
      (codes "pre_simulation")
      kwargs
      shared).0
    ≡ raised (hook_execution (codes "pre_simulation"))
unfolding ainvoke_hooks direct_async direct_all call_kwargs after_call elem text_eq get
direct_async_stops = refl
