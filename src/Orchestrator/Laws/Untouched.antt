-- ===== src/Orchestrator/Laws/Untouched.antt =====
-- lirix/core/orchestrator.py: until its records, a run leaves its session but for `l1_l3_ok`.
use lirix.Prelude.{
  ◌≡◌, ap, ℕ, Bool, true, false, Option, some, none, List, Text, Dict, codes, Result, returned,
  raised,
}
use lirix.Session.Store.{Session}
use lirix.Hooks.Types.{HookItem}
use lirix.Hooks.Invoke.{Invoked}
use lirix.Orchestrator.Types.{PipelineError, Client, RunState, Action, after, ◌>>=◌, ◌>>◌}
use lirix.Orchestrator.Actions.{
  invoke_point, run_point, run_l1_l3_validation, mark_session_l1_l3_ok, record_step, on_world,
  lift_hooks, raise_if_hook_blocked, has_blocking_hook_result,
}
use lirix.Orchestrator.Runs.{
  intent_arg, simulation_args, prepare, check, check_twice, execute, simulate_draft,
  simulate_checked, run_policy_audit, inspect_draft,
}
use lirix.Orchestrator.Laws.Closing.{opened_session}

abbrev pub IsOpened : {V W : Type 0} → Text → Text → List Text → RunState V W → Type 0
IsOpened id now ids st = (flag : Bool) × (st.session ≡ opened_session id now ids flag)

module _ {V X W : Type 0} (id now : Text) (ids : List Text) where
  abbrev pub Untouched : {A : Type 0} → Action V X W A → Type 0
  Untouched m = (st : RunState V W) → IsOpened id now ids st → IsOpened id now ids (m st).1

  after-Untouched :
      {A B : Type 0} (r : Result (PipelineError V X) A × RunState V W) (f : A → Action V X W B)
      → IsOpened id now ids r.1
      → ((a : A) → Untouched (f a))
      → IsOpened id now ids (after r f).1
  after-Untouched (returned a, st) f h k = k a st h
  after-Untouched (raised e, st) f h k = h

  pub >>=-Untouched :
      {A B : Type 0} (m : Action V X W A) (f : A → Action V X W B)
      → Untouched m
      → ((a : A) → Untouched (f a))
      → Untouched (m >>= f)
  >>=-Untouched m f h k st o = after-Untouched (m st) f (h st o) k

  >>-Untouched :
      {B : Type 0} (m : Action V X W (Unit {0})) (k : Action V X W B)
      → Untouched m
      → Untouched k
      → Untouched (m >> k)
  >>-Untouched m k h l = >>=-Untouched m (λ _. k) h (λ _. l)

  lift_hooks-Untouched :
      (st : RunState V W) (r : Invoked V X W)
      → IsOpened id now ids st
      → IsOpened id now ids (lift_hooks {X = X} st r).1
  lift_hooks-Untouched st (returned items, sh) h = h
  lift_hooks-Untouched st (raised e, sh) h = h

module _ {V O P X W : Type 0} (client : Client V O P X W) (id now : Text) (ids : List Text) where
  raise_if-Untouched :
      (o : Option (HookItem V)) (simulation : Bool)
      → Untouched {V = V} {X = X} {W = W} id now ids (raise_if_hook_blocked o simulation)
  raise_if-Untouched none simulation st h = h
  raise_if-Untouched (some item) simulation st h = h

  invoke_point-Untouched :
      (point : Text) (others : Dict V) → Untouched id now ids (invoke_point client point others)
  unfolding invoke_point
  invoke_point-Untouched point others st h = lift_hooks-Untouched id now ids st _ h

  run_point-Untouched :
      (point : Text) (others : Dict V) (simulation : Bool)
      → Untouched id now ids (run_point client point others simulation)
  unfolding run_point
  run_point-Untouched point others simulation =
      >>=-Untouched id now ids (invoke_point client point others) _
        (invoke_point-Untouched point others)
        (λ items. raise_if-Untouched (has_blocking_hook_result items) simulation)

  validation-Untouched : (intent : Text) → Untouched id now ids (run_l1_l3_validation client intent)
  unfolding run_l1_l3_validation
  validation-Untouched intent st h = h

  mark-Untouched : Untouched {V = V} {X = X} {W = W} id now ids mark_session_l1_l3_ok
  unfolding mark_session_l1_l3_ok
  mark-Untouched st (flag, h) =
      (true, ap (λ (s : Session). record s { state = record s.state { l1_l3_ok = true } }) h)

  world-Untouched :
      {A : Type 0} (call : W → Result (PipelineError V X) A × W)
      → Untouched id now ids (on_world {V = V} call)
  world-Untouched call st h = h

  simulate_draft-Untouched : (block : ℕ) → Untouched id now ids (simulate_draft client block)
  simulate_draft-Untouched block st h = h

  audit-Untouched : (out : O) → Untouched id now ids (run_policy_audit client out)
  unfolding run_policy_audit
  audit-Untouched out st h = h

  pub check-Untouched : (intent : Text) → Untouched id now ids (check client intent)
  unfolding check
  check-Untouched intent =
      let args = intent_arg client intent in
      >>-Untouched id now ids (run_point client (codes "pre_validate") args false) _
        (run_point-Untouched (codes "pre_validate") args false)
        (>>-Untouched id now ids (run_l1_l3_validation client intent) _
          (validation-Untouched intent)
          (>>-Untouched id now ids (run_point client (codes "post_validate") args false) _
            (run_point-Untouched (codes "post_validate") args false) mark-Untouched))

  prepare-Untouched : (intent : Text) → Untouched id now ids (prepare client intent)
  unfolding prepare
  prepare-Untouched intent =
      let args = intent_arg client intent in
      >>-Untouched id now ids (run_point client (codes "pre_validate") args false) _
        (run_point-Untouched (codes "pre_validate") args false)
        (>>-Untouched id now ids (run_l1_l3_validation client intent) _
          (validation-Untouched intent)
          (λ st h. run_point-Untouched (codes "pre_simulation") args true _ (mark-Untouched st h)))

  check_twice-Untouched : (intent : Text) → Untouched id now ids (check_twice client intent)
  unfolding check_twice
  check_twice-Untouched intent =
      >>-Untouched id now ids (prepare client intent) _ (prepare-Untouched intent)
        (validation-Untouched intent)

  execute-Untouched : Untouched id now ids (execute client)
  unfolding execute record_step
  execute-Untouched =
      >>=-Untouched id now ids (on_world client.ask_height) _ (world-Untouched client.ask_height)
        λ block st h.
          >>-Untouched id now ids (on_world client.get_web3) _ (world-Untouched client.get_web3)
            (>>=-Untouched id now ids (simulate_draft client block) _
              (simulate_draft-Untouched block) λ out s k. k)
            _ h

  pub simulate_checked-Untouched : Untouched id now ids (simulate_checked client)
  unfolding simulate_checked
  simulate_checked-Untouched =
      let args = intent_arg client (codes "simulate_only") in
      >>-Untouched id now ids (run_point client (codes "pre_simulation") args true) _
        (run_point-Untouched (codes "pre_simulation") args true)
        (>>=-Untouched id now ids (execute client) _ execute-Untouched λ out.
          let args = simulation_args client (codes "simulate_only") out.outcome in
          >>-Untouched id now ids (run_point client (codes "post_simulation") args true) _
            (run_point-Untouched (codes "post_simulation") args true) (λ st h. h))

  pub inspect_draft-Untouched : (intent : Text) → Untouched id now ids (inspect_draft client intent)
  unfolding inspect_draft
  inspect_draft-Untouched intent =
      >>-Untouched id now ids (check_twice client intent) _ (check_twice-Untouched intent) (
        >>=-Untouched id now ids (execute client) _ execute-Untouched λ out.
          >>=-Untouched id now ids (run_policy_audit client out.outcome) _
            (audit-Untouched out.outcome)
            λ policy.
              let args = simulation_args client intent out.outcome in
              >>-Untouched id now ids (run_point client (codes "post_simulation") args true) _
                (run_point-Untouched (codes "post_simulation") args true)
                (>>-Untouched id now ids (run_point client (codes "post_validate") args true) _
                  (run_point-Untouched (codes "post_validate") args true) (λ st h. h)))
