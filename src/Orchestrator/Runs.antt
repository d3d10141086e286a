-- ===== src/Orchestrator/Runs.antt =====
-- The pipelines of lirix/core/orchestrator.py: run_validate, run_simulate and run_full.
use lirix.Prelude.{
  ℕ, true, false, not, ◌&&◌, Option, none, some, [], ◌∷◌, snoc, Text, Dict, codes, returned, raised,
  if◌then◌else◌,
}
use lirix.Status.{Status}
use lirix.Session.Types.{Doc, Verdict}
use lirix.Session.Store.{link_trace}
use lirix.Orchestrator.Types.{
  simulate_only_prior_validate_required, payload_deepcopy_failed, Client, RunState, Action, pure,
  raise, modify, ◌>>=◌, ◌>>◌, Request, ensure_session, is_own, Report, Simulated,
}
use lirix.Orchestrator.Actions.{
  on_world, record_step, mark_session_l1_l3_ok, on_session, run_point, run_l1_l3_validation,
  record_run_trace, record_run_decision, finalize_own, export_bundles, attempt,
}

module _ {V O P X W : Type 0} (client : Client V O P X W) where
  abbrev pub Pipeline : Type 0 → Type 0
  Pipeline A = Action V X W A

  abbrev pub initial : Request V → W → RunState V W
  initial request w = record {
    session = ensure_session request.session request.fresh_id client.now;
    draft = request.payload;
    correlation_id = request.correlation_id;
    steps = [];
    bound = false;
    timeouts = [];
    world = w;
  }

  -- The start of a run, outside of its try: link_trace, request_normalization, the binding.
  unfoldable pub start_request : Request V → Pipeline (Unit {0})
  unfolding link_trace
  start_request request = do
    on_session (link_trace request.correlation_id)
    if client.copyable request.payload then pure tt else raise payload_deepcopy_failed
    modify λ st. record st { bound = true }

  abbrev pub intent_arg : Text → Dict V
  intent_arg intent = (codes "intent", client.intent_value intent) ∷ []

  abbrev pub simulation_args : Text → O → Dict V
  simulation_args intent out =
      snoc (intent_arg intent) (codes "simulation", client.outcome_value out)

  -- build_base_result
  abbrev pub build_report : Option O → Option P → Pipeline (Report O P)
  build_report out policy st = (
    returned (record {
      validated = true;
      outcome = out;
      policy_decision = policy;
      validation_session = st.session;
    }),
    st,
  )

  -- The records and the end of a success: _success_postlude_and_build_result, and the last part of
  -- run_full with _record_full_pipeline_success.
  unfoldable pub approve :
      Request V → Text → (W → Dict Text) → Option O → Option P → Pipeline (Report O P)
  unfolding record_run_trace record_run_decision finalize_own export_bundles
  approve request rationale digests out policy st =
      (do
        record_run_trace client request.kind Status.ok (some (digests st.world))
        record_run_decision client Verdict.approved (client.approved_doc rationale)
        finalize_own client (is_own request.session) true (client.approved_doc (codes "completed"))
        export_bundles client
        build_report out policy)
        st

  -- `f"{kind} blocked"` as content
  abbrev pub blocked_note : Doc
  blocked_note = client.approved_doc (codes "blocked")

  -- The hooks and L1 to L3 of run_validate.
  unfoldable pub check : Text → Pipeline (Unit {0})
  unfolding run_point run_l1_l3_validation mark_session_l1_l3_ok
  check intent = do
    run_point client (codes "pre_validate") (intent_arg intent) false
    run_l1_l3_validation client intent
    run_point client (codes "post_validate") (intent_arg intent) false
    mark_session_l1_l3_ok

  -- The runner of run_validate.
  unfoldable pub validate_body : Request V → Pipeline (Report O P)
  unfolding check approve
  validate_body request = do
    check request.intent
    approve request (codes "Validation passed (L1-L3).") (λ w. client.base_digests) none none

  unfoldable pub run_validate : Request V → Pipeline (Report O P)
  unfolding start_request attempt validate_body
  run_validate request = do
    start_request request
    attempt client request.kind (is_own request.session) blocked_note (validate_body request)

  abbrev pub simulate_draft : ℕ → Pipeline O
  simulate_draft block_number st = on_world (client.simulate st.draft block_number) st

  -- L4 and L5: the block that the nodes agree on, and the simulation of the draft at it.
  unfoldable pub execute : Pipeline (Simulated O)
  unfolding record_step
  execute = do
    block_number ← on_world client.ask_height
    record_step (codes "L4") (codes "rpc_reconcile") Status.ok
    on_world client.get_web3
    out ← simulate_draft block_number
    record_step (codes "L5") (codes "sandbox_simulation") Status.ok
    pure (record { block_number = block_number; outcome = out })

  -- _ensure_simulate_only_precondition
  unfoldable pub ensure_simulate_only_precondition : Pipeline (Unit {0})
  ensure_simulate_only_precondition st =
      if client.requires_prior_validate && not st.session.state.l1_l3_ok
      then (raised simulate_only_prior_validate_required, st)
      else (returned tt, st)

  unfoldable pub simulate_checked : Pipeline (Simulated O)
  unfolding run_point execute
  simulate_checked = do
    run_point client (codes "pre_simulation") (intent_arg (codes "simulate_only")) true
    out ← execute
    run_point client (codes "post_simulation") (simulation_args (codes "simulate_only") out.outcome)
        true
    pure out

  -- The runner of run_simulate.
  unfoldable pub simulate_body : Request V → Pipeline (Report O P)
  unfolding simulate_checked approve
  simulate_body request = do
    out ← simulate_checked
    approve request (codes "Simulation completed (L4-L5 facts only).") client.rpc_digests
        (some out.outcome) none

  unfoldable pub run_simulate : Request V → Pipeline (Report O P)
  unfolding ensure_simulate_only_precondition start_request attempt simulate_body
  run_simulate request = do
    ensure_simulate_only_precondition
    start_request request
    attempt client request.kind (is_own request.session) blocked_note (simulate_body request)

  -- The hooks and the first validation of run_full.
  unfoldable pub prepare : Text → Pipeline (Unit {0})
  unfolding run_point run_l1_l3_validation mark_session_l1_l3_ok
  prepare intent = do
    run_point client (codes "pre_validate") (intent_arg intent) false
    run_l1_l3_validation client intent
    mark_session_l1_l3_ok
    run_point client (codes "pre_simulation") (intent_arg intent) true

  -- The draft of run_full until L4: validated, and validated again after the hooks of the
  -- simulation.
  unfoldable pub check_twice : Text → Pipeline (Unit {0})
  unfolding prepare run_l1_l3_validation
  check_twice intent = prepare intent >> run_l1_l3_validation client intent

  -- _run_policy_audit
  unfoldable pub run_policy_audit : O → Pipeline P
  run_policy_audit out st = (client.run_audit st.draft out, st)

  unfoldable pub inspect_draft : Text → Pipeline (O × P)
  unfolding check_twice execute run_policy_audit run_point
  inspect_draft intent = do
    check_twice intent
    out ← execute
    policy ← run_policy_audit out.outcome
    run_point client (codes "post_simulation") (simulation_args intent out.outcome) true
    run_point client (codes "post_validate") (simulation_args intent out.outcome) true
    pure (out.outcome, policy)

  -- The `try` of run_full.
  unfoldable pub full_body : Request V → Pipeline (Report O P)
  unfolding inspect_draft approve
  full_body request = do
    r ← inspect_draft request.intent
    approve request (codes "Validated and simulated.") client.rpc_digests (some r.0) (some r.1)

  unfoldable pub run_full : Request V → Pipeline (Report O P)
  unfolding start_request attempt full_body
  run_full request = do
    start_request request
    attempt client request.kind (is_own request.session) blocked_note (full_body request)
