-- ===== src/Orchestrator/FullTests.antt =====
-- A run of run_full of lirix/core/orchestrator.py, step by step: the hook before the simulation
-- patches the draft, which is then validated again, simulated and audited.
use lirix.Prelude.{
  ℕ, Bool, true, false, none, some, List, [], ◌∷◌, Text, codes, Result, returned, raised, ◌++◌,
}
use lirix.Status.{Status}
use lirix.Session.Methods
use lirix.Session.Methods.{Trace, TraceMeta}
use lirix.Hooks.Manager.{Step}
use lirix.Orchestrator.Types.{
  PipelineError, RunState, Action, pure, ◌>>=◌, ◌>>◌, Simulated, Report, fresh_session,
}
use lirix.Orchestrator.Actions.{run_point}
use lirix.Orchestrator.Runs.{simulation_args, approve, run_policy_audit}
use lirix.Orchestrator.Laws.Closing.{opened_session}
use lirix.Orchestrator.Tests.{request, accepting}

abbrev step : Text → Text → Status → Step
step layer stage status = record { layer = layer; stage = stage; status = status }

abbrev steps_before : List Step
steps_before =
    step (codes "hooks") (codes "pre_validate") Status.info
    ∷ step (codes "hooks") (codes "pre_simulation") Status.ok
    ∷ []

abbrev steps_executed : List Step
steps_executed =
    steps_before
    ++ step (codes "L4") (codes "rpc_reconcile") Status.ok
      ∷ step (codes "L5") (codes "sandbox_simulation") Status.ok
      ∷ []

abbrev steps_after : List Step
steps_after =
    steps_executed
    ++ step (codes "hooks") (codes "post_simulation") Status.info
      ∷ step (codes "hooks") (codes "post_validate") Status.info
      ∷ []

-- The state of the run, by its draft, the flag of its session, and its steps.
abbrev state : ℕ → Bool → List Step → RunState ℕ (Unit {0})
state draft_value flag steps = record {
  session = opened_session (codes "s") (codes "0") (codes "c" ∷ []) flag;
  draft = (codes "value", draft_value) ∷ [];
  correlation_id = codes "c";
  steps = steps;
  bound = true;
  timeouts = [];
  world = tt;
}

abbrev hooks_after : Text → ℕ → Action ℕ Text (Unit {0}) (Unit {0})
hooks_after point out =
    run_point accepting point (simulation_args accepting (codes "transfer") out) true

abbrev after_execute : Simulated ℕ → Action ℕ Text (Unit {0}) (ℕ × ℕ)
after_execute out = run_policy_audit accepting out.outcome >>= λ policy.
    hooks_after (codes "post_simulation") out.outcome
    >> (hooks_after (codes "post_validate") out.outcome >> pure (out.outcome, policy))

abbrev approval : Result (PipelineError ℕ Text) (Report ℕ ℕ) × RunState ℕ (Unit {0})
approval =
    approve accepting request (codes "Validated and simulated.") (λ w. []) (some 9) (some 9)
      (state 9 true steps_after)

abbrev report_of : Result (PipelineError ℕ Text) (Report ℕ ℕ) → Report ℕ ℕ
report_of (returned r) = r
report_of (raised e) = record {
  validated = false;
  outcome = none;
  policy_decision = none;
  validation_session = fresh_session [] [];
}
