-- ===== src/Orchestrator/Tests.antt =====
-- Runs of the pipelines of lirix/core/orchestrator.py with a hook that patches the draft before
-- the simulation.
use lirix.Prelude.{
  ℕ, ◌≡◌, refl, Bool, true, false, none, some, [], ◌∷◌, Text, Dict, codes, get, returned, raised,
  if◌then◌else◌, value_or, ◌==◌,
}
use lirix.Session.Types.{TraceKind}
use lirix.Session.Store.{WorkflowMode, new_session}
use lirix.Session.Methods.{TraceMeta}
use lirix.Hooks.Types.{ContractMode, hook_patch}
use lirix.Hooks.Manager.{Callback, value}
use lirix.Orchestrator.Types.{of_layer, Client, Request, fresh_session}
use lirix.Orchestrator.Runs.{initial, run_full, run_validate, run_simulate}
use lirix.Orchestrator.Laws.Pipelines.{IsEnded, pipelines-IsEnded, SimulateEnd, run_simulate-Ends}

abbrev pub raises_value : Callback ℕ Text (Unit {0})
raises_value = record {
  is_coroutine = false;
  react = λ w kwargs. record {
    ending = value (
        hook_patch
          (record { updates = (codes "value", 9) ∷ []; target = codes "payload"; reason = [] }));
    elapsed = 3;
    written = [];
    world = tt;
  };
}

abbrev pub value_of : Dict ℕ → ℕ
value_of d = value_or (get (codes "value") d) 0

abbrev pub bare_info : TraceMeta
bare_info = record {
  migration_modes = none;
  config_fingerprint = some (codes "f");
  artifact_digests = none;
  registry_closure_digest = none;
  replay_proof = none;
  include_full_trace = false;
  extra = none;
}

-- L3 accepts the values 1 and `limit`.
abbrev pub client_with : ℕ → Bool → Client ℕ ℕ ℕ Text (Unit {0})
client_with limit asks = record {
  hooks = record {
    registry = (codes "pre_simulation", raises_value ∷ []) ∷ [];
    contract_mode = ContractMode.enforce;
  };
  requires_prior_validate = asks;
  validate_intent = λ intent d w. (returned tt, d, w);
  validate_schema = λ d w. (returned tt, d, w);
  validate_calldata = λ d w. (
    if value_of d == 1
        then returned tt
        else if value_of d == limit
        then returned tt
        else raised (of_layer (codes "malicious")),
    d,
    w,
  );
  ask_height = λ w. (returned 100, w);
  get_web3 = λ w. (returned tt, w);
  simulate = λ d block w. (returned (value_of d), w);
  simulation_ok = λ o. true;
  run_audit = λ d o. returned o;
  intent_value = λ t. 0;
  outcome_value = λ o. o;
  copyable = λ d. true;
  layer_of = λ e. codes "L3";
  trace_digest = λ t. codes "d";
  info = bare_info;
  base_digests = [];
  rpc_digests = λ w. [];
  now = codes "0";
  trace_doc = λ steps. [];
  blocked_doc = λ e. [];
  approved_doc = λ t. t;
}

abbrev pub request : Request ℕ
request = record {
  kind = TraceKind.validate_and_simulate;
  intent = codes "transfer";
  payload = (codes "value", 1) ∷ [];
  session = none;
  correlation_id = codes "c";
  fresh_id = codes "s";
}

fresh_session-new :
    new_session (codes "s") (codes "0") (some WorkflowMode.direct) false
    ≡ returned (fresh_session (codes "s") (codes "0"))
unfolding new_session
fresh_session-new = refl

abbrev pub accepting : Client ℕ ℕ ℕ Text (Unit {0})
accepting = client_with 9 true

pipelines-IsEnded_example :
    IsEnded TraceKind.validate_and_simulate
      (codes "s")
      (codes "0")
      (run_validate accepting request (initial accepting request tt))
    × IsEnded TraceKind.validate_and_simulate
        (codes "s")
        (codes "0")
        (run_full accepting request (initial accepting request tt))
pipelines-IsEnded_example = pipelines-IsEnded accepting request tt refl refl

run_simulate-Ends_example :
    SimulateEnd accepting request tt (run_simulate accepting request (initial accepting request tt))
run_simulate-Ends_example = run_simulate-Ends accepting request tt refl refl
