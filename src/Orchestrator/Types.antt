-- ===== src/Orchestrator/Types.antt =====
-- What a run of lirix/core/orchestrator.py works on: the client whose operations it calls, the
-- state that it changes, and a call as a function of that state. `V` is the type of payload values
-- and of references to the objects of the draft, which copy.deepcopy made and whose content is in `W`,
-- `O` of simulation outcomes, `P` of policy reports, `X` of the exceptions of layers and callbacks,
-- `W` of all that the layers and callbacks change.
use lirix.Prelude.{
  ℕ, Bool, true, false, Option, none, some, List, [], Text, Dict, Result, returned, raised,
}
use lirix.Session.Types.{Doc, SessionError, TraceKind, Lifecycle}
use lirix.Session.Store.{Session, WorkflowMode}
use lirix.Session.Methods.{Trace, TraceMeta}
use lirix.Hooks.Types.{HookItem}
use lirix.Hooks.Manager.{Manager, HookFailure, Step}

-- The exceptions of a run. `foreign` is one that is no LirixBaseException, by its text.
pub data PipelineError (V X : Type 0) : Type 0 where
  of_hooks : HookFailure X → PipelineError V X
  hook_blocked : Bool → HookItem V → PipelineError V X
  of_session : SessionError → PipelineError V X
  of_layer : X → PipelineError V X
  simulate_only_prior_validate_required payload_deepcopy_failed : PipelineError V X
  foreign : Text → PipelineError V X

-- `except LirixBaseException`
abbrev pub is_lirix : {V X : Type 0} → PipelineError V X → Bool
is_lirix (foreign message) = false
is_lirix _ = true

-- A validation, with what it leaves of the draft and of the world.
abbrev pub Validated : Type 0 → Type 0 → Type 0 → Type 0
Validated V X W = Result (PipelineError V X) (Unit {0}) × Dict V × W

-- The facade as the orchestrator uses it. The three validations are L1 to L3, on the draft itself,
-- which in the legacy mode the hooks of the layers may write to; `run_audit` is ShadowAuditor.audit
-- and its report. `copyable` says whether copy.deepcopy takes a payload, `info` what a trace record
-- carries of the configuration, `now` the clock, and the `_doc`s are content that the session only
-- stores. The steps that the hooks of the layers record in the trace are part of `W`.
pub record Client (V O P X W : Type 0) : Type 0 where
  pub hooks : Manager V X W
  pub requires_prior_validate : Bool
  pub validate_intent : Text → Dict V → W → Validated V X W
  pub validate_schema : Dict V → W → Validated V X W
  pub validate_calldata : Dict V → W → Validated V X W
  pub ask_height : W → Result (PipelineError V X) ℕ × W
  pub get_web3 : W → Result (PipelineError V X) (Unit {0}) × W
  pub simulate : Dict V → ℕ → W → Result (PipelineError V X) O × W
  pub simulation_ok : O → Bool
  pub run_audit : Dict V → O → Result (PipelineError V X) P
  pub intent_value : Text → V
  pub outcome_value : O → V
  pub copyable : Dict V → Bool
  pub layer_of : PipelineError V X → Text
  pub trace_digest : Trace → Text
  pub info : TraceMeta
  pub base_digests : Dict Text
  pub rpc_digests : W → Dict Text
  pub now : Text
  pub trace_doc : List Step → Doc
  pub blocked_doc : PipelineError V X → Doc
  pub approved_doc : Text → Doc

-- `bound`: client.hooks has a trace recorder, which is the one of the run.
pub record RunState (V W : Type 0) : Type 0 where
  pub session : Session
  pub draft : Dict V
  pub correlation_id : Text
  pub steps : List Step
  pub bound : Bool
  pub timeouts : List Text
  pub world : W

-- A call of the facade. The two ids are the uuids that it would draw.
pub record Request (V : Type 0) : Type 0 where
  pub kind : TraceKind
  pub intent : Text
  pub payload : Dict V
  pub session : Option Session
  pub correlation_id : Text
  pub fresh_id : Text

-- new_validation_session_direct
abbrev pub fresh_session : Text → Text → Session
fresh_session session_id now = record {
  session_id = session_id;
  created_at = now;
  correlation_ids = [];
  timeline = [];
  state = record {
    session_outcome = none;
    workflow_decision_state = none;
    execution_plan = none;
    l1_l3_ok = false;
  };
  lifecycle = Lifecycle.opened;
  workflow_mode = WorkflowMode.direct;
  workflow_strict = false;
}

-- ensure_session
abbrev pub ensure_session : Option Session → Text → Text → Session
ensure_session none fresh_id now = fresh_session fresh_id now
ensure_session (some s) fresh_id now = s

-- manage_session_lifecycle
abbrev pub is_own : Option Session → Bool
is_own none = true
is_own (some s) = false

-- The result of a pipeline, without its documents.
pub record Report (O P : Type 0) : Type 0 where
  pub validated : Bool
  pub outcome : Option O
  pub policy_decision : Option P
  pub validation_session : Session

-- What L4 and L5 gave.
pub record Simulated (O : Type 0) : Type 0 where
  pub block_number : ℕ
  pub outcome : O

abbrev pub Action : Type 0 → Type 0 → Type 0 → Type 0 → Type 0
Action V X W A = RunState V W → Result (PipelineError V X) A × RunState V W

module _ {V X W : Type 0} where
  abbrev pub pure : {A : Type 0} → A → Action V X W A
  pure a st = (returned a, st)

  abbrev pub raise : {A : Type 0} → PipelineError V X → Action V X W A
  raise e st = (raised e, st)

  abbrev pub modify : (RunState V W → RunState V W) → Action V X W (Unit {0})
  modify f st = (returned tt, f st)

  -- The continuation after a result.
  abbrev pub after :
      {A B : Type 0}
      → Result (PipelineError V X) A × RunState V W
      → (A → Action V X W B)
      → Result (PipelineError V X) B × RunState V W
  after (returned a, st) f = f a st
  after (raised e, st) f = (raised e, st)

infixl 5 ◌>>=◌ ◌>>◌
abbrev pub ◌>>=◌ : {V X W A B : Type 0} → Action V X W A → (A → Action V X W B) → Action V X W B
◌>>=◌ m f st = after (m st) f

abbrev pub ◌>>◌ : {V X W B : Type 0} → Action V X W (Unit {0}) → Action V X W B → Action V X W B
m >> k = m >>= λ _. k
