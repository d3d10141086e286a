-- ===== src/Orchestrator/Actions.antt =====
-- The steps that the pipelines of lirix/core/orchestrator.py are made of.
use lirix.Prelude.{
  Bool, true, false, not, ◌&&◌, Option, none, some, List, [], ◌∷◌, snoc, map, Text, Dict, codes,
  text_eq, value_or, Result, returned, raised, if◌then◌else◌,
}
use lirix.Status.{Status, token}
use lirix.Session.Types.{Doc, SessionError, TraceKind, Verdict}
use lirix.Session.Store.{Session, Outcome}
use lirix.Session.Methods
use lirix.Session.Methods.{Trace, TraceMeta, record_trace, record_decision}
use lirix.Session.Replay.{replay_bundle}
use lirix.Hooks.Types.{HookItem, Kwargs, payload_dict}
use lirix.Hooks.Manager.{Shared, Step}
use lirix.Hooks.Invoke.{TimeLimit, Invoked, ainvoke_hooks_isolated}
use lirix.Orchestrator.Types.{
  PipelineError, of_hooks, hook_blocked, of_session, is_lirix, Client, RunState, Action, pure,
  raise, modify, ◌>>=◌, ◌>>◌, Validated,
}

-- HOOK_ISOLATED_TIMEOUT_SEC
abbrev pub hook_isolated_timeout : Option TimeLimit
hook_isolated_timeout = some (record { limit = 500; shown = codes "0.5" })

-- _has_blocking_hook_result
unfoldable pub has_blocking_hook_result : {V : Type 0} → List (HookItem V) → Option (HookItem V)
unfolding text_eq
has_blocking_hook_result [] = none
has_blocking_hook_result (item ∷ items) =
    let later = has_blocking_hook_result items in
    if not item.ok && text_eq item.failure_level (codes "fatal") then some item else later

-- _raise_if_hook_blocked
abbrev pub raise_if_hook_blocked :
    {V X W : Type 0} → Option (HookItem V) → Bool → Action V X W (Unit {0})
raise_if_hook_blocked none simulation = pure tt
raise_if_hook_blocked (some item) simulation = raise (hook_blocked simulation item)

-- What the invocation of hooks leaves of the run.
abbrev pub after_hooks : {V W : Type 0} → RunState V W → Shared V W → RunState V W
after_hooks st sh = record st {
  draft = value_or sh.payload st.draft;
  steps = value_or sh.steps st.steps;
  timeouts = sh.timeouts;
  world = sh.world;
}

abbrev pub lift_hooks :
    {V X W : Type 0}
    → RunState V W
    → Invoked V X W
    → Result (PipelineError V X) (List (HookItem V)) × RunState V W
lift_hooks st (returned items, sh) = (returned items, after_hooks st sh)
lift_hooks st (raised e, sh) = (raised (of_hooks e), after_hooks st sh)

-- client.hooks.bind_trace_recorder(None)
abbrev pub unbind : {V W : Type 0} → RunState V W → RunState V W
unbind st = record st { bound = false }

module _ {V X W : Type 0} where
  -- A call that the layers make on the world.
  abbrev pub on_world : {A : Type 0} → (W → Result (PipelineError V X) A × W) → Action V X W A
  on_world call st = let (r, w) = call st.world in (r, record st { world = w })

  -- recorder.record_step
  unfoldable pub record_step : Text → Text → Status → Action V X W (Unit {0})
  record_step layer stage status = modify λ st. record st {
    steps = snoc st.steps (record { layer = layer; stage = stage; status = status });
  }

  -- _mark_session_l1_l3_ok
  unfoldable pub mark_session_l1_l3_ok : Action V X W (Unit {0})
  mark_session_l1_l3_ok = modify λ st. record st {
    session = record st.session { state = record st.session.state { l1_l3_ok = true } };
  }

  -- A method of the session.
  abbrev pub lift_session :
      RunState V W → Outcome → Result (PipelineError V X) (Unit {0}) × RunState V W
  lift_session st (returned u, s) = (returned tt, record st { session = s })
  lift_session st (raised e, s) = (raised (of_session e), record st { session = s })

  abbrev pub on_session : (Session → Outcome) → Action V X W (Unit {0})
  on_session call st = lift_session st (call st.session)

abbrev pub chained :
    {V X W : Type 0} → Validated V X W → (Dict V → W → Validated V X W) → Validated V X W
chained (returned u, d, w) next = next d w
chained (raised e, d, w) next = (raised e, d, w)

module _ {V O P X W : Type 0} (client : Client V O P X W) where
  -- _invoke_hooks of the facade. The draft is the dict that the hooks get.
  unfoldable pub invoke_point : Text → Dict V → Action V X W (List (HookItem V))
  unfolding ainvoke_hooks_isolated
  invoke_point point others st =
      let kwargs : Kwargs V = record { payload = some (payload_dict st.draft); others = others } in
      let shared : Shared V W = record {
        payload = some st.draft;
        steps = if st.bound then some st.steps else none;
        timeouts = st.timeouts;
        world = st.world;
      } in
      lift_hooks st (ainvoke_hooks_isolated client.hooks point hook_isolated_timeout kwargs shared)

  -- The hooks of a point, then the test for a blocking result.
  unfoldable pub run_point : Text → Dict V → Bool → Action V X W (Unit {0})
  unfolding invoke_point has_blocking_hook_result
  run_point point others simulation = do
    items ← invoke_point point others
    raise_if_hook_blocked (has_blocking_hook_result items) simulation

  -- The three validators on one draft, the first exception ending them.
  unfoldable pub chain_validate : Text → Dict V → W → Validated V X W
  chain_validate intent d w =
      chained (client.validate_intent intent d w)
        (λ d w. chained (client.validate_schema d w) client.validate_calldata)

  -- _run_l1_l3_validation
  unfoldable pub run_l1_l3_validation : Text → Action V X W (Unit {0})
  unfolding chain_validate
  run_l1_l3_validation intent st =
      let (r, d, w) = chain_validate intent st.draft st.world in
      (r, record st { draft = d; world = w })

  abbrev run_trace : RunState V W → Trace
  run_trace st = record {
    correlation_id = st.correlation_id;
    steps = map (λ (step : Step). some (token step.status)) st.steps;
    content = client.trace_doc st.steps;
  }

  -- sess.record_trace with the arguments of _record_failure and of the successes, which also give
  -- digests of artifacts.
  unfoldable pub record_run_trace :
      TraceKind → Status → Option (Dict Text) → Action V X W (Unit {0})
  unfolding record_trace
  record_run_trace kind status digests st =
      let info : TraceMeta = record client.info {
        include_full_trace = false;
        artifact_digests = digests;
        extra = none;
      } in
      on_session (record_trace client.trace_digest kind (run_trace st) status info client.now) st

  unfoldable pub record_run_decision : Verdict → Doc → Action V X W (Unit {0})
  unfolding record_decision
  record_run_decision verdict content = on_session (record_decision verdict content client.now)

  -- if manage_session_lifecycle: sess.finalize(...)
  unfoldable pub finalize_own : Bool → Bool → Doc → Action V X W (Unit {0})
  unfolding Methods.finalize
  finalize_own own outcome_ok content =
      if own then on_session (Methods.finalize outcome_ok content client.now) else pure tt

  -- The bundles of the session, of which only what they raise is kept.
  unfoldable pub export_bundles : Action V X W (Unit {0})
  unfolding replay_bundle
  export_bundles = on_session λ s. exported s (replay_bundle (λ p. []) s)
    where
      exported : {A : Type 0} → Session → Result SessionError A → Outcome
      exported s (returned b) = (returned tt, s)
      exported s (raised e) = (raised e, s)

  -- What _record_failure does before it raises again.
  unfoldable pub record_rejection :
      TraceKind → Bool → Doc → PipelineError V X → Action V X W (Unit {0})
  unfolding record_step record_run_trace record_run_decision finalize_own export_bundles
  record_rejection kind own note e = do
    record_step (client.layer_of e) (codes "failed") Status.rejected
    record_run_trace kind Status.rejected none
    record_run_decision Verdict.blocked (client.blocked_doc e)
    finalize_own own false note
    export_bundles

  -- _record_failure
  unfoldable pub record_failure :
      {A : Type 0} → TraceKind → Bool → Doc → PipelineError V X → Action V X W A
  unfolding record_rejection
  record_failure kind own note e = record_rejection kind own note e >> raise e

  -- `try: ... except LirixBaseException as exc: _record_failure(...) finally: bind None`
  abbrev pub handled :
      {A : Type 0}
      → TraceKind
      → Bool
      → Doc
      → Result (PipelineError V X) A × RunState V W
      → Result (PipelineError V X) A × RunState V W
  handled kind own note (returned a, st) = (returned a, st)
  handled kind own note (raised e, st) =
      if is_lirix e then record_failure kind own note e st else (raised e, st)

  unfoldable pub attempt : {A : Type 0} → TraceKind → Bool → Doc → Action V X W A → Action V X W A
  unfolding record_failure
  attempt kind own note body st = let (r, end) = handled kind own note (body st) in (r, unbind end)
