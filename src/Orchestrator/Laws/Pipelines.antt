-- ===== src/Orchestrator/Laws/Pipelines.antt =====
-- lirix/core/orchestrator.py: the three pipelines on a session of their own.
use mathlib.Core.Path.{subst}
use lirix.Prelude.{
  ◌≡◌, refl, sym, ap, ◌∙◌, true, false, Bool-cases, inl, inr, Option, some, none, List, [], ◌∷◌,
  Text, Result, returned, raised, is_empty, elem, if◌then◌else◌,
}
use lirix.Session.Types.{TraceKind}
use lirix.Session.Store.{Session, link_trace}
use lirix.Orchestrator.Types.{
  PipelineError, simulate_only_prior_validate_required, Client, RunState, Action, after, ◌>>◌,
  Request, Report, ensure_session, fresh_session, is_own,
}
use lirix.Orchestrator.Actions.{attempt}
use lirix.Orchestrator.Runs.{
  initial, start_request, blocked_note, check, inspect_draft, simulate_checked, validate_body,
  simulate_body, full_body, run_validate, run_simulate, run_full, ensure_simulate_only_precondition,
}
use lirix.Orchestrator.Laws.Closing.{opened_session}
use lirix.Orchestrator.Laws.Untouched.{
  IsOpened, check-Untouched, simulate_checked-Untouched, inspect_draft-Untouched,
}
use lirix.Orchestrator.Laws.Ended.{RunEnd, BodyEnd, unbind-RunEnd, handled-RunEnd, approved-BodyEnd}

-- A run on a session of its own handled, and the hooks have no recorder any more.
pub record IsEnded {V X W A : Type 0} (kind : TraceKind) (id now : Text)
    (r : Result (PipelineError V X) A × RunState V W) : Type 0 where
  pub correlation_ids : List Text
  pub end : RunEnd kind id now correlation_ids r
  pub unbound : r.1.bound ≡ false

abbrev pub fresh_run : {V O P X W : Type 0} → Client V O P X W → Request V → W → RunState V W
fresh_run client request w = record (initial client request w) {
  session = fresh_session request.fresh_id client.now;
}

-- The ends of run_simulate.
pub data SimulateEnd {V O P X W : Type 0} (client : Client V O P X W) (request : Request V) (w : W)
    : Result (PipelineError V X) (Report O P) × RunState V W → Type 0 where
  not_validated :
      client.requires_prior_validate ≡ true
      → SimulateEnd client request w
          (raised simulate_only_prior_validate_required, fresh_run client request w)
  simulated :
      {r : Result (PipelineError V X) (Report O P) × RunState V W}
      → client.requires_prior_validate ≡ false
      → IsEnded request.kind request.fresh_id client.now r
      → SimulateEnd client request w r

module _ {V O P X W : Type 0} (client : Client V O P X W) (request : Request V) (w : W)
    (own : request.session ≡ none) (copied : client.copyable request.payload ≡ true) where
  abbrev Ended : Result (PipelineError V X) (Report O P) × RunState V W → Type 0
  Ended = IsEnded request.kind request.fresh_id client.now

  attempt-IsEnded :
      (body : Action V X W (Report O P)) (ids : List Text) (st : RunState V W)
      → BodyEnd request.kind request.fresh_id client.now ids (body st)
      → Ended (attempt client request.kind (is_own request.session) (blocked_note client) body st)
  unfolding attempt
  attempt-IsEnded body ids st h = rw own (record {
    correlation_ids = ids;
    end = unbind-RunEnd request.kind request.fresh_id client.now ids _ (
        handled-RunEnd client request.fresh_id client.now ids request.kind (blocked_note client)
          (body st) h);
    unbound = refl;
  })

  abbrev linked_ids : List Text
  linked_ids = if is_empty request.correlation_id then [] else request.correlation_id ∷ []

  abbrev started_run : RunState V W
  started_run = record (fresh_run client request w) {
    session = opened_session request.fresh_id client.now linked_ids false;
    bound = true;
  }

  initial-fresh : initial client request w ≡ (fresh_run client request w)
  initial-fresh =
      ap
        (λ (o : Option Session). record (initial client request w) {
          session = ensure_session o request.fresh_id client.now;
        })
        own

  start_request-returns :
      start_request client request (fresh_run client request w) ≡ (returned tt, started_run)
  unfolding start_request link_trace elem
  start_request-returns = elim (Bool-cases (is_empty request.correlation_id)) [
    | inl e ↦ rw (e, copied) refl
    | inr e ↦ rw (e, copied) refl
  ]

  -- After the start of the request the session is as new, but for the id of the run.
  from_start :
      (body : Action V X W (Report O P))
      → BodyEnd request.kind request.fresh_id client.now linked_ids (body started_run)
      → Ended (
          (start_request client request
              >> attempt client request.kind (is_own request.session) (blocked_note client) body)
            (initial client request w))
  from_start body h =
      let rest = attempt client request.kind (is_own request.session) (blocked_note client) body in
      subst (λ st. Ended ((start_request client request >> rest) st)) (sym initial-fresh)
        (subst (λ x. Ended (after x (λ _. rest))) (sym start_request-returns)
          (attempt-IsEnded body linked_ids started_run h))

  as_own : is_own request.session ≡ true
  as_own = rw own refl

  started_run-IsOpened : IsOpened request.fresh_id client.now linked_ids started_run
  started_run-IsOpened = (false, refl)

  run_validate-IsEnded : Ended (run_validate client request (initial client request w))
  unfolding run_validate validate_body
  run_validate-IsEnded = from_start (validate_body client request) (
      approved-BodyEnd client request.fresh_id client.now linked_ids request _ _ (λ _. none)
        (λ _. none) (check client request.intent started_run) as_own
        (check-Untouched client request.fresh_id client.now linked_ids request.intent started_run
          started_run-IsOpened))

  run_full-IsEnded : Ended (run_full client request (initial client request w))
  unfolding run_full full_body
  run_full-IsEnded = from_start (full_body client request) (
      approved-BodyEnd client request.fresh_id client.now linked_ids request _ _ (λ r. some r.0)
        (λ r. some r.1) (inspect_draft client request.intent started_run) as_own
        (inspect_draft-Untouched client request.fresh_id client.now linked_ids request.intent
          started_run started_run-IsOpened))

  -- A run of run_validate or of run_full without a session of the caller, on a payload that can be
  -- copied, ends in one of three ways: it returns a report, and the session that it made is
  -- finalized with an ok trace, an approved decision and an ok end; or it raises a
  -- LirixBaseException, and the session is finalized with a rejected trace, a blocked decision and
  -- a rejected end; or it raises another exception, and the session is open and has no entry. In
  -- each of them no trace recorder is bound any more.
  pub pipelines-IsEnded :
      Ended (run_validate client request (initial client request w))
      × Ended (run_full client request (initial client request w))
  pipelines-IsEnded = (run_validate-IsEnded, run_full-IsEnded)

  run_simulate-IsEnded :
      client.requires_prior_validate ≡ false
      → Ended (run_simulate client request (initial client request w))
  unfolding run_simulate ensure_simulate_only_precondition simulate_body
  run_simulate-IsEnded f = rw f (
      from_start (simulate_body client request) (
        approved-BodyEnd client request.fresh_id client.now linked_ids request _ _
          (λ out. some out.outcome) (λ out. none) (simulate_checked client started_run) as_own
          (simulate_checked-Untouched client request.fresh_id client.now linked_ids started_run
            started_run-IsOpened)))

  run_simulate-refused :
      client.requires_prior_validate ≡ true
      → run_simulate client request (initial client request w)
        ≡ (raised simulate_only_prior_validate_required, (fresh_run client request w))
  unfolding run_simulate ensure_simulate_only_precondition
  run_simulate-refused t = ap (run_simulate client request) initial-fresh ∙ rw t refl

  -- A run of run_simulate without a session of the caller, on a payload that can be copied: where
  -- the configuration asks for a prior validation it raises before it does anything, and its
  -- session is new; where it does not ask, the run ends in one of the three ways of the other
  -- pipelines, with no trace recorder bound.
  pub run_simulate-Ends :
      SimulateEnd client request w (run_simulate client request (initial client request w))
  run_simulate-Ends = elim (Bool-cases client.requires_prior_validate) [
    | inl t ↦ subst (SimulateEnd client request w) (sym (run_simulate-refused t)) (not_validated t)
    | inr f ↦ simulated f (run_simulate-IsEnded f)
  ]
