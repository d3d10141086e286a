-- ===== src/Session/Laws/Outcome.antt =====
-- The session outcome of lirix/core/session.py only gets worse.
use Prim.Native.Nat.{max}
use lirix.Prelude.{
  ℕ, ◌≡◌, ◌≤◌, refl, ap, List, [], ◌∷◌, Text, arith, value_or, inl, inr, Bool-cases, ◌&&◌,
}
use lirix.Status.{Status, rejected, info, token, parse_status, rank}
use lirix.Status.Laws.{rank-aggregate_statuses}
use lirix.Session.Types.{EventType, Payload}
use lirix.Session.Store.{
  Session, SessionState, with_outcome, decided_state, is_decision, effective_workflow_strict,
  record_event,
}
use native.Mathlib.Nat.{le_refl}
use lirix.Session.Methods.{Trace}
use lirix.Session.Calls.{Call, link, trace, event, bind, decide, finish, call, run}
use lirix.Session.Laws.Accepted.{record_event_keeps}
use lirix.Session.Laws.Induction.{Kept, call_kept}
use lirix.Session.Laws.Lifecycle.{AnyMeta}

parse-token : (s : Status) → parse_status (token s) ≡ s
unfolding parse_status
parse-token rejected = refl
parse-token _ = refl

-- The rank of the outcome, "info" where none is recorded.
abbrev pub outcome_rank : SessionState → ℕ
outcome_rank state = rank (value_or state.session_outcome info)

-- A recorded status leaves the worse of it and the outcome before.
pub outcome_rank-with_outcome :
    (state : SessionState) (status : Status)
    → outcome_rank (with_outcome state status) ≡ max (outcome_rank state) (rank status)
outcome_rank-with_outcome state status =
    let before = value_or state.session_outcome info in
    omega (
      arith,
      (rank-aggregate_statuses (token before ∷ token status ∷ [])).0,
      ap rank (parse-token before),
      ap rank (parse-token status),
    )

module _ (n : ℕ) where
  abbrev AtLeast : Session → Type 0
  AtLeast s = n ≤ outcome_rank s.state

  with_outcome-worse :
      (state : SessionState) (status : Status)
      → n ≤ outcome_rank state
      → n ≤ outcome_rank (with_outcome state status)
  with_outcome-worse state status h = omega (arith, outcome_rank-with_outcome state status)

  decided_state-same :
      (et : EventType) (payload : Payload) (s : Session)
      → AtLeast s
      → n ≤ outcome_rank (decided_state et payload s)
  decided_state-same et payload s h =
      elim (Bool-cases (is_decision et && effective_workflow_strict s)) [
        | inl decides ↦ rw decides h
        | inr other ↦ rw other h
      ]

  AtLeast-kept : (trace_digest : Trace → Text) → Kept trace_digest AnyMeta AtLeast
  AtLeast-kept trace_digest = record {
    linked = λ s ids p. p;
    planned = λ s p_ p. p;
    recorded = λ s et payload status now other accepted p.
        with_outcome-worse (decided_state et payload s) status (decided_state-same et payload s p);
    ended = λ s payload status now live accepted p. with_outcome-worse s.state status p;
    traced = λ s kind t status info now live ok p. with_outcome-worse s.state _ p;
  }

  event-AtLeast :
      (et : EventType) (payload : Payload) (status : Status) (now : Text) (s : Session)
      → AtLeast s
      → AtLeast (record_event et payload status now s).1
  event-AtLeast et payload status now s p =
      record_event_keeps AtLeast et payload status now s p (λ accepted.
        with_outcome-worse (decided_state et payload s) status (decided_state-same et payload s p))

  -- Also a finalize event that record_event writes.
  call-AtLeast :
      (trace_digest : Trace → Text) (c : Call) (s : Session)
      → AtLeast s
      → AtLeast (call trace_digest c s).1
  unfolding call
  call-AtLeast trace_digest (event et payload status now) s p =
      event-AtLeast et payload status now s p
  call-AtLeast trace_digest (link id) s p = call_kept (AtLeast-kept trace_digest) (link id) s tt p
  call-AtLeast trace_digest (trace kind t status meta now) s p =
      call_kept (AtLeast-kept trace_digest) (trace kind t status meta now) s tt p
  call-AtLeast trace_digest (Call.plan content now) s p =
      call_kept (AtLeast-kept trace_digest) (Call.plan content now) s tt p
  call-AtLeast trace_digest (bind plan content now) s p =
      call_kept (AtLeast-kept trace_digest) (bind plan content now) s tt p
  call-AtLeast trace_digest (Call.draft content now) s p =
      call_kept (AtLeast-kept trace_digest) (Call.draft content now) s tt p
  call-AtLeast trace_digest (Call.tool_call content done now) s p =
      call_kept (AtLeast-kept trace_digest) (Call.tool_call content done now) s tt p
  call-AtLeast trace_digest (decide verdict content now) s p =
      call_kept (AtLeast-kept trace_digest) (decide verdict content now) s tt p
  call-AtLeast trace_digest (finish good content now) s p =
      call_kept (AtLeast-kept trace_digest) (finish good content now) s tt p

  run-AtLeast :
      (trace_digest : Trace → Text) (cs : List Call) (s : Session)
      → AtLeast s
      → AtLeast (run trace_digest cs s)
  unfolding run
  run-AtLeast trace_digest [] s p = p
  run-AtLeast trace_digest (c ∷ cs) s p =
      run-AtLeast trace_digest cs (call trace_digest c s).1 (call-AtLeast trace_digest c s p)

-- No sequence of calls, accepted or refused, lowers the rank of the session outcome: a session once
-- rejected stays rejected.
pub outcome_rank-run :
    (trace_digest : Trace → Text) (s : Session) (cs : List Call)
    → outcome_rank s.state ≤ outcome_rank (run trace_digest cs s).state
outcome_rank-run trace_digest s cs =
    run-AtLeast (outcome_rank s.state) trace_digest cs s (le_refl _)
