-- ===== src/Rpc/Tests.antt =====
-- Runs of lirix/layers/l4_rpc_manager.py over two endpoints.
use lirix.Prelude.{
  ℕ, ◌≡◌, refl, Bool, true, false, none, List, [], ◌∷◌, Text, codes, text_eq, all, returned,
  if◌then◌else◌, get, put, text_leb,
}
use lirix.Rpc.Types.{Rpc, RpcConfig, Fetched, height, failed, timeout_error, is_quota_exhausted}
use lirix.Rpc.Breaker.{
  eligible_urls, record_outcome, record_one, record_transport_success, record_transport_failure,
}
use lirix.Rpc.Reconcile.{Mode, sync, reconcile, commit, select, gather, required_successes}
use lirix.Rpc.Laws.Gathered.{succeeded}
use lirix.Rpc.Laws.Accepted.{CompletesEach, Agreed, reconcile_sound}
use lirix.Rpc.Laws.Induction.{Run, reconciles, reconciled}
use lirix.Rpc.Laws.Breakers.{IsConsistent, breakers-IsConsistent, open_forever}
use lirix.Rpc.Laws.Modes.{strict_unanimous}

abbrev two_urls : RpcConfig
two_urls = record {
  rpc_urls = codes "a" ∷ codes "b" ∷ [];
  strict_mode = true;
  l4_min_success_count = none;
  l4_min_success_ratio = none;
}

abbrev ticks : Text → ℕ
ticks u = 100000

abbrev in_order : List Text → List Text
in_order us = us

-- "a" is one block behind.
abbrev heights_of : Text → Fetched
heights_of u = if text_eq u (codes "a") then height 9 else height 10

abbrev timeouts : Text → Fetched
timeouts u = failed (record { message = codes "timed out"; class = timeout_error })

abbrev no_hook : Mode → ℕ → Bool
no_hook mode bn = false

abbrev fresh : Rpc
fresh = record {
  failures = λ u. 0;
  is_open = λ u. false;
  cooldown_until = λ u. 0;
  sync_web3 = none;
  async_web3 = none;
  last_url = none;
  last_error = none;
}

in_order_each : CompletesEach in_order
unfolding CompletesEach
in_order_each p us = refl

agreed_on_10 : (reconcile sync two_urls ticks in_order heights_of no_hook fresh).0 ≡ returned 10
unfolding reconcile commit select gather required_successes record_outcome record_one
    record_transport_success eligible_urls text_eq get put is_quota_exhausted text_leb
agreed_on_10 = refl

reconcile_sound_example :
    Agreed two_urls heights_of
      (eligible_urls two_urls fresh)
      10
      (reconcile sync two_urls ticks in_order heights_of no_hook fresh).1
reconcile_sound_example =
    reconcile_sound sync two_urls ticks in_order heights_of no_hook fresh 10 in_order_each
      agreed_on_10

strict_unanimous_example : all (λ u. succeeded (heights_of u)) (eligible_urls two_urls fresh) ≡ true
strict_unanimous_example =
    strict_unanimous sync two_urls ticks in_order heights_of no_hook fresh 10 refl in_order_each
      agreed_on_10

-- Three calls in which both endpoints time out, then one in which both answer.
abbrev failing_run : Run
failing_run = record {
  mode = sync;
  clock = ticks;
  arrival = in_order;
  fetch = timeouts;
  hook = no_hook;
}

abbrev answering_run : Run
answering_run = record failing_run { fetch = heights_of }

abbrev outage : List Run
outage = failing_run ∷ failing_run ∷ failing_run ∷ answering_run ∷ []

fresh-IsConsistent : IsConsistent fresh
unfolding IsConsistent
fresh-IsConsistent u = refl

breakers-IsConsistent_example : IsConsistent (reconciles two_urls outage fresh)
breakers-IsConsistent_example = breakers-IsConsistent two_urls outage fresh fresh-IsConsistent

abbrev shut : Rpc
shut = record fresh { is_open = text_eq (codes "a") }

shut_open : shut.is_open (codes "a") ≡ true
unfolding text_eq
shut_open = refl

open_forever_example : (reconciles two_urls outage shut).is_open (codes "a") ≡ true
open_forever_example = open_forever two_urls outage shut (codes "a") shut_open

-- The outage of `outage` opens the breakers of both endpoints.
outage_opens : (reconciles two_urls outage fresh).is_open (codes "b") ≡ true
unfolding reconciles reconciled reconcile commit select gather required_successes record_outcome
    record_one record_transport_success record_transport_failure eligible_urls text_eq get put
    is_quota_exhausted text_leb
outage_opens = refl
