-- ===== src/Rpc/Laws/Modes.antt =====
-- Strict mode of sync_reconcile and async_reconcile in lirix/layers/l4_rpc_manager.py.
use lirix.Prelude.{
  ℕ, ◌≤◌, ◌≡◌, refl, Bool, true, List, [], ◌∷◌, count, length, all, Text, arith, returned,
}
use lirix.Rpc.Types.{Rpc, RpcConfig, Fetched}
use lirix.Rpc.Breaker.{eligible_urls}
use lirix.Rpc.Reconcile.{Mode, required_successes, reconcile}
use lirix.Rpc.Laws.Gathered.{succeeded}
use lirix.Rpc.Laws.Accepted.{CompletesEach, Agreed, reconcile_sound}

count-le-length : (p : Text → Bool) (us : List Text) → count p us ≤ length us
count-le-length p [] = omega arith
count-le-length p (u ∷ us) = ground (arith, count-le-length p us)

all_of_count : (p : Text → Bool) (us : List Text) → length us ≤ count p us → all p us ≡ true
all_of_count p [] h = refl
all_of_count p (u ∷ us) h = ground (arith, all_of_count p us, count-le-length p us)

required-strict :
    (config : RpcConfig) (n : ℕ) → config.strict_mode ≡ true → required_successes config n ≡ n
unfolding required_successes
required-strict config n h = ground arith

-- In strict mode a reconciliation returns a block height only if every eligible endpoint reported
-- one; when the futures of the pool complete once each.
pub strict_unanimous :
    (mode : Mode) (config : RpcConfig) (clock : Text → ℕ) (arrival : List Text → List Text)
    (fetch : Text → Fetched) (hook : Mode → ℕ → Bool) (rpc : Rpc) (bn : ℕ)
    → config.strict_mode ≡ true
    → CompletesEach arrival
    → (reconcile mode config clock arrival fetch hook rpc).0 ≡ returned bn
    → all (λ u. succeeded (fetch u)) (eligible_urls config rpc) ≡ true
unfolding Agreed
strict_unanimous mode config clock arrival fetch hook rpc bn strict complete e =
    let (_, _, enough) = reconcile_sound mode config clock arrival fetch hook rpc bn complete e in
    let urls = eligible_urls config rpc in
    all_of_count (λ u. succeeded (fetch u)) urls
      (omega (arith, enough, required-strict config (length urls) strict))
