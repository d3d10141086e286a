-- ===== src/Rpc/Reconcile.antt =====
-- sync_reconcile and async_reconcile of lirix/layers/l4_rpc_manager.py.
use Prim.Native.Nat.{max, min}
use lirix.Prelude.{
  ℕ, ◌-◌, Bool, true, false, not, ◌&&◌, ◌||◌, Option, none, some, List, [], ◌∷◌, length, is_some,
  Text, text_leb, Dict, put, ltb, ◌==◌, Result, returned, raised, if◌then◌else◌,
}
use lirix.Rpc.Types.{
  Rpc, RpcConfig, FetchError, Fetched, height, failed, timeout_error, connection_error, other_error,
  RpcError, rpc_urls_empty, all_breakers_open, quota_exhausted, reconcile_failed,
  height_spread_exceeded, hook_raised, max_of_empty, Classified, LastError, ExceptionClass,
  reconcile_partial_failure, spread_exceeded, reconcile_tolerated_partial_success,
  is_quota_exhausted,
}
use lirix.Rpc.Breaker.{eligible_urls, record_outcome}

pub data Mode : Type 0 where
  sync async : Mode

-- HEALTH_SPREAD_THRESHOLD
abbrev pub health_spread_threshold : ℕ
health_spread_threshold = 2

abbrev given_or_one : Option ℕ → ℕ
given_or_one none = 1
given_or_one (some n) = n

abbrev ratio_count : Option (ℕ → ℕ) → ℕ → Option ℕ
ratio_count none n = none
ratio_count (some f) n = some (f n)

-- _required_successes
unfoldable pub required_successes : RpcConfig → ℕ → ℕ
required_successes config eligible_count =
    let by_ratio : Option ℕ = ratio_count config.l4_min_success_ratio eligible_count in
    if config.strict_mode || not (is_some config.l4_min_success_count || is_some by_ratio)
    then eligible_count
    else max 1 (
        min eligible_count (max (given_or_one config.l4_min_success_count) (given_or_one by_ratio)))

abbrev add_to : ExceptionClass → Text → Classified → Classified
add_to timeout_error url c = record c { timeout = url ∷ c.timeout }
add_to connection_error url c = record c { transport = url ∷ c.transport }
add_to other_error url c = record c { other = url ∷ c.other }

-- _classify_errors
unfoldable pub classify_errors : Dict FetchError → Classified
classify_errors [] = record { quota_exhausted = []; timeout = []; transport = []; other = [] }
classify_errors ((url, exc) ∷ rest) =
    let c = classify_errors rest in
    if is_quota_exhausted exc
    then record c { quota_exhausted = url ∷ c.quota_exhausted }
    else add_to exc.class url c

abbrev pub Item : Type 0
Item = Text × ℕ

-- The order of `key=lambda item: (item[1], item[0])`.
abbrev pub item_leb : Item → Item → Bool
item_leb (u, h) (v, k) = ltb h k || ((h == k) && text_leb u v)

abbrev pub better : Item → Item → Item
better item best = if item_leb item best then best else item

-- The first largest of a non-empty list.
abbrev pub best_item : Item → List Item → Item
best_item best [] = best
best_item best (item ∷ rest) = best_item (better item best) rest

abbrev pub urls_of {ℓ} : {V : Type ℓ} → Dict V → List Text
urls_of [] = []
urls_of ((u, v) ∷ rest) = u ∷ urls_of rest

-- The largest height, 0 for no heights.
abbrev pub highest : Dict ℕ → ℕ
highest [] = 0
highest ((u, h) ∷ rest) = max h (highest rest)

abbrev pub lowest_of : ℕ → Dict ℕ → ℕ
lowest_of m [] = m
lowest_of m ((u, h) ∷ rest) = min h (lowest_of m rest)

-- The heights and the errors of the fetches, keyed by url.
pub record Gathered : Type 0 where
  pub heights : Dict ℕ
  pub errors : Dict FetchError

abbrev pub add_fetched : Text → Fetched → Gathered → Gathered
add_fetched u (height h) g = record g { heights = put u h g.heights }
add_fetched u (failed e) g = record g { errors = put u e g.errors }

unfoldable pub gather : (Text → Fetched) → List Text → Gathered → Gathered
gather fetch [] g = g
gather fetch (u ∷ rest) g = gather fetch rest (add_fetched u (fetch u) g)

abbrev is_empty_dict {ℓ} : {V : Type ℓ} → Dict V → Bool
is_empty_dict [] = true
is_empty_dict (e ∷ d) = false

abbrev is_sync : Mode → Bool
is_sync sync = true
is_sync async = false

-- self._last_error after the outcomes are recorded: only sync_reconcile writes it.
abbrev pub note_partial : Mode → Dict FetchError → Rpc → Rpc
note_partial mode errors rpc =
    if is_sync mode && not (is_empty_dict errors)
    then record rpc { last_error = some (reconcile_partial_failure (urls_of errors)) }
    else rpc

abbrev pub bind_web3 : Mode → Text → Rpc → Rpc
bind_web3 sync url rpc = record rpc { sync_web3 = some url; async_web3 = none }
bind_web3 async url rpc = record rpc { sync_web3 = none; async_web3 = some url }

abbrev pub any_quota : Dict FetchError → Bool
any_quota [] = false
any_quota ((u, e) ∷ rest) = is_quota_exhausted e || any_quota rest

-- self._last_error of a run that returns.
abbrev pub tolerated : RpcConfig → List Text → Gathered → Option LastError
tolerated config eligible g =
    let required = required_successes config (length eligible) in
    if ltb required (length eligible)
    then some (
        reconcile_tolerated_partial_success (length g.heights) (length eligible) required
          (classify_errors g.errors))
    else none

abbrev pub bind_chosen : Mode → Text → Option LastError → Rpc → Rpc
bind_chosen mode chosen error rpc =
    bind_web3 mode chosen (record rpc { last_url = some chosen; last_error = error })

abbrev pub after_hook : Bool → ℕ → Result RpcError ℕ
after_hook raises bn = if raises then raised hook_raised else returned bn

-- The two endings: the spread is too wide, or the chosen endpoint is bound and the hook runs.
abbrev pub settle :
    Bool → Mode → Text → ℕ → Option LastError → LastError → Bool → Rpc → Result RpcError ℕ × Rpc
settle true mode chosen bn error exceeded hook_raises rpc =
    (raised height_spread_exceeded, record rpc { last_error = some exceeded })
settle false mode chosen bn error exceeded hook_raises rpc =
    (after_hook hook_raises bn, bind_chosen mode chosen error rpc)

-- From `values = list(heights.values())` to the end.
unfoldable pub select :
    Mode
    → RpcConfig
    → List Text
    → Gathered
    → (Mode → ℕ → Bool)
    → Dict ℕ
    → Rpc
    → Result RpcError ℕ × Rpc
select mode config eligible g hook [] rpc = (raised max_of_empty, rpc)
select mode config eligible g hook (item ∷ rest) rpc =
    let bn = highest (item ∷ rest) in
    let spread = bn - lowest_of item.1 rest in
    settle (ltb health_spread_threshold spread) mode (best_item item rest).0 bn
      (tolerated config eligible g) (spread_exceeded (item ∷ rest) spread) (hook mode bn) rpc

-- The second locked block of sync_reconcile and async_reconcile.
unfoldable pub commit :
    Mode
    → RpcConfig
    → (Text → ℕ)
    → List Text
    → Gathered
    → (Mode → ℕ → Bool)
    → Rpc
    → Result RpcError ℕ × Rpc
commit mode config clock eligible g hook rpc =
    let noted = note_partial mode g.errors (record_outcome clock eligible g.heights rpc) in
    if any_quota g.errors
    then (raised quota_exhausted, rpc)
    else (if ltb (length g.heights) (required_successes config (length eligible))
        then (raised reconcile_failed, noted)
        else select mode config eligible g hook g.heights noted)

abbrev pub no_results : Gathered
no_results = record { heights = []; errors = [] }

-- The order in which the results are stored: as they complete, or as the urls stand.
abbrev pub stored : Mode → (List Text → List Text) → List Text → List Text
stored sync arrival eligible = arrival eligible
stored async arrival eligible = eligible

-- _prepare_reconcile_locked, the fetches and the second locked block.
abbrev pub reconcile_over :
    Mode
    → RpcConfig
    → (Text → ℕ)
    → (List Text → List Text)
    → (Text → Fetched)
    → (Mode → ℕ → Bool)
    → Rpc
    → List Text
    → List Text
    → Result RpcError ℕ × Rpc
reconcile_over mode config clock arrival fetch hook rpc [] eligible = (raised rpc_urls_empty, rpc)
reconcile_over mode config clock arrival fetch hook rpc (v ∷ urls) [] =
    (raised all_breakers_open, rpc)
reconcile_over mode config clock arrival fetch hook rpc (v ∷ urls) (u ∷ rest) =
    let g = gather fetch (stored mode arrival (u ∷ rest)) no_results in
    commit mode config clock (u ∷ rest) g hook rpc

-- sync_reconcile, async_reconcile; where the two differ, the mode decides: the order of the results,
-- the note of a partial failure, the Web3 that is bound, and the keyword `mode` of the hook.
unfoldable pub reconcile :
    Mode
    → RpcConfig
    → (Text → ℕ)
    → (List Text → List Text)
    → (Text → Fetched)
    → (Mode → ℕ → Bool)
    → Rpc
    → Result RpcError ℕ × Rpc
reconcile mode config clock arrival fetch hook rpc =
    reconcile_over mode config clock arrival fetch hook rpc config.rpc_urls
      (eligible_urls config rpc)
