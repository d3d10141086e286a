-- ===== src/Proxy/Piercer/Fetch.antt =====
-- ProxyPiercer.fetch_abi of lirix/layers/l3_proxy_piercer.py.
use lirix.Prelude.{ℕ, Bool, true, false, Option, none, some, Text, Result, returned, raised}
use lirix.Proxy.Probe.{Node, Probed, ProbeError}
use lirix.Proxy.AbiCache
use lirix.Proxy.AbiCache.{Limits, Cache, CacheError, fetch, invalidate_stale}
use lirix.Proxy.Piercer.Inspect.{Inspection, Inspections, inspect_target}

-- fetch_abi fails as an inspection, as the cache or as the caller's fetcher.
pub data FetchAbiError : Type 0 where
  inspection_failed : ProbeError → FetchAbiError
  cache_failed : CacheError → FetchAbiError
  fetcher_failed : FetchAbiError

pub record FetchedAbi (Abi : Type 0) : Type 0 where
  pub target : Text
  pub abi : Abi
  pub cache_hit : Bool
  pub proxy : Inspection

-- The two caches of a ProxyPiercer.
pub record Piercer (Abi : Type 0) : Type 0 where
  pub cache : Cache Abi
  pub inspections : Inspections

-- The times at which one call of fetch_abi reads its clocks.
pub record Clock : Type 0 where
  pub inspected_at : ℕ
  pub swept_at : ℕ
  pub read_at : ℕ
  pub touched_at : ℕ
  pub written_at : ℕ

module _ {Abi : Type 0} (dumps : Abi → Text) (loads : Text → Abi) (limits : Limits) where
  abbrev pub written :
      Inspection
      → Abi
      → Result CacheError (Unit {0}) × Cache Abi
      → Result FetchAbiError (FetchedAbi Abi) × Cache Abi
  written i abi (raised e, cache) = (raised (cache_failed e), cache)
  written i abi (returned u, cache) = (
    returned (record { target = i.resolved_target; abi = abi; cache_hit = false; proxy = i }),
    cache,
  )

  abbrev pub fetched_abi :
      Inspection → ℕ → Option Abi → Cache Abi → Result FetchAbiError (FetchedAbi Abi) × Cache Abi
  fetched_abi i now none cache = (raised fetcher_failed, cache)
  fetched_abi i now (some abi) cache =
      written i abi (AbiCache.set dumps loads limits i.resolved_target abi now cache)

  abbrev pub on_lookup :
      Inspection
      → ℕ
      → (Text → Option Abi)
      → Result CacheError (Option Abi) × Cache Abi
      → Result FetchAbiError (FetchedAbi Abi) × Cache Abi
  on_lookup i now abi_fetcher (raised e, cache) = (raised (cache_failed e), cache)
  on_lookup i now abi_fetcher (returned (some abi), cache) = (
    returned (record { target = i.resolved_target; abi = abi; cache_hit = true; proxy = i }),
    cache,
  )
  on_lookup i now abi_fetcher (returned none, cache) =
      fetched_abi i now (abi_fetcher i.resolved_target) cache

  abbrev pub on_sweep :
      Inspection
      → Clock
      → (Text → Option Abi)
      → Result CacheError (Unit {0}) × Cache Abi
      → Result FetchAbiError (FetchedAbi Abi) × Cache Abi
  on_sweep i clock abi_fetcher (raised e, cache) = (raised (cache_failed e), cache)
  on_sweep i clock abi_fetcher (returned u, cache) =
      on_lookup i clock.written_at abi_fetcher
        (fetch dumps loads limits i.resolved_target clock.read_at clock.touched_at cache)

  abbrev pub with_inspection :
      Clock
      → (Text → Option Abi)
      → Piercer Abi
      → Probed Inspection × Inspections
      → Result FetchAbiError (FetchedAbi Abi) × Piercer Abi
  with_inspection clock abi_fetcher p (raised e, inspections) =
      (raised (inspection_failed e), record p { inspections = inspections })
  with_inspection clock abi_fetcher p (returned i, inspections) =
      let (result, cache) =
        on_sweep i clock abi_fetcher (invalidate_stale clock.swept_at p.cache) in
      (result, record { cache = cache; inspections = inspections })

  -- The fetcher is the caller's: none where it raises.
  unfoldable pub fetch_abi :
      Node
      → Bool
      → Text
      → Clock
      → (Text → Option Abi)
      → Piercer Abi
      → Result FetchAbiError (FetchedAbi Abi) × Piercer Abi
  fetch_abi node strict_abi_decode address clock abi_fetcher p =
      with_inspection clock abi_fetcher p
        (inspect_target node strict_abi_decode address clock.inspected_at p.inspections)
