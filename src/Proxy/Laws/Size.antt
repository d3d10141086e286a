-- ===== src/Proxy/Laws/Size.antt =====
-- The size of the ABI cache's memory, over any calls.
use lirix.Prelude.{
  ℕ, ◌≤◌, ◌≡◌, not, inl, inr, if_of, Option, none, some, Option-cases, List, [], ◌∷◌, length,
  length-append, filter, Text, Dict, get, remove, trim_bound, length-remove, length-remove_found,
  length-filter-le, arith, Result,
}
use lirix.Proxy.AbiCache
use lirix.Proxy.AbiCache.{
  Limits, abi_cache_closed, Row, Entry, Cache, CacheError, new_cache, is_stale, touch, purge, store,
  get_memory, get_row, get_open, set_open, when_open, drop_stale, fetch, invalidate,
  invalidate_stale, close,
}
use lirix.Proxy.Laws.Table.{memory-touch}
use lirix.Proxy.Laws.Calls.{
  Op, lookup, save, drop, sweep, stop, Reply, answered, cache_step, cache_after,
}

module _ {Abi : Type 0} (dumps : Abi → Text) (loads : Text → Abi) (limits : Limits) where
  abbrev Bounded : Cache Abi → Type 0
  Bounded c = length c.memory ≤ limits.max_entries

  touch-Bounded :
      (key : Text) (now : ℕ) (c : Cache Abi) → Bounded c → Bounded (touch limits key now c)
  touch-Bounded key now c h = rw (memory-touch loads limits key now c) h

  purge-Bounded : (key : Text) (c : Cache Abi) → Bounded c → Bounded (purge key c)
  unfolding purge
  purge-Bounded key c h = ground (arith, length-remove key c.memory)

  length-store :
      (key : Text) (found entry : Entry Abi) (m : Dict (Entry Abi))
      → get key m ≡ some found
      → length (store key entry m) ≤ length m
  length-store key found entry m e =
      rw (length-append (remove key m) ((key, entry) ∷ [])) (length-remove_found key found m e)

  get_memory-Bounded :
      (key : Text) (now later : ℕ) (entry : Entry Abi) (c : Cache Abi)
      → get key c.memory ≡ some entry
      → Bounded c
      → Bounded (get_memory limits key now later entry c).1
  unfolding get_memory
  get_memory-Bounded key now later entry c e h =
      if_of (λ (x : Option Abi × Cache Abi). Bounded x.1) (is_stale entry.expires_at now) _ _
        (purge-Bounded key c h)
        (touch-Bounded key later _ (ground (arith, length-store key entry entry c.memory e)))

  get_row-Bounded :
      (key : Text) (now : ℕ) (row : Option Row) (c : Cache Abi)
      → Bounded c
      → Bounded (get_row dumps loads limits key now row c).1
  unfolding get_row
  get_row-Bounded key now none c h = h
  get_row-Bounded key now (some row) c h =
      if_of (λ (x : Option Abi × Cache Abi). Bounded x.1) (is_stale row.expires_at now) _ _
        (purge-Bounded key c h)
        (touch-Bounded key row.touched_at _ (trim_bound limits.max_entries _))

  get_open-Bounded :
      (key : Text) (now later : ℕ) (c : Cache Abi)
      → Bounded c
      → Bounded (get_open dumps loads limits key now later (get key c.memory) c).1
  get_open-Bounded key now later c h = elim (Option-cases (get key c.memory)) [
    | inl missing ↦ rw missing (get_row-Bounded key now (c.rows key) c h)
    | inr (entry, there) ↦ rw there (get_memory-Bounded key now later entry c there h)
  ]

  set_open-Bounded :
      (key : Text) (abi : Abi) (now : ℕ) (c : Cache Abi)
      → Bounded (set_open dumps loads limits key abi now c)
  unfolding set_open
  set_open-Bounded key abi now c = touch-Bounded key now _ (trim_bound limits.max_entries _)

  drop_stale-Bounded : (now : ℕ) (c : Cache Abi) → Bounded c → Bounded (drop_stale now c)
  unfolding drop_stale
  drop_stale-Bounded now c h =
      let fewer : length (filter (λ e. not (is_stale e.1.expires_at now)) c.memory)
          ≤ length c.memory =
        length-filter-le (λ e. not (is_stale e.1.expires_at now)) c.memory in
      omega arith

  cache_step-Bounded :
      (op : Op Abi) (c : Cache Abi) → Bounded c → Bounded (cache_step dumps loads limits op c).1
  unfolding fetch AbiCache.set invalidate invalidate_stale close
  cache_step-Bounded (lookup key now later) c h =
      if_of (λ (x : Reply Abi × Cache Abi). Bounded x.1) c.closed _ _ h
        (get_open-Bounded key now later c h)
  cache_step-Bounded (save key abi now) c h =
      if_of (λ (x : Result CacheError Unit × Cache Abi). Bounded (answered x).1) c.closed _ _ h
        (set_open-Bounded key abi now c)
  cache_step-Bounded (drop key) c h =
      if_of (λ (x : Result CacheError Unit × Cache Abi). Bounded (answered x).1) c.closed _ _ h
        (purge-Bounded key c h)
  cache_step-Bounded (sweep now) c h =
      if_of (λ (x : Result CacheError Unit × Cache Abi). Bounded (answered x).1) c.closed _ _ h
        (drop_stale-Bounded now c h)
  cache_step-Bounded stop c h = h

  cache_after-Bounded :
      (ops : List (Op Abi)) (c : Cache Abi)
      → Bounded c
      → Bounded (cache_after dumps loads limits ops c)
  unfolding cache_after
  cache_after-Bounded [] c h = h
  cache_after-Bounded (op ∷ ops) c h = cache_after-Bounded ops _ (cache_step-Bounded op c h)

  -- After any calls of a new cache, its memory holds at most `max_entries` entries.
  pub cache_after-bound :
      (ops : List (Op Abi))
      → length (cache_after dumps loads limits ops new_cache).memory ≤ limits.max_entries
  cache_after-bound ops = cache_after-Bounded ops new_cache (omega arith)
