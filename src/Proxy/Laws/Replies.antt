-- ===== src/Proxy/Laws/Replies.antt =====
-- The ABI cache and its table, call by call.
use mathlib.Core.Path.{ap₂}
use lirix.Prelude.{ℕ, ◌≤◌, ◌≡◌, refl, List, [], ◌∷◌, Text}
use lirix.Proxy.AbiCache
use lirix.Proxy.AbiCache.{
  Limits, CacheError, abi_cache_closed, Row, Entry, Cache, is_stale, with_row, touch, purge, store,
  get_memory, get_open, drop_stale, get_row, set_open, when_open, fetch, new_cache, invalidate,
  invalidate_stale, close, fresh_row,
}
use lirix.Proxy.Laws.Calls.{
  Op, lookup, save, drop, sweep, stop, Table, new_table, InTime, table_step, table_replies,
  answered, cache_step, cache_replies,
}
use lirix.Proxy.Laws.Refines.{Refines, Refines-later, Simulates, Simulates-if, get_open_step}
use lirix.Proxy.Laws.Writes.{set_open-Refines, drop-Refines, sweep-Refines}

module _ {Abi : Type 0} (dumps : Abi → Text) (loads : Text → Abi) (limits : Limits) where
  lookup-Simulates :
      (t now later : ℕ) (key : Text) (c : Cache Abi) (table : Table Abi)
      → t ≤ now
      → Refines dumps loads limits t c table
      → Simulates dumps loads limits now
          (cache_step dumps loads limits (lookup key now later) c)
          (table_step limits.ttl_seconds (lookup key now later) table)
  unfolding fetch
  lookup-Simulates t now later key c table le r =
      Simulates-if dumps loads limits (λ x. x) now c.closed table.shut _ _ _ _ r.shuts (refl, ready)
        (get_open_step dumps loads limits key now later c table ready)
    where
      ready : Refines dumps loads limits now c table
      ready = Refines-later dumps loads limits t now c table le r

  save-Simulates :
      (t now : ℕ) (key : Text) (abi : Abi) (c : Cache Abi) (table : Table Abi)
      → loads (dumps abi) ≡ abi
      → t ≤ now
      → Refines dumps loads limits t c table
      → Simulates dumps loads limits now
          (cache_step dumps loads limits (save key abi now) c)
          (table_step limits.ttl_seconds (save key abi now) table)
  unfolding AbiCache.set
  save-Simulates t now key abi c table inverse le r =
      Simulates-if dumps loads limits answered now c.closed table.shut _ _ _ _ r.shuts
        (refl, Refines-later dumps loads limits t now c table le r)
        (refl, set_open-Refines dumps loads limits key abi t now c table inverse le r)

  drop-Simulates :
      (t : ℕ) (key : Text) (c : Cache Abi) (table : Table Abi)
      → Refines dumps loads limits t c table
      → Simulates dumps loads limits t
          (cache_step dumps loads limits (drop key) c)
          (table_step limits.ttl_seconds (drop key) table)
  unfolding invalidate
  drop-Simulates t key c table r =
      Simulates-if dumps loads limits answered t c.closed table.shut _ _ _ _ r.shuts (refl, r)
        (refl, drop-Refines dumps loads limits t key c table r)

  sweep-Simulates :
      (t now : ℕ) (c : Cache Abi) (table : Table Abi)
      → t ≤ now
      → Refines dumps loads limits t c table
      → Simulates dumps loads limits now
          (cache_step dumps loads limits (sweep now) c)
          (table_step limits.ttl_seconds (sweep now) table)
  unfolding invalidate_stale
  sweep-Simulates t now c table le r =
      Simulates-if dumps loads limits answered now c.closed table.shut _ _ _ _ r.shuts
        (refl, Refines-later dumps loads limits t now c table le r)
        (refl, sweep-Refines dumps loads limits t now c table le r)

  stop-Simulates :
      (t : ℕ) (c : Cache Abi) (table : Table Abi)
      → Refines dumps loads limits t c table
      → Simulates dumps loads limits t
          (cache_step dumps loads limits stop c)
          (table_step limits.ttl_seconds stop table)
  unfolding close
  stop-Simulates t c table r =
      (refl, record { coherent = r.coherent; agrees = r.agrees; shuts = refl })

  module _ (inverse : (a : Abi) → loads (dumps a) ≡ a) where
    pub cache_replies-Refines :
        (t : ℕ) (ops : List (Op Abi)) (c : Cache Abi) (table : Table Abi)
        → InTime t ops
        → Refines dumps loads limits t c table
        → cache_replies dumps loads limits ops c ≡ table_replies limits.ttl_seconds ops table
    unfolding cache_replies table_replies
    cache_replies-Refines t [] c table h r = refl
    cache_replies-Refines t (lookup k now later ∷ ops) c table (le, h) r =
        let (same, next) = lookup-Simulates t now later k c table le r in
        ap₂ (λ x xs. x ∷ xs) same (cache_replies-Refines now ops _ _ h next)
    cache_replies-Refines t (save k a now ∷ ops) c table (le, h) r =
        let (same, next) = save-Simulates t now k a c table (inverse a) le r in
        ap₂ (λ x xs. x ∷ xs) same (cache_replies-Refines now ops _ _ h next)
    cache_replies-Refines t (drop k ∷ ops) c table h r =
        let (same, next) = drop-Simulates t k c table r in
        ap₂ (λ x xs. x ∷ xs) same (cache_replies-Refines t ops _ _ h next)
    cache_replies-Refines t (sweep now ∷ ops) c table (le, h) r =
        let (same, next) = sweep-Simulates t now c table le r in
        ap₂ (λ x xs. x ∷ xs) same (cache_replies-Refines now ops _ _ h next)
    cache_replies-Refines t (stop ∷ ops) c table h r =
        let (same, next) = stop-Simulates t c table r in
        ap₂ (λ x xs. x ∷ xs) same (cache_replies-Refines t ops _ _ h next)

    -- A new cache on an empty table, over any calls at times that do not go back: the answers are those
    -- of a table whose entries are visible until they expire, where the text of an ABI reads back as
    -- the ABI. So neither the bounded memory, nor its order, nor the sweeps of stale entries show.
    pub cache_replies-refine :
        (t : ℕ) (ops : List (Op Abi))
        → InTime t ops
        → cache_replies dumps loads limits ops new_cache
          ≡ table_replies limits.ttl_seconds ops new_table
    cache_replies-refine t ops h =
        cache_replies-Refines t ops new_cache new_table h
          (record { coherent = tt; agrees = λ k u le. refl; shuts = refl })
