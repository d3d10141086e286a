-- ===== src/Proxy/Laws/Calls.antt =====
-- The calls that a client makes of the ABI cache, and the table that it believes it talks to.
use lirix.Prelude.{
  ℕ, ◌+◌, ◌≤◌, Bool, true, false, Option, none, some, List, [], ◌∷◌, Text, Result, returned, raised,
  if◌then◌else◌,
}
use lirix.Proxy.AbiCache
use lirix.Proxy.AbiCache.{
  Limits, CacheError, abi_cache_closed, Cache, with_row, fetch, invalidate, invalidate_stale, close,
}
use lirix.Proxy.Laws.Table.{Saved, live}

-- A call of the cache with the clock's answers; `drop` is `invalidate`, and `sweep` is
-- `invalidate_stale`.
pub data Op (Abi : Type 0) : Type 0 where
  lookup : Text → ℕ → ℕ → Op Abi
  save : Text → Abi → ℕ → Op Abi
  drop : Text → Op Abi
  sweep : ℕ → Op Abi
  stop : Op Abi

abbrev pub Reply : Type 0 → Type 0
Reply Abi = Result CacheError (Option Abi)

abbrev pub no_value : {Abi A : Type 0} → Result CacheError A → Reply Abi
no_value (returned a) = returned none
no_value (raised e) = raised e

-- The abstract state: for each address what was saved last, and until when it is visible.
pub record Table (Abi : Type 0) : Type 0 where
  pub saved : Text → Saved Abi
  pub shut : Bool

abbrev pub new_table : {Abi : Type 0} → Table Abi
new_table = record { saved = λ k. none; shut = false }

-- The clock does not go back.
abbrev pub InTime : {Abi : Type 0} → ℕ → List (Op Abi) → Type 0
InTime t [] = Unit
InTime t (lookup k now later ∷ ops) = (t ≤ now) × InTime now ops
InTime t (save k a now ∷ ops) = (t ≤ now) × InTime now ops
InTime t (drop k ∷ ops) = InTime t ops
InTime t (sweep now ∷ ops) = (t ≤ now) × InTime now ops
InTime t (stop ∷ ops) = InTime t ops

abbrev pub unless_shut : {Abi : Type 0} → Table Abi → Reply Abi × Table Abi → Reply Abi × Table Abi
unless_shut t next = if t.shut then (raised abi_cache_closed, t) else next

abbrev pub table_step : {Abi : Type 0} → ℕ → Op Abi → Table Abi → Reply Abi × Table Abi
table_step ttl (lookup k now later) t = unless_shut t (returned (live now (t.saved k)), t)
table_step ttl (save k a now) t =
    unless_shut t (returned none, record t { saved = with_row k (some (a, now + ttl)) t.saved })
table_step ttl (drop k) t =
    unless_shut t (returned none, record t { saved = with_row k none t.saved })
table_step ttl (sweep now) t = unless_shut t (returned none, t)
table_step ttl stop t = (returned none, record t { shut = true })

unfoldable pub table_replies : {Abi : Type 0} → ℕ → List (Op Abi) → Table Abi → List (Reply Abi)
table_replies ttl [] t = []
table_replies ttl (op ∷ ops) t =
    let (reply, next) = table_step ttl op t in reply ∷ table_replies ttl ops next

abbrev pub answered : {Abi A : Type 0} → Result CacheError A × Cache Abi → Reply Abi × Cache Abi
answered (r, c) = (no_value r, c)

module _ {Abi : Type 0} (dumps : Abi → Text) (loads : Text → Abi) (limits : Limits) where
  abbrev pub cache_step : Op Abi → Cache Abi → Reply Abi × Cache Abi
  cache_step (lookup k now later) c = fetch dumps loads limits k now later c
  cache_step (save k a now) c = answered (AbiCache.set dumps loads limits k a now c)
  cache_step (drop k) c = answered (invalidate k c)
  cache_step (sweep now) c = answered (invalidate_stale now c)
  cache_step stop c = (returned none, close c)

  unfoldable pub cache_replies : List (Op Abi) → Cache Abi → List (Reply Abi)
  cache_replies [] c = []
  cache_replies (op ∷ ops) c = let (reply, next) = cache_step op c in reply ∷ cache_replies ops next

  unfoldable pub cache_after : List (Op Abi) → Cache Abi → Cache Abi
  cache_after [] c = c
  cache_after (op ∷ ops) c = cache_after ops (cache_step op c).1
