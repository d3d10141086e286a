-- ===== src/Proxy/AbiCache.antt =====
-- AbiLRUCache of lirix/layers/l3_proxy_piercer.py: the ordered dict in memory, its oldest entry
-- first, over the table abi_cache. An address is given by its checksum form. The table has
-- `address` as its primary key, so it is a function. A clock is what int(time_fn()) answers. The
-- janitor's rounds are calls of `invalidate_stale`.
use lirix.Prelude.{
  ℕ, ◌+◌, Bool, true, false, not, Option, none, some, [], ◌∷◌, ◌++◌, filter, Text, text_eq, Dict,
  get, remove, trim, ltb, leb, Result, returned, raised, if◌then◌else◌,
}

pub record Limits : Type 0 where
  pub max_entries : ℕ
  pub ttl_seconds : ℕ
  pub invalidation_interval_seconds : ℕ

pub data CacheError : Type 0 where
  abi_cache_closed : CacheError

pub record Row : Type 0 where
  pub abi_json : Text
  pub touched_at : ℕ
  pub expires_at : ℕ

-- What the memory holds for one address; an ABI is a JSON value.
pub record Entry (Abi : Type 0) : Type 0 where
  pub abi : Abi
  pub expires_at : ℕ

pub record Cache (Abi : Type 0) : Type 0 where
  pub memory : Dict (Entry Abi)
  pub rows : Text → Option Row
  pub last_touch_at : Text → Option ℕ
  pub closed : Bool

-- _is_stale
abbrev pub is_stale : ℕ → ℕ → Bool
is_stale expires_at now = leb expires_at now

-- A table with one row written or deleted.
abbrev pub with_row {ℓ} : {R : Type ℓ} → Text → Option R → (Text → Option R) → Text → Option R
with_row key row rows k = if text_eq key k then row else rows k

abbrev pub touch_row : ℕ → Option Row → Option Row
touch_row now none = none
touch_row now (some r) = some (record r { touched_at = now })

-- now - last < interval, for a time of the last touch
abbrev pub touched_lately : ℕ → ℕ → Option ℕ → Bool
touched_lately interval now none = false
touched_lately interval now (some last) = ltb now (last + interval)

abbrev pub fresh_row : ℕ → Option Row → Option Row
fresh_row now none = none
fresh_row now (some r) = if is_stale r.expires_at now then none else some r

module _ {Abi : Type 0} where
  -- __init__ on an empty database
  abbrev pub new_cache : Cache Abi
  new_cache = record { memory = []; rows = λ k. none; last_touch_at = λ k. none; closed = false }

  -- _touch_locked
  unfoldable pub touch : Limits → Text → ℕ → Cache Abi → Cache Abi
  touch limits key now c =
      if touched_lately limits.invalidation_interval_seconds now (c.last_touch_at key)
      then c
      else record c {
        last_touch_at = with_row key (some now) c.last_touch_at;
        rows = with_row key (touch_row now (c.rows key)) c.rows;
      }

  -- _purge_locked, and what `invalidate` does on an open cache
  unfoldable pub purge : Text → Cache Abi → Cache Abi
  purge key c = record c {
    memory = remove key c.memory;
    last_touch_at = with_row key none c.last_touch_at;
    rows = with_row key none c.rows;
  }

  -- The entry becomes the newest one.
  abbrev pub store : Text → Entry Abi → Dict (Entry Abi) → Dict (Entry Abi)
  store key entry memory = remove key memory ++ (key, entry) ∷ []

  -- `get` where the memory has an entry: the staleness is tested at `now`, the touch is at `later`. The
  -- source gives the cached object itself; `Abi` is its reference, and nothing here changes what it
  -- holds.
  unfoldable pub get_memory : Limits → Text → ℕ → ℕ → Entry Abi → Cache Abi → Option Abi × Cache Abi
  get_memory limits key now later entry c =
      if is_stale entry.expires_at now
      then (none, purge key c)
      else (some entry.abi, touch limits key later (record c { memory = store key entry c.memory }))

  -- _invalidate_stale_locked
  unfoldable pub drop_stale : ℕ → Cache Abi → Cache Abi
  drop_stale now c = record c {
    memory = filter (λ e. not (is_stale e.1.expires_at now)) c.memory;
    rows = λ k. fresh_row now (c.rows k);
  }

  -- _ensure_open_locked, then the rest of a method.
  abbrev pub when_open {ℓ} :
      {A : Type ℓ} → Cache Abi → A × Cache Abi → Result CacheError A × Cache Abi
  when_open c (a, next) = if c.closed then (raised abi_cache_closed, c) else (returned a, next)

  unfoldable pub invalidate : Text → Cache Abi → Result CacheError (Unit {0}) × Cache Abi
  invalidate key c = when_open c (tt, purge key c)

  unfoldable pub invalidate_stale : ℕ → Cache Abi → Result CacheError (Unit {0}) × Cache Abi
  invalidate_stale now c = when_open c (tt, drop_stale now c)

  unfoldable pub close : Cache Abi → Cache Abi
  close c = record c { closed = true }

  module _ (dumps : Abi → Text) (loads : Text → Abi) where
    -- `get` where the memory has no entry
    unfoldable pub get_row : Limits → Text → ℕ → Option Row → Cache Abi → Option Abi × Cache Abi
    get_row limits key now none c = (none, c)
    get_row limits key now (some row) c =
        let value = loads row.abi_json in
        let entry : Entry Abi = record { abi = value; expires_at = row.expires_at } in
        if is_stale row.expires_at now then (none, purge key c) else (
          some value,
          touch limits key row.touched_at
              (record c { memory = trim limits.max_entries (store key entry c.memory) }),
        )

    abbrev pub get_open :
        Limits → Text → ℕ → ℕ → Option (Entry Abi) → Cache Abi → Option Abi × Cache Abi
    get_open limits key now later none c = get_row limits key now (c.rows key) c
    get_open limits key now later (some entry) c = get_memory limits key now later entry c

    unfoldable pub fetch :
        Limits → Text → ℕ → ℕ → Cache Abi → Result CacheError (Option Abi) × Cache Abi
    fetch limits key now later c = when_open c (get_open limits key now later (get key c.memory) c)

    -- The INSERT comes after the touch, whose UPDATE it overwrites.
    unfoldable pub set_open : Limits → Text → Abi → ℕ → Cache Abi → Cache Abi
    set_open limits key abi now c =
        let expires = now + limits.ttl_seconds in
        let entry : Entry Abi = record { abi = abi; expires_at = expires } in
        let stored : Cache Abi = record c {
          memory = trim limits.max_entries (store key entry c.memory);
        } in
        let touched = touch limits key now stored in
        record touched {
          rows =
              with_row key
                (some (record { abi_json = dumps abi; touched_at = now; expires_at = expires }))
                touched.rows;
        }

    unfoldable pub set :
        Limits → Text → Abi → ℕ → Cache Abi → Result CacheError (Unit {0}) × Cache Abi
    set limits key abi now c = when_open c (tt, set_open limits key abi now c)
