-- ===== src/Proxy/Laws/Refines.antt =====
-- The ABI cache against a table whose entries are visible until they expire: over any calls the
-- two give the same answers, so neither the memory in front of the table, nor its size, nor the
-- removal of stale entries shows.
use mathlib.Core.Path.{subst}
use lirix.Prelude.{
  ℕ, ◌≤◌, ◌≡◌, refl, sym, ap, ◌∙◌, ◌⊎◌, inl, inr, Bool, true, false, Bool-cases, if_when, Option,
  none, some, Option-cases, All, All-get, All-trim, Text, text_eq, text_eq→eq, Dict, get, trim,
  arith, returned, if◌then◌else◌,
}
use lirix.Proxy.AbiCache.{
  Limits, Row, Entry, Cache, is_stale, with_row, touch, purge, store, get_memory, get_open, get_row,
}
use lirix.Proxy.Laws.Table.{
  live, live-later, view, Held, Coherent, view-with_row, view-touch, Coherent-touch, Coherent-purge,
  Held-store,
}
use lirix.Proxy.Laws.Calls.{Reply, Table}

module _ {Abi : Type 0} (dumps : Abi → Text) (loads : Text → Abi) (limits : Limits) where
  abbrev reply_of : Option Abi → Reply Abi
  reply_of a = returned a

  -- At time `t` and later, what is visible through the cache is what is visible in the table.
  pub record Refines (t : ℕ) (c : Cache Abi) (table : Table Abi) : Type 0 where
    pub coherent : Coherent loads c
    pub agrees :
        (k : Text) (u : ℕ) → t ≤ u → live u (view loads (c.rows k)) ≡ live u (table.saved k)
    pub shuts : c.closed ≡ table.shut

  pub Refines-later :
      (t u : ℕ) (c : Cache Abi) (table : Table Abi) → t ≤ u → Refines t c table → Refines u c table
  Refines-later t u c table h r = record {
    coherent = r.coherent;
    agrees = λ k v le. r.agrees k v (omega arith);
    shuts = r.shuts;
  }

  -- One step of both: the same answer, and states that still refine.
  abbrev pub Simulates : ℕ → Reply Abi × Cache Abi → Reply Abi × Table Abi → Type 0
  Simulates t x y = (x.0 ≡ y.0) × Refines t x.1 y.1

  -- A step is guarded by the same test on both sides.
  pub Simulates-if :
      {X : Type 0} (f : X → Reply Abi × Cache Abi) (t : ℕ) (b b' : Bool) (p x : X)
      (q y : Reply Abi × Table Abi)
      → b ≡ b'
      → Simulates t (f p) q
      → Simulates t (f x) y
      → Simulates t (f (if b then p else x)) (if b' then q else y)
  Simulates-if f t true true p x q y e h k = h
  Simulates-if f t false false p x q y e h k = k
  Simulates-if f t true false p x q y e h k = cc
  Simulates-if f t false true p x q y e h k = cc

  pub closed-touch :
      (key : Text) (now : ℕ) (c : Cache Abi) → (touch limits key now c).closed ≡ c.closed
  unfolding touch
  closed-touch key now c = ground arith

  touch-Refines :
      (t : ℕ) (key : Text) (now : ℕ) (c : Cache Abi) (table : Table Abi)
      → Refines t c table
      → Refines t (touch limits key now c) table
  touch-Refines t key now c table r = record {
    coherent = Coherent-touch loads limits key now c r.coherent;
    agrees = λ k u h. ap (live u) (view-touch loads limits key k now c) ∙ r.agrees k u h;
    shuts = closed-touch key now c ∙ r.shuts;
  }

  -- A stale entry is purged: nothing was visible there any more.
  purge-Refines :
      (t : ℕ) (key : Text) (c : Cache Abi) (table : Table Abi)
      → live t (view loads (c.rows key)) ≡ none
      → Refines t c table
      → Refines t (purge key c) table
  unfolding purge
  purge-Refines t key c table gone r = record {
    coherent = Coherent-purge loads key c r.coherent;
    agrees = λ k u h. purged k u h (Bool-cases (text_eq key k));
    shuts = r.shuts;
  }
    where
      purged :
          (k : Text) (u : ℕ)
          → t ≤ u
          → (text_eq key k ≡ true) ⊎ (text_eq key k ≡ false)
          → live u (view loads (with_row key none c.rows k)) ≡ live u (table.saved k)
      purged k u h (inl same) =
          ap (live u) (
            view-with_row loads key k none c.rows
            ∙ ap (λ b. if b then none else view loads (c.rows k)) same)
          ∙ sym (
              live-later t u (view loads (c.rows k)) h
                (subst (λ j. live t (view loads (c.rows j)) ≡ none) (text_eq→eq key k same) gone))
          ∙ r.agrees k u h
      purged k u h (inr other) =
          ap (live u) (
            view-with_row loads key k none c.rows
            ∙ ap (λ b. if b then none else view loads (c.rows k)) other)
          ∙ r.agrees k u h

  memory-Refines :
      (t : ℕ) (m : Dict (Entry Abi)) (c : Cache Abi) (table : Table Abi)
      → All (Held loads c.rows) m
      → Refines t c table
      → Refines t (record c { memory = m }) table
  memory-Refines t m c table h r = record { coherent = h; agrees = r.agrees; shuts = r.shuts }

  get_memory_step :
      (key : Text) (now later : ℕ) (entry : Entry Abi) (c : Cache Abi) (table : Table Abi)
      → Held loads c.rows (key, entry)
      → Refines now c table
      → (reply_of (get_memory limits key now later entry c).0
          ≡ returned (live now (table.saved key)))
        × Refines now (get_memory limits key now later entry c).1 table
  unfolding get_memory
  get_memory_step key now later entry c table held r =
      if_when
        (λ (x : Option Abi × Cache Abi).
          (reply_of x.0 ≡ returned (live now (table.saved key))) × Refines now x.1 table)
        (is_stale entry.expires_at now) (none, purge key c)
        (some entry.abi, touch limits key later (record c { memory = store key entry c.memory }))
        (λ old.
          let gone : live now (view loads (c.rows key)) ≡ none =
            ap (live now) held ∙ ap (λ b. if b then none else some entry.abi) old in
          (ap reply_of (sym gone ∙ seen), purge-Refines now key c table gone r))
        (λ fresh.
          let there : live now (view loads (c.rows key)) ≡ some entry.abi =
            ap (live now) held ∙ ap (λ b. if b then none else some entry.abi) fresh in
          (
            ap reply_of (sym there ∙ seen),
            touch-Refines now key later _ table (
                memory-Refines now _ c table
                  (Held-store loads c.rows key entry c.memory r.coherent held) r),
          ))
    where
      seen : live now (view loads (c.rows key)) ≡ live now (table.saved key)
      seen = r.agrees key now (omega arith)

  get_row_step :
      (key : Text) (now : ℕ) (row : Option Row) (c : Cache Abi) (table : Table Abi)
      → c.rows key ≡ row
      → Refines now c table
      → (reply_of (get_row dumps loads limits key now row c).0
          ≡ returned (live now (table.saved key)))
        × Refines now (get_row dumps loads limits key now row c).1 table
  unfolding get_row
  get_row_step key now none c table e r =
      (ap reply_of (sym (ap (λ x. live now (view loads x)) e) ∙ r.agrees key now (omega arith)), r)
  get_row_step key now (some row) c table e r =
      if_when
        (λ (x : Option Abi × Cache Abi).
          (reply_of x.0 ≡ returned (live now (table.saved key))) × Refines now x.1 table)
        (is_stale row.expires_at now) (none, purge key c)
        (
          some (loads row.abi_json),
          touch limits key row.touched_at
              (record c { memory = trim limits.max_entries (store key entry c.memory) }),
        )
        (λ old.
          let gone : live now (view loads (c.rows key)) ≡ none =
            ap (live now) held ∙ ap (λ b. if b then none else some entry.abi) old in
          (ap reply_of (sym gone ∙ seen), purge-Refines now key c table gone r))
        (λ fresh.
          let there : live now (view loads (c.rows key)) ≡ some entry.abi =
            ap (live now) held ∙ ap (λ b. if b then none else some entry.abi) fresh in
          (
            ap reply_of (sym there ∙ seen),
            touch-Refines now key row.touched_at _ table (
                memory-Refines now _ c table
                  (All-trim (Held loads c.rows) limits.max_entries _
                    (Held-store loads c.rows key entry c.memory r.coherent held))
                  r),
          ))
    where
      entry : Entry Abi
      entry = record { abi = loads row.abi_json; expires_at = row.expires_at }

      held : view loads (c.rows key) ≡ some (loads row.abi_json, row.expires_at)
      held = ap (view loads) e

      seen : live now (view loads (c.rows key)) ≡ live now (table.saved key)
      seen = r.agrees key now (omega arith)

  pub get_open_step :
      (key : Text) (now later : ℕ) (c : Cache Abi) (table : Table Abi)
      → Refines now c table
      → (reply_of (get_open dumps loads limits key now later (get key c.memory) c).0
          ≡ returned (live now (table.saved key)))
        × Refines now (get_open dumps loads limits key now later (get key c.memory) c).1 table
  get_open_step key now later c table r = elim (Option-cases (get key c.memory)) [
    | inl missing ↦ rw missing (get_row_step key now (c.rows key) c table refl r)
    | inr (entry, there) ↦ rw there (
        get_memory_step key now later entry c table
          (All-get (Held loads c.rows) key entry c.memory r.coherent there) r)
  ]
