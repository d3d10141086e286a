-- ===== src/Proxy/Laws/Writes.antt =====
-- The calls that write the ABI cache and its table.
use mathlib.Core.Path.{subst}
use lirix.Prelude.{
  ℕ, ◌+◌, ◌≤◌, ◌≡◌, sym, ap, ◌∙◌, ◌⊎◌, inl, inr, true, false, Bool-cases, none, some, All,
  All-append, All-trim, Text, text_eq, text_eq_refl, remove, trim, arith, if◌then◌else◌,
}
use lirix.Proxy.AbiCache.{
  Limits, Row, Entry, Cache, with_row, touch, purge, store, drop_stale, set_open,
}
use lirix.Proxy.Laws.Table.{
  live, view, Held, view-with_row, view-touch, view-fresh_row, memory-touch, Held-others,
  Coherent-rows, Coherent-purge, Coherent-drop_stale,
}
use lirix.Proxy.Laws.Calls.{Table}
use lirix.Proxy.Laws.Refines.{Refines, closed-touch}

module _ {Abi : Type 0} (dumps : Abi → Text) (loads : Text → Abi) (limits : Limits) where
  pub set_open-Refines :
      (key : Text) (abi : Abi) (t now : ℕ) (c : Cache Abi) (table : Table Abi)
      → loads (dumps abi) ≡ abi
      → t ≤ now
      → Refines dumps loads limits t c table
      → Refines dumps loads limits now
          (set_open dumps loads limits key abi now c)
          (record table { saved = with_row key (some (abi, now + limits.ttl_seconds)) table.saved })
  unfolding set_open
  set_open-Refines key abi t now c table inverse le r = record {
    coherent = subst (All (Held loads _)) (sym (memory-touch loads limits key now stored)) (
        All-trim (Held loads _) limits.max_entries _ (
          All-append (Held loads _) (remove key c.memory) _
            (Held-others loads key (some row) touched.rows c.memory (
              Coherent-rows loads c.rows touched.rows c.memory
                (λ k. view-touch loads limits key k now stored) r.coherent))
            (written key (text_eq_refl key), tt)));
    agrees = λ k u h. seen k u h (Bool-cases (text_eq key k));
    shuts = closed-touch dumps loads limits key now stored ∙ r.shuts;
  }
    where
      entry : Entry Abi
      entry = record { abi = abi; expires_at = now + limits.ttl_seconds }

      stored : Cache Abi
      stored = record c { memory = trim limits.max_entries (store key entry c.memory) }

      touched : Cache Abi
      touched = touch limits key now stored

      row : Row
      row = record { abi_json = dumps abi; touched_at = now; expires_at = now + limits.ttl_seconds }

      written :
          (k : Text)
          → text_eq key k ≡ true
          → view loads (with_row key (some row) touched.rows k)
            ≡ some (abi, now + limits.ttl_seconds)
      written k same =
          view-with_row loads key k (some row) touched.rows
          ∙ ap (λ b. if b then view loads (some row) else view loads (touched.rows k)) same
          ∙ ap (λ a. some (a, now + limits.ttl_seconds)) inverse

      seen :
          (k : Text) (u : ℕ)
          → now ≤ u
          → (text_eq key k ≡ true) ⊎ (text_eq key k ≡ false)
          → live u (view loads (with_row key (some row) touched.rows k))
            ≡ live u (with_row key (some (abi, now + limits.ttl_seconds)) table.saved k)
      seen k u h (inl same) = ap (live u) (
          written k same
          ∙ sym (ap (λ b. if b then some (abi, now + limits.ttl_seconds) else table.saved k) same))
      seen k u h (inr other) =
          ap (live u) (
            view-with_row loads key k (some row) touched.rows
            ∙ ap (λ b. if b then view loads (some row) else view loads (touched.rows k)) other
            ∙ view-touch loads limits key k now stored)
          ∙ r.agrees k u (omega arith)
          ∙ sym (
              ap (λ b. live u (if b then some (abi, now + limits.ttl_seconds) else table.saved k))
                other)

  -- An invalidation removes the row.
  pub drop-Refines :
      (t : ℕ) (key : Text) (c : Cache Abi) (table : Table Abi)
      → Refines dumps loads limits t c table
      → Refines dumps loads limits t
          (purge key c)
          (record table { saved = with_row key none table.saved })
  unfolding purge
  drop-Refines t key c table r = record {
    coherent = Coherent-purge loads key c r.coherent;
    agrees = λ k u h. seen k u h (Bool-cases (text_eq key k));
    shuts = r.shuts;
  }
    where
      seen :
          (k : Text) (u : ℕ)
          → t ≤ u
          → (text_eq key k ≡ true) ⊎ (text_eq key k ≡ false)
          → live u (view loads (with_row key none c.rows k))
            ≡ live u (with_row key none table.saved k)
      seen k u h (inl same) =
          ap (live u) (
            view-with_row loads key k none c.rows
            ∙ ap (λ b. if b then none else view loads (c.rows k)) same)
          ∙ sym (ap (λ b. live u (if b then none else table.saved k)) same)
      seen k u h (inr other) =
          ap (live u) (
            view-with_row loads key k none c.rows
            ∙ ap (λ b. if b then none else view loads (c.rows k)) other)
          ∙ r.agrees k u h
          ∙ sym (ap (λ b. live u (if b then none else table.saved k)) other)

  pub sweep-Refines :
      (t now : ℕ) (c : Cache Abi) (table : Table Abi)
      → t ≤ now
      → Refines dumps loads limits t c table
      → Refines dumps loads limits now (drop_stale now c) table
  unfolding drop_stale
  sweep-Refines t now c table le r = record {
    coherent = Coherent-drop_stale loads now c r.coherent;
    agrees = λ k u h. view-fresh_row loads now u (c.rows k) h ∙ r.agrees k u (omega arith);
    shuts = r.shuts;
  }
