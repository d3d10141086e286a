-- ===== src/Proxy/Laws/Table.antt =====
-- The table that the ABI cache stands for, and what each change of the cache does to it.
use mathlib.Core.Path.{subst}
use lirix.Prelude.{
  text_eq-false_sym, ℕ, ◌≤◌, ◌≡◌, refl, sym, ap, ◌∙◌, inl, inr, Bool, true, false, not, Bool-cases,
  if_of, if_when, Option, none, some, filter, All, All-append, All-filter, All-remove, All-map,
  Text, text_eq, text_eq→eq, Dict, remove, leb, arith, if◌then◌else◌,
}
use lirix.Proxy.AbiCache.{
  Limits, Row, Entry, Cache, is_stale, with_row, touch, purge, store, drop_stale, fresh_row,
  touched_lately, touch_row,
}

-- What a row says: an ABI and the time at which it expires.
abbrev pub Saved : Type 0 → Type 0
Saved Abi = Option (Abi × ℕ)

-- What is visible of it at a time.
abbrev pub live : {Abi : Type 0} → ℕ → Saved Abi → Option Abi
live t none = none
live t (some (a, expires)) = if leb expires t then none else some a

-- Once gone, gone for good.
pub live-later :
    {Abi : Type 0} (s t : ℕ) (x : Saved Abi) → s ≤ t → live s x ≡ none → live t x ≡ none
live-later s t none h e = refl
live-later s t (some (a, expires)) h e = ground arith

expired : (x y now : ℕ) → leb x now ≡ true → not (leb y now) ≡ true → x ≡ y → ⊥
expired x y now h k e = ground arith

abbrev pair_of : {Abi : Type 0} → Abi → ℕ → Saved Abi
pair_of a x = some (a, x)

expires_eq : {Abi : Type 0} {a b : Abi} {x y : ℕ} → pair_of a x ≡ some (b, y) → x ≡ y
expires_eq e = cc

module _ {Abi : Type 0} (loads : Text → Abi) where
  abbrev pub view : Option Row → Saved Abi
  view none = none
  view (some r) = some (loads r.abi_json, r.expires_at)

  -- A memory entry is what its row says.
  abbrev pub Held : (Text → Option Row) → Text × Entry Abi → Type 0
  Held rows (k, e) = view (rows k) ≡ some (e.abi, e.expires_at)

  abbrev pub Coherent : Cache Abi → Type 0
  Coherent c = All (Held c.rows) c.memory

  pub view-with_row :
      (key k : Text) (r : Option Row) (rows : Text → Option Row)
      → view (with_row key r rows k) ≡ (if text_eq key k then view r else view (rows k))
  view-with_row key k r rows = go (text_eq key k)
    where
      go : (b : Bool) → view (if b then r else rows k) ≡ (if b then view r else view (rows k))
      go true = refl
      go false = refl

  view-touch_row : (now : ℕ) (r : Option Row) → view (touch_row now r) ≡ view r
  view-touch_row now none = refl
  view-touch_row now (some r) = refl

  pub view-fresh_row :
      (now t : ℕ) (r : Option Row) → now ≤ t → live t (view (fresh_row now r)) ≡ live t (view r)
  view-fresh_row now t none h = refl
  view-fresh_row now t (some r) h =
      if_when (λ row. live t (view row) ≡ live t (view (some r))) (leb r.expires_at now) none
        (some r) (λ old. ground arith) (λ still. refl)

  fresh_held :
      (now : ℕ) (r : Option Row) (e : Entry Abi)
      → view r ≡ some (e.abi, e.expires_at)
      → not (is_stale e.expires_at now) ≡ true
      → view (fresh_row now r) ≡ some (e.abi, e.expires_at)
  fresh_held now none e h live = cc
  fresh_held now (some r) e h live =
      if_when (λ row. view row ≡ some (e.abi, e.expires_at)) (leb r.expires_at now) none (some r)
        (λ old. absurd (expired r.expires_at e.expires_at now old live (expires_eq h))) (λ still. h)

  touched_row :
      (key k : Text) (now : ℕ) (rows : Text → Option Row)
      → view (with_row key (touch_row now (rows key)) rows k) ≡ view (rows k)
  touched_row key k now rows = elim (Bool-cases (text_eq key k)) [
    | inl same ↦ rw (view-with_row, same) (rw (text_eq→eq key k same) (view-touch_row now (rows k)))
    | inr other ↦ rw (view-with_row, other) refl
  ]

  pub view-touch :
      (limits : Limits) (key k : Text) (now : ℕ) (c : Cache Abi)
      → view ((touch limits key now c).rows k) ≡ view (c.rows k)
  unfolding touch
  view-touch limits key k now c =
      if_of (λ (d : Cache Abi). view (d.rows k) ≡ view (c.rows k))
        (touched_lately limits.invalidation_interval_seconds now (c.last_touch_at key)) c
        (record c {
          last_touch_at = with_row key (some now) c.last_touch_at;
          rows = with_row key (touch_row now (c.rows key)) c.rows;
        })
        refl (touched_row key k now c.rows)

  pub memory-touch :
      (limits : Limits) (key : Text) (now : ℕ) (c : Cache Abi)
      → (touch limits key now c).memory ≡ c.memory
  unfolding touch
  memory-touch limits key now c = ground arith

  -- What survives on other keys, when one row is written or deleted.
  pub Held-others :
      (key : Text) (r : Option Row) (rows : Text → Option Row) (m : Dict (Entry Abi))
      → All (Held rows) m
      → All (Held (with_row key r rows)) (remove key m)
  Held-others key r rows m h =
      All-map _ _ (remove key m)
        (λ e p.
          view-with_row key e.0 r rows
          ∙ ap (λ b. if b then view r else view (rows e.0)) (text_eq-false_sym e.0 key p.1)
          ∙ p.0)
        (All-remove (Held rows) key m h)

  pub Coherent-rows :
      (rows rows' : Text → Option Row) (m : Dict (Entry Abi))
      → ((k : Text) → view (rows' k) ≡ view (rows k))
      → All (Held rows) m
      → All (Held rows') m
  Coherent-rows rows rows' m same h = All-map _ _ m (λ e p. same e.0 ∙ p) h

  pub Coherent-touch :
      (limits : Limits) (key : Text) (now : ℕ) (c : Cache Abi)
      → Coherent c
      → Coherent (touch limits key now c)
  Coherent-touch limits key now c h =
      subst (All (Held (touch limits key now c).rows)) (sym (memory-touch limits key now c))
        (Coherent-rows c.rows _ c.memory (λ k. view-touch limits key k now c) h)

  pub Coherent-purge : (key : Text) (c : Cache Abi) → Coherent c → Coherent (purge key c)
  unfolding purge
  Coherent-purge key c h = Held-others key none c.rows c.memory h

  pub Held-store :
      (rows : Text → Option Row) (key : Text) (entry : Entry Abi) (m : Dict (Entry Abi))
      → All (Held rows) m
      → Held rows (key, entry)
      → All (Held rows) (store key entry m)
  Held-store rows key entry m h new =
      All-append (Held rows) (remove key m) _
        (All-map _ _ (remove key m) (λ e p. p.0) (All-remove (Held rows) key m h)) (new, tt)

  pub Coherent-drop_stale : (now : ℕ) (c : Cache Abi) → Coherent c → Coherent (drop_stale now c)
  unfolding drop_stale
  Coherent-drop_stale now c h =
      All-map _ _ (filter _ c.memory) (λ e p. fresh_held now (c.rows e.0) e.1 p.0 p.1)
        (All-filter (Held c.rows) _ c.memory h)
