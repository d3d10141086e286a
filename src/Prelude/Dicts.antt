-- ===== src/Prelude/Dicts.antt =====
-- Python's `dict` with text keys, in insertion order: an assignment to a present key keeps its place.
use mathlib.Core.Path.{◌≡◌, refl, subst}
use mathlib.Core.Bool.{Bool, true, false}
use mathlib.Core.Option.{Option, none, some}
use mathlib.Core.Logic.{inl, inr}
use mathlib.Core.List.{List, [], ◌∷◌, ◌++◌}
use native.Mathlib.Omega.{arith}
use Prim.Native.Nat.{ℕ, ◌+◌, ◌≤◌, ◌-◌}
use lirix.Prelude.Tests.{if◌then◌else◌, is_some, ltb, Bool-cases, if_of, if_when}
use lirix.Prelude.Lists.{length, length-append, filter, All, snoc}
use lirix.Prelude.Texts.{Text, text_eq, text_eq→eq, text_eq_refl}

abbrev pub Dict {ℓ} : Type ℓ → Type ℓ
Dict V = List (Text × V)

module _ {ℓ} {V : Type ℓ} where
  unfoldable pub get : Text → Dict V → Option V
  get k [] = none
  get k ((j, v) ∷ d) = if text_eq j k then some v else get k d

  unfoldable pub put : Text → V → Dict V → Dict V
  put k v [] = (k, v) ∷ []
  put k v ((j, w) ∷ d) = if text_eq j k then (j, v) ∷ d else (j, w) ∷ put k v d

  abbrev pub has_key : Text → Dict V → Bool
  has_key k d = is_some (get k d)

  pub get-put :
      (k j : Text) (v : V) (d : Dict V)
      → get j (put k v d) ≡ (if text_eq k j then some v else get j d)
  unfolding get put
  get-put k j v [] = refl
  get-put k j v ((i, w) ∷ d) = ground (
    arith,
    get-put k j v d,
    text_eq→eq i k,
    text_eq→eq i j,
    text_eq→eq k j,
    text_eq_refl k,
    text_eq_refl i,
  )

  pub get-put_self : (k : Text) (v : V) (d : Dict V) → get k (put k v d) ≡ some v
  get-put_self k v d = ground (arith, get-put k k v d, text_eq_refl k)

-- An `OrderedDict`, the oldest entry first: `pop` of a key, and the removal of entries from the old end.
module _ {ℓ} {V : Type ℓ} where
  unfoldable pub remove : Text → Dict V → Dict V
  remove k [] = []
  remove k ((j, v) ∷ d) = let rest = remove k d in if text_eq j k then rest else (j, v) ∷ rest

  -- while len(d) > limit: d.popitem(last=False)
  unfoldable pub trim : ℕ → Dict V → Dict V
  trim limit [] = []
  trim limit (e ∷ d) = let rest = trim limit d in if ltb limit (length (e ∷ d)) then rest else e ∷ d

  pub trim_bound : (limit : ℕ) (d : Dict V) → length (trim limit d) ≤ limit
  unfolding trim
  trim_bound limit [] = omega arith
  trim_bound limit (e ∷ d) = ground (arith, trim_bound limit d)

  pub length-remove : (k : Text) (d : Dict V) → length (remove k d) ≤ length d
  unfolding remove
  length-remove k [] = omega arith
  length-remove k ((j, v) ∷ d) = ground (arith, length-remove k d)

  pub length-remove_found :
      (k : Text) (v : V) (d : Dict V) → get k d ≡ some v → length (remove k d) + 1 ≤ length d
  unfolding remove get
  length-remove_found k v [] e = cc
  length-remove_found k v ((j, w) ∷ d) e =
      ground (arith, length-remove k d, length-remove_found k v d)

  pub length-filter-le : (p : Text × V → Bool) (d : Dict V) → length (filter p d) ≤ length d
  length-filter-le p [] = omega arith
  length-filter-le p (e ∷ d) = ground (arith, length-filter-le p d)

  pub length-trim-le : (limit : ℕ) (d : Dict V) → length (trim limit d) ≤ length d
  unfolding trim
  length-trim-le limit [] = omega arith
  length-trim-le limit (e ∷ d) = ground (arith, length-trim-le limit d)

  -- The newest entry stays.
  pub trim-last :
      (limit : ℕ) (d : Dict V) (e : Text × V)
      → 1 ≤ limit
      → trim limit (snoc d e) ≡ snoc (trim (limit - 1) d) e
  unfolding trim
  trim-last limit [] e h = ground arith
  trim-last limit (x ∷ d) e h = ground (arith, trim-last limit d e h, length-append d (e ∷ []))

  pub filter-append :
      (p : Text × V → Bool) (d e : Dict V) → filter p (d ++ e) ≡ filter p d ++ filter p e
  filter-append p [] e = refl
  filter-append p (x ∷ d) e = ground (arith, filter-append p d e)

  abbrev pub Absent : Text → Dict V → Type 0
  Absent k d = All (λ e. text_eq e.0 k ≡ false) d

  pub get-Absent : (k : Text) (d : Dict V) → Absent k d → get k d ≡ none
  unfolding get
  get-Absent k [] h = refl
  get-Absent k ((j, v) ∷ d) (p, ps) = rw p (get-Absent k d ps)

  pub get-last : (k : Text) (v : V) (d : Dict V) → Absent k d → get k (snoc d (k, v)) ≡ some v
  unfolding get
  get-last k v [] h = rw (text_eq_refl k) refl
  get-last k v ((j, w) ∷ d) (p, ps) = rw p (get-last k v d ps)

pub some_injective {ℓ} : {A : Type ℓ} {x y : A} → some x ≡ some y → x ≡ y
some_injective e = cc

module _ {ℓ κ} {V : Type ℓ} (P : Text × V → Type κ) where
  pub All-get : (k : Text) (v : V) (d : Dict V) → All P d → get k d ≡ some v → P (k, v)
  unfolding get
  All-get k v [] h e = cc
  All-get k v ((j, w) ∷ d) (p, ps) e = elim (Bool-cases (text_eq j k)) [
    | inl same ↦
        subst (λ i. P (i, v)) (text_eq→eq j k same)
          (subst (λ x. P (j, x)) (some_injective (rw same at e)) p)
    | inr other ↦ All-get k v d ps (rw other at e)
  ]

  pub All-trim : (limit : ℕ) (d : Dict V) → All P d → All P (trim limit d)
  unfolding trim
  All-trim limit [] h = tt
  All-trim limit (e ∷ d) (p, ps) =
      if_of (All P) (ltb limit (length (e ∷ d))) (trim limit d) (e ∷ d) (All-trim limit d ps)
        (p, ps)

  pub All-filter :
      (p : Text × V → Bool) (d : Dict V) → All P d → All (λ e. P e × (p e ≡ true)) (filter p d)
  All-filter p [] h = tt
  All-filter p (e ∷ d) (q, qs) =
      if_when (All (λ x. P x × (p x ≡ true))) (p e) (e ∷ filter p d) (filter p d)
        (λ t. ((q, t), All-filter p d qs)) (λ f. All-filter p d qs)

  pub All-remove :
      (k : Text) (d : Dict V) → All P d → All (λ e. P e × (text_eq e.0 k ≡ false)) (remove k d)
  unfolding remove
  All-remove k [] h = tt
  All-remove k ((j, v) ∷ d) (q, qs) =
      if_when (All (λ x. P x × (text_eq x.0 k ≡ false))) (text_eq j k) (remove k d)
        ((j, v) ∷ remove k d) (λ t. All-remove k d qs) (λ f. ((q, f), All-remove k d qs))

module _ {ℓ κ μ} {A : Type ℓ} where
  pub All-map :
      (P : A → Type κ) (Q : A → Type μ) (xs : List A) → ((x : A) → P x → Q x) → All P xs → All Q xs
  All-map P Q [] f h = tt
  All-map P Q (x ∷ xs) f (p, ps) = (f x p, All-map P Q xs f ps)

pub Absent-remove {ℓ} : {V : Type ℓ} (k : Text) (d : Dict V) → Absent k (remove k d)
unfolding remove
Absent-remove k [] = tt
Absent-remove k ((j, v) ∷ d) =
    if_when (Absent k) (text_eq j k) (remove k d) ((j, v) ∷ remove k d) (λ t. Absent-remove k d)
      (λ f. (f, Absent-remove k d))

pub All-both {ℓ κ μ} :
    {A : Type ℓ} (P : A → Type κ) (Q : A → Type μ) (xs : List A)
    → All P xs
    → All Q xs
    → All (λ x. P x × Q x) xs
All-both P Q [] h k = tt
All-both P Q (x ∷ xs) (p, h) (q, k) = ((p, q), All-both P Q xs h k)
