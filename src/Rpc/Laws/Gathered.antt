-- ===== src/Rpc/Laws/Gathered.antt =====
-- Lemmas on the heights that `gather` of Rpc.Reconcile stores.
use lirix.Prelude.{
  elem_head, elem_tail, ℕ, suc, ◌+◌, ◌≤◌, ◌≡◌, refl, Bool, true, false, some, List, [], ◌∷◌, count,
  length, Text, text_eq, text_eq→eq, text_eq_refl, elem, Dict, get, put, get-put, All, arith,
  Bool-cases, inl, inr, sym, ap, ◌∙◌, ◌⊎◌, ◌≢◌, if◌then◌else◌,
}
use mathlib.Core.Path.{subst}
use lirix.Rpc.Types.{FetchError, Fetched, height, failed}
use lirix.Rpc.Reconcile.{Gathered, gather, add_fetched}

-- Whether a fetch gave a height.
abbrev pub succeeded : Fetched → Bool
succeeded (height h) = true
succeeded (failed e) = false

length-put {ℓ} : {V : Type ℓ} (k : Text) (v : V) (d : Dict V) → length (put k v d) ≤ suc (length d)
unfolding put
length-put k v [] = omega arith
length-put k v ((j, w) ∷ d) = ground (arith, length-put k v d)

All-put {ℓ κ} :
    {V : Type ℓ} (P : Text × V → Type κ) (k : Text) (v : V) (d : Dict V)
    → P (k, v)
    → All P d
    → All P (put k v d)
unfolding put
All-put P k v [] p ps = (p, tt)
All-put P k v ((j, w) ∷ d) p (q, qs) = elim (Bool-cases (text_eq j k)) [
  | inl e ↦ rw e (subst (λ i. P (i, v)) (sym (text_eq→eq j k e)) p, qs)
  | inr e ↦ rw e (q, All-put P k v d p qs)
]

length-add_fetched :
    (u : Text) (r : Fetched) (g : Gathered)
    → length (add_fetched u r g).heights ≤ length g.heights + (if succeeded r then 1 else 0)
length-add_fetched u (height h) g = omega (arith, length-put u h g.heights)
length-add_fetched u (failed e) g = omega arith

pub length-gather :
    (fetch : Text → Fetched) (us : List Text) (g : Gathered)
    → length (gather fetch us g).heights ≤ length g.heights + count (λ u. succeeded (fetch u)) us
unfolding gather
length-gather fetch [] g = omega arith
length-gather fetch (u ∷ us) g =
    omega
      (arith, length-gather fetch us (add_fetched u (fetch u) g), length-add_fetched u (fetch u) g)

pub elem-cons :
    (v u : Text) (us : List Text)
    → elem v (u ∷ us) ≡ true
    → (text_eq v u ≡ true) ⊎ (elem v us ≡ true)
unfolding elem
elem-cons v u us h = ground arith

elem_nil : (v : Text) → elem v [] ≢ true
unfolding elem
elem_nil v h = ground arith

-- What holds of every height that a listed url can give holds of every height stored.
pub All-gather {κ} :
    (P : Text × ℕ → Type κ) (fetch : Text → Fetched) (us : List Text) (g : Gathered)
    → ((v : Text) (h : ℕ) → elem v us ≡ true → fetch v ≡ height h → P (v, h))
    → All P g.heights
    → All P (gather fetch us g).heights
unfolding gather
All-gather P fetch [] g good ps = ps
All-gather P fetch (u ∷ us) g good ps =
    All-gather P fetch us (add_fetched u (fetch u) g) (λ v h m. good v h (elem_tail v u us m))
      (added (fetch u) refl)
  where
    added : (r : Fetched) → fetch u ≡ r → All P (add_fetched u r g).heights
    added (height h) e = All-put P u h g.heights (good u h (elem_head u us) e) ps
    added (failed x) e = ps

height_injective : (h k : ℕ) → height h ≡ height k → h ≡ k
height_injective h k e = cc

height-ne-failed : (h : ℕ) (x : FetchError) → height h ≢ failed x
height-ne-failed h x e = cc

get-add_fetched :
    (fetch : Text → Fetched) (v u : Text) (h : ℕ) (r : Fetched) (g : Gathered)
    → fetch v ≡ height h
    → fetch u ≡ r
    → (get v g.heights ≡ some h) ⊎ (text_eq v u ≡ true)
    → get v (add_fetched u r g).heights ≡ some h
get-add_fetched fetch v u h (height k) g e q kept = elim (Bool-cases (text_eq u v)) [
  | inl same ↦
      get-put u v k g.heights
      ∙ ap (λ b. if b then some k else get v g.heights) same
      ∙ ap some (height_injective k h (sym q ∙ ap fetch (text_eq→eq u v same) ∙ e))
  | inr other ↦
      get-put u v k g.heights
      ∙ ap (λ b. if b then some k else get v g.heights) other
      ∙ elim kept [ inl s ↦ s | inr same ↦ ground (arith, text_eq→eq v u, text_eq_refl u) ]
]
get-add_fetched fetch v u h (failed x) g e q (inl s) = s
get-add_fetched fetch v u h (failed x) g e q (inr same) =
    absurd (height-ne-failed h x (sym e ∙ ap fetch (text_eq→eq v u same) ∙ q))

-- A stored height is kept while the fetches agree with it.
get_kept :
    (fetch : Text → Fetched) (v : Text) (h : ℕ) (us : List Text) (g : Gathered)
    → fetch v ≡ height h
    → get v g.heights ≡ some h
    → get v (gather fetch us g).heights ≡ some h
unfolding gather
get_kept fetch v h [] g e s = s
get_kept fetch v h (u ∷ us) g e s =
    get_kept fetch v h us (add_fetched u (fetch u) g) e
      (get-add_fetched fetch v u h (fetch u) g e refl (inl s))

-- Every height that a listed url gives is stored.
pub get-gather :
    (fetch : Text → Fetched) (v : Text) (h : ℕ) (us : List Text) (g : Gathered)
    → fetch v ≡ height h
    → elem v us ≡ true
    → get v (gather fetch us g).heights ≡ some h
unfolding gather
get-gather fetch v h [] g e m = absurd (elem_nil v m)
get-gather fetch v h (u ∷ us) g e m = elim (elem-cons v u us m) [
  | inl q ↦
      get_kept fetch v h us (add_fetched u (fetch u) g) e
        (get-add_fetched fetch v u h (fetch u) g e refl (inr q))
  | inr q ↦ get-gather fetch v h us (add_fetched u (fetch u) g) e q
]
