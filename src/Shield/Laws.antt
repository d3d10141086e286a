-- ===== src/Shield/Laws.antt =====
-- What the assertions of StateDeltaValidator ask for.
use mathlib.Core.Path.{subst}
use lirix.Prelude.{
  ◌≡◌, ◌↔◌, refl, sym, ap, Bool, true, false, ◌||◌, Bool-cases, inl, inr, Option, List, [], ◌∷◌,
  All, codes, text_eq, returned, raised, raise_if, ◌>>=◌, >>=-eq-returned, arith, if◌then◌else◌,
}
use lirix.Shield.{
  ℤ, pos, negsuc, ltb_int, Expected, Assertion, Source, ShieldError, Shielded, raw_of, actual_value,
  expected_int, check_assertion, check_assertions, assert_all, or_source, validate_assertions,
  honeypot_detected, state_mismatch,
}

-- i ≤ j
abbrev pub AtMost : ℤ → ℤ → Type 0
AtMost i j = ltb_int j i ≡ false

-- The actual value stands in a relation to the expected one, which is an integer.
abbrev pub Compares : (ℤ → ℤ → Type 0) → ℤ → Expected → Type 0
Compares R actual expected = (e : ℤ) × (expected_int expected ≡ returned e) × R actual e

-- What an assertion says of the value; one of another type says nothing.
abbrev pub Holds : ℤ → Assertion → Type 0
Holds actual a =
    if text_eq a.assertion_type (codes "return_data_int_ge")
    then Compares (λ i e. AtMost e i) actual a.expected_value
    else if text_eq a.assertion_type (codes "return_data_int_le")
    then Compares (λ i e. AtMost i e) actual a.expected_value
    else if text_eq a.assertion_type (codes "return_data_exact")
    then Compares (λ i e. i ≡ e) actual a.expected_value
    else Unit

abbrev pub AllHold : List Assertion → Source → Type 0
AllHold [] source = Unit
AllHold (a ∷ rest) source =
    (actual : ℤ) × (actual_value (raw_of source.return_data source.metrics_return_data)
      ≡ returned actual)
    × All (Holds actual) (a ∷ rest)

abbrev integer : ℤ → Shielded ℤ
integer i = returned i

int_injective : {i j : ℤ} → integer i ≡ returned j → i ≡ j
int_injective e = cc

abbrev compared : Shielded ℤ → (ℤ → Bool) → ShieldError → Shielded (Unit {0})
compared m b e = m >>= λ i. raise_if (b i) e

-- A comparison that passes is one that holds.
compared-returned :
    (m : Shielded ℤ) (b : ℤ → Bool) (err : ShieldError) (R : ℤ → Type 0)
    → ((i : ℤ) → (b i ≡ false) ↔ R i)
    → (compared m b err ≡ returned tt) ↔ ((e : ℤ) × (m ≡ returned e) × R e)
compared-returned (raised x) b err R h = ((λ e. cc), (λ (i, e, r). cc))
compared-returned (returned i) b err R h = (
  (λ e. (i, refl, (h i).0 (passed (b i) e))),
  (λ (j, e, r). rw ((h i).1 (subst R (sym (int_injective e)) r)) refl),
)
  where
    passed : (c : Bool) → raise_if c err ≡ returned tt → c ≡ false
    passed true e = cc
    passed false e = refl

same_int : (i j : ℤ) → (ltb_int i j || ltb_int j i) ≡ false → i ≡ j
same_int (pos m) (pos n) h = ap pos (ground arith)
same_int (pos m) (negsuc n) h = cc
same_int (negsuc m) (pos n) h = cc
same_int (negsuc m) (negsuc n) h = ap negsuc (ground arith)

not_below : (i : ℤ) → (ltb_int i i || ltb_int i i) ≡ false
not_below (pos m) = ground arith
not_below (negsuc m) = ground arith

check_assertion-Holds :
    (actual : ℤ) (a : Assertion) → (check_assertion actual a ≡ returned tt) ↔ Holds actual a
unfolding check_assertion
check_assertion-Holds actual a =
    elim (Bool-cases (text_eq a.assertion_type (codes "return_data_int_ge"))) [
      | inl ge ↦ rw ge (
          compared-returned (expected_int a.expected_value) (λ e. ltb_int actual e)
            honeypot_detected (λ e. AtMost e actual) (λ e. (λ x. x, λ x. x)))
      | inr not_ge ↦ elim (Bool-cases (text_eq a.assertion_type (codes "return_data_int_le"))) [
        | inl le ↦
            rw (not_ge, le)
              (compared-returned (expected_int a.expected_value) (λ e. ltb_int e actual)
                state_mismatch (λ e. AtMost actual e) (λ e. (λ x. x, λ x. x)))
        | inr not_le ↦ elim (Bool-cases (text_eq a.assertion_type (codes "return_data_exact"))) [
          | inl exact ↦
              rw (not_ge, not_le, exact)
                (compared-returned (expected_int a.expected_value)
                  (λ e. ltb_int actual e || ltb_int e actual) state_mismatch (λ e. actual ≡ e)
                  (λ e. (
                    same_int actual e,
                    λ same.
                        subst (λ x. (ltb_int actual x || ltb_int x actual) ≡ false) same
                          (not_below actual),
                  )))
          | inr unknown ↦ rw (not_ge, not_le, unknown) (λ x. tt, λ x. refl)
        ]
      ]
    ]

check_assertions-All :
    (actual : ℤ) (xs : List Assertion)
    → (check_assertions actual xs ≡ returned tt) ↔ All (Holds actual) xs
unfolding check_assertions
check_assertions-All actual [] = (λ h. tt, λ h. refl)
check_assertions-All actual (a ∷ rest) = (
  λ h.
      let (u, first, others) =
        >>=-eq-returned (check_assertion actual a) (λ x. check_assertions actual rest) h in
      ((check_assertion-Holds actual a).0 first, (check_assertions-All actual rest).0 others),
  λ (p, ps). rw ((check_assertion-Holds actual a).1 p) ((check_assertions-All actual rest).1 ps),
)

assert_all-AllHold :
    (source : Source) (xs : List Assertion)
    → (assert_all source xs ≡ returned tt) ↔ AllHold xs source
assert_all-AllHold source [] = (λ h. tt, λ h. refl)
assert_all-AllHold source (a ∷ rest) = (
  λ h.
      let (actual, read, held) =
        >>=-eq-returned (actual_value (raw_of source.return_data source.metrics_return_data))
          (λ i. check_assertions i (a ∷ rest)) h in
      (actual, read, (check_assertions-All actual (a ∷ rest)).0 held),
  λ (actual, read, held). rw read ((check_assertions-All actual (a ∷ rest)).1 held),
)

-- The assertions pass exactly where there are none, or where the return data of the simulation (of
-- the payload, where there is no simulation result) reads as an integer and each assertion holds of
-- it: at least, at most or exactly its expected integer. An assertion of another type always passes.
pub validate_assertions-Exact :
    (assertions : List Assertion) (payload : Source) (simulation_result : Option Source)
    → (validate_assertions assertions payload simulation_result ≡ returned tt)
      ↔ AllHold assertions (or_source simulation_result payload)
unfolding validate_assertions
validate_assertions-Exact assertions payload simulation_result =
    assert_all-AllHold (or_source simulation_result payload) assertions
