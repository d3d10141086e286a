-- ===== src/Shadow/Enforced.antt =====
-- The enforcements of ShadowAuditor in lirix/layers/l5_shadow_auditor.py: slippage, selectors, names.
use native.Mathlib.Nat.{div-lt_iff_lt-mul}
use lirix.Prelude.{
  ℕ, suc, ◌+◌, ◌*◌, ◌/◌, ◌<◌, ◌≡◌, refl, sym, ap, ◌∙◌, Bool, true, false, not, ◌&&◌, ◌||◌, Option,
  none, some, List, Text, codes, take, length, lower, strip, elem, leb, ltb, arith, returned,
  raise_if, if◌then◌else◌, zero, if_when,
}
use lirix.Intent.{Field, absent, other, text}
use lirix.Shield.{pos, ltb_int, negate}
use lirix.Shield.Laws.{AtMost}
use lirix.Shadow.{
  Metric, no_metric, not_a_number, not_finite, measured, fraction, truncated, starts_with_0x,
  ShadowError, slippage_exceeded, selector_of, names_forbidden, read_metric, check_limit,
}

-- A slippage that was measured is a number: an integer that is at most the limit, or a float that is
-- less than the limit and one.
abbrev pub WithinLimit : Option ℕ → Metric → Type 0
WithinLimit none m = Unit
WithinLimit (some most) no_metric = Unit
WithinLimit (some most) not_a_number = ⊥
WithinLimit (some most) not_finite = ⊥
WithinLimit (some most) (measured i) = AtMost i (pos most)
WithinLimit (some most) (fraction true n d) = Unit
WithinLimit (some most) (fraction false n d) = n < (most + 1) * suc d

-- The same of what a simulation reports: its own value, or else that of its nested metrics.
abbrev pub ReportWithin : Option ℕ → Metric → Metric → Type 0
ReportWithin limit no_metric nested = WithinLimit limit nested
ReportWithin limit own nested = WithinLimit limit own

-- The selector of the calldata, in lower case, is not in the list; calldata without one counts as
-- "0x".
abbrev pub SelectorFree : List Text → Field → Type 0
SelectorFree forbidden absent = elem (codes "0x") forbidden ≡ false
SelectorFree forbidden other = elem (codes "0x") forbidden ≡ false
SelectorFree forbidden (text t) =
    ((starts_with_0x t && leb 10 (length t)) ≡ true → elem (lower (take 10 t)) forbidden ≡ false)
    × ((starts_with_0x t && leb 10 (length t)) ≡ false → elem (codes "0x") forbidden ≡ false)

-- A function name that is a text, without the spaces around it, is not in the list.
abbrev pub NameFree : List Text → Field → Type 0
NameFree forbidden absent = Unit
NameFree forbidden other = Unit
NameFree forbidden (text t) = elem (strip t) forbidden ≡ false

pub selector-SelectorFree :
    (forbidden : List Text) (f : Field)
    → elem (selector_of f) forbidden ≡ false
    → SelectorFree forbidden f
selector-SelectorFree forbidden absent h = h
selector-SelectorFree forbidden other h = h
selector-SelectorFree forbidden (text t) h =
    ((λ long. long_case long h), λ short. short_case short h)
  where
    Listed : Text → Type 0
    Listed s = elem s forbidden ≡ false

    long_case :
        (starts_with_0x t && leb 10 (length t)) ≡ true
        → elem (selector_of (text t)) forbidden ≡ false
        → elem (lower (take 10 t)) forbidden ≡ false
    long_case long h =
        sym (ap (λ b. elem (if b then lower (take 10 t) else codes "0x") forbidden) long) ∙ h

    short_case :
        (starts_with_0x t && leb 10 (length t)) ≡ false
        → elem (selector_of (text t)) forbidden ≡ false
        → elem (codes "0x") forbidden ≡ false
    short_case short h =
        sym (ap (λ b. elem (if b then lower (take 10 t) else codes "0x") forbidden) short) ∙ h

pub name-NameFree :
    (forbidden : List Text) (f : Field) → names_forbidden forbidden f ≡ false → NameFree forbidden f
name-NameFree forbidden absent h = tt
name-NameFree forbidden other h = tt
name-NameFree forbidden (text t) h = h

pub passed : (b : Bool) (e : ShadowError) → raise_if b e ≡ returned tt → b ≡ false
passed true e h = cc
passed false e h = refl

pub listed : (b : Bool) (e : ShadowError) → raise_if (not b) e ≡ returned tt → b ≡ true
listed false e h = cc
listed true e h = refl

pub neither : (a b : Bool) → (a || b) ≡ false → (a ≡ false) × (b ≡ false)
neither true b h = cc
neither false b h = (refl, h)

pub check_limit-WithinLimit :
    (most : Option ℕ) (m : Metric) → check_limit most m ≡ returned tt → WithinLimit most m
check_limit-WithinLimit none m h = tt
check_limit-WithinLimit (some most) no_metric h = tt
check_limit-WithinLimit (some most) not_a_number h = cc
check_limit-WithinLimit (some most) not_finite h = cc
check_limit-WithinLimit (some most) (measured i) h =
    passed (ltb_int (pos most) i) slippage_exceeded h
check_limit-WithinLimit (some most) (fraction true n d) h = tt
check_limit-WithinLimit (some most) (fraction false n d) h =
    (div-lt_iff_lt-mul (omega arith)).0
      (below (n / suc d) (passed (ltb_int (pos most) (truncated false n d)) slippage_exceeded h))
  where
    below : (q : ℕ) → ltb most q ≡ false → q < most + 1
    below q e = ground arith

pub WithinLimit-check_limit :
    (most : Option ℕ) (m : Metric) → WithinLimit most m → check_limit most m ≡ returned tt
WithinLimit-check_limit none m h = refl
WithinLimit-check_limit (some most) no_metric h = refl
WithinLimit-check_limit (some most) not_a_number h = absurd h
WithinLimit-check_limit (some most) not_finite h = absurd h
WithinLimit-check_limit (some most) (measured i) h = ap (λ b. raise_if b slippage_exceeded) h
WithinLimit-check_limit (some most) (fraction true n d) h =
    ap (λ b. raise_if b slippage_exceeded) (small (n / suc d))
  where
    small : (q : ℕ) → ltb_int (pos most) (negate q) ≡ false
    small zero = ground arith
    small (suc q) = refl
WithinLimit-check_limit (some most) (fraction false n d) h =
    ap (λ b. raise_if b slippage_exceeded)
      (small (n / suc d) ((div-lt_iff_lt-mul {x = n} {y = most + 1} (omega arith)).1 h))
  where
    small : (q : ℕ) → q < most + 1 → ltb most q ≡ false
    small q l = ground arith

pub ReportWithin-limit :
    (limit : Option ℕ) (own nested : Metric)
    → ReportWithin limit own nested
    → WithinLimit limit (read_metric own nested)
ReportWithin-limit limit no_metric nested h = h
ReportWithin-limit limit not_a_number nested h = h
ReportWithin-limit limit not_finite nested h = h
ReportWithin-limit limit (measured i) nested h = h
ReportWithin-limit limit (fraction negative n d) nested h = h

pub SelectorFree-selector :
    (forbidden : List Text) (f : Field)
    → SelectorFree forbidden f
    → elem (selector_of f) forbidden ≡ false
SelectorFree-selector forbidden absent h = h
SelectorFree-selector forbidden other h = h
SelectorFree-selector forbidden (text t) (long, short) =
    if_when (λ s. elem s forbidden ≡ false) (starts_with_0x t && leb 10 (length t))
      (lower (take 10 t)) (codes "0x") long short

pub NameFree-name :
    (forbidden : List Text) (f : Field) → NameFree forbidden f → names_forbidden forbidden f ≡ false
NameFree-name forbidden absent h = refl
NameFree-name forbidden other h = refl
NameFree-name forbidden (text t) h = h

pub limit-ReportWithin :
    (limit : Option ℕ) (own nested : Metric)
    → WithinLimit limit (read_metric own nested)
    → ReportWithin limit own nested
limit-ReportWithin limit no_metric nested h = h
limit-ReportWithin limit not_a_number nested h = h
limit-ReportWithin limit not_finite nested h = h
limit-ReportWithin limit (measured i) nested h = h
limit-ReportWithin limit (fraction negative n d) nested h = h
