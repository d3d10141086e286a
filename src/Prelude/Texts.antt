-- ===== src/Prelude/Texts.antt =====
-- Python's `str` as the list of its code points, with the methods that the code calls.
use Prim.Native.Nat.{ℕ, ◌+◌}
use Prim.Native.Char.{code}
use Prim.Native.String.{String}
use mathlib.Core.Path.{◌≡◌, refl}
use mathlib.Core.Bool.{Bool, true, false, ◌&&◌, ◌||◌}
use mathlib.Core.List.{List, [], ◌∷◌, map}
use native.Mathlib.Omega.{arith}
use lirix.Prelude.Tests.{ltb, leb, ◌==◌, if◌then◌else◌}
use lirix.Prelude.Lists.{reverse}

abbrev pub Text : Type 0
Text = List ℕ

-- The code points of a literal.
abbrev pub codes : String → Text
codes String.[] = []
codes (String.◌∷◌ c s) = code c ∷ codes s

unfoldable pub text_eq : Text → Text → Bool
text_eq [] [] = true
text_eq (x ∷ xs) (y ∷ ys) = (x == y) && text_eq xs ys
text_eq _ _ = false

pub text_eq→eq : (s t : Text) → text_eq s t ≡ true → s ≡ t
unfolding text_eq
text_eq→eq [] [] h = refl
text_eq→eq [] (y ∷ ys) h = ground arith
text_eq→eq (x ∷ xs) [] h = ground arith
text_eq→eq (x ∷ xs) (y ∷ ys) h = ground (arith, text_eq→eq xs ys)

pub text_eq_refl : (s : Text) → text_eq s s ≡ true
unfolding text_eq
text_eq_refl [] = refl
text_eq_refl (x ∷ xs) = ground (arith, text_eq_refl xs)

pub text_eq-false_sym : (s t : Text) → text_eq s t ≡ false → text_eq t s ≡ false
text_eq-false_sym s t h = ground (arith, text_eq→eq t s, text_eq_refl s)

-- The order of `str`: by code points.
unfoldable pub text_leb : Text → Text → Bool
text_leb [] t = true
text_leb (x ∷ xs) [] = false
text_leb (x ∷ xs) (y ∷ ys) = ltb x y || ((x == y) && text_leb xs ys)

-- `str.isspace` of one character.
unfoldable pub is_space : ℕ → Bool
is_space c =
    (leb 9 c && leb c 13)
    || (leb 28 c && leb c 32)
    || (c == 133)
    || (c == 160)
    || (c == 5760)
    || (leb 8192 c && leb c 8202)
    || (c == 8232)
    || (c == 8233)
    || (c == 8239)
    || (c == 8287)
    || (c == 12288)

unfoldable pub lstrip : Text → Text
unfolding is_space
lstrip [] = []
lstrip (c ∷ cs) = let rest = lstrip cs in if is_space c then rest else c ∷ cs

unfoldable pub strip : Text → Text
unfolding lstrip
strip s = reverse (lstrip (reverse (lstrip s)))

abbrev pub is_empty : Text → Bool
is_empty [] = true
is_empty (c ∷ cs) = false

-- `x in collection` for a list or a set of texts.
unfoldable pub elem : Text → List Text → Bool
unfolding text_eq
elem s [] = false
elem s (t ∷ ts) = text_eq s t || elem s ts

pub elem_head : (u : Text) (us : List Text) → elem u (u ∷ us) ≡ true
unfolding elem
elem_head u us = ground (arith, text_eq_refl u)

pub elem_tail : (v u : Text) (us : List Text) → elem v us ≡ true → elem v (u ∷ us) ≡ true
unfolding elem
elem_tail v u us h = ground arith

-- `str.lower` on ASCII letters; other characters stay.
abbrev pub lower_char : ℕ → ℕ
lower_char c = if leb b'A' c && leb c b'Z' then c + 32 else c

abbrev pub lower : Text → Text
lower = map lower_char
