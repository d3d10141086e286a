-- ===== src/Prelude/Hex.antt =====
-- Hexadecimal texts: bytes.fromhex, bytes.hex and int(t, 16). Bytes are numbers below 256.
use Prim.Native.Nat.{ℕ, ◌+◌, ◌-◌, ◌*◌, ◌/◌, ◌%◌}
use mathlib.Core.Bool.{Bool, ◌&&◌, ◌||◌}
use mathlib.Core.Option.{Option, none, some}
use mathlib.Core.List.{[], ◌∷◌}
use lirix.Prelude.Tests.{ltb, leb, ◌==◌, if◌then◌else◌}
use lirix.Prelude.Texts.{Text}

-- The state of bytes.fromhex: between two bytes, after the first digit of one, or failed.
pub data Pending : Type 0 where
  idle bad : Pending
  half : ℕ → Pending

abbrev pub is_ascii_space : ℕ → Bool
is_ascii_space c = (c == 32) || (leb 9 c && leb c 13)

abbrev pub hex_value : ℕ → Option ℕ
hex_value c =
    if leb b'0' c && leb c b'9'
    then some (c - b'0')
    else if leb b'a' c && leb c b'f'
    then some (c - b'a' + 10)
    else if leb b'A' c && leb c b'F'
    then some (c - b'A' + 10)
    else none

abbrev pub first_digit : Option ℕ → Pending
first_digit none = bad
first_digit (some v) = half v

abbrev pub second_digit : Option ℕ → Pending
second_digit none = bad
second_digit (some v) = idle

abbrev pub after_char : Pending → ℕ → Pending
after_char idle c = if is_ascii_space c then idle else first_digit (hex_value c)
after_char (half h) c = second_digit (hex_value c)
after_char bad c = bad

abbrev pub with_byte : ℕ → Option ℕ → Option Text → Option Text
with_byte h (some v) (some bs) = some ((16 * h + v) ∷ bs)
with_byte h _ _ = none

abbrev pub emit : Pending → ℕ → Option Text → Option Text
emit (half h) c rest = with_byte h (hex_value c) rest
emit _ c rest = rest

abbrev pub at_end : Pending → Option Text
at_end idle = some []
at_end _ = none

unfoldable pub from_hex_at : Pending → Text → Option Text
from_hex_at p [] = at_end p
from_hex_at p (c ∷ cs) = let rest = from_hex_at (after_char p c) cs in emit p c rest

-- bytes.fromhex
unfoldable pub from_hex : Text → Option Text
from_hex t = from_hex_at idle t

abbrev pub hex_digit : ℕ → ℕ
hex_digit v = if ltb v 10 then b'0' + v else b'a' + (v - 10)

-- bytes.hex
unfoldable pub to_hex : Text → Text
to_hex [] = []
to_hex (b ∷ bs) = hex_digit (b / 16) ∷ hex_digit (b % 16) ∷ to_hex bs

-- t[2:] where t starts with 0x
abbrev pub without_0x : Text → Text
without_0x (a ∷ b ∷ cs) = if (a == b'0') && (b == b'x') then cs else a ∷ b ∷ cs
without_0x t = t

abbrev pub digit_or_zero : Option ℕ → ℕ
digit_or_zero none = 0
digit_or_zero (some v) = v

unfoldable pub hex_number : ℕ → Text → ℕ
hex_number n [] = n
hex_number n (c ∷ cs) = hex_number (16 * n + digit_or_zero (hex_value c)) cs

-- int(t, 16), for a text of digits behind 0x
unfoldable pub int_16 : Text → ℕ
int_16 t = hex_number 0 (without_0x t)
