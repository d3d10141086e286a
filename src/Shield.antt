-- ===== src/Shield.antt =====
-- StateDeltaValidator of lirix/shield/simulator.py: the assertions on the value that a simulation
-- returned. `int` reads ASCII digits.
use lirix.Prelude.{
  ℕ, zero, suc, ◌+◌, ◌*◌, ◌-◌, Bool, true, false, not, ◌&&◌, ◌||◌, Option, none, some, List, [],
  ◌∷◌, Text, codes, text_eq, strip, hex_value, digit_or_zero, ltb, leb, ◌==◌, Result, returned,
  raised, raise_if, ◌>>=◌, ◌>>◌, if◌then◌else◌,
}
pub mod Laws
mod Tests

pub data ℤ : Type 0 where
  pos negsuc : ℕ → ℤ

-- i < j
abbrev pub ltb_int : ℤ → ℤ → Bool
ltb_int (pos m) (pos n) = ltb m n
ltb_int (pos m) (negsuc n) = false
ltb_int (negsuc m) (pos n) = true
ltb_int (negsuc m) (negsuc n) = ltb n m

abbrev pub negate : ℕ → ℤ
negate zero = pos zero
negate (suc n) = negsuc n

-- A digit of a base; the hexadecimal digits are those of every base up to 16.
abbrev pub below : ℕ → Option ℕ → Option ℕ
below base none = none
below base (some v) = if ltb v base then some v else none

abbrev pub on_digit : Bool → ℕ → Option ℕ → Option ℕ → Option ℕ → Option ℕ
on_digit after c (some v) more underscore = more
on_digit after c none more underscore = if (c == b'_') && after then underscore else none

-- The digits of int(text, base): a number so far, and whether an underscore may follow.
unfoldable pub digits : ℕ → Bool → ℕ → Text → Option ℕ
digits base after n [] = if after then some n else none
digits base after n (c ∷ cs) =
    let digit = below base (hex_value c) in
    let more = digits base true (base * n + digit_or_zero digit) cs in
    let underscore = digits base false n cs in on_digit after c digit more underscore

abbrev pub is_prefix : ℕ → ℕ → Bool
is_prefix a b = (a == b'0') && ((b == b'x') || (b == b'X'))

abbrev pub skip_underscore : Text → Text
skip_underscore [] = []
skip_underscore (c ∷ cs) = if c == b'_' then cs else c ∷ cs

-- The number behind the sign: 0x may stand in front of base 16, with an underscore behind it.
abbrev pub unsigned : ℕ → Text → Option ℕ
unsigned base [] = none
unsigned base (a ∷ []) = digits base false 0 (a ∷ [])
unsigned base (a ∷ b ∷ cs) =
    if (base == 16) && is_prefix a b
    then digits base false 0 (skip_underscore cs)
    else digits base false 0 (a ∷ b ∷ cs)

abbrev pub map_option : {A B : Type 0} → (A → B) → Option A → Option B
map_option f none = none
map_option f (some a) = some (f a)

abbrev pub signed : ℕ → Text → Option ℤ
signed base [] = none
signed base (c ∷ cs) =
    if c == b'-'
    then map_option negate (unsigned base cs)
    else map_option pos (unsigned base (if c == b'+' then cs else c ∷ cs))

-- int(text, base): none where it raises ValueError
unfoldable pub int_of_text : ℕ → Text → Option ℤ
int_of_text base t = signed base (strip t)

-- An assertion: its type and its expected value, whose `int` is none where it raises.
pub data Expected : Type 0 where
  missing not_int : Expected
  number : ℤ → Expected
  written : Text → Expected

pub record Assertion : Type 0 where
  pub assertion_type : Text
  pub expected_value : Expected

-- The value under `return_data`: absent, a text, or something else.
pub data ReturnData : Type 0 where
  no_data other_data : ReturnData
  hex_text : Text → ReturnData

-- What is read of a payload or of a simulation result; the nested `metrics` give no_data where they
-- are no mapping.
pub record Source : Type 0 where
  pub return_data : ReturnData
  pub metrics_return_data : ReturnData

pub data ShieldError : Type 0 where
  return_data_type_invalid return_data_hex_unparseable : ShieldError
  assertion_config_invalid honeypot_detected state_mismatch : ShieldError

abbrev pub Shielded : Type 0 → Type 0
Shielded A = Result ShieldError A

-- The raw return data: of the source, else of its metrics, else "0x".
abbrev pub raw_of : ReturnData → ReturnData → ReturnData
raw_of no_data no_data = hex_text (codes "0x")
raw_of no_data other_data = other_data
raw_of no_data (hex_text t) = hex_text t
raw_of other_data d = other_data
raw_of (hex_text t) d = hex_text t

abbrev pub or_error : {A : Type 0} → ShieldError → Option A → Shielded A
or_error e none = raised e
or_error e (some a) = returned a

abbrev pub actual_value : ReturnData → Shielded ℤ
actual_value no_data = raised return_data_type_invalid
actual_value other_data = raised return_data_type_invalid
actual_value (hex_text t) =
    if text_eq t (codes "0x")
    then returned (pos 0)
    else or_error return_data_hex_unparseable (int_of_text 16 t)

-- int(e_val), behind the test for None
abbrev pub expected_int : Expected → Shielded ℤ
expected_int missing = raised assertion_config_invalid
expected_int not_int = raised assertion_config_invalid
expected_int (number i) = returned i
expected_int (written t) = or_error assertion_config_invalid (int_of_text 10 t)

-- One turn of the loop; an assertion of another type is passed over.
unfoldable pub check_assertion : ℤ → Assertion → Shielded (Unit {0})
check_assertion actual a =
    if text_eq a.assertion_type (codes "return_data_int_ge")
    then (expected_int a.expected_value >>= λ e. raise_if (ltb_int actual e) honeypot_detected)
    else if text_eq a.assertion_type (codes "return_data_int_le")
    then (expected_int a.expected_value >>= λ e. raise_if (ltb_int e actual) state_mismatch)
    else if text_eq a.assertion_type (codes "return_data_exact")
    then (expected_int a.expected_value >>= λ e.
        raise_if (ltb_int actual e || ltb_int e actual) state_mismatch)
    else returned tt

unfoldable pub check_assertions : ℤ → List Assertion → Shielded (Unit {0})
check_assertions actual [] = returned tt
check_assertions actual (a ∷ rest) = check_assertion actual a >> check_assertions actual rest

abbrev pub assert_all : Source → List Assertion → Shielded (Unit {0})
assert_all source [] = returned tt
assert_all source (a ∷ rest) =
    actual_value (raw_of source.return_data source.metrics_return_data) >>= λ actual.
    check_assertions actual (a ∷ rest)

-- A falsy simulation result is none.
abbrev pub or_source : Option Source → Source → Source
or_source none payload = payload
or_source (some s) payload = s

-- StateDeltaValidator.validate
unfoldable pub validate_assertions : List Assertion → Source → Option Source → Shielded (Unit {0})
validate_assertions assertions payload simulation_result =
    assert_all (or_source simulation_result payload) assertions
