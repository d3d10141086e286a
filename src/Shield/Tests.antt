-- ===== src/Shield/Tests.antt =====
-- Runs of StateDeltaValidator in lirix/shield/simulator.py.
use lirix.Prelude.{
  ◌≡◌, ◌↔◌, refl, none, List, [], ◌∷◌, Text, codes, text_eq, strip, lstrip, is_space, returned,
  raised,
}
use lirix.Shield.{
  Assertion, written, Source, hex_text, no_data, digits, int_of_text, honeypot_detected,
  check_assertion, check_assertions, validate_assertions, or_source,
}
use lirix.Shield.Laws.{AllHold, validate_assertions-Exact}

abbrev returned_16 : Source
returned_16 = record { return_data = no_data; metrics_return_data = hex_text (codes "0x1_0") }

abbrev at_least : Text → List Assertion
at_least t =
    (record { assertion_type = codes "return_data_int_ge"; expected_value = written t }) ∷ []

sixteen_is_enough : validate_assertions (at_least (codes " 16 ")) returned_16 none ≡ returned tt
unfolding validate_assertions check_assertions check_assertion int_of_text digits text_eq strip
    lstrip is_space
sixteen_is_enough = refl

sixteen_is_too_little :
    validate_assertions (at_least (codes "17")) returned_16 none ≡ raised honeypot_detected
unfolding validate_assertions check_assertions check_assertion int_of_text digits text_eq strip
    lstrip is_space
sixteen_is_too_little = refl

validate_assertions-Exact_example :
    (validate_assertions (at_least (codes "16")) returned_16 none ≡ returned tt)
    ↔ AllHold (at_least (codes "16")) (or_source none returned_16)
validate_assertions-Exact_example =
    validate_assertions-Exact (at_least (codes "16")) returned_16 none
