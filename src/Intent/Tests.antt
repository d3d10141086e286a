-- ===== src/Intent/Tests.antt =====
-- Runs of lirix/layers/l1_intent_validator.py: a transfer.
use lirix.Prelude.{
  ◌≡◌, ◌↔◌, refl, true, none, some, [], ◌∷◌, Text, codes, text_eq, elem, strip, lstrip, is_space,
  from_hex, from_hex_at, returned, raised,
}
use lirix.Intent.{
  text, Draft, IntentConfig, Outside, intent_selector_mismatch, extract_method_id, intent_selectors,
  reconcile_intent, check_lists, check_name, check_target, validate_intent,
}
use lirix.Intent.Laws.{Accepted}
use lirix.Intent.Exact.{validate_intent-Exact}

abbrev any_address : Outside
any_address = record {
  is_address = λ t. true;
  to_checksum_address = λ t. some t;
  exact_input_selector = 1 ∷ 2 ∷ 3 ∷ 4 ∷ [];
  exact_output_selector = 5 ∷ 6 ∷ 7 ∷ 8 ∷ [];
  hooks = none;
}

abbrev transfers : IntentConfig
transfers = record {
  allowed_intents = codes "transfer" ∷ [];
  allowed_function_names = codes "transfer" ∷ [];
  allowed_to_addresses = codes "t" ∷ [];
}

abbrev calling : Text → Draft
calling data_raw = record {
  function_name = text (codes "transfer");
  to = text (codes "t");
  data_raw = text data_raw;
}

transfer_passes :
    validate_intent any_address transfers (codes "transfer") (calling (codes "0xa9059cbb"))
    ≡ returned tt
unfolding validate_intent check_lists check_name check_target reconcile_intent intent_selectors
    extract_method_id text_eq elem strip lstrip is_space from_hex from_hex_at
transfer_passes = refl

approve_refused :
    validate_intent any_address transfers (codes "transfer") (calling (codes "0x095ea7b3"))
    ≡ raised intent_selector_mismatch
unfolding validate_intent check_lists check_name check_target reconcile_intent intent_selectors
    extract_method_id text_eq elem strip lstrip is_space from_hex from_hex_at
approve_refused = refl

validate_intent-Exact_example :
    (validate_intent any_address transfers (codes "transfer") (calling (codes "0xa9059cbb"))
      ≡ returned tt)
    ↔ Accepted any_address transfers (codes "transfer") (calling (codes "0xa9059cbb"))
validate_intent-Exact_example =
    validate_intent-Exact any_address transfers (codes "transfer") (calling (codes "0xa9059cbb"))
