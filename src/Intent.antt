-- ===== src/Intent.antt =====
-- lirix/layers/l1_intent_validator.py: the guards of IntentValidator on an intent and its payload,
-- with the tables of selectors of lirix/core/signatures.py.
use lirix.Prelude.{
  ℕ, Bool, true, false, not, ◌&&◌, ◌||◌, Option, none, some, List, [], ◌∷◌, any, length, take, drop,
  Text, codes, text_eq, elem, is_empty, strip, from_hex, ltb, Result, returned, raised, raise_if,
  ◌>>=◌, ◌>>◌, if◌then◌else◌,
}
use lirix.Defi.Types.{
  aggregate3_selector, aggregate3_value_selector, swap_exact_tokens_for_tokens_selector,
  swap_exact_eth_for_tokens_selector, swap_exact_tokens_for_eth_selector, moe_swap_selector,
}
pub mod Laws
pub mod Exact
mod Tests

-- An entry of the payload.
pub data Field : Type 0 where
  absent other : Field
  text : Text → Field

pub record Draft : Type 0 where
  pub function_name : Field
  pub to : Field
  pub data_raw : Field

-- The fields of LirixConfig that are read.
pub record IntentConfig : Type 0 where
  pub allowed_intents : List Text
  pub allowed_function_names : List Text
  pub allowed_to_addresses : List Text

-- What a hook answers: its `ok` and its `failure_level`.
pub record HookResult : Type 0 where
  pub ok : Bool
  pub failure_level : Text

-- The reasons of InvalidIntentException; `hook_blocked` is a HookExecutionException, and
-- `hook_failed` and `not_an_address` are exceptions that pass through.
pub data IntentError : Type 0 where
  intents_empty intent_not_allowed names_empty addresses_empty : IntentError
  function_name_missing to_missing function_name_invalid function_name_not_allowed : IntentError
  to_invalid to_not_allowed data_invalid_hex intent_selector_mismatch : IntentError
  hook_blocked hook_failed not_an_address : IntentError

-- web3, the two hashed selectors, and the hook manager: none where there is none, and its answers
-- are none where it raises.
pub record Outside : Type 0 where
  pub is_address : Text → Bool
  pub to_checksum_address : Text → Option Text
  pub exact_input_selector : Text
  pub exact_output_selector : Text
  pub hooks : Option (Text → Draft → Option (List HookResult))

abbrev pub Checked : Type 0 → Type 0
Checked A = Result IntentError A

abbrev pub erc20_transfer_selector : Text
erc20_transfer_selector = 169 ∷ 5 ∷ 156 ∷ 187 ∷ []

abbrev pub no_texts : List Text → Bool
no_texts [] = true
no_texts (t ∷ ts) = false

-- item is a blocking hook result
abbrev pub is_blocking : HookResult → Bool
is_blocking r = not r.ok && text_eq r.failure_level (codes "fatal")

-- _first_blocking_hook_result and _raise_if_blocking_hook_on_payload
abbrev pub raise_if_blocking : List HookResult → Checked (Unit {0})
raise_if_blocking rs = raise_if (any is_blocking rs) hook_blocked

-- payload[key]
abbrev pub required : IntentError → Field → Checked Field
required e absent = raised e
required e other = returned other
required e (text t) = returned (text t)

abbrev pub text_or : IntentError → Field → Checked Text
text_or e (text t) = returned t
text_or e other = raised e
text_or e absent = raised e

abbrev pub some_or : {A : Type 0} → IntentError → Option A → Checked A
some_or e none = raised e
some_or e (some a) = returned a

-- _extract_method_id
unfoldable pub extract_method_id : Field → Checked (Option Text)
extract_method_id absent = returned none
extract_method_id other = returned none
extract_method_id (text raw) =
    if text_eq raw (codes "0x") || ltb (length raw) 10
    then returned none
    else (some_or data_invalid_hex (from_hex (drop 2 raw)) >>= λ blob.
        returned (some (take 4 blob)))

module _ (outside : Outside) where
  -- INTENT_TO_ALLOWED_SELECTORS
  abbrev pub swap_selectors : List Text
  swap_selectors =
      swap_exact_tokens_for_tokens_selector ∷ swap_exact_eth_for_tokens_selector
      ∷ swap_exact_tokens_for_eth_selector ∷ outside.exact_input_selector
      ∷ outside.exact_output_selector ∷ moe_swap_selector ∷ aggregate3_selector
      ∷ aggregate3_value_selector ∷ []

  unfoldable pub intent_selectors : Text → Option (List Text)
  intent_selectors intent =
      if text_eq intent (codes "swap")
      then some swap_selectors
      else if text_eq intent (codes "transfer")
      then some (erc20_transfer_selector ∷ [])
      else none

  abbrev pub reconcile_selector : List Text → Option Text → Checked (Unit {0})
  reconcile_selector allowed none = returned tt
  reconcile_selector allowed (some sel) = raise_if (not (elem sel allowed)) intent_selector_mismatch

  abbrev pub reconcile_allowed : Option (List Text) → Draft → Checked (Unit {0})
  reconcile_allowed none draft = returned tt
  reconcile_allowed (some allowed) draft =
      extract_method_id draft.data_raw >>= reconcile_selector allowed

  -- _reconcile_intent_with_method_id
  unfoldable pub reconcile_intent : Text → Draft → Checked (Unit {0})
  reconcile_intent intent draft = reconcile_allowed (intent_selectors intent) draft

  abbrev pub run_hooks :
      Option (Text → Draft → Option (List HookResult)) → Text → Draft → Checked (Unit {0})
  run_hooks none intent draft = returned tt
  run_hooks (some invoke) intent draft =
      some_or hook_failed (invoke intent draft) >>= raise_if_blocking

  -- The guards of validate on the intent and on the lists of the configuration.
  unfoldable pub check_lists : IntentConfig → Text → Checked (Unit {0})
  check_lists config intent = do
    raise_if (no_texts config.allowed_intents) intents_empty
    raise_if (not (elem intent config.allowed_intents)) intent_not_allowed
    raise_if (no_texts config.allowed_function_names) names_empty
    raise_if (no_texts config.allowed_to_addresses) addresses_empty

  -- Those on the function name.
  unfoldable pub check_name : IntentConfig → Field → Checked (Unit {0})
  check_name config fn_raw = do
    fn ← text_or function_name_invalid fn_raw
    raise_if (is_empty (strip fn)) function_name_invalid
    raise_if (not (elem (strip fn) config.allowed_function_names)) function_name_not_allowed

  -- Those on the target.
  unfoldable pub check_target : IntentConfig → Field → Checked (Unit {0})
  check_target config raw_to = do
    to ← text_or to_invalid raw_to
    raise_if (not (outside.is_address (strip to))) to_invalid
    to_cs ← some_or not_an_address (outside.to_checksum_address (strip to))
    raise_if (not (elem to_cs config.allowed_to_addresses)) to_not_allowed

  -- IntentValidator.validate
  unfoldable pub validate_intent : IntentConfig → Text → Draft → Checked (Unit {0})
  validate_intent config intent draft = do
    check_lists config intent
    fn ← required function_name_missing draft.function_name
    raw_to ← required to_missing draft.to
    check_name config fn
    check_target config raw_to
    reconcile_intent intent draft
    run_hooks outside.hooks intent draft
