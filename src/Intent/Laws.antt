-- ===== src/Intent/Laws.antt =====
-- What IntentValidator accepts.
use mathlib.Core.Path.{subst}
use lirix.Prelude.{
  ℕ, ◌<◌, ◌≡◌, ◌⊎◌, inl, inr, refl, sym, Bool, true, false, not, ◌||◌, if_when, Bool-cases,
  text_eq→eq, some_injective, Option, none, some, List, any, length, take, drop, Text, codes,
  text_eq, elem, is_empty, strip, from_hex, ltb, returned, raise_if, ◌>>=◌, ◌>>◌, >>=-eq-returned,
  arith,
}
use lirix.Intent.{
  Field, absent, other, text, Draft, IntentConfig, HookResult, IntentError, Outside, Checked,
  no_texts, is_blocking, raise_if_blocking, required, text_or, some_or, extract_method_id,
  intent_selectors, reconcile_selector, reconcile_allowed, reconcile_intent, run_hooks, check_lists,
  check_name, check_target, validate_intent, intents_empty, intent_not_allowed,
  function_name_not_allowed, to_not_allowed, intent_selector_mismatch, data_invalid_hex,
  hook_failed, hook_blocked, not_an_address, function_name_missing, function_name_invalid,
  to_missing, to_invalid,
}

module _ (outside : Outside) where
  -- The calldata names a selector of the list, or is too short to hold one.
  abbrev pub NamesOneOf : List Text → Field → Type 0
  NamesOneOf allowed absent = Unit
  NamesOneOf allowed other = Unit
  NamesOneOf allowed (text raw) =
      (length raw < 10)
      ⊎ ((blob : Text) × (from_hex (drop 2 raw) ≡ some blob) × (elem (take 4 blob) allowed ≡ true))

  abbrev pub Matches : Option (List Text) → Draft → Type 0
  Matches none draft = Unit
  Matches (some allowed) draft = NamesOneOf allowed draft.data_raw

  abbrev pub Unblocked : Option (Text → Draft → Option (List HookResult)) → Text → Draft → Type 0
  Unblocked none intent draft = Unit
  Unblocked (some invoke) intent draft =
      (rs : List HookResult) × (invoke intent draft ≡ some rs) × (any is_blocking rs ≡ false)

  -- A function name on the list.
  pub record NameAllowed (config : IntentConfig) (f : Field) : Type 0 where
    pub fn : Text
    pub named : f ≡ text fn
    pub given : is_empty (strip fn) ≡ false
    pub listed : elem (strip fn) config.allowed_function_names ≡ true

  -- A valid target whose checksum form is on the list.
  pub record TargetAllowed (config : IntentConfig) (f : Field) : Type 0 where
    pub address : Text
    pub checksum : Text
    pub addressed : f ≡ text address
    pub valid : outside.is_address (strip address) ≡ true
    pub checksummed : outside.to_checksum_address (strip address) ≡ some checksum
    pub listed : elem checksum config.allowed_to_addresses ≡ true

  -- What the guards ask for, with no order among them.
  abbrev pub Accepted : IntentConfig → Text → Draft → Type 0
  Accepted config intent draft =
      (elem intent config.allowed_intents ≡ true)
      × NameAllowed config draft.function_name
      × TargetAllowed config draft.to
      × Matches (intent_selectors outside intent) draft
      × Unblocked outside.hooks intent draft

guard :
    {A : Type 0} (b : Bool) (e : IntentError) (k : Checked A) {a : A}
    → (raise_if b e >> k) ≡ returned a
    → (b ≡ false) × (k ≡ returned a)
guard true e k h = cc
guard false e k h = (refl, h)

guard_not :
    {A : Type 0} (b : Bool) (e : IntentError) (k : Checked A) {a : A}
    → (raise_if (not b) e >> k) ≡ returned a
    → (b ≡ true) × (k ≡ returned a)
guard_not false e k h = cc
guard_not true e k h = (refl, h)

last : (b : Bool) (e : IntentError) → raise_if (not b) e ≡ returned tt → b ≡ true
last false e h = cc
last true e h = refl

abbrev selected : Option Text → Checked (Option Text)
selected s = returned s

selected_injective : {s t : Option Text} → selected s ≡ returned t → s ≡ t
selected_injective e = cc

shorter : (b : Bool) (n : ℕ) → b ≡ false → (b || ltb n 10) ≡ true → n < 10
shorter true n e h = cc
shorter false n e h = ground arith

some_or-returned :
    {A : Type 0} (e : IntentError) (x : Option A) {a : A} → some_or e x ≡ returned a → x ≡ some a
some_or-returned e none h = cc
some_or-returned e (some a) h = cc

text_or-returned : (e : IntentError) (f : Field) {t : Text} → text_or e f ≡ returned t → f ≡ text t
text_or-returned e absent h = cc
text_or-returned e other h = cc
text_or-returned e (text t) h = cc

required-returned : (e : IntentError) (f : Field) {g : Field} → required e f ≡ returned g → f ≡ g
required-returned e absent h = cc
required-returned e other h = cc
required-returned e (text t) h = cc

module _ (outside : Outside) where
  reconcile_selector-NamesOneOf :
      (allowed : List Text) (f : Field)
      → (extract_method_id f >>= reconcile_selector outside allowed) ≡ returned tt
      → NamesOneOf outside allowed f
  unfolding extract_method_id
  reconcile_selector-NamesOneOf allowed absent = λ h. tt
  reconcile_selector-NamesOneOf allowed other = λ h. tt
  reconcile_selector-NamesOneOf allowed (text raw) =
      if_when
        (λ (x : Checked (Option Text)).
          (x >>= reconcile_selector outside allowed) ≡ returned tt
          → NamesOneOf outside allowed (text raw))
        (text_eq raw (codes "0x") || ltb (length raw) 10) _ _ (λ short h. inl (too_short short))
        (λ long h.
          let (sel, e, named) = >>=-eq-returned _ (reconcile_selector outside allowed) h in
          let (blob, decoded, same) =
            >>=-eq-returned (some_or data_invalid_hex (from_hex (drop 2 raw))) _ e in
          inr (blob, some_or-returned _ _ decoded, names sel (take 4 blob) same named))
    where
      names :
          (sel : Option Text) (b : Text)
          → selected (some b) ≡ returned sel
          → reconcile_selector outside allowed sel ≡ returned tt
          → elem b allowed ≡ true
      names none b e h = cc
      names (some s) b e h =
          subst (λ t. elem t allowed ≡ true) (sym (some_injective (selected_injective e)))
            (last (elem s allowed) intent_selector_mismatch h)

      too_short : (text_eq raw (codes "0x") || ltb (length raw) 10) ≡ true → length raw < 10
      too_short h = elim (Bool-cases (text_eq raw (codes "0x"))) [
        | inl empty ↦
            subst (λ t. length t < 10) (sym (text_eq→eq raw (codes "0x") empty)) (omega arith)
        | inr long ↦ shorter (text_eq raw (codes "0x")) (length raw) long h
      ]

  reconcile_intent-Matches :
      (intent : Text) (draft : Draft)
      → reconcile_intent outside intent draft ≡ returned tt
      → Matches outside (intent_selectors outside intent) draft
  unfolding reconcile_intent
  reconcile_intent-Matches intent draft h = matched (intent_selectors outside intent) h
    where
      matched :
          (s : Option (List Text))
          → reconcile_allowed outside s draft ≡ returned tt
          → Matches outside s draft
      matched none h = tt
      matched (some allowed) h = reconcile_selector-NamesOneOf allowed draft.data_raw h

  run_hooks-Unblocked :
      (hooks : Option (Text → Draft → Option (List HookResult))) (intent : Text) (draft : Draft)
      → run_hooks outside hooks intent draft ≡ returned tt
      → Unblocked outside hooks intent draft
  run_hooks-Unblocked none intent draft h = tt
  run_hooks-Unblocked (some invoke) intent draft h =
      let (rs, answered, passed) =
        >>=-eq-returned (some_or hook_failed (invoke intent draft)) raise_if_blocking h in
      (rs, some_or-returned _ _ answered, passes (any is_blocking rs) passed)
    where
      passes : (b : Bool) → raise_if b hook_blocked ≡ returned tt → b ≡ false
      passes true h = cc
      passes false h = refl

  check_lists-listed :
      (config : IntentConfig) (intent : Text)
      → check_lists outside config intent ≡ returned tt
      → elem intent config.allowed_intents ≡ true
  unfolding check_lists
  check_lists-listed config intent h =
      let (some_intent, h1) = guard (no_texts config.allowed_intents) intents_empty _ h in
      let (listed, h2) = guard_not (elem intent config.allowed_intents) intent_not_allowed _ h1 in
      listed

  check_name-NameAllowed :
      (config : IntentConfig) (f : Field)
      → check_name outside config f ≡ returned tt
      → NameAllowed outside config f
  unfolding check_name
  check_name-NameAllowed config f h =
      let (fn, is_fn, h1) = >>=-eq-returned (text_or function_name_invalid f) _ h in
      let (given, h2) = guard (is_empty (strip fn)) function_name_invalid _ h1 in
      let listed =
        last (elem (strip fn) config.allowed_function_names) function_name_not_allowed h2 in
      record { fn = fn; named = text_or-returned _ _ is_fn; given = given; listed = listed }

  check_target-TargetAllowed :
      (config : IntentConfig) (f : Field)
      → check_target outside config f ≡ returned tt
      → TargetAllowed outside config f
  unfolding check_target
  check_target-TargetAllowed config f h =
      let (to, is_to, h1) = >>=-eq-returned (text_or to_invalid f) _ h in
      let (valid, h2) = guard_not (outside.is_address (strip to)) to_invalid _ h1 in
      let (cs, found, h3) =
        >>=-eq-returned (some_or not_an_address (outside.to_checksum_address (strip to))) _ h2 in
      record {
        address = to;
        checksum = cs;
        addressed = text_or-returned _ _ is_to;
        valid = valid;
        checksummed = some_or-returned _ _ found;
        listed = last (elem cs config.allowed_to_addresses) to_not_allowed h3;
      }

  -- A payload that IntentValidator accepts: its intent, its function name and the address of its target
  -- are listed; for an intent with a table of selectors, calldata of ten characters or more begins with
  -- a selector of the table; and no hook blocks it.
  pub validate_intent-Accepted :
      (config : IntentConfig) (intent : Text) (draft : Draft)
      → validate_intent outside config intent draft ≡ returned tt
      → Accepted outside config intent draft
  unfolding validate_intent
  validate_intent-Accepted config intent draft h =
      let (u, lists, h1) = >>=-eq-returned (check_lists outside config intent) _ h in
      let (f, named, h2) =
        >>=-eq-returned (required function_name_missing draft.function_name) _ h1 in
      let (t, targeted, h3) = >>=-eq-returned (required to_missing draft.to) _ h2 in
      let (v, name, h4) = >>=-eq-returned (check_name outside config f) _ h3 in
      let (w, target, h5) = >>=-eq-returned (check_target outside config t) _ h4 in
      let (x, reconciled, h6) = >>=-eq-returned (reconcile_intent outside intent draft) _ h5 in
      (
        check_lists-listed config intent lists,
        subst (NameAllowed outside config) (sym (required-returned _ _ named))
            (check_name-NameAllowed config f name),
        subst (TargetAllowed outside config) (sym (required-returned _ _ targeted))
            (check_target-TargetAllowed config t target),
        reconcile_intent-Matches intent draft reconciled,
        run_hooks-Unblocked outside.hooks intent draft h6,
      )
