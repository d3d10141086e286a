-- ===== src/Intent/Exact.antt =====
-- IntentValidator accepts exactly what its guards ask for.
use mathlib.Core.Path.{subst}
use lirix.Prelude.{
  ℕ, ◌<◌, ◌≡◌, ◌↔◌, inl, inr, refl, sym, Bool, true, false, ◌||◌, if_when, Option, none, some, List,
  [], ◌∷◌, length, Text, codes, text_eq, elem, strip, ltb, returned, ◌>>=◌, arith,
}
use lirix.Intent.{
  Field, absent, other, text, Draft, IntentConfig, HookResult, Outside, Checked, no_texts, required,
  function_name_missing, to_missing, extract_method_id, intent_selectors, reconcile_selector,
  reconcile_allowed, reconcile_intent, run_hooks, check_lists, check_name, check_target,
  validate_intent,
}
use lirix.Intent.Laws.{
  NamesOneOf, Matches, Unblocked, NameAllowed, TargetAllowed, Accepted, validate_intent-Accepted,
}

elem-some : (t : Text) (ts : List Text) → elem t ts ≡ true → no_texts ts ≡ false
unfolding elem
elem-some t [] h = cc
elem-some t (u ∷ us) h = refl

required_text : (e : _) (t : Text) (f : Field) → f ≡ text t → required e f ≡ returned f
required_text e t f h = subst (λ g. required e g ≡ returned g) (sym h) refl

module _ (outside : Outside) where
  check_lists-passes :
      (config : IntentConfig) (intent fn to : Text)
      → elem intent config.allowed_intents ≡ true
      → elem fn config.allowed_function_names ≡ true
      → elem to config.allowed_to_addresses ≡ true
      → check_lists outside config intent ≡ returned tt
  unfolding check_lists
  check_lists-passes config intent fn to i f t =
      rw (elem-some intent _ i, i) (rw (elem-some fn _ f) (rw (elem-some to _ t) refl))

  check_name-passes :
      (config : IntentConfig) (f : Field)
      → NameAllowed outside config f
      → check_name outside config f ≡ returned tt
  unfolding check_name
  check_name-passes config f n = rw n.named (rw (n.given, n.listed) refl)

  check_target-passes :
      (config : IntentConfig) (f : Field)
      → TargetAllowed outside config f
      → check_target outside config f ≡ returned tt
  unfolding check_target
  check_target-passes config f t = rw t.addressed (rw t.valid (rw t.checksummed (rw t.listed refl)))

  reconcile_selector-passes :
      (allowed : List Text) (f : Field)
      → NamesOneOf outside allowed f
      → (extract_method_id f >>= reconcile_selector outside allowed) ≡ returned tt
  unfolding extract_method_id
  reconcile_selector-passes allowed absent n = refl
  reconcile_selector-passes allowed other n = refl
  reconcile_selector-passes allowed (text raw) (inl short) =
      rw (is_short (text_eq raw (codes "0x")) (length raw) short) refl
    where
      is_short : (b : Bool) (n : ℕ) → n < 10 → (b || ltb n 10) ≡ true
      is_short true n h = refl
      is_short false n h = ground arith
  reconcile_selector-passes allowed (text raw) (inr (blob, decoded, listed)) =
      if_when
        (λ (x : Checked (Option Text)). (x >>= reconcile_selector outside allowed) ≡ returned tt)
        (text_eq raw (codes "0x") || ltb (length raw) 10) _ _ (λ short. refl)
        (λ long. rw decoded (rw listed refl))

  reconcile_intent-passes :
      (intent : Text) (draft : Draft)
      → Matches outside (intent_selectors outside intent) draft
      → reconcile_intent outside intent draft ≡ returned tt
  unfolding reconcile_intent
  reconcile_intent-passes intent draft h = passes (intent_selectors outside intent) h
    where
      passes :
          (s : Option (List Text))
          → Matches outside s draft
          → reconcile_allowed outside s draft ≡ returned tt
      passes none h = refl
      passes (some allowed) h = reconcile_selector-passes allowed draft.data_raw h

  run_hooks-passes :
      (hooks : Option (Text → Draft → Option (List HookResult))) (intent : Text) (draft : Draft)
      → Unblocked outside hooks intent draft
      → run_hooks outside hooks intent draft ≡ returned tt
  run_hooks-passes none intent draft h = refl
  run_hooks-passes (some invoke) intent draft (rs, answered, free) = rw answered (rw free refl)

  accepted :
      (config : IntentConfig) (intent : Text) (draft : Draft)
      → Accepted outside config intent draft
      → validate_intent outside config intent draft ≡ returned tt
  unfolding validate_intent
  accepted config intent draft (i, n, t, m, u) =
      rw (check_lists-passes config intent (strip n.fn) t.checksum i n.listed t.listed) (
        rw (required_text function_name_missing n.fn _ n.named) (
          rw (required_text to_missing t.address _ t.addressed) (
            rw (check_name-passes config _ n) (
              rw (check_target-passes config _ t) (
                rw (reconcile_intent-passes intent draft m)
                  (run_hooks-passes outside.hooks intent draft u))))))

  -- IntentValidator accepts a payload exactly where its intent, its function name and the address of
  -- its target are listed; where, for an intent with a table of selectors, calldata of ten characters or
  -- more begins with a selector of the table; and where the hooks answer and none blocks.
  pub validate_intent-Exact :
      (config : IntentConfig) (intent : Text) (draft : Draft)
      → (validate_intent outside config intent draft ≡ returned tt)
        ↔ Accepted outside config intent draft
  validate_intent-Exact config intent draft =
      (validate_intent-Accepted outside config intent draft, accepted config intent draft)
