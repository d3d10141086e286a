-- ===== src/Taxonomy/Laws.antt =====
-- Theorems on the canonical codes.
use lirix.Prelude.{
  ◌≡◌, refl, Bool, true, false, not, ◌&&◌, Option, none, some, List, Text, Dict, strip, elem, get,
  is_empty, all, [], ◌∷◌, &&_true, lstrip, is_space, text_eq, value_or, if◌then◌else◌, if_of,
  Bool-cases, inl, inr, lower, arith,
}
use lirix.Taxonomy.{
  canonicalize_error_code, canonicalize_reason_code, canonicalize_failure_type, reason_of_error,
  failure_of_reason, canonical_error_code_known, agent_feedback_reason_known, failure_types,
  agent_feedback_reason_code_map, reason_code_fallback_from_error, canonical_failure_type_map,
  reason_to_failure_type, legacy_to_canonical_error_code, legacy_error, reason_timeout,
  is_reason_token, reason_unknown, failure_unknown,
}
use lirix.Taxonomy.Table.{lookup_reason_taxon, hook_err_timeout, retry_allowed_for_hook_error_code}

-- A lookup with a default passes a test that the default and every value of the table pass.
pub value_or-get {ℓ} :
    {V : Type ℓ} (test : V → Bool) (k : Text) (d : V) (t : Dict V)
    → all (λ e. test e.1) t ≡ true
    → test d ≡ true
    → test (value_or (get k t) d) ≡ true
unfolding get
value_or-get test k d [] h p = p
value_or-get test k d ((j, v) ∷ t) h p =
    let (hv, ht) = &&_true (test v) (all (λ e. test e.1) t) h in
    elim (Bool-cases (text_eq j k)) [
      | inl e ↦ rw e hv
      | inr e ↦ rw e (value_or-get test k d t ht p)
    ]

-- A token that is kept if it is known, and replaced by a known one if not.
known_or :
    (x d : Text) (known : List Text)
    → elem d known ≡ true
    → elem (if true && not (elem x known) then d else x) known ≡ true
known_or x d known h = elim (Bool-cases (elem x known)) [ inl e ↦ rw e e | inr e ↦ rw e h ]

not-true : {b : Bool} → not b ≡ true → b ≡ false
not-true h = ground arith

abbrev IsIn : List Text → Text → Type 0
IsIn known t = elem t known ≡ true

error_known : (raw : Text) → IsIn canonical_error_code_known (canonicalize_error_code raw true)
unfolding canonicalize_error_code elem text_eq
error_known raw =
    if_of (IsIn canonical_error_code_known) (is_empty (strip raw)) legacy_error
      (if true
          && not (
              elem (value_or (get (strip raw) legacy_to_canonical_error_code) (strip raw))
                canonical_error_code_known)
        then legacy_error
        else value_or (get (strip raw) legacy_to_canonical_error_code) (strip raw))
      refl
      (known_or (value_or (get (strip raw) legacy_to_canonical_error_code) (strip raw)) legacy_error
        canonical_error_code_known refl)

reason_of_error_known :
    (code : Option Text) → IsIn agent_feedback_reason_known (reason_of_error code)
unfolding reason_of_error elem text_eq
reason_of_error_known none = refl
reason_of_error_known (some code) =
    value_or-get (λ t. elem t agent_feedback_reason_known) (canonicalize_error_code code false)
      reason_unknown reason_code_fallback_from_error refl refl

reason_known :
    (raw : Text) (code : Option Text)
    → IsIn agent_feedback_reason_known (canonicalize_reason_code raw code true)
unfolding canonicalize_reason_code elem text_eq
reason_known raw code =
    if_of (IsIn agent_feedback_reason_known) (is_reason_token (strip raw)) _ _
      (known_or (strip raw) reason_unknown agent_feedback_reason_known refl)
      (value_or-get (λ t. elem t agent_feedback_reason_known) (lower (strip raw))
        (reason_of_error code) agent_feedback_reason_code_map refl (reason_of_error_known code))

failure_of_reason_known : (reason : Option Text) → IsIn failure_types (failure_of_reason reason)
unfolding failure_of_reason elem text_eq
failure_of_reason_known none = refl
failure_of_reason_known (some reason) =
    value_or-get (λ t. elem t failure_types) (canonicalize_reason_code reason none false)
      failure_unknown reason_to_failure_type refl refl

failure_known :
    (raw : Text) (reason : Option Text) → IsIn failure_types (canonicalize_failure_type raw reason)
unfolding canonicalize_failure_type elem text_eq
failure_known raw reason =
    value_or-get (λ t. elem t failure_types) (lower (strip raw)) (failure_of_reason reason)
      canonical_failure_type_map refl (failure_of_reason_known reason)

-- The three answers of one input lie in the three tables of codes.
pub record IsCanonical (raw : Text) (fallback : Option Text) : Type 0 where
  pub error_code : elem (canonicalize_error_code raw true) canonical_error_code_known ≡ true
  pub reason_code :
      elem (canonicalize_reason_code raw fallback true) agent_feedback_reason_known ≡ true
  pub failure_type : elem (canonicalize_failure_type raw fallback) failure_types ≡ true

-- Whatever text is given: the strict error code is one of the known error codes, the strict reason
-- code is one of the known reasons, and the failure type is one of the failure types, whether a
-- fallback code is given or not.
pub canonicalize-IsCanonical : (raw : Text) (fallback : Option Text) → IsCanonical raw fallback
canonicalize-IsCanonical raw fallback = record {
  error_code = error_known raw;
  reason_code = reason_known raw fallback;
  failure_type = failure_known raw fallback;
}

abbrev forbids : Text → Bool
forbids reason = not (lookup_reason_taxon reason).retry_allowed

fallbacks_forbid : all (λ e. forbids e.1) reason_code_fallback_from_error ≡ true
unfolding lookup_reason_taxon text_eq strip lstrip is_space get
fallbacks_forbid = refl

unknown_forbids : forbids reason_unknown ≡ true
unfolding lookup_reason_taxon text_eq strip lstrip is_space get
unknown_forbids = refl

timeout_retries : (lookup_reason_taxon reason_timeout).retry_allowed ≡ true
unfolding lookup_reason_taxon text_eq strip lstrip is_space get
timeout_retries = refl

-- The reasons that an error code falls back to forbid a retry.
fallback_forbids :
    (code : Text) → (lookup_reason_taxon (reason_of_error (some code))).retry_allowed ≡ false
unfolding reason_of_error
fallback_forbids code = not-true (
    value_or-get forbids (canonicalize_error_code code false) reason_unknown
      reason_code_fallback_from_error fallbacks_forbid unknown_forbids)

empty_reason :
    (code : Text) → canonicalize_reason_code [] (some code) false ≡ reason_of_error (some code)
unfolding canonicalize_reason_code text_eq strip lstrip get
empty_reason code = refl

-- Among the error codes of hooks, a time-out is retryable and nothing else.
pub retry_allowed-eq :
    (code : Text) → retry_allowed_for_hook_error_code code ≡ text_eq (strip code) hook_err_timeout
unfolding retry_allowed_for_hook_error_code
retry_allowed-eq code = elim (Bool-cases (text_eq (strip code) hook_err_timeout)) [
  | inl e ↦ rw e timeout_retries
  | inr e ↦ rw (e, empty_reason (strip code)) (fallback_forbids (strip code))
]
