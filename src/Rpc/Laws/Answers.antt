-- ===== src/Rpc/Laws/Answers.antt =====
-- Whose result quorum_eth_call of lirix/layers/l4_rpc_manager.py returns.
use mathlib.Core.Path.{subst}
use lirix.Prelude.{
  ◌≡◌, refl, sym, ap, ◌∙◌, Bool, true, false, Bool-cases, if_when, inl, inr, Option, none, some,
  List, [], ◌∷◌, Text, text_eq, text_eq→eq, text_eq_refl, All, Result, returned, >>=-eq-returned,
  if◌then◌else◌,
}
use lirix.Rpc.Quorum.{
  QuorumError, Vote, gather_calls, gather_digests, or_not_serializable, raw_result,
}
use lirix.Rpc.Laws.Votes.{voters}

if_same {ℓ} : {A : Type ℓ} (b : Bool) (a : A) → (if b then a else a) ≡ a
if_same true a = refl
if_same false a = refl

abbrev results : {A : Type 0} → List A → Result QuorumError (List A)
results xs = returned xs

pub list_injective : {A : Type 0} {xs ys : List A} → results xs ≡ returned ys → xs ≡ ys
list_injective e = cc

module _ {Value : Type 0} (hash_result : Value → Option Text)
    (ask : Text → Result QuorumError Value) where
  -- A url gives a value, and the hash of the value is the digest.
  abbrev pub Gives : Text → Text → Value → Type 0
  Gives u d x = (ask u ≡ returned x) × (hash_result x ≡ some d)

  abbrev pub Cast : Vote Value → Type 0
  Cast v = Gives v.url v.digest v.value

  abbrev pub Asked : Text × Value → Type 0
  Asked r = ask r.0 ≡ returned r.1

  pub gather_calls-Asked :
      (us : List Text) (rs : List (Text × Value))
      → gather_calls hash_result ask us ≡ returned rs
      → All Asked rs
  unfolding gather_calls
  gather_calls-Asked [] rs e = subst (All Asked) (list_injective e) tt
  gather_calls-Asked (u ∷ us) rs e =
      let (v, there, e1) = >>=-eq-returned (ask u) _ e in
      let (rest, more, e2) = >>=-eq-returned (gather_calls hash_result ask us) _ e1 in
      subst (All Asked) (list_injective e2) (there, gather_calls-Asked us rest more)

  digest_eq :
      (o : Option Text) (d : Text) → or_not_serializable hash_result o ≡ returned d → o ≡ some d
  digest_eq none d e = cc
  digest_eq (some c) d e = cc

  pub gather_digests-Cast :
      (rs : List (Text × Value)) (vs : List (Vote Value))
      → gather_digests hash_result rs ≡ returned vs
      → All Asked rs
      → All Cast vs
  unfolding gather_digests
  gather_digests-Cast [] vs e asked = subst (All Cast) (list_injective e) tt
  gather_digests-Cast ((u, v) ∷ rs) vs e (first, asked) =
      let (d, there, e1) = >>=-eq-returned (or_not_serializable hash_result (hash_result v)) _ e in
      let (rest, more, e2) = >>=-eq-returned (gather_digests hash_result rs) _ e1 in
      subst (All Cast) (list_injective e2)
        ((first, digest_eq (hash_result v) d there), gather_digests-Cast rs rest more asked)

  same_value : {u : Text} {x y : Value} → ask u ≡ returned x → ask u ≡ returned y → x ≡ y
  same_value h k = cc

  -- The last result of a url is what the url gives.
  raw-Gives :
      (u d : Text) (x : Value) (vs : List (Vote Value))
      → Gives u d x
      → All Cast vs
      → Gives u d (raw_result hash_result u x vs)
  unfolding raw_result
  raw-Gives u d x [] gives cast = gives
  raw-Gives u d x (v ∷ vs) gives ((asked, hashed), cast) =
      raw-Gives u d (if text_eq v.url u then v.value else x) vs
        (if_when (Gives u d) (text_eq v.url u) v.value x
          (λ same. subst (Gives u d) (same_value gives.0 (of_url same asked)) gives)
          (λ other. gives))
        cast
    where
      of_url : text_eq v.url u ≡ true → ask v.url ≡ returned v.value → ask u ≡ returned v.value
      of_url same h = ap ask (sym (text_eq→eq v.url u same)) ∙ h

  pub raw-voter :
      (u d : Text) (us : List Text) (x : Value) (vs : List (Vote Value))
      → voters d vs ≡ u ∷ us
      → All Cast vs
      → Gives u d (raw_result hash_result u x vs)
  unfolding raw_result voters
  raw-voter u d us x [] behind cast = cc
  raw-voter u d us x (v ∷ vs) behind ((asked, hashed), cast) =
      elim (Bool-cases (text_eq v.digest d)) [
        | inl same ↦ voted same
        | inr other ↦
            raw-voter u d us (if text_eq v.url u then v.value else x) vs (later other behind) cast
      ]
    where
      later :
          text_eq v.digest d ≡ false
          → (if text_eq v.digest d then v.url ∷ voters d vs else voters d vs) ≡ u ∷ us
          → voters d vs ≡ u ∷ us
      later other h = cc

      head_url :
          text_eq v.digest d ≡ true
          → (if text_eq v.digest d then v.url ∷ voters d vs else voters d vs) ≡ u ∷ us
          → v.url ≡ u
      head_url same h = cc

      voted : text_eq v.digest d ≡ true → Gives u d (raw_result hash_result u x (v ∷ vs))
      voted same =
          let is_u = head_url same behind in
          let its : Gives u d v.value =
            (ap ask (sym is_u) ∙ asked, hashed ∙ ap some (text_eq→eq v.digest d same)) in
          rw (ap (λ w. text_eq w u) is_u ∙ text_eq_refl u) (raw-Gives u d v.value vs its cast)
