-- ===== src/Shadow/Laws.antt =====
-- What ShadowAuditor lets pass, and which policies it trusts.
use mathlib.Core.Path.{subst}
use lirix.Prelude.{
  ◌≡◌, ◌⊎◌, inl, inr, refl, sym, Bool, true, false, not, ◌&&◌, if_of, Option, none, some, List, [],
  ◌∷◌, Text, codes, text_eq, text_eq→eq, is_empty, returned, raise_if, ◌>>◌, >>=-eq-returned,
}
use lirix.Shadow.{
  Policy, PolicyVersion, PolicyBundle, PolicySource, mapping, policy_status, policy_integrity,
  lifecycle_mode_override, ShadowError, Audited, Digests, default_version, or_first, find_version,
  is_version, find_named, or_version, select_version, select_bundle_version, named_rollback,
  rolled_back, declared_digest, integrity_enforced, or_schema_invalid, verify_policy_integrity,
  check_version, base_policy, resolve_policy,
}

abbrev pub Among : (PolicyVersion → Type 0) → List PolicyVersion → Type 0
Among P [] = ⊥
Among P (v ∷ vs) = P v ⊎ Among P vs

-- What is looked up holds where each version has it.
abbrev pub FoundIn : List PolicyVersion → PolicyVersion → Type 0
FoundIn vs v = Among (λ w. w ≡ v) vs

abbrev Within : List PolicyVersion → Option PolicyVersion → Type 0
Within vs none = Unit
Within vs (some v) = FoundIn vs v

Within-later :
    (w : PolicyVersion) (vs : List PolicyVersion) (x : Option PolicyVersion)
    → Within vs x
    → Within (w ∷ vs) x
Within-later w vs none h = tt
Within-later w vs (some v) h = inr h

find_version-Within :
    (p : PolicyVersion → Bool) (vs : List PolicyVersion) → Within vs (find_version p vs)
unfolding find_version
find_version-Within p [] = tt
find_version-Within p (v ∷ vs) =
    if_of (Within (v ∷ vs)) (p v) (some v) (find_version p vs) (inl refl)
      (Within-later v vs (find_version p vs) (find_version-Within p vs))

find_named-Within :
    (t : Option Text) (environment : Text) (vs : List PolicyVersion)
    → Within vs (find_named t environment vs)
find_named-Within none environment vs = tt
find_named-Within (some t) environment vs = find_version-Within (is_version t environment) vs

or_first-Within :
    (vs : List PolicyVersion) (x y : Option PolicyVersion)
    → Within vs x
    → Within vs y
    → Within vs (or_first x y)
or_first-Within vs none y h k = k
or_first-Within vs (some v) y h k = h

or_version-FoundIn :
    (vs : List PolicyVersion) (x : Option PolicyVersion) (v : PolicyVersion)
    → Within vs x
    → FoundIn vs v
    → FoundIn vs (or_version x v)
or_version-FoundIn vs none v h k = k
or_version-FoundIn vs (some w) v h k = h

-- The version chosen is one of the bundle, or the builtin one.
select_version-FoundIn :
    (active : Option Text) (environment : Text) (preferred : Option Text) (vs : List PolicyVersion)
    → (select_version active environment preferred vs ≡ default_version)
      ⊎ FoundIn vs (select_version active environment preferred vs)
select_version-FoundIn active environment preferred [] = inl refl
select_version-FoundIn active environment preferred (v ∷ vs) = inr (
    or_version-FoundIn (v ∷ vs) _ v
      (or_first-Within (v ∷ vs) _ _ (find_named-Within preferred environment (v ∷ vs)) (
        or_first-Within (v ∷ vs) _ _ (find_named-Within active environment (v ∷ vs))
          (find_version-Within (λ w. text_eq w.environment environment) (v ∷ vs))))
      (inl refl))

abbrev Either : List PolicyVersion → PolicyVersion → Type 0
Either vs v = (v ≡ default_version) ⊎ FoundIn vs v

or_version-Either :
    (vs : List PolicyVersion) (x : Option PolicyVersion) (v : PolicyVersion)
    → Within vs x
    → Either vs v
    → Either vs (or_version x v)
or_version-Either vs none v h k = k
or_version-Either vs (some w) v h k = inr h

rolled_back-Either :
    (vs : List PolicyVersion) (v : PolicyVersion) → Either vs v → Either vs (rolled_back vs v)
rolled_back-Either vs v h =
    if_of (Either vs) (text_eq v.status (codes "active")) v _ h (
      or_version-Either vs _ v (find_named-Within (named_rollback v.rollback_to) v.environment vs)
        h)

abbrev a_policy : Policy → Audited Policy
a_policy p = returned p

policy_injective : {p q : Policy} → a_policy p ≡ returned q → p ≡ q
policy_injective e = cc

pub guard_not :
    {A : Type 0} (b : Bool) (e : ShadowError) (k : Audited A) {a : A}
    → (raise_if (not b) e >> k) ≡ returned a
    → (b ≡ true) × (k ≡ returned a)
guard_not false e k h = cc
guard_not true e k h = (refl, h)

module _ (digests : Digests) where
  -- An active version whose declared digest is that of its policy.
  abbrev pub Verified : PolicyVersion → Type 0
  Verified v =
      (v.status ≡ codes "active")
      × (declared_digest v.integrity_digest v.signature ≡ digests.digest v.policy)

  -- A policy made by the other keys from that of a verified version of the bundle.
  abbrev pub Trusted : PolicyBundle → PolicySource → Policy → Type 0
  Trusted bundle source p =
      (v : PolicyVersion) × FoundIn bundle.versions v
      × Verified v
      × (source.overrides v.policy ≡ some p)

  default_unverified : verify_policy_integrity digests default_version ≡ true → ⊥
  default_unverified h = cc

  verified :
      (v : PolicyVersion)
      → verify_policy_integrity digests v ≡ true
      → declared_digest v.integrity_digest v.signature ≡ digests.digest v.policy
  verified v h =
      text_eq→eq _ (digests.digest v.policy)
        (second (not (is_empty (declared_digest v.integrity_digest v.signature))) _ h)
    where
      second : (a b : Bool) → (a && b) ≡ true → b ≡ true
      second true b h = h
      second false b h = cc

  check_version-Verified :
      (vs : List PolicyVersion) (v : PolicyVersion) (p : Policy)
      → Either vs v
      → check_version digests true v ≡ returned p
      → FoundIn vs v × Verified v × (v.policy ≡ p)
  check_version-Verified vs v p known h =
      let (active, h1) = guard_not (text_eq v.status (codes "active")) policy_status _ h in
      let (intact, h2) = guard_not (verify_policy_integrity digests v) policy_integrity _ h1 in
      (
        found known intact,
        (text_eq→eq v.status (codes "active") active, verified v intact),
        policy_injective h2,
      )
    where
      found : Either vs v → verify_policy_integrity digests v ≡ true → FoundIn vs v
      found (inl same) intact =
          absurd
            (default_unverified (subst (λ w. verify_policy_integrity digests w ≡ true) same intact))
      found (inr listed) intact = listed

  -- Where the integrity of policies is enforced, the policy that a bundle gives, before the other keys
  -- of the mapping, is that of an active version of the bundle whose declared digest is the policy's own.
  pub resolve_policy-Verified :
      (mode : Text) (source : PolicySource) (bundle : PolicyBundle) (p : Policy)
      → source.policy_bundle ≡ some bundle
      → integrity_enforced mode ≡ true
      → resolve_policy digests mode (mapping source) ≡ returned p
      → Trusted bundle source p
  unfolding resolve_policy
  resolve_policy-Verified mode source bundle p given enforced h =
      let (u, none_set, h1) =
        >>=-eq-returned (raise_if source.sets_lifecycle_mode lifecycle_mode_override) _ h in
      let (base, based, h2) =
        >>=-eq-returned (base_policy digests mode source source.policy_bundle) _ h1 in
      let (found, intact, same) =
        check_version-Verified bundle.versions chosen base
          (rolled_back-Either bundle.versions _ (
            select_version-FoundIn bundle.active_version source.policy_environment
              source.policy_version bundle.versions))
          (rw (given, enforced) at based) in
      (
        chosen,
        found,
        intact,
        subst (λ x. source.overrides x ≡ some p) (sym same)
            (schema_valid (source.overrides base) h2),
      )
    where
      chosen : PolicyVersion
      chosen =
          rolled_back bundle.versions
            (select_bundle_version bundle source.policy_environment source.policy_version)

      schema_valid : (x : Option Policy) → or_schema_invalid x ≡ returned p → x ≡ some p
      schema_valid none e = cc
      schema_valid (some q) e = cc
