-- ===== src/Shadow/Audits.antt =====
-- Which payloads and simulations ShadowAuditor of lirix/layers/l5_shadow_auditor.py passes.
use lirix.Prelude.{
  ◌≡◌, refl, true, Option, none, some, List, Text, elem, returned, >>=-eq-returned, ◌↔◌,
}
use lirix.Intent.{Field, absent, other, text, Draft}
use lirix.Shadow.{
  Policy, SecurityPolicy, Metric, Digests, target_not_allowed, method_forbidden, resolve_policy,
  selector_of, names_forbidden, enforce_forbidden_method, read_metric, enforce_slippage,
  or_not_an_address, check_targets, enforce_target_contract, audit,
}
use lirix.Shadow.Laws.{guard_not}
use lirix.Shadow.Enforced.{
  ReportWithin, SelectorFree, NameFree, passed, listed, neither, selector-SelectorFree,
  name-NameFree, check_limit-WithinLimit, WithinLimit-check_limit, ReportWithin-limit,
  SelectorFree-selector, NameFree-name, limit-ReportWithin,
}

module _ (digests : Digests) where
  -- A target on the list, if there is a list.
  abbrev pub TargetIn : Option (List Text) → Field → Type 0
  TargetIn none f = Unit
  TargetIn (some allowed) absent = ⊥
  TargetIn (some allowed) other = ⊥
  TargetIn (some allowed) (text t) =
      (cs : Text) × (digests.is_address t ≡ true)
      × (digests.to_checksum_address t ≡ some cs)
      × (elem cs allowed ≡ true)

  pub record Passes (mode : Text) (security_policy : SecurityPolicy) (draft : Draft)
      (own nested : Metric) : Type 0 where
    pub policy : Policy
    pub resolved : resolve_policy digests mode security_policy ≡ returned policy
    pub target : TargetIn policy.allowed_target_contracts draft.to
    pub selector_free : SelectorFree policy.forbidden_methods draft.data_raw
    pub name_free : NameFree policy.forbidden_methods draft.function_name
    pub slippage : ReportWithin policy.max_slippage_bps own nested

  check_targets-TargetIn :
      (allowed : Option (List Text)) (f : Field)
      → check_targets digests allowed f ≡ returned tt
      → TargetIn allowed f
  check_targets-TargetIn none f h = tt
  check_targets-TargetIn (some allowed) absent h = cc
  check_targets-TargetIn (some allowed) other h = cc
  check_targets-TargetIn (some allowed) (text t) h =
      let (valid, h1) = guard_not (digests.is_address t) target_not_allowed _ h in
      let (cs, found, h2) =
        >>=-eq-returned (or_not_an_address (digests.to_checksum_address t)) _ h1 in
      (
        cs,
        valid,
        checksummed (digests.to_checksum_address t) found,
        listed (elem cs allowed) target_not_allowed h2,
      )
    where
      checksummed : (x : Option Text) {cs : Text} → or_not_an_address x ≡ returned cs → x ≡ some cs
      checksummed none e = cc
      checksummed (some u) e = cc

  TargetIn-check_targets :
      (allowed : Option (List Text)) (f : Field)
      → TargetIn allowed f
      → check_targets digests allowed f ≡ returned tt
  TargetIn-check_targets none f h = refl
  TargetIn-check_targets (some allowed) absent h = absurd h
  TargetIn-check_targets (some allowed) other h = absurd h
  TargetIn-check_targets (some allowed) (text t) (cs, valid, found, there) =
      rw (valid, found, there) refl

  module _ (mode : Text) (security_policy : SecurityPolicy) (draft : Draft)
      (own nested : Metric) where
    Passes-of :
        audit digests mode security_policy draft own nested ≡ returned tt
        → Passes mode security_policy draft own nested
    unfolding audit enforce_target_contract enforce_forbidden_method enforce_slippage
    Passes-of h =
        let (p, resolved, h1) = >>=-eq-returned (resolve_policy digests mode security_policy) _ h in
        let (u, target, h2) =
          >>=-eq-returned (check_targets digests p.allowed_target_contracts draft.to) _ h1 in
        let (v, methods, h3) = >>=-eq-returned (enforce_forbidden_method p draft) _ h2 in
        let (selector, name) =
          neither (elem (selector_of draft.data_raw) p.forbidden_methods)
            (names_forbidden p.forbidden_methods draft.function_name)
            (passed _ method_forbidden methods) in
        record {
          policy = p;
          resolved = resolved;
          target = check_targets-TargetIn p.allowed_target_contracts draft.to target;
          selector_free = selector-SelectorFree p.forbidden_methods draft.data_raw selector;
          name_free = name-NameFree p.forbidden_methods draft.function_name name;
          slippage =
              limit-ReportWithin p.max_slippage_bps own nested
                (check_limit-WithinLimit p.max_slippage_bps (read_metric own nested) h3);
        }

    Passes-audit :
        Passes mode security_policy draft own nested
        → audit digests mode security_policy draft own nested ≡ returned tt
    unfolding audit enforce_target_contract enforce_forbidden_method enforce_slippage
    Passes-audit p =
        let policy = p.policy in
        rw
          (
            p.resolved,
            TargetIn-check_targets policy.allowed_target_contracts draft.to p.target,
            SelectorFree-selector policy.forbidden_methods draft.data_raw p.selector_free,
            NameFree-name policy.forbidden_methods draft.function_name p.name_free,
          )
          (WithinLimit-check_limit policy.max_slippage_bps (read_metric own nested)
            (ReportWithin-limit policy.max_slippage_bps own nested p.slippage))

    -- The audit passes exactly where there is a policy that it resolves to, under which the target is on
    -- the list of targets if there is one; neither the selector in lower case nor the function name
    -- without the spaces around it is forbidden; and, if there is a limit, a slippage that the
    -- simulation reports is an integer of at most the limit or a finite float of less than the limit
    -- and one, since the audit compares its whole part.
    pub audit-Passes :
        (audit digests mode security_policy draft own nested ≡ returned tt)
        ↔ Passes mode security_policy draft own nested
    audit-Passes = (Passes-of, Passes-audit)
