-- ===== src/Proxy/Laws/Inspected.antt =====
-- The cache of inspections: how long an answer lasts, what a failure leaves, and its size.
use lirix.Prelude.{
  ℕ, ◌+◌, ◌≡◌, refl, ap, ◌∙◌, Bool, not, inl, inr, if_of, Bool-cases, none, some, Option-cases, [],
  ◌∷◌, snoc, filter, filter-append, Text, get, remove, trim-last, All-trim, All-filter, All-map,
  Absent, Absent-remove, get-Absent, get-last, arith, ltb, leb, returned, raised, if◌then◌else◌,
}
use lirix.Proxy.Probe.{Node, Probed, ProbeError, checksum_address}
use lirix.Proxy.Laws.Resolved.{returned_injective}
use lirix.Proxy.Piercer.{
  Inspection, Inspections, probe, purge_stale, store_inspection, store_probed, inspect_target,
  inspection_cache_ttl_seconds, inspection_cache_max_entries,
}

Absent-filter :
    (key : Text) (p : Text × (ℕ × Inspection) → Bool) (d : Inspections)
    → Absent key d
    → Absent key (filter p d)
Absent-filter key p d h = All-map _ _ (filter p d) (λ e q. q.0) (All-filter _ p d h)

newest_kept :
    (now : ℕ) (target : Text) (result : Inspection)
    → purge_stale now ((target, (now + inspection_cache_ttl_seconds, result)) ∷ [])
      ≡ (target, (now + inspection_cache_ttl_seconds, result)) ∷ []
newest_kept now target result = ground arith

get-store_inspection :
    (target : Text) (result : Inspection) (now : ℕ) (cached : Inspections)
    → get target (store_inspection target result now cached)
      ≡ some (now + inspection_cache_ttl_seconds, result)
unfolding store_inspection
get-store_inspection target result now cached =
    rw
      (filter-append (λ e. not (leb e.1.0 now)) (remove target cached)
        ((target, (now + inspection_cache_ttl_seconds, result)) ∷ []))
      (rw (newest_kept now target result) (
        rw
          (trim-last inspection_cache_max_entries (purge_stale now (remove target cached))
            (target, (now + inspection_cache_ttl_seconds, result)) (omega arith))
          (get-last target _ _
            (All-trim _ 255 _ (Absent-filter target _ _ (Absent-remove target cached))))))

store_probed-fst :
    (target : Text) (now : ℕ) (r : Probed Inspection) (cached : Inspections)
    → (store_probed target now r cached).0 ≡ r
store_probed-fst target now (returned i) cached = refl
store_probed-fst target now (raised e) cached = refl

abbrev Outcome : Type 0
Outcome = Probed Inspection × Inspections

module _ (node : Node) (strict_abi_decode : Bool) where
  abbrev inspect : Text → ℕ → Inspections → Outcome
  inspect address now cached = inspect_target node strict_abi_decode address now cached

  abbrev asked : Text → Probed Inspection
  asked target = probe node strict_abi_decode target

  inspect_missing :
      (address target : Text) (now : ℕ) (cached : Inspections)
      → checksum_address node strict_abi_decode address ≡ returned target
      → get target cached ≡ none
      → inspect address now cached ≡ store_probed target now (asked target) cached
  unfolding inspect_target
  inspect_missing address target now cached h e = rw h (rw e refl)

  -- Where an inspection is cached, with the test of its expiry.
  inspect_present :
      (address target : Text) (now expires_at : ℕ) (i : Inspection) (cached : Inspections)
      → checksum_address node strict_abi_decode address ≡ returned target
      → get target cached ≡ some (expires_at, i)
      → inspect address now cached ≡ (
          if ltb now expires_at
          then (returned i, snoc (remove target cached) (target, (expires_at, i)))
          else store_probed target now (asked target) (remove target cached))
  unfolding inspect_target
  inspect_present address target now expires_at i cached h e = rw h (
      rw e (elim (Bool-cases (ltb now expires_at)) [
        | inl fresh ↦ rw fresh refl
        | inr old ↦ rw old refl
      ]))

  answer_present :
      (address target : Text) (now expires_at : ℕ) (i : Inspection) (cached : Inspections)
      → checksum_address node strict_abi_decode address ≡ returned target
      → get target cached ≡ some (expires_at, i)
      → (inspect address now cached).0 ≡ (if ltb now expires_at then returned i else asked target)
  answer_present address target now expires_at i cached h e =
      ap (λ (o : Outcome). o.0) (inspect_present address target now expires_at i cached h e)
      ∙ elim (Bool-cases (ltb now expires_at)) [
        | inl fresh ↦ rw fresh refl
        | inr old ↦ rw old (store_probed-fst target now (asked target) (remove target cached))
      ]

  stored :
      (target : Text) (now : ℕ) (r : Probed Inspection) (i : Inspection) (cached : Inspections)
      → (store_probed target now r cached).0 ≡ returned i
      → get target (store_probed target now r cached).1
        ≡ some (now + inspection_cache_ttl_seconds, i)
  stored target now (returned j) i cached e =
      get-store_inspection target j now cached
      ∙ ap (λ k. some (now + inspection_cache_ttl_seconds, k)) (returned_injective e)
  stored target now (raised x) i cached e = cc

  not_stored :
      (target : Text) (now : ℕ) (r : Probed Inspection) (e : ProbeError) (cached : Inspections)
      → (store_probed target now r cached).0 ≡ raised e
      → get target cached ≡ none
      → get target (store_probed target now r cached).1 ≡ none
  not_stored target now (returned j) x cached e h = cc
  not_stored target now (raised x) i cached e h = h

  inspect_raised :
      (address target : Text) (now : ℕ) (e : ProbeError) (cached : Inspections)
      → checksum_address node strict_abi_decode address ≡ returned target
      → (inspect address now cached).0 ≡ raised e
      → get target (inspect address now cached).1 ≡ none
  inspect_raised address target now e cached h = elim (Option-cases (get target cached)) [
    | inl missing ↦
        rw (inspect_missing address target now cached h missing)
          (λ r. not_stored target now (asked target) e cached r missing)
    | inr ((expires_at, i), there) ↦
        rw (inspect_present address target now expires_at i cached h there) (
          if_of (λ (o : Outcome). o.0 ≡ raised e → get target o.1 ≡ none) (ltb now expires_at) _ _
            (λ r. cc)
            (λ r.
              not_stored target now (asked target) e (remove target cached) r
                (get-Absent target _ (Absent-remove target cached))))
  ]

module _ (node node' : Node) (strict_abi_decode : Bool) (address target : Text)
    (named : checksum_address node strict_abi_decode address ≡ returned target)
    (named' : checksum_address node' strict_abi_decode address ≡ returned target) where
  -- A target that was not cached is inspected and the inspection returned: the very next inspection
  -- on the cache that it leaves, of the same target, whatever the node answers by then, gives the same
  -- inspection for less than 60 seconds, and what a probe of the node then gives from 60 seconds on.
  pub inspect_target-again :
      (now later : ℕ) (i : Inspection) (cached : Inspections)
      → get target cached ≡ none
      → (inspect_target node strict_abi_decode address now cached).0 ≡ returned i
      → (inspect_target node' strict_abi_decode address later
          (inspect_target node strict_abi_decode address now cached).1).0
        ≡ (if ltb later (now + 60) then returned i else probe node' strict_abi_decode target)
  inspect_target-again now later i cached missing e =
      let first = inspect_missing node strict_abi_decode address target now cached named missing in
      answer_present node' strict_abi_decode address target later (now + 60) i _ named'
        (rw first (stored node strict_abi_decode target now _ i cached (rw first at e)))

  -- An inspection that raised leaves no answer behind: the next one of the same target is a probe of
  -- the node.
  pub inspect_target-raised :
      (now later : ℕ) (e : ProbeError) (cached : Inspections)
      → (inspect_target node strict_abi_decode address now cached).0 ≡ raised e
      → (inspect_target node' strict_abi_decode address later
          (inspect_target node strict_abi_decode address now cached).1).0
        ≡ probe node' strict_abi_decode target
  inspect_target-raised now later e cached r =
      ap (λ (o : Outcome). o.0)
        (inspect_missing node' strict_abi_decode address target later _ named'
          (inspect_raised node strict_abi_decode address target now e cached named r))
      ∙ store_probed-fst target later _ _
