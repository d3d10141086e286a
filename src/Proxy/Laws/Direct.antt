-- ===== src/Proxy/Laws/Direct.antt =====
-- What a target that is reported as no proxy holds in its slots.
use lirix.Prelude.{
  ℕ, ◌≡◌, refl, ap, ◌∙◌, Bool, true, false, Option, none, some, [], ◌∷◌, length, take_last, drop,
  zero, suc, ◌==◌, ◌&&◌, ◌-◌, Text, returned, >>=-eq-returned, ◌>>=◌, if_when, arith,
}
use lirix.Proxy.Probe.{
  Node, Probed, all_zero, is_empty_or_zero_word, slot_address, checksum_address, read_slot_address,
  resolve_diamond_facet, resolve_beacon_implementation, implementation_slot, beacon_slot,
  admin_slot, uups_slot,
}
use lirix.Proxy.Piercer.{
  Inspection, Slots, beacon_inspection, facet_inspection, read_slots, inspection_of, probe,
}
use lirix.Proxy.Laws.Resolved.{probed, returned_injective}

all-drop : (n : ℕ) (xs : Text) → all_zero xs ≡ true → all_zero (drop n xs) ≡ true
all-drop zero xs h = h
all-drop (suc n) [] h = h
all-drop (suc n) (x ∷ xs) h = all-drop n xs (ground arith)

behind_beacon :
    (target : Text) (admin implementation : Option Text) (beacon : Text) (uups b : Option Text)
    (i : Inspection)
    → beacon_inspection target admin implementation beacon uups b ≡ i
    → i.is_proxy ≡ false
    → ⊥
behind_beacon target admin implementation beacon uups none i e h = cc
behind_beacon target admin implementation beacon uups (some b) i e h = cc

module _ (node : Node) (strict_abi_decode : Bool) where
  -- Every word that the slot holds ends in an address of zeros.
  abbrev pub SlotClear : Text → ℕ → Type 0
  SlotClear target slot =
      (raw : Text) → node.get_storage_at target slot ≡ some raw → all_zero (take_last 20 raw) ≡ true

  zero_word-clear :
      (raw : Text) → is_empty_or_zero_word raw ≡ true → all_zero (take_last 20 raw) ≡ true
  zero_word-clear [] h = refl
  zero_word-clear (b ∷ bs) h = all-drop (length (b ∷ bs) - 20) (b ∷ bs) (ground arith)

  some_address :
      (raw : Text)
      → (checksum_address node strict_abi_decode raw >>= λ a. probed (some a)) ≡ returned none
      → ⊥
  some_address raw e =
      let (a, there, same) = >>=-eq-returned (checksum_address node strict_abi_decode raw) _ e in cc

  slot_address-clear :
      (raw : Text)
      → slot_address node strict_abi_decode raw ≡ returned none
      → all_zero (take_last 20 raw) ≡ true
  slot_address-clear raw =
      if_when (λ (x : Probed (Option Text)). x ≡ returned none → all_zero (take_last 20 raw) ≡ true)
        (is_empty_or_zero_word raw) _ _ (λ zero_word e. zero_word-clear raw zero_word)
        (λ other.
          if_when
            (λ (x : Probed (Option Text)). x ≡ returned none → all_zero (take_last 20 raw) ≡ true)
            ((length (take_last 20 raw) == 20) && all_zero (take_last 20 raw)) _ _
            (λ tail e. ground arith) (λ tail e. absurd (some_address _ e)))

  read_slot_address-clear :
      (target : Text) (slot : ℕ)
      → read_slot_address node strict_abi_decode target slot ≡ returned none
      → SlotClear target slot
  unfolding read_slot_address
  read_slot_address-clear target slot e raw there = slot_address-clear raw (rw there at e)

  abbrev Unset : Text → Slots → Type 0
  Unset target s =
      (s.admin ≡ none)
      × (s.implementation ≡ none)
      × (s.beacon ≡ none)
      × (s.uups_implementation ≡ none)
      × (resolve_diamond_facet node strict_abi_decode target ≡ returned none)

  inspection_of-direct :
      (target : Text) (s : Slots) (i : Inspection)
      → inspection_of node strict_abi_decode target s.admin s.implementation s.beacon
          s.uups_implementation
        ≡ returned i
      → i.is_proxy ≡ false
      → Unset target s
  inspection_of-direct target s i e direct =
      go s.admin s.implementation s.beacon s.uups_implementation e
    where
      facet :
          (admin d : Option Text)
          → resolve_diamond_facet node strict_abi_decode target ≡ returned d
          → facet_inspection target admin d ≡ i
          → Unset target (record {
            admin = admin;
            implementation = none;
            beacon = none;
            uups_implementation = none;
          })
      facet admin (some d) there same = cc
      facet (some a) none there same = cc
      facet none none there same = (refl, refl, refl, refl, there)

      go :
          (admin implementation beacon uups : Option Text)
          → inspection_of node strict_abi_decode target admin implementation beacon uups
            ≡ returned i
          → Unset target (record {
            admin = admin;
            implementation = implementation;
            beacon = beacon;
            uups_implementation = uups;
          })
      go admin implementation (some beacon) uups e =
          let (b, there, same) =
            >>=-eq-returned (resolve_beacon_implementation node strict_abi_decode beacon) _ e in
          absurd (
            behind_beacon target admin implementation beacon uups b i (returned_injective same)
              direct)
      go admin (some a) none uups e = cc
      go admin none none (some u) e = cc
      go admin none none none e =
          let (d, there, same) =
            >>=-eq-returned (resolve_diamond_facet node strict_abi_decode target) _ e in
          facet admin d there (returned_injective same)

  read_slots-clear :
      (target : Text) (s : Slots)
      → read_slots node strict_abi_decode target ≡ returned s
      → Unset target s
      → SlotClear target admin_slot
        × SlotClear target implementation_slot
        × SlotClear target beacon_slot
        × SlotClear target uups_slot
  read_slots-clear target s e (no_admin, no_implementation, no_beacon, no_uups, facet) =
      let (a, read_admin, e1) =
        >>=-eq-returned (read_slot_address node strict_abi_decode target admin_slot) _ e in
      let (m, read_implementation, e2) =
        >>=-eq-returned (read_slot_address node strict_abi_decode target implementation_slot) _
          e1 in
      let (b, read_beacon, e3) =
        >>=-eq-returned (read_slot_address node strict_abi_decode target beacon_slot) _ e2 in
      let (u, read_uups, e4) =
        >>=-eq-returned (read_slot_address node strict_abi_decode target uups_slot) _ e3 in
      let same = returned_injective e4 in
      (
        read_slot_address-clear target admin_slot
            (read_admin ∙ ap (λ x. probed x) (ap (λ t. t.admin) same ∙ no_admin)),
        read_slot_address-clear target implementation_slot (
            read_implementation
            ∙ ap (λ x. probed x) (ap (λ t. t.implementation) same ∙ no_implementation)),
        read_slot_address-clear target beacon_slot
            (read_beacon ∙ ap (λ x. probed x) (ap (λ t. t.beacon) same ∙ no_beacon)),
        read_slot_address-clear target uups_slot
            (read_uups ∙ ap (λ x. probed x) (ap (λ t. t.uups_implementation) same ∙ no_uups)),
      )

  -- A target that is reported as no proxy: each word that the node holds in the admin, the
  -- implementation, the beacon and the UUPS slot ends in an address of zeros, and the diamond probe
  -- answered that there is no facet.
  pub probe-direct :
      (target : Text) (i : Inspection)
      → probe node strict_abi_decode target ≡ returned i
      → i.is_proxy ≡ false
      → SlotClear target admin_slot
        × SlotClear target implementation_slot
        × SlotClear target beacon_slot
        × SlotClear target uups_slot
        × (resolve_diamond_facet node strict_abi_decode target ≡ returned none)
  unfolding probe
  probe-direct target i e direct =
      let (s, there, same) = >>=-eq-returned (read_slots node strict_abi_decode target) _ e in
      let (a, m, b, u, facet) = inspection_of-direct target s i same direct in
      let (no_admin, no_implementation, no_beacon, no_uups) =
        read_slots-clear target s there (a, m, b, u, facet) in
      (no_admin, no_implementation, no_beacon, no_uups, facet)
