-- ===== src/Proxy/Laws/Resolved.antt =====
-- What an inspection says about the slots and the probes that it was made from.
use mathlib.Core.Path.{subst}
use lirix.Prelude.{
  ◌≡◌, refl, Bool, Option, none, some, is_some, List, [], ◌∷◌, any, Text, returned, >>=-eq-returned,
}
use lirix.Proxy.Probe.{Node, Probed, resolve_diamond_facet, resolve_beacon_implementation}
use lirix.Proxy.Piercer.{
  Inspection, Slots, beacon_inspection, facet_inspection, read_slots, inspection_of, probe,
}

abbrev pub first_of : List (Option Text) → Text → Text
first_of [] d = d
first_of (none ∷ rest) d = first_of rest d
first_of (some a ∷ rest) d = a

-- An inspection that agrees with its own addresses.
abbrev pub IsConsistent : Text → Inspection → Type 0
IsConsistent target i =
    (i.target ≡ target)
    × (i.resolved_target
        ≡ first_of (i.beacon_implementation ∷ i.implementation ∷ i.uups_implementation ∷ []) target)
    × (i.is_proxy
        ≡ any is_some (i.beacon ∷ i.implementation ∷ i.uups_implementation ∷ i.admin ∷ []))

abbrev pub probed : {A : Type 0} → A → Probed A
probed a = returned a

pub returned_injective : {A : Type 0} {a b : A} → probed a ≡ returned b → a ≡ b
returned_injective e = cc

beacon_inspection-IsConsistent :
    (target : Text) (admin implementation : Option Text) (beacon : Text) (uups b : Option Text)
    → IsConsistent target (beacon_inspection target admin implementation beacon uups b)
beacon_inspection-IsConsistent target admin (some i) beacon uups none = (refl, refl, refl)
beacon_inspection-IsConsistent target admin none beacon (some u) none = (refl, refl, refl)
beacon_inspection-IsConsistent target admin none beacon none none = (refl, refl, refl)
beacon_inspection-IsConsistent target admin implementation beacon uups (some b) = (refl, refl, refl)

facet_inspection-IsConsistent :
    (target : Text) (admin d : Option Text) → IsConsistent target (facet_inspection target admin d)
facet_inspection-IsConsistent target admin (some d) = (refl, refl, refl)
facet_inspection-IsConsistent target none none = (refl, refl, refl)
facet_inspection-IsConsistent target (some a) none = (refl, refl, refl)

module _ (node : Node) (strict_abi_decode : Bool) where
  inspection_of-IsConsistent :
      (target : Text) (s : Slots) (i : Inspection)
      → inspection_of node strict_abi_decode target s.admin s.implementation s.beacon
          s.uups_implementation
        ≡ returned i
      → IsConsistent target i
  inspection_of-IsConsistent target s i e = go s.implementation s.beacon s.uups_implementation e
    where
      go :
          (implementation beacon uups : Option Text)
          → inspection_of node strict_abi_decode target s.admin implementation beacon uups
            ≡ returned i
          → IsConsistent target i
      go implementation (some beacon) uups e =
          let (b, there, same) =
            >>=-eq-returned (resolve_beacon_implementation node strict_abi_decode beacon) _ e in
          subst (IsConsistent target) (returned_injective same)
            (beacon_inspection-IsConsistent target s.admin implementation beacon uups b)
      go (some a) none uups e =
          subst (IsConsistent target) (returned_injective e) (refl, refl, refl)
      go none none (some u) e =
          subst (IsConsistent target) (returned_injective e) (refl, refl, refl)
      go none none none e =
          let (d, there, same) =
            >>=-eq-returned (resolve_diamond_facet node strict_abi_decode target) _ e in
          subst (IsConsistent target) (returned_injective same)
            (facet_inspection-IsConsistent target s.admin d)

  -- An inspection resolves to the first of the beacon's implementation, the implementation and the
  -- UUPS implementation that it reports, and to the target itself where it reports none of these, an
  -- admin alone or a beacon without implementation for instance; it says that the target is a proxy exactly where it reports a beacon, an implementation, a UUPS
  -- implementation or an admin.
  pub probe-IsConsistent :
      (target : Text) (i : Inspection)
      → probe node strict_abi_decode target ≡ returned i
      → IsConsistent target i
  unfolding probe
  probe-IsConsistent target i e =
      let (s, there, same) = >>=-eq-returned (read_slots node strict_abi_decode target) _ e in
      inspection_of-IsConsistent target s i same
