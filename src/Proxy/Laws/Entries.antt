-- ===== src/Proxy/Laws/Entries.antt =====
-- The size of the cache of inspections, over any calls.
use lirix.Prelude.{
  ℕ, suc, ◌+◌, ◌≤◌, ◌≡◌, refl, Bool, if_of, Option, none, some, List, [], ◌∷◌, snoc, length,
  length-append, Text, get, remove, trim_bound, length-remove, length-remove_found, arith, returned,
  raised, ltb,
}
use lirix.Proxy.Probe.{Node, Probed, checksum_address}
use lirix.Proxy.Piercer.{
  Inspection, Inspections, store_inspection, cached_inspection, store_probed, from_cache,
  inspect_checked, inspect_target, inspection_cache_max_entries,
}

-- A call of inspect_target: the node as it answers then, the address and the time.
pub record Visit : Type 0 where
  pub node : Node
  pub address : Text
  pub now : ℕ

unfoldable pub inspections_after : Bool → List Visit → Inspections → Inspections
inspections_after strict [] cached = cached
inspections_after strict (v ∷ vs) cached =
    inspections_after strict vs (inspect_target v.node strict v.address v.now cached).1

abbrev Small : Inspections → Type 0
Small cached = length cached ≤ inspection_cache_max_entries

store_probed-Small :
    (target : Text) (now : ℕ) (r : Probed Inspection) (cached : Inspections)
    → Small cached
    → Small (store_probed target now r cached).1
unfolding store_inspection
store_probed-Small target now (returned i) cached h = trim_bound inspection_cache_max_entries _
store_probed-Small target now (raised e) cached h = h

from_cache-Small :
    (target : Text) (now : ℕ) (fresh : Probed Inspection) (found : Option (ℕ × Inspection))
    (cached : Inspections)
    → get target cached ≡ found
    → Small cached
    → Small (from_cache target now fresh (cached_inspection target now found cached)).1
from_cache-Small target now fresh none cached e h = store_probed-Small target now fresh cached h
from_cache-Small target now fresh (some (expires_at, i)) cached e h =
    if_of (λ (o : Option Inspection × Inspections). Small (from_cache target now fresh o).1)
      (ltb now expires_at) _ _
      (moved (grown (remove target cached) (target, (expires_at, i)))
        (found_once _ _ (length-remove_found target _ cached e)) h)
      (store_probed-Small target now fresh _ (shorter (length-remove target cached) h))
  where
    moved :
        {a b c : ℕ}
        → a ≡ suc b
        → suc b ≤ c
        → c ≤ inspection_cache_max_entries
        → a ≤ inspection_cache_max_entries
    moved e f g = omega arith

    grown : (d : Inspections) (x : Text × (ℕ × Inspection)) → length (snoc d x) ≡ suc (length d)
    grown d x = omega (arith, length-append d (x ∷ []))

    found_once : (b c : ℕ) → b + 1 ≤ c → suc b ≤ c
    found_once b c e = omega arith

    shorter :
        {b c : ℕ} → b ≤ c → c ≤ inspection_cache_max_entries → b ≤ inspection_cache_max_entries
    shorter e f = omega arith

inspect_target-Small :
    (node : Node) (strict : Bool) (address : Text) (now : ℕ) (cached : Inspections)
    → Small cached
    → Small (inspect_target node strict address now cached).1
unfolding inspect_target
inspect_target-Small node strict address now cached h =
    checked (checksum_address node strict address)
  where
    checked : (r : Probed Text) → Small (inspect_checked node strict now cached r).1
    checked (raised e) = h
    checked (returned target) = from_cache-Small target now _ (get target cached) cached refl h

inspections_after-Small :
    (strict : Bool) (vs : List Visit) (cached : Inspections)
    → Small cached
    → Small (inspections_after strict vs cached)
unfolding inspections_after
inspections_after-Small strict [] cached h = h
inspections_after-Small strict (v ∷ vs) cached h =
    inspections_after-Small strict vs _
      (inspect_target-Small v.node strict v.address v.now cached h)

-- After any inspections by a new piercer, at most 256 of them are cached.
pub inspections_after-bound :
    (strict : Bool) (vs : List Visit) → length (inspections_after strict vs []) ≤ 256
inspections_after-bound strict vs = inspections_after-Small strict vs [] (omega arith)
