-- ===== src/Proxy/Piercer/Inspect.antt =====
-- ProxyPiercer.inspect_target of lirix/layers/l3_proxy_piercer.py and its cache. A clock is a number
-- of seconds.
use lirix.Prelude.{
  ℕ, ◌+◌, Bool, true, false, not, Option, none, some, List, [], ◌∷◌, ◌++◌, filter, Text, Dict, get,
  remove, trim, leb, ltb, returned, raised, if◌then◌else◌, ◌>>=◌,
}
use lirix.Proxy.Probe.{
  Node, Probed, checksum_address, read_slot_address, resolve_diamond_facet,
  resolve_beacon_implementation, implementation_slot, beacon_slot, admin_slot, uups_slot,
}

pub data ProxyKind : Type 0 where
  beacon_proxy beacon_unresolved eip1967 uups diamond direct admin_only_proxy : ProxyKind

-- The words of a resolution path.
pub data Resolution : Type 0 where
  eip1967_beacon beacon_implementation_call fallback_implementation fallback_uups : Resolution
  fallback_self eip1967_implementation eip1822_uups eip2535_diamond eip1967_admin : Resolution

pub record Inspection : Type 0 where
  pub target : Text
  pub resolved_target : Text
  pub proxy_kind : ProxyKind
  pub implementation : Option Text
  pub beacon : Option Text
  pub beacon_implementation : Option Text
  pub admin : Option Text
  pub uups_implementation : Option Text
  pub is_proxy : Bool
  pub resolution_path : List Resolution

-- `a or b`, for an address or None
abbrev pub or_address : Option Text → Text → Text
or_address none b = b
or_address (some a) b = a

abbrev pub fallback : Option Text → Option Text → Resolution
fallback (some i) u = fallback_implementation
fallback none (some u) = fallback_uups
fallback none none = fallback_self

abbrev pub beacon_inspection :
    Text → Option Text → Option Text → Text → Option Text → Option Text → Inspection
beacon_inspection target admin implementation beacon uups_slot none = record {
  target = target;
  resolved_target = or_address implementation (or_address uups_slot target);
  proxy_kind = beacon_unresolved;
  implementation = implementation;
  beacon = some beacon;
  beacon_implementation = none;
  admin = admin;
  uups_implementation = uups_slot;
  is_proxy = true;
  resolution_path = eip1967_beacon ∷ fallback implementation uups_slot ∷ [];
}
beacon_inspection target admin implementation beacon uups_slot (some b) = record {
  target = target;
  resolved_target = b;
  proxy_kind = beacon_proxy;
  implementation = implementation;
  beacon = some beacon;
  beacon_implementation = some b;
  admin = admin;
  uups_implementation = uups_slot;
  is_proxy = true;
  resolution_path = eip1967_beacon ∷ beacon_implementation_call ∷ [];
}

-- A target without a beacon that resolves to `resolved`.
abbrev pub plain_inspection :
    Text
    → Option Text
    → Text
    → ProxyKind
    → Option Text
    → Option Text
    → Bool
    → List Resolution
    → Inspection
plain_inspection target admin resolved kind implementation uups_implementation is_proxy path =
    record {
      target = target;
      resolved_target = resolved;
      proxy_kind = kind;
      implementation = implementation;
      beacon = none;
      beacon_implementation = none;
      admin = admin;
      uups_implementation = uups_implementation;
      is_proxy = is_proxy;
      resolution_path = path;
    }

-- Neither a beacon nor an implementation slot is set.
abbrev pub facet_inspection : Text → Option Text → Option Text → Inspection
facet_inspection target admin (some d) =
    plain_inspection target admin d diamond (some d) none true (eip2535_diamond ∷ [])
facet_inspection target none none = plain_inspection target none target direct none none false []
facet_inspection target (some a) none =
    plain_inspection target (some a) target admin_only_proxy none none true (eip1967_admin ∷ [])

pub record Slots : Type 0 where
  pub admin : Option Text
  pub implementation : Option Text
  pub beacon : Option Text
  pub uups_implementation : Option Text

module _ (node : Node) (strict_abi_decode : Bool) where
  -- The four reads of inspect_target.
  abbrev pub read_slots : Text → Probed Slots
  read_slots target = do
    admin ← read_slot_address node strict_abi_decode target admin_slot
    implementation ← read_slot_address node strict_abi_decode target implementation_slot
    beacon ← read_slot_address node strict_abi_decode target beacon_slot
    uups_implementation ← read_slot_address node strict_abi_decode target uups_slot
    returned (record {
      admin = admin;
      implementation = implementation;
      beacon = beacon;
      uups_implementation = uups_implementation;
    })

  -- The branches of inspect_target behind the reads.
  abbrev pub inspection_of :
      Text → Option Text → Option Text → Option Text → Option Text → Probed Inspection
  inspection_of target admin implementation (some beacon) uups_implementation =
      resolve_beacon_implementation node strict_abi_decode beacon >>= λ b.
      returned (beacon_inspection target admin implementation beacon uups_implementation b)
  inspection_of target admin (some i) none uups_implementation = returned (
      plain_inspection target admin i eip1967 (some i) uups_implementation true
        (eip1967_implementation ∷ []))
  inspection_of target admin none none (some u) =
      returned (plain_inspection target admin u uups none (some u) true (eip1822_uups ∷ []))
  inspection_of target admin none none none =
      resolve_diamond_facet node strict_abi_decode target >>= λ d.
      returned (facet_inspection target admin d)

  -- inspect_target where nothing is cached
  unfoldable pub probe : Text → Probed Inspection
  probe target = read_slots target >>= λ s.
      inspection_of target s.admin s.implementation s.beacon s.uups_implementation

abbrev pub inspection_cache_ttl_seconds : ℕ
inspection_cache_ttl_seconds = 60

abbrev pub inspection_cache_max_entries : ℕ
inspection_cache_max_entries = 256

-- The cache of inspections, each with the time at which it expires.
abbrev pub Inspections : Type 0
Inspections = Dict (ℕ × Inspection)

-- _purge_stale_inspection_cache_locked
abbrev pub purge_stale : ℕ → Inspections → Inspections
purge_stale now cached = filter (λ e. not (leb e.1.0 now)) cached

-- _store_inspection_cache
unfoldable pub store_inspection : Text → Inspection → ℕ → Inspections → Inspections
store_inspection target result now cached = trim inspection_cache_max_entries (
    purge_stale now
      (remove target cached ++ (target, (now + inspection_cache_ttl_seconds, result)) ∷ []))

-- The cached inspection, if it has not expired: it becomes the newest. An expired one is removed.
abbrev pub cached_inspection :
    Text → ℕ → Option (ℕ × Inspection) → Inspections → Option Inspection × Inspections
cached_inspection target now none cached = (none, cached)
cached_inspection target now (some (expires_at, result)) cached =
    if ltb now expires_at
    then (some result, remove target cached ++ (target, (expires_at, result)) ∷ [])
    else (none, remove target cached)

abbrev pub store_probed :
    Text → ℕ → Probed Inspection → Inspections → Probed Inspection × Inspections
store_probed target now (returned result) cached =
    (returned result, store_inspection target result now cached)
store_probed target now (raised e) cached = (raised e, cached)

abbrev pub from_cache :
    Text → ℕ → Probed Inspection → Option Inspection × Inspections → Probed Inspection × Inspections
from_cache target now fresh (some result, cached) = (returned result, cached)
from_cache target now fresh (none, cached) = store_probed target now fresh cached

module _ (node : Node) (strict_abi_decode : Bool) where
  abbrev pub inspect_checked : ℕ → Inspections → Probed Text → Probed Inspection × Inspections
  inspect_checked now cached (raised e) = (raised e, cached)
  inspect_checked now cached (returned target) =
      from_cache target now (probe node strict_abi_decode target)
        (cached_inspection target now (get target cached) cached)

  unfoldable pub inspect_target : Text → ℕ → Inspections → Probed Inspection × Inspections
  inspect_target address now cached =
      inspect_checked now cached (checksum_address node strict_abi_decode address)
