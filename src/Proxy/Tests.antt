-- ===== src/Proxy/Tests.antt =====
-- Runs of lirix/layers/l3_proxy_piercer.py: a cache with room for one ABI, a target behind an
-- upgraded proxy, and a target that is no proxy.
use lirix.Prelude.{
  ◌≤◌, ◌≡◌, refl, true, false, none, some, List, [], ◌∷◌, Text, codes, length, get, to_hex, arith,
  returned, raised,
}
use lirix.Proxy.AbiCache.{Limits, new_cache}
use lirix.Proxy.Probe.{
  Node, reverted, web3_failure, undecodable, read_slot_address, resolve_diamond_facet,
  resolve_beacon_implementation, admin_slot, implementation_slot, beacon_slot, uups_slot,
  probe_failed, beacon_implementation_eth_call, CallOutcome,
}
use lirix.Proxy.Piercer.{Inspection, probe, inspect_target, facet_inspection, beacon_inspection}
use lirix.Proxy.Laws.Calls.{
  Op, lookup, save, sweep, stop, InTime, cache_replies, table_replies, cache_after, new_table,
}
use lirix.Proxy.Laws.Replies.{cache_replies-refine}
use lirix.Proxy.Laws.Size.{cache_after-bound}
use lirix.Proxy.Laws.Resolved.{IsConsistent, probe-IsConsistent}
use lirix.Proxy.Laws.Direct.{SlotClear, probe-direct}
use lirix.Proxy.Laws.Inspected.{inspect_target-again, inspect_target-raised}
use lirix.Proxy.Laws.Entries.{inspections_after, inspections_after-bound}

abbrev one_entry : Limits
one_entry = record { max_entries = 1; ttl_seconds = 10; invalidation_interval_seconds = 1 }

abbrev as_is : Text → Text
as_is t = t

abbrev two_saves : List (Op Text)
two_saves =
    save (codes "a") (codes "A") 0
    ∷ save (codes "b") (codes "B") 1
    ∷ lookup (codes "a") 2 2
    ∷ sweep 10
    ∷ lookup (codes "a") 10 10
    ∷ stop
    ∷ lookup (codes "b") 10 10
    ∷ []

two_saves-InTime : InTime 0 two_saves
two_saves-InTime =
    (omega arith, (omega arith, (omega arith, (omega arith, (omega arith, (omega arith, tt))))))

cache_replies-refine_example :
    cache_replies as_is as_is one_entry two_saves new_cache ≡ table_replies 10 two_saves new_table
cache_replies-refine_example =
    cache_replies-refine as_is as_is one_entry (λ a. refl) 0 two_saves two_saves-InTime

cache_after-bound_example :
    length (cache_after as_is as_is one_entry two_saves new_cache).memory ≤ 1
cache_after-bound_example = cache_after-bound as_is as_is one_entry two_saves

abbrev word : Text
word =
    0 ∷ 0 ∷ 0 ∷ 0 ∷ 0 ∷ 0 ∷ 0 ∷ 0 ∷ 0 ∷ 0 ∷ 0 ∷ 0 ∷ 0 ∷ 0 ∷ 0 ∷ 0 ∷ 0 ∷ 0 ∷ 0 ∷ 0 ∷ 0 ∷ 0 ∷ 0 ∷ 0
    ∷ 0 ∷ 0 ∷ 0 ∷ 0 ∷ 0 ∷ 0 ∷ 0 ∷ 10 ∷ []

abbrev word_address : Text
word_address = codes "0x000000000000000000000000000000000000000a"

-- A node that answers each storage read with `stored` and each call with `outcome`.
abbrev node_with : Text → CallOutcome → Node
node_with stored outcome = record {
  get_storage_at = λ a s. some stored;
  call = λ a d. outcome;
  abi_decode = none;
  codec_decode = λ bs. undecodable;
  to_checksum_address = λ t. some t;
  is_address = λ t. true;
}

abbrev plain_node : Node
plain_node = node_with [] reverted

abbrev beacon_node : Node
beacon_node = node_with word reverted

abbrev broken_node : Node
broken_node = node_with word web3_failure

abbrev a_target : Text
a_target = codes "a"

abbrev plain_result : Inspection
plain_result = facet_inspection a_target none none

abbrev beacon_result : Inspection
beacon_result =
    beacon_inspection a_target (some word_address) (some word_address) word_address
      (some word_address) none

plain_probe : probe plain_node false a_target ≡ returned plain_result
unfolding probe read_slot_address resolve_diamond_facet
plain_probe = refl

beacon_probe : probe beacon_node false a_target ≡ returned beacon_result
unfolding probe read_slot_address resolve_beacon_implementation to_hex
beacon_probe = refl

probe-IsConsistent_example : IsConsistent a_target beacon_result
probe-IsConsistent_example =
    probe-IsConsistent beacon_node false a_target beacon_result beacon_probe

probe-direct_example :
    SlotClear plain_node false a_target admin_slot
    × SlotClear plain_node false a_target implementation_slot
    × SlotClear plain_node false a_target beacon_slot
    × SlotClear plain_node false a_target uups_slot
    × (resolve_diamond_facet plain_node false a_target ≡ returned none)
probe-direct_example = probe-direct plain_node false a_target plain_result plain_probe refl

first_inspection : (inspect_target plain_node false a_target 0 []).0 ≡ returned plain_result
unfolding inspect_target get probe read_slot_address resolve_diamond_facet
first_inspection = refl

inspect_target-again_example :
    (inspect_target beacon_node false a_target 59
      (inspect_target plain_node false a_target 0 []).1).0
    ≡ returned plain_result
unfolding get
inspect_target-again_example =
    inspect_target-again plain_node beacon_node false a_target a_target refl refl 0 59 plain_result
      [] refl first_inspection

broken_inspection :
    (inspect_target broken_node false a_target 0 []).0
    ≡ raised (probe_failed beacon_implementation_eth_call)
unfolding inspect_target get probe read_slot_address resolve_beacon_implementation to_hex
broken_inspection = refl

inspect_target-raised_example :
    (inspect_target plain_node false a_target 1
      (inspect_target broken_node false a_target 0 []).1).0
    ≡ probe plain_node false a_target
inspect_target-raised_example =
    inspect_target-raised broken_node plain_node false a_target a_target refl refl 0 1 _ []
      broken_inspection

inspections_after-bound_example :
    length (
      inspections_after false ((record { node = plain_node; address = a_target; now = 0 }) ∷ []) [])
    ≤ 256
inspections_after-bound_example =
    inspections_after-bound false ((record { node = plain_node; address = a_target; now = 0 }) ∷ [])
