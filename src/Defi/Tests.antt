-- ===== src/Defi/Tests.antt =====
-- Runs of lirix/layers/l3_defi_parser.py on small calldata.
use lirix.Prelude.{
  ◌≡◌, refl, Bool, true, false, none, some, [], ◌∷◌, Text, codes, text_eq, elem, strip, returned,
  raised,
}
use lirix.Defi.Types.{
  depth_exceeded, Codec, DefiConfig, Swap, Payload, swap_exact_tokens_for_tokens_selector,
  swap_exact_tokens_for_eth_selector, aggregate3_selector,
}
use lirix.Defi.Swaps.{accumulate_swap, add_all}
use lirix.Defi.Multicall.{
  multicall, router, walk_multicall, walk_calls, walk_inner, inner_of, levels, plain,
}
use lirix.Defi.Validate.{
  accept, validate, validate_builtin, check_route, collect_outer, outer_of, enforce_addresses,
  v3_selectors,
}
use lirix.Defi.Laws.Accepted.{Allowed, validate-Allowed}
use lirix.Defi.Laws.Nested.{CheckedBatch, validate_builtin-CheckedBatch}
use lirix.Defi.Laws.Slippage.{CheckedSwap, validate_builtin-CheckedSwap, eth_swap_undecoded}

abbrev a_swap : Swap
a_swap = record {
  amount_in = 10;
  min_out = 9;
  path = codes "t" ∷ codes "u" ∷ [];
  recipient = codes "me";
}

-- An address is its own checksum form, and each body decodes to the same batch or swap.
abbrev a_codec : Codec
a_codec = record {
  to_checksum_address = some;
  decode_aggregate3 =
      λ body. some (record { target = codes "m"; cdata = aggregate3_selector } ∷ []);
  decode_aggregate3_value = λ body. none;
  decode_swap = λ body. some a_swap;
  decode_v3_swap = λ body. none;
  exact_input_selector = 1 ∷ 2 ∷ 3 ∷ 4 ∷ [];
  exact_output_selector = 5 ∷ 6 ∷ 7 ∷ 8 ∷ [];
}

abbrev a_config : DefiConfig
a_config = record {
  multicall3_address = some (codes "m");
  uniswap_v2_router = some (codes "r");
  chain_id = 5000;
  chain_adapter = none;
  blacklisted_addresses = codes "bad" ∷ [];
  whitelisted_addresses = [];
}

abbrev quiet : Payload → Bool
quiet payload = false

abbrev to_router : Payload
to_router = record { data_raw = some (codes "0x"); to_raw = some (codes "r ") }

router_accepted : validate a_codec a_config [] quiet to_router ≡ returned true
unfolding validate enforce_addresses elem text_eq strip
router_accepted = refl

validate-Allowed_example :
    (to_raw outer_to : Text) × (to_router.to_raw ≡ some to_raw)
    × (a_codec.to_checksum_address (strip to_raw) ≡ some outer_to)
    × Allowed a_config outer_to
validate-Allowed_example = validate-Allowed a_codec a_config [] quiet to_router true router_accepted

swap_accepted :
    validate_builtin a_codec a_config [] quiet to_router
      (codes "r")
      swap_exact_tokens_for_tokens_selector
      []
    ≡ returned true
unfolding validate_builtin router multicall check_route collect_outer outer_of accumulate_swap
    add_all enforce_addresses elem text_eq
swap_accepted = refl

validate_builtin-CheckedSwap_example : CheckedSwap a_codec a_config []
validate_builtin-CheckedSwap_example =
    validate_builtin-CheckedSwap a_codec a_config [] quiet to_router (codes "r") [] true
      swap_accepted

router_is : router a_codec a_config ≡ returned (codes "r")
unfolding router
router_is = refl

multicall_is : multicall a_codec a_config ≡ returned (codes "m")
unfolding multicall
multicall_is = refl

apart : text_eq (codes "r") (codes "m") ≡ false
unfolding text_eq
apart = refl

not_v3 : elem swap_exact_tokens_for_eth_selector (v3_selectors a_codec a_config) ≡ false
unfolding elem text_eq
not_v3 = refl

eth_swap_undecoded_example :
    validate_builtin a_codec a_config [] quiet to_router
      (codes "r")
      swap_exact_tokens_for_eth_selector
      (0 ∷ [])
    ≡ accept a_codec a_config [] quiet to_router (codes "r" ∷ [])
eth_swap_undecoded_example =
    eth_swap_undecoded a_codec a_config [] quiet to_router (codes "r") (codes "m") (0 ∷ [])
      router_is multicall_is apart not_v3

-- A batch that calls itself at every level ends at the limit.
endless_batch :
    walk_multicall a_codec a_config levels plain [] (codes "m" ∷ []) ≡ raised depth_exceeded
unfolding walk_multicall walk_calls walk_inner inner_of multicall router elem text_eq
endless_batch = refl

abbrev batching_codec : Codec
batching_codec = record a_codec {
  decode_aggregate3 = λ body.
      some (record { target = codes "r"; cdata = swap_exact_tokens_for_tokens_selector } ∷ []);
}

batch_accepted :
    validate_builtin batching_codec a_config [] quiet to_router (codes "m") aggregate3_selector []
    ≡ returned true
unfolding validate_builtin router multicall check_route collect_outer outer_of accumulate_swap
    add_all enforce_addresses elem text_eq walk_multicall walk_calls walk_inner inner_of
batch_accepted = refl

validate_builtin-CheckedBatch_example : CheckedBatch batching_codec a_config levels plain []
validate_builtin-CheckedBatch_example =
    validate_builtin-CheckedBatch batching_codec a_config [] quiet to_router (codes "m") [] true
      batch_accepted
