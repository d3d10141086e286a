-- ===== src/Defi/Validate.antt =====
-- DeFiPayloadParser.validate of lirix/layers/l3_defi_parser.py.
use lirix.Prelude.{
  Bool, true, false, not, ◌&&◌, Option, none, some, List, [], ◌∷◌, any, all, length, Text, codes,
  from_hex, strip, text_eq, elem, take, drop, ltb, if◌then◌else◌, Result, returned, raise_if, ◌>>=◌,
  ◌>>◌,
}
use lirix.Defi.Types.{
  Bytes, DefiError, data_not_string, to_not_string, data_not_hex, plugin_failed, non_swap_at_router,
  non_aggregate_at_multicall, v3_undecodable, moe_undecodable, route_poison, block_listed,
  not_whitelisted, hook_raised, Codec, DefiConfig, Payload, Plugin, or_raise, aggregate3_selector,
  aggregate3_value_selector, swap_exact_tokens_for_tokens_selector,
  swap_exact_tokens_for_eth_selector, swap_exact_eth_for_tokens_selector, moe_swap_selector,
}
use lirix.Defi.Swaps.{checksum, accumulate_swap, accumulate_v3_swap, accumulate_moe_swap}
use lirix.Defi.Multicall.{
  plain, valued, Inner, batch, v2_swap, v3_swap, moe_swap, unsupported, multicall, router,
  walk_multicall, levels,
}

abbrev pub find_plugin : List Plugin → Bytes → Text → Option Plugin
find_plugin [] sel outer_to = none
find_plugin (p ∷ rest) sel outer_to =
    let later = find_plugin rest sel outer_to in if p.can_handle sel outer_to then some p else later

abbrev pub is_empty_list : List Text → Bool
is_empty_list [] = true
is_empty_list (a ∷ rest) = false

module _ (codec : Codec) (config : DefiConfig) where
  -- _enforce_addresses
  unfoldable pub enforce_addresses : List Text → Result DefiError (Unit {0})
  enforce_addresses addresses = do
    raise_if (any (λ a. elem a config.blacklisted_addresses) addresses) block_listed
    raise_if
        (not (is_empty_list config.whitelisted_addresses)
          && not (all (λ a. elem a config.whitelisted_addresses) addresses))
        not_whitelisted

  abbrev pub v3_selectors : List Bytes
  v3_selectors = codec.exact_input_selector ∷ codec.exact_output_selector ∷ []

  abbrev pub swap_selectors : List Bytes
  swap_selectors =
      swap_exact_tokens_for_tokens_selector ∷ swap_exact_tokens_for_eth_selector
      ∷ swap_exact_eth_for_tokens_selector ∷ moe_swap_selector ∷ v3_selectors

  -- The guards on calldata for the router and for the multicall contract.
  unfoldable pub check_route : Text → Text → Text → Bytes → Bytes → Result DefiError (Unit {0})
  check_route mc rt outer_to sel body = do
    raise_if (text_eq outer_to rt && not (elem sel swap_selectors)) non_swap_at_router
    raise_if (text_eq outer_to rt && elem sel v3_selectors && ltb (length body) 4) v3_undecodable
    raise_if (text_eq outer_to rt && text_eq sel moe_swap_selector && ltb (length body) 4)
        moe_undecodable
    raise_if
        (text_eq outer_to mc
          && not (elem sel (aggregate3_selector ∷ aggregate3_value_selector ∷ [])))
        non_aggregate_at_multicall

  -- The branches on the outer selector. The two swaps with ETH are in none of them.
  unfoldable pub outer_of : Bytes → Inner
  outer_of sel =
      if text_eq sel aggregate3_selector
      then batch plain
      else if text_eq sel aggregate3_value_selector
      then batch valued
      else if text_eq sel swap_exact_tokens_for_tokens_selector
      then v2_swap
      else if elem sel v3_selectors
      then v3_swap
      else if text_eq sel moe_swap_selector
      then moe_swap
      else unsupported

  unfoldable pub collect_outer : Text → Text → Text → Inner → Bytes → Result DefiError (List Text)
  collect_outer mc rt outer_to (batch form) body = do
    raise_if (not (text_eq outer_to mc)) route_poison
    walk_multicall codec config levels form body (outer_to ∷ [])
  collect_outer mc rt outer_to v2_swap body = do
    raise_if (not (text_eq outer_to rt)) route_poison
    accumulate_swap codec body (outer_to ∷ [])
  collect_outer mc rt outer_to v3_swap body = do
    raise_if (not (text_eq outer_to rt)) route_poison
    accumulate_v3_swap codec body (outer_to ∷ [])
  collect_outer mc rt outer_to moe_swap body = do
    raise_if (not (text_eq outer_to rt)) route_poison
    accumulate_moe_swap codec body (outer_to ∷ [])
  collect_outer mc rt outer_to unsupported body = returned (outer_to ∷ [])

  module _ (plugins : List Plugin) (hook_raises : Payload → Bool) where
    -- The lists, then the hooks.
    abbrev pub accept : Payload → List Text → Result DefiError Bool
    accept payload collected = do
      enforce_addresses collected
      raise_if (hook_raises payload) hook_raised
      returned true

    -- From the guards on the router and the multicall contract to the end.
    unfoldable pub validate_builtin : Payload → Text → Bytes → Bytes → Result DefiError Bool
    validate_builtin payload outer_to sel body = do
      rt ← router codec config
      mc ← multicall codec config
      check_route mc rt outer_to sel body
      collected ← collect_outer mc rt outer_to (outer_of sel) body
      accept payload collected

    unfoldable pub by_plugin :
        Option Plugin → Payload → Text → Bytes → Bytes → Result DefiError Bool
    by_plugin none payload outer_to sel body = validate_builtin payload outer_to sel body
    by_plugin (some p) payload outer_to sel body = do
      raise_if (p.raises sel body payload) plugin_failed
      accept payload (outer_to ∷ [])

    -- A blob is a selector of 4 bytes and a body, or is shorter than a selector.
    unfoldable pub validate_blob : Payload → Text → Bytes → Result DefiError Bool
    validate_blob payload outer_to blob =
        if ltb (length blob) 4
        then accept payload (outer_to ∷ [])
        else by_plugin (find_plugin plugins (take 4 blob) outer_to) payload outer_to (take 4 blob)
            (drop 4 blob)

    unfoldable pub validate : Payload → Result DefiError Bool
    validate payload = do
      data_raw ← or_raise payload.data_raw data_not_string
      to_raw ← or_raise payload.to_raw to_not_string
      outer_to ← checksum codec (strip to_raw)
      if text_eq data_raw (codes "0x")
          then accept payload (outer_to ∷ [])
          else or_raise (from_hex (drop 2 data_raw)) data_not_hex >>= validate_blob payload outer_to
