-- ===== src/Defi/Multicall.antt =====
-- The walk over nested multicalls in lirix/layers/l3_defi_parser.py.
use lirix.Prelude.{
  ℕ, zero, suc, ◌+◌, not, Option, none, some, List, [], ◌∷◌, Text, codes, text_eq, elem, take, drop,
  is_empty, ◌==◌, if◌then◌else◌, Result, returned, raised, raise_if, ◌>>=◌, ◌>>◌,
}
use lirix.Defi.Types.{
  Bytes, DefiError, multicall_missing, router_missing, aggregate_undecodable, multicall_poisoning,
  router_poisoning, unsupported_inner_call, depth_exceeded, Codec, InnerCall, DefiConfig, Targets,
  or_raise, aggregate3_selector, aggregate3_value_selector, swap_exact_tokens_for_tokens_selector,
  swap_exact_tokens_for_eth_selector, swap_exact_eth_for_tokens_selector, moe_swap_selector,
  max_multicall_recursion_depth,
}
use lirix.Defi.Swaps.{checksum, accumulate_swap, accumulate_v3_swap, accumulate_moe_swap}

-- _walk_multicall and _walk_multicall_value
pub data Form : Type 0 where
  plain valued : Form

-- A text that is given and not empty.
abbrev truthy : Option Text → Option Text
truthy none = none
truthy (some t) = if is_empty t then none else some t

abbrev resolved : (Targets → Option Text) → Option Targets → Option Text
resolved key none = none
resolved key (some targets) = truthy (key targets)

-- What an inner call asks for, by its selector.
pub data Inner : Type 0 where
  batch : Form → Inner
  v2_swap v3_swap moe_swap unsupported : Inner

-- _walk_multicall_value takes no V3 swap and no Merchant Moe swap.
abbrev if_plain : Form → Inner → Inner
if_plain plain i = i
if_plain valued i = unsupported

module _ (codec : Codec) (config : DefiConfig) where
  abbrev contract_of : Option Text → Text → Option Text → DefiError → Result DefiError Text
  contract_of (some a) default adapted e = returned a
  contract_of none default adapted e =
      if config.chain_id == 1 then checksum codec default else or_raise adapted e

  -- _multicall, _router
  unfoldable pub multicall : Result DefiError Text
  multicall =
      contract_of (truthy config.multicall3_address)
        (codes "0xcA11bde05977b3631167028862bE2a173976CA11")
        (resolved (λ t. t.multicall3_address) config.chain_adapter) multicall_missing

  unfoldable pub router : Result DefiError Text
  router =
      contract_of (truthy config.uniswap_v2_router)
        (codes "0x7a250d5630B4cF539739dF2C5dAcb4c659F2488D")
        (resolved (λ t. t.uniswap_v2_router) config.chain_adapter) router_missing

  abbrev pub decode_calls : Form → Bytes → Option (List InnerCall)
  decode_calls plain body = codec.decode_aggregate3 body
  decode_calls valued body = codec.decode_aggregate3_value body

  unfoldable pub inner_of : Form → Bytes → Inner
  inner_of form sel =
      if text_eq sel aggregate3_selector
      then batch plain
      else if text_eq sel aggregate3_value_selector
      then batch valued
      else if elem sel (
          swap_exact_tokens_for_tokens_selector ∷ swap_exact_tokens_for_eth_selector
          ∷ swap_exact_eth_for_tokens_selector ∷ [])
      then v2_swap
      else if elem sel (codec.exact_input_selector ∷ codec.exact_output_selector ∷ [])
      then if_plain form v3_swap
      else if text_eq sel moe_swap_selector
      then if_plain form moe_swap
      else unsupported

  -- One inner call of known kind; `walk` walks a nested batch.
  unfoldable pub walk_inner :
      (Form → Bytes → List Text → Result DefiError (List Text))
      → Text
      → Text
      → Text
      → Inner
      → Bytes
      → List Text
      → Result DefiError (List Text)
  walk_inner walk mc rt taddr (batch form) body collected = do
    raise_if (not (text_eq taddr mc)) multicall_poisoning
    walk form body collected
  walk_inner walk mc rt taddr v2_swap body collected = do
    raise_if (not (text_eq taddr rt)) router_poisoning
    accumulate_swap codec body collected
  walk_inner walk mc rt taddr v3_swap body collected = accumulate_v3_swap codec body collected
  walk_inner walk mc rt taddr moe_swap body collected = accumulate_moe_swap codec body collected
  walk_inner walk mc rt taddr unsupported body collected = raised unsupported_inner_call

  -- The loop over the calls of a batch.
  unfoldable pub walk_calls :
      (Form → Bytes → List Text → Result DefiError (List Text))
      → Form
      → Text
      → Text
      → List InnerCall
      → List Text
      → Result DefiError (List Text)
  walk_calls walk form mc rt [] collected = returned collected
  walk_calls walk form mc rt (c ∷ rest) collected = do
    taddr ← checksum codec c.target
    after ←
        if is_empty c.cdata
        then returned (taddr ∷ collected)
        else walk_inner walk mc rt taddr (inner_of form (take 4 c.cdata)) (drop 4 c.cdata)
            (taddr ∷ collected)
    walk_calls walk form mc rt rest after

  -- The walk at the depth that leaves `left` levels: 6 at depth 0, none above
  -- MAX_MULTICALL_RECURSION_DEPTH.
  unfoldable pub walk_multicall : ℕ → Form → Bytes → List Text → Result DefiError (List Text)
  walk_multicall zero form body collected = raised depth_exceeded
  walk_multicall (suc left) form body collected = do
    mc ← multicall
    rt ← router
    calls ← or_raise (decode_calls form body) aggregate_undecodable
    walk_calls (walk_multicall left) form mc rt calls collected

abbrev pub levels : ℕ
levels = max_multicall_recursion_depth + 1
