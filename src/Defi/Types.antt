-- ===== src/Defi/Types.antt =====
-- The data of DeFiPayloadParser in lirix/layers/l3_defi_parser.py, and the selectors of
-- lirix/core/signatures.py. Bytes are numbers below 256, in a list as a text is.
use lirix.Prelude.{ℕ, Bool, Option, List, [], ◌∷◌, Text, Result, returned, raised, some, none}

abbrev pub Bytes : Type 0
Bytes = Text

-- One constructor for each place that raises, told apart by the words of its reason.
pub data DefiError : Type 0 where
  data_not_string to_not_string address_invalid data_not_hex plugin_failed : DefiError
  multicall_missing router_missing non_swap_at_router non_aggregate_at_multicall : DefiError
  v3_undecodable moe_undecodable swap_undecodable aggregate_undecodable : DefiError
  route_poison multicall_poisoning router_poisoning unsupported_inner_call : DefiError
  depth_exceeded slippage_missing amount_in_zero v3_path_too_short v3_path_malformed : DefiError
  block_listed not_whitelisted hook_raised : DefiError

-- (address,bool,bytes) and (address,bool,uint256,bytes), less the fields that are not read
pub record InnerCall : Type 0 where
  pub target : Text
  pub cdata : Bytes

-- (uint256,uint256,address[],address,uint256), less the deadline
pub record Swap : Type 0 where
  pub amount_in : ℕ
  pub min_out : ℕ
  pub path : List Text
  pub recipient : Text

-- (bytes,address,uint256,uint256,uint256,bytes), less the two last
pub record V3Swap : Type 0 where
  pub path : Bytes
  pub recipient : Text
  pub amount_in : ℕ
  pub amount_out_min : ℕ

-- The libraries: `none` is an exception of web3's to_checksum_address or of eth_abi's decode, and
-- the two selectors are the hashes of their signatures.
pub record Codec : Type 0 where
  pub to_checksum_address : Text → Option Text
  pub decode_aggregate3 : Bytes → Option (List InnerCall)
  pub decode_aggregate3_value : Bytes → Option (List InnerCall)
  pub decode_swap : Bytes → Option Swap
  pub decode_v3_swap : Bytes → Option V3Swap
  pub exact_input_selector : Bytes
  pub exact_output_selector : Bytes

-- What a chain adapter resolves.
pub record Targets : Type 0 where
  pub multicall3_address : Option Text
  pub uniswap_v2_router : Option Text

-- What is read of LirixConfig, and the chain adapter.
pub record DefiConfig : Type 0 where
  pub multicall3_address : Option Text
  pub uniswap_v2_router : Option Text
  pub chain_id : ℕ
  pub chain_adapter : Option Targets
  pub blacklisted_addresses : List Text
  pub whitelisted_addresses : List Text

-- `none` where the value is absent or no text.
pub record Payload : Type 0 where
  pub data_raw : Option Text
  pub to_raw : Option Text

-- A decoder plugin: whether it takes a call, and whether its decoding raises.
pub record Plugin : Type 0 where
  pub can_handle : Bytes → Text → Bool
  pub raises : Bytes → Bytes → Payload → Bool

-- AGGREGATE3_SELECTOR and the others
abbrev pub aggregate3_selector : Bytes
aggregate3_selector = 130 ∷ 173 ∷ 86 ∷ 203 ∷ []

abbrev pub aggregate3_value_selector : Bytes
aggregate3_value_selector = 23 ∷ 77 ∷ 234 ∷ 113 ∷ []

abbrev pub swap_exact_tokens_for_tokens_selector : Bytes
swap_exact_tokens_for_tokens_selector = 56 ∷ 237 ∷ 23 ∷ 57 ∷ []

abbrev pub swap_exact_eth_for_tokens_selector : Bytes
swap_exact_eth_for_tokens_selector = 127 ∷ 243 ∷ 106 ∷ 181 ∷ []

abbrev pub swap_exact_tokens_for_eth_selector : Bytes
swap_exact_tokens_for_eth_selector = 24 ∷ 203 ∷ 175 ∷ 229 ∷ []

abbrev pub moe_swap_selector : Bytes
moe_swap_selector = 208 ∷ 4 ∷ 240 ∷ 248 ∷ []

abbrev pub max_multicall_recursion_depth : ℕ
max_multicall_recursion_depth = 5

-- What was decoded, or the exception for it.
abbrev pub or_raise {ℓ} : {A : Type ℓ} → Option A → DefiError → Result DefiError A
or_raise none e = raised e
or_raise (some a) e = returned a
