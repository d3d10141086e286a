-- ===== src/Proxy/Probe.antt =====
-- The reads of ProxyPiercer in lirix/layers/l3_proxy_piercer.py: storage slots, and the eth_call
-- probes of a beacon and of a diamond, with the way each failure is answered.
use lirix.Prelude.{
  ℕ, Bool, true, not, Option, none, some, [], ◌∷◌, all, length, take, take_last, Text, codes,
  from_hex, to_hex, int_16, without_0x, ltb, ◌==◌, is_some, ◌&&◌, ◌++◌, Result, returned, raised,
  if◌then◌else◌, ◌>>=◌,
}

-- What the node's storage read and eth_call answer; ContractLogicError and BadFunctionCallOutput
-- are `reverted`.
pub data Raw : Type 0 where
  raw_bytes raw_text : Text → Raw
  raw_other : Raw

pub data CallOutcome : Type 0 where
  answered : Raw → CallOutcome
  reverted web3_failure transport_failure other_failure : CallOutcome

-- What a decoder of one ABI address answers; `undecodable` is one of _ABI_ADDRESS_DECODE_ERRORS.
pub data Decoded : Type 0 where
  decoded_text : Text → Decoded
  decoded_other undecodable decode_web3_failure decode_other_failure : Decoded

pub data CallData : Type 0 where
  hex_data bytes_data : Text → CallData

-- The reason of a LirixSecurityException "RPC Error while probing proxy".
pub data Reason : Type 0 where
  diamond_facet_eth_call diamond_facet_transport diamond_facet_unexpected : Reason
  beacon_implementation_eth_call beacon_implementation_transport : Reason
  beacon_implementation_unexpected : Reason
  proxy_address_abi_decode proxy_address_decode_unexpected : Reason

-- `storage_failed` and `not_an_address` are exceptions of web3 that pass through.
pub data ProbeError : Type 0 where
  storage_failed not_an_address missing_optional_dependency : ProbeError
  probe_failed : Reason → ProbeError

-- web3 and eth_abi: `abi_decode` is none where eth_abi is not installed; `to_checksum_address`
-- answers none where it raises ValueError.
pub record Node : Type 0 where
  pub get_storage_at : Text → ℕ → Option Text
  pub call : Text → CallData → CallOutcome
  pub abi_decode : Option (Text → Decoded)
  pub codec_decode : Text → Decoded
  pub to_checksum_address : Text → Option Text
  pub is_address : Text → Bool

abbrev pub Probed : Type 0 → Type 0
Probed A = Result ProbeError A

unfoldable pub implementation_slot : ℕ
implementation_slot =
    int_16 (codes "0x360894a13ba1a3210667c828492db98dca3e2076cc3735a920a3ca505d382bbc")

unfoldable pub beacon_slot : ℕ
beacon_slot = int_16 (codes "0xa3f0ad74e5423aebfd80d3ef4346578335a9a72aeaee59ff6cb3582b35133d50")

unfoldable pub admin_slot : ℕ
admin_slot = int_16 (codes "0xb53127684a568b3173ae13b9f8a6016e243e63b6e8ee1178d6a717850b5d6103")

unfoldable pub uups_slot : ℕ
uups_slot = int_16 (codes "0xc5f16f0fcc639fa48a6947836d9850f504798523bf8c9a3a87d5876bb1f7c97")

-- bytes.fromhex(DIAMOND_FACET_ADDRESS_SELECTOR[2:])
abbrev pub diamond_facet_address_selector : CallData
diamond_facet_address_selector = bytes_data (205 ∷ 255 ∷ 172 ∷ 198 ∷ [])

abbrev pub beacon_implementation_selector : CallData
beacon_implementation_selector = hex_data (codes "0x5c60da1b")

abbrev pub all_zero : Text → Bool
all_zero bs = all (λ b. b == 0) bs

abbrev pub or_else {ℓ κ} : {E : Type κ} {A : Type ℓ} → E → Option A → Result E A
or_else e none = raised e
or_else e (some a) = returned a

-- A condition that answers None, in front of the rest of a method.
abbrev pub none_if : {A : Type 0} → Bool → Probed (Option A) → Probed (Option A)
none_if b rest = if b then returned none else rest

abbrev pub is_empty_or_zero_word : Text → Bool
is_empty_or_zero_word [] = true
is_empty_or_zero_word (b ∷ bs) = (length (b ∷ bs) == 32) && all_zero (b ∷ bs)

-- The bytes of an answer, if it has any; an empty text is falsy, as empty bytes are.
abbrev pub answer_bytes : Raw → Option Text
answer_bytes (raw_bytes bs) = some bs
answer_bytes (raw_text t) = from_hex (without_0x t)
answer_bytes raw_other = none

module _ (node : Node) (strict_abi_decode : Bool) where
  abbrev pub checksum_address : Text → Probed Text
  checksum_address t = or_else not_an_address (node.to_checksum_address t)

  abbrev pub slot_address : Text → Probed (Option Text)
  slot_address raw =
      let tail = take_last 20 raw in
      none_if (is_empty_or_zero_word raw) (
        none_if ((length tail == 20) && all_zero tail)
          (checksum_address (codes "0x" ++ to_hex tail) >>= λ a. returned (some a)))

  -- _read_slot_address
  unfoldable pub read_slot_address : Text → ℕ → Probed (Option Text)
  read_slot_address address slot =
      or_else storage_failed (node.get_storage_at address slot) >>= slot_address

  abbrev pub decoder_output : Text → Decoded
  decoder_output bs = decode_with node.abi_decode
    where
      decode_with : Option (Text → Decoded) → Decoded
      decode_with none = node.codec_decode bs
      decode_with (some decode) = decode bs

  abbrev pub nonzero : Text → Option Text
  nonzero a = if int_16 a == 0 then none else some a

  abbrev pub decoded_address : Decoded → Probed (Option Text)
  decoded_address (decoded_text t) =
      none_if (not (node.is_address t)) (checksum_address t >>= λ a. returned (nonzero a))
  decoded_address decoded_other = returned none
  decoded_address undecodable = returned none
  decoded_address decode_web3_failure = raised (probe_failed proxy_address_abi_decode)
  decoded_address decode_other_failure = raised (probe_failed proxy_address_decode_unexpected)

  -- _decode_abi_address
  unfoldable pub decode_abi_address : Text → Probed (Option Text)
  decode_abi_address bs =
      if strict_abi_decode && not (is_some node.abi_decode)
      then raised missing_optional_dependency
      else decoded_address (decoder_output bs)

  abbrev pub word_address : Option Text → Probed (Option Text)
  word_address none = returned none
  word_address (some bs) = none_if (ltb (length bs) 32) (decode_abi_address (take 32 bs))

  -- _resolve_diamond_facet, for what eth_call gave
  abbrev pub diamond_facet : CallOutcome → Probed (Option Text)
  diamond_facet (answered raw) = word_address (answer_bytes raw)
  diamond_facet reverted = returned none
  diamond_facet web3_failure = raised (probe_failed diamond_facet_eth_call)
  diamond_facet transport_failure = raised (probe_failed diamond_facet_transport)
  diamond_facet other_failure = raised (probe_failed diamond_facet_unexpected)

  unfoldable pub resolve_diamond_facet : Text → Probed (Option Text)
  resolve_diamond_facet target = diamond_facet (node.call target diamond_facet_address_selector)

  -- _resolve_beacon_implementation, for what eth_call gave
  abbrev pub beacon_target : CallOutcome → Probed (Option Text)
  beacon_target (answered raw) = word_address (answer_bytes raw)
  beacon_target reverted = returned none
  beacon_target web3_failure = raised (probe_failed beacon_implementation_eth_call)
  beacon_target transport_failure = raised (probe_failed beacon_implementation_transport)
  beacon_target other_failure = raised (probe_failed beacon_implementation_unexpected)

  unfoldable pub resolve_beacon_implementation : Text → Probed (Option Text)
  resolve_beacon_implementation beacon =
      beacon_target (node.call beacon beacon_implementation_selector)
