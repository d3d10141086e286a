-- ===== src/Defi/Swaps.antt =====
-- The decoding of one swap in lirix/layers/l3_defi_parser.py. `collected` is a set of addresses.
use lirix.Prelude.{
  ℕ, zero, suc, ◌+◌, ◌-◌, ◌%◌, ◌/◌, not, List, [], ◌∷◌, ◌++◌, Text, codes, length, take, drop, ltb,
  ◌==◌, if◌then◌else◌, Result, returned, raise_if, ◌>>=◌, ◌>>◌,
}
use lirix.Defi.Types.{
  Bytes, DefiError, address_invalid, v3_undecodable, moe_undecodable, swap_undecodable,
  slippage_missing, amount_in_zero, v3_path_too_short, v3_path_malformed, Codec, or_raise,
}

abbrev hex_digit : ℕ → ℕ
hex_digit n = if ltb n 10 then b'0' + n else b'a' + (n - 10)

-- bytes.hex
unfoldable pub hex : Bytes → Text
hex [] = []
hex (b ∷ bs) = hex_digit (b / 16) ∷ hex_digit (b % 16) ∷ hex bs

module _ (codec : Codec) where
  abbrev pub checksum : Text → Result DefiError Text
  checksum a = or_raise (codec.to_checksum_address a) address_invalid

  unfoldable pub add_all : List Text → List Text → Result DefiError (List Text)
  add_all [] collected = returned collected
  add_all (a ∷ rest) collected = do c ← checksum a; add_all rest (c ∷ collected)

  -- _accumulate_swap
  unfoldable pub accumulate_swap : Bytes → List Text → Result DefiError (List Text)
  accumulate_swap body collected = do
    swap ← or_raise (codec.decode_swap body) swap_undecodable
    raise_if (swap.min_out == 0) slippage_missing
    recipient ← checksum swap.recipient
    add_all swap.path (recipient ∷ collected)

  -- The loop of _collect_v3_path_addresses over the hops: a fee of 3 bytes and an address of 20.
  -- It goes round once for each 23 bytes that are left.
  unfoldable pub collect_hops : ℕ → Bytes → List Text → Result DefiError (List Text)
  collect_hops zero rest collected = returned collected
  collect_hops (suc hops) rest collected = do
    c ← checksum (codes "0x" ++ hex (take 20 (drop 3 rest)))
    collect_hops hops (drop 23 rest) (c ∷ collected)

  -- _collect_v3_path_addresses
  unfoldable pub collect_v3_path_addresses : Bytes → List Text → Result DefiError (List Text)
  collect_v3_path_addresses path collected = do
    raise_if (ltb (length path) 20) v3_path_too_short
    raise_if (not (length path % 23 == 20)) v3_path_malformed
    c ← checksum (codes "0x" ++ hex (take 20 path))
    collect_hops (length path / 23) (drop 20 path) (c ∷ collected)

  -- _accumulate_v3_swap
  unfoldable pub accumulate_v3_swap : Bytes → List Text → Result DefiError (List Text)
  accumulate_v3_swap body collected = do
    swap ← or_raise (codec.decode_v3_swap body) v3_undecodable
    raise_if (swap.amount_out_min == 0) slippage_missing
    raise_if (swap.amount_in == 0) amount_in_zero
    recipient ← checksum swap.recipient
    collect_v3_path_addresses swap.path (recipient ∷ collected)

  -- _accumulate_moe_swap
  unfoldable pub accumulate_moe_swap : Bytes → List Text → Result DefiError (List Text)
  accumulate_moe_swap body collected = do
    swap ← or_raise (codec.decode_swap body) moe_undecodable
    raise_if (swap.min_out == 0) slippage_missing
    raise_if (swap.amount_in == 0) amount_in_zero
    recipient ← checksum swap.recipient
    add_all swap.path (recipient ∷ collected)
