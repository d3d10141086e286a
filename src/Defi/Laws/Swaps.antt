-- ===== src/Defi/Laws/Swaps.antt =====
-- What the calldata parser has checked of a V3 swap and of a Merchant Moe swap.
use lirix.Prelude.{
  ◌≡◌, ◌≢◌, true, some, List, ◌∷◌, Text, elem, elem_head, arith, ◌==◌, returned, >>=-eq-returned,
  raise_if,
}
use lirix.Defi.Types.{Bytes, Codec, DefiConfig, V3Swap, or_raise}
use lirix.Defi.Swaps.{checksum, accumulate_moe_swap, accumulate_v3_swap}
use lirix.Defi.Laws.Keeps.{add_all-keeps, collect_v3_path_addresses-keeps}
use lirix.Defi.Laws.Accepted.{Allowed, or_raise-eq, raise_if-eq}
use lirix.Defi.Laws.Slippage.{AllowedRaw, CheckedSwap, add_all-Collected, AllowedRaw-All}

-- The body decodes to a V3 swap with an input and a minimum output, for an allowed recipient.
pub record CheckedV3Swap (codec : Codec) (config : DefiConfig) (body : Bytes) : Type 0 where
  pub swap : V3Swap
  pub decoded : codec.decode_v3_swap body ≡ some swap
  pub bounded : swap.amount_out_min ≢ 0
  pub funded : swap.amount_in ≢ 0
  pub paid : AllowedRaw codec config swap.recipient

module _ (codec : Codec) (config : DefiConfig) where
  unfoldable pub AllAllowed : List Text → Type 0
  AllAllowed out = (c : Text) → elem c out ≡ true → Allowed config c

  pub accumulate_v3_swap-CheckedV3Swap :
      (body : Bytes) (collected out : List Text)
      → AllAllowed out
      → accumulate_v3_swap codec body collected ≡ returned out
      → CheckedV3Swap codec config body
  unfolding accumulate_v3_swap AllowedRaw AllAllowed
  accumulate_v3_swap-CheckedV3Swap body collected out f h =
      let (swap, d, h1) = >>=-eq-returned (or_raise (codec.decode_v3_swap body) _) _ h in
      let (_, bounded, h2) = >>=-eq-returned (raise_if (swap.amount_out_min == 0) _) _ h1 in
      let (_, funded, h3) = >>=-eq-returned (raise_if (swap.amount_in == 0) _) _ h2 in
      let (c, e, h4) = >>=-eq-returned (checksum codec swap.recipient) _ h3 in
      let nonzero = raise_if-eq _ _ bounded in
      let nonzero' = raise_if-eq _ _ funded in
      record {
        swap = swap;
        decoded = or_raise-eq _ _ d;
        bounded = ground (arith, nonzero);
        funded = ground (arith, nonzero');
        paid = (
          c,
          or_raise-eq _ _ e,
          f c (
              collect_v3_path_addresses-keeps codec c swap.path (c ∷ collected) out
                (elem_head c collected) h4),
        );
      }

  pub accumulate_moe_swap-CheckedSwap :
      (body : Bytes) (collected out : List Text)
      → AllAllowed out
      → accumulate_moe_swap codec body collected ≡ returned out
      → CheckedSwap codec config body
  unfolding accumulate_moe_swap AllowedRaw AllAllowed
  accumulate_moe_swap-CheckedSwap body collected out f h =
      let (swap, d, h1) = >>=-eq-returned (or_raise (codec.decode_swap body) _) _ h in
      let (_, bounded, h2) = >>=-eq-returned (raise_if (swap.min_out == 0) _) _ h1 in
      let (_, _, h3) = >>=-eq-returned (raise_if (swap.amount_in == 0) _) _ h2 in
      let (c, e, h4) = >>=-eq-returned (checksum codec swap.recipient) _ h3 in
      let nonzero = raise_if-eq _ _ bounded in
      record {
        swap = swap;
        decoded = or_raise-eq _ _ d;
        bounded = ground (arith, nonzero);
        paid = (
          c,
          or_raise-eq _ _ e,
          f c (add_all-keeps codec c swap.path (c ∷ collected) out (elem_head c collected) h4),
        );
        routed =
            AllowedRaw-All codec config out swap.path f
              (add_all-Collected codec swap.path (c ∷ collected) out h4);
      }
