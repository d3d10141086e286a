-- ===== src/Defi/Laws/Slippage.antt =====
-- Which swaps the calldata parser decodes, and what it has checked of them.
use lirix.Prelude.{
  ◌≡◌, ◌≢◌, refl, Bool, true, false, not, some, List, [], ◌∷◌, All, Text, text_eq, text_eq_refl,
  elem, elem_head, arith, ◌==◌, returned, >>=-eq-returned, raise_if,
}
use lirix.Defi.Types.{
  Bytes, Codec, DefiConfig, Payload, Plugin, Swap, or_raise, swap_exact_tokens_for_tokens_selector,
  swap_exact_tokens_for_eth_selector,
}
use lirix.Defi.Swaps.{checksum, add_all, accumulate_swap}
use lirix.Defi.Multicall.{v2_swap, multicall, router}
use lirix.Defi.Validate.{
  accept, check_route, collect_outer, outer_of, validate_builtin, v3_selectors,
}
use lirix.Defi.Laws.Keeps.{add_all-keeps}
use lirix.Defi.Laws.Accepted.{Allowed, accept-Allowed, or_raise-eq, raise_if-eq}

-- The address is valid, and its checksum form is allowed.
unfoldable pub AllowedRaw : Codec → DefiConfig → Text → Type 0
AllowedRaw codec config x = (c : Text) × (codec.to_checksum_address x ≡ some c) × Allowed config c

-- The body decodes to a swap with a minimum output whose recipient and tokens are allowed.
pub record CheckedSwap (codec : Codec) (config : DefiConfig) (body : Bytes) : Type 0 where
  pub swap : Swap
  pub decoded : codec.decode_swap body ≡ some swap
  pub bounded : swap.min_out ≢ 0
  pub paid : AllowedRaw codec config swap.recipient
  pub routed : All (AllowedRaw codec config) swap.path

module _ (codec : Codec) where
  pub Collected : List Text → Text → Type 0
  Collected out x = (c : Text) × (codec.to_checksum_address x ≡ some c) × (elem c out ≡ true)

  pub add_all-Collected :
      (path collected out : List Text)
      → add_all codec path collected ≡ returned out
      → All (Collected out) path
  unfolding add_all Collected
  add_all-Collected [] collected out h = tt
  add_all-Collected (x ∷ path) collected out h =
      let (c, e, h1) = >>=-eq-returned (checksum codec x) _ h in
      (
        (
          c,
          or_raise-eq _ _ e,
          add_all-keeps codec c path (c ∷ collected) out (elem_head c collected) h1,
        ),
        add_all-Collected path (c ∷ collected) out h1,
      )

  module _ (config : DefiConfig) where
    pub AllowedRaw-All :
        (out path : List Text)
        → ((c : Text) → elem c out ≡ true → Allowed config c)
        → All (Collected out) path
        → All (AllowedRaw codec config) path
    unfolding Collected AllowedRaw
    AllowedRaw-All out [] f ps = tt
    AllowedRaw-All out (x ∷ path) f (p, ps) = ((p.0, p.1, f p.0 p.2), AllowedRaw-All out path f ps)

    pub accumulate_swap-CheckedSwap :
        (body : Bytes) (collected out : List Text)
        → ((c : Text) → elem c out ≡ true → Allowed config c)
        → accumulate_swap codec body collected ≡ returned out
        → CheckedSwap codec config body
    unfolding accumulate_swap AllowedRaw
    accumulate_swap-CheckedSwap body collected out f h =
        let (swap, d, h1) = >>=-eq-returned (or_raise (codec.decode_swap body) _) _ h in
        let (_, positive, h2) = >>=-eq-returned (raise_if (swap.min_out == 0) _) _ h1 in
        let (c, e, h3) = >>=-eq-returned (checksum codec swap.recipient) _ h2 in
        let nonzero = raise_if-eq _ _ positive in
        record {
          swap = swap;
          decoded = or_raise-eq _ _ d;
          bounded = ground (arith, nonzero);
          paid = (
            c,
            or_raise-eq _ _ e,
            f c (add_all-keeps codec c swap.path (c ∷ collected) out (elem_head c collected) h3),
          );
          routed =
              AllowedRaw-All out swap.path f (add_all-Collected swap.path (c ∷ collected) out h3);
        }

-- When calldata of swapExactTokensForTokens is accepted without a plugin, its body decodes to a
-- swap with a minimum output other than 0, and its recipient and every token of its path are valid
-- addresses, not block-listed and on the whitelist if there is one.
pub validate_builtin-CheckedSwap :
    (codec : Codec) (config : DefiConfig) (plugins : List Plugin) (hook_raises : Payload → Bool)
    (payload : Payload) (outer_to : Text) (body : Bytes) (b : Bool)
    → validate_builtin codec config plugins hook_raises payload outer_to
        swap_exact_tokens_for_tokens_selector body
      ≡ returned b
    → CheckedSwap codec config body
unfolding validate_builtin collect_outer outer_of text_eq
validate_builtin-CheckedSwap codec config plugins hook_raises payload outer_to body b h =
    let sel = swap_exact_tokens_for_tokens_selector in
    let (rt, _, h1) = >>=-eq-returned (router codec config) _ h in
    let (mc, _, h2) = >>=-eq-returned (multicall codec config) _ h1 in
    let (_, _, h3) = >>=-eq-returned (check_route codec config mc rt outer_to sel body) _ h2 in
    let (collected, e, h4) =
      >>=-eq-returned (collect_outer codec config mc rt outer_to v2_swap body) _ h3 in
    let (_, _, e1) = >>=-eq-returned (raise_if (not (text_eq outer_to rt)) _) _ e in
    accumulate_swap-CheckedSwap codec config body (outer_to ∷ []) collected
      (λ c m. accept-Allowed codec config plugins hook_raises payload collected c b h4 m) e1

-- Calldata of swapExactTokensForETH at the router is accepted whatever its body, unless the
-- router itself is refused by the lists or a hook raises: no recipient, token or minimum output is
-- looked at. This is without a plugin, when the router is not the multicall contract and the hashes
-- of the V3 selectors differ from that of this one.
pub eth_swap_undecoded :
    (codec : Codec) (config : DefiConfig) (plugins : List Plugin) (hook_raises : Payload → Bool)
    (payload : Payload) (rt mc : Text) (body : Bytes)
    → router codec config ≡ returned rt
    → multicall codec config ≡ returned mc
    → text_eq rt mc ≡ false
    → elem swap_exact_tokens_for_eth_selector (v3_selectors codec config) ≡ false
    → validate_builtin codec config plugins hook_raises payload rt
        swap_exact_tokens_for_eth_selector body
      ≡ accept codec config plugins hook_raises payload (rt ∷ [])
unfolding validate_builtin collect_outer check_route outer_of elem
eth_swap_undecoded codec config plugins hook_raises payload rt mc body r m apart other =
    rw (r, m, text_eq_refl rt, apart, other) refl
