-- ===== src/Defi/Laws/Keeps.antt =====
-- No step of the calldata parser removes a collected address.
use lirix.Prelude.{
  ℕ, zero, suc, ◌≡◌, sym, ◌++◌, Bool, true, false, List, [], ◌∷◌, Text, codes, elem, elem_tail,
  is_empty, take, drop, Result, returned, >>=-eq-returned, raise_if, ◌==◌, ltb, not, length, ◌%◌,
  ◌/◌, text_eq, if◌then◌else◌,
}
use lirix.Defi.Types.{Bytes, DefiError, Codec, DefiConfig, InnerCall, or_raise}
use lirix.Defi.Swaps.{
  checksum, hex, add_all, accumulate_swap, collect_hops, collect_v3_path_addresses,
  accumulate_v3_swap, accumulate_moe_swap,
}
use lirix.Defi.Multicall.{
  Form, Inner, batch, v2_swap, v3_swap, moe_swap, unsupported, multicall, router, inner_of,
  decode_calls, walk_inner, walk_calls, walk_multicall,
}

abbrev done : List Text → Result DefiError (List Text)
done collected = returned collected

returned_injective : (x y : List Text) → done x ≡ returned y → x ≡ y
returned_injective x y h = cc

-- What a walk over a nested batch must keep for the walk around it to keep it.
abbrev pub Walk : Type 0
Walk = Form → Bytes → List Text → Result DefiError (List Text)

abbrev pub KeepsBy : Text → Walk → Type 0
KeepsBy a walk =
    (form : Form) (body : Bytes) (collected out : List Text)
    → elem a collected ≡ true
    → walk form body collected ≡ returned out
    → elem a out ≡ true

module _ (codec : Codec) (a : Text) where
  pub add_all-keeps :
      (path collected out : List Text)
      → elem a collected ≡ true
      → add_all codec path collected ≡ returned out
      → elem a out ≡ true
  unfolding add_all
  add_all-keeps [] collected out m h = rw (sym (returned_injective _ _ h)) m
  add_all-keeps (x ∷ path) collected out m h =
      let (c, _, h1) = >>=-eq-returned (checksum codec x) _ h in
      add_all-keeps path (c ∷ collected) out (elem_tail a c collected m) h1

  pub accumulate_swap-keeps :
      (body : Bytes) (collected out : List Text)
      → elem a collected ≡ true
      → accumulate_swap codec body collected ≡ returned out
      → elem a out ≡ true
  unfolding accumulate_swap
  accumulate_swap-keeps body collected out m h =
      let (swap, _, h1) = >>=-eq-returned (or_raise (codec.decode_swap body) _) _ h in
      let (_, _, h2) = >>=-eq-returned (raise_if (swap.min_out == 0) _) _ h1 in
      let (c, _, h3) = >>=-eq-returned (checksum codec swap.recipient) _ h2 in
      add_all-keeps swap.path (c ∷ collected) out (elem_tail a c collected m) h3

  pub accumulate_moe_swap-keeps :
      (body : Bytes) (collected out : List Text)
      → elem a collected ≡ true
      → accumulate_moe_swap codec body collected ≡ returned out
      → elem a out ≡ true
  unfolding accumulate_moe_swap
  accumulate_moe_swap-keeps body collected out m h =
      let (swap, _, h1) = >>=-eq-returned (or_raise (codec.decode_swap body) _) _ h in
      let (_, _, h2) = >>=-eq-returned (raise_if (swap.min_out == 0) _) _ h1 in
      let (_, _, h3) = >>=-eq-returned (raise_if (swap.amount_in == 0) _) _ h2 in
      let (c, _, h4) = >>=-eq-returned (checksum codec swap.recipient) _ h3 in
      add_all-keeps swap.path (c ∷ collected) out (elem_tail a c collected m) h4

  collect_hops-keeps :
      (hops : ℕ) (rest : Bytes) (collected out : List Text)
      → elem a collected ≡ true
      → collect_hops codec hops rest collected ≡ returned out
      → elem a out ≡ true
  unfolding collect_hops
  collect_hops-keeps zero rest collected out m h = rw (sym (returned_injective _ _ h)) m
  collect_hops-keeps (suc hops) rest collected out m h =
      let (c, _, h1) =
        >>=-eq-returned (checksum codec (codes "0x" ++ hex (take 20 (drop 3 rest)))) _ h in
      collect_hops-keeps hops (drop 23 rest) (c ∷ collected) out (elem_tail a c collected m) h1

  pub collect_v3_path_addresses-keeps :
      (path : Bytes) (collected out : List Text)
      → elem a collected ≡ true
      → collect_v3_path_addresses codec path collected ≡ returned out
      → elem a out ≡ true
  unfolding collect_v3_path_addresses
  collect_v3_path_addresses-keeps path collected out m h =
      let (_, _, h1) = >>=-eq-returned (raise_if (ltb (length path) 20) _) _ h in
      let (_, _, h2) = >>=-eq-returned (raise_if (not (length path % 23 == 20)) _) _ h1 in
      let (d, _, h3) = >>=-eq-returned (checksum codec (codes "0x" ++ hex (take 20 path))) _ h2 in
      collect_hops-keeps (length path / 23) (drop 20 path) (d ∷ collected) out
        (elem_tail a d collected m) h3

  pub accumulate_v3_swap-keeps :
      (body : Bytes) (collected out : List Text)
      → elem a collected ≡ true
      → accumulate_v3_swap codec body collected ≡ returned out
      → elem a out ≡ true
  unfolding accumulate_v3_swap
  accumulate_v3_swap-keeps body collected out m h =
      let (swap, _, h1) = >>=-eq-returned (or_raise (codec.decode_v3_swap body) _) _ h in
      let (_, _, h2) = >>=-eq-returned (raise_if (swap.amount_out_min == 0) _) _ h1 in
      let (_, _, h3) = >>=-eq-returned (raise_if (swap.amount_in == 0) _) _ h2 in
      let (c, _, h4) = >>=-eq-returned (checksum codec swap.recipient) _ h3 in
      collect_v3_path_addresses-keeps swap.path (c ∷ collected) out (elem_tail a c collected m) h4

module _ (codec : Codec) (config : DefiConfig) (a : Text) where
  walk_inner-keeps :
      (walk : Walk) (mc rt taddr : Text) (i : Inner) (body : Bytes) (collected out : List Text)
      → KeepsBy a walk
      → elem a collected ≡ true
      → walk_inner codec config walk mc rt taddr i body collected ≡ returned out
      → elem a out ≡ true
  unfolding walk_inner
  walk_inner-keeps walk mc rt taddr (batch form) body collected out keeps m h =
      let (_, _, h1) = >>=-eq-returned (raise_if (not (text_eq taddr mc)) _) _ h in
      keeps form body collected out m h1
  walk_inner-keeps walk mc rt taddr v2_swap body collected out keeps m h =
      let (_, _, h1) = >>=-eq-returned (raise_if (not (text_eq taddr rt)) _) _ h in
      accumulate_swap-keeps codec a body collected out m h1
  walk_inner-keeps walk mc rt taddr v3_swap body collected out keeps m h =
      accumulate_v3_swap-keeps codec a body collected out m h
  walk_inner-keeps walk mc rt taddr moe_swap body collected out keeps m h =
      accumulate_moe_swap-keeps codec a body collected out m h
  walk_inner-keeps walk mc rt taddr unsupported body collected out keeps m h = cc

  -- One call of a batch: an empty one, or the inner call.
  pub walk_step-keeps :
      (walk : Walk) (empty : Bool) (mc rt taddr : Text) (i : Inner) (body : Bytes)
      (collected out : List Text)
      → KeepsBy a walk
      → elem a collected ≡ true
      → (if empty
          then returned collected
          else walk_inner codec config walk mc rt taddr i body collected)
        ≡ returned out
      → elem a out ≡ true
  walk_step-keeps walk true mc rt taddr i body collected out keeps m h =
      rw (sym (returned_injective _ _ h)) m
  walk_step-keeps walk false mc rt taddr i body collected out keeps m h =
      walk_inner-keeps walk mc rt taddr i body collected out keeps m h

  pub walk_calls-keeps :
      (walk : Walk) (form : Form) (mc rt : Text) (calls : List InnerCall)
      (collected out : List Text)
      → KeepsBy a walk
      → elem a collected ≡ true
      → walk_calls codec config walk form mc rt calls collected ≡ returned out
      → elem a out ≡ true
  unfolding walk_calls
  walk_calls-keeps walk form mc rt [] collected out keeps m h =
      rw (sym (returned_injective _ _ h)) m
  walk_calls-keeps walk form mc rt (c ∷ rest) collected out keeps m h =
      let (t, _, h1) = >>=-eq-returned (checksum codec c.target) _ h in
      let inner = inner_of codec config form (take 4 c.cdata) in
      let (after, e, h2) =
        >>=-eq-returned
          (if is_empty c.cdata
            then returned (t ∷ collected)
            else walk_inner codec config walk mc rt t inner (drop 4 c.cdata) (t ∷ collected))
          _ h1 in
      walk_calls-keeps walk form mc rt rest after out keeps
        (walk_step-keeps walk (is_empty c.cdata) mc rt t inner (drop 4 c.cdata) (t ∷ collected)
          after keeps (elem_tail a t collected m) e)
        h2

  pub walk_multicall-keeps : (left : ℕ) → KeepsBy a (walk_multicall codec config left)
  unfolding walk_multicall
  walk_multicall-keeps zero form body collected out m h = cc
  walk_multicall-keeps (suc left) form body collected out m h =
      let (mc, _, h1) = >>=-eq-returned (multicall codec config) _ h in
      let (rt, _, h2) = >>=-eq-returned (router codec config) _ h1 in
      let (calls, _, h3) =
        >>=-eq-returned (or_raise (decode_calls codec config form body) _) _ h2 in
      walk_calls-keeps (walk_multicall codec config left) form mc rt calls collected out
        (walk_multicall-keeps left) m h3
