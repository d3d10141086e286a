-- ===== src/Defi/Laws/Nested.antt =====
-- What the calldata parser has checked of a batch of calls, at every depth.
use lirix.Prelude.{
  ℕ, zero, suc, ◌≡◌, Bool, true, false, not, some, List, [], ◌∷◌, All, Text, text_eq, elem,
  elem_head, is_empty, take, drop, returned, >>=-eq-returned, raise_if, if◌then◌else◌,
}
use lirix.Defi.Types.{
  Bytes, Codec, DefiConfig, InnerCall, Payload, Plugin, or_raise, aggregate3_selector,
}
use lirix.Defi.Swaps.{checksum}
use lirix.Defi.Multicall.{
  Form, plain, Inner, batch, v2_swap, v3_swap, moe_swap, unsupported, multicall, router, inner_of,
  decode_calls, walk_inner, walk_calls, walk_multicall, levels,
}
use lirix.Defi.Validate.{check_route, collect_outer, outer_of, validate_builtin}
use lirix.Defi.Laws.Keeps.{Walk, KeepsBy, walk_step-keeps, walk_calls-keeps, walk_multicall-keeps}
use lirix.Defi.Laws.Accepted.{accept-Allowed, or_raise-eq}
use lirix.Defi.Laws.Slippage.{AllowedRaw, CheckedSwap, accumulate_swap-CheckedSwap}
use lirix.Defi.Laws.Swaps.{
  CheckedV3Swap, AllAllowed, accumulate_v3_swap-CheckedV3Swap, accumulate_moe_swap-CheckedSwap,
}

module _ (codec : Codec) (config : DefiConfig) where
  CheckedInner : (Form → Bytes → Type 0) → Inner → Bytes → Type 0
  CheckedInner nested (batch form) body = nested form body
  CheckedInner nested v2_swap body = CheckedSwap codec config body
  CheckedInner nested v3_swap body = CheckedV3Swap codec config body
  CheckedInner nested moe_swap body = CheckedSwap codec config body
  CheckedInner nested unsupported body = ⊥

  CheckedData : (Form → Bytes → Type 0) → Form → Bool → Bytes → Type 0
  CheckedData nested form true cdata = Unit
  CheckedData nested form false cdata =
      CheckedInner nested (inner_of codec config form (take 4 cdata)) (drop 4 cdata)

  CheckedCall : (Form → Bytes → Type 0) → Form → InnerCall → Type 0
  CheckedCall nested form c =
      AllowedRaw codec config c.target × CheckedData nested form (is_empty c.cdata) c.cdata

  -- The body decodes to calls whose targets are allowed; each is empty, a checked swap, or a
  -- checked batch at the next level.
  pub CheckedBatch : ℕ → Form → Bytes → Type 0
  CheckedBatch zero form body = ⊥
  CheckedBatch (suc left) form body =
      (calls : List InnerCall) × (decode_calls codec config form body ≡ some calls)
      × All (CheckedCall (CheckedBatch left) form) calls

  -- What a nested walk must establish.
  Establishes : (Form → Bytes → Type 0) → Walk → Type 0
  Establishes nested walk =
      (form : Form) (body : Bytes) (collected out : List Text)
      → AllAllowed codec config out
      → walk form body collected ≡ returned out
      → nested form body

  walk_inner-CheckedInner :
      (nested : Form → Bytes → Type 0) (walk : Walk) (mc rt taddr : Text) (i : Inner) (body : Bytes)
      (collected out : List Text)
      → Establishes nested walk
      → AllAllowed codec config out
      → walk_inner codec config walk mc rt taddr i body collected ≡ returned out
      → CheckedInner nested i body
  unfolding walk_inner CheckedInner Establishes AllAllowed
  walk_inner-CheckedInner nested walk mc rt taddr (batch form) body collected out est f h =
      let (_, _, h1) = >>=-eq-returned (raise_if (not (text_eq taddr mc)) _) _ h in
      est form body collected out f h1
  walk_inner-CheckedInner nested walk mc rt taddr v2_swap body collected out est f h =
      let (_, _, h1) = >>=-eq-returned (raise_if (not (text_eq taddr rt)) _) _ h in
      accumulate_swap-CheckedSwap codec config body collected out f h1
  walk_inner-CheckedInner nested walk mc rt taddr v3_swap body collected out est f h =
      accumulate_v3_swap-CheckedV3Swap codec config body collected out f h
  walk_inner-CheckedInner nested walk mc rt taddr moe_swap body collected out est f h =
      accumulate_moe_swap-CheckedSwap codec config body collected out f h
  walk_inner-CheckedInner nested walk mc rt taddr unsupported body collected out est f h = cc

  walk_step-CheckedData :
      (nested : Form → Bytes → Type 0) (walk : Walk) (empty : Bool) (form : Form)
      (mc rt taddr : Text) (cdata : Bytes) (collected out : List Text)
      → Establishes nested walk
      → AllAllowed codec config out
      → (if empty
          then returned collected
          else walk_inner codec config walk mc rt taddr
              (inner_of codec config form (take 4 cdata))
              (drop 4 cdata)
              collected)
        ≡ returned out
      → CheckedData nested form empty cdata
  unfolding CheckedData
  walk_step-CheckedData nested walk true form mc rt taddr cdata collected out est f h = tt
  walk_step-CheckedData nested walk false form mc rt taddr cdata collected out est f h =
      walk_inner-CheckedInner nested walk mc rt taddr (inner_of codec config form (take 4 cdata))
        (drop 4 cdata) collected out est f h

  walk_calls-CheckedCall :
      (nested : Form → Bytes → Type 0) (walk : Walk) (form : Form) (mc rt : Text)
      (calls : List InnerCall) (collected out : List Text)
      → ((a : Text) → KeepsBy a walk)
      → Establishes nested walk
      → AllAllowed codec config out
      → walk_calls codec config walk form mc rt calls collected ≡ returned out
      → All (CheckedCall nested form) calls
  unfolding walk_calls CheckedCall AllAllowed AllowedRaw
  walk_calls-CheckedCall nested walk form mc rt [] collected out keeps est f h = tt
  walk_calls-CheckedCall nested walk form mc rt (c ∷ rest) collected out keeps est f h =
      let (t, target, h1) = >>=-eq-returned (checksum codec c.target) _ h in
      let inner = inner_of codec config form (take 4 c.cdata) in
      let (after, e, h2) =
        >>=-eq-returned
          (if is_empty c.cdata
            then returned (t ∷ collected)
            else walk_inner codec config walk mc rt t inner (drop 4 c.cdata) (t ∷ collected))
          _ h1 in
      let later = λ (x : Text) (m : elem x after ≡ true).
        f x (walk_calls-keeps codec config x walk form mc rt rest after out (keeps x) m h2) in
      (
        (
          (
            t,
            or_raise-eq _ _ target,
            later t (
                walk_step-keeps codec config t walk (is_empty c.cdata) mc rt t inner
                  (drop 4 c.cdata) (t ∷ collected) after (keeps t) (elem_head t collected) e),
          ),
          walk_step-CheckedData nested walk (is_empty c.cdata) form mc rt t c.cdata (t ∷ collected)
              after est later e,
        ),
        walk_calls-CheckedCall nested walk form mc rt rest after out keeps est f h2,
      )

  walk_multicall-CheckedBatch :
      (left : ℕ) → Establishes (CheckedBatch left) (walk_multicall codec config left)
  unfolding walk_multicall CheckedBatch Establishes
  walk_multicall-CheckedBatch zero form body collected out f h = cc
  walk_multicall-CheckedBatch (suc left) form body collected out f h =
      let (mc, _, h1) = >>=-eq-returned (multicall codec config) _ h in
      let (rt, _, h2) = >>=-eq-returned (router codec config) _ h1 in
      let (calls, d, h3) =
        >>=-eq-returned (or_raise (decode_calls codec config form body) _) _ h2 in
      (
        calls,
        or_raise-eq _ _ d,
        walk_calls-CheckedCall (CheckedBatch left) (walk_multicall codec config left) form mc rt
            calls collected out (λ a. walk_multicall-keeps codec config a left)
            (walk_multicall-CheckedBatch left) f h3,
      )

-- When aggregate3 calldata is accepted without a plugin, its batch is checked at every depth, at
-- most 6 levels in all: each body decodes, every target is an allowed address, every V2 and
-- Merchant Moe swap has a minimum output other than 0 and an allowed recipient and path, every V3
-- swap has an input and a minimum output other than 0 and an allowed recipient, and there is no
-- other call with calldata.
pub validate_builtin-CheckedBatch :
    (codec : Codec) (config : DefiConfig) (plugins : List Plugin) (hook_raises : Payload → Bool)
    (payload : Payload) (outer_to : Text) (body : Bytes) (b : Bool)
    → validate_builtin codec config plugins hook_raises payload outer_to aggregate3_selector body
      ≡ returned b
    → CheckedBatch codec config levels plain body
unfolding validate_builtin collect_outer outer_of text_eq Establishes AllAllowed
validate_builtin-CheckedBatch codec config plugins hook_raises payload outer_to body b h =
    let (rt, _, h1) = >>=-eq-returned (router codec config) _ h in
    let (mc, _, h2) = >>=-eq-returned (multicall codec config) _ h1 in
    let (_, _, h3) =
      >>=-eq-returned (check_route codec config mc rt outer_to aggregate3_selector body) _ h2 in
    let (collected, e, h4) =
      >>=-eq-returned (collect_outer codec config mc rt outer_to (batch plain) body) _ h3 in
    let (_, _, e1) = >>=-eq-returned (raise_if (not (text_eq outer_to mc)) _) _ e in
    walk_multicall-CheckedBatch codec config levels plain body (outer_to ∷ []) collected
      (λ c m. accept-Allowed codec config plugins hook_raises payload collected c b h4 m) e1
