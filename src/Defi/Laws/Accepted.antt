-- ===== src/Defi/Laws/Accepted.antt =====
-- What `validate` of the calldata parser has checked when it accepts.
use lirix.Prelude.{
  from_hex, ◌≡◌, refl, sym, Bool, true, false, not, ◌||◌, text_eq→eq, Option, none, some, List, [],
  ◌∷◌, any, all, Text, codes, strip, text_eq, elem, elem_head, arith, take, drop, length, ltb,
  if◌then◌else◌, Result, returned, >>=-eq-returned, raise_if,
}
use lirix.Defi.Types.{Bytes, DefiError, Codec, DefiConfig, Payload, Plugin, or_raise}
use lirix.Defi.Swaps.{checksum}
use lirix.Defi.Multicall.{
  Inner, batch, v2_swap, v3_swap, moe_swap, unsupported, multicall, router, levels,
}
use lirix.Defi.Validate.{
  check_route, enforce_addresses, is_empty_list, accept, collect_outer, outer_of, validate_builtin,
  by_plugin, find_plugin, validate_blob, validate,
}
use lirix.Defi.Laws.Keeps.{
  accumulate_swap-keeps, accumulate_v3_swap-keeps, accumulate_moe_swap-keeps, walk_multicall-keeps,
}

-- The address is not block-listed, and is on the whitelist if there is one.
unfoldable pub Allowed : DefiConfig → Text → Type 0
Allowed config a =
    (elem a config.blacklisted_addresses ≡ false)
    × ((is_empty_list config.whitelisted_addresses || elem a config.whitelisted_addresses) ≡ true)

pub or_raise-eq {ℓ} :
    {A : Type ℓ} (o : Option A) (e : DefiError) {x : A} → or_raise o e ≡ returned x → o ≡ some x
or_raise-eq none e h = cc
or_raise-eq (some x) e h = cc

pub raise_if-eq : (b : Bool) (e : DefiError) {u : Unit {0}} → raise_if b e ≡ returned u → b ≡ false
raise_if-eq true e h = cc
raise_if-eq false e h = refl

any-elem :
    (p : Text → Bool) (a : Text) (xs : List Text)
    → elem a xs ≡ true
    → any p xs ≡ false
    → p a ≡ false
unfolding elem
any-elem p a [] m h = cc
any-elem p a (b ∷ xs) m h = ground (arith, any-elem p a xs, text_eq→eq a b)

all-elem :
    (p : Text → Bool) (a : Text) (xs : List Text) → elem a xs ≡ true → all p xs ≡ true → p a ≡ true
unfolding elem
all-elem p a [] m h = cc
all-elem p a (b ∷ xs) m h = ground (arith, all-elem p a xs, text_eq→eq a b)

abbrev returned_set : List Text → Result DefiError (List Text)
returned_set collected = returned collected

returned_injective : (x y : List Text) → returned_set x ≡ returned y → x ≡ y
returned_injective x y h = cc

module _ (codec : Codec) (config : DefiConfig) where
  enforce_addresses-Allowed :
      (xs : List Text) (a : Text) {u : Unit {0}}
      → enforce_addresses codec config xs ≡ returned u
      → elem a xs ≡ true
      → Allowed config a
  unfolding enforce_addresses Allowed
  enforce_addresses-Allowed xs a h m =
      let (_, listed, h1) =
        >>=-eq-returned (raise_if (any (λ x. elem x config.blacklisted_addresses) xs) _) _ h in
      let white = raise_if-eq _ _ h1 in
      (
        any-elem (λ x. elem x config.blacklisted_addresses) a xs m (raise_if-eq _ _ listed),
        ground (arith, white, all-elem (λ x. elem x config.whitelisted_addresses) a xs m),
      )

  -- Every branch keeps the target.
  collect_outer-keeps :
      (mc rt outer_to : Text) (i : Inner) (body : Bytes) (out : List Text)
      → collect_outer codec config mc rt outer_to i body ≡ returned out
      → elem outer_to out ≡ true
  unfolding collect_outer
  collect_outer-keeps mc rt outer_to (batch form) body out h =
      let (_, _, h1) = >>=-eq-returned (raise_if (not (text_eq outer_to mc)) _) _ h in
      walk_multicall-keeps codec config outer_to levels form body (outer_to ∷ []) out
        (elem_head outer_to []) h1
  collect_outer-keeps mc rt outer_to v2_swap body out h =
      let (_, _, h1) = >>=-eq-returned (raise_if (not (text_eq outer_to rt)) _) _ h in
      accumulate_swap-keeps codec outer_to body (outer_to ∷ []) out (elem_head outer_to []) h1
  collect_outer-keeps mc rt outer_to v3_swap body out h =
      let (_, _, h1) = >>=-eq-returned (raise_if (not (text_eq outer_to rt)) _) _ h in
      accumulate_v3_swap-keeps codec outer_to body (outer_to ∷ []) out (elem_head outer_to []) h1
  collect_outer-keeps mc rt outer_to moe_swap body out h =
      let (_, _, h1) = >>=-eq-returned (raise_if (not (text_eq outer_to rt)) _) _ h in
      accumulate_moe_swap-keeps codec outer_to body (outer_to ∷ []) out (elem_head outer_to []) h1
  collect_outer-keeps mc rt outer_to unsupported body out h =
      rw (sym (returned_injective _ _ h)) (elem_head outer_to [])

  pub accept-Allowed :
      (plugins : List Plugin) (hook_raises : Payload → Bool) (payload : Payload)
      (collected : List Text) (a : Text) (b : Bool)
      → accept codec config plugins hook_raises payload collected ≡ returned b
      → elem a collected ≡ true
      → Allowed config a
  accept-Allowed plugins hook_raises payload collected a b h m =
      let (_, listed, _) = >>=-eq-returned (enforce_addresses codec config collected) _ h in
      enforce_addresses-Allowed collected a listed m

module _ (codec : Codec) (config : DefiConfig) (plugins : List Plugin)
    (hook_raises : Payload → Bool) where
  validate_builtin-Allowed :
      (payload : Payload) (outer_to : Text) (sel body : Bytes) (b : Bool)
      → validate_builtin codec config plugins hook_raises payload outer_to sel body ≡ returned b
      → Allowed config outer_to
  unfolding validate_builtin
  validate_builtin-Allowed payload outer_to sel body b h =
      let (rt, _, h1) = >>=-eq-returned (router codec config) _ h in
      let (mc, _, h2) = >>=-eq-returned (multicall codec config) _ h1 in
      let (_, _, h6) = >>=-eq-returned (check_route codec config mc rt outer_to sel body) _ h2 in
      let (collected, e, h7) =
        >>=-eq-returned (collect_outer codec config mc rt outer_to (outer_of codec config sel) body)
          _ h6 in
      accept-Allowed codec config plugins hook_raises payload collected outer_to b h7 (
        collect_outer-keeps codec config mc rt outer_to (outer_of codec config sel) body collected
          e)

  by_plugin-Allowed :
      (p : Option Plugin) (payload : Payload) (outer_to : Text) (sel body : Bytes) (b : Bool)
      → by_plugin codec config plugins hook_raises p payload outer_to sel body ≡ returned b
      → Allowed config outer_to
  unfolding by_plugin
  by_plugin-Allowed none payload outer_to sel body b h =
      validate_builtin-Allowed payload outer_to sel body b h
  by_plugin-Allowed (some p) payload outer_to sel body b h =
      let (_, _, h1) = >>=-eq-returned (raise_if (p.raises sel body payload) _) _ h in
      accept-Allowed codec config plugins hook_raises payload (outer_to ∷ []) outer_to b h1
        (elem_head outer_to [])

  if-Allowed :
      (c : Bool) (x y : Result DefiError Bool) (a : Text) (b : Bool)
      → (x ≡ returned b → Allowed config a)
      → (y ≡ returned b → Allowed config a)
      → (if c then x else y) ≡ returned b
      → Allowed config a
  if-Allowed true x y a b f g h = f h
  if-Allowed false x y a b f g h = g h

  validate_blob-Allowed :
      (payload : Payload) (outer_to : Text) (blob : Bytes) (b : Bool)
      → validate_blob codec config plugins hook_raises payload outer_to blob ≡ returned b
      → Allowed config outer_to
  unfolding validate_blob
  validate_blob-Allowed payload outer_to blob b h =
      if-Allowed (ltb (length blob) 4) _ _ outer_to b
        (λ e.
          accept-Allowed codec config plugins hook_raises payload (outer_to ∷ []) outer_to b e
            (elem_head outer_to []))
        (λ e.
          by_plugin-Allowed (find_plugin plugins (take 4 blob) outer_to) payload outer_to
            (take 4 blob) (drop 4 blob) b e)
        h

-- Whenever `validate` accepts a payload, on every path, that of the plugins and that of an empty
-- calldata included, the payload's target is a valid address that is not block-listed and, where
-- there is a whitelist, is on it.
pub validate-Allowed :
    (codec : Codec) (config : DefiConfig) (plugins : List Plugin) (hook_raises : Payload → Bool)
    (payload : Payload) (b : Bool)
    → validate codec config plugins hook_raises payload ≡ returned b
    → (to_raw outer_to : Text) × (payload.to_raw ≡ some to_raw)
      × (codec.to_checksum_address (strip to_raw) ≡ some outer_to)
      × Allowed config outer_to
unfolding validate
validate-Allowed codec config plugins hook_raises payload b h =
    let (data_raw, _, h1) = >>=-eq-returned (or_raise payload.data_raw _) _ h in
    let (to_raw, t, h2) = >>=-eq-returned (or_raise payload.to_raw _) _ h1 in
    let (outer_to, c, h3) = >>=-eq-returned (checksum codec (strip to_raw)) _ h2 in
    (
      to_raw,
      outer_to,
      or_raise-eq _ _ t,
      or_raise-eq _ _ c,
      if-Allowed codec config plugins hook_raises (text_eq data_raw (codes "0x")) _ _ outer_to b
          (λ e.
            accept-Allowed codec config plugins hook_raises payload (outer_to ∷ []) outer_to b e
              (elem_head outer_to []))
          (λ e.
            let (blob, _, h4) = >>=-eq-returned (or_raise (from_hex (drop 2 data_raw)) _) _ e in
            validate_blob-Allowed codec config plugins hook_raises payload outer_to blob b h4)
          h3,
    )
