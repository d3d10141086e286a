-- ===== src/Rpc/Laws/Selected.antt =====
-- What `select` and `commit` of Rpc.Reconcile return.
use Prim.Native.Nat.{max}
use mathlib.Core.Path.{subst}
use lirix.Prelude.{
  ℕ, ◌+◌, ◌-◌, ◌≤◌, ◌<◌, ◌≡◌, refl, sym, ap, ◌∙◌, Bool, true, false, Option, some, List, [], ◌∷◌,
  length, Text, Dict, get, All, arith, if◌then◌else◌, ltb, Result, returned, raised,
}
use lirix.Rpc.Types.{
  Rpc, LastError, spread_exceeded, RpcConfig, RpcError, quota_exhausted, reconcile_failed,
}
use lirix.Rpc.Breaker.{record_outcome}
use lirix.Rpc.Reconcile.{
  Mode, sync, async, Gathered, required_successes, select, commit, highest, lowest_of, best_item,
  better, settle, tolerated, item_leb, Item, any_quota, note_partial, after_hook, bind_chosen,
}

All-better {κ} : (P : Item → Type κ) (item best : Item) → P item → P best → P (better item best)
All-better P item best q p = go (item_leb item best)
  where
    go : (b : Bool) → P (if b then best else item)
    go true = p
    go false = q

All-best_item {κ} :
    (P : Item → Type κ) (best : Item) (items : List Item)
    → P best
    → All P items
    → P (best_item best items)
All-best_item P best [] p ps = p
All-best_item P best (item ∷ rest) p (q, qs) =
    All-best_item P (better item best) rest (All-better P item best q p) qs

top-better : (item best : Item) → (better item best).1 ≡ max item.1 best.1
top-better (v, k) (u, h) = ground arith

top-best_item :
    (best : Item) (items : List Item) → (best_item best items).1 ≡ max best.1 (highest items)
top-best_item best [] = omega arith
top-best_item best (item ∷ rest) =
    omega (arith, top-best_item (better item best) rest, top-better item best)

get-le-highest : (v : Text) (k : ℕ) (d : Dict ℕ) → get v d ≡ some k → k ≤ highest d
unfolding get
get-le-highest v k [] e = ground arith
get-le-highest v k ((u, h) ∷ d) e = ground (arith, get-le-highest v k d)

lowest_of-le-get : (v : Text) (k m : ℕ) (d : Dict ℕ) → get v d ≡ some k → lowest_of m d ≤ k
unfolding get
lowest_of-le-get v k m [] e = ground arith
lowest_of-le-get v k m ((u, h) ∷ d) e = ground (arith, lowest_of-le-get v k m d)

after_hook-returned : (b : Bool) (n bn : ℕ) → after_hook b n ≡ returned bn → n ≡ bn
after_hook-returned true n bn e = cc
after_hook-returned false n bn e = cc

last_url-bind :
    (mode : Mode) (u : Text) (error : Option LastError) (rpc : Rpc)
    → (bind_chosen mode u error rpc).last_url ≡ some u
last_url-bind sync u error rpc = refl
last_url-bind async u error rpc = refl

settle-returned :
    (wide : Bool) (mode : Mode) (u : Text) (n : ℕ) (error : Option LastError) (x : LastError)
    (raises : Bool) (rpc : Rpc) (bn : ℕ)
    → (settle wide mode u n error x raises rpc).0 ≡ returned bn
    → (wide ≡ false) × (n ≡ bn) × ((settle wide mode u n error x raises rpc).1.last_url ≡ some u)
settle-returned true mode u n error x raises rpc bn e = cc
settle-returned false mode u n error x raises rpc bn e =
    (refl, after_hook-returned raises n bn e, last_url-bind mode u error rpc)

lowest_of-le : (h : ℕ) (d : Dict ℕ) → lowest_of h d ≤ h
lowest_of-le h [] = omega arith
lowest_of-le h ((u, k) ∷ d) = omega (arith, lowest_of-le h d)

module _ (mode : Mode) (config : RpcConfig) (eligible : List Text) (g : Gathered)
    (hook : Mode → ℕ → Bool) where
  -- The item selected and the spread of the heights, for any property of all the items.
  pub select-returned {κ} :
      (P : Item → Type κ) (d : Dict ℕ) (rpc : Rpc) (bn : ℕ)
      → All P d
      → (select mode config eligible g hook d rpc).0 ≡ returned bn
      → ((u : Text) × ((select mode config eligible g hook d rpc).1.last_url ≡ some u) × P (u, bn))
        × ((v : Text) (k : ℕ) → get v d ≡ some k → (k ≤ bn) × (bn ≤ k + 2))
  unfolding select
  select-returned P [] rpc bn ps e = cc
  select-returned P ((u, h) ∷ rest) rpc bn (p, ps) e =
      let spread = highest ((u, h) ∷ rest) - lowest_of h rest in
      let (near, top, bound) =
        settle-returned (ltb 2 spread) mode (best_item (u, h) rest).0 (highest ((u, h) ∷ rest))
          (tolerated config eligible g) (spread_exceeded ((u, h) ∷ rest) spread)
          (hook mode (highest ((u, h) ∷ rest))) rpc bn e in
      (
        (
          (best_item (u, h) rest).0,
          bound,
          subst (λ n. P ((best_item (u, h) rest).0, n)) (top-best_item (u, h) rest ∙ top)
              (All-best_item P (u, h) rest p ps),
        ),
        λ v k s. (
          omega (arith, top, get-le-highest v k ((u, h) ∷ rest) s),
          ground (arith, near, top, lowest_of-le-get v k h ((u, h) ∷ rest) s, lowest_of-le h rest),
        ),
      )

guard-returned :
    (b : Bool) (x : RpcError) (refused : Rpc) (s : Result RpcError ℕ × Rpc) (bn : ℕ)
    → (if b then (raised x, refused) else s).0 ≡ returned bn
    → (b ≡ false) × ((if b then (raised x, refused) else s) ≡ s)
guard-returned true x refused s bn e = cc
guard-returned false x refused s bn e = (refl, refl)

-- A run that is not refused for its errors or for too few heights selects among the heights.
pub commit-returned :
    (mode : Mode) (config : RpcConfig) (clock : Text → ℕ) (eligible : List Text) (g : Gathered)
    (hook : Mode → ℕ → Bool) (rpc : Rpc) (bn : ℕ)
    → (commit mode config clock eligible g hook rpc).0 ≡ returned bn
    → (required_successes config (length eligible) ≤ length g.heights)
      × (commit mode config clock eligible g hook rpc
          ≡ select mode config eligible g hook g.heights
              (note_partial mode g.errors (record_outcome clock eligible g.heights rpc)))
unfolding commit
commit-returned mode config clock eligible g hook rpc bn e =
    let noted = note_partial mode g.errors (record_outcome clock eligible g.heights rpc) in
    let chosen = select mode config eligible g hook g.heights noted in
    let few = ltb (length g.heights) (required_successes config (length eligible)) in
    let counted = if few then (raised reconcile_failed, noted) else chosen in
    let (a, p) = guard-returned (any_quota g.errors) quota_exhausted rpc counted bn e in
    let (b, q) = guard-returned few reconcile_failed noted chosen bn (sym (ap (λ r. r.0) p) ∙ e) in
    (ground (arith, b), p ∙ q)

pub required_pos : (config : RpcConfig) (n : ℕ) → 0 < n → 0 < required_successes config n
unfolding required_successes
required_pos config n h = ground arith
