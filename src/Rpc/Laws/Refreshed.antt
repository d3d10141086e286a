-- ===== src/Rpc/Laws/Refreshed.antt =====
-- Which endpoint refresh_quorum selects.
use mathlib.Core.Path.{subst}
use mathlib.Core.List.{Mem, mem-cons_self, mem-cons_of_mem}
use lirix.Prelude.{
  ℕ, ◌-◌, ◌≤◌, ◌<◌, ◌≡◌, refl, sym, Bool, true, false, if_of, if_when, some, List, [], ◌∷◌, filter,
  Text, All, All-map, arith, ltb, leb, Result, returned, if◌then◌else◌,
}
use lirix.Rpc.Types.{FetchError}
use lirix.Rpc.Quorum.{
  QuorumConfig, Quorum, QuorumError, Node, max_height, fastest, faster, healthy_nodes,
  select_healthy, choose, fetched_nodes, refresh_urls, refresh_quorum,
}

max_height-grows : (h : ℕ) (ns : List Node) → h ≤ max_height h ns
unfolding max_height
max_height-grows h [] = omega arith
max_height-grows h (n ∷ ns) =
    ground (arith, max_height-grows (if ltb h n.height then n.height else h) ns)

max_height-bounds : (h : ℕ) (ns : List Node) → All (λ n. n.height ≤ max_height h ns) ns
unfolding max_height
max_height-bounds h [] = tt
max_height-bounds h (n ∷ ns) = (
  ground (arith, max_height-grows (if ltb h n.height then n.height else h) ns),
  max_height-bounds (if ltb h n.height then n.height else h) ns,
)

max_height-below :
    (x h : ℕ) (ns : List Node) → h < x → All (λ n. n.height < x) ns → max_height h ns < x
unfolding max_height
max_height-below x h [] l k = l
max_height-below x h (n ∷ ns) l (p, k) =
    max_height-below x (if ltb h n.height then n.height else h) ns
      (if_of (λ m. m < x) (ltb h n.height) n.height h p l) k

-- The height of one of the nodes.
abbrev pub HeightIn : List Node → ℕ → Type 0
HeightIn nodes h = (top : Node) × (Mem top nodes) × (top.height ≡ h)

max_height-of :
    (P : ℕ → Type 0) (h : ℕ) (ns : List Node) → P h → All (λ n. P n.height) ns → P (max_height h ns)
unfolding max_height
max_height-of P h [] p qs = p
max_height-of P h (n ∷ ns) p (q, qs) =
    max_height-of P (if ltb h n.height then n.height else h) ns
      (if_of P (ltb h n.height) n.height h q p) qs

all_in : (ns : List Node) → All (λ m. Mem m ns) ns
all_in [] = tt
all_in (n ∷ ns) = (mem-cons_self, All-map _ _ ns (λ m h. mem-cons_of_mem n h) (all_in ns))

max_height-reached : (n : Node) (ns : List Node) → HeightIn (n ∷ ns) (max_height n.height ns)
max_height-reached n ns =
    let (first, later) = all_in (n ∷ ns) in
    max_height-of (HeightIn (n ∷ ns)) n.height ns (n, first, refl)
      (All-map _ _ ns (λ m h. (m, h, refl)) later)

filter-All : (P : Node → Type 0) (p : Node → Bool) (ns : List Node) → All P ns → All P (filter p ns)
filter-All P p [] h = tt
filter-All P p (n ∷ ns) (q, h) =
    if_of (All P) (p n) (n ∷ filter p ns) (filter p ns) (q, filter-All P p ns h)
      (filter-All P p ns h)

none_kept : (p : Node → Bool) (ns : List Node) → filter p ns ≡ [] → All (λ n. p n ≡ false) ns
none_kept p [] = λ e. tt
none_kept p (n ∷ ns) =
    if_when (λ xs. xs ≡ [] → All (λ m. p m ≡ false) (n ∷ ns)) (p n) (n ∷ filter p ns) (filter p ns)
      (λ kept e. cc) (λ left e. (left, none_kept p ns e))

fastest-All : (P : Node → Type 0) (m : Node) (ns : List Node) → P m → All P ns → P (fastest m ns)
unfolding fastest
fastest-All P m [] p h = p
fastest-All P m (n ∷ ns) p (q, h) =
    fastest-All P (if faster n m then n else m) ns (if_of P (faster n m) n m q p) h

fastest-latency-grows : (m : Node) (ns : List Node) → (fastest m ns).latency ≤ m.latency
unfolding fastest
fastest-latency-grows m [] = omega arith
fastest-latency-grows m (n ∷ ns) =
    ground (arith, fastest-latency-grows (if faster n m then n else m) ns)

fastest-latency :
    (m : Node) (ns : List Node) → All (λ n. (fastest m ns).latency ≤ n.latency) (m ∷ ns)
unfolding fastest
fastest-latency m [] = (omega arith, tt)
fastest-latency m (n ∷ ns) =
    let later = fastest-latency (if faster n m then n else m) ns in
    (fastest-latency-grows m (n ∷ ns), (faster_one later.0, later.1))
  where
    not_slower : {a b c : ℕ} → b ≤ c → a ≤ b → a ≤ c
    not_slower h k = omega arith

    faster_one :
        (fastest (if faster n m then n else m) ns).latency ≤ (if faster n m then n else m).latency
        → (fastest (if faster n m then n else m) ns).latency ≤ n.latency
    faster_one h =
        not_slower
          (if_when (λ k. k.latency ≤ n.latency) (faster n m) n m (λ yes. omega arith)
            (λ no. ground arith))
          h

unfiltered :
    (P : Node → Type 0) (p : Node → Bool) (ns : List Node)
    → All P (filter p ns)
    → All (λ n. p n ≡ true → P n) ns
unfiltered P p [] = λ h. tt
unfiltered P p (n ∷ ns) =
    if_when (λ xs. All P xs → All (λ m. p m ≡ true → P m) (n ∷ ns)) (p n) (n ∷ filter p ns)
      (filter p ns) (λ kept h. ((λ same. h.0), unfiltered P p ns h.1))
      (λ left h. ((λ same. cc), unfiltered P p ns h))

kept :
    (P : Node → Type 0) (p : Node → Bool) (ns : List Node)
    → ((n : Node) → p n ≡ true → P n)
    → All P (filter p ns)
kept P p [] f = tt
kept P p (n ∷ ns) f =
    if_when (All P) (p n) (n ∷ filter p ns) (filter p ns) (λ same. (f n same, kept P p ns f))
      (λ left. kept P p ns f)

-- What a refresh leaves: as the head the height of an answer, which no answer exceeds, and as the
-- selected url that of an answer within the threshold of the head, with the least latency of those.
pub record Selects (threshold : ℕ) (nodes : List Node) (out : Result QuorumError ℕ × Quorum)
    : Type 0 where
  pub head : ℕ
  pub best : Node
  pub returns : out.0 ≡ returned head
  pub reached : HeightIn nodes head
  pub highest : All (λ n. n.height ≤ head) nodes
  pub answered : Mem best nodes
  pub chosen : out.1.best_url ≡ some best.url
  pub timed : out.1.last_selected_latency ≡ some best.latency
  pub noted : out.1.best_height ≡ some head
  pub fresh : head - best.height ≤ threshold
  pub quickest : All (λ n. head - n.height ≤ threshold → best.latency ≤ n.latency) nodes

abbrev is_fresh : ℕ → ℕ → Node → Bool
is_fresh threshold head n = leb (head - n.height) threshold

someone_fresh :
    (threshold : ℕ) (n : Node) (ns : List Node)
    → healthy_nodes threshold (max_height n.height ns) (n ∷ ns) ≡ []
    → ⊥
someone_fresh threshold n ns e =
    stale (none_kept (is_fresh threshold (max_height n.height ns)) (n ∷ ns) e)
  where
    impossible : max_height n.height ns < max_height n.height ns → ⊥
    impossible l = omega arith

    stale : All (λ m. is_fresh threshold (max_height n.height ns) m ≡ false) (n ∷ ns) → ⊥
    stale (p, h) = impossible (
        max_height-below (max_height n.height ns) n.height ns (ground arith)
          (All-map _ _ ns (λ m q. ground arith) h))

select_healthy-Selects :
    (threshold : ℕ) (n : Node) (ns healthy : List Node) (q : Quorum)
    → healthy_nodes threshold (max_height n.height ns) (n ∷ ns) ≡ healthy
    → Selects threshold (n ∷ ns) (select_healthy (max_height n.height ns) healthy q)
select_healthy-Selects threshold n ns [] q e = absurd (someone_fresh threshold n ns e)
select_healthy-Selects threshold n ns (m ∷ ms) q e =
    let head = max_height n.height ns in
    let among : All (λ k. Mem k (n ∷ ns)) (m ∷ ms) =
      subst (All (λ k. Mem k (n ∷ ns))) e
        (filter-All (λ k. Mem k (n ∷ ns)) (is_fresh threshold head) (n ∷ ns) (all_in (n ∷ ns))) in
    let near : All (λ k. head - k.height ≤ threshold) (m ∷ ms) =
      subst (All (λ k. head - k.height ≤ threshold)) e (
        kept (λ k. head - k.height ≤ threshold) (is_fresh threshold head) (n ∷ ns)
          (λ k same. ground arith)) in
    record {
      head = head;
      best = fastest m ms;
      returns = refl;
      reached = max_height-reached n ns;
      highest = (max_height-grows n.height ns, max_height-bounds n.height ns);
      answered = fastest-All (λ k. Mem k (n ∷ ns)) m ms among.0 among.1;
      chosen = refl;
      timed = refl;
      noted = refl;
      fresh = fastest-All (λ k. head - k.height ≤ threshold) m ms near.0 near.1;
      quickest =
          All-map _ _ (n ∷ ns) (λ k f near. f (near_leb near))
            (unfiltered _ (is_fresh threshold head) (n ∷ ns) (
              subst (All (λ k. (fastest m ms).latency ≤ k.latency)) (sym e)
                (fastest-latency m ms)));
    }
  where
    near_leb : {a b : ℕ} → a ≤ b → leb a b ≡ true
    near_leb h = ground arith

-- Where some endpoint answers, refresh_quorum returns a head: the highest height that an endpoint
-- answered. The endpoint that it selects is one that answered, at most the threshold below the head,
-- and none of those has a lower latency. So the exception on stale endpoints is never raised.
pub refresh_quorum-Selects :
    (config : QuorumConfig) (fetch : Text → Result FetchError (ℕ × ℕ)) (q : Quorum) (n : Node)
    (ns : List Node)
    → fetched_nodes fetch config.rpc_urls ≡ n ∷ ns
    → Selects config.staleness_threshold (n ∷ ns) (refresh_quorum config fetch q)
unfolding refresh_quorum fetched_nodes
refresh_quorum-Selects config fetch q n ns e = with_urls config.rpc_urls e
  where
    with_urls :
        (us : List Text)
        → fetched_nodes fetch us ≡ n ∷ ns
        → Selects config.staleness_threshold
            (n ∷ ns)
            (refresh_urls config.staleness_threshold fetch us q)
    with_urls [] none_given = cc
    with_urls (u ∷ us) given =
        subst
          (λ xs.
            Selects config.staleness_threshold (n ∷ ns) (choose config.staleness_threshold xs q))
          (sym given) (select_healthy-Selects config.staleness_threshold n ns _ q refl)
