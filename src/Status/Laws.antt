-- ===== src/Status/Laws.antt =====
-- What `aggregate_statuses` computes, whatever the order of the statuses.
use Prim.Native.Nat.{max}
use mathlib.Core.List.{Perm, Permᴰ}
use mathlib.Core.Logic.{∥∥₁_elim}
use native.Mathlib.Nat.{ℕ_set}
use lirix.Prelude.{ℕ, ◌≡◌, ◌≤◌, ◌≢◌, refl, sym, ◌∙◌, ap, List, [], ◌∷◌, Text, arith}
use lirix.Status.{
  Status, rejected, info, unknown, parse_status, rank, aggregate_from, aggregate_statuses,
}

-- The highest rank among the statuses.
abbrev pub highest : List Text → ℕ
highest [] = 0
highest (s ∷ rest) = max (rank (parse_status s)) (highest rest)

rank-le : (s : Status) → rank s ≤ 3
rank-le rejected = omega arith
rank-le _ = omega arith

highest-le : (ss : List Text) → highest ss ≤ 3
highest-le [] = omega arith
highest-le (s ∷ rest) = omega (arith, highest-le rest, rank-le (parse_status s))

rank-aggregate_from :
    (best : Status) (ss : List Text) → rank (aggregate_from best ss) ≡ max (rank best) (highest ss)
unfolding aggregate_from
rank-aggregate_from best [] = omega arith
rank-aggregate_from best (s ∷ rest) = ground (
  arith,
  rank-aggregate_from (parse_status s) rest,
  rank-aggregate_from best rest,
  highest-le rest,
)

-- The result is one of the four tokens of the table.
abbrev pub IsKnown : Status → Type 0
IsKnown s = s ≢ unknown

aggregate_from-IsKnown :
    (best : Status) (ss : List Text) → IsKnown best → IsKnown (aggregate_from best ss)
unfolding aggregate_from
aggregate_from-IsKnown best [] h = h
aggregate_from-IsKnown best (s ∷ rest) h =
    ground (arith, aggregate_from-IsKnown (parse_status s) rest, aggregate_from-IsKnown best rest)

rank_injective : (a b : Status) → IsKnown a → IsKnown b → rank a ≡ rank b → a ≡ b
rank_injective a b h k e = ground arith

-- The rank of the result is the highest rank among the statuses, and the result is a token of
-- the table.
pub rank-aggregate_statuses :
    (ss : List Text) → (rank (aggregate_statuses ss) ≡ highest ss) × IsKnown (aggregate_statuses ss)
unfolding aggregate_statuses
rank-aggregate_statuses ss =
    (omega (arith, rank-aggregate_from info ss), aggregate_from-IsKnown info ss (λ e. cc))

highest-permᴰ : {ss ts : List Text} → Permᴰ ss ts → highest ss ≡ highest ts
highest-permᴰ Permᴰ.nil = refl
highest-permᴰ (Permᴰ.cons e d) =
    omega (arith, ap (λ (s : Text). rank (parse_status s)) e, highest-permᴰ d)
highest-permᴰ (Permᴰ.swap e f) =
    omega (
      arith,
      ap (λ (s : Text). rank (parse_status s)) e,
      ap (λ (s : Text). rank (parse_status s)) f,
    )
highest-permᴰ (Permᴰ.trans d f) = highest-permᴰ d ∙ highest-permᴰ f

-- Two lists with the same statuses in another order have the same aggregate.
pub aggregate_statuses-perm :
    (ss ts : List Text) → Perm ss ts → aggregate_statuses ss ≡ aggregate_statuses ts
aggregate_statuses-perm ss ts p =
    let (ranked, known) = rank-aggregate_statuses ss in
    let (ranked', known') = rank-aggregate_statuses ts in
    rank_injective _ _ known known' (ranked ∙ ∥∥₁_elim p (ℕ_set _ _) highest-permᴰ ∙ sym ranked')
