-- ===== src/Status/Tests.antt =====
-- Runs of lirix/core/status_aggregation.py.
use lirix.Prelude.{◌≡◌, refl, [], ◌∷◌, codes}
use mathlib.Core.List.{Permᴰ}
use lirix.Status.{rejected, info, rank, parse_status, aggregate_from, aggregate_statuses}
use lirix.Status.Laws.{highest, IsKnown, rank-aggregate_statuses, aggregate_statuses-perm}

padded_rejection :
    aggregate_statuses (codes "ok" ∷ codes " rejected " ∷ codes "info" ∷ []) ≡ rejected
unfolding aggregate_statuses aggregate_from parse_status
padded_rejection = refl

unknown_is_info : aggregate_statuses (codes "weird" ∷ codes "Rejected" ∷ []) ≡ info
unfolding aggregate_statuses aggregate_from parse_status
unknown_is_info = refl

rank-aggregate_statuses_example :
    (rank (aggregate_statuses (codes "ok" ∷ codes "info" ∷ []))
      ≡ highest (codes "ok" ∷ codes "info" ∷ []))
    × IsKnown (aggregate_statuses (codes "ok" ∷ codes "info" ∷ []))
rank-aggregate_statuses_example = rank-aggregate_statuses (codes "ok" ∷ codes "info" ∷ [])

aggregate_statuses-perm_example :
    aggregate_statuses (codes "ok" ∷ codes "info" ∷ [])
    ≡ aggregate_statuses (codes "info" ∷ codes "ok" ∷ [])
aggregate_statuses-perm_example =
    aggregate_statuses-perm (codes "ok" ∷ codes "info" ∷ []) (codes "info" ∷ codes "ok" ∷ [])
      ∣ Permᴰ.swap refl refl ∣₁
