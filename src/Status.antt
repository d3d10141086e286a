-- ===== src/Status.antt =====
-- lirix/core/status_aggregation.py: many step statuses into one.
pub mod Laws
mod Tests
use lirix.Prelude.{
  ℕ, Bool, true, false, List, [], ◌∷◌, Text, codes, strip, text_eq, ltb, if◌then◌else◌,
}

-- The tokens of `_PRECEDENCE`; `unknown` is any other token.
pub data Status : Type 0 where
  rejected degraded ok info unknown : Status

-- The text of a status. `unknown` stands for no text of its own and gets one outside the table.
abbrev pub token : Status → Text
token rejected = codes "rejected"
token degraded = codes "degraded"
token ok = codes "ok"
token info = codes "info"
token unknown = codes "?"

abbrev pub status_of_token : Text → Status
status_of_token t =
    if text_eq t (codes "rejected")
    then rejected
    else if text_eq t (codes "degraded")
    then degraded
    else if text_eq t (codes "ok")
    then ok
    else if text_eq t (codes "info")
    then info
    else unknown

-- `token = str(s or "").strip()`, looked up
unfoldable pub parse_status : Text → Status
unfolding strip text_eq
parse_status s = status_of_token (strip s)

-- `_PRECEDENCE.get(token, _PRECEDENCE["info"])`
abbrev pub rank : Status → ℕ
rank rejected = 3
rank degraded = 2
rank ok = 1
rank info = 0
rank unknown = 0

abbrev pub is_rejected : Status → Bool
is_rejected rejected = true
is_rejected _ = false

-- The loop over the statuses; `best` carries `best_rank` as its rank. A token outside the table
-- ranks as "info", so it never replaces `best`.
unfoldable pub aggregate_from : Status → List Text → Status
aggregate_from best [] = best
aggregate_from best (s ∷ rest) =
    let status = parse_status s in
    let next = aggregate_from status rest in
    let same = aggregate_from best rest in
    if ltb (rank best) (rank status) then if is_rejected status then rejected else next else same

unfoldable pub aggregate_statuses : List Text → Status
aggregate_statuses statuses = aggregate_from info statuses
