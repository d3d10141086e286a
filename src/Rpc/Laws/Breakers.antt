-- ===== src/Rpc/Laws/Breakers.antt =====
-- The circuit breakers over any sequence of reconciliations.
use lirix.Prelude.{
  if_of, if_when, ℕ, ◌+◌, ◌≡◌, refl, sym, ap, ◌∙◌, Bool, true, false, not, List, [], ◌∷◌, filter,
  Text, text_eq, elem, text_eq→eq, text_eq_refl, Dict, arith, ltb, leb, has_key,
}
use lirix.Rpc.Types.{Rpc, RpcConfig}
use lirix.Rpc.Breaker.{
  eligible_urls, record_outcome, record_one, record_transport_success, record_transport_failure,
  update,
}
use lirix.Rpc.Laws.Induction.{SameBreakers, Run, reconciles, reconciles_kept}

-- A breaker is open exactly from the third failure in a row.
unfoldable pub IsConsistent : Rpc → Type 0
IsConsistent rpc = (u : Text) → rpc.is_open u ≡ leb 3 (rpc.failures u)

record_transport_failure-IsConsistent :
    (now : ℕ) (v : Text) (rpc : Rpc)
    → IsConsistent rpc
    → IsConsistent (record_transport_failure now v rpc)
unfolding IsConsistent record_transport_failure
record_transport_failure-IsConsistent now v rpc c =
    if_when IsConsistent (leb 3 (rpc.failures v + 1)) _ _
      (λ e u. ground (arith, c u, text_eq→eq v u, e))
      (λ e u. ground (arith, c u, text_eq→eq v u, e))

record_transport_success-IsConsistent :
    (now : ℕ) (v : Text) (rpc : Rpc)
    → IsConsistent rpc
    → IsConsistent (record_transport_success now v rpc)
unfolding IsConsistent record_transport_success
record_transport_success-IsConsistent now v rpc c =
    if_of IsConsistent (ltb now (rpc.cooldown_until v)) _ _ c (λ u. ground (arith, c u))

record_one-IsConsistent :
    (clock : Text → ℕ) (heights : Dict ℕ) (v : Text) (rpc : Rpc)
    → IsConsistent rpc
    → IsConsistent (record_one clock heights v rpc)
unfolding record_one
record_one-IsConsistent clock heights v rpc c =
    if_of IsConsistent (has_key v heights) _ _
      (record_transport_success-IsConsistent (clock v) v rpc c)
      (record_transport_failure-IsConsistent (clock v) v rpc c)

record_outcome-IsConsistent :
    (clock : Text → ℕ) (us : List Text) (heights : Dict ℕ) (rpc : Rpc)
    → IsConsistent rpc
    → IsConsistent (record_outcome clock us heights rpc)
unfolding record_outcome
record_outcome-IsConsistent clock [] heights rpc c = c
record_outcome-IsConsistent clock (v ∷ us) heights rpc c =
    record_outcome-IsConsistent clock us heights (record_one clock heights v rpc)
      (record_one-IsConsistent clock heights v rpc c)

-- After any sequence of reconciliations, in any modes and with any results and times, that starts
-- where each endpoint's breaker is open exactly when at least three failures are counted for it,
-- this holds again.
pub breakers-IsConsistent :
    (config : RpcConfig) (rs : List Run) (rpc : Rpc)
    → IsConsistent rpc
    → IsConsistent (reconciles config rs rpc)
unfolding SameBreakers IsConsistent
breakers-IsConsistent config rs rpc c =
    reconciles_kept IsConsistent config respects
      (λ clock heights r. record_outcome-IsConsistent clock (eligible_urls config r) heights r) rs
      rpc c
  where
    respects : (r s : Rpc) → SameBreakers r s → IsConsistent s → IsConsistent r
    respects r s (f, o) c u =
        ap (λ (g : Text → Bool). g u) o ∙ c u ∙ ap (λ (g : Text → ℕ). leb 3 (g u)) (sym f)

elem-filter :
    (u : Text) (p : Text → Bool) (us : List Text) → p u ≡ false → elem u (filter p us) ≡ false
unfolding elem
elem-filter u p [] e = refl
elem-filter u p (v ∷ us) e = ground (arith, elem-filter u p us e, text_eq→eq u v)

update-other :
    (d : Text → Bool) (u v : Text) (b : Bool) → text_eq v u ≡ false → update d v b u ≡ d u
update-other d u v b apart = ground arith

record_one-other :
    (clock : Text → ℕ) (heights : Dict ℕ) (u v : Text) (rpc : Rpc)
    → text_eq u v ≡ false
    → rpc.is_open u ≡ true
    → (record_one clock heights v rpc).is_open u ≡ true
unfolding record_one record_transport_failure record_transport_success
record_one-other clock heights u v rpc other o =
    let apart : (text_eq v u ≡ false) = ground (arith, text_eq→eq v u, text_eq_refl u) in
    let same = update-other rpc.is_open u v in
    let P : Rpc → Type 0 = λ r. r.is_open u ≡ true in
    if_of P (has_key v heights) _ _
      (if_of P (ltb (clock v) (rpc.cooldown_until v)) _ _ o (same false apart ∙ o))
      (if_of P (leb 3 (rpc.failures v + 1)) _ _ (same true apart ∙ o) o)

elem-tail :
    (u v : Text) (us : List Text)
    → elem u (v ∷ us) ≡ false
    → (text_eq u v ≡ false) × (elem u us ≡ false)
unfolding elem
elem-tail u v us e = ground arith

-- Recording the outcomes of other endpoints leaves a breaker alone.
open_kept :
    (clock : Text → ℕ) (u : Text) (us : List Text) (heights : Dict ℕ) (rpc : Rpc)
    → elem u us ≡ false
    → rpc.is_open u ≡ true
    → (record_outcome clock us heights rpc).is_open u ≡ true
unfolding record_outcome
open_kept clock u [] heights rpc m o = o
open_kept clock u (v ∷ us) heights rpc m o =
    let (other, rest) = elem-tail u v us m in
    open_kept clock u us heights (record_one clock heights v rpc) rest
      (record_one-other clock heights u v rpc other o)

-- A breaker that is open is open after any sequence of reconciliations: in any modes, whatever the
-- fetches give, and however late they are, past the end of the cooldown too.
pub open_forever :
    (config : RpcConfig) (rs : List Run) (rpc : Rpc) (u : Text)
    → rpc.is_open u ≡ true
    → (reconciles config rs rpc).is_open u ≡ true
unfolding SameBreakers eligible_urls
open_forever config rs rpc u o =
    reconciles_kept (λ r. r.is_open u ≡ true) config respects recorded rs rpc o
  where
    respects : (r s : Rpc) → SameBreakers r s → s.is_open u ≡ true → r.is_open u ≡ true
    respects r s (f, e) k = ap (λ (g : Text → Bool). g u) e ∙ k

    recorded :
        (clock : Text → ℕ) (heights : Dict ℕ) (r : Rpc)
        → r.is_open u ≡ true
        → (record_outcome clock (eligible_urls config r) heights r).is_open u ≡ true
    recorded clock heights r k =
        open_kept clock u (eligible_urls config r) heights r
          (elem-filter u (λ v. not (r.is_open v)) config.rpc_urls (ap not k)) k
