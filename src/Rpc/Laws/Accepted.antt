-- ===== src/Rpc/Laws/Accepted.antt =====
-- What a reconciliation that returns has established.
use lirix.Prelude.{
  elem_head, elem_tail, ℕ, ◌+◌, ◌≤◌, ◌≡◌, refl, sym, ap, ◌∙◌, Bool, true, some, List, [], ◌∷◌,
  count, length, Text, text_eq, elem, Dict, get, All, arith, ltb, returned,
}
use lirix.Rpc.Types.{Rpc, RpcConfig, Fetched, height, failed}
use lirix.Rpc.Breaker.{eligible_urls, record_outcome}
use lirix.Rpc.Reconcile.{
  Mode, sync, async, gather, required_successes, reconcile, reconcile_over, no_results, stored,
  Item, note_partial,
}
use lirix.Rpc.Laws.Gathered.{succeeded, length-gather, All-gather, get-gather}
use lirix.Rpc.Laws.Selected.{select-returned, commit-returned}

-- Each future of the pool completes once: the stored results are those of the given urls.
unfoldable pub CompletesEach : (List Text → List Text) → Type 0
CompletesEach arrival = (p : Text → Bool) (us : List Text) → count p (arrival us) ≡ count p us

elem-count : (v : Text) (us : List Text) → elem v us ≡ ltb 0 (count (text_eq v) us)
unfolding elem
elem-count v [] = refl
elem-count v (u ∷ us) = ground (arith, elem-count v us)

-- The height that a fetch gave is `bn` or at most 2 below it.
pub Near : ℕ → Fetched → Type 0
Near bn (height k) = (k ≤ bn) × (bn ≤ k + 2)
Near bn (failed e) = Unit

-- The agreement behind a block height: an eligible endpoint that reported it is selected, each
-- height reported is near it, and enough endpoints reported one.
unfoldable pub Agreed : RpcConfig → (Text → Fetched) → List Text → ℕ → Rpc → Type 0
Agreed config fetch eligible bn after =
    ((u : Text) × (after.last_url ≡ some u) × (fetch u ≡ height bn) × (elem u eligible ≡ true))
    × All (λ v. Near bn (fetch v)) eligible
    × (required_successes config (length eligible) ≤ count (λ v. succeeded (fetch v)) eligible)

All-of_elem :
    (P : Text → Type 0) (us : List Text) → ((v : Text) → elem v us ≡ true → P v) → All P us
All-of_elem P [] f = tt
All-of_elem P (u ∷ us) f =
    (f u (elem_head u us), All-of_elem P us (λ v m. f v (elem_tail v u us m)))

CompletesEach-elem :
    (arrival : List Text → List Text) (v : Text) (us : List Text)
    → CompletesEach arrival
    → elem v (arrival us) ≡ elem v us
unfolding CompletesEach
CompletesEach-elem arrival v us complete =
    elem-count v (arrival us) ∙ ap (ltb 0) (complete (text_eq v) us) ∙ sym (elem-count v us)

stored-CompletesEach :
    (mode : Mode) (arrival : List Text → List Text)
    → CompletesEach arrival
    → CompletesEach (stored mode arrival)
unfolding CompletesEach
stored-CompletesEach sync arrival complete p us = complete p us
stored-CompletesEach async arrival complete p us = refl

module _ (mode : Mode) (config : RpcConfig) (clock : Text → ℕ) (arrival : List Text → List Text)
    (fetch : Text → Fetched) (hook : Mode → ℕ → Bool) (rpc : Rpc) (bn : ℕ)
    (complete : CompletesEach arrival) where
  Near-at :
      (eligible : List Text) (d : Dict ℕ)
      → ((v : Text) (k : ℕ) → get v d ≡ some k → (k ≤ bn) × (bn ≤ k + 2))
      → ((v : Text) (h : ℕ) → fetch v ≡ height h → elem v eligible ≡ true → get v d ≡ some h)
      → (v : Text) → elem v eligible ≡ true
      → (r : Fetched) → fetch v ≡ r
      → Near bn r
  unfolding Near
  Near-at eligible d bounds kept v m (height k) e = bounds v k (kept v k e m)
  Near-at eligible d bounds kept v m (failed x) e = tt

  Agreed-over :
      (urls eligible : List Text)
      → (reconcile_over mode config clock arrival fetch hook rpc urls eligible).0 ≡ returned bn
      → Agreed config fetch eligible bn
          (reconcile_over mode config clock arrival fetch hook rpc urls eligible).1
  unfolding Agreed CompletesEach
  Agreed-over [] eligible e = cc
  Agreed-over (v ∷ urls) [] e = cc
  Agreed-over (v ∷ urls) (u ∷ rest) e =
      let order = stored mode arrival (u ∷ rest) in
      let g = gather fetch order no_results in
      let each = stored-CompletesEach mode arrival complete in
      let in_order = λ (x : Text). CompletesEach-elem (stored mode arrival) x (u ∷ rest) each in
      let noted = note_partial mode g.errors (record_outcome clock (u ∷ rest) g.heights rpc) in
      let (enough, selected) = commit-returned mode config clock (u ∷ rest) g hook rpc bn e in
      let P : Item → Type 0 = λ i. (fetch i.0 ≡ height i.1) × (elem i.0 (u ∷ rest) ≡ true) in
      let good = All-gather P fetch order no_results (λ w h m f. (f, sym (in_order w) ∙ m)) tt in
      let ((w, chosen, p), bounds) =
        select-returned mode config (u ∷ rest) g hook P g.heights noted bn good
          (sym (ap (λ r. r.0) selected) ∙ e) in
      (
        (w, ap (λ r. r.1.last_url) selected ∙ chosen, p.0, p.1),
        All-of_elem (λ w. Near bn (fetch w)) (u ∷ rest)
            (λ w m.
              Near-at (u ∷ rest) g.heights bounds
                (λ x h f k. get-gather fetch x h order no_results f (in_order x ∙ k)) w m (fetch w)
                refl),
        omega (
          arith,
          enough,
          length-gather fetch order no_results,
          each (λ v. succeeded (fetch v)) (u ∷ rest),
        ),
      )

-- Whenever a reconciliation returns a block height, in either mode: the endpoint it selected is eligible
-- and reported this height, every height that an eligible endpoint reported is this one or at
-- most 2 below it, and at least as many eligible endpoints as the configuration requires reported
-- one; when the futures of the pool complete once each.
pub reconcile_sound :
    (mode : Mode) (config : RpcConfig) (clock : Text → ℕ) (arrival : List Text → List Text)
    (fetch : Text → Fetched) (hook : Mode → ℕ → Bool) (rpc : Rpc) (bn : ℕ)
    → CompletesEach arrival
    → (reconcile mode config clock arrival fetch hook rpc).0 ≡ returned bn
    → Agreed config fetch
        (eligible_urls config rpc)
        bn
        (reconcile mode config clock arrival fetch hook rpc).1
unfolding reconcile
reconcile_sound mode config clock arrival fetch hook rpc bn complete e =
    Agreed-over mode config clock arrival fetch hook rpc bn complete config.rpc_urls
      (eligible_urls config rpc) e
