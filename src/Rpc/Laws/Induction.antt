-- ===== src/Rpc/Laws/Induction.antt =====
-- The induction rule for what depends on the breakers alone, over any sequence of reconciliations.
use mathlib.Core.Path.{subst}
use lirix.Prelude.{
  if_of, ℕ, ◌≡◌, refl, ◌∙◌, Bool, true, false, Option, List, [], ◌∷◌, Text, Dict, if◌then◌else◌,
  ltb, Result, raised, length,
}
use lirix.Rpc.Types.{
  Rpc, RpcConfig, RpcError, Fetched, FetchError, LastError, quota_exhausted, reconcile_failed,
}
use lirix.Rpc.Breaker.{eligible_urls, record_outcome}
use lirix.Rpc.Reconcile.{
  Mode, sync, async, Gathered, gather, required_successes, select, settle, commit, reconcile,
  reconcile_over, no_results, stored, any_quota, note_partial,
}

-- The same breakers.
unfoldable pub SameBreakers : Rpc → Rpc → Type 0
SameBreakers r s = (r.failures ≡ s.failures) × (r.is_open ≡ s.is_open)

same : (r s t : Rpc) → SameBreakers r s → SameBreakers s t → SameBreakers r t
unfolding SameBreakers
same r s t (a, b) (c, d) = (a ∙ c, b ∙ d)

note_partial-same :
    (mode : Mode) (errors : Dict FetchError) (rpc : Rpc)
    → SameBreakers (note_partial mode errors rpc) rpc
unfolding SameBreakers
note_partial-same sync [] rpc = (refl, refl)
note_partial-same sync (e ∷ errors) rpc = (refl, refl)
note_partial-same async errors rpc = (refl, refl)

settle-same :
    (wide : Bool) (mode : Mode) (u : Text) (n : ℕ) (error : Option LastError) (x : LastError)
    (raises : Bool) (rpc : Rpc)
    → SameBreakers (settle wide mode u n error x raises rpc).1 rpc
unfolding SameBreakers
settle-same true mode u n error x raises rpc = (refl, refl)
settle-same false sync u n error x raises rpc = (refl, refl)
settle-same false async u n error x raises rpc = (refl, refl)

select-same :
    (mode : Mode) (config : RpcConfig) (eligible : List Text) (g : Gathered)
    (hook : Mode → ℕ → Bool) (d : Dict ℕ) (rpc : Rpc)
    → SameBreakers (select mode config eligible g hook d rpc).1 rpc
unfolding select SameBreakers
select-same mode config eligible g hook [] rpc = (refl, refl)
select-same mode config eligible g hook (item ∷ rest) rpc = settle-same _ mode _ _ _ _ _ rpc

-- One call of sync_reconcile or async_reconcile.
pub record Run : Type 0 where
  pub mode : Mode
  pub clock : Text → ℕ
  pub arrival : List Text → List Text
  pub fetch : Text → Fetched
  pub hook : Mode → ℕ → Bool

unfoldable pub reconciled : RpcConfig → Run → Rpc → Rpc
reconciled config r rpc = (reconcile r.mode config r.clock r.arrival r.fetch r.hook rpc).1

-- The calls in their order.
unfoldable pub reconciles : RpcConfig → List Run → Rpc → Rpc
reconciles config [] rpc = rpc
reconciles config (r ∷ rs) rpc = reconciles config rs (reconciled config r rpc)

-- What depends on the breakers alone and survives the recording of outcomes is kept by every call.
module _ (P : Rpc → Type 0) (config : RpcConfig)
    (respects : (r s : Rpc) → SameBreakers r s → P s → P r)
    (recorded : (clock : Text → ℕ) (heights : Dict ℕ) (rpc : Rpc)
      → P rpc
      → P (record_outcome clock (eligible_urls config rpc) heights rpc)) where
  commit_kept :
      (mode : Mode) (clock : Text → ℕ) (g : Gathered) (hook : Mode → ℕ → Bool) (rpc : Rpc)
      → P rpc
      → P (commit mode config clock (eligible_urls config rpc) g hook rpc).1
  unfolding commit
  commit_kept mode clock g hook rpc p =
      let outcome = record_outcome clock (eligible_urls config rpc) g.heights rpc in
      let noted = note_partial mode g.errors outcome in
      let q =
        respects noted outcome (note_partial-same mode g.errors outcome)
          (recorded clock g.heights rpc p) in
      let Q : Result RpcError ℕ × Rpc → Type 0 = λ r. P r.1 in
      let chosen = select mode config (eligible_urls config rpc) g hook g.heights noted in
      let few =
        ltb (length g.heights) (required_successes config (length (eligible_urls config rpc))) in
      let s =
        respects chosen.1 noted
          (select-same mode config (eligible_urls config rpc) g hook g.heights noted) q in
      if_of Q (any_quota g.errors) (raised quota_exhausted, rpc)
        (if few then (raised reconcile_failed, noted) else chosen) p
        (if_of Q few (raised reconcile_failed, noted) chosen q s)

  reconciled_kept : (r : Run) (rpc : Rpc) → P rpc → P (reconciled config r rpc)
  unfolding reconciled reconcile
  reconciled_kept r rpc p = over config.rpc_urls (eligible_urls config rpc) refl
    where
      over :
          (urls eligible : List Text)
          → eligible_urls config rpc ≡ eligible
          → P (reconcile_over r.mode config r.clock r.arrival r.fetch r.hook rpc urls eligible).1
      over [] eligible e = p
      over (v ∷ urls) [] e = p
      over (v ∷ urls) (u ∷ rest) e =
          subst
            (λ us.
              P
                (commit r.mode config r.clock us
                  (gather r.fetch (stored r.mode r.arrival (u ∷ rest)) no_results) r.hook rpc).1)
            e
            (commit_kept r.mode r.clock
              (gather r.fetch (stored r.mode r.arrival (u ∷ rest)) no_results) r.hook rpc p)

  pub reconciles_kept : (rs : List Run) (rpc : Rpc) → P rpc → P (reconciles config rs rpc)
  unfolding reconciles
  reconciles_kept [] rpc p = p
  reconciles_kept (r ∷ rs) rpc p =
      reconciles_kept rs (reconciled config r rpc) (reconciled_kept r rpc p)
