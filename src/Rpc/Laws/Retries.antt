-- ===== src/Rpc/Laws/Retries.antt =====
-- The retries of one call: they end, and how often and how long they wait.
use lirix.Prelude.{
  ℕ, zero, suc, ◌+◌, ◌*◌, ◌≤◌, ◌<◌, ◌⊎◌, ◌||◌, ◌≡◌, refl, true, if_of, if_when, inl, inr, List, [],
  ◌∷◌, length, All, arith, leb, Result, returned, raised,
}
use lirix.Rpc.Types.{FetchError}
use lirix.Rpc.Quorum.{
  QuorumError, rpc_timeout, call_raised, on_attempt, final_error, retries, retry_from, retry_call,
  is_timeout, max_backoff_time,
}

-- A run of retries that ended with a result or with the exception of an attempt.
abbrev pub Ends : {A : Type 0} → (ℕ → Result FetchError A) → ℕ → Result QuorumError A → Type 0
Ends call n (returned a) = (i : ℕ) × (i < n) × (call i ≡ returned a)
Ends call n (raised e) =
    (i : ℕ) × (exc : FetchError) × (i < n)
    × (call i ≡ raised exc)
    × ((e ≡ rpc_timeout exc) ⊎ (e ≡ call_raised exc))

-- What a run of retries promises: its end, at most that many sleeps, and none longer than the backoff.
abbrev Kept : {A : Type 0} → (ℕ → Result FetchError A) → ℕ → Result QuorumError A × List ℕ → Type 0
Kept call n (r, sleeps) =
    Ends call 3 r × (length sleeps ≤ n) × All (λ s. s ≤ max_backoff_time) sleeps

only_before_last :
    (attempt delay elapsed : ℕ) (exc : FetchError)
    → retries attempt delay elapsed exc ≡ true
    → (suc attempt < 3) × (delay ≤ max_backoff_time)
only_before_last attempt delay elapsed exc h = (ground arith, ground arith)

module _ {A : Type 0} (call : ℕ → Result FetchError A) (elapsed : ℕ → ℕ) where
  given_up :
      (attempt n delay : ℕ) (exc : FetchError)
      → call attempt ≡ raised exc
      → attempt < 3
      → Kept call n (raised (final_error (elapsed attempt) exc), [])
  given_up attempt n delay exc e h =
      if_of (λ (f : QuorumError). Kept call n (raised f, []))
        (is_timeout exc.class || leb max_backoff_time (elapsed attempt)) (rpc_timeout exc)
        (call_raised exc) ((attempt, exc, h, e, inl refl), omega arith, tt)
        ((attempt, exc, h, e, inr refl), omega arith, tt)

  on_attempt-Kept :
      (n attempt delay : ℕ) (rest : Result QuorumError A × List ℕ) (r : Result FetchError A)
      → attempt < 3
      → call attempt ≡ r
      → (suc attempt < 3 → (k : ℕ) × (suc k ≤ n) × Kept call k rest)
      → Kept call n (on_attempt attempt delay (elapsed attempt) rest r)
  on_attempt-Kept n attempt delay rest (returned a) h e later = ((attempt, h, e), omega arith, tt)
  on_attempt-Kept n attempt delay rest (raised exc) h e later =
      if_when (Kept call n) (retries attempt delay (elapsed attempt) exc) (rest.0, delay ∷ rest.1) _
        (λ again.
          let (before, short) = only_before_last attempt delay (elapsed attempt) exc again in
          let (k, fewer, (ends, count, all)) = later before in (ends, omega arith, (short, all)))
        (λ last. given_up attempt n delay exc e h)

  retry_from-Kept :
      (left attempt delay : ℕ)
      → attempt + suc left ≡ 3
      → Kept call left (retry_from call elapsed (suc left) attempt delay)
  unfolding retry_from
  retry_from-Kept zero attempt delay n =
      on_attempt-Kept zero attempt delay _ (call attempt) (omega arith) refl
        (λ before. absurd (last n before))
    where
      last : attempt + 1 ≡ 3 → suc attempt < 3 → ⊥
      last n before = omega arith
  retry_from-Kept (suc l) attempt delay n =
      on_attempt-Kept (suc l) attempt delay _ (call attempt) (omega arith) refl
        (λ before. (l, omega arith, retry_from-Kept l (attempt + 1) (delay * 2) (omega arith)))

  -- Whatever a call gives and however long it takes, its retries end, within three attempts, with the
  -- result of an attempt or with the exception of one, as it is or as a timeout: the state that the
  -- source calls unreachable is not reached. It sleeps at most twice, and never over five seconds.
  pub retry_call-Ends :
      (base_delay : ℕ)
      → Ends call 3 (retry_call call elapsed base_delay).0
        × (length (retry_call call elapsed base_delay).1 ≤ 2)
        × All (λ s. s ≤ max_backoff_time) (retry_call call elapsed base_delay).1
  unfolding retry_call
  retry_call-Ends base_delay = retry_from-Kept 2 0 base_delay refl
