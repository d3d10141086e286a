-- ===== src/Rpc/Quorum/Retry.antt =====
-- AsyncQuorumProvider._retry_call of lirix/layers/l4_rpc_manager.py.
use lirix.Prelude.{
  ℕ, zero, suc, ◌+◌, ◌*◌, Bool, true, false, not, ◌&&◌, ◌||◌, List, [], ◌∷◌, ltb, leb, Result,
  returned, raised, if◌then◌else◌,
}
use lirix.Rpc.Types.{
  FetchError, ExceptionClass, timeout_error, connection_error, other_error, is_quota_exhausted,
}
use lirix.Rpc.Quorum.Refresh.{QuorumError, retry_state_unreachable, rpc_timeout, call_raised}

abbrev pub max_retries : ℕ
max_retries = 3

abbrev pub max_backoff_time : ℕ
max_backoff_time = 5000

abbrev pub is_timeout : ExceptionClass → Bool
is_timeout timeout_error = true
is_timeout connection_error = false
is_timeout other_error = false

abbrev pub is_other : ExceptionClass → Bool
is_other timeout_error = false
is_other connection_error = false
is_other other_error = true

-- Whether an exception of the attempt is retried.
abbrev pub retries : ℕ → ℕ → ℕ → FetchError → Bool
retries attempt delay elapsed exc =
    (is_quota_exhausted exc || not (is_other exc.class))
    && ltb (attempt + 1) max_retries
    && leb (elapsed + delay) max_backoff_time

abbrev pub final_error : ℕ → FetchError → QuorumError
final_error elapsed exc =
    if is_timeout exc.class || leb max_backoff_time elapsed
    then rpc_timeout exc
    else call_raised exc

-- An attempt that failed, or gave a result, in front of the attempts after it.
abbrev pub on_attempt :
    {A : Type 0}
    → ℕ
    → ℕ
    → ℕ
    → Result QuorumError A × List ℕ
    → Result FetchError A
    → Result QuorumError A × List ℕ
on_attempt attempt delay elapsed rest (returned a) = (returned a, [])
on_attempt attempt delay elapsed rest (raised exc) =
    if retries attempt delay elapsed exc
    then (rest.0, delay ∷ rest.1)
    else (raised (final_error elapsed exc), [])

-- _retry_call from an attempt on, with the attempts left of range(_MAX_RETRIES): what each attempt
-- gives, and the time elapsed when it failed. The sleeps that it makes are listed.
unfoldable pub retry_from :
    {A : Type 0} → (ℕ → Result FetchError A) → (ℕ → ℕ) → ℕ → ℕ → ℕ → Result QuorumError A × List ℕ
retry_from call elapsed zero attempt delay = (raised retry_state_unreachable, [])
retry_from call elapsed (suc left) attempt delay =
    on_attempt attempt delay (elapsed attempt)
      (retry_from call elapsed left (attempt + 1) (delay * 2)) (call attempt)

unfoldable pub retry_call :
    {A : Type 0} → (ℕ → Result FetchError A) → (ℕ → ℕ) → ℕ → Result QuorumError A × List ℕ
retry_call call elapsed base_delay = retry_from call elapsed max_retries 0 base_delay
