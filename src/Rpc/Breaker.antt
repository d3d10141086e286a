-- ===== src/Rpc/Breaker.antt =====
-- The circuit breakers of RPCManager in lirix/layers/l4_rpc_manager.py.
use lirix.Prelude.{
  ℕ, ◌+◌, true, false, not, none, List, [], ◌∷◌, filter, Text, text_eq, Dict, has_key, ltb, leb,
  if◌then◌else◌,
}
use lirix.Rpc.Types.{Rpc, RpcConfig}

-- CIRCUIT_FAILURE_THRESHOLD, CIRCUIT_COOLDOWN_SECONDS in milliseconds
abbrev pub circuit_failure_threshold : ℕ
circuit_failure_threshold = 3

abbrev pub circuit_cooldown : ℕ
circuit_cooldown = 60000

-- d[key] = v
abbrev pub update {ℓ} : {V : Type ℓ} → (Text → V) → Text → V → Text → V
update d key v k = if text_eq key k then v else d k

-- _eligible_urls
unfoldable pub eligible_urls : RpcConfig → Rpc → List Text
eligible_urls config rpc = filter (λ u. not (rpc.is_open u)) config.rpc_urls

unfoldable pub record_transport_failure : ℕ → Text → Rpc → Rpc
record_transport_failure now url rpc =
    let n = rpc.failures url + 1 in
    let counted : Rpc = record rpc { failures = update rpc.failures url n } in
    if leb circuit_failure_threshold n
    then record counted {
      is_open = update rpc.is_open url true;
      cooldown_until = update rpc.cooldown_until url (now + circuit_cooldown);
    }
    else counted

unfoldable pub record_transport_success : ℕ → Text → Rpc → Rpc
record_transport_success now url rpc =
    if ltb now (rpc.cooldown_until url)
    then rpc
    else record rpc { failures = update rpc.failures url 0; is_open = update rpc.is_open url false }

-- The body of the loop of _record_outcome; `clock url` is the time when `url` is recorded.
unfoldable pub record_one : (Text → ℕ) → Dict ℕ → Text → Rpc → Rpc
record_one clock heights url rpc =
    if has_key url heights
    then record_transport_success (clock url) url rpc
    else record_transport_failure (clock url) url rpc

unfoldable pub record_outcome : (Text → ℕ) → List Text → Dict ℕ → Rpc → Rpc
record_outcome clock [] heights rpc = rpc
record_outcome clock (u ∷ rest) heights rpc =
    record_outcome clock rest heights (record_one clock heights u rpc)

-- reset_circuit_breakers
unfoldable pub reset_circuit_breakers : Rpc → Rpc
reset_circuit_breakers rpc = record {
  failures = λ u. 0;
  is_open = λ u. false;
  cooldown_until = λ u. 0;
  sync_web3 = none;
  async_web3 = none;
  last_url = none;
  last_error = none;
}
