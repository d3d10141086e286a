-- ===== src/Rpc/Quorum/Refresh.antt =====
-- The state of AsyncQuorumProvider in lirix/layers/l4_rpc_manager.py, its choice of an endpoint and
-- the call of it.
use lirix.Prelude.{
  ℕ, ◌-◌, Bool, not, ◌&&◌, ◌||◌, Option, none, some, List, [], ◌∷◌, filter, Text, text_leb, ltb,
  leb, ◌==◌, Result, returned, raised, if◌then◌else◌,
}
use lirix.Rpc.Types.{FetchError}

pub record QuorumConfig : Type 0 where
  pub rpc_urls : List Text
  pub staleness_threshold : ℕ
  pub retry_base_delay : ℕ

-- What _fetch_block_number returns for one url.
pub record Node : Type 0 where
  pub url : Text
  pub height : ℕ
  pub latency : ℕ

-- The reasons of _raise_quorum_failed.
pub data QuorumReason : Type 0 where
  rpc_urls_is_empty all_endpoints_failed all_endpoints_stale : QuorumReason
  block_below_1 no_healthy_endpoint selected_endpoint_failed : QuorumReason

-- `call_raised` is an exception of a call that passes through, `not_serializable` one of
-- json.dumps, `no_block` one of get_block; `max_of_empty` is max() of nothing.
pub data QuorumError : Type 0 where
  quorum_failed : QuorumReason → QuorumError
  no_urls retry_state_unreachable not_serializable no_block max_of_empty : QuorumError
  rpc_timeout call_raised : FetchError → QuorumError
  consensus_failure : ℕ → ℕ → QuorumError

-- _last_error
pub data QuorumReport : Type 0 where
  rpc_urls_empty failed_consensus quorum_eth_call_ok : QuorumReport
  failed_quorum : QuorumReason → QuorumReport

pub record Quorum : Type 0 where
  pub best_url : Option Text
  pub best_height : Option ℕ
  pub last_error : Option QuorumReport
  pub last_selected_latency : Option ℕ
  pub last_url : Option Text

abbrev pub raise_quorum_failed :
    {A : Type 0} → QuorumReason → Quorum → Result QuorumError A × Quorum
raise_quorum_failed reason q =
    (raised (quorum_failed reason), record q { last_error = some (failed_quorum reason) })

-- max(height for _, height, _ in nodes)
unfoldable pub max_height : ℕ → List Node → ℕ
max_height h [] = h
max_height h (n ∷ ns) = max_height (if ltb h n.height then n.height else h) ns

-- The order of (latency, url).
abbrev pub faster : Node → Node → Bool
faster m n = ltb m.latency n.latency || ((m.latency == n.latency) && not (text_leb n.url m.url))

unfoldable pub fastest : Node → List Node → Node
fastest m [] = m
fastest m (n ∷ ns) = fastest (if faster n m then n else m) ns

abbrev pub add_node : Text → Result FetchError (ℕ × ℕ) → List Node → List Node
add_node u (raised e) ns = ns
add_node u (returned (h, l)) ns = (record { url = u; height = h; latency = l }) ∷ ns

unfoldable pub fetched_nodes : (Text → Result FetchError (ℕ × ℕ)) → List Text → List Node
fetched_nodes fetch [] = []
fetched_nodes fetch (u ∷ us) = add_node u (fetch u) (fetched_nodes fetch us)

abbrev pub select_healthy : ℕ → List Node → Quorum → Result QuorumError ℕ × Quorum
select_healthy head [] q = raise_quorum_failed all_endpoints_stale q
select_healthy head (n ∷ ns) q =
    let best = fastest n ns in
    (
      returned head,
      record q {
        best_url = some best.url;
        best_height = some head;
        last_selected_latency = some best.latency;
      },
    )

abbrev pub healthy_nodes : ℕ → ℕ → List Node → List Node
healthy_nodes threshold head ns = filter (λ n. leb (head - n.height) threshold) ns

abbrev pub choose : ℕ → List Node → Quorum → Result QuorumError ℕ × Quorum
choose threshold [] q = raise_quorum_failed all_endpoints_failed q
choose threshold (n ∷ ns) q =
    let head = max_height n.height ns in
    select_healthy head (healthy_nodes threshold head (n ∷ ns)) q

abbrev pub refresh_urls :
    ℕ → (Text → Result FetchError (ℕ × ℕ)) → List Text → Quorum → Result QuorumError ℕ × Quorum
refresh_urls threshold fetch [] q = raise_quorum_failed rpc_urls_is_empty q
refresh_urls threshold fetch (u ∷ us) q = choose threshold (fetched_nodes fetch (u ∷ us)) q

-- refresh_quorum; gather keeps the order of the urls.
unfoldable pub refresh_quorum :
    QuorumConfig → (Text → Result FetchError (ℕ × ℕ)) → Quorum → Result QuorumError ℕ × Quorum
refresh_quorum config fetch q = refresh_urls config.staleness_threshold fetch config.rpc_urls q

abbrev pub selected_call :
    {A : Type 0}
    → (Text → Result FetchError A)
    → Option Text
    → Quorum
    → Result QuorumError A × Quorum
selected_call {A = A} call none q = raise_quorum_failed no_healthy_endpoint q
selected_call {A = A} call (some u) q = answer (call u)
  where
    answer : Result FetchError A → Result QuorumError A × Quorum
    answer (returned a) = (returned a, q)
    answer (raised e) = raise_quorum_failed selected_endpoint_failed q

abbrev pub after_refresh :
    {A : Type 0}
    → (Text → Result FetchError A)
    → Result QuorumError ℕ × Quorum
    → Result QuorumError A × Quorum
after_refresh call (raised e, q) = (raised e, q)
after_refresh call (returned head, q) = selected_call call q.best_url q

abbrev pub eth_call_at :
    {A : Type 0}
    → (Text → Result FetchError A)
    → Option Text
    → Result QuorumError ℕ × Quorum
    → Quorum
    → Result QuorumError A × Quorum
eth_call_at call none refreshed q = after_refresh call refreshed
eth_call_at call (some u) refreshed q = selected_call call (some u) q

-- AsyncQuorumProvider.eth_call
unfoldable pub eth_call :
    {A : Type 0}
    → QuorumConfig
    → (Text → Result FetchError (ℕ × ℕ))
    → (Text → Result FetchError A)
    → Quorum
    → Result QuorumError A × Quorum
eth_call config fetch call q = eth_call_at call q.best_url (refresh_quorum config fetch q) q
