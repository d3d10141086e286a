-- ===== src/Rpc/Quorum/Decide.antt =====
-- AsyncQuorumProvider.quorum_eth_call of lirix/layers/l4_rpc_manager.py, from the head to the result.
use lirix.Prelude.{
  ℕ, zero, suc, Option, none, some, List, [], ◌∷◌, length, Text, ltb, Result, returned, raised,
  if◌then◌else◌, ◌>>=◌,
}
use lirix.Rpc.Types.{FetchError}
use lirix.Rpc.Quorum.Refresh.{
  QuorumConfig, block_below_1, QuorumError, no_urls, no_block, max_of_empty, consensus_failure,
  rpc_urls_empty, failed_consensus, quorum_eth_call_ok, Quorum, raise_quorum_failed, refresh_quorum,
}
use lirix.Rpc.Quorum.Retry.{retry_call}
use lirix.Rpc.Quorum.Ballot.{
  Vote, Votes, most_votes, required_votes, QuorumResult, tally, raw_result, gather_calls,
  gather_digests,
}

module _ {Value : Type 0} (hash_result : Value → Option Text) where
  abbrev pub finish :
      ℕ
      → ℕ
      → Text × List Text
      → List (Vote Value)
      → Option Text
      → Quorum
      → Result QuorumError (QuorumResult Value) × Quorum
  finish block required (digest, []) votes block_hash q = (raised max_of_empty, q)
  finish block required (digest, winner ∷ nodes) [] block_hash q = (raised max_of_empty, q)
  finish block required (digest, winner ∷ nodes) (v ∷ vs) block_hash q = (
    returned (record {
      block_number = block;
      block_hash = block_hash;
      hash = digest;
      result = raw_result hash_result winner v.value vs;
      winner_url = winner;
      quorum = winner ∷ nodes;
      required = required;
    }),
    record q {
      last_url = some winner;
      last_selected_latency = none;
      last_error = some quorum_eth_call_ok;
    },
  )

  -- The hash of the pinned block, from the selected endpoint; `get_block` is none where it raises.
  abbrev pub with_block_hash :
      ℕ
      → ℕ
      → Text × List Text
      → List (Vote Value)
      → Option (Option Text)
      → Quorum
      → Result QuorumError (QuorumResult Value) × Quorum
  with_block_hash block required best votes none q = (raised no_block, q)
  with_block_hash block required best votes (some h) q = finish block required best votes h q

  abbrev pub block_hash_of :
      (Text → ℕ → Option (Option Text)) → ℕ → Option Text → Option (Option Text)
  block_hash_of get_block block none = some none
  block_hash_of get_block block (some u) = get_block u block

  abbrev pub decide :
      (Text → ℕ → Option (Option Text))
      → ℕ
      → ℕ
      → List (Vote Value)
      → Votes
      → Quorum
      → Result QuorumError (QuorumResult Value) × Quorum
  decide get_block n block vs [] q = (raised max_of_empty, q)
  decide get_block n block vs (e ∷ es) q =
      let best = most_votes e es in
      let required = required_votes n in
      if ltb (length best.1) required
      then (
        raised (consensus_failure (length best.1) required),
        record q { last_error = some failed_consensus },
      )
      else with_block_hash block required best vs (block_hash_of get_block block q.best_url) q

  abbrev pub on_votes :
      (Text → ℕ → Option (Option Text))
      → ℕ
      → ℕ
      → Result QuorumError (List (Vote Value))
      → Quorum
      → Result QuorumError (QuorumResult Value) × Quorum
  on_votes get_block n block (raised e) q = (raised e, q)
  on_votes get_block n block (returned vs) q =
      decide get_block n block vs (tally hash_result vs []) q

  -- What the endpoints give for the call at a block, each after its retries.
  abbrev pub gather_votes :
      QuorumConfig
      → (ℕ → Text → ℕ → Result FetchError Value)
      → (Text → ℕ → ℕ)
      → ℕ
      → Result QuorumError (List (Vote Value))
  gather_votes config calls elapsed block =
      gather_calls hash_result
        (λ u. (retry_call (calls block u) (elapsed u) config.retry_base_delay).0) config.rpc_urls
      >>= gather_digests hash_result

  abbrev pub at_head :
      QuorumConfig
      → (ℕ → Text → ℕ → Result FetchError Value)
      → (Text → ℕ → ℕ)
      → (Text → ℕ → Option (Option Text))
      → Result QuorumError ℕ × Quorum
      → Result QuorumError (QuorumResult Value) × Quorum
  at_head config calls elapsed get_block (raised e, q) = (raised e, q)
  at_head config calls elapsed get_block (returned zero, q) = raise_quorum_failed block_below_1 q
  at_head config calls elapsed get_block (returned (suc block), q) =
      on_votes get_block (length config.rpc_urls) block (gather_votes config calls elapsed block) q

  abbrev pub at_urls :
      List Text
      → Result QuorumError (QuorumResult Value) × Quorum
      → Quorum
      → Result QuorumError (QuorumResult Value) × Quorum
  at_urls [] rest q = (raised no_urls, record q { last_error = some rpc_urls_empty })
  at_urls (u ∷ us) rest q = rest

  -- quorum_eth_call
  unfoldable pub quorum_eth_call :
      QuorumConfig
      → (Text → Result FetchError (ℕ × ℕ))
      → (ℕ → Text → ℕ → Result FetchError Value)
      → (Text → ℕ → ℕ)
      → (Text → ℕ → Option (Option Text))
      → Quorum
      → Result QuorumError (QuorumResult Value) × Quorum
  quorum_eth_call config fetch calls elapsed get_block q =
      at_urls config.rpc_urls
        (at_head config calls elapsed get_block (refresh_quorum config fetch q)) q
