-- ===== src/Rpc/QuorumTests.antt =====
-- Runs of AsyncQuorumProvider over three endpoints, of which one disagrees.
use lirix.Prelude.{
  ℕ, ◌*◌, ◌≤◌, ◌≡◌, refl, none, some, Option, List, [], ◌∷◌, Text, codes, text_eq, text_leb, get,
  put, length, All, arith, Result, returned, raised, if◌then◌else◌,
}
use lirix.Rpc.Types.{FetchError, connection_error}
use lirix.Rpc.Quorum.{
  QuorumConfig, Quorum, QuorumResult, Vote, most_votes, tally, raw_result, gather_calls,
  gather_digests, gather_votes, block_hash_of, retry_from, retry_call, max_height, fastest,
  fetched_nodes, refresh_quorum, quorum_eth_call, max_backoff_time,
}
use lirix.Rpc.Laws.Votes.{voters}
use lirix.Rpc.Laws.Retries.{Ends, retry_call-Ends}
use lirix.Rpc.Laws.Sound.{Sound, quorum_eth_call-Sound}
use lirix.Rpc.Laws.Found.{Found, quorum_eth_call-Found}
use lirix.Rpc.Laws.Refreshed.{Selects, refresh_quorum-Selects}

abbrev three_urls : QuorumConfig
three_urls = record {
  rpc_urls = codes "a" ∷ codes "b" ∷ codes "c" ∷ [];
  staleness_threshold = 2;
  retry_base_delay = 100;
}

abbrev heights : Text → Result FetchError (ℕ × ℕ)
heights u = returned (10, 5)

-- "b" gives another result.
abbrev calls_of : ℕ → Text → ℕ → Result FetchError ℕ
calls_of block u attempt = returned (if text_eq u (codes "b") then 2 else 1)

abbrev at_once : Text → ℕ → ℕ
at_once u attempt = 0

abbrev a_block : Text → ℕ → Option (Option Text)
a_block u block = some none

abbrev digest_of : ℕ → Option Text
digest_of v = some (v ∷ [])

abbrev unused : Quorum
unused = record {
  best_url = none;
  best_height = none;
  last_error = none;
  last_selected_latency = none;
  last_url = none;
}

abbrev agreed : QuorumResult ℕ
agreed = record {
  block_number = 9;
  block_hash = none;
  hash = 1 ∷ [];
  result = 1;
  winner_url = codes "a";
  quorum = codes "a" ∷ codes "c" ∷ [];
  required = 2;
}

quorum_of_two :
    (quorum_eth_call digest_of three_urls heights calls_of at_once a_block unused).0
    ≡ returned agreed
unfolding quorum_eth_call refresh_quorum fetched_nodes max_height fastest gather_calls
    gather_digests retry_call retry_from tally most_votes raw_result get put text_eq text_leb
quorum_of_two = refl

quorum_eth_call-Sound_example :
    Sound digest_of three_urls calls_of at_once (refresh_quorum three_urls heights unused).0 agreed
quorum_eth_call-Sound_example =
    quorum_eth_call-Sound digest_of three_urls calls_of at_once a_block heights unused agreed
      quorum_of_two

abbrev three_votes : List (Vote ℕ)
three_votes =
    (record { url = codes "a"; value = 1; digest = 1 ∷ [] })
    ∷ (record { url = codes "b"; value = 2; digest = 2 ∷ [] })
    ∷ (record { url = codes "c"; value = 1; digest = 1 ∷ [] })
    ∷ []

head_is_10 : (refresh_quorum three_urls heights unused).0 ≡ returned 10
unfolding refresh_quorum fetched_nodes max_height fastest text_leb
head_is_10 = refl

all_voted : gather_votes digest_of three_urls calls_of at_once 9 ≡ returned three_votes
unfolding gather_calls gather_digests retry_call retry_from text_eq
all_voted = refl

two_of_three : 2 * length three_urls.rpc_urls ≤ 3 * length (voters (1 ∷ []) three_votes)
unfolding voters text_eq
two_of_three = omega arith

block_answers :
    block_hash_of digest_of a_block 9 (refresh_quorum three_urls heights unused).1.best_url
    ≡ some none
unfolding refresh_quorum fetched_nodes max_height fastest text_leb
block_answers = refl

quorum_eth_call-Found_example :
    Found digest_of three_urls heights calls_of at_once a_block
      (1 ∷ [])
      (refresh_quorum three_urls heights unused).0
      (quorum_eth_call digest_of three_urls heights calls_of at_once a_block unused).0
quorum_eth_call-Found_example =
    quorum_eth_call-Found digest_of three_urls heights calls_of at_once a_block 9 (1 ∷ [])
      three_votes none unused head_is_10 all_voted two_of_three block_answers

refused : ℕ → Result FetchError ℕ
refused attempt = raised (record { message = codes "refused"; class = connection_error })

retry_call-Ends_example :
    Ends refused 3 (retry_call refused (λ i. 0) 100).0
    × (length (retry_call refused (λ i. 0) 100).1 ≤ 2)
    × All (λ s. s ≤ max_backoff_time) (retry_call refused (λ i. 0) 100).1
retry_call-Ends_example = retry_call-Ends refused (λ i. 0) 100

refresh_quorum-Selects_example :
    Selects 2
      ((record { url = codes "a"; height = 10; latency = 5 })
        ∷ (record { url = codes "b"; height = 10; latency = 5 })
        ∷ (record { url = codes "c"; height = 10; latency = 5 })
        ∷ [])
      (refresh_quorum three_urls heights unused)
unfolding fetched_nodes
refresh_quorum-Selects_example = refresh_quorum-Selects three_urls heights unused _ _ refl
