-- ===== src/Rpc/Quorum/Ballot.antt =====
-- The votes of AsyncQuorumProvider.quorum_eth_call in lirix/layers/l4_rpc_manager.py.
use lirix.Prelude.{
  ℕ, ◌+◌, ◌*◌, ◌/◌, Option, none, some, List, [], ◌∷◌, length, snoc, Text, text_eq, Dict, get, put,
  ltb, Result, returned, raised, if◌then◌else◌, ◌>>=◌,
}
use lirix.Rpc.Quorum.Refresh.{QuorumError, not_serializable}

-- The result of one url, with its digest.
pub record Vote (Value : Type 0) : Type 0 where
  pub url : Text
  pub value : Value
  pub digest : Text

abbrev pub Votes : Type 0
Votes = Dict (List Text)

abbrev pub urls_of : Option (List Text) → List Text
urls_of none = []
urls_of (some us) = us

-- hashes.setdefault(digest, []).append(url)
abbrev pub add_vote : Text → Text → Votes → Votes
add_vote url digest votes = put digest (snoc (urls_of (get digest votes)) url) votes

-- max(hashes.items(), key=lambda item: len(item[1])): the first of the longest.
unfoldable pub most_votes : Text × List Text → Votes → Text × List Text
most_votes best [] = best
most_votes best (e ∷ es) = most_votes (if ltb (length best.1) (length e.1) then e else best) es

-- math.ceil(n * (2 / 3)), in the arithmetic of the floats, which is exact here
abbrev pub required_votes : ℕ → ℕ
required_votes n = (2 * n + 2) / 3

-- What quorum_eth_call returns; the fields that it gives under two names are given once.
pub record QuorumResult (Value : Type 0) : Type 0 where
  pub block_number : ℕ
  pub block_hash : Option Text
  pub hash : Text
  pub result : Value
  pub winner_url : Text
  pub quorum : List Text
  pub required : ℕ

module _ {Value : Type 0} (hash_result : Value → Option Text) where
  unfoldable pub tally : List (Vote Value) → Votes → Votes
  tally [] votes = votes
  tally (v ∷ vs) votes = tally vs (add_vote v.url v.digest votes)

  -- raw[url], the last result of the url
  unfoldable pub raw_result : Text → Value → List (Vote Value) → Value
  raw_result u d [] = d
  raw_result u d (v ∷ vs) = raw_result u (if text_eq v.url u then v.value else d) vs

  abbrev pub or_not_serializable : Option Text → Result QuorumError Text
  or_not_serializable none = raised not_serializable
  or_not_serializable (some d) = returned d

  -- The two gathers, without return_exceptions: all calls, and then all digests. Where several raise,
  -- the exception is that of the first url.
  unfoldable pub gather_calls :
      (Text → Result QuorumError Value) → List Text → Result QuorumError (List (Text × Value))
  gather_calls call [] = returned []
  gather_calls call (u ∷ us) = do
    value ← call u
    results ← gather_calls call us
    returned ((u, value) ∷ results)

  unfoldable pub gather_digests : List (Text × Value) → Result QuorumError (List (Vote Value))
  gather_digests [] = returned []
  gather_digests ((u, value) ∷ results) = do
    digest ← or_not_serializable (hash_result value)
    votes ← gather_digests results
    returned ((record { url = u; value = value; digest = digest }) ∷ votes)
