-- ===== src/Rpc/Laws/Found.antt =====
-- A quorum that is there is found, and an endpoint that answers is enough to select one.
use mathlib.Core.Path.{subst}
use lirix.Prelude.{
  ℕ, suc, ◌*◌, ◌≤◌, ◌<◌, ◌≡◌, refl, sym, ap, if_when, Option, some, List, [], ◌∷◌, length, Text,
  get, arith, ltb, Result, returned, raised,
}
use lirix.Rpc.Types.{FetchError}
use lirix.Rpc.Quorum.{
  QuorumConfig, Quorum, QuorumError, QuorumResult, quorum_failed, rpc_urls_is_empty, Vote, Votes,
  required_votes, most_votes, tally, finish, block_hash_of, decide, gather_votes, at_head, at_urls,
  refresh_quorum, quorum_eth_call,
}
use lirix.Rpc.Laws.Votes.{voters}
use lirix.Rpc.Laws.Quorums.{best-most, best-entry, listed, one_winner, too_few}
use lirix.Rpc.Laws.Sound.{length-gather_votes, Sound, quorum_eth_call-Sound}

refresh_nothing :
    (config : QuorumConfig) (fetch : Text → Result FetchError (ℕ × ℕ)) (q : Quorum)
    → config.rpc_urls ≡ []
    → (refresh_quorum config fetch q).0 ≡ raised (quorum_failed rpc_urls_is_empty)
unfolding refresh_quorum
refresh_nothing config fetch q none_given = rw none_given refl

module _ {Value : Type 0} (hash_result : Value → Option Text) where
  abbrev Returns : Text → Result QuorumError (QuorumResult Value) → Type 0
  Returns d x = (r : QuorumResult Value) × (x ≡ returned r) × (r.hash ≡ d)

  finish-Returns :
      (n block required : ℕ) (d : Text) (best : Text × List Text) (vs : List (Vote Value))
      (h : Option Text) (q : Quorum)
      → 0 < length vs
      → 0 < length best.1
      → best.0 ≡ d
      → Returns d (finish hash_result block required best vs h q).0
  finish-Returns n block required d (c, []) vs h q some_vote some_node same =
      absurd (no_node some_node)
    where
      no_node : 0 < 0 → ⊥
      no_node l = omega arith
  finish-Returns n block required d (c, w ∷ ws) [] h q some_vote some_node same =
      absurd (no_vote some_vote)
    where
      no_vote : 0 < 0 → ⊥
      no_vote l = omega arith
  finish-Returns n block required d (c, w ∷ ws) (v ∷ vs) h q some_vote some_node same =
      (_, refl, same)

  decide-Returns :
      (get_block : Text → ℕ → Option (Option Text)) (n block : ℕ) (d : Text)
      (vs : List (Vote Value)) (votes : Votes) (h : Option Text) (q : Quorum)
      → tally hash_result vs [] ≡ votes
      → length vs ≡ n
      → 0 < n
      → 2 * n ≤ 3 * length (voters d vs)
      → block_hash_of hash_result get_block block q.best_url ≡ some h
      → Returns d (decide hash_result get_block n block vs votes q).0
  unfolding get
  decide-Returns get_block n block d vs [] h q same size some_url many hashed =
      absurd (no_votes (ap length (listed hash_result vs [] d same)))
    where
      no_votes : 0 ≡ length (voters d vs) → ⊥
      no_votes l = omega arith
  decide-Returns get_block n block d vs (e ∷ es) h q same size some_url many hashed =
      if_when (λ (x : Result QuorumError (QuorumResult Value) × Quorum). Returns d x.0)
        (ltb (length (most_votes e es).1) (required_votes n)) _ _
        (λ few. absurd (too_few n (length (most_votes e es).1) few two_thirds))
        (λ enough. rw hashed (
          finish-Returns n block (required_votes n) d (most_votes e es) vs h q (omega arith)
            (omega (arith, two_thirds)) winner))
    where
      two_thirds : 2 * n ≤ 3 * length (most_votes e es).1
      two_thirds = more (best-most hash_result vs e es d same) many
        where
          more : {a b : ℕ} → a ≤ b → 2 * n ≤ 3 * a → 2 * n ≤ 3 * b
          more l m = omega arith

      winner : (most_votes e es).0 ≡ d
      winner =
          one_winner hash_result vs (most_votes e es).0 d (omega arith)
            (subst (λ us. 2 * length vs ≤ 3 * length us) (best-entry hash_result vs e es same)
              (omega (arith, two_thirds)))
            (omega arith)

  module _ (config : QuorumConfig) (fetch : Text → Result FetchError (ℕ × ℕ))
      (calls : ℕ → Text → ℕ → Result FetchError Value) (elapsed : Text → ℕ → ℕ)
      (get_block : Text → ℕ → Option (Option Text)) where
    quorum_eth_call-Returns :
        (block : ℕ) (d : Text) (vs : List (Vote Value)) (h : Option Text) (q : Quorum)
        → (refresh_quorum config fetch q).0 ≡ returned (suc block)
        → gather_votes hash_result config calls elapsed block ≡ returned vs
        → 2 * length config.rpc_urls ≤ 3 * length (voters d vs)
        → block_hash_of hash_result get_block block (refresh_quorum config fetch q).1.best_url
          ≡ some h
        → Returns d (quorum_eth_call hash_result config fetch calls elapsed get_block q).0
    unfolding quorum_eth_call
    quorum_eth_call-Returns block d vs h q head voted many hashed = with_urls config.rpc_urls refl
      where
        never :
            (refresh_quorum config fetch q).0 ≡ raised (quorum_failed rpc_urls_is_empty)
            → (refresh_quorum config fetch q).0 ≡ returned (suc block)
            → ⊥
        never e f = cc

        with_urls :
            (us : List Text)
            → config.rpc_urls ≡ us
            → Returns d
                (at_urls hash_result us
                  (at_head hash_result config calls elapsed get_block
                    (refresh_quorum config fetch q))
                  q).0
        with_urls [] none_given = absurd (never (refresh_nothing config fetch q none_given) head)
        with_urls (u ∷ us) given = rw head (
            rw voted (
              decide-Returns get_block (length config.rpc_urls) block d vs _ h _ refl
                (length-gather_votes hash_result config calls elapsed block vs voted)
                (subst (λ xs. 0 < length xs) (sym given) (omega arith)) many hashed))

    -- A result is returned, it has the hash, and it is sound.
    pub record Found (d : Text) (head : Result QuorumError ℕ)
        (x : Result QuorumError (QuorumResult Value)) : Type 0 where
      pub result : QuorumResult Value
      pub returns : x ≡ returned result
      pub hash : result.hash ≡ d
      pub sound : Sound hash_result config calls elapsed head result

    -- Where the head is at least 1, every endpoint gives a result whose hash can be computed, two
    -- thirds of all give a result with one hash, and the selected endpoint answers for the block, the
    -- call returns a result with that hash. Its quorum is all endpoints that gave the hash, and its
    -- value is what the first of them gave, of which it is the hash.
    pub quorum_eth_call-Found :
        (block : ℕ) (d : Text) (vs : List (Vote Value)) (h : Option Text) (q : Quorum)
        → (refresh_quorum config fetch q).0 ≡ returned (suc block)
        → gather_votes hash_result config calls elapsed block ≡ returned vs
        → 2 * length config.rpc_urls ≤ 3 * length (voters d vs)
        → block_hash_of hash_result get_block block (refresh_quorum config fetch q).1.best_url
          ≡ some h
        → Found d
            (refresh_quorum config fetch q).0
            (quorum_eth_call hash_result config fetch calls elapsed get_block q).0
    quorum_eth_call-Found block d vs h q head voted many hashed =
        let (r, returns, same) = quorum_eth_call-Returns block d vs h q head voted many hashed in
        record {
          result = r;
          returns = returns;
          hash = same;
          sound =
              quorum_eth_call-Sound hash_result config calls elapsed get_block fetch q r returns;
        }
