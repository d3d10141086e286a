-- ===== src/Rpc/Laws/Sound.antt =====
-- What a result of quorum_eth_call rests on.
use mathlib.Core.Path.{subst}
use lirix.Prelude.{
  ℕ, zero, suc, ◌*◌, ◌≤◌, ◌<◌, ◌≡◌, refl, sym, ap, ◌∙◌, Option, List, [], ◌∷◌, length, Text, All,
  arith, Result, returned, raised, >>=-eq-returned,
}
use lirix.Rpc.Types.{FetchError}
use lirix.Rpc.Quorum.{
  QuorumConfig, Quorum, QuorumError, QuorumResult, Vote, on_votes, gather_votes, gather_calls,
  gather_digests, or_not_serializable, at_head, at_urls, refresh_quorum, quorum_eth_call,
  retry_call,
}
use lirix.Rpc.Laws.Votes.{voters}
use lirix.Rpc.Laws.Answers.{
  list_injective, Gives, Cast, gather_calls-Asked, gather_digests-Cast, raw-voter,
}
use lirix.Rpc.Laws.Quorums.{Wins, Read, one_winner, decide-Decided}

module _ {Value : Type 0} (hash_result : Value → Option Text) where
  length-gather_calls :
      (call : Text → Result QuorumError Value) (us : List Text) (rs : List (Text × Value))
      → gather_calls hash_result call us ≡ returned rs
      → length rs ≡ length us
  unfolding gather_calls
  length-gather_calls call [] rs e = cc
  length-gather_calls call (u ∷ us) rs e =
      let (v, there, e1) = >>=-eq-returned (call u) _ e in
      let (rest, more, e2) = >>=-eq-returned (gather_calls hash_result call us) _ e1 in
      ap length (sym (list_injective e2)) ∙ ap suc (length-gather_calls call us rest more)

  length-gather_digests :
      (rs : List (Text × Value)) (vs : List (Vote Value))
      → gather_digests hash_result rs ≡ returned vs
      → length vs ≡ length rs
  unfolding gather_digests
  length-gather_digests [] vs e = ap length (sym (list_injective e))
  length-gather_digests ((u, v) ∷ rs) vs e =
      let (d, there, e1) = >>=-eq-returned (or_not_serializable hash_result (hash_result v)) _ e in
      let (rest, more, e2) = >>=-eq-returned (gather_digests hash_result rs) _ e1 in
      ap length (sym (list_injective e2)) ∙ ap suc (length-gather_digests rs rest more)

  module _ (config : QuorumConfig) (calls : ℕ → Text → ℕ → Result FetchError Value)
      (elapsed : Text → ℕ → ℕ) where
    pub length-gather_votes :
        (block : ℕ) (vs : List (Vote Value))
        → gather_votes hash_result config calls elapsed block ≡ returned vs
        → length vs ≡ length config.rpc_urls
    length-gather_votes block vs e =
        let (rs, there, e1) =
          >>=-eq-returned
            (gather_calls hash_result
              (λ u. (retry_call (calls block u) (elapsed u) config.retry_base_delay).0)
              config.rpc_urls)
            _ e in
        length-gather_digests rs vs e1 ∙ length-gather_calls _ config.rpc_urls rs there

    -- What a url gives for the call at a block, after its retries.
    abbrev pub ask : ℕ → Text → Result QuorumError Value
    ask block u = (retry_call (calls block u) (elapsed u) config.retry_base_delay).0

    gather_votes-Cast :
        (block : ℕ) (vs : List (Vote Value))
        → gather_votes hash_result config calls elapsed block ≡ returned vs
        → All (Cast hash_result (ask block)) vs
    gather_votes-Cast block vs e =
        let (rs, there, e1) =
          >>=-eq-returned (gather_calls hash_result (ask block) config.rpc_urls) _ e in
        gather_digests-Cast hash_result (ask block) rs vs e1
          (gather_calls-Asked hash_result (ask block) config.rpc_urls rs there)

    -- What a returned result rests on: the head, the votes at the block before it, a quorum, and as
    -- its value what the first url of the quorum gave, of which `hash` is the hash.
    pub record Sound (head : Result QuorumError ℕ) (r : QuorumResult Value) : Type 0 where
      pub votes : List (Vote Value)
      pub pinned : head ≡ returned (suc r.block_number)
      pub voted : gather_votes hash_result config calls elapsed r.block_number ≡ returned votes
      pub wins : Wins hash_result (length config.rpc_urls) votes r.hash r.quorum
      pub others : List Text
      pub led : r.quorum ≡ r.winner_url ∷ others
      pub gives : Gives hash_result (ask r.block_number) r.winner_url r.hash r.result

    module _ (get_block : Text → ℕ → Option (Option Text)) where
      on_votes-Sound :
          (block : ℕ) (q : Quorum) (r : QuorumResult Value)
          (v : Result QuorumError (List (Vote Value)))
          → 0 < length config.rpc_urls
          → gather_votes hash_result config calls elapsed block ≡ v
          → (on_votes hash_result get_block (length config.rpc_urls) block v q).0 ≡ returned r
          → Sound (returned (suc block)) r
      on_votes-Sound block q r (raised e) some_url same ret = cc
      on_votes-Sound block q r (returned vs) some_url same ret =
          let ((behind, enough, read), pin) =
            decide-Decided hash_result get_block (length config.rpc_urls) block vs _ q r refl ret in
          let n = length-gather_votes block vs same in
          record {
            votes = vs;
            pinned = ap (λ b. head_at (suc b)) (sym pin);
            voted = ap (gather_votes hash_result config calls elapsed) pin ∙ same;
            wins = record {
              stand_behind = behind;
              two_thirds = enough;
              only = λ d many.
                  one_winner hash_result vs d r.hash (omega arith) (omega arith)
                    (subst (λ us. 2 * length vs ≤ 3 * length us) behind (omega arith));
            };
            others = read.others;
            led = read.led;
            gives =
                subst (λ b. Gives hash_result (ask b) r.winner_url r.hash r.result) (sym pin)
                  (winner_gives vs read behind same);
          }
        where
          winner_gives :
              (vs : List (Vote Value))
              → Read hash_result vs r
              → r.quorum ≡ voters r.hash vs
              → gather_votes hash_result config calls elapsed block ≡ returned vs
              → Gives hash_result (ask block) r.winner_url r.hash r.result
          winner_gives vs read behind same =
              subst (Gives hash_result (ask block) r.winner_url r.hash) (sym read.value) (
                raw-voter hash_result (ask block) r.winner_url r.hash read.others read.default vs
                  (sym behind ∙ read.led) (gather_votes-Cast block vs same))

          head_at : ℕ → Result QuorumError ℕ
          head_at h = returned h

      at_head-Sound :
          (head : Result QuorumError ℕ) (q : Quorum) (r : QuorumResult Value)
          → 0 < length config.rpc_urls
          → (at_head hash_result config calls elapsed get_block (head, q)).0 ≡ returned r
          → Sound head r
      at_head-Sound (raised e) q r some_url ret = cc
      at_head-Sound (returned zero) q r some_url ret = cc
      at_head-Sound (returned (suc block)) q r some_url ret =
          on_votes-Sound block q r _ some_url refl ret

      -- A result of quorum_eth_call: it is pinned to the block before the head that the endpoints
      -- gave, every endpoint gave a result for it, its quorum is the endpoints whose result has its
      -- hash, they are at least two thirds of all, and no other hash has as many. The value it returns
      -- is what the first endpoint of the quorum gave, and has that hash.
      pub quorum_eth_call-Sound :
          (fetch : Text → Result FetchError (ℕ × ℕ)) (q : Quorum) (r : QuorumResult Value)
          → (quorum_eth_call hash_result config fetch calls elapsed get_block q).0 ≡ returned r
          → Sound (refresh_quorum config fetch q).0 r
      unfolding quorum_eth_call
      quorum_eth_call-Sound fetch q r ret = with_urls config.rpc_urls refl ret
        where
          with_urls :
              (us : List Text)
              → config.rpc_urls ≡ us
              → (at_urls hash_result us
                  (at_head hash_result config calls elapsed get_block
                    (refresh_quorum config fetch q))
                  q).0
                ≡ returned r
              → Sound (refresh_quorum config fetch q).0 r
          with_urls [] none_given e = cc
          with_urls (u ∷ us) given e =
              at_head-Sound _ _ r (subst (λ xs. 0 < length xs) (sym given) (omega arith)) e
