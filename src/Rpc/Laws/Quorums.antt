-- ===== src/Rpc/Laws/Quorums.antt =====
-- What a quorum is, and when one is found.
use mathlib.Core.Path.{subst}
use lirix.Prelude.{
  ℕ, ◌+◌, ◌*◌, ◌≤◌, ◌<◌, ◌≡◌, refl, sym, ap, ◌∙◌, true, false, Bool-cases, if_when, inl, inr,
  Option, none, some, Option-cases, List, [], ◌∷◌, length, Text, text_eq, text_eq→eq, get, All,
  All-map, All-get, arith, ltb, Result, returned,
}
use lirix.Rpc.Quorum.{
  Quorum, QuorumError, QuorumResult, Vote, Votes, required_votes, most_votes, tally, finish,
  with_block_hash, block_hash_of, decide, raw_result,
}
use lirix.Rpc.Laws.Votes.{
  voters, disjoint_voters, votes_for, votes_for-tally, Distinct-tally, entries-Distinct,
  most_votes-All, most_votes-most,
}

abbrev quorum_result :
    {Value : Type 0} → QuorumResult Value → Result QuorumError (QuorumResult Value)
quorum_result r = returned r

returned_injective :
    {Value : Type 0} {a b : QuorumResult Value} → quorum_result a ≡ returned b → a ≡ b
returned_injective e = cc

enough_votes : (n a : ℕ) → ltb a (required_votes n) ≡ false → 2 * n ≤ 3 * a
enough_votes n a h = ground arith

pub too_few : (n a : ℕ) → ltb a (required_votes n) ≡ true → 2 * n ≤ 3 * a → ⊥
too_few n a h l = ground arith

module _ {Value : Type 0} (hash_result : Value → Option Text) where
  -- A digest that two thirds of the votes stand behind, which is then the only one.
  pub record Wins (n : ℕ) (vs : List (Vote Value)) (digest : Text) (nodes : List Text)
      : Type 0 where
    pub stand_behind : nodes ≡ voters digest vs
    pub two_thirds : 2 * n ≤ 3 * length nodes
    pub only : (d : Text) → 2 * n ≤ 3 * length (voters d vs) → d ≡ digest

  pub one_winner :
      (vs : List (Vote Value)) (c d : Text)
      → 0 < length vs
      → 2 * length vs ≤ 3 * length (voters c vs)
      → 2 * length vs ≤ 3 * length (voters d vs)
      → c ≡ d
  one_winner vs c d some_vote h k = elim (Bool-cases (text_eq c d)) [
    | inl same ↦ text_eq→eq c d same
    | inr other ↦ absurd (too_many (disjoint_voters c d vs other))
  ]
    where
      too_many : length (voters c vs) + length (voters d vs) ≤ length vs → ⊥
      too_many l = omega arith

  abbrev EntryOf : List (Vote Value) → Text × List Text → Type 0
  EntryOf vs e = e.1 ≡ voters e.0 vs

  tally-entries : (vs : List (Vote Value)) → All (EntryOf vs) (tally hash_result vs [])
  unfolding get
  tally-entries vs =
      All-map _ _ (tally hash_result vs []) (λ e p. p ∙ votes_for-tally hash_result e.0 vs [])
        (entries-Distinct (tally hash_result vs []) (Distinct-tally hash_result vs [] tt))

  pub best-entry :
      (vs : List (Vote Value)) (e : Text × List Text) (es : Votes)
      → tally hash_result vs [] ≡ e ∷ es
      → EntryOf vs (most_votes e es)
  best-entry vs e es same =
      let (p, ps) = subst (All (EntryOf vs)) same (tally-entries vs) in
      most_votes-All (EntryOf vs) e es p ps

  pub listed :
      (vs : List (Vote Value)) (votes : Votes) (d : Text)
      → tally hash_result vs [] ≡ votes
      → votes_for d votes ≡ voters d vs
  unfolding get
  listed vs votes d same = ap (votes_for d) (sym same) ∙ votes_for-tally hash_result d vs []

  -- No digest has more votes.
  pub best-most :
      (vs : List (Vote Value)) (e : Text × List Text) (es : Votes) (d : Text)
      → tally hash_result vs [] ≡ e ∷ es
      → length (voters d vs) ≤ length (most_votes e es).1
  best-most vs e es d same = elim (Option-cases (get d (e ∷ es))) [
    | inl missing ↦ rw (sym (listed vs (e ∷ es) d same), missing) (omega arith)
    | inr (us, there) ↦
        rw (sym (listed vs (e ∷ es) d same), there)
          (All-get (λ x. length x.1 ≤ length (most_votes e es).1) d us (e ∷ es)
            (most_votes-most e es) there)
  ]

  -- The result is read off the votes, for the first url of the quorum.
  pub record Read (vs : List (Vote Value)) (r : QuorumResult Value) : Type 0 where
    pub others : List Text
    pub led : r.quorum ≡ r.winner_url ∷ others
    pub default : Value
    pub value : r.result ≡ raw_result hash_result r.winner_url default vs

  -- What a quorum result says of the votes.
  abbrev Decided : ℕ → List (Vote Value) → QuorumResult Value → Type 0
  Decided n vs r = (r.quorum ≡ voters r.hash vs) × (2 * n ≤ 3 * length r.quorum) × Read vs r

  read_head :
      (w : Text) (v : Vote Value) (vs : List (Vote Value))
      → raw_result hash_result w v.value vs ≡ raw_result hash_result w v.value (v ∷ vs)
  unfolding raw_result
  read_head w v vs =
      if_when (λ x. raw_result hash_result w v.value vs ≡ raw_result hash_result w x vs)
        (text_eq v.url w) v.value v.value (λ same. refl) (λ other. refl)

  finish-Decided :
      (n block required : ℕ) (best : Text × List Text) (vs : List (Vote Value)) (h : Option Text)
      (q : Quorum) (r : QuorumResult Value)
      → EntryOf vs best
      → 2 * n ≤ 3 * length best.1
      → (finish hash_result block required best vs h q).0 ≡ returned r
      → Decided n vs r × (r.block_number ≡ block)
  finish-Decided n block required (d, []) vs h q r e enough ret = cc
  finish-Decided n block required (d, w ∷ ws) [] h q r e enough ret = cc
  finish-Decided n block required (d, w ∷ ws) (v ∷ vs) h q r e enough ret =
      subst (λ x. Decided n (v ∷ vs) x × (x.block_number ≡ block)) (returned_injective ret)
        (
          (
            e,
            enough,
            record { others = ws; led = refl; default = v.value; value = read_head w v vs },
          ),
          refl,
        )

  pub decide-Decided :
      (get_block : Text → ℕ → Option (Option Text)) (n block : ℕ) (vs : List (Vote Value))
      (votes : Votes) (q : Quorum) (r : QuorumResult Value)
      → tally hash_result vs [] ≡ votes
      → (decide hash_result get_block n block vs votes q).0 ≡ returned r
      → Decided n vs r × (r.block_number ≡ block)
  decide-Decided get_block n block vs [] q r same = λ ret. cc
  decide-Decided get_block n block vs (e ∷ es) q r same =
      if_when
        (λ (x : Result QuorumError (QuorumResult Value) × Quorum).
          x.0 ≡ returned r → Decided n vs r × (r.block_number ≡ block))
        (ltb (length (most_votes e es).1) (required_votes n)) _ _ (λ few ret. cc)
        (λ enough ret.
          hashed (block_hash_of hash_result get_block block q.best_url) (enough_votes n _ enough)
            ret)
    where
      hashed :
          (h : Option (Option Text))
          → 2 * n ≤ 3 * length (most_votes e es).1
          → (with_block_hash hash_result block (required_votes n) (most_votes e es) vs h q).0
            ≡ returned r
          → Decided n vs r × (r.block_number ≡ block)
      hashed none l ret = cc
      hashed (some h) l ret =
          finish-Decided n block (required_votes n) (most_votes e es) vs h q r
            (best-entry vs e es same) l ret
