-- ===== src/Rpc/Laws/Votes.antt =====
-- The votes that a quorum counts: which urls stand behind a digest, and how many.
use lirix.Prelude.{
  text_eq-false_sym, ◌+◌, ◌≤◌, ◌≡◌, refl, sym, ap, ◌∙◌, false, Bool-cases, inl, inr, if_of, if_when,
  Option, List, [], ◌∷◌, ◌++◌, length, snoc, Text, text_eq, text_eq→eq, text_eq_refl, get, put,
  get-put, All, All-map, Absent, arith, ltb, if◌then◌else◌,
}
use lirix.Prelude.{All-both}
use lirix.Rpc.Quorum.{Vote, Votes, urls_of, add_vote, most_votes, tally}

module _ {Value : Type 0} where
  -- The urls whose result has a digest, in the order of the urls.
  unfoldable pub voters : Text → List (Vote Value) → List Text
  voters d [] = []
  voters d (v ∷ vs) = let rest = voters d vs in if text_eq v.digest d then v.url ∷ rest else rest

  pub disjoint_voters :
      (c d : Text) (vs : List (Vote Value))
      → text_eq c d ≡ false
      → length (voters c vs) + length (voters d vs) ≤ length vs
  unfolding voters
  disjoint_voters c d [] h = omega arith
  disjoint_voters c d (v ∷ vs) h = ground (
    arith,
    disjoint_voters c d vs h,
    text_eq→eq v.digest c,
    text_eq→eq v.digest d,
    text_eq_refl c,
  )

abbrev pub votes_for : Text → Votes → List Text
votes_for d votes = urls_of (get d votes)

votes_for-add_vote :
    (d url digest : Text) (votes : Votes)
    → votes_for d (add_vote url digest votes)
      ≡ (if text_eq digest d then snoc (votes_for digest votes) url else votes_for d votes)
votes_for-add_vote d url digest votes =
    ap urls_of (get-put digest d (snoc (votes_for digest votes) url) votes)
    ∙ elim (Bool-cases (text_eq digest d)) [ inl same ↦ rw same refl | inr other ↦ rw other refl ]

append-nil : (xs : List Text) → xs ++ [] ≡ xs
append-nil [] = refl
append-nil (x ∷ xs) = ap (λ ys. x ∷ ys) (append-nil xs)

append_assoc_snoc : (xs ys : List Text) (x : Text) → snoc xs x ++ ys ≡ xs ++ (x ∷ ys)
append_assoc_snoc [] ys x = refl
append_assoc_snoc (z ∷ xs) ys x = ap (λ zs. z ∷ zs) (append_assoc_snoc xs ys x)

pub votes_for-tally :
    {Value : Type 0} (hash_result : Value → Option Text) (d : Text) (vs : List (Vote Value))
    (votes : Votes)
    → votes_for d (tally hash_result vs votes) ≡ votes_for d votes ++ voters d vs
unfolding tally voters
votes_for-tally hash_result d [] votes = sym (append-nil (votes_for d votes))
votes_for-tally hash_result d (v ∷ vs) votes =
    votes_for-tally hash_result d vs (add_vote v.url v.digest votes)
    ∙ elim (Bool-cases (text_eq v.digest d)) [
      | inl same ↦
          rw (votes_for-add_vote d v.url v.digest votes, same)
            (rw (text_eq→eq v.digest d same)
              (append_assoc_snoc (votes_for d votes) (voters d vs) v.url))
      | inr other ↦ rw (votes_for-add_vote d v.url v.digest votes, other) refl
    ]

-- Each key once.
abbrev pub Distinct : Votes → Type 0
Distinct [] = Unit
Distinct ((k, us) ∷ rest) = Absent k rest × Distinct rest

Absent-put :
    (k d : Text) (us : List Text) (votes : Votes)
    → text_eq d k ≡ false
    → Absent k votes
    → Absent k (put d us votes)
unfolding put
Absent-put k d us [] h a = (h, tt)
Absent-put k d us ((j, ws) ∷ rest) h (p, ps) =
    if_of (Absent k) (text_eq j d) ((j, us) ∷ rest) ((j, ws) ∷ put d us rest) (p, ps)
      (p, Absent-put k d us rest h ps)

Distinct-put :
    (d : Text) (us : List Text) (votes : Votes) → Distinct votes → Distinct (put d us votes)
unfolding put
Distinct-put d us [] h = (tt, tt)
Distinct-put d us ((j, ws) ∷ rest) (a, h) =
    if_when Distinct (text_eq j d) ((j, us) ∷ rest) ((j, ws) ∷ put d us rest) (λ same. (a, h))
      (λ other. (Absent-put j d us rest (text_eq-false_sym j d other) a, Distinct-put d us rest h))

pub Distinct-tally :
    {Value : Type 0} (hash_result : Value → Option Text) (vs : List (Vote Value)) (votes : Votes)
    → Distinct votes
    → Distinct (tally hash_result vs votes)
unfolding tally
Distinct-tally hash_result [] votes h = h
Distinct-tally hash_result (v ∷ vs) votes h =
    Distinct-tally hash_result vs _ (Distinct-put v.digest _ votes h)

-- The entry of a digest holds its votes.
pub entries-Distinct : (votes : Votes) → Distinct votes → All (λ e. e.1 ≡ votes_for e.0 votes) votes
unfolding get
entries-Distinct [] h = tt
entries-Distinct ((j, us) ∷ rest) (a, h) = (
  rw (text_eq_refl j) refl,
  All-map _ _ rest (λ e p. below e p.0 p.1) (All-both _ _ rest a (entries-Distinct rest h)),
)
  where
    below :
        (e : Text × List Text)
        → text_eq e.0 j ≡ false
        → e.1 ≡ votes_for e.0 rest
        → e.1 ≡ votes_for e.0 ((j, us) ∷ rest)
    below e other same = rw (text_eq-false_sym e.0 j other) same

pub most_votes-All :
    (P : Text × List Text → Type 0) (best : Text × List Text) (votes : Votes)
    → P best
    → All P votes
    → P (most_votes best votes)
unfolding most_votes
most_votes-All P best [] p h = p
most_votes-All P best (e ∷ es) p (q, h) =
    most_votes-All P (if ltb (length best.1) (length e.1) then e else best) es
      (if_of P (ltb (length best.1) (length e.1)) e best q p) h

most_votes-grows :
    (best : Text × List Text) (votes : Votes) → length best.1 ≤ length (most_votes best votes).1
unfolding most_votes
most_votes-grows best [] = omega arith
most_votes-grows best (e ∷ es) =
    at_least (most_votes-grows (if ltb (length best.1) (length e.1) then e else best) es)
  where
    at_least :
        length (if ltb (length best.1) (length e.1) then e else best).1
          ≤ length (most_votes best (e ∷ es)).1
        → length best.1 ≤ length (most_votes best (e ∷ es)).1
    at_least h = ground arith

pub most_votes-most :
    (best : Text × List Text) (votes : Votes)
    → All (λ e. length e.1 ≤ length (most_votes best votes).1) (best ∷ votes)
unfolding most_votes
most_votes-most best [] = (omega arith, tt)
most_votes-most best (e ∷ es) =
    let later = most_votes-most (if ltb (length best.1) (length e.1) then e else best) es in
    (most_votes-grows best (e ∷ es), (taken later.0, later.1))
  where
    taken :
        length (if ltb (length best.1) (length e.1) then e else best).1
          ≤ length (most_votes best (e ∷ es)).1
        → length e.1 ≤ length (most_votes best (e ∷ es)).1
    taken h = ground arith
