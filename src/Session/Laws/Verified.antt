-- ===== src/Session/Laws/Verified.antt =====
-- What a bundle that verify_replay_bundle of lirix/core/session.py accepts is known to be.
use lirix.Prelude.{
  ◌+◌, ◌≤◌, ◌≡◌, refl, ap, ◌∙◌, Bool, true, false, not, ◌&&◌, ◌||◌, Option, none, some, List, [],
  ◌∷◌, Text, Dict, count, length, arith, sym, ltb, returned, >>=-eq-returned, raise_if, text_eq→eq,
  if◌then◌else◌, value_or, is_some, is_empty, All,
}
use lirix.Contracts.{is_hex_digest}
use lirix.Session.Types.{
  EventType, finalize, decision, Scalar, Item, Entry, not_mapping, mapping, is_event,
  session_event_of,
}
use lirix.Session.Replay.{
  BundlePayload, Bundle, DigestPayload, Field, absent, ill_typed, given, replay_bundle_version,
  empty_doc,
}
use lirix.Session.Verify.{
  Replayed, VerifyError, replay_entry, replay_timeline, replay_start, check_timeline,
  is_session_mutation, check_artifacts, check_proof, matches, hex_or_none, required, version_ok,
  or_empty, verify_replay_bundle, artifact_key_allowed,
}

abbrev mutates_of : Option EventType → Bool
mutates_of none = false
mutates_of (some et) = is_session_mutation et

-- A plan, draft, tool call or decision event.
abbrev mutates : Entry → Bool
mutates e = mutates_of (session_event_of e)

-- Every entry is a dict, and none of the four mutations comes after a finalize event; `saw` says
-- whether one came before.
abbrev pub InOrder : Bool → List Entry → Type 0
InOrder saw [] = Unit
InOrder saw (not_mapping ∷ rest) = ⊥
InOrder saw (mapping item ∷ rest) =
    ((saw && mutates (mapping item)) ≡ false)
    × InOrder (saw || is_event finalize (mapping item)) rest

-- What one round of the loop shows of its entry.
record Round (st : Replayed) (item : Item) (st' : Replayed) : Type 0 where
  counted :
      st'.finalize_count ≡ st.finalize_count + (if is_event finalize (mapping item) then 1 else 0)
  saw : st'.saw_finalize ≡ (st.saw_finalize || is_event finalize (mapping item))
  quiet : (st.saw_finalize && mutates (mapping item)) ≡ false

replay_entry-Round :
    (strict : Bool) (st : Replayed) (item : Item) (st' : Replayed)
    → replay_entry strict st (mapping item) ≡ returned st'
    → Round st item st'
unfolding replay_entry
replay_entry-Round strict st item st' h = record {
  counted = ground arith;
  saw = ground arith;
  quiet = ground arith;
}

record Replays (st : Replayed) (tl : List Entry) (st' : Replayed) : Type 0 where
  counted : st'.finalize_count ≡ st.finalize_count + count (is_event finalize) tl
  in_order : InOrder st.saw_finalize tl

replay_timeline-Replays :
    (strict : Bool) (st : Replayed) (tl : List Entry) (st' : Replayed)
    → replay_timeline strict st tl ≡ returned st'
    → Replays st tl st'
unfolding replay_timeline
replay_timeline-Replays strict st [] st' h = record { counted = ground arith; in_order = tt }
replay_timeline-Replays strict st (not_mapping ∷ tl) st' h =
    absurd (unfold replay_entry in ground arith)
replay_timeline-Replays strict st (mapping item ∷ tl) st' h =
    let (mid, entered, rest) = >>=-eq-returned (replay_entry strict st (mapping item)) _ h in
    let round = replay_entry-Round strict st item mid entered in
    let later = replay_timeline-Replays strict mid tl st' rest in
    record {
      counted = omega (arith, round.counted, later.counted);
      in_order = (round.quiet, rw round.saw at later.in_order);
    }

-- The dict under a field that may be absent.
abbrev pub Holds : {A : Type 0} → Field (Dict A) → Dict A → Type 0
Holds absent d = d ≡ []
Holds ill_typed d = ⊥
Holds (given c) d = c ≡ d

-- The artifacts have keys that are allowed and digests in hexadecimal.
abbrev pub AllowedArtifacts : Dict Text → Type 0
AllowedArtifacts artifacts =
    All
      (λ entry.
        (is_empty entry.0 ≡ false)
        × (artifact_key_allowed entry.0 ≡ true)
        × (is_hex_digest entry.1 ≡ true))
      artifacts

-- What an accepted bundle shows: its version is the current one; its payload has a workflow mode and
-- a timeline whose entries are dicts in order, with at most one finalize event; the counts that the
-- bundle states are those of the timeline; the artifacts it carries are allowed; and the digest that
-- it states is the digest of what it carries, its own artifacts and its own proof included.
pub record IsVerified (stable_digest : DigestPayload → Text) (b : Bundle) : Type 0 where
  pub payload : BundlePayload
  pub timeline : List Entry
  pub artifacts : Dict Text
  pub proof : Dict Scalar
  pub current : version_ok b.bundle_version ≡ true
  pub carried : b.payload ≡ some payload
  pub moded : is_some payload.workflow_mode ≡ true
  pub listed : payload.timeline ≡ some timeline
  pub in_order : InOrder false timeline
  pub once : count (is_event finalize) timeline ≤ 1
  pub sized : matches b.timeline_size (length timeline) ≡ true
  pub decided : matches b.decision_count (count (is_event decision) timeline) ≡ true
  pub closure_hex : hex_or_none b.registry_closure_digest ≡ true
  pub config_hex : hex_or_none b.config_fingerprint ≡ true
  pub trace_hex : hex_or_none b.last_trace_digest ≡ true
  pub own_artifacts : Holds b.artifact_digests artifacts
  pub allowed : AllowedArtifacts artifacts
  pub own_proof : Holds b.replay_proof proof
  pub sealed :
      b.bundle_digest
      ≡ some (
          stable_digest (record {
            bundle_version = replay_bundle_version;
            migration_modes = value_or b.migration_modes empty_doc;
            config_fingerprint = b.config_fingerprint;
            last_trace_digest = b.last_trace_digest;
            artifact_digests = artifacts;
            replay_proof = proof;
            payload = payload;
            registry_closure_digest = b.registry_closure_digest;
          }))

or_empty-Holds :
    {A : Type 0} (f : Field (Dict A)) (e : VerifyError) {d : Dict A}
    → or_empty f e ≡ returned d
    → Holds f d
or_empty-Holds absent e h = cc
or_empty-Holds ill_typed e h = cc
or_empty-Holds (given c) e h = cc

required-eq {ℓ} :
    {A : Type ℓ} (o : Option A) (e : VerifyError) {a : A} → required o e ≡ returned a → o ≡ some a
required-eq none e h = cc
required-eq (some a) e h = cc

required-is_some {ℓ} :
    {A : Type ℓ} (o : Option A) (e : VerifyError) {a : A}
    → required o e ≡ returned a
    → is_some o ≡ true
required-is_some none e h = cc
required-is_some (some a) e h = refl

raise_if-eq : (b : Bool) (e : VerifyError) {u : Unit {0}} → raise_if b e ≡ returned u → b ≡ false
raise_if-eq true e h = cc
raise_if-eq false e h = refl

not-eq : (b : Bool) → not b ≡ false → b ≡ true
not-eq b h = ground arith

check_artifacts-Allowed :
    (artifacts : Dict Text) {u : Unit {0}}
    → check_artifacts artifacts ≡ returned u
    → AllowedArtifacts artifacts
unfolding check_artifacts
check_artifacts-Allowed [] h = tt
check_artifacts-Allowed ((key, value) ∷ rest) h =
    let (_, named, h1) = >>=-eq-returned (raise_if (is_empty key) _) _ h in
    let (_, known, h2) = >>=-eq-returned (raise_if (not (artifact_key_allowed key)) _) _ h1 in
    let (_, hex, h3) = >>=-eq-returned (raise_if (not (is_hex_digest value)) _) _ h2 in
    (
      (raise_if-eq _ _ named, not-eq _ (raise_if-eq _ _ known), not-eq _ (raise_if-eq _ _ hex)),
      check_artifacts-Allowed rest h3,
    )

record TimelineOk (b : Bundle) (tl : List Entry) : Type 0 where
  in_order : InOrder false tl
  once : count (is_event finalize) tl ≤ 1
  sized : matches b.timeline_size (length tl) ≡ true
  decided : matches b.decision_count (count (is_event decision) tl) ≡ true

check_timeline-ok :
    (strict : Bool) (b : Bundle) (tl : List Entry) {u : Unit {0}}
    → check_timeline strict b tl ≡ returned u
    → TimelineOk b tl
unfolding check_timeline
check_timeline-ok strict b tl h =
    let (st, replayed, h1) = >>=-eq-returned (replay_timeline strict replay_start tl) _ h in
    let r = replay_timeline-Replays strict replay_start tl st replayed in
    let (_, few, h2) = >>=-eq-returned (raise_if (ltb 1 st.finalize_count) _) _ h1 in
    let (_, sized, h3) =
      >>=-eq-returned (raise_if (not (matches b.timeline_size (length tl))) _) _ h2 in
    record {
      in_order = r.in_order;
      once = ground (arith, r.counted, raise_if-eq _ _ few);
      sized = not-eq _ (raise_if-eq _ _ sized);
      decided = not-eq _ (raise_if-eq _ _ h3);
    }

-- A bundle that verify_replay_bundle accepts, whatever its flags, is verified: its version is the
-- current one, its timeline is a list of dicts in order with at most one finalize event, the
-- timeline size and the decision count that it states, if any, are true, its artifacts have allowed
-- keys and hexadecimal digests, and its digest is the digest of what it carries, with its own
-- artifacts and its own proof where it has them and empty ones where it has none.
pub verify_sound :
    (stable_digest : DigestPayload → Text) (b : Bundle) (strict proof_strict : Bool)
    (order : Option Bool)
    → verify_replay_bundle stable_digest b strict proof_strict order ≡ returned tt
    → IsVerified stable_digest b
unfolding verify_replay_bundle
verify_sound stable_digest b strict proof_strict order h =
    let (_, current, h1) = >>=-eq-returned (raise_if (not (version_ok b.bundle_version)) _) _ h in
    let (digest, stated, h2) = >>=-eq-returned (required b.bundle_digest _) _ h1 in
    let (payload, carried, h3) = >>=-eq-returned (required b.payload _) _ h2 in
    let (_, moded, h4) = >>=-eq-returned (required payload.workflow_mode _) _ h3 in
    let (timeline, listed, h5) = >>=-eq-returned (required payload.timeline _) _ h4 in
    let (_, checked, h6) =
      >>=-eq-returned (check_timeline (value_or order strict) b timeline) _ h5 in
    let (_, closure, h7) =
      >>=-eq-returned (raise_if (not (hex_or_none b.registry_closure_digest)) _) _ h6 in
    let (_, config, h8) =
      >>=-eq-returned (raise_if (not (hex_or_none b.config_fingerprint)) _) _ h7 in
    let (_, last, h9) = >>=-eq-returned (raise_if (not (hex_or_none b.last_trace_digest)) _) _ h8 in
    let (artifacts, own_artifacts, h10) = >>=-eq-returned (or_empty b.artifact_digests _) _ h9 in
    let (_, allowed, h11) = >>=-eq-returned (check_artifacts artifacts) _ h10 in
    let (proof, own_proof, h12) = >>=-eq-returned (or_empty b.replay_proof _) _ h11 in
    let (_, _, h13) = >>=-eq-returned (check_proof proof_strict proof) _ h12 in
    let ok = check_timeline-ok _ b timeline checked in
    record {
      payload = payload;
      timeline = timeline;
      artifacts = artifacts;
      proof = proof;
      current = not-eq _ (raise_if-eq _ _ current);
      carried = required-eq _ _ carried;
      moded = required-is_some _ _ moded;
      listed = required-eq _ _ listed;
      in_order = ok.in_order;
      once = ok.once;
      sized = ok.sized;
      decided = ok.decided;
      closure_hex = not-eq _ (raise_if-eq _ _ closure);
      config_hex = not-eq _ (raise_if-eq _ _ config);
      trace_hex = not-eq _ (raise_if-eq _ _ last);
      own_artifacts = or_empty-Holds _ _ own_artifacts;
      allowed = check_artifacts-Allowed artifacts allowed;
      own_proof = or_empty-Holds _ _ own_proof;
      sealed =
          required-eq _ _ stated
          ∙ ap some (sym (text_eq→eq _ digest (not-eq _ (raise_if-eq _ _ h13))));
    }
