-- ===== src/Session/Laws/Replayable.antt =====
-- The timeline of a session passes the loop of `verify_replay_bundle`, whatever was called.
use lirix.Prelude.{
  ◌+◌, ◌≡◌, refl, Bool, true, false, ◌&&◌, List, [], ◌∷◌, snoc, any, any-append, arith, Text,
  Result, returned, raised, ◌>>=◌, if◌then◌else◌,
}
use lirix.Status.{Status}
use lirix.Session.Types.{
  EventType, plan, draft, tool_call, decision, finalize, Lifecycle, Payload, Entry, mapping,
  is_finalized, same_event, is_event,
}
use lirix.Session.Fsm.{seen, validate_append}
use lirix.Session.Store.{
  Session, effective_workflow_strict, session_status_allowed, event_type_allowed, event_item,
}
use lirix.Session.Verify.{
  is_finalize, is_session_mutation, Replayed, VerifyError, replay_entry, replay_timeline,
  replay_start,
}
use lirix.Session.Laws.Accepted.{incoming}
use lirix.Session.Laws.Tail.{tail-no_finalize}

abbrev pub SameSeen : EventType → Replayed → List Entry → Type 0
SameSeen et st timeline = seen et st.timeline ≡ seen et timeline

-- The loop accepts the timeline and ends in `st`, which agrees with the timeline and with the
-- lifecycle.
pub record Agrees (lifecycle : Lifecycle) (timeline : List Entry) (st : Replayed) : Type 0 where
  pub closed : st.saw_finalize ≡ is_finalized lifecycle
  pub counted : st.finalize_count ≡ (if is_finalized lifecycle then 1 else 0)
  pub finalizes : any (is_event finalize) st.timeline ≡ is_finalized lifecycle
  pub finalizes' : any (is_event finalize) timeline ≡ is_finalized lifecycle
  pub plans : SameSeen plan st timeline
  pub drafts : SameSeen draft st timeline
  pub tool_calls : SameSeen tool_call st timeline
  pub decisions : SameSeen decision st timeline

-- What the session's own check let through, the check of the replay lets through.
accepted_again :
    (lifecycle : Lifecycle) (timeline : List Entry) (st : Replayed) (et : EventType) (strict : Bool)
    → Agrees lifecycle timeline st
    → validate_append lifecycle timeline (incoming et) strict ≡ returned tt
    → validate_append Lifecycle.running st.timeline (incoming et) strict ≡ returned tt
unfolding validate_append
accepted_again lifecycle timeline st plan strict a h =
    ground (arith, tail-no_finalize st.timeline, a.closed)
accepted_again lifecycle timeline st _ strict a h = ground (arith, tail-no_finalize st.timeline)

bind_replay-nil :
    (strict : Bool) (r : Result VerifyError Replayed)
    → (r >>= λ st. replay_timeline strict st []) ≡ r
unfolding replay_timeline
bind_replay-nil strict (returned st) = refl
bind_replay-nil strict (raised err) = refl

bind_replay_assoc :
    (strict : Bool) (es : List Entry) (e : Entry) (r : Result VerifyError Replayed)
    → ((st : Replayed)
        → replay_timeline strict st (snoc es e)
          ≡ (replay_timeline strict st es >>= λ st'. replay_entry strict st' e))
    → (r >>= λ st. replay_timeline strict st (snoc es e))
      ≡ ((r >>= λ st. replay_timeline strict st es) >>= λ st. replay_entry strict st e)
bind_replay_assoc strict es e (returned st) ih = ih st
bind_replay_assoc strict es e (raised err) ih = refl

replay_timeline-snoc :
    (strict : Bool) (es : List Entry) (e : Entry) (st : Replayed)
    → replay_timeline strict st (snoc es e)
      ≡ (replay_timeline strict st es >>= λ st'. replay_entry strict st' e)
unfolding replay_timeline
replay_timeline-snoc strict [] e st = bind_replay-nil strict (replay_entry strict st e)
replay_timeline-snoc strict (x ∷ es) e st =
    bind_replay_assoc strict es e (replay_entry strict st x) (replay_timeline-snoc strict es e)

-- After finalize the session's own check refuses the four mutations.
mutation_refused :
    (lifecycle : Lifecycle) (timeline : List Entry) (et : EventType) (own : Bool)
    → validate_append lifecycle timeline (incoming et) own ≡ returned tt
    → (is_finalized lifecycle && is_session_mutation et) ≡ false
unfolding validate_append
mutation_refused lifecycle timeline plan own h = ground arith
mutation_refused lifecycle timeline _ own h = ground arith

finalize-same : (et : EventType) → same_event finalize et ≡ false → is_finalize et ≡ false
finalize-same plan h = refl
finalize-same _ h = h

module _ (now : Text) (status : Status) (payload : Payload) (lifecycle : Lifecycle)
    (timeline : List Entry) (st : Replayed) where
  abbrev pub EntryOf : EventType → Entry
  EntryOf et = mapping (event_item now et status payload)

  abbrev pub kept : EventType → Replayed
  kept et = record st { timeline = snoc st.timeline (EntryOf et) }

  seen-snoc :
      (et e : EventType)
      → SameSeen e st timeline
      → SameSeen e (kept et) (snoc timeline (EntryOf et))
  seen-snoc et e h = ground (
    arith,
    any-append (is_event e) st.timeline (EntryOf et ∷ []),
    any-append (is_event e) timeline (EntryOf et ∷ []),
  )

  pub Agrees-snoc :
      (et : EventType)
      → same_event finalize et ≡ false
      → Agrees lifecycle timeline st
      → Agrees lifecycle (snoc timeline (EntryOf et)) (kept et)
  Agrees-snoc et other a = record {
    closed = a.closed;
    counted = a.counted;
    finalizes =
        ground (arith, any-append (is_event finalize) st.timeline (EntryOf et ∷ []), a.finalizes);
    finalizes' =
        ground (arith, any-append (is_event finalize) timeline (EntryOf et ∷ []), a.finalizes');
    plans = seen-snoc et plan a.plans;
    drafts = seen-snoc et draft a.drafts;
    tool_calls = seen-snoc et tool_call a.tool_calls;
    decisions = seen-snoc et decision a.decisions;
  }

  pub replay-kept :
      (et : EventType) (strict own : Bool)
      → same_event finalize et ≡ false
      → Agrees lifecycle timeline st
      → (strict ≡ true → own ≡ true)
      → event_type_allowed et ≡ true
      → session_status_allowed status ≡ true
      → validate_append lifecycle timeline (incoming et) own ≡ returned tt
      → replay_entry strict st (EntryOf et) ≡ returned (kept et)
  unfolding replay_entry
  replay-kept et false own other a covers known valid accepted =
      ground (
        arith,
        finalize-same et other,
        mutation_refused lifecycle timeline et own accepted,
        a.closed,
      )
  replay-kept et true own other a covers known valid accepted =
      let accepted' = rw (covers refl) at accepted in
      ground (
        arith,
        finalize-same et other,
        mutation_refused lifecycle timeline et own accepted,
        a.closed,
        accepted_again lifecycle timeline st et true a accepted',
      )

  abbrev pub ended : Replayed
  ended = record {
    timeline = snoc st.timeline (EntryOf finalize);
    saw_finalize = true;
    finalize_count = st.finalize_count + 1;
  }

  pub Agrees-finalize :
      is_finalized lifecycle ≡ false
      → Agrees lifecycle timeline st
      → Agrees Lifecycle.finalized (snoc timeline (EntryOf finalize)) ended
  Agrees-finalize running a = record {
    closed = refl;
    counted = ground (arith, a.counted);
    finalizes = ground (arith, any-append (is_event finalize) st.timeline (EntryOf finalize ∷ []));
    finalizes' = ground (arith, any-append (is_event finalize) timeline (EntryOf finalize ∷ []));
    plans = seen-snoc finalize plan a.plans;
    drafts = seen-snoc finalize draft a.drafts;
    tool_calls = seen-snoc finalize tool_call a.tool_calls;
    decisions = seen-snoc finalize decision a.decisions;
  }

  pub replay-ended :
      (strict own : Bool)
      → Agrees lifecycle timeline st
      → (strict ≡ true → own ≡ true)
      → session_status_allowed status ≡ true
      → validate_append lifecycle timeline (incoming finalize) own ≡ returned tt
      → replay_entry strict st (EntryOf finalize) ≡ returned ended
  unfolding replay_entry
  replay-ended false own a covers valid accepted = ground arith
  replay-ended true own a covers valid accepted =
      let accepted' = rw (covers refl) at accepted in
      ground (arith, accepted_again lifecycle timeline st finalize true a accepted')

-- A session whose timeline passes the loop of the verifier, ending in `st`.
pub record Replayable (strict : Bool) (s : Session) : Type 0 where
  pub st : Replayed
  pub replays : replay_timeline strict replay_start s.timeline ≡ returned st
  pub agrees : Agrees s.lifecycle s.timeline st
  pub covers : strict ≡ true → effective_workflow_strict s ≡ true

pub replays-snoc :
    (strict : Bool) (es : List Entry) (e : Entry) (st st' : Replayed)
    → replay_timeline strict replay_start es ≡ returned st
    → replay_entry strict st e ≡ returned st'
    → replay_timeline strict replay_start (snoc es e) ≡ returned st'
replays-snoc strict es e st st' h k = rw (replay_timeline-snoc, h) k
