-- ===== src/Session/Laws/RoundTrip.antt =====
-- The replay bundle that a session of lirix/core/session.py produces passes verify_replay_bundle.
use lirix.Prelude.{
  ◌≡◌, refl, sym, Bool, true, false, Option, none, some, List, [], All, All-append, arith, Text,
  Dict, returned, value_or, text_eq_refl, ==_refl, length, count,
}
use lirix.Contracts.{is_hex_digest}
use lirix.Session.Types.{Lifecycle, Item, Scalar, decision, is_event}
use lirix.Session.Store.{Session, WorkflowMode, new_session, effective_workflow_strict}
use lirix.Session.Methods.{Trace}
use lirix.Session.Replay.{
  DigestPayload, Bundle, last_trace, bundle_of, replay_bundle, replay_bundle_version,
  timeline_payload,
}
use lirix.Session.Verify.{
  replay_timeline, replay_start, check_timeline, verify_replay_bundle, recomputed,
}
use lirix.Session.Calls.{Call, run}
use lirix.Session.Laws.Replayable.{Replayable, Agrees}
use mathlib.Core.Path.{subst}
use lirix.Session.Laws.Preserved.{
  Replayable-timeline, after_event-Replayable, finalize_event-Replayable, after_trace-Replayable,
}
use lirix.Session.Laws.Induction.{Kept, AllAdmissible, run_kept}
use lirix.Session.Laws.Meta.{TraceMetaOk, EntryOk, OptionOk, MetaOk-none, last_trace-ok}

-- What the round trip rests on: the timeline replays, and every trace's metadata is well formed.
record Exportable (strict : Bool) (s : Session) : Type 0 where
  replayable : Replayable strict s
  entries : All EntryOk s.timeline

module _ (trace_digest : Trace → Text)
    (digest_hex : (t : Trace) → is_hex_digest (trace_digest t) ≡ true) (strict : Bool) where
  Exportable-kept : Kept trace_digest TraceMetaOk (Exportable strict)
  Exportable-kept = record {
    linked = λ s ids p. record {
      replayable = Replayable-timeline s _ refl refl refl p.replayable;
      entries = p.entries;
    };
    planned = λ s p_ p. record {
      replayable = Replayable-timeline s _ refl refl refl p.replayable;
      entries = p.entries;
    };
    recorded = λ s et payload status now other accepted p. record {
      replayable =
          after_event-Replayable strict et payload status now s other accepted p.replayable;
      entries = All-append EntryOk s.timeline _ p.entries ((MetaOk-none, refl), tt);
    };
    ended = λ s payload status now live accepted p. record {
      replayable = finalize_event-Replayable strict payload status now s live accepted p.replayable;
      entries = All-append EntryOk s.timeline _ p.entries ((MetaOk-none, refl), tt);
    };
    traced = λ s kind t status info now live ok p. record {
      replayable =
          after_trace-Replayable strict trace_digest kind t status info now s live p.replayable;
      entries = All-append EntryOk s.timeline _ p.entries ((ok, digest_hex t), tt);
    };
  }

module _ (stable_digest : DigestPayload → Text) where
  check_timeline-ok :
      (strict : Bool) (last : Option Item) (s : Session)
      → Replayable strict s
      → check_timeline strict (bundle_of stable_digest last s) s.timeline ≡ returned tt
  unfolding check_timeline
  check_timeline-ok strict last s r = rw r.replays (
      ground (
        arith,
        r.agrees.counted,
        ==_refl (length s.timeline),
        ==_refl (count (is_event decision) s.timeline),
      ))

  verify-bundle_of :
      (strict : Bool) (last : Option Item) (s : Session)
      → OptionOk last
      → Replayable strict s
      → verify_replay_bundle stable_digest (bundle_of stable_digest last s) strict false none
        ≡ returned tt
  unfolding verify_replay_bundle
  verify-bundle_of strict none s h r =
      let digest =
        recomputed stable_digest (bundle_of stable_digest none s) [] [] (timeline_payload s) in
      rw
        (
          text_eq_refl replay_bundle_version,
          check_timeline-ok strict none s r,
          MetaOk-none.artifacts_ok,
          MetaOk-none.proof_ok,
          text_eq_refl digest,
        )
        refl
  verify-bundle_of strict (some item) s h r =
      let artifacts : Dict Text = value_or item.artifact_digests [] in
      let proof : Dict Scalar = value_or item.replay_proof [] in
      let digest =
        recomputed stable_digest (bundle_of stable_digest (some item) s) artifacts proof
          (timeline_payload s) in
      rw
        (
          text_eq_refl replay_bundle_version,
          check_timeline-ok strict (some item) s r,
          h.0.closure_hex,
          h.0.fingerprint_hex,
          h.1,
          h.0.artifacts_ok,
          h.0.proof_ok,
          text_eq_refl digest,
        )
        refl

  -- A bundle is what `replay_bundle` makes of the session.
  bundle_of-replay_bundle :
      (s : Session) (b : Bundle)
      → replay_bundle stable_digest s ≡ returned b
      → b ≡ bundle_of stable_digest (last_trace s.timeline) s
  unfolding replay_bundle
  bundle_of-replay_bundle s b h = ground arith

pub new_session_starts :
    (id created : Text) (mode : Option WorkflowMode) (own : Bool) (s : Session)
    → new_session id created mode own ≡ returned s
    → (s.timeline ≡ []) × (s.lifecycle ≡ Lifecycle.opened)
unfolding new_session
new_session_starts id created none own s made = cc
new_session_starts id created (some mode) own s made = (ground arith, ground arith)

Exportable-empty :
    (strict : Bool) (s : Session)
    → s.timeline ≡ []
    → s.lifecycle ≡ Lifecycle.opened
    → (strict ≡ true → effective_workflow_strict s ≡ true)
    → Exportable strict s
unfolding replay_timeline
Exportable-empty strict s empty opened covers = record {
  replayable = record {
    st = replay_start;
    replays = rw empty refl;
    agrees =
        subst (λ l. Agrees l s.timeline replay_start) (sym opened)
          (subst (λ t. Agrees Lifecycle.opened t replay_start) (sym empty)
            (record {
              closed = refl;
              counted = refl;
              finalizes = refl;
              finalizes' = refl;
              plans = refl;
              drafts = refl;
              tool_calls = refl;
              decisions = refl;
            }));
    covers = covers;
  };
  entries = rw empty tt;
}

-- For every new session, direct or agent, and every sequence of calls on it, accepted or refused, in
-- which no call is a record_event of a finalize event and the metadata of the traces is well formed:
-- where `replay_bundle` returns a bundle, `verify_replay_bundle` accepts it. With the
-- strict workflow enforced this holds for the sessions that are strict themselves.
pub verify-replay_bundle :
    (trace_digest : Trace → Text) (stable_digest : DigestPayload → Text) (strict : Bool)
    (id created : Text) (mode : Option WorkflowMode) (own : Bool) (s : Session) (cs : List Call)
    (b : Bundle)
    → ((t : Trace) → is_hex_digest (trace_digest t) ≡ true)
    → new_session id created mode own ≡ returned s
    → (strict ≡ true → effective_workflow_strict s ≡ true)
    → AllAdmissible TraceMetaOk cs
    → replay_bundle stable_digest (run trace_digest cs s) ≡ returned b
    → verify_replay_bundle stable_digest b strict false none ≡ returned tt
verify-replay_bundle trace_digest stable_digest strict id created mode own s cs b digest_hex made
      covers ok exported =
    let started = new_session_starts id created mode own s made in
    let end = run trace_digest cs s in
    let p =
      run_kept (Exportable-kept trace_digest digest_hex strict) cs s ok
        (Exportable-empty strict s started.0 started.1 covers) in
    rw (bundle_of-replay_bundle stable_digest end b exported) (
      verify-bundle_of stable_digest strict (last_trace end.timeline) end
        (last_trace-ok end.timeline p.entries) p.replayable)
