-- ===== src/Session/Laws/Preserved.antt =====
-- Every call on a session keeps its timeline acceptable to the verifier.
use mathlib.Core.Path.{subst}
use lirix.Prelude.{
  ◌≡◌, refl, sym, ◌∙◌, Bool, false, none, List, [], ◌∷◌, snoc, any, any-append, arith, Text,
  returned, inl, inr, Bool-cases,
}
use lirix.Status.{Status}
use lirix.Session.Types.{
  Doc, EventType, plan, draft, tool_call, decision, finalize, TraceKind, Lifecycle, Payload, Entry,
  mapping, trace_record, is_finalized, same_event, is_event,
}
use lirix.Session.Fsm.{validate_append}
use lirix.Session.Store.{Session, after_event, effective_workflow_strict, trace_status_allowed}
use lirix.Session.Methods
use lirix.Session.Methods.{
  Trace, TraceMeta, trace_item, after_trace, start, record_trace, record_plan, bind_execution_plan,
  record_draft, record_tool_call, record_decision, verdict_status, finalize_status, doc_payload,
}
use lirix.Session.Verify.{replay_entry, Replayed}
use lirix.Session.Laws.Accepted.{Accepted, record_event_cases}
use lirix.Session.Laws.Replayable.{
  Agrees, Replayable, replays-snoc, Agrees-snoc, Agrees-finalize, replay-kept, replay-ended, kept,
  ended,
}

-- finalize either changes nothing, or it appends its event to an open session and closes it.
pub finalize_keeps {ℓ} :
    (P : Session → Type ℓ) (good : Bool) (content : Doc) (now : Text) (s : Session)
    → P s
    → (is_finalized s.lifecycle ≡ false
        → Accepted s finalize (finalize_status good)
        → P (record (after_event finalize (doc_payload content) (finalize_status good) now s) {
          lifecycle = Lifecycle.finalized;
        }))
    → P (Methods.finalize good content now s).1
unfolding Methods.finalize
finalize_keeps P good content now s before after = elim (Bool-cases (is_finalized s.lifecycle)) [
  | inl closed ↦ rw closed before
  | inr live ↦
      rw live
        (elim (record_event_cases finalize (doc_payload content) (finalize_status good) now s) [
          | inl (_, e) ↦ rw e before
          | inr (accepted, e) ↦ rw e (after live accepted)
        ])
]

pub start-live : (l : Lifecycle) → is_finalized l ≡ false → is_finalized (start l) ≡ false
start-live Lifecycle.opened h = refl
start-live _ h = h

trace_accepted :
    (l : Lifecycle) (timeline : List Entry) (kind : TraceKind)
    → is_finalized l ≡ false
    → validate_append l timeline (record { kind = trace_record kind; event_type = none }) false
      ≡ returned tt
unfolding validate_append
trace_accepted l timeline kind live = rw live

-- record_trace either changes nothing, or it appends its record to an open session.
pub record_trace_keeps {ℓ} :
    (trace_digest : Trace → Text) (P : Session → Type ℓ) (kind : TraceKind) (t : Trace)
    (status : Status) (info : TraceMeta) (now : Text) (s : Session)
    → P s
    → (is_finalized s.lifecycle ≡ false
        → P (
            after_trace trace_digest kind t status info now
              (record s { lifecycle = start s.lifecycle })))
    → P (record_trace trace_digest kind t status info now s).1
unfolding record_trace
record_trace_keeps trace_digest P kind t status info now s before after =
    elim (Bool-cases (is_finalized s.lifecycle)) [
      | inl closed ↦ rw closed before
      | inr live ↦ elim (Bool-cases (trace_status_allowed status)) [
        | inl valid ↦
            rw
              (
                live,
                valid,
                trace_accepted (start s.lifecycle) s.timeline kind (start-live s.lifecycle live),
              )
              (after live)
        | inr invalid ↦ rw (live, invalid) before
      ]
    ]

module _ (trace_digest : Trace → Text) (now : Text) (kind : TraceKind) (t : Trace) (status : Status)
    (info : TraceMeta) where
  abbrev pub trace_entry : Entry
  trace_entry = mapping (trace_item trace_digest now kind t status info)

  any-trace :
      (et : EventType) (timeline : List Entry)
      → any (is_event et) (snoc timeline trace_entry) ≡ any (is_event et) timeline
  any-trace et timeline = ground (arith, any-append (is_event et) timeline (trace_entry ∷ []))

  Agrees-trace :
      (l : Lifecycle) (timeline : List Entry) (st : Replayed)
      → is_finalized l ≡ false
      → Agrees l timeline st
      → Agrees (start l) (snoc timeline trace_entry) st
  Agrees-trace l timeline st live a =
      let live' = start-live l live in
      record {
        closed = cc (a.closed, live, live');
        counted = rw live' (rw live at a.counted);
        finalizes = cc (a.finalizes, live, live');
        finalizes' = cc (a.finalizes', live, live', any-trace finalize timeline);
        plans = cc (a.plans, any-trace plan timeline);
        drafts = cc (a.drafts, any-trace draft timeline);
        tool_calls = cc (a.tool_calls, any-trace tool_call timeline);
        decisions = cc (a.decisions, any-trace decision timeline);
      }

-- The rest of the session does not matter.
pub Replayable-timeline :
    {strict : Bool} (s s' : Session)
    → s'.timeline ≡ s.timeline
    → s'.lifecycle ≡ s.lifecycle
    → effective_workflow_strict s' ≡ effective_workflow_strict s
    → Replayable strict s
    → Replayable strict s'
Replayable-timeline {strict} s s' t l w r = record {
  st = r.st;
  replays = rw t r.replays;
  agrees =
      subst (λ x. Agrees x s'.timeline r.st) (sym l)
        (subst (λ x. Agrees s.lifecycle x r.st) (sym t) r.agrees);
  covers = λ on. w ∙ r.covers on;
}

module _ (strict : Bool) where
  pub after_event-Replayable :
      (et : EventType) (payload : Payload) (status : Status) (now : Text) (s : Session)
      → same_event finalize et ≡ false
      → Accepted s et status
      → Replayable strict s
      → Replayable strict (after_event et payload status now s)
  after_event-Replayable et payload status now s other accepted r = record {
    st = kept now status payload s.lifecycle s.timeline r.st et;
    replays = replays-snoc strict s.timeline _ r.st _ r.replays (
        replay-kept now status payload s.lifecycle s.timeline r.st et strict
          (effective_workflow_strict s) other r.agrees r.covers accepted.known accepted.valid
          accepted.legal);
    agrees = Agrees-snoc now status payload s.lifecycle s.timeline r.st et other r.agrees;
    covers = r.covers;
  }

  pub finalize_event-Replayable :
      (payload : Payload) (status : Status) (now : Text) (s : Session)
      → is_finalized s.lifecycle ≡ false
      → Accepted s finalize status
      → Replayable strict s
      → Replayable strict
          (record (after_event finalize payload status now s) { lifecycle = Lifecycle.finalized })
  finalize_event-Replayable payload status now s live accepted r = record {
    st = ended now status payload s.lifecycle s.timeline r.st;
    replays = replays-snoc strict s.timeline _ r.st _ r.replays (
        replay-ended now status payload s.lifecycle s.timeline r.st strict
          (effective_workflow_strict s) r.agrees r.covers accepted.valid accepted.legal);
    agrees = Agrees-finalize now status payload s.lifecycle s.timeline r.st live r.agrees;
    covers = r.covers;
  }

  pub after_trace-Replayable :
      (trace_digest : Trace → Text) (kind : TraceKind) (t : Trace) (status : Status)
      (info : TraceMeta) (now : Text) (s : Session)
      → is_finalized s.lifecycle ≡ false
      → Replayable strict s
      → Replayable strict (
          after_trace trace_digest kind t status info now
            (record s { lifecycle = start s.lifecycle }))
  unfolding replay_entry
  after_trace-Replayable trace_digest kind t status info now s live r = record {
    st = r.st;
    replays =
        replays-snoc strict s.timeline (mapping (trace_item trace_digest now kind t status info))
          r.st r.st r.replays refl;
    agrees =
        Agrees-trace trace_digest now kind t status info s.lifecycle s.timeline r.st live r.agrees;
    covers = r.covers;
  }
