-- ===== src/Orchestrator/Laws/Closing.antt =====
-- lirix/core/orchestrator.py: the records that end a run on a session of its own.
use mathlib.Core.Path.{subst}
use lirix.Prelude.{
  ◌≡◌, refl, sym, Bool, true, false, Option, some, none, List, [], ◌∷◌, map, Text, Dict, codes,
  Result, returned,
}
use lirix.Status.{Status}
use lirix.Session.Types.{Doc, TraceKind, Verdict, Lifecycle, EventType, Kind, Entry, Item, Payload}
use lirix.Session.Types
use lirix.Session.Fsm.{validate_append}
use lirix.Session.Store.{Session, record_event}
use lirix.Session.Methods
use lirix.Session.Methods.{record_trace, record_decision}
use lirix.Session.Replay.{replay_bundle, drifts, with_some, trace_values}
use lirix.Orchestrator.Types.{
  PipelineError, Client, RunState, after, Request, fresh_session, is_own,
}
use lirix.Orchestrator.Actions.{
  record_step, record_run_trace, record_run_decision, finalize_own, export_bundles,
  record_rejection,
}
use lirix.Orchestrator.Runs.{build_report, approve}

-- An entry of a timeline: its kind, event type and status, and the verdict of its payload.
pub record Line : Type 0 where
  pub kind : Kind
  pub event_type : Option EventType
  pub status : Option Status
  pub verdict : Option Verdict

abbrev payload_verdict : Option Payload → Option Verdict
payload_verdict none = none
payload_verdict (some p) = p.verdict

abbrev line_of : Entry → Option Line
line_of Entry.not_mapping = none
line_of (Entry.mapping item) = some (record {
  kind = item.kind;
  event_type = item.event_type;
  status = item.status;
  verdict = payload_verdict item.payload;
})

-- The trace, the decision and the end that a run records.
abbrev pub closing_lines : TraceKind → Status → Verdict → List (Option Line)
closing_lines kind status verdict =
    some (record {
      kind = Types.Kind.trace_record kind;
      event_type = none;
      status = some status;
      verdict = none;
    })
    ∷ some (record {
      kind = Types.Kind.session_event;
      event_type = some EventType.decision;
      status = some status;
      verdict = some verdict;
    })
    ∷ some (record {
      kind = Types.Kind.session_event;
      event_type = some EventType.finalize;
      status = some status;
      verdict = none;
    })
    ∷ []

-- The session is finalized, and its timeline is the three records of a run.
pub record IsClosed (kind : TraceKind) (status : Status) (verdict : Verdict) (s : Session)
    : Type 0 where
  pub lifecycle : s.lifecycle ≡ Lifecycle.finalized
  pub timeline : map line_of s.timeline ≡ closing_lines kind status verdict

-- A session of a run before its records.
abbrev pub opened_session : Text → Text → List Text → Bool → Session
opened_session id now ids flag = record (fresh_session id now) {
  correlation_ids = ids;
  state = record (fresh_session id now).state { l1_l3_ok = flag };
}

one_drift : (o : Option Text) → drifts (with_some o []) ≡ false
unfolding drifts
one_drift none = refl
one_drift (some t) = refl

-- A run whose records were made.
pub record IsRecorded {V X W A : Type 0} (kind : TraceKind) (status : Status) (verdict : Verdict)
    (r : Result (PipelineError V X) A × RunState V W) : Type 0 where
  pub answer : A
  pub returns : r.0 ≡ returned answer
  pub closed : IsClosed kind status verdict r.1.session

module _ {V O P X W : Type 0} (client : Client V O P X W) where
  export_bundles-returns :
      (st : RunState V W)
      → drifts (trace_values (λ i. i.config_fingerprint) st.session.timeline) ≡ false
      → drifts (trace_values (λ i. i.registry_closure_digest) st.session.timeline) ≡ false
      → export_bundles client st ≡ (returned tt, st)
  unfolding export_bundles replay_bundle
  export_bundles-returns st h k = rw (h, k) refl

  module _ (id now : Text) (ids : List Text) (flag : Bool) (st : RunState V W) where
    abbrev at_start : RunState V W
    at_start = record st { session = opened_session id now ids flag }

    no_drift : drifts (with_some client.info.config_fingerprint []) ≡ false
    no_drift = one_drift client.info.config_fingerprint

    no_closure_drift : drifts (with_some client.info.registry_closure_digest []) ≡ false
    no_closure_drift = one_drift client.info.registry_closure_digest

    pub rejection-IsRecorded :
        (kind : TraceKind) (note : Doc) (e : PipelineError V X)
        → IsRecorded kind Status.rejected Verdict.blocked
            (record_rejection client kind true note e at_start)
    unfolding record_rejection record_step record_run_trace record_run_decision finalize_own
        record_trace record_decision record_event Methods.finalize validate_append
    rejection-IsRecorded kind note e =
        let failed =
          (record_step {X = X} (client.layer_of e) (codes "failed") Status.rejected at_start).1 in
        let traced = (record_run_trace client kind Status.rejected none failed).1 in
        let decided =
          (record_run_decision client Verdict.blocked (client.blocked_doc e) traced).1 in
        let end = (finalize_own client true false note decided).1 in
        subst (IsRecorded kind Status.rejected Verdict.blocked)
          (sym (export_bundles-returns end no_drift no_closure_drift))
          (record {
            answer = tt;
            returns = refl;
            closed = record { lifecycle = refl; timeline = refl };
          })

    pub approve-IsRecorded :
        (request : Request V) (rationale : Text) (digests : W → Dict Text) (out : Option O)
        (policy : Option P)
        → is_own request.session ≡ true
        → IsRecorded request.kind Status.ok Verdict.approved
            (approve client request rationale digests out policy at_start)
    unfolding approve record_run_trace record_run_decision finalize_own record_trace record_decision
        record_event Methods.finalize validate_append
    approve-IsRecorded request rationale digests out policy own =
        let done = client.approved_doc (codes "completed") in
        let traced =
          (record_run_trace client request.kind Status.ok (some (digests st.world)) at_start).1 in
        let decided =
          (record_run_decision client Verdict.approved (client.approved_doc rationale) traced).1 in
        let end = (finalize_own client true true done decided).1 in
        let tail = λ (x : Result (PipelineError V X) (Unit {0}) × RunState V W).
          after x (λ _. build_report client out policy) in
        rw own (
          subst (λ x. IsRecorded request.kind Status.ok Verdict.approved (tail x))
            (sym (export_bundles-returns end no_drift no_closure_drift))
            (record {
              answer = record {
                validated = true;
                outcome = out;
                policy_decision = policy;
                validation_session = end.session;
              };
              returns = refl;
              closed = record { lifecycle = refl; timeline = refl };
            }))
