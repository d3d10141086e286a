-- ===== src/Session/Laws/Unbounded.antt =====
-- The window of lirix/core/session_fsm.py does not bound the finalize events of a session in
-- lirix/core/session.py.
use mathlib.Core.Path.{subst}
use mathlib.Core.List.{append-nil, append_assoc}
use lirix.Prelude.{
  ℕ, zero, suc, ◌+◌, ◌≡◌, refl, sym, ap, ◌∙◌, Bool, false, not, ◌&&◌, List, [], ◌∷◌, ◌++◌, length,
  length-append, drop, take_last, any-append, count, count-append, arith, Text, returned,
}
use lirix.Status.{Status}
use lirix.Session.Types.{
  EventType, decision, finalize, annotation, Payload, Entry, mapping, is_finalized, is_event,
}
use lirix.Session.Fsm.{seen, validate_append, tail_event_types, finalize_in}
use lirix.Session.Store.{
  Session, Outcome, effective_workflow_strict, after_event, record_event, event_item, checked,
  check_event,
}
use lirix.Session.Methods.{Trace}
use lirix.Session.Calls.{Call, event, call, run}

drop-append : {A : Type 0} (xs ys : List A) → drop (length xs) (xs ++ ys) ≡ ys
drop-append [] ys = refl
drop-append (x ∷ xs) ys = drop-append xs ys

-- The window over the end of a list is what was appended last, where that has its length.
take_last-append :
    {A : Type 0} (n : ℕ) (xs ys : List A) → length ys ≡ n → take_last n (xs ++ ys) ≡ ys
take_last-append n xs ys same =
    ap (λ k. drop k (xs ++ ys)) (omega (arith, length-append xs ys, same)) ∙ drop-append xs ys

run-append :
    (trace_digest : Trace → Text) (cs ds : List Call) (s : Session)
    → run trace_digest (cs ++ ds) s ≡ run trace_digest ds (run trace_digest cs s)
unfolding run
run-append trace_digest [] ds s = refl
run-append trace_digest (c ∷ cs) ds s = run-append trace_digest cs ds (call trace_digest c s).1

run-event :
    (trace_digest : Trace → Text) (et : EventType) (payload : Payload) (status : Status)
    (now : Text) (cs : List Call) (s : Session)
    → run trace_digest (event et payload status now ∷ cs) s
      ≡ run trace_digest cs (record_event et payload status now s).1
unfolding run call
run-event trace_digest et payload status now cs s = refl

-- Not finalized, no finalize event among the last 25 entries, and, if strict, a decision.
pub record Ready (s : Session) : Type 0 where
  pub live : is_finalized s.lifecycle ≡ false
  pub unseen : finalize_in (tail_event_types s.timeline) ≡ false
  pub backed : (effective_workflow_strict s && not (seen decision s.timeline)) ≡ false

module _ (trace_digest : Trace → Text) (payload : Payload) (now : Text) where
  abbrev ending : Entry
  ending = mapping (event_item now finalize Status.ok payload)

  abbrev note : Entry
  note = mapping (event_item now annotation Status.ok payload)

  abbrev notes : ℕ → List Entry
  notes zero = []
  notes (suc k) = note ∷ notes k

  abbrev pub annotations : ℕ → List Call
  annotations zero = []
  annotations (suc k) = event annotation payload Status.ok now ∷ annotations k

  -- n times a finalize event that a client writes by record_event, with 25 annotations after it.
  abbrev pub rounds : ℕ → List Call
  rounds zero = []
  rounds (suc n) = event finalize payload Status.ok now ∷ (annotations 25 ++ rounds n)

  -- What a sequence of events leaves of a session.
  record Extends (s t : Session) (ys : List Entry) : Type 0 where
    lifecycle : t.lifecycle ≡ s.lifecycle
    strict : effective_workflow_strict t ≡ effective_workflow_strict s
    timeline : t.timeline ≡ s.timeline ++ ys

  annotate-returned :
      (s : Session)
      → is_finalized s.lifecycle ≡ false
      → record_event annotation payload Status.ok now s
        ≡ (returned tt, after_event annotation payload Status.ok now s)
  unfolding record_event validate_append
  annotate-returned s live =
      ap (λ r. checked r s (after_event annotation payload Status.ok now s)) legal
    where
      legal : check_event annotation Status.ok s ≡ returned tt
      legal = ground arith

  annotations-Extends :
      (k : ℕ) (s : Session)
      → is_finalized s.lifecycle ≡ false
      → Extends s (run trace_digest (annotations k) s) (notes k)
  unfolding run call
  annotations-Extends zero s live = record {
    lifecycle = refl;
    strict = refl;
    timeline = sym (append-nil s.timeline);
  }
  annotations-Extends (suc k) s live =
      let later = annotations-Extends k (after_event annotation payload Status.ok now s) live in
      subst (λ (o : Outcome). Extends s (run trace_digest (annotations k) o.1) (notes (suc k)))
        (sym (annotate-returned s live))
        (record {
          lifecycle = later.lifecycle;
          strict = later.strict;
          timeline = later.timeline ∙ append_assoc s.timeline (note ∷ []) (notes k);
        })

  finalize-returned :
      (s : Session)
      → Ready s
      → record_event finalize payload Status.ok now s
        ≡ (returned tt, after_event finalize payload Status.ok now s)
  unfolding record_event validate_append
  finalize-returned s ready =
      ap (λ r. checked r s (after_event finalize payload Status.ok now s)) legal
    where
      legal : check_event finalize Status.ok s ≡ returned tt
      legal = ground (arith, ready.live, ready.unseen, ready.backed)

  window-clear : (xs : List Entry) → finalize_in (tail_event_types (xs ++ notes 25)) ≡ false
  window-clear xs = rw (take_last-append 25 xs (notes 25) refl) refl

  still-backed :
      (own : Bool) (xs ys : List Entry)
      → (own && not (seen decision xs)) ≡ false
      → (own && not (seen decision (xs ++ ys))) ≡ false
  still-backed own xs ys h = ground (arith, any-append (is_event decision) xs ys)

  -- One round on a ready session.
  round-Ready :
      (s : Session)
      → Ready s
      → let t = run trace_digest (annotations 25) (after_event finalize payload Status.ok now s) in
        Ready t × (count (is_event finalize) t.timeline ≡ count (is_event finalize) s.timeline + 1)
  round-Ready s ready =
      let e = after_event finalize payload Status.ok now s in
      let t = annotations-Extends 25 e ready.live in
      (
        record {
          live = ap is_finalized t.lifecycle ∙ ready.live;
          unseen =
              ap (λ xs. finalize_in (tail_event_types xs)) t.timeline ∙ window-clear e.timeline;
          backed =
              rw (t.strict, t.timeline)
                (still-backed (effective_workflow_strict s) e.timeline (notes 25)
                  (still-backed (effective_workflow_strict s) s.timeline _ ready.backed));
        },
        ap (count (is_event finalize)) t.timeline
            ∙ count-append (is_event finalize) e.timeline (notes 25)
            ∙ omega (arith, count-append (is_event finalize) s.timeline (ending ∷ [])),
      )

  run-round :
      (n : ℕ) (s : Session)
      → Ready s
      → run trace_digest (rounds (suc n)) s
        ≡ run trace_digest
            (rounds n)
            (run trace_digest (annotations 25) (after_event finalize payload Status.ok now s))
  run-round n s ready =
      run-event trace_digest finalize payload Status.ok now (annotations 25 ++ rounds n) s
      ∙ ap (λ (o : Outcome). run trace_digest (annotations 25 ++ rounds n) o.1)
          (finalize-returned s ready)
      ∙ run-append trace_digest (annotations 25) (rounds n)
          (after_event finalize payload Status.ok now s)

  -- On a session that is not finalized, whose last 25 entries hold no finalize event, and which, if
  -- strict, has a decision, n rounds of a finalize event by record_event and 25 annotations write n
  -- finalize events, for every n, and leave the session ready for more.
  pub finalize_unbounded :
      (n : ℕ) (s : Session)
      → Ready s
      → Ready (run trace_digest (rounds n) s)
        × (count (is_event finalize) (run trace_digest (rounds n) s).timeline
            ≡ count (is_event finalize) s.timeline + n)
  unfolding run
  finalize_unbounded zero s ready = (ready, omega arith)
  finalize_unbounded (suc n) s ready =
      let (next, one_more) = round-Ready s ready in
      subst
        (λ (t : Session).
          Ready t
          × (count (is_event finalize) t.timeline ≡ count (is_event finalize) s.timeline + suc n))
        (sym (run-round n s ready))
        (let (still, more) = finalize_unbounded n _ next in (still, more ∙ omega (arith, one_more)))
