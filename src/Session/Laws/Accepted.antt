-- ===== src/Session/Laws/Accepted.antt =====
-- What it means that record_event of lirix/core/session.py accepted an event.
use mathlib.Core.Path.{subst}
use lirix.Prelude.{
  ◌≡◌, refl, sym, ap, true, some, inl, inr, ◌⊎◌, arith, Text, Result, returned, raised,
}
use lirix.Status.{Status}
use lirix.Session.Types.{SessionError, EventType, session_event, Payload}
use lirix.Session.Fsm.{SessionEvent, validate_append}
use lirix.Session.Store.{
  Session, Outcome, effective_workflow_strict, session_status_allowed, event_type_allowed, checked,
  check_event, after_event, record_event,
}

abbrev pub incoming : EventType → SessionEvent
incoming et = record { kind = session_event; event_type = some et }

-- The three checks of record_event.
pub record Accepted (s : Session) (et : EventType) (status : Status) : Type 0 where
  pub known : event_type_allowed et ≡ true
  pub valid : session_status_allowed status ≡ true
  pub legal :
      validate_append s.lifecycle s.timeline (incoming et) (effective_workflow_strict s)
      ≡ returned tt

checked_cases :
    (r : Result SessionError (Unit {0})) (s next : Session)
    → ((e : SessionError) × (checked r s next ≡ (raised e, s)))
      ⊎ (r ≡ returned tt) × (checked r s next ≡ (returned tt, next))
checked_cases (returned tt) s next = inr (refl, refl)
checked_cases (raised e) s next = inl (e, refl)

Accepted-of :
    (s : Session) (et : EventType) (status : Status)
    → check_event et status s ≡ returned tt
    → Accepted s et status
Accepted-of s et status h = record {
  known = ground arith;
  valid = ground arith;
  legal = ground arith;
}

-- record_event either raises and changes nothing, or its checks passed and it appends the event.
pub record_event_cases :
    (et : EventType) (payload : Payload) (status : Status) (now : Text) (s : Session)
    → ((e : SessionError) × (record_event et payload status now s ≡ (raised e, s)))
      ⊎ Accepted s et status
        × (record_event et payload status now s
            ≡ (returned tt, after_event et payload status now s))
unfolding record_event
record_event_cases et payload status now s =
    elim (checked_cases (check_event et status s) s (after_event et payload status now s)) [
      | inl refused ↦ inl refused
      | inr (passed, e) ↦ inr (Accepted-of s et status passed, e)
    ]

-- What holds before record_event, and after it where it is accepted, holds after it.
pub record_event_keeps {ℓ} :
    (P : Session → Type ℓ) (et : EventType) (payload : Payload) (status : Status) (now : Text)
    (s : Session)
    → P s
    → (Accepted s et status → P (after_event et payload status now s))
    → P (record_event et payload status now s).1
record_event_keeps P et payload status now s before after =
    elim (record_event_cases et payload status now s) [
      | inl (_, e) ↦ subst P (sym (ap (λ (o : Outcome). o.1) e)) before
      | inr (accepted, e) ↦ subst P (sym (ap (λ (o : Outcome). o.1) e)) (after accepted)
    ]
