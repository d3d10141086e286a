-- ===== src/Session/Fsm.antt =====
-- lirix/core/session_fsm.py: which events may be appended to a timeline.
use lirix.Prelude.{
  Bool, true, not, ◌&&◌, ◌||◌, Option, none, some, List, [], ◌∷◌, any, all, reverse, take_last,
  Result, returned, raised, if◌then◌else◌,
}
use lirix.Session.Types.{
  EventType, plan, draft, tool_call, decision, finalize, annotation, Kind, Lifecycle, Entry,
  SessionError, session_fsm_finalized, session_fsm_workflow_order, session_fsm_finalize_once,
  session_fsm_after_finalize, is_finalized, same_event, is_some_event, event_of_kind, is_event,
  session_event_of,
}

-- class SessionEvent
pub record SessionEvent : Type 0 where
  pub kind : Kind
  pub event_type : Option EventType

-- _WORKFLOW_PREREQS; an event without an entry has no prerequisites.
abbrev pub workflow_prereqs : EventType → List EventType
workflow_prereqs draft = plan ∷ []
workflow_prereqs tool_call = draft ∷ []
workflow_prereqs decision = tool_call ∷ []
workflow_prereqs finalize = decision ∷ []
workflow_prereqs _ = []

-- `et in _session_workflow_events_seen(timeline)`, for a tracked `et`
abbrev pub seen : EventType → List Entry → Bool
seen et timeline = any (is_event et) timeline

abbrev with_event : Option EventType → List EventType → List EventType
with_event none es = es
with_event (some e) es = e ∷ es

abbrev pub event_types : List Entry → List EventType
event_types [] = []
event_types (entry ∷ rest) = with_event (session_event_of entry) (event_types rest)

-- _tail_event_types, with its default limit
abbrev pub tail_event_types : List Entry → List EventType
tail_event_types timeline = event_types (reverse (take_last 25 timeline))

abbrev pub finalize_in : List EventType → Bool
finalize_in = any (same_event finalize)

-- The incoming event as an entry's `kind` and `event_type` would give it.
abbrev pub incoming_is : EventType → SessionEvent → Bool
incoming_is et e = is_some_event et (event_of_kind e.kind e.event_type)

-- `need.issubset(seen)`
abbrev pub prereqs_seen : Option EventType → List Entry → Bool
prereqs_seen none timeline = true
prereqs_seen (some et) timeline = all (λ need. seen need timeline) (workflow_prereqs et)

abbrev pub is_mutation : SessionEvent → Bool
is_mutation e =
    incoming_is decision e || incoming_is tool_call e || incoming_is draft e || incoming_is plan e

-- SessionFSM.validate_append. The two last tests of the source return early between them; an
-- event is never both a finalize and one of the four mutations.
unfoldable pub validate_append :
    Lifecycle → List Entry → SessionEvent → Bool → Result SessionError (Unit {0})
validate_append lifecycle timeline incoming workflow_strict =
    if is_finalized lifecycle && not (incoming_is annotation incoming)
    then raised session_fsm_finalized
    else if workflow_strict
        && not (prereqs_seen (event_of_kind incoming.kind incoming.event_type) timeline)
    then raised session_fsm_workflow_order
    else let tail = tail_event_types timeline in
      if incoming_is finalize incoming
      then (if finalize_in tail then raised session_fsm_finalize_once else returned tt)
      else if is_mutation incoming && finalize_in tail
      then raised session_fsm_after_finalize
      else returned tt
