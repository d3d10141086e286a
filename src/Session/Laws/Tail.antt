-- ===== src/Session/Laws/Tail.antt =====
-- The window of lirix/core/session_fsm.py over the end of a timeline.
use lirix.Prelude.{
  ◌-◌, ◌≡◌, refl, Bool, false, ◌||◌, List, [], ◌∷◌, any, reverse_onto, reverse, take_last, length,
  arith, any-drop,
}
use lirix.Session.Types.{finalize, Entry, is_event}
use lirix.Session.Fsm.{event_types, finalize_in, tail_event_types}

any-reverse_onto {ℓ} :
    {A : Type ℓ} (p : A → Bool) (xs ys : List A)
    → any p (reverse_onto xs ys) ≡ (any p xs || any p ys)
any-reverse_onto p [] ys = refl
any-reverse_onto p (x ∷ xs) ys = ground (arith, any-reverse_onto p xs (x ∷ ys))

finalize_in-event_types :
    (es : List Entry) → finalize_in (event_types es) ≡ any (is_event finalize) es
finalize_in-event_types [] = refl
finalize_in-event_types (e ∷ es) = ground (arith, finalize_in-event_types es)

-- Where the timeline has no finalize event, neither has its tail.
pub tail-no_finalize :
    (timeline : List Entry)
    → any (is_event finalize) timeline ≡ false
    → finalize_in (tail_event_types timeline) ≡ false
tail-no_finalize timeline h =
    let window = take_last 25 timeline in
    ground (
      arith,
      finalize_in-event_types (reverse window),
      any-reverse_onto (is_event finalize) window [],
      any-drop (is_event finalize) (length timeline - 25) timeline,
    )
