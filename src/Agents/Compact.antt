-- ===== src/Agents/Compact.antt =====
-- What a compact subscriber of gh_puller/agent/events.py is left without: the stream of deltas.
use gh_puller.Agents.Events.{
  and_then, Event, Route, State, agent_facet, fold_event, fold_from, fold_state, is_compact_event,
  blank,
}
use gh_puller.Archive.Json.{Fields}
use gh_puller.Base.{
  Option, none, some, Bool-cases, List, [], false, inl, inr, refl, select, ◌∷◌, ◌≡◌,
}

-- An event that is left out changes nothing.
fold_event-skipped :
    (route : Route) (fs : Fields) (s : State)
    → is_compact_event route ≡ false
    → fold_event route fs s ≡ some s
unfolding fold_event is_compact_event
fold_event-skipped (Route.model_delta kind) fs s h = refl
fold_event-skipped (agent_facet facet) fs s h = rw h refl
fold_event-skipped _ fs s h = absurd (cc)

and_then-skipped :
    (o : Option State) (route : Route) (fs : Fields)
    → is_compact_event route ≡ false
    → and_then o (fold_event route fs) ≡ o
and_then-skipped none route fs h = refl
and_then-skipped (some s) route fs h = fold_event-skipped route fs s h

abbrev pub compact : List Event → List Event
compact events = select (λ e. is_compact_event e.route) events

fold_from-compact : (o : Option State) (es : List Event) → fold_from o (compact es) ≡ fold_from o es
unfolding fold_from
fold_from-compact o [] = refl
fold_from-compact o (e ∷ es) = elim (Bool-cases (is_compact_event e.route)) [
  | inl h ↦ rw h (fold_from-compact (and_then o (fold_event e.route e.payload)) es)
  | inr h ↦ rw (h, and_then-skipped o e.route e.payload h) (fold_from-compact o es)
]

-- The compact events of a log fold to the same agent and context as the whole log.
pub fold_state-compact : (events : List Event) → fold_state (compact events) ≡ fold_state events
unfolding fold_state
fold_state-compact events = fold_from-compact (some blank) events
