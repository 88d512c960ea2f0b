-- ===== src/Agents/Bus.antt =====
-- `EventBus` of gh_puller/agent/events.py: the queues of its sinks, and what they have consumed. The
-- workers of the sinks, which take one event at a time, come in any order between the events.
use gh_puller.Agents.Compact.{compact}
use gh_puller.Agents.Events.{Event, Route, is_compact_event}
use gh_puller.Base.{
  All, Bool, Bool-cases, List, [], ap, append-nil, append_assoc, false, if◌then◌else◌, inl, inr,
  leb, length, map, refl, suc, sym, true, zero, ℕ, ◌&&◌, ◌++◌, ◌∷◌, ◌≡◌, ◌∙◌,
}

pub record Sink : Type 0 where
  pub lossless : Bool
  pub queue : List Event
  pub consumed : List Event

-- `event["type"] in DELTA_TYPES`.
abbrev pub is_delta : Route → Bool
is_delta (Route.model_delta kind) = true
is_delta _ = false

-- `_put_event`.
unfoldable pub put_event : List Event → Event → List Event
put_event queue e = if is_delta e.route && leb 5000 (length queue) then queue else queue ++ e ∷ []

abbrev pub offer : Event → Sink → Sink
offer e s = record s { queue = if s.lossless then s.queue ++ e ∷ [] else put_event s.queue e }

-- `publish`.
unfoldable pub publish_event : Event → List Sink → List Sink
publish_event e [] = []
publish_event e (s ∷ ss) = offer e s ∷ publish_event e ss

abbrev pub take_next : Bool → List Event → List Event → Sink
take_next lossless [] consumed = record { lossless = lossless; queue = []; consumed = consumed }
take_next lossless (e ∷ queue) consumed = record {
  lossless = lossless;
  queue = queue;
  consumed = consumed ++ e ∷ [];
}

-- A turn of `_drain` of a sink; nothing where there is no event to take.
unfoldable pub drain : ℕ → List Sink → List Sink
drain n [] = []
drain zero (s ∷ ss) = take_next s.lossless s.queue s.consumed ∷ ss
drain (suc n) (s ∷ ss) = s ∷ drain n ss

-- `add`.
abbrev pub new_sink : Bool → Sink
new_sink lossless = record { lossless = lossless; queue = []; consumed = [] }

-- What happens on a bus.
pub data Move : Type 0 where
  published : Event → Move
  drained : ℕ → Move

abbrev pub move : Move → List Sink → List Sink
move (published e) ss = publish_event e ss
move (drained n) ss = drain n ss

unfoldable pub moves : List Move → List Sink → List Sink
moves [] ss = ss
moves (m ∷ ms) ss = moves ms (move m ss)

-- The events that were published.
unfoldable pub events_of : List Move → List Event
events_of [] = []
events_of (published e ∷ ms) = e ∷ events_of ms
events_of (drained n ∷ ms) = events_of ms

-- What a sink has consumed and will consume.
abbrev pub received : Sink → List Event
received s = s.consumed ++ s.queue

-- A sink misses no compact event, and no event at all where it is lossless.
abbrev pub Told : List Event → Sink → Type 0
Told es s = (compact (received s) ≡ compact es) × (s.lossless ≡ true → received s ≡ es)

compact-append : (es ds : List Event) → compact (es ++ ds) ≡ compact es ++ compact ds
compact-append [] ds = refl
compact-append (e ∷ es) ds = elim (Bool-cases (is_compact_event e.route)) [
  | inl h ↦ rw (h, compact-append es ds) refl
  | inr h ↦ rw (h, compact-append es ds) refl
]

delta_not_compact : (route : Route) → is_delta route ≡ true → is_compact_event route ≡ false
unfolding is_compact_event
delta_not_compact (Route.model_delta kind) h = refl
delta_not_compact _ h = absurd (cc)

put_event-compact :
    (queue : List Event) (e : Event)
    → compact (put_event queue e) ≡ compact queue ++ compact (e ∷ [])
unfolding put_event
put_event-compact queue e = elim (Bool-cases (is_delta e.route)) [
  | inl h ↦ elim (Bool-cases (leb 5000 (length queue))) [
    | inl b ↦ rw (h, b, delta_not_compact e.route h) (sym (append-nil (compact queue)))
    | inr b ↦ rw (h, b) (compact-append queue (e ∷ []))
  ]
  | inr h ↦ rw h (compact-append queue (e ∷ []))
]

offer-queue :
    (e : Event) (s : Sink) → compact (offer e s).queue ≡ compact s.queue ++ compact (e ∷ [])
offer-queue e s = elim (Bool-cases s.lossless) [
  | inl h ↦ simp h (compact-append s.queue (e ∷ []))
  | inr h ↦ simp h (put_event-compact s.queue e)
]

offer-Told : (es : List Event) (e : Event) (s : Sink) → Told es s → Told (es ++ e ∷ []) (offer e s)
offer-Told es e s (c, l) = (
  compact-append s.consumed (offer e s).queue
      ∙ ap (λ q. compact s.consumed ++ q) (offer-queue e s)
      ∙ sym (append_assoc (compact s.consumed) (compact s.queue) (compact (e ∷ [])))
      ∙ ap (λ q. q ++ compact (e ∷ [])) (sym (compact-append s.consumed s.queue) ∙ c)
      ∙ sym (compact-append es (e ∷ [])),
  λ h. simp h (sym (append_assoc s.consumed s.queue (e ∷ [])) ∙ ap (λ q. q ++ e ∷ []) (l h)),
)

publish_event-Told :
    (es : List Event) (e : Event) (ss : List Sink)
    → All (Told es) ss
    → All (Told (es ++ e ∷ [])) (publish_event e ss)
unfolding publish_event
publish_event-Told es e [] h = tt
publish_event-Told es e (s ∷ ss) h = (offer-Told es e s h.0, publish_event-Told es e ss h.1)

take_next-Told :
    (es : List Event) (lossless : Bool) (queue consumed : List Event)
    → Told es (record { lossless = lossless; queue = queue; consumed = consumed })
    → Told es (take_next lossless queue consumed)
take_next-Told es lossless [] consumed h = h
take_next-Told es lossless (e ∷ queue) consumed (c, l) =
    let same = append_assoc consumed (e ∷ []) queue in (ap compact same ∙ c, λ h. same ∙ l h)

drain-Told :
    (es : List Event) (n : ℕ) (ss : List Sink) → All (Told es) ss → All (Told es) (drain n ss)
unfolding drain
drain-Told es n [] h = tt
drain-Told es zero (s ∷ ss) h = (take_next-Told es s.lossless s.queue s.consumed h.0, h.1)
drain-Told es (suc n) (s ∷ ss) h = (h.0, drain-Told es n ss h.1)

moves_from-Told :
    (es : List Event) (ms : List Move) (ss : List Sink)
    → All (Told es) ss
    → All (Told (es ++ events_of ms)) (moves ms ss)
unfolding moves events_of
moves_from-Told es [] ss h = rw (append-nil es) h
moves_from-Told es (published e ∷ ms) ss h =
    rw⁻¹ (append_assoc es (e ∷ []) (events_of ms))
      (moves_from-Told (es ++ e ∷ []) ms (publish_event e ss) (publish_event-Told es e ss h))
moves_from-Told es (drained n ∷ ms) ss h = moves_from-Told es ms (drain n ss) (drain-Told es n ss h)

-- The sinks of a bus that are added before the events, each lossless or not.
abbrev pub new_sinks : List Bool → List Sink
new_sinks kinds = map new_sink kinds

new_sinks-Told : (kinds : List Bool) → All (Told []) (new_sinks kinds)
new_sinks-Told [] = tt
new_sinks-Told (b ∷ bs) = ((refl, λ h. refl), new_sinks-Told bs)

-- Whatever is published, and however the sinks are drained between: each sink receives all compact
-- events in their order, and a lossless sink receives all events.
pub moves-Told :
    (kinds : List Bool) (ms : List Move) → All (Told (events_of ms)) (moves ms (new_sinks kinds))
moves-Told kinds ms = moves_from-Told [] ms (new_sinks kinds) (new_sinks-Told kinds)
