-- ===== src/Agents/Recorder/Faithful.antt =====
-- What the log of a recorder says of its state: the numbers of the events, the context that they
-- fold to, and the markers that are open.
use gh_puller.Agents.Events.{
  and_then, context_of, Event, Route, State, blank, fold_event, fold_from, fold_state, session_end,
  step_end, step_start, turn_end, turn_start,
}
use gh_puller.Agents.Recorder.{Recorder, event_of, published}
use gh_puller.Archive.Json.{Fields, Json}
use gh_puller.Base.{
  some-injective, All, All-append, append_assoc, Bool, List, Option, [], ap, arith, count,
  count-append, false, if◌then◌else◌, length, length-append, none, not, refl, some, suc, true, ℕ,
  ◌&&◌, ◌+◌, ◌++◌, ◌∷◌, ◌≡◌, ◌∙◌,
}

-- The markers that are open.
pub record Marks : Type 0 where
  pub turn : Bool
  pub step : Bool

-- The markers after an event; `none` where it is out of place.
unfoldable pub mark : Route → Marks → Option Marks
mark turn_start m = if m.turn then none else some (record m { turn = true })
mark turn_end m = if m.turn && not m.step then some (record m { turn = false }) else none
mark step_start m = if m.step then none else some (record m { step = true })
mark step_end m = if m.step then some (record m { step = false }) else none
mark _ m = some m

abbrev pub mark_next : Route → Option Marks → Option Marks
mark_next route none = none
mark_next route (some m) = mark route m

unfoldable pub marks_from : Option Marks → List Event → Option Marks
marks_from m [] = m
marks_from m (e ∷ es) = marks_from (mark_next e.route m) es

abbrev pub closed : Marks
closed = record { turn = false; step = false }

-- The markers after a log, none of them out of place.
abbrev pub marks : List Event → Option Marks
marks log = marks_from (some closed) log

abbrev pub is_end : Event → Bool
is_end e = elim e.route [ session_end ↦ true | _ ↦ false ]

abbrev pub bit : Bool → ℕ
bit b = if b then 1 else 0

-- The events count up from a number.
unfoldable pub Numbered : ℕ → List Event → Type 0
Numbered n [] = Unit
Numbered n (e ∷ es) = (e.seq ≡ n) × Numbered (suc n) es

Numbered-append :
    (n : ℕ) (es : List Event) (e : Event)
    → Numbered n es
    → e.seq ≡ n + length es
    → Numbered n (es ++ e ∷ [])
unfolding Numbered
Numbered-append n [] e h q = (omega arith, tt)
Numbered-append n (d ∷ es) e h q = (h.0, Numbered-append (suc n) es e h.1 (omega arith))

fold_from-append :
    (o : Option State) (es : List Event) (e : Event)
    → fold_from o (es ++ e ∷ []) ≡ and_then (fold_from o es) (fold_event e.route e.payload)
unfolding fold_from
fold_from-append o [] e = refl
fold_from-append o (d ∷ es) e = fold_from-append (and_then o (fold_event d.route d.payload)) es e

-- What a step does to the context.
pub context_of-and_then :
    (o : Option State) (f : State → Option State) (g : List Json → List Json) {c : List Json}
    → ((s : State) → context_of (f s) ≡ some (g s.context))
    → context_of o ≡ some c
    → context_of (and_then o f) ≡ some (g c)
context_of-and_then none f g k h = absurd (cc)
context_of-and_then (some s) f g k h = k s ∙ ap (λ c. some (g c)) (some-injective _ _ h)

marks_from-append :
    (m : Option Marks) (es : List Event) (e : Event)
    → marks_from m (es ++ e ∷ []) ≡ mark_next e.route (marks_from m es)
unfolding marks_from
marks_from-append m [] e = refl
marks_from-append m (d ∷ es) e = marks_from-append (mark_next d.route m) es e

abbrev pub marks_of : Recorder → Marks
marks_of r = record { turn = r.turn_open; step = r.step_open }

-- A log goes on from the events of another.
abbrev pub Extends : List Event → List Event → Type 0
Extends base log = (rest : List Event) × (log ≡ base ++ rest)

-- The events that a log goes on from, and what is left to the methods that keep account of it: the
-- events of the context, the markers, the end of the session.
pub record Scope : Type 0 where
  pub base : List Event
  pub context : Bool
  pub markers : Bool
  pub ends : Bool

-- What holds of an observed recorder whose log has so many ends of the session.
abbrev pub Faithful : Scope → ℕ → Bool → Recorder → Type 0
Faithful scope ends ended r =
    (r.observed ≡ true)
    × (r.seq ≡ length r.log)
    × Numbered 0 r.log
    × (scope.context ≡ true → context_of (fold_state r.log) ≡ some r.context)
    × (scope.markers ≡ true → marks r.log ≡ some (marks_of r))
    × (r.ended ≡ ended)
    × (scope.ends ≡ true → count is_end r.log ≡ ends)
    × All (λ e. e.session ≡ r.session) r.log
    × Extends scope.base r.log

-- A recorder after an event, with the context and the markers that it leads to.
abbrev pub moved : Route → Fields → List Json → Marks → Recorder → Recorder
moved route fs c m r = record (published route fs r) {
  context = c;
  turn_open = m.turn;
  step_open = m.step;
}

pub moved-Faithful :
    (scope : Scope) {ends ends' : ℕ} {ended : Bool} (route : Route) (fs : Fields) (c : List Json)
    (m : Marks) (r : Recorder)
    → Faithful scope ends ended r
    → (scope.context ≡ true
        → context_of (and_then (fold_state r.log) (fold_event route fs)) ≡ some c)
    → (scope.markers ≡ true → mark route (marks_of r) ≡ some m)
    → (scope.ends ≡ true → ends + bit (is_end (event_of route fs r)) ≡ ends')
    → Faithful scope ends' ended (moved route fs c m r)
unfolding fold_state
moved-Faithful scope route fs c m r (o, q, n, x, k, d, z, a, p) e f g =
    let v = event_of route fs r in
    (
      o,
      rw (length-append r.log (v ∷ []), q) (omega arith),
      Numbered-append 0 r.log v n (rw q (omega arith)),
      (λ w. ap context_of (fold_from-append (some blank) r.log v) ∙ e w),
      (λ w. marks_from-append (some closed) r.log v ∙ (ap (mark_next route) (k w) ∙ f w)),
      d,
      (λ w. rw (count-append is_end r.log (v ∷ []), z w) (omega (arith, g w))),
      All-append (λ e. e.session ≡ r.session) r.log (v ∷ []) a (refl, tt),
      (p.0 ++ v ∷ [], ap (λ es. es ++ v ∷ []) p.1 ∙ append_assoc scope.base p.0 (v ∷ [])),
    )

-- The same for an event that does not end the session.
pub step-Faithful :
    (scope : Scope) {ends : ℕ} {ended : Bool} (route : Route) (fs : Fields) (c : List Json)
    (m : Marks) (r : Recorder)
    → Faithful scope ends ended r
    → (scope.context ≡ true
        → context_of (and_then (fold_state r.log) (fold_event route fs)) ≡ some c)
    → (scope.markers ≡ true → mark route (marks_of r) ≡ some m)
    → (scope.ends ≡ true → is_end (event_of route fs r) ≡ false)
    → Faithful scope ends ended (moved route fs c m r)
step-Faithful scope {ends} {ended} route fs c m r h e f n =
    moved-Faithful scope route fs c m r h e f (λ w. ap (λ b. ends + bit b) (n w) ∙ omega arith)

-- An event that leaves the context as it is.
pub same_context :
    (route : Route) (fs : Fields) (r : Recorder)
    → ((s : State) → context_of (fold_event route fs s) ≡ some s.context)
    → context_of (fold_state r.log) ≡ some r.context
    → context_of (and_then (fold_state r.log) (fold_event route fs)) ≡ some r.context
same_context route fs r k h =
    context_of-and_then (fold_state r.log) (fold_event route fs) (λ c. c) k h
