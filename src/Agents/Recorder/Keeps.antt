-- ===== src/Agents/Recorder/Keeps.antt =====
-- The other methods of a recorder keep its log true to its state, whether they raise or not.
use gh_puller.Agents.Events.{
  context_of, is_name, is_object, replace_agent, set_facet, context_set, context_append, turn_start,
  turn_end, step_start, step_end, session_end, fold_state, Route, State, accepts, agent_facet,
  agent_set, fold_event, is_event_type, session_start,
}
use gh_puller.Agents.Recorder.{
  lacks_get, Recorder, append_context, event, event_of, published, set_agent, set_agent_facet,
  set_context, start, to_items,
}
use gh_puller.Agents.Recorder.Faithful.{
  same_context, context_of-and_then, Scope, Faithful, Marks, is_end, mark, marks_of, step-Faithful,
}
use gh_puller.Archive.Action.{
  lift, Action, Error, Result, gets, modify, ok, proceed, pure, raise, steps, ◌>>=◌, ◌>>◌,
}
use gh_puller.Archive.Json.{get, Fields, Json, to_list}
use gh_puller.Base.{
  ◌&&◌, not, is_none, none, ◌||◌, Bool, List, Option, String, [], ap, false, if◌then◌else◌, refl,
  some, text_instance, true, ℕ, ◌++◌, ◌==◌, ◌∷◌, ◌≡◌,
}

to_list-to_items : (vs : List Json) → to_list (to_items vs) ≡ vs
to_list-to_items [] = refl
to_list-to_items (v ∷ vs) = ap (λ ws. v ∷ ws) (to_list-to_items vs)

-- The routes that change the context, that are markers, and that end the session.
abbrev pub of_context : Route → Bool
of_context context_set = true
of_context (context_append role) = true
of_context _ = false

abbrev pub of_markers : Route → Bool
of_markers turn_start = true
of_markers turn_end = true
of_markers step_start = true
of_markers step_end = true
of_markers _ = false

abbrev pub of_end : Route → Bool
of_end session_end = true
of_end _ = false

and_true : (a b : Bool) → (a && b) ≡ true → (a ≡ true) × (b ≡ true)
and_true true b h = (refl, h)
and_true false b h = absurd (cc)

replace_agent-context :
    (x y : Option Json) (s : State)
    → is_name x ≡ true
    → is_object y ≡ true
    → context_of (replace_agent x y s) ≡ some s.context
replace_agent-context (some v) (some (Json.object fs)) s h k = refl
replace_agent-context none y s h k = absurd (cc)
replace_agent-context x _ s h k = absurd (cc)

set_facet-context :
    (facet : String) (x : Option Json) (s : State)
    → not (is_none x) ≡ true
    → context_of (set_facet facet x s) ≡ some s.context
set_facet-context facet none s h = absurd (cc)
set_facet-context facet (some v) s h = refl

if_same :
    (b : Bool) (o : Option State) (s : State)
    → context_of o ≡ some s.context
    → context_of (if b then o else some s) ≡ some s.context
if_same true o s e = e
if_same false o s e = refl

fold_event-context :
    (route : Route) (fs : Fields) (s : State)
    → accepts route fs ≡ true
    → of_context route ≡ false
    → context_of (fold_event route fs s) ≡ some s.context
unfolding fold_event accepts
fold_event-context context_set fs s a h = absurd (cc)
fold_event-context (context_append role) fs s a h = absurd (cc)
fold_event-context agent_set fs s a h =
    let (x, y) = and_true _ _ a in replace_agent-context (get "agent" fs) (get "config" fs) s x y
fold_event-context (agent_facet facet) fs s a h =
    if_same (is_event_type (agent_facet facet)) _ s
      (set_facet-context facet (get facet fs) s (and_true _ _ a).1)
fold_event-context _ fs s a h = refl

mark-same : (route : Route) (m : Marks) → of_markers route ≡ false → mark route m ≡ some m
unfolding mark
mark-same turn_start m h = absurd (cc)
mark-same turn_end m h = absurd (cc)
mark-same step_start m h = absurd (cc)
mark-same step_end m h = absurd (cc)
mark-same _ m h = refl

is_end-event_of :
    (route : Route) (fs : Fields) (r : Recorder)
    → of_end route ≡ false
    → is_end (event_of route fs r) ≡ false
is_end-event_of session_end fs r h = absurd (cc)
is_end-event_of _ fs r h = refl

-- An event that is not left to other methods.
abbrev pub Direct : Scope → Route → Type 0
Direct scope route =
    (scope.context ≡ true → of_context route ≡ false)
    × (scope.markers ≡ true → of_markers route ≡ false)
    × (scope.ends ≡ true → of_end route ≡ false)

event_cases :
    (P : Result (Unit {0}) × Recorder → Type 0) (route : Route) (fs : Fields) (r : Recorder)
    → r.observed ≡ true
    → P (raise Error.value_error, r)
    → (accepts route fs ≡ true → P (ok tt, published route fs r))
    → P (event route fs r)
unfolding event
event_cases P route fs r o refused taken = choose r.observed o (accepts route fs) refl
  where
    choose :
        (b : Bool) (e : b ≡ true) (a : Bool)
        → accepts route fs ≡ a
        → P (
            if b
            then if a then (ok tt, published route fs r) else (raise Error.value_error, r)
            else (ok tt, r))
    choose true e true h = taken h
    choose true e false h = refused
    choose false e a h = absurd (cc)

module _ (scope : Scope) (ends : ℕ) (ended : Bool) where
  abbrev pub Keeps : {A : Type 0} → Action Recorder A → Type 0
  Keeps m = (r : Recorder) → Faithful scope ends ended r → Faithful scope ends ended (m r).1

  pub bind-Keeps :
      {A B : Type 0} (m : Action Recorder A) (f : A → Action Recorder B)
      → Keeps m
      → ((a : A) → Keeps (f a))
      → Keeps (m >>= f)
  unfolding steps
  bind-Keeps {A} {B} m f k l r h = go (m r) (k r h)
    where
      go :
          (x : Result A × Recorder)
          → Faithful scope ends ended x.1
          → Faithful scope ends ended (proceed x f).1
      go (ok a, t) h' = l a t h'
      go (raise e, t) h' = h'

  pub then-Keeps :
      {A B : Type 0} (m : Action Recorder A) (k : Action Recorder B)
      → Keeps m
      → Keeps k
      → Keeps (m >> k)
  unfolding steps
  then-Keeps m k h l = bind-Keeps m (λ a. k) h (λ a. l)

  pub if-Keeps :
      {A : Type 0} (b : Bool) (m k : Action Recorder A)
      → Keeps m
      → Keeps k
      → Keeps (if b then m else k)
  if-Keeps true m k h l = h
  if-Keeps false m k h l = l

  pub pure-Keeps : {A : Type 0} (a : A) → Keeps (pure a)
  unfolding steps
  pure-Keeps a r h = h

  pub raise-Keeps : Keeps (lift {A = Unit {0}} (raise Error.type_error))
  unfolding steps
  raise-Keeps r h = h

  pub event-Keeps : (route : Route) (fs : Fields) → Direct scope route → Keeps (event route fs)
  event-Keeps route fs (c, m, e) r h =
      event_cases (λ x. Faithful scope ends ended x.1) route fs r h.0 h
        (λ a.
          step-Faithful scope route fs r.context (marks_of r) r h
            (λ w. same_context route fs r (λ s. fold_event-context route fs s a (c w)) (h.3 w))
            (λ w. mark-same route (marks_of r) (m w)) (λ w. is_end-event_of route fs r (e w)))

  -- An event that changes neither the context nor the markers, and ends nothing.
  abbrev Quiet : Route → Type 0
  Quiet route = (of_context route ≡ false) × (of_markers route ≡ false) × (of_end route ≡ false)

  pub quiet-Keeps : (route : Route) (fs : Fields) → Quiet route → Keeps (event route fs)
  quiet-Keeps route fs (c, m, e) = event-Keeps route fs ((λ w. c), (λ w. m), (λ w. e))

  -- An event of the context, with what the recorder then does to its own.
  context-Keeps :
      (route : Route) (fs : Fields) (g : List Json → List Json)
      → ((s : State) → context_of (fold_event route fs s) ≡ some (g s.context))
      → ((m : Marks) → mark route m ≡ some m)
      → ((r : Recorder) → is_end (event_of route fs r) ≡ false)
      → Keeps (event route fs >> modify (λ r. record r { context = g r.context }))
  unfolding steps
  context-Keeps route fs g c m e r h =
      event_cases
        (λ x.
          Faithful scope ends ended
            (proceed x (λ _. modify (λ q. record q { context = g q.context }))).1)
        route fs r h.0 h
        (λ a.
          step-Faithful scope route fs (g r.context) (marks_of r) r h
            (λ w. context_of-and_then (fold_state r.log) (fold_event route fs) g c (h.3 w))
            (λ w. m _) (λ w. e r))

  pub append_context-Keeps :
      (batch : List Json) (role : Option String) → Keeps (append_context batch role)
  unfolding append_context fold_event mark
  append_context-Keeps batch role =
      if-Keeps (lacks_get role batch) (lift (raise Error.type_error)) _ raise-Keeps (
        context-Keeps _ _ (λ c. c ++ batch)
          (λ s. ap (λ vs. some (s.context ++ vs)) (to_list-to_items batch)) (λ m. refl) (λ r. refl))

  pub set_context-Keeps : (items : List Json) → Keeps (set_context items)
  unfolding set_context fold_event mark
  set_context-Keeps items =
      context-Keeps _ _ (λ c. items) (λ s. ap some (to_list-to_items items)) (λ m. refl) (λ r. refl)

  pub set_agent-Keeps : (agent : String) (config : Fields) → Keeps (set_agent agent config)
  unfolding set_agent fold_event mark
  set_agent-Keeps agent config = quiet-Keeps _ _ (refl, refl, refl)

  pub set_agent_facet-Keeps : (facet : String) (v : Json) → Keeps (set_agent_facet facet v)
  unfolding set_agent_facet
  set_agent_facet-Keeps facet v =
      if-Keeps (facet == "event_type" || facet == "self") (lift (raise Error.type_error)) _
        raise-Keeps (quiet-Keeps (agent_facet facet) _ (refl, refl, refl))

  pub start-Keeps : Keeps start
  unfolding start fold_event mark
  start-Keeps r =
      then-Keeps (event session_start _)
        (if r.agent == "" then pure tt else set_agent r.agent r.config)
        (quiet-Keeps session_start _ (refl, refl, refl))
        (if-Keeps (r.agent == "") (pure tt) (set_agent r.agent r.config) (pure-Keeps tt)
          (set_agent-Keeps r.agent r.config))
        r

  pub modify-Keeps :
      (f : Recorder → Recorder)
      → ((r : Recorder) → Faithful scope ends ended r → Faithful scope ends ended (f r))
      → Keeps (modify f)
  unfolding steps
  modify-Keeps f h = h

  pub gets-Keeps : {A : Type 0} (f : Recorder → A) → Keeps (gets f)
  unfolding steps
  gets-Keeps f r h = h
