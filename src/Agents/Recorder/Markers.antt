-- ===== src/Agents/Recorder/Markers.antt =====
-- The methods of a recorder that place markers, and `finish`: none of them raises.
use gh_puller.Agents.Events.{
  Route, accepts, fold_event, session_end, step_end, step_start, turn_end, turn_start,
}
use gh_puller.Agents.Recorder.{
  Method, Recorder, begin_step, begin_turn, end_step, end_turn, event, if_any, optional, published,
}
use gh_puller.Agents.Recorder.Calls.{end_fields, finish, outcome}
use gh_puller.Agents.Recorder.Faithful.{
  same_context, Scope, Faithful, mark, marks_of, moved-Faithful, step-Faithful, bit,
}
use gh_puller.Archive.Action.{Result, modify, ok, proceed, raise, steps, ◌>>◌}
use gh_puller.Archive.Json.{Fields, Json, end, field}
use gh_puller.Base.{Bool, String, false, if◌then◌else◌, refl, subst, sym, true, ℕ, ◌≡◌}

-- A method that has not raised, with what holds of the recorder after it.
abbrev pub Done : (Recorder → Type 0) → Result (Unit {0}) × Recorder → Type 0
Done P x = (x.0 ≡ ok tt) × P x.1

module _ (P : Recorder → Type 0) where
  if-Done :
      (b : Bool) (x y : Result (Unit {0}) × Recorder)
      → (b ≡ true → Done P x)
      → (b ≡ false → Done P y)
      → Done P (if b then x else y)
  if-Done true x y f g = f refl
  if-Done false x y f g = g refl

  then-Done :
      (Q : Recorder → Type 0) (x : Result (Unit {0}) × Recorder) (k : Method)
      → Done Q x
      → ((r : Recorder) → Q r → Done P (k r))
      → Done P (proceed x (λ _. k))
  unfolding steps
  then-Done Q (ok a, r) k (e, h) f = f r h
  then-Done Q (raise a, r) k (e, h) f = absurd (cc)

  event-Done :
      (route : Route) (fs : Fields) (r : Recorder)
      → r.observed ≡ true
      → accepts route fs ≡ true
      → P (published route fs r)
      → Done P (event route fs r)
  unfolding event
  event-Done route fs r o a h =
      if-Done r.observed _ _
        (λ _. if-Done (accepts route fs) _ _ (λ _. (refl, h)) (λ n. absurd (cc))) (λ n. absurd (cc))

emit-Done :
    (P : Recorder → Type 0) (route : Route) (fs : Fields) (g : Recorder → Recorder) (r : Recorder)
    → r.observed ≡ true
    → accepts route fs ≡ true
    → P (g (published route fs r))
    → Done P ((event route fs >> modify g) r)
unfolding steps
emit-Done P route fs g r o a h =
    then-Done P (λ r'. r' ≡ published route fs r) (event route fs r) (modify g)
      (event-Done (λ r'. r' ≡ published route fs r) route fs r o a refl)
      (λ r' e. (refl, subst (λ r''. P (g r'')) (sym e) h))

module _ (scope : Scope) (ends : ℕ) (ended : Bool) where
  -- The turn is as it was, and no step is open.
  abbrev NoStep : Bool → Recorder → Type 0
  NoStep turn r = Faithful scope ends ended r × (r.step_open ≡ false) × (r.turn_open ≡ turn)

  pub end_step-Done :
      (o : String) (r : Recorder)
      → Faithful scope ends ended r
      → Done (NoStep r.turn_open) (end_step o r)
  unfolding end_step mark fold_event accepts
  end_step-Done o r h =
      if-Done (NoStep r.turn_open) r.step_open _ _
        (λ e.
          emit-Done (NoStep r.turn_open) step_end (field "outcome" (Json.text o) end)
            (λ r'. record r' { step_open = false }) r h.0 refl (marked_end e, refl, refl))
        (λ e. (refl, (h, e, refl)))
    where
      fs : Fields
      fs = field "outcome" (Json.text o) end

      marked_end :
          r.step_open ≡ true
          → Faithful scope ends ended (record (published step_end fs r) { step_open = false })
      marked_end e =
          step-Faithful scope step_end fs r.context (record { turn = r.turn_open; step = false }) r
            h (λ w. same_context step_end fs r (λ s. refl) (h.3 w)) (λ w. simp e) (λ w. refl)

  pub begin_step-Done :
      (r : Recorder) → Faithful scope ends ended r → Done (Faithful scope ends ended) (begin_step r)
  unfolding begin_step mark fold_event accepts steps
  begin_step-Done r h =
      then-Done (Faithful scope ends ended) (NoStep r.turn_open) (end_step "completed" r) _
        (end_step-Done "completed" r h)
        (λ r' (h', n, t).
          emit-Done (Faithful scope ends ended) step_start end (λ q. record q { step_open = true })
            r' h'.0 refl
            (step-Faithful scope step_start end r'.context
              (record { turn = r'.turn_open; step = true }) r' h'
              (λ w. same_context step_start end r' (λ s. refl) (h'.3 w)) (λ w. simp n) (λ w. refl)))

  -- No turn is open.
  abbrev NoTurn : Recorder → Type 0
  NoTurn r = Faithful scope ends ended r × (r.turn_open ≡ false)

  pub end_turn-Done :
      (o reason : String) (r : Recorder)
      → Faithful scope ends ended r
      → Done NoTurn (end_turn o reason r)
  unfolding end_turn mark fold_event accepts steps
  end_turn-Done o reason r h =
      if-Done NoTurn r.turn_open _ _
        (λ e.
          then-Done NoTurn (NoStep r.turn_open) (end_step o r) _ (end_step-Done o r h)
            (λ r' (h', n, t).
              emit-Done NoTurn turn_end fs (λ q. record q { turn_open = false }) r' h'.0 refl
                (
                  step-Faithful scope turn_end fs r'.context
                      (record { turn = false; step = r'.step_open }) r' h'
                      (λ w. same_context turn_end fs r' (λ s. refl) (h'.3 w)) (λ w. simp (n, t, e))
                      (λ w. refl),
                  refl,
                )))
        (λ e. (refl, (h, e)))
    where
      fs : Fields
      fs = field "outcome" (Json.text o) (optional "reason" (if_any reason) end)

  pub begin_turn-Done :
      (r : Recorder) → Faithful scope ends ended r → Done (Faithful scope ends ended) (begin_turn r)
  unfolding begin_turn mark fold_event accepts steps
  begin_turn-Done r h =
      then-Done (Faithful scope ends ended) NoTurn (end_turn "completed" "" r) _
        (end_turn-Done "completed" "" r h)
        (λ r' (h', n).
          emit-Done (Faithful scope ends ended) turn_start end (λ q. record q { turn_open = true })
            r' h'.0 refl
            (step-Faithful scope turn_start end r'.context
              (record { turn = true; step = r'.step_open }) r' h'
              (λ w. same_context turn_start end r' (λ s. refl) (h'.3 w)) (λ w. simp n) (λ w. refl)))

-- `finish` places the end of the session, where it has not stood.
pub finish-Done :
    (scope : Scope) (well ended : Bool) (r : Recorder)
    → Faithful scope (bit ended) ended r
    → Done (Faithful scope 1 true) (finish well r)
unfolding finish mark fold_event accepts steps end_fields
finish-Done scope well true r h =
    if-Done (Faithful scope 1 true) r.ended _ _ (λ e. (refl, h)) (λ n. absurd (cc))
finish-Done scope well false r h =
    if-Done (Faithful scope 1 true) r.ended _ _ (λ e. absurd (cc))
      (λ n.
        then-Done (Faithful scope 1 true) (NoTurn scope 0 true) (end_turn o reason r0) _
          (end_turn-Done scope 0 true o reason r0 (h.0, h.1, h.2, h.3, h.4, refl, h.6, h.7, h.8))
          (λ r' (h', t).
            event-Done (Faithful scope 1 true) session_end (end_fields well r') r' h'.0 refl (
              moved-Faithful scope session_end (end_fields well r') r'.context (marks_of r') r' h'
                (λ w. same_context session_end (end_fields well r') r' (λ s. refl) (h'.3 w))
                (λ w. refl) (λ w. refl))))
  where
    o : String
    o = outcome well

    reason : String
    reason = if well then "final_response" else "error"

    r0 : Recorder
    r0 = record r { ended = true }
