-- ===== src/Agents/Replay.antt =====
-- From the recorder to the file: the log of a session that has been started, as `FileSink` writes it.
use gh_puller.Agents.Events.{
  context_of, Event, accepts, fold_event, fold_from, fold_state, session_start,
}
use gh_puller.Agents.Files.{Alone, consume_all, events_at, file_stem, history, is_start, new_files}
use gh_puller.Agents.Files.History.{fold_state-consume_all}
use gh_puller.Agents.Recorder.{
  Recorder, as_text, event, event_of, new_recorder, optional, published, set_agent, start,
}
use gh_puller.Agents.Recorder.Faithful.{Scope, Faithful, Numbered, bit, mark, marks_from}
use gh_puller.Agents.Recorder.Keeps.{of_context, if-Keeps, pure-Keeps, set_agent-Keeps}
use gh_puller.Agents.Recorder.Sessions.{Within, past, Call, Sound, after, perform, run, run-Sound}
use gh_puller.Archive.Action.{pure, steps}
use gh_puller.Archive.Json.{Fields, Json, end, field}
use gh_puller.Base.{
  some, All-mono, All, Bool, List, Option, String, [], ap, eq_iff, false, refl, subst, sym,
  text_instance, true, ◌==◌, ◌∷◌, ◌≡◌, ◌∙◌,
}

-- The events of a session that has started.
history_running :
    (s : String) (es : List Event) → All (λ e. e.session ≡ s) es → history s true es ≡ es
unfolding history
history_running s [] h = refl
history_running s (e ∷ es) h =
    rw ((eq_iff e.session s).1 h.0) (ap (λ ds. e ∷ ds) (history_running s es h.1))

history_started :
    (s : String) (e : Event) (es : List Event)
    → is_start e ≡ true
    → All (λ d. d.session ≡ s) (e ∷ es)
    → history s false (e ∷ es) ≡ e ∷ es
unfolding history
history_started s e es i h =
    rw ((eq_iff e.session s).1 h.0, i) (ap (λ ds. e ∷ ds) (history_running s es h.1))

module _ (json_loads : String → Option Json) (str : Json → String) (session agent : String)
    (config : Fields) (label : String) (run_id : Option String) (calls : List Call) where
  abbrev opened : Recorder
  opened = new_recorder session agent config label run_id true

  abbrev first : Event
  first =
      event_of session_start
        (field "label" (Json.text opened.label) (optional "runId" (as_text opened.run_id) end))
        opened

  abbrev scope : Scope
  scope = record { base = first ∷ []; context = true; markers = false; ends = false }

  start-Faithful : Faithful scope 0 false (start opened).1
  unfolding start event accepts steps new_recorder fold_state fold_from fold_event Numbered mark
      marks_from
  start-Faithful =
      if-Keeps scope 0 false (agent == "") (pure tt) (set_agent agent config)
        (pure-Keeps scope 0 false tt) (set_agent-Keeps scope 0 false agent config)
        (published session_start first.payload opened)
        (
          refl,
          refl,
          (refl, tt),
          (λ w. refl),
          (λ w. refl),
          refl,
          (λ w. refl),
          (refl, tt),
          ([], refl),
        )

  -- The recorder after it has been started, and then called.
  abbrev recorder : Recorder
  recorder = after json_loads str session agent config label run_id (Call.starts ∷ calls)

  module _ (p : All (λ c. past of_context c ≡ false) calls) where
    recorder-Sound : Sound json_loads str scope recorder
    unfolding run perform new_recorder
    recorder-Sound =
        run-Sound json_loads str scope calls (start opened).1
          (All-mono (λ c. past of_context c ≡ false) (Within scope) calls
            (λ c e. ((λ w. e), (λ w. absurd (cc)), (λ w. absurd (cc)))) p)
          (let h = start-Faithful in
            (h.0, h.1, h.2, h.3, h.4, refl, (λ w. h.6 w ∙ ap bit (sym h.5)), h.7, h.8))

    log-Alone :
        (es : List Event)
        → All (λ e. e.session ≡ recorder.session) es
        → All (Alone recorder.session) es
    log-Alone [] h = tt
    log-Alone (e ∷ es) h = ((λ q. h.0), log-Alone es h.1)

    history-log : history recorder.session false recorder.log ≡ recorder.log
    history-log =
        let h = recorder-Sound in
        let (rest, p) = h.8 in
        subst (λ es. history recorder.session false es ≡ es) (sym p)
          (history_started recorder.session first rest refl
            (subst (All (λ e. e.session ≡ recorder.session)) p h.7))

    -- Once a session has been started, the file to which its events are written folds, without an
    -- error, to the context of the recorder, after any calls that leave the events of the context to
    -- `append_context`, `set_context` and `tool_result`, whether the sink is raw or not.
    pub fold_state-recorder :
        (raw : Bool)
        → context_of (
            fold_state (
              events_at
                (file_stem recorder.session)
                (consume_all raw recorder.log new_files).lines))
          ≡ some recorder.context
    fold_state-recorder raw =
        ap context_of (
          fold_state-consume_all raw recorder.session recorder.log
            (log-Alone recorder.log recorder-Sound.7)
          ∙ ap fold_state history-log)
        ∙ recorder-Sound.3 refl
