-- ===== src/Agents/Recorder/Sessions.antt =====
-- Any sequence of calls on an observed recorder; after a call that raises, the caller goes on.
use gh_puller.Agents.Events.{context_of, Route, Delta, fold_from, fold_state}
use gh_puller.Agents.Recorder.{
  event, Recorder, append_context, begin_step, begin_turn, end_step, end_turn, new_recorder,
  set_agent, set_agent_facet, set_context, start,
}
use gh_puller.Agents.Recorder.Calls.{
  Failure, Usage, call_tool, delta, end_tool, fail, fail_model, finish, reasoning_part,
  request_model, respond, result_meta, start_tool, text_part, tool_call_part, tool_result,
}
use gh_puller.Agents.Recorder.Faithful.{
  Scope, Faithful, Numbered, bit, is_end, marks, marks_from, marks_of,
}
use gh_puller.Agents.Recorder.Activity.{
  call_tool-Keeps, delta-Keeps, end_tool-Keeps, fail-Keeps, fail_model-Keeps, request_model-Keeps,
  respond-Keeps, result_meta-Keeps, start_tool-Keeps, tool_result-Keeps,
}
use gh_puller.Agents.Recorder.Keeps.{
  of_context, of_markers, of_end, event-Keeps, append_context-Keeps, set_agent-Keeps,
  set_agent_facet-Keeps, set_context-Keeps, start-Keeps,
}
use gh_puller.Agents.Recorder.Markers.{
  begin_step-Done, begin_turn-Done, end_step-Done, end_turn-Done, finish-Done,
}
use gh_puller.Archive.Json.{Fields, Json}
use gh_puller.Base.{
  false, All, All-mono, Bool, List, Option, String, [], count, if◌then◌else◌, length, refl, some,
  sym, true, ℕ, ◌∷◌, ◌≡◌, ◌∙◌, ap,
}

-- The public methods that publish or change what is recorded, with their arguments; `publishes` is
-- `event` itself.
pub data Call : Type 0 where
  starts : Call
  publishes : Route → Fields → Call
  sets_agent : String → Fields → Call
  sets_facet : String → Json → Call
  appends : List Json → Option String → Call
  sets_context : List Json → Call
  begins_turn begins_step : Call
  ends_turn : String → String → Call
  ends_step : String → Call
  requests : Option String → Fields → Call
  streams : Delta → String → Fields → Call
  streams_text streams_reasoning : String → String → ℕ → Call
  streams_tool_call : String → ℕ → String → String → String → Call
  responds : List Json → String → String → String → Usage → Call
  fails_model : Failure → String → Call
  starts_tool : String → String → Json → Call
  ends_tool : String → Json → Option Json → Call
  calls_tool : String → String → Json → Call
  returns_tool : Json → String → String → Bool → Call
  sums_up : Usage → Option String → Call
  fails : Failure → String → Option String → Call
  finishes : Bool → Call

-- A call that publishes an event of such a route past the methods that keep account of it.
abbrev pub past : (Route → Bool) → Call → Bool
past of_kind (Call.publishes route fs) = of_kind route
past of_kind _ = false

-- The kinds of events that a call leaves to those methods.
abbrev pub Within : Scope → Call → Type 0
Within scope c =
    (scope.context ≡ true → past of_context c ≡ false)
    × (scope.markers ≡ true → past of_markers c ≡ false)
    × (scope.ends ≡ true → past of_end c ≡ false)

-- `json.loads` and `str` on adapter values.
module _ (json_loads : String → Option Json) (str : Json → String) where
  -- The recorder after a call.
  unfoldable pub perform : Call → Recorder → Recorder
  perform starts r = (start r).1
  perform (publishes route fs) r = (event route fs r).1
  perform (sets_agent agent config) r = (set_agent agent config r).1
  perform (sets_facet facet v) r = (set_agent_facet facet v r).1
  perform (appends items role) r = (append_context items role r).1
  perform (sets_context items) r = (set_context items r).1
  perform begins_turn r = (begin_turn r).1
  perform begins_step r = (begin_step r).1
  perform (ends_turn outcome reason) r = (end_turn outcome reason r).1
  perform (ends_step outcome) r = (end_step outcome r).1
  perform (requests id fs) r = (request_model id fs r).1
  perform (streams kind id fs) r = (delta kind id fs r).1
  perform (streams_text s id index) r = (text_part s id index r).1
  perform (streams_reasoning s id index) r = (reasoning_part s id index r).1
  perform (streams_tool_call id index call_id name arguments) r =
      (tool_call_part id index call_id name arguments r).1
  perform (responds output id model stop usage) r = (respond output id model stop usage r).1
  perform (fails_model e id) r = (fail_model e id r).1
  perform (starts_tool id name v) r = (start_tool id name v r).1
  perform (ends_tool id v error) r = (end_tool id v error r).1
  perform (calls_tool id name v) r = (call_tool json_loads id name v r).1
  perform (returns_tool v id name wrong) r = (tool_result str v id name wrong r).1
  perform (sums_up usage stop) r = (result_meta usage stop r).1
  perform (fails e scope phase) r = (fail e scope phase r).1
  perform (finishes well) r = (finish well r).1

  unfoldable pub run : List Call → Recorder → Recorder
  run [] r = r
  run (c ∷ cs) r = run cs (perform c r)

  -- The end of the session is in the log just if it has been finished.
  abbrev pub Sound : Scope → Recorder → Type 0
  Sound scope r = Faithful scope (bit r.ended) r.ended r

  sound :
      (scope : Scope) (ended : Bool) (r : Recorder)
      → Faithful scope (bit ended) ended r
      → Sound scope r
  sound scope ended r h = (h.0, h.1, h.2, h.3, h.4, refl, (λ w. h.6 w ∙ ap bit (sym h.5)), h.7, h.8)

  performed :
      (scope : Scope) (c : Call) (r : Recorder)
      → Within scope c
      → Sound scope r
      → (e : Bool) × Faithful scope (bit e) e (perform c r)
  unfolding perform text_part reasoning_part tool_call_part
  performed scope starts r i h = (r.ended, (start-Keeps scope (bit r.ended) r.ended r h))
  performed scope (publishes route fs) r i h =
      (r.ended, (event-Keeps scope (bit r.ended) r.ended route fs i r h))
  performed scope (sets_agent a fs) r i h =
      (r.ended, (set_agent-Keeps scope (bit r.ended) r.ended a fs r h))
  performed scope (sets_facet k v) r i h =
      (r.ended, (set_agent_facet-Keeps scope (bit r.ended) r.ended k v r h))
  performed scope (appends vs role) r i h =
      (r.ended, (append_context-Keeps scope (bit r.ended) r.ended vs role r h))
  performed scope (sets_context vs) r i h =
      (r.ended, (set_context-Keeps scope (bit r.ended) r.ended vs r h))
  performed scope begins_turn r i h = (r.ended, (begin_turn-Done scope (bit r.ended) r.ended r h).1)
  performed scope begins_step r i h = (r.ended, (begin_step-Done scope (bit r.ended) r.ended r h).1)
  performed scope (ends_turn o why) r i h =
      (r.ended, (end_turn-Done scope (bit r.ended) r.ended o why r h).1.0)
  performed scope (ends_step o) r i h =
      (r.ended, (end_step-Done scope (bit r.ended) r.ended o r h).1.0)
  performed scope (requests id fs) r i h =
      (r.ended, (request_model-Keeps scope (bit r.ended) r.ended id fs r h))
  performed scope (streams k id fs) r i h =
      (r.ended, (delta-Keeps scope (bit r.ended) r.ended k id fs r h))
  performed scope (streams_text s id n) r i h =
      (r.ended, (delta-Keeps scope (bit r.ended) r.ended Delta.text_delta id _ r h))
  performed scope (streams_reasoning s id n) r i h =
      (r.ended, (delta-Keeps scope (bit r.ended) r.ended Delta.reasoning_delta id _ r h))
  performed scope (streams_tool_call id n c name s) r i h =
      (r.ended, (delta-Keeps scope (bit r.ended) r.ended Delta.tool_call_delta id _ r h))
  performed scope (responds vs id m stop u) r i h =
      (r.ended, (respond-Keeps scope (bit r.ended) r.ended vs id m stop u r h))
  performed scope (fails_model e id) r i h =
      (r.ended, (fail_model-Keeps scope (bit r.ended) r.ended e id r h))
  performed scope (starts_tool id n v) r i h =
      (r.ended, (start_tool-Keeps scope (bit r.ended) r.ended id n v r h))
  performed scope (ends_tool id v e) r i h =
      (r.ended, (end_tool-Keeps scope (bit r.ended) r.ended id v e r h))
  performed scope (calls_tool id n v) r i h =
      (r.ended, (call_tool-Keeps scope (bit r.ended) r.ended json_loads id n v r h))
  performed scope (returns_tool v id n w) r i h =
      (r.ended, (tool_result-Keeps scope (bit r.ended) r.ended str v id n w r h))
  performed scope (sums_up u stop) r i h =
      (r.ended, (result_meta-Keeps scope (bit r.ended) r.ended u stop r h))
  performed scope (fails e s p) r i h =
      (r.ended, (fail-Keeps scope (bit r.ended) r.ended e s p r h))
  performed scope (finishes well) r i h = (true, (finish-Done scope well r.ended r h).1)

  perform-Sound :
      (scope : Scope) (c : Call) (r : Recorder)
      → Within scope c
      → Sound scope r
      → Sound scope (perform c r)
  perform-Sound scope c r i h =
      let (e, h') = performed scope c r i h in sound scope e (perform c r) h'

  pub run-Sound :
      (scope : Scope) (cs : List Call) (r : Recorder)
      → All (Within scope) cs
      → Sound scope r
      → Sound scope (run cs r)
  unfolding run
  run-Sound scope [] r i h = h
  run-Sound scope (c ∷ cs) r i h =
      run-Sound scope cs (perform c r) i.1 (perform-Sound scope c r i.0 h)

  module _ (session agent : String) (config : Fields) (label : String) (run_id : Option String)
      (calls : List Call) where
    -- The recorder of a new session after its calls.
    abbrev pub after : Recorder
    after = run calls (new_recorder session agent config label run_id true)

    abbrev scope_of : Bool → Bool → Bool → Scope
    scope_of context markers ends = record {
      base = [];
      context = context;
      markers = markers;
      ends = ends;
    }

    after-Sound :
        (context markers ends : Bool)
        → All (Within (scope_of context markers ends)) calls
        → Sound (scope_of context markers ends) after
    unfolding new_recorder fold_state Numbered marks_from fold_from
    after-Sound context markers ends i =
        run-Sound (scope_of context markers ends) calls _ i
          (refl, refl, tt, (λ w. refl), (λ w. refl), refl, (λ w. refl), tt, ([], refl))

    -- The log of an observed session folds, without an error, to the recorder's own context after any
    -- calls that leave the events of the context to `append_context`, `set_context` and `tool_result`.
    pub fold_state-after :
        All (λ c. past of_context c ≡ false) calls
        → context_of (fold_state after.log) ≡ some after.context
    fold_state-after p =
        (after-Sound true false false (
            All-mono (λ c. past of_context c ≡ false) (Within (scope_of true false false)) calls
              (λ c e. ((λ w. e), (λ w. absurd (cc)), (λ w. absurd (cc)))) p)).3
          refl

    -- After any calls the events are numbered from 0 without a gap, and `seq` is the next number.
    pub after-Numbered : Numbered 0 after.log × (after.seq ≡ length after.log)
    after-Numbered =
        let h = after-Sound false false false (
          All-mono (λ c. Unit {0}) (Within (scope_of false false false)) calls
            (λ c e. ((λ w. absurd (cc)), (λ w. absurd (cc)), (λ w. absurd (cc))))
            (all_calls calls)) in
        (h.2, h.1)
      where
        all_calls : (cs : List Call) → All (λ c. Unit {0}) cs
        all_calls [] = tt
        all_calls (c ∷ cs) = (tt, all_calls cs)

    -- After any calls that leave the markers to the methods for turns and steps and to `finish`, no
    -- marker is out of place in the log: a turn starts where none is open and ends with no step
    -- open, a step starts where none is open. The markers left open are those that the recorder
    -- takes for open.
    pub marks-after :
        All (λ c. past of_markers c ≡ false) calls → marks after.log ≡ some (marks_of after)
    marks-after p =
        (after-Sound false true false (
            All-mono (λ c. past of_markers c ≡ false) (Within (scope_of false true false)) calls
              (λ c e. ((λ w. absurd (cc)), (λ w. e), (λ w. absurd (cc)))) p)).4
          refl

    -- After any calls that leave the end of the session to `finish`, the end is in the log once if
    -- the session has been finished, and else never.
    pub end-after :
        All (λ c. past of_end c ≡ false) calls
        → count is_end after.log ≡ (if after.ended then 1 else 0)
    end-after p =
        (after-Sound false false true (
            All-mono (λ c. past of_end c ≡ false) (Within (scope_of false false true)) calls
              (λ c e. ((λ w. absurd (cc)), (λ w. absurd (cc)), (λ w. e))) p)).6
          refl
