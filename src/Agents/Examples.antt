-- ===== src/Agents/Examples.antt =====
-- Runs of the agent events of gh_puller/agent/events.py.
use gh_puller.Agents.Bus.{Move, Told, drained, events_of, moves, moves-Told, new_sinks, published}
use gh_puller.Agents.Compact.{compact, fold_state-compact}
use gh_puller.Agents.Events.{
  context_of, Event, Route, accepts, fold_event, fold_from, fold_state, is_compact_event,
  is_event_type, text_delta, valid_item, valid_output,
}
use gh_puller.Agents.Files.{
  Alone, consume, consume_all, events_at, file_stem, history, new_files, wanted,
}
use gh_puller.Agents.Files.History.{consume_all-history, fold_state-consume_all}
use gh_puller.Agents.Items.{message_item, function_call_item, reasoning_item, text_message}
use gh_puller.Agents.Replay.{fold_state-recorder}
use gh_puller.Agents.Recorder.{
  Recorder, append_context, begin_step, begin_turn, end_step, end_turn, event, new_recorder,
  set_agent, set_agent_facet, set_context, start,
}
use gh_puller.Agents.Recorder.Calls.{
  request_event, Usage, call_tool, decimal, delta, end_fields, end_tool, fail, fail_model, finish,
  is_seen, model_request_for, reasoning_part, request_model, respond, result_meta, start_tool,
  text_part, tool_call_part, tool_result,
}
use gh_puller.Agents.Recorder.Faithful.{Numbered, is_end, mark, marks, marks_from, marks_of}
use gh_puller.Agents.Recorder.Keeps.{of_context, of_markers, of_end}
use gh_puller.Agents.Recorder.Sessions.{
  past, Call, after, after-Numbered, end-after, fold_state-after, marks-after, perform, run,
}
use gh_puller.Agents.Redaction.{
  Covered, Hides, ends_with, marker, redacted, redacted-Hides, redacted_fields, redacted_items,
  redacted_self, secret_key,
}
use gh_puller.Archive.Action.{steps}
use gh_puller.Archive.Json.{Items, Json, cons, end, field, nil, null, number, object, text, array}
use gh_puller.Base.{
  any-false_of_All, All, select, false, eq_iff, List, Option, String, [], count, false,
  if◌then◌else◌, length, none, refl, some, true, ◌∷◌, ◌≡◌,
}

-- A secret at the top, one in a list, and a name that only contains the word.
abbrev config : Json
config = object (
    field "apiKey" (text "k") (
      field "models" (array (cons (object (field "access_token" (number 7) end)) nil))
        (field "token_limit" (number 9) end)))

abbrev shown : Json
shown = object (
    field "apiKey" marker (
      field "models" (array (cons (object (field "access_token" marker end)) nil))
        (field "token_limit" (number 9) end)))

config_shown : redacted none config ≡ shown
unfolding redacted redacted_fields redacted_items secret_key ends_with
config_shown = refl

redacted-Hides_example : Covered none (redacted none config) × Hides (redacted none config)
redacted-Hides_example = redacted-Hides none config

redacted_self_example : redacted none (redacted none config) ≡ redacted none config
redacted_self_example =
    redacted_self none (redacted none config) (redacted-Hides none config).0
      (redacted-Hides none config).1

abbrev greeting : Json
greeting = object (
    field "type" (text "message") (
      field "role" (text "user") (
        field "content"
          (array
            (cons (object (field "type" (text "input_text") (field "text" (text "hi") end))) nil))
          end)))

abbrev no_usage : Usage
no_usage = record { normalized = none; raw = none }

abbrev calls : List Call
calls =
    Call.starts
    ∷ Call.publishes Route.session_error (field "error" (object end) end)
    ∷ Call.begins_turn
    ∷ Call.begins_step
    ∷ Call.appends (greeting ∷ []) none
    ∷ Call.requests none end
    ∷ Call.streams_text "a" "r1" 0
    ∷ Call.responds [] "r1" "" "" no_usage
    ∷ Call.calls_tool "t" "ls" null
    ∷ Call.returns_tool (text "out") "t" "ls" false
    ∷ Call.appends (number 3 ∷ []) none
    ∷ Call.finishes true
    ∷ Call.finishes false
    ∷ []

abbrev loads : String → Option Json
loads s = none

abbrev str : Json → String
str v = "value"

-- To compute with the calls, a test unfolds this name.
runs : Unit {0}
unfolding request_event steps accepts fold_event fold_from fold_state is_compact_event is_event_type
    valid_item valid_output append_context begin_step begin_turn end_step end_turn event
    new_recorder set_agent set_agent_facet set_context start call_tool decimal delta end_fields
    end_tool fail fail_model finish is_seen model_request_for reasoning_part request_model respond
    result_meta start_tool text_part tool_call_part tool_result mark marks_from perform run redacted
    redacted_fields redacted_items secret_key ends_with
runs = tt

-- The context that was refused is in neither the log nor the recorder; the session ends once.
calls_logged : length (after loads str "s" "a" end "" none calls).log ≡ 15
unfolding runs
calls_logged = refl

calls_context : length (after loads str "s" "a" end "" none calls).context ≡ 2
unfolding runs
calls_context = refl

fold_state-after_example :
    context_of (fold_state (after loads str "s" "a" end "" none calls).log)
    ≡ some (after loads str "s" "a" end "" none calls).context
fold_state-after_example =
    fold_state-after loads str "s" "a" end "" none calls
      (any-false_of_All (past of_context) calls refl)

after-Numbered_example :
    Numbered 0 (after loads str "s" "a" end "" none calls).log
    × ((after loads str "s" "a" end "" none calls).seq
        ≡ length (after loads str "s" "a" end "" none calls).log)
after-Numbered_example = after-Numbered loads str "s" "a" end "" none calls

marks-after_example :
    marks (after loads str "s" "a" end "" none calls).log
    ≡ some (marks_of (after loads str "s" "a" end "" none calls))
marks-after_example =
    marks-after loads str "s" "a" end "" none calls (any-false_of_All (past of_markers) calls refl)

-- A step that is opened outside of a turn is still open when the session has been finished.
step_left :
    (after loads str "s" "a" end "" none (Call.begins_step ∷ Call.finishes true ∷ [])).step_open
    ≡ true
unfolding runs
step_left = refl

end-after_example :
    count is_end (after loads str "s" "a" end "" none calls).log
    ≡ (if (after loads str "s" "a" end "" none calls).ended then 1 else 0)
end-after_example =
    end-after loads str "s" "a" end "" none calls (any-false_of_All (past of_end) calls refl)

abbrev part : Event
part = record { route = Route.model_delta text_delta; payload = end; session = "s"; seq = 1 }

abbrev opened : Event
opened = record { route = Route.session_start; payload = end; session = "s"; seq = 0 }

fold_state-compact_example :
    fold_state (compact (opened ∷ part ∷ [])) ≡ fold_state (opened ∷ part ∷ [])
fold_state-compact_example = fold_state-compact (opened ∷ part ∷ [])

abbrev traffic : List Move
traffic = published opened ∷ drained 0 ∷ published part ∷ drained 1 ∷ []

moves-Told_example : All (Told (events_of traffic)) (moves traffic (new_sinks (true ∷ false ∷ [])))
moves-Told_example = moves-Told (true ∷ false ∷ []) traffic

abbrev elsewhere : Event
elsewhere = record { route = Route.session_start; payload = end; session = "a/b"; seq = 0 }

abbrev mixed : List Event
mixed = part ∷ opened ∷ elsewhere ∷ part ∷ opened ∷ []

-- The compact file has what follows the start, without the delta.
mixed_file : events_at "s" (consume_all false mixed new_files).lines ≡ opened ∷ opened ∷ []
unfolding consume consume_all file_stem is_compact_event
mixed_file = refl

mixed-Alone : All (Alone "s") mixed
unfolding file_stem
mixed-Alone = (
  (λ h. refl),
  (
    (λ h. refl),
    (
      (λ h. absurd (let q : false ≡ true = (eq_iff "b" "s").1 h in cc)),
      ((λ h. refl), ((λ h. refl), tt)),
    ),
  ),
)

consume_all-history_example :
    events_at (file_stem "s") (consume_all false mixed new_files).lines
    ≡ select (wanted false) (history "s" false mixed)
consume_all-history_example = consume_all-history false "s" mixed mixed-Alone

fold_state-consume_all_example :
    fold_state (events_at (file_stem "s") (consume_all false mixed new_files).lines)
    ≡ fold_state (history "s" false mixed)
fold_state-consume_all_example = fold_state-consume_all false "s" mixed mixed-Alone

abbrev session_calls : List Call
session_calls =
    Call.publishes Route.turn_start end
    ∷ Call.begins_step
    ∷ Call.appends (greeting ∷ []) none
    ∷ Call.finishes true
    ∷ []

abbrev ran : Recorder
ran = after loads str "a/s" "a" end "" none (Call.starts ∷ session_calls)

fold_state-recorder_example :
    context_of
      (fold_state (events_at (file_stem ran.session) (consume_all false ran.log new_files).lines))
    ≡ some ran.context
fold_state-recorder_example =
    fold_state-recorder loads str "a/s" "a" end "" none session_calls
      (any-false_of_All (past of_context) session_calls refl) false

abbrev look_and_call : Items
look_and_call =
    cons (reasoning_item "look")
      (cons (text_message "assistant" "done") (cons (function_call_item str "t" "ls" null) nil))

-- A call before a message is refused.
call_first :
    valid_output (
      some (
        array (
          cons
            (function_call_item str "t" "ls" null)
            (cons (text_message "assistant" "done") nil))))
    ≡ false
unfolding valid_output valid_item function_call_item text_message message_item
call_first = refl
