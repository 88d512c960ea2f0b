-- ===== src/Agents/Recorder/Calls.antt =====
-- `EventRecorder` of gh_puller/agent/events.py, further: model and tool activity, errors, and the end
-- of a session. What an adapter object is converted to (`normalize_usage`, `_raw_usage`, `str`,
-- `json.loads`) comes as an argument.
use gh_puller.Agents.Events.{
  Route, has, Delta, model_delta, model_error, model_request, model_response, reasoning_delta,
  session_end, session_error, text_delta, tool_call_delta, tool_end, tool_start,
}
use gh_puller.Agents.Recorder.{
  Method, Recorder, append_context, as_text, end_turn, event, if_any, items_json, optional,
  nonempty_or,
}
use gh_puller.Archive.Action.{lift, raise, Error, Action, ok, gets, modify, pure, ◌>>=◌, ◌>>◌}
use gh_puller.Archive.Json.{Fields, Json, end, field, null, number, object}
use gh_puller.Base.{
  ◌||◌, Bool, List, Option, String, [], any, if◌then◌else◌, is_none, ltb, none, option_instance,
  some, suc, text_instance, true, zero, ℕ, ◌%◌, ◌+◌, ◌/◌, ◌==◌, ◌∷◌,
}
use Prim.Native.String.{slice, ◌++◌ as text_append}

abbrev pub digit : ℕ → String
digit n = slice "0123456789" n (n + 1)

-- The last digits of a number, as many as the fuel at most.
abbrev pub digits : ℕ → ℕ → String
digits zero n = ""
digits (suc fuel) n =
    let rest = digits fuel (n / 10) in
    if ltb n 10 then digit n else text_append rest (digit (n % 10))

-- `f"{n}"`; a number has no more digits than its value and one.
unfoldable pub decimal : ℕ → String
decimal n = digits (suc n) n

-- `{"requestId": …, **data}`.
abbrev pub request_fields : String → Fields → Fields
request_fields request_id fs = field "requestId" (Json.text request_id) fs

-- `event(…, requestId=request_id, **data)`: a keyword that is given twice is a `TypeError`.
abbrev pub clashes : Fields → Bool
clashes fs = has "requestId" fs || has "event_type" fs || has "self" fs

unfoldable pub request_event : Route → String → Fields → Method
request_event route request_id fs =
    if clashes fs then lift (raise Error.type_error) else event route (request_fields request_id fs)

-- `model_request` with a correlation of the caller.
unfoldable pub model_request_for : String → Fields → Action Recorder String
model_request_for request_id fs = do request_event model_request request_id fs; pure request_id

abbrev pub forget_results : Recorder → Recorder
forget_results r = record r {
  result_usage = none;
  result_raw_usage = none;
  result_stop_reason = none;
}

-- `model_request`.
unfoldable pub request_model : Option String → Fields → Action Recorder String
request_model (some request_id) fs = do modify forget_results; model_request_for request_id fs
request_model none fs = do
  modify forget_results
  modify λ r. record r { request_n = r.request_n + 1 }
  request_id ← gets (λ r. text_append "r" (decimal r.request_n))
  model_request_for request_id fs

-- `delta`.
unfoldable pub delta : Delta → String → Fields → Method
delta kind request_id fs = request_event (model_delta kind) request_id fs

-- `text` and `reasoning`.
abbrev pub text_fields : ℕ → String → Fields
text_fields index s = field "index" (number index) (field "text" (Json.text s) end)

unfoldable pub text_part : String → String → ℕ → Method
text_part s request_id index = delta text_delta request_id (text_fields index s)

unfoldable pub reasoning_part : String → String → ℕ → Method
reasoning_part s request_id index = delta reasoning_delta request_id (text_fields index s)

-- `tool_call_delta`; no name is the empty text.
unfoldable pub tool_call_part : String → ℕ → String → String → String → Method
tool_call_part request_id index call_id name arguments = delta tool_call_delta request_id (
    field "index" (number index) (
      field "callId" (Json.text call_id)
        (field "argumentsDelta" (Json.text arguments) (optional "name" (if_any name) end))))

-- `normalize_usage(usage)` and `_raw_usage(usage)`.
pub record Usage : Type 0 where
  pub normalized : Option Json
  pub raw : Option Json

abbrev pub or_old {ℓ} : {A : Type ℓ} → Option A → Option A → Option A
or_old none old = old
or_old (some new) old = some new

abbrev pub any_text : String → Option String
any_text s = if s == "" then none else some s

-- `model_response`; no model and no stop reason are the empty text.
unfoldable pub respond : List Json → String → String → String → Usage → Method
respond output request_id model stop_reason usage = do
  modify λ r. record r {
    result_usage = or_old usage.normalized r.result_usage;
    result_stop_reason = or_old (any_text stop_reason) r.result_stop_reason;
  }
  event model_response (
      request_fields request_id (
        field "output" (items_json output) (
          optional "model" (if_any model) (
            optional "usage" usage.normalized
              (optional "rawUsage" usage.raw (optional "stopReason" (if_any stop_reason) end))))))

-- An exception: `type(exc).__name__`, `str(exc)` and the code of its class.
pub record Failure : Type 0 where
  pub kind : String
  pub message : String
  pub code : String

abbrev pub failure_json : Failure → Json
failure_json e =
    object (field "type" (Json.text e.kind) (field "message" (Json.text e.message) end))

-- `model_error`.
unfoldable pub fail_model : Failure → String → Method
fail_model e request_id =
    event model_error (request_fields request_id (field "error" (failure_json e) end))

-- `tool_start`.
unfoldable pub start_tool : String → String → Json → Method
start_tool call_id name arguments = do
  modify λ r. record r { tool_calls_seen = call_id ∷ r.tool_calls_seen }
  event tool_start (
      field "callId" (Json.text call_id)
        (field "name" (Json.text name) (field "arguments" arguments end)))

-- `tool_end`: an error is told, and the result where there is none.
unfoldable pub end_tool : String → Json → Option Json → Method
end_tool call_id result none =
    event tool_end (field "callId" (Json.text call_id) (field "result" result end))
end_tool call_id result (some error) =
    event tool_end (field "callId" (Json.text call_id) (field "error" error end))

unfoldable pub is_seen : String → Recorder → Bool
is_seen call_id r = any (λ c. c == call_id) r.tool_calls_seen

-- `json.loads(arguments)`, or the arguments where it fails or they are no text.
abbrev pub parsed : (String → Option Json) → Json → Json
parsed json_loads (Json.text s) = elim (json_loads s) [ none ↦ Json.text s | some v ↦ v ]
parsed json_loads v = v

-- `tool_call`.
unfoldable pub call_tool : (String → Option Json) → String → String → Json → Method
call_tool json_loads call_id name arguments r =
    if is_seen call_id r
    then (ok tt, r)
    else start_tool call_id name (parsed json_loads arguments) r

-- `function_output_item`.
abbrev pub function_output_item : String → Json → Json
function_output_item call_id output = object (
    field "type" (Json.text "function_call_output")
      (field "call_id" (Json.text call_id) (field "output" output end)))

abbrev pub tool_failure : (Json → String) → Json → Bool → Option Json
tool_failure str output is_error =
    if is_error
    then some (
        object
          (field "type" (Json.text "ToolError") (field "message" (Json.text (str output)) end)))
    else none

abbrev pub start_unseen : String → String → Method
start_unseen call_id name r =
    if is_seen call_id r then (ok tt, r) else start_tool call_id name null r

-- `tool_result`.
unfoldable pub tool_result : (Json → String) → Json → String → String → Bool → Method
tool_result str output call_id name is_error = do
  start_unseen call_id name
  end_tool call_id output (tool_failure str output is_error)
  append_context (function_output_item call_id output ∷ []) (some "tool")

-- `result_meta`.
unfoldable pub result_meta : Usage → Option String → Method
result_meta usage stop_reason = modify λ r. record r {
  result_usage = usage.normalized;
  result_raw_usage = usage.raw;
  result_stop_reason = stop_reason;
}

-- `s[:n]`.
abbrev pub first_chars : ℕ → String → String
first_chars zero s = ""
first_chars (suc n) String.[] = ""
first_chars (suc n) (String.◌∷◌ c s) = String.◌∷◌ c (first_chars n s)

abbrev pub reason_of : Failure → String
reason_of e = nonempty_or (first_chars 2000 e.message) e.kind

-- The first error is kept.
abbrev pub keep_failure : Failure → Option String → Recorder → Recorder
keep_failure e phase r =
    if is_none r.reason_code
    then record r { reason = some (reason_of e); reason_code = some e.code; failure_phase = phase }
    else r

-- `error`.
unfoldable pub fail : Failure → String → Option String → Method
fail e scope phase = do
  modify (keep_failure e phase)
  event session_error (
      field "scope" (Json.text scope) (
        field "reasonCode" (Json.text e.code)
          (field "error" (failure_json e) (optional "phase" (as_text phase) end))))

abbrev pub outcome : Bool → String
outcome well = if well then "completed" else "failed"

abbrev pub text_or : Option String → String → String
text_or none default = default
text_or (some s) default = nonempty_or s default

abbrev pub if_some : Option String → Option Json
if_some none = none
if_some (some s) = if_any s

-- The payload of `session/end`.
unfoldable pub end_fields : Bool → Recorder → Fields
end_fields well r = field "outcome" (Json.text (outcome well)) (
    field "reasonCode" (Json.text (if well then "completed" else text_or r.reason_code "error")) (
      optional "reason" (if_some r.reason) (
        optional "usage" r.result_usage (
          optional "rawUsage" r.result_raw_usage (
            optional "phase" (if well then none else as_text r.failure_phase)
              (optional "stopReason" (if_some r.result_stop_reason) end))))))

-- `finish`.
unfoldable pub finish : Bool → Method
finish well r =
    if r.ended
    then (ok tt, r)
    else (do
      modify λ r'. record r' { ended = true }
      end_turn (outcome well) (if well then "final_response" else "error")
      fs ← gets (end_fields well)
      event session_end fs)
        r
