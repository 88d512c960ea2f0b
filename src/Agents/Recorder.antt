-- ===== src/Agents/Recorder.antt =====
-- `EventRecorder` of gh_puller/agent/events.py. The bus is a log; the times of events, the keep-warm
-- task, the cost and the conversion of adapter values (`_jsonable`, `normalize_usage`) are left out.
pub mod Calls
pub mod Faithful
pub mod Markers
pub mod Keeps
pub mod Activity
pub mod Sessions
use gh_puller.Agents.Events.{
  Delta, Event, Role, Route, State, accepts, agent_facet, agent_set, assistant, context_append,
  context_set, model_delta, model_error, model_request, model_response, reasoning_delta,
  session_end, session_error, session_start, step_end, step_start, system, text_delta, text_of,
  tool, tool_call_delta, tool_end, tool_start, turn_end, turn_start, user,
}
use gh_puller.Agents.Redaction.{redacted}
use gh_puller.Archive.Action.{lift, Action, Error, gets, modify, ok, pure, raise, ◌>>=◌, ◌>>◌}
use gh_puller.Archive.Json.{Fields, Items, Json, cons, end, field, get, nil}
use gh_puller.Base.{
  ◌||◌, Bool, List, Option, String, [], any, false, if◌then◌else◌, is_none, ltb, none, not,
  option_instance, some, suc, text_instance, true, zero, ℕ, ◌%◌, ◌&&◌, ◌+◌, ◌++◌, ◌/◌, ◌==◌, ◌∷◌,
}
use Prim.Native.String.{◌++◌ as text_append}

pub record Recorder : Type 0 where
  pub session : String
  pub agent : String
  pub config : Fields
  pub label : String
  pub run_id : Option String
  pub observed : Bool
  pub log : List Event
  pub seq : ℕ
  pub request_n : ℕ
  pub turn_open : Bool
  pub step_open : Bool
  pub ended : Bool
  pub reason : Option String
  pub reason_code : Option String
  pub failure_phase : Option String
  pub result_usage : Option Json
  pub result_raw_usage : Option Json
  pub result_stop_reason : Option String
  pub tool_calls_seen : List String
  pub context : List Json

abbrev pub nonempty_or : String → String → String
nonempty_or s t = if s == "" then t else s

-- `EventRecorder(…)` while a bus is enabled or not.
unfoldable pub new_recorder : String → String → Fields → String → Option String → Bool → Recorder
new_recorder session agent config label run_id observed = record {
  session = session;
  agent = agent;
  config = config;
  label = nonempty_or label session;
  run_id = run_id;
  observed = observed;
  log = [];
  seq = 0;
  request_n = 0;
  turn_open = false;
  step_open = false;
  ended = false;
  reason = none;
  reason_code = none;
  failure_phase = none;
  result_usage = none;
  result_raw_usage = none;
  result_stop_reason = none;
  tool_calls_seen = [];
  context = [];
}

abbrev pub Method : Type 0
Method = Action Recorder (Unit {0})

abbrev pub event_of : Route → Fields → Recorder → Event
event_of route payload r = record {
  route = route;
  payload = payload;
  session = r.session;
  seq = r.seq;
}

abbrev pub published : Route → Fields → Recorder → Recorder
published route payload r = record r {
  log = r.log ++ event_of route payload r ∷ [];
  seq = r.seq + 1;
}

-- `event`: `ValueError` stands for `TypeError` too.
unfoldable pub event : Route → Fields → Method
event route payload r =
    if r.observed
    then if accepts route payload
      then (ok tt, published route payload r)
      else (raise Error.value_error, r)
    else (ok tt, r)

-- A member of a payload that is left out where there is no value.
abbrev pub optional : String → Option Json → Fields → Fields
optional key none rest = rest
optional key (some v) rest = field key v rest

abbrev pub as_text : Option String → Option Json
as_text none = none
as_text (some s) = some (Json.text s)

-- `if text:`.
abbrev pub if_any : String → Option Json
if_any s = if s == "" then none else some (Json.text s)

-- `set_agent`.
unfoldable pub set_agent : String → Fields → Method
set_agent agent config =
    event agent_set
      (field "agent" (Json.text agent) (field "config" (redacted none (Json.object config)) end))

-- `start`.
unfoldable pub start : Method
start r =
    (do
      event session_start
          (field "label" (Json.text r.label) (optional "runId" (as_text r.run_id) end))
      if r.agent == "" then pure tt else set_agent r.agent r.config)
      r

-- `set_agent_facet`; a facet named as a parameter of `event` is a keyword given twice.
unfoldable pub set_agent_facet : String → Json → Method
set_agent_facet facet value =
    if facet == "event_type" || facet == "self"
    then lift (raise Error.type_error)
    else event (agent_facet facet) (field facet (redacted (some facet) value) end)

abbrev pub to_items : List Json → Items
to_items [] = nil
to_items (v ∷ vs) = cons v (to_items vs)

abbrev pub items_json : List Json → Json
items_json vs = Json.array (to_items vs)

abbrev pub role_named : Option String → Option Role
role_named none = none
role_named (some s) =
    if s == "system"
    then some system
    else if s == "user"
    then some user
    else if s == "assistant"
    then some assistant
    else if s == "tool"
    then some tool
    else none

abbrev pub is_text_value : Option Json → String → Bool
is_text_value (some (Json.text s)) t = s == t
is_text_value _ t = false

-- The role of a single message.
abbrev pub own_role : List Json → Option String
own_role (Json.object fs ∷ []) =
    if is_text_value (get "type" fs) "message" then text_of (get "role" fs) else none
own_role _ = none

abbrev pub first_role : Option String → List Json → Option String
first_role none batch = own_role batch
first_role (some s) batch = some s

-- `batch[0].get(…)` where the single member is no object.
abbrev pub lacks_get : Option String → List Json → Bool
lacks_get none (Json.object fs ∷ []) = false
lacks_get none (v ∷ []) = true
lacks_get _ _ = false

-- `append_context`; `TypeError` stands for the `AttributeError` of a value without `get`.
unfoldable pub append_context : List Json → Option String → Method
append_context batch role = if lacks_get role batch then lift (raise Error.type_error) else do
  event (context_append (role_named (first_role role batch))) (field "items" (items_json batch) end)
  modify λ r. record r { context = r.context ++ batch }

-- `set_context`.
unfoldable pub set_context : List Json → Method
set_context items = do
  event context_set (field "items" (items_json items) end)
  modify λ r. record r { context = items }

-- `end_step`.
unfoldable pub end_step : String → Method
end_step outcome r =
    if r.step_open
    then (do
      event step_end (field "outcome" (Json.text outcome) end)
      modify λ r'. record r' { step_open = false })
        r
    else (ok tt, r)

-- `begin_step`.
unfoldable pub begin_step : Method
begin_step = do
  end_step "completed"
  event step_start end
  modify λ r. record r { step_open = true }

-- `end_turn`.
unfoldable pub end_turn : String → String → Method
end_turn outcome reason r =
    if r.turn_open
    then (do
      end_step outcome
      event turn_end (field "outcome" (Json.text outcome) (optional "reason" (if_any reason) end))
      modify λ r'. record r' { turn_open = false })
        r
    else (ok tt, r)

-- `begin_turn`.
unfoldable pub begin_turn : Method
begin_turn = do
  end_turn "completed" ""
  event turn_start end
  modify λ r. record r { turn_open = true }
