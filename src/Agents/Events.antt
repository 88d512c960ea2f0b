-- ===== src/Agents/Events.antt =====
-- The event language of gh_puller/agent/events.py: what `new_event` accepts, and `fold_state`.
use gh_puller.Archive.Json.{Fields, Json, end, field, get, to_list}
use gh_puller.Base.{
  Bool, List, Option, String, [], all, any, codes, false, if◌then◌else◌, is_none, leb, nat_eq, none,
  not, option_instance, some, text_instance, true, ℕ, ◌&&◌, ◌++◌, ◌==◌, ◌||◌, ◌∷◌,
}

-- `CONTEXT_APPEND_ROLES`.
pub data Role : Type 0 where
  system user assistant tool : Role

-- `DELTA_TYPES`.
pub data Delta : Type 0 where
  text_delta reasoning_delta tool_call_delta : Delta

-- The routes of `EVENT_TYPES`, and `agent/set/…` with its last segment.
pub data Route : Type 0 where
  session_start session_end session_error : Route
  turn_start turn_end step_start step_end : Route
  agent_set context_set : Route
  agent_facet : String → Route
  context_append : Option Role → Route
  model_request model_response model_error : Route
  model_delta : Delta → Route
  tool_start tool_end : Route

-- `is_event_type`: a facet is one segment that is not empty.
unfoldable pub is_event_type : Route → Bool
is_event_type (agent_facet facet) =
    not (facet == "") && not (any (λ c. nat_eq c b'/') (codes facet))
is_event_type _ = true

-- `is_compact_event`.
unfoldable pub is_compact_event : Route → Bool
is_compact_event (model_delta kind) = false
is_compact_event (agent_facet facet) = is_event_type (agent_facet facet)
is_compact_event _ = true

abbrev pub is_text : Option Json → Bool
is_text (some (Json.text s)) = true
is_text _ = false

-- A text that is not empty.
abbrev pub is_name : Option Json → Bool
is_name (some (Json.text s)) = not (s == "")
is_name _ = false

abbrev pub is_object : Option Json → Bool
is_object (some (Json.object fs)) = true
is_object _ = false

abbrev pub is_number : Option Json → Bool
is_number (some (Json.number n)) = true
is_number (some (Json.boolean b)) = true
is_number _ = false

abbrev pub has : String → Fields → Bool
has key fs = not (is_none (get key fs))

abbrev pub is_content_part : Json → Bool
is_content_part (Json.object fs) = is_text (get "type" fs)
is_content_part _ = false

-- `_validate_content`.
abbrev pub valid_content : Option Json → Bool
valid_content (some (Json.array vs)) = all is_content_part (to_list vs)
valid_content _ = false

abbrev pub valid_fields : String → Fields → Bool
valid_fields kind fs =
    if kind == "message"
    then is_name (get "role" fs) && valid_content (get "content" fs)
    else if kind == "reasoning"
    then not (has "content" fs) || valid_content (get "content" fs)
    else if kind == "function_call"
    then is_name (get "call_id" fs) && is_text (get "name" fs) && is_text (get "arguments" fs)
    else if kind == "function_call_output"
    then is_name (get "call_id" fs) && has "output" fs
    else true

-- `_validate_item`.
unfoldable pub valid_item : Json → Bool
valid_item (Json.object fs) = elim (get "type" fs) [
  | some (Json.text kind) ↦ not (kind == "") && valid_fields kind fs
  | _ ↦ false
]
valid_item _ = false

abbrev pub item_list : Option Json → List Json
item_list (some (Json.array vs)) = to_list vs
item_list _ = []

abbrev pub is_list : Option Json → Bool
is_list (some (Json.array vs)) = true
is_list _ = false

-- `_validate_items`.
abbrev pub valid_items : Option Json → Bool
valid_items v = is_list v && all valid_item (item_list v)

-- `_MODEL_OUTPUT_RANK`.
abbrev pub rank_named : String → Option ℕ
rank_named kind =
    if kind == "reasoning"
    then some 0
    else if kind == "message"
    then some 1
    else if kind == "function_call"
    then some 2
    else none

abbrev pub rank_of_type : Option Json → Option ℕ
rank_of_type (some (Json.text kind)) = rank_named kind
rank_of_type _ = none

abbrev pub output_rank : Json → Option ℕ
output_rank (Json.object fs) = rank_of_type (get "type" fs)
output_rank _ = none

-- A rank that does not fall, and what follows it.
abbrev pub rank_from : ℕ → Option ℕ → (ℕ → Bool) → Bool
rank_from low none rest = false
rank_from low (some r) rest = if leb low r then rest r else false

-- The ranks do not fall, and every item has one.
abbrev pub ranks_ascend : ℕ → List Json → Bool
ranks_ascend low [] = true
ranks_ascend low (v ∷ vs) = rank_from low (output_rank v) (λ r. ranks_ascend r vs)

-- `_validate_model_output`.
unfoldable pub valid_output : Option Json → Bool
valid_output v = valid_items v && ranks_ascend 0 (item_list v)

abbrev pub valid_delta : Delta → Fields → Bool
valid_delta tool_call_delta fs =
    is_number (get "index" fs) && is_text (get "callId" fs) && is_text (get "argumentsDelta" fs)
valid_delta _ fs = is_number (get "index" fs) && is_text (get "text" fs)

-- The payloads that `new_event` accepts; it raises for all others.
unfoldable pub accepts : Route → Fields → Bool
accepts agent_set fs = is_name (get "agent" fs) && is_object (get "config" fs)
accepts (agent_facet facet) fs = is_event_type (agent_facet facet) && has facet fs
accepts (context_append role) fs = valid_items (get "items" fs)
accepts context_set fs = valid_items (get "items" fs)
accepts model_request fs = is_name (get "requestId" fs)
accepts model_response fs = is_name (get "requestId" fs) && valid_output (get "output" fs)
accepts model_error fs = is_name (get "requestId" fs) && is_object (get "error" fs)
accepts (model_delta kind) fs = is_name (get "requestId" fs) && valid_delta kind fs
accepts tool_start fs = is_name (get "callId" fs) && is_text (get "name" fs)
accepts tool_end fs =
    is_name (get "callId" fs)
    && ((has "result" fs && not (has "error" fs)) || (not (has "result" fs) && has "error" fs))
accepts session_error fs = is_object (get "error" fs)
accepts session_end fs = is_text (get "outcome" fs)
accepts _ fs = true

-- A published event; its times are left out.
pub record Event : Type 0 where
  pub route : Route
  pub payload : Fields
  pub session : String
  pub seq : ℕ

-- `{"agent": …, "config": …}` of an agent.
pub record AgentState : Type 0 where
  pub agent : Json
  pub config : Fields

pub record State : Type 0 where
  pub agent : Option AgentState
  pub context : List Json

abbrev pub text_of : Option Json → Option String
text_of (some (Json.text s)) = some s
text_of _ = none

-- `{**fs, key: value}`.
abbrev pub with_field : String → Json → Fields → Fields
with_field key value end = field key value end
with_field key value (field k v fs) =
    let rest = with_field key value fs in if k == key then field k value fs else field k v rest

abbrev pub or_blank : Option AgentState → AgentState
or_blank none = record { agent = Json.null; config = end }
or_blank (some a) = a

abbrev pub replace_agent : Option Json → Option Json → State → Option State
replace_agent (some agent) (some (Json.object config)) s =
    some (record s { agent = some (record { agent = agent; config = config }) })
replace_agent _ _ s = none

abbrev pub set_facet : String → Option Json → State → Option State
set_facet facet none s = none
set_facet facet (some v) s =
    let a = or_blank s.agent in
    some (record s { agent = some (record a { config = with_field facet v a.config }) })

abbrev pub replace_context : Option Json → State → Option State
replace_context (some (Json.array vs)) s = some (record s { context = to_list vs })
replace_context _ s = none

-- One event of `fold_state`; `none` where a member that is read is missing or of another type. The
-- items of `context/append` are an array or missing.
unfoldable pub fold_event : Route → Fields → State → Option State
fold_event agent_set fs s = replace_agent (get "agent" fs) (get "config" fs) s
fold_event (agent_facet facet) fs s =
    if is_event_type (agent_facet facet) then set_facet facet (get facet fs) s else some s
fold_event context_set fs s = replace_context (get "items" fs) s
fold_event (context_append role) fs s =
    some (record s { context = s.context ++ item_list (get "items" fs) })
fold_event _ fs s = some s

abbrev pub and_then : Option State → (State → Option State) → Option State
and_then none f = none
and_then (some s) f = f s

unfoldable pub fold_from : Option State → List Event → Option State
fold_from o [] = o
fold_from o (e ∷ es) = fold_from (and_then o (fold_event e.route e.payload)) es

abbrev pub blank : State
blank = record { agent = none; context = [] }

-- `fold_state`; `none` where it raises.
unfoldable pub fold_state : List Event → Option State
fold_state events = fold_from (some blank) events

-- `fold_state(…)["context"]`.
abbrev pub context_of : Option State → Option (List Json)
context_of none = none
context_of (some s) = some s.context
