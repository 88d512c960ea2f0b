-- ===== src/Agents/Items.antt =====
-- The builders of context items of gh_puller/agent/events.py.
pub mod Order
use gh_puller.Agents.Events.{accepts, model_response, valid_item, valid_output}
use gh_puller.Archive.Json.{Items, Json, cons, end, field, nil}
use gh_puller.Base.{String, false, if◌then◌else◌, refl, text_instance, true, ◌==◌, ◌≡◌}

-- `message_item`.
unfoldable pub message_item : String → Items → Json
message_item role content = Json.object (
    field "type" (Json.text "message")
      (field "role" (Json.text role) (field "content" (Json.array content) end)))

-- A content part with its text.
abbrev pub text_piece : String → String → Json
text_piece kind s = Json.object (field "type" (Json.text kind) (field "text" (Json.text s) end))

-- `text_message`.
unfoldable pub text_message : String → String → Json
text_message role s =
    message_item role
      (cons (text_piece (if role == "assistant" then "output_text" else "input_text") s) nil)

-- `reasoning_item`.
unfoldable pub reasoning_item : String → Json
reasoning_item s = Json.object (
    field "type" (Json.text "reasoning")
      (field "content" (Json.array (cons (text_piece "reasoning_text" s) nil)) end))

-- `arguments if isinstance(arguments, str) else json.dumps(arguments, …)`.
abbrev pub raw_arguments : (Json → String) → Json → String
raw_arguments json_dumps (Json.text s) = s
raw_arguments json_dumps v = json_dumps v

-- `function_call_item`.
unfoldable pub function_call_item : (Json → String) → String → String → Json → Json
function_call_item json_dumps call_id name arguments = Json.object (
    field "type" (Json.text "function_call") (
      field "call_id" (Json.text call_id) (
        field "name" (Json.text name)
          (field "arguments" (Json.text (raw_arguments json_dumps arguments)) end))))
