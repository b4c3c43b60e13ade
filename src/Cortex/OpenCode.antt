-- ===== src/Cortex/OpenCode.antt =====
-- agent/agent_cortex/providers.py: `OpenCodeProvider`, which reads the lines that the OpenCode
-- command prints as events, and fills the interface of runtime.py.
--
-- `json.loads` and `json.dumps`, the start of the process and the texts that Python makes of a value,
-- of a number and of a missing attribute are the parameter `Library`. A key that a dictionary has
-- twice is read as its last value.
pub mod Parsing
pub mod Answers
pub mod Typed
pub mod Recorded
mod Samples
use swarmdeck.Prelude.{
  String, Bool, true, false, not, ◌&&◌, ◌||◌, Option, none, some, List, [], ◌∷◌, ◌++◌, str_eq,
  if◌then◌else◌, Outcome, raises, returns,
}
use swarmdeck.Prelude.Int.{ℤ, pos, eqb_ℤ}
use swarmdeck.Prelude.Float.{Float, fin}
use swarmdeck.Prelude.Text.{join}
use swarmdeck.Prelude.Json.{
  Json, Fields, get, get_or, or_else, is, null, bool, num, str, arr, obj, end, field,
}
use swarmdeck.Cortex.Runtime.{Process, Provider, error_event}

pub record Library : Type 0 where
  pub loads : String → Option Json
  pub dumps : Fields → String
  -- `str(v)` of a value that is no text
  pub shown : Json → String
  -- `str(n)`
  pub shown_int : ℤ → String
  -- The text of the AttributeError of `v.get`, for a value that is no dictionary.
  pub no_get : Json → String
  -- `asyncio.create_subprocess_exec(*command, cwd=workspace, …)`
  pub spawn : List String → String → Outcome String Process

pub record ProviderRequest : Type 0 where
  pub prompt : String
  pub workspace : String
  pub conversation_id : Option String

pub record OpenCode : Type 0 where
  pub command : List String
  pub model : Option String
  pub agent : Option String
  pub attach : Option String
  pub conversation_id : Option String
  pub response_parts : List String
  pub emitted_init : Bool

-- `if isinstance(session_id, str): self._conversation_id = session_id`
abbrev pub note_session : Json → OpenCode → OpenCode
note_session (str s) p = record p { conversation_id = some s }
note_session v p = p

abbrev pub optional : Option String → Json
optional none = null
optional (some s) = str s

abbrev pub token_event : String → Fields
token_event text = field "type" (str "token") (field "delta" (str text) end)

abbrev pub init_event : Option String → Fields
init_event id = field "type" (str "init") (field "conversation_id" (optional id) end)

-- An answer of `parse_event` and the provider after it.
abbrev pub Parsed : Type 0
Parsed = Outcome String (Option Fields) × OpenCode

abbrev pub nothing : Outcome String (Option Fields)
nothing = returns none

-- `if isinstance(text, str) and text: …`
unfoldable pub take_text_part : Json → OpenCode → Parsed
take_text_part (str text) p = if str_eq text "" then (nothing, p) else (
  returns (some (token_event text)),
  record p { response_parts = p.response_parts ++ text ∷ [] },
)
take_text_part v p = (nothing, p)

unfoldable pub text_part : Json → OpenCode → Parsed
text_part (obj part) p = take_text_part (get "text" part) p
text_part v p = (nothing, p)

abbrev pub tool_event : String → Json → String → Json → Fields
tool_event type tool key value = field "type" (str type) (field "tool" tool (field key value end))

unfoldable pub tool_of : Json → Fields → Fields
tool_of tool state =
    if is "completed" (get "status" state)
    then tool_event "tool_output" tool "output" (get_or "output" (str "") state)
    else if is "error" (get "status" state)
    then tool_event "tool_output" tool "output" (get_or "error" (str "OpenCode tool failed") state)
    else tool_event "tool_call" tool "params" (or_else (get "input" state) (obj end))

abbrev pub done_event : String → Fields
done_event response =
    field "type" (str "done") (
      field "response" (str response)
        (field "status" (str "SUCCESS") (field "usage" (obj end) end)))

abbrev pub flag : String → Option String → List String
flag name none = []
flag name (some v) = name ∷ v ∷ []

-- The environment's texts are not empty; the request's is tested.
abbrev pub nonempty_text : Option String → Option String
nonempty_text none = none
nonempty_text (some s) = if str_eq s "" then none else some s

unfoldable pub command_of : ProviderRequest → OpenCode → List String
command_of request p =
    p.command
    ++ "run" ∷ "--format" ∷ "json" ∷ "--auto" ∷ []
    ++ flag "--attach" p.attach
    ++ "--dir" ∷ request.workspace ∷ []
    ++ flag "--model" p.model
    ++ flag "--agent" p.agent
    ++ flag "--session" (nonempty_text request.conversation_id)
    ++ request.prompt ∷ []

abbrev pub reset : ProviderRequest → OpenCode → OpenCode
reset request p = record p {
  conversation_id = request.conversation_id;
  response_parts = [];
  emitted_init = false;
}

module _ (library : Library) where
  -- `part.get("state") or {}`, of which `get` is called.
  unfoldable pub tool_state : Json → Json → Outcome String (Option Fields)
  tool_state tool (obj state) = returns (some (tool_of tool state))
  tool_state tool v = raises (library.no_get v)

  unfoldable pub tool_use : Json → Outcome String (Option Fields)
  tool_use (obj part) =
      tool_state (or_else (get "tool" part) (str "tool")) (or_else (get "state" part) (obj end))
  tool_use v = nothing

  -- `str(v)`
  abbrev pub shown_text : Json → String
  shown_text (str s) = s
  shown_text v = library.shown v

  abbrev pub error_detail : Json → Json
  error_detail (obj error) =
      or_else (get "message" error) (or_else (get "name" error) (str (library.dumps error)))
  error_detail v = str (shown_text (or_else v (str "OpenCode execution failed")))

  abbrev pub error_of : Fields → Fields
  error_of payload =
      field "type" (str "error") (field "error" (error_detail (get "error" payload)) end)

  abbrev pub start_init : OpenCode → Parsed
  start_init p = (returns (some (init_event p.conversation_id)), record p { emitted_init = true })

  -- `event_type` and `part` are the payload's.
  unfoldable pub parse_payload : Fields → Json → Json → OpenCode → Parsed
  parse_payload payload event_type part p =
      if is "text" event_type
      then text_part part p
      else if is "tool_use" event_type
      then (tool_use part, p)
      else if is "step_start" event_type && not p.emitted_init
      then start_init p
      else if is "error" event_type
      then (returns (some (error_of payload)), p)
      else (nothing, p)

  unfoldable pub parse_value : Option Json → OpenCode → Parsed
  parse_value (some (obj payload)) p =
      parse_payload payload (get "type" payload) (or_else (get "part" payload) (obj end))
        (note_session (get "sessionID" payload) p)
  parse_value o p = (nothing, p)

  abbrev pub parse_event : OpenCode → String → Parsed
  parse_event p line = parse_value (library.loads line) p

  -- `f"OpenCode exited with status {return_code}"`
  abbrev pub exit_error : ℤ → String → String
  exit_error code stderr =
      if str_eq stderr ""
      then join ("OpenCode exited with status " ∷ library.shown_int code ∷ [])
      else stderr

  abbrev pub finish_event : OpenCode → ℤ → String → Outcome String (Option Fields)
  finish_event p code stderr = returns (
      some (
        if eqb_ℤ code (pos 0)
        then done_event (join p.response_parts)
        else error_event (exit_error code stderr)))

  module _ (available : Bool) (request : ProviderRequest) where
    unfoldable pub start : OpenCode → Outcome String Process × OpenCode
    start p =
        if available
        then (library.spawn (command_of request p) request.workspace, reset request p)
        else (raises "OpenCode is unavailable; set CORTEX_OPENCODE_COMMAND to its executable", p)

    abbrev pub open_code : Provider OpenCode
    open_code = record {
      start = start;
      parse_event = parse_event;
      finish_event = some finish_event;
      exit_text = λ code. join ("provider exited with status " ∷ library.shown_int code ∷ []);
    }
