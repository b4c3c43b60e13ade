-- ===== src/Cortex/Agy.antt =====
-- agent/agent_cortex/providers.py: `AgyProvider`, which reads the events of the Antigravity command.
-- The parameters are those of the OpenCode provider. The provider has no closing event.
use swarmdeck.Prelude.{
  String, not, ◌&&◌, Option, none, some, List, [], ◌∷◌, ◌++◌, if◌then◌else◌, Outcome, raises,
  returns,
}
use swarmdeck.Prelude.Text.{join}
use swarmdeck.Prelude.Json.{Json, Fields, get, get_or, or_else, is, truthy, str, obj, end, field}
use swarmdeck.Cortex.Runtime.{Process, Provider}
use swarmdeck.Cortex.OpenCode.{
  Library, ProviderRequest, flag, nonempty_text, tool_event, shown_text,
}

pub record Agy : Type 0 where
  pub binary : Option String
  pub model : Option String
  pub effort : Option String

abbrev pub Given : Type 0
Given = Outcome String (Option Fields)

abbrev pub json_token : Json → Fields
json_token delta = field "type" (str "token") (field "delta" delta end)

abbrev pub json_init : Json → Fields
json_init id = field "type" (str "init") (field "conversation_id" id end)

abbrev pub result_event : Json → Json → Json → Fields
result_event response status usage =
    field "type" (str "done")
      (field "response" response (field "status" status (field "usage" usage end)))

-- `[binary, …]` with the flags that are set.
abbrev pub agy_command : String → ProviderRequest → Agy → List String
agy_command binary request p =
    binary
    ∷ "--add-dir"
    ∷ request.workspace
    ∷ "-p"
    ∷ request.prompt
    ∷ "--output-format"
    ∷ "stream-json"
    ∷ "--dangerously-skip-permissions"
    ∷ (flag "--model" p.model
        ++ flag "--effort" p.effort
        ++ flag "--conversation" (nonempty_text request.conversation_id))

module _ (library : Library) where
  -- `v.get`, of a value that may be no dictionary.
  abbrev pub with_fields : Json → (Fields → Given) → Given
  with_fields (obj fs) f = f fs
  with_fields v f = raises (library.no_get v)

  unfoldable pub tool_info_event : Json → Fields → Fields → Given
  tool_info_event state update tool_info =
      if is "ACTIVE" state
      then returns (
          some (
            tool_event "tool_call" (get "tool_name" update) "params"
              (or_else (get "parameters" tool_info) (obj end))))
      else if is "DONE" state
      then returns (
          some (
            tool_event "tool_output" (get "tool_name" update) "output"
              (get_or "output" (str "") tool_info)))
      else returns none

  -- `tool_info` is a dictionary unless it is used.
  unfoldable pub tool_step : Json → Fields → Given
  unfolding tool_info_event
  tool_step state update =
      if is "ACTIVE" state
      then with_fields (or_else (get "tool_info" update) (obj end)) (tool_info_event state update)
      else if is "DONE" state
      then with_fields (or_else (get "tool_info" update) (obj end)) (tool_info_event state update)
      else returns none

  unfoldable pub step_event : Fields → Given
  unfolding tool_step
  step_event update =
      if is "agent_response" (get "step_type" update) && truthy (get "text_delta" update)
      then returns (some (json_token (get "text_delta" update)))
      else if is "tool" (get "step_type" update)
      then tool_step (get "state" update) update
      else returns none

  -- A failure without a response has its error for the response.
  abbrev pub response_of : Json → Json → Fields → Json
  response_of status response result =
      if is "ERROR" status && not (truthy response)
      then str (
          join (
            "⚠\u{fe0f} "
            ∷ shown_text library (or_else (get "error" result) (str "Agent execution failed"))
            ∷ []))
      else response

  unfoldable pub agy_result : Fields → Given
  agy_result result =
      let status = get_or "status" (str "SUCCESS") result in
      returns (
        some (
          result_event (response_of status (get_or "response" (str "") result) result) status
            (or_else (get "usage" result) (obj end))))

  unfoldable pub agy_payload : Fields → Given
  unfolding step_event agy_result
  agy_payload payload =
      let event_type = get "event" payload in
      if is "init" event_type
      then returns (some (json_init (get "conversation_id" payload)))
      else if is "step_update" event_type
      then with_fields (or_else (get "step_update" payload) (obj end)) step_event
      else if is "result" event_type
      then with_fields (or_else (get "result" payload) (obj end)) agy_result
      else returns none

  unfoldable pub agy_value : Option Json → Given
  unfolding agy_payload
  agy_value none = returns none
  agy_value (some v) = with_fields v agy_payload

  module _ (request : ProviderRequest) where
    unfoldable pub agy_start : Agy → Outcome String Process × Agy
    agy_start p = elim p.binary [
      | none ↦ (raises "Antigravity CLI ('agy') binary was not found", p)
      | some binary ↦ (library.spawn (agy_command binary request p) request.workspace, p)
    ]

    abbrev pub agy : Provider Agy
    agy = record {
      start = agy_start;
      parse_event = λ p line. (agy_value (library.loads line), p);
      finish_event = none;
      exit_text = λ code. join ("provider exited with status " ∷ library.shown_int code ∷ []);
    }
