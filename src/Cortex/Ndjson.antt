-- ===== src/Cortex/Ndjson.antt =====
-- agent/agent_cortex/providers.py: `NdjsonBridgeProvider`, whose process prints the events themselves.
--
-- `open_bridge` starts the command in the workspace and writes the text to its input; `json_text` is
-- `json.dumps`, and `available` says whether the command is executable.
use swarmdeck.Prelude.{
  String, Bool, true, false, Option, none, some, List, [], ◌∷◌, if◌then◌else◌, Outcome, raises,
  returns,
}
use swarmdeck.Prelude.Int.{ℤ}
use swarmdeck.Prelude.Text.{join}
use swarmdeck.Prelude.Json.{Json, Fields, str, obj, end, field, field?}
use swarmdeck.Cortex.Runtime.{Process, Provider, member, is_normalized_type}
use swarmdeck.Cortex.OpenCode.{ProviderRequest, optional}

pub record BridgeLibrary : Type 0 where
  pub loads : String → Option Json
  pub json_text : Fields → String
  pub shown_int : ℤ → String
  pub open_bridge : List String → String → String → Outcome String Process

abbrev pub request_payload : ProviderRequest → Fields
request_payload request = field "protocol" (str "cortex-ndjson-v1") (
    field "prompt" (str request.prompt) (
      field "workspace" (str request.workspace)
        (field "conversation_id" (optional request.conversation_id) end)))

-- `None if payload.get("type") not in NORMALIZED_EVENT_TYPES else payload`
unfoldable pub if_normalized : Fields → Outcome String Bool → Outcome String (Option Fields)
if_normalized payload (raises x) = raises x
if_normalized payload (returns true) = returns (some payload)
if_normalized payload (returns false) = returns none

unfoldable pub ndjson_value : Option Json → Outcome String (Option Fields)
unfolding if_normalized
ndjson_value (some (obj payload)) =
    if_normalized payload (member is_normalized_type (field? "type" payload))
ndjson_value o = returns none

module _ (library : BridgeLibrary) (available : Bool) (request : ProviderRequest) where
  -- The provider's state is its command.
  unfoldable pub ndjson_start : List String → Outcome String Process × List String
  ndjson_start command =
      if available
      then (
        library.open_bridge command request.workspace
            (join (library.json_text (request_payload request) ∷ "\n" ∷ [])),
        command,
      )
      else (raises "CORTEX_PROVIDER_COMMAND must name an executable NDJSON bridge", command)

  abbrev pub ndjson : Provider (List String)
  ndjson = record {
    start = ndjson_start;
    parse_event = λ command line. (ndjson_value (library.loads line), command);
    finish_event = none;
    exit_text = λ code. join ("provider exited with status " ∷ library.shown_int code ∷ []);
  }
