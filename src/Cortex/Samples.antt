-- ===== src/Cortex/Samples.antt =====
-- Concrete runs of `ProviderRuntime.run` with `AgyProvider` and `NdjsonBridgeProvider`.
use swarmdeck.Prelude.{
  true, false, ◌≡◌, refl, none, some, [], ◌∷◌, str_eq, if◌then◌else◌, returns, All,
}
use Prim.Native.String.{count}
use swarmdeck.Prelude.Int.{pos}
use swarmdeck.Prelude.Json.{Json, nil, str, arr, obj, end, field}
use swarmdeck.Cortex.Runtime.{
  Process, exits, run, read, hear, close, finish, terminal_type, error_event,
}
use swarmdeck.Cortex.OpenCode.{Library, OpenCode, ProviderRequest, open_code}
use swarmdeck.Cortex.Agy.{
  Agy, agy, agy_start, agy_value, agy_payload, agy_result, json_init, result_event,
}
use swarmdeck.Cortex.Ndjson.{BridgeLibrary, ndjson, ndjson_start, ndjson_value, if_normalized}
use swarmdeck.Cortex.Normalized.{IsNormalized, run-IsNormalized}

abbrev init_line : Json
init_line = obj (field "event" (str "init") (field "conversation_id" (str "c1") end))

abbrev error_line : Json
error_line = obj (
    field "event" (str "result")
      (field "result" (obj (field "status" (str "ERROR") (field "error" (str "quota") end))) end))

abbrev printed : Process
printed = record { lines = "init" ∷ "result" ∷ []; ending = exits (pos 1) "" }

abbrev agy_library : Library
agy_library = record {
  loads = λ line. some (if str_eq line "init" then init_line else error_line);
  dumps = λ fs. "{}";
  shown = λ v. "None";
  shown_int = λ n. "1";
  no_get = λ v. "'list' object has no attribute 'get'";
  spawn = λ command workspace. returns printed;
}

abbrev request : ProviderRequest
request = record { prompt = "go"; workspace = "/w"; conversation_id = none }

abbrev binary_only : Agy
binary_only = record { binary = some "/usr/local/bin/agy"; model = none; effort = none }

-- A run that failed at the provider ends with "done", and so with a completed job.
agy_events :
    run (agy agy_library request) binary_only
    ≡ json_init (str "c1") ∷ result_event (str "⚠\u{fe0f} quota") (str "ERROR") (obj end) ∷ []
unfolding run agy_start read hear close finish terminal_type agy_value agy_payload agy_result
agy_events = refl

one_sign : count "⚠\u{fe0f} quota" ≡ 8
one_sign = refl

-- A type that is a list has no hash, and ends the stream.
abbrev bridge : BridgeLibrary
bridge = record {
  loads =
      λ line. some (obj (field "type" (if str_eq line "init" then str "init" else arr nil) end));
  json_text = λ fs. "{}";
  shown_int = λ n. "1";
  open_bridge = λ command workspace input. returns printed;
}

ndjson_events :
    run (ndjson bridge true request) ("bridge" ∷ [])
    ≡ field "type" (str "init") end ∷ error_event "unhashable type: 'list'" ∷ []
unfolding run ndjson_start read hear close finish terminal_type ndjson_value if_normalized
ndjson_events = refl

abbrev fresh : OpenCode
fresh = record {
  command = "opencode" ∷ [];
  model = none;
  agent = none;
  attach = none;
  conversation_id = none;
  response_parts = [];
  emitted_init = false;
}

run-IsNormalized_example :
    All IsNormalized (run (agy agy_library request) binary_only)
    × All IsNormalized (run (open_code agy_library true request) fresh)
    × All IsNormalized (run (ndjson bridge true request) ("bridge" ∷ []))
run-IsNormalized_example =
    run-IsNormalized agy_library bridge true request binary_only fresh ("bridge" ∷ [])
