-- ===== src/Cortex/OpenCode/Samples.antt =====
-- Concrete runs of `ProviderRuntime.run` with `OpenCodeProvider`.
use swarmdeck.Prelude.{
  suc, String, true, ◌≡◌, refl, Option, none, some, [], ◌∷◌, str_eq, if◌then◌else◌, any, returns,
  false,
}
use swarmdeck.Prelude.Int.{pos}
use swarmdeck.Prelude.Json.{Json, str, obj, end, field}
use swarmdeck.Cortex.Runtime.{
  Process, Provider, exits, run, read, hear, close, finish, terminal_type, error_event,
}
use swarmdeck.Cortex.Runtime.Ending.{is_last, run-Ends}
use swarmdeck.Cortex.OpenCode.{
  Library, OpenCode, ProviderRequest, open_code, start, parse_value, parse_payload, text_part,
  take_text_part, tool_use, tool_state, token_event, done_event, init_event,
}
use swarmdeck.Cortex.OpenCode.Recorded.{supervise, supervise-IsAnswered, IsAnswered}
use swarmdeck.Cortex.Store.{NewJob, empty_tables}
use swarmdeck.Cortex.Store.Numbering.{empty_tables-IsNumbered}
use swarmdeck.Cortex.Supervisor.{Patterns}

abbrev text_line : String → Json
text_line text =
    obj (field "type" (str "text") (field "part" (obj (field "text" (str text) end)) end))

-- A line is its own text, but for the opening one and one that is no JSON.
abbrev sample_loads : String → Option Json
sample_loads line =
    if str_eq line "step"
    then some (obj (field "sessionID" (str "s1") (field "type" (str "step_start") end)))
    else if str_eq line "{"
    then none
    else some (text_line line)

abbrev greeting : Process
greeting = record {
  lines = "step" ∷ "Hello, " ∷ "" ∷ "{" ∷ "world" ∷ [];
  ending = exits (pos 0) "";
}

abbrev sample_library : Library
sample_library = record {
  loads = sample_loads;
  dumps = λ fs. "{}";
  shown = λ v. "None";
  shown_int = λ n. "1";
  no_get = λ v. "'str' object has no attribute 'get'";
  spawn = λ command workspace. returns greeting;
}

abbrev sample_request : ProviderRequest
sample_request = record { prompt = "greet"; workspace = "/w"; conversation_id = none }

-- A provider that has the parts of an earlier run.
abbrev used : OpenCode
used = record {
  command = "opencode" ∷ [];
  model = none;
  agent = none;
  attach = none;
  conversation_id = some "s0";
  response_parts = "old" ∷ [];
  emitted_init = true;
}

abbrev sample_provider : Provider OpenCode
sample_provider = open_code sample_library true sample_request

greeting_events :
    run sample_provider used
    ≡ init_event (some "s1")
      ∷ token_event "Hello, "
      ∷ token_event "world"
      ∷ done_event "Hello, world"
      ∷ []
unfolding run start read hear close finish terminal_type parse_value parse_payload text_part
    take_text_part
greeting_events = refl

-- A line whose tool state is a text ends the stream.
abbrev listed : Library
listed = record sample_library {
  loads = λ line.
      some (
        obj (field "type" (str "tool_use") (field "part" (obj (field "state" (str "x") end)) end)));
}

broken_events :
    run (open_code listed true sample_request) used
    ≡ error_event "'str' object has no attribute 'get'" ∷ []
unfolding run start read hear close finish terminal_type parse_value parse_payload tool_use
    tool_state
broken_events = refl

run-Ends_example : any is_last (run sample_provider used) ≡ true
unfolding start
run-Ends_example = run-Ends sample_provider used (λ c. cc)

abbrev sample_patterns : Patterns
sample_patterns = record { is_sensitive = λ k. false; hide_bearer = λ s. s }

abbrev sample_job : NewJob
sample_job = record {
  kind = "conversation";
  provider = "opencode";
  request_text = "greet";
  conversation_id = none;
  selected_robot = none;
  metadata = obj end;
}

supervise-IsAnswered_example :
    IsAnswered sample_patterns
      (λ n. suc n)
      "j"
      (supervise sample_patterns
        (λ n. suc n)
        sample_library
        true
        sample_request
        "j"
        sample_job
        used
        (record { store = some empty_tables; last_store_error = none; clock = 1 }))
unfolding start
supervise-IsAnswered_example =
    supervise-IsAnswered sample_patterns (λ n. suc n) sample_library true sample_request "j"
      sample_job used empty_tables 1 empty_tables-IsNumbered refl refl (λ c. cc)
