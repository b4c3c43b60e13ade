-- ===== src/Cortex/Supervisor/Samples.antt =====
-- A stream of two tokens, and a payload with a secret.
use swarmdeck.Prelude.{ℕ, suc, ◌≡◌, refl, String, none, some, List, [], ◌∷◌, str_eq}
use swarmdeck.Prelude.Json.{Json, Fields, obj, arr, str, cons, nil, field, end}
use swarmdeck.Cortex.Store.{NewJob, empty_tables}
use swarmdeck.Cortex.Store.Numbering.{empty_tables-IsNumbered}
use swarmdeck.Cortex.Supervisor.{Patterns, Supervisor, Ending, run, safe_value}
use swarmdeck.Cortex.Supervisor.Redaction.{IsRedacted, safe_value-IsRedacted}
use swarmdeck.Cortex.Supervisor.Passing.{run-yielded}
use swarmdeck.Cortex.Supervisor.Recording.{IsRecorded, run-IsRecorded}

abbrev patterns : Patterns
patterns = record { is_sensitive = λ k. str_eq k "token"; hide_bearer = λ s. s }

abbrev tick : ℕ → ℕ
tick n = suc n

abbrev request : NewJob
request = record {
  kind = "conversation";
  provider = "agy";
  request_text = "hello";
  conversation_id = none;
  selected_robot = none;
  metadata = obj end;
}

abbrev token : String → Fields
token d = field "type" (str "token") (field "delta" (str d) end)

abbrev stream : List Fields
stream = token "hel" ∷ token "lo" ∷ field "type" (str "done") end ∷ []

abbrev idle : Supervisor patterns
idle = record { store = some empty_tables; last_store_error = none; clock = 1 }

abbrev secret : Json
secret = obj (field "nested" (arr (cons (obj (field "token" (str "s3cret") end)) nil)) end)

safe_value-IsRedacted_example : IsRedacted patterns (safe_value patterns secret)
safe_value-IsRedacted_example = safe_value-IsRedacted patterns secret

run-yielded_example : (run patterns tick "j" request stream Ending.cancelled idle).yielded ≡ stream
run-yielded_example = run-yielded patterns tick "j" request stream Ending.cancelled idle

run-IsRecorded_example :
    IsRecorded patterns tick "j" "hello" "completed"
      (run patterns tick "j" request stream Ending.finished idle).supervisor
run-IsRecorded_example =
    run-IsRecorded patterns tick "j" request stream empty_tables 1 empty_tables-IsNumbered refl refl
      refl
