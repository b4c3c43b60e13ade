-- ===== src/Cortex/Store/Samples.antt =====
-- One job with two events and a compaction, and a restart.
use swarmdeck.Prelude.{◌≡◌, none, some, List, [], ◌∷◌, ◌++◌, keep, str_eq}
use swarmdeck.Prelude.Json.{null, obj, end}
use swarmdeck.Cortex.Store.{CortexStore, NewJob, Job, empty_tables, get_events, get_replay_context}
use swarmdeck.Cortex.Store.Counting.{Write, history}
use swarmdeck.Cortex.Store.Replay.{IsLatest, up_to_sequence, get_replay_context_covers}

abbrev question : NewJob
question = record {
  kind = "diagnosis";
  provider = "agy";
  request_text = "why is it red";
  conversation_id = none;
  selected_robot = some "a";
  metadata = obj end;
}

abbrev writes : List Write
writes =
    Write.to_create "j" 1 question
    ∷ Write.to_append "j" "provider.token" null 2
    ∷ Write.to_append "j" "provider.done" null 3
    ∷ Write.to_compact "c" "j" 1 "asked" 4
    ∷ []

abbrev after_writes : CortexStore
after_writes = history writes empty_tables

get_replay_context_covers_example :
    IsLatest
      (get_replay_context "j" after_writes)
      (keep (λ c. str_eq c.job_id "j") after_writes.compactions)
    × (get_events "j" after_writes
        ≡ up_to_sequence
            (get_replay_context "j" after_writes).through_sequence
            (get_events "j" after_writes)
          ++ (get_replay_context "j" after_writes).events)
get_replay_context_covers_example = get_replay_context_covers writes "j"

abbrev asked : Job
asked = record {
  job_id = "j";
  conversation_id = none;
  kind = "diagnosis";
  phase = "running";
  provider = "agy";
  selected_robot = some "a";
  request_text = "why is it red";
  metadata = obj end;
  error_text = none;
  created_at = 1;
  updated_at = 3;
}
