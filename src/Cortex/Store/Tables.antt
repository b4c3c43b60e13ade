-- ===== src/Cortex/Store/Tables.antt =====
-- agent_cortex/store.py: the tables and their rows.
use swarmdeck.Prelude.{ℕ, String, Bool, Option, List, [], map, str_eq, any, if◌then◌else◌, Outcome}
use swarmdeck.Prelude.Float.{Float}
use swarmdeck.Prelude.Json.{Json}

pub record Job : Type 0 where
  pub job_id : String
  pub conversation_id : Option String
  pub kind : String
  pub phase : String
  pub provider : String
  pub selected_robot : Option String
  pub request_text : String
  pub metadata : Json
  pub error_text : Option String
  pub created_at : ℕ
  pub updated_at : ℕ

pub record Event : Type 0 where
  pub event_id : ℕ
  pub job_id : String
  pub sequence : ℕ
  pub event_type : String
  pub payload : Json
  pub created_at : ℕ

pub record Memory : Type 0 where
  pub memory_id : String
  pub scope : String
  pub memory_key : String
  pub value : Json
  pub status : String
  pub confidence : Float
  pub source_job_id : Option String
  pub created_at : ℕ
  pub reviewed_at : Option ℕ

pub record Compaction : Type 0 where
  pub compaction_id : String
  pub job_id : String
  pub through_sequence : ℕ
  pub summary : String
  pub created_at : ℕ

pub record CortexStore : Type 0 where
  pub jobs : List Job
  pub events : List Event
  pub memories : List Memory
  pub compactions : List Compaction
  -- The AUTOINCREMENT of `events`.
  pub next_event_id : ℕ

pub data StoreError : Type 0 where
  integrity_error : StoreError
  invalid_status : StoreError

abbrev pub Stored : Type 0 → Type 0
Stored A = Outcome StoreError (CortexStore × A)

abbrev pub empty_tables : CortexStore
empty_tables = record { jobs = []; events = []; memories = []; compactions = []; next_event_id = 1 }

abbrev pub has_job : String → List Job → Bool
has_job id js = any (λ j. str_eq j.job_id id) js

-- `UPDATE jobs SET ... WHERE job_id = ?`
abbrev pub update_job : String → (Job → Job) → List Job → List Job
update_job id f js = map (λ j. if str_eq j.job_id id then f j else j) js

-- The columns that `create_job` gets from its caller.
pub record NewJob : Type 0 where
  pub kind : String
  pub provider : String
  pub request_text : String
  pub conversation_id : Option String
  pub selected_robot : Option String
  pub metadata : Json
