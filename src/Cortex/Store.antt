-- ===== src/Cortex/Store.antt =====
-- agent/agent_cortex/store.py: the jobs, their events, the memories and the compactions.
--
-- `CortexStore` is the record of its four tables, each a list of rows in the order of insertion; a
-- method is one transaction, and one that raises leaves the tables as they were. `job_id` and the
-- other new ids are `uuid4().hex` and are arguments here, like the time `now`: SQLite's checks of
-- primary keys, of foreign keys and of UNIQUE(job_id, sequence) are written out. The schema, its
-- version and the connection are not modelled.
pub mod Tables
pub mod Ordering
pub mod Counting
pub mod Numbering
pub mod Replay
pub mod Restart
mod Samples
use swarmdeck.Prelude.{
  ℕ, suc, ◌+◌, String, Bool, true, false, not, ◌&&◌, Option, none, some, List, [], ◌∷◌, ◌++◌, map,
  ltb, leb, ◌==◌, str_eq, any, keep, take, length, if◌then◌else◌, Outcome, raises, returns, ◌>>=◌,
}
use swarmdeck.Prelude.Int.{ℤ, pos, negsuc, min_ℤ, max_ℤ, pos_part}
use swarmdeck.Prelude.Float.{Float, fin, zero_float, min_float, max_float}
use swarmdeck.Prelude.Json.{Json}
pub use Tables.*

-- `create_job(...)`
unfoldable pub create_job : String → ℕ → NewJob → CortexStore → Stored String
create_job id now n s =
    if has_job id s.jobs
    then raises integrity_error
    else returns (
      record s {
        jobs =
            s.jobs
            ++ record {
              job_id = id;
              conversation_id = n.conversation_id;
              kind = n.kind;
              phase = "running";
              provider = n.provider;
              selected_robot = n.selected_robot;
              request_text = n.request_text;
              metadata = n.metadata;
              error_text = none;
              created_at = now;
              updated_at = now;
            }
              ∷ [];
      },
      id,
    )

abbrev pub of_job : String → List Event → List Event
of_job id es = keep (λ e. str_eq e.job_id id) es

abbrev pub max_ℕ : ℕ → ℕ → ℕ
max_ℕ a b = if ltb a b then b else a

-- `COALESCE(MAX(sequence), 0)`
abbrev pub max_sequence : List Event → ℕ
max_sequence [] = 0
max_sequence (e ∷ es) = max_ℕ e.sequence (max_sequence es)

-- `append_event(job_id, event_type, payload)`
pub append_event : String → String → Json → ℕ → CortexStore → Stored ℕ
append_event id event_type payload now s =
    let sequence = max_sequence (of_job id s.events) + 1 in
    if any (λ e. e.sequence == sequence) (of_job id s.events)
    then raises integrity_error
    else if not (has_job id s.jobs)
    then raises integrity_error
    else returns (
      record s {
        events =
            s.events
            ++ record {
              event_id = s.next_event_id;
              job_id = id;
              sequence = sequence;
              event_type = event_type;
              payload = payload;
              created_at = now;
            }
              ∷ [];
        next_event_id = s.next_event_id + 1;
        jobs = update_job id (λ j. record j { updated_at = now }) s.jobs;
      },
      sequence,
    )

-- `set_phase(job_id, phase, error_text)`
unfoldable pub set_phase : String → String → Option String → ℕ → CortexStore → CortexStore
set_phase id phase error_text now s = record s {
  jobs =
      update_job id (λ j. record j { phase = phase; error_text = error_text; updated_at = now })
        s.jobs;
}

abbrev pub is_running : Job → Bool
is_running j = str_eq j.phase "running"

-- `interrupt_running_jobs()`: the store, and how many rows were changed.
pub interrupt_running_jobs : ℕ → CortexStore → CortexStore × ℕ
interrupt_running_jobs now s = (
  record s {
    jobs =
        map
          (λ j.
            if is_running j
            then record j {
              phase = "interrupted";
              error_text = some "Cortex restarted before the provider stream completed";
              updated_at = now;
            }
            else j)
          s.jobs;
  },
  length (keep is_running s.jobs),
)

unfoldable pub find_job : String → List Job → Option Job
find_job id [] = none
find_job id (j ∷ js) = if str_eq j.job_id id then some j else find_job id js

-- `get_job(job_id)`
unfoldable pub get_job : String → CortexStore → Option Job
unfolding find_job
get_job id s = find_job id s.jobs

-- `ORDER BY`: before the first row that does not come earlier, so that equal rows keep their order.
pub insert_by {ℓ} : {A : Type ℓ} → (A → A → Bool) → A → List A → List A
insert_by before a [] = a ∷ []
insert_by before a (b ∷ bs) =
    let rest = b ∷ insert_by before a bs in if before b a then rest else a ∷ b ∷ bs

pub order_by {ℓ} : {A : Type ℓ} → (A → A → Bool) → List A → List A
unfolding insert_by
order_by before [] = []
order_by before (a ∷ bs) = insert_by before a (order_by before bs)

-- `list_jobs(limit)`
pub list_jobs : ℤ → CortexStore → List Job
unfolding order_by
list_jobs limit s =
    take (pos_part (max_ℤ (pos 1) (min_ℤ limit (pos 500))))
      (order_by (λ a b. ltb b.updated_at a.updated_at) s.jobs)

abbrev pub earlier : Event → Event → Bool
earlier a b = ltb a.sequence b.sequence

-- `get_events(job_id)`
pub get_events : String → CortexStore → List Event
unfolding order_by
get_events id s = order_by earlier (of_job id s.events)

-- `max(0.0, min(float(confidence), 1.0))`
abbrev pub bound_confidence : Float → Float
bound_confidence c = max_float zero_float (min_float c (fin (pos 1000)))

abbrev pub is_known_source : Option String → List Job → Bool
is_known_source none js = true
is_known_source (some id) js = has_job id js

-- `propose_memory(...)`
pub propose_memory :
    String → String → String → Json → Float → Option String → ℕ → CortexStore → Stored String
propose_memory id scope key value confidence source now s =
    if any (λ m. str_eq m.memory_id id) s.memories
    then raises integrity_error
    else if not (is_known_source source s.jobs)
    then raises integrity_error
    else returns (
      record s {
        memories =
            s.memories
            ++ record {
              memory_id = id;
              scope = scope;
              memory_key = key;
              value = value;
              status = "candidate";
              confidence = bound_confidence confidence;
              source_job_id = source;
              created_at = now;
              reviewed_at = none;
            }
              ∷ [];
      },
      id,
    )

abbrev pub is_review : String → Bool
is_review status = if str_eq status "confirmed" then true else str_eq status "rejected"

-- `review_memory(memory_id, status)`
pub review_memory : String → String → ℕ → CortexStore → Outcome StoreError CortexStore
review_memory id status now s =
    if not (is_review status)
    then raises invalid_status
    else returns (record s {
      memories =
          map
            (λ m.
              if str_eq m.memory_id id
              then record m { status = status; reviewed_at = some now }
              else m)
            s.memories;
    })

abbrev pub matches : Option String → String → Bool
matches none v = true
matches (some w) v = str_eq v w

-- `list_memories(scope, status)`
pub list_memories : Option String → Option String → CortexStore → List Memory
unfolding order_by
list_memories scope status s =
    order_by (λ a b. ltb b.created_at a.created_at)
      (keep (λ m. matches scope m.scope && matches status m.status) s.memories)

-- `add_compaction(job_id, through_sequence, summary)`
pub add_compaction : String → String → ℕ → String → ℕ → CortexStore → Stored String
add_compaction id job through summary now s =
    if any (λ c. str_eq c.compaction_id id) s.compactions
    then raises integrity_error
    else if not (has_job job s.jobs)
    then raises integrity_error
    else returns (
      record s {
        compactions =
            s.compactions
            ++ record {
              compaction_id = id;
              job_id = job;
              through_sequence = through;
              summary = summary;
              created_at = now;
            }
              ∷ [];
      },
      id,
    )

-- `ORDER BY through_sequence DESC, created_at DESC`
abbrev pub later : Compaction → Compaction → Bool
later a b =
    if ltb b.through_sequence a.through_sequence
    then true
    else a.through_sequence == b.through_sequence && ltb b.created_at a.created_at

abbrev pub first_of {ℓ} : {A : Type ℓ} → List A → Option A
first_of [] = none
first_of (a ∷ bs) = some a

pub latest_compaction : String → CortexStore → Option Compaction
unfolding order_by
latest_compaction id s = first_of (order_by later (keep (λ c. str_eq c.job_id id) s.compactions))

pub record ReplayContext : Type 0 where
  pub summary : Option String
  pub through_sequence : ℕ
  pub events : List Event

abbrev pub through_of : Option Compaction → ℕ
through_of none = 0
through_of (some c) = c.through_sequence

abbrev pub summary_of : Option Compaction → Option String
summary_of none = none
summary_of (some c) = some c.summary

-- `get_replay_context(job_id)`
pub get_replay_context : String → CortexStore → ReplayContext
unfolding latest_compaction order_by
get_replay_context id s =
    let compaction = latest_compaction id s in
    record {
      summary = summary_of compaction;
      through_sequence = through_of compaction;
      events =
          order_by earlier
            (keep (λ e. str_eq e.job_id id && ltb (through_of compaction) e.sequence) s.events);
    }
