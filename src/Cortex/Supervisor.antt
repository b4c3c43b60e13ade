-- ===== src/Cortex/Supervisor.antt =====
-- agent/agent_cortex/supervisor.py: `CortexSupervisor.run`, which passes a provider's events on and
-- records them, and `_safe_payload`, which keeps secrets out of the record.
--
-- The provider's stream is the list of its events and how it ends: `closed` is a consumer that
-- stops listening (GeneratorExit). An event is a JSON object whose "type" is a text or absent. What
-- the two regular expressions match is the parameter `Patterns`; `kind` is what `classify_job`
-- answers, which is not modelled, and neither is the shadow planner, which is off by default. The
-- clock moves by `tick` with each write.
pub mod Redaction
pub mod Passing
pub mod Terminal
pub mod Texts
pub mod Keeping
pub mod Recording
mod Samples
use swarmdeck.Prelude.{
  ℕ, suc, ◌+◌, String, Bool, true, false, Option, none, some, List, [], ◌∷◌, ◌++◌, ltb, leb, str_eq,
  if◌then◌else◌, Outcome, raises, returns,
}
use Prim.Native.String.{◌++◌ as ◌++ˢ◌, count}
use swarmdeck.Prelude.Text.{take_text, join}
use swarmdeck.Prelude.Json.{
  Json, Items, Fields, null, bool, num, str, arr, obj, nil, cons, end, field, field?,
}
use swarmdeck.Cortex.Store.{CortexStore, NewJob, StoreError, create_job, append_event, set_phase}

pub record Patterns : Type 0 where
  -- `_SENSITIVE_KEY.search(key)`
  pub is_sensitive : String → Bool
  -- `_BEARER_VALUE.sub("Bearer [redacted]", value)`
  pub hide_bearer : String → String

abbrev pub max_stored : ℕ
max_stored = 65536

abbrev pub redacted : Json
redacted = str "[redacted]"

module _ (P : Patterns) where
  abbrev pub safe_text : String → String
  safe_text s =
      let hidden = P.hide_bearer s in
      if ltb max_stored (count hidden)
      then take_text max_stored hidden ++ˢ "\n[truncated by Cortex]"
      else hidden

  -- `key and _SENSITIVE_KEY.search(key)`
  abbrev pub is_secret : String → Bool
  is_secret key = if str_eq key "" then false else P.is_sensitive key

  unfoldable mutual
    -- `_safe_payload(value)` without a key, for the items of a list and for an event.
    pub safe_value : Json → Json
    safe_value null = null
    safe_value (bool b) = bool b
    safe_value (num f) = num f
    safe_value (str s) = str (safe_text s)
    safe_value (arr vs) = arr (safe_items vs)
    safe_value (obj fs) = obj (safe_fields fs)

    pub safe_items : Items → Items
    safe_items nil = nil
    safe_items (cons v vs) = cons (safe_value v) (safe_items vs)

    -- `_safe_payload(v, str(k))` for the values of an object.
    pub safe_fields : Fields → Fields
    safe_fields end = end
    safe_fields (field k v fs) =
        let value = safe_value v in
        let rest = safe_fields fs in field k (if is_secret k then redacted else value) rest

  pub record Supervisor : Type 0 where
    pub store : Option CortexStore
    pub last_store_error : Option StoreError
    pub clock : ℕ

  -- The variables of `run`, and what it has yielded.
  pub record Running : Type 0 where
    pub supervisor : Supervisor
    pub job_id : Option String
    pub terminal_type : Option String
    pub pending_token_text : List String
    pub pending_token_size : ℕ
    pub yielded : List Fields

  module _ (tick : ℕ → ℕ) where
    record_error : StoreError → Supervisor → Supervisor
    record_error e s = record s { last_store_error = some e; clock = tick s.clock }

    record_store : CortexStore → Supervisor → Supervisor
    record_store store s = record s { store = some store; clock = tick s.clock }

    appended : Outcome StoreError (CortexStore × ℕ) → Supervisor → Supervisor
    unfolding record_error record_store
    appended (raises e) s = record_error e s
    appended (returns (store, n)) s = record_store store s

    -- `self._store_call("append_event", job_id, ...)`: without a job the insert fails.
    pub call_append : Option String → String → Json → Supervisor → Supervisor
    unfolding appended record_error
    call_append job kind payload s = elim s.store [
      | none ↦ s
      | some store ↦ elim job [
        | none ↦ record_error StoreError.integrity_error s
        | some id ↦ appended (append_event id kind payload s.clock store) s
      ]
    ]

    -- `self._store_call("set_phase", job_id, ...)`: without a job no row is changed.
    pub call_set_phase : Option String → String → Option String → Supervisor → Supervisor
    unfolding record_store
    call_set_phase job phase error_text s = elim s.store [
      | none ↦ s
      | some store ↦ elim job [
        | none ↦ record_store store s
        | some id ↦ record_store (set_phase id phase error_text s.clock store) s
      ]
    ]

    created : Outcome StoreError (CortexStore × String) → Supervisor → Supervisor × Option String
    unfolding record_error record_store
    created (raises e) s = (record_error e s, none)
    created (returns (store, id)) s = (record_store store s, some id)

    -- `self._store_call("create_job", ...)`
    pub call_create : String → NewJob → Supervisor → Supervisor × Option String
    unfolding created
    call_create uuid n s = elim s.store [
      | none ↦ (s, none)
      | some store ↦ created (create_job uuid s.clock n store) s
    ]

    -- The event that `flush_tokens` records.
    abbrev pub token_payload : String → Json
    token_payload text = obj (field "type" (str "token") (field "delta" (str text) end))

    pub flush_pending : List String → Running → Running
    unfolding call_append
    flush_pending [] r = r
    flush_pending (t ∷ ts) r = record r {
      supervisor =
          call_append r.job_id "provider.token" (token_payload (join (t ∷ ts))) r.supervisor;
      pending_token_text = [];
      pending_token_size = 0;
    }

    -- `flush_tokens()`
    pub flush_tokens : Running → Running
    unfolding flush_pending
    flush_tokens r = flush_pending r.pending_token_text r

    abbrev pub text_field : String → Fields → Option String
    text_field key fs = elim (field? key fs) [ some (str s) ↦ some s | _ ↦ none ]

    abbrev pub is_text : String → Option String → Bool
    is_text t none = false
    is_text t (some s) = str_eq s t

    abbrev pub is_type : String → Fields → Bool
    is_type t fs = is_text t (text_field "type" fs)

    abbrev pub or_unknown : Option String → String
    or_unknown none = "unknown"
    or_unknown (some s) = if str_eq s "" then "unknown" else s

    -- `event_type or 'unknown'`
    abbrev pub type_or_unknown : Fields → String
    type_or_unknown fs = or_unknown (text_field "type" fs)

    abbrev pub is_none {ℓ} : {A : Type ℓ} → Option A → Bool
    is_none none = true
    is_none (some a) = false

    abbrev pub note_terminal : Fields → Option String → Option String
    note_terminal fs old =
        if is_type "error" fs
        then some "error"
        else if is_type "done" fs
        then (if is_none old then some "done" else old)
        else old

    -- A delta joins the pending text, which is flushed from 4096 characters on.
    pub buffer_token : String → Running → Running
    unfolding flush_tokens
    buffer_token delta r =
        let buffered : Running = record r {
          pending_token_text = r.pending_token_text ++ delta ∷ [];
          pending_token_size = r.pending_token_size + count delta;
        } in
        if leb 4096 buffered.pending_token_size then flush_tokens buffered else buffered

    pub record_event : Fields → Running → Running
    unfolding flush_tokens call_append safe_value
    record_event fs r =
        let flushed = flush_tokens r in
        record flushed {
          supervisor =
              call_append flushed.job_id ("provider." ++ˢ type_or_unknown fs) (safe_value (obj fs))
                flushed.supervisor;
        }

    -- `event_type == "token" and isinstance(event.get("delta"), str)`
    abbrev pub token_delta : Fields → Option String
    token_delta fs = if is_type "token" fs then text_field "delta" fs else none

    take_event : Option String → Fields → Running → Running
    unfolding buffer_token record_event
    take_event (some delta) fs r = buffer_token delta r
    take_event none fs r = record_event fs r

    pub yield_event : Fields → Running → Running
    yield_event fs r = record r { yielded = r.yielded ++ fs ∷ [] }

    -- The body of the `async for`.
    pub on_event : Fields → Running → Running
    unfolding take_event yield_event
    on_event fs r = yield_event fs (
        take_event (token_delta fs) fs
          (record r { terminal_type = note_terminal fs r.terminal_type }))

    pub on_events : List Fields → Running → Running
    unfolding on_event
    on_events [] r = r
    on_events (e ∷ es) r = on_events es (on_event e r)

    pub data Ending : Type 0 where
      finished cancelled closed : Ending
      failed : String → Ending

    abbrev pub is_done : Option String → Bool
    is_done none = false
    is_done (some t) = str_eq t "done"

    phase_call : String → Option String → Running → Running
    unfolding call_set_phase
    phase_call phase error_text r = record r {
      supervisor = call_set_phase r.job_id phase error_text r.supervisor;
    }

    -- The `except` clauses and the `else` of the `try`.
    pub on_end : Ending → Running → Running
    unfolding phase_call flush_tokens
    on_end closed r = r
    on_end cancelled r = phase_call "cancelled" none r
    on_end (failed text) r = phase_call "failed" (some text) r
    on_end finished r =
        let flushed = flush_tokens r in
        if is_done flushed.terminal_type
        then phase_call "completed" none flushed
        else phase_call "failed" (some "provider stream ended with an error") flushed

    begin_run : Supervisor × Option String → Running
    begin_run (s, job) = record {
      supervisor = s;
      job_id = job;
      terminal_type = none;
      pending_token_text = [];
      pending_token_size = 0;
      yielded = [];
    }

    -- `run(provider, request)`
    pub run : String → NewJob → List Fields → Ending → Supervisor → Running
    unfolding begin_run call_create on_events on_end
    run uuid n es ending s = on_end ending (
        on_events es
          (begin_run (call_create uuid (record n { request_text = safe_text n.request_text }) s)))
