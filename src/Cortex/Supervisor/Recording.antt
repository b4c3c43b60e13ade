-- ===== src/Cortex/Supervisor/Recording.antt =====
-- agent_cortex/supervisor.py: the token text that `run` leaves in the record of its job.
use swarmdeck.Prelude.{
  ℕ, ◌≡◌, refl, ap, sym, subst, ◌∙◌, String, Bool, true, false, ◌||◌, Option, none, some, List, [],
  ◌∷◌, ◌++◌, all, Bool-cases, inl, inr, if◌then◌else◌, str_eq, str_eq_refl,
}
use text.Mathlib.TextLemmas.{nil-append}
use swarmdeck.Prelude.Json.{Fields}
use swarmdeck.Cortex.Store.{
  CortexStore, Job, NewJob, create_job, set_phase, has_job, of_job, get_job, find_job,
}
use swarmdeck.Cortex.Store.Restart.{find_job-map}
use swarmdeck.Cortex.Store.Counting.{IsNumbered}
use swarmdeck.Cortex.Supervisor.{
  Patterns, Supervisor, Running, Ending, run, on_end, on_events, flush_tokens, phase_call,
  begin_run, call_create, is_done, record_store, call_set_phase, created, safe_text,
}
use swarmdeck.Cortex.Supervisor.Terminal.{
  on_events-terminal, flush_pending-terminal, is_complete, terminal_after-is_complete,
}
use swarmdeck.Cortex.Supervisor.Texts.{recorded_text}
use Ending.{finished}
use swarmdeck.Cortex.Supervisor.Keeping.{
  Holds, Keeps, Flushed, flush_tokens-Flushed, is_texted, streamed_text, on_events-Keeps,
}

module _ (P : Patterns) (tick : ℕ → ℕ) where
  -- The job's row, where the store has it.
  known-find_job :
      (id : String) (js : List Job) → has_job id js ≡ true → (j : Job) × (find_job id js ≡ some j)
  unfolding find_job
  known-find_job id [] h = cc
  known-find_job id (j ∷ js) h = elim (Bool-cases (str_eq j.job_id id)) [
    | inl k ↦ (j, rw k refl)
    | inr k ↦ let (i, e) = known-find_job id js (rw k at h) in (i, rw k e)
  ]

  find_job-id :
      (id : String) (js : List Job) (j : Job) → find_job id js ≡ some j → str_eq j.job_id id ≡ true
  unfolding find_job
  find_job-id id [] j h = cc
  find_job-id id (i ∷ js) j h = elim (Bool-cases (str_eq i.job_id id)) [
    | inl k ↦ let same : i ≡ j = cc (rw k at h) in subst (λ x. str_eq x.job_id id ≡ true) same k
    | inr k ↦ find_job-id id js j (rw k at h)
  ]

  -- What a run leaves in the store: the text of the stream, and the phase of the job.
  pub record IsRecorded (id text phase : String) (s : Supervisor P) : Type 0 where
    pub store : CortexStore
    pub stored : s.store ≡ some store
    pub text_recorded : recorded_text (of_job id store.events) ≡ text
    pub job : Job
    pub found : get_job id store ≡ some job
    pub phase_set : job.phase ≡ phase

  call_set_phase-IsRecorded :
      (id text phase : String) (error_text : Option String) (s : Supervisor P)
      → Holds P tick id text s
      → IsRecorded id text phase (call_set_phase P tick (some id) phase error_text s)
  unfolding call_set_phase record_store set_phase get_job
  call_set_phase-IsRecorded id text phase error_text s h =
      let st = h.store in
      let f : Job → Job = λ j.
        if str_eq j.job_id id
        then record j { phase = phase; error_text = error_text; updated_at = s.clock }
        else j in
      let (j, e) = known-find_job id st.jobs h.known in
      record {
        store = set_phase id phase error_text s.clock st;
        stored = rw (h.stored, call_set_phase) refl;
        text_recorded = h.text_recorded;
        job = f j;
        found = find_job-map f (keeps_id phase error_text s.clock) id st.jobs j e;
        phase_set = rw (find_job-id id st.jobs j e) refl;
      }
    where
      keeps_id :
          (phase : String) (error_text : Option String) (now : ℕ) (j : Job)
          → (if str_eq j.job_id id
              then record j { phase = phase; error_text = error_text; updated_at = now }
              else j).job_id
            ≡ j.job_id
      keeps_id phase error_text now j = elim (Bool-cases (str_eq j.job_id id)) [
        | inl k ↦ rw k refl
        | inr k ↦ rw k refl
      ]

  -- A fresh job in a store with numbered events.
  created-Holds :
      (id : String) (n : NewJob) (st : CortexStore) (clock : ℕ)
      → IsNumbered st
      → has_job id st.jobs ≡ false
      → of_job id st.events ≡ []
      → Keeps P tick id "" (
          begin_run P tick (
            call_create P tick id n
              (record { store = some st; last_store_error = none; clock = clock })))
  unfolding begin_run call_create created create_job record_store
  created-Holds id n st clock h f e = rw f (record {
    saved = "";
    holds = record {
      store = _;
      stored = refl;
      numbered = h;
      known = last_known st.jobs _ refl;
      text_recorded = ap recorded_text e;
    };
    job = refl;
    whole = refl;
  })
    where
      last_known : (js : List Job) (k : Job) → k.job_id ≡ id → has_job id (js ++ k ∷ []) ≡ true
      last_known [] k e = ap (λ i. str_eq i id || false) e ∙ ap (λ b. b || false) (str_eq_refl id)
      last_known (j ∷ js) k e = rw (last_known js k e) (or_true (str_eq j.job_id id))
        where
          or_true : (b : Bool) → (b || true) ≡ true
          or_true true = refl
          or_true false = refl

  abbrev pub final_phase : List Fields → String
  final_phase es = if is_complete P tick es then "completed" else "failed"

  -- A stream that is read to its end, on a store with a fresh id for the job, leaves the whole text
  -- of its tokens in the job's record, and the job completed if some event was `done` and none was
  -- an error, and failed otherwise. Every token has a text for its delta.
  pub run-IsRecorded :
      (id : String) (n : NewJob) (es : List Fields) (st : CortexStore) (clock : ℕ)
      → IsNumbered st
      → has_job id st.jobs ≡ false
      → of_job id st.events ≡ []
      → all (is_texted P tick) es ≡ true
      → IsRecorded id
          (streamed_text P tick es)
          (final_phase es)
          (run P tick id n es finished
            (record { store = some st; last_store_error = none; clock = clock })).supervisor
  unfolding run on_end phase_call flush_tokens begin_run
  run-IsRecorded id n es st clock h f e t =
      let n' = record n { request_text = safe_text P n.request_text } in
      let s : Supervisor P = record { store = some st; last_store_error = none; clock = clock } in
      let b = begin_run P tick (call_create P tick id n' s) in
      let r = on_events P tick es b in
      let k : Keeps P tick id (streamed_text P tick es) r =
        subst (λ u. Keeps P tick id u r) (nil-append (streamed_text P tick es))
          (on_events-Keeps P tick id "" es b t (created-Holds id n' st clock h f e)) in
      let flushed = flush_tokens P tick r in
      let g = flush_tokens-Flushed P tick id (streamed_text P tick es) r k in
      let ended : is_done P tick flushed.terminal_type ≡ is_complete P tick es =
        ap (is_done P tick)
          (flush_pending-terminal P tick r.pending_token_text r ∙ on_events-terminal P tick es b)
        ∙ terminal_after-is_complete P tick es in
      elim (Bool-cases (is_complete P tick es)) [
        | inl c ↦ rw (ended, c) (go "completed" none flushed g)
        | inr c ↦ rw (ended, c) (go "failed" (some "provider stream ended with an error") flushed g)
      ]
    where
      go :
          (phase : String) (error_text : Option String) (r : Running P)
          → Flushed P tick id (streamed_text P tick es) r
          → IsRecorded id
              (streamed_text P tick es)
              phase
              (call_set_phase P tick r.job_id phase error_text r.supervisor)
      go phase error_text r g =
          subst
            (λ o.
              IsRecorded id (streamed_text P tick es) phase
                (call_set_phase P tick o phase error_text r.supervisor))
            (sym g.job)
            (call_set_phase-IsRecorded id (streamed_text P tick es) phase error_text r.supervisor
              g.holds)
