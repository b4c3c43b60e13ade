-- ===== src/Cortex/OpenCode/Recorded.antt =====
-- agent/agent_cortex/supervisor.py: `CortexSupervisor.run` with the stream that `ProviderRuntime.run`
-- makes of the output of an OpenCode process.
use swarmdeck.Prelude.{
  ℕ, ◌≡◌, refl, sym, subst, ◌∙◌, String, Bool, false, Option, none, some, List, [], ◌∷◌, Outcome,
  raises, returns, All, Bool-cases, inl, inr,
}
use text.Mathlib.TextLemmas.{append-nil as append-nilˢ}
use swarmdeck.Prelude.Text.{join}
use swarmdeck.Prelude.Json.{get, is, Json, Fields, null, bool, num, str, arr, obj, field?}
use swarmdeck.Cortex.Runtime.{Process, Provider, End, exits, fails, cancelled, run as runtime_run}
use swarmdeck.Cortex.Runtime.Ending.{IsCancelled}
use swarmdeck.Cortex.OpenCode.{Library, OpenCode, ProviderRequest, open_code, start}
use swarmdeck.Cortex.OpenCode.Parsing.{delta_of, texts}
use swarmdeck.Cortex.OpenCode.Answers.{deltas, IsAnswer, run-Answered}
use swarmdeck.Cortex.OpenCode.Typed.{run-texted}
use swarmdeck.Cortex.Store.{CortexStore, NewJob, has_job, of_job}
use swarmdeck.Cortex.Store.Counting.{IsNumbered}
use swarmdeck.Cortex.Supervisor.{Patterns, Supervisor, Running, Ending, run, is_text, token_delta}
use swarmdeck.Cortex.Supervisor.Texts.{join-append}
use swarmdeck.Cortex.Supervisor.Passing.{run-yielded}
use swarmdeck.Cortex.Supervisor.Keeping.{streamed_text, delta_or_empty}
use swarmdeck.Cortex.Supervisor.Recording.{IsRecorded, run-IsRecorded, final_phase}

module _ (P : Patterns) (tick : ℕ → ℕ) where
  -- How the stream of a process ends: only a cancellation is raised again.
  abbrev pub stream_end : End → Ending P tick
  stream_end (exits code stderr) = Ending.finished
  stream_end (fails x) = Ending.finished
  stream_end cancelled = Ending.cancelled

  abbrev pub ending_of : Outcome String Process → Ending P tick
  ending_of (raises x) = Ending.finished
  ending_of (returns process) = stream_end process.ending

  stream_end-finished : (e : End) → ¬ (e ≡ cancelled) → stream_end e ≡ Ending.finished
  stream_end-finished (exits code stderr) h = refl
  stream_end-finished (fails x) h = refl
  stream_end-finished cancelled h = absurd (h refl)

  ending_of-finished :
      {S : Type 0}
      → (provider : Provider S) (o : Outcome String Process) → ¬ IsCancelled provider o
      → ending_of o ≡ Ending.finished
  ending_of-finished provider (raises x) h = refl
  ending_of-finished provider (returns process) h = stream_end-finished process.ending h

  abbrev value_of : Option Json → Json
  value_of none = null
  value_of (some v) = v

  abbrev text_in : Option Json → Option String
  text_in o = elim o [ some (str s) ↦ some s | _ ↦ none ]

  is_text-is : (t : String) (o : Option Json) → is_text P tick t (text_in o) ≡ is t (value_of o)
  is_text-is t none = refl
  is_text-is t (some null) = refl
  is_text-is t (some (bool b)) = refl
  is_text-is t (some (num f)) = refl
  is_text-is t (some (str s)) = refl
  is_text-is t (some (arr vs)) = refl
  is_text-is t (some (obj fs)) = refl

  text_in-join : (o : Option Json) → delta_or_empty P tick (text_in o) ≡ join (texts (value_of o))
  text_in-join none = refl
  text_in-join (some null) = refl
  text_in-join (some (bool b)) = refl
  text_in-join (some (num f)) = refl
  text_in-join (some (str s)) = sym (append-nilˢ s)
  text_in-join (some (arr vs)) = refl
  text_in-join (some (obj fs)) = refl

  token_delta-join : (e : Fields) → delta_or_empty P tick (token_delta P tick e) ≡ join (delta_of e)
  token_delta-join e =
      let same = is_text-is "token" (field? "type" e) in
      elim (Bool-cases (is "token" (get "type" e))) [
        | inl q ↦ rw (same ∙ q, q) (text_in-join (field? "delta" e))
        | inr q ↦ rw (same ∙ q, q) refl
      ]

  streamed_text-join : (es : List Fields) → streamed_text P tick es ≡ join (deltas es)
  streamed_text-join [] = refl
  streamed_text-join (e ∷ es) =
      rw (token_delta-join e, streamed_text-join es) (sym (join-append (delta_of e) (deltas es)))

  -- What the job's record and the operator have of a run: the text of the tokens is in the record, the
  -- job is completed or failed, and every "done" event that the operator gets has that text as its
  -- response.
  abbrev pub IsAnswered : String → Running P → Type 0
  IsAnswered id r =
      (text : String) × IsRecorded P tick id text (final_phase P tick r.yielded) r.supervisor
      × All (IsAnswer text) r.yielded

  module _ (library : Library) (available : Bool) (request : ProviderRequest) where
    -- `run(provider, request)`, where the provider is an `OpenCodeProvider`.
    unfoldable pub supervise : String → NewJob → OpenCode → Supervisor P → Running P
    supervise uuid n p s =
        let provider = open_code library available request in
        run P tick uuid n (runtime_run provider p) (ending_of (provider.start p).0) s

    -- A run of the OpenCode provider that is not cancelled, under a fresh id for the job and on a
    -- store whose events are numbered, is recorded whole: the token text in the job's record is the
    -- response of every "done" event that the operator gets, and the job is completed if one of them
    -- was "done" and none an error, and failed otherwise.
    pub supervise-IsAnswered :
        (id : String) (n : NewJob) (p : OpenCode) (st : CortexStore) (clock : ℕ)
        → IsNumbered st
        → has_job id st.jobs ≡ false
        → of_job id st.events ≡ []
        → ¬ IsCancelled (open_code library available request) (start library available request p).0
        → IsAnswered id
            (supervise id n p (record { store = some st; last_store_error = none; clock = clock }))
    unfolding supervise
    supervise-IsAnswered id n p st clock numbered fresh no_events h =
        let provider = open_code library available request in
        let es = runtime_run provider p in
        let s : Supervisor P = record { store = some st; last_store_error = none; clock = clock } in
        let end = ending_of (provider.start p).0 in
        let r = run P tick id n es end s in
        let text = join (deltas es) in
        let recorded =
          subst
            (λ t.
              IsRecorded P tick id t (final_phase P tick es)
                (run P tick id n es Ending.finished s).supervisor)
            (streamed_text-join es)
            (run-IsRecorded P tick id n es st clock numbered fresh no_events
              (run-texted P tick library available request p)) in
        let whole : IsRecorded P tick id text (final_phase P tick es) r.supervisor =
          subst
            (λ e.
              IsRecorded P tick id text (final_phase P tick es) (run P tick id n es e s).supervisor)
            (sym (ending_of-finished provider (provider.start p).0 h)) recorded in
        subst
          (λ ys.
            (text : String) × IsRecorded P tick id text (final_phase P tick ys) r.supervisor
            × All (IsAnswer text) ys)
          (sym (run-yielded P tick id n es end s))
          (text, whole, run-Answered library available request p)
