-- ===== src/Cortex/Supervisor/Passing.antt =====
-- agent_cortex/supervisor.py: the provider's stream reaches the operator as it is.
use swarmdeck.Prelude.{
  sym, append-nil, append_assoc, ℕ, ◌≡◌, refl, ap, ◌∙◌, String, Option, none, some, List, [], ◌∷◌,
  ◌++◌, Bool-cases, inl, inr, leb, ◌+◌,
}
use Prim.Native.String.{count}
use swarmdeck.Prelude.Json.{Fields}
use swarmdeck.Cortex.Store.{NewJob}
use swarmdeck.Cortex.Supervisor.{
  Patterns, Supervisor, Running, Ending, run, on_end, on_events, on_event, take_event, buffer_token,
  record_event, flush_tokens, flush_pending, yield_event, phase_call, begin_run, call_create,
  is_done, note_terminal, token_delta, safe_text,
}
use Ending.{finished, cancelled, closed, failed}

module _ (P : Patterns) (tick : ℕ → ℕ) where
  flush_pending-yielded :
      (ts : List String) (r : Running P) → (flush_pending P tick ts r).yielded ≡ r.yielded
  unfolding flush_pending
  flush_pending-yielded [] r = refl
  flush_pending-yielded (t ∷ ts) r = refl

  flush_tokens-yielded : (r : Running P) → (flush_tokens P tick r).yielded ≡ r.yielded
  unfolding flush_tokens
  flush_tokens-yielded r = flush_pending-yielded r.pending_token_text r

  buffer_token-yielded :
      (d : String) (r : Running P) → (buffer_token P tick d r).yielded ≡ r.yielded
  unfolding buffer_token
  buffer_token-yielded d r =
      let b : Running P = record r {
        pending_token_text = r.pending_token_text ++ d ∷ [];
        pending_token_size = r.pending_token_size + count d;
      } in
      elim (Bool-cases (leb 4096 (r.pending_token_size + count d))) [
        | inl e ↦ rw e (flush_tokens-yielded b)
        | inr e ↦ rw e refl
      ]

  take_event-yielded :
      (o : Option String) (fs : Fields) (r : Running P)
      → (take_event P tick o fs r).yielded ≡ r.yielded
  unfolding take_event record_event
  take_event-yielded (some d) fs r = buffer_token-yielded d r
  take_event-yielded none fs r = flush_tokens-yielded r

  on_events-yielded :
      (es : List Fields) (r : Running P) → (on_events P tick es r).yielded ≡ r.yielded ++ es
  unfolding on_events on_event yield_event
  on_events-yielded [] r = sym (append-nil r.yielded)
  on_events-yielded (e ∷ es) r =
      let noted : Running P = record r { terminal_type = note_terminal P tick e r.terminal_type } in
      on_events-yielded es (on_event P tick e r)
      ∙ ap (λ ys. (ys ++ e ∷ []) ++ es) (take_event-yielded (token_delta P tick e) e noted)
      ∙ append_assoc r.yielded (e ∷ []) es

  on_end-yielded :
      (ending : Ending P tick) (r : Running P) → (on_end P tick ending r).yielded ≡ r.yielded
  unfolding on_end phase_call
  on_end-yielded finished r =
      elim (Bool-cases (is_done P tick (flush_tokens P tick r).terminal_type)) [
        | inl e ↦ rw e (flush_tokens-yielded r)
        | inr e ↦ rw e (flush_tokens-yielded r)
      ]
  on_end-yielded cancelled r = refl
  on_end-yielded closed r = refl
  on_end-yielded (failed text) r = refl

  -- Whatever the state of the store, its errors included, and however the stream ends, the
  -- operator gets exactly the provider's events, in order.
  pub run-yielded :
      (uuid : String) (n : NewJob) (es : List Fields) (ending : Ending P tick) (s : Supervisor P)
      → (run P tick uuid n es ending s).yielded ≡ es
  unfolding run begin_run
  run-yielded uuid n es ending s =
      let r =
        begin_run P tick
          (call_create P tick uuid (record n { request_text = safe_text P n.request_text }) s) in
      on_end-yielded ending (on_events P tick es r) ∙ on_events-yielded es r
