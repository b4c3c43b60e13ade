-- ===== src/Cortex/Supervisor/Terminal.antt =====
-- agent_cortex/supervisor.py: how `run` sees the end of a stream.
use swarmdeck.Prelude.{
  ℕ, ◌+◌, ◌≡◌, refl, ap, ◌∙◌, String, Bool, true, false, not, ◌&&◌, Option, none, some, List, [],
  ◌∷◌, ◌++◌, any, Bool-cases, inl, inr, leb,
}
use Prim.Native.String.{count}
use swarmdeck.Prelude.Json.{Fields}
use swarmdeck.Cortex.Supervisor.{
  Patterns, Running, on_events, on_event, take_event, buffer_token, record_event, flush_tokens,
  flush_pending, yield_event, is_done, note_terminal, token_delta, is_type,
}

module _ (P : Patterns) (tick : ℕ → ℕ) where
  -- How the stream ended for the operator: `old` is the terminal type so far.
  abbrev pub terminal_after : Option String → List Fields → Option String
  terminal_after old [] = old
  terminal_after old (e ∷ es) = terminal_after (note_terminal P tick e old) es

  pub flush_pending-terminal :
      (ts : List String) (r : Running P)
      → (flush_pending P tick ts r).terminal_type ≡ r.terminal_type
  unfolding flush_pending
  flush_pending-terminal [] r = refl
  flush_pending-terminal (t ∷ ts) r = refl

  take_event-terminal :
      (o : Option String) (fs : Fields) (r : Running P)
      → (take_event P tick o fs r).terminal_type ≡ r.terminal_type
  unfolding take_event buffer_token record_event flush_tokens
  take_event-terminal none fs r = flush_pending-terminal r.pending_token_text r
  take_event-terminal (some d) fs r =
      let b : Running P = record r {
        pending_token_text = r.pending_token_text ++ d ∷ [];
        pending_token_size = r.pending_token_size + count d;
      } in
      elim (Bool-cases (leb 4096 (r.pending_token_size + count d))) [
        | inl e ↦ rw e (flush_pending-terminal (r.pending_token_text ++ d ∷ []) b)
        | inr e ↦ rw e refl
      ]

  pub on_events-terminal :
      (es : List Fields) (r : Running P)
      → (on_events P tick es r).terminal_type ≡ terminal_after r.terminal_type es
  unfolding on_events on_event yield_event
  on_events-terminal [] r = refl
  on_events-terminal (e ∷ es) r =
      let noted : Running P = record r { terminal_type = note_terminal P tick e r.terminal_type } in
      on_events-terminal es (on_event P tick e r)
      ∙ ap (λ o. terminal_after o es) (take_event-terminal (token_delta P tick e) e noted)

  -- No event is an error, and one says that the provider is done.
  abbrev pub is_complete : List Fields → Bool
  is_complete es = not (any (is_type P tick "error") es) && any (is_type P tick "done") es

  terminal_after-error :
      (es : List Fields) → is_done P tick (terminal_after (some "error") es) ≡ false
  terminal_after-error [] = refl
  terminal_after-error (e ∷ es) = elim (Bool-cases (is_type P tick "error" e)) [
    | inl q ↦ rw q (terminal_after-error es)
    | inr q ↦ elim (Bool-cases (is_type P tick "done" e)) [
      | inl d ↦ rw (q, d) (terminal_after-error es)
      | inr d ↦ rw (q, d) (terminal_after-error es)
    ]
  ]

  terminal_after-done :
      (es : List Fields)
      → is_done P tick (terminal_after (some "done") es) ≡ not (any (is_type P tick "error") es)
  terminal_after-done [] = refl
  terminal_after-done (e ∷ es) = elim (Bool-cases (is_type P tick "error" e)) [
    | inl q ↦ rw q (terminal_after-error es)
    | inr q ↦ elim (Bool-cases (is_type P tick "done" e)) [
      | inl d ↦ rw (q, d) (terminal_after-done es)
      | inr d ↦ rw (q, d) (terminal_after-done es)
    ]
  ]

  pub terminal_after-is_complete :
      (es : List Fields) → is_done P tick (terminal_after none es) ≡ is_complete es
  terminal_after-is_complete [] = refl
  terminal_after-is_complete (e ∷ es) = elim (Bool-cases (is_type P tick "error" e)) [
    | inl q ↦ rw q (terminal_after-error es)
    | inr q ↦ elim (Bool-cases (is_type P tick "done" e)) [
      | inl d ↦
          rw (q, d) (terminal_after-done es ∙ and_true (not (any (is_type P tick "error") es)))
      | inr d ↦ rw (q, d) (terminal_after-is_complete es)
    ]
  ]
    where
      and_true : (b : Bool) → b ≡ (b && true)
      and_true true = refl
      and_true false = refl
