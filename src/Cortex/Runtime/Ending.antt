-- ===== src/Cortex/Runtime/Ending.antt =====
-- agent/agent_cortex/runtime.py: how the stream of `ProviderRuntime.run` ends.
use swarmdeck.Prelude.{
  String, Bool, true, false, ◌||◌, ◌≡◌, refl, ap, Option, none, some, List, [], ◌∷◌, any, Outcome,
  raises, returns, Bool-cases, str_eq, inl, inr,
}
use mathlib.Core.Bool.{or-true}
use swarmdeck.Prelude.Int.{ℤ}
use swarmdeck.Prelude.Json.{Fields}
use swarmdeck.Cortex.Runtime.{
  Provider, detail, terminal_type, Process, End, exits, fails, cancelled, Heard, quiet, sends,
  breaks, is_terminal, heard, heard_event, sent_event, error_event, nonempty, finished, finish,
  close, hear, read, run, started, after,
}

unfoldable pub ends : Outcome String Bool → Bool
ends (raises x) = false
ends (returns t) = t

abbrev pub is_last : Fields → Bool
is_last event = ends (is_terminal event)

-- The flag of a sent event says whether it is terminal.
abbrev pub IsFlagged : Heard → Type 0
IsFlagged quiet = Unit
IsFlagged (sends event t) = is_last event ≡ t
IsFlagged (breaks x) = Unit

sent_event-IsFlagged :
    (event : Fields) (r : Outcome String Bool)
    → is_terminal event ≡ r
    → IsFlagged (sent_event event r)
unfolding ends
sent_event-IsFlagged event (raises x) d = tt
sent_event-IsFlagged event (returns t) d = ap ends d

heard_event-IsFlagged : (o : Option Fields) → IsFlagged (heard_event o)
heard_event-IsFlagged none = tt
heard_event-IsFlagged (some event) = sent_event-IsFlagged event (is_terminal event) refl

heard-IsFlagged : (r : Outcome String (Option Fields)) → IsFlagged (heard r)
heard-IsFlagged (raises x) = tt
heard-IsFlagged (returns o) = heard_event-IsFlagged (nonempty o)

error_event-is_last : (x : String) → is_last (error_event x) ≡ true
unfolding ends terminal_type
error_event-is_last x = refl

module _ {S : Type 0} (provider : Provider S) where
  finished-ends :
      (code : ℤ) (stderr : String) (h : Heard)
      → IsFlagged h
      → any is_last (finished provider code stderr h) ≡ true
  finished-ends code stderr quiet f = rw (error_event-is_last (detail provider code stderr)) refl
  finished-ends code stderr (sends event true) f = rw f refl
  finished-ends code stderr (sends event false) f =
      rw (f, error_event-is_last (detail provider code stderr)) refl
  finished-ends code stderr (breaks x) f = rw (error_event-is_last x) refl

  finish-ends :
      (o : Option (S → ℤ → String → Outcome String (Option Fields))) (code : ℤ) (stderr : String)
      (s : S)
      → any is_last (finish provider o code stderr s) ≡ true
  unfolding finish
  finish-ends none code stderr s = finished-ends code stderr quiet tt
  finish-ends (some f) code stderr s =
      finished-ends code stderr (heard (f s code stderr)) (heard-IsFlagged (f s code stderr))

  close-ends :
      (ending : End) (sent : Bool) (s : S)
      → ¬ (ending ≡ cancelled)
      → (sent || any is_last (close provider ending sent s)) ≡ true
  unfolding close
  close-ends (exits code stderr) true s h = refl
  close-ends (exits code stderr) false s h = finish-ends provider.finish_event code stderr s
  close-ends (fails x) sent s h = rw (error_event-is_last x) (or-true sent)
  close-ends cancelled sent s h = absurd (h refl)

  after-ends :
      (sent : Bool) (h : Heard) (rest : Bool → List Fields)
      → IsFlagged h
      → ((t : Bool) → ((t || sent) || any is_last (rest t)) ≡ true)
      → (sent || any is_last (after h rest)) ≡ true
  after-ends sent quiet rest f ends_later = ends_later false
  after-ends sent (sends event true) rest f ends_later = rw f (or-true sent)
  after-ends sent (sends event false) rest f ends_later = rw f (ends_later false)
  after-ends sent (breaks x) rest f ends_later = rw (error_event-is_last x) (or-true sent)

  hear-IsFlagged : (s : S) (line : String) → IsFlagged (hear provider s line).0
  unfolding hear
  hear-IsFlagged s line = elim (Bool-cases (str_eq line "")) [
    | inl q ↦ rw q tt
    | inr q ↦ rw q (heard-IsFlagged (provider.parse_event s line).0)
  ]

  read-ends :
      (lines : List String) (ending : End) (sent : Bool) (s : S)
      → ¬ (ending ≡ cancelled)
      → (sent || any is_last (read provider lines ending sent s)) ≡ true
  unfolding read
  read-ends [] ending sent s h = close-ends ending sent s h
  read-ends (line ∷ lines) ending sent s h =
      after-ends sent (hear provider s line).0
        (λ t. read provider lines ending (t || sent) (hear provider s line).1)
        (hear-IsFlagged s line) (λ t. read-ends lines ending (t || sent) (hear provider s line).1 h)

  -- The task was cancelled while the process ran.
  abbrev pub IsCancelled : Outcome String Process → Type 0
  IsCancelled (raises x) = ⊥
  IsCancelled (returns process) = process.ending ≡ cancelled

  started-ends :
      (o : Outcome String Process) (s : S)
      → ¬ IsCancelled o
      → any is_last (started provider o s) ≡ true
  started-ends (raises x) s h = rw (error_event-is_last x) refl
  started-ends (returns process) s h = read-ends process.lines process.ending false s h

  -- Whatever the provider and the output of its process, a run that is not cancelled sends a "done"
  -- or an "error" event: when the process cannot be started, when a line or the reading fails, when
  -- the provider's own closing event fails, is missing or is of another type.
  pub run-Ends : (s : S) → ¬ IsCancelled (provider.start s).0 → any is_last (run provider s) ≡ true
  unfolding run
  run-Ends s h = started-ends (provider.start s).0 (provider.start s).1 h
