-- ===== src/Cortex/Runtime/Events.antt =====
-- agent/agent_cortex/runtime.py: what every event of `ProviderRuntime.run` is like.
use swarmdeck.Prelude.{
  String, Bool, true, false, ◌||◌, Option, none, some, List, [], ◌∷◌, Outcome, raises, returns,
  Bool-cases, inl, inr, All, str_eq,
}
use swarmdeck.Prelude.Int.{ℤ}
use swarmdeck.Prelude.Json.{Fields, str, end, field, field?}
use swarmdeck.Cortex.Runtime.{
  Process, Provider, End, exits, fails, cancelled, Heard, quiet, sends, breaks, heard, sent_event,
  is_terminal, error_event, detail, finished, finish, close, hear, read, run, started, after,
  is_normalized_type,
}

-- The type of the event is one of the six of NORMALIZED_EVENT_TYPES.
abbrev pub is_normalized : Fields → Bool
is_normalized event = elim (field? "type" event) [ some (str t) ↦ is_normalized_type t | _ ↦ false ]

module _ (Q : Fields → Type 0) where
  -- The event that a method returns, if it returns one.
  abbrev pub Gives : Outcome String (Option Fields) → Type 0
  Gives (raises x) = Unit
  Gives (returns none) = Unit
  Gives (returns (some event)) = Q event

  abbrev pub FinishGives :
      {S : Type 0} → Option (S → ℤ → String → Outcome String (Option Fields)) → Type 0
  FinishGives none = Unit
  FinishGives (some f) = (s : _) (code : ℤ) (stderr : String) → Gives (f s code stderr)

  abbrev Hears : Heard → Type 0
  Hears quiet = Unit
  Hears (sends event t) = Q event
  Hears (breaks x) = Unit

  sent_event-Hears :
      (event : Fields) (r : Outcome String Bool) → Q event → Hears (sent_event event r)
  sent_event-Hears event (raises x) q = tt
  sent_event-Hears event (returns t) q = q

  heard-Hears : (r : Outcome String (Option Fields)) → Gives r → Hears (heard r)
  heard-Hears (raises x) g = tt
  heard-Hears (returns none) g = tt
  heard-Hears (returns (some end)) g = tt
  heard-Hears (returns (some (field k v fs))) g =
      sent_event-Hears (field k v fs) (is_terminal (field k v fs)) g

  module _ (error_event-Q : (x : String) → Q (error_event x)) where
    after-All :
        (h : Heard) (rest : Bool → List Fields)
        → Hears h
        → ((t : Bool) → All Q (rest t))
        → All Q (after h rest)
    after-All quiet rest q a = a false
    after-All (sends event t) rest q a = (q, a t)
    after-All (breaks x) rest q a = (error_event-Q x, tt)

    module _ {S : Type 0} (provider : Provider S)
        (parse : (s : S) (line : String) → Gives (provider.parse_event s line).0)
        (finishes : FinishGives provider.finish_event) where
      finished-All :
          (code : ℤ) (stderr : String) (h : Heard)
          → Hears h
          → All Q (finished provider code stderr h)
      finished-All code stderr quiet q = (error_event-Q (detail provider code stderr), tt)
      finished-All code stderr (sends event true) q = (q, tt)
      finished-All code stderr (sends event false) q =
          (q, (error_event-Q (detail provider code stderr), tt))
      finished-All code stderr (breaks x) q = (error_event-Q x, tt)

      finish-All :
          (o : Option (S → ℤ → String → Outcome String (Option Fields))) (code : ℤ)
          (stderr : String) (s : S)
          → FinishGives o
          → All Q (finish provider o code stderr s)
      unfolding finish
      finish-All none code stderr s g = finished-All code stderr quiet tt
      finish-All (some f) code stderr s g =
          finished-All code stderr (heard (f s code stderr))
            (heard-Hears (f s code stderr) (g s code stderr))

      close-All : (ending : End) (sent : Bool) (s : S) → All Q (close provider ending sent s)
      unfolding close
      close-All (exits code stderr) true s = tt
      close-All (exits code stderr) false s =
          finish-All provider.finish_event code stderr s finishes
      close-All (fails x) sent s = (error_event-Q x, tt)
      close-All cancelled sent s = tt

      hear-Hears : (s : S) (line : String) → Hears (hear provider s line).0
      unfolding hear
      hear-Hears s line = elim (Bool-cases (str_eq line "")) [
        | inl q ↦ rw q tt
        | inr q ↦ rw q (heard-Hears (provider.parse_event s line).0 (parse s line))
      ]

      read-All :
          (lines : List String) (ending : End) (sent : Bool) (s : S)
          → All Q (read provider lines ending sent s)
      unfolding read
      read-All [] ending sent s = close-All ending sent s
      read-All (line ∷ lines) ending sent s =
          after-All (hear provider s line).0
            (λ t. read provider lines ending (t || sent) (hear provider s line).1)
            (hear-Hears s line) (λ t. read-All lines ending (t || sent) (hear provider s line).1)

      started-All : (o : Outcome String Process) (s : S) → All Q (started provider o s)
      started-All (raises x) s = (error_event-Q x, tt)
      started-All (returns process) s = read-All process.lines process.ending false s

      -- What holds of each event that the provider's methods give and of the error events holds of
      -- the whole stream.
      pub run-All : (s : S) → All Q (run provider s)
      unfolding run
      run-All s = started-All (provider.start s).0 (provider.start s).1
