-- ===== src/Cortex/OpenCode/Answers.antt =====
-- agent/agent_cortex/providers.py: the closing event of `OpenCodeProvider` against the tokens that it
-- sent.
use swarmdeck.Prelude.{
  String, Bool, true, false, ◌||◌, ◌≡◌, refl, sym, ap, subst, ◌∙◌, List, [], ◌∷◌, ◌++◌, str_eq,
  Outcome, raises, returns, Bool-cases, inl, inr, append_assoc, append-nil, All,
}
use swarmdeck.Prelude.Int.{pos, eqb_ℤ}
use swarmdeck.Prelude.Text.{join}
use swarmdeck.Prelude.Json.{get, Fields, str}
use swarmdeck.Cortex.Runtime.{
  Process, Provider, End, exits, fails, cancelled, Heard, quiet, sends, breaks, error_event, hear,
  read, after, close, finish, started, run, terminal_type,
}
use swarmdeck.Cortex.OpenCode.{
  Library, OpenCode, ProviderRequest, open_code, start, parse_event, exit_error, command_of, reset,
}
use swarmdeck.Cortex.OpenCode.Parsing.{delta_of, is_done, Kept, heard-Kept, parse_value-Gave}

abbrev pub deltas : List Fields → List String
deltas [] = []
deltas (event ∷ events) = delta_of event ++ deltas events

-- A "done" event has the response `text`.
abbrev pub IsAnswer : String → Fields → Type 0
IsAnswer text event = is_done event ≡ true → get "response" event ≡ str text

-- What the parts gain by the events, which are not "done".
abbrev pub Answered : OpenCode → List Fields → Type 0
Answered p events = All (IsAnswer (join (p.response_parts ++ deltas events))) events

module _ (library : Library) (available : Bool) (request : ProviderRequest) where
  abbrev provider : Provider OpenCode
  provider = open_code library available request

  hear-Kept :
      (p : OpenCode) (line : String) → Kept (hear provider p line).0 p (hear provider p line).1
  unfolding hear
  hear-Kept p line = elim (Bool-cases (str_eq line "")) [
    | inl q ↦ rw q refl
    | inr q ↦ rw q (
        heard-Kept (parse_event library p line).0 p (parse_event library p line).1
          (parse_value-Gave library (library.loads line) p))
  ]

  error_event-Answered : (p : OpenCode) (x : String) → Answered p (error_event x ∷ [])
  error_event-Answered p x = (cc, tt)

  close-Answered :
      (ending : End) (sent : Bool) (p : OpenCode) → Answered p (close provider ending sent p)
  unfolding close finish terminal_type
  close-Answered (exits code stderr) true p = tt
  close-Answered (exits code stderr) false p = elim (Bool-cases (eqb_ℤ code (pos 0))) [
    | inl q ↦ rw q ((λ d. ap (λ ts. str (join ts)) (sym (append-nil p.response_parts))), tt)
    | inr q ↦ rw q (error_event-Answered p (exit_error library code stderr))
  ]
  close-Answered (fails x) sent p = error_event-Answered p x
  close-Answered cancelled sent p = tt

  after-Answered :
      (h : Heard) (p q : OpenCode) (rest : Bool → List Fields)
      → Kept h p q
      → ((t : Bool) → Answered q (rest t))
      → Answered p (after h rest)
  after-Answered quiet p q rest k answered = rw (sym k) (answered false)
  after-Answered (sends event t) p q rest k answered = (
    (λ d. let shut : is_done event ≡ false = k.0 in cc),
    subst (λ ts. All (IsAnswer (join ts)) (rest t))
        (ap (λ ts. ts ++ deltas (rest t)) k.1
          ∙ append_assoc p.response_parts (delta_of event) (deltas (rest t)))
        (answered t),
  )
  after-Answered (breaks x) p q rest k answered = error_event-Answered p x

  read-Answered :
      (lines : List String) (ending : End) (sent : Bool) (p : OpenCode)
      → Answered p (read provider lines ending sent p)
  unfolding read
  read-Answered [] ending sent p = close-Answered ending sent p
  read-Answered (line ∷ lines) ending sent p =
      after-Answered (hear provider p line).0 p (hear provider p line).1
        (λ t. read provider lines ending (t || sent) (hear provider p line).1) (hear-Kept p line)
        (λ t. read-Answered lines ending (t || sent) (hear provider p line).1)

  started-Answered : (o : Outcome String Process) (p : OpenCode) → Answered p (started provider o p)
  started-Answered (raises x) p = error_event-Answered p x
  started-Answered (returns process) p = read-Answered process.lines process.ending false p

-- In every run of the provider, whatever runs it has seen before, a "done" event has as its response
-- the texts of that run's token events, in order, with nothing lost and nothing kept from an
-- earlier run.
pub run-Answered :
    (library : Library) (available : Bool) (request : ProviderRequest) (p : OpenCode)
    → All
        (IsAnswer (join (deltas (run (open_code library available request) p))))
        (run (open_code library available request) p)
unfolding run start
run-Answered library true request p =
    started-Answered library true request (library.spawn (command_of request p) request.workspace)
      (reset request p)
run-Answered library false request p =
    error_event-Answered library false request (reset request p)
      "OpenCode is unavailable; set CORTEX_OPENCODE_COMMAND to its executable"
