-- ===== src/Cortex/Runtime.antt =====
-- agent/agent_cortex/runtime.py: `ProviderRuntime.run`, which turns a provider's process into a
-- stream of events.
--
-- A process is the lines of its output, each decoded and stripped, and how the reading of it ends:
-- with the process' exit code and the end of its error output, with an exception, or with the
-- cancellation of the task. An exception is its text. A consumer that closes the generator early is
-- not modelled. The provider is an interface, whose methods change its state `S`.
pub mod Ending
pub mod Events
use swarmdeck.Prelude.{
  ℕ, suc, ◌+◌, ◌-◌, String, Bool, true, false, ◌||◌, Option, none, some, List, [], ◌∷◌, ◌++◌, ltb,
  str_eq, if◌then◌else◌, length, Outcome, raises, returns,
}
use swarmdeck.Prelude.Int.{ℤ}
use swarmdeck.Prelude.Json.{Json, Fields, null, bool, num, str, arr, obj, end, field, field?}

-- `TERMINAL_EVENT_TYPES`
abbrev pub is_terminal_type : String → Bool
is_terminal_type t = str_eq t "done" || str_eq t "error"

-- `NORMALIZED_EVENT_TYPES`
abbrev pub is_normalized_type : String → Bool
is_normalized_type t =
    str_eq t "init"
    || str_eq t "token"
    || str_eq t "tool_call"
    || str_eq t "tool_output"
    || is_terminal_type t

-- `v in types`, where `test` is the set of texts: a list and an object have no hash.
abbrev pub member : (String → Bool) → Option Json → Outcome String Bool
member test none = returns false
member test (some null) = returns false
member test (some (bool b)) = returns false
member test (some (num f)) = returns false
member test (some (str t)) = returns (test t)
member test (some (arr vs)) = raises "unhashable type: 'list'"
member test (some (obj fs)) = raises "unhashable type: 'dict'"

unfoldable pub terminal_type : Option Json → Outcome String Bool
terminal_type o = member is_terminal_type o

-- `event.get("type") in TERMINAL_EVENT_TYPES`
abbrev pub is_terminal : Fields → Outcome String Bool
is_terminal event = terminal_type (field? "type" event)

abbrev pub error_event : String → Fields
error_event text = field "type" (str "error") (field "error" (str text) end)

-- `if not event`: None and the empty dict.
abbrev pub nonempty : Option Fields → Option Fields
nonempty none = none
nonempty (some end) = none
nonempty (some (field k v fs)) = some (field k v fs)

pub data End : Type 0 where
  exits : ℤ → String → End
  fails : String → End
  cancelled : End

pub record Process : Type 0 where
  pub lines : List String
  pub ending : End

-- The methods of a provider; `finish_event` may be missing.
pub record Provider (S : Type 0) : Type 0 where
  pub start : S → Outcome String Process × S
  pub parse_event : S → String → Outcome String (Option Fields) × S
  pub finish_event : Option (S → ℤ → String → Outcome String (Option Fields))
  -- `f"provider exited with status {code}"`
  pub exit_text : ℤ → String

-- What one line brings: nothing, an event and whether it is terminal, or an exception.
pub data Heard : Type 0 where
  quiet : Heard
  sends : Fields → Bool → Heard
  breaks : String → Heard

abbrev pub sent_event : Fields → Outcome String Bool → Heard
sent_event event (raises x) = breaks x
sent_event event (returns t) = sends event t

abbrev pub heard_event : Option Fields → Heard
heard_event none = quiet
heard_event (some event) = sent_event event (is_terminal event)

abbrev pub heard : Outcome String (Option Fields) → Heard
heard (raises x) = breaks x
heard (returns o) = heard_event (nonempty o)

-- The stream after a line, where `rest t` is what follows if a terminal event was sent or `t`.
abbrev pub after : Heard → (Bool → List Fields) → List Fields
after quiet rest = rest false
after (sends event t) rest = event ∷ rest t
after (breaks x) rest = error_event x ∷ []

module _ {S : Type 0} (provider : Provider S) where
  -- `stderr_text or f"provider exited with status {return_code}"`
  abbrev pub detail : ℤ → String → String
  detail code stderr = if str_eq stderr "" then provider.exit_text code else stderr

  -- The event of `finish_event`, and the error behind it if it is not terminal.
  abbrev pub finished : ℤ → String → Heard → List Fields
  finished code stderr quiet = error_event (detail code stderr) ∷ []
  finished code stderr (sends event true) = event ∷ []
  finished code stderr (sends event false) = event ∷ error_event (detail code stderr) ∷ []
  finished code stderr (breaks x) = error_event x ∷ []

  unfoldable pub finish :
      Option (S → ℤ → String → Outcome String (Option Fields)) → ℤ → String → S → List Fields
  finish none code stderr s = finished code stderr quiet
  finish (some f) code stderr s = finished code stderr (heard (f s code stderr))

  -- How the stream ends, where `sent` says whether a terminal event was sent.
  unfoldable pub close : End → Bool → S → List Fields
  unfolding finish
  close (exits code stderr) sent s = if sent then [] else finish provider.finish_event code stderr s
  close (fails x) sent s = error_event x ∷ []
  close cancelled sent s = []

  unfoldable pub hear : S → String → Heard × S
  hear s line =
      if str_eq line ""
      then (quiet, s)
      else (heard (provider.parse_event s line).0, (provider.parse_event s line).1)

  -- The loop over the lines, and what follows it.
  unfoldable pub read : List String → End → Bool → S → List Fields
  unfolding close hear
  read [] ending sent s = close ending sent s
  read (line ∷ lines) ending sent s =
      after (hear s line).0 (λ t. read lines ending (t || sent) (hear s line).1)

  abbrev pub started : Outcome String Process → S → List Fields
  started (raises x) s = error_event x ∷ []
  started (returns process) s = read process.lines process.ending false s

  unfoldable pub run : S → List Fields
  run s = started (provider.start s).0 (provider.start s).1
