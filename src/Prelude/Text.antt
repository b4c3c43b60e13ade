-- ===== src/Prelude/Text.antt =====
-- Texts by characters: Python counts and slices characters.
use Prim.Native.Nat.{ℕ, zero, suc, ◌/◌, ◌%◌}
use Prim.Native.Char.{Char}
use Prim.Native.String.{String, [] as empty, ◌∷◌ as ◌∷ᶜ◌, ◌++◌}
use mathlib.Core.Bool.{Bool, true, false, not, ◌&&◌, ◌||◌}
use mathlib.Core.Option.{Option, none, some}
use mathlib.Core.List.{List, [], ◌∷◌}
use text.Mathlib.Text.{◌==◌ as str_eq}
use swarmdeck.Prelude.Tests.{if◌then◌else◌, ltb}

-- `s[:n]`
unfoldable pub take_text : ℕ → String → String
take_text zero s = empty
take_text (suc n) empty = empty
take_text (suc n) (c ∷ᶜ s) = c ∷ᶜ take_text n s

-- `len(s)`
unfoldable pub length_text : String → ℕ
length_text empty = 0
length_text (c ∷ᶜ s) = suc (length_text s)

-- `c in s`, for a character as a text of its own.
abbrev pub has_char : String → String → Bool
has_char c empty = false
has_char c (d ∷ᶜ s) = str_eq c (d ∷ᶜ empty) || has_char c s

-- `set(s) <= set(allowed)`
unfoldable pub only_chars : String → String → Bool
only_chars allowed empty = true
only_chars allowed (c ∷ᶜ s) = has_char (c ∷ᶜ empty) allowed && only_chars allowed s

-- `"".join(ts)`
abbrev pub join : List String → String
join [] = ""
join (t ∷ ts) = t ++ join ts

-- `s.strip()`, where `is_space` says which characters are white.
unfoldable pub lstrip : (Char → Bool) → String → String
lstrip is_space empty = empty
lstrip is_space (c ∷ᶜ s) = let rest = lstrip is_space s in if is_space c then rest else c ∷ᶜ s

unfoldable pub rstrip : (Char → Bool) → String → String
rstrip is_space empty = empty
rstrip is_space (c ∷ᶜ s) =
    let rest = rstrip is_space s in if is_space c && str_eq rest empty then empty else c ∷ᶜ rest

abbrev pub strip : (Char → Bool) → String → String
strip is_space s = rstrip is_space (lstrip is_space s)

-- `s.isdigit()`, where `is_digit` says which characters are digits.
abbrev pub all_chars : (Char → Bool) → String → Bool
all_chars test empty = true
all_chars test (c ∷ᶜ s) = test c && all_chars test s

abbrev pub is_digits : (Char → Bool) → String → Bool
is_digits is_digit s = not (str_eq s empty) && all_chars is_digit s

-- `s.rsplit(sep, 1)` for a separator that is there, of one character.
unfoldable pub rsplit : String → String → Option (String × String)
rsplit sep empty = none
rsplit sep (c ∷ᶜ s) = elim (rsplit sep s) [
  | some (before, after) ↦ some (c ∷ᶜ before, after)
  | none ↦ if str_eq (c ∷ᶜ empty) sep then some (empty, s) else none
]

-- `str(n)` of a natural number.
abbrev digits : List String
digits = "0" ∷ "1" ∷ "2" ∷ "3" ∷ "4" ∷ "5" ∷ "6" ∷ "7" ∷ "8" ∷ "9" ∷ []

digit_in : List String → ℕ → String
digit_in [] n = ""
digit_in (d ∷ ds) zero = d
digit_in (d ∷ ds) (suc n) = digit_in ds n

decimal_from : ℕ → ℕ → String
unfolding digit_in
decimal_from zero n = ""
decimal_from (suc fuel) n =
    let rest = decimal_from fuel (n / 10) in
    if ltb n 10 then digit_in digits n else rest ++ digit_in digits (n % 10)

unfoldable pub decimal : ℕ → String
unfolding decimal_from
decimal n = decimal_from (suc n) n
