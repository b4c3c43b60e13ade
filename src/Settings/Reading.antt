-- ===== src/Settings/Reading.antt =====
-- config/settings.py: what Python makes of a value that `json.loads` or a request hands on.
use Prim.Native.Char.{Char}
use swarmdeck.Prelude.{ℕ, String, Bool, true, false, Option, none, some, Outcome, raises, returns}
use swarmdeck.Prelude.Int.{ℤ, pos}
use swarmdeck.Prelude.Float.{Float, fin, nan, inf, neg_inf, min_float, max_float}
use swarmdeck.Prelude.Rounding.{trunc, round_cents}
use swarmdeck.Prelude.Text.{strip, take_text}
use swarmdeck.Prelude.Json.{Json, Fields, null, bool, num, str, arr, obj, end, to_float}

pub record Python : Type 0 where
  -- `c.isspace()` and `c.isdigit()`
  pub is_space : Char → Bool
  pub is_digit : Char → Bool
  -- `float(text)` and `int(text)`; `none` is a ValueError.
  pub read_float : String → Option Float
  pub read_int : String → Option ℤ
  -- `str(v)` of a value that is no text
  pub shown : Json → String

-- `raw if isinstance(raw, dict) else {}`
abbrev pub fields_of : Json → Fields
fields_of (obj fs) = fs
fields_of v = end

-- `max(low, min(high, x))`: Python keeps `high` where x is nan.
abbrev pub bounded : Float → Float → Float → Float
bounded low high x = max_float low (min_float high x)

-- `round(x, 2)`
unfoldable pub round2 : Float → Float
unfolding round_cents
round2 (fin n) = fin (round_cents n)
round2 x = x

-- `int(x)` of a float that is finite.
abbrev pub whole : Float → ℤ
whole (fin n) = trunc n
whole x = pos 0

-- What `int` raises: what `except (TypeError, ValueError)` catches, and what it does not.
pub data IntError : Type 0 where
  refused : IntError
  overflow_error : IntError

abbrev pub found : Option ℤ → Outcome IntError ℤ
found none = raises refused
found (some n) = returns n

module _ (python : Python) where
  -- `int(v)`
  abbrev pub int_of : Json → Outcome IntError ℤ
  int_of null = raises refused
  int_of (bool true) = returns (pos 1)
  int_of (bool false) = returns (pos 0)
  int_of (num (fin n)) = returns (trunc n)
  int_of (num nan) = raises refused
  int_of (num inf) = raises overflow_error
  int_of (num neg_inf) = raises overflow_error
  int_of (str s) = found (python.read_int s)
  int_of (arr vs) = raises refused
  int_of (obj fs) = raises refused

  -- `float(v)`
  abbrev pub float_of : Json → Option Float
  float_of v = to_float python.read_float v

  -- `str(v)`
  abbrev pub text_of : Json → String
  text_of (str s) = s
  text_of v = python.shown v

  -- `str(v).strip()`
  abbrev pub stripped : Json → String
  stripped v = strip python.is_space (text_of v)

  -- `str(v).strip()[:n]`
  abbrev pub name_of : ℕ → Json → String
  name_of n v = take_text n (stripped v)
