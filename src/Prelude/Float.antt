-- ===== src/Prelude/Float.antt =====
-- Python floats: a finite value counts thousandths, as an integer; nan and the infinities are
-- values of their own. Rounding of binary fractions is not modelled.
use mathlib.Core.Bool.{Bool, true, false, not}
use swarmdeck.Prelude.Tests.{if◌then◌else◌}
use swarmdeck.Prelude.Int.{ℤ, pos, ltb_ℤ}

pub data Float : Type 0 where
  fin : ℤ → Float
  nan inf neg_inf : Float

-- `math.isfinite(v)`
abbrev pub is_finite : Float → Bool
is_finite (fin _) = true
is_finite _ = false

abbrev pub zero_float : Float
zero_float = fin (pos 0)

-- `a < b`: false whenever one of them is nan.
abbrev pub ltb_float : Float → Float → Bool
ltb_float nan b = false
ltb_float a nan = false
ltb_float (fin a) (fin b) = ltb_ℤ a b
ltb_float (fin a) inf = true
ltb_float (fin a) neg_inf = false
ltb_float inf b = false
ltb_float neg_inf neg_inf = false
ltb_float neg_inf b = true

-- `a <= b`: false too whenever one of them is nan.
abbrev pub leb_float : Float → Float → Bool
leb_float nan b = false
leb_float a nan = false
leb_float a b = not (ltb_float b a)

-- `min(a, b)` and `max(a, b)`: Python replaces the first argument only where the test holds.
abbrev pub min_float : Float → Float → Float
min_float a b = if ltb_float b a then b else a

abbrev pub max_float : Float → Float → Float
max_float a b = if ltb_float a b then b else a
