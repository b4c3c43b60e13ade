-- ===== src/Prelude/Rounding.antt =====
-- Rounding of a quotient, as Python's `round` and numpy's `rint` do it.
use Prim.Native.Nat.{ℕ, suc, ◌+◌, ◌*◌, ◌/◌, ◌%◌}
use swarmdeck.Prelude.Tests.{ltb, ◌==◌, if◌then◌else◌}
use swarmdeck.Prelude.Int.{ℤ, pos, negsuc, neg, times}

-- a / s, rounded to the nearest integer, and to an even one from the middle.
unfoldable pub round_even : ℕ → ℕ → ℕ
round_even a s =
    let q = a / s in
    let r = a % s in
    if ltb (2 * r) s then q else if ltb s (2 * r) then q + 1 else if q % 2 == 0 then q else q + 1

-- `round(v / s)`, and numpy's `rint`: to the nearest integer, an even one from the middle.
unfoldable pub rint : ℤ → ℕ → ℤ
rint (pos a) s = pos (round_even a s)
rint (negsuc a) s = neg (round_even (suc a) s)

-- `int(v)` of a count of thousandths: the fraction is cut off, towards zero.
unfoldable pub trunc : ℤ → ℤ
trunc (pos n) = pos (n / 1000)
trunc (negsuc n) = neg (suc n / 1000)

-- `round(v, 2)` of a count of thousandths.
unfoldable pub round_cents : ℤ → ℤ
unfolding rint
round_cents v = times (rint v 10) 10
