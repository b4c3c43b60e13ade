-- ===== src/Keyframe/Words.antt =====
-- adapters/protocol/swarmdeck_protocol/keyframe.py: numbers on the wire, and JSON integers.
use swarmdeck.Prelude.{ℕ, suc, ◌+◌, ◌-◌, ◌*◌, ◌/◌, ◌%◌, ◌≤◌, ◌<◌, ◌≡◌, arith, ltb, if◌then◌else◌}
use swarmdeck.Prelude.Int.{ℤ, pos, negsuc, abs}
use swarmdeck.Prelude.Rounding.{trunc}
use swarmdeck.Keyframe.{int16_limit}

-- An `int16` as the number that its two bytes make.
unfoldable pub word16 : ℤ → ℕ
word16 (pos n) = n % 65536
word16 (negsuc n) = 65535 - n % 65536

unfoldable pub signed16 : ℕ → ℤ
signed16 w = if ltb w 32768 then pos w else negsuc (65535 - w)

abbrev pub low : ℕ → ℕ
low w = w % 256

abbrev pub high : ℕ → ℕ
high w = w / 256 % 256

pub signed16-word16 :
    (z : ℤ) → abs z ≤ int16_limit → signed16 (low (word16 z) + 256 * high (word16 z)) ≡ z
unfolding signed16 word16
signed16-word16 (pos n) h = ground arith
signed16-word16 (negsuc n) h = ground arith

-- The little-endian bytes of a `uint32`.
pub word32 :
    (n : ℕ)
    → n < 4294967296
    → n % 256 + 256 * (n / 256 % 256) + 65536 * (n / 65536 % 256) + 16777216 * (n / 16777216 % 256)
      ≡ n
word32 n h = omega arith

-- A JSON integer, in thousandths, and `int(v)` of a finite number, which cuts the fraction off.
unfoldable pub scaled : ℤ → ℤ
scaled (pos n) = pos (1000 * n)
scaled (negsuc n) = negsuc (1000 * n + 999)

pub trunc-scaled : (z : ℤ) → trunc (scaled z) ≡ z
unfolding trunc scaled
trunc-scaled (pos n) = ground arith
trunc-scaled (negsuc n) = ground (arith, whole n)
  where
    whole : (n : ℕ) → (suc (1000 * n + 999)) / 1000 ≡ suc n
    whole n = omega arith
