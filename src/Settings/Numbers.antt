-- ===== src/Settings/Numbers.antt =====
-- config/settings.py: the numbers that validation leaves.
use swarmdeck.Prelude.{
  ℕ, suc, ◌+◌, ◌*◌, ◌/◌, ◌≤◌, ◌≡◌, refl, true, false, ◌⊎◌, inl, inr, arith, Bool-cases, Option,
  none, some, Outcome, raises, returns, ltb,
}
use swarmdeck.Prelude.Int.{ℤ, pos, negsuc, times}
use swarmdeck.Prelude.Float.{Float, fin, nan, inf, neg_inf, ltb_float, max_float}
use swarmdeck.Prelude.Rounding.{trunc, round_cents, rint, round_even}
use swarmdeck.Settings.Reading.{bounded, round2, IntError, refused, overflow_error}
use swarmdeck.Settings.Validation.{seconds_of, sensitivity_of, radii_of, count_of}

-- `count_of` returns a count of one to sixteen, unless `int` found an infinity.
pub count_of-cases :
    (o : Outcome IntError ℤ)
    → ((o ≡ raises overflow_error) × (count_of o ≡ raises overflow_error))
      ⊎ ((c : ℕ) × (count_of o ≡ returns (pos c)) × ((1 ≤ c) × (c ≤ 16)))
unfolding count_of
count_of-cases (raises overflow_error) = inl (refl, refl)
count_of-cases (raises refused) = inr (4, refl, omega arith)
count_of-cases (returns (pos n)) = elim (Bool-cases (ltb (n + 0) 16)) [
  | inl a ↦ elim (Bool-cases (ltb 1 (n + 0))) [
    | inl b ↦ inr (n, rw (a, b) refl, ground arith)
    | inr b ↦ inr (1, rw (a, b) refl, omega arith)
  ]
  | inr a ↦ inr (16, rw a refl, omega arith)
]
count_of-cases (returns (negsuc n)) = inr (1, rw (under n, over n) refl, omega arith)
  where
    under : (n : ℕ) → ltb 0 (16 + suc n) ≡ true
    under n = ground arith

    over : (n : ℕ) → ltb (1 + suc n) 0 ≡ false
    over n = ground arith

-- A number between two others, in thousandths.
abbrev pub Between : ℕ → ℕ → Float → Type 0
Between low high x = (n : ℕ) × (x ≡ fin (pos n)) × (low ≤ n) × (n ≤ high)

top : (low high : ℕ) → low ≤ high → Between low high (max_float (fin (pos low)) (fin (pos high)))
top low high h = elim (Bool-cases (ltb (low + 0) (high + 0))) [
  | inl q ↦ rw q (high, refl, h, omega arith)
  | inr q ↦ rw q (low, refl, omega arith, h)
]

above :
    (low high : ℕ) (x : Float)
    → low ≤ high
    → ltb_float x (fin (pos high)) ≡ true
    → Between low high (max_float (fin (pos low)) x)
above low high (fin (pos n)) h q = elim (Bool-cases (ltb (low + 0) (n + 0))) [
  | inl b ↦ rw b (n, refl, ground arith, ground arith)
  | inr b ↦ rw b (low, refl, omega arith, h)
]
above low high (fin (negsuc n)) h q = elim (Bool-cases (ltb (low + suc n) 0)) [
  | inl b ↦ absurd (never low n b)
  | inr b ↦ rw b (low, refl, omega arith, h)
]
  where
    never : (low n : ℕ) → ltb (low + suc n) 0 ≡ true → ⊥
    never low n b = ground arith
above low high nan h q = cc
above low high inf h q = cc
above low high neg_inf h q = (low, refl, omega arith, h)

pub bounded-Between :
    (low high : ℕ) (x : Float)
    → low ≤ high
    → Between low high (bounded (fin (pos low)) (fin (pos high)) x)
bounded-Between low high x h = elim (Bool-cases (ltb_float x (fin (pos high)))) [
  | inl a ↦ rw a (above low high x h a)
  | inr a ↦ rw a (top low high h)
]

-- Rounding to hundredths keeps the order, and what is in hundredths.
round2-pos : (n : ℕ) → round2 (fin (pos n)) ≡ fin (pos (round_even n 10 * 10))
unfolding round2 round_cents rint times
round2-pos n = refl

round_even-le : (a b : ℕ) → a ≤ b → round_even a 10 * 10 ≤ round_even b 10 * 10
unfolding round_even
round_even-le a b h = ground arith

round_even-least : (n low : ℕ) → 10 * low ≤ n → 10 * low ≤ round_even n 10 * 10
unfolding round_even
round_even-least n low h = ground arith

round_even-most : (n high : ℕ) → n ≤ 10 * high → round_even n 10 * 10 ≤ 10 * high
unfolding round_even
round_even-most n high h = ground arith

-- An integer between two others.
abbrev pub Ranged : ℕ → ℕ → ℤ → Type 0
Ranged low high z = (n : ℕ) × (z ≡ pos n) × (low ≤ n) × (n ≤ high)

pub seconds_of-Ranged :
    (low default : ℕ) (o : Option Float)
    → low ≤ default
    → default ≤ 3600
    → Ranged low 3600 (seconds_of low default o)
unfolding seconds_of trunc
seconds_of-Ranged low default none h k = (default, refl, h, k)
seconds_of-Ranged low default (some x) h k =
    let (n, e, above, below) = bounded-Between (1000 * low) 3600000 x (omega arith) in
    rw e (n / 1000, refl, omega arith, omega arith)

pub sensitivity_of-Between : (o : Option Float) → Between 100 1000 (sensitivity_of o)
unfolding sensitivity_of
sensitivity_of-Between none = (550, refl, omega arith, omega arith)
sensitivity_of-Between (some x) =
    let (n, e, above, below) = bounded-Between 100 1000 x (omega arith) in
    rw (e, round2-pos n)
      (round_even n 10 * 10, refl, round_even-least n 10 above, round_even-most n 100 below)

-- The radius of what is asked about is at least that of what is the same object.
pub record AreRadii (radii : Float × Float) : Type 0 where
  pub same : ℕ
  pub ask : ℕ
  pub same_is : radii.0 ≡ fin (pos same)
  pub ask_is : radii.1 ≡ fin (pos ask)
  pub same_least : 50 ≤ same
  pub same_most : same ≤ 5000
  pub ordered : same ≤ ask
  pub ask_most : ask ≤ 10000

rounded-AreRadii :
    (m n : ℕ)
    → 50 ≤ m
    → m ≤ 5000
    → n ≤ 10000
    → AreRadii (round2 (fin (pos m)), round2 (max_float (fin (pos m)) (fin (pos n))))
rounded-AreRadii m n m_least m_most n_most = elim (Bool-cases (ltb (m + 0) (n + 0))) [
  | inl q ↦ rw q (between m n (ground arith) m_least m_most n_most)
  | inr q ↦ rw q (between m m (omega arith) m_least m_most (omega arith))
]
  where
    between :
        (m n : ℕ)
        → m ≤ n
        → 50 ≤ m
        → m ≤ 5000
        → n ≤ 10000
        → AreRadii (round2 (fin (pos m)), round2 (fin (pos n)))
    between m n h m_least m_most n_most = record {
      same = round_even m 10 * 10;
      ask = round_even n 10 * 10;
      same_is = round2-pos m;
      ask_is = round2-pos n;
      same_least = round_even-least m 5 m_least;
      same_most = round_even-most m 500 m_most;
      ordered = round_even-le m n h;
      ask_most = round_even-most n 1000 n_most;
    }

pub radii_of-AreRadii : (s a : Option Float) → AreRadii (radii_of s a)
unfolding radii_of
radii_of-AreRadii none a = record {
  same = 500;
  ask = 1500;
  same_is = refl;
  ask_is = refl;
  same_least = omega arith;
  same_most = omega arith;
  ordered = omega arith;
  ask_most = omega arith;
}
radii_of-AreRadii (some s) none = record {
  same = 500;
  ask = 1500;
  same_is = refl;
  ask_is = refl;
  same_least = omega arith;
  same_most = omega arith;
  ordered = omega arith;
  ask_most = omega arith;
}
radii_of-AreRadii (some s) (some a) =
    let (m, same_is, m_least, m_most) = bounded-Between 50 5000 s (omega arith) in
    let (n, ask_is, n_least, n_most) = bounded-Between 50 10000 a (omega arith) in
    rw (same_is, ask_is) (rounded-AreRadii m n m_least m_most n_most)
