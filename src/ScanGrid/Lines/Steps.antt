-- ===== src/ScanGrid/Lines/Steps.antt =====
-- mapsvc/scan_grid.py: one turn of `_bresenham`'s loop, with the distances that are left.
use swarmdeck.Prelude.{
  ℕ, suc, ◌+◌, ◌*◌, ◌≤◌, ◌≡◌, ap, ◌∙◌, Bool, true, false, arith, Bool-cases, inl, inr, leb, ◌==◌,
}
use swarmdeck.Prelude.Int.{ℤ, pos, negsuc, neg, abs, times, ◌+ℤ◌, ◌-ℤ◌, ltb_ℤ, leb_ℤ, eqb_ℤ, sub_ℕ}
use swarmdeck.ScanGrid.Lines.{sign}

-- `x` is `n` steps of `s` before `x1`.
pub data Ahead : ℤ → ℤ → ℕ → ℤ → Type 0 where
  forth : {x x1 : ℤ} {n : ℕ} → x1 ≡ x +ℤ pos n → Ahead (pos 1) x n x1
  back : {x x1 : ℤ} {n : ℕ} → x ≡ x1 +ℤ pos n → Ahead (negsuc 0) x n x1

far-forth : (x x1 : ℤ) → ltb_ℤ x x1 ≡ true → x1 ≡ x +ℤ pos (abs (x1 -ℤ x))
unfolding ◌+ℤ◌ ◌-ℤ◌
far-forth x x1 q = ground arith

far-back : (x x1 : ℤ) → ltb_ℤ x x1 ≡ false → x ≡ x1 +ℤ pos (abs (x1 -ℤ x))
unfolding ◌+ℤ◌ ◌-ℤ◌
far-back x x1 q = ground arith

pub sign-Ahead : (x x1 : ℤ) → Ahead (sign x x1) x (abs (x1 -ℤ x)) x1
sign-Ahead x x1 = elim (Bool-cases (ltb_ℤ x x1)) [
  | inl q ↦ rw q (forth (far-forth x x1 q))
  | inr q ↦ rw q (back (far-back x x1 q))
]

pub Ahead-eqb : (s x : ℤ) (n : ℕ) (x1 : ℤ) → Ahead s x n x1 → eqb_ℤ x x1 ≡ (n == 0)
unfolding ◌+ℤ◌
Ahead-eqb s x n x1 (forth e) = ground arith
Ahead-eqb s x n x1 (back e) = ground arith

pub Ahead-step : (s x : ℤ) (n : ℕ) (x1 : ℤ) → Ahead s x (suc n) x1 → Ahead s (x +ℤ s) n x1
unfolding ◌+ℤ◌
Ahead-step s x n x1 (forth e) = forth (ground arith)
Ahead-step s x n x1 (back e) = back (ground arith)

pub Ahead-abs : (s x : ℤ) (n : ℕ) (x1 : ℤ) → Ahead s x n x1 → abs (x1 -ℤ x) ≡ n
unfolding ◌+ℤ◌ ◌-ℤ◌
Ahead-abs s x n x1 (forth e) = ground arith
Ahead-abs s x n x1 (back e) = ground arith

-- The error as a difference of two naturals.
pub leb-neg-sub : (d m n : ℕ) → leb_ℤ (neg d) (times (sub_ℕ m n) 2) ≡ leb (2 * n) (2 * m + d)
unfolding times
leb-neg-sub d m n = ground arith

pub leb-sub-pos : (d m n : ℕ) → leb_ℤ (times (sub_ℕ m n) 2) (pos d) ≡ leb (2 * m) (2 * n + d)
unfolding times
leb-sub-pos d m n = ground arith

pub sub-add-neg : (d m n : ℕ) → sub_ℕ m n +ℤ neg d ≡ sub_ℕ m (n + d)
unfolding ◌+ℤ◌
sub-add-neg d m n = ground arith

pub sub-add-pos : (d m n : ℕ) → sub_ℕ m n +ℤ pos d ≡ sub_ℕ (m + d) n
unfolding ◌+ℤ◌
sub-add-pos d m n = ground arith

pub sub-shift : (d m n : ℕ) → sub_ℕ (m + d) (n + d) ≡ sub_ℕ m n
sub-shift d m n = ground arith

pub record Inv (dx dy : ℕ) (sx sy x1 y1 : ℤ) (x y err : ℤ) (m n : ℕ) : Type 0 where
  pub x_ahead : Ahead sx x m x1
  pub y_ahead : Ahead sy y n y1
  pub err_is : err ≡ sub_ℕ (dx + m * dy) (dy + n * dx)
  pub m_below : m ≤ dx
  pub n_below : n ≤ dy

abbrev pub steps_x : ℕ → ℕ → ℕ → ℕ → Bool
steps_x dx dy m n = leb (2 * (dy + n * dx)) (2 * (dx + m * dy) + dy)

abbrev pub steps_y : ℕ → ℕ → ℕ → ℕ → Bool
steps_y dx dy m n = leb (2 * (dx + m * dy)) (2 * (dy + n * dx) + dx)

-- A side that has arrived does not step, and one of the others does.
pub x_arrived : (dx dy n : ℕ) → suc n ≤ dy → steps_x dx dy 0 (suc n) ≡ false
x_arrived dx dy n h = ground arith

pub y_arrived : (dx dy m : ℕ) → suc m ≤ dx → steps_y dx dy (suc m) 0 ≡ false
y_arrived dx dy m h = ground arith

pub one_steps : (dx dy m n : ℕ) → steps_x dx dy m n ≡ false → steps_y dx dy m n ≡ true
one_steps dx dy m n h = ground arith

pub other_steps : (dx dy m n : ℕ) → steps_y dx dy m n ≡ false → steps_x dx dy m n ≡ true
other_steps dx dy m n h = ground arith

shifted : (a b k : ℕ) → a + suc k * b ≡ a + k * b + b
shifted a b k = grind arith

below : {k n : ℕ} → suc k ≤ n → k ≤ n
below h = omega arith

module _ {dx dy : ℕ} {sx sy x1 y1 : ℤ} where
  pub Inv-x :
      {x y err : ℤ} {m n : ℕ}
      → Inv dx dy sx sy x1 y1 x y err (suc m) n
      → Inv dx dy sx sy x1 y1 (x +ℤ sx) y (err +ℤ neg dy) m n
  Inv-x {x = x} {err = err} {m = m} {n = n} i = record {
    x_ahead = Ahead-step sx x m x1 i.x_ahead;
    y_ahead = i.y_ahead;
    err_is =
        ap (λ e. e +ℤ neg dy) i.err_is
        ∙ sub-add-neg dy (dx + suc m * dy) (dy + n * dx)
        ∙ ap (λ a. sub_ℕ a (dy + n * dx + dy)) (shifted dx dy m)
        ∙ sub-shift dy (dx + m * dy) (dy + n * dx);
    m_below = below i.m_below;
    n_below = i.n_below;
  }

  pub Inv-y :
      {x y err : ℤ} {m n : ℕ}
      → Inv dx dy sx sy x1 y1 x y err m (suc n)
      → Inv dx dy sx sy x1 y1 x (y +ℤ sy) (err +ℤ pos dx) m n
  Inv-y {y = y} {err = err} {m = m} {n = n} i = record {
    x_ahead = i.x_ahead;
    y_ahead = Ahead-step sy y n y1 i.y_ahead;
    err_is =
        ap (λ e. e +ℤ pos dx) i.err_is
        ∙ sub-add-pos dx (dx + m * dy) (dy + suc n * dx)
        ∙ ap (λ b. sub_ℕ (dx + m * dy + dx) b) (shifted dy dx n)
        ∙ sub-shift dx (dx + m * dy) (dy + n * dx);
    m_below = i.m_below;
    n_below = below i.n_below;
  }
