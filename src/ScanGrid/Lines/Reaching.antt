-- ===== src/ScanGrid/Lines/Reaching.antt =====
-- mapsvc/scan_grid.py: the loop of `_bresenham` ends, and its cells make a line.
use swarmdeck.Prelude.{
  ℕ, zero, suc, ◌+◌, ◌*◌, ◌≤◌, ◌<◌, ◌≡◌, refl, ap, ◌∙◌, Bool, true, false, ◌&&◌, some, List, [],
  ◌∷◌, arith, Bool-cases, inl, inr, ◌==◌,
}
use swarmdeck.Prelude.Int.{ℤ, pos, neg, abs, ◌+ℤ◌, ◌-ℤ◌, eqb_ℤ, sub_ℕ}
use swarmdeck.ScanGrid.Lines.{
  Cell, Beam, sign, add_if, at_end, moves_x, moves_y, cons, loop, bresenham,
}
use swarmdeck.ScanGrid.Lines.Steps.{
  Ahead, forth, back, sign-Ahead, Ahead-eqb, Ahead-abs, leb-neg-sub, leb-sub-pos, Inv, steps_x,
  steps_y, x_arrived, y_arrived, one_steps, other_steps, Inv-x, Inv-y,
}

-- From `v` to `w` is at most one step, and none away from `v1`.
abbrev pub Nearer : ℤ → ℤ → ℤ → Type 0
Nearer v1 v w = (abs (w -ℤ v) ≤ 1) × (abs (v1 -ℤ w) ≤ abs (v1 -ℤ v))

-- The distance that is left, by rows and columns.
abbrev pub left : ℤ → ℤ → ℤ → ℤ → ℕ
left x1 y1 x y = abs (x1 -ℤ x) + abs (y1 -ℤ y)

-- The cells of a line from (x, y) to (x1, y1), which is none of them: each is next to the one
-- before, on a side or a corner, and nearer to the end.
pub data Line (x1 y1 : ℤ) : ℤ → ℤ → List Cell → Type 0 where
  arrives : {x y : ℤ} → x ≡ x1 → y ≡ y1 → Line x1 y1 x y []
  goes :
      {x y x' y' : ℤ} {cells : List Cell}
      → (eqb_ℤ x x1 && eqb_ℤ y y1) ≡ false
      → Nearer x1 x x'
      → Nearer y1 y y'
      → left x1 y1 x' y' < left x1 y1 x y
      → Line x1 y1 x' y' cells
      → Line x1 y1 x y (record { x = x; y = y } ∷ cells)

Ahead-zero : {s x x1 : ℤ} → Ahead s x 0 x1 → x ≡ x1
unfolding ◌+ℤ◌
Ahead-zero (forth e) = ground arith
Ahead-zero (back e) = ground arith

Nearer-stay : (v1 v : ℤ) → Nearer v1 v v
unfolding ◌-ℤ◌
Nearer-stay v1 v = ground arith

Nearer-step : {s x x1 : ℤ} {m : ℕ} → Ahead s x (suc m) x1 → Nearer x1 x (x +ℤ s)
unfolding ◌+ℤ◌ ◌-ℤ◌
Nearer-step (forth e) = ground arith
Nearer-step (back e) = ground arith

unfinished : (m n : ℕ) → 0 < m + n → (m == 0 && n == 0) ≡ false
unfinished m n h = ground arith

none_left : (a b : ℕ) → suc a + b ≤ 0 → ⊥
none_left a b h = omega arith

module _ (dx dy : ℕ) (sx sy x1 y1 : ℤ) where
  abbrev beam : Beam
  beam = record { dx = pos dx; dy = neg dy; sx = sx; sy = sy; x1 = x1; y1 = y1 }

  abbrev Ready : ℤ → ℤ → ℤ → ℕ → ℕ → Type 0
  Ready = Inv dx dy sx sy x1 y1

  abbrev Reached : ℕ → ℤ → ℤ → ℤ → Type 0
  Reached k x y err =
      (cells : List Cell) × (loop k beam x y err ≡ some cells) × Line x1 y1 x y cells

  end_test : {x y err : ℤ} {m n : ℕ} → Ready x y err m n → at_end beam x y ≡ (m == 0 && n == 0)
  end_test {x = x} {y = y} {m = m} {n = n} i =
      rw (Ahead-eqb sx x m x1 i.x_ahead, Ahead-eqb sy y n y1 i.y_ahead) refl

  left_is : {x y err : ℤ} {m n : ℕ} → Ready x y err m n → left x1 y1 x y ≡ m + n
  left_is {x = x} {y = y} {m = m} {n = n} i =
      rw (Ahead-abs sx x m x1 i.x_ahead, Ahead-abs sy y n y1 i.y_ahead) refl

  ends_there : (k : ℕ) {x y err : ℤ} → Ready x y err 0 0 → Reached k x y err
  unfolding loop
  ends_there zero i =
      ([], rw (end_test i) refl, arrives (Ahead-zero i.x_ahead) (Ahead-zero i.y_ahead))
  ends_there (suc k) i =
      ([], rw (end_test i) refl, arrives (Ahead-zero i.x_ahead) (Ahead-zero i.y_ahead))

  turn :
      (k : ℕ) {x y err : ℤ} {m n : ℕ} (mx my : Bool)
      → Ready x y err m n
      → 0 < m + n
      → steps_x dx dy m n ≡ mx
      → steps_y dx dy m n ≡ my
      → loop (suc k) beam x y err
        ≡ cons
            (record { x = x; y = y })
            (loop k beam
              (add_if mx sx x)
              (add_if my sy y)
              (add_if my (pos dx) (add_if mx (neg dy) err)))
  unfolding loop
  turn k {x = x} {y = y} {err = err} {m = m} {n = n} mx my i apart ex ey =
      let tx : moves_x beam err ≡ mx =
        ap (λ e. moves_x beam e) i.err_is ∙ leb-neg-sub dy (dx + m * dy) (dy + n * dx) ∙ ex in
      let ty : moves_y beam err ≡ my =
        ap (λ e. moves_y beam e) i.err_is ∙ leb-sub-pos dx (dx + m * dy) (dy + n * dx) ∙ ey in
      rw (end_test i, unfinished m n apart, tx, ty) refl

  goes_on :
      (k : ℕ) {x y err x' y' err' : ℤ} {m n m' n' : ℕ}
      → Ready x y err m n
      → 0 < m + n
      → Ready x' y' err' m' n'
      → m' + n' < m + n
      → Nearer x1 x x'
      → Nearer y1 y y'
      → loop (suc k) beam x y err ≡ cons (record { x = x; y = y }) (loop k beam x' y' err')
      → Reached k x' y' err'
      → Reached (suc k) x y err
  goes_on k {x = x} {y = y} {m = m} {n = n} i apart i' less near_x near_y e (cells, r, line) = (
    record { x = x; y = y } ∷ cells,
    e ∙ ap (cons (record { x = x; y = y })) r,
    goes (end_test i ∙ unfinished m n apart) near_x near_y (rw (left_is i, left_is i') less) line,
  )

  loop-Reached : (k : ℕ) {x y err : ℤ} (m n : ℕ) → m + n ≤ k → Ready x y err m n → Reached k x y err
  loop-Reached k zero zero h i = ends_there k i
  loop-Reached zero (suc m) n h i = absurd (none_left m n h)
  loop-Reached zero zero (suc n) h i = absurd (none_left n 0 (omega arith))
  loop-Reached (suc k) {x = x} {y = y} zero (suc n) h i =
      goes_on k i (omega arith) (Inv-y i) (omega arith) (Nearer-stay x1 x) (Nearer-step i.y_ahead)
        (turn k false true i (omega arith) (x_arrived dx dy n i.n_below)
          (one_steps dx dy 0 (suc n) (x_arrived dx dy n i.n_below)))
        (loop-Reached k zero n (omega arith) (Inv-y i))
  loop-Reached (suc k) {x = x} {y = y} (suc m) zero h i =
      goes_on k i (omega arith) (Inv-x i) (omega arith) (Nearer-step i.x_ahead) (Nearer-stay y1 y)
        (turn k true false i (omega arith)
          (other_steps dx dy (suc m) 0 (y_arrived dx dy m i.m_below)) (y_arrived dx dy m i.m_below))
        (loop-Reached k m zero (omega arith) (Inv-x i))
  loop-Reached (suc k) {x = x} {y = y} (suc m) (suc n) h i =
      elim (Bool-cases (steps_x dx dy (suc m) (suc n))) [
        | inl ex ↦ elim (Bool-cases (steps_y dx dy (suc m) (suc n))) [
          | inl ey ↦
              goes_on k i (omega arith) (Inv-y (Inv-x i)) (omega arith) (Nearer-step i.x_ahead)
                (Nearer-step i.y_ahead) (turn k true true i (omega arith) ex ey)
                (loop-Reached k m n (omega arith) (Inv-y (Inv-x i)))
          | inr ey ↦
              goes_on k i (omega arith) (Inv-x i) (omega arith) (Nearer-step i.x_ahead)
                (Nearer-stay y1 y) (turn k true false i (omega arith) ex ey)
                (loop-Reached k m (suc n) (omega arith) (Inv-x i))
        ]
        | inr ex ↦
            goes_on k i (omega arith) (Inv-y i) (omega arith) (Nearer-stay x1 x)
              (Nearer-step i.y_ahead)
              (turn k false true i (omega arith) ex (one_steps dx dy (suc m) (suc n) ex))
              (loop-Reached k (suc m) n (omega arith) (Inv-y i))
      ]

error_first : (dx dy a : ℕ) → pos dx +ℤ neg dy ≡ sub_ℕ (dx + a) (dy + a)
unfolding ◌+ℤ◌
error_first dx dy a = ground arith

times_turned : (a b : ℕ) → a * b ≡ b * a
times_turned a b = grind arith

first_error : (dx dy : ℕ) → pos dx +ℤ neg dy ≡ sub_ℕ (dx + dx * dy) (dy + dy * dx)
first_error dx dy =
    error_first dx dy (dx * dy) ∙ ap (λ b. sub_ℕ (dx + dx * dy) (dy + b)) (times_turned dx dy)

-- For every two cells the loop of `_bresenham` ends, within as many turns as the rows and columns
-- between them, and its cells make a line from the first cell to the second, which is left out:
-- each is next to the one before and nearer to the end, so none stands twice or outside the
-- rectangle of the two.
pub bresenham-Line :
    (x0 y0 x1 y1 : ℤ)
    → (cells : List Cell) × (bresenham x0 y0 x1 y1 ≡ some cells) × Line x1 y1 x0 y0 cells
unfolding bresenham
bresenham-Line x0 y0 x1 y1 =
    let dx = abs (x1 -ℤ x0) in
    let dy = abs (y1 -ℤ y0) in
    loop-Reached dx dy (sign x0 x1) (sign y0 y1) x1 y1 (dx + dy) dx dy (omega arith) (record {
      x_ahead = sign-Ahead x0 x1;
      y_ahead = sign-Ahead y0 y1;
      err_is = first_error dx dy;
      m_below = omega arith;
      n_below = omega arith;
    })
