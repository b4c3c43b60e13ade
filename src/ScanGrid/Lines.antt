-- ===== src/ScanGrid/Lines.antt =====
-- mapsvc/scan_grid.py: `_bresenham`. numpy's two arrays are one list of cells.
pub mod Steps
pub mod Reaching
use swarmdeck.Prelude.{
  ℕ, zero, suc, ◌+◌, Bool, true, false, ◌&&◌, Option, none, some, List, [], ◌∷◌, if◌then◌else◌,
}
use swarmdeck.Prelude.Int.{ℤ, pos, negsuc, neg, abs, times, ◌+ℤ◌, ◌-ℤ◌, ltb_ℤ, leb_ℤ, eqb_ℤ}

pub record Cell : Type 0 where
  pub x : ℤ
  pub y : ℤ

-- The names that the loop does not change.
pub record Beam : Type 0 where
  pub dx : ℤ
  pub dy : ℤ
  pub sx : ℤ
  pub sy : ℤ
  pub x1 : ℤ
  pub y1 : ℤ

abbrev pub at_end : Beam → ℤ → ℤ → Bool
at_end b x y = eqb_ℤ x b.x1 && eqb_ℤ y b.y1

-- `e2 >= dy` and `e2 <= dx`, with `e2 = 2 * err`
abbrev pub moves_x : Beam → ℤ → Bool
moves_x b err = leb_ℤ b.dy (times err 2)

abbrev pub moves_y : Beam → ℤ → Bool
moves_y b err = leb_ℤ (times err 2) b.dx

abbrev pub add_if : Bool → ℤ → ℤ → ℤ
add_if true d v = v +ℤ d
add_if false d v = v

abbrev pub cons : Cell → Option (List Cell) → Option (List Cell)
cons c none = none
cons c (some cs) = some (c ∷ cs)

-- The loop, on fuel; `none` is a loop that has not ended.
unfoldable pub loop : ℕ → Beam → ℤ → ℤ → ℤ → Option (List Cell)
loop zero b x y err = if at_end b x y then some [] else none
loop (suc n) b x y err =
    let mx = moves_x b err in
    let my = moves_y b err in
    let rest =
      loop n b (add_if mx b.sx x) (add_if my b.sy y) (add_if my b.dx (add_if mx b.dy err)) in
    if at_end b x y then some [] else cons (record { x = x; y = y }) rest

-- `1 if a < b else -1`
abbrev pub sign : ℤ → ℤ → ℤ
sign a b = if ltb_ℤ a b then pos 1 else negsuc 0

abbrev pub beam_of : ℤ → ℤ → ℤ → ℤ → Beam
beam_of x0 y0 x1 y1 = record {
  dx = pos (abs (x1 -ℤ x0));
  dy = neg (abs (y1 -ℤ y0));
  sx = sign x0 x1;
  sy = sign y0 y1;
  x1 = x1;
  y1 = y1;
}

unfoldable pub bresenham : ℤ → ℤ → ℤ → ℤ → Option (List Cell)
bresenham x0 y0 x1 y1 =
    let b = beam_of x0 y0 x1 y1 in loop (abs (x1 -ℤ x0) + abs (y1 -ℤ y0)) b x0 y0 (b.dx +ℤ b.dy)
