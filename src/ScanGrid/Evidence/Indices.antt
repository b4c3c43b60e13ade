-- ===== src/ScanGrid/Evidence/Indices.antt =====
-- mapsvc/scan_grid.py: the flat indices of a scan, which `np.bincount` counts.
use swarmdeck.Prelude.{
  ℕ, ◌+◌, ◌*◌, ◌<◌, ◌≡◌, refl, subst, Bool, true, false, ◌&&◌, Option, none, some, List, [], ◌∷◌,
  if◌then◌else◌, arith, All, All-append,
}
use swarmdeck.Prelude.Int.{ℤ, pos, negsuc, times, ◌+ℤ◌, ◌-ℤ◌}
use mathlib.Core.Option.{some_inj}
use swarmdeck.Planner.{World}
use swarmdeck.Snapshots.{GridMeta}
use swarmdeck.ScanGrid.Lines.{Cell}
use swarmdeck.ScanGrid.Lines.Reaching.{Line, arrives, goes, Nearer, bresenham-Line}
use swarmdeck.ScanGrid.Evidence.{
  to_cell, hits_of, add_hit, crossed_of, crossed_by, flat_index, below, int_quotient,
}

module _ (meta : GridMeta) where
  abbrev pub IsIn : Cell → Type 0
  IsIn c = (below c.x meta.width ≡ true) × (below c.y meta.height ≡ true)

  -- The flat index of the cell is one of the grid's.
  abbrev pub IsIndexed : Cell → Type 0
  IsIndexed c = below (flat_index meta.width c) (meta.height * meta.width) ≡ true

  inside-IsIn :
      (gx gy : ℤ) (bx by : Bool) {c : Cell}
      → below gx meta.width ≡ bx
      → below gy meta.height ≡ by
      → (if bx && by then some (record { x = gx; y = gy }) else none) ≡ some c
      → IsIn c
  inside-IsIn gx gy true true ex ey e = subst IsIn (some_inj.0 e) (ex, ey)
  inside-IsIn gx gy true false ex ey e = cc
  inside-IsIn gx gy false by ex ey e = cc

  to_cell-IsIn : (p : World) {c : Cell} → to_cell meta p ≡ some c → IsIn c
  unfolding to_cell
  to_cell-IsIn p e =
      let gx : ℤ = int_quotient (p.x -ℤ meta.origin_x) meta.resolution in
      let gy : ℤ = int_quotient (p.y -ℤ meta.origin_y) meta.resolution in
      inside-IsIn gx gy (below gx meta.width) (below gy meta.height) refl refl e

  Nearer-below :
      (n : ℕ) (v1 v w : ℤ) → Nearer v1 v w → below v n ≡ true → below v1 n ≡ true → below w n ≡ true
  unfolding ◌-ℤ◌
  Nearer-below n v1 v w near h h1 = ground arith

  Line-IsIn :
      {x1 y1 x y : ℤ} {cells : List Cell}
      → Line x1 y1 x y cells
      → IsIn (record { x = x1; y = y1 })
      → IsIn (record { x = x; y = y })
      → All IsIn cells
  Line-IsIn (arrives ex ey) i1 i = tt
  Line-IsIn {x1 = x1} {y1 = y1} {x = x} {y = y} (goes {x' = x'} {y' = y'} apart nx ny less line) i1
        i =
      (
        i,
        Line-IsIn line i1 (
          Nearer-below meta.width x1 x x' nx i.0 i1.0,
          Nearer-below meta.height y1 y y' ny i.1 i1.1,
        ),
      )

  row_below : (a b w h : ℕ) → a < w → b < h → b * w + a < h * w
  row_below a b w h p q = grind arith

  flat-IsIndexed : (x y : ℤ) → IsIn (record { x = x; y = y }) → IsIndexed (record { x = x; y = y })
  unfolding ◌+ℤ◌ times
  flat-IsIndexed (pos a) (pos b) i =
      let less : b * meta.width + a < meta.height * meta.width =
        row_below a b meta.width meta.height (ground arith) (ground arith) in
      ground arith
  flat-IsIndexed (negsuc a) y i = ground arith
  flat-IsIndexed (pos a) (negsuc b) i = ground arith

  All-IsIndexed : (cs : List Cell) → All IsIn cs → All IsIndexed cs
  All-IsIndexed [] h = tt
  All-IsIndexed (c ∷ cs) h = (flat-IsIndexed c.x c.y h.0, All-IsIndexed cs h.1)

  add_hit-IsIn :
      (p : World) (hs : List Cell) (o : Option Cell)
      → to_cell meta p ≡ o
      → All IsIn hs
      → All IsIn (add_hit o hs)
  add_hit-IsIn p hs none e h = h
  add_hit-IsIn p hs (some c) e h = (to_cell-IsIn p e, h)

  hits_of-IsIn : (ps : List World) → All IsIn (hits_of meta ps)
  unfolding hits_of
  hits_of-IsIn [] = tt
  hits_of-IsIn (p ∷ ps) = add_hit-IsIn p (hits_of meta ps) (to_cell meta p) refl (hits_of-IsIn ps)

  crossed_by-IsIn : (o h : Cell) → IsIn o → IsIn h → All IsIn (crossed_by o h)
  crossed_by-IsIn o h io ih =
      let (cells, e, line) = bresenham-Line o.x o.y h.x h.y in rw e (Line-IsIn line ih io)

  crossed_of-IsIn : (o : Cell) (hs : List Cell) → IsIn o → All IsIn hs → All IsIn (crossed_of o hs)
  unfolding crossed_of
  crossed_of-IsIn o [] io ih = tt
  crossed_of-IsIn o (h ∷ hs) io ih =
      All-append IsIn (crossed_by o h) (crossed_of o hs) (crossed_by-IsIn o h io ih.0)
        (crossed_of-IsIn o hs io ih.1)

-- From a sensor in the grid, every flat index of a scan, of a cell that a beam crosses or ends in,
-- is one of the grid's cells: none is negative, which np.bincount refuses, or so large that the
-- counts no longer have the grid's shape.
pub scan-IsIndexed :
    (meta : GridMeta) (sensor : World) (o : Cell) (ps : List World)
    → to_cell meta sensor ≡ some o
    → All (IsIndexed meta) (crossed_of o (hits_of meta ps)) × All (IsIndexed meta) (hits_of meta ps)
scan-IsIndexed meta sensor o ps e = (
  All-IsIndexed meta (crossed_of o (hits_of meta ps)) (
      crossed_of-IsIn meta o (hits_of meta ps) (to_cell-IsIn meta sensor e) (hits_of-IsIn meta ps)),
  All-IsIndexed meta (hits_of meta ps) (hits_of-IsIn meta ps),
)
