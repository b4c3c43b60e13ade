-- ===== src/ScanGrid/Evidence/Verdicts.antt =====
-- mapsvc/scan_grid.py: the evidence and the cells after any scans.
use swarmdeck.Prelude.{
  ℕ, ◌*◌, ◌≤◌, ◌≡◌, refl, ◌↔◌, Bool, true, false, Option, none, some, List, [], ◌∷◌, arith, ◌⊎◌,
  inl, inr, ◌-◌, ◌+◌, ◌&&◌, leb, ltb, Bool-cases,
}
use swarmdeck.Prelude.Int.{ℤ, pos, negsuc, abs, ◌+ℤ◌, ◌-ℤ◌, ◌≤ℤ◌, leb_ℤ}
use swarmdeck.Planner.{World}
use swarmdeck.Snapshots.{GridMeta}
use swarmdeck.ScanGrid.Lines.{Cell}
use swarmdeck.ScanGrid.Evidence.{
  ScanGrid, free, occupied, clip, weighed, faded, verdict, count_at, updated, struck_by, from_cell,
  accumulate, unknown, placed, expand, prepared, fits, hits_of, crossed_of, to_cell, in_range, init,
}

-- A cell shows one of three things: occupied exactly if the evidence is at least 2, and free exactly
-- if it is negative.
abbrev pub Shows : ℤ → ℤ → Type 0
Shows c v =
    ((c ≡ occupied) ↔ (pos 2 ≤ℤ v))
    × ((c ≡ free) ↔ (v ≤ℤ negsuc 0))
    × ((c ≡ occupied) ⊎ ((c ≡ free) ⊎ (c ≡ unknown)))

verdict-Shows : (v : ℤ) → Shows (verdict v) v
unfolding verdict
verdict-Shows v = ground arith

-- The evidence is within the clamp, and shown by the cells.
pub record IsSound (g : ScanGrid) : Type 0 where
  pub bounded : (y x : ℕ) → abs (g.evidence y x) ≤ 12
  pub shown : (y x : ℕ) → Shows (g.cells y x) (g.evidence y x)

weighed-bounded : (m s : ℕ) (v : ℤ) → abs (weighed m s v) ≤ 12
unfolding weighed ◌+ℤ◌ ◌-ℤ◌
weighed-bounded m s v = ground arith

faded-bounded : (r : Bool) (m s : ℕ) (v : ℤ) → abs v ≤ 12 → abs (faded r m s v) ≤ 12
unfolding faded ◌+ℤ◌
faded-bounded r m s v h = ground arith

updated-IsSound : (cs hs : List Cell) (g : ScanGrid) → IsSound (updated cs hs g)
unfolding updated
updated-IsSound cs hs g = record {
  bounded = λ y x.
      let m : ℕ = count_at g.meta.width cs y x in
      let s : ℕ = count_at g.meta.width hs y x in
      faded-bounded g.retain_free_space m s (weighed m s (g.evidence y x))
        (weighed-bounded m s (g.evidence y x));
  shown = λ y x. verdict-Shows ((updated cs hs g).evidence y x);
}

struck_by-IsSound :
    (o : Cell) (hs : List Cell) (g : ScanGrid) → IsSound g → IsSound (struck_by o hs g)
unfolding struck_by
struck_by-IsSound o [] g i = i
struck_by-IsSound o (h ∷ hs) g i = updated-IsSound (crossed_of o (h ∷ hs)) (h ∷ hs) g

from_cell-IsSound :
    (o : Option Cell) (ps : List World) (g : ScanGrid) → IsSound g → IsSound (from_cell o ps g)
from_cell-IsSound none ps g i = i
from_cell-IsSound (some o) ps g i = struck_by-IsSound o (hits_of g.meta ps) g i

placed-Q :
    (Q : ℤ → ℤ → Type 0) (e f : ℤ) (old : GridMeta) (off_y off_x : ℕ) (a b : ℕ → ℕ → ℤ) (y x : ℕ)
    → Q e f
    → ((j i : ℕ) → Q (a j i) (b j i))
    → Q (placed e old off_y off_x a y x) (placed f old off_y off_x b y x)
unfolding placed
placed-Q Q e f old off_y off_x a b y x empty h =
    elim (Bool-cases
      (leb off_y y && ltb y (off_y + old.height) && (leb off_x x && ltb x (off_x + old.width)))) [
        | inl k ↦ rw k (h (y - off_y) (x - off_x))
        | inr k ↦ rw k empty
      ]

nothing_shown : Shows unknown (pos 0)
nothing_shown = ground arith

expand-IsSound : (a b c d : ℤ) (g : ScanGrid) → IsSound g → IsSound (expand a b c d g)
unfolding expand
expand-IsSound a b c d g i = record {
  bounded = λ y x.
      placed-Q (λ v w. abs v ≤ 12) (pos 0) (pos 0) g.meta _ _ g.evidence g.evidence y x
        (omega arith) i.bounded;
  shown =
      λ y x. placed-Q Shows unknown (pos 0) g.meta _ _ g.cells g.evidence y x nothing_shown i.shown;
}

prepared-IsSound :
    (o : World) (ps : List World) (g : ScanGrid) → IsSound g → IsSound (prepared o ps g)
unfolding prepared
prepared-IsSound o [] g i = i
prepared-IsSound o (p ∷ ps) g i = elim (Bool-cases (fits g.meta o (p ∷ ps))) [
  | inl k ↦ rw k i
  | inr k ↦ rw k (expand-IsSound _ _ _ _ g i)
]

accumulate-IsSound :
    (o : World) (ps : List World) (g : ScanGrid) → IsSound g → IsSound (accumulate o ps g)
unfolding accumulate
accumulate-IsSound o ps g i =
    let h = prepared o (in_range o ps) g in
    from_cell-IsSound (to_cell h.meta o) (in_range o ps) h (prepared-IsSound o (in_range o ps) g i)

-- A scan: where the sensor stood, and its points.
abbrev pub Sweep : Type 0
Sweep = World × List World

abbrev pub run : List Sweep → ScanGrid → ScanGrid
run [] g = g
run (scan ∷ scans) g = run scans (accumulate scan.0 scan.1 g)

run-IsSound : (scans : List Sweep) (g : ScanGrid) → IsSound g → IsSound (run scans g)
run-IsSound [] g i = i
run-IsSound (scan ∷ scans) g i =
    run-IsSound scans (accumulate scan.0 scan.1 g) (accumulate-IsSound scan.0 scan.1 g i)

init-IsSound : (o : World) (res size : ℕ) (retain : Bool) → IsSound (init o res size retain)
init-IsSound o res size retain = record {
  bounded = λ y x. omega arith;
  shown = λ y x. nothing_shown;
}

abbrev pub sum_of : ℤ → ℕ → ℕ → ℤ
sum_of v m s = (v -ℤ pos (m * 1)) +ℤ pos (s * 3)

clip_free : (v : ℤ) → leb_ℤ (clip v) (negsuc 0) ≡ leb_ℤ v (negsuc 0)
clip_free v = ground arith

verdict-occupied : (v : ℤ) → (verdict v ≡ occupied) ↔ (leb_ℤ (pos 2) v ≡ true)
unfolding verdict
verdict-occupied v = ground arith

verdict_free : (v : ℤ) → (verdict v ≡ free) ↔ (leb_ℤ v (negsuc 0) ≡ true)
unfolding verdict
verdict_free v = ground arith

-- A cell that a scan has neither crossed nor struck.
faded_away : (v : ℤ) → leb_ℤ (faded false 0 0 v) (negsuc 0) ≡ leb_ℤ v (negsuc 4)
unfolding faded ◌+ℤ◌
faded_away v = ground arith

kept_free : (m s : ℕ) (v : ℤ) → faded true m s v ≡ v
unfolding faded
kept_free m s v = refl

-- How often a scan crossed and struck a cell.
abbrev pub crossings_from : Option Cell → List World → ScanGrid → ℕ → ℕ → ℕ
crossings_from none ps g y x = 0
crossings_from (some o) ps g y x = count_at g.meta.width (crossed_of o (hits_of g.meta ps)) y x

abbrev pub strikes_from : Option Cell → List World → ScanGrid → ℕ → ℕ → ℕ
strikes_from none ps g y x = 0
strikes_from (some o) ps g y x = count_at g.meta.width (hits_of g.meta ps) y x

abbrev pub crossings : World → List World → ScanGrid → ℕ → ℕ → ℕ
crossings o ps g y x = crossings_from (to_cell g.meta o) (in_range o ps) g y x

abbrev pub strikes : World → List World → ScanGrid → ℕ → ℕ → ℕ
strikes o ps g y x = strikes_from (to_cell g.meta o) (in_range o ps) g y x

leb-≤ : (v w : ℤ) → (leb_ℤ v w ≡ true) ↔ (v ≤ℤ w)
leb-≤ v w = ground arith

-- The cell is occupied exactly if the sum of the evidence is at least 2.
abbrev pub OccupiedIff : ℤ → ℕ → ℕ → ℤ → Type 0
OccupiedIff c m s v = (c ≡ occupied) ↔ (pos 2 ≤ℤ sum_of v m s)

shown_occupied : (v : ℤ) → (verdict v ≡ occupied) ↔ (pos 2 ≤ℤ v)
shown_occupied v = (
  (λ e. (leb-≤ (pos 2) v).0 ((verdict-occupied v).0 e)),
  (λ h. (verdict-occupied v).1 ((leb-≤ (pos 2) v).1 h)),
)

-- The grid in which the scan is drawn, grown where it has to be.
abbrev pub drawn_in : World → List World → ScanGrid → ScanGrid
drawn_in o ps g = prepared o (in_range o ps) g

-- After any scans, the grid growing where it has to, the evidence of every cell is between -12 and 12,
-- and a cell is shown occupied exactly if its evidence is at least 2, free exactly if it is negative,
-- and else unknown.
pub run_from_init-IsSound :
    (o : World) (res size : ℕ) (retain : Bool) (scans : List Sweep)
    → IsSound (run scans (init o res size retain))
run_from_init-IsSound o res size retain scans =
    run-IsSound scans (init o res size retain) (init-IsSound o res size retain)
