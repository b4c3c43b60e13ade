-- ===== src/ScanGrid/Samples.antt =====
-- Concrete scans, on a grid of five by five cells of one metre.
use swarmdeck.Prelude.{ℕ, zero, suc, ◌≡◌, refl, false, some, List, [], ◌∷◌, All}
use swarmdeck.Prelude.Int.{pos, negsuc, ◌+ℤ◌, ◌-ℤ◌, times}
use swarmdeck.Prelude.Rounding.{rint, round_even}
use swarmdeck.Planner.{World}
use swarmdeck.ScanGrid.Lines.{Cell, bresenham, loop}
use swarmdeck.ScanGrid.Lines.Reaching.{Line, bresenham-Line}
use swarmdeck.ScanGrid.Evidence.{
  ScanGrid, init, accumulate, to_cell, in_range, hits_of, crossed_of, bincount, weighed, faded,
  verdict, updated, struck_by, prepared, fits, expand, placed, floor_to, ceil_to, occupied, free,
  int_quotient,
}
use swarmdeck.ScanGrid.Evidence.Verdicts.{IsSound, Sweep, run, run_from_init-IsSound}
use swarmdeck.ScanGrid.Evidence.Indices.{IsIndexed, scan-IsIndexed}

abbrev sensor : World
sensor = record { x = pos 0; y = pos 0 }

abbrev wall : List World
wall = record { x = pos 2000; y = pos 0 } ∷ []

abbrev person : List World
person = record { x = pos 1000; y = pos 0 } ∷ []

abbrev start : ScanGrid
start = init sensor 1000 5000 false

abbrev often : ℕ → List Sweep
often zero = []
often (suc n) = (sensor, wall) ∷ often n

slope :
    bresenham (pos 0) (pos 0) (pos 3) (negsuc 0)
    ≡ some (
        record { x = pos 0; y = pos 0 }
        ∷ record { x = pos 1; y = pos 0 }
        ∷ record { x = pos 2; y = negsuc 0 }
        ∷ [])
unfolding bresenham loop ◌+ℤ◌ ◌-ℤ◌ times
slope = refl

wall_shown : (run (often 1) start).cells 2 4 ≡ occupied
unfolding accumulate to_cell in_range hits_of crossed_of bincount weighed faded verdict updated
    struck_by prepared fits int_quotient bresenham loop ◌+ℤ◌ ◌-ℤ◌ times
wall_shown = refl

-- One return does not show the person who steps into a beam that has been free for long.
person_not_shown : (accumulate sensor person (run (often 12) start)).cells 2 3 ≡ free
unfolding accumulate to_cell in_range hits_of crossed_of bincount weighed faded verdict updated
    struck_by prepared fits int_quotient bresenham loop ◌+ℤ◌ ◌-ℤ◌ times
person_not_shown = refl

-- A return outside the grid makes it grow, and the new cell is occupied.
far_shown :
    (accumulate sensor (record { x = pos 6000; y = pos 0 } ∷ []) start).cells 5 11 ≡ occupied
unfolding accumulate to_cell in_range hits_of crossed_of bincount weighed faded verdict updated
    struck_by prepared fits expand placed floor_to ceil_to int_quotient bresenham loop ◌+ℤ◌ ◌-ℤ◌
    times rint round_even
far_shown = refl

bresenham-Line_example :
    (cells : List Cell) × (bresenham (pos 0) (pos 0) (pos 3) (negsuc 0) ≡ some cells)
    × Line (pos 3) (negsuc 0) (pos 0) (pos 0) cells
bresenham-Line_example = bresenham-Line (pos 0) (pos 0) (pos 3) (negsuc 0)

run_from_init-IsSound_example : IsSound (run (often 2) start)
run_from_init-IsSound_example = run_from_init-IsSound sensor 1000 5000 false (often 2)

abbrev sensor_cell : Cell
sensor_cell = record { x = pos 2; y = pos 2 }

scan-IsIndexed_example :
    All (IsIndexed start.meta) (crossed_of sensor_cell (hits_of start.meta wall))
    × All (IsIndexed start.meta) (hits_of start.meta wall)
unfolding to_cell int_quotient ◌+ℤ◌ ◌-ℤ◌
scan-IsIndexed_example = scan-IsIndexed start.meta sensor sensor_cell wall refl
