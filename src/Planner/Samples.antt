-- ===== src/Planner/Samples.antt =====
-- A grid of 6 by 6 cells with a wall of five, and a path around it.
use swarmdeck.Prelude.{◌*◌, ◌&&◌, none, ltb, ◌==◌, if◌then◌else◌}
use swarmdeck.Prelude.Int.{pos, negsuc, abs}
use swarmdeck.Planner.{GridMeta, Grid, Library}
use swarmdeck.Prelude.Float.{Float}
use swarmdeck.Planner.Plan.{Position}

-- No scipy; the larger of the two differences as the estimate.
abbrev library : Library
library = record {
  dilate = none;
  hypot = λ dx dy. (if ltb (abs dx) (abs dy) then abs dy else abs dx) * 100000;
}

-- The wall is the third column, but for its last cell.
abbrev grid : Grid
grid = record { height = 6; width = 6; at = λ y x. if x == 2 && ltb y 5 then pos 100 else pos 0 }

-- Cells of half a metre.
abbrev meta : GridMeta
meta = record { resolution = 500; origin_x = pos 0; origin_y = negsuc 499 }

abbrev place : Float → Float → Position
place x y = record { x = x; y = y }
