-- ===== src/Planner.antt =====
-- server/swarmdeck_server/mapsvc/planner.py: `plan_global_path`, A* on an occupancy grid.
--
-- Lengths and coordinates are thousandths (millimetres), and the costs of a path are counted in
-- hundred-thousandths, in which 1.0, 1.414 and 0.15 are whole; what binary floats round away is not
-- modelled. The grid is a function of the row and the column, and heapq's list is the list of its
-- entries, from which the least is taken. scipy's dilation, which may be missing, and `math.hypot`
-- are parameters.
pub mod Search
pub mod Cells
pub mod Walk
pub mod Plan
pub mod Sampling
mod Samples
use swarmdeck.Prelude.{
  ℕ, zero, suc, ◌+◌, ◌-◌, ◌*◌, ◌/◌, ◌≤◌, Bool, true, false, not, ◌&&◌, ◌||◌, Option, none, some,
  List, [], ◌∷◌, ◌++◌, map, ltb, leb, ◌==◌, if◌then◌else◌, length,
}
use swarmdeck.Prelude.Int.{
  ℤ, pos, negsuc, pos_part, abs, times, ◌+ℤ◌, ◌-ℤ◌, ltb_ℤ, leb_ℤ, eqb_ℤ, min_ℤ, max_ℤ,
}
use swarmdeck.Prelude.Rounding.{rint}

pub record GridMeta : Type 0 where
  pub resolution : ℕ
  pub origin_x : ℤ
  pub origin_y : ℤ

-- `grid[y, x]`, and its shape.
pub record Grid : Type 0 where
  pub height : ℕ
  pub width : ℕ
  pub at : ℕ → ℕ → ℤ

pub record World : Type 0 where
  pub x : ℤ
  pub y : ℤ

pub record Cell : Type 0 where
  pub x : ℕ
  pub y : ℕ

abbrev pub same : Cell → Cell → Bool
same a b = a.x == b.x && a.y == b.y

abbrev pub Mask : Type 0
Mask = ℕ → ℕ → Bool

-- `binary_dilation(mask, iterations=n)`, where scipy is there, and `math.hypot`.
pub record Library : Type 0 where
  pub dilate : Option (ℕ → ℕ → ℕ → Mask → Mask)
  pub hypot : ℤ → ℤ → ℕ

-- `max(0, min(n - 1, v))`
unfoldable pub clamp : ℕ → ℤ → ℕ
clamp n v = pos_part (max_ℤ (pos 0) (min_ℤ (pos n -ℤ pos 1) v))

-- `int(round((v - origin) / res))`, clamped inside the grid.
pub cell_of : GridMeta → Grid → World → Cell
unfolding clamp
cell_of meta grid p = record {
  x = clamp grid.width (rint (p.x -ℤ meta.origin_x) meta.resolution);
  y = clamp grid.height (rint (p.y -ℤ meta.origin_y) meta.resolution);
}

-- `np.any(mask)`, of the cells below a height and a width.
any_in_row : ℕ → (ℕ → Bool) → Bool
any_in_row zero row = false
any_in_row (suc w) row = row w || any_in_row w row

any_cell : ℕ → ℕ → Mask → Bool
unfolding any_in_row
any_cell zero w mask = false
any_cell (suc h) w mask = any_in_row w (mask h) || any_cell h w mask

module _ (lib : Library) where
  -- `max(1, int(round(clearance_m / res)))`
  abbrev clearance_px : GridMeta → ℕ → ℕ
  clearance_px meta clearance =
      let n = pos_part (rint (pos clearance) meta.resolution) in if ltb 1 n then n else 1

  -- `occupied_mask`
  unfoldable pub occupied : GridMeta → ℕ → Grid → Mask
  unfolding any_cell
  occupied meta clearance grid =
      let mask : Mask = λ y x. leb_ℤ (pos 50) (grid.at y x) in
      let n = clearance_px meta clearance in
      if ltb 1 n && any_cell grid.height grid.width mask
      then elim lib.dilate [ none ↦ mask | some f ↦ f grid.height grid.width n mask ]
      else mask

  -- `cost[y, x]`
  unfoldable pub cost : GridMeta → ℕ → Grid → ℕ → ℕ → ℕ
  unfolding occupied
  cost meta clearance grid y x =
      if occupied meta clearance grid y x
      then 255
      else if eqb_ℤ (grid.at y x) (negsuc 0)
      then 8
      else 1

  -- `{"x": round(ox + px * res, 3), ...}`
  abbrev pub world_of : GridMeta → Cell → World
  world_of meta c = record {
    x = meta.origin_x +ℤ pos (c.x * meta.resolution);
    y = meta.origin_y +ℤ pos (c.y * meta.resolution);
  }
