-- ===== src/Planner/Plan.antt =====
-- server/swarmdeck_server/mapsvc/planner.py: `plan_global_path`.
use swarmdeck.Prelude.{
  ℕ, zero, suc, ◌-◌, ◌/◌, Option, none, some, List, [], ◌∷◌, ◌++◌, map, ltb, if◌then◌else◌, length,
  Outcome, raises, returns, ◌>>=◌,
}
use swarmdeck.Prelude.Int.{ℤ}
use swarmdeck.Prelude.Float.{Float, fin, nan, inf, neg_inf}
use swarmdeck.Planner.{GridMeta, Grid, World, Cell, Library, same, cell_of, cost, world_of}
use swarmdeck.Planner.Search.{search_path, last_or}

-- `xs[::s]`, with `k` items to skip first.
unfoldable pub every {ℓ} : {A : Type ℓ} → ℕ → ℕ → List A → List A
every s k [] = []
every s zero (x ∷ xs) = x ∷ every s (s - 1) xs
every s (suc k) (x ∷ xs) = every s k xs

-- `max(1, len(pixel_path) // 40)`
abbrev pub stride : ℕ → ℕ
stride n = let k = n / 40 in if ltb 1 k then k else 1

-- `sampled`, of the path that begins with `c`.
unfoldable pub sampled : Cell → List Cell → List Cell
unfolding every
sampled c cs =
    let q = every (stride (length (c ∷ cs))) 0 (c ∷ cs) in
    let end = last_or c cs in if same (last_or c q) end then q else q ++ end ∷ []

abbrev pub straight : World → World → List World
straight a b = a ∷ b ∷ []

-- What `(v - origin) / res` and `int(round(…))` raise: a ZeroDivisionError, a ValueError for nan, and
-- an OverflowError for an infinity.
pub data PlaceError : Type 0 where
  zero_division not_a_number infinite : PlaceError

-- The ends, as the request has them.
pub record Position : Type 0 where
  pub x : Float
  pub y : Float

unfoldable pub coordinate : ℕ → Float → Outcome PlaceError ℤ
coordinate zero v = raises zero_division
coordinate (suc r) (fin z) = returns z
coordinate (suc r) nan = raises not_a_number
coordinate (suc r) inf = raises infinite
coordinate (suc r) neg_inf = raises infinite

module _ (lib : Library) (grid : Grid) (meta : GridMeta) where
  -- The path in the world; nothing found is a straight line.
  unfoldable pub drawn : World → World → Option (List Cell) → List World
  unfolding sampled
  drawn a b none = straight a b
  drawn a b (some []) = straight a b
  drawn a b (some (c ∷ cs)) = map (world_of lib meta) (sampled c cs)

  unfoldable pub finished : World → World → Option (Option (List Cell)) → Option (List World)
  unfolding drawn
  finished a b none = none
  finished a b (some result) = some (drawn a b result)

  -- `plan_global_path` for numbers; `none` would be a walk back that does not end.
  unfoldable pub plan_finite : World → World → ℕ → Option (List World)
  plan_finite a b clearance =
      let start = cell_of meta grid a in
      let goal = cell_of meta grid b in
      if same start goal
      then some (straight a b)
      else finished a b
          (search_path grid.width grid.height (cost lib meta clearance grid) lib.hypot goal start)

  -- `plan_global_path`: the start is converted before the goal, and x before y.
  unfoldable pub plan_global_path :
      Position → Position → ℕ → Outcome PlaceError (Option (List World))
  unfolding coordinate
  plan_global_path a b clearance = coordinate meta.resolution a.x >>= λ ax.
      coordinate meta.resolution a.y >>= λ ay. coordinate meta.resolution b.x >>= λ bx.
      coordinate meta.resolution b.y >>= λ by.
      returns (plan_finite (record { x = ax; y = ay }) (record { x = bx; y = by }) clearance)
