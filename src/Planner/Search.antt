-- ===== src/Planner/Search.antt =====
-- server/swarmdeck_server/mapsvc/planner.py: the search of `plan_global_path`.
use swarmdeck.Prelude.{
  ℕ, zero, suc, ◌+◌, ◌*◌, Bool, true, false, ◌||◌, Option, none, some, List, [], ◌∷◌, ltb, leb,
  if◌then◌else◌,
}
use swarmdeck.Prelude.Int.{ℤ, pos, negsuc, abs, ◌+ℤ◌, ◌-ℤ◌}
use swarmdeck.Planner.{Cell, same}

-- An entry of the heap: (f, g, x, y).
pub record Entry : Type 0 where
  pub f : ℕ
  pub g : ℕ
  pub cell : Cell

-- The order of tuples.
unfoldable pub before : Entry → Entry → Bool
before a b =
    if ltb a.f b.f
    then true
    else if ltb b.f a.f
    then false
    else if ltb a.g b.g
    then true
    else if ltb b.g a.g
    then false
    else if ltb a.cell.x b.cell.x
    then true
    else if ltb b.cell.x a.cell.x
    then false
    else ltb a.cell.y b.cell.y

-- `heapq.heappop`, of a list whose first entry is `e`: the least entry, and the others.
unfoldable pub heappop : Entry → List Entry → Entry × List Entry
heappop e [] = (e, [])
heappop e (d ∷ ds) =
    let (least, others) = heappop d ds in
    if before least e then (least, e ∷ others) else (e, least ∷ others)

-- A dict with cells as keys.
abbrev pub CellMap {ℓ} : Type ℓ → Type ℓ
CellMap A = Cell → Option A

abbrev pub put {ℓ} : {A : Type ℓ} → Cell → A → CellMap A → CellMap A
put c v m d = if same c d then some v else m d

pub record Search : Type 0 where
  pub open_set : List Entry
  pub came_from : CellMap Cell
  pub g_score : CellMap ℕ

pub record Neighbour : Type 0 where
  pub dx : ℤ
  pub dy : ℤ
  pub step_cost : ℕ

abbrev way : ℤ → ℤ → ℕ → Neighbour
way dx dy c = record { dx = dx; dy = dy; step_cost = c }

-- `neighbors`
abbrev pub neighbours : List Neighbour
neighbours =
    way (negsuc 0) (pos 0) 1000
    ∷ way (pos 1) (pos 0) 1000
    ∷ way (pos 0) (negsuc 0) 1000
    ∷ way (pos 0) (pos 1) 1000
    ∷ way (negsuc 0) (negsuc 0) 1414
    ∷ way (negsuc 0) (pos 1) 1414
    ∷ way (pos 1) (negsuc 0) 1414
    ∷ way (pos 1) (pos 1) 1414
    ∷ []

-- `ng < g_score.get(n, inf)`
abbrev pub improves : ℕ → Option ℕ → Bool
improves ng none = true
improves ng (some g) = ltb ng g

-- `g > g_score.get(c, inf)`
abbrev pub is_stale : ℕ → Option ℕ → Bool
is_stale g none = false
is_stale g (some best) = ltb best g

-- `0 <= v < n`, and then v.
unfoldable pub within : ℕ → ℤ → Option ℕ
within n (pos v) = if ltb v n then some v else none
within n (negsuc v) = none

abbrev pub difference : ℕ → ℕ → ℤ
difference a b = pos a -ℤ pos b

-- `(cx, cy) == (gx, gy) or math.hypot(cx - gx, cy - gy) <= 1.5`, squared.
unfoldable pub reached : Cell → Cell → Bool
reached c goal =
    let dx = abs (difference c.x goal.x) in
    let dy = abs (difference c.y goal.y) in same c goal || leb (4 * (dx * dx + dy * dy)) 9

-- Whether the loop found a cell at the goal.
pub data Outcome : Type 0 where
  not_found : Outcome
  found : Search → Cell → Outcome

-- A grid of the given width and height, with what a cell of it costs, and the estimate to the goal.
module _ (w h : ℕ) (cost : ℕ → ℕ → ℕ) (hypot : ℤ → ℤ → ℕ) (goal : Cell) where
  -- `ng = g + step_cost * (1.0 + c * 0.15)`
  abbrev pub total : Entry → Neighbour → Cell → ℕ
  total e n c = e.g + n.step_cost * (100 + 15 * cost c.y c.x)

  -- A neighbour in the grid: the obstacle test, and the updates where the way there is shorter.
  unfoldable pub relax : Entry → Neighbour → Cell → Search → Search
  relax e n c s =
      if leb 200 (cost c.y c.x)
      then s
      else if improves (total e n c) (s.g_score c)
      then record {
        open_set =
            record {
              f = total e n c + hypot (difference c.x goal.x) (difference c.y goal.y);
              g = total e n c;
              cell = c;
            }
            ∷ s.open_set;
        came_from = put c e.cell s.came_from;
        g_score = put c (total e n c) s.g_score;
      }
      else s

  -- The cell (cx + dx, cy + dy), if it is in the grid.
  unfoldable pub step : Cell → Neighbour → Option Cell
  unfolding within
  step c n = elim (within w (pos c.x +ℤ n.dx)) [
    | none ↦ none
    | some x ↦ elim (within h (pos c.y +ℤ n.dy)) [
      | none ↦ none
      | some y ↦ some (record { x = x; y = y })
    ]
  ]

  -- The loop over the neighbours.
  unfoldable pub expand : Entry → List Neighbour → Search → Search
  unfolding relax step
  expand e [] s = s
  expand e (n ∷ ns) s = expand e ns (elim (step e.cell n) [ none ↦ s | some c ↦ relax e n c s ])

  -- A round whose entry is not at the goal: one that is out of date is passed over.
  unfoldable pub turn : Entry → Search → Search
  turn e s = if is_stale e.g (s.g_score e.cell) then s else expand e neighbours s

  -- The `while` loop, for the expansions that are left.
  unfoldable pub loop : ℕ → Search → Outcome
  loop zero s = not_found
  loop (suc left) s = elim s.open_set [
    | [] ↦ not_found
    | d ∷ ds ↦
        let (e, others) = heappop d ds in
        let rest = record s { open_set = others } in
        if reached e.cell goal then found rest e.cell else loop left (turn e rest)
  ]

-- `while curr in came_from`, from the cell `c`: the cells behind the start, in order. `none`: the
-- fuel ran out.
unfoldable pub walk : ℕ → CellMap Cell → Cell → List Cell → Option (List Cell)
walk zero came c behind = none
walk (suc fuel) came c behind = elim (came c) [
  | none ↦ some behind
  | some p ↦ walk fuel came p (c ∷ behind)
]

abbrev pub last_or {ℓ} : {A : Type ℓ} → A → List A → A
last_or x [] = x
last_or x (y ∷ ys) = last_or y ys

-- The search as it begins.
unfoldable pub first : Cell → Search
first start = record {
  open_set = record { f = 0; g = 0; cell = start } ∷ [];
  came_from = λ _. none;
  g_score = put start 0 (λ _. none);
}

abbrev pub max_expansions : ℕ
max_expansions = 40000

-- The fuel of the walk: more than the score of its first cell, which falls with each step.
abbrev pub walk_fuel : Option ℕ → ℕ
walk_fuel none = 0
walk_fuel (some g) = suc g

-- `pixel_path`, or nothing found; the outer `none` is a walk without fuel.
module _ (w h : ℕ) (cost : ℕ → ℕ → ℕ) (hypot : ℤ → ℤ → ℕ) (goal start : Cell) where
  abbrev pub walked : Outcome → Option (Option (List Cell))
  walked not_found = some none
  walked (found s c) = elim (walk (walk_fuel (s.g_score c)) s.came_from c []) [
    | none ↦ none
    | some cells ↦ some (some (start ∷ cells))
  ]

  unfoldable pub search_path : Option (Option (List Cell))
  search_path = walked (loop w h cost hypot goal max_expansions (first start))
