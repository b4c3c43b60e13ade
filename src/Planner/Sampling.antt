-- ===== src/Planner/Sampling.antt =====
-- server/swarmdeck_server/mapsvc/planner.py: the sampled path.
use swarmdeck.Prelude.{
  ℕ, zero, suc, ◌+◌, ◌-◌, ◌*◌, ◌/◌, ◌≤◌, ◌<◌, ◌≡◌, refl, ap, true, Option, none, some, List, [],
  ◌∷◌, ◌++◌, map, ltb, length, length-append, any, All, All-append, All-map, Bool-cases, inl, inr,
  ◌⊎◌, arith, false, ◌&&◌, Outcome, raises, returns,
}
use swarmdeck.Planner.{GridMeta, Grid, World, Cell, Library, same, cell_of, cost, world_of}
use swarmdeck.Planner.Cells.{same_refl, same→eq}
use swarmdeck.Planner.Search.{search_path, last_or}
use swarmdeck.Prelude.Float.{Float, fin, is_finite}
use swarmdeck.Planner.Plan.{
  every, stride, sampled, straight, drawn, finished, plan_finite, PlaceError, Position,
}
use swarmdeck.Planner.Walk.{IsPath, Searched, nothing, a_path, search_path-Searched}

abbrev pub OnPath : List Cell → Cell → Type 0
OnPath p c = any (same c) p ≡ true

every-OnPath : (s k : ℕ) (p : List Cell) → All (OnPath p) (every s k p)
unfolding every
every-OnPath s k [] = tt
every-OnPath s zero (x ∷ xs) = (
  ground (arith, same_refl x),
  All-map (every s (s - 1) xs) (λ c on. later c on) (every-OnPath s (s - 1) xs),
)
  where
    later : (c : Cell) → OnPath xs c → OnPath (x ∷ xs) c
    later c on = ground arith
every-OnPath s (suc k) (x ∷ xs) = All-map (every s k xs) (λ c on. later c on) (every-OnPath s k xs)
  where
    later : (c : Cell) → OnPath xs c → OnPath (x ∷ xs) c
    later c on = ground arith

-- How many items are kept.
length-every : (s k : ℕ) (p : List Cell) → k < s → length (every s k p) * s + k < length p + s
unfolding every
length-every s k [] h = omega arith
length-every s zero (x ∷ xs) h = omega (arith, length-every s (s - 1) xs (omega (arith, h)))
length-every s (suc k) (x ∷ xs) h = omega (arith, length-every s k xs (omega (arith, h)))

stride_cases : (n : ℕ) → ((stride n ≡ 1) × (n < 80)) ⊎ ((2 ≤ stride n) × (n < 40 * stride n + 40))
stride_cases n = elim (Bool-cases (ltb 1 (n / 40))) [
  | inl e ↦ inr (ground (arith, e), ground (arith, e))
  | inr e ↦ inl (rw e refl, ground (arith, e))
]

few : (l s n : ℕ) → 2 ≤ s → l * s < n + s → n < 40 * s + 40 → l < 80
few l s n h k m = grind (arith, cover l s)
  where
    cover : (l s : ℕ) → 80 ≤ l → 80 * s ≤ l * s
    cover l s h = grind arith

stride_pos : (n : ℕ) → 0 < stride n
stride_pos n = elim (stride_cases n) [
  | inl (one, _) ↦ omega (arith, one)
  | inr (two, _) ↦ omega (arith, two)
]

length-every-stride : (p : List Cell) → length (every (stride (length p)) 0 p) < 80
length-every-stride p =
    let kept = length-every (stride (length p)) 0 p (stride_pos (length p)) in
    elim (stride_cases (length p)) [
      | inl (one, small) ↦
          omega (arith, ap (λ s. length (every (stride (length p)) 0 p) * s) one, one, kept, small)
      | inr (two, fits) ↦
          few (length (every (stride (length p)) 0 p)) (stride (length p)) (length p) two
            (omega (arith, kept)) fits
    ]

last_on_path : (c : Cell) (cs : List Cell) → OnPath (c ∷ cs) (last_or c cs)
last_on_path c [] = ground (arith, same_refl c)
last_on_path c (d ∷ ds) = ground (arith, last_on_path d ds)

last_or-append : (c e : Cell) (cs : List Cell) → last_or c (cs ++ e ∷ []) ≡ e
last_or-append c e [] = refl
last_or-append c e (d ∷ ds) = last_or-append d e ds

-- At most 80 cells of the path, the first and the last of them the path's own.
pub record IsSample (c : Cell) (cs q : List Cell) : Type 0 where
  pub others : List Cell
  pub begins : q ≡ c ∷ others
  pub ends : last_or c others ≡ last_or c cs
  pub on_path : All (OnPath (c ∷ cs)) q
  pub few_cells : length q ≤ 80

pub sampled-IsSample : (c : Cell) (cs : List Cell) → IsSample c cs (sampled c cs)
unfolding sampled
sampled-IsSample c cs =
    elim (Bool-cases
      (same (last_or c (every (stride (length (c ∷ cs))) 0 (c ∷ cs))) (last_or c cs))) [
        | inl there ↦
            rw (there, sampled)
              (record {
                others = every (stride (length (c ∷ cs))) (stride (length (c ∷ cs)) - 1) cs;
                begins = refl;
                ends = same→eq _ _ there;
                on_path = every-OnPath (stride (length (c ∷ cs))) 0 (c ∷ cs);
                few_cells = omega (arith, length-every-stride (c ∷ cs));
              })
        | inr away ↦
            let q = every (stride (length (c ∷ cs))) (stride (length (c ∷ cs)) - 1) cs in
            rw (away, sampled)
              (record {
                others = q ++ last_or c cs ∷ [];
                begins = refl;
                ends = last_or-append c (last_or c cs) q;
                on_path =
                    All-append (OnPath (c ∷ cs)) (c ∷ q) (last_or c cs ∷ [])
                      (every-OnPath (stride (length (c ∷ cs))) 0 (c ∷ cs)) (last_on_path c cs, tt);
                few_cells = omega (
                  arith,
                  length-every-stride (c ∷ cs),
                  length-append (c ∷ q) (last_or c cs ∷ []),
                );
              })
      ]

module _ (lib : Library) (grid : Grid) (meta : GridMeta) (a b : World) (clearance : ℕ) where
  -- What `plan_finite` may return: the straight line, where the ends share a cell or nothing
  -- was found; or a sample of a path over free cells.
  pub data Planned : Option (List World) → Type 0 where
    straight_line :
        (same (cell_of meta grid a) (cell_of meta grid b) ≡ true)
          ⊎ (search_path grid.width grid.height
                (cost lib meta clearance grid)
                lib.hypot
                (cell_of meta grid b)
                (cell_of meta grid a)
              ≡ some none)
        → Planned (some (straight a b))
    along :
        (c : Cell) (cs q : List Cell)
        → IsPath grid.width grid.height
            (cost lib meta clearance grid)
            lib.hypot
            (cell_of meta grid b)
            (cell_of meta grid a)
            (c ∷ cs)
        → IsSample c cs q
        → Planned (some (map (world_of lib meta) q))

  abbrev start : Cell
  start = cell_of meta grid a

  abbrev goal : Cell
  goal = cell_of meta grid b

  abbrev result : Option (Option (List Cell))
  result = search_path grid.width grid.height (cost lib meta clearance grid) lib.hypot goal start

  path_drawn :
      (p : List Cell)
      → IsPath grid.width grid.height (cost lib meta clearance grid) lib.hypot goal start p
      → Planned (some (drawn lib grid meta a b (some p)))
  unfolding drawn
  path_drawn [] path = cc (path.starts)
  path_drawn (c ∷ cs) path = along c cs (sampled c cs) path (sampled-IsSample c cs)

  finished-Planned :
      (r : Option (Option (List Cell)))
      → result ≡ r
      → Searched grid.width grid.height (cost lib meta clearance grid) lib.hypot goal start r
      → Planned (finished lib grid meta a b r)
  unfolding finished
  finished-Planned r e nothing = straight_line (inr e)
  finished-Planned r e (a_path p path) = path_drawn p path

  -- Between finite places `plan_global_path` returns.
  pub plan_finite-Planned : Planned (plan_finite lib grid meta a b clearance)
  unfolding plan_finite
  plan_finite-Planned = elim (Bool-cases (same start goal)) [
    | inl e ↦ rw (e, plan_finite) (straight_line (inl e))
    | inr e ↦
        rw (e, plan_finite)
          (finished-Planned result refl (
            search_path-Searched grid.width grid.height (cost lib meta clearance grid) lib.hypot
              goal start))
  ]

-- A coordinate is no number, or the resolution is 0.
abbrev pub IsUnfit : GridMeta → Position → Position → Type 0
IsUnfit meta a b =
    (meta.resolution ≡ 0)
    ⊎ ((is_finite a.x && is_finite a.y && (is_finite b.x && is_finite b.y)) ≡ false)

-- What `plan_global_path` may do: raise, for places that are unfit; or return a plan between the
-- places, which are finite.
abbrev pub IsPlan :
    Library
    → Grid
    → GridMeta
    → Position
    → Position
    → ℕ
    → Outcome PlaceError (Option (List World))
    → Type 0
IsPlan lib grid meta a b clearance (raises e) = IsUnfit meta a b
IsPlan lib grid meta a b clearance (returns path) =
    (start : World) × (goal : World) × (a ≡ record { x = fin start.x; y = fin start.y })
    × (b ≡ record { x = fin goal.x; y = fin goal.y })
    × Planned lib grid meta start goal clearance path
