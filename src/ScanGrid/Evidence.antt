-- ===== src/ScanGrid/Evidence.antt =====
-- mapsvc/scan_grid.py: `ScanGridAccumulator`: what a scan makes of the evidence and the cells.
--
-- Lengths are in thousandths of a metre, exact where the code has floats, and every point is finite.
-- The evidence does not wrap: within a scan it stays far below 2^31. The slices that `_expand` copies
-- into are taken to have the size of the old arrays, and the resolution is not 0.
pub mod Verdicts
pub mod Indices
use swarmdeck.Prelude.{
  ℕ, zero, suc, ◌+◌, ◌-◌, ◌*◌, ◌/◌, Bool, true, false, not, ◌&&◌, ◌||◌, Option, none, some, List,
  [], ◌∷◌, ◌++◌, map, if◌then◌else◌, leb, ltb, ◌==◌,
}
use swarmdeck.Prelude.Int.{
  ℤ, pos, negsuc, neg, pos_part, abs, times, ◌+ℤ◌, ◌-ℤ◌, ltb_ℤ, leb_ℤ, min_ℤ, max_ℤ,
}
use swarmdeck.Prelude.Rounding.{rint}
use swarmdeck.Planner.{World}
use swarmdeck.Snapshots.{GridMeta}
use swarmdeck.ScanGrid.Lines.{Cell, bresenham}

abbrev pub unknown : ℤ
unknown = negsuc 0

abbrev pub free : ℤ
free = pos 0

abbrev pub occupied : ℤ
occupied = pos 100

abbrev pub hit_gain : ℕ
hit_gain = 3

abbrev pub miss_gain : ℕ
miss_gain = 1

abbrev pub evidence_clamp : ℕ
evidence_clamp = 12

abbrev pub occupied_at : ℤ
occupied_at = pos 2

abbrev pub free_at : ℤ
free_at = negsuc 0

abbrev pub free_decay : ℕ
free_decay = 4

-- The arrays are functions of the row and the column.
pub record ScanGrid : Type 0 where
  pub meta : GridMeta
  pub cells : ℕ → ℕ → ℤ
  pub evidence : ℕ → ℕ → ℤ
  pub retain_free_space : Bool

-- `__init__`: `n = int(size_m / resolution)`
abbrev pub init : World → ℕ → ℕ → Bool → ScanGrid
init origin resolution size retain =
    let n = size / resolution in
    record {
      meta = record {
        resolution = resolution;
        width = n;
        height = n;
        origin_x = origin.x -ℤ pos (size / 2);
        origin_y = origin.y -ℤ pos (size / 2);
      };
      cells = λ y x. unknown;
      evidence = λ y x. pos 0;
      retain_free_space = retain;
    }

-- `int(v / res)`: the fraction is cut off, towards zero.
unfoldable pub int_quotient : ℤ → ℕ → ℤ
int_quotient (pos a) r = pos (a / r)
int_quotient (negsuc a) r = neg (suc a / r)

abbrev pub below : ℤ → ℕ → Bool
below v n = leb_ℤ (pos 0) v && ltb_ℤ v (pos n)

unfoldable pub to_cell : GridMeta → World → Option Cell
to_cell meta p =
    let gx = int_quotient (p.x -ℤ meta.origin_x) meta.resolution in
    let gy = int_quotient (p.y -ℤ meta.origin_y) meta.resolution in
    if below gx meta.width && below gy meta.height then some (record { x = gx; y = gy }) else none

abbrev pub max_ray_range : ℕ
max_ray_range = 50000

-- `points_xy[in_range]`
unfoldable pub in_range : World → List World → List World
in_range o [] = []
in_range o (p ∷ ps) =
    let dx = abs (p.x -ℤ o.x) in
    let dy = abs (p.y -ℤ o.y) in
    let rest = in_range o ps in
    if leb (dx * dx + dy * dy) (max_ray_range * max_ray_range) then p ∷ rest else rest

-- `hits`, as cells: the points outside the grid are left out.
abbrev pub add_hit : Option Cell → List Cell → List Cell
add_hit none hs = hs
add_hit (some h) hs = h ∷ hs

unfoldable pub hits_of : GridMeta → List World → List Cell
hits_of meta [] = []
hits_of meta (p ∷ ps) = add_hit (to_cell meta p) (hits_of meta ps)

-- The cells that the beam to a hit crosses; the loop always ends.
abbrev pub ended : Option (List Cell) → List Cell
ended none = []
ended (some cs) = cs

abbrev pub crossed_by : Cell → Cell → List Cell
crossed_by o h = ended (bresenham o.x o.y h.x h.y)

unfoldable pub crossed_of : Cell → List Cell → List Cell
crossed_of o [] = []
crossed_of o (h ∷ hs) = crossed_by o h ++ crossed_of o hs

-- `ys * width + xs`
abbrev pub flat_index : ℕ → Cell → ℤ
flat_index w c = times c.y w +ℤ c.x

-- `np.bincount(indices, minlength=n)[k]`
unfoldable pub bincount : List ℤ → ℕ → ℕ
bincount [] k = 0
bincount (i ∷ is) k =
    let rest = bincount is k in if leb_ℤ i (pos k) && leb_ℤ (pos k) i then suc rest else rest

-- `np.clip(v, -EVIDENCE_CLAMP, EVIDENCE_CLAMP)`
abbrev pub clip : ℤ → ℤ
clip v = min_ℤ (max_ℤ v (neg evidence_clamp)) (pos evidence_clamp)

-- The evidence of a cell that a scan crossed and struck so often.
unfoldable pub weighed : ℕ → ℕ → ℤ → ℤ
weighed misses struck v = clip ((v -ℤ pos (misses * miss_gain)) +ℤ pos (struck * hit_gain))

-- `np.minimum(0, flat[fading] + FREE_DECAY)`
unfoldable pub faded : Bool → ℕ → ℕ → ℤ → ℤ
faded retain misses struck v =
    if not retain && (ltb_ℤ v (pos 0) && (misses == 0 && struck == 0))
    then min_ℤ (pos 0) (v +ℤ pos free_decay)
    else v

unfoldable pub verdict : ℤ → ℤ
verdict v = if leb_ℤ occupied_at v then occupied else if leb_ℤ v free_at then free else unknown

abbrev pub next_evidence : Bool → ℕ → ℕ → ℤ → ℤ
next_evidence retain misses struck v = faded retain misses struck (weighed misses struck v)

abbrev pub count_at : ℕ → List Cell → ℕ → ℕ → ℕ
count_at w cs y x = bincount (map (flat_index w) cs) (y * w + x)

-- The arrays after a scan.
abbrev pub evidence_after : List Cell → List Cell → ScanGrid → ℕ → ℕ → ℤ
evidence_after crossed hits g y x =
    next_evidence g.retain_free_space (count_at g.meta.width crossed y x)
      (count_at g.meta.width hits y x) (g.evidence y x)

abbrev pub cells_after : List Cell → List Cell → ScanGrid → ℕ → ℕ → ℤ
cells_after crossed hits g y x = verdict (evidence_after crossed hits g y x)

unfoldable pub updated : List Cell → List Cell → ScanGrid → ScanGrid
updated crossed hits g = record g {
  evidence = evidence_after crossed hits g;
  cells = cells_after crossed hits g;
}

-- `if not hits: return`
unfoldable pub struck_by : Cell → List Cell → ScanGrid → ScanGrid
struck_by o [] g = g
struck_by o (h ∷ hs) g = updated (crossed_of o (h ∷ hs)) (h ∷ hs) g

abbrev pub from_cell : Option Cell → List World → ScanGrid → ScanGrid
from_cell none ps g = g
from_cell (some o) ps g = struck_by o (hits_of g.meta ps) g

abbrev pub expand_chunk : ℕ
expand_chunk = 5000

-- `math.floor(v / r) * r` and `math.ceil(v / r) * r`
unfoldable pub floor_to : ℤ → ℕ → ℤ
floor_to (pos a) r = pos (a / r * r)
floor_to (negsuc a) r = neg ((suc a + (r - 1)) / r * r)

unfoldable pub ceil_to : ℤ → ℕ → ℤ
ceil_to (pos a) r = pos ((a + (r - 1)) / r * r)
ceil_to (negsuc a) r = neg (suc a / r * r)

abbrev pub lowest : (World → ℤ) → World → List World → ℤ
lowest f o [] = f o
lowest f o (p ∷ ps) = min_ℤ (f p) (lowest f o ps)

abbrev pub highest : (World → ℤ) → World → List World → ℤ
highest f o [] = f o
highest f o (p ∷ ps) = max_ℤ (f p) (highest f o ps)

abbrev pub x_of : World → ℤ
x_of p = p.x

abbrev pub y_of : World → ℤ
y_of p = p.y

abbrev pub end_x : GridMeta → ℤ
end_x meta = meta.origin_x +ℤ pos (meta.width * meta.resolution)

abbrev pub end_y : GridMeta → ℤ
end_y meta = meta.origin_y +ℤ pos (meta.height * meta.resolution)

-- The sensor and the points are in the grid.
unfoldable pub fits : GridMeta → World → List World → Bool
fits meta o ps = not (
    ltb_ℤ (lowest x_of o ps) meta.origin_x
    || leb_ℤ (end_x meta) (highest x_of o ps)
    || ltb_ℤ (lowest y_of o ps) meta.origin_y
    || leb_ℤ (end_y meta) (highest y_of o ps))

-- A full array of `empty` with the old one at its rows and columns.
unfoldable pub placed : ℤ → GridMeta → ℕ → ℕ → (ℕ → ℕ → ℤ) → ℕ → ℕ → ℤ
placed empty old off_y off_x a y x =
    if leb off_y y && ltb y (off_y + old.height) && (leb off_x x && ltb x (off_x + old.width))
    then a (y - off_y) (x - off_x)
    else empty

-- `_expand(min_x, max_x, min_y, max_y)`
unfoldable pub expand : ℤ → ℤ → ℤ → ℤ → ScanGrid → ScanGrid
expand min_x max_x min_y max_y g =
    let old = g.meta in
    let r = old.resolution in
    let new_min_x = min_ℤ old.origin_x (floor_to (min_x -ℤ pos expand_chunk) r) in
    let new_max_x = max_ℤ (end_x old) (ceil_to (max_x +ℤ pos expand_chunk) r) in
    let new_min_y = min_ℤ old.origin_y (floor_to (min_y -ℤ pos expand_chunk) r) in
    let new_max_y = max_ℤ (end_y old) (ceil_to (max_y +ℤ pos expand_chunk) r) in
    let off_x = pos_part (rint (old.origin_x -ℤ new_min_x) r) in
    let off_y = pos_part (rint (old.origin_y -ℤ new_min_y) r) in
    record g {
      meta = record {
        resolution = r;
        width = pos_part (rint (new_max_x -ℤ new_min_x) r);
        height = pos_part (rint (new_max_y -ℤ new_min_y) r);
        origin_x = new_min_x;
        origin_y = new_min_y;
      };
      cells = placed unknown old off_y off_x g.cells;
      evidence = placed (pos 0) old off_y off_x g.evidence;
    }

-- The grid in which a scan of the points in range is drawn; without one nothing changes.
unfoldable pub prepared : World → List World → ScanGrid → ScanGrid
unfolding expand
prepared o [] g = g
prepared o (p ∷ ps) g =
    let qs = p ∷ ps in
    if fits g.meta o qs
    then g
    else expand (lowest x_of o qs) (highest x_of o qs) (lowest y_of o qs) (highest y_of o qs) g

-- `integrate(origin_x, origin_y, points_xy)`
unfoldable pub accumulate : World → List World → ScanGrid → ScanGrid
unfolding prepared
accumulate o ps g =
    let near = in_range o ps in let h = prepared o near g in from_cell (to_cell h.meta o) near h
