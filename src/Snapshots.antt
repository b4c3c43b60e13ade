-- ===== src/Snapshots.antt =====
-- server/swarmdeck_server/mapsvc/snapshot.py and synchronization.py: the snapshots of the map that
-- readers get, and the patches between them.
--
-- An int8 array is a function of the row and the column, read below the height and the width of the
-- snapshot's `GridMeta`; copies and read-only flags are what a function has anyway. Origins and the
-- resolution are thousandths. Each call holds the lock, so that calls follow one another.
pub mod Patches
pub mod Baselines
mod Samples
use swarmdeck.Prelude.{
  ℕ, zero, suc, ◌+◌, ◌-◌, ◌≤◌, Bool, true, false, not, ◌&&◌, Option, none, some, List, [], ◌∷◌,
  ◌++◌, leb, ltb, ◌==◌, if◌then◌else◌, keep,
}
use swarmdeck.Prelude.Int.{ℤ, negsuc, pos_part, neg_part, ◌-ℤ◌, eqb_ℤ}
use swarmdeck.Prelude.Rounding.{rint}

pub record GridMeta : Type 0 where
  pub resolution : ℕ
  pub width : ℕ
  pub height : ℕ
  pub origin_x : ℤ
  pub origin_y : ℤ

abbrev pub Cells : Type 0
Cells = ℕ → ℕ → ℤ

abbrev pub unknown : ℤ
unknown = negsuc 0

pub record MapSnapshot : Type 0 where
  pub meta : GridMeta
  pub merged : Cells
  pub patch_prev : Cells
  pub seq : ℕ

-- `copy_meta`
abbrev pub copy_meta : GridMeta → GridMeta
copy_meta m = record {
  resolution = m.resolution;
  width = m.width;
  height = m.height;
  origin_x = m.origin_x;
  origin_y = m.origin_y;
}

unfoldable pub same_extent : GridMeta → GridMeta → Bool
same_extent a b =
    a.width == b.width
    && (a.height == b.height && (eqb_ℤ a.origin_x b.origin_x && eqb_ℤ a.origin_y b.origin_y))

abbrev min_ℕ : ℕ → ℕ → ℕ
min_ℕ a b = if ltb b a then b else a

-- Along one axis: where the old cell stands of which the new cell `i` is a copy. `off` is the offset
-- of the old map in the new one.
unfoldable pub source : ℕ → ℕ → ℤ → ℕ → Option ℕ
source old new off i =
    let src = neg_part off in
    let dst = pos_part off in
    let size = min_ℕ (old - src) (new - dst) in
    if leb dst i && ltb i (dst + size) then some (src + (i - dst)) else none

-- The cell of the old array at a row and a column, where there are both.
abbrev pub picked : Cells → Option ℕ → Option ℕ → ℤ
picked a none c = unknown
picked a (some y) none = unknown
picked a (some y) (some x) = a y x

unfoldable pub expand_patch_baseline : Cells → GridMeta → GridMeta → Cells
expand_patch_baseline previous old new y x =
    if same_extent old new
    then previous y x
    else picked previous
        (source old.height new.height (rint (old.origin_y -ℤ new.origin_y) new.resolution) y)
        (source old.width new.width (rint (old.origin_x -ℤ new.origin_x) new.resolution) x)

abbrev pub make_snapshot : GridMeta → Cells → Cells → ℕ → MapSnapshot
make_snapshot meta merged patch_prev seq = record {
  meta = copy_meta meta;
  merged = merged;
  patch_prev = patch_prev;
  seq = seq;
}

-- `SnapshotStore.__init__`
pub init : GridMeta → Cells → Cells → MapSnapshot
init meta merged previous = make_snapshot meta merged previous 0

-- `SnapshotStore.publish`
unfoldable pub publish : GridMeta → Cells → MapSnapshot → MapSnapshot
publish meta merged s =
    make_snapshot meta merged (expand_patch_baseline s.patch_prev s.meta meta) s.seq

pub record Place : Type 0 where
  pub y : ℕ
  pub x : ℕ

-- The cells of an array, row after row.
abbrev row : ℕ → ℕ → List Place
row y zero = []
row y (suc w) = row y w ++ record { y = y; x = w } ∷ []

abbrev pub places : ℕ → ℕ → List Place
places zero w = []
places (suc h) w = places h w ++ row h w

-- `np.where(snapshot.merged != snapshot.patch_prev)`
abbrev pub differs : MapSnapshot → Place → Bool
differs s p = not (eqb_ℤ (s.merged p.y p.x) (s.patch_prev p.y p.x))

abbrev pub changed : MapSnapshot → List Place
changed s = keep (differs s) (places s.meta.height s.meta.width)

-- `ys.min()` and `ys.max()`, of the places `p` and `ps`, and so for `xs`.
unfoldable pub least : (Place → ℕ) → Place → List Place → ℕ
least f p [] = f p
least f p (q ∷ ps) = let rest = least f q ps in if ltb rest (f p) then rest else f p

unfoldable pub greatest : (Place → ℕ) → Place → List Place → ℕ
greatest f p [] = f p
greatest f p (q ∷ ps) = let rest = greatest f q ps in if ltb (f p) rest then rest else f p

pub record PatchCapture : Type 0 where
  pub snapshot : MapSnapshot
  pub x0 : ℕ
  pub y0 : ℕ
  pub x1 : ℕ
  pub y1 : ℕ
  pub cells : Cells
  pub seq : ℕ

-- The patch of the changed places `p` and `ps`.
unfoldable pub patch_of : MapSnapshot → Place → List Place → PatchCapture
patch_of s p ps =
    let y0 = least (λ (q : Place). q.y) p ps in
    let x0 = least (λ (q : Place). q.x) p ps in
    record {
      snapshot = s;
      x0 = x0;
      y0 = y0;
      x1 = greatest (λ (q : Place). q.x) p ps + 1;
      y1 = greatest (λ (q : Place). q.y) p ps + 1;
      cells = λ y x. s.merged (y0 + y) (x0 + x);
      seq = s.seq + 1;
    }

-- `SnapshotStore.capture_patch`, of the changed places: the patch, and the snapshot afterwards.
unfoldable pub captured : MapSnapshot → List Place → Option PatchCapture × MapSnapshot
captured s [] = (none, s)
captured s (p ∷ ps) = (some (patch_of s p ps), record s { patch_prev = s.merged; seq = s.seq + 1 })

unfoldable pub capture_patch : MapSnapshot → Option PatchCapture × MapSnapshot
capture_patch s = captured s (changed s)
