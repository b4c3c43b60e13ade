-- ===== src/Snapshots/Baselines.antt =====
-- server/swarmdeck_server/mapsvc/snapshot.py: a baseline that moves into a larger map.
use swarmdeck.Prelude.{
  ℕ, ◌+◌, ◌-◌, ◌<◌, ◌≡◌, refl, Bool, true, false, Option, none, some, leb, ltb, ◌&&◌, if◌then◌else◌,
  Bool-cases, inl, inr, arith,
}
use swarmdeck.Prelude.Int.{ℤ, pos, negsuc, pos_part, neg_part, ◌-ℤ◌}
use swarmdeck.Prelude.Rounding.{rint}
use swarmdeck.Snapshots.{
  GridMeta, Cells, unknown, same_extent, source, picked, expand_patch_baseline,
}

-- Along an axis: a new cell is a copy of an old one exactly where the old one's place, moved by the
-- offset, is the new cell's.
pub data Placed (old new : ℕ) (off : ℤ) (i : ℕ) : Option ℕ → Type 0 where
  copied :
      (j : ℕ)
      → j < old
      → i < new
      → j + pos_part off ≡ i + neg_part off
      → Placed old new off i (some j)
  fresh :
      ((j : ℕ) → j < old → i < new → j + pos_part off ≡ i + neg_part off → ⊥)
      → Placed old new off i none

abbrev from : ℕ → ℕ → ℤ → ℕ → Bool
from old new off i =
    leb (pos_part off) i
    && ltb i (
        pos_part off
        + (if ltb (new - pos_part off) (old - neg_part off)
            then new - pos_part off
            else old - neg_part off))

in_window :
    (old new : ℕ) (off : ℤ) (i j : ℕ)
    → j < old
    → i < new
    → j + pos_part off ≡ i + neg_part off
    → from old new off i ≡ true
in_window old new (pos d) i j hj hi e = ground (arith, e)
in_window old new (negsuc d) i j hj hi e = ground (arith, e)

source-Placed : (old new : ℕ) (off : ℤ) (i : ℕ) → Placed old new off i (source old new off i)
unfolding source
source-Placed old new off i = elim (Bool-cases (from old new off i)) [
  | inl e ↦
      rw (e, source)
        (copied (neg_part off + (i - pos_part off)) (ground (arith, e)) (ground (arith, e))
          (ground (arith, e)))
  | inr e ↦ rw (e, source) (fresh λ j hj hi same. cc (in_window old new off i j hj hi same, e))
]

-- What the new baseline holds at a cell: the old map's value at the place that the offset moves
-- there, if there is one, and unknown if there is none.
pub record IsMoved (a : Cells) (old new : GridMeta) (dy dx : ℤ) (y x : ℕ) (v : ℤ) : Type 0 where
  pub kept :
      (y' x' : ℕ)
      → y' < old.height
      → x' < old.width
      → y' + pos_part dy ≡ y + neg_part dy
      → x' + pos_part dx ≡ x + neg_part dx
      → v ≡ a y' x'
  pub else_unknown :
      ((y' x' : ℕ)
        → y' < old.height
        → x' < old.width
        → y' + pos_part dy ≡ y + neg_part dy
        → x' + pos_part dx ≡ x + neg_part dx
        → ⊥)
      → v ≡ unknown

-- The offset of the old map in the new one, in cells.
abbrev pub offset : ℤ → ℤ → GridMeta → ℤ
offset old new m = rint (old -ℤ new) m.resolution

picked-IsMoved :
    (a : Cells) (old new : GridMeta) (dy dx : ℤ) (y x : ℕ) (r c : Option ℕ)
    → y < new.height
    → x < new.width
    → Placed old.height new.height dy y r
    → Placed old.width new.width dx x c
    → IsMoved a old new dy dx y x (picked a r c)
picked-IsMoved a old new dy dx y x r c hy hx (copied j hj hi e) (copied k hk hl f) = record {
  kept = λ y' x' ly lx ey ex.
      let rows : j ≡ y' = omega (arith, e, ey) in
      let columns : k ≡ x' = omega (arith, f, ex) in λ i. a (rows i) (columns i);
  else_unknown = λ absent. absurd (absent j k hj hk e f);
}
picked-IsMoved a old new dy dx y x r c hy hx (copied j hj hi e) (fresh absent) = record {
  kept = λ y' x' ly lx ey ex. absurd (absent x' lx hx ex);
  else_unknown = λ _. refl;
}
picked-IsMoved a old new dy dx y x r c hy hx (fresh absent) placed = record {
  kept = λ y' x' ly lx ey ex. absurd (absent y' ly hy ey);
  else_unknown = λ _. refl;
}

-- When a map of another extent is published, each cell of the new baseline holds what the old one
-- held at the same place in the world, and unknown where the old one had no cell.
pub expand_patch_baseline-IsMoved :
    (a : Cells) (old new : GridMeta) (y x : ℕ)
    → same_extent old new ≡ false
    → y < new.height
    → x < new.width
    → IsMoved a old new
        (offset old.origin_y new.origin_y new)
        (offset old.origin_x new.origin_x new)
        y
        x
        (expand_patch_baseline a old new y x)
unfolding expand_patch_baseline
expand_patch_baseline-IsMoved a old new y x other hy hx =
    rw (other, expand_patch_baseline)
      (picked-IsMoved a old new _ _ y x _ _ hy hx (source-Placed old.height new.height _ y)
        (source-Placed old.width new.width _ x))
