-- ===== src/Settings/Names.antt =====
-- config/settings.py: the names of the robots' rows, and the two readers of the rows.
use swarmdeck.Prelude.{
  ◌≡◌, refl, String, Bool, true, false, not, ◌&&◌, List, [], ◌∷◌, str_eq, str_eq_iff, contains,
  is_nodup, arith,
}
use swarmdeck.Settings.Robots.{RobotRow, ids, is_robot_enabled, disabled_robot_ids}

-- No name stands twice, and none is empty.
abbrev pub is_named : List String → Bool
is_named [] = true
is_named (n ∷ ns) = not (str_eq n "") && is_named ns

abbrev pub AreNamed : List RobotRow → Type 0
AreNamed rows = (is_nodup (ids rows) ≡ true) × (is_named (ids rows) ≡ true)

disabled_absent :
    (id : String) (rows : List RobotRow)
    → contains id (ids rows) ≡ false
    → contains id (disabled_robot_ids rows) ≡ false
unfolding disabled_robot_ids
disabled_absent id [] h = refl
disabled_absent id (r ∷ rows) h = ground (arith, disabled_absent id rows)

-- The two readers of the rows agree: a robot is enabled exactly if it is not among those that are
-- disabled, also where it has no row.
pub is_robot_enabled-disabled_robot_ids :
    (id : String) (rows : List RobotRow)
    → AreNamed rows
    → is_robot_enabled id rows ≡ not (contains id (disabled_robot_ids rows))
unfolding is_robot_enabled disabled_robot_ids
is_robot_enabled-disabled_robot_ids id [] h = refl
is_robot_enabled-disabled_robot_ids id (r ∷ rows) h = ground (
  arith,
  str_eq_iff r.id id,
  disabled_absent id rows,
  is_robot_enabled-disabled_robot_ids id rows,
)
