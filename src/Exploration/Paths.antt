-- ===== src/Exploration/Paths.antt =====
-- `on_path`: which paths of the planner reach the robot.
use swarmdeck.Prelude.{ℕ, ◌≤◌, ◌≡◌, Bool, true, false, ◌↔◌, none, some, List, ◌∷◌, arith, str_eq}
use swarmdeck.Exploration.{
  Env, Goal, Session, PathMessage, on_path, last, lstrip, is_finite_goal, stamp_of, drive_zero,
  cancel_goal, Effect,
}

-- The last words to the robot were a cancelled goal and a zero velocity.
abbrev pub is_halted : List Effect → Bool
is_halted (drive_zero ∷ cancel_goal ∷ _) = true
is_halted _ = false

-- What a path has to be for its last pose to be sent to the robot.
pub record IsUsable (s : Session) (m : PathMessage) (g : Goal) : Type 0 where
  pub is_active : s.active ≡ true
  pub is_new : s.started_ns ≤ stamp_of m
  pub is_last : last m.poses ≡ some g
  pub same_frame : str_eq (lstrip m.frame_id) s.frame ≡ true
  pub finite : is_finite_goal g ≡ true

on_path_sound :
    (env : Env) (m : PathMessage) (s : Session) (n : ℕ) (g : Goal)
    → (on_path env m s).1 ≡ some (n, g)
    → IsUsable s m g × (n ≡ s.generation)
unfolding on_path
on_path_sound env m s n g e = ground arith

on_path_complete :
    (env : Env) (m : PathMessage) (s : Session) (g : Goal)
    → IsUsable s m g
    → (on_path env m s).1 ≡ some (s.generation, g)
unfolding on_path
on_path_complete env m s g u = ground arith

-- A path makes the robot navigate exactly when the session is active, the path is not older than
-- the session, its frame is the session's and its last pose is finite; the goal is that pose, and
-- the generation that the later check compares is the session's.
pub on_path_navigates_iff :
    (env : Env) (m : PathMessage) (s : Session) (g : Goal)
    → ((on_path env m s).1 ≡ some (s.generation, g)) ↔ IsUsable s m g
on_path_navigates_iff env m s g =
    (λ e. (on_path_sound env m s s.generation g e).0, on_path_complete env m s g)

-- Any other path of the running session ends it: the robot's goal is cancelled and it is stopped.
pub on_path_else_stops :
    (env : Env) (m : PathMessage) (s : Session)
    → s.active ≡ true
    → s.started_ns ≤ stamp_of m
    → (on_path env m s).1 ≡ none
    → ((on_path env m s).0.active ≡ false) × (is_halted (on_path env m s).0.log ≡ true)
unfolding on_path
on_path_else_stops env m s a h e = ground arith
