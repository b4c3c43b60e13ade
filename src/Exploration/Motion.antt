-- ===== src/Exploration/Motion.antt =====
-- The handlers of an exploration session as a transition system, and what keeps the robot still.
-- The operator's `start` and `stop` and the callbacks of ROS run in any order; while a call of
-- `navigate_to` is being prepared, everything but another path may come in between, and the goal
-- may reach the robot at any moment of it.
use swarmdeck.Prelude.{ℕ, ◌≤◌, ◌≡◌, Bool, true, false, Option, List, [], ◌∷◌, arith}
use swarmdeck.Exploration.{
  Status, Effect, navigate_to, cancel_goal, Env, Session, Response, Report, malformed, report,
  PathMessage, stop_with, start, started, tick, expire_start, expire_stop, watch_link, on_status,
  on_path, on_path_end,
}

-- Whether the last word that the robot's navigation had was a goal of the planner.
abbrev pub is_moving : List Effect → Bool
is_moving [] = false
is_moving (navigate_to g ∷ _) = true
is_moving (cancel_goal ∷ _) = false
is_moving (_ ∷ log) = is_moving log

-- What every handler does to a session in which an inactive robot stands still.
pub record Keeps (s s' : Session) : Type 0 where
  pub still :
      (s.active ≡ false → is_moving s.log ≡ false) → s'.active ≡ false → is_moving s'.log ≡ false
  pub older : s.generation ≤ s'.generation

pub stop_with-Keeps :
    (n : Bool) (st : Status) (env : Env) (s : Session) → Keeps s (stop_with n st env s)
unfolding stop_with
stop_with-Keeps n st env s = record { still = λ h a. ground arith; older = ground arith }

pub start-Keeps : (env : Env) (s : Session) → Keeps s (start env s)
unfolding start
start-Keeps env s = record { still = λ h a. ground arith; older = ground arith }

pub started-Keeps :
    (env : Env) (f g : ℕ) (r : Response) (s : Session) → Keeps s (started env f g r s)
unfolding started
started-Keeps env f g r s = record { still = λ h a. ground arith; older = ground arith }

pub on_status-Keeps : (env : Env) (r : Report) (s : Session) → Keeps s (on_status env r s)
unfolding on_status
on_status-Keeps env malformed s = record { still = λ h a. h a; older = omega arith }
on_status-Keeps env (report t st) s = record { still = λ h a. ground arith; older = ground arith }

expire_start-Keeps : (env : Env) (p : Option ℕ) (s : Session) → Keeps s (expire_start env p s)
unfolding expire_start
expire_start-Keeps env p s = record { still = λ h a. ground arith; older = ground arith }

expire_stop-Keeps : (env : Env) (p : Option ℕ) (s : Session) → Keeps s (expire_stop env p s)
unfolding expire_stop
expire_stop-Keeps env p s = record { still = λ h a. ground arith; older = ground arith }

watch_link-Keeps : (env : Env) (s : Session) → Keeps s (watch_link env s)
unfolding watch_link
watch_link-Keeps env s = record { still = λ h a. ground arith; older = ground arith }

Keeps-trans : {s t u : Session} → Keeps s t → Keeps t u → Keeps s u
Keeps-trans k l = record {
  still = λ h. l.still (k.still h);
  older = omega (arith, k.older, l.older);
}

pub tick-Keeps : (env : Env) (s : Session) → Keeps s (tick env s)
unfolding tick
tick-Keeps env s =
    let s₁ = expire_start env s.pending s in
    let s₂ = expire_stop env s₁.pending_stop s₁ in
    Keeps-trans (expire_start-Keeps env s.pending s)
      (Keeps-trans (expire_stop-Keeps env s₁.pending_stop s₁) (watch_link-Keeps env s₂))

pub on_path-Keeps : (env : Env) (m : PathMessage) (s : Session) → Keeps s (on_path env m s).0
unfolding on_path
on_path-Keeps env m s = record { still = λ h a. ground arith; older = ground arith }

pub on_path_end-older :
    (env : Env) (g : ℕ) (failed : Bool) (s : Session)
    → s.generation ≤ (on_path_end env g failed s).generation
unfolding on_path_end
on_path_end-older env g failed s = ground arith

-- After the call nothing moves unless the session is active.
pub on_path_end-still :
    (env : Env) (g : ℕ) (failed : Bool) (s : Session)
    → (on_path_end env g failed s).active ≡ false
    → is_moving (on_path_end env g failed s).log ≡ false
unfolding on_path_end
on_path_end-still env g failed s a = ground arith
