-- ===== src/Exploration/Interleavings.antt =====
-- Every interleaving of the handlers of an exploration session, as a step relation.
use swarmdeck.Prelude.{
  ℕ, ◌≤◌, ◌<◌, ◌≡◌, refl, String, Bool, true, false, Option, none, some, List, ◌∷◌, arith,
  if◌then◌else◌,
}
use swarmdeck.Exploration
use swarmdeck.Exploration.{
  Effect, navigate_to, cancel_goal, drive_zero, warn, Env, Goal, Session, Response, Report,
  PathMessage, emit, stop_with, on_path_end,
}
use swarmdeck.Exploration.Motion.{
  is_moving, start-Keeps, stop_with-Keeps, started-Keeps, tick-Keeps, on_status-Keeps,
  on_path-Keeps, on_path_end-still, on_path_end-older,
}

-- The session, and the call of `navigate_to` that is being made, with the generation read before.
pub record World : Type 0 where
  pub session : Session
  pub call : Option (ℕ × Goal)

-- The goal reaches the robot while the call is being made (`deliver`), once, often or never.
pub data Step : World → World → Type 0 where
  start : (w : World) (env : Env) → Step w (record w { session = Exploration.start env w.session })
  stop : (w : World) (env : Env) → Step w (record w { session = Exploration.stop env w.session })
  started :
      (w : World) (env : Env) (future generation : ℕ) (r : Response)
      → Step w (record w { session = Exploration.started env future generation r w.session })
  tick : (w : World) (env : Env) → Step w (record w { session = Exploration.tick env w.session })
  status :
      (w : World) (env : Env) (r : Report)
      → Step w (record w { session = Exploration.on_status env r w.session })
  link :
      (w : World) (now : ℕ) → Step w (record w { session = record w.session { last_link = now } })
  path :
      (w : World) (env : Env) (m : PathMessage)
      → w.call ≡ none
      → Step w (record {
        session = (Exploration.on_path env m w.session).0;
        call = (Exploration.on_path env m w.session).1;
      })
  deliver :
      (w : World) (generation : ℕ) (goal : Goal)
      → w.call ≡ some (generation, goal)
      → Step w (record w { session = emit (navigate_to goal) w.session })
  return :
      (w : World) (env : Env) (generation : ℕ) (goal : Goal) (failed : Bool)
      → w.call ≡ some (generation, goal)
      → Step w (record {
        session = Exploration.on_path_end env generation failed w.session;
        call = none;
      })

-- `Leads w v`: some sequence of steps takes `w` to `v`.
pub data Leads : World → World → Type 0 where
  stay : (w : World) → Leads w w
  go_on : (w : World) {v x : World} → Leads w v → Step v x → Leads w x

-- Where no call is being made, an inactive session has left the robot without a goal.
pub record IsSafe (w : World) : Type 0 where
  pub at_rest : w.call ≡ none → w.session.active ≡ false → is_moving w.session.log ≡ false

Step-IsSafe : {w v : World} → Step w v → IsSafe w → IsSafe v
Step-IsSafe (start w env) h = record {
  at_rest = λ c. (start-Keeps env w.session).still (h.at_rest c);
}
Step-IsSafe (stop w env) h = record {
  at_rest = λ c. (stop_with-Keeps true Exploration.stopped env w.session).still (h.at_rest c);
}
Step-IsSafe (started w env f g r) h = record {
  at_rest = λ c. (started-Keeps env f g r w.session).still (h.at_rest c);
}
Step-IsSafe (tick w env) h = record {
  at_rest = λ c. (tick-Keeps env w.session).still (h.at_rest c);
}
Step-IsSafe (status w env r) h = record {
  at_rest = λ c. (on_status-Keeps env r w.session).still (h.at_rest c);
}
Step-IsSafe (link w now) h = record { at_rest = h.at_rest }
Step-IsSafe (path w env m free) h = record {
  at_rest = λ c. (on_path-Keeps env m w.session).still (h.at_rest free);
}
Step-IsSafe (deliver w g goal busy) h = record { at_rest = λ c. cc }
Step-IsSafe (return w env g goal failed busy) h = record {
  at_rest = λ c. on_path_end-still env g failed w.session;
}

Leads-IsSafe : {w v : World} → IsSafe w → Leads w v → IsSafe v
Leads-IsSafe h (stay w) = h
Leads-IsSafe h (go_on w r st) = Step-IsSafe st (Leads-IsSafe h r)

abbrev pub fresh : String → ℕ → ℕ → World
fresh frame link_timeout now = record {
  session = Exploration.init frame link_timeout now;
  call = none;
}

fresh-IsSafe : (frame : String) (timeout now : ℕ) → IsSafe (fresh frame timeout now)
unfolding Exploration.init
fresh-IsSafe frame timeout now = record { at_rest = λ c a. refl }

-- However the operator's commands, the service responses, the status messages, the paths and the
-- timer are interleaved from a new session on: whenever no call of `navigate_to` is being made and
-- the session is not active, the last thing that the robot's navigation was told is not a goal of
-- the planner.
pub inactive_at_rest :
    (frame : String) (timeout now : ℕ) (w : World)
    → Leads (fresh frame timeout now) w
    → w.call ≡ none
    → w.session.active ≡ false
    → is_moving w.session.log ≡ false
inactive_at_rest frame timeout now w r = (Leads-IsSafe (fresh-IsSafe frame timeout now) r).at_rest

Step-older : {w v : World} → Step w v → w.session.generation ≤ v.session.generation
Step-older (start w env) = (start-Keeps env w.session).older
Step-older (stop w env) = (stop_with-Keeps true Exploration.stopped env w.session).older
Step-older (started w env f g r) = (started-Keeps env f g r w.session).older
Step-older (tick w env) = (tick-Keeps env w.session).older
Step-older (status w env r) = (on_status-Keeps env r w.session).older
Step-older (link w now) = omega arith
Step-older (path w env m free) = (on_path-Keeps env m w.session).older
Step-older (deliver w g goal busy) = omega arith
Step-older (return w env g goal failed busy) = on_path_end-older env g failed w.session

Leads-older : {w v : World} → Leads w v → w.session.generation ≤ v.session.generation
Leads-older (stay w) = omega arith
Leads-older (go_on w r st) = omega (arith, Leads-older r, Step-older st)

stop-newer : (env : Env) (s : Session) → s.generation < (Exploration.stop env s).generation
unfolding stop_with
stop-newer env s = ground arith

overtaken :
    (env : Env) (g : ℕ) (failed : Bool) (s : Session)
    → g < s.generation
    → (rest : List Effect) × ((on_path_end env g failed s).log ≡ drive_zero ∷ cancel_goal ∷ rest)
unfolding on_path_end
overtaken env g failed s h =
    ((if failed then Exploration.stop env (emit warn s) else s).log, ground arith)

-- A stop that arrives while a navigation request is being prepared wins: whatever happens between
-- the stop and the return of the call, a new start included, the return cancels the goal and sends
-- the robot a zero velocity as its last words.
pub stop_wins :
    (w v : World) (env env' : Env) (generation : ℕ) (failed : Bool)
    → generation ≤ w.session.generation
    → Leads (record w { session = Exploration.stop env w.session }) v
    → (rest : List Effect) × ((on_path_end env' generation failed v.session).log
        ≡ drive_zero ∷ cancel_goal ∷ rest)
stop_wins w v env env' g failed le r =
    overtaken env' g failed v.session (omega (arith, Leads-older r, stop-newer env w.session))
