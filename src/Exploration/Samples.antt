-- ===== src/Exploration/Samples.antt =====
-- A run of an exploration session: start, a path, its delivery, and a stop.
use swarmdeck.Prelude.{◌≤◌, ◌≡◌, refl, true, false, none, some, List, [], ◌∷◌, arith}
use swarmdeck.Prelude.Int.{pos}
use swarmdeck.Prelude.Float.{fin}
use swarmdeck.Exploration
use swarmdeck.Exploration.{
  Env, Goal, Session, PathMessage, Effect, drive_zero, cancel_goal, report, complete, on_path,
  on_path_end, on_status,
}
use swarmdeck.Exploration.Motion.{is_moving}
use swarmdeck.Exploration.Interleavings.{World, Step, Leads, fresh, inactive_at_rest, stop_wins}

abbrev env : Env
env = record {
  now = 1000;
  stop_now = 1000;
  link_now = 1000;
  clock_ns = 5;
  done = λ _. false;
  start_ready = true;
  stop_ready = true;
  start_future = some 1;
  stop_future = some 2;
}

abbrev goal : Goal
goal = record { x = fin (pos 1500); y = fin (pos 2000); yaw = fin (pos 0) }

abbrev path : PathMessage
path = record { sec = 1; nanosec = 0; frame_id = "/map"; poses = goal ∷ [] }

abbrev empty_path : PathMessage
empty_path = record { sec = 1; nanosec = 0; frame_id = "/map"; poses = [] }

abbrev w₀ : World
w₀ = fresh "map" 5000 0

abbrev w₁ : World
w₁ = record w₀ { session = Exploration.start env w₀.session }

abbrev w₂ : World
w₂ = record { session = (on_path env path w₁.session).0; call = (on_path env path w₁.session).1 }

abbrev w₃ : World
w₃ = record w₂ { session = Exploration.stop env w₂.session }

abbrev w₄ : World
w₄ = record { session = on_path_end env 1 false w₃.session; call = none }

w₂_calls : w₂.call ≡ some (1, goal)
unfolding on_path Exploration.start Exploration.init
w₂_calls = refl

run : Leads w₀ w₄
unfolding on_path Exploration.start Exploration.init
run =
    Leads.go_on w₀
      (Leads.go_on w₀
        (Leads.go_on w₀ (Leads.go_on w₀ (Leads.stay w₀) (Step.start w₀ env))
          (Step.path w₁ env path refl))
        (Step.stop w₂ env))
      (Step.return w₃ env 1 goal false refl)

w₄_inactive : w₄.session.active ≡ false
unfolding on_path_end on_path Exploration.start Exploration.init Exploration.stop_with
w₄_inactive = refl

inactive_at_rest_example : is_moving w₄.session.log ≡ false
inactive_at_rest_example = inactive_at_rest "map" 5000 0 w₄ run refl w₄_inactive

w₂_generation : 1 ≤ w₂.session.generation
unfolding on_path Exploration.start Exploration.init
w₂_generation = omega arith

stop_wins_example :
    (rest : List Effect) × ((on_path_end env 1 true w₃.session).log
      ≡ drive_zero ∷ cancel_goal ∷ rest)
stop_wins_example = stop_wins w₂ w₃ env env 1 true w₂_generation (Leads.stay w₃)
