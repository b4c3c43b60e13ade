-- ===== src/Teleop/Samples.antt =====
-- Two robots, one of them on its way.
use swarmdeck.Prelude.{
  ℕ, ◌≡◌, refl, String, Bool, true, false, Option, none, some, List, [], ◌∷◌, ◌++◌, ◌⊎◌,
}
use swarmdeck.Prelude.Dict
use swarmdeck.Prelude.Int.{pos}
use swarmdeck.Prelude.Float.{Float, fin, nan, zero_float}
use swarmdeck.Prelude.Json.{Fields, field, end, num}
use swarmdeck.Registry.{Pose, Robot, can, near, send}
use swarmdeck.Teleop.{
  App, Maps, Net, Reply, post_robot_drive, post_robot_goal, post_robot_stop, check_goal, place_goal,
  send_goal, goal_sent, transmit, number, world_goal_taken, taken_in, holds_world_goal, change,
  stop_targets, stop_each, stop_one, clamp_drive, start_drive, drive_sent,
}
use swarmdeck.Teleop.Bounds.{IsBounded, post_robot_drive-IsBounded}
use swarmdeck.Teleop.Halting.{
  commands, halts, IsHalted, post_robot_stop_all, post_robot_stop_all_halts,
}
use swarmdeck.Teleop.Assigning.{IsAssigned, post_robot_goal-navigating}

abbrev no_text : String → Option Float
no_text _ = none

-- Every socket works and nothing happens meanwhile.
abbrev works : Net
works rid c = (λ g. g, true)

abbrev broken : Net
broken rid c = (λ g. g, false)

abbrev spot : Pose
spot = record { x = fin (pos 2000); y = fin (pos 1000); yaw = zero_float }

abbrev flat : Maps
flat = record {
  world_to_robot = λ rid p. p;
  robot_to_world = λ rid p. p;
  plan_path = λ rid a b. b ∷ [];
}

abbrev scout : Robot
scout = record {
  robot_id = "a";
  robot_type = "scout";
  adapter = "";
  ros = "";
  peer = "";
  coordinate_frame = "local";
  capabilities = "navigate" ∷ [];
  footprint_radius = fin (pos 300);
  footprint = none;
  pose = record { x = zero_float; y = zero_float; yaw = zero_float };
  exploration_status = "idle";
  home_pose = none;
  battery = none;
  mode = "nav";
  nav_status = "active";
  goal = some (record { x = zero_float; y = zero_float; yaw = zero_float });
  planned_path = [];
  global_planned_path = [];
  local_planned_path = [];
  network = none;
  last_seen = 0;
  last_attended = 0;
}

abbrev start : App
start = record {
  registry = record { robots = ("a", scout) ∷ ("b", scout) ∷ []; sinks = ("a", 1) ∷ ("b", 2) ∷ [] };
  sent = [];
  log = [];
  timers = [];
}

-- A speed that is not a number.
abbrev wild : Fields
wild = field "linear" (num nan) end

post_robot_drive-IsBounded_example :
    ((post_robot_drive no_text works "a" (some wild) start).0.sent ≡ [])
    ⊎ IsBounded no_text works "a" [] (post_robot_drive no_text works "a" (some wild) start).0.sent
post_robot_drive-IsBounded_example = post_robot_drive-IsBounded no_text works "a" (some wild) start

-- A speed that is not a number becomes the greatest speed.
wild_drive :
    (post_robot_drive no_text works "a" (some wild) start).1
    ≡ Reply.driving (fin (pos 800)) zero_float zero_float
unfolding post_robot_drive number clamp_drive start_drive drive_sent transmit send Dict.get change
    Dict.put
wild_drive = refl

post_robot_stop_all_example :
    commands (post_robot_stop no_text broken "all" start).0.sent
    ≡ commands [] ++ halts ("a" ∷ "b" ∷ [])
post_robot_stop_all_example = post_robot_stop_all no_text broken start

abbrev stopped_robot : Robot
stopped_robot = record scout { goal = none; nav_status = "cancelled" }

post_robot_stop_all_halts_example : IsHalted stopped_robot
unfolding post_robot_stop stop_targets stop_each stop_one transmit send Dict.get change Dict.put
post_robot_stop_all_halts_example =
    post_robot_stop_all_halts no_text works (λ rid c g. refl) start "b" stopped_robot refl

abbrev errand : Fields
errand = field "x" (num (fin (pos 2000))) (field "y" (num (fin (pos 1000))) end)

post_robot_goal-navigating_example :
    IsAssigned no_text works flat "a" spot start
      (post_robot_goal no_text works flat "a" (some errand) start).0
unfolding post_robot_goal check_goal place_goal send_goal goal_sent transmit number world_goal_taken
    taken_in holds_world_goal near can send Dict.get change Dict.put swarmdeck.Prelude.Int.◌-ℤ◌
post_robot_goal-navigating_example =
    post_robot_goal-navigating no_text works flat "a" (some errand) start spot 1 (refl, (refl, tt))
      refl
