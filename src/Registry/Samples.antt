-- ===== src/Registry/Samples.antt =====
-- A registry with two robots, a reconnect, and a legacy state message.
use swarmdeck.Prelude.{ℕ, ◌≡◌, refl, String, Option, none, some, List, [], ◌∷◌}
use swarmdeck.Prelude.Dict
use swarmdeck.Prelude.Int.{pos}
use swarmdeck.Prelude.Float.{Float, fin}
use swarmdeck.Registry.{Pose, Registry, Robot, HelloMessage, StateMessage, hello, new_robot, get_or}
use swarmdeck.Registry.Sockets.{Event, greets, gone, run, socket, empty, run-socket}

abbrev no_text : String → Option Float
no_text _ = none

abbrev greeting : String → HelloMessage
greeting rid = record {
  robot_id = rid;
  robot_type = some "scout";
  adapter = none;
  ros = none;
  coordinate_frame = none;
  capabilities = some ("navigate" ∷ []);
  footprint_radius = none;
  footprint = none;
}

-- The robot reconnects on socket 2, and the cleanup of socket 1 runs last.
abbrev history : List Event
history = greets 0 (greeting "a") 1 "" ∷ greets 9 (greeting "a") 2 "" ∷ gone "a" 1 ∷ []

history-socket : socket "a" history none ≡ some 2
unfolding socket
history-socket = refl

run-socket_example :
    Dict.get "a" (run no_text history empty).sinks ≡ socket "a" history (Dict.get "a" empty.sinks)
run-socket_example = run-socket no_text "a" history empty

abbrev fleet : Registry
fleet = hello no_text 0 (greeting "a") 1 "10.0.0.2" empty

abbrev at : ℕ → Pose
at n = record { x = fin (pos n); y = fin (pos n); yaw = fin (pos 0) }

abbrev message : StateMessage
message = record {
  robot_id = some "a";
  pose = some (at 100);
  home_pose = none;
  battery = none;
  mode = none;
  exploration_status = some "exploring";
  nav_status = some "active";
  goal = some (some (at 5000));
  planned_path = none;
  global_planned_path = some (some (at 1000 ∷ []));
  local_planned_path = some none;
  network = none;
}

abbrev robot : Robot
robot = get_or (Dict.get "a" fleet.robots) (new_robot "a" 0)
