-- ===== src/Teleop/State.antt =====
-- server/swarmdeck_server/api/teleop_routes.py: what the handlers work on. The server's state with the
-- messages sent, the log and the timers; the sending of a message; and the changes of a robot.
use swarmdeck.Prelude.{
  ℕ, String, Bool, false, not, Option, none, some, List, [], ◌∷◌, ◌++◌, str_eq, if◌then◌else◌,
}
use swarmdeck.Prelude.Dict
use swarmdeck.Prelude.Dict.{Dict}
use swarmdeck.Prelude.Float.{Float, min_float, max_float}
use swarmdeck.Prelude.Json.{Fields, str, field?}
use swarmdeck.Registry.{Pose, Registry, Robot, send}

pub data Command : Type 0 where
  drive : Float → Float → Command
  navigate_to : Pose → List Pose → Command
  cancel_goal : Command
  body_command : String → Option Float → Command

pub record Sent : Type 0 where
  pub robot_id : String
  pub command : Command
  pub delivered : Bool

pub data Entry : Type 0 where
  agent_drive : String → Float → Float → Float → Entry
  agent_drive_stop : String → Entry
  agent_goal : String → Pose → Entry
  agent_cancel : String → Entry
  agent_stop : List String → Entry
  agent_body : String → String → Entry

-- The task `_auto_stop(rid, delay)` of a timed drive.
pub record Timer : Type 0 where
  pub robot_id : String
  pub delay : Float

pub record App : Type 0 where
  pub registry : Registry
  pub sent : List Sent
  pub log : List Entry
  pub timers : List Timer

pub data Reply : Type 0 where
  crashed : Reply
  refused : ℕ → Reply
  driving : Float → Float → Float → Reply
  navigating : Pose → ℕ → Reply
  cancelled : Reply
  stopped : List String → Reply
  posed : Bool → String → Reply

abbrev pub Net : Type 0
Net = String → Command → (Registry → Registry) × Bool

pub record Maps : Type 0 where
  pub world_to_robot : String → Pose → Pose
  pub robot_to_world : String → Pose → Pose
  pub plan_path : String → Pose → Pose → List Pose

-- `await app.registry.send(rid, command)`
unfoldable pub transmit : Net → String → Command → App → App × Bool
transmit net rid c a =
    let (g, socket, ok) = send (net rid c).0 (net rid c).1 rid a.registry in
    (
      record a {
        registry = g;
        sent = a.sent ++ record { robot_id = rid; command = c; delivered = ok } ∷ [];
      },
      ok,
    )

-- A change of a robot's fields.
unfoldable pub change : String → (Robot → Robot) → App → App
change rid f a = elim (Dict.get rid a.registry.robots) [
  | none ↦ a
  | some r ↦ record a {
    registry = record a.registry { robots = Dict.put rid (f r) a.registry.robots };
  }
]

abbrev pub write : Entry → App → App
write e a = record a { log = a.log ++ e ∷ [] }

-- `max(-limit, min(limit, v))`
abbrev pub clamp : Float → Float → Float → Float
clamp low high v = max_float low (min_float high v)

-- `robot.goal = ...` and the lines below it.
abbrev pub assign : Pose → List Pose → Robot → Robot
assign goal [] r = record r { goal = some goal; nav_status = "active"; mode = "nav" }
assign goal (p ∷ ps) r = record r {
  goal = some goal;
  nav_status = "active";
  mode = "nav";
  global_planned_path = p ∷ ps;
  planned_path = p ∷ ps;
}

abbrev pub is_merged : Robot → Bool
is_merged r = str_eq r.coordinate_frame "merged"

-- A robot's goal in the shared frame.
abbrev pub world_of : Maps → String → Robot → Pose → Pose
world_of maps rid r p = if is_merged r then p else maps.robot_to_world rid p

abbrev pub local_of : Maps → String → Robot → Pose → Pose
local_of maps rid r p = if is_merged r then p else maps.world_to_robot rid p

-- `if taken_by:`, which no empty id passes.
abbrev pub is_name : Option String → Bool
is_name none = false
is_name (some rid) = not (str_eq rid "")

abbrev pub end_nav : String → String
end_nav status = if str_eq status "active" then "cancelled" else status

abbrev pub halt : Robot → Robot
halt r = record r { goal = none; planned_path = []; nav_status = end_nav r.nav_status }

abbrev pub postures : List String
postures =
    "claim" ∷ "release" ∷ "sit" ∷ "stand" ∷ "damping" ∷ "lie_to_stand" ∷ "lock_stand" ∷ "walk_mode"
    ∷ "run_mode" ∷ "wave" ∷ "set_height" ∷ []

-- `str(body.get("action", ""))`: what is not a text is no posture.
abbrev pub action_of : Fields → String
action_of fs = elim (field? "action" fs) [ some (str s) ↦ s | _ ↦ "" ]
