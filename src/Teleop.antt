-- ===== src/Teleop.antt =====
-- server/swarmdeck_server/api/teleop_routes.py: driving, goals, cancelling, stopping and postures;
-- and `goal_taken` of api/app.py.
--
-- A handler returns the new `App` and its reply, where `refused` has the HTTP status and `crashed`
-- is an exception that the handler does not catch (status 500). A body is a JSON object, or `none`
-- where the request's text is not JSON. Each `await registry.send(...)` lets the other handlers
-- run: `Net` says what they do to the registry then, and whether the send succeeds. What a handler
-- writes after a send to the robot that it looked up before, it writes to the robot of that id.
-- `Maps` is the map service, a component that is not modelled. The stamps of a message (`app.stamps`)
-- and the two routes that only read are left out.
pub mod State
pub mod Bounds
pub mod Halting
pub mod Assigning
pub mod Writes
mod Samples
use swarmdeck.Prelude.{
  ℕ, String, Bool, true, false, not, ◌&&◌, ◌||◌, Option, none, some, List, [], ◌∷◌, ◌++◌, map,
  is_some, str_eq, contains, length, if◌then◌else◌,
}
use swarmdeck.Prelude.Dict
use swarmdeck.Prelude.Dict.{Dict}
use swarmdeck.Prelude.Int.{pos, negsuc, eqb_ℤ}
use swarmdeck.Prelude.Float.{Float, fin, zero_float, ltb_float, min_float, max_float}
use swarmdeck.Prelude.Json.{Json, Fields, end, str, is_zero, field?, to_float}
use swarmdeck.Registry.{Pose, Registry, Robot, send, can, near, get_or}
unfoldable pub use State.*

module _ (read : String → Option Float) (net : Net) where
  -- `float(body.get(key, 0.0))`
  unfoldable pub number : String → Fields → Option Float
  number key fs = elim (field? key fs) [ none ↦ some zero_float | some v ↦ to_float read v ]

  -- The end of `post_robot_drive`, after the send.
  drive_sent : String → Float → Float → Float → App × Bool → App × Reply
  unfolding change
  drive_sent rid l w d (a, false) = (a, refused 502)
  drive_sent rid l w d (a, true) =
      let b = write (Entry.agent_drive rid l w d) (change rid (λ r. record r { goal = none }) a) in
      if ltb_float zero_float d && (not (is_zero l) || not (is_zero w))
      then (
        record b { timers = b.timers ++ record { robot_id = rid; delay = d } ∷ [] },
        driving l w d,
      )
      else (b, driving l w d)

  start_drive : String → Float → Float → Float → App → App × Reply
  unfolding drive_sent transmit
  start_drive rid l w d a = elim (Dict.get rid a.registry.robots) [
    | none ↦ (a, refused 404)
    | some r ↦ drive_sent rid l w d (transmit net rid (Command.drive l w) a)
  ]

  clamp_drive : String → Option Float → Option Float → Option Float → App → App × Reply
  unfolding start_drive
  clamp_drive rid (some l) (some w) (some d) a =
      start_drive rid (clamp (fin (negsuc 799)) (fin (pos 800)) l)
        (clamp (fin (negsuc 1499)) (fin (pos 1500)) w) (clamp zero_float (fin (pos 60000)) d) a
  clamp_drive rid _ _ _ a = (a, crashed)

  -- `post_robot_drive`: a body that is not JSON counts as an empty one.
  pub post_robot_drive : String → Option Fields → App → App × Reply
  unfolding clamp_drive number
  post_robot_drive rid body a =
      let fs = get_or body end in
      clamp_drive rid (number "linear" fs) (number "angular" fs) (number "duration" fs) a

  -- `_auto_stop`, when its delay is over.
  pub auto_stop : Timer → App → App
  unfolding transmit
  auto_stop t a =
      write (Entry.agent_drive_stop t.robot_id)
        (transmit net t.robot_id (Command.drive zero_float zero_float) a).0

  goal_sent : String → Pose → Pose → List Pose → App × Bool → App × Reply
  unfolding change
  goal_sent rid goal local path (a, false) = (a, refused 502)
  goal_sent rid goal local path (a, true) = (
    write (Entry.agent_goal rid goal) (change rid (assign local path) a),
    navigating goal (length path),
  )

  holds_world_goal : Maps → String → Robot → Pose → Option Pose → Bool
  unfolding near
  holds_world_goal maps rid r goal none = false
  holds_world_goal maps rid r goal (some g) =
      let current = world_of maps rid r g in near 500 current.x goal.x && near 500 current.y goal.y

  taken_in : Maps → Pose → String → Dict Robot → Option String
  unfolding holds_world_goal
  taken_in maps goal exclude [] = none
  taken_in maps goal exclude ((rid, r) ∷ rs) =
      let rest = taken_in maps goal exclude rs in
      if str_eq rid exclude
      then rest
      else if holds_world_goal maps rid r goal r.goal
      then some rid
      else rest

  -- `app.goal_taken(goal, exclude)`
  pub world_goal_taken : Maps → Pose → String → Registry → Option String
  unfolding taken_in
  world_goal_taken maps goal exclude g = taken_in maps goal exclude g.robots

  -- From the two frames on, for a goal that no other robot has.
  send_goal : Maps → String → Robot → Pose → App → App × Reply
  unfolding goal_sent transmit
  send_goal maps rid r goal a =
      let local = local_of maps rid r goal in
      let world = if is_merged r then goal else maps.robot_to_world rid local in
      let path =
        map (local_of maps rid r) (maps.plan_path rid (world_of maps rid r r.pose) world) in
      goal_sent rid goal local path (transmit net rid (Command.navigate_to local path) a)

  place_goal :
      Maps → String → Robot → Option Float → Option Float → Option Float → App → App × Reply
  unfolding send_goal world_goal_taken
  place_goal maps rid r (some x) (some y) (some yaw) a =
      let goal : Pose = record { x = x; y = y; yaw = yaw } in
      if is_name (world_goal_taken maps goal rid a.registry)
      then (a, refused 409)
      else send_goal maps rid r goal a
  place_goal maps rid r _ _ _ a = (a, crashed)

  check_goal : Maps → String → Fields → App → App × Reply
  unfolding place_goal number
  check_goal maps rid fs a = elim (Dict.get rid a.registry.robots) [
    | none ↦ (a, refused 404)
    | some r ↦
        if not (can rid "navigate" a.registry)
        then (a, refused 400)
        else place_goal maps rid r (number "x" fs) (number "y" fs) (number "yaw" fs) a
  ]

  -- `post_robot_goal`
  pub post_robot_goal : Maps → String → Option Fields → App → App × Reply
  unfolding check_goal
  post_robot_goal maps rid none a = (a, refused 400)
  post_robot_goal maps rid (some fs) a =
      if not (is_some (field? "x" fs)) || not (is_some (field? "y" fs))
      then (a, refused 400)
      else check_goal maps rid fs a

  cancel_sent : String → App × Bool → App × Reply
  unfolding change
  cancel_sent rid (a, false) = (write (Entry.agent_cancel rid) a, cancelled)
  cancel_sent rid (a, true) = (
    write (Entry.agent_cancel rid) (
        change rid
          (λ r. record r {
            goal = none;
            global_planned_path = [];
            local_planned_path = [];
            planned_path = [];
            nav_status = end_nav r.nav_status;
          })
          a),
    cancelled,
  )

  -- `post_robot_cancel`
  pub post_robot_cancel : String → App → App × Reply
  unfolding cancel_sent transmit
  post_robot_cancel rid a = elim (Dict.get rid a.registry.robots) [
    | none ↦ (a, refused 404)
    | some r ↦ cancel_sent rid (transmit net rid Command.cancel_goal a)
  ]

  -- The body of the loop of `post_robot_stop`.
  pub stop_one : String → App → App
  unfolding change transmit
  stop_one rid a =
      change rid halt
        (transmit net rid (Command.drive zero_float zero_float)
          (transmit net rid Command.cancel_goal a).0).0

  pub stop_each : List String → App → App
  unfolding stop_one
  stop_each [] a = a
  stop_each (rid ∷ rids) a = stop_each rids (stop_one rid a)

  stop_targets : List String → App → App × Reply
  unfolding stop_each
  stop_targets rids a = (write (Entry.agent_stop rids) (stop_each rids a), stopped rids)

  -- `post_robot_stop`
  pub post_robot_stop : String → App → App × Reply
  unfolding stop_targets
  post_robot_stop rid a =
      if str_eq rid "all"
      then stop_targets (Dict.keys a.registry.robots) a
      else if Dict.has rid a.registry.robots
      then stop_targets (rid ∷ []) a
      else (a, refused 404)

  body_sent : String → String → App × Bool → App × Reply
  body_sent rid action (a, ok) = (write (Entry.agent_body rid action) a, posed ok action)

  -- `post_robot_body`
  pub post_robot_body : String → Option Fields → App → App × Reply
  unfolding body_sent transmit
  post_robot_body rid none a = (a, refused 400)
  post_robot_body rid (some fs) a =
      let action = action_of fs in
      let height : Option Float = elim (field? "height" fs) [
        | none ↦ none
        | some v ↦ to_float read v
      ] in
      if not (contains action postures)
      then (a, refused 400)
      else if not (Dict.has rid a.registry.robots)
      then (a, refused 404)
      else body_sent rid action (transmit net rid (Command.body_command action height) a)
