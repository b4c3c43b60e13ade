-- ===== src/Adapter.antt =====
-- The motion of a robot behind its adapter: `AdapterLinkMixin` of adapters/runtime.py, `drive`,
-- `cancel_goal` and the start of a goal of adapters/adapter_ros2/adapter_ros2.py, and
-- `dispatch_command`, `_stop_on_disconnect` and the retry of adapters/session.py.
--
-- `Bridge` has the fields that these methods use, and the velocities published so far, the newest
-- first. Times are milliseconds of `time.monotonic()`, which is never 0, the mark of "no drive yet".
-- The parameters are what `exploration.stop()` and `start()`, `navigate_to`, `body_command` and
-- `reset` do to the bridge; the ROS action and trajectory clients are left out.
pub mod Guards
pub mod Deadman
mod Samples
use swarmdeck.Prelude.{
  ℕ, suc, ◌+◌, ◌-◌, ◌≤◌, ◌*◌, String, Bool, true, false, not, ◌&&◌, ◌||◌, Option, none, some, List,
  [], ◌∷◌, ltb, leb, ◌==◌, str_eq, contains, is_some, if◌then◌else◌,
}
use swarmdeck.Prelude.Int.{ℤ, abs}
use swarmdeck.Prelude.Float.{Float, fin, nan, inf, neg_inf, zero_float}
use swarmdeck.Registry.{Pose}

pub record Twist : Type 0 where
  pub linear : Float
  pub angular : Float

abbrev pub zero_twist : Twist
zero_twist = record { linear = zero_float; angular = zero_float }

pub record Config : Type 0 where
  pub drive_timeout : ℕ
  pub link_timeout : ℕ

pub record Bridge : Type 0 where
  pub nav_status : String
  pub mode : String
  pub goal : Option Pose
  pub pending_drive : Option Twist
  pub last_drive_at : ℕ
  pub last_link_at : ℕ
  -- `pub_cmd is not None` and `traj_client is not None`.
  pub has_cmd : Bool
  pub has_trajectory : Bool
  pub published : List Twist

abbrev pub publish : Twist → Bridge → Bridge
publish t b = record b { published = t ∷ b.published }

abbrev pub is_active : Bridge → Bool
is_active b = str_eq b.nav_status "active"

-- `cancel_goal()`
unfoldable pub cancel_goal : Bridge → Bridge
cancel_goal b =
    let c : Bridge = record b { goal = none; nav_status = "cancelled"; mode = "idle" } in
    if b.has_trajectory && b.has_cmd then publish zero_twist c else c

-- `abs(v) > 1e-3`
abbrev pub exceeds : Float → Bool
exceeds (fin z) = ltb 1 (abs z)
exceeds nan = false
exceeds _ = true

abbrev pub is_moving : Twist → Bool
is_moving t = exceeds t.linear || exceeds t.angular

-- Operator motion preempts autonomy.
unfoldable pub preempt : Twist → Bridge → Bridge
unfolding cancel_goal
preempt t b = if is_moving t && is_active b then cancel_goal b else b

-- The rest of `drive`.
unfoldable pub move : ℕ → Twist → Bridge → Bridge
move now t b = record b {
  published = t ∷ b.published;
  mode = if is_moving t then "teleop" else b.mode;
  last_drive_at = if is_moving t then now else 0;
}

-- `drive(linear, angular)`
unfoldable pub drive : ℕ → Twist → Bridge → Bridge
unfolding preempt move
drive now t b = if not b.has_cmd then b else move now t (preempt t b)

-- `_on_nav_cmd_vel(msg)`, a velocity of the autonomy, and `link_ok()`.
abbrev pub link_ok : Config → ℕ → Bridge → Bool
link_ok cfg now b = leb (now - b.last_link_at) cfg.link_timeout

unfoldable pub on_nav_cmd_vel : Config → ℕ → Twist → Bridge → Bridge
on_nav_cmd_vel cfg now t b =
    if is_active b && b.has_cmd && link_ok cfg now b then publish t b else b

-- `note_drive_command(linear, angular)`
abbrev pub note_drive_command : ℕ → Twist → Bridge → Bridge
note_drive_command now t b = record b { pending_drive = some t; last_link_at = now }

abbrev pub note_link_activity : ℕ → Bridge → Bridge
note_link_activity now b = record b { last_link_at = now }

-- `apply_pending_drive()`
unfoldable pub apply_pending_drive : ℕ → Bridge → Bridge
unfolding drive
apply_pending_drive now b = elim b.pending_drive [
  | none ↦ b
  | some t ↦ drive now t (record b { pending_drive = none })
]

-- `drive_watchdog()`
unfoldable pub drive_watchdog : Config → ℕ → Bridge → Bridge
unfolding drive
drive_watchdog cfg now b =
    if not (str_eq b.mode "teleop") || b.last_drive_at == 0
    then b
    else if ltb cfg.drive_timeout (now - b.last_drive_at)
    then record (drive now zero_twist b) { mode = "idle"; last_drive_at = 0 }
    else b

-- `link_watchdog()`
unfoldable pub link_watchdog : Config → ℕ → Bridge → Bridge
unfolding drive cancel_goal
link_watchdog cfg now b =
    if not (is_active b) || link_ok cfg now b then b else drive now zero_twist (cancel_goal b)

-- `_watchdogs()`
unfoldable pub watchdogs : Config → ℕ → Bridge → Bridge
unfolding apply_pending_drive drive_watchdog link_watchdog
watchdogs cfg now b = link_watchdog cfg now (drive_watchdog cfg now (apply_pending_drive now b))

-- The state that a started goal leaves (`navigate_to`).
abbrev pub start_goal : Pose → Bridge → Bridge
start_goal goal b = record b { goal = some goal; nav_status = "active"; mode = "nav" }

-- `next_backoff(current)`, in milliseconds.
abbrev pub next_backoff : ℕ → ℕ
next_backoff current = if ltb 30000 (current * 2) then 30000 else current * 2

pub record Callees : Type 0 where
  pub has_exploration : Bool
  pub explore_start : Bridge → Bridge
  pub explore_stop : Bridge → Bridge
  pub navigate_to : Pose → List Pose → Bridge → Bridge
  pub body_command : String → Option Float → Bridge → Bridge
  pub reset : Bridge → Bridge

pub data Message : Type 0 where
  explore : Bool → Message
  to_navigate : Pose → List Pose → Message
  to_cancel : Message
  to_drive : Twist → Message
  to_stop : Message
  set_mode : String → Message
  to_body : String → Option Float → Message
  to_reset : Message
  unknown : Message

module _ (calls : Callees) where
  -- `exploration.stop()`, where there is one.
  abbrev pub stop_exploration : Bridge → Bridge
  stop_exploration b = if calls.has_exploration then calls.explore_stop b else b

  -- `stop()`
  unfoldable pub stop : ℕ → Bridge → Bridge
  unfolding drive cancel_goal
  stop now b = record (cancel_goal (drive now zero_twist (stop_exploration b))) { mode = "estop" }

  -- The commands that end an exploration first.
  abbrev pub ends_exploration : Message → Bool
  ends_exploration (explore _) = false
  ends_exploration (set_mode _) = false
  ends_exploration unknown = false
  ends_exploration _ = true

  command : ℕ → Message → Bridge → Bridge
  unfolding drive cancel_goal stop
  command now (explore enabled) b = b
  command now (to_navigate goal path) b = calls.navigate_to goal path b
  command now to_cancel b = cancel_goal b
  command now (to_drive t) b = drive now t (note_drive_command now t b)
  command now to_stop b = stop now b
  command now (set_mode mode) b = record b { mode = mode }
  command now (to_body action height) b = calls.body_command action height b
  command now to_reset b = calls.reset b
  command now unknown b = b

  -- What an `explore` message does, where there is an exploration.
  explore_first : Message → Bridge → Bridge
  explore_first (explore true) b = calls.explore_start b
  explore_first (explore false) b = calls.explore_stop b
  explore_first m b = if ends_exploration m then calls.explore_stop b else b

  -- `dispatch_command(bridge, msg)`
  unfoldable pub dispatch_command : ℕ → Message → Bridge → Bridge
  unfolding command explore_first
  dispatch_command now m b = command now m (if calls.has_exploration then explore_first m b else b)

  -- `_stop_on_disconnect(bridge)`
  unfoldable pub stop_on_disconnect : ℕ → Bridge → Bridge
  unfolding drive cancel_goal
  stop_on_disconnect now b = drive now zero_twist (cancel_goal (stop_exploration b))
