-- ===== src/Registry.antt =====
-- server/swarmdeck_server/fleet/registry.py: the fleet's robots, their sockets, and the commands.
--
-- `Registry` has the two dictionaries of the class. A `Robot` object is shared by every reader of
-- `robots`, so a handler that changes one writes it back under its id. A socket is named by a
-- number. `now` is `time.monotonic()` in milliseconds. A message is the record of the keys that the
-- code reads: an outer `none` is an absent key, an inner one JSON's `null`. What `float` makes of a
-- text is the parameter `read`. A greeting whose radius is no number or whose capabilities are no list,
-- at which `hello` raises, is not modelled. `to_state` and `snapshot` only copy fields, and are left out.
pub mod Robots
pub mod Sockets
pub mod Paths
pub mod Goals
mod Samples
use swarmdeck.Prelude.{
  ℕ, zero, suc, ◌+◌, ◌-◌, ◌≤◌, String, Bool, true, false, not, ◌&&◌, ◌||◌, Option, none, some, List,
  [], ◌∷◌, ltb, leb, ◌==◌, str_eq, contains, take, all, any, length, is_some, if◌then◌else◌,
}
use swarmdeck.Prelude.Dict
use swarmdeck.Prelude.Dict.{Dict}
use swarmdeck.Prelude.Int.{ℤ, pos, ◌-ℤ◌, abs}
use swarmdeck.Prelude.Float.{Float, fin, is_finite, zero_float, nan, inf, neg_inf}
use swarmdeck.Prelude.Json.{Json, Fields, arr, obj, field?, items, to_float}
unfoldable pub use Robots.*

pub record Registry : Type 0 where
  pub robots : Dict Robot
  pub sinks : Dict ℕ

-- `hello(msg, sink, peer)`
unfoldable pub hello : (String → Option Float) → ℕ → HelloMessage → ℕ → String → Registry → Registry
unfolding greet new_robot
hello read now m sink peer g =
    let r = get_or (Dict.get m.robot_id g.robots) (new_robot m.robot_id now) in
    record {
      robots = Dict.put m.robot_id (greet read now peer m r) g.robots;
      sinks = Dict.put m.robot_id sink g.sinks;
    }

-- `update_state(msg)`: the registry, and whether a robot was returned.
unfoldable pub update_state :
    (String → Option Float) → ℕ → StateMessage → Registry → Registry × Option Robot
unfolding refresh route
update_state read now m g =
    let rid = get_or m.robot_id "" in
    elim (Dict.get rid g.robots) [
      | none ↦ (g, none)
      | some r ↦
          let r' = route m (refresh read now m r) in
          (record g { robots = Dict.put rid r' g.robots }, some r')
    ]

-- `attend(robot_id)`
unfoldable pub attend : ℕ → String → Registry → Registry
attend now rid g = elim (Dict.get rid g.robots) [
  | none ↦ g
  | some r ↦ record g { robots = Dict.put rid (record r { last_attended = now }) g.robots }
]

-- `can(robot_id, cap)`
unfoldable pub can : String → String → Registry → Bool
can rid cap g = elim (Dict.get rid g.robots) [ none ↦ false | some r ↦ contains cap r.capabilities ]

-- `has_sink(robot_id)`
abbrev pub has_sink : String → Registry → Bool
has_sink rid g = Dict.has rid g.sinks

is_bound : Option ℕ → ℕ → Bool
is_bound none s = false
is_bound (some t) s = t == s

-- `disconnect(robot_id, sink)`
unfoldable pub disconnect : String → Option ℕ → Registry → Registry
unfolding is_bound
disconnect rid none g = record g { sinks = Dict.remove rid g.sinks }
disconnect rid (some s) g =
    if is_bound (Dict.get rid g.sinks) s then record g { sinks = Dict.remove rid g.sinks } else g

-- `remove(robot_id)`
unfoldable pub remove : String → Registry → Registry × Bool
remove rid g = (
  record { robots = Dict.remove rid g.robots; sinks = Dict.remove rid g.sinks },
  Dict.has rid g.robots,
)

-- `send(robot_id, msg)`: `meanwhile` is what the other handlers do to the registry while the send
-- is awaited, and `delivered` whether it ended without an exception. The second component is the
-- socket that the message went to, if there was one, and the third what `send` returns.
unfoldable pub send : (Registry → Registry) → Bool → String → Registry → Registry × Option ℕ × Bool
unfolding disconnect
send meanwhile delivered rid g = elim (Dict.get rid g.sinks) [
  | none ↦ (g, none, false)
  | some s ↦
      if delivered
      then (meanwhile g, some s, true)
      else (disconnect rid (some s) (meanwhile g), some s, false)
]

-- `abs(a - b) < tol`, for a difference of floats.
unfoldable pub near : ℕ → Float → Float → Bool
near tol (fin a) (fin b) = ltb (abs (a -ℤ b)) tol
near tol _ _ = false

-- `goal_taken(goal, exclude, tol)`
holds_goal : ℕ → Pose → Option Pose → Bool
unfolding near
holds_goal tol goal none = false
holds_goal tol goal (some h) = near tol h.x goal.x && near tol h.y goal.y

goal_taken_in : ℕ → Pose → String → Dict Robot → Option String
unfolding holds_goal
goal_taken_in tol goal exclude [] = none
goal_taken_in tol goal exclude ((rid, r) ∷ rs) =
    let rest = goal_taken_in tol goal exclude rs in
    if str_eq rid exclude then rest else if holds_goal tol goal r.goal then some rid else rest

unfoldable pub goal_taken : ℕ → Pose → String → Registry → Option String
unfolding goal_taken_in
goal_taken tol goal exclude g = goal_taken_in tol goal exclude g.robots
