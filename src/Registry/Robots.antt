-- ===== src/Registry/Robots.antt =====
-- fleet/registry.py: a `Robot`, and what a greeting and a state message make of it.
use swarmdeck.Prelude.{
  ℕ, ◌-◌, String, Bool, true, false, not, ◌&&◌, ◌||◌, Option, none, some, List, [], ◌∷◌, ltb,
  str_eq, contains, take, length, is_some, if◌then◌else◌,
}
use swarmdeck.Prelude.Int.{pos}
use swarmdeck.Prelude.Float.{Float, fin, is_finite, zero_float}
use swarmdeck.Prelude.Json.{Json, Fields, arr, obj, field?, items, to_float}

pub record Pose : Type 0 where
  pub x : Float
  pub y : Float
  pub yaw : Float

abbrev pub offline_after : ℕ
offline_after = 4000

abbrev pub Point : Type 0
Point = Float × Float

-- The loop of `parse_footprint` over the points.
parse_point : (String → Option Float) → List Json → Option Point
parse_point read (a ∷ b ∷ []) = elim (to_float read a) [
  | none ↦ none
  | some x ↦ elim (to_float read b) [
    | none ↦ none
    | some y ↦ if is_finite x && is_finite y then some (x, y) else none
  ]
]
parse_point read _ = none

as_list : Json → Option (List Json)
as_list (arr vs) = some (items vs)
as_list _ = none

add_point : Option Point → Option (List Point) → Option (List Point)
add_point (some p) (some ps) = some (p ∷ ps)
add_point _ _ = none

parse_points : (String → Option Float) → List Json → Option (List Point)
unfolding parse_point as_list add_point
parse_points read [] = some []
parse_points read (v ∷ vs) =
    let rest = parse_points read vs in
    elim (as_list v) [ none ↦ none | some cs ↦ add_point (parse_point read cs) rest ]

-- `parse_footprint(value)`
unfoldable pub parse_footprint : (String → Option Float) → Json → Option (List Point)
unfolding parse_points as_list
parse_footprint read v = elim (as_list v) [
  | none ↦ none
  | some vs ↦ if ltb (length vs) 3 then none else parse_points read vs
]

pub record Robot : Type 0 where
  pub robot_id : String
  pub robot_type : String
  pub adapter : String
  pub ros : String
  pub peer : String
  pub coordinate_frame : String
  pub capabilities : List String
  pub footprint_radius : Float
  pub footprint : Option (List Point)
  pub pose : Pose
  pub exploration_status : String
  pub home_pose : Option Pose
  pub battery : Option Float
  pub mode : String
  pub nav_status : String
  pub goal : Option Pose
  pub planned_path : List Pose
  pub global_planned_path : List Pose
  pub local_planned_path : List Pose
  pub network : Option Fields
  pub last_seen : ℕ
  pub last_attended : ℕ

-- `Robot(robot_id=rid)`
unfoldable pub new_robot : String → ℕ → Robot
new_robot rid now = record {
  robot_id = rid;
  robot_type = "unknown";
  adapter = "";
  ros = "";
  peer = "";
  coordinate_frame = "local";
  capabilities = [];
  footprint_radius = fin (pos 300);
  footprint = none;
  pose = record { x = zero_float; y = zero_float; yaw = zero_float };
  exploration_status = "idle";
  home_pose = none;
  battery = none;
  mode = "idle";
  nav_status = "idle";
  goal = none;
  planned_path = [];
  global_planned_path = [];
  local_planned_path = [];
  network = none;
  last_seen = now;
  last_attended = now;
}

-- `Robot.online` and `Robot.unattended_s`, at the time `now`.
unfoldable pub online : ℕ → Robot → Bool
online now r = ltb (now - r.last_seen) offline_after

abbrev pub unattended : ℕ → Robot → ℕ
unattended now r = now - r.last_attended

pub record HelloMessage : Type 0 where
  pub robot_id : String
  pub robot_type : Option String
  pub adapter : Option String
  pub ros : Option String
  pub coordinate_frame : Option String
  pub capabilities : Option (List String)
  pub footprint_radius : Option Float
  pub footprint : Option Json

abbrev pub get_or {ℓ} : {A : Type ℓ} → Option A → A → A
get_or none d = d
get_or (some a) d = a

abbrev pub frame_of : Option String → String
frame_of none = "local"
frame_of (some f) = if str_eq f "merged" then "merged" else "local"

-- The robot after `hello`: what is on the wire replaces what was known, but an empty peer and an
-- absent footprint do not.
unfoldable pub greet : (String → Option Float) → ℕ → String → HelloMessage → Robot → Robot
unfolding parse_footprint
greet read now peer m r = record r {
  robot_type = get_or m.robot_type "unknown";
  adapter = get_or m.adapter "";
  ros = get_or m.ros "";
  peer = if str_eq peer "" then r.peer else peer;
  coordinate_frame = frame_of m.coordinate_frame;
  capabilities = get_or m.capabilities [];
  footprint_radius = get_or m.footprint_radius (fin (pos 300));
  footprint = elim m.footprint [ none ↦ r.footprint | some v ↦ parse_footprint read v ];
  last_seen = now;
}

pub record StateMessage : Type 0 where
  pub robot_id : Option String
  pub pose : Option Pose
  pub home_pose : Option Json
  pub battery : Option (Option Float)
  pub mode : Option String
  pub exploration_status : Option String
  pub nav_status : Option String
  pub goal : Option (Option Pose)
  pub planned_path : Option (Option (List Pose))
  pub global_planned_path : Option (Option (List Pose))
  pub local_planned_path : Option (Option (List Pose))
  pub network : Option Json

-- The dict comprehension over `x`, `y` and `yaw`, and the test that the values are finite.
unfoldable pub finite_pose : Option Float → Option Float → Option Float → Option Pose
finite_pose (some x) (some y) (some yaw) =
    if is_finite x && is_finite y && is_finite yaw
    then some (record { x = x; y = y; yaw = yaw })
    else none
finite_pose _ _ _ = none

float_field : (String → Option Float) → String → Fields → Option Float
float_field read key fs = elim (field? key fs) [ none ↦ none | some v ↦ to_float read v ]

unfoldable pub read_home : (String → Option Float) → Json → Option Pose
unfolding finite_pose float_field
read_home read (obj fs) =
    finite_pose (float_field read "x" fs) (float_field read "y" fs) (float_field read "yaw" fs)
read_home read _ = none

-- A home pose is set once.
unfoldable pub set_home : (String → Option Float) → Option Pose → Option Json → Option Pose
unfolding read_home
set_home read (some h) v = some h
set_home read none none = none
set_home read none (some v) = read_home read v

unfoldable pub is_exploration_status : String → Bool
is_exploration_status s =
    contains s ("idle" ∷ "starting" ∷ "exploring" ∷ "complete" ∷ "blocked" ∷ "stopped" ∷ [])

unfoldable pub set_exploration : Option String → String → String
unfolding is_exploration_status
set_exploration none old = old
set_exploration (some s) old = if is_exploration_status s then s else old

set_network : Option Json → Option Fields → Option Fields
set_network none old = old
set_network (some (obj fs)) old = some fs
set_network (some _) old = none

-- The fields that `update_state` sets before it looks at the paths, and the network.
unfoldable pub refresh : (String → Option Float) → ℕ → StateMessage → Robot → Robot
unfolding set_home set_exploration set_network
refresh read now m r = record r {
  last_seen = now;
  pose = get_or m.pose r.pose;
  home_pose = set_home read r.home_pose m.home_pose;
  battery = get_or m.battery r.battery;
  mode = get_or m.mode r.mode;
  exploration_status = set_exploration m.exploration_status r.exploration_status;
  nav_status = get_or m.nav_status r.nav_status;
  goal = get_or m.goal r.goal;
  network = set_network m.network r.network;
}

-- `list(value or [])`, and the truth of such a value.
abbrev pub path_or_empty : Option (List Pose) → List Pose
path_or_empty none = []
path_or_empty (some p) = p

abbrev pub is_path : Option (Option (List Pose)) → Bool
is_path none = false
is_path (some none) = false
is_path (some (some [])) = false
is_path (some (some (p ∷ ps))) = true

abbrev pub is_nav_active : Robot → Bool
is_nav_active r = str_eq r.nav_status "active" || str_eq r.nav_status "nav" || is_some r.goal

-- The three statements under `if is_nav_active`.
set_global : Option (Option (List Pose)) → Robot → Robot
set_global none r = r
set_global (some p) r =
    if is_path (some p) then record r { global_planned_path = take 200 (path_or_empty p) } else r

set_local : Option (Option (List Pose)) → Robot → Robot
set_local none r = r
set_local (some p) r = record r { local_planned_path = take 200 (path_or_empty p) }

set_legacy : Bool → Option (Option (List Pose)) → Robot → Robot
set_legacy split p r =
    if not split && is_path p
    then record r { global_planned_path = r.planned_path; local_planned_path = [] }
    else r

unfoldable pub route : StateMessage → Robot → Robot
unfolding set_global set_local set_legacy
route m r =
    if is_nav_active r
    then set_legacy (is_some m.global_planned_path || is_some m.local_planned_path) m.planned_path
        (set_local m.local_planned_path (set_global m.global_planned_path r))
    else record r { global_planned_path = []; local_planned_path = []; planned_path = [] }
