-- ===== src/Registry/Paths.antt =====
-- `update_state`: the routes of a robot, its home pose and its exploration status.
use swarmdeck.Prelude.{
  ℕ, ◌≡◌, refl, String, true, false, ◌&&◌, Option, none, some, List, [], ◌∷◌, arith, take,
  if◌then◌else◌, inl, inr, Bool-cases,
}
use swarmdeck.Prelude.Dict
use swarmdeck.Prelude.Float.{Float, is_finite}
use swarmdeck.Prelude.Json.{Json}
use swarmdeck.Registry.{
  Pose, Registry, Robot, StateMessage, refresh, route, set_home, read_home, finite_pose,
  set_exploration, is_exploration_status, update_state, get_or, is_nav_active, is_path,
  path_or_empty,
}

-- What the routes of a robot are after a state message, by the keys of the message.
pub record HasRoutes (m : StateMessage) (r r' : Robot) : Type 0 where
  -- No route is kept for a robot that is not navigating.
  pub at_rest :
      is_nav_active r ≡ false
      → (r'.planned_path ≡ []) × (r'.global_planned_path ≡ []) × (r'.local_planned_path ≡ [])
  -- A local route in the message is the local route, cut to 200 points, also when it is empty.
  pub local_route :
      (p : Option (List Pose))
      → is_nav_active r ≡ true
      → m.local_planned_path ≡ some p
      → r'.local_planned_path ≡ take 200 (path_or_empty p)
  -- A global route is taken where it is not empty, and otherwise the old one stays.
  pub global_route :
      (p : Option (List Pose))
      → is_nav_active r ≡ true
      → m.global_planned_path ≡ some p
      → r'.global_planned_path
        ≡ (if is_path (some p) then take 200 (path_or_empty p) else r.global_planned_path)

route-HasRoutes : (m : StateMessage) (r : Robot) → HasRoutes m r (route m r)
unfolding route
route-HasRoutes m r = record {
  at_rest = λ a. ground arith;
  local_route = λ p a e. ground arith;
  global_route = λ p a e. ground arith;
}

update_state_found :
    (read : String → Option Float) (now : ℕ) (m : StateMessage) (g : Registry) (r : Robot)
    → Dict.get (get_or m.robot_id "") g.robots ≡ some r
    → (update_state read now m g).1 ≡ some (route m (refresh read now m r))
unfolding update_state
update_state_found read now m g r e = rw (e, update_state) refl

-- For a robot of the registry, a state message sets the routes by what the robot reports now: none
-- when it is not navigating, and otherwise those of the message, at most 200 points of each.
pub update_state_routes :
    (read : String → Option Float) (now : ℕ) (m : StateMessage) (g : Registry) (r : Robot)
    → Dict.get (get_or m.robot_id "") g.robots ≡ some r
    → (r' : Robot) × ((update_state read now m g).1 ≡ some r')
      × HasRoutes m (refresh read now m r) r'
update_state_routes read now m g r e = (
  route m (refresh read now m r),
  update_state_found read now m g r e,
  route-HasRoutes m (refresh read now m r),
)

abbrev with_path : StateMessage → Pose → List Pose → StateMessage
with_path m p ps = record m { planned_path = some (some (p ∷ ps)) }

route_same :
    (m : StateMessage) (p q : Pose) (ps qs : List Pose) (r : Robot)
    → route (with_path m p ps) r ≡ route (with_path m q qs) r
unfolding route
route_same m p q ps qs r = refl

refresh_same :
    (read : String → Option Float) (now : ℕ) (m : StateMessage) (p q : Pose) (ps qs : List Pose)
    (r : Robot)
    → refresh read now (with_path m p ps) r ≡ refresh read now (with_path m q qs) r
unfolding refresh
refresh_same read now m p q ps qs r = refl

-- The points of a `planned_path` in a state message are never stored: two messages that differ
-- only in the points of a nonempty `planned_path` leave the same registry and return the same
-- robot.
pub planned_path_ignored :
    (read : String → Option Float) (now : ℕ) (m : StateMessage) (p q : Pose) (ps qs : List Pose)
    (g : Registry)
    → update_state read now (with_path m p ps) g ≡ update_state read now (with_path m q qs) g
unfolding update_state
planned_path_ignored read now m p q ps qs g = refl

-- A home pose has finite coordinates.
abbrev pub IsFinite : Option Pose → Type 0
IsFinite none = Unit
IsFinite (some h) = (is_finite h.x ≡ true) × (is_finite h.y ≡ true) × (is_finite h.yaw ≡ true)

finite_pose-IsFinite : (x y yaw : Option Float) → IsFinite (finite_pose x y yaw)
unfolding finite_pose
finite_pose-IsFinite (some x) (some y) (some yaw) =
    elim (Bool-cases (is_finite x && is_finite y && is_finite yaw)) [
      | inl e ↦ rw e (ground arith)
      | inr e ↦ rw e tt
    ]
finite_pose-IsFinite none _ _ = tt
finite_pose-IsFinite (some x) none _ = tt
finite_pose-IsFinite (some x) (some y) none = tt

read_home-IsFinite : (read : String → Option Float) (v : Json) → IsFinite (read_home read v)
unfolding read_home
read_home-IsFinite read (Json.obj fs) = finite_pose-IsFinite _ _ _
read_home-IsFinite read _ = tt

set_home-IsFinite :
    (read : String → Option Float) (old : Option Pose) (v : Option Json)
    → IsFinite old
    → IsFinite (set_home read old v)
unfolding set_home
set_home-IsFinite read (some h) v f = f
set_home-IsFinite read none none f = tt
set_home-IsFinite read none (some v) f = read_home-IsFinite read v

home-route : (m : StateMessage) (r : Robot) → (route m r).home_pose ≡ r.home_pose
unfolding route
home-route m r = ground arith

home-refresh :
    (read : String → Option Float) (now : ℕ) (m : StateMessage) (r : Robot)
    → (refresh read now m r).home_pose ≡ set_home read r.home_pose m.home_pose
unfolding refresh
home-refresh read now m r = refl

-- A home pose is set once and then never changes, whatever the robot reports; and a robot whose
-- home pose is finite or not known yet has, after a state message, a finite one or none.
pub update_state_home :
    (read : String → Option Float) (now : ℕ) (m : StateMessage) (r : Robot)
    → ((h : Pose) → r.home_pose ≡ some h → (route m (refresh read now m r)).home_pose ≡ some h)
      × (IsFinite r.home_pose → IsFinite (route m (refresh read now m r)).home_pose)
update_state_home read now m r = (
  λ h e. rw (home-route, home-refresh, e) (unfold set_home in refl),
  λ f. rw (home-route, home-refresh) (set_home-IsFinite read r.home_pose m.home_pose f),
)

set_exploration_known :
    (m : Option String) (old : String)
    → is_exploration_status old ≡ true
    → is_exploration_status (set_exploration m old) ≡ true
unfolding set_exploration
set_exploration_known none old h = h
set_exploration_known (some s) old h = elim (Bool-cases (is_exploration_status s)) [
  | inl e ↦ rw e e
  | inr e ↦ rw e h
]

exploration-route :
    (m : StateMessage) (r : Robot) → (route m r).exploration_status ≡ r.exploration_status
unfolding route
exploration-route m r = ground arith

exploration-refresh :
    (read : String → Option Float) (now : ℕ) (m : StateMessage) (r : Robot)
    → (refresh read now m r).exploration_status
      ≡ set_exploration m.exploration_status r.exploration_status
unfolding refresh
exploration-refresh read now m r = refl

-- A robot whose exploration status is one of the six that the dashboard knows still has one of
-- them after any state message.
pub update_state_exploration :
    (read : String → Option Float) (now : ℕ) (m : StateMessage) (r : Robot)
    → is_exploration_status r.exploration_status ≡ true
    → is_exploration_status (route m (refresh read now m r)).exploration_status ≡ true
update_state_exploration read now m r h =
    rw (exploration-route, exploration-refresh)
      (set_exploration_known m.exploration_status r.exploration_status h)
