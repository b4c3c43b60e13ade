-- ===== src/Teleop/Assigning.antt =====
-- api/teleop_routes.py: which goals `post_robot_goal` hands to a robot, and that a refusal leaves
-- the fleet as it was.
use swarmdeck.Prelude.{
  ℕ, ◌≡◌, refl, ap, subst, ◌∙◌, String, Bool, true, false, not, ◌||◌, Option, none, some, List, [],
  ◌∷◌, ◌++◌, is_some, inl, inr, Option-cases, Bool-cases, map, if◌then◌else◌, ◌⊎◌, ◌&&◌, All,
  str_eq, str_eq_iff,
}
use swarmdeck.Prelude.Dict
use swarmdeck.Prelude.Dict.{Dict}
use swarmdeck.Prelude.Float.{Float}
use swarmdeck.Prelude.Json.{Fields, field?}
use swarmdeck.Registry.{Pose, Registry, Robot, can, near}
use swarmdeck.Teleop.{
  App, Command, Maps, Net, assign, Reply, transmit, goal_sent, send_goal, place_goal, check_goal,
  post_robot_goal, world_goal_taken, taken_in, holds_world_goal, is_name, number, local_of,
  world_of, is_merged,
}
use swarmdeck.Teleop.Writes.{change-sent, transmit-robots}
use Command.{navigate_to}
use Reply.{refused, navigating}

-- The robot's goal, if it has one, is half a metre or more from `goal` in the shared frame, along
-- one of the axes.
abbrev pub IsElsewhere : Maps → Pose → String → Option Pose → Bool → Type 0
IsElsewhere maps goal id none merged = Unit
IsElsewhere maps goal id (some g) merged =
    let shared : Pose = if merged then g else maps.robot_to_world id g in
    (near 500 shared.x goal.x ≡ false) ⊎ (near 500 shared.y goal.y ≡ false)

-- `if taken_by:` would pass over a robot of the empty id.
abbrev pub HasName : String × Robot → Type 0
HasName entry = str_eq entry.0 "" ≡ false

-- No robot but `rid` has the goal.
abbrev pub IsFree : Maps → Pose → String → Dict Robot → Type 0
IsFree maps goal rid robots =
    All
      (λ (entry : String × Robot).
        (entry.0 ≡ rid)
        ⊎ IsElsewhere maps goal entry.0 entry.1.goal (str_eq entry.1.coordinate_frame "merged"))
      robots

module _ (read : String → Option Float) (net : Net) where
  -- The robot is known and can navigate, no other robot has the goal, and it got the order for the
  -- goal in its own frame.
  pub record IsAssigned (maps : Maps) (rid : String) (goal : Pose) (before after : App)
      : Type 0 where
    pub able : can rid "navigate" before.registry ≡ true
    pub free : IsFree maps goal rid before.registry.robots
    pub robot : Robot
    pub known : Dict.get rid before.registry.robots ≡ some robot
    pub path : List Pose
    pub order :
        after.sent
        ≡ before.sent
          ++ record {
            robot_id = rid;
            command = navigate_to (local_of maps rid robot goal) path;
            delivered = true;
          }
            ∷ []

  holds_world_goal-IsElsewhere :
      (maps : Maps) (id : String) (r : Robot) (goal : Pose) (o : Option Pose)
      → holds_world_goal read net maps id r goal o ≡ false
      → IsElsewhere maps goal id o (str_eq r.coordinate_frame "merged")
  unfolding holds_world_goal near
  holds_world_goal-IsElsewhere maps id r goal none h = tt
  holds_world_goal-IsElsewhere maps id r goal (some g) h = and_false _ _ h
    where
      and_false : (a b : Bool) → (a && b) ≡ false → (a ≡ false) ⊎ (b ≡ false)
      and_false true b e = inr e
      and_false false b e = inl refl

  -- The search passes over a robot only if it is the one to be sent or has another goal.
  taken_in-IsFree :
      (maps : Maps) (goal : Pose) (rid : String) (robots : Dict Robot)
      → All HasName robots
      → is_name (taken_in read net maps goal rid robots) ≡ false
      → IsFree maps goal rid robots
  unfolding taken_in
  taken_in-IsFree maps goal rid [] named h = tt
  taken_in-IsFree maps goal rid ((id, r) ∷ rs) named h = elim (Bool-cases (str_eq id rid)) [
    | inl k ↦ (inl ((str_eq_iff id rid).0 k), taken_in-IsFree maps goal rid rs named.1 (rw k at h))
    | inr k ↦ elim (Bool-cases (holds_world_goal read net maps id r goal r.goal)) [
      | inl q ↦ let taken = rw (k, q) at h in cc (named.0, taken)
      | inr q ↦ (
        inr (holds_world_goal-IsElsewhere maps id r goal r.goal q),
        taken_in-IsFree maps goal rid rs named.1 (rw (k, q) at h),
      )
    ]
  ]

  goal_sent-navigating :
      (rid : String) (goal local : Pose) (path : List Pose) (o : App × Bool) (g : Pose) (n : ℕ)
      → (goal_sent read net rid goal local path o).1 ≡ navigating g n
      → (o.1 ≡ true) × ((goal_sent read net rid goal local path o).0.sent ≡ o.0.sent) × (goal ≡ g)
  unfolding goal_sent
  goal_sent-navigating rid goal local path (a, false) g n e = cc
  goal_sent-navigating rid goal local path (a, true) g n e =
      (refl, change-sent rid (assign local path) a, cc)

  send_goal-navigating :
      (maps : Maps) (rid : String) (r : Robot) (goal : Pose) (a : App) (g : Pose) (n : ℕ)
      → Dict.get rid a.registry.robots ≡ some r
      → can rid "navigate" a.registry ≡ true
      → IsFree maps goal rid a.registry.robots
      → (send_goal read net maps rid r goal a).1 ≡ navigating g n
      → IsAssigned maps rid g a (send_goal read net maps rid r goal a).0
  unfolding send_goal transmit
  send_goal-navigating maps rid r goal a g n k c f e =
      let local = local_of maps rid r goal in
      let world = if is_merged r then goal else maps.robot_to_world rid local in
      let path =
        map (local_of maps rid r) (maps.plan_path rid (world_of maps rid r r.pose) world) in
      let o = transmit net rid (navigate_to local path) a in
      let (ok, sent, same) = goal_sent-navigating rid goal local path o g n e in
      subst (λ p. IsAssigned maps rid p a (send_goal read net maps rid r goal a).0) same
        (record {
          able = c;
          free = f;
          robot = r;
          known = k;
          path = path;
          order =
              sent
              ∙ ap
                  (λ b.
                    a.sent
                    ++ record { robot_id = rid; command = navigate_to local path; delivered = b }
                      ∷ [])
                  ok;
        })

  place_goal-navigating :
      (maps : Maps) (rid : String) (r : Robot) (x y yaw : Option Float) (a : App) (g : Pose) (n : ℕ)
      → Dict.get rid a.registry.robots ≡ some r
      → can rid "navigate" a.registry ≡ true
      → All HasName a.registry.robots
      → (place_goal read net maps rid r x y yaw a).1 ≡ navigating g n
      → IsAssigned maps rid g a (place_goal read net maps rid r x y yaw a).0
  unfolding place_goal world_goal_taken
  place_goal-navigating maps rid r none y yaw a g n q c u e = cc
  place_goal-navigating maps rid r (some x) none yaw a g n q c u e = cc
  place_goal-navigating maps rid r (some x) (some y) none a g n q c u e = cc
  place_goal-navigating maps rid r (some x) (some y) (some yaw) a g n q c u e =
      let goal : Pose = record { x = x; y = y; yaw = yaw } in
      elim (Bool-cases (is_name (world_goal_taken read net maps goal rid a.registry))) [
        | inl k ↦ cc (rw k at e)
        | inr k ↦ rw k (
            send_goal-navigating maps rid r goal a g n q c
              (taken_in-IsFree maps goal rid a.registry.robots u k) (rw k at e))
      ]

  check_goal-navigating :
      (maps : Maps) (rid : String) (fs : Fields) (a : App) (g : Pose) (n : ℕ)
      → All HasName a.registry.robots
      → (check_goal read net maps rid fs a).1 ≡ navigating g n
      → IsAssigned maps rid g a (check_goal read net maps rid fs a).0
  unfolding check_goal
  check_goal-navigating maps rid fs a g n u e =
      elim (Option-cases (Dict.get rid a.registry.robots)) [
        | inl k ↦ cc (rw (k, check_goal) at e)
        | inr (r, k) ↦ elim (Bool-cases (can rid "navigate" a.registry)) [
          | inr c ↦ cc (rw (k, check_goal, c) at e)
          | inl c ↦
              rw (k, check_goal, c)
                (place_goal-navigating maps rid r (number read net "x" fs) (number read net "y" fs)
                  (number read net "yaw" fs) a g n k c u (rw (k, check_goal, c) at e))
        ]
      ]

  -- Where no robot has the empty id: a reply that the robot navigates means that it is known and
  -- can, that in the shared frame no other robot's goal was within half a metre of this one along
  -- both axes, and that one order was sent and delivered, to the goal in the robot's frame.
  pub post_robot_goal-navigating :
      (maps : Maps) (rid : String) (body : Option Fields) (a : App) (g : Pose) (n : ℕ)
      → All HasName a.registry.robots
      → (post_robot_goal read net maps rid body a).1 ≡ navigating g n
      → IsAssigned maps rid g a (post_robot_goal read net maps rid body a).0
  unfolding post_robot_goal
  post_robot_goal-navigating maps rid none a g n u e = cc
  post_robot_goal-navigating maps rid (some fs) a g n u e =
      elim (Bool-cases (not (is_some (field? "x" fs)) || not (is_some (field? "y" fs)))) [
        | inl k ↦ cc (rw k at e)
        | inr k ↦ rw k (check_goal-navigating maps rid fs a g n u (rw k at e))
      ]

module _ (read : String → Option Float) (net : Net)
    (quiet : (rid : String) (c : Command) (g : Registry) → (net rid c).0 g ≡ g) where
  -- The robots after are those before.
  abbrev Unchanged : App → App → Type 0
  Unchanged a b = b.registry.robots ≡ a.registry.robots

  goal_sent-refused :
      (rid : String) (goal local : Pose) (path : List Pose) (o : App × Bool) (status : ℕ)
      → (goal_sent read net rid goal local path o).1 ≡ refused status
      → Unchanged o.0 (goal_sent read net rid goal local path o).0
  unfolding goal_sent
  goal_sent-refused rid goal local path (a, false) status e = refl
  goal_sent-refused rid goal local path (a, true) status e = cc

  place_goal-refused :
      (maps : Maps) (rid : String) (r : Robot) (x y yaw : Option Float) (a : App) (status : ℕ)
      → (place_goal read net maps rid r x y yaw a).1 ≡ refused status
      → Unchanged a (place_goal read net maps rid r x y yaw a).0
  unfolding place_goal send_goal
  place_goal-refused maps rid r none y yaw a status e = refl
  place_goal-refused maps rid r (some x) none yaw a status e = refl
  place_goal-refused maps rid r (some x) (some y) none a status e = refl
  place_goal-refused maps rid r (some x) (some y) (some yaw) a status e =
      let goal : Pose = record { x = x; y = y; yaw = yaw } in
      let local = local_of maps rid r goal in
      let world = if is_merged r then goal else maps.robot_to_world rid local in
      let path =
        map (local_of maps rid r) (maps.plan_path rid (world_of maps rid r r.pose) world) in
      elim (Bool-cases (is_name (world_goal_taken read net maps goal rid a.registry))) [
        | inl k ↦ rw k refl
        | inr k ↦ rw k (
            goal_sent-refused rid goal local path (transmit net rid (navigate_to local path) a)
              status (rw k at e)
            ∙ transmit-robots net quiet rid (navigate_to local path) a)
      ]

  check_goal-refused :
      (maps : Maps) (rid : String) (fs : Fields) (a : App) (status : ℕ)
      → (check_goal read net maps rid fs a).1 ≡ refused status
      → Unchanged a (check_goal read net maps rid fs a).0
  unfolding check_goal
  check_goal-refused maps rid fs a status e = elim (Option-cases (Dict.get rid a.registry.robots)) [
    | inl k ↦ rw (k, check_goal) refl
    | inr (r, k) ↦ elim (Bool-cases (can rid "navigate" a.registry)) [
      | inr c ↦ rw (k, check_goal, c) refl
      | inl c ↦
          rw (k, check_goal, c)
            (place_goal-refused maps rid r (number read net "x" fs) (number read net "y" fs)
              (number read net "yaw" fs) a status (rw (k, check_goal, c) at e))
    ]
  ]

  -- Where no other handler changes the fleet meanwhile, a refused goal, also one whose sending
  -- failed, leaves every robot as it was, with its old goal and paths.
  pub post_robot_goal-refused :
      (maps : Maps) (rid : String) (body : Option Fields) (a : App) (status : ℕ)
      → (post_robot_goal read net maps rid body a).1 ≡ refused status
      → (post_robot_goal read net maps rid body a).0.registry.robots ≡ a.registry.robots
  unfolding post_robot_goal
  post_robot_goal-refused maps rid none a status e = refl
  post_robot_goal-refused maps rid (some fs) a status e =
      elim (Bool-cases (not (is_some (field? "x" fs)) || not (is_some (field? "y" fs)))) [
        | inl k ↦ rw k refl
        | inr k ↦ rw k (check_goal-refused maps rid fs a status (rw k at e))
      ]
