-- ===== src/Registry/Goals.antt =====
-- `goal_taken`: whether another robot has the same goal.
use swarmdeck.Prelude.{
  ℕ, ◌≡◌, refl, String, true, false, Option, none, some, [], ◌∷◌, arith, All, str_eq, inl, inr, ◌⊎◌,
  Bool-cases,
}
use swarmdeck.Prelude.Dict.{Dict}
use swarmdeck.Registry.{Pose, Robot, Registry, near, holds_goal, goal_taken, goal_taken_in}

-- The robot of an entry is another one than `exclude`, and its goal is near `goal` on both axes.
abbrev pub Conflicts : ℕ → Pose → String → String × Robot → Type 0
Conflicts tol goal exclude (rid, r) =
    (str_eq rid exclude ≡ false)
    × ((h : Pose) × (r.goal ≡ some h) × (near tol h.x goal.x ≡ true) × (near tol h.y goal.y ≡ true))

-- Some entry, and the first such, with that name.
abbrev pub First : ℕ → Pose → String → Dict Robot → String → Type 0
First tol goal exclude [] name = ⊥
First tol goal exclude ((rid, r) ∷ rs) name =
    (Conflicts tol goal exclude (rid, r) × (rid ≡ name))
    ⊎ ((¬ Conflicts tol goal exclude (rid, r)) × First tol goal exclude rs name)

abbrev Near : ℕ → Pose → Option Pose → Type 0
Near tol goal o =
    (h : Pose) × (o ≡ some h) × (near tol h.x goal.x ≡ true) × (near tol h.y goal.y ≡ true)

holds_goal-Near :
    (tol : ℕ) (goal : Pose) (o : Option Pose) → holds_goal tol goal o ≡ true → Near tol goal o
unfolding holds_goal
holds_goal-Near tol goal none e = cc
holds_goal-Near tol goal (some h) e = (h, refl, ground arith, ground arith)

Near-holds_goal :
    (tol : ℕ) (goal : Pose) (o : Option Pose) → Near tol goal o → holds_goal tol goal o ≡ true
unfolding holds_goal
Near-holds_goal tol goal o (h, e, a, b) = rw (e, holds_goal) (ground arith)

not_Conflicts :
    (tol : ℕ) (goal : Pose) (exclude rid : String) (r : Robot)
    → (str_eq rid exclude ≡ true) ⊎ (holds_goal tol goal r.goal ≡ false)
    → ¬ Conflicts tol goal exclude (rid, r)
not_Conflicts tol goal exclude rid r (inl same) (other, n) = cc
not_Conflicts tol goal exclude rid r (inr far) (other, n) = cc (Near-holds_goal tol goal r.goal n)

taken-First :
    (tol : ℕ) (goal : Pose) (exclude : String) (rs : Dict Robot) (name : String)
    → goal_taken_in tol goal exclude rs ≡ some name
    → First tol goal exclude rs name
unfolding goal_taken_in
taken-First tol goal exclude [] name e = cc
taken-First tol goal exclude ((rid, r) ∷ rs) name e = elim (Bool-cases (str_eq rid exclude)) [
  | inl same ↦ inr (
    not_Conflicts tol goal exclude rid r (inl same),
    taken-First tol goal exclude rs name (rw same at e),
  )
  | inr other ↦ elim (Bool-cases (holds_goal tol goal r.goal)) [
    | inl close ↦
        let named : rid ≡ name = cc (rw (other, close) at e) in
        inl ((other, holds_goal-Near tol goal r.goal close), named)
    | inr far ↦ inr (
      not_Conflicts tol goal exclude rid r (inr far),
      taken-First tol goal exclude rs name (rw (other, far) at e),
    )
  ]
]

none_taken_lem :
    (tol : ℕ) (goal : Pose) (exclude : String) (rs : Dict Robot)
    → goal_taken_in tol goal exclude rs ≡ none
    → All (λ entry. ¬ Conflicts tol goal exclude entry) rs
unfolding goal_taken_in
none_taken_lem tol goal exclude [] e = tt
none_taken_lem tol goal exclude ((rid, r) ∷ rs) e = elim (Bool-cases (str_eq rid exclude)) [
  | inl same ↦ (
    not_Conflicts tol goal exclude rid r (inl same),
    none_taken_lem tol goal exclude rs (rw same at e),
  )
  | inr other ↦ elim (Bool-cases (holds_goal tol goal r.goal)) [
    | inl close ↦ cc (rw (other, close) at e)
    | inr far ↦ (
      not_Conflicts tol goal exclude rid r (inr far),
      none_taken_lem tol goal exclude rs (rw (other, far) at e),
    )
  ]
]

-- `goal_taken` answers with the first robot of the registry, other than the excluded one, that has
-- a goal within `tol` of the given one on both axes, and with none only if there is no such robot.
pub goal_taken_lem :
    (tol : ℕ) (goal : Pose) (exclude : String) (g : Registry)
    → ((name : String)
        → goal_taken tol goal exclude g ≡ some name
        → First tol goal exclude g.robots name)
      × (goal_taken tol goal exclude g ≡ none
          → All (λ entry. ¬ Conflicts tol goal exclude entry) g.robots)
unfolding goal_taken
goal_taken_lem tol goal exclude g =
    (taken-First tol goal exclude g.robots, none_taken_lem tol goal exclude g.robots)
