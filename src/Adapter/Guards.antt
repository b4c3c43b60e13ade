-- ===== src/Adapter/Guards.antt =====
-- adapters/runtime.py: each operation of the bridge keeps a robot that moves under a watchdog.
use swarmdeck.Prelude.{
  ℕ, suc, ◌-◌, ◌≡◌, refl, ap, sym, subst, ◌∙◌, Bool, true, false, not, ◌&&◌, ◌||◌, Option, none,
  some, List, [], ◌∷◌, arith, ltb, ◌==◌, str_eq, Bool-cases, Option-cases, inl, inr, if◌then◌else◌,
}
use swarmdeck.Adapter.{
  Bridge, Config, Twist, zero_twist, publish, is_active, is_moving, cancel_goal, preempt, move,
  drive, on_nav_cmd_vel, apply_pending_drive, drive_watchdog, link_watchdog, link_ok,
}

-- The newest velocity moves the robot.
abbrev pub keeps_moving : List Twist → Bool
keeps_moving [] = false
keeps_moving (t ∷ ts) = is_moving t

-- The drive watchdog looks at the drive.
abbrev pub is_armed : Bridge → Bool
is_armed b = str_eq b.mode "teleop" && not (b.last_drive_at == 0)

-- The bridge publishes velocities, its cancel stops a trajectory, and where the robot moves, an
-- operator's drive is timed or a goal is active.
pub record IsGuarded (b : Bridge) : Type 0 where
  pub has_cmd : b.has_cmd ≡ true
  pub has_trajectory : b.has_trajectory ≡ true
  pub watched : (not (keeps_moving b.published) || is_armed b || is_active b) ≡ true

pub cancel_goal-IsGuarded : (b : Bridge) → IsGuarded b → IsGuarded (cancel_goal b)
unfolding cancel_goal
cancel_goal-IsGuarded b h = record {
  has_cmd = ground (arith, h.has_cmd, h.has_trajectory);
  has_trajectory = ground (arith, h.has_cmd, h.has_trajectory);
  watched = ground (arith, h.has_cmd, h.has_trajectory);
}

-- A cancel ends the motion.
pub cancel_goal-stops : (b : Bridge) → IsGuarded b → keeps_moving (cancel_goal b).published ≡ false
unfolding cancel_goal
cancel_goal-stops b h = ground (arith, h.has_cmd, h.has_trajectory)

preempt-IsGuarded : (t : Twist) (b : Bridge) → IsGuarded b → IsGuarded (preempt t b)
unfolding preempt
preempt-IsGuarded t b h = elim (Bool-cases (is_moving t && is_active b)) [
  | inl e ↦
      subst IsGuarded (sym (ap (λ x. if x then cancel_goal b else b) e)) (cancel_goal-IsGuarded b h)
  | inr e ↦ subst IsGuarded (sym (ap (λ x. if x then cancel_goal b else b) e)) h
]

move-IsGuarded : (now : ℕ) (t : Twist) (b : Bridge) → IsGuarded b → IsGuarded (move (suc now) t b)
unfolding move
move-IsGuarded now t b h = record {
  has_cmd = h.has_cmd;
  has_trajectory = h.has_trajectory;
  watched = elim (Bool-cases (is_moving t)) [ inl e ↦ rw e (ground arith) | inr e ↦ rw e refl ];
}

drive-move :
    (now : ℕ) (t : Twist) (b : Bridge) → IsGuarded b → drive now t b ≡ move now t (preempt t b)
unfolding drive
drive-move now t b h = ap (λ x. if not x then b else move now t (preempt t b)) h.has_cmd

pub drive-IsGuarded :
    (now : ℕ) (t : Twist) (b : Bridge) → IsGuarded b → IsGuarded (drive (suc now) t b)
drive-IsGuarded now t b h =
    subst IsGuarded (sym (drive-move (suc now) t b h))
      (move-IsGuarded now t (preempt t b) (preempt-IsGuarded t b h))

-- A velocity of zero ends the motion.
drive-stops :
    (now : ℕ) (b : Bridge) → IsGuarded b → keeps_moving (drive now zero_twist b).published ≡ false
unfolding move
drive-stops now b h =
    subst (λ c. keeps_moving c.published ≡ false) (sym (drive-move now zero_twist b h)) refl

pub apply_pending_drive-IsGuarded :
    (now : ℕ) (b : Bridge) → IsGuarded b → IsGuarded (apply_pending_drive (suc now) b)
unfolding apply_pending_drive
apply_pending_drive-IsGuarded now b h = elim (Option-cases b.pending_drive) [
  | inl e ↦ subst IsGuarded (sym (none_pending e)) h
  | inr (t, e) ↦ subst IsGuarded (sym (some_pending t e)) (
      drive-IsGuarded now t (record b { pending_drive = none })
        (record { has_cmd = h.has_cmd; has_trajectory = h.has_trajectory; watched = h.watched }))
]
  where
    applied : Option Twist → Bridge
    applied o = elim o [ none ↦ b | some t ↦ drive (suc now) t (record b { pending_drive = none }) ]

    none_pending : b.pending_drive ≡ none → applied b.pending_drive ≡ b
    none_pending e = ap applied e

    some_pending :
        (t : Twist)
        → b.pending_drive ≡ some t
        → applied b.pending_drive ≡ drive (suc now) t (record b { pending_drive = none })
    some_pending t e = ap applied e

-- What both branches have.
pub branches :
    {A : Type 0} (Q : A → Type 0) (c : Bool) (x y : A) → Q x → Q y → Q (if c then x else y)
branches Q true x y p q = p
branches Q false x y p q = q

-- The end of a timed drive.
abbrev disarm : ℕ → Bridge → Bridge
disarm now b = record (drive now zero_twist b) { mode = "idle"; last_drive_at = 0 }

stopped-IsGuarded : (now : ℕ) (b : Bridge) → IsGuarded b → IsGuarded (move now zero_twist b)
unfolding move
stopped-IsGuarded now b h = record {
  has_cmd = h.has_cmd;
  has_trajectory = h.has_trajectory;
  watched = refl;
}

pub drive_zero-IsGuarded : (now : ℕ) (b : Bridge) → IsGuarded b → IsGuarded (drive now zero_twist b)
drive_zero-IsGuarded now b h =
    subst IsGuarded (sym (drive-move now zero_twist b h))
      (stopped-IsGuarded now (preempt zero_twist b) (preempt-IsGuarded zero_twist b h))

disarm-IsGuarded : (now : ℕ) (b : Bridge) → IsGuarded b → IsGuarded (disarm now b)
disarm-IsGuarded now b h =
    let d = drive_zero-IsGuarded now b h in
    record {
      has_cmd = d.has_cmd;
      has_trajectory = d.has_trajectory;
      watched =
          ap (λ m. not m || is_armed (disarm now b) || is_active (disarm now b))
            (drive-stops now b h);
    }

pub drive_watchdog-IsGuarded :
    (cfg : Config) (now : ℕ) (b : Bridge) → IsGuarded b → IsGuarded (drive_watchdog cfg now b)
unfolding drive_watchdog
drive_watchdog-IsGuarded cfg now b h =
    branches IsGuarded (not (str_eq b.mode "teleop") || b.last_drive_at == 0) b
      (if ltb cfg.drive_timeout (now - b.last_drive_at) then disarm now b else b) h
      (branches IsGuarded (ltb cfg.drive_timeout (now - b.last_drive_at)) (disarm now b) b
        (disarm-IsGuarded now b h) h)

pub link_watchdog-IsGuarded :
    (cfg : Config) (now : ℕ) (b : Bridge) → IsGuarded b → IsGuarded (link_watchdog cfg now b)
unfolding link_watchdog
link_watchdog-IsGuarded cfg now b h =
    branches IsGuarded (not (is_active b) || link_ok cfg now b) b
      (drive now zero_twist (cancel_goal b)) h
      (drive_zero-IsGuarded now (cancel_goal b) (cancel_goal-IsGuarded b h))

pub on_nav_cmd_vel-IsGuarded :
    (cfg : Config) (now : ℕ) (t : Twist) (b : Bridge)
    → IsGuarded b
    → IsGuarded (on_nav_cmd_vel cfg now t b)
unfolding on_nav_cmd_vel
on_nav_cmd_vel-IsGuarded cfg now t b h = elim (Bool-cases (is_active b)) [
  | inr e ↦
      subst IsGuarded
        (sym (ap (λ a. if a && b.has_cmd && link_ok cfg now b then publish t b else b) e)) h
  | inl e ↦
      branches IsGuarded (is_active b && b.has_cmd && link_ok cfg now b) (publish t b) b
        (record {
          has_cmd = h.has_cmd;
          has_trajectory = h.has_trajectory;
          watched = ground (arith, e);
        })
        h
]

-- The drive watchdog leaves only a goal to move the robot, where the drive is overdue.
pub drive_watchdog-overdue :
    (cfg : Config) (now : ℕ) (b : Bridge)
    → IsGuarded b
    → ltb cfg.drive_timeout (now - b.last_drive_at) ≡ true
    → ((not (keeps_moving (drive_watchdog cfg now b).published)
          || is_active (drive_watchdog cfg now b))
        ≡ true)
      × ((drive_watchdog cfg now b).last_link_at ≡ b.last_link_at)
unfolding drive_watchdog
drive_watchdog-overdue cfg now b h late =
    elim (Bool-cases (not (str_eq b.mode "teleop") || b.last_drive_at == 0)) [
      | inl e ↦
          subst Calm (sym (ap (λ c. if c then b else late_or_not) e))
            (ground (arith, h.watched, e), refl)
      | inr e ↦
          subst Calm
            (sym (
              ap (λ c. if c then b else late_or_not) e
              ∙ ap (λ c. if c then disarm now b else b) late))
            (
              ap (λ m. not m || is_active (disarm now b)) (drive-stops now b h),
              ap (λ c. c.last_link_at) (drive-move now zero_twist b h) ∙ kept,
            )
    ]
  where
    late_or_not : Bridge
    late_or_not = if ltb cfg.drive_timeout (now - b.last_drive_at) then disarm now b else b

    Calm : Bridge → Type 0
    Calm c =
        ((not (keeps_moving c.published) || is_active c) ≡ true) × (c.last_link_at ≡ b.last_link_at)

    kept : (move now zero_twist (preempt zero_twist b)).last_link_at ≡ b.last_link_at
    kept = refl

pub link_watchdog-stale :
    (cfg : Config) (now : ℕ) (b : Bridge)
    → IsGuarded b
    → (not (keeps_moving b.published) || is_active b) ≡ true
    → link_ok cfg now b ≡ false
    → keeps_moving (link_watchdog cfg now b).published ≡ false
unfolding link_watchdog
link_watchdog-stale cfg now b h calm stale = elim (Bool-cases (is_active b)) [
  | inr e ↦
      subst (λ c. keeps_moving c.published ≡ false)
        (sym (
          ap (λ a. if not a || link_ok cfg now b then b else drive now zero_twist (cancel_goal b))
            e))
        (ground (arith, calm, e))
  | inl e ↦
      subst (λ c. keeps_moving c.published ≡ false)
        (sym (
          ap (λ a. if not a || link_ok cfg now b then b else drive now zero_twist (cancel_goal b)) e
          ∙ ap (λ k. if k then b else drive now zero_twist (cancel_goal b)) stale))
        (drive-stops now (cancel_goal b) (cancel_goal-IsGuarded b h))
]
