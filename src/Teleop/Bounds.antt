-- ===== src/Teleop/Bounds.antt =====
-- api/teleop_routes.py: the speeds that `post_robot_drive` sends.
use swarmdeck.Prelude.{
  ℕ, ◌+◌, ◌≡◌, refl, String, Bool, true, false, Option, none, some, List, [], ◌∷◌, ◌++◌, arith, ◌⊎◌,
  inl, inr, Option-cases, Bool-cases, leb, not, ◌&&◌, ◌||◌,
}
use swarmdeck.Prelude.Dict
use swarmdeck.Prelude.Int.{pos, negsuc, abs}
use swarmdeck.Prelude.Float.{Float, fin, nan, inf, neg_inf, zero_float, ltb_float}
use swarmdeck.Prelude.Json.{Fields, end}
use swarmdeck.Registry.{get_or}
use swarmdeck.Teleop.{
  App, Command, Net, Sent, clamp, is_zero, post_robot_drive, clamp_drive, start_drive, drive_sent,
  transmit, number,
}
use swarmdeck.Teleop.Writes.{change-sent}
use Command.{drive}

-- A finite number of at most so many thousandths, either way.
abbrev pub is_within : ℕ → Float → Bool
is_within n (fin z) = leb (abs z) n
is_within n _ = false

-- Whatever is clamped ends finite and within the limit: nan and the infinities too.
clamp-is_within :
    (n : ℕ) (v : Float) → is_within (n + 1) (clamp (fin (negsuc n)) (fin (pos (n + 1))) v) ≡ true
clamp-is_within n (fin (pos z)) = ground arith
clamp-is_within n (fin (negsuc z)) = ground arith
clamp-is_within n nan = ground arith
clamp-is_within n inf = ground arith
clamp-is_within n neg_inf = ground arith

module _ (read : String → Option Float) (net : Net) where
  -- One attempt more, to this robot, of a drive within the limits.
  pub record IsBounded (rid : String) (before after : List Sent) : Type 0 where
    pub linear : Float
    pub angular : Float
    pub delivered : Bool
    pub linear_limit : is_within 800 linear ≡ true
    pub angular_limit : is_within 1500 angular ≡ true
    pub attempt :
        after
        ≡ before
          ++ record { robot_id = rid; command = drive linear angular; delivered = delivered } ∷ []

  drive_sent-sent :
      (rid : String) (l w d : Float) (o : App × Bool)
      → (drive_sent read net rid l w d o).0.sent ≡ o.0.sent
  unfolding drive_sent
  drive_sent-sent rid l w d (a, false) = refl
  drive_sent-sent rid l w d (a, true) =
      elim (Bool-cases (ltb_float zero_float d && (not (is_zero l) || not (is_zero w)))) [
        | inl e ↦ rw e (change-sent rid (λ r. record r { goal = none }) a)
        | inr e ↦ rw e (change-sent rid (λ r. record r { goal = none }) a)
      ]

  start_drive-IsBounded :
      (rid : String) (l w d : Float) (a : App)
      → is_within 800 l ≡ true
      → is_within 1500 w ≡ true
      → ((start_drive read net rid l w d a).0.sent ≡ a.sent)
        ⊎ IsBounded rid a.sent (start_drive read net rid l w d a).0.sent
  unfolding start_drive transmit
  start_drive-IsBounded rid l w d a hl hw =
      let o = transmit net rid (drive l w) a in
      elim (Option-cases (Dict.get rid a.registry.robots)) [
        | inl e ↦ inl (rw (e, start_drive) refl)
        | inr (r, e) ↦ inr (record {
          linear = l;
          angular = w;
          delivered = o.1;
          linear_limit = hl;
          angular_limit = hw;
          attempt = rw (e, start_drive) (drive_sent-sent rid l w d o);
        })
      ]

  clamp_drive-IsBounded :
      (rid : String) (l w d : Option Float) (a : App)
      → ((clamp_drive read net rid l w d a).0.sent ≡ a.sent)
        ⊎ IsBounded rid a.sent (clamp_drive read net rid l w d a).0.sent
  unfolding clamp_drive
  clamp_drive-IsBounded rid (some l) (some w) (some d) a =
      start_drive-IsBounded rid (clamp (fin (negsuc 799)) (fin (pos 800)) l)
        (clamp (fin (negsuc 1499)) (fin (pos 1500)) w) (clamp zero_float (fin (pos 60000)) d) a
        (clamp-is_within 799 l) (clamp-is_within 1499 w)
  clamp_drive-IsBounded rid none w d a = inl refl
  clamp_drive-IsBounded rid (some l) none d a = inl refl
  clamp_drive-IsBounded rid (some l) (some w) none a = inl refl

  -- Whatever the body holds, `post_robot_drive` tries to send nothing, or one drive to the robot
  -- it names, with a finite speed of at most 0.8 m/s and a finite turn of at most 1.5 rad/s.
  pub post_robot_drive-IsBounded :
      (rid : String) (body : Option Fields) (a : App)
      → ((post_robot_drive read net rid body a).0.sent ≡ a.sent)
        ⊎ IsBounded rid a.sent (post_robot_drive read net rid body a).0.sent
  unfolding post_robot_drive
  post_robot_drive-IsBounded rid body a =
      let fs = get_or body end in
      clamp_drive-IsBounded rid (number read net "linear" fs) (number read net "angular" fs)
        (number read net "duration" fs) a
