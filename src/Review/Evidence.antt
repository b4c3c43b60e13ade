-- ===== src/Review/Evidence.antt =====
-- server/swarmdeck_server/detect/review.py: `Sample` and `Accumulator`, the evidence for an object.
--
-- Coordinates, scores and times are Python floats, which are the parameter `F`: a type with the
-- operations that the code uses and nothing assumed of them. `max` and `min` are Python's.
use swarmdeck.Prelude.{
  ℕ, zero, suc, ◌+◌, ◌-◌, String, Bool, true, false, Option, none, some, List, [], ◌∷◌, ◌++◌,
  ltb as ltb_ℕ, length, contains, ◌==◌, if◌then◌else◌,
}
use swarmdeck.Prelude.Dict
use swarmdeck.Prelude.Dict.{Dict}

pub record Floats : Type 1 where
  pub Real : Type 0
  pub zero_real : Real
  pub inf : Real
  pub add : Real → Real → Real
  pub sub : Real → Real → Real
  pub div : Real → ℕ → Real
  pub hypot : Real → Real → Real
  pub ltb : Real → Real → Bool
  pub leb : Real → Real → Bool
  pub eqb : Real → Real → Bool
  -- MIN_VIEWPOINT_MOVE_M
  pub min_move : Real

abbrev pub max_samples : ℕ
max_samples = 24

module _ (F : Floats) where
  open F use {Real, zero_real, add, sub, div, hypot, ltb, eqb, min_move}

  pub record Sample : Type 0 where
    pub robot_id : String
    pub x : Real
    pub y : Real
    pub score : Real
    pub t : Real

  pub record Accumulator : Type 0 where
    pub sum_x : Real
    pub sum_y : Real
    pub count : ℕ
    pub sightings : ℕ
    pub best_score : Real
    pub robots : List String
    pub samples : List Sample
    pub viewpoints : Dict (Real × Real)
    pub first_seen : Real
    pub last_seen : Real

  -- `Accumulator()`
  abbrev pub no_evidence : Accumulator
  no_evidence = record {
    sum_x = zero_real;
    sum_y = zero_real;
    count = 0;
    sightings = 0;
    best_score = zero_real;
    robots = [];
    samples = [];
    viewpoints = [];
    first_seen = zero_real;
    last_seen = zero_real;
  }

  abbrev pub max_real : Real → Real → Real
  max_real a b = if ltb a b then b else a

  abbrev pub min_real : Real → Real → Real
  min_real a b = if ltb b a then b else a

  -- `robots.add(robot_id)`
  abbrev pub with_robot : String → List String → List String
  with_robot r rs = if contains r rs then rs else rs ++ r ∷ []

  -- `samples.append(sample)`, and the oldest goes when there are too many.
  abbrev pub drop_oldest : List Sample → List Sample
  drop_oldest [] = []
  drop_oldest (s ∷ ss) = if ltb_ℕ max_samples (length (s ∷ ss)) then ss else s ∷ ss

  -- What every sighting changes.
  unfoldable pub see : Sample → Accumulator → Accumulator
  see s a = record a {
    first_seen = if a.sightings == 0 then s.t else a.first_seen;
    sightings = a.sightings + 1;
    best_score = max_real a.best_score s.score;
    robots = with_robot s.robot_id a.robots;
    last_seen = s.t;
  }

  -- What a sighting from a new viewpoint changes.
  unfoldable pub weigh : Sample → Accumulator → Accumulator
  weigh s a = record a {
    sum_x = add a.sum_x s.x;
    sum_y = add a.sum_y s.y;
    count = a.count + 1;
    samples = drop_oldest (a.samples ++ s ∷ []);
  }

  -- The robot stands where it stood when it last moved the centroid.
  unfoldable pub is_parked : Option (Real × Real) → Real × Real → Bool
  is_parked none p = false
  is_parked (some q) p = ltb (hypot (sub p.0 q.0) (sub p.1 q.1)) min_move

  unfoldable pub see_from : Sample → Option (Real × Real) → Accumulator → Accumulator × Bool
  see_from s none a = (weigh s a, true)
  see_from s (some p) a =
      if is_parked (Dict.get s.robot_id a.viewpoints) p
      then (a, false)
      else (weigh s (record a { viewpoints = Dict.put s.robot_id p a.viewpoints }), true)

  -- `Accumulator.add(sample, observer)`
  unfoldable pub add_sample : Sample → Option (Real × Real) → Accumulator → Accumulator × Bool
  unfolding see see_from
  add_sample s observer a = see_from s observer (see s a)

  -- `robots |= other.robots`
  abbrev pub join_robots : List String → List String → List String
  join_robots rs [] = rs
  join_robots rs (q ∷ qs) = join_robots (with_robot q rs) qs

  -- `viewpoints.update(other.viewpoints)`
  abbrev pub update_all : Dict (Real × Real) → Dict (Real × Real) → Dict (Real × Real)
  update_all d [] = d
  update_all d ((k, v) ∷ e) = update_all (Dict.put k v d) e

  -- `(...)[-MAX_SAMPLES:]`
  abbrev pub drop : ℕ → List Sample → List Sample
  drop zero ss = ss
  drop (suc n) [] = []
  drop (suc n) (s ∷ ss) = drop n ss

  -- `absorb(other)`
  unfoldable pub absorb : Accumulator → Accumulator → Accumulator
  absorb other a =
      let ss = a.samples ++ other.samples in
      record a {
        sum_x = add a.sum_x other.sum_x;
        sum_y = add a.sum_y other.sum_y;
        count = a.count + other.count;
        sightings = a.sightings + other.sightings;
        best_score = max_real a.best_score other.best_score;
        robots = join_robots a.robots other.robots;
        samples = drop (length ss - max_samples) ss;
        viewpoints = update_all a.viewpoints other.viewpoints;
        first_seen =
            min_real (if eqb a.first_seen zero_real then other.first_seen else a.first_seen)
              other.first_seen;
        last_seen = max_real a.last_seen other.last_seen;
      }

  -- The properties `x` and `y`.
  abbrev pub centre_x : Accumulator → Real
  centre_x a = if a.count == 0 then zero_real else div a.sum_x a.count

  abbrev pub centre_y : Accumulator → Real
  centre_y a = if a.count == 0 then zero_real else div a.sum_y a.count
