-- ===== src/Review/Samples.antt =====
-- A review with coordinates on a grid of centimetres, whose distance is that along the axes.
use swarmdeck.Prelude.{
  ℕ, ◌+◌, ◌-◌, ◌/◌, ◌≡◌, refl, false, none, List, [], ◌∷◌, ltb as ltb_ℕ, leb as leb_ℕ, ◌==◌, length,
  ◌≤◌,
}
use swarmdeck.Review.{Store, Proposal, Answer, observe, ignore, merge, empty_store}
use swarmdeck.Review.Evidence.{Floats, Sample, Accumulator, no_evidence}
use swarmdeck.Review.Keyed.{find}
use swarmdeck.Review.Ignoring.{observe-ignore}
use swarmdeck.Review.Observing.{IsSound}
use swarmdeck.Review.Ids.{Operation, run, run_from_empty}
use swarmdeck.Review.Weight.{Merges, merge-Merges, count-stare, stare}
use Answer.{suppressed}

abbrev grid : Floats
grid = record {
  Real = ℕ;
  zero_real = 0;
  inf = 1000000;
  add = λ a b. a + b;
  sub = λ a b. (a - b) + (b - a);
  div = λ a n. a / n;
  hypot = λ a b. a + b;
  ltb = ltb_ℕ;
  leb = leb_ℕ;
  eqb = λ a b. a == b;
  min_move = 25;
}

abbrev at : ℕ → ℕ → Sample grid
at x t = record { robot_id = "a"; x = x; y = 200; score = 80; t = t }

-- Two cups far apart, the first accepted.
abbrev history : List (Operation grid)
history =
    Operation.to_observe "cup" (at 100 1) none none
    ∷ Operation.to_accept 1
    ∷ Operation.to_observe "cup" (at 400 2) none none
    ∷ []

run_from_empty_example : IsSound grid (run grid history (empty_store grid 50 150 100 false))
run_from_empty_example = run_from_empty grid 50 150 100 false history

abbrev nothing : Accumulator grid
nothing = no_evidence grid

abbrev seen_once : Accumulator grid
seen_once = record nothing {
  sum_x = 400;
  sum_y = 200;
  count = 1;
  sightings = 1;
  best_score = 80;
  robots = "a" ∷ [];
  samples = at 400 2 ∷ [];
  first_seen = 2;
  last_seen = 2;
}

abbrev cup : Proposal grid
cup = record {
  id = 3;
  cls = "cup";
  acc = seen_once;
  suggested_entity_id = none;
  suggested_distance = none;
  image = none;
}

abbrev empty_start : Store grid
empty_start = record {
  same_radius = 50;
  ask_radius = 150;
  ignore_radius = 100;
  cross_class_merge = false;
  entities = [];
  proposals = [];
  ignored = [];
  next_id = 1;
}

abbrev store : Store grid
store = record empty_start {
  entities = record { id = 2; cls = "cup"; acc = seen_once; image = none } ∷ [];
  proposals = cup ∷ [];
  next_id = 4;
}

observe-ignore_example :
    observe grid "cup" (at 420 9) none none (ignore grid 3 store).0
    ≡ ((ignore grid 3 store).0, suppressed)
unfolding empty_store find
observe-ignore_example = observe-ignore grid store 3 cup "cup" (at 420 9) none none refl refl refl

merge-Merges_example : Merges grid 3 2 store (merge grid 3 2 store)
merge-Merges_example = merge-Merges grid 3 2 store (tt, tt) (tt, tt)

count-stare_example :
    ((stare grid "a" (0, 0) (at 400 3 ∷ at 401 4 ∷ []) seen_once).count ≤ seen_once.count + 1)
    × ((stare grid "a" (0, 0) (at 400 3 ∷ at 401 4 ∷ []) seen_once).sightings
        ≡ seen_once.sightings + length (at 400 3 ∷ at 401 4 ∷ []))
count-stare_example = count-stare grid "a" (0, 0) (at 400 3 ∷ at 401 4 ∷ []) seen_once refl
