-- ===== src/Settings/Capturing.antt =====
-- config/detection.py: the floors that validation leaves, and the capture that follows from them.
use swarmdeck.Prelude.{
  ◌≡◌, refl, String, Bool, true, false, Option, none, some, List, [], ◌∷◌, str_eq, take,
  if◌then◌else◌, Bool-cases, inl, inr, All,
}
use swarmdeck.Prelude.Dict
use swarmdeck.Prelude.Dict.{Dict}
use swarmdeck.Prelude.Float.{Float}
use swarmdeck.Prelude.Json.{Json, null, bool, num, str, arr, obj}
use swarmdeck.Settings.Reading.{Python, float_of, name_of}
use swarmdeck.Settings.Detection.{
  Target, Floors, entries, clamp_floor, catalog_floors, floors_from, is_missing, set_floor,
  fill_floors, gather_floors, validate_class_floors, robot_floors, add_robot, read_robot,
  all_robot_floors, validate_robot_floors, max_robot_overrides,
}
use swarmdeck.Settings.Cents.{IsCents, clamp_floor-IsCents}
use swarmdeck.Settings.Captured.{Values, put-Values, IsCaptured, capture-IsCaptured}

-- What holds of every clamped floor holds of the floors that validation leaves.
module _ (Q : Float → Type 0) where
  set_floor-Values :
      (b : Bool) (key : String) (o : Option Float) (d : Floors)
      → ((f : Float) → o ≡ some f → Q f)
      → Values Q d
      → Values Q (set_floor b key o d)
  set_floor-Values false key o d h hd = hd
  set_floor-Values true key none d h hd = hd
  set_floor-Values true key (some f) d h hd = put-Values Q key f d (h f refl) hd

  pub floors_from-Values :
      (ts : List Target) (d : Floors)
      → All (λ (t : Target). Q t.min_score) ts
      → Values Q d
      → Values Q (floors_from ts d)
  floors_from-Values [] d h hd = hd
  floors_from-Values (t ∷ ts) d h hd =
      floors_from-Values ts (Dict.put t.name t.min_score d) h.1
        (put-Values Q t.name t.min_score d h.0 hd)

  add_robot-Values :
      (key : String) (fs : Floors) (robots : Dict Floors)
      → Values Q fs
      → Values (Values Q) robots
      → Values (Values Q) (add_robot key fs robots)
  add_robot-Values key [] robots h hr = hr
  add_robot-Values key (f ∷ fs) robots h hr = put-Values (Values Q) key (f ∷ fs) robots h hr

  module _ (catalog : List Target) (python : Python)
      (clamp_Q : (o : Option Float) (f : Float) → clamp_floor o ≡ some f → Q f) where
    clamped : (v : Json) (f : Float) → clamp_floor (float_of python v) ≡ some f → Q f
    clamped v f e = clamp_Q (float_of python v) f e

    fill-Values :
        (es : Dict Json) (d : Floors) → Values Q d → Values Q (fill_floors catalog python es d)
    unfolding fill_floors
    fill-Values [] d hd = hd
    fill-Values ((name, v) ∷ es) d hd =
        fill-Values es _ (set_floor-Values _ _ (clamp_floor (float_of python v)) d (clamped v) hd)

    gather-Values :
        (es : Dict Json) (d : Floors) → Values Q d → Values Q (gather_floors catalog python es d)
    unfolding gather_floors
    gather-Values [] d hd = hd
    gather-Values ((name, v) ∷ es) d hd =
        gather-Values es _ (set_floor-Values _ _ (clamp_floor (float_of python v)) d (clamped v) hd)

    robot-Values :
        (es : Dict Json) (d : Floors) → Values Q d → Values Q (robot_floors catalog python es d)
    unfolding robot_floors
    robot-Values [] d hd = hd
    robot-Values ((name, v) ∷ es) d hd =
        robot-Values es _ (set_floor-Values _ _ (clamp_floor (float_of python v)) d (clamped v) hd)

    kept :
        Values Q (catalog_floors catalog)
        → Values Q (if is_missing catalog then [] else catalog_floors catalog)
    kept h = elim (Bool-cases (is_missing catalog)) [ inl q ↦ rw q tt | inr q ↦ rw q h ]

    pub class_floors-Values :
        (raw : Json)
        → Values Q (catalog_floors catalog)
        → Values Q (validate_class_floors catalog python raw)
    unfolding validate_class_floors
    class_floors-Values (obj fs) h = elim (Bool-cases (is_missing catalog)) [
      | inl q ↦ rw q (gather-Values (take 32 (entries fs)) [] tt)
      | inr q ↦ rw q (fill-Values (entries fs) (catalog_floors catalog) h)
    ]
    class_floors-Values null h = kept h
    class_floors-Values (bool b) h = kept h
    class_floors-Values (num f) h = kept h
    class_floors-Values (str s) h = kept h
    class_floors-Values (arr vs) h = kept h

    read_robot-Values :
        (key : String) (v : Json) (robots : Dict Floors)
        → Values (Values Q) robots
        → Values (Values Q) (read_robot catalog python key v robots)
    read_robot-Values key (obj fs) robots h = elim (Bool-cases (str_eq key "")) [
      | inl q ↦ rw q h
      | inr q ↦ rw q (
          add_robot-Values key (robot_floors catalog python (take 32 (entries fs)) []) robots
            (robot-Values (take 32 (entries fs)) [] tt) h)
    ]
    read_robot-Values key null robots h = h
    read_robot-Values key (bool b) robots h = h
    read_robot-Values key (num f) robots h = h
    read_robot-Values key (str s) robots h = h
    read_robot-Values key (arr vs) robots h = h

    all_robots-Values :
        (es : Dict Json) (robots : Dict Floors)
        → Values (Values Q) robots
        → Values (Values Q) (all_robot_floors catalog python es robots)
    unfolding all_robot_floors
    all_robots-Values [] robots h = h
    all_robots-Values ((robot, v) ∷ es) robots h =
        all_robots-Values es _ (read_robot-Values (name_of python 48 (str robot)) v robots h)

    pub robot_floors-Values :
        (raw : Json) → Values (Values Q) (validate_robot_floors catalog python raw)
    unfolding validate_robot_floors
    robot_floors-Values (obj fs) = all_robots-Values (take max_robot_overrides (entries fs)) [] tt
    robot_floors-Values null = tt
    robot_floors-Values (bool b) = tt
    robot_floors-Values (num f) = tt
    robot_floors-Values (str s) = tt
    robot_floors-Values (arr vs) = tt

module _ (catalog : List Target) (python : Python) where
  clamp-IsCents : (o : Option Float) (f : Float) → clamp_floor o ≡ some f → IsCents f
  clamp-IsCents o f e = clamp_floor-IsCents o e

  -- With a catalog whose floors are of whole hundredths: whatever an operator sends as the fleet's
  -- floors and the robots' own, every class of the catalog is captured, at a floor that is at most
  -- the one at which any robot's detections of it are shown.
  pub validated-IsCaptured :
      (fleet robots : Json) (cls : String) (own : Float)
      → All (λ (t : Target). IsCents t.min_score) catalog
      → Dict.get cls (catalog_floors catalog) ≡ some own
      → IsCaptured catalog
          (validate_class_floors catalog python fleet)
          (validate_robot_floors catalog python robots)
          cls
  validated-IsCaptured fleet robots cls own h known =
      let hc : Values IsCents (catalog_floors catalog) =
        floors_from-Values IsCents catalog [] h tt in
      capture-IsCaptured catalog (validate_class_floors catalog python fleet)
        (validate_robot_floors catalog python robots) cls own known hc
        (class_floors-Values IsCents catalog python clamp-IsCents fleet hc)
        (robot_floors-Values IsCents catalog python clamp-IsCents robots)
