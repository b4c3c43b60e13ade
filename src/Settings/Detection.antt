-- ===== src/Settings/Detection.antt =====
-- config/detection.py: the detector's classes, the floors of the display and of the capture.
--
-- A set is a list, whose order the code does not rely on.
use swarmdeck.Prelude.{
  ℕ, String, Bool, true, false, not, ◌&&◌, ◌||◌, Option, none, some, List, [], ◌∷◌, ◌++◌, map,
  str_eq, contains, keep, take, if◌then◌else◌,
}
use swarmdeck.Prelude.Dict
use swarmdeck.Prelude.Dict.{Dict}
use swarmdeck.Prelude.Int.{pos}
use swarmdeck.Prelude.Float.{Float, fin, zero_float, min_float}
use swarmdeck.Prelude.Json.{Json, Fields, str, arr, obj, end, field, items}
use swarmdeck.Settings.Reading.{Python, bounded, round2, float_of, stripped, name_of}

-- `target["name"]` and `target["min_score"]`
pub record Target : Type 0 where
  pub name : String
  pub min_score : Float

abbrev pub Floors : Type 0
Floors = Dict Float

-- The dictionary of an object's items: of equal keys the last value stays, at the first's place.
abbrev pub entries_from : Dict Json → Fields → Dict Json
entries_from d end = d
entries_from d (field k v fs) = entries_from (Dict.put k v d) fs

abbrev pub entries : Fields → Dict Json
entries fs = entries_from [] fs

abbrev pub floor_min : Float
floor_min = fin (pos 50)

abbrev pub floor_max : Float
floor_max = fin (pos 950)

abbrev pub max_robot_overrides : ℕ
max_robot_overrides = 8

-- `_clamp_floor(value)`, of what `float` makes of the value.
unfoldable pub clamp_floor : Option Float → Option Float
clamp_floor none = none
clamp_floor (some x) = some (round2 (bounded floor_min floor_max x))

-- `if override is a dictionary and has the class`, else the fleet's, else the catalog's.
abbrev pub or_floor : Option Float → Option Float → Option Float
or_floor none o = o
or_floor (some f) o = some f

abbrev pub found_in : String → Option Floors → Option Float
found_in cls none = none
found_in cls (some floors) = Dict.get cls floors

abbrev pub value_or : Option Float → Float
value_or none = zero_float
value_or (some f) = f

-- `candidates`: what is there, in the order of the code.
abbrev pub add_candidate : Option Float → List Float → List Float
add_candidate none fs = fs
add_candidate (some f) fs = f ∷ fs

unfoldable pub override_candidates : String → Dict Floors → List Float
override_candidates cls [] = []
override_candidates cls ((robot, floors) ∷ robots) =
    add_candidate (Dict.get cls floors) (override_candidates cls robots)

unfoldable pub override_names : Dict Floors → List String
override_names [] = []
override_names ((robot, floors) ∷ robots) = Dict.keys floors ++ override_names robots

-- `min(...)`, from the first on.
unfoldable pub least_from : Float → List Float → Float
least_from f [] = f
least_from f (g ∷ gs) = least_from (min_float f g) gs

-- `if candidates: captured[name] = round(min(...), 2)`
abbrev pub capture : String → List Float → Floors → Floors
capture cls [] captured = captured
capture cls (f ∷ fs) captured = Dict.put cls (round2 (least_from f fs)) captured

-- `DETECTION_CLASS_FLOORS`
abbrev pub floors_from : List Target → Floors → Floors
floors_from [] d = d
floors_from (t ∷ ts) d = floors_from ts (Dict.put t.name t.min_score d)

-- The write of a floor, where the test holds and the value is a number.
abbrev pub set_floor : Bool → String → Option Float → Floors → Floors
set_floor false key floor floors = floors
set_floor true key none floors = floors
set_floor true key (some f) floors = Dict.put key f floors

-- `if clean: robots[key] = clean`
abbrev pub add_robot : String → Floors → Dict Floors → Dict Floors
add_robot key [] robots = robots
add_robot key (f ∷ fs) robots = Dict.put key (f ∷ fs) robots

module _ (catalog : List Target) where
  -- `DETECTION_CLASS_NAMES`
  abbrev pub class_names : List String
  class_names = map (λ (t : Target). t.name) catalog

  abbrev pub catalog_floors : Floors
  catalog_floors = floors_from catalog []

  abbrev pub is_missing : Bool
  is_missing = elim catalog [ [] ↦ true | _ ∷ _ ↦ false ]

  -- `floor_for(settings, robot_id, class_name)`
  unfoldable pub floor_for : Floors → Dict Floors → String → String → Float
  floor_for fleet overrides robot cls = value_or (
      or_floor (found_in cls (Dict.get robot overrides))
        (or_floor (Dict.get cls fleet) (Dict.get cls catalog_floors)))

  abbrev pub candidates : Floors → Dict Floors → String → List Float
  candidates fleet overrides cls =
      add_candidate (Dict.get cls catalog_floors)
        (add_candidate (Dict.get cls fleet) (override_candidates cls overrides))

  unfoldable pub capture_all : Floors → Dict Floors → List String → Floors → Floors
  capture_all fleet overrides [] captured = captured
  capture_all fleet overrides (cls ∷ names) captured =
      capture_all fleet overrides names (capture cls (candidates fleet overrides cls) captured)

  -- `set(DETECTION_CLASS_FLOORS) | set(fleet) | …`
  abbrev pub captured_names : Floors → Dict Floors → List String
  captured_names fleet overrides =
      Dict.keys catalog_floors ++ (Dict.keys fleet ++ override_names overrides)

  -- `capture_floors(settings)`
  unfoldable pub capture_floors : Floors → Dict Floors → Floors
  capture_floors fleet overrides = capture_all fleet overrides (captured_names fleet overrides) []

  module _ (python : Python) where
    -- `validate_classes(raw)`
    abbrev pub named : List Json → List String
    named vs = take 32 (map (name_of python 48) vs)

    abbrev pub selected : List Json → List String
    selected vs =
        let requested = map (stripped python) vs in keep (λ n. contains n requested) class_names

    abbrev pub or_all : List String → List String
    or_all [] = class_names
    or_all (n ∷ ns) = n ∷ ns

    unfoldable pub validate_classes : Json → List String
    validate_classes (arr vs) =
        if is_missing then named (items vs) else or_all (selected (items vs))
    validate_classes v = if is_missing then [] else class_names

    -- The loop of `validate_class_floors`, with a catalog and without one.
    unfoldable pub fill_floors : Dict Json → Floors → Floors
    fill_floors [] floors = floors
    fill_floors ((name, value) ∷ rest) floors =
        let key = stripped python (str name) in
        fill_floors rest
          (set_floor (Dict.has key floors) key (clamp_floor (float_of python value)) floors)

    unfoldable pub gather_floors : Dict Json → Floors → Floors
    gather_floors [] floors = floors
    gather_floors ((name, value) ∷ rest) floors =
        let key = name_of python 48 (str name) in
        gather_floors rest
          (set_floor (not (str_eq key "")) key (clamp_floor (float_of python value)) floors)

    unfoldable pub validate_class_floors : Json → Floors
    validate_class_floors (obj fs) =
        if is_missing
        then gather_floors (take 32 (entries fs)) []
        else fill_floors (entries fs) catalog_floors
    validate_class_floors v = if is_missing then [] else catalog_floors

    -- The inner loop of `validate_robot_floors`.
    abbrev pub is_class : String → Bool
    is_class key = not (str_eq key "") && (is_missing || Dict.has key catalog_floors)

    unfoldable pub robot_floors : Dict Json → Floors → Floors
    robot_floors [] clean = clean
    robot_floors ((name, value) ∷ rest) clean =
        let key = name_of python 48 (str name) in
        robot_floors rest (set_floor (is_class key) key (clamp_floor (float_of python value)) clean)

    abbrev pub read_robot : String → Json → Dict Floors → Dict Floors
    read_robot key (obj fs) robots =
        if str_eq key ""
        then robots
        else add_robot key (robot_floors (take 32 (entries fs)) []) robots
    read_robot key v robots = robots

    unfoldable pub all_robot_floors : Dict Json → Dict Floors → Dict Floors
    all_robot_floors [] robots = robots
    all_robot_floors ((robot, floors) ∷ rest) robots =
        all_robot_floors rest (read_robot (name_of python 48 (str robot)) floors robots)

    unfoldable pub validate_robot_floors : Json → Dict Floors
    validate_robot_floors (obj fs) = all_robot_floors (take max_robot_overrides (entries fs)) []
    validate_robot_floors v = []
