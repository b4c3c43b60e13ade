-- ===== src/Settings/Validation.antt =====
-- config/settings.py: `defaults` and `SettingsStore`.
use swarmdeck.Prelude.{
  ℕ, ◌*◌, ◌-◌, String, Bool, true, false, ◌||◌, Option, none, some, List, [], ◌∷◌, str_eq, take,
  length, if◌then◌else◌, Outcome, raises, returns,
}
use swarmdeck.Prelude.Dict.{Dict}
use swarmdeck.Prelude.Int.{ℤ, pos, min_ℤ, max_ℤ, pos_part}
use swarmdeck.Prelude.Float.{Float, fin, max_float}
use swarmdeck.Prelude.Json.{Json, Fields, bool, num, str, arr, obj, end, truthy, get, get_or, items}
use swarmdeck.Settings.Reading.{
  Python, fields_of, bounded, round2, whole, IntError, refused, overflow_error, int_of, float_of,
  stripped, name_of,
}
use swarmdeck.Settings.Detection.{
  Target, Floors, validate_classes, validate_class_floors, validate_robot_floors, capture_floors,
}
use swarmdeck.Settings.Robots.{RobotRow, default_robots, clean_rows, grow, nonempty_or}

pub record Settings : Type 0 where
  pub unattended_threshold_s : ℤ
  pub alert_suppress_s : ℤ
  pub robot_count : ℤ
  pub drive_control_mode : String
  pub detection_enabled : Bool
  pub detection_sensitivity : Float
  pub detection_classes : List String
  pub detection_same_radius_m : Float
  pub detection_ask_radius_m : Float
  pub detection_class_floors : Floors
  pub detection_robot_floors : Dict Floors
  pub detection_capture_floors : Floors
  pub detection_single_mode : Bool
  pub detection_single_name : String
  pub detection_single_color : String
  pub detection_cross_class_merge : Bool
  pub robots : List RobotRow

abbrev pub max_robots : ℕ
max_robots = 16

abbrev pub seconds : ℕ → Float
seconds n = fin (pos (1000 * n))

-- The three kinds of number, of what `float` makes of the value; `none` keeps the default.
unfoldable pub seconds_of : ℕ → ℕ → Option Float → ℤ
seconds_of low default none = pos default
seconds_of low default (some x) = whole (bounded (seconds low) (seconds 3600) x)

unfoldable pub sensitivity_of : Option Float → Float
sensitivity_of none = fin (pos 550)
sensitivity_of (some x) = round2 (bounded (fin (pos 100)) (fin (pos 1000)) x)

unfoldable pub radii_of : Option Float → Option Float → Float × Float
radii_of (some s) (some a) =
    let same = bounded (fin (pos 50)) (fin (pos 5000)) s in
    let ask = bounded (fin (pos 50)) (fin (pos 10000)) a in
    (round2 same, round2 (max_float same ask))
radii_of s a = (fin (pos 500), fin (pos 1500))

-- `except (TypeError, ValueError)`: an OverflowError goes on.
unfoldable pub count_of : Outcome IntError ℤ → Outcome IntError ℤ
count_of (raises refused) = returns (pos 4)
count_of (raises overflow_error) = raises overflow_error
count_of (returns n) = returns (max_ℤ (pos 1) (min_ℤ (pos max_robots) n))

unfoldable pub mode_of : String → String
mode_of mode = if str_eq mode "arrows" || str_eq mode "joystick" then mode else "arrows"

pub record SettingsStore : Type 0 where
  pub value : Settings

abbrev pub stored : Outcome IntError Settings → SettingsStore → SettingsStore × Option IntError
stored (raises x) store = (store, some x)
stored (returns s) store = (record { value = s }, none)

module _ (python : Python) where
  -- The rows and the count, where the request has a list of robots and where it has none.
  abbrev pub with_rows : ℤ → List RobotRow → ℤ × List RobotRow
  with_rows count [] = (count, default_robots python)
  with_rows count (r ∷ rows) = (min_ℤ count (pos (length (r ∷ rows))), r ∷ rows)

  unfoldable pub read_robots : ℤ → Json → ℤ × List RobotRow
  read_robots count (arr vs) =
      with_rows count (clean_rows python 0 (take max_robots (items vs)) [] [])
  read_robots count v = (count, default_robots python)

  abbrev pub grown : ℤ → List RobotRow → List RobotRow
  grown count rows = grow python (pos_part count - length rows) rows

module _ (catalog : List Target) (python : Python) where
  unfoldable pub settings_of : Fields → ℤ → Settings
  settings_of source count =
      let number : String → ℕ → Option Float =
        λ key default. float_of python (get_or key (num (fin (pos default))) source) in
      let radii =
        radii_of (number "detection_same_radius_m" 500) (number "detection_ask_radius_m" 1500) in
      let fleet = validate_class_floors catalog python (get "detection_class_floors" source) in
      let overrides = validate_robot_floors catalog python (get "detection_robot_floors" source) in
      let robots = read_robots python count (get "robots" source) in
      record {
        unattended_threshold_s = seconds_of 10 45 (number "unattended_threshold_s" 45000);
        alert_suppress_s = seconds_of 0 30 (number "alert_suppress_s" 30000);
        robot_count = robots.0;
        drive_control_mode =
            mode_of (stripped python (get_or "drive_control_mode" (str "arrows") source));
        detection_enabled = truthy (get_or "detection_enabled" (bool true) source);
        detection_sensitivity = sensitivity_of (number "detection_sensitivity" 550);
        detection_classes = validate_classes catalog python (get "detection_classes" source);
        detection_same_radius_m = radii.0;
        detection_ask_radius_m = radii.1;
        detection_class_floors = fleet;
        detection_robot_floors = overrides;
        detection_capture_floors = capture_floors catalog fleet overrides;
        detection_single_mode = truthy (get_or "detection_single_mode" (bool false) source);
        detection_single_name =
            nonempty_or (name_of python 48 (get_or "detection_single_name" (str "Target") source))
              "Target";
        detection_single_color =
            nonempty_or (name_of python 32 (get_or "detection_single_color" (str "#fbbf24") source))
              "#fbbf24";
        detection_cross_class_merge =
            truthy (get_or "detection_cross_class_merge" (bool true) source);
        robots = grown python robots.0 robots.1;
      }

  abbrev pub counted : Fields → Outcome IntError ℤ → Outcome IntError Settings
  counted source (raises x) = raises x
  counted source (returns count) = returns (settings_of source count)

  -- `validate(raw)`
  unfoldable pub validate : Json → Outcome IntError Settings
  validate raw =
      let source = fields_of raw in
      counted source (count_of (int_of python (get_or "robot_count" (num (fin (pos 4000))) source)))

  -- `save(raw)`: the store, and the exception. The file is written after the value is set.
  abbrev pub save : Json → SettingsStore → SettingsStore × Option IntError
  save raw store = stored (validate raw) store

  -- `load()`, of the file's JSON; a file that cannot be read or parsed is `none`.
  abbrev pub load : Option Json → SettingsStore → SettingsStore × Option IntError
  load none store = stored (validate (obj end)) store
  load (some raw) store = stored (validate raw) store
