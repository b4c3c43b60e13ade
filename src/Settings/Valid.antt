-- ===== src/Settings/Valid.antt =====
-- config/settings.py: what `SettingsStore.validate` returns, and when it does not.
use swarmdeck.Prelude.{◌≤◌, ◌≡◌, false, List, str_eq, length, ◌⊎◌}
use swarmdeck.Prelude.Int.{ℤ, pos, pos_part}
use swarmdeck.Prelude.Float.{fin, inf, neg_inf}
use swarmdeck.Prelude.Json.{Json, num, get_or}
use swarmdeck.Settings.Reading.{Python, fields_of}
use swarmdeck.Settings.Detection.{Target}
use swarmdeck.Settings.Captured.{Values}
use swarmdeck.Settings.Floors.{IsFloor, AreClasses}
use swarmdeck.Settings.Robots.{RobotRow}
use swarmdeck.Settings.Validation.{Settings, max_robots}
use swarmdeck.Settings.Numbers.{Between, Ranged, AreRadii}
use swarmdeck.Settings.Rows.{AtMost}

-- At least as many rows as the count, and no more than sixteen.
abbrev pub Fits : Python → ℤ → List RobotRow → Type 0
Fits python count rows =
    (1 ≤ pos_part count) × (pos_part count ≤ length rows) × AtMost python max_robots rows

pub record IsValid (catalog : List Target) (python : Python) (s : Settings) : Type 0 where
  pub threshold : Ranged 10 3600 s.unattended_threshold_s
  pub suppress : Ranged 0 3600 s.alert_suppress_s
  pub mode : (s.drive_control_mode ≡ "arrows") ⊎ (s.drive_control_mode ≡ "joystick")
  pub sensitivity : Between 100 1000 s.detection_sensitivity
  pub radii : AreRadii (s.detection_same_radius_m, s.detection_ask_radius_m)
  pub named : str_eq s.detection_single_name "" ≡ false
  pub colored : str_eq s.detection_single_color "" ≡ false
  pub classes : AreClasses catalog s.detection_classes
  pub class_floors : Values IsFloor s.detection_class_floors
  pub overrides : Values (Values IsFloor) s.detection_robot_floors
  pub rows : Fits python s.robot_count s.robots

-- The infinities that `json.loads` accepts.
pub data IsInfinite : Json → Type 0 where
  plus : IsInfinite (num inf)
  minus : IsInfinite (num neg_inf)

-- The "robot_count" of a request.
abbrev pub count_in : Json → Json
count_in raw = get_or "robot_count" (num (fin (pos 4000))) (fields_of raw)
