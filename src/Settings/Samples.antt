-- ===== src/Settings/Samples.antt =====
-- Concrete settings.
use Prim.Native.Char.{code}
use swarmdeck.Prelude.{
  ◌≡◌, refl, true, false, not, ◌&&◌, none, some, List, [], ◌∷◌, leb, ◌==◌, contains, All, raises,
  String, length,
}
use swarmdeck.Prelude.Dict
use swarmdeck.Prelude.Text.{lstrip, rstrip, take_text, rsplit}
use swarmdeck.Prelude.Float.{fin, nan, inf}
use swarmdeck.Prelude.Int.{pos}
use swarmdeck.Prelude.Json.{Json, null, num, str, arr, obj, nil, cons, end, field}
use swarmdeck.Settings.Reading.{Python, overflow_error}
use swarmdeck.Settings.Detection.{
  Target, catalog_floors, validate_class_floors, validate_robot_floors,
}
use swarmdeck.Settings.Cents.{cents}
use swarmdeck.Settings.Captured.{IsCaptured}
use swarmdeck.Settings.Capturing.{validated-IsCaptured}
use swarmdeck.Settings.Robots.{
  RobotRow, ids, is_robot_enabled, disabled_robot_ids, clean_rows, default_color,
}
use swarmdeck.Settings.Validation.{Settings, validate, count_of}
use swarmdeck.Settings.Names.{is_robot_enabled-disabled_robot_ids}
use swarmdeck.Settings.Saved.{all_saved, IsSettled, clean_rows-saved}

abbrev ascii : Python
ascii = record {
  is_space = λ c. code c == 32;
  is_digit = λ c. leb 48 (code c) && leb (code c) 57;
  read_float = λ s. none;
  read_int = λ s. none;
  shown = λ v. "None";
}

abbrev sample_catalog : List Target
sample_catalog =
    record { name = "rubber_duck"; min_score = fin (pos 250) }
    ∷ record { name = "wooden_block"; min_score = fin (pos 350) }
    ∷ record { name = "disc_cone"; min_score = fin (pos 200) }
    ∷ record { name = "filament_spool"; min_score = fin (pos 250) }
    ∷ record { name = "pool_noodle"; min_score = fin (pos 250) }
    ∷ []

abbrev infinite : Json
infinite = obj (field "robot_count" (num inf) end)

-- An infinite count is not caught.
count_overflows : validate sample_catalog ascii infinite ≡ raises overflow_error
unfolding validate count_of
count_overflows = refl

abbrev sample_rows : List RobotRow
sample_rows =
    record { id = "spot"; enabled = false; color = "#c9a000" }
    ∷ record { id = "aslan_0"; enabled = true; color = "#e07000" }
    ∷ []

-- A name that is cut behind a space loses the space when it is read again, and then a robot.
abbrev long : String
long = "xxxxxxxxxxxxxxxxxxxxxxxxxxxxxxxxxxxxxxxxxxxxxxx"

abbrev pair : List RobotRow
pair =
    clean_rows ascii 0
      (obj (field "id" (str "xxxxxxxxxxxxxxxxxxxxxxxxxxxxxxxxxxxxxxxxxxxxxxx y") end)
        ∷ obj (field "id" (str long) end)
        ∷ [])
      [] []

two_kept : length pair ≡ 2
unfolding clean_rows lstrip rstrip take_text
two_kept = refl

one_read_back : ids (clean_rows ascii 0 (all_saved pair) [] []) ≡ long ∷ []
unfolding clean_rows lstrip rstrip take_text default_color rsplit
one_read_back = refl

abbrev lower : Json
lower = obj (field "wooden_block" (num (fin (pos 300))) end)

own : Dict.get "wooden_block" (catalog_floors sample_catalog) ≡ some (fin (pos 350))
unfolding Dict.get Dict.put
own = refl

validated-IsCaptured_example :
    IsCaptured sample_catalog
      (validate_class_floors sample_catalog ascii lower)
      (validate_robot_floors sample_catalog ascii (obj (field "spot" lower end)))
      "wooden_block"
validated-IsCaptured_example =
    validated-IsCaptured sample_catalog ascii lower (obj (field "spot" lower end)) "wooden_block"
      (fin (pos 350)) (cents refl, (cents refl, (cents refl, (cents refl, (cents refl, tt))))) own

-- A request with a fault in every field.
abbrev faulty : Json
faulty = obj (
    field "unattended_threshold_s" (num nan) (
      field "detection_sensitivity" (num inf) (
        field "detection_classes" (arr (cons (str "wall") nil))
          (field "detection_class_floors" lower (field "robots" (arr (cons null nil)) end)))))

is_robot_enabled-disabled_robot_ids_example :
    is_robot_enabled "spot" sample_rows ≡ not (contains "spot" (disabled_robot_ids sample_rows))
is_robot_enabled-disabled_robot_ids_example =
    is_robot_enabled-disabled_robot_ids "spot" sample_rows (refl, refl)

settled : All (IsSettled ascii) sample_rows
unfolding lstrip rstrip take_text
settled = (
  record { id_kept = refl; color_kept = refl; color_some = refl },
  (record { id_kept = refl; color_kept = refl; color_some = refl }, tt),
)

clean_rows-saved_example : clean_rows ascii 0 (all_saved sample_rows) [] [] ≡ sample_rows
clean_rows-saved_example = clean_rows-saved ascii sample_rows (refl, refl) settled
