-- ===== src/Settings/Robots.antt =====
-- config/settings.py: the rows of the robots, which are switched on and off by hand.
use swarmdeck.Prelude.{
  ℕ, zero, suc, ◌%◌, String, Bool, true, not, ◌&&◌, ◌||◌, Option, none, some, List, [], ◌∷◌, ◌++◌,
  str_eq, contains, length, map, if◌then◌else◌,
}
use swarmdeck.Prelude.Dict
use swarmdeck.Prelude.Dict.{Dict}
use swarmdeck.Prelude.Text.{is_digits, rsplit, decimal, join}
use swarmdeck.Prelude.Json.{Json, Fields, bool, str, obj, truthy, get, get_or, or_else}
use swarmdeck.Settings.Reading.{Python, name_of}

pub record RobotRow : Type 0 where
  pub id : String
  pub enabled : Bool
  pub color : String

abbrev pub default_colors : List String
default_colors =
    "#007aff" ∷ "#8944ab" ∷ "#008f87" ∷ "#c93400" ∷ "#d30f72" ∷ "#b26a00" ∷ "#5865f2" ∷ "#2d8a3f"
    ∷ []

abbrev pub identity_colors : Dict String
identity_colors =
    ("spot", "#c9a000") ∷ ("botman", "#007aff") ∷ ("aslan", "#e07000") ∷ ("asimov", "#5865f2") ∷ []

-- `DEFAULT_COLORS[n]`
abbrev pub color_at : List String → ℕ → String
color_at [] n = ""
color_at (c ∷ cs) zero = c
color_at (c ∷ cs) (suc n) = color_at cs n

abbrev pub ids : List RobotRow → List String
ids rows = map (λ (r : RobotRow). r.id) rows

-- `is_robot_enabled(settings, robot_id)`
unfoldable pub is_robot_enabled : String → List RobotRow → Bool
is_robot_enabled id [] = true
is_robot_enabled id (r ∷ rows) =
    let rest = is_robot_enabled id rows in if str_eq r.id id then r.enabled else rest

-- `disabled_robot_ids(settings)`
unfoldable pub disabled_robot_ids : List RobotRow → List String
disabled_robot_ids [] = []
disabled_robot_ids (r ∷ rows) =
    let rest = disabled_robot_ids rows in
    if not (str_eq r.id "") && not r.enabled then r.id ∷ rest else rest

abbrev pub color_or : Option String → String → String
color_or none c = c
color_or (some c) d = c

abbrev pub nonempty_or : String → String → String
nonempty_or s d = if str_eq s "" then d else s

module _ (python : Python) where
  -- `_identity_stem(robot_id)`
  abbrev pub stem_of : String → Option (String × String) → String
  stem_of id none = id
  stem_of id (some (before, after)) = if is_digits python.is_digit after then before else id

  abbrev pub identity_stem : String → String
  identity_stem id = stem_of id (rsplit "_" id)

  -- `default_color(robot_id, index)`
  unfoldable pub default_color : String → ℕ → String
  default_color id index =
      color_or (Dict.get (identity_stem id) identity_colors) (color_at default_colors (index % 8))

  -- `f"robot_{index}"`
  abbrev pub robot_name : ℕ → String
  robot_name index = join ("robot_" ∷ decimal index ∷ [])

  abbrev pub default_row : ℕ → RobotRow
  default_row index = record {
    id = robot_name index;
    enabled = true;
    color = default_color (robot_name index) index;
  }

  abbrev pub default_robots : List RobotRow
  default_robots = default_row 0 ∷ default_row 1 ∷ default_row 2 ∷ default_row 3 ∷ []

  -- The row of an item, after `index` others of which `n` were kept.
  abbrev pub row_id : ℕ → Fields → String
  row_id index item = name_of python 48 (get_or "id" (str (robot_name index)) item)

  abbrev pub row_of : String → ℕ → Fields → RobotRow
  row_of id n item = record {
    id = id;
    enabled = truthy (get_or "enabled" (bool true) item);
    color =
        nonempty_or (name_of python 32 (or_else (get "color" item) (str ""))) (default_color id n);
  }

  -- The loop over the items, with the names `seen` and the rows `clean`.
  unfoldable pub clean_rows : ℕ → List Json → List String → List RobotRow → List RobotRow
  clean_rows index [] seen clean = clean
  clean_rows index (obj item ∷ items) seen clean =
      let id = row_id index item in
      let skipped = clean_rows (suc index) items seen clean in
      let kept =
        clean_rows (suc index) items (id ∷ seen) (clean ++ row_of id (length clean) item ∷ []) in
      if str_eq id "" || contains id seen then skipped else kept
  clean_rows index (v ∷ items) seen clean = clean_rows (suc index) items seen clean

  -- `while len(base["robots"]) < base["robot_count"]`, which goes round n times.
  unfoldable pub grow : ℕ → List RobotRow → List RobotRow
  grow zero rows = rows
  grow (suc n) rows = grow n (rows ++ default_row (length rows) ∷ [])
