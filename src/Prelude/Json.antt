-- ===== src/Prelude/Json.antt =====
-- The values of a JSON document, as Python's `json.loads` hands them on.
use Prim.Native.Nat.{ℕ, ◌*◌, ◌-◌, ◌^◌}
use Prim.Native.String.{String}
use mathlib.Core.Bool.{Bool, true, false, not, ◌&&◌}
use mathlib.Core.List.{List, [], ◌∷◌}
use mathlib.Core.Option.{Option, none, some}
use text.Mathlib.Text.{◌==◌ as str_eq}
use swarmdeck.Prelude.Tests.{if◌then◌else◌, ltb}
use swarmdeck.Prelude.Int.{pos, abs, eqb_ℤ}
use swarmdeck.Prelude.Float.{Float, fin, nan, inf, neg_inf}

mutual
  pub data Json : Type 0 where
    null : Json
    bool : Bool → Json
    num : Float → Json
    str : String → Json
    arr : Items → Json
    obj : Fields → Json

  pub data Items : Type 0 where
    nil : Items
    cons : Json → Items → Items

  pub data Fields : Type 0 where
    end : Fields
    field : String → Json → Fields → Fields

-- `d.get(key)` on an object; a key that stands twice has its last value.
abbrev pub field? : String → Fields → Option Json
field? key end = none
field? key (field k v fs) = elim (field? key fs) [
  | none ↦ if str_eq k key then some v else none
  | some w ↦ some w
]

-- The items of an array.
abbrev pub items : Items → List Json
items nil = []
items (cons v vs) = v ∷ items vs

-- The least whole number, in thousandths, that `float` refuses with an OverflowError.
abbrev pub float_limit : ℕ
float_limit = 2 ^ 970 * (2 ^ 54 - 1) * 1000

unfoldable mutual
  -- No number of the value is a whole number that `float` refuses.
  pub fits_float : Json → Bool
  fits_float null = true
  fits_float (bool b) = true
  fits_float (num (fin n)) = ltb (abs n) float_limit
  fits_float (num nan) = true
  fits_float (num inf) = true
  fits_float (num neg_inf) = true
  fits_float (str s) = true
  fits_float (arr vs) = fits_items vs
  fits_float (obj fs) = fits_fields fs

  pub fits_items : Items → Bool
  fits_items nil = true
  fits_items (cons v vs) = fits_float v && fits_items vs

  pub fits_fields : Fields → Bool
  fits_fields end = true
  fits_fields (field k v fs) = fits_float v && fits_fields fs

-- `float(v)` of a value that `fits_float`, where `read` is what `float` makes of a text (`none` for a `ValueError`). A list, an
-- object and `None` raise a `TypeError`.
abbrev pub to_float : (String → Option Float) → Json → Option Float
to_float read null = none
to_float read (bool true) = some (fin (pos 1000))
to_float read (bool false) = some (fin (pos 0))
to_float read (num f) = some f
to_float read (str s) = read s
to_float read (arr vs) = none
to_float read (obj fs) = none

abbrev pub is_zero : Float → Bool
is_zero (fin n) = eqb_ℤ n (pos 0)
is_zero f = false

-- `bool(v)`
abbrev pub truthy : Json → Bool
truthy null = false
truthy (bool b) = b
truthy (num f) = not (is_zero f)
truthy (str s) = not (str_eq s "")
truthy (arr nil) = false
truthy (arr (cons v vs)) = true
truthy (obj end) = false
truthy (obj (field k v fs)) = true

-- `fs.get(key)`
abbrev pub get : String → Fields → Json
get key fs = elim (field? key fs) [ none ↦ null | some v ↦ v ]

-- `fs.get(key, default)`
abbrev pub get_or : String → Json → Fields → Json
get_or key default fs = elim (field? key fs) [ none ↦ default | some v ↦ v ]

-- `v or default`
abbrev pub or_else : Json → Json → Json
or_else v default = if truthy v then v else default

-- `v == text`
abbrev pub is : String → Json → Bool
is text null = false
is text (bool b) = false
is text (num f) = false
is text (str s) = str_eq s text
is text (arr vs) = false
is text (obj fs) = false
