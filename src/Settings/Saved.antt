-- ===== src/Settings/Saved.antt =====
-- config/settings.py: the rows of the robots that `save` writes, as `load` reads them back.
use swarmdeck.Prelude.{
  ℕ, suc, ◌≡◌, refl, sym, ap, ◌∙◌, String, Bool, true, false, ◌||◌, List, [], ◌∷◌, ◌++◌, str_eq,
  str_eq_iff, str_eq_refl, contains, contains-append, is_nodup, length, map, arith, All,
  append_assoc, append-nil,
}
use swarmdeck.Prelude.Json.{Json, Fields, bool, str, obj, end, field}
use swarmdeck.Settings.Reading.{Python, name_of}
use swarmdeck.Settings.Robots.{RobotRow, ids, row_id, row_of, clean_rows}
use swarmdeck.Settings.Names.{AreNamed, is_named}
use swarmdeck.Settings.Rows.{SameNames, seen-kept, ids-append}

-- `json.dumps` of a row, which `json.loads` gives back.
abbrev pub saved : RobotRow → Fields
saved r = field "id" (str r.id) (field "enabled" (bool r.enabled) (field "color" (str r.color) end))

abbrev pub all_saved : List RobotRow → List Json
all_saved rows = map (λ r. obj (saved r)) rows

both-false : {a b : Bool} → a ≡ false → b ≡ false → (a || b) ≡ false
both-false p q = ground arith

middle-fresh :
    (x : String) (xs ys : List String) → is_nodup (xs ++ x ∷ ys) ≡ true → contains x xs ≡ false
middle-fresh x [] ys h = refl
middle-fresh x (z ∷ zs) ys h = ground (
  arith,
  middle-fresh x zs ys,
  contains-append z zs (x ∷ ys),
  str_eq_iff z x,
  str_eq_iff x z,
  str_eq_refl x,
)

module _ (python : Python) where
  -- Neither the name nor the colour has white at an end, or is too long.
  pub record IsSettled (r : RobotRow) : Type 0 where
    pub id_kept : name_of python 48 (str r.id) ≡ r.id
    pub color_kept : name_of python 32 (str r.color) ≡ r.color
    pub color_some : str_eq r.color "" ≡ false

  row_back : (r : RobotRow) (n : ℕ) → IsSettled r → row_of python r.id n (saved r) ≡ r
  row_back r n s = rw (s.color_some, s.color_kept, s.color_some) refl

  rows_back :
      (index : ℕ) (rows : List RobotRow) (seen : List String) (clean : List RobotRow)
      → SameNames python seen clean
      → is_nodup (ids (clean ++ rows)) ≡ true
      → is_named (ids rows) ≡ true
      → All IsSettled rows
      → clean_rows python index (all_saved rows) seen clean ≡ clean ++ rows
  unfolding clean_rows
  rows_back index [] seen clean same nodup named settled = sym (append-nil clean)
  rows_back index (r ∷ rows) seen clean same nodup named settled =
      let s : IsSettled r = settled.0 in
      let id_is : row_id python index (saved r) ≡ r.id = s.id_kept in
      let fresh : (str_eq r.id "" || contains r.id seen) ≡ false = both-false (ground arith) (
        same r.id
        ∙ middle-fresh r.id (ids clean) (ids rows)
            (sym (ap is_nodup (ids-append clean (r ∷ rows))) ∙ nodup)) in
      rw (id_is, fresh, row_back r (length clean) s)
        (rows_back (suc index) rows (r.id ∷ seen) (clean ++ r ∷ [])
            (seen-kept python r seen clean same)
            (ap (λ rs. is_nodup (ids rs)) (append_assoc clean (r ∷ []) rows) ∙ nodup) (ground arith)
            settled.1
          ∙ append_assoc clean (r ∷ []) rows)

-- Rows with names of their own, none empty, in which nothing is white at an end or too long, are read
-- back as they were saved.
pub clean_rows-saved :
    (python : Python) (rows : List RobotRow)
    → AreNamed rows
    → All (IsSettled python) rows
    → clean_rows python 0 (all_saved rows) [] [] ≡ rows
clean_rows-saved python rows named settled =
    rows_back python 0 rows [] [] (λ x. refl) named.0 named.1 settled
