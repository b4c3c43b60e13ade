-- ===== src/Settings/Rows.antt =====
-- config/settings.py: the rows that validation leaves: as many as the count asks, each with a name
-- of its own.
use swarmdeck.Prelude.{
  ℕ, zero, suc, ◌+◌, ◌-◌, ◌≤◌, ◌≡◌, refl, sym, ap, subst, ◌∙◌, String, true, false, ◌||◌, List, [],
  ◌∷◌, ◌++◌, str_eq, str_eq_iff, contains, contains-append, is_nodup, length, length-append,
  Bool-cases, inl, inr, arith,
}
use swarmdeck.Prelude.Text.{decimal}
use swarmdeck.Prelude.Json.{Json, null, bool, num, str, arr, obj}
use swarmdeck.Settings.Reading.{Python}
use swarmdeck.Settings.Robots.{
  RobotRow, ids, default_row, default_robots, row_id, row_of, clean_rows, grow,
}
use swarmdeck.Settings.Names.{AreNamed, is_named}

nodup-snoc :
    (x : String) (xs : List String)
    → contains x xs ≡ false
    → is_nodup xs ≡ true
    → is_nodup (xs ++ x ∷ []) ≡ true
nodup-snoc x [] h k = refl
nodup-snoc x (y ∷ ys) h k =
    ground (arith, nodup-snoc x ys, contains-append y ys (x ∷ []), str_eq_iff x y, str_eq_iff y x)

named-snoc :
    (x : String) (xs : List String)
    → str_eq x "" ≡ false
    → is_named xs ≡ true
    → is_named (xs ++ x ∷ []) ≡ true
named-snoc x [] h k = ground arith
named-snoc x (y ∷ ys) h k = ground (arith, named-snoc x ys)

nodup-front : (xs ys : List String) → is_nodup (xs ++ ys) ≡ true → is_nodup xs ≡ true
nodup-front [] ys h = refl
nodup-front (x ∷ xs) ys h = ground (arith, nodup-front xs ys, contains-append x xs ys)

named-front : (xs ys : List String) → is_named (xs ++ ys) ≡ true → is_named xs ≡ true
named-front [] ys h = refl
named-front (x ∷ xs) ys h = ground (arith, named-front xs ys)

pub ids-append : (rs qs : List RobotRow) → ids (rs ++ qs) ≡ ids rs ++ ids qs
ids-append [] qs = refl
ids-append (r ∷ rs) qs = ap (λ ns. r.id ∷ ns) (ids-append rs qs)

AreNamed-front : (rs qs : List RobotRow) → AreNamed (rs ++ qs) → AreNamed rs
AreNamed-front rs qs h = (
  nodup-front (ids rs) (ids qs) (sym (ap is_nodup (ids-append rs qs)) ∙ h.0),
  named-front (ids rs) (ids qs) (sym (ap is_named (ids-append rs qs)) ∙ h.1),
)

AreNamed-snoc :
    (r : RobotRow) (rs : List RobotRow)
    → contains r.id (ids rs) ≡ false
    → str_eq r.id "" ≡ false
    → AreNamed rs
    → AreNamed (rs ++ r ∷ [])
AreNamed-snoc r rs h k named = (
  ap is_nodup (ids-append rs (r ∷ [])) ∙ nodup-snoc r.id (ids rs) h named.0,
  ap is_named (ids-append rs (r ∷ [])) ∙ named-snoc r.id (ids rs) k named.1,
)

module _ (python : Python) where
  abbrev pub SameNames : List String → List RobotRow → Type 0
  SameNames seen clean = (x : String) → contains x seen ≡ contains x (ids clean)

  pub seen-kept :
      (r : RobotRow) (seen : List String) (clean : List RobotRow)
      → SameNames seen clean
      → SameNames (r.id ∷ seen) (clean ++ r ∷ [])
  seen-kept r seen clean same x =
      let at_end : contains x (ids (clean ++ r ∷ []))
          ≡ (contains x (ids clean) || contains x (r.id ∷ [])) =
        ap (contains x) (ids-append clean (r ∷ [])) ∙ contains-append x (ids clean) (r.id ∷ []) in
      let before : contains x seen ≡ contains x (ids clean) = same x in ground arith

  -- A list of rows with names of their own, at most `n` of them.
  abbrev pub AtMost : ℕ → List RobotRow → Type 0
  AtMost n rows = AreNamed rows × (length rows ≤ n)

  pub clean_rows-AtMost :
      (index : ℕ) (vs : List Json) (seen : List String) (clean : List RobotRow) (n : ℕ)
      → SameNames seen clean
      → AreNamed clean
      → length clean + length vs ≤ n
      → AtMost n (clean_rows python index vs seen clean)
  unfolding clean_rows
  clean_rows-AtMost index [] seen clean n same named h = (named, omega arith)
  clean_rows-AtMost index (obj item ∷ vs) seen clean n same named h =
      let id : String = row_id python index item in
      let r : RobotRow = row_of python id (length clean) item in
      elim (Bool-cases (str_eq id "" || contains id seen)) [
        | inl q ↦ rw q (clean_rows-AtMost (suc index) vs seen clean n same named (omega arith))
        | inr q ↦
            let here : contains id seen ≡ contains id (ids clean) = same id in
            rw q (
              clean_rows-AtMost (suc index) vs (id ∷ seen) (clean ++ r ∷ []) n
                (seen-kept r seen clean same)
                (AreNamed-snoc r clean (ground arith) (ground arith) named)
                (omega (arith, length-append clean (r ∷ []))))
      ]
  clean_rows-AtMost index (null ∷ vs) seen clean n same named h =
      clean_rows-AtMost (suc index) vs seen clean n same named (omega arith)
  clean_rows-AtMost index (bool b ∷ vs) seen clean n same named h =
      clean_rows-AtMost (suc index) vs seen clean n same named (omega arith)
  clean_rows-AtMost index (num f ∷ vs) seen clean n same named h =
      clean_rows-AtMost (suc index) vs seen clean n same named (omega arith)
  clean_rows-AtMost index (str s ∷ vs) seen clean n same named h =
      clean_rows-AtMost (suc index) vs seen clean n same named (omega arith)
  clean_rows-AtMost index (arr ws ∷ vs) seen clean n same named h =
      clean_rows-AtMost (suc index) vs seen clean n same named (omega arith)

  grow-last :
      (n : ℕ) (rows : List RobotRow)
      → grow python (suc n) rows
        ≡ grow python n rows ++ default_row python (length (grow python n rows)) ∷ []
  unfolding grow
  grow-last zero rows = refl
  grow-last (suc n) rows = grow-last n (rows ++ default_row python (length rows) ∷ [])

  pub length-grow : (n : ℕ) (rows : List RobotRow) → length (grow python n rows) ≡ length rows + n
  unfolding grow
  length-grow zero rows = omega arith
  length-grow (suc n) rows = omega (
    arith,
    length-grow n (rows ++ default_row python (length rows) ∷ []),
    length-append rows (default_row python (length rows) ∷ []),
  )

  grow-down :
      (m n : ℕ) (rows : List RobotRow)
      → AreNamed (grow python (m + n) rows)
      → AreNamed (grow python n rows)
  grow-down zero n rows h = subst (λ k. AreNamed (grow python k rows)) (omega arith) h
  grow-down (suc m) n rows h =
      let next : AreNamed (grow python (suc (m + n)) rows) =
        subst (λ k. AreNamed (grow python k rows)) (omega arith) h in
      grow-down m n rows
        (AreNamed-front (grow python (m + n) rows) _ (subst AreNamed (grow-last (m + n) rows) next))

  -- The sixteen default names differ.
  sixteen : AreNamed (grow python 12 (default_robots python))
  unfolding grow decimal
  sixteen = (refl, refl)

  pub defaults-named : (n : ℕ) → n ≤ 12 → AreNamed (grow python n (default_robots python))
  defaults-named n h =
      grow-down (12 - n) n (default_robots python)
        (subst (λ k. AreNamed (grow python k (default_robots python))) (whole n h) sixteen)
    where
      whole : (n : ℕ) → n ≤ 12 → 12 ≡ 12 - n + n
      whole n h = omega arith
