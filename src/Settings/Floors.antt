-- ===== src/Settings/Floors.antt =====
-- config/detection.py: the ranges of the floors and of the classes that validation leaves.
use swarmdeck.Prelude.{
  ℕ, suc, ltb, ◌+◌, ◌*◌, ◌≤◌, ◌≡◌, refl, sym, subst, String, Bool, true, false, Option, none, some,
  List, [], ◌∷◌, map, arith, Bool-cases, inl, inr, ◌⊎◌, All, contains, keep, length, length-take-le,
  All-contains,
}
use mathlib.Core.Option.{some_inj}
use swarmdeck.Prelude.Int.{pos, negsuc, times}
use swarmdeck.Prelude.Float.{Float, fin, nan, inf, neg_inf}
use swarmdeck.Prelude.Rounding.{round_cents, rint, round_even}
use swarmdeck.Prelude.Json.{Json, null, bool, num, str, arr, obj, items}
use swarmdeck.Settings.Reading.{Python, round2, bounded, stripped}
use swarmdeck.Settings.Detection.{
  Target, clamp_floor, floor_min, floor_max, class_names, selected, or_all, validate_classes,
}

-- A floor is between 0.05 and 0.95.
abbrev pub IsFloor : Float → Type 0
IsFloor f = (n : ℕ) × (f ≡ fin (pos n)) × (50 ≤ n) × (n ≤ 950)

bounded-IsFloor : (x : Float) → IsFloor (bounded floor_min floor_max x)
bounded-IsFloor (fin (pos n)) = elim (Bool-cases (ltb (n + 0) 950)) [
  | inl a ↦ elim (Bool-cases (ltb 50 (n + 0))) [
    | inl b ↦ (n, rw (a, b) refl, ground (arith, b), ground (arith, a))
    | inr b ↦ (50, rw (a, b) refl, omega arith, omega arith)
  ]
  | inr a ↦ (950, rw a refl, omega arith, omega arith)
]
bounded-IsFloor (fin (negsuc n)) = (50, rw (below n, above n) refl, omega arith, omega arith)
  where
    below : (n : ℕ) → ltb 0 (950 + suc n) ≡ true
    below n = ground arith

    above : (n : ℕ) → ltb (50 + suc n) 0 ≡ false
    above n = ground arith
bounded-IsFloor nan = (950, refl, omega arith, omega arith)
bounded-IsFloor inf = (950, refl, omega arith, omega arith)
bounded-IsFloor neg_inf = (50, refl, omega arith, omega arith)

round_even-between : (n : ℕ) → 50 ≤ n → n ≤ 950 → (5 ≤ round_even n 10) × (round_even n 10 ≤ 95)
unfolding round_even
round_even-between n h k = ground arith

round2-IsFloor : (f : Float) → IsFloor f → IsFloor (round2 f)
unfolding round2 round_cents rint times
round2-IsFloor f (n, e, h, k) =
    let (low, high) = round_even-between n h k in
    subst (λ g. IsFloor (round2 g)) (sym e)
      (round_even n 10 * 10, refl, omega (arith, low), omega (arith, high))

pub clamp_floor-IsFloor : (o : Option Float) (f : Float) → clamp_floor o ≡ some f → IsFloor f
unfolding clamp_floor
clamp_floor-IsFloor none f e = cc
clamp_floor-IsFloor (some x) f e =
    subst IsFloor (some_inj.0 e)
      (round2-IsFloor (bounded floor_min floor_max x) (bounded-IsFloor x))

module _ (catalog : List Target) where
  -- Classes of the catalog, at least one; or at most 32 names, where there is no catalog.
  abbrev pub AreClasses : List String → Type 0
  AreClasses names =
      ((catalog ≡ []) × (length names ≤ 32))
      ⊎ ((1 ≤ length names) × All (λ n. contains n (class_names catalog) ≡ true) names)

  keep-All :
      (test : String → Bool) (xs : List String) (P : String → Type 0)
      → All P xs
      → All P (keep test xs)
  keep-All test [] P h = tt
  keep-All test (x ∷ xs) P h = elim (Bool-cases (test x)) [
    | inl q ↦ rw q (h.0, keep-All test xs P h.1)
    | inr q ↦ rw q (keep-All test xs P h.1)
  ]

  or_all-AreClasses :
      (python : Python) (t : Target) (ts : List Target) (names : List String)
      → catalog ≡ t ∷ ts
      → All (λ n. contains n (class_names catalog) ≡ true) names
      → AreClasses (or_all catalog python names)
  or_all-AreClasses python t ts (n ∷ names) e h = inr (omega arith, h)
  or_all-AreClasses python t ts [] e h = inr (
    subst (λ c. 1 ≤ length (class_names c)) (sym e) (omega arith),
    All-contains (class_names catalog),
  )

module _ (python : Python) where
  selected-known :
      (catalog : List Target) (vs : List Json)
      → All (λ n. contains n (class_names catalog) ≡ true) (selected catalog python vs)
  selected-known catalog vs =
      keep-All catalog (λ n. contains n (map (stripped python) vs)) (class_names catalog)
        (λ n. contains n (class_names catalog) ≡ true) (All-contains (class_names catalog))

  pub validate_classes-AreClasses :
      (catalog : List Target) (raw : Json)
      → AreClasses catalog (validate_classes catalog python raw)
  unfolding validate_classes
  validate_classes-AreClasses [] (arr vs) = inl (refl, length-take-le 32 _)
  validate_classes-AreClasses [] null = inl (refl, omega arith)
  validate_classes-AreClasses [] (bool b) = inl (refl, omega arith)
  validate_classes-AreClasses [] (num f) = inl (refl, omega arith)
  validate_classes-AreClasses [] (str s) = inl (refl, omega arith)
  validate_classes-AreClasses [] (obj fs) = inl (refl, omega arith)
  validate_classes-AreClasses (t ∷ ts) (arr vs) =
      or_all-AreClasses (t ∷ ts) python t ts (selected (t ∷ ts) python (items vs)) refl
        (selected-known (t ∷ ts) (items vs))
  validate_classes-AreClasses (t ∷ ts) null = or_all-AreClasses (t ∷ ts) python t ts [] refl tt
  validate_classes-AreClasses (t ∷ ts) (bool b) = or_all-AreClasses (t ∷ ts) python t ts [] refl tt
  validate_classes-AreClasses (t ∷ ts) (num f) = or_all-AreClasses (t ∷ ts) python t ts [] refl tt
  validate_classes-AreClasses (t ∷ ts) (str s) = or_all-AreClasses (t ∷ ts) python t ts [] refl tt
  validate_classes-AreClasses (t ∷ ts) (obj fs) = or_all-AreClasses (t ∷ ts) python t ts [] refl tt
