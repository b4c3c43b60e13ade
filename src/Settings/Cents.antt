-- ===== src/Settings/Cents.antt =====
-- config/detection.py: floors of whole hundredths, their order, and the least of them.
use swarmdeck.Prelude.{
  ℕ, suc, ltb, ◌+◌, ◌*◌, ◌%◌, ◌≡◌, refl, sym, subst, ◌∙◌, true, false, Option, none, some, List, [],
  ◌∷◌, arith, Bool-cases, inl, inr, All,
}
use mathlib.Core.Option.{some_inj}
use swarmdeck.Prelude.Int.{pos, negsuc, times}
use swarmdeck.Prelude.Float.{Float, fin, nan, inf, neg_inf, ltb_float, leb_float, min_float}
use swarmdeck.Prelude.Rounding.{round_cents, rint, round_even}
use swarmdeck.Settings.Reading.{round2, bounded}
use swarmdeck.Settings.Detection.{clamp_floor, least_from, floor_min, floor_max}

-- A floor of whole hundredths.
pub data IsCents : Float → Type 0 where
  cents : {n : ℕ} → n % 10 ≡ 0 → IsCents (fin (pos n))

abbrev pub NoAbove : Float → Float → Type 0
NoAbove f g = leb_float f g ≡ true

round2-cents : (f : Float) → IsCents f → round2 f ≡ f
unfolding round2 round_cents rint round_even times
round2-cents f (cents h) = ground arith

round2-IsCents : (n : ℕ) → IsCents (round2 (fin (pos n)))
unfolding round2 round_cents rint times
round2-IsCents n = cents (tens (round_even n 10))
  where
    tens : (q : ℕ) → (q * 10) % 10 ≡ 0
    tens q = omega arith

-- What is bounded is finite and not negative, whatever the number was.
bounded-pos : (x : Float) → (n : ℕ) × (bounded floor_min floor_max x ≡ fin (pos n))
bounded-pos (fin (pos n)) = elim (Bool-cases (ltb (n + 0) 950)) [
  | inl a ↦ elim (Bool-cases (ltb 50 (n + 0))) [
    | inl b ↦ (n, rw (a, b) refl)
    | inr b ↦ (50, rw (a, b) refl)
  ]
  | inr a ↦ (950, rw a refl)
]
bounded-pos (fin (negsuc n)) = (50, rw (below n, above n) refl)
  where
    below : (n : ℕ) → ltb 0 (950 + suc n) ≡ true
    below n = ground arith

    above : (n : ℕ) → ltb (50 + suc n) 0 ≡ false
    above n = ground arith
bounded-pos nan = (950, refl)
bounded-pos inf = (950, refl)
bounded-pos neg_inf = (50, refl)

pub clamp_floor-IsCents : (o : Option Float) {f : Float} → clamp_floor o ≡ some f → IsCents f
unfolding clamp_floor
clamp_floor-IsCents none e = cc
clamp_floor-IsCents (some x) e =
    let (n, b) = bounded-pos x in subst IsCents (some_inj.0 e) (rw b (round2-IsCents n))

min-IsCents : (f g : Float) → IsCents f → IsCents g → IsCents (min_float f g)
min-IsCents f g hf hg = elim (Bool-cases (ltb_float g f)) [ inl q ↦ rw q hg | inr q ↦ rw q hf ]

-- The order of the floors.
pub NoAbove-refl : (f : Float) → IsCents f → NoAbove f f
NoAbove-refl f (cents h) = ground arith

NoAbove-trans :
    (f g h : Float) → IsCents f → IsCents g → IsCents h → NoAbove f g → NoAbove g h → NoAbove f h
NoAbove-trans f g h (cents hf) (cents hg) (cents hh) p q = ground arith

min-NoAbove :
    (f g : Float) → IsCents f → IsCents g → NoAbove (min_float f g) f × NoAbove (min_float f g) g
min-NoAbove f g (cents {n = a} hf) (cents {n = b} hg) = elim (Bool-cases (ltb (b + 0) (a + 0))) [
  | inl q ↦ rw q (ground arith, ground arith)
  | inr q ↦ rw q (ground arith, ground arith)
]

-- The least of a list is of whole hundredths, at most each, and one of them.
least_from-IsCents :
    (f : Float) (gs : List Float) → IsCents f → All IsCents gs → IsCents (least_from f gs)
unfolding least_from
least_from-IsCents f [] h hs = h
least_from-IsCents f (g ∷ gs) h hs =
    least_from-IsCents (min_float f g) gs (min-IsCents f g h hs.0) hs.1

least_from-first :
    (f : Float) (gs : List Float) → IsCents f → All IsCents gs → NoAbove (least_from f gs) f
unfolding least_from
least_from-first f [] h hs = NoAbove-refl f h
least_from-first f (g ∷ gs) h hs =
    let m : Float = min_float f g in
    let hm : IsCents m = min-IsCents f g h hs.0 in
    NoAbove-trans (least_from m gs) m f (least_from-IsCents m gs hm hs.1) hm h
      (least_from-first m gs hm hs.1) (min-NoAbove f g h hs.0).0

least_from-all :
    (f : Float) (gs : List Float) → IsCents f → All IsCents gs → All (NoAbove (least_from f gs)) gs
unfolding least_from
least_from-all f [] h hs = tt
least_from-all f (g ∷ gs) h hs =
    let m : Float = min_float f g in
    let hm : IsCents m = min-IsCents f g h hs.0 in
    (
      NoAbove-trans (least_from m gs) m g (least_from-IsCents m gs hm hs.1) hm hs.0
          (least_from-first m gs hm hs.1) (min-NoAbove f g h hs.0).1,
      least_from-all m gs hm hs.1,
    )

-- `captured[name]`
abbrev pub captured_of : List Float → Option Float
captured_of [] = none
captured_of (f ∷ fs) = some (round2 (least_from f fs))

-- What is captured is at most every candidate.
pub captured_of-all :
    (fs : List Float) {c : Float}
    → All IsCents fs
    → captured_of fs ≡ some c
    → IsCents c × All (NoAbove c) fs
captured_of-all [] hs e = cc
captured_of-all (f ∷ fs) hs e =
    let h : IsCents (least_from f fs) = least_from-IsCents f fs hs.0 hs.1 in
    let same : least_from f fs ≡ _ = sym (round2-cents (least_from f fs) h) ∙ some_inj.0 e in
    (
      subst IsCents same h,
      subst (λ c. All (NoAbove c) (f ∷ fs)) same
          (least_from-first f fs hs.0 hs.1, least_from-all f fs hs.0 hs.1),
    )
