-- ===== src/Review/Keyed.antt =====
-- A dictionary from ids to objects that hold their own id, in the order of insertion.
use swarmdeck.Prelude.{
  ℕ, ◌+◌, ◌≤◌, ◌<◌, ◌≡◌, ◌≢◌, refl, ap, true, Option, none, some, List, [], ◌∷◌, ◌++◌, arith, All,
  All-append, subst, length, any, ◌==◌, ==_iff, inl, inr, Bool-cases, if◌then◌else◌,
}

module _ {A : Type 0} (key : A → ℕ) where
  -- `d.get(i)`
  unfoldable pub find : ℕ → List A → Option A
  find i [] = none
  find i (x ∷ xs) = if key x == i then some x else find i xs

  -- `d.pop(i, None)`
  unfoldable pub pop : ℕ → List A → List A
  pop i [] = []
  pop i (x ∷ xs) = let rest = pop i xs in if key x == i then rest else x ∷ rest

  -- The object with the id of `n` is changed in place to `n`.
  unfoldable pub replace : A → List A → List A
  replace n [] = []
  replace n (x ∷ xs) = (if key x == key n then n else x) ∷ replace n xs

  abbrev pub Absent : ℕ → List A → Type 0
  Absent i = All (λ x. key x ≢ i)

  -- No id stands twice.
  abbrev pub Distinct : List A → Type 0
  Distinct [] = Unit
  Distinct (x ∷ xs) = Absent (key x) xs × Distinct xs

  -- The sum of a number over the objects.
  abbrev pub total : (A → ℕ) → List A → ℕ
  total f [] = 0
  total f (x ∷ xs) = f x + total f xs

  pub pop-All : (P : A → Type 0) (i : ℕ) (xs : List A) → All P xs → All P (pop i xs)
  unfolding pop
  pop-All P i [] h = tt
  pop-All P i (x ∷ xs) h = elim (Bool-cases (key x == i)) [
    | inl e ↦ rw e (pop-All P i xs h.1)
    | inr e ↦ rw e (h.0, pop-All P i xs h.1)
  ]

  pub pop-Distinct : (i : ℕ) (xs : List A) → Distinct xs → Distinct (pop i xs)
  unfolding pop
  pop-Distinct i [] h = tt
  pop-Distinct i (x ∷ xs) h = elim (Bool-cases (key x == i)) [
    | inl e ↦ rw e (pop-Distinct i xs h.1)
    | inr e ↦ rw e (pop-All (λ y. key y ≢ key x) i xs h.0, pop-Distinct i xs h.1)
  ]

  pub length-pop-le : (i : ℕ) (xs : List A) → length (pop i xs) ≤ length xs
  unfolding pop
  length-pop-le i [] = omega arith
  length-pop-le i (x ∷ xs) = ground (arith, length-pop-le i xs)

  pub length-pop-lt :
      (i : ℕ) (xs : List A) → any (λ x. key x == i) xs ≡ true → length (pop i xs) < length xs
  unfolding pop
  length-pop-lt i [] h = cc
  length-pop-lt i (x ∷ xs) h = ground (arith, length-pop-lt i xs, length-pop-le i xs)

  pub pop-Absent : (i : ℕ) (xs : List A) → Absent i xs → pop i xs ≡ xs
  unfolding pop
  pop-Absent i [] h = refl
  pop-Absent i (x ∷ xs) h = ground (arith, pop-Absent i xs h.1)

  -- What is popped is what was found.
  pub total-pop :
      (f : A → ℕ) (i : ℕ) (xs : List A) (x : A)
      → Distinct xs
      → find i xs ≡ some x
      → f x + total f (pop i xs) ≡ total f xs
  unfolding find pop
  total-pop f i [] x d e = cc
  total-pop f i (y ∷ ys) x d e = elim (Bool-cases (key y == i)) [
    | inl k ↦
        let same : y ≡ x = cc (rw k at e) in
        let named : key y ≡ i = (==_iff (key y) i).0 k in
        rw k (
          omega
            (arith, ap (total f) (pop-Absent i ys (subst (λ j. Absent j ys) named d.0)), ap f same))
    | inr k ↦ rw k (omega (arith, total-pop f i ys x d.1 (rw k at e)))
  ]

  pub replace-All : (P : A → Type 0) (n : A) (xs : List A) → P n → All P xs → All P (replace n xs)
  unfolding replace
  replace-All P n [] p h = tt
  replace-All P n (x ∷ xs) p h = elim (Bool-cases (key x == key n)) [
    | inl e ↦ rw e (p, replace-All P n xs p h.1)
    | inr e ↦ rw e (h.0, replace-All P n xs p h.1)
  ]

  pub length-replace : (n : A) (xs : List A) → length (replace n xs) ≡ length xs
  unfolding replace
  length-replace n [] = refl
  length-replace n (x ∷ xs) = ground (arith, length-replace n xs)

  Absent-replace : (i : ℕ) (n : A) (xs : List A) → Absent i xs → Absent i (replace n xs)
  unfolding replace
  Absent-replace i n [] h = tt
  Absent-replace i n (x ∷ xs) h = elim (Bool-cases (key x == key n)) [
    | inl e ↦
        rw e (λ q. h.0 (omega (arith, (==_iff (key x) (key n)).0 e)), Absent-replace i n xs h.1)
    | inr e ↦ rw e (h.0, Absent-replace i n xs h.1)
  ]

  pub replace-Distinct : (n : A) (xs : List A) → Distinct xs → Distinct (replace n xs)
  unfolding replace
  replace-Distinct n [] h = tt
  replace-Distinct n (x ∷ xs) h = elim (Bool-cases (key x == key n)) [
    | inl e ↦ rw e (
      Absent-replace (key n) n xs (subst (λ k. Absent k xs) ((==_iff (key x) (key n)).0 e) h.0),
      replace-Distinct n xs h.1,
    )
    | inr e ↦ rw e (Absent-replace (key x) n xs h.0, replace-Distinct n xs h.1)
  ]

  pub Distinct-append :
      (xs : List A) (n : A) → Distinct xs → Absent (key n) xs → Distinct (xs ++ n ∷ [])
  Distinct-append [] n d a = (tt, tt)
  Distinct-append (x ∷ xs) n d a = (
    All-append (λ y. key y ≢ key x) xs (n ∷ []) d.0 (λ q. a.0 (omega arith), tt),
    Distinct-append xs n d.1 a.1,
  )

  pub total-append : (f : A → ℕ) (xs ys : List A) → total f (xs ++ ys) ≡ total f xs + total f ys
  total-append f [] ys = omega arith
  total-append f (x ∷ xs) ys = omega (arith, total-append f xs ys)
