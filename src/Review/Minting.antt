-- ===== src/Review/Minting.antt =====
-- detect/review.py: lists of objects whose ids `_mint` handed out.
use swarmdeck.Prelude.{
  ℕ, ◌+◌, ◌≤◌, ◌<◌, ◌≡◌, ◌≢◌, Bool, List, [], ◌∷◌, ◌++◌, arith, All, All-append, All-map, length,
  Bool-cases, inl, inr, keep,
}
use swarmdeck.Review.Keyed.{
  pop, replace, Distinct, pop-All, pop-Distinct, replace-All, replace-Distinct, Distinct-append,
}

module _ {A : Type 0} (key : A → ℕ) where
  -- No id stands twice, and all have been handed out before `n`.
  pub record IsMinted (n : ℕ) (xs : List A) : Type 0 where
    pub distinct : Distinct key xs
    pub below : All (λ x. key x < n) xs

  pub pop-IsMinted : (i n : ℕ) (xs : List A) → IsMinted n xs → IsMinted n (pop key i xs)
  pop-IsMinted i n xs h = record {
    distinct = pop-Distinct key i xs h.distinct;
    below = pop-All key (λ x. key x < n) i xs h.below;
  }

  pub replace-IsMinted :
      (m : A) (n : ℕ) (xs : List A) → key m < n → IsMinted n xs → IsMinted n (replace key m xs)
  replace-IsMinted m n xs b h = record {
    distinct = replace-Distinct key m xs h.distinct;
    below = replace-All key (λ x. key x < n) m xs b h.below;
  }

  pub mint-IsMinted : (n : ℕ) (xs : List A) → IsMinted n xs → IsMinted (n + 1) xs
  mint-IsMinted n xs h = record {
    distinct = h.distinct;
    below = All-map xs (λ x b. omega (arith, b)) h.below;
  }

  pub append-IsMinted :
      (m : A) (n : ℕ) (xs : List A) → key m ≡ n → IsMinted n xs → IsMinted (n + 1) (xs ++ m ∷ [])
  append-IsMinted m n xs e h = record {
    distinct = Distinct-append key xs m h.distinct (All-map xs (λ x b q. omega arith) h.below);
    below =
        All-append (λ x. key x < n + 1) xs (m ∷ []) (mint-IsMinted n xs h).below (omega arith, tt);
  }

  pub keep-All : (P : A → Type 0) (p : A → Bool) (xs : List A) → All P xs → All P (keep p xs)
  keep-All P p [] h = tt
  keep-All P p (x ∷ xs) h = elim (Bool-cases (p x)) [
    | inl e ↦ rw e (h.0, keep-All P p xs h.1)
    | inr e ↦ rw e (keep-All P p xs h.1)
  ]

  pub keep-Distinct : (p : A → Bool) (xs : List A) → Distinct key xs → Distinct key (keep p xs)
  keep-Distinct p [] h = tt
  keep-Distinct p (x ∷ xs) h = elim (Bool-cases (p x)) [
    | inl e ↦ rw e (keep-All (λ y. key y ≢ key x) p xs h.0, keep-Distinct p xs h.1)
    | inr e ↦ rw e (keep-Distinct p xs h.1)
  ]

  pub keep-IsMinted : (p : A → Bool) (n : ℕ) (xs : List A) → IsMinted n xs → IsMinted n (keep p xs)
  keep-IsMinted p n xs h = record {
    distinct = keep-Distinct p xs h.distinct;
    below = keep-All (λ x. key x < n) p xs h.below;
  }

  pub length-keep-le : (p : A → Bool) (xs : List A) → length (keep p xs) ≤ length xs
  length-keep-le p [] = omega arith
  length-keep-le p (x ∷ xs) = ground (arith, length-keep-le p xs)
