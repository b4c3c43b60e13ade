-- ===== src/Review/Trimming.antt =====
-- detect/review.py: `_trim_pending` leaves at most MAX_PENDING proposals.
use swarmdeck.Prelude.{
  ℕ, zero, suc, ◌+◌, ◌-◌, ◌≤◌, ◌≡◌, ◌≢◌, refl, sym, true, List, [], ◌∷◌, arith, All, All-map,
  length, any, take, Bool-cases, inl, inr, leb, ◌==◌,
}
use swarmdeck.Review.{
  Proposal, proposal_id, trim_pending, pop_all, max_pending, by_strength, insert_by_strength,
  weaker,
}
use swarmdeck.Review.Evidence.{Floats}
use swarmdeck.Review.Keyed.{Absent, Distinct, pop, length-pop-lt, pop-All, pop-Distinct}

module _ (F : Floats) where
  abbrev Present : List (Proposal F) → Proposal F → Type 0
  Present ps q = any (λ p. p.id == q.id) ps ≡ true

  any-pop :
      (i j : ℕ) (ps : List (Proposal F))
      → j ≢ i
      → any (λ p. p.id == j) ps ≡ true
      → any (λ p. p.id == j) (pop (proposal_id F) i ps) ≡ true
  unfolding pop
  any-pop i j [] d h = h
  any-pop i j (p ∷ ps) d h = ground (arith, any-pop i j ps d, d)

  length-pop_all :
      (qs ps : List (Proposal F))
      → Distinct (proposal_id F) qs
      → All (Present ps) qs
      → length (pop_all F qs ps) + length qs ≤ length ps
  unfolding pop_all
  length-pop_all [] ps d h = omega arith
  length-pop_all (q ∷ qs) ps d h = omega (
    arith,
    length-pop_all qs (pop (proposal_id F) q.id ps) d.1 (rest qs d.0 h.1),
    length-pop-lt (proposal_id F) q.id ps h.0,
  )
    where
      rest :
          (rs : List (Proposal F))
          → Absent (proposal_id F) q.id rs
          → All (Present ps) rs
          → All (Present (pop (proposal_id F) q.id ps)) rs
      rest [] a k = tt
      rest (r ∷ rs) a k = (any-pop q.id r.id ps a.0 k.0, rest rs a.1 k.1)

  insert_by_strength-All :
      (P : Proposal F → Type 0) (p : Proposal F) (qs : List (Proposal F))
      → P p
      → All P qs
      → All P (insert_by_strength F p qs)
  unfolding insert_by_strength
  insert_by_strength-All P p [] h k = (h, tt)
  insert_by_strength-All P p (q ∷ qs) h k = elim (Bool-cases (weaker F q p)) [
    | inl e ↦ rw e (k.0, insert_by_strength-All P p qs h k.1)
    | inr e ↦ rw e (h, k)
  ]

  insert_by_strength-Distinct :
      (p : Proposal F) (qs : List (Proposal F))
      → Absent (proposal_id F) p.id qs
      → Distinct (proposal_id F) qs
      → Distinct (proposal_id F) (insert_by_strength F p qs)
  unfolding insert_by_strength
  insert_by_strength-Distinct p [] a d = (tt, tt)
  insert_by_strength-Distinct p (q ∷ qs) a d = elim (Bool-cases (weaker F q p)) [
    | inl e ↦ rw e (
      insert_by_strength-All (λ r. r.id ≢ q.id) p qs (λ k. a.0 (sym k)) d.0,
      insert_by_strength-Distinct p qs a.1 d.1,
    )
    | inr e ↦ rw e (a, d)
  ]

  length-insert_by_strength :
      (p : Proposal F) (qs : List (Proposal F))
      → length (insert_by_strength F p qs) ≡ suc (length qs)
  unfolding insert_by_strength
  length-insert_by_strength p [] = refl
  length-insert_by_strength p (q ∷ qs) = ground (arith, length-insert_by_strength p qs)

  by_strength-All :
      (P : Proposal F → Type 0) (ps : List (Proposal F)) → All P ps → All P (by_strength F ps)
  unfolding by_strength
  by_strength-All P [] h = tt
  by_strength-All P (p ∷ ps) h =
      insert_by_strength-All P p (by_strength F ps) h.0 (by_strength-All P ps h.1)

  by_strength-Distinct :
      (ps : List (Proposal F))
      → Distinct (proposal_id F) ps
      → Distinct (proposal_id F) (by_strength F ps)
  unfolding by_strength
  by_strength-Distinct [] d = tt
  by_strength-Distinct (p ∷ ps) d =
      insert_by_strength-Distinct p (by_strength F ps) (by_strength-All (λ q. q.id ≢ p.id) ps d.0)
        (by_strength-Distinct ps d.1)

  length-by_strength : (ps : List (Proposal F)) → length (by_strength F ps) ≡ length ps
  unfolding by_strength
  length-by_strength [] = refl
  length-by_strength (p ∷ ps) =
      omega (arith, length-insert_by_strength p (by_strength F ps), length-by_strength ps)

  All-Present : (ps : List (Proposal F)) → All (Present ps) ps
  All-Present [] = tt
  All-Present (p ∷ ps) = (ground arith, All-map ps (λ q h. ground (arith, h)) (All-Present ps))

  take-All :
      (P : Proposal F → Type 0) (n : ℕ) (ps : List (Proposal F)) → All P ps → All P (take n ps)
  take-All P zero ps h = tt
  take-All P (suc n) [] h = tt
  take-All P (suc n) (p ∷ ps) h = (h.0, take-All P n ps h.1)

  take-Distinct :
      (n : ℕ) (ps : List (Proposal F))
      → Distinct (proposal_id F) ps
      → Distinct (proposal_id F) (take n ps)
  take-Distinct zero ps d = tt
  take-Distinct (suc n) [] d = tt
  take-Distinct (suc n) (p ∷ ps) d = (take-All (λ q. q.id ≢ p.id) n ps d.0, take-Distinct n ps d.1)

  length-take : (n : ℕ) (ps : List (Proposal F)) → n ≤ length ps → length (take n ps) ≡ n
  length-take zero ps h = refl
  length-take (suc n) [] h = omega (arith, h)
  length-take (suc n) (p ∷ ps) h = omega (arith, length-take n ps (omega (arith, h)))

  pub length-trim_pending :
      (ps : List (Proposal F))
      → Distinct (proposal_id F) ps
      → length (trim_pending F ps) ≤ max_pending
  unfolding trim_pending
  length-trim_pending ps d =
      let weak = take (length ps - max_pending) (by_strength F ps) in
      let popped : length (pop_all F weak ps) + length weak ≤ length ps =
        length-pop_all weak ps
          (take-Distinct (length ps - max_pending) (by_strength F ps) (by_strength-Distinct ps d))
          (take-All (Present ps) (length ps - max_pending) (by_strength F ps)
            (by_strength-All (Present ps) ps (All-Present ps))) in
      let some_weak : length weak ≡ length ps - max_pending =
        length-take (length ps - max_pending) (by_strength F ps)
          (omega (arith, length-by_strength ps)) in
      ground (arith, popped, some_weak)

  pop_all-All :
      (P : Proposal F → Type 0) (qs ps : List (Proposal F)) → All P ps → All P (pop_all F qs ps)
  unfolding pop_all
  pop_all-All P [] ps h = h
  pop_all-All P (q ∷ qs) ps h =
      pop_all-All P qs (pop (proposal_id F) q.id ps) (pop-All (proposal_id F) P q.id ps h)

  pop_all-Distinct :
      (qs ps : List (Proposal F))
      → Distinct (proposal_id F) ps
      → Distinct (proposal_id F) (pop_all F qs ps)
  unfolding pop_all
  pop_all-Distinct [] ps d = d
  pop_all-Distinct (q ∷ qs) ps d =
      pop_all-Distinct qs (pop (proposal_id F) q.id ps) (pop-Distinct (proposal_id F) q.id ps d)

  pub trim_pending-All :
      (P : Proposal F → Type 0) (ps : List (Proposal F)) → All P ps → All P (trim_pending F ps)
  unfolding trim_pending
  trim_pending-All P ps h = elim (Bool-cases (leb (length ps) max_pending)) [
    | inl e ↦ rw e h
    | inr e ↦ rw e (pop_all-All P (take (length ps - max_pending) (by_strength F ps)) ps h)
  ]

  pub trim_pending-Distinct :
      (ps : List (Proposal F))
      → Distinct (proposal_id F) ps
      → Distinct (proposal_id F) (trim_pending F ps)
  unfolding trim_pending
  trim_pending-Distinct ps d = elim (Bool-cases (leb (length ps) max_pending)) [
    | inl e ↦ rw e d
    | inr e ↦ rw e (pop_all-Distinct (take (length ps - max_pending) (by_strength F ps)) ps d)
  ]
