-- ===== src/Review/Weight.antt =====
-- detect/review.py: the evidence that `accept` and `merge` carry over, and that of a parked robot.
use swarmdeck.Prelude.{
  ℕ, ◌+◌, ◌≤◌, ◌≡◌, refl, ap, String, Bool, true, false, Option, none, some, List, [], ◌∷◌, arith,
  str_eq_refl, Option-cases, Bool-cases, inl, inr, not, ◌&&◌, str_eq, ◌==◌, sym, subst, length, ◌⊎◌,
}
use swarmdeck.Prelude.Dict
use swarmdeck.Review.{
  Store, Entity, Proposal, accept, merge, merge_found, entity_id, proposal_id, or_old,
}
use swarmdeck.Review.Evidence.{
  Floats, Sample, Accumulator, add_sample, see, see_from, weigh, is_parked, absorb,
}
use swarmdeck.Review.Keyed.{find, pop, replace, Distinct, Absent, total, total-pop, total-append}

module _ {A : Type 0} (key : A → ℕ) where
  replace-Absent : (n : A) (xs : List A) → Absent key (key n) xs → replace key n xs ≡ xs
  unfolding replace
  replace-Absent n [] h = refl
  replace-Absent n (x ∷ xs) h = ground (arith, replace-Absent n xs h.1)

  find-key : (i : ℕ) (xs : List A) (x : A) → find key i xs ≡ some x → key x ≡ i
  unfolding find
  find-key i [] x e = cc
  find-key i (y ∷ ys) x e = ground (arith, find-key i ys x, e)

  -- An object is replaced by one of the same id.
  total-replace :
      (f : A → ℕ) (n x : A) (xs : List A)
      → Distinct key xs
      → find key (key n) xs ≡ some x
      → total key f (replace key n xs) + f x ≡ total key f xs + f n
  unfolding find replace
  total-replace f n x [] d e = cc
  total-replace f n x (y ∷ ys) d e = elim (Bool-cases (key y == key n)) [
    | inl k ↦
        let same : y ≡ x = cc (rw k at e) in
        let named : key y ≡ key n = ground (arith, k) in
        rw k (
          omega (
            arith,
            ap (total key f) (replace-Absent n ys (subst (λ j. Absent key j ys) named d.0)),
            ap f same,
          ))
    | inr k ↦ rw k (omega (arith, total-replace f n x ys d.1 (rw k at e)))
  ]

  -- What is replaced is found in its new form, and what is popped is not found.
  find-replace :
      (n x : A) (xs : List A)
      → find key (key n) xs ≡ some x
      → find key (key n) (replace key n xs) ≡ some n
  unfolding find replace
  find-replace n x [] e = cc
  find-replace n x (y ∷ ys) e = elim (Bool-cases (key y == key n)) [
    | inl k ↦ let same : (key n == key n) ≡ true = ground arith in rw (k, same) refl
    | inr k ↦ rw (k, k) (find-replace n x ys (rw k at e))
  ]

  find-pop : (i : ℕ) (xs : List A) → find key i (pop key i xs) ≡ none
  unfolding find pop
  find-pop i [] = refl
  find-pop i (x ∷ xs) = elim (Bool-cases (key x == i)) [
    | inl k ↦ rw k (find-pop i xs)
    | inr k ↦ rw (k, k) (find-pop i xs)
  ]

module _ (F : Floats) where
  open F use {Real, add, sub, hypot, ltb, min_move}

  -- The sightings that weigh in the centroids of all entities and proposals.
  abbrev pub weight : Store F → ℕ
  weight s =
      total (entity_id F) (λ e. e.acc.count) s.entities
      + total (proposal_id F) (λ p. p.acc.count) s.proposals

  -- Accepting a proposal neither loses nor invents evidence.
  weight-accept :
      (i : ℕ) (s : Store F)
      → Distinct (proposal_id F) s.proposals
      → weight (accept F i s).0 ≡ weight s
  unfolding accept
  weight-accept i s d = elim (Option-cases (find (proposal_id F) i s.proposals)) [
    | inl e ↦ rw (e, accept) refl
    | inr (p, e) ↦
        rw (e, accept)
          (omega (
            arith,
            total-append (entity_id F) (λ x. x.acc.count) s.entities
                (record { id = s.next_id; cls = p.cls; acc = p.acc; image = p.image } ∷ []),
            total-pop (proposal_id F) (λ q. q.acc.count) i s.proposals p d e,
          ))
  ]

  weight-merge_found :
      (i j : ℕ) (s : Store F) (p : Option (Proposal F)) (e : Option (Entity F))
      → Distinct (proposal_id F) s.proposals
      → Distinct (entity_id F) s.entities
      → find (proposal_id F) i s.proposals ≡ p
      → find (entity_id F) j s.entities ≡ e
      → weight (merge_found F p e i s).0 ≡ weight s
  unfolding merge_found absorb
  weight-merge_found i j s none e d c h k = refl
  weight-merge_found i j s (some p) none d c h k = refl
  weight-merge_found i j s (some p) (some e) d c h k =
      let e' = record e { acc = absorb F p.acc e.acc; image = or_old F p.image e.image } in
      elim (Bool-cases (not s.cross_class_merge && not (str_eq p.cls e.cls))) [
        | inl b ↦ rw b refl
        | inr b ↦ rw b (
            omega (
              arith,
              total-pop (proposal_id F) (λ q. q.acc.count) i s.proposals p d h,
              total-replace (entity_id F) (λ x. x.acc.count) e' e s.entities c
                  (subst (λ n. find (entity_id F) n s.entities ≡ some e)
                    (sym (find-key (entity_id F) j s.entities e k)) k),
            ))
      ]

  -- The evidence `c` is that of `a` and `b` together.
  pub record IsSum (a b c : Accumulator F) : Type 0 where
    pub sum_x : c.sum_x ≡ add a.sum_x b.sum_x
    pub sum_y : c.sum_y ≡ add a.sum_y b.sum_y
    pub count : c.count ≡ a.count + b.count
    pub sightings : c.sightings ≡ a.sightings + b.sightings

  -- The proposal is gone, and the entity has its evidence beside its own.
  pub record IsMerged (i j : ℕ) (s t : Store F) : Type 0 where
    pub proposal : Proposal F
    pub entity : Entity F
    pub merged : Entity F
    pub was_proposed : find (proposal_id F) i s.proposals ≡ some proposal
    pub was_entity : find (entity_id F) j s.entities ≡ some entity
    pub is_gone : find (proposal_id F) i t.proposals ≡ none
    pub merged_found : find (entity_id F) j t.entities ≡ some merged
    pub evidence : IsSum entity.acc proposal.acc merged.acc

  abbrev pub Merges : ℕ → ℕ → Store F → Store F × Bool → Type 0
  Merges i j s (t, ok) =
      (((ok ≡ false) × (t ≡ s)) ⊎ ((ok ≡ true) × IsMerged i j s t)) × (weight t ≡ weight s)

  merge_found-Merges :
      (i j : ℕ) (s : Store F) (p : Option (Proposal F)) (e : Option (Entity F))
      → find (proposal_id F) i s.proposals ≡ p
      → find (entity_id F) j s.entities ≡ e
      → weight (merge_found F p e i s).0 ≡ weight s
      → Merges i j s (merge_found F p e i s)
  unfolding merge_found absorb
  merge_found-Merges i j s none e h k w = (inl (refl, refl), refl)
  merge_found-Merges i j s (some p) none h k w = (inl (refl, refl), refl)
  merge_found-Merges i j s (some p) (some e) h k w =
      let e' = record e { acc = absorb F p.acc e.acc; image = or_old F p.image e.image } in
      elim (Bool-cases (not s.cross_class_merge && not (str_eq p.cls e.cls))) [
        | inl b ↦ rw b (inl (refl, refl), refl)
        | inr b ↦ rw b (
          inr (
            refl,
            record {
              proposal = p;
              entity = e;
              merged = e';
              was_proposed = h;
              was_entity = k;
              is_gone = find-pop (proposal_id F) i s.proposals;
              merged_found =
                  subst (λ n. find (entity_id F) n (replace (entity_id F) e' s.entities) ≡ some e')
                    (find-key (entity_id F) j s.entities e k)
                    (find-replace (entity_id F) e' e s.entities (
                      subst (λ n. find (entity_id F) n s.entities ≡ some e)
                        (sym (find-key (entity_id F) j s.entities e k)) k));
              evidence = record { sum_x = refl; sum_y = refl; count = refl; sightings = refl };
            },
          ),
          rw b at w,
        )
      ]

  -- With distinct ids, a merge either changes nothing and says so, or says that it merged: then the
  -- proposal is gone, and the entity has the sums of the coordinates, the count and the sightings of
  -- both. Either way the count of sightings over all entities and proposals is as before.
  pub merge-Merges :
      (i j : ℕ) (s : Store F)
      → Distinct (proposal_id F) s.proposals
      → Distinct (entity_id F) s.entities
      → Merges i j s (merge F i j s)
  unfolding merge
  merge-Merges i j s d c =
      let p = find (proposal_id F) i s.proposals in
      let e = find (entity_id F) j s.entities in
      merge_found-Merges i j s p e refl refl (weight-merge_found i j s p e d c refl refl)

  -- One robot sees the object again and again from one spot.
  abbrev pub stare : String → Real × Real → List (Sample F) → Accumulator F → Accumulator F
  stare r p [] a = a
  stare r p (s ∷ ss) a = stare r p ss (add_sample F (record s { robot_id = r }) (some p) a).0

  add_sample_parked :
      (s : Sample F) (p : Real × Real) (a : Accumulator F)
      → is_parked F (Dict.get s.robot_id a.viewpoints) p ≡ true
      → (add_sample F s (some p) a).0 ≡ see F s a
  unfolding add_sample see_from see
  add_sample_parked s p a h = rw h refl

  -- A sighting from a new spot weighs, and the spot is kept.
  add_sample_moved :
      (s : Sample F) (p : Real × Real) (a : Accumulator F)
      → is_parked F (Dict.get s.robot_id a.viewpoints) p ≡ false
      → ((add_sample F s (some p) a).0.count ≡ a.count + 1)
        × ((add_sample F s (some p) a).0.sightings ≡ a.sightings + 1)
        × (Dict.get s.robot_id (add_sample F s (some p) a).0.viewpoints ≡ some p)
  unfolding add_sample see_from see weigh
  add_sample_moved s p a h = rw h (
    refl,
    refl,
    rw (Dict.get-put s.robot_id s.robot_id p a.viewpoints, str_eq_refl s.robot_id) refl,
  )

  -- The counts after staring, from those before.
  abbrev Counts : ℕ → Accumulator F → List (Sample F) → Accumulator F → Type 0
  Counts more a ss b = (b.count ≤ a.count + more) × (b.sightings ≡ a.sightings + length ss)

  count-stare_parked :
      (r : String) (p : Real × Real) (ss : List (Sample F)) (a : Accumulator F)
      → is_parked F (Dict.get r a.viewpoints) p ≡ true
      → Counts 0 a ss (stare r p ss a)
  unfolding see
  count-stare_parked r p [] a h = (omega arith, omega arith)
  count-stare_parked r p (s ∷ ss) a h =
      let s' : Sample F = record s { robot_id = r } in
      let (c, n) = count-stare_parked r p ss (see F s' a) h in
      subst (λ b. Counts 0 a (s ∷ ss) (stare r p ss b)) (sym (add_sample_parked s' p a h))
        (omega (arith, c), omega (arith, n))

  -- Where a point is nearer to itself than the least move, a robot that stays in one spot adds at
  -- most one sighting to the centroid, while all of them are counted as sightings.
  pub count-stare :
      (r : String) (p : Real × Real) (ss : List (Sample F)) (a : Accumulator F)
      → ltb (hypot (sub p.0 p.0) (sub p.1 p.1)) min_move ≡ true
      → ((stare r p ss a).count ≤ a.count + 1)
        × ((stare r p ss a).sightings ≡ a.sightings + length ss)
  unfolding is_parked
  count-stare r p [] a law = (omega arith, omega arith)
  count-stare r p (s ∷ ss) a law =
      let s' : Sample F = record s { robot_id = r } in
      elim (Bool-cases (is_parked F (Dict.get r a.viewpoints) p)) [
        | inl h ↦ let (c, n) = count-stare_parked r p (s ∷ ss) a h in (omega (arith, c), n)
        | inr h ↦
            let (one, seen, spot) = add_sample_moved s' p a h in
            let (c, n) = count-stare_parked r p ss (add_sample F s' (some p) a).0 (rw spot law) in
            (omega (arith, c, one), omega (arith, n, seen))
      ]
