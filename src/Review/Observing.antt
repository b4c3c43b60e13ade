-- ===== src/Review/Observing.antt =====
-- detect/review.py: an observation keeps the ids distinct and the proposals bounded.
use swarmdeck.Prelude.{
  ℕ, ◌+◌, ◌≤◌, ◌<◌, ◌≡◌, refl, String, Bool, true, false, Option, none, some, List, [], ◌∷◌, ◌++◌,
  All, length, Bool-cases, Option-cases, inl, inr, if◌then◌else◌, not, ◌&&◌, str_eq, ◌==◌,
}
use swarmdeck.Review.{
  Store, Entity, Proposal, observe, entity_id, proposal_id, max_pending, nearest_entity,
  nearest_proposal, is_ignored, within, suggest, propose, fresh, fold_in, or_old,
}
use swarmdeck.Review.Evidence.{Floats, Sample, add_sample, centre_x, centre_y}
use swarmdeck.Review.Trimming.{length-trim_pending, trim_pending-All, trim_pending-Distinct}
use swarmdeck.Review.Keyed.{find, length-replace}
use swarmdeck.Review.Minting.{IsMinted, replace-IsMinted, mint-IsMinted, append-IsMinted}

module _ (F : Floats) where
  open F use {Real, inf, sub, hypot, ltb}

  pub record IsSound (s : Store F) : Type 0 where
    pub entities : IsMinted (entity_id F) s.next_id s.entities
    pub proposals : IsMinted (proposal_id F) s.next_id s.proposals
    pub bounded : length s.proposals ≤ max_pending

  abbrev pub Below : {A : Type 0} → (A → ℕ) → ℕ → Option A → Type 0
  Below key n none = Unit
  Below key n (some a) = key a < n

  Below-if :
      {A : Type 0} (key : A → ℕ) (n : ℕ) (b : Bool) (o q : Option A × Real)
      → Below key n o.0
      → Below key n q.0
      → Below key n (if b then o else q).0
  Below-if key n true o q h k = h
  Below-if key n false o q h k = k

  nearest_entity-Below :
      (n : ℕ) (cross : Bool) (cls : String) (x y : Real) (best : Option (Entity F) × Real)
      (es : List (Entity F))
      → Below (entity_id F) n best.0
      → All (λ e. e.id < n) es
      → Below (entity_id F) n (nearest_entity F cross cls x y best es).0
  unfolding nearest_entity
  nearest_entity-Below n cross cls x y best [] h k = h
  nearest_entity-Below n cross cls x y best (e ∷ es) h k =
      let d = hypot (sub (centre_x F e.acc) x) (sub (centre_y F e.acc) y) in
      nearest_entity-Below n cross cls x y
        (if not cross && not (str_eq e.cls cls)
          then best
          else if ltb d best.1
          then (some e, d)
          else best)
        es
        (Below-if (entity_id F) n (not cross && not (str_eq e.cls cls)) best
          (if ltb d best.1 then (some e, d) else best) h
          (Below-if (entity_id F) n (ltb d best.1) (some e, d) best k.0 h))
        k.1

  nearest_proposal-Below :
      (n : ℕ) (cross : Bool) (cls : String) (x y : Real) (best : Option (Proposal F) × Real)
      (ps : List (Proposal F))
      → Below (proposal_id F) n best.0
      → All (λ p. p.id < n) ps
      → Below (proposal_id F) n (nearest_proposal F cross cls x y best ps).0
  unfolding nearest_proposal
  nearest_proposal-Below n cross cls x y best [] h k = h
  nearest_proposal-Below n cross cls x y best (p ∷ ps) h k =
      let d = hypot (sub (centre_x F p.acc) x) (sub (centre_y F p.acc) y) in
      nearest_proposal-Below n cross cls x y
        (if not cross && not (str_eq p.cls cls)
          then best
          else if ltb d best.1
          then (some p, d)
          else best)
        ps
        (Below-if (proposal_id F) n (not cross && not (str_eq p.cls cls)) best
          (if ltb d best.1 then (some p, d) else best) h
          (Below-if (proposal_id F) n (ltb d best.1) (some p, d) best k.0 h))
        k.1

  within-Below :
      {A : Type 0} (key : A → ℕ) (n : ℕ) (r : Real) (o : Option A × Real)
      → Below key n o.0
      → Below key n (within F r o)
  within-Below key n r (none, d) h = tt
  within-Below key n r (some a, d) h = elim (Bool-cases (F.leb d r)) [
    | inl e ↦ rw e h
    | inr e ↦ rw e tt
  ]

  pub find-Below :
      {A : Type 0} (key : A → ℕ) (i n : ℕ) (xs : List A)
      → All (λ x. key x < n) xs
      → Below key n (find key i xs)
  unfolding find
  find-Below key i n [] h = tt
  find-Below key i n (x ∷ xs) h = elim (Bool-cases (key x == i)) [
    | inl e ↦ rw e h.0
    | inr e ↦ rw e (find-Below key i n xs h.1)
  ]

  suggest_id :
      (s : Store F) (near : Option (Entity F) × Real) (p : Proposal F)
      → (suggest F s near p).id ≡ p.id
  unfolding suggest
  suggest_id s near p = elim (Option-cases (within F s.ask_radius near)) [
    | inl e ↦ rw (e, suggest) refl
    | inr (e, k) ↦ rw (k, suggest) refl
  ]

  propose-IsSound :
      (near : Option (Entity F) × Real) (o : Option (Proposal F)) (cls : String) (sample : Sample F)
      (observer : Option (Real × Real)) (image : Option String) (s : Store F)
      → Below (proposal_id F) s.next_id o
      → IsSound s
      → IsSound (propose F near o cls sample observer image s).0
  unfolding propose fresh
  propose-IsSound near (some p) cls sample observer image s b h =
      let p' = record p {
        acc = (add_sample F sample observer p.acc).0;
        image = or_old F image p.image;
      } in
      record {
        entities = h.entities;
        proposals =
            replace-IsMinted (proposal_id F) (suggest F s near p') s.next_id s.proposals
              (rw (suggest_id s near p') b) h.proposals;
        bounded = rw (length-replace (proposal_id F) (suggest F s near p') s.proposals) h.bounded;
      }
  propose-IsSound near none cls sample observer image s b h =
      let p = suggest F s near (fresh F s cls sample observer image) in
      let minted : IsMinted (proposal_id F) (s.next_id + 1) (s.proposals ++ p ∷ []) =
        append-IsMinted (proposal_id F) p s.next_id s.proposals
          (suggest_id s near (fresh F s cls sample observer image)) h.proposals in
      record {
        entities = mint-IsMinted (entity_id F) s.next_id s.entities h.entities;
        proposals = record {
          distinct = trim_pending-Distinct F (s.proposals ++ p ∷ []) minted.distinct;
          below =
              trim_pending-All F (λ q. q.id < s.next_id + 1) (s.proposals ++ p ∷ []) minted.below;
        };
        bounded = length-trim_pending F (s.proposals ++ p ∷ []) minted.distinct;
      }

  fold_in-IsSound :
      (near : Option (Entity F) × Real) (o : Option (Entity F)) (cls : String) (sample : Sample F)
      (observer : Option (Real × Real)) (image : Option String) (s : Store F)
      → Below (entity_id F) s.next_id o
      → IsSound s
      → IsSound (fold_in F near o cls sample observer image s).0
  unfolding fold_in
  fold_in-IsSound near (some e) cls sample observer image s b h = record {
    entities =
        replace-IsMinted (entity_id F)
          (record e {
            acc = (add_sample F sample observer e.acc).0;
            image = or_old F image e.image;
          })
          s.next_id s.entities b h.entities;
    proposals = h.proposals;
    bounded = h.bounded;
  }
  fold_in-IsSound near none cls sample observer image s b h =
      let found =
        nearest_proposal F s.cross_class_merge cls sample.x sample.y (none, inf) s.proposals in
      propose-IsSound near (within F s.same_radius found) cls sample observer image s
        (within-Below (proposal_id F) s.next_id s.same_radius found (
          nearest_proposal-Below s.next_id s.cross_class_merge cls sample.x sample.y (none, inf)
            s.proposals tt h.proposals.below))
        h

  pub observe-IsSound :
      (cls : String) (sample : Sample F) (observer : Option (Real × Real)) (image : Option String)
      (s : Store F)
      → IsSound s
      → IsSound (observe F cls sample observer image s).0
  unfolding observe
  observe-IsSound cls sample observer image s h =
      let near =
        nearest_entity F s.cross_class_merge cls sample.x sample.y (none, inf) s.entities in
      elim (Bool-cases (is_ignored F s.cross_class_merge cls sample.x sample.y s.ignored)) [
        | inl e ↦ rw e h
        | inr e ↦ rw e (
            fold_in-IsSound near (within F s.same_radius near) cls sample observer image s
              (within-Below (entity_id F) s.next_id s.same_radius near (
                nearest_entity-Below s.next_id s.cross_class_merge cls sample.x sample.y (none, inf)
                  s.entities tt h.entities.below))
              h)
      ]
