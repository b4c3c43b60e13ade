-- ===== src/Review/Ids.antt =====
-- detect/review.py: the ids that `_mint` hands out, and the bound on the proposals, in every
-- sequence of operations.
use swarmdeck.Prelude.{
  ℕ, refl, String, Bool, true, false, Option, none, some, List, [], ◌∷◌, contains, arith,
  Bool-cases, Option-cases, inl, inr, not, ◌&&◌, str_eq,
}
use swarmdeck.Review.{
  Store, Entity, Proposal, observe, accept, merge, ignore, forget, forget_proposal, forget_all,
  clear_proposals, delete_all, clear_ignored, reset, drop_classes, entity_id, proposal_id, or_old,
  merge_found, empty_store,
}
use swarmdeck.Review.Evidence.{Floats, Sample, absorb}
use swarmdeck.Review.Keyed.{find, pop, length-pop-le}
use swarmdeck.Review.Minting.{
  IsMinted, pop-IsMinted, replace-IsMinted, mint-IsMinted, append-IsMinted, keep-IsMinted,
  length-keep-le,
}
use swarmdeck.Review.Observing.{IsSound, Below, find-Below, observe-IsSound}

module _ (F : Floats) where
  open F use {Real}

  accept-IsSound : (i : ℕ) (s : Store F) → IsSound F s → IsSound F (accept F i s).0
  unfolding accept
  accept-IsSound i s h = elim (Option-cases (find (proposal_id F) i s.proposals)) [
    | inl e ↦ rw (e, accept) h
    | inr (p, e) ↦
        rw (e, accept)
          (record {
            entities =
                append-IsMinted (entity_id F)
                  (record { id = s.next_id; cls = p.cls; acc = p.acc; image = p.image }) s.next_id
                  s.entities refl h.entities;
            proposals =
                mint-IsMinted (proposal_id F) s.next_id (pop (proposal_id F) i s.proposals)
                  (pop-IsMinted (proposal_id F) i s.next_id s.proposals h.proposals);
            bounded = omega (arith, h.bounded, length-pop-le (proposal_id F) i s.proposals);
          })
  ]

  forget_proposal-IsSound : (i : ℕ) (s : Store F) → IsSound F s → IsSound F (forget_proposal F i s)
  unfolding forget_proposal
  forget_proposal-IsSound i s h = record {
    entities = h.entities;
    proposals = pop-IsMinted (proposal_id F) i s.next_id s.proposals h.proposals;
    bounded = omega (arith, h.bounded, length-pop-le (proposal_id F) i s.proposals);
  }

  ignore-IsSound : (i : ℕ) (s : Store F) → IsSound F s → IsSound F (ignore F i s).0
  unfolding ignore forget_proposal
  ignore-IsSound i s h =
      let popped = forget_proposal-IsSound i s h in
      elim (Option-cases (find (proposal_id F) i s.proposals)) [
        | inl e ↦ rw (e, ignore) h
        | inr (p, e) ↦
            rw (e, ignore)
              (record {
                entities = h.entities;
                proposals = popped.proposals;
                bounded = popped.bounded;
              })
      ]

  merge_found-IsSound :
      (p : Option (Proposal F)) (e : Option (Entity F)) (i : ℕ) (s : Store F)
      → Below F (entity_id F) s.next_id e
      → IsSound F s
      → IsSound F (merge_found F p e i s).0
  unfolding merge_found forget_proposal
  merge_found-IsSound none e i s b h = h
  merge_found-IsSound (some p) none i s b h = h
  merge_found-IsSound (some p) (some e) i s b h =
      let popped = forget_proposal-IsSound i s h in
      elim (Bool-cases (not s.cross_class_merge && not (str_eq p.cls e.cls))) [
        | inl k ↦ rw k h
        | inr k ↦ rw k (record {
          entities =
              replace-IsMinted (entity_id F)
                (record e { acc = absorb F p.acc e.acc; image = or_old F p.image e.image })
                s.next_id s.entities b h.entities;
          proposals = popped.proposals;
          bounded = popped.bounded;
        })
      ]

  -- What the routes and the settings call on the store, one after the other.
  pub data Operation : Type 0 where
    to_observe : String → Sample F → Option (Real × Real) → Option String → Operation
    to_accept to_ignore to_forget to_forget_proposal : ℕ → Operation
    to_merge : ℕ → ℕ → Operation
    to_forget_all : Bool → Operation
    to_clear_proposals to_delete_all to_clear_ignored to_reset : Operation
    to_drop_classes : Option (List String) → Operation

  unfoldable pub apply : Operation → Store F → Store F
  apply (Operation.to_observe cls sample observer image) s =
      (observe F cls sample observer image s).0
  apply (Operation.to_accept i) s = (accept F i s).0
  apply (Operation.to_ignore i) s = (ignore F i s).0
  apply (Operation.to_forget i) s = forget F i s
  apply (Operation.to_forget_proposal i) s = forget_proposal F i s
  apply (Operation.to_merge i j) s = (merge F i j s).0
  apply (Operation.to_forget_all both) s = forget_all F both s
  apply Operation.to_clear_proposals s = clear_proposals F s
  apply Operation.to_delete_all s = delete_all F s
  apply Operation.to_clear_ignored s = clear_ignored F s
  apply Operation.to_reset s = reset F s
  apply (Operation.to_drop_classes allowed) s = drop_classes F allowed s

  unfoldable pub run : List Operation → Store F → Store F
  unfolding apply
  run [] s = s
  run (o ∷ os) s = run os (apply o s)

  none-IsMinted : {A : Type 0} (key : A → ℕ) (n : ℕ) → IsMinted key n []
  none-IsMinted key n = record { distinct = tt; below = tt }

  forget_all-IsSound : (both : Bool) (s : Store F) → IsSound F s → IsSound F (forget_all F both s)
  unfolding forget_all
  forget_all-IsSound true s h = record {
    entities = none-IsMinted (entity_id F) s.next_id;
    proposals = none-IsMinted (proposal_id F) s.next_id;
    bounded = omega arith;
  }
  forget_all-IsSound false s h = record {
    entities = none-IsMinted (entity_id F) s.next_id;
    proposals = h.proposals;
    bounded = h.bounded;
  }

  drop_classes-IsSound :
      (allowed : Option (List String)) (s : Store F)
      → IsSound F s
      → IsSound F (drop_classes F allowed s)
  unfolding drop_classes
  drop_classes-IsSound none s h = h
  drop_classes-IsSound (some allowed) s h = record {
    entities =
        keep-IsMinted (entity_id F) (λ e. contains e.cls allowed) s.next_id s.entities h.entities;
    proposals =
        keep-IsMinted (proposal_id F) (λ p. contains p.cls allowed) s.next_id s.proposals
          h.proposals;
    bounded = omega (
      arith,
      h.bounded,
      length-keep-le (proposal_id F) (λ p. contains p.cls allowed) s.proposals,
    );
  }

  -- One operation keeps the ids distinct and handed out, and the proposals bounded.
  pub apply-IsSound : (o : Operation) (s : Store F) → IsSound F s → IsSound F (apply o s)
  unfolding apply merge forget clear_proposals delete_all clear_ignored reset
  apply-IsSound (Operation.to_observe cls sample observer image) s h =
      observe-IsSound F cls sample observer image s h
  apply-IsSound (Operation.to_accept i) s h = accept-IsSound i s h
  apply-IsSound (Operation.to_ignore i) s h = ignore-IsSound i s h
  apply-IsSound (Operation.to_forget i) s h = record {
    entities = pop-IsMinted (entity_id F) i s.next_id s.entities h.entities;
    proposals = h.proposals;
    bounded = h.bounded;
  }
  apply-IsSound (Operation.to_forget_proposal i) s h = forget_proposal-IsSound i s h
  apply-IsSound (Operation.to_merge i j) s h =
      merge_found-IsSound (find (proposal_id F) i s.proposals) (find (entity_id F) j s.entities) i s
        (find-Below F (entity_id F) j s.next_id s.entities h.entities.below) h
  apply-IsSound (Operation.to_forget_all both) s h = forget_all-IsSound both s h
  apply-IsSound Operation.to_clear_proposals s h = record {
    entities = h.entities;
    proposals = none-IsMinted (proposal_id F) s.next_id;
    bounded = omega arith;
  }
  apply-IsSound Operation.to_delete_all s h = record {
    entities = none-IsMinted (entity_id F) s.next_id;
    proposals = none-IsMinted (proposal_id F) s.next_id;
    bounded = omega arith;
  }
  apply-IsSound Operation.to_clear_ignored s h = record {
    entities = h.entities;
    proposals = h.proposals;
    bounded = h.bounded;
  }
  apply-IsSound Operation.to_reset s h = record {
    entities = none-IsMinted (entity_id F) s.next_id;
    proposals = none-IsMinted (proposal_id F) s.next_id;
    bounded = omega arith;
  }
  apply-IsSound (Operation.to_drop_classes allowed) s h = drop_classes-IsSound allowed s h

  run-IsSound : (os : List Operation) (s : Store F) → IsSound F s → IsSound F (run os s)
  unfolding run
  run-IsSound [] s h = h
  run-IsSound (o ∷ os) s h = run-IsSound os (apply o s) (apply-IsSound o s h)

  -- After any operations on an empty store, no two entities and no two proposals have one id, all
  -- ids were handed out before, and at most 32 proposals are pending.
  pub run_from_empty :
      (same ask ignoring : Real) (cross : Bool) (os : List Operation)
      → IsSound F (run os (empty_store F same ask ignoring cross))
  unfolding empty_store
  run_from_empty same ask ignoring cross os =
      run-IsSound os (empty_store F same ask ignoring cross) (record {
        entities = none-IsMinted (entity_id F) 1;
        proposals = none-IsMinted (proposal_id F) 1;
        bounded = omega arith;
      })
