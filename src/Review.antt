-- ===== src/Review.antt =====
-- server/swarmdeck_server/detect/review.py: the operator's review of detections on the map.
--
-- `ReviewStore` is the record `Store`; a method returns the new store. An entity's id `ent_<n>` and
-- a proposal's id `prop_<n>` are their number n; the dictionaries by id are lists in the order of
-- insertion. Saving to and loading from a file (`to_dict`, `load_dict`) and the dicts for the
-- dashboard are not modelled.
pub mod Evidence
pub mod Keyed
pub mod Trimming
pub mod Ignoring
pub mod Minting
pub mod Observing
pub mod Ids
pub mod Weight
mod Samples
use swarmdeck.Prelude.{
  ℕ, zero, suc, ◌+◌, ◌-◌, String, Bool, true, false, not, ◌&&◌, ◌||◌, Option, none, some, List, [],
  ◌∷◌, ◌++◌, leb as leb_ℕ, ltb as ltb_ℕ, length, take, keep, contains, str_eq, ◌==◌, if◌then◌else◌,
}
use Keyed.{find, pop, replace}
use Evidence.{Floats, Sample, Accumulator, no_evidence, add_sample, absorb, centre_x, centre_y}

abbrev pub max_pending : ℕ
max_pending = 32

module _ (F : Floats) where
  open F use {Real, inf, sub, hypot, ltb, leb, eqb}

  pub record Entity : Type 0 where
    pub id : ℕ
    pub cls : String
    pub acc : Accumulator F
    pub image : Option String

  pub record Proposal : Type 0 where
    pub id : ℕ
    pub cls : String
    pub acc : Accumulator F
    pub suggested_entity_id : Option ℕ
    pub suggested_distance : Option Real
    pub image : Option String

  pub record IgnoreZone : Type 0 where
    pub cls : String
    pub x : Real
    pub y : Real
    pub radius : Real

  -- `IgnoreZone.contains`
  unfoldable pub zone_contains : Bool → String → Real → Real → IgnoreZone → Bool
  zone_contains cross cls x y z =
      (cross || str_eq cls z.cls) && leb (hypot (sub x z.x) (sub y z.y)) z.radius

  pub record Store : Type 0 where
    pub same_radius : Real
    pub ask_radius : Real
    pub ignore_radius : Real
    pub cross_class_merge : Bool
    pub entities : List Entity
    pub proposals : List Proposal
    pub ignored : List IgnoreZone
    pub next_id : ℕ

  -- `ReviewStore(...)`
  pub empty_store : Real → Real → Real → Bool → Store
  empty_store same ask ignoring cross = record {
    same_radius = same;
    ask_radius = ask;
    ignore_radius = ignoring;
    cross_class_merge = cross;
    entities = [];
    proposals = [];
    ignored = [];
    next_id = 1;
  }

  abbrev pub entity_id : Entity → ℕ
  entity_id e = e.id

  abbrev pub proposal_id : Proposal → ℕ
  proposal_id p = p.id

  -- The loops of `_nearest_entity` and `_nearest_proposal`, from the best so far.
  pub nearest_entity :
      Bool → String → Real → Real → Option Entity × Real → List Entity → Option Entity × Real
  nearest_entity cross cls x y best [] = best
  nearest_entity cross cls x y best (e ∷ es) =
      let d = hypot (sub (centre_x F e.acc) x) (sub (centre_y F e.acc) y) in
      nearest_entity cross cls x y
        (if not cross && not (str_eq e.cls cls)
          then best
          else if ltb d best.1
          then (some e, d)
          else best)
        es

  pub nearest_proposal :
      Bool → String → Real → Real → Option Proposal × Real → List Proposal → Option Proposal × Real
  nearest_proposal cross cls x y best [] = best
  nearest_proposal cross cls x y best (p ∷ ps) =
      let d = hypot (sub (centre_x F p.acc) x) (sub (centre_y F p.acc) y) in
      nearest_proposal cross cls x y
        (if not cross && not (str_eq p.cls cls)
          then best
          else if ltb d best.1
          then (some p, d)
          else best)
        ps

  -- The key of `_trim_pending`: the weakest evidence first, of equals the one last seen later.
  pub weaker : Proposal → Proposal → Bool
  weaker p q =
      if not (eqb p.acc.best_score q.acc.best_score)
      then ltb p.acc.best_score q.acc.best_score
      else if not (p.acc.count == q.acc.count)
      then ltb_ℕ p.acc.count q.acc.count
      else ltb q.acc.last_seen p.acc.last_seen

  -- `sorted(..., key=...)` is stable.
  pub insert_by_strength : Proposal → List Proposal → List Proposal
  insert_by_strength p [] = p ∷ []
  insert_by_strength p (q ∷ qs) =
      let rest = q ∷ insert_by_strength p qs in if weaker q p then rest else p ∷ q ∷ qs

  pub by_strength : List Proposal → List Proposal
  unfolding insert_by_strength
  by_strength [] = []
  by_strength (p ∷ ps) = insert_by_strength p (by_strength ps)

  pub pop_all : List Proposal → List Proposal → List Proposal
  unfolding pop
  pop_all [] ps = ps
  pop_all (q ∷ qs) ps = pop_all qs (pop proposal_id q.id ps)

  -- `_trim_pending()`
  pub trim_pending : List Proposal → List Proposal
  unfolding pop_all by_strength
  trim_pending ps =
      if leb_ℕ (length ps) max_pending
      then ps
      else pop_all (take (length ps - max_pending) (by_strength ps)) ps

  -- What `observe` returns, with the id of the object.
  pub data Answer : Type 0 where
    suppressed : Answer
    folded proposed updated : ℕ → Answer

  -- `if image: ... .image = image`
  abbrev pub or_old : Option String → Option String → Option String
  or_old none old = old
  or_old (some image) old = if str_eq image "" then old else some image

  pub is_ignored : Bool → String → Real → Real → List IgnoreZone → Bool
  unfolding zone_contains
  is_ignored cross cls x y [] = false
  is_ignored cross cls x y (z ∷ zs) = zone_contains cross cls x y z || is_ignored cross cls x y zs

  -- The object of a search, where it lies within the radius.
  abbrev pub within {ℓ} : {A : Type ℓ} → Real → Option A × Real → Option A
  within r (none, d) = none
  within r (some a, d) = if leb d r then some a else none

  -- The merge that a proposal suggests: the nearest entity within `ask_radius`.
  pub suggest : Store → Option Entity × Real → Proposal → Proposal
  suggest s near p = elim (within s.ask_radius near) [
    | none ↦ p
    | some e ↦ record p { suggested_entity_id = some e.id; suggested_distance = some near.1 }
  ]

  pub fresh : Store → String → Sample F → Option (Real × Real) → Option String → Proposal
  fresh s cls sample observer image = record {
    id = s.next_id;
    cls = cls;
    acc = (add_sample F sample observer (no_evidence F)).0;
    suggested_entity_id = none;
    suggested_distance = none;
    image = image;
  }

  -- The rest of `observe` after the search for a proposal, and after that for an entity.
  pub propose :
      Option Entity × Real
      → Option Proposal
      → String
      → Sample F
      → Option (Real × Real)
      → Option String
      → Store
      → Store × Answer
  unfolding fresh suggest trim_pending replace
  propose near (some p) cls sample observer image s =
      let p' = record p {
        acc = (add_sample F sample observer p.acc).0;
        image = or_old image p.image;
      } in
      (record s { proposals = replace proposal_id (suggest s near p') s.proposals }, updated p.id)
  propose near none cls sample observer image s =
      let p = suggest s near (fresh s cls sample observer image) in
      (
        record s { proposals = trim_pending (s.proposals ++ p ∷ []); next_id = s.next_id + 1 },
        proposed s.next_id,
      )

  pub fold_in :
      Option Entity × Real
      → Option Entity
      → String
      → Sample F
      → Option (Real × Real)
      → Option String
      → Store
      → Store × Answer
  unfolding replace propose nearest_proposal
  fold_in near (some e) cls sample observer image s =
      let e' = record e {
        acc = (add_sample F sample observer e.acc).0;
        image = or_old image e.image;
      } in
      (record s { entities = replace entity_id e' s.entities }, folded e.id)
  fold_in near none cls sample observer image s =
      propose near
        (within s.same_radius
          (nearest_proposal s.cross_class_merge cls sample.x sample.y (none, inf) s.proposals))
        cls sample observer image s

  -- `observe(...)`
  pub observe : String → Sample F → Option (Real × Real) → Option String → Store → Store × Answer
  unfolding is_ignored nearest_entity fold_in
  observe cls sample observer image s =
      let near = nearest_entity s.cross_class_merge cls sample.x sample.y (none, inf) s.entities in
      if is_ignored s.cross_class_merge cls sample.x sample.y s.ignored
      then (s, suppressed)
      else fold_in near (within s.same_radius near) cls sample observer image s

  -- `accept(proposal_id)`: the store, and the id of the entity.
  pub accept : ℕ → Store → Store × Option ℕ
  unfolding find pop
  accept i s = elim (find proposal_id i s.proposals) [
    | none ↦ (s, none)
    | some p ↦ (
      record s {
        proposals = pop proposal_id i s.proposals;
        entities =
            s.entities ++ record { id = s.next_id; cls = p.cls; acc = p.acc; image = p.image } ∷ [];
        next_id = s.next_id + 1;
      },
      some s.next_id,
    )
  ]

  pub merge_found : Option Proposal → Option Entity → ℕ → Store → Store × Bool
  unfolding pop replace
  merge_found (some p) (some e) i s =
      if not s.cross_class_merge && not (str_eq p.cls e.cls) then (s, false) else (
        record s {
          proposals = pop proposal_id i s.proposals;
          entities =
              replace entity_id
                (record e { acc = absorb F p.acc e.acc; image = or_old p.image e.image })
                s.entities;
        },
        true,
      )
  merge_found _ _ i s = (s, false)

  -- `merge(proposal_id, entity_id)`
  pub merge : ℕ → ℕ → Store → Store × Bool
  unfolding merge_found find
  merge i j s = merge_found (find proposal_id i s.proposals) (find entity_id j s.entities) i s

  -- `ignore(proposal_id)`
  pub ignore : ℕ → Store → Store × Bool
  unfolding find pop
  ignore i s = elim (find proposal_id i s.proposals) [
    | none ↦ (s, false)
    | some p ↦ (
      record s {
        proposals = pop proposal_id i s.proposals;
        ignored =
            s.ignored
            ++ record {
              cls = p.cls;
              x = centre_x F p.acc;
              y = centre_y F p.acc;
              radius = s.ignore_radius;
            }
              ∷ [];
      },
      true,
    )
  ]

  -- `forget`, `forget_proposal`, and the methods that clear.
  pub forget : ℕ → Store → Store
  unfolding pop
  forget i s = record s { entities = pop entity_id i s.entities }

  pub forget_proposal : ℕ → Store → Store
  unfolding pop
  forget_proposal i s = record s { proposals = pop proposal_id i s.proposals }

  pub forget_all : Bool → Store → Store
  forget_all include_proposals s = record s {
    entities = [];
    proposals = if include_proposals then [] else s.proposals;
  }

  pub clear_proposals : Store → Store
  clear_proposals s = record s { proposals = [] }

  pub delete_all : Store → Store
  delete_all s = record s { entities = []; proposals = [] }

  pub clear_ignored : Store → Store
  clear_ignored s = record s { ignored = [] }

  pub reset : Store → Store
  reset s = record s { entities = []; proposals = []; ignored = [] }

  -- `drop_classes(allowed)`
  pub drop_classes : Option (List String) → Store → Store
  drop_classes none s = s
  drop_classes (some allowed) s = record s {
    entities = keep (λ e. contains e.cls allowed) s.entities;
    proposals = keep (λ p. contains p.cls allowed) s.proposals;
    ignored = keep (λ z. contains z.cls allowed) s.ignored;
  }
