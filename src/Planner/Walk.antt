-- ===== src/Planner/Walk.antt =====
-- server/swarmdeck_server/mapsvc/planner.py: the loop keeps the invariant, and the walk back along
-- `came_from`.
use swarmdeck.Prelude.{
  ℕ, zero, suc, ◌+◌, ◌*◌, ◌<◌, ◌≡◌, refl, sym, ap, subst, true, Option, none, some, List, [], ◌∷◌,
  leb, Bool-cases, Option-cases, inl, inr, ◌⊎◌, All, arith,
}
use swarmdeck.Prelude.Int.{ℤ}
use swarmdeck.Planner.{Cell, same}
use swarmdeck.Planner.Search.{
  Entry, Search, Neighbour, neighbours, improves, is_stale, total, relax, step, expand, turn,
  before, heappop, reached, loop, walk, last_or, first, search_path, walked, max_expansions,
  Outcome, not_found, found,
}
use swarmdeck.Planner.Cells.{
  Adjacent, IsSmall, neighbours-IsSmall, IsFree, step_lem, Queued, Inv, same_refl, same→eq,
  improved-Inv, own_kept, Shorter,
}

pub heappop-All {κ} :
    (P : Entry → Type κ) (e : Entry) (es : List Entry)
    → P e
    → All P es
    → P (heappop e es).0 × All P (heappop e es).1
unfolding heappop
heappop-All P e [] p ps = (p, tt)
heappop-All P e (d ∷ ds) p ps =
    let (least, others) = heappop-All P d ds ps.0 ps.1 in
    elim (Bool-cases (before (heappop d ds).0 e)) [
      | inl b ↦ rw b (least, (p, others))
      | inr b ↦ rw b (p, (least, others))
    ]

List-cases {ℓ} : {A : Type ℓ} (xs : List A) → (xs ≡ []) ⊎ ((x : A) × (r : List A) × (xs ≡ x ∷ r))
List-cases [] = inl refl
List-cases (x ∷ xs) = inr (x, xs, refl)

dearer : (g s c : ℕ) → 0 < s → g < g + s * (100 + 15 * c)
dearer g s c h = grind arith

module _ (w h : ℕ) (cost : ℕ → ℕ → ℕ) (hypot : ℤ → ℤ → ℕ) (goal start : Cell) where
  -- The invariant, and that the entry's score is still its own.
  abbrev Current : Entry → Search → Type 0
  Current e s = Inv w h cost hypot goal start s × (s.g_score e.cell ≡ some e.g)

  relax-Current :
      (e : Entry) (n : Neighbour) (c : Cell) (s : Search)
      → IsSmall n
      → step w h cost hypot goal e.cell n ≡ some c
      → Current e s
      → Current e (relax w h cost hypot goal e n c s)
  unfolding relax
  relax-Current e n c s small stepped now =
      let (in_w, in_h, adjacent) = step_lem w h cost hypot goal start e.cell c n small stepped in
      elim (Bool-cases (leb 200 (cost c.y c.x))) [
        | inl blocked ↦ rw (blocked, relax) now
        | inr free ↦ elim (Bool-cases (improves (total w h cost hypot goal e n c) (s.g_score c))) [
          | inr worse ↦ rw (free, worse, relax) now
          | inl better ↦
              let sh : Shorter w h cost hypot goal start s e n c = record {
                free = (in_w, in_h, ground (arith, free));
                adjacent = adjacent;
                current = now.1;
                longer = dearer e.g n.step_cost (cost c.y c.x) small.2;
                better = better;
              } in
              rw (free, better, relax)
                (
                  improved-Inv w h cost hypot goal start s e n c sh now.0,
                  own_kept w h cost hypot goal start s e n c sh,
                )
        ]
      ]

  expand-Current :
      (e : Entry) (ns : List Neighbour) (s : Search)
      → All IsSmall ns
      → Current e s
      → Current e (expand w h cost hypot goal e ns s)
  unfolding expand
  expand-Current e [] s small now = now
  expand-Current e (n ∷ ns) s small now = elim (Option-cases (step w h cost hypot goal e.cell n)) [
    | inl off ↦ rw (off, expand) (expand-Current e ns s small.1 now)
    | inr (c, on) ↦
        rw (on, expand)
          (expand-Current e ns (relax w h cost hypot goal e n c s) small.1
            (relax-Current e n c s small.0 on now))
  ]

  -- A search that found a cell: the invariant holds, the cell was scored, and is at the goal.
  abbrev pub Finds : Outcome → Type 0
  Finds not_found = Unit
  Finds (found s c) =
      Inv w h cost hypot goal start s × ((b : ℕ) × (s.g_score c ≡ some b)) × (reached c goal ≡ true)

  turn-Inv :
      (e : Entry) (s : Search)
      → Inv w h cost hypot goal start s
      → Queued w h cost hypot goal start s e
      → Inv w h cost hypot goal start (turn w h cost hypot goal e s)
  unfolding turn
  turn-Inv e s inv (b, score, le) = elim (Bool-cases (is_stale e.g (s.g_score e.cell))) [
    | inl stale ↦ rw (stale, turn) inv
    | inr fresh ↦
        let own : b ≡ e.g = ground (arith, rw score at fresh) in
        rw (fresh, turn)
          (expand-Current e neighbours s neighbours-IsSmall (inv, rw (← own) score)).0
  ]

  drop-Inv :
      (s : Search) (es : List Entry)
      → Inv w h cost hypot goal start s
      → All (Queued w h cost hypot goal start s) es
      → Inv w h cost hypot goal start (record s { open_set = es })
  drop-Inv s es inv q = record {
    start_zero = inv.start_zero;
    start_first = inv.start_first;
    linked = λ c p from.
        let l = inv.linked c p from in
        record {
          own = l.own;
          parent = l.parent;
          own_is = l.own_is;
          parent_is = l.parent_is;
          falls = l.falls;
          free = l.free;
          adjacent = l.adjacent;
        };
    scored = inv.scored;
    queued = q;
  }

  loop-Finds :
      (left : ℕ) (s : Search)
      → Inv w h cost hypot goal start s
      → Finds (loop w h cost hypot goal left s)
  unfolding loop
  loop-Finds zero s inv = tt
  loop-Finds (suc left) s inv = elim (List-cases s.open_set) [
    | inl empty ↦ rw (empty, loop) tt
    | inr (d, ds, entries) ↦
        let q : All (Queued w h cost hypot goal start s) (d ∷ ds) =
          subst (All (Queued w h cost hypot goal start s)) entries inv.queued in
        let (own, others) = heappop-All (Queued w h cost hypot goal start s) d ds q.0 q.1 in
        let rest : Search = record s { open_set = (heappop d ds).1 } in
        let kept : Inv w h cost hypot goal start rest = drop-Inv s _ inv others in
        elim (Bool-cases (reached (heappop d ds).0.cell goal)) [
          | inl there ↦ rw (entries, loop) (rw there (kept, (own.0, own.1), there))
          | inr away ↦
              rw (entries, loop)
                (rw away (
                  loop-Finds left (turn w h cost hypot goal (heappop d ds).0 rest)
                    (turn-Inv (heappop d ds).0 rest kept own)))
        ]
  ]

  -- Each cell is free and next to the one before.
  abbrev pub Chain : Cell → List Cell → Type 0
  Chain p [] = Unit
  Chain p (c ∷ cs) = IsFree w h cost hypot goal start c × Adjacent p c × Chain c cs

  -- The walk from a scored cell ends at the start within its fuel.
  walk_lem :
      (fuel b : ℕ) (s : Search) (c : Cell) (acc : List Cell)
      → Inv w h cost hypot goal start s
      → s.g_score c ≡ some b
      → b < fuel
      → Chain c acc
      → (p : List Cell) × (walk fuel s.came_from c acc ≡ some p)
        × Chain start p
        × (last_or start p ≡ last_or c acc)
  unfolding walk
  walk_lem zero b s c acc inv score lt chain = absurd (omega (arith, lt))
  walk_lem (suc fuel) b s c acc inv score lt chain = elim (Option-cases (s.came_from c)) [
    | inl top ↦ elim (inv.scored c b score) [
      | inl at_start ↦ (
        acc,
        rw (top, walk) refl,
        subst (λ d. Chain d acc) at_start chain,
        ap (λ d. last_or d acc) (sym at_start),
      )
      | inr (p, from) ↦ cc
    ]
    | inr (p, from) ↦
        let l = inv.linked c p from in
        let own : l.own ≡ b = cc (l.own_is) in
        let (q, ends, chained, same_end) =
          walk_lem fuel l.parent s p (c ∷ acc) inv l.parent_is (omega (arith, l.falls, own, lt))
            (l.free, l.adjacent, chain) in
        (q, rw (from, walk) ends, chained, same_end)
  ]

  -- The search as it begins.
  first-Inv : Inv w h cost hypot goal start (first start)
  unfolding first
  first-Inv = record {
    start_zero = rw (same_refl start) refl;
    start_first = refl;
    linked = λ c p from. absurd (cc);
    scored = λ c g score. elim (Bool-cases (same start c)) [
      | inl x ↦ inl (sym (same→eq start c x))
      | inr x ↦ absurd (cc (rw x at score))
    ];
    queued = ((0, rw (same_refl start) refl, omega arith), tt);
  }

  -- A path leads over free cells, each next to the one before, from the start to a cell at the goal.
  pub record IsPath (p : List Cell) : Type 0 where
    pub cells : List Cell
    pub starts : p ≡ start ∷ cells
    pub chained : Chain start cells
    pub ends : reached (last_or start cells) goal ≡ true

  -- The search finds no path or a path: the walk back never runs out of fuel.
  pub data Searched : Option (Option (List Cell)) → Type 0 where
    nothing : Searched (some none)
    a_path : (p : List Cell) → IsPath p → Searched (some (some p))

  walked-Searched : (o : Outcome) → Finds o → Searched (walked w h cost hypot goal start o)
  walked-Searched not_found f = nothing
  walked-Searched (found s c) (inv, (b, score), there) =
      let (cells, ends, chain, last) = walk_lem (suc b) b s c [] inv score (omega arith) tt in
      rw (score, walked)
        (rw ends (
          a_path (start ∷ cells)
            (record { cells = cells; starts = refl; chained = chain; ends = rw last there })))

  -- Whatever the grid, the costs and the estimates, the search ends with nothing found or with a
  -- path: the walk back along `came_from` always reaches the start.
  pub search_path-Searched : Searched (search_path w h cost hypot goal start)
  unfolding search_path
  search_path-Searched =
      walked-Searched (loop w h cost hypot goal max_expansions (first start))
        (loop-Finds max_expansions (first start) first-Inv)
