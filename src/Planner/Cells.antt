-- ===== src/Planner/Cells.antt =====
-- server/swarmdeck_server/mapsvc/planner.py: what holds of `came_from`, `g_score` and the heap at
-- every round of the search.
use swarmdeck.Prelude.{
  ℕ, zero, suc, ◌+◌, ◌≤◌, ◌<◌, ◌≡◌, refl, subst, true, false, none, some, List, ◌∷◌, Bool-cases,
  inl, inr, ◌⊎◌, All, All-map, arith,
}
use swarmdeck.Prelude.Int.{ℤ, pos, negsuc, abs, ◌+ℤ◌, ◌-ℤ◌}
use swarmdeck.Planner.{Cell, same}
use swarmdeck.Planner.Search.{
  Entry, put, Search, Neighbour, neighbours, improves, within, difference, total, step,
}

pub same→eq : (a b : Cell) → same a b ≡ true → a ≡ b
same→eq a b h =
    let x_eq : a.x ≡ b.x = ground (arith, h) in
    let y_eq : a.y ≡ b.y = ground (arith, h) in λ i. record { x = x_eq i; y = y_eq i }

pub same_refl : (a : Cell) → same a a ≡ true
same_refl a = ground arith

-- A cell and one of the eight around it.
abbrev pub Adjacent : Cell → Cell → Type 0
Adjacent p c = (abs (difference c.x p.x) ≤ 1) × (abs (difference c.y p.y) ≤ 1)

abbrev pub IsSmall : Neighbour → Type 0
IsSmall n = (abs n.dx ≤ 1) × (abs n.dy ≤ 1) × (0 < n.step_cost)

pub neighbours-IsSmall : All IsSmall neighbours
neighbours-IsSmall = omega arith

within_lem :
    (n : ℕ) (a : ℕ) (d : ℤ) (v : ℕ)
    → abs d ≤ 1
    → within n (pos a +ℤ d) ≡ some v
    → (v < n) × (abs (difference v a) ≤ 1)
unfolding within ◌+ℤ◌ ◌-ℤ◌
within_lem n a (pos zero) v h e = ground arith
within_lem n a (pos (suc k)) v h e = ground arith
within_lem n a (negsuc k) v h e = ground arith

module _ (w h : ℕ) (cost : ℕ → ℕ → ℕ) (hypot : ℤ → ℤ → ℕ) (goal start : Cell) where
  -- In the grid, and no obstacle.
  abbrev pub IsFree : Cell → Type 0
  IsFree c = (c.x < w) × (c.y < h) × (cost c.y c.x < 200)

  pub step_lem :
      (p c : Cell) (n : Neighbour)
      → IsSmall n
      → step w h cost hypot goal p n ≡ some c
      → (c.x < w) × (c.y < h) × Adjacent p c
  unfolding step
  step_lem p c n small e =
      ground (arith, within_lem w p.x n.dx c.x small.0, within_lem h p.y n.dy c.y small.1)

  pub record Link (s : Search) (c p : Cell) : Type 0 where
    pub own : ℕ
    pub parent : ℕ
    pub own_is : s.g_score c ≡ some own
    pub parent_is : s.g_score p ≡ some parent
    pub falls : parent < own
    pub free : IsFree c
    pub adjacent : Adjacent p c

  -- An entry is of a cell whose score is no worse.
  abbrev pub Queued : Search → Entry → Type 0
  Queued s e = (b : ℕ) × (s.g_score e.cell ≡ some b) × (b ≤ e.g)

  pub record Inv (s : Search) : Type 0 where
    pub start_zero : s.g_score start ≡ some 0
    pub start_first : s.came_from start ≡ none
    pub linked : (c p : Cell) → s.came_from c ≡ some p → Link s c p
    pub scored :
        (c : Cell) (g : ℕ)
        → s.g_score c ≡ some g
        → (c ≡ start) ⊎ ((p : Cell) × (s.came_from c ≡ some p))
    pub queued : All (Queued s) s.open_set

  -- A shorter way to a cell, by way of an entry whose score is current.
  pub record Shorter (s : Search) (e : Entry) (n : Neighbour) (c : Cell) : Type 0 where
    pub free : IsFree c
    pub adjacent : Adjacent e.cell c
    pub current : s.g_score e.cell ≡ some e.g
    pub longer : e.g < total w h cost hypot goal e n c
    pub better : improves (total w h cost hypot goal e n c) (s.g_score c) ≡ true

  -- What `relax` then makes of the search.
  abbrev pub improved : Search → Entry → Neighbour → Cell → Search
  improved s e n c = record {
    open_set =
        record {
          f =
              total w h cost hypot goal e n c
              + hypot (difference c.x goal.x) (difference c.y goal.y);
          g = total w h cost hypot goal e n c;
          cell = c;
        }
        ∷ s.open_set;
    came_from = put c e.cell s.came_from;
    g_score = put c (total w h cost hypot goal e n c) s.g_score;
  }

  module _ (s : Search) (e : Entry) (n : Neighbour) (c : Cell) (sh : Shorter s e n c) where
    abbrev pub ng : ℕ
    ng = total w h cost hypot goal e n c

    -- The entry's own cell is another one.
    own_apart : same c e.cell ≡ false
    own_apart = elim (Bool-cases (same c e.cell)) [
      | inr x ↦ x
      | inl x ↦
          let score : s.g_score c ≡ some e.g = rw (same→eq c e.cell x) sh.current in
          absurd (ground (arith, rw score at sh.better, sh.longer))
    ]

    pub own_kept : (improved s e n c).g_score e.cell ≡ some e.g
    own_kept = rw own_apart sh.current

    -- No score grows.
    score_kept :
        (d : Cell) (b : ℕ)
        → s.g_score d ≡ some b
        → (a : ℕ) × ((improved s e n c).g_score d ≡ some a) × (a ≤ b)
    score_kept d b h = elim (Bool-cases (same c d)) [
      | inr x ↦ (b, rw x h, omega arith)
      | inl x ↦
          let score : s.g_score c ≡ some b = rw (same→eq c d x) h in
          (ng, rw x refl, ground (arith, rw score at sh.better))
    ]

    start_apart : s.g_score start ≡ some 0 → same c start ≡ false
    start_apart zero_is = elim (Bool-cases (same c start)) [
      | inr x ↦ x
      | inl x ↦
          let score : s.g_score c ≡ some 0 = rw (same→eq c start x) zero_is in
          absurd (ground (arith, rw score at sh.better))
    ]

    Link-improved : Link (improved s e n c) c e.cell
    Link-improved = record {
      own = ng;
      parent = e.g;
      own_is = rw (same_refl c) refl;
      parent_is = own_kept;
      falls = sh.longer;
      free = sh.free;
      adjacent = sh.adjacent;
    }

    Link-kept : (d p : Cell) → same c d ≡ false → Link s d p → Link (improved s e n c) d p
    Link-kept d p apart l =
        let (a, a_is, a_le) = score_kept p l.parent l.parent_is in
        record {
          own = l.own;
          parent = a;
          own_is = rw apart l.own_is;
          parent_is = a_is;
          falls = omega (arith, l.falls, a_le);
          free = l.free;
          adjacent = l.adjacent;
        }

    linked_after :
        ((d p : Cell) → s.came_from d ≡ some p → Link s d p)
        → (d p : Cell) → (improved s e n c).came_from d ≡ some p
        → Link (improved s e n c) d p
    linked_after old d p from = elim (Bool-cases (same c d)) [
      | inl x ↦
          let from_new : e.cell ≡ p = cc (rw x at from) in
          subst (λ q. Link (improved s e n c) q p) (same→eq c d x)
            (subst (λ q. Link (improved s e n c) c q) from_new Link-improved)
      | inr x ↦ Link-kept d p x (old d p (rw x at from))
    ]

    scored_after :
        ((d : Cell) (g : ℕ)
          → s.g_score d ≡ some g
          → (d ≡ start) ⊎ ((p : Cell) × (s.came_from d ≡ some p)))
        → (d : Cell) (g : ℕ) → (improved s e n c).g_score d ≡ some g
        → (d ≡ start) ⊎ ((p : Cell) × ((improved s e n c).came_from d ≡ some p))
    scored_after old d g score = elim (Bool-cases (same c d)) [
      | inl x ↦ inr (e.cell, rw x refl)
      | inr x ↦ elim (old d g (rw x at score)) [
        | inl at_start ↦ inl at_start
        | inr (p, from) ↦ inr (p, rw x from)
      ]
    ]

    Queued-improved : (es : List Entry) → All (Queued s) es → All (Queued (improved s e n c)) es
    Queued-improved es q =
        All-map es
          (λ x held.
            let (a, a_is, a_le) = score_kept x.cell held.0 held.1 in
            (a, a_is, omega (arith, a_le, held.2)))
          q

    pub improved-Inv : Inv s → Inv (improved s e n c)
    improved-Inv inv = record {
      start_zero = rw (start_apart inv.start_zero) inv.start_zero;
      start_first = rw (start_apart inv.start_zero) inv.start_first;
      linked = linked_after inv.linked;
      scored = scored_after inv.scored;
      queued = ((ng, rw (same_refl c) refl, omega arith), Queued-improved s.open_set inv.queued);
    }
