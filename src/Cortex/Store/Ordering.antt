-- ===== src/Cortex/Store/Ordering.antt =====
-- agent_cortex/store.py: `ORDER BY sequence` over events that stand in that order already.
use swarmdeck.Prelude.{ℕ, suc, ◌≤◌, ◌≡◌, refl, List, [], ◌∷◌, arith}
use swarmdeck.Cortex.Store.{Event, earlier, order_by, insert_by}

-- The sequence numbers go up by one from `n`.
abbrev pub Numbered : ℕ → List Event → Type 0
Numbered n [] = Unit
Numbered n (e ∷ es) = (e.sequence ≡ n) × Numbered (suc n) es

insert_by-front :
    (n : ℕ) (e : Event) (es : List Event)
    → e.sequence ≤ n
    → Numbered n es
    → insert_by earlier e es ≡ e ∷ es
unfolding insert_by
insert_by-front n e [] h k = refl
insert_by-front n e (f ∷ es) h k = ground (arith, h, k.0)

-- Numbered rows stand in the order of their numbers.
pub order_by-Numbered : (n : ℕ) (es : List Event) → Numbered n es → order_by earlier es ≡ es
unfolding order_by
order_by-Numbered n [] h = refl
order_by-Numbered n (e ∷ es) h =
    rw (order_by-Numbered (suc n) es h.1) (insert_by-front (suc n) e es (omega (arith, h.0)) h.1)
