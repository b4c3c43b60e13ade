-- ===== src/CloudDelivery/Eviction.antt =====
-- mapsvc/cloud_delivery.py: what the eviction keeps.
use swarmdeck.Prelude.{
  ℕ, ◌+◌, ◌-◌, ◌≤◌, ◌≡◌, refl, sym, subst, ap, String, Bool, true, false, ◌||◌, some, List, [], ◌∷◌,
  ◌++◌, arith, All, leb, length, str_eq, Bool-cases, inl, inr, if◌then◌else◌,
}
use swarmdeck.CloudDelivery.{
  Cached, CloudDelivery, evict, is_over, lookup, max_products, max_product_bytes,
}

abbrev pub total_bytes : List Cached → ℕ
total_bytes [] = 0
total_bytes (c ∷ cs) = c.product.body + total_bytes cs

abbrev pub Lacks : String → List Cached → Type 0
Lacks scope = All (λ c. str_eq c.scope scope ≡ false)

abbrev pub Distinct : List Cached → Type 0
Distinct [] = Unit
Distinct (c ∷ cs) = Lacks c.scope cs × Distinct cs

-- The bytes are those of the products; there are at most 16, and at most 64 MiB of them but for a
-- single product that is larger; and each scope stands once.
pub record IsBounded (d : CloudDelivery) : Type 0 where
  pub counted : d.product_bytes ≡ total_bytes d.products
  pub few : length d.products ≤ max_products
  pub small : (leb d.product_bytes max_product_bytes || leb (length d.products) 1) ≡ true
  pub distinct : Distinct d.products

pub evict-IsBounded :
    (cs : List Cached) (bytes : ℕ)
    → bytes ≡ total_bytes cs
    → Distinct cs
    → IsBounded (evict cs bytes)
unfolding evict
evict-IsBounded [] bytes h d = record {
  counted = h;
  few = omega arith;
  small = ground (arith, h);
  distinct = tt;
}
evict-IsBounded (c ∷ cs) bytes h d = elim (Bool-cases (is_over (c ∷ cs) bytes)) [
  | inl e ↦
      subst IsBounded (sym (ap branch e))
        (evict-IsBounded cs (bytes - c.product.body) (omega (arith, h)) d.1)
  | inr e ↦
      subst IsBounded (sym (ap branch e))
        (record { counted = h; few = ground (arith, e); small = ground (arith, e); distinct = d })
]
  where
    branch : Bool → CloudDelivery
    branch over =
        if over
        then evict cs (bytes - c.product.body)
        else record { products = c ∷ cs; product_bytes = bytes }

-- The newest product is never evicted.
pub evict-last :
    (cs : List Cached) (c : Cached) (bytes : ℕ)
    → Lacks c.scope cs
    → str_eq c.scope c.scope ≡ true
    → lookup c.scope (evict (cs ++ c ∷ []) bytes).products ≡ some c
unfolding evict lookup
evict-last [] c bytes l s = ground (arith, s)
evict-last (x ∷ cs) c bytes l s = elim (Bool-cases (is_over (x ∷ cs ++ c ∷ []) bytes)) [
  | inl e ↦ rw (e, evict) (evict-last cs c (bytes - x.product.body) l.1 s)
  | inr e ↦ rw (e, evict) (kept (x ∷ cs) l)
]
  where
    kept : (ds : List Cached) → Lacks c.scope ds → lookup c.scope (ds ++ c ∷ []) ≡ some c
    kept [] k = rw s refl
    kept (y ∷ ds) k = rw k.0 (kept ds k.1)
