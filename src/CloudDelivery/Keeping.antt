-- ===== src/CloudDelivery/Keeping.antt =====
-- mapsvc/cloud_delivery.py: every call of `prepare` keeps the cache bounded and true to its count.
use swarmdeck.Prelude.{
  ℕ, ◌+◌, ◌-◌, ◌≡◌, refl, sym, subst, ap, ◌∙◌, String, Bool, false, ◌||◌, Option, none, some, List,
  [], ◌∷◌, ◌++◌, arith, All, All-append, leb, length, length-append, str_eq, str_eq_iff,
  str_eq_refl, Bool-cases, Option-cases, inl, inr, if◌then◌else◌,
}
use swarmdeck.CloudDelivery.{
  Cached, CloudDelivery, Product, lookup, without, store, prepare, rebuild, is_fresh, old_bytes,
  max_product_bytes,
}
use swarmdeck.CloudDelivery.Eviction.{
  total_bytes, Lacks, Distinct, IsBounded, evict-IsBounded, evict-last,
}

without-All :
    (P : Cached → Type 0) (scope : String) (cs : List Cached) → All P cs → All P (without scope cs)
unfolding without
without-All P scope [] h = tt
without-All P scope (c ∷ cs) h = elim (Bool-cases (str_eq c.scope scope)) [
  | inl e ↦ rw (e, without) (without-All P scope cs h.1)
  | inr e ↦ rw (e, without) (h.0, without-All P scope cs h.1)
]

without-Lacks : (scope : String) (cs : List Cached) → Lacks scope (without scope cs)
unfolding without
without-Lacks scope [] = tt
without-Lacks scope (c ∷ cs) = elim (Bool-cases (str_eq c.scope scope)) [
  | inl e ↦ rw (e, without) (without-Lacks scope cs)
  | inr e ↦
      subst (Lacks scope) (sym (ap (λ b. if b then without scope cs else c ∷ without scope cs) e))
        (e, without-Lacks scope cs)
]

without-Distinct : (scope : String) (cs : List Cached) → Distinct cs → Distinct (without scope cs)
unfolding without
without-Distinct scope [] d = tt
without-Distinct scope (c ∷ cs) d = elim (Bool-cases (str_eq c.scope scope)) [
  | inl e ↦ rw (e, without) (without-Distinct scope cs d.1)
  | inr e ↦
      rw (e, without)
        (
          without-All (λ x. str_eq x.scope c.scope ≡ false) scope cs d.0,
          without-Distinct scope cs d.1,
        )
]

without_lacking : (scope : String) (cs : List Cached) → Lacks scope cs → without scope cs ≡ cs
unfolding without
without_lacking scope [] l = refl
without_lacking scope (c ∷ cs) l = ground (arith, l.0, without_lacking scope cs l.1)

-- What `pop` would take away.
total_bytes-without :
    (scope : String) (cs : List Cached)
    → Distinct cs
    → total_bytes (without scope cs) + old_bytes (lookup scope cs) ≡ total_bytes cs
unfolding without lookup
total_bytes-without scope [] d = omega arith
total_bytes-without scope (c ∷ cs) d = elim (Bool-cases (str_eq c.scope scope)) [
  | inl e ↦
      rw (e, without, lookup)
        (omega (
          arith,
          ap total_bytes (
              without_lacking scope cs
                (subst (λ s. Lacks s cs) ((str_eq_iff c.scope scope).0 e) d.0)),
        ))
  | inr e ↦ rw (e, without, lookup) (omega (arith, total_bytes-without scope cs d.1))
]

total_bytes-append :
    (cs : List Cached) (c : Cached) → total_bytes (cs ++ c ∷ []) ≡ total_bytes cs + c.product.body
total_bytes-append [] c = omega arith
total_bytes-append (x ∷ cs) c = omega (arith, total_bytes-append cs c)

other_scope : (s t : String) → str_eq s t ≡ false → str_eq t s ≡ false
other_scope s t h = ground (arith, str_eq_iff s t, str_eq_iff t s, h)

Distinct-append :
    (cs : List Cached) (c : Cached) → Distinct cs → Lacks c.scope cs → Distinct (cs ++ c ∷ [])
Distinct-append [] c d l = (tt, tt)
Distinct-append (x ∷ cs) c d l = (
  All-append (λ y. str_eq y.scope x.scope ≡ false) cs (c ∷ []) d.0
      (other_scope x.scope c.scope l.0, tt),
  Distinct-append cs c d.1 l.1,
)

-- The product of a scope is one of the products.
lookup-scope :
    (scope : String) (cs : List Cached) (c : Cached) → lookup scope cs ≡ some c → c.scope ≡ scope
unfolding lookup
lookup-scope scope [] c e = cc
lookup-scope scope (x ∷ cs) c e = elim (Bool-cases (str_eq x.scope scope)) [
  | inl k ↦
      let same : x ≡ c = cc (rw (k, lookup) at e) in
      ap (λ y. y.scope) (sym same) ∙ (str_eq_iff x.scope scope).0 k
  | inr k ↦ lookup-scope scope cs c (rw (k, lookup) at e)
]

length-without :
    (scope : String) (cs : List Cached) (c : Cached)
    → Distinct cs
    → lookup scope cs ≡ some c
    → length (without scope cs) + 1 ≡ length cs
unfolding lookup without
length-without scope [] c d e = cc
length-without scope (x ∷ cs) c d e = elim (Bool-cases (str_eq x.scope scope)) [
  | inl k ↦
      rw (k, without)
        (omega (
          arith,
          ap length (
              without_lacking scope cs
                (subst (λ s. Lacks s cs) ((str_eq_iff x.scope scope).0 k) d.0)),
        ))
  | inr k ↦ rw (k, without) (omega (arith, length-without scope cs c d.1 (rw (k, lookup) at e)))
]

-- What a call of `prepare` leaves: a bounded cache, with the product that it returned.
pub record IsPrepared (scope : String) (o : CloudDelivery × Option Product) : Type 0 where
  pub bounded : IsBounded o.0
  pub cached :
      (p : Product)
      → o.1 ≡ some p
      → (c : Cached) × (lookup scope o.0.products ≡ some c) × (c.product ≡ p)

lookup-last :
    (cs : List Cached) (c : Cached) → Lacks c.scope cs → lookup c.scope (cs ++ c ∷ []) ≡ some c
unfolding lookup
lookup-last [] c l = rw (str_eq_refl c.scope) refl
lookup-last (x ∷ cs) c l = rw (l.0) (lookup-last cs c l.1)

rebuild-IsPrepared :
    (scope revision : String) (now : ℕ) (build : Option Product) (d : CloudDelivery)
    → IsBounded d
    → IsPrepared scope (rebuild scope revision now build d)
unfolding rebuild store
rebuild-IsPrepared scope revision now none d h = record { bounded = h; cached = λ p e. cc }
rebuild-IsPrepared scope revision now (some q) d h =
    let c : Cached = record { scope = scope; revision = revision; built_at = now; product = q } in
    let rest = without scope d.products in
    let lacks = without-Lacks scope d.products in
    record {
      bounded =
          evict-IsBounded (rest ++ c ∷ [])
            (d.product_bytes - old_bytes (lookup scope d.products) + q.body)
            (omega (
              arith,
              h.counted,
              total_bytes-without scope d.products h.distinct,
              total_bytes-append rest c,
            ))
            (Distinct-append rest c (without-Distinct scope d.products h.distinct) lacks);
      cached = λ p e. (
        c,
        evict-last rest c (d.product_bytes - old_bytes (lookup scope d.products) + q.body) lacks
            (str_eq_refl scope),
        cc,
      );
    }

hit-IsPrepared :
    (scope : String) (c : Cached) (d : CloudDelivery)
    → lookup scope d.products ≡ some c
    → IsBounded d
    → IsPrepared scope (record d { products = without scope d.products ++ c ∷ [] }, some c.product)
hit-IsPrepared scope c d e h =
    let rest = without scope d.products in
    let named = lookup-scope scope d.products c e in
    let lacks = subst (λ s. Lacks s rest) (sym named) (without-Lacks scope d.products) in
    let long : length (rest ++ c ∷ []) ≡ length d.products =
      length-append rest (c ∷ []) ∙ length-without scope d.products c h.distinct e in
    record {
      bounded = record {
        counted = omega (
          arith,
          h.counted,
          total_bytes-without scope d.products h.distinct,
          ap old_bytes e,
          total_bytes-append rest c,
        );
        few = omega (arith, h.few, long);
        small = ap (λ n. leb d.product_bytes max_product_bytes || leb n 1) long ∙ h.small;
        distinct = Distinct-append rest c (without-Distinct scope d.products h.distinct) lacks;
      };
      cached = λ p k.
          (c, subst (λ s. lookup s (rest ++ c ∷ []) ≡ some c) named (lookup-last rest c lacks), cc);
    }

-- Every call of `prepare`, a hit, a rebuild or a failed build, keeps the count of bytes exact, at
-- most 16 products, at most 64 MiB of them but for a single larger one, and one product for a
-- scope; and a product that is returned is the one that is cached for its scope.
pub prepare-IsPrepared :
    (scope revision : String) (upstream : Bool) (now built : ℕ) (build : Option Product)
    (d : CloudDelivery)
    → IsBounded d
    → IsPrepared scope (prepare scope revision upstream now built build d)
unfolding prepare
prepare-IsPrepared scope revision upstream now built build d h =
    elim (Option-cases (lookup scope d.products)) [
      | inl e ↦ rw (e, prepare) (rebuild-IsPrepared scope revision built build d h)
      | inr (c, e) ↦ elim (Bool-cases (is_fresh revision upstream now c)) [
        | inl k ↦ rw (e, prepare, k) (hit-IsPrepared scope c d e h)
        | inr k ↦ rw (e, prepare, k) (rebuild-IsPrepared scope revision built build d h)
      ]
    ]
