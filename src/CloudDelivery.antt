-- ===== src/CloudDelivery.antt =====
-- server/swarmdeck_server/mapsvc/cloud_delivery.py: `CloudDelivery.prepare`, the cache of the point
-- clouds that the dashboards ask for.
--
-- `products` is the OrderedDict, the least recently used first. A product is named by a number and
-- has the length of its body; what `build()` gives is `none` where it raises, which leaves the cache
-- as it was. A call runs under the lock. Times are milliseconds. The chunks of a product and its
-- manifest are not modelled.
pub mod Eviction
pub mod Keeping
mod Samples
use swarmdeck.Prelude.{
  ℕ, ◌+◌, ◌-◌, String, Bool, true, false, not, ◌&&◌, ◌||◌, Option, none, some, List, [], ◌∷◌, ◌++◌,
  ltb, ◌==◌, str_eq, length, if◌then◌else◌,
}

pub record Product : Type 0 where
  pub name : ℕ
  pub body : ℕ

pub record Cached : Type 0 where
  pub scope : String
  pub revision : String
  pub built_at : ℕ
  pub product : Product

pub record CloudDelivery : Type 0 where
  pub products : List Cached
  pub product_bytes : ℕ

abbrev pub max_products : ℕ
max_products = 16

-- 64 * 1024 * 1024
abbrev pub max_product_bytes : ℕ
max_product_bytes = 67108864

unfoldable pub lookup : String → List Cached → Option Cached
lookup scope [] = none
lookup scope (c ∷ cs) = if str_eq c.scope scope then some c else lookup scope cs

unfoldable pub without : String → List Cached → List Cached
without scope [] = []
without scope (c ∷ cs) =
    let rest = without scope cs in if str_eq c.scope scope then rest else c ∷ rest

-- The test of the `while`.
abbrev pub is_over : List Cached → ℕ → Bool
is_over cs bytes =
    ltb max_products (length cs) || (ltb max_product_bytes bytes && ltb 1 (length cs))

-- The `while` loop: the least recently used goes.
unfoldable pub evict : List Cached → ℕ → CloudDelivery
evict [] bytes = record { products = []; product_bytes = bytes }
evict (c ∷ cs) bytes =
    let rest = evict cs (bytes - c.product.body) in
    if is_over (c ∷ cs) bytes then rest else record { products = c ∷ cs; product_bytes = bytes }

abbrev pub old_bytes : Option Cached → ℕ
old_bytes none = 0
old_bytes (some c) = c.product.body

-- The lines after `build()`: the new product goes to the end.
unfoldable pub store : String → String → ℕ → Product → CloudDelivery → CloudDelivery
unfolding evict lookup without
store scope revision now product d =
    evict
      (without scope d.products
        ++ record { scope = scope; revision = revision; built_at = now; product = product } ∷ [])
      (d.product_bytes - old_bytes (lookup scope d.products) + product.body)

abbrev pub is_fresh : String → Bool → ℕ → Cached → Bool
is_fresh revision upstream now c =
    str_eq c.revision revision && (not upstream || ltb (now - c.built_at) 2000)

pub rebuild : String → String → ℕ → Option Product → CloudDelivery → CloudDelivery × Option Product
unfolding store
rebuild scope revision now none d = (d, none)
rebuild scope revision now (some p) d = (store scope revision now p d, some p)

-- `prepare(scope, revision, build, upstream)`: `now` is the time of the call, `built` that after
-- `build()`.
unfoldable pub prepare :
    String → String → Bool → ℕ → ℕ → Option Product → CloudDelivery → CloudDelivery × Option Product
unfolding rebuild lookup without
prepare scope revision upstream now built build d = elim (lookup scope d.products) [
  | none ↦ rebuild scope revision built build d
  | some c ↦
      if is_fresh revision upstream now c
      then (record d { products = without scope d.products ++ c ∷ [] }, some c.product)
      else rebuild scope revision built build d
]
