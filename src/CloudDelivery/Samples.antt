-- ===== src/CloudDelivery/Samples.antt =====
-- A cloud that is built anew beside a large one.
use swarmdeck.Prelude.{arith, refl, false, some, [], ◌∷◌}
use swarmdeck.CloudDelivery.{CloudDelivery, Product, prepare}
use swarmdeck.CloudDelivery.Eviction.{IsBounded}
use swarmdeck.CloudDelivery.Keeping.{IsPrepared, prepare-IsPrepared}

abbrev large : Product
large = record { name = 1; body = 60000000 }

abbrev fresh : Product
fresh = record { name = 2; body = 9000000 }

abbrev cache : CloudDelivery
cache = record {
  products = record { scope = "merged"; revision = "7"; built_at = 100; product = large } ∷ [];
  product_bytes = 60000000;
}

cache-IsBounded : IsBounded cache
cache-IsBounded = record { counted = refl; few = omega arith; small = refl; distinct = (tt, tt) }

prepare-IsPrepared_example :
    IsPrepared "robot" (prepare "robot" "1" false 5000 5100 (some fresh) cache)
prepare-IsPrepared_example =
    prepare-IsPrepared "robot" "1" false 5000 5100 (some fresh) cache cache-IsBounded
