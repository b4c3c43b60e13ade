-- ===== src/Prelude/Lists.antt =====
-- Lists measured and indexed by native numbers, tests over lists, and sets of names as lists.
use Prim.Native.Nat.{ℕ, zero, suc, ◌+◌, ◌≤◌, ◌<◌}
use Prim.Native.String.{String}
use mathlib.Core.Path.{◌≡◌, refl, ap}
use mathlib.Core.Logic.{◌⊎◌}
use mathlib.Core.Bool.{Bool, true, false, not, ◌&&◌, ◌||◌}
use mathlib.Core.List.{List, [], ◌∷◌, ◌++◌}
use mathlib.Core.Option.{Option, none, some}
use native.Mathlib.Omega.{arith}
use text.Mathlib.Text.{◌==◌ as str_eq}
use text.Mathlib.TextEquality.{eq_iff as str_eq_iff}
use text.Mathlib.TextPositions.{eq_refl as str_eq_refl}
use swarmdeck.Prelude.Tests.{if◌then◌else◌}

module _ {ℓ} {A : Type ℓ} where
  abbrev pub length : List A → ℕ
  length [] = 0
  length (x ∷ xs) = suc (length xs)

  abbrev pub get_elem? : List A → ℕ → Option A
  get_elem? [] i = none
  get_elem? (x ∷ xs) zero = some x
  get_elem? (x ∷ xs) (suc i) = get_elem? xs i

  abbrev pub take : ℕ → List A → List A
  take zero xs = []
  take (suc n) [] = []
  take (suc n) (x ∷ xs) = x ∷ take n xs

  abbrev pub drop : ℕ → List A → List A
  drop zero xs = xs
  drop (suc n) [] = []
  drop (suc n) (x ∷ xs) = drop n xs

  -- `any(test(x) for x in xs)`
  abbrev pub any : (A → Bool) → List A → Bool
  any p [] = false
  any p (x ∷ xs) = p x || any p xs

  -- `all(test(x) for x in xs)`
  abbrev pub all : (A → Bool) → List A → Bool
  all p [] = true
  all p (x ∷ xs) = p x && all p xs

  -- `[x for x in xs if test(x)]`
  abbrev pub keep : (A → Bool) → List A → List A
  keep p [] = []
  keep p (x ∷ xs) = let rest = keep p xs in if p x then x ∷ rest else rest

  abbrev pub All {κ} : (A → Type κ) → List A → Type κ
  All P [] = Unit
  All P (x ∷ xs) = P x × All P xs

  pub length-append : (xs ys : List A) → length (xs ++ ys) ≡ length xs + length ys
  length-append [] ys = omega arith
  length-append (x ∷ xs) ys = omega (arith, length-append xs ys)

  pub length-take-le : (n : ℕ) (xs : List A) → length (take n xs) ≤ n
  length-take-le zero xs = omega arith
  length-take-le (suc n) [] = omega arith
  length-take-le (suc n) (x ∷ xs) = omega (arith, length-take-le n xs)

module _ {ℓ} {A : Type ℓ} where
  pub take-append : (xs ys : List A) → take (length xs) (xs ++ ys) ≡ xs
  take-append [] ys = refl
  take-append (x ∷ xs) ys = ap (λ r. x ∷ r) (take-append xs ys)

  pub drop-append : (xs ys : List A) → drop (length xs) (xs ++ ys) ≡ ys
  drop-append [] ys = refl
  drop-append (x ∷ xs) ys = drop-append xs ys

module _ {ℓ} {A : Type ℓ} where
  pub All-append {κ} : (P : A → Type κ) (xs ys : List A) → All P xs → All P ys → All P (xs ++ ys)
  All-append P [] ys hx hy = hy
  All-append P (x ∷ xs) ys hx hy = (hx.0, All-append P xs ys hx.1 hy)

  pub All-map {κ} : {P Q : A → Type κ} (xs : List A) → ((x : A) → P x → Q x) → All P xs → All Q xs
  All-map [] f h = tt
  All-map (x ∷ xs) f h = (f x h.0, All-map xs f h.1)

-- `a in xs`, for a set of names or a list of names.
abbrev pub contains : String → List String → Bool
contains a [] = false
contains a (x ∷ xs) = str_eq x a || contains a xs

-- `xs.discard(a)` and `xs.remove(a)` on a set of names.
abbrev pub discard : String → List String → List String
discard a [] = []
discard a (x ∷ xs) = let rest = discard a xs in if str_eq x a then rest else x ∷ rest

-- `len(xs) == len(set(xs))`: no name stands twice.
abbrev pub is_nodup : List String → Bool
is_nodup [] = true
is_nodup (x ∷ xs) = not (contains x xs) && is_nodup xs

pub contains-append :
    (a : String) (xs ys : List String) → contains a (xs ++ ys) ≡ (contains a xs || contains a ys)
contains-append a [] ys = refl
contains-append a (x ∷ xs) ys = ground (arith, contains-append a xs ys)

pub discard-fresh : (a : String) (xs : List String) → contains a xs ≡ false → discard a xs ≡ xs
discard-fresh a [] h = refl
discard-fresh a (x ∷ xs) h = ground (arith, discard-fresh a xs)

pub discard-cons_self :
    (a : String) (xs : List String) → contains a xs ≡ false → discard a (a ∷ xs) ≡ xs
discard-cons_self a xs h = ground (arith, discard-fresh a xs, str_eq_refl a)

pub contains-cons_self : (a : String) (xs : List String) → contains a (a ∷ xs) ≡ true
contains-cons_self a xs = ground (arith, str_eq_refl a)

-- How many of the names `ids` are not in `seen`.
abbrev pub missing : List String → List String → ℕ
missing seen [] = 0
missing seen (x ∷ xs) = let rest = missing seen xs in if contains x seen then rest else suc rest

pub missing-cons-le :
    (a : String) (seen ids : List String) → missing (a ∷ seen) ids ≤ missing seen ids
missing-cons-le a seen [] = omega arith
missing-cons-le a seen (x ∷ xs) = ground (arith, missing-cons-le a seen xs)

-- A new member of `ids` in `seen` leaves fewer missing.
pub missing-cons-lt :
    (a : String) (seen ids : List String)
    → contains a ids ≡ true
    → contains a seen ≡ false
    → missing (a ∷ seen) ids < missing seen ids
missing-cons-lt a seen [] h k = cc
missing-cons-lt a seen (x ∷ xs) h k = ground (
  arith,
  missing-cons-lt a seen xs,
  missing-cons-le a seen xs,
  str_eq_iff x a,
  str_eq_iff a x,
  str_eq_refl a,
)

pub missing-le-length : (seen ids : List String) → missing seen ids ≤ length ids
missing-le-length seen [] = omega arith
missing-le-length seen (x ∷ xs) = ground (arith, missing-le-length seen xs)

abbrev pub IsMember : {A : Type 0} → A → List A → Type 0
IsMember a [] = ⊥
IsMember a (x ∷ xs) = (a ≡ x) ⊎ IsMember a xs

pub All-contains : (xs : List String) → All (λ d. contains d xs ≡ true) xs
All-contains [] = tt
All-contains (x ∷ xs) =
    (contains-cons_self x xs, All-map xs (λ d h. ground arith) (All-contains xs))

pub all_of_All :
    (xs ys : List String) → All (λ d. contains d ys ≡ true) xs → all (λ d. contains d ys) xs ≡ true
all_of_All [] ys h = refl
all_of_All (x ∷ xs) ys h = ground (arith, all_of_All xs ys h.1)
