-- ===== src/Prelude/Tests.antt =====
-- Boolean tests on the native numbers, the conditional, and the error monad of Python exceptions.
use Prim.Native.Nat.{ℕ, ◌≤◌, ◌<◌, compare, Ordering}
use mathlib.Core.Path.{◌≡◌, refl}
use mathlib.Core.Logic.{◌↔◌, ◌⊎◌, inl, inr}
use mathlib.Core.Bool.{Bool, true, false}
use mathlib.Core.Option.{Option, none, some}
use native.Mathlib.Omega.{arith}

abbrev pub ltb : ℕ → ℕ → Bool
ltb a b = elim (compare a b) [ Ordering.lt ↦ true | _ ↦ false ]

abbrev pub leb : ℕ → ℕ → Bool
leb a b = elim (compare a b) [ Ordering.gt ↦ false | _ ↦ true ]

infix 50 ◌==◌
abbrev pub ◌==◌ : ℕ → ℕ → Bool
a == b = elim (compare a b) [ Ordering.eq ↦ true | _ ↦ false ]

infix 1 if◌then◌else◌
abbrev pub if◌then◌else◌ {ℓ} : {A : Type ℓ} → Bool → A → A → A
if true then x else y = x
if false then x else y = y

pub ==_iff : (a b : ℕ) → ((a == b) ≡ true) ↔ (a ≡ b)
==_iff a b = ground arith

pub ltb→lt : (a b : ℕ) → ltb a b ≡ true → a < b
ltb→lt a b h = ground arith

pub leb→le : (a b : ℕ) → leb a b ≡ true → a ≤ b
leb→le a b h = ground arith

pub Bool-cases : (b : Bool) → (b ≡ true) ⊎ (b ≡ false)
Bool-cases true = inl refl
Bool-cases false = inr refl

pub Option-cases {ℓ} : {A : Type ℓ} (o : Option A) → (o ≡ none) ⊎ ((a : A) × (o ≡ some a))
Option-cases none = inl refl
Option-cases (some a) = inr (a, refl)

-- `o is not None`
abbrev pub is_some {ℓ} : {A : Type ℓ} → Option A → Bool
is_some none = false
is_some (some _) = true

-- The outcome of a call that may raise an exception.
pub data Outcome {ℓ κ} (Exception : Type ℓ) (Value : Type κ) : Type (ℓ ⊔ κ) where
  raises : Exception → Outcome Exception Value
  returns : Value → Outcome Exception Value

module _ {ℓ κ μ} {Exception : Type ℓ} {Value : Type κ} {Next : Type μ} where
  infixl 5 ◌>>=◌
  -- An exception ends the rest of the calls.
  abbrev pub ◌>>=◌ :
      Outcome Exception Value → (Value → Outcome Exception Next) → Outcome Exception Next
  raises x >>= rest = raises x
  returns v >>= rest = rest v

  -- Both calls of a chain that returned have returned.
  pub bind-eq-returns :
      (call : Outcome Exception Value) (rest : Value → Outcome Exception Next) {result : Next}
      → (call >>= rest) ≡ returns result
      → (v : Value) × (call ≡ returns v) × (rest v ≡ returns result)
  bind-eq-returns (raises x) rest e = cc
  bind-eq-returns (returns v) rest e = (v, refl, e)
