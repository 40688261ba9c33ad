-- ===== src/Prelude/Tests.antt =====
-- Boolean tests on native numbers, the conditional, and the binding of optional results.
use Prim.Native.Nat.{ℕ, ◌≤◌, ◌<◌, compare, Ordering}
use mathlib.Core.Path.{◌≡◌, refl}
use mathlib.Core.Logic.{◌⊎◌, inl, inr}
use mathlib.Core.Bool.{Bool, true, false}
use mathlib.Core.Option.{Option, none, some}
use native.Mathlib.Omega.{arith}

abbrev pub ltb : ℕ → ℕ → Bool
ltb a b = elim (compare a b) [ Ordering.lt ↦ true | _ ↦ false ]

abbrev pub leb : ℕ → ℕ → Bool
leb a b = elim (compare a b) [ Ordering.gt ↦ false | _ ↦ true ]

infix 50 ◌==◌
abbrev pub ◌==◌ : ℕ → ℕ → Bool
a == b = elim (compare a b) [ Ordering.eq ↦ true | _ ↦ false ]

infix 1 if◌then◌else◌
abbrev pub if◌then◌else◌ {ℓ} : {A : Type ℓ} → Bool → A → A → A
if true then x else y = x
if false then x else y = y

-- A call that may have no defined result: `none` stands for undefined behaviour, such as an access
-- out of bounds, a failing assertion or a loop that does not end.
infixl 5 ◌>>=◌
abbrev pub ◌>>=◌ {ℓ κ} : {A : Type ℓ} {B : Type κ} → Option A → (A → Option B) → Option B
none >>= f = none
some a >>= f = f a

pub Bool-cases : (b : Bool) → (b ≡ true) ⊎ (b ≡ false)
Bool-cases true = inl refl
Bool-cases false = inr refl

pub Option-cases {ℓ} : {A : Type ℓ} (o : Option A) → (o ≡ none) ⊎ ((a : A) × (o ≡ some a))
Option-cases none = inl refl
Option-cases (some a) = inr (a, refl)

pub le-of-leb : (a b : ℕ) → leb a b ≡ true → a ≤ b
le-of-leb a b h = ground arith

pub leb-of-le : (a b : ℕ) → a ≤ b → leb a b ≡ true
leb-of-le a b h = ground arith

pub lt-of-leb : (a b : ℕ) → leb a b ≡ false → b < a
lt-of-leb a b h = ground arith

pub lt-of-ltb : (a b : ℕ) → ltb a b ≡ true → a < b
lt-of-ltb a b h = ground arith

pub le-of-ltb : (a b : ℕ) → ltb a b ≡ false → b ≤ a
le-of-ltb a b h = ground arith

pub eq-of-== : (a b : ℕ) → (a == b) ≡ true → a ≡ b
eq-of-== a b h = ground arith

pub ruleset tests = (arith, le-of-leb, leb-of-le, lt-of-leb, lt-of-ltb, le-of-ltb, eq-of-==)

-- Inversion of a chain that has a result.
pub >>=-eq-some {ℓ κ} :
    {A : Type ℓ} {B : Type κ} (m : Option A) (f : A → Option B) {b : B}
    → (m >>= f) ≡ some b
    → (a : A) × (m ≡ some a) × (f a ≡ some b)
>>=-eq-some none f h = cc
>>=-eq-some (some a) f h = (a, refl, h)

pub >>=-some {ℓ} : {A : Type ℓ} (m : Option A) → (m >>= λ a. some a) ≡ m
>>=-some none = refl
>>=-some (some a) = refl
