-- ===== src/Prelude/Tests.antt =====
-- Boolean tests on the native numbers, the conditional, and equality tests as an interface.
use Prim.Native.Nat.{ℕ, ◌≤◌, ◌<◌, compare, Ordering}
use mathlib.Core.Path.{◌≡◌, refl, ap}
use mathlib.Core.Logic.{◌↔◌, ◌⊎◌, inl, inr}
use mathlib.Core.Bool.{Bool, true, false}
use mathlib.Core.Option.{Option, none, some}
use native.Mathlib.Omega.{arith}

abbrev pub ltb : ℕ → ℕ → Bool
ltb a b = elim (compare a b) [ Ordering.lt ↦ true | _ ↦ false ]

abbrev pub leb : ℕ → ℕ → Bool
leb a b = elim (compare a b) [ Ordering.gt ↦ false | _ ↦ true ]

abbrev pub nat_beq : ℕ → ℕ → Bool
nat_beq a b = elim (compare a b) [ Ordering.eq ↦ true | _ ↦ false ]

pub nat_beq_iff : (a b : ℕ) → (nat_beq a b ≡ true) ↔ (a ≡ b)
nat_beq_iff a b = ground arith

infix 1 if◌then◌else◌
abbrev pub if◌then◌else◌ {ℓ} : {A : Type ℓ} → Bool → A → A → A
if true then x else y = x
if false then x else y = y

-- `operator==` of a C++ type: a test that decides equality.
pub record Comparable {ℓ} (A : Type ℓ) : Type ℓ where
  pub same : (left right : A) → Bool
  pub same_iff : (left right : A) → (same left right ≡ true) ↔ (left ≡ right)

instance abbrev pub nat_eq : Comparable ℕ
nat_eq = record { same = nat_beq; same_iff = nat_beq_iff }

module _ {ℓ} {A : Type ℓ} where
  -- `std::optional` equality, and SQL's `IS`, `IS NOT DISTINCT FROM`.
  abbrev pub option_beq : (A → A → Bool) → Option A → Option A → Bool
  option_beq f none none = true
  option_beq f none (some b) = false
  option_beq f (some a) none = false
  option_beq f (some a) (some b) = f a b

  pub option_beq_iff :
      (f : A → A → Bool) (h : (a b : A) → (f a b ≡ true) ↔ (a ≡ b)) (x y : Option A)
      → (option_beq f x y ≡ true) ↔ (x ≡ y)
  option_beq_iff f h none none = (λ _. refl, λ _. refl)
  option_beq_iff f h none (some b) = (λ p. cc, λ p. cc)
  option_beq_iff f h (some a) none = (λ p. cc, λ p. cc)
  option_beq_iff f h (some a) (some b) = (λ p. ap some ((h a b).0 p), λ p. (h a b).1 (cc))

instance abbrev pub option_nat_eq : Comparable (Option ℕ)
option_nat_eq = record { same = option_beq nat_beq; same_iff = option_beq_iff nat_beq nat_beq_iff }

module _ {ℓ} {A : Type ℓ} where
  infix 50 ◌==◌
  abbrev pub ◌==◌ : ⦃c : Comparable A⦄ (left right : A) → Bool
  ◌==◌ ⦃c⦄ left right = c.same left right

-- 1 for a test that holds.
abbrev pub count_one : Bool → ℕ
count_one true = 1
count_one false = 0

pub Bool-cases : (b : Bool) → (b ≡ true) ⊎ (b ≡ false)
Bool-cases true = inl refl
Bool-cases false = inr refl

pub Option-cases {ℓ} : {A : Type ℓ} (o : Option A) → (o ≡ none) ⊎ ((a : A) × (o ≡ some a))
Option-cases none = inl refl
Option-cases (some a) = inr (a, refl)

pub leb→le : (a b : ℕ) → leb a b ≡ true → a ≤ b
leb→le a b h = ground arith

pub ltb→lt : (a b : ℕ) → ltb a b ≡ true → a < b
ltb→lt a b h = ground arith

pub lt→ltb : (a b : ℕ) → a < b → ltb a b ≡ true
lt→ltb a b h = ground arith
