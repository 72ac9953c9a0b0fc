-- ===== src/Base/Tests.antt =====
-- Boolean tests on numbers, the conditional, and case lemmas that keep the equation.
use Prim.Native.Nat.{ℕ, suc, ◌≤◌, ◌<◌, compare, Ordering}
use mathlib.Core.Path.{◌≡◌, refl}
use mathlib.Core.Logic.{◌↔◌, ◌⊎◌, inl, inr}
use mathlib.Core.Bool.{Bool, true, false}
use mathlib.Core.Option.{Option, none, some}
use native.Mathlib.Omega.{arith}

abbrev pub ltb : ℕ → ℕ → Bool
ltb a b = elim (compare a b) [ Ordering.lt ↦ true | _ ↦ false ]

abbrev pub leb : ℕ → ℕ → Bool
leb a b = elim (compare a b) [ Ordering.gt ↦ false | _ ↦ true ]

infix 50 ◌==◌
abbrev pub ◌==◌ : ℕ → ℕ → Bool
a == b = elim (compare a b) [ Ordering.eq ↦ true | _ ↦ false ]

infix 1 if◌then◌else◌
abbrev pub if◌then◌else◌ {ℓ} : {A : Type ℓ} → Bool → A → A → A
if true then x else y = x
if false then x else y = y

pub leb_of_le : {a b : ℕ} → a ≤ b → leb a b ≡ true
leb_of_le h = ground arith

pub leb_of_lt : {a b : ℕ} → b < a → leb a b ≡ false
leb_of_lt h = ground arith

pub ltb_of_lt : {a b : ℕ} → a < b → ltb a b ≡ true
ltb_of_lt h = ground arith

pub ltb_of_le : {a b : ℕ} → b ≤ a → ltb a b ≡ false
ltb_of_le h = ground arith

pub ==_of_ne : {a b : ℕ} → (a ≡ b → ⊥) → (a == b) ≡ false
==_of_ne h = ground arith

pub le_of_leb : {a b : ℕ} → leb a b ≡ true → a ≤ b
le_of_leb h = ground arith

pub lt_of_leb : {a b : ℕ} → leb a b ≡ false → b < a
lt_of_leb h = ground arith

pub ==_iff : (a b : ℕ) → ((a == b) ≡ true) ↔ (a ≡ b)
==_iff a b = ground arith

pub Bool-cases : (b : Bool) → (b ≡ true) ⊎ (b ≡ false)
Bool-cases true = inl refl
Bool-cases false = inr refl

pub Option-cases : {A : Type 0} (o : Option A) → (o ≡ none) ⊎ ((a : A) × (o ≡ some a))
Option-cases none = inl refl
Option-cases (some a) = inr (a, refl)

pub lt-suc_cases : (a b : ℕ) → a < suc b → (a < b) ⊎ (a ≡ b)
lt-suc_cases a b h = ground arith
