-- ===== src/Prelude/Tests.antt =====
-- Boolean tests on the native numbers, the conditional, and machine counters.
use Prim.Native.Nat.{ℕ, ◌+◌, ◌%◌, ◌^◌, compare, Ordering}
use mathlib.Core.Bool.{Bool, true, false}
use mathlib.Core.Logic.{◌↔◌, ◌⊎◌, inl, inr}
use mathlib.Core.Option.{Option, none, some}
use mathlib.Core.Path.{◌≡◌, refl}
use native.Mathlib.Omega.{arith}

abbrev pub ltb : ℕ → ℕ → Bool
ltb a b = elim (compare a b) [ Ordering.lt ↦ true | _ ↦ false ]

abbrev pub leb : ℕ → ℕ → Bool
leb a b = elim (compare a b) [ Ordering.gt ↦ false | _ ↦ true ]

infix 50 ◌==◌
abbrev pub ◌==◌ : ℕ → ℕ → Bool
a == b = elim (compare a b) [ Ordering.eq ↦ true | _ ↦ false ]

infix 1 if◌then◌else◌
abbrev pub if◌then◌else◌ {ℓ} : {A : Type ℓ} → Bool → A → A → A
if true then x else y = x
if false then x else y = y

pub ==_iff : (a b : ℕ) → ((a == b) ≡ true) ↔ (a ≡ b)
==_iff a b = ground arith

-- To split on a computed value and keep the equation.
pub Bool-cases : (b : Bool) → (b ≡ true) ⊎ (b ≡ false)
Bool-cases false = inr refl
Bool-cases true = inl refl

pub Option-cases {ℓ} :
    {A : Type ℓ} (option : Option A) → (option ≡ none) ⊎ ((value : A) × (option ≡ some value))
Option-cases (some value) = inr (value, refl)
Option-cases none = inl refl

-- Addition on `uint64`.
abbrev pub add64 : ℕ → ℕ → ℕ
add64 a b = (a + b) % 2 ^ 64

abbrev pub second : ℕ
second = 1_000_000_000

-- To prove a predicate of a conditional branch by branch.
pub by_if {ℓ κ} :
    {A : Type ℓ} (P : A → Type κ) (b : Bool) (x y : A)
    → (b ≡ true → P x)
    → (b ≡ false → P y)
    → P (if b then x else y)
by_if P true x y holds fails = holds refl
by_if P false x y holds fails = fails refl

pub by_option {ℓ κ ι} :
    {A : Type ℓ} {B : Type κ} (P : B → Type ι) (o : Option A) (x : B) (f : A → B)
    → (o ≡ none → P x)
    → ((a : A) → o ≡ some a → P (f a))
    → P (elim o [ none ↦ x | some a ↦ f a ])
by_option P none x f absent present = absent refl
by_option P (some a) x f absent present = present a refl

pub by_sum {ℓ κ ι θ} :
    {A : Type ℓ} {B : Type κ} {C : Type ι} (P : C → Type θ) (s : A ⊎ B) (f : A → C) (g : B → C)
    → ((a : A) → s ≡ inl a → P (f a))
    → ((b : B) → s ≡ inr b → P (g b))
    → P (elim s [ inl a ↦ f a | inr b ↦ g b ])
by_sum P (inl a) f g left right = left a refl
by_sum P (inr b) f g left right = right b refl
