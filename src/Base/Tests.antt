-- ===== src/Base/Tests.antt =====
-- Boolean tests: orders on numbers, equality by an instance, and the conditional.
use Prim.Native.Nat.{ℕ, compare, Ordering}
use mathlib.Core.Path.{◌≡◌, refl}
use mathlib.Core.Logic.{◌≢◌, ◌⊎◌, inl, inr}
use mathlib.Core.Bool.{Bool, true, false}
use mathlib.Core.List.{List, [], ◌∷◌}
use native.Mathlib.Omega.{arith}
use mathlib.Core.Option.{Option, none, some}
use native.Mathlib.Decide.{ℕ_discrete}

abbrev pub ltb : ℕ → ℕ → Bool
ltb a b = elim (compare a b) [ Ordering.lt ↦ true | _ ↦ false ]

abbrev pub leb : ℕ → ℕ → Bool
leb a b = elim (compare a b) [ Ordering.gt ↦ false | _ ↦ true ]

infix 1 if◌then◌else◌
abbrev pub if◌then◌else◌ {ℓ} : {A : Type ℓ} → Bool → A → A → A
if true then x else y = x
if false then x else y = y

pub record Eq {ℓ} (A : Type ℓ) : Type ℓ where
  pub dec : Discrete A

infix 50 ◌==◌
abbrev pub ◌==◌ {ℓ} : {A : Type ℓ} ⦃e : Eq A⦄ → A → A → Bool
◌==◌ ⦃e⦄ a b = elim (e.dec a b) [ yes _ ↦ true | no _ ↦ false ]

infix 50 ◌!=◌
abbrev pub ◌!=◌ {ℓ} : {A : Type ℓ} ⦃e : Eq A⦄ → A → A → Bool
◌!=◌ ⦃e⦄ a b = elim (e.dec a b) [ yes _ ↦ false | no _ ↦ true ]

instance abbrev pub nat_eq : Eq ℕ
nat_eq = record { dec = ℕ_discrete }

module _ {ℓ} {A : Type ℓ} {x y : A} {xs ys : List A} where
  pub cons-head : x ∷ xs ≡ y ∷ ys → x ≡ y
  cons-head e = ground arith

  pub cons-tail : x ∷ xs ≡ y ∷ ys → xs ≡ ys
  cons-tail e = ground arith

  pub cons-eq : x ≡ y → xs ≡ ys → x ∷ xs ≡ y ∷ ys
  cons-eq p q = cc

unfoldable pub List-discrete {ℓ} : {A : Type ℓ} → Discrete A → Discrete (List A)
List-discrete d [] [] = yes refl
List-discrete d [] (y ∷ ys) = no (λ e. cc)
List-discrete d (x ∷ xs) [] = no (λ e. cc)
List-discrete d (x ∷ xs) (y ∷ ys) = elim (d x y) [
  | no differ ↦ no (λ e. differ (cons-head e))
  | yes p ↦ elim (List-discrete d xs ys) [
    | yes q ↦ yes (cons-eq p q)
    | no differ ↦ no (λ e. differ (cons-tail e))
  ]
]

pub Bool-cases : (b : Bool) → (b ≡ true) ⊎ (b ≡ false)
Bool-cases true = inl refl
Bool-cases false = inr refl

pub Option-cases {ℓ} : {A : Type ℓ} (o : Option A) → (o ≡ none) ⊎ ((a : A) × (o ≡ some a))
Option-cases none = inl refl
Option-cases (some a) = inr (a, refl)

-- What a comparison that was made says.
module _ {ℓ} {A : Type ℓ} ⦃e : Eq A⦄ (a b : A) where
  pub eq_of_test : (a == b) ≡ true → a ≡ b
  eq_of_test h = ground arith

  pub test_of_eq : a ≡ b → (a == b) ≡ true
  test_of_eq h = ground arith

  pub test_of_differ : a ≢ b → (a == b) ≡ false
  test_of_differ h = ground arith

  pub eq_of_no_difference : (a != b) ≡ false → a ≡ b
  eq_of_no_difference h = ground arith

  pub no_difference : a ≡ b → (a != b) ≡ false
  no_difference h = ground arith

module _ {ℓ} {A : Type ℓ} {b : Bool} (x y : A) where
  pub if_true : b ≡ true → (if b then x else y) ≡ x
  if_true h = rw h refl

  pub if_false : b ≡ false → (if b then x else y) ≡ y
  if_false h = rw h refl

pub some-inj {ℓ} : {A : Type ℓ} {x y : A} {o : Option A} → o ≡ some x → o ≡ some y → x ≡ y
some-inj p q = ground (arith, p, q)

pub option_disjoint {ℓ} : {A : Type ℓ} {x : A} → none ≢ some x
option_disjoint = λ e. cc
