-- ===== src/Base/Lists.antt =====
-- Lists measured by native numbers, under the library's names.
use Prim.Native.Nat.{ℕ, suc, ◌+◌}
use mathlib.Core.Path.{◌≡◌, refl, sym, subst}
use mathlib.Core.Logic.{◌⊎◌, inl, inr}
use mathlib.Core.Bool.{Bool, true, false, ◌||◌}
use mathlib.Core.List.{List, [], ◌∷◌, ◌++◌}
use native.Mathlib.Omega.{arith}
use minicloud.Base.Tests.{Eq, nat_eq, ◌==◌}

module _ {ℓ} {A : Type ℓ} where
  abbrev pub length : List A → ℕ
  length [] = 0
  length (x ∷ xs) = suc (length xs)

  abbrev pub is_empty : List A → Bool
  is_empty [] = true
  is_empty (x ∷ xs) = false

  pub length-append : (xs ys : List A) → length (xs ++ ys) ≡ length xs + length ys
  length-append [] ys = omega arith
  length-append (x ∷ xs) ys = omega (arith, length-append xs ys)

pub data Nothing {ℓ} : Type ℓ where

-- Predicates by recursion, which compute to tuples and sums.
abbrev pub All {ℓ κ} : {A : Type ℓ} → (A → Type κ) → List A → Type κ
All P [] = Unit
All P (x ∷ xs) = P x × All P xs

abbrev pub Elem {ℓ} : {A : Type ℓ} → A → List A → Type ℓ
Elem x [] = Nothing
Elem x (y ∷ ys) = (x ≡ y) ⊎ Elem x ys

module _ {ℓ κ} {A : Type ℓ} (P : A → Type κ) where
  pub All-at : (x : A) (xs : List A) → All P xs → Elem x xs → P x
  All-at x [] h e = elim e [ ]
  All-at x (y ∷ ys) h (inl e) = subst P (sym e) h.0
  All-at x (y ∷ ys) h (inr e) = All-at x ys h.1 e

  pub All-of : (xs : List A) → ((x : A) → Elem x xs → P x) → All P xs
  All-of [] h = tt
  All-of (y ∷ ys) h = (h y (inl refl), All-of ys (λ x e. h x (inr e)))

-- A Go set as a list: whether the key is in it.
unfoldable pub contains {ℓ} : {A : Type ℓ} ⦃e : Eq A⦄ → A → List A → Bool
contains a [] = false
contains a (x ∷ xs) = x == a || contains a xs
