-- ===== src/Base/Totals.antt =====
-- What the elements of a list hold together, and a list with one element replaced.
use Prim.Native.Nat.{ℕ, ◌+◌}
use mathlib.Core.Path.{◌≡◌, refl}
use mathlib.Core.List.{List, [], ◌∷◌, ◌++◌}
use native.Mathlib.Omega.{arith}
use minicloud.Base.Lists.{All}

abbrev pub total_of {ℓ} : {A : Type ℓ} → (A → ℕ) → List A → ℕ
total_of f [] = 0
total_of f (c ∷ cs) = f c + total_of f cs

pub total_split {ℓ} :
    {A : Type ℓ} (f : A → ℕ) (ahead behind : List A) (c : A)
    → total_of f (ahead ++ (c ∷ behind)) ≡ f c + total_of f (ahead ++ behind)
total_split f [] behind c = refl
total_split f (a ∷ ahead) behind c = omega (arith, total_split f ahead behind c)

pub All-split {ℓ κ} :
    {A : Type ℓ} (P : A → Type κ) (ahead behind : List A) (c : A)
    → All P (ahead ++ (c ∷ behind))
    → P c
All-split P [] behind c h = h.0
All-split P (a ∷ ahead) behind c h = All-split P ahead behind c h.1

pub All-replaced {ℓ κ} :
    {A : Type ℓ} (P : A → Type κ) (ahead behind : List A) (c d : A)
    → All P (ahead ++ (c ∷ behind))
    → P d
    → All P (ahead ++ (d ∷ behind))
All-replaced P [] behind c d h p = (p, h.1)
All-replaced P (a ∷ ahead) behind c d h p = (h.0, All-replaced P ahead behind c d h.1 p)
