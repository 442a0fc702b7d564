-- ===== src/Base/Dict.antt =====
-- Go maps as association lists. A key stands once: `insert` writes over, `delete` removes.
use Prim.Native.Nat.{ℕ, ◌+◌, ◌≤◌}
use mathlib.Core.Path.{◌≡◌, refl}
use mathlib.Core.Logic.{◌≢◌}
use mathlib.Core.Bool.{Bool, true, false}
use mathlib.Core.Option.{Option, none, some}
use mathlib.Core.List.{List, [], ◌∷◌}
use native.Mathlib.Omega.{arith}
use minicloud.Base.Tests.{Eq, if◌then◌else◌, nat_eq, ◌==◌}
use minicloud.Base.Lists.{All, length}

abbrev pub Map {ℓ κ} : Type ℓ → Type κ → Type (ℓ ⊔ κ)
Map K V = List (K × V)

abbrev pub is_some {ℓ} : {A : Type ℓ} → Option A → Bool
is_some none = false
is_some (some _) = true

abbrev pub map_option {ℓ κ} : {A : Type ℓ} {B : Type κ} → (A → B) → Option A → Option B
map_option f none = none
map_option f (some a) = some (f a)

-- The zero value of a missing key.
abbrev pub or_zero : Option ℕ → ℕ
or_zero none = 0
or_zero (some n) = n

module _ {ℓ κ} {K : Type ℓ} ⦃e : Eq K⦄ {V : Type κ} where
  unfoldable pub lookup : K → Map K V → Option V
  lookup key [] = none
  lookup key ((stored, value) ∷ entries) = if stored == key then some value else lookup key entries

  -- A write keeps the place of a key that is there, and adds a missing one at the end.
  unfoldable pub insert : K → V → Map K V → Map K V
  insert key value [] = (key, value) ∷ []
  insert key value ((stored, old) ∷ entries) =
      if stored == key then (stored, value) ∷ entries else (stored, old) ∷ insert key value entries

  unfoldable pub delete : K → Map K V → Map K V
  delete key [] = []
  delete key ((stored, value) ∷ entries) =
      let others = delete key entries in if stored == key then others else (stored, value) ∷ others

  -- What is read after a write, and after a removal.
  pub lookup-insert :
      (written key : K) (value : V) (entries : Map K V)
      → lookup key (insert written value entries)
        ≡ (if written == key then some value else lookup key entries)
  unfolding lookup insert
  lookup-insert written key value [] = refl
  lookup-insert written key value ((stored, old) ∷ entries) =
      ground (arith, lookup-insert written key value entries)

  pub lookup-delete :
      (removed key : K) (entries : Map K V)
      → lookup key (delete removed entries) ≡ (if removed == key then none else lookup key entries)
  unfolding lookup delete
  lookup-delete removed key [] = ground arith
  lookup-delete removed key ((stored, old) ∷ entries) =
      ground (arith, lookup-delete removed key entries)

  pub lookup_written :
      (key : K) (value : V) (entries : Map K V) → lookup key (insert key value entries) ≡ some value
  lookup_written key value entries = ground (arith, lookup-insert key key value entries)

  pub lookup_unwritten :
      (written key : K) (value : V) (entries : Map K V)
      → written ≢ key
      → lookup key (insert written value entries) ≡ lookup key entries
  lookup_unwritten written key value entries differ =
      ground (arith, lookup-insert written key value entries)

  -- A write adds at most the key that was missing.
  pub length-insert :
      (k : K) (v : V) (m : Map K V)
      → length (insert k v m) ≡ (if is_some (lookup k m) then length m else length m + 1)
  unfolding lookup insert
  length-insert k v [] = ground arith
  length-insert k v ((i, w) ∷ m) = ground (arith, length-insert k v m)

  pub length-delete-le : (k : K) (m : Map K V) → length (delete k m) ≤ length m
  unfolding delete
  length-delete-le k [] = omega arith
  length-delete-le k ((i, w) ∷ m) = ground (arith, length-delete-le k m)

module _ {ℓ κ} {K : Type ℓ} {V : Type κ} where
  -- One function on every value.
  unfoldable pub map_values : (V → V) → Map K V → Map K V
  map_values f [] = []
  map_values f ((k, v) ∷ m) = (k, f v) ∷ map_values f m

  pub length-map_values : (f : V → V) (m : Map K V) → length (map_values f m) ≡ length m
  unfolding map_values
  length-map_values f [] = refl
  length-map_values f ((k, v) ∷ m) = omega (arith, length-map_values f m)

  pub lookup-map_values :
      ⦃e : Eq K⦄ (f : V → V) (k : K) (m : Map K V)
      → lookup k (map_values f m) ≡ map_option f (lookup k m)
  unfolding lookup map_values
  lookup-map_values f k [] = refl
  lookup-map_values f k ((i, w) ∷ m) = ground (arith, lookup-map_values f k m)

module _ {ℓ κ} {K : Type ℓ} ⦃e : Eq K⦄ {V : Type κ} where
  -- No key stands twice.
  abbrev pub IsKeyed : Map K V → Type κ
  IsKeyed [] = Unit
  IsKeyed ((stored, value) ∷ entries) = (lookup stored entries ≡ none) × IsKeyed entries

  pub insert-IsKeyed :
      (written : K) (value : V) (entries : Map K V)
      → IsKeyed entries
      → IsKeyed (insert written value entries)
  unfolding lookup insert
  insert-IsKeyed written value [] h = (refl, tt)
  insert-IsKeyed written value ((stored, old) ∷ entries) h =
      ground (
        arith,
        insert-IsKeyed written value entries h.1,
        lookup-insert written stored value entries,
      )

  pub delete-IsKeyed :
      (removed : K) (entries : Map K V) → IsKeyed entries → IsKeyed (delete removed entries)
  unfolding lookup delete
  delete-IsKeyed removed [] h = tt
  delete-IsKeyed removed ((stored, old) ∷ entries) h =
      ground (arith, delete-IsKeyed removed entries h.1, lookup-delete removed stored entries)

  -- What holds of all that can be read holds of all entries.
  pub All-entries {μ} :
      {P : K → V → Type μ} (entries : Map K V)
      → IsKeyed entries
      → ((key : K) (value : V) → lookup key entries ≡ some value → P key value)
      → All (λ entry. P (entry.0) (entry.1)) entries
  unfolding lookup
  All-entries [] h p = tt
  All-entries ((stored, value) ∷ entries) h p = (
    p stored value (ground arith),
    All-entries entries h.1 (λ key v found. p key v (deeper key v found)),
  )
    where
      deeper :
          (key : _) (v : _)
          → lookup key entries ≡ some v
          → lookup key ((stored, value) ∷ entries) ≡ some v
      deeper key v found = ground (arith, h.0)
