-- ===== src/Base/Ranking.antt =====
-- Go's three-way comparisons, the sort by one, and the laws that make its head a best element.
use Prim.Native.Nat.{ℕ, compare, Ordering}
use mathlib.Core.Path.{◌≡◌, refl}
use mathlib.Core.Logic.{◌≢◌, ◌⊎◌, inl, inr}
use native.Mathlib.Omega.{arith}

-- -1, 0 and 1.
pub data Rank : Type 0 where
  before same after : Rank

abbrev pub flip : Rank → Rank
flip before = after
flip same = same
flip after = before

pub Rank-cases : (k : Rank) → (k ≡ before) ⊎ ((k ≡ same) ⊎ (k ≡ after))
Rank-cases before = inl refl
Rank-cases same = inr (inl refl)
Rank-cases after = inr (inr refl)

-- The next criterion decides a tie.
infixr 20 ◌then_by◌
abbrev pub ◌then_by◌ : Rank → Rank → Rank
before then_by r = before
same then_by r = r
after then_by r = after

abbrev pub rank_ℕ : ℕ → ℕ → Rank
rank_ℕ a b = elim (compare a b) [ Ordering.lt ↦ before | Ordering.eq ↦ same | Ordering.gt ↦ after ]

-- A total preorder on the elements with `P`, as a comparison.
pub record IsRanking {ℓ κ} {A : Type ℓ} (P : A → Type κ) (cmp : A → A → Rank) : Type (ℓ ⊔ κ) where
  pub flips : (a b : A) → cmp b a ≡ flip (cmp a b)
  pub trans : (a b c : A) → P a → P b → P c → cmp a b ≢ after → cmp b c ≢ after → cmp a c ≢ after

abbrev pub Any {ℓ} : {A : Type ℓ} → A → Type 0
Any a = Unit {0}

pub ℕ-IsRanking : IsRanking Any rank_ℕ
ℕ-IsRanking = record { flips = λ a b. ground arith; trans = λ a b c i j k p q. ground arith }

module _ {ℓ κ μ} {A : Type ℓ} {B : Type κ} (P : A → Type μ) (f : A → B) where
  -- A comparison of one aspect.
  pub on-IsRanking : {cmp : B → B → Rank} → IsRanking Any cmp → IsRanking P (λ a b. cmp (f a) (f b))
  on-IsRanking r = record {
    flips = λ a b. r.flips (f a) (f b);
    trans = λ a b c i j k. r.trans (f a) (f b) (f c) tt tt tt;
  }

module _ {ℓ κ} {A : Type ℓ} {P : A → Type κ} {cmp : A → A → Rank} (r : IsRanking P cmp) where
  -- Larger values first.
  pub descending-IsRanking : IsRanking P (λ a b. cmp b a)
  descending-IsRanking = record {
    flips = λ a b. r.flips b a;
    trans = λ a b c i j k p q. r.trans c b a k j i q p;
  }

  pub rank_self : (a : A) → cmp a a ≡ same
  rank_self a = ground (arith, r.flips a a)

  -- If the ends tie, all three tie.
  squeezed :
      (a b c : A)
      → P a
      → P b
      → P c
      → cmp a b ≢ after
      → cmp b c ≢ after
      → cmp a c ≡ same
      → (cmp a b ≡ same) × (cmp b c ≡ same)
  squeezed a b c i j k p q e =
      let back : cmp c a ≢ after = ground (arith, r.flips a c) in
      let ba : cmp b a ≢ after = r.trans b c a j k i q back in
      let cb : cmp c b ≢ after = r.trans c a b k i j back p in
      (ground (arith, r.flips a b), ground (arith, r.flips b c))

  pub then-IsRanking :
      {next : A → A → Rank} → IsRanking P next → IsRanking P (λ a b. cmp a b then_by next a b)
  then-IsRanking {next} s = record {
    flips = λ a b. ground (arith, r.flips a b, s.flips a b);
    trans = λ a b c i j k p q.
        let ab : cmp a b ≢ after = ground arith in
        let bc : cmp b c ≢ after = ground arith in
        ground (arith, r.trans a b c i j k ab bc, squeezed a b c i j k ab bc, s.trans a b c i j k);
  }
