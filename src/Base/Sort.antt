-- ===== src/Base/Sort.antt =====
-- `slices.SortFunc` by a three-way comparison.
use mathlib.Core.Path.{◌≡◌, refl, sym, subst}
use mathlib.Core.Logic.{◌≢◌, ◌⊎◌, inl, inr}
use mathlib.Core.List.{List, [], ◌∷◌}
use native.Mathlib.Omega.{arith}
use Prim.Native.Nat.{suc}
use minicloud.Base.Lists.{Elem, length}
use minicloud.Base.Ranking.{IsRanking, Rank, Rank-cases, after, before, rank_self}

module _ {ℓ} {A : Type ℓ} (cmp : A → A → Rank) where
  -- `slices.SortFunc`: an insertion sort. It and the library's agree where no two elements tie.
  unfoldable pub sort_insert : A → List A → List A
  sort_insert x [] = x ∷ []
  sort_insert x (y ∷ ys) = elim (cmp y x) [ before ↦ y ∷ sort_insert x ys | _ ↦ x ∷ y ∷ ys ]

  unfoldable pub sort : List A → List A
  unfolding sort_insert
  sort [] = []
  sort (x ∷ xs) = sort_insert x (sort xs)

  pub sort_insert-Elem : (z x : A) (ys : List A) → Elem z (sort_insert x ys) → (z ≡ x) ⊎ Elem z ys
  unfolding sort_insert
  sort_insert-Elem z x [] h = h
  sort_insert-Elem z x (y ∷ ys) h = ground (arith, sort_insert-Elem z x ys)

  Elem-sort_insert : (z x : A) (ys : List A) → (z ≡ x) ⊎ Elem z ys → Elem z (sort_insert x ys)
  unfolding sort_insert
  Elem-sort_insert z x [] h = h
  Elem-sort_insert z x (y ∷ ys) h = ground (arith, Elem-sort_insert z x ys)

  -- Sorting keeps the elements.
  pub sort-Elem : (z : A) (xs : List A) → Elem z (sort xs) → Elem z xs
  unfolding sort
  sort-Elem z [] h = h
  sort-Elem z (x ∷ xs) h = elim (sort_insert-Elem z x (sort xs) h) [
    | inl e ↦ inl e
    | inr e ↦ inr (sort-Elem z xs e)
  ]

  pub Elem-sort : (z : A) (xs : List A) → Elem z xs → Elem z (sort xs)
  unfolding sort
  Elem-sort z [] h = h
  Elem-sort z (x ∷ xs) (inl e) = Elem-sort_insert z x (sort xs) (inl e)
  Elem-sort z (x ∷ xs) (inr e) = Elem-sort_insert z x (sort xs) (inr (Elem-sort z xs e))

  length-sort_insert : (x : A) (ys : List A) → length (sort_insert x ys) ≡ suc (length ys)
  unfolding sort_insert
  length-sort_insert x [] = refl
  length-sort_insert x (y ∷ ys) = ground (arith, length-sort_insert x ys)

  pub length-sort : (xs : List A) → length (sort xs) ≡ length xs
  unfolding sort
  length-sort [] = refl
  length-sort (x ∷ xs) = omega (arith, length-sort_insert x (sort xs), length-sort xs)

  -- No element stands behind one that comes after it.
  abbrev pub IsSorted : List A → Type ℓ
  IsSorted [] = Unit
  IsSorted (x ∷ xs) = ((y : A) → Elem y xs → cmp x y ≢ after) × IsSorted xs

  module _ {κ} {P : A → Type κ} (r : IsRanking P cmp) where
    not_after : (x y : A) → cmp y x ≢ before → cmp x y ≢ after
    not_after x y h = ground (arith, r.flips x y)

    behind :
        (x y : A) (ys : List A)
        → ((z : A) → Elem z (x ∷ y ∷ ys) → P z)
        → IsSorted (y ∷ ys)
        → cmp x y ≢ after
        → (z : A) → Elem z (y ∷ ys)
        → cmp x z ≢ after
    behind x y ys good h front z (inl e) = rw e front
    behind x y ys good h front z (inr e) =
        r.trans x y z (good x (inl refl)) (good y (inr (inl refl))) (good z (inr (inr e))) front
          (h.0 z e)

    ahead :
        (x y : A) (ys : List A)
        → IsSorted (y ∷ ys)
        → cmp y x ≡ before
        → (z : A) → Elem z (sort_insert x ys)
        → cmp y z ≢ after
    ahead x y ys h e z m = elim (sort_insert-Elem z x ys m) [
      | inl p ↦ rw (p, e) (λ q. cc)
      | inr p ↦ h.0 z p
    ]

    sort_insert-IsSorted :
        (x : A) (ys : List A)
        → ((z : A) → Elem z (x ∷ ys) → P z)
        → IsSorted ys
        → IsSorted (sort_insert x ys)
    unfolding sort_insert
    sort_insert-IsSorted x [] good h = (λ y e. elim e [ ], tt)
    sort_insert-IsSorted x (y ∷ ys) good h = elim (Rank-cases (cmp y x)) [
      | inl e ↦
          rw (e, sort_insert) (ahead x y ys h e, sort_insert-IsSorted x ys (drop_second good) h.1)
      | inr (inl e) ↦ rw (e, sort_insert) (behind x y ys good h (not_after x y (ground arith)), h)
      | inr (inr e) ↦ rw (e, sort_insert) (behind x y ys good h (not_after x y (ground arith)), h)
    ]
      where
        drop_second : ((z : A) → Elem z (x ∷ y ∷ ys) → P z) → (z : A) → Elem z (x ∷ ys) → P z
        drop_second g z (inl e) = g z (inl e)
        drop_second g z (inr e) = g z (inr (inr e))

    pub sort-IsSorted : (xs : List A) → ((z : A) → Elem z xs → P z) → IsSorted (sort xs)
    unfolding sort
    sort-IsSorted [] good = tt
    sort-IsSorted (x ∷ xs) good =
        sort_insert-IsSorted x (sort xs) sorted_good (sort-IsSorted xs (λ z e. good z (inr e)))
      where
        sorted_good : (z : A) → Elem z (x ∷ sort xs) → P z
        sorted_good z (inl e) = good z (inl e)
        sorted_good z (inr e) = good z (inr (sort-Elem z xs e))

    -- The head of a sorted list is one of the elements, and none comes before it.
    pub sort-head :
        (xs : List A) {best : A} {rest : List A}
        → ((z : A) → Elem z xs → P z)
        → sort xs ≡ best ∷ rest
        → Elem best xs × ((y : A) → Elem y xs → cmp best y ≢ after)
    sort-head xs {best} {rest} good e =
        (sort-Elem best xs (subst (Elem best) (sym e) (inl refl)), least)
      where
        sorted : IsSorted (best ∷ rest)
        sorted = subst IsSorted e (sort-IsSorted xs good)

        least_of : (y : A) → Elem y (best ∷ rest) → cmp best y ≢ after
        least_of y (inl p) = rw (p, rank_self r best) (λ q. cc)
        least_of y (inr p) = sorted.0 y p

        least : (y : A) → Elem y xs → cmp best y ≢ after
        least y m = least_of y (subst (Elem y) e (Elem-sort y xs m))
