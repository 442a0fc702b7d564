-- ===== src/Base/Strict.antt =====
-- Strictly sorted lists: a set has one of them.
use mathlib.Core.Path.{◌≡◌, refl, sym, subst}
use mathlib.Core.Logic.{◌≢◌, inl, inr}
use mathlib.Core.List.{List, [], ◌∷◌}
use native.Mathlib.Omega.{arith}
use minicloud.Base.Lists.{Elem}
use minicloud.Base.Ranking.{Any, IsRanking, Rank, Rank-cases, before, same}
use minicloud.Base.Sort.{sort, sort-Elem, Elem-sort, sort_insert, sort_insert-Elem}

module _ {ℓ} {A : Type ℓ} (cmp : A → A → Rank) where
  abbrev pub IsStrict : List A → Type ℓ
  IsStrict [] = Unit
  IsStrict (x ∷ xs) = ((y : A) → Elem y xs → cmp x y ≡ before) × IsStrict xs

  -- No element ties with a later one.
  abbrev pub IsUntied : List A → Type ℓ
  IsUntied [] = Unit
  IsUntied (x ∷ xs) = ((y : A) → Elem y xs → cmp x y ≢ same) × IsUntied xs

  module _ (r : IsRanking Any cmp) where
    sort_insert-IsStrict :
        (x : A) (ys : List A)
        → ((y : A) → Elem y ys → cmp x y ≢ same)
        → IsStrict ys
        → IsStrict (sort_insert cmp x ys)
    unfolding sort_insert
    sort_insert-IsStrict x [] untied h = (λ y e. elim e [ ], tt)
    sort_insert-IsStrict x (y ∷ ys) untied h = elim (Rank-cases (cmp y x)) [
      | inl e ↦
          rw (e, sort_insert) (ahead e, sort_insert-IsStrict x ys (λ z m. untied z (inr m)) h.1)
      | inr (inl e) ↦ rw (e, sort_insert) (behind (λ q. cc), h)
      | inr (inr e) ↦ rw (e, sort_insert) (behind (λ q. cc), h)
    ]
      where
        ahead : cmp y x ≡ before → (z : A) → Elem z (sort_insert cmp x ys) → cmp y z ≡ before
        ahead e z m = elim (sort_insert-Elem cmp z x ys m) [ inl p ↦ rw p e | inr p ↦ h.0 z p ]

        behind : cmp y x ≢ before → (z : A) → Elem z (y ∷ ys) → cmp x z ≡ before
        behind late z (inl p) = rw p (ground (arith, r.flips x y, untied y (inl refl)))
        behind late z (inr p) = ground (
          arith,
          r.flips x y,
          untied y (inl refl),
          untied z (inr p),
          h.0 z p,
          r.trans x y z tt tt tt,
        )

    pub sort-IsStrict : (xs : List A) → IsUntied xs → IsStrict (sort cmp xs)
    unfolding sort
    sort-IsStrict [] h = tt
    sort-IsStrict (x ∷ xs) h =
        sort_insert-IsStrict x (sort cmp xs) (λ y e. h.0 y (sort-Elem cmp y xs e))
          (sort-IsStrict xs h.1)

    no_self : (x : A) → cmp x x ≢ before
    no_self x = ground (arith, r.flips x x)

    -- An element of the other list that is not its head stands in its tail.
    tail_of :
        (x : A) (xs ys : List A)
        → ((z : A) → Elem z (x ∷ xs) → Elem z (x ∷ ys))
        → ((y : A) → Elem y xs → cmp x y ≡ before)
        → (z : A) → Elem z xs
        → Elem z ys
    tail_of x xs ys into strict z m = elim (into z (inr m)) [
      | inl e ↦ absurd (no_self x (subst (λ w. cmp x w ≡ before) e (strict z m)))
      | inr p ↦ p
    ]

    heads_agree :
        (x y : A) (xs ys : List A)
        → IsStrict (x ∷ xs)
        → IsStrict (y ∷ ys)
        → Elem x (y ∷ ys)
        → Elem y (x ∷ xs)
        → x ≡ y
    heads_agree x y xs ys h k (inl e) m = e
    heads_agree x y xs ys h k (inr n) (inl e) = sym e
    heads_agree x y xs ys h k (inr n) (inr m) =
        absurd (ground (arith, h.0 y m, k.0 x n, r.flips x y))

    pub strict_unique :
        (xs ys : List A)
        → IsStrict xs
        → IsStrict ys
        → ((z : A) → Elem z xs → Elem z ys)
        → ((z : A) → Elem z ys → Elem z xs)
        → xs ≡ ys
    strict_unique [] [] h k to from = refl
    strict_unique [] (y ∷ ys) h k to from = elim (from y (inl refl)) [ ]
    strict_unique (x ∷ xs) [] h k to from = elim (to x (inl refl)) [ ]
    strict_unique (x ∷ xs) (y ∷ ys) h k to from =
        let p = heads_agree x y xs ys h k (to x (inl refl)) (from y (inl refl)) in
        let to_tail : (z : A) → Elem z (x ∷ xs) → Elem z (x ∷ ys) =
          λ z m. subst (λ w. Elem z (w ∷ ys)) (sym p) (to z m) in
        let from_tail : (z : A) → Elem z (x ∷ ys) → Elem z (x ∷ xs) =
          λ z m. from z (subst (λ w. Elem z (w ∷ ys)) p m) in
        let other : (z : A) → Elem z ys → cmp x z ≡ before = λ z m. rw p (k.0 z m) in
        let rest =
          strict_unique xs ys h.1 k.1 (tail_of x xs ys to_tail h.0)
            (tail_of x ys xs from_tail other) in
        cc

    -- Lists with the same elements, without ties, are sorted alike.
    pub sort_unique :
        (xs ys : List A)
        → IsUntied xs
        → IsUntied ys
        → ((z : A) → Elem z xs → Elem z ys)
        → ((z : A) → Elem z ys → Elem z xs)
        → sort cmp xs ≡ sort cmp ys
    sort_unique xs ys h k to from =
        strict_unique (sort cmp xs) (sort cmp ys) (sort-IsStrict xs h) (sort-IsStrict ys k)
          (λ z m. Elem-sort cmp z ys (to z (sort-Elem cmp z xs m)))
          (λ z m. Elem-sort cmp z xs (from z (sort-Elem cmp z ys m)))
