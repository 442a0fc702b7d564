-- ===== src/Text/Order.antt =====
-- The order of Go strings as a three-way comparison.
use minicloud.Base.{
  Any, IsRanking, Rank, [], after, arith, before, flip, if◌then◌else◌, int_eq, nat_eq, rank_ℕ, refl,
  same, ℕ, ◌then_by◌, ◌∷◌, ◌≡◌, ◌≢◌,
}
use minicloud.Text.{Str, str_eq, str_ltb}

unfoldable pub compare_str : Str → Str → Rank
compare_str s t = if str_ltb s t then before else if str_ltb t s then after else same

compare_str-cons :
    (c d : ℕ) (s t : Str) → compare_str (c ∷ s) (d ∷ t) ≡ (rank_ℕ c d then_by compare_str s t)
unfolding compare_str str_ltb
compare_str-cons c d s t = ground arith

pub compare_str-IsRanking : IsRanking Any compare_str
compare_str-IsRanking = record { flips = flips; trans = λ a b c _ _ _. transitive a b c }
  where
    flips : (s t : Str) → compare_str t s ≡ flip (compare_str s t)
    flips [] [] = unfold compare_str str_ltb in refl
    flips [] (d ∷ t) = unfold compare_str str_ltb in refl
    flips (c ∷ s) [] = unfold compare_str str_ltb in refl
    flips (c ∷ s) (d ∷ t) =
        ground (arith, compare_str-cons c d s t, compare_str-cons d c t s, flips s t)

    transitive :
        (s t u : Str) → compare_str s t ≢ after → compare_str t u ≢ after → compare_str s u ≢ after
    transitive [] t [] p q = unfold compare_str str_ltb in (λ e. cc)
    transitive [] t (e ∷ u) p q = unfold compare_str str_ltb in (λ e. cc)
    transitive (c ∷ s) [] u p q = absurd (p (unfold compare_str str_ltb in refl))
    transitive (c ∷ s) (d ∷ t) [] p q = absurd (q (unfold compare_str str_ltb in refl))
    transitive (c ∷ s) (d ∷ t) (e ∷ u) p q = ground (
      arith,
      compare_str-cons c d s t,
      compare_str-cons d e t u,
      compare_str-cons c e s u,
      transitive s t u,
    )

-- Only equal strings tie.
pub compare_str-same : (s t : Str) → compare_str s t ≡ same → s ≡ t
unfolding compare_str str_ltb
compare_str-same [] [] e = refl
compare_str-same [] (d ∷ t) e = cc
compare_str-same (c ∷ s) [] e = cc
compare_str-same (c ∷ s) (d ∷ t) e = ground (arith, compare_str-same s t)
