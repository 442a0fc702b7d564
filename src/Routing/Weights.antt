-- ===== src/Routing/Weights.antt =====
-- The weights of a valid Route, and the intervals that they cut the buckets into.
use minicloud.Text.{Str, str_eq}
use minicloud.Problem.{Result-cases, ok}
use minicloud.Routing.{
  RouteTarget, ServingRoute, check_target, max_targets, target_key, total_targets, total_weight,
  u32, validate_route_targets, validate_serving_route,
}
use minicloud.Routing.Bucket.{target_for_bucket}
use minicloud.Base.{
  Bool-cases, List, Option-cases, Rank, [], ap, arith, false, inl, inr, int_eq, is_empty, length,
  ltb, nat_eq, none, refl, some, sort, sort_insert, subst, true, ℕ, ◌*◌, ◌++◌, ◌+◌, ◌-◌, ◌<◌, ◌^◌,
  ◌∷◌, ◌≡◌, ◌≤◌,
}

abbrev pub weight_sum : List RouteTarget → ℕ
weight_sum [] = 0
weight_sum (t ∷ ts) = t.weight_basis_points + weight_sum ts

check_target_weight :
    (seen : List Str) (t : RouteTarget)
    → check_target seen t ≡ none
    → t.weight_basis_points ≤ total_weight
unfolding check_target
check_target_weight seen t h = ground arith

-- The `uint32` total of at most 32 weights does not wrap.
total_targets_sum :
    (total : ℕ) (seen : List Str) (ts : List RouteTarget) {out : ℕ}
    → total + length ts * total_weight < 2 ^ 32
    → total_targets total seen ts ≡ ok out
    → out ≡ total + weight_sum ts
unfolding total_targets
total_targets_sum total seen [] room h = ground arith
total_targets_sum total seen (t ∷ ts) {out} room h =
    let small : check_target seen t ≡ none → t.weight_basis_points ≤ total_weight =
      check_target_weight seen t in
    elim (Option-cases (check_target seen t)) [
      | inr (e, failed) ↦ ground arith
      | inl passed ↦
          let bound = small passed in
          let next : u32 (total + t.weight_basis_points) ≡ total + t.weight_basis_points =
            omega arith in
          let rest : total_targets (u32 (total + t.weight_basis_points)) (target_key t ∷ seen) ts
              ≡ ok out =
            ground arith in
          let sum =
            total_targets_sum (u32 (total + t.weight_basis_points)) (target_key t ∷ seen) ts
              (omega arith) rest in
          omega arith
    ]

targets_weight_sum :
    (ts : List RouteTarget)
    → length ts ≤ max_targets
    → is_empty ts ≡ false
    → validate_route_targets ts ≡ none
    → weight_sum ts ≡ total_weight
unfolding validate_route_targets
targets_weight_sum ts short some_targets h = elim (Result-cases (total_targets 0 [] ts)) [
  | inl (e, failed) ↦ ground arith
  | inr (out, passed) ↦
      let sum : out ≡ 0 + weight_sum ts = total_targets_sum 0 [] ts (omega arith) passed in
      ground arith
]

pub valid_weight_sum :
    (r : ServingRoute)
    → validate_serving_route r ≡ none
    → r.enabled ≡ true
    → weight_sum r.targets ≡ total_weight
unfolding validate_serving_route
valid_weight_sum r valid on = ground (arith, targets_weight_sum r.targets)

module _ (cmp : RouteTarget → RouteTarget → Rank) where
  weight_sum-sort_insert :
      (t : RouteTarget) (ts : List RouteTarget)
      → weight_sum (sort_insert cmp t ts) ≡ t.weight_basis_points + weight_sum ts
  unfolding sort_insert
  weight_sum-sort_insert t [] = refl
  weight_sum-sort_insert t (u ∷ us) = ground (arith, weight_sum-sort_insert t us)

  pub weight_sum-sort : (ts : List RouteTarget) → weight_sum (sort cmp ts) ≡ weight_sum ts
  unfolding sort
  weight_sum-sort [] = refl
  weight_sum-sort (t ∷ ts) =
      omega (arith, weight_sum-sort_insert t (sort cmp ts), weight_sum-sort ts)

-- The bucket lies in the interval of the target: the weights before it end at or below the bucket,
-- and its own ends above.
pub record Covers (ts : List RouteTarget) (bucket : ℕ) (t : RouteTarget) : Type 0 where
  pub ahead : List RouteTarget
  pub behind : List RouteTarget
  pub split : ts ≡ ahead ++ (t ∷ behind)
  pub lower : weight_sum ahead ≤ bucket
  pub upper : bucket < weight_sum ahead + t.weight_basis_points

-- Past some weights, the bucket counts from their end.
Covers-cons :
    (u : RouteTarget) (ts : List RouteTarget) (bucket : ℕ) (t : RouteTarget)
    → u.weight_basis_points ≤ bucket
    → Covers ts (bucket - u.weight_basis_points) t
    → Covers (u ∷ ts) bucket t
Covers-cons u ts bucket t h c = record {
  ahead = u ∷ c.ahead;
  behind = c.behind;
  split = ap (λ x. u ∷ x) c.split;
  lower = omega (arith, c.lower);
  upper = omega (arith, c.upper);
}

target_for_bucket-Covers :
    (cumulative : ℕ) (ts : List RouteTarget) (bucket : ℕ)
    → cumulative + weight_sum ts < 2 ^ 32
    → cumulative ≤ bucket
    → bucket < cumulative + weight_sum ts
    → (t : RouteTarget) × (target_for_bucket cumulative ts bucket ≡ some t)
      × Covers ts (bucket - cumulative) t
unfolding target_for_bucket
target_for_bucket-Covers cumulative [] bucket room low high = absurd (omega arith)
target_for_bucket-Covers cumulative (u ∷ us) bucket room low high =
    let next : u32 (cumulative + u.weight_basis_points) ≡ cumulative + u.weight_basis_points =
      omega arith in
    elim (Bool-cases (ltb bucket (u32 (cumulative + u.weight_basis_points)))) [
      | inl here ↦ (
        u,
        ground arith,
        record { ahead = []; behind = us; split = refl; lower = omega arith; upper = ground arith },
      )
      | inr past ↦
          let beyond : cumulative + u.weight_basis_points ≤ bucket = ground arith in
          let (t, found, c) =
            target_for_bucket-Covers (u32 (cumulative + u.weight_basis_points)) us bucket
              (omega arith) (omega arith) (omega arith) in
          (
            t,
            ground arith,
            Covers-cons u us (bucket - cumulative) t (omega arith)
                (subst (λ n. Covers us n t) (omega arith) c),
          )
    ]

pub full-Covers :
    (ts : List RouteTarget) (bucket : ℕ)
    → weight_sum ts ≡ total_weight
    → bucket < total_weight
    → (t : RouteTarget) × (target_for_bucket 0 ts bucket ≡ some t) × Covers ts bucket t
full-Covers ts bucket full small =
    let (t, found, c) =
      target_for_bucket-Covers 0 ts bucket (omega arith) (omega arith) (omega arith) in
    (t, found, subst (λ n. Covers ts n t) (omega arith) c)
