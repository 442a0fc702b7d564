-- ===== src/Routing/Order.antt =====
-- The order in which a valid Route lists its targets does not matter.
use minicloud.Text.{Str, str_eq}
use minicloud.Problem.{Result-cases, ok}
use minicloud.Routing.{
  RouteTarget, ServingRoute, check_target, hash_fields, hash_preimage, target_key, total_targets,
  u32, validate_route_targets, validate_serving_route,
}
use minicloud.Routing.Bucket.{compare_targets, select, select_serving, select_sorted}
use minicloud.Text.Order.{compare_str, compare_str-IsRanking, compare_str-same}
use minicloud.Base.{
  Any, Elem, IsRanking, IsUntied, List, [], ap, arith, contains, false, inl, inr, int_eq, nat_eq,
  none, on-IsRanking, rank_ℕ, refl, same, sort, sort_unique, then-IsRanking, ℕ, ℕ-IsRanking, ◌+◌,
  ◌∷◌, ◌≡◌,
}

compare_targets-IsRanking : IsRanking Any compare_targets
unfolding compare_targets
compare_targets-IsRanking =
    then-IsRanking (on-IsRanking Any (λ t. t.version_id) compare_str-IsRanking)
      (on-IsRanking Any (λ t. t.deployment_generation) ℕ-IsRanking)

-- Targets that tie have the same key.
tie_key : (t u : RouteTarget) → compare_targets t u ≡ same → target_key t ≡ target_key u
unfolding compare_targets target_key
tie_key t u h =
    let (first, rest) : (compare_str t.version_id u.version_id ≡ same)
        × (rank_ℕ t.deployment_generation u.deployment_generation ≡ same) =
      ground arith in
    let versions = compare_str-same t.version_id u.version_id first in
    let generations : t.deployment_generation ≡ u.deployment_generation = ground arith in
    rw (versions, generations) refl

fresh_keys :
    (total : ℕ) (seen : List Str) (ts : List RouteTarget) {out : ℕ}
    → total_targets total seen ts ≡ ok out
    → (u : RouteTarget) → Elem u ts
    → contains (target_key u) seen ≡ false
unfolding total_targets check_target contains
fresh_keys total seen [] h u m = elim m [ ]
fresh_keys total seen (t ∷ ts) {out} h u (inl e) = rw e (ground arith)
fresh_keys total seen (t ∷ ts) {out} h u (inr m) =
    let rest : total_targets (u32 (total + t.weight_basis_points)) (target_key t ∷ seen) ts
        ≡ ok out =
      ground arith in
    let later =
      fresh_keys (u32 (total + t.weight_basis_points)) (target_key t ∷ seen) ts rest u m in
    ground arith

total_targets-IsUntied :
    (total : ℕ) (seen : List Str) (ts : List RouteTarget) {out : ℕ}
    → total_targets total seen ts ≡ ok out
    → IsUntied compare_targets ts
unfolding total_targets contains
total_targets-IsUntied total seen [] h = tt
total_targets-IsUntied total seen (t ∷ ts) {out} h =
    let rest : total_targets (u32 (total + t.weight_basis_points)) (target_key t ∷ seen) ts
        ≡ ok out =
      ground arith in
    (
      λ u m tie.
          let later =
            fresh_keys (u32 (total + t.weight_basis_points)) (target_key t ∷ seen) ts rest u m in
          ground (arith, tie_key t u tie),
      total_targets-IsUntied (u32 (total + t.weight_basis_points)) (target_key t ∷ seen) ts rest,
    )

valid-IsUntied :
    (r : ServingRoute) → validate_serving_route r ≡ none → IsUntied compare_targets r.targets
unfolding validate_serving_route validate_route_targets
valid-IsUntied r valid = elim (Result-cases (total_targets 0 [] r.targets)) [
  | inl (e, failed) ↦ ground arith
  | inr (out, passed) ↦ total_targets-IsUntied 0 [] r.targets passed
]

module _ (sha256 : Str → Str) where
  -- Two valid Routes that differ only in the order of their targets select alike for every key.
  pub select_order_lem :
      (r : ServingRoute) (listed : List RouteTarget) (affinity_key : Str)
      → validate_serving_route r ≡ none
      → validate_serving_route (record r { targets = listed }) ≡ none
      → ((t : RouteTarget) → Elem t r.targets → Elem t listed)
      → ((t : RouteTarget) → Elem t listed → Elem t r.targets)
      → select sha256 r affinity_key ≡ select sha256 (record r { targets = listed }) affinity_key
  unfolding select select_serving select_sorted hash_preimage hash_fields
  select_order_lem r listed affinity_key valid_r valid_s to from =
      let sorted : sort compare_targets r.targets ≡ sort compare_targets listed =
        sort_unique compare_targets compare_targets-IsRanking r.targets listed
          (valid-IsUntied r valid_r) (valid-IsUntied (record r { targets = listed }) valid_s) to
          from in
      rw (select, valid_r, valid_s) (ap (λ ts. select_sorted sha256 ts r affinity_key) sorted)
