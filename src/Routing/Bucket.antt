-- ===== src/Routing/Bucket.antt =====
-- internal/routing/route.go: the bucket of a hash and the choice of the target.
use minicloud.Text.{Str, str_eq}
use minicloud.Routing.{
  Decision, RouteTarget, ServingRoute, hash_preimage, total_weight, u32, validate_serving_route,
}
use minicloud.Text.Order.{compare_str}
use minicloud.Base.{
  List, Option, Rank, [], if◌then◌else◌, int_eq, ltb, nat_eq, none, not, rank_ℕ, some, sort, suc,
  zero, ℕ, ◌*◌, ◌+◌, ◌/◌, ◌^◌, ◌then_by◌, ◌∷◌,
}
use minicloud.Digest.{sum}
use minicloud.Problem.{Result, classified, err, function_disabled, ok, plain}

-- `binary.BigEndian.Uint64` of the first eight bytes.
unfoldable pub big_endian : ℕ → Str → ℕ → ℕ
big_endian zero s acc = acc
big_endian (suc n) [] acc = acc
big_endian (suc n) (c ∷ s) acc = big_endian n s (acc * 256 + c)

-- The high word of `bits.Mul64`.
unfoldable pub bucket_from_hash : Str → ℕ
unfolding big_endian
bucket_from_hash hash = u32 (big_endian 8 hash 0 * total_weight / 2 ^ 64)

unfoldable pub target_for_bucket : ℕ → List RouteTarget → ℕ → Option RouteTarget
target_for_bucket cumulative [] bucket = none
target_for_bucket cumulative (t ∷ ts) bucket =
    let next = u32 (cumulative + t.weight_basis_points) in
    if ltb bucket next then some t else target_for_bucket next ts bucket

unfoldable pub compare_targets : RouteTarget → RouteTarget → Rank
unfolding compare_str
compare_targets a b =
    compare_str a.version_id b.version_id
    then_by rank_ℕ a.deployment_generation b.deployment_generation

module _ (sha256 : Str → Str) where
  -- `selectServing` with its sorted clone of the targets.
  unfoldable pub select_sorted : List RouteTarget → ServingRoute → Str → Result Decision
  unfolding hash_preimage bucket_from_hash target_for_bucket
  select_sorted targets r affinity_key =
      if not r.enabled
      then err (classified function_disabled "route is disabled")
      else elim (hash_preimage r affinity_key) [
        | err e ↦ err e
        | ok preimage ↦
            let bucket = bucket_from_hash (sha256 preimage) in
            elim (target_for_bucket 0 targets bucket) [
              | none ↦ err (plain "routing: validated target intervals do not cover bucket")
              | some t ↦ ok (record { digest = sum sha256 preimage; bucket = bucket; target = t })
            ]
      ]

  unfoldable pub select_serving : ServingRoute → Str → Result Decision
  unfolding select_sorted compare_targets
  select_serving r affinity_key = select_sorted (sort compare_targets r.targets) r affinity_key

  -- `SelectServing`
  unfoldable pub select : ServingRoute → Str → Result Decision
  unfolding validate_serving_route select_serving
  select r affinity_key = elim (validate_serving_route r) [
    | some e ↦ err e
    | none ↦ select_serving r affinity_key
  ]
