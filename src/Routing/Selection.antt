-- ===== src/Routing/Selection.antt =====
-- A valid enabled Route always yields a target, the one whose interval holds the bucket.
use minicloud.Base.{
  All, [], arith, int_eq, length, nat_eq, none, sort, suc, true, zero, ℕ, ◌*◌, ◌+◌, ◌<◌, ◌^◌, ◌∙◌,
  ◌∷◌, ◌≡◌, ◌≤◌,
}
use minicloud.Text.{Str, identifier_pattern, str_eq}
use minicloud.Problem.{ok}
use minicloud.Digest.{sum}
use minicloud.Routing.{
  Decision, ServingRoute, hash_fields, hash_preimage, prefixed, put_uint32, put_uint64, total_bytes,
  total_weight, validate_serving_route,
}
use minicloud.Routing.Bucket.{
  big_endian, bucket_from_hash, compare_targets, select, select_serving, select_sorted,
}
use minicloud.Routing.Weights.{Covers, full-Covers, valid_weight_sum, weight_sum-sort}

-- The bound of a big-endian number whose first bytes are below `k`.
abbrev scale : ℕ → ℕ → ℕ
scale zero k = k
scale (suc n) k = scale n (k * 256)

scale_grows : (n k : ℕ) → k ≤ scale n k
scale_grows zero k = omega arith
scale_grows (suc n) k = omega (arith, scale_grows n (k * 256))

abbrev pub AreBytes : Str → Type 0
AreBytes s = All (λ c. c < 256) s

big_endian_bound :
    (n : ℕ) (s : Str) (acc k : ℕ) → AreBytes s → acc < k → big_endian n s acc < scale n k
unfolding big_endian
big_endian_bound zero s acc k h less = less
big_endian_bound (suc n) [] acc k h less = omega (arith, scale_grows (suc n) k)
big_endian_bound (suc n) (c ∷ s) acc k (byte_c, h) less =
    big_endian_bound n s (acc * 256 + c) (k * 256) h (omega arith)

pub bucket_from_hash_bound : (hash : Str) → AreBytes hash → bucket_from_hash hash < total_weight
unfolding bucket_from_hash
bucket_from_hash_bound hash h =
    let word : big_endian 8 hash 0 < 18446744073709551616 =
      big_endian_bound 8 hash 0 1 h (omega arith) in
    omega arith

pub hash_preimage_succeeds :
    (r : ServingRoute) (affinity_key : Str)
    → validate_serving_route r ≡ none
    → length affinity_key < 2 ^ 32
    → hash_preimage r affinity_key ≡ ok (prefixed (hash_fields r affinity_key))
unfolding hash_preimage validate_serving_route identifier_pattern total_bytes hash_fields put_uint64
    put_uint32
hash_preimage_succeeds r affinity_key valid short = ground arith

module _ (sha256 : Str → Str) (bytes : (s : Str) → AreBytes (sha256 s)) where
  -- Whatever bytes the hash yields, a valid enabled Route and an affinity key below 4 GiB select a
  -- target: the bucket is below 10000, and it lies in the interval that the weights of the sorted
  -- targets give to the target.
  pub select-Covers :
      (r : ServingRoute) (affinity_key : Str)
      → validate_serving_route r ≡ none
      → r.enabled ≡ true
      → length affinity_key < 2 ^ 32
      → (d : Decision) × (select sha256 r affinity_key ≡ ok d)
        × (d.bucket < total_weight)
        × Covers (sort compare_targets r.targets) d.bucket d.target
  unfolding select select_serving select_sorted
  select-Covers r affinity_key valid on short =
      let preimage = prefixed (hash_fields r affinity_key) in
      let made : hash_preimage r affinity_key ≡ ok preimage =
        hash_preimage_succeeds r affinity_key valid short in
      let bucket = bucket_from_hash (sha256 preimage) in
      let small : bucket < total_weight =
        bucket_from_hash_bound (sha256 preimage) (bytes preimage) in
      let (t, found, c) =
        full-Covers (sort compare_targets r.targets) bucket
          (weight_sum-sort compare_targets r.targets ∙ valid_weight_sum r valid on) small in
      (
        record { digest = sum sha256 preimage; bucket = bucket; target = t },
        ground (arith, valid, on, made, found),
        small,
        c,
      )
