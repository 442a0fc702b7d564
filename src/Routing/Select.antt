-- ===== src/Routing/Select.antt =====
-- internal/routing/route.go: `Select` on the persisted Route.
use minicloud.Base.{
  Bool-cases, [], arith, false, inl, inr, int_eq, length, nat_eq, none, refl, some, sort, true, ◌<◌,
  ◌^◌, ◌∙◌, ◌∷◌, ◌≡◌, ◌⊎◌,
}
use minicloud.Routing.Selection.{AreBytes, hash_preimage_succeeds, select-Covers}
use minicloud.Routing.Weights.{Covers}
use minicloud.Digest.{sum}
use minicloud.Text.{Str, str_eq}
use minicloud.Problem.{Error, Result, classified, err, function_disabled, ok}
use minicloud.Routing.{
  Decision, ServingRoute, hash_fields, hash_preimage, hash_version_v1, prefixed, put_uint64,
  total_weight, validate_serving_route,
}
use minicloud.Model.Route.{Route, serving_route, validate-serving_route, validate_route}
use minicloud.Routing.Bucket.{
  bucket_from_hash, compare_targets, select, select_serving, select_sorted,
}

abbrev pub disabled_error : Error
disabled_error = classified function_disabled "route is disabled"

module _ (sha256 : Str → Str) where
  unfoldable pub select_route : Route → Str → Result Decision
  unfolding validate_route select_serving
  select_route r affinity_key = elim (validate_route r) [
    | some e ↦ err e
    | none ↦ select_serving sha256 (serving_route r) affinity_key
  ]

  select-serving_route :
      (r : Route) (affinity_key : Str)
      → validate_route r ≡ none
      → select_route r affinity_key ≡ select sha256 (serving_route r) affinity_key
  unfolding select_route select
  select-serving_route r affinity_key h =
      rw (select_route, select, h, validate-serving_route r h) refl

  -- The bytes that the choice hashes, from the persisted Route.
  abbrev pub preimage_of : Route → Str → Str
  preimage_of r affinity_key =
      prefixed
        (hash_version_v1 ∷ r.function_id ∷ put_uint64 r.route_revision ∷ r.salt ∷ affinity_key ∷ [])

  -- The decision that the persisted Route stands for: the bucket of its own hash, and the target
  -- whose interval of its own weights holds the bucket.
  pub record IsDecision (r : Route) (affinity_key : Str) (d : Decision) : Type 0 where
    pub digest_of_route : d.digest ≡ sum sha256 (preimage_of r affinity_key)
    pub bucket_of_route : d.bucket ≡ bucket_from_hash (sha256 (preimage_of r affinity_key))
    pub bucket_bound : d.bucket < total_weight
    pub target_of_route : Covers (sort compare_targets r.targets) d.bucket d.target

  select-parts :
      (r : ServingRoute) (affinity_key preimage : Str) (d : Decision)
      → hash_preimage r affinity_key ≡ ok preimage
      → select sha256 r affinity_key ≡ ok d
      → (d.digest ≡ sum sha256 preimage) × (d.bucket ≡ bucket_from_hash (sha256 preimage))
  unfolding select select_serving select_sorted
  select-parts r affinity_key preimage d made h = ground arith

  select-disabled :
      (r : ServingRoute) (affinity_key : Str)
      → validate_serving_route r ≡ none
      → r.enabled ≡ false
      → select sha256 r affinity_key ≡ err disabled_error
  unfolding select select_serving select_sorted
  select-disabled r affinity_key valid off = ground arith

  -- Whatever bytes the hash yields, the control plane on a valid Route and a Gateway on its serving
  -- projection answer an affinity key below 4 GiB alike: for an enabled Route with the decision that
  -- its own Function ID, revision, salt and weights determine, for a disabled one with the error that
  -- says so.
  pub select_route_agrees :
      (bytes : (s : Str) → AreBytes (sha256 s)) (r : Route) (affinity_key : Str)
      → validate_route r ≡ none
      → length affinity_key < 2 ^ 32
      → ((r.enabled ≡ true)
          × ((d : Decision) × IsDecision r affinity_key d
              × (select_route r affinity_key ≡ ok d)
              × (select sha256 (serving_route r) affinity_key ≡ ok d)))
        ⊎ ((r.enabled ≡ false)
            × (select_route r affinity_key ≡ err disabled_error)
            × (select sha256 (serving_route r) affinity_key ≡ err disabled_error))
  unfolding serving_route hash_fields
  select_route_agrees bytes r affinity_key h short =
      let valid = validate-serving_route r h in
      let agree = select-serving_route r affinity_key h in
      elim (Bool-cases r.enabled) [
        | inl on ↦
            let (d, chosen, small, covered) =
              select-Covers sha256 bytes (serving_route r) affinity_key valid on short in
            let (digest, bucket) =
              select-parts (serving_route r) affinity_key (preimage_of r affinity_key) d
                (hash_preimage_succeeds (serving_route r) affinity_key valid short) chosen in
            inl (
              on,
              (
                d,
                record {
                  digest_of_route = digest;
                  bucket_of_route = bucket;
                  bucket_bound = small;
                  target_of_route = covered;
                },
                agree ∙ chosen,
                chosen,
              ),
            )
        | inr off ↦
            let refused = select-disabled (serving_route r) affinity_key valid off in
            inr (off, agree ∙ refused, refused)
      ]
