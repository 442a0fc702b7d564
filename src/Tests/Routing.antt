-- ===== src/Tests/Routing.antt =====
-- Runs of the Route selection.
use minicloud.Text.{Str, codes, str_eq}
use minicloud.Problem.{ok}
use minicloud.Base.{
  Elem, List, String, [], arith, contains, inl, inr, int_eq, nat_eq, none, refl, sort, true, ℕ, ◌<◌,
  ◌∷◌, ◌≡◌,
}
use minicloud.Routing.{
  Decision, RouteTarget, ServingRoute, byte, check_target, hash_fields, hash_preimage,
  hash_version_v1, prefixed, put_uint32, put_uint64, target_key, total_bytes, total_targets,
  total_weight, validate_route_targets, validate_serving_route,
}
use minicloud.Routing.Bucket.{compare_targets, select}
use minicloud.Routing.Selection.{AreBytes, select-Covers}
use minicloud.Routing.Order.{select_order_lem}
use minicloud.Routing.Preimage.{hash_preimage_injective}
use minicloud.Routing.Weights.{Covers}
use minicloud.Tests.Fixtures.{digest, texts}

-- A hash for the runs: the bytes from the last on.
abbrev reversed : Str → Str → Str
reversed [] done = done
reversed (c ∷ s) done = reversed s (byte c ∷ done)

reversed-AreBytes : (s done : Str) → AreBytes done → AreBytes (reversed s done)
reversed-AreBytes [] done h = h
reversed-AreBytes (c ∷ s) done h = reversed-AreBytes s (byte c ∷ done) (omega arith, h)

abbrev hash : Str → Str
hash s = reversed s []

abbrev target : String → ℕ → RouteTarget
target id weight = record {
  version_id = codes id;
  admission_epoch = 1;
  deployment_generation = 2;
  effective_policy_digest = digest;
  weight_basis_points = weight;
}

abbrev listed : List RouteTarget
listed = target "v1" 3000 ∷ target "v2" 7000 ∷ []

abbrev swapped : List RouteTarget
swapped = target "v2" 7000 ∷ target "v1" 3000 ∷ []

abbrev route : ServingRoute
route = record {
  function_id = codes "fn";
  route_revision = 4;
  targets = listed;
  hash_version = hash_version_v1;
  salt = codes "0123456789abcdef";
  enabled = true;
}

abbrev swapped_route : ServingRoute
swapped_route = record route { targets = swapped }

abbrev affinity_key : Str
affinity_key = codes "request-7"

unfoldable runs : Unit {0}
unfolding texts validate_serving_route validate_route_targets total_targets check_target target_key
    contains hash_preimage hash_fields total_bytes prefixed put_uint64 put_uint32
runs = tt

valid_listed : validate_serving_route route ≡ none
unfolding runs
valid_listed = refl

valid_reordered : validate_serving_route swapped_route ≡ none
unfolding runs
valid_reordered = refl

select-Covers_example :
    (d : Decision) × (select hash route affinity_key ≡ ok d)
    × (d.bucket < total_weight)
    × Covers (sort compare_targets listed) d.bucket d.target
select-Covers_example =
    select-Covers hash (λ s. reversed-AreBytes s [] tt) route affinity_key valid_listed refl
      (omega arith)

into_swapped : (t : RouteTarget) → Elem t listed → Elem t swapped
into_swapped t (inl e) = inr (inl e)
into_swapped t (inr (inl e)) = inl e
into_swapped t (inr (inr e)) = elim e [ ]

out_of_swapped : (t : RouteTarget) → Elem t swapped → Elem t listed
out_of_swapped t (inl e) = inr (inl e)
out_of_swapped t (inr (inl e)) = inl e
out_of_swapped t (inr (inr e)) = elim e [ ]

select_order_lem_example : select hash route affinity_key ≡ select hash swapped_route affinity_key
select_order_lem_example =
    select_order_lem hash route swapped affinity_key valid_listed valid_reordered into_swapped
      out_of_swapped

abbrev preimage : Str
preimage = prefixed (hash_fields route affinity_key)

hash_preimage_injective_example :
    (route.function_id ≡ swapped_route.function_id)
    × (route.route_revision ≡ swapped_route.route_revision)
    × (route.salt ≡ swapped_route.salt)
    × (affinity_key ≡ affinity_key)
unfolding runs
hash_preimage_injective_example =
    hash_preimage_injective route swapped_route affinity_key affinity_key preimage (omega arith)
      (omega arith) refl refl
