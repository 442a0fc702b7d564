-- ===== src/Routing.antt =====
-- internal/routing/route.go and the Route of internal/model/route.go that a Gateway carries: the
-- weighted choice of one target. SHA-256 is an argument. A `uint32` sum keeps its wrap-around.
pub mod Bucket
pub mod Select
pub mod Weights
pub mod Selection
pub mod Preimage
pub mod Order
use minicloud.Text.{Str, codes, identifier_pattern, str_eq}
use minicloud.Base.{
  Bool, List, Option, [], contains, if◌then◌else◌, int_eq, is_empty, leb, length, ltb, nat_eq, none,
  not, some, suc, zero, ℕ, ◌!=◌, ◌%◌, ◌&&◌, ◌++◌, ◌+◌, ◌/◌, ◌==◌, ◌^◌, ◌||◌, ◌∷◌,
}
use minicloud.Problem.{Error, Result, err, invalid, ok, require, ◌then_check◌}
use minicloud.Digest.{is_digest}

pub record RouteTarget : Type 0 where
  pub version_id : Str
  pub admission_epoch : ℕ
  pub deployment_generation : ℕ
  pub effective_policy_digest : Str
  pub weight_basis_points : ℕ

pub record ServingRoute : Type 0 where
  pub function_id : Str
  pub route_revision : ℕ
  pub targets : List RouteTarget
  pub hash_version : Str
  pub salt : Str
  pub enabled : Bool

pub record Decision : Type 0 where
  pub digest : Str
  pub bucket : ℕ
  pub target : RouteTarget

abbrev pub total_weight : ℕ
total_weight = 10_000

abbrev pub max_targets : ℕ
max_targets = 32

abbrev pub hash_version_v1 : Str
hash_version_v1 = codes "sha256-bps-v1"

abbrev pub u32 : ℕ → ℕ
u32 n = n % 2 ^ 32

-- The decimal digits of a `uint64`, at most twenty.
digits : ℕ → ℕ → Str
digits zero n = []
digits (suc fuel) n =
    if ltb n 10 then (b'0' + n) ∷ [] else digits fuel (n / 10) ++ ((b'0' + n % 10) ∷ [])

unfoldable pub target_key : RouteTarget → Str
unfolding digits
target_key t = t.version_id ++ (0 ∷ digits 20 t.deployment_generation)

-- The body of the loop of `validateRouteTargets`, before it adds the weight.
unfoldable pub check_target : List Str → RouteTarget → Option Error
unfolding target_key
check_target seen t =
    require (identifier_pattern t.version_id) (invalid "targets" "contains an invalid version_id")
    then_check require (t.admission_epoch != 0 && t.deployment_generation != 0)
        (invalid "targets" "contains a zero epoch or generation")
    then_check require (is_digest t.effective_policy_digest)
        (invalid "targets" "contains an invalid policy digest")
    then_check require (t.weight_basis_points != 0 && leb t.weight_basis_points total_weight)
        (invalid "targets" "contains an invalid weight")
    then_check require (not (contains (target_key t) seen))
        (invalid "targets" "contains a duplicate target")

-- The loop: the keys seen and the `uint32` total.
unfoldable pub total_targets : ℕ → List Str → List RouteTarget → Result ℕ
unfolding check_target
total_targets total seen [] = ok total
total_targets total seen (t ∷ ts) = elim (check_target seen t) [
  | some e ↦ err e
  | none ↦ total_targets (u32 (total + t.weight_basis_points)) (target_key t ∷ seen) ts
]

unfoldable pub validate_route_targets : List RouteTarget → Option Error
unfolding total_targets
validate_route_targets ts = elim (total_targets 0 [] ts) [
  | err e ↦ some e
  | ok total ↦
      require (is_empty ts || total == total_weight)
        (invalid "targets" "weights must total 10000 basis points")
]

unfoldable pub validate_serving_route : ServingRoute → Option Error
unfolding validate_route_targets
validate_serving_route r =
    require (identifier_pattern r.function_id) (invalid "function_id" "must be a valid identifier")
    then_check require (r.route_revision != 0)
        (invalid "route_revision" "must be greater than zero")
    then_check require (leb (length r.targets) max_targets)
        (invalid "targets" "must not contain more than 32 entries")
    then_check require (r.enabled || is_empty r.targets)
        (invalid "targets" "must be empty when the route is disabled")
    then_check require (not r.enabled || not (is_empty r.targets))
        (invalid "targets" "must not be empty when the route is enabled")
    then_check validate_route_targets r.targets
    then_check require (r.hash_version == hash_version_v1)
        (invalid "hash_version" "is not supported")
    then_check require (length r.salt == 16) (invalid "salt" "must contain exactly 128 bits")

-- `binary.BigEndian.PutUint32` and `PutUint64`.
abbrev pub byte : ℕ → ℕ
byte n = n % 256

unfoldable pub put_uint32 : ℕ → Str
put_uint32 n = byte (n / 16777216) ∷ byte (n / 65536) ∷ byte (n / 256) ∷ byte n ∷ []

unfoldable pub put_uint64 : ℕ → Str
unfolding put_uint32
put_uint64 n = put_uint32 (n / 4294967296) ++ put_uint32 n

unfoldable pub hash_fields : ServingRoute → Str → List Str
unfolding put_uint64
hash_fields r affinity_key =
    hash_version_v1 ∷ r.function_id ∷ put_uint64 r.route_revision ∷ r.salt ∷ affinity_key ∷ []

-- The loop over the fields that counts the bytes of the preimage in a `uint64`.
unfoldable pub total_bytes : ℕ → List Str → Result ℕ
total_bytes total [] = ok total
total_bytes total (f ∷ fs) =
    if ltb 4294967295 (length f)
    then err (invalid "route_hash_input" "field exceeds the v1 length-prefix limit")
    else total_bytes ((total + (4 + length f)) % 2 ^ 64) fs

unfoldable pub prefixed : List Str → Str
unfolding put_uint32
prefixed [] = []
prefixed (f ∷ fs) = put_uint32 (u32 (length f)) ++ (f ++ prefixed fs)

unfoldable pub hash_preimage : ServingRoute → Str → Result Str
unfolding hash_fields total_bytes prefixed
hash_preimage r affinity_key = elim (total_bytes 0 (hash_fields r affinity_key)) [
  | err e ↦ err e
  | ok total ↦
      if ltb 9223372036854775807 total
      then err (invalid "route_hash_input" "fields exceed the platform input limit")
      else ok (prefixed (hash_fields r affinity_key))
]
