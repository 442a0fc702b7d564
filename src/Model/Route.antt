-- ===== src/Model/Route.antt =====
-- internal/model/route.go: the persisted Route, its validation and its serving projection.
use minicloud.Base.{
  Bool, List, Option, contains, int_eq, is_empty, leb, length, nat_eq, none, not, refl, some, ℕ,
  ◌!=◌, ◌&&◌, ◌==◌, ◌||◌, ◌≡◌,
}
use minicloud.Text.{Str, all_bytes, codes, identifier_pattern, is_digit, is_lower, is_upper, str_eq}
use minicloud.Problem.{Error, invalid, require, then_check-none, ◌then_check◌}
use minicloud.Model.{Metadata, lifecycle_eq, phase_eq, scaling_mode_eq, version_state_eq}
use minicloud.Model.Validate.{validate_metadata}
use minicloud.Routing.{
  RouteTarget, ServingRoute, hash_version_v1, max_targets, validate_route_targets,
  validate_serving_route,
}

pub data AffinitySource : Type 0 where
  affinity_request_id affinity_idempotency_key affinity_header_source : AffinitySource
  unknown_affinity : Str → AffinitySource

pub record Route : Type 0 where
  pub metadata : Metadata
  pub function_id : Str
  pub route_revision : ℕ
  pub targets : List RouteTarget
  pub affinity : AffinitySource
  pub affinity_header : Str
  pub hash_version : Str
  pub salt_id : Str
  pub salt : Str
  pub enabled : Bool

-- A byte of an HTTP token, the class !#$%&'*+.^_`|~0-9A-Za-z-.
unfoldable pub is_token_byte : ℕ → Bool
is_token_byte c = is_upper c || is_lower c || is_digit c || contains c (codes "!#$%&'*+.^_`|~-")

unfoldable pub http_token_pattern : Str → Bool
unfolding all_bytes is_token_byte
http_token_pattern s = not (is_empty s) && all_bytes is_token_byte s

unfoldable pub validate_affinity : AffinitySource → Str → Option Error
unfolding http_token_pattern
validate_affinity affinity_header_source header =
    require (http_token_pattern header)
      (invalid "affinity_header" "must be a valid HTTP field name")
validate_affinity affinity_request_id header =
    require (is_empty header) (invalid "affinity_header" "is only valid for header affinity")
validate_affinity affinity_idempotency_key header =
    require (is_empty header) (invalid "affinity_header" "is only valid for header affinity")
validate_affinity (unknown_affinity _) header = some (invalid "affinity_source" "is not supported")

unfoldable pub validate_route : Route → Option Error
unfolding validate_metadata validate_route_targets validate_affinity
validate_route r =
    validate_metadata r.metadata
    then_check require (identifier_pattern r.function_id)
        (invalid "function_id" "must be a valid identifier")
    then_check require (r.route_revision != 0)
        (invalid "route_revision" "must be greater than zero")
    then_check require (leb (length r.targets) max_targets)
        (invalid "targets" "must not contain more than 32 entries")
    then_check require (r.enabled || is_empty r.targets)
        (invalid "targets" "must be empty when the route is disabled")
    then_check require (not r.enabled || not (is_empty r.targets))
        (invalid "targets" "must not be empty when the route is enabled")
    then_check validate_route_targets r.targets
    then_check validate_affinity r.affinity r.affinity_header
    then_check require (r.hash_version == hash_version_v1)
        (invalid "hash_version" "is not supported")
    then_check require (identifier_pattern r.salt_id)
        (invalid "salt_id" "must be a valid identifier")
    then_check require (length r.salt == 16) (invalid "salt" "must contain exactly 128 bits")

unfoldable pub validate_core : Route → Option Error
unfolding validate_route
validate_core r =
    validate_route r
    then_check require (not r.enabled || length r.targets == 1)
        (invalid "targets" "core mode requires exactly one target")

unfoldable pub serving_route : Route → ServingRoute
serving_route r = record {
  function_id = r.function_id;
  route_revision = r.route_revision;
  targets = r.targets;
  hash_version = r.hash_version;
  salt = r.salt;
  enabled = r.enabled;
}

-- A valid Route has a valid serving projection.
pub validate-serving_route :
    (r : Route) → validate_route r ≡ none → validate_serving_route (serving_route r) ≡ none
unfolding validate_route validate_serving_route serving_route
validate-serving_route r h =
    let (_, h1) = then_check-none (validate_metadata r.metadata) _ h in
    let (a, h2) = then_check-none (require (identifier_pattern r.function_id) _) _ h1 in
    let (b, h3) = then_check-none (require (r.route_revision != 0) _) _ h2 in
    let (c, h4) = then_check-none (require (leb (length r.targets) max_targets) _) _ h3 in
    let (d, h5) = then_check-none (require (r.enabled || is_empty r.targets) _) _ h4 in
    let (e, h6) = then_check-none (require (not r.enabled || not (is_empty r.targets)) _) _ h5 in
    let (f, h7) = then_check-none (validate_route_targets r.targets) _ h6 in
    let (_, h8) = then_check-none (validate_affinity r.affinity r.affinity_header) _ h7 in
    let (g, h9) = then_check-none (require (r.hash_version == hash_version_v1) _) _ h8 in
    let (_, h10) = then_check-none (require (identifier_pattern r.salt_id) _) _ h9 in
    rw (a, b, c, d, e, f, g, h10) refl
