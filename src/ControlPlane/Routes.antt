-- ===== src/ControlPlane/Routes.antt =====
-- internal/controlplane/route.go: the current Route of each Function, and the serving view.
pub mod Serving
pub mod Invariant
use minicloud.Base.{
  Bool, List, Map, Option, [], contains, false, if◌then◌else◌, insert, int_eq, lookup, nat_eq, none,
  not, some, zero, ℕ, ◌!=◌, ◌&&◌, ◌==◌, ◌||◌, ◌∷◌,
}
use minicloud.Text.{Str, identifier_pattern, str_eq}
use minicloud.ControlPlane.{max_u64, next_u64, revision_mismatch, validate_utc}
use minicloud.Model.{
  Deployment, Function, Time, Version, deployment_active, is_before, is_same_time, lifecycle_active,
  lifecycle_eq, phase_eq, scaling_mode_eq, version_ready, version_state_eq,
}
use minicloud.Model.Validate.{validate_function}
use minicloud.Model.Route.{Route, validate_core}
use minicloud.Routing.{RouteTarget}
use minicloud.ControlPlane.Catalog.{Catalog, auth_eq}
use minicloud.ControlPlane.Catalog.Methods.{update_function}
use minicloud.ControlPlane.Release.{ReleaseStore}
use minicloud.Problem.{
  Error, Result, classified, conflict, err, invalid, not_found, ok, require, ◌then_check◌,
}

pub record PublishRoute : Type 0 where
  pub function_id : Str
  pub expected_active_route_revision : ℕ
  pub route : Route
  pub updated_at : Time
  pub applied_index : ℕ

-- `route_ids` is the Go set of the Route IDs ever used.
pub record RouteStore : Type 0 where
  pub routes : Map Str Route
  pub route_ids : List Str

abbrev pub new_route_store : RouteStore
new_route_store = record { routes = []; route_ids = [] }

unfoldable pub validate_publish_route : PublishRoute → Option Error
unfolding validate_utc validate_core
validate_publish_route c =
    require (identifier_pattern c.function_id && c.route.function_id == c.function_id)
      (invalid "function_id" "must match a valid route function id")
    then_check require (c.applied_index != 0) (invalid "applied_index" "must be greater than zero")
    then_check validate_utc "updated_at" c.updated_at
    then_check validate_core c.route
    then_check require
        (c.route.metadata.created_raft_index == c.applied_index
          && c.route.metadata.resource_revision == 1
          && is_same_time c.route.metadata.created_at c.updated_at
          && is_same_time c.route.metadata.updated_at c.updated_at)
        (invalid "route" "must be a new immutable snapshot from this command")

abbrev pub zero_target : RouteTarget
zero_target = record {
  version_id = [];
  admission_epoch = 0;
  deployment_generation = 0;
  effective_policy_digest = [];
  weight_basis_points = 0;
}

-- `route.Targets[0]` of a Route with a target; an index out of range would panic.
abbrev pub first_target : List RouteTarget → RouteTarget
first_target [] = zero_target
first_target (t ∷ ts) = t

abbrev pub version_matches : Option Version → RouteTarget → Str → Bool
version_matches none t function_id = false
version_matches (some v) t function_id =
    v.function_id == function_id
    && v.state == version_ready
    && v.admission_epoch == t.admission_epoch

abbrev pub deployment_matches : Option Deployment → RouteTarget → Bool
deployment_matches none t = false
deployment_matches (some d) t =
    d.generation == t.deployment_generation
    && d.desired_phase == deployment_active
    && d.effective_policy_digest == t.effective_policy_digest

unfoldable pub validate_ready_target : ReleaseStore → Route → Function → Option Error
validate_ready_target s r f =
    let t = first_target r.targets in
    require (version_matches (lookup t.version_id s.versions) t f.metadata.id)
      (classified conflict "route target is not a ready version for this function")
    then_check require (deployment_matches (lookup t.version_id s.deployments) t)
        (classified conflict "route target does not match an active deployment policy")

-- The checks on the Function of the command, under the three mutexes.
unfoldable pub publish_guard : ReleaseStore → RouteStore → PublishRoute → Function → Option Error
unfolding validate_ready_target
publish_guard releases s c f =
    require (c.expected_active_route_revision == f.active_route_revision) (
      revision_mismatch "active_route_revision" c.expected_active_route_revision
        f.active_route_revision)
    then_check require
        (f.active_route_revision != max_u64 && f.metadata.resource_revision != max_u64)
        (classified conflict "function revision space is exhausted")
    then_check require (c.route.route_revision == next_u64 f.active_route_revision)
        (invalid "route.route_revision" "must advance the active route revision by one")
    then_check require (not (is_before c.updated_at f.metadata.updated_at))
        (invalid "updated_at" "must not precede the current function update time")
    then_check require (not (contains c.route.metadata.id s.route_ids))
        (classified conflict "route id was already used")
    then_check require (not c.route.enabled || f.lifecycle == lifecycle_active)
        (classified conflict "only an active function may publish an enabled route")
    then_check (if c.route.enabled then validate_ready_target releases c.route f else none)

unfoldable pub with_route : Function → PublishRoute → Function
with_route f c = record f {
  active_route_revision = c.route.route_revision;
  metadata = record (f.metadata) {
    updated_at = c.updated_at;
    resource_revision = next_u64 f.metadata.resource_revision;
  };
}

unfoldable pub add_route : RouteStore → Str → Route → RouteStore
add_route s function_id r = record {
  routes = insert function_id r s.routes;
  route_ids = r.metadata.id ∷ s.route_ids;
}

-- The new Catalog and RouteStore; the ReleaseStore is only read.
unfoldable pub publish :
    Catalog
    → ReleaseStore
    → RouteStore
    → PublishRoute
    → Catalog × RouteStore × Result (Route × Function)
unfolding validate_publish_route publish_guard with_route validate_function update_function
    add_route
publish catalog releases s c = elim (validate_publish_route c) [
  | some e ↦ (catalog, s, err e)
  | none ↦ elim (lookup c.function_id catalog.functions_by_id) [
    | none ↦ (catalog, s, err (classified not_found "function was not found"))
    | some f ↦ elim (publish_guard releases s c f) [
      | some e ↦ (catalog, s, err e)
      | none ↦ elim (validate_function (with_route f c)) [
        | some e ↦ (catalog, s, err e)
        | none ↦ (
          update_function catalog (with_route f c),
          add_route s f.metadata.id c.route,
          ok (c.route, with_route f c),
        )
      ]
    ]
  ]
]

-- `RouteStore.Get`
unfoldable pub get_route : RouteStore → Str → Result Route
get_route s id =
    if not (identifier_pattern id)
    then err (invalid "function_id" "must be a valid identifier")
    else elim (lookup id s.routes) [
      | none ↦ err (classified not_found "route was not found")
      | some r ↦ ok r
    ]
