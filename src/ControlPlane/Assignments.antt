-- ===== src/ControlPlane/Assignments.antt =====
-- internal/controlplane/assignment.go: committed placements and their desired state.
pub mod Counts
pub mod Cases
pub mod Occupancy
use minicloud.Base.{
  Bool, Eq, Map, Option, String, [], after, if◌then◌else◌, insert, int_eq, is_some, leb, length,
  lookup, ltb, nat_eq, none, not, or_zero, some, true, zero, ℕ, ℕ_discrete, ◌!=◌, ◌%◌, ◌&&◌, ◌+◌,
  ◌-◌, ◌==◌, ◌^◌,
}
use minicloud.Text.{Str, Str-discrete, identifier_pattern, str_eq}
use minicloud.ControlPlane.{max_u64, next_u64, revision_mismatch, validate_utc}
use minicloud.Model.{
  Deployment, Function, Time, Version, is_before, lifecycle_active, lifecycle_eq, phase_eq,
  scaling_mode_eq, version_state_eq,
}
use minicloud.Model.Route.{Route}
use minicloud.Routing.{RouteTarget}
use minicloud.Scheduler.{Assignment, drain_eq, intent_eq, state_eq}
use minicloud.Scheduler.Validate.{validate_assignment}
use minicloud.ControlPlane.Catalog.{Catalog, auth_eq}
use minicloud.ControlPlane.Release.{ReleaseStore}
use minicloud.ControlPlane.Routes.{RouteStore, first_target, validate_ready_target}
use minicloud.Problem.{
  Error, Result, classified, conflict, err, invalid, not_found, ok, overloaded, plain, require,
  stale_generation, wrapped, ◌then_check◌,
}
use minicloud.ServingAuth.{
  AssignmentIdentity, connection_eq, fence_eq, identity_eq, mode_eq, normal, session_eq,
}

pub data DesiredState : Type 0 where
  assigned cancelled : DesiredState

unfoldable pub DesiredState-discrete : Discrete DesiredState
DesiredState-discrete = hlevel

instance abbrev pub desired_eq : Eq DesiredState
desired_eq = record { dec = DesiredState-discrete }

pub record AssignmentRecord : Type 0 where
  pub function_id : Str
  pub placement : Assignment
  pub desired_state : DesiredState
  pub created_at : Time
  pub updated_at : Time
  pub created_raft_index : ℕ
  pub last_applied_index : ℕ
  pub resource_revision : ℕ

pub record InstallAssignment : Type 0 where
  pub function_id : Str
  pub placement : Assignment
  pub if_none_match : Bool
  pub expected_scaling_revision : ℕ
  pub applied_index : ℕ
  pub updated_at : Time

pub record CancelAssignment : Type 0 where
  pub assignment_id : Str
  pub expected_resource_revision : ℕ
  pub applied_index : ℕ
  pub updated_at : Time

pub record AssignmentTarget : Type 0 where
  pub function_id : Str
  pub version_id : Str
  pub admission_epoch : ℕ
  pub deployment_generation : ℕ

unfoldable pub AssignmentTarget-discrete : Discrete AssignmentTarget
unfolding Str-discrete
AssignmentTarget-discrete = hlevel (Str-discrete, ℕ_discrete)

instance abbrev pub assignment_target_eq : Eq AssignmentTarget
assignment_target_eq = record { dec = AssignmentTarget-discrete }

pub record AssignmentStore : Type 0 where
  pub max_assignments : ℕ
  pub records : Map Str AssignmentRecord
  pub active_counts : Map AssignmentTarget ℕ

abbrev pub new_assignment_store : AssignmentStore
new_assignment_store = record { max_assignments = 100_000; records = []; active_counts = [] }

unfoldable pub identity_of : AssignmentRecord → AssignmentIdentity
identity_of r = record {
  worker = r.placement.worker;
  assignment_id = r.placement.assignment_id;
  version_id = r.placement.version_id;
  admission_epoch = r.placement.admission_epoch;
  deployment_generation = r.placement.deployment_generation;
  policy_digest = r.placement.policy_digest;
  mode = normal;
}

abbrev pub target_for : Str → RouteTarget → AssignmentTarget
target_for function_id t = record {
  function_id = function_id;
  version_id = t.version_id;
  admission_epoch = t.admission_epoch;
  deployment_generation = t.deployment_generation;
}

abbrev pub target_for_record : AssignmentRecord → AssignmentTarget
target_for_record r = record {
  function_id = r.function_id;
  version_id = r.placement.version_id;
  admission_epoch = r.placement.admission_epoch;
  deployment_generation = r.placement.deployment_generation;
}

abbrev pub wrap_check : String → Option Error → Option Error
wrap_check text none = none
wrap_check text (some e) = some (wrapped text e)

unfoldable pub validate_install_assignment : InstallAssignment → Option Error
unfolding validate_assignment validate_utc
validate_install_assignment c =
    require (identifier_pattern c.function_id) (invalid "function_id" "must be a valid identifier")
    then_check require c.if_none_match
        (invalid "if_none_match" "must be true when creating assignment intent")
    then_check require (c.expected_scaling_revision != 0)
        (invalid "expected_scaling_revision" "must be greater than zero")
    then_check wrap_check "validating assignment placement" (validate_assignment c.placement)
    then_check require (c.applied_index != 0) (invalid "applied_index" "must be greater than zero")
    then_check validate_utc "updated_at" c.updated_at

unfoldable pub validate_cancel_assignment : CancelAssignment → Option Error
unfolding validate_utc
validate_cancel_assignment c =
    require (identifier_pattern c.assignment_id)
      (invalid "assignment_id" "must be a valid identifier")
    then_check require (c.expected_resource_revision != 0)
        (invalid "expected_resource_revision" "must be greater than zero")
    then_check require (c.applied_index != 0) (invalid "applied_index" "must be greater than zero")
    then_check validate_utc "updated_at" c.updated_at

abbrev pub target_matches : Assignment → RouteTarget → Bool
target_matches p t =
    p.version_id == t.version_id
    && p.admission_epoch == t.admission_epoch
    && p.deployment_generation == t.deployment_generation
    && p.policy_digest == t.effective_policy_digest

abbrev pub runtime_matches : Assignment → Version → Deployment → Bool
runtime_matches p v d =
    p.artifact_digest == v.artifact_digest
    && p.artifact_size == v.artifact_size
    && p.abi == v.abi
    && p.host_api == v.host_api_profile
    && p.feature_profile == v.runtime_feature_profile
    && p.memory_mib == d.resource_limits.memory_mib

-- The Route is the current enabled one of the Function.
abbrev pub current_route : Route → Function → Bool
current_route r f = r.enabled && r.route_revision == f.active_route_revision

unfoldable pub placement_guard : ReleaseStore → InstallAssignment → Function → Route → Option Error
unfolding validate_ready_target
placement_guard releases c f r =
    require (current_route r f)
      (classified conflict "assignment function has no current enabled route")
    then_check wrap_check "validating assignment route target" (validate_ready_target releases r f)
    then_check require
        (not (is_before c.updated_at r.metadata.updated_at)
          && ltb r.metadata.created_raft_index c.applied_index)
        (invalid "assignment" "must be committed after the current route")
    then_check require (target_matches c.placement (first_target r.targets))
        (classified stale_generation "assignment does not match the current route target")

-- `validatePlacementLocked`. A checked target has a Version and a Deployment; for a missing one the
-- source would read zero values.
unfoldable pub validate_placement :
    Catalog → ReleaseStore → RouteStore → InstallAssignment → Result (RouteTarget × Deployment)
unfolding placement_guard
validate_placement catalog releases routes c = elim (lookup c.function_id catalog.functions_by_id) [
  | none ↦ err (classified not_found "assignment function was not found")
  | some f ↦
      if f.lifecycle != lifecycle_active
      then err (classified conflict "assignment function is not active")
      else elim (lookup c.function_id routes.routes) [
        | none ↦ err (classified conflict "assignment function has no current enabled route")
        | some r ↦ elim (placement_guard releases c f r) [
          | some e ↦ err e
          | none ↦
              let t = first_target r.targets in
              elim (lookup t.version_id releases.versions) [
                | none ↦ err (plain "unreachable")
                | some v ↦ elim (lookup t.version_id releases.deployments) [
                  | none ↦ err (plain "unreachable")
                  | some d ↦
                      if not (runtime_matches c.placement v d)
                      then err (
                          classified conflict
                            "assignment runtime does not match the admitted policy")
                      else ok (t, d)
                ]
              ]
        ]
      ]
]

unfoldable pub new_record : InstallAssignment → AssignmentRecord
new_record c = record {
  function_id = c.function_id;
  placement = c.placement;
  desired_state = assigned;
  created_at = c.updated_at;
  updated_at = c.updated_at;
  created_raft_index = c.applied_index;
  last_applied_index = c.applied_index;
  resource_revision = 1;
}

abbrev pub active_count : AssignmentStore → AssignmentTarget → ℕ
active_count s t = or_zero (lookup t s.active_counts)

-- The two map writes of `Install`; the count is a `uint32`.
unfoldable pub retain : AssignmentStore → InstallAssignment → AssignmentTarget → AssignmentStore
unfolding new_record
retain s c t = record s {
  records = insert c.placement.assignment_id (new_record c) s.records;
  active_counts = insert t ((active_count s t + 1) % 2 ^ 32) s.active_counts;
}

unfoldable pub install_placed :
    AssignmentStore
    → InstallAssignment
    → RouteTarget
    → Deployment
    → AssignmentStore × Result AssignmentRecord
unfolding retain
install_placed s c t d =
    if c.expected_scaling_revision != d.scaling_revision
    then (
      s,
      err (revision_mismatch "scaling_revision" c.expected_scaling_revision d.scaling_revision),
    )
    else if leb d.desired_replicas (active_count s (target_for c.function_id t))
    then (s, err (classified conflict "deployment desired replica count is already satisfied"))
    else (retain s c (target_for c.function_id t), ok (new_record c))

unfoldable pub install_assignment :
    Catalog
    → ReleaseStore
    → RouteStore
    → AssignmentStore
    → InstallAssignment
    → AssignmentStore × Result AssignmentRecord
unfolding validate_install_assignment validate_placement install_placed
install_assignment catalog releases routes s c = elim (validate_install_assignment c) [
  | some e ↦ (s, err e)
  | none ↦
      if is_some (lookup c.placement.assignment_id s.records)
      then (s, err (classified conflict "assignment id was already used"))
      else if leb s.max_assignments (length s.records)
      then (s, err (classified overloaded "assignment store is full"))
      else elim (validate_placement catalog releases routes c) [
        | err e ↦ (s, err e)
        | ok (t, d) ↦ install_placed s c t d
      ]
]

unfoldable pub cancel_guard : AssignmentStore → CancelAssignment → AssignmentRecord → Option Error
cancel_guard s c r =
    require (r.resource_revision == c.expected_resource_revision)
      (revision_mismatch "resource_revision" c.expected_resource_revision r.resource_revision)
    then_check require (r.desired_state == assigned)
        (classified conflict "assignment is already cancelled")
    then_check require (not (is_before c.updated_at r.updated_at))
        (invalid "updated_at" "must not precede the assignment update time")
    then_check require (ltb r.last_applied_index c.applied_index)
        (invalid "applied_index" "must advance the assignment apply position")
    then_check require (r.resource_revision != max_u64)
        (classified conflict "assignment revision space is exhausted")
    then_check require (active_count s (target_for_record r) != 0)
        (plain "assignment store invariant: active count is missing")

unfoldable pub cancelled_record : AssignmentRecord → CancelAssignment → AssignmentRecord
cancelled_record r c = record r {
  desired_state = cancelled;
  updated_at = c.updated_at;
  last_applied_index = c.applied_index;
  resource_revision = next_u64 r.resource_revision;
}

unfoldable pub withdraw : AssignmentStore → CancelAssignment → AssignmentRecord → AssignmentStore
unfolding cancelled_record
withdraw s c r = record s {
  records = insert c.assignment_id (cancelled_record r c) s.records;
  active_counts =
      insert (target_for_record r) (active_count s (target_for_record r) - 1) s.active_counts;
}

unfoldable pub cancel_assignment :
    AssignmentStore → CancelAssignment → AssignmentStore × Result AssignmentRecord
unfolding validate_cancel_assignment cancel_guard withdraw
cancel_assignment s c = elim (validate_cancel_assignment c) [
  | some e ↦ (s, err e)
  | none ↦ elim (lookup c.assignment_id s.records) [
    | none ↦ (s, err (classified not_found "assignment was not found"))
    | some r ↦ elim (cancel_guard s c r) [
      | some e ↦ (s, err e)
      | none ↦ (withdraw s c r, ok (cancelled_record r c))
    ]
  ]
]

unfoldable pub get_assignment : AssignmentStore → Str → Result AssignmentRecord
get_assignment s id =
    if not (identifier_pattern id)
    then err (invalid "assignment_id" "must be a valid identifier")
    else elim (lookup id s.records) [
      | none ↦ err (classified not_found "assignment was not found")
      | some r ↦ ok r
    ]
