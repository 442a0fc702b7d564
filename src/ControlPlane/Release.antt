-- ===== src/ControlPlane/Release.antt =====
-- internal/controlplane/release.go: Versions, their validation and their first Deployment.
pub mod Methods
pub mod Lifecycle
pub mod Completion
pub mod Invariant
use minicloud.Base.{
  Bool, List, Map, Option, [], contains, false, int_eq, is_some, leb, length, map, nat_eq, none,
  not, pos, some, true, zero, ℕ, ◌!=◌, ◌&&◌, ◌==◌, ◌||◌, ◌∷◌,
}
use minicloud.Text.{Str, identifier_pattern, str_eq, valid_utf8}
use minicloud.Problem.{Error, err, invalid, ok, require, wrapped, ◌then_check◌}
use minicloud.Model.{
  CapabilityRequest, Deployment, Time, Version, deployment_active, is_same_time, lifecycle_eq,
  phase_eq, scaling_manual, scaling_mode_eq, version_state_eq, version_uploaded,
}
use minicloud.Model.Validate.{capability_key, validate_deployment, validate_version}
use minicloud.Model.Policy.{EffectivePolicy, PolicyEncoding, policy_digest}
use minicloud.ValidatorProtocol.{Report, validate_report}
use minicloud.ControlPlane.{validate_utc}
use minicloud.WasmProfile.{engine_compiler, feature_profile}

pub record CreateVersion : Type 0 where
  pub if_none_match : Bool
  pub applied_index : ℕ
  pub version : Version

pub record StartValidation : Type 0 where
  pub version_id : Str
  pub expected_resource_revision : ℕ
  pub validation_id : Str
  pub updated_at : Time
  pub applied_index : ℕ

pub record CompleteValidation : Type 0 where
  pub version_id : Str
  pub expected_resource_revision : ℕ
  pub report : Report
  pub deployment : Option Deployment
  pub updated_at : Time
  pub applied_index : ℕ

pub record ReleaseStore : Type 0 where
  pub versions : Map Str Version
  pub version_count_by_func : Map Str ℕ
  pub validation_id_by_version : Map Str Str
  pub deployments : Map Str Deployment

abbrev pub new_release_store : ReleaseStore
new_release_store = record {
  versions = [];
  version_count_by_func = [];
  validation_id_by_version = [];
  deployments = [];
}

abbrev pub max_versions_per_function : ℕ
max_versions_per_function = 100

abbrev pub max_operation_message : ℕ
max_operation_message = 512

unfoldable pub validate_create_version : CreateVersion → Option Error
unfolding validate_version
validate_create_version c =
    require c.if_none_match (invalid "if_none_match" "is required when creating a version")
    then_check require (c.applied_index != 0) (invalid "applied_index" "must be greater than zero")
    then_check validate_version c.version
    then_check require
        (c.version.state == version_uploaded && not (is_some c.version.validation_error))
        (invalid "state" "new version must be Uploaded without a validation error")
    then_check require
        (c.version.metadata.id == c.version.version_id && c.version.admission_epoch == 1)
        (invalid "version" "new version id must match version id with admission epoch one")
    then_check require (c.version.runtime_feature_profile == feature_profile)
        (invalid "runtime_feature_profile" "must use the fixed v1 feature profile")
    then_check require
        (c.version.metadata.created_raft_index == c.applied_index
          && c.version.metadata.resource_revision == 1)
        (invalid "version" "must be created at this applied index with resource revision one")

unfoldable pub validate_start_validation : StartValidation → Option Error
unfolding validate_utc
validate_start_validation c =
    require (identifier_pattern c.version_id && identifier_pattern c.validation_id)
      (invalid "validation" "version id and validation id must be valid identifiers")
    then_check require (c.expected_resource_revision != 0 && c.applied_index != 0) (
        invalid "revision" "expected resource revision and applied index must be greater than zero")
    then_check validate_utc "updated_at" c.updated_at

abbrev pub passes : Option Error → Bool
passes none = true
passes (some _) = false

unfoldable pub validate_complete_validation : CompleteValidation → Option Error
unfolding validate_utc validate_report
validate_complete_validation c =
    require
      (identifier_pattern c.version_id && c.expected_resource_revision != 0 && c.applied_index != 0)
      (invalid "validation" "version id, expected revision, and applied index are required")
    then_check validate_utc "updated_at" c.updated_at
    then_check require (passes (validate_report c.report))
        (invalid "report" "must be a valid validator report")
    then_check require (not c.report.valid || is_some c.deployment)
        (invalid "deployment" "is required for a successful validation")
    then_check require (c.report.valid || not (is_some c.deployment))
        (invalid "deployment" "is not allowed for a failed validation")

unfoldable pub validate_report_for_version : Report → Version → Option Error
validate_report_for_version r v =
    require
      (r.artifact_digest == v.artifact_digest
        && r.artifact_size == v.artifact_size
        && r.runtime_feature_profile == v.runtime_feature_profile)
      (invalid "report" "does not match immutable version artifact or runtime profile")
    then_check require (r.runtime_engine == engine_compiler)
        (invalid "report.runtime_engine" "must use the fixed Local Core compiler engine")
    then_check require
        (r.valid || (valid_utf8 r.message && leb (length r.message) max_operation_message))
        (invalid "report.message" "must be safe UTF-8 within 512 bytes")

unfoldable pub capabilities_subset : List CapabilityRequest → List CapabilityRequest → Bool
capabilities_subset [] requested = true
capabilities_subset (c ∷ cs) requested =
    contains (capability_key c) (map capability_key requested) && capabilities_subset cs requested

-- The deployment grants what the version asked for.
unfoldable pub exact_limits : Deployment → Version → Bool
exact_limits d v =
    d.resource_limits.timeout == v.resource_request.timeout
    && d.resource_limits.memory_mib == v.resource_request.memory_mib
    && d.resource_limits.max_input_bytes == v.resource_request.max_input_bytes
    && d.resource_limits.max_output_bytes == v.resource_request.max_output_bytes
    && d.resource_limits.max_log_bytes == pos 262_144

-- The fixed policy of generation one.
unfoldable pub is_generation_one : Deployment → Version → ℕ → Time → Bool
unfolding exact_limits
is_generation_one d v applied_index updated_at =
    d.version_id == v.version_id
    && d.generation == 1
    && d.scaling_revision == 1
    && d.metadata.created_raft_index == applied_index
    && d.metadata.resource_revision == 1
    && is_same_time d.metadata.created_at updated_at
    && is_same_time d.metadata.updated_at updated_at
    && exact_limits d v
    && d.min_replicas == 1
    && d.max_replicas == 1
    && d.desired_replicas == 1
    && d.ready_replicas == 0
    && d.target_concurrency == v.resource_request.max_concurrency
    && d.scaling_mode == scaling_manual
    && d.idle_timeout == pos 0
    && d.desired_phase == deployment_active

unfoldable pub initial_policy : Deployment → Version → EffectivePolicy
initial_policy d v = record {
  version_id = v.version_id;
  admission_epoch = v.admission_epoch;
  deployment_generation = d.generation;
  artifact_digest = v.artifact_digest;
  artifact_size = v.artifact_size;
  abi = v.abi;
  host_api_profile = v.host_api_profile;
  runtime_feature_profile = v.runtime_feature_profile;
  resource_limits = d.resource_limits;
  max_concurrency = v.resource_request.max_concurrency;
  granted_capabilities = d.granted_capabilities;
}

unfoldable pub check_policy_digest : PolicyEncoding → Deployment → Version → Option Error
unfolding initial_policy policy_digest
check_policy_digest enc d v = elim (policy_digest enc (initial_policy d v)) [
  | err e ↦ some (wrapped "calculating initial effective policy" e)
  | ok expected ↦ require (d.effective_policy_digest == expected) (
      invalid "deployment.effective_policy_digest" "does not match generation one effective policy")
]

unfoldable pub validate_initial_deployment :
    PolicyEncoding → Deployment → Version → ℕ → Time → Option Error
unfolding validate_deployment is_generation_one capabilities_subset check_policy_digest
validate_initial_deployment enc d v applied_index updated_at =
    validate_deployment d
    then_check require (is_generation_one d v applied_index updated_at)
        (invalid "deployment" "must be the fixed Local Core generation one policy")
    then_check require (capabilities_subset d.granted_capabilities v.requested_capabilities)
        (invalid "deployment.granted_capabilities" "must be requested by the version")
    then_check check_policy_digest enc d v
