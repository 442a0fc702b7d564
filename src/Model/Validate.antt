-- ===== src/Model/Validate.antt =====
-- internal/model: the validation of metadata, Functions, Versions and Deployments. A range over a map
-- goes through the entries in the order of the list.
use minicloud.Base.{
  Bool, List, Map, Option, [], contains, false, int_eq, is_empty, leb, leb_ℤ, length, ltb_ℤ, nat_eq,
  none, not, pos, some, true, ℕ, ◌!=◌, ◌&&◌, ◌*◌, ◌++◌, ◌==◌, ◌||◌, ◌∷◌,
}
use minicloud.Model.{
  CapabilityRequest, Deployment, DeploymentPhase, Function, FunctionLifecycle, Metadata,
  ResourceLimits, ResourceRequest, SafeError, ScalingMode, Version, VersionState, is_before, is_utc,
  is_zero_time, lifecycle_eq, phase_eq, scaling_mode_eq, unknown_deployment_phase,
  unknown_function_lifecycle, unknown_scaling_mode, unknown_version_state, version_failed,
  version_state_eq,
}
use minicloud.Digest.{is_digest}
use minicloud.WasmProfile.{abi_wasi_command_v1, host_api_profile_none, max_artifact_bytes}
use minicloud.Text.{
  Str, all_bytes, codes, identifier_pattern, is_digit, is_lower, label_key_pattern, str_eq,
  valid_utf8,
}
use minicloud.Problem.{Code, Error, invalid, known, other, require, ◌then_check◌}

abbrev pub default_namespace : Str
default_namespace = codes "default"

abbrev pub second_ns : ℕ
second_ns = 1_000_000_000

unfoldable pub validate_metadata : Metadata → Option Error
unfolding is_utc
validate_metadata m =
    require (identifier_pattern m.id) (invalid "id" "must contain 1 to 128 allowed characters")
    then_check require (m.namespace == default_namespace)
        (invalid "namespace" "only default is supported in v1")
    then_check require (not (is_zero_time m.created_at)) (invalid "created_at" "is required")
    then_check require (is_utc m.created_at) (invalid "created_at" "must use UTC")
    then_check require (not (is_zero_time m.updated_at)) (invalid "updated_at" "is required")
    then_check require (is_utc m.updated_at) (invalid "updated_at" "must use UTC")
    then_check require (not (is_before m.updated_at m.created_at))
        (invalid "updated_at" "must not precede created_at")
    then_check require (m.created_raft_index != 0)
        (invalid "created_raft_index" "must be greater than zero")
    then_check require (m.resource_revision != 0)
        (invalid "resource_revision" "must be greater than zero")

-- A byte of the class `[a-z0-9-]`.
unfoldable pub is_name_byte : ℕ → Bool
is_name_byte c = is_lower c || is_digit c || c == b'-'

-- `^[a-z][a-z0-9-]{0,62}$`
unfoldable pub function_name_pattern : Str → Bool
unfolding all_bytes is_name_byte
function_name_pattern [] = false
function_name_pattern (c ∷ s) = is_lower c && leb (length s) 62 && all_bytes is_name_byte s

unfoldable pub validate_labels : Map Str Str → Option Error
validate_labels [] = none
validate_labels ((key, value) ∷ m) =
    require (label_key_pattern key) (invalid "labels" "contains an invalid key")
    then_check require (valid_utf8 value)
        (invalid "labels" "contains a value that is not valid UTF-8")
    then_check require (leb (length value) 256)
        (invalid "labels" "contains a value longer than 256 bytes")
    then_check validate_labels m

unfoldable pub lifecycle_valid : FunctionLifecycle → Bool
lifecycle_valid (unknown_function_lifecycle _) = false
lifecycle_valid _ = true

unfoldable pub validate_function : Function → Option Error
unfolding validate_metadata function_name_pattern validate_labels lifecycle_valid
validate_function f =
    validate_metadata f.metadata
    then_check require (function_name_pattern f.name)
        (invalid "name" "must match the function name syntax")
    then_check require (valid_utf8 f.description) (invalid "description" "must be valid UTF-8")
    then_check require (leb (length f.description) 512)
        (invalid "description" "must not exceed 512 bytes")
    then_check require (leb (length f.labels) 32)
        (invalid "labels" "must not contain more than 32 entries")
    then_check validate_labels f.labels
    then_check require (lifecycle_valid f.lifecycle)
        (invalid "lifecycle" "is not a supported function lifecycle")

unfoldable pub validate_resource_request : ResourceRequest → Option Error
validate_resource_request r =
    require (ltb_ℤ (pos 0) r.timeout && leb_ℤ r.timeout (pos (30 * second_ns)))
      (invalid "resource_request.timeout" "must be between zero and 30 seconds")
    then_check require
        (r.memory_mib == 64 || r.memory_mib == 128 || r.memory_mib == 256 || r.memory_mib == 512)
        (invalid "resource_request.memory_mib" "must be one of 64, 128, 256, or 512")
    then_check require (r.max_concurrency != 0)
        (invalid "resource_request.max_concurrency" "must be greater than zero")
    then_check require (ltb_ℤ (pos 0) r.max_input_bytes && leb_ℤ r.max_input_bytes (pos 1_048_576))
        (invalid "resource_request.max_input_bytes" "must be within 1 MiB")
    then_check require
        (ltb_ℤ (pos 0) r.max_output_bytes && leb_ℤ r.max_output_bytes (pos 1_048_576))
        (invalid "resource_request.max_output_bytes" "must be within 1 MiB")

abbrev pub capability_key : CapabilityRequest → Str
capability_key c = c.name ++ (0 ∷ c.version)

-- The loop of `validateCapabilities`, with the keys seen.
unfoldable pub check_capabilities : List Str → List CapabilityRequest → Option Error
check_capabilities seen [] = none
check_capabilities seen (c ∷ cs) =
    require (label_key_pattern c.name && not (is_empty c.version))
      (invalid "requested_capabilities" "contains an invalid capability")
    then_check require (not (contains (capability_key c) seen))
        (invalid "requested_capabilities" "contains a duplicate capability")
    then_check check_capabilities (capability_key c ∷ seen) cs

unfoldable pub validate_capabilities : List CapabilityRequest → Option Error
unfolding check_capabilities
validate_capabilities cs = check_capabilities [] cs

unfoldable pub version_state_valid : VersionState → Bool
version_state_valid (unknown_version_state _) = false
version_state_valid _ = true

-- `code == ""`
abbrev pub is_empty_code : Code → Bool
is_empty_code (other s) = is_empty s
is_empty_code _ = false

-- What `Version.Validate` asks of the validation error in its state.
unfoldable pub validate_validation_error : VersionState → Option SafeError → Option Error
validate_validation_error state none =
    require (state != version_failed)
      (invalid "validation_error" "is required for a failed version")
validate_validation_error state (some e) =
    require (not (is_empty_code e.code) && not (is_empty e.message))
      (invalid "validation_error" "code and message are required")
    then_check require (known e.code) (invalid "validation_error" "code is not a stable v1 error")
    then_check require (state == version_failed)
        (invalid "validation_error" "is only allowed for a failed version")

unfoldable pub validate_version : Version → Option Error
unfolding validate_metadata validate_resource_request validate_capabilities version_state_valid
    validate_validation_error
validate_version v =
    validate_metadata v.metadata
    then_check require (identifier_pattern v.function_id)
        (invalid "function_id" "must be a valid identifier")
    then_check require (identifier_pattern v.version_id)
        (invalid "version_id" "must be a valid identifier")
    then_check require (is_digest v.artifact_digest)
        (invalid "artifact_digest" "must be a lowercase SHA-256 digest")
    then_check require (is_digest v.manifest_digest)
        (invalid "manifest_digest" "must be a lowercase SHA-256 digest")
    then_check require (ltb_ℤ (pos 0) v.artifact_size && leb_ℤ v.artifact_size max_artifact_bytes)
        (invalid "artifact_size" "must be within the v1 artifact size limit")
    then_check require (v.abi == abi_wasi_command_v1)
        (invalid "abi" "only wasi-command-v1 is supported in v1")
    then_check require (v.host_api_profile == host_api_profile_none)
        (invalid "host_api_profile" "only none is supported in v1")
    then_check require (not (is_empty v.runtime_feature_profile))
        (invalid "runtime_feature_profile" "is required")
    then_check require (not (is_empty v.toolchain.name) && not (is_empty v.toolchain.version))
        (invalid "toolchain_metadata" "name and version are required")
    then_check require (not (is_empty v.toolchain.provenance))
        (invalid "toolchain_metadata" "provenance is required")
    then_check require (v.admission_epoch != 0)
        (invalid "admission_epoch" "must be greater than zero")
    then_check validate_resource_request v.resource_request
    then_check validate_capabilities v.requested_capabilities
    then_check require (version_state_valid v.state)
        (invalid "state" "is not a supported version state")
    then_check validate_validation_error v.state v.validation_error

unfoldable pub validate_resource_limits : ResourceLimits → Option Error
unfolding validate_resource_request
validate_resource_limits l =
    validate_resource_request (record {
      timeout = l.timeout;
      memory_mib = l.memory_mib;
      max_concurrency = 1;
      max_input_bytes = l.max_input_bytes;
      max_output_bytes = l.max_output_bytes;
    })
    then_check require (ltb_ℤ (pos 0) l.max_log_bytes && leb_ℤ l.max_log_bytes (pos 262_144))
        (invalid "resource_limits.max_log_bytes" "must be within 256 KiB")

unfoldable pub scaling_mode_valid : ScalingMode → Bool
scaling_mode_valid (unknown_scaling_mode _) = false
scaling_mode_valid _ = true

unfoldable pub phase_valid : DeploymentPhase → Bool
phase_valid (unknown_deployment_phase _) = false
phase_valid _ = true

unfoldable pub validate_deployment : Deployment → Option Error
unfolding validate_metadata validate_resource_limits validate_capabilities scaling_mode_valid
    phase_valid
validate_deployment d =
    validate_metadata d.metadata
    then_check require (identifier_pattern d.version_id)
        (invalid "version_id" "must be a valid identifier")
    then_check require (d.generation != 0) (invalid "generation" "must be greater than zero")
    then_check require (d.scaling_revision != 0)
        (invalid "scaling_revision" "must be greater than zero")
    then_check validate_resource_limits d.resource_limits
    then_check validate_capabilities d.granted_capabilities
    then_check require (is_digest d.effective_policy_digest)
        (invalid "effective_policy_digest" "must be a lowercase SHA-256 digest")
    then_check require (d.max_replicas != 0 && leb d.max_replicas 100)
        (invalid "max_replicas" "must be between 1 and 100")
    then_check require (leb d.min_replicas d.max_replicas)
        (invalid "min_replicas" "must not exceed max_replicas")
    then_check require
        (leb d.min_replicas d.desired_replicas && leb d.desired_replicas d.max_replicas)
        (invalid "desired_replicas" "must be within the replica bounds")
    then_check require (leb d.ready_replicas d.max_replicas)
        (invalid "ready_replicas" "must not exceed max_replicas")
    then_check require (d.target_concurrency != 0)
        (invalid "target_concurrency" "must be greater than zero")
    then_check require (scaling_mode_valid d.scaling_mode)
        (invalid "scaling_mode" "is not supported")
    then_check require (leb_ℤ (pos 0) d.idle_timeout)
        (invalid "idle_timeout" "must not be negative")
    then_check require (phase_valid d.desired_phase) (invalid "desired_phase" "is not supported")
