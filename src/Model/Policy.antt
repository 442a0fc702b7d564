-- ===== src/Model/Policy.antt =====
-- internal/model/effective_policy.go: the policy of a Deployment generation and its digest. The JSON
-- encoding, its canonical form and SHA-256 are arguments.
use minicloud.Text.{Str, codes, identifier_pattern, str_eq}
use minicloud.Problem.{Error, Result, err, invalid, plain, problem, require, ◌then_check◌}
use minicloud.Model.{
  CapabilityRequest, ResourceLimits, lifecycle_eq, phase_eq, scaling_mode_eq, version_state_eq,
}
use minicloud.Model.Validate.{validate_capabilities, validate_resource_limits}
use minicloud.Digest.{canonical_json, is_digest}
use minicloud.Text.Order.{compare_str}
use minicloud.Base.{
  List, Option, Rank, int_eq, is_empty, leb_ℤ, nat_eq, none, not, pos, pos_part, some, sort, ℕ, ℤ,
  ◌!=◌, ◌%◌, ◌&&◌, ◌/◌, ◌==◌, ◌then_by◌,
}
use minicloud.WasmProfile.{abi_wasi_command_v1, host_api_profile_none, max_artifact_bytes}

pub record EffectivePolicy : Type 0 where
  pub version_id : Str
  pub admission_epoch : ℕ
  pub deployment_generation : ℕ
  pub artifact_digest : Str
  pub artifact_size : ℤ
  pub abi : Str
  pub host_api_profile : Str
  pub runtime_feature_profile : Str
  pub resource_limits : ResourceLimits
  pub max_concurrency : ℕ
  pub granted_capabilities : List CapabilityRequest

-- `canonicalResourceLimitsV1`
pub record CanonicalLimits : Type 0 where
  pub timeout_ms : ℤ
  pub memory_mib : ℕ
  pub max_input_bytes : ℤ
  pub max_output_bytes : ℤ
  pub max_log_bytes : ℤ

-- `canonicalEffectivePolicyV1`
pub record CanonicalPolicy : Type 0 where
  pub version_id : Str
  pub admission_epoch : ℕ
  pub deployment_generation : ℕ
  pub artifact_digest : Str
  pub artifact_size : ℤ
  pub abi : Str
  pub host_api_profile : Str
  pub runtime_feature_profile : Str
  pub resource_limits : CanonicalLimits
  pub max_concurrency : ℕ
  pub granted_capabilities : List CapabilityRequest

abbrev pub millisecond_ns : ℕ
millisecond_ns = 1_000_000

-- An error of `validateCapabilities` under the field of the policy.
abbrev pub retarget : Option Error → Option Error
retarget none = none
retarget (some (problem c m f)) = some (invalid "granted_capabilities" m)
retarget (some e) = some e

-- The timeout is positive where its remainder is taken.
unfoldable pub validate_policy : EffectivePolicy → Option Error
unfolding validate_resource_limits validate_capabilities
validate_policy p =
    require (identifier_pattern p.version_id) (invalid "version_id" "must be a valid identifier")
    then_check require (p.admission_epoch != 0)
        (invalid "admission_epoch" "must be greater than zero")
    then_check require (p.deployment_generation != 0)
        (invalid "deployment_generation" "must be greater than zero")
    then_check require (is_digest p.artifact_digest)
        (invalid "artifact_digest" "must be a lowercase sha-256 digest")
    then_check require (leb_ℤ (pos 1) p.artifact_size && leb_ℤ p.artifact_size max_artifact_bytes)
        (invalid "artifact_size" "must be within the v1 artifact size limit")
    then_check require (p.abi == abi_wasi_command_v1)
        (invalid "abi" "only wasi-command-v1 is supported in v1")
    then_check require (p.host_api_profile == host_api_profile_none)
        (invalid "host_api_profile" "only none is supported in v1")
    then_check require (not (is_empty p.runtime_feature_profile))
        (invalid "runtime_feature_profile" "is required")
    then_check validate_resource_limits p.resource_limits
    then_check require (pos_part p.resource_limits.timeout % millisecond_ns == 0)
        (invalid "resource_limits.timeout" "must use whole milliseconds")
    then_check require (p.max_concurrency != 0)
        (invalid "max_concurrency" "must be greater than zero")
    then_check retarget (validate_capabilities p.granted_capabilities)

unfoldable pub compare_capabilities : CapabilityRequest → CapabilityRequest → Rank
unfolding compare_str
compare_capabilities a b = compare_str a.name b.name then_by compare_str a.version b.version

-- `SortStableFunc`: the insertion sort keeps the order of ties.
unfoldable pub canonical_policy : EffectivePolicy → CanonicalPolicy
unfolding compare_capabilities
canonical_policy p = record {
  version_id = p.version_id;
  admission_epoch = p.admission_epoch;
  deployment_generation = p.deployment_generation;
  artifact_digest = p.artifact_digest;
  artifact_size = p.artifact_size;
  abi = p.abi;
  host_api_profile = p.host_api_profile;
  runtime_feature_profile = p.runtime_feature_profile;
  resource_limits = record {
    timeout_ms = pos (pos_part p.resource_limits.timeout / millisecond_ns);
    memory_mib = p.resource_limits.memory_mib;
    max_input_bytes = p.resource_limits.max_input_bytes;
    max_output_bytes = p.resource_limits.max_output_bytes;
    max_log_bytes = p.resource_limits.max_log_bytes;
  };
  max_concurrency = p.max_concurrency;
  granted_capabilities = sort compare_capabilities p.granted_capabilities;
}

-- The external encodings: `json.Marshal`, `jcs.Transform` and `sha256.Sum256`.
pub record PolicyEncoding : Type 0 where
  pub marshal : CanonicalPolicy → Option Str
  pub transform : Str → Option Str
  pub sha256 : Str → Str

-- `EffectivePolicy.Digest`
unfoldable pub policy_digest : PolicyEncoding → EffectivePolicy → Result Str
unfolding validate_policy canonical_policy
policy_digest enc p = elim (validate_policy p) [
  | some e ↦ err e
  | none ↦ elim (enc.marshal (canonical_policy p)) [
    | none ↦ err (plain "marshaling effective policy")
    | some source ↦
        canonical_json enc.sha256 enc.transform (codes "effective-policy") (codes "v1") source
  ]
]
