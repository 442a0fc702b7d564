-- ===== src/Model.antt =====
-- internal/model: the persisted values of the control plane.
pub mod Validate
pub mod Policy
pub mod Route
use minicloud.Base.{Bool, Eq, List, Map, Option, int_eq, is_zero_ℤ, ltb_ℤ, nat_eq, ℕ, ℤ, ◌+ℤ◌, ◌==◌}
use minicloud.Text.{Str, Str-discrete, str_eq}
use minicloud.Problem.{Code}

-- `time.Time`: nanoseconds since the zero time, and the offset of its zone in seconds. It carries no
-- monotonic reading, so that `Round(0)` is the identity.
pub record Time : Type 0 where
  pub instant : ℤ
  pub offset : ℤ

abbrev pub is_zero_time : Time → Bool
is_zero_time t = is_zero_ℤ t.instant

-- `t.Before(u)`, and `u.After(t)`.
abbrev pub is_before : Time → Time → Bool
is_before t u = ltb_ℤ t.instant u.instant

-- `t.Equal(u)`
abbrev pub is_same_time : Time → Time → Bool
is_same_time t u = t.instant == u.instant

-- `t.Add(d)`
abbrev pub add_duration : Time → ℤ → Time
add_duration t d = record t { instant = t.instant +ℤ d }

unfoldable pub is_utc : Time → Bool
is_utc t = is_zero_ℤ t.offset

pub record Metadata : Type 0 where
  pub id : Str
  pub namespace : Str
  pub created_at : Time
  pub updated_at : Time
  pub created_raft_index : ℕ
  pub resource_revision : ℕ

pub data FunctionLifecycle : Type 0 where
  lifecycle_active lifecycle_disabled lifecycle_deleting lifecycle_tombstoned : FunctionLifecycle
  unknown_function_lifecycle : Str → FunctionLifecycle

pub record Function : Type 0 where
  pub metadata : Metadata
  pub name : Str
  pub description : Str
  pub active_route_revision : ℕ
  pub labels : Map Str Str
  pub lifecycle : FunctionLifecycle

pub data VersionState : Type 0 where
  version_uploaded version_validating version_ready version_failed : VersionState
  version_deprecated version_deleting version_tombstoned : VersionState
  unknown_version_state : Str → VersionState

pub record ToolchainMetadata : Type 0 where
  pub name : Str
  pub version : Str
  pub provenance : Str

pub record ResourceRequest : Type 0 where
  pub timeout : ℤ
  pub memory_mib : ℕ
  pub max_concurrency : ℕ
  pub max_input_bytes : ℤ
  pub max_output_bytes : ℤ

pub record CapabilityRequest : Type 0 where
  pub name : Str
  pub version : Str

pub record SafeError : Type 0 where
  pub code : Code
  pub message : Str

pub record Version : Type 0 where
  pub metadata : Metadata
  pub function_id : Str
  pub version_id : Str
  pub artifact_digest : Str
  pub manifest_digest : Str
  pub artifact_size : ℤ
  pub abi : Str
  pub host_api_profile : Str
  pub runtime_feature_profile : Str
  pub toolchain : ToolchainMetadata
  pub admission_epoch : ℕ
  pub resource_request : ResourceRequest
  pub requested_capabilities : List CapabilityRequest
  pub state : VersionState
  pub validation_error : Option SafeError

pub data ScalingMode : Type 0 where
  scaling_manual scaling_auto : ScalingMode
  unknown_scaling_mode : Str → ScalingMode

pub data DeploymentPhase : Type 0 where
  deployment_active deployment_draining deployment_stopped deployment_deleting : DeploymentPhase
  unknown_deployment_phase : Str → DeploymentPhase

pub record ResourceLimits : Type 0 where
  pub timeout : ℤ
  pub memory_mib : ℕ
  pub max_input_bytes : ℤ
  pub max_output_bytes : ℤ
  pub max_log_bytes : ℤ

pub record Deployment : Type 0 where
  pub metadata : Metadata
  pub version_id : Str
  pub generation : ℕ
  pub scaling_revision : ℕ
  pub resource_limits : ResourceLimits
  pub granted_capabilities : List CapabilityRequest
  pub effective_policy_digest : Str
  pub min_replicas : ℕ
  pub max_replicas : ℕ
  pub desired_replicas : ℕ
  pub ready_replicas : ℕ
  pub target_concurrency : ℕ
  pub scaling_mode : ScalingMode
  pub idle_timeout : ℤ
  pub desired_phase : DeploymentPhase

unfoldable pub FunctionLifecycle-discrete : Discrete FunctionLifecycle
unfolding Str-discrete
FunctionLifecycle-discrete = hlevel Str-discrete

unfoldable pub VersionState-discrete : Discrete VersionState
unfolding Str-discrete
VersionState-discrete = hlevel Str-discrete

unfoldable pub ScalingMode-discrete : Discrete ScalingMode
unfolding Str-discrete
ScalingMode-discrete = hlevel Str-discrete

unfoldable pub DeploymentPhase-discrete : Discrete DeploymentPhase
unfolding Str-discrete
DeploymentPhase-discrete = hlevel Str-discrete

instance abbrev pub lifecycle_eq : Eq FunctionLifecycle
lifecycle_eq = record { dec = FunctionLifecycle-discrete }

instance abbrev pub version_state_eq : Eq VersionState
version_state_eq = record { dec = VersionState-discrete }

instance abbrev pub scaling_mode_eq : Eq ScalingMode
scaling_mode_eq = record { dec = ScalingMode-discrete }

instance abbrev pub phase_eq : Eq DeploymentPhase
phase_eq = record { dec = DeploymentPhase-discrete }
