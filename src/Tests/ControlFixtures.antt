-- ===== src/Tests/ControlFixtures.antt =====
-- The commands of a run of the Controller's stores: from a new Function to its Assignment.
use minicloud.Base.{List, String, [], int_eq, nat_eq, none, pos, some, true, ℕ, ◌∷◌}
use minicloud.Text.{Str, codes, str_eq}
use minicloud.Problem.{ok, other}
use minicloud.WasmProfile.{
  abi_wasi_command_v1, engine_compiler, feature_profile, host_api_profile_none, runtime_name,
  runtime_version,
}
use minicloud.Model.{
  Deployment, Function, Metadata, Time, Version, deployment_active, lifecycle_active, lifecycle_eq,
  phase_eq, scaling_manual, scaling_mode_eq, version_state_eq, version_uploaded,
}
use minicloud.Model.Policy.{PolicyEncoding}
use minicloud.Model.Route.{Route, affinity_request_id}
use minicloud.Routing.{hash_version_v1}
use minicloud.Scheduler.{Assignment, drain_eq, intent_eq, state_eq}
use minicloud.ValidatorProtocol.{Report}
use minicloud.ControlPlane.Catalog.{HttpTrigger, auth_eq, auth_token}
use minicloud.ControlPlane.Assignments.{AssignmentTarget, assignment_target_eq, desired_eq}
use minicloud.ControlPlane.State.{
  ControlCall, completes_validation, creates_function, creates_version, installs_assignment,
  publishes_route, starts_validation,
}
use minicloud.Tests.Fixtures.{digest}

abbrev pub time : ℕ → Time
time n = record { instant = pos n; offset = pos 0 }

abbrev zeros : Str
zeros =
    0 ∷ 0 ∷ 0 ∷ 0 ∷ 0 ∷ 0 ∷ 0 ∷ 0 ∷ 0 ∷ 0 ∷ 0 ∷ 0 ∷ 0 ∷ 0 ∷ 0 ∷ 0 ∷ 0 ∷ 0 ∷ 0 ∷ 0 ∷ 0 ∷ 0 ∷ 0 ∷ 0
    ∷ 0 ∷ 0 ∷ 0 ∷ 0 ∷ 0 ∷ 0 ∷ 0 ∷ 0 ∷ []

abbrev pub zero_digest : Str
zero_digest = codes "sha256:0000000000000000000000000000000000000000000000000000000000000000"

-- An encoding for the runs, with a constant hash.
abbrev pub policy_encoding : PolicyEncoding
policy_encoding = record {
  marshal = λ p. some (codes "{}");
  transform = λ s. some s;
  sha256 = λ s. zeros;
}

abbrev meta : String → ℕ → Metadata
meta id n = record {
  id = codes id;
  namespace = codes "default";
  created_at = time n;
  updated_at = time n;
  created_raft_index = n;
  resource_revision = 1;
}

abbrev function : Function
function = record {
  metadata = meta "fn-1" 1;
  name = codes "hello";
  description = [];
  active_route_revision = 0;
  labels = [];
  lifecycle = lifecycle_active;
}

abbrev trigger : HttpTrigger
trigger = record {
  metadata = meta "trigger-1" 1;
  function_id = codes "fn-1";
  enabled = true;
  auth_policy = auth_token;
  token_verifier_digest = some digest;
}

abbrev pub version : Version
version = record {
  metadata = meta "version-1" 2;
  function_id = codes "fn-1";
  version_id = codes "version-1";
  artifact_digest = digest;
  manifest_digest = digest;
  artifact_size = pos 1000;
  abi = abi_wasi_command_v1;
  host_api_profile = host_api_profile_none;
  runtime_feature_profile = feature_profile;
  toolchain = record { name = codes "go"; version = codes "1"; provenance = codes "ci" };
  admission_epoch = 1;
  resource_request = record {
    timeout = pos 1_000_000_000;
    memory_mib = 64;
    max_concurrency = 1;
    max_input_bytes = pos 1000;
    max_output_bytes = pos 1000;
  };
  requested_capabilities = [];
  state = version_uploaded;
  validation_error = none;
}

abbrev report : Report
report = record {
  schema_version = codes "validator-v1";
  validation_id = codes "check-1";
  valid = true;
  code = other (codes "ok");
  reason = codes "ok";
  message = codes "ok";
  artifact_digest = digest;
  artifact_size = pos 1000;
  runtime_name = runtime_name;
  runtime_version = runtime_version;
  runtime_feature_profile = feature_profile;
  runtime_engine = engine_compiler;
  imports = some [];
  exports = some [];
  memory = record { exported = true; min_pages = 1; max_pages = 1 };
  compile_nanoseconds = pos 5;
  isolation = record {
    process_boundary = true;
    deadline = true;
    cpu_limit = true;
    file_size_limit = true;
    memory_limit = true;
    temp_disk_limit = true;
  };
}

abbrev pub deployment : Deployment
deployment = record {
  metadata = meta "deployment-1" 4;
  version_id = codes "version-1";
  generation = 1;
  scaling_revision = 1;
  resource_limits = record {
    timeout = pos 1_000_000_000;
    memory_mib = 64;
    max_input_bytes = pos 1000;
    max_output_bytes = pos 1000;
    max_log_bytes = pos 262_144;
  };
  granted_capabilities = [];
  effective_policy_digest = zero_digest;
  min_replicas = 1;
  max_replicas = 1;
  desired_replicas = 1;
  ready_replicas = 0;
  target_concurrency = 1;
  scaling_mode = scaling_manual;
  idle_timeout = pos 0;
  desired_phase = deployment_active;
}

abbrev pub route : Route
route = record {
  metadata = meta "route-1" 5;
  function_id = codes "fn-1";
  route_revision = 1;
  targets =
      record {
        version_id = codes "version-1";
        admission_epoch = 1;
        deployment_generation = 1;
        effective_policy_digest = zero_digest;
        weight_basis_points = 10_000;
      }
      ∷ [];
  affinity = affinity_request_id;
  affinity_header = [];
  hash_version = hash_version_v1;
  salt_id = codes "salt-1";
  salt = codes "0123456789abcdef";
  enabled = true;
}

abbrev placement : Assignment
placement = record {
  command_id = codes "command-1";
  assignment_id = codes "assignment-1";
  worker = record { worker_id = codes "w1"; boot_id = codes "boot"; session_epoch = 1 };
  version_id = codes "version-1";
  artifact_digest = digest;
  artifact_size = pos 1000;
  abi = abi_wasi_command_v1;
  host_api = host_api_profile_none;
  feature_profile = feature_profile;
  memory_mib = 64;
  required_slots = 1;
  admission_epoch = 1;
  deployment_generation = 1;
  policy_digest = zero_digest;
}

abbrev pub creation : ControlCall
creation =
    creates_function
      (record { if_none_match = true; applied_index = 1; function = function; trigger = trigger })

abbrev pub upload_call : ControlCall
upload_call =
    creates_version (ok (function, trigger))
      (record { if_none_match = true; applied_index = 2; version = version })

abbrev pub start_call : ControlCall
start_call = starts_validation (record {
  version_id = codes "version-1";
  expected_resource_revision = 1;
  validation_id = codes "check-1";
  updated_at = time 3;
  applied_index = 3;
})

abbrev pub completion_call : ControlCall
completion_call = completes_validation (record {
  version_id = codes "version-1";
  expected_resource_revision = 2;
  report = report;
  deployment = some deployment;
  updated_at = time 4;
  applied_index = 4;
})

abbrev pub publication : ControlCall
publication = publishes_route (record {
  function_id = codes "fn-1";
  expected_active_route_revision = 0;
  route = route;
  updated_at = time 5;
  applied_index = 5;
})

abbrev pub installation : ControlCall
installation = installs_assignment (record {
  function_id = codes "fn-1";
  placement = placement;
  if_none_match = true;
  expected_scaling_revision = 1;
  applied_index = 6;
  updated_at = time 6;
})

-- The Version is admitted.
abbrev pub release_calls : List ControlCall
release_calls = creation ∷ upload_call ∷ start_call ∷ completion_call ∷ []

abbrev pub all_calls : List ControlCall
all_calls = creation ∷ upload_call ∷ start_call ∷ completion_call ∷ publication ∷ installation ∷ []

abbrev pub target : AssignmentTarget
target = record {
  function_id = codes "fn-1";
  version_id = codes "version-1";
  admission_epoch = 1;
  deployment_generation = 1;
}
