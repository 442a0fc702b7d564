-- ===== src/Scheduler/Validate.antt =====
-- internal/scheduler/types.go: the validation of requests, observations and results. Where the source
-- ranges over a map, the first entry that fails decides which field the error names; the model takes
-- the entries in the order of the list.
use minicloud.Text.{Str, identifier_pattern, label_key_pattern, str_eq, valid_utf8}
use minicloud.Problem.{Error, invalid, require, ◌then_check◌}
use minicloud.Base.{
  Bool, List, Map, Option, [], arith, int_eq, is_empty, leb, leb_ℤ, length, nat_eq, none, not, pos,
  refl, some, ◌!=◌, ◌&&◌, ◌<◌, ◌==◌, ◌||◌, ◌∷◌, ◌≡◌, ◌≤◌,
}
use minicloud.WorkerCache.{Key, key_eq}
use minicloud.ServingAuth.{
  connection_eq, fence_eq, identity_eq, mode_eq, normal, session_eq, validate_identity,
  validate_session,
}
use minicloud.WasmProfile.{
  abi_wasi_command_v1, engine_compiler, feature_profile, host_api_profile_none, is_profile,
  max_artifact_bytes, runtime_name, runtime_version,
}
use minicloud.Digest.{is_digest}
use minicloud.Scheduler.{
  Assignment, PlacementRequest, RuntimeProfile, WorkerSnapshot, drain_valid, intent_valid,
  max_cache_hints, max_existing_workers, max_required_labels, max_worker_slots, state_valid,
}

unfoldable pub compatible : RuntimeProfile → PlacementRequest → Bool
compatible r q =
    r.name == q.runtime_name
    && r.version == q.runtime_version
    && r.engine == q.runtime_engine
    && r.goos == q.goos
    && r.goarch == q.goarch
    && r.abi == q.abi
    && r.host_api == q.host_api
    && r.feature_profile == q.feature_profile
    && r.memory_mib == q.memory_mib

unfoldable pub validate_assignment : Assignment → Option Error
validate_assignment a =
    require (identifier_pattern a.command_id) (invalid "command_id" "must be a valid identifier")
    then_check validate_identity (record {
      worker = a.worker;
      assignment_id = a.assignment_id;
      version_id = a.version_id;
      admission_epoch = a.admission_epoch;
      deployment_generation = a.deployment_generation;
      policy_digest = a.policy_digest;
      mode = normal;
    })
    then_check require (is_digest a.artifact_digest)
        (invalid "artifact_digest" "must be a lowercase sha-256 digest")
    then_check require (leb_ℤ (pos 1) a.artifact_size && leb_ℤ a.artifact_size max_artifact_bytes)
        (invalid "artifact_size" "must be within the v1 artifact size limit")
    then_check require (a.abi == abi_wasi_command_v1) (invalid "abi" "is not supported")
    then_check require (a.host_api == host_api_profile_none) (invalid "host_api" "is not supported")
    then_check require (a.feature_profile == feature_profile)
        (invalid "feature_profile" "is not supported")
    then_check require (is_profile engine_compiler a.memory_mib)
        (invalid "memory_mib" "is not a supported runtime memory tier")
    then_check require (a.required_slots != 0 && leb a.required_slots max_worker_slots)
        (invalid "required_slots" "must be within the v1 worker slot limit")

-- The fields of a compiled cache key that repeat the request.
unfoldable pub key_matches : Key → PlacementRequest → Bool
key_matches k r =
    k.artifact_digest == r.artifact_digest
    && k.artifact_size == r.artifact_size
    && k.runtime_name == r.runtime_name
    && k.runtime_version == r.runtime_version
    && k.engine == r.runtime_engine
    && k.goos == r.goos
    && k.goarch == r.goarch
    && k.abi == r.abi
    && k.host_api_profile == r.host_api
    && k.runtime_feature_profile == r.feature_profile
    && k.memory_limit_mib == r.memory_mib

validate_labels : Map Str Str → Option Error
validate_labels [] = none
validate_labels ((key, value) ∷ m) =
    require (label_key_pattern key) (invalid "required_labels" "contains an invalid key")
    then_check require (valid_utf8 value && leb (length value) 256)
        (invalid "required_labels" "contains an invalid value")
    then_check validate_labels m

validate_existing : List Str → Option Error
validate_existing [] = none
validate_existing (id ∷ ids) =
    require (identifier_pattern id) (invalid "existing_worker_ids" "contains an invalid worker id")
    then_check validate_existing ids

validate_runtime : PlacementRequest → Option Error
validate_runtime r =
    require
      (r.runtime_name == runtime_name
        && r.runtime_version == runtime_version
        && not (is_empty r.runtime_engine)
        && not (is_empty r.goos)
        && not (is_empty r.goarch)
        && r.feature_profile == feature_profile
        && r.memory_mib != 0
        && r.required_slots != 0)
      (invalid "runtime_profile" "runtime, platform, feature, memory, and slots are required")
    then_check require (is_profile r.runtime_engine r.memory_mib)
        (invalid "runtime_profile" "engine and memory tier are unsupported")
    then_check require (leb r.required_slots max_worker_slots)
        (invalid "required_slots" "exceeds the v1 worker slot limit")

-- What is to be placed.
validate_subject : PlacementRequest → Option Error
validate_subject r =
    require (identifier_pattern r.command_id) (invalid "command_id" "must be a valid identifier")
    then_check require (identifier_pattern r.assignment_id)
        (invalid "assignment_id" "must be a valid identifier")
    then_check require (identifier_pattern r.version_id)
        (invalid "version_id" "must be a valid identifier")
    then_check require (is_digest r.artifact_digest)
        (invalid "artifact_digest" "must be a lowercase sha-256 digest")
    then_check require (leb_ℤ (pos 1) r.artifact_size && leb_ℤ r.artifact_size max_artifact_bytes)
        (invalid "artifact_size" "must be within the v1 artifact size limit")
    then_check require (r.abi == abi_wasi_command_v1) (invalid "abi" "is not supported")
    then_check require (r.host_api == host_api_profile_none) (invalid "host_api" "is not supported")

-- Its generation and its preferences.
validate_preferences : PlacementRequest → Option Error
unfolding validate_labels validate_existing key_matches
validate_preferences r =
    require (r.admission_epoch != 0 && r.deployment_generation != 0)
      (invalid "generation" "admission epoch and deployment generation are required")
    then_check require (is_digest r.policy_digest)
        (invalid "policy_digest" "must be a lowercase sha-256 digest")
    then_check require
        (is_empty r.compiled_cache_key.artifact_digest || key_matches r.compiled_cache_key r)
        (invalid "compiled_cache_key" "does not match placement runtime inputs")
    then_check require (leb (length r.required_labels) max_required_labels)
        (invalid "required_labels" "contains too many labels")
    then_check validate_labels r.required_labels
    then_check require (leb (length r.existing_worker_ids) max_existing_workers)
        (invalid "existing_worker_ids" "contains too many workers")
    then_check validate_existing r.existing_worker_ids

unfoldable pub validate_request : PlacementRequest → Option Error
unfolding validate_subject validate_runtime validate_preferences
validate_request r =
    validate_subject r then_check validate_runtime r then_check validate_preferences r

worker_labels : Map Str Str → Option Error
worker_labels [] = none
worker_labels ((key, value) ∷ m) =
    require (label_key_pattern key && valid_utf8 value && leb (length value) 256)
      (invalid "labels" "contains an invalid label")
    then_check worker_labels m

unfoldable pub validate_worker : WorkerSnapshot → Option Error
unfolding worker_labels
validate_worker w =
    validate_session w.session
    then_check require (intent_valid w.intent && state_valid w.state && drain_valid w.drain)
        (invalid "worker_state" "intent or session state is unsupported")
    then_check require
        (w.runtime.name == runtime_name
          && w.runtime.version == runtime_version
          && not (is_empty w.runtime.goos)
          && not (is_empty w.runtime.goarch)
          && w.runtime.abi == abi_wasi_command_v1
          && w.runtime.host_api == host_api_profile_none
          && w.runtime.feature_profile == feature_profile)
        (invalid "runtime" "runtime profile is incomplete")
    then_check require (is_profile w.runtime.engine w.runtime.memory_mib)
        (invalid "runtime" "runtime engine or memory tier is unsupported")
    then_check require
        (leb w.capacity.allocated_memory_mib w.capacity.memory_mib
          && leb w.capacity.allocated_slots w.capacity.slots
          && leb w.capacity.slots max_worker_slots)
        (invalid "capacity" "allocation exceeds capacity")
    then_check require
        (leb (length w.labels) max_required_labels
          && leb (length w.cache.artifacts) max_cache_hints
          && leb (length w.cache.compiled) max_cache_hints)
        (invalid "worker_observation" "contains more entries than the v1 bound")
    then_check worker_labels w.labels

runtime-amounts :
    (r : PlacementRequest)
    → validate_runtime r ≡ none
    → (0 < r.memory_mib) × (0 < r.required_slots) × (r.required_slots ≤ max_worker_slots)
unfolding validate_runtime
runtime-amounts r h = ground arith

then_check-none : (a b c : Option Error) → (a then_check b then_check c) ≡ none → b ≡ none
then_check-none none none c h = refl
then_check-none none (some e) c h = h
then_check-none (some e) b c h = cc

-- A valid request asks for memory and for slots, and for no more slots than a Worker may have.
pub validate_request-amounts :
    (r : PlacementRequest)
    → validate_request r ≡ none
    → (0 < r.memory_mib) × (0 < r.required_slots) × (r.required_slots ≤ max_worker_slots)
unfolding validate_request
validate_request-amounts r h =
    runtime-amounts r
      (then_check-none (validate_subject r) (validate_runtime r) (validate_preferences r) h)
