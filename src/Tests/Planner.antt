-- ===== src/Tests/Planner.antt =====
-- Runs of the placement planner.
use minicloud.Scheduler.Fits.{Fits, reasons-Fits}
use minicloud.Scheduler.Planner.Placement.{IsBest, plan-IsBest, plan-succeeds}
use minicloud.Scheduler.Planner.Retention.{Inv, run-new_planner-Inv}
use minicloud.Scheduler.Planner.Idempotence.{Spares, plan-retry, plan-same_assignment}
use minicloud.Scheduler.Planner.Barrier.{Advances, run-Advances, withdrawn_places_nothing}
use minicloud.Text.{codes, label_key_pattern, str_eq, str_ltb, valid_utf8}
use minicloud.Problem.{ok}
use minicloud.Digest.{canonical_json}
use minicloud.Base.{
  All, List, String, [], arith, contains, delete, false, inl, inr, insert, int_eq, lookup, nat_eq,
  none, pos, refl, some, sort, true, ℕ, ℤ-discrete, ◌++◌, ◌∷◌, ◌≡◌, ◌≢◌, ◌⊎◌,
}
use minicloud.ServingAuth.{
  connection_eq, fence_eq, identity_eq, mode_eq, session_eq, validate_session,
}
use minicloud.WorkerCache.{Key, Key-discrete, key_eq}
use minicloud.WasmProfile.{
  abi_wasi_command_v1, engine_compiler, feature_profile, host_api_profile_none, new_profile,
  runtime_name, runtime_version,
}
use minicloud.Scheduler.{
  LeaderBarrier, PlacementRequest, WorkerSnapshot, already_satisfied, applied, drain_eq,
  drain_valid, duplicate, intent_eq, intent_valid, not_draining, ready, schedulable, state_eq,
  state_valid,
}
use minicloud.Scheduler.Validate.{compatible, validate_request, validate_worker}
use minicloud.Scheduler.Ranking.{compare_candidates, compare_eligible, compare_ratio}
use minicloud.Scheduler.Candidates.{
  cache_score, eligible_of, evaluate_candidates, filter_reasons, labels_match, reasons_against,
  spread_score,
}
use minicloud.Scheduler.Planner.{
  Planned, Planner, acknowledge, install_barrier, invalidate_barrier, new_planner, succeed,
}
use minicloud.Scheduler.Planner.Plan.{
  Call, Encoding, acknowledges, assignment_for, installs, invalidates, plan, plans, run, step,
  validate_worker_set,
}
use minicloud.Text.Order.{compare_str}
use minicloud.Tests.Fixtures.{digest, texts}

abbrev encoding : Encoding
encoding = record {
  marshal = λ r. some (r.assignment_id ++ r.version_id);
  transform = some;
  sha256 = λ s. s;
}

abbrev no_key : Key
no_key = record {
  artifact_digest = [];
  artifact_size = pos 0;
  runtime_name = [];
  runtime_version = [];
  abi = [];
  host_api_profile = [];
  runtime_feature_profile = [];
  engine = [];
  memory_limit_mib = 0;
  goos = [];
  goarch = [];
}

abbrev request : String → String → PlacementRequest
request command_id assignment_id = record {
  command_id = codes command_id;
  assignment_id = codes assignment_id;
  version_id = codes "version-1";
  artifact_digest = digest;
  artifact_size = pos 1000;
  abi = abi_wasi_command_v1;
  host_api = host_api_profile_none;
  feature_profile = feature_profile;
  runtime_name = runtime_name;
  runtime_version = runtime_version;
  runtime_engine = engine_compiler;
  goos = codes "linux";
  goarch = codes "amd64";
  memory_mib = 64;
  required_slots = 1;
  admission_epoch = 1;
  deployment_generation = 1;
  policy_digest = digest;
  compiled_cache_key = no_key;
  required_labels = (codes "zone", codes "a") ∷ [];
  existing_worker_ids = [];
}

abbrev worker : String → ℕ → WorkerSnapshot
worker id busy = record {
  session = record { worker_id = codes id; boot_id = codes "boot"; session_epoch = 1 };
  runtime = record {
    name = runtime_name;
    version = runtime_version;
    engine = engine_compiler;
    goos = codes "linux";
    goarch = codes "amd64";
    abi = abi_wasi_command_v1;
    host_api = host_api_profile_none;
    feature_profile = feature_profile;
    memory_mib = 64;
  };
  intent = schedulable;
  state = ready;
  drain = not_draining;
  capacity = record {
    memory_mib = 256;
    allocated_memory_mib = 64;
    slots = 4;
    allocated_slots = busy;
  };
  labels = (codes "zone", codes "a") ∷ [];
  cache = record { artifacts = []; compiled = [] };
}

abbrev workers : List WorkerSnapshot
workers = worker "w1" 3 ∷ worker "w2" 1 ∷ []

abbrev barrier : LeaderBarrier
barrier = record { term = 2; applied_index = 9; is_ready = true }

abbrev empty_planner : Planner
empty_planner = record {
  max_decisions = 8;
  barrier = record { term = 0; applied_index = 0; is_ready = false };
  decisions = [];
  assignments = [];
}

abbrev led : Planner
led = record empty_planner { barrier = barrier }

unfoldable runs : Unit {0}
unfolding texts plan new_planner install_barrier invalidate_barrier acknowledge validate_request
    validate_worker validate_session canonical_json new_profile ℤ-discrete Key-discrete intent_valid
    state_valid drain_valid valid_utf8 label_key_pattern lookup insert delete contains
    validate_worker_set evaluate_candidates reasons_against filter_reasons compatible labels_match
    cache_score spread_score sort compare_eligible compare_candidates compare_ratio compare_str
    str_ltb step run
runs = tt

new_planner_run : new_planner (pos 8) ≡ ok empty_planner
unfolding runs
new_planner_run = refl

-- The Worker with the smaller share of its slots in use is chosen.
chosen_run :
    (plan encoding led (request "c1" "a1") workers).1.decision.assignment.worker.worker_id
    ≡ codes "w2"
unfolding runs
chosen_run = refl

abbrev first : PlacementRequest
first = request "c1" "a1"

abbrev rival : PlacementRequest
rival = request "c2" "a1"

abbrev planned : Planner × Planned
planned = plan encoding led first workers

worker-Fits : Fits first (worker "w2" 1)
unfolding runs
worker-Fits = reasons-Fits first (worker "w2" 1) refl

plan-IsBest_example :
    (led.barrier.is_ready ≡ true)
    × ((w : WorkerSnapshot) × IsBest first workers w
        × (planned.1.decision.assignment ≡ assignment_for first (eligible_of first w)))
unfolding runs
plan-IsBest_example = plan-IsBest encoding led first workers refl refl

plan-succeeds_example : (planned.1.failure ≡ none) × (planned.1.decision.status ≡ applied)
unfolding runs
plan-succeeds_example =
    plan-succeeds encoding led first workers (worker "w2" 1) refl refl refl refl refl (omega arith)
      refl (inr (inl refl)) worker-Fits

run-new_planner-Inv_example : Inv (
    run encoding empty_planner
      (installs barrier ∷ plans first workers ∷ acknowledges (codes "c1") ∷ []))
run-new_planner-Inv_example =
    run-new_planner-Inv encoding (pos 8) empty_planner
      (installs barrier ∷ plans first workers ∷ acknowledges (codes "c1") ∷ []) new_planner_run

abbrev between : List Call
between = invalidates ∷ acknowledges (codes "c9") ∷ []

between-Spares : All (Spares (codes "c1")) between
between-Spares = (tt, ((λ e. ground arith), tt))

plan-retry_example :
    plan encoding (run encoding planned.0 between) first []
    ≡ (run encoding planned.0 between, succeed (record (planned.1.decision) { status = duplicate }))
unfolding runs
plan-retry_example = plan-retry encoding led first workers [] between refl refl between-Spares

led-Inv : Inv led
unfolding lookup
led-Inv = record {
  recorded = λ id d h. ground arith;
  held = λ id c h. ground arith;
  within = omega arith;
}

plan-same_assignment_example :
    let later = run encoding planned.0 between in
    ((plan encoding later rival workers).0 ≡ later)
    × (((plan encoding later rival workers).1.failure ≢ none)
        ⊎ ((plan encoding later rival workers).1.decision
            ≡ record (planned.1.decision) { status = already_satisfied }))
unfolding runs
plan-same_assignment_example =
    plan-same_assignment encoding led first rival workers workers between led-Inv refl refl
      between-Spares refl refl

run-Advances_example : Advances led (run encoding led (invalidates ∷ installs barrier ∷ []))
run-Advances_example =
    run-Advances encoding led (invalidates ∷ installs barrier ∷ []) (λ e. ground arith)

withdrawn_places_nothing_example :
    let q = run encoding (invalidate_barrier led) (acknowledges (codes "c1") ∷ []) in
    ((plan encoding q first workers).0 ≡ q)
    × (((plan encoding q first workers).1.failure ≢ none)
        ⊎ ((plan encoding q first workers).1.decision.status ≢ applied))
withdrawn_places_nothing_example =
    withdrawn_places_nothing encoding led (acknowledges (codes "c1") ∷ []) first workers (tt, tt)
