-- ===== src/Scheduler/Planner/Plan.antt =====
-- internal/scheduler/planner.go: `Plan`, and the planner driven by calls. JSON encoding, its canonical
-- form and SHA-256 are arguments.
use minicloud.Text.{Str, codes, str_eq}
use minicloud.Problem.{
  Error, Result, classified, conflict, control_plane_stale, err, invalid, no_ready_replica, ok,
  overloaded, plain, require, ◌then_check◌,
}
use minicloud.Base.{
  List, Option, String, [], if◌then◌else◌, insert, int_eq, leb, length, lookup, nat_eq, none, not,
  some, sort, ◌!=◌, ◌∷◌,
}
use minicloud.Digest.{canonical_json}
use minicloud.WorkerCache.{key_eq}
use minicloud.ServingAuth.{connection_eq, fence_eq, identity_eq, mode_eq, session_eq}
use minicloud.Scheduler.{
  Assignment, Candidate, Decision, DecisionStatus, LeaderBarrier, PlacementRequest, WorkerSnapshot,
  already_satisfied, applied, duplicate, max_workers, unset,
}
use minicloud.Scheduler.Validate.{validate_request}
use minicloud.Scheduler.Ranking.{EligibleCandidate, compare_eligible}
use minicloud.Scheduler.Candidates.{evaluate_candidates, unique_workers}
use minicloud.Scheduler.Planner.{
  DecisionRecord, Planned, Planner, acknowledge, fail, install_barrier, invalidate_barrier, succeed,
  zero_assignment, zero_decision,
}

unfoldable pub assignment_for : PlacementRequest → EligibleCandidate → Assignment
assignment_for r chosen = record {
  command_id = r.command_id;
  assignment_id = r.assignment_id;
  worker = chosen.worker.session;
  version_id = r.version_id;
  artifact_digest = r.artifact_digest;
  artifact_size = r.artifact_size;
  abi = r.abi;
  host_api = r.host_api;
  feature_profile = r.feature_profile;
  memory_mib = r.memory_mib;
  required_slots = r.required_slots;
  admission_epoch = r.admission_epoch;
  deployment_generation = r.deployment_generation;
  policy_digest = r.policy_digest;
}

unfoldable pub validate_worker_set : List WorkerSnapshot → Option Error
unfolding unique_workers
validate_worker_set workers =
    require (leb (length workers) max_workers)
      (invalid "workers" "contains more than the v1 worker observation limit")
    then_check require (unique_workers [] workers)
        (invalid "workers" "contains a duplicate worker_id")

-- A retained decision answers a request with its fingerprint, and no other.
unfoldable pub replay : DecisionRecord → Str → DecisionStatus → String → Planned
replay existing fingerprint status message =
    if existing.fingerprint != fingerprint
    then fail (classified conflict message)
    else succeed (record (existing.decision) { status = status })

-- A Go map's zero value for the missing key of `p.decisions[commandID]`.
abbrev pub or_zero_record : Option DecisionRecord → DecisionRecord
or_zero_record none = record { fingerprint = []; decision = zero_decision }
or_zero_record (some r) = r

-- The decision for the best Worker, and the two map writes.
unfoldable pub commit :
    Planner → PlacementRequest → Str → List Candidate → EligibleCandidate → Planner × Planned
unfolding assignment_for
commit p r fingerprint candidates chosen =
    let decision : Decision = record {
      status = applied;
      assignment = assignment_for r chosen;
      barrier = p.barrier;
      candidates = candidates;
    } in
    (
      record p {
        decisions =
            insert r.command_id (record { fingerprint = fingerprint; decision = decision })
              p.decisions;
        assignments = insert r.assignment_id r.command_id p.assignments;
      },
      succeed decision,
    )

unfoldable pub choose :
    Planner → PlacementRequest → Str → List Candidate → List EligibleCandidate → Planner × Planned
unfolding commit
choose p r fingerprint candidates [] = (
  p,
  record {
    decision = record {
      status = unset;
      assignment = zero_assignment;
      barrier = p.barrier;
      candidates = candidates;
    };
    failure = some (classified no_ready_replica "no Worker satisfies the placement constraints");
  },
)
choose p r fingerprint candidates (chosen ∷ _) = commit p r fingerprint candidates chosen

-- `Plan` for a request that no retained decision answers.
unfoldable pub place : Planner → PlacementRequest → Str → List WorkerSnapshot → Planner × Planned
unfolding choose
place p r fingerprint workers =
    if not p.barrier.is_ready
    then (p, fail (classified control_plane_stale "current Leader barrier is not installed"))
    else if leb p.max_decisions (length p.decisions)
    then (p, fail (classified overloaded "scheduler decision capacity is full"))
    else elim (validate_worker_set workers) [
      | some e ↦ (p, fail e)
      | none ↦
          let (candidates, eligible) = evaluate_candidates r workers in
          choose p r fingerprint candidates (sort compare_eligible eligible)
    ]

-- `Plan` behind the validation of the request and its fingerprint.
unfoldable pub plan_with :
    Planner → PlacementRequest → Str → List WorkerSnapshot → Planner × Planned
unfolding replay place
plan_with p r fingerprint workers = elim (lookup r.command_id p.decisions) [
  | some existing ↦ (
    p,
    replay existing fingerprint duplicate "command id was reused with different placement input",
  )
  | none ↦ elim (lookup r.assignment_id p.assignments) [
    | some command_id ↦ (
      p,
      replay (or_zero_record (lookup command_id p.decisions)) fingerprint already_satisfied
          "assignment id was reused with different placement input",
    )
    | none ↦ place p r fingerprint workers
  ]
]

-- The external encodings: `json.Marshal`, `jcs.Transform` and `sha256.Sum256`.
pub record Encoding : Type 0 where
  pub marshal : PlacementRequest → Option Str
  pub transform : Str → Option Str
  pub sha256 : Str → Str

-- One call on the planner.
pub data Call : Type 0 where
  plans : PlacementRequest → List WorkerSnapshot → Call
  acknowledges : Str → Call
  installs : LeaderBarrier → Call
  invalidates : Call

module _ (enc : Encoding) where
  -- The command ID is not part of the fingerprint.
  unfoldable pub request_fingerprint : PlacementRequest → Result Str
  request_fingerprint r = elim (enc.marshal (record r { command_id = [] })) [
    | none ↦ err (plain "marshaling scheduler request")
    | some source ↦
        canonical_json enc.sha256 enc.transform (codes "scheduler-decision") (codes "v1") source
  ]

  unfoldable pub plan : Planner → PlacementRequest → List WorkerSnapshot → Planner × Planned
  unfolding plan_with request_fingerprint
  plan p r workers = elim (validate_request r) [
    | some e ↦ (p, fail e)
    | none ↦ elim (request_fingerprint r) [
      | err e ↦ (p, fail e)
      | ok fingerprint ↦ plan_with p r fingerprint workers
    ]
  ]

  unfoldable pub step : Planner → Call → Planner
  step p (plans r workers) = (plan p r workers).0
  step p (acknowledges id) = (acknowledge p id).0
  step p (installs b) = (install_barrier p b).0
  step p invalidates = invalidate_barrier p

  unfoldable pub run : Planner → List Call → Planner
  unfolding step
  run p [] = p
  run p (c ∷ cs) = run (step p c) cs
