-- ===== src/Scheduler/Planner.antt =====
-- internal/scheduler/planner.go: the planner's state, its barrier and acknowledgements. Each method runs under the mutex, so it is one
-- step on the record.
pub mod Plan
pub mod Retention
pub mod Placement
pub mod Effects
pub mod Idempotence
pub mod Barrier
use minicloud.Text.{Str, identifier_pattern, str_eq}
use minicloud.Problem.{
  Error, Result, classified, err, invalid, no_quorum, ok, plain, stale_generation,
}
use minicloud.Base.{
  Map, Option, [], delete, false, if◌then◌else◌, int_eq, is_zero_ℤ, length, lookup, ltb, ltb_ℤ,
  nat_eq, none, not, pos, pos_part, some, zero, ℕ, ℤ, ◌!=◌, ◌&&◌, ◌==◌, ◌||◌,
}
use minicloud.WorkerCache.{key_eq}
use minicloud.ServingAuth.{connection_eq, fence_eq, identity_eq, mode_eq, session_eq}
use minicloud.Scheduler.{
  Assignment, Decision, LeaderBarrier, applied, default_max_decisions, hard_max_decisions, unset,
}
use minicloud.Scheduler.Candidates.{or_empty}

pub record DecisionRecord : Type 0 where
  pub fingerprint : Str
  pub decision : Decision

pub record Planner : Type 0 where
  pub max_decisions : ℕ
  pub barrier : LeaderBarrier
  pub decisions : Map Str DecisionRecord
  pub assignments : Map Str Str

abbrev zero_barrier : LeaderBarrier
zero_barrier = record { term = 0; applied_index = 0; is_ready = false }

abbrev pub zero_assignment : Assignment
zero_assignment = record {
  command_id = [];
  assignment_id = [];
  worker = record { worker_id = []; boot_id = []; session_epoch = 0 };
  version_id = [];
  artifact_digest = [];
  artifact_size = pos 0;
  abi = [];
  host_api = [];
  feature_profile = [];
  memory_mib = 0;
  required_slots = 0;
  admission_epoch = 0;
  deployment_generation = 0;
  policy_digest = [];
}

abbrev pub zero_decision : Decision
zero_decision = record {
  status = unset;
  assignment = zero_assignment;
  barrier = zero_barrier;
  candidates = [];
}

-- The values that a call of `Plan` returns.
pub record Planned : Type 0 where
  pub decision : Decision
  pub failure : Option Error

abbrev pub fail : Error → Planned
fail e = record { decision = zero_decision; failure = some e }

abbrev pub succeed : Decision → Planned
succeed d = record { decision = d; failure = none }

unfoldable pub new_planner : ℤ → Result Planner
new_planner configured =
    let limit = if is_zero_ℤ configured then default_max_decisions else configured in
    if ltb_ℤ limit (pos 1) || ltb_ℤ hard_max_decisions limit
    then err (plain "scheduler decision limit is outside v1 bounds")
    else ok (record {
      max_decisions = pos_part limit;
      barrier = zero_barrier;
      decisions = [];
      assignments = [];
    })

unfoldable pub install_barrier : Planner → LeaderBarrier → Planner × Option Error
install_barrier p b =
    if b.term == 0 || b.applied_index == 0
    then (p, some (invalid "leader_barrier" "term and applied index must be greater than zero"))
    else if not b.is_ready
    then (p, some (classified no_quorum "leader barrier is not committed"))
    else if p.barrier.term != 0
        && (ltb b.term p.barrier.term || ltb b.applied_index p.barrier.applied_index)
    then (p, some (classified stale_generation "leader barrier moved backwards"))
    else (record p { barrier = b }, none)

unfoldable pub invalidate_barrier : Planner → Planner
invalidate_barrier p = record p { barrier = withdrawn }
  where
    withdrawn : LeaderBarrier
    withdrawn = record {
      term = p.barrier.term;
      applied_index = p.barrier.applied_index;
      is_ready = false;
    }

unfoldable pub decision_count : Planner → ℕ
decision_count p = length p.decisions

unfoldable pub acknowledge : Planner → Str → Planner × Option Error
acknowledge p command_id =
    if not (identifier_pattern command_id)
    then (p, some (invalid "command_id" "must be a valid identifier"))
    else elim (lookup command_id p.decisions) [
      | none ↦ (p, none)
      | some existing ↦
          let id = existing.decision.assignment.assignment_id in
          (
            record p {
              decisions = delete command_id p.decisions;
              assignments =
                  if or_empty (lookup id p.assignments) == command_id
                  then delete id p.assignments
                  else p.assignments;
            },
            none,
          )
    ]
