-- ===== src/Scheduler/Planner/Retention.antt =====
-- What the planner retains: its decisions, and the answers to retries.
use minicloud.Scheduler.Planner.Effects.{plan_cases}
use minicloud.Text.{Str, identifier_pattern, str_eq}
use minicloud.Problem.{ok}
use minicloud.Base.{
  Bool-cases, List, Option, Option-cases, [], arith, delete, inl, inr, int_eq, length,
  length-delete-le, length-insert, lookup, lookup-delete, lookup-insert, map_option, nat_eq, none,
  some, ℤ, ◌<◌, ◌∷◌, ◌≡◌, ◌≤◌, ◌⊎◌,
}
use minicloud.ServingAuth.{connection_eq, fence_eq, identity_eq, mode_eq, session_eq}
use minicloud.WorkerCache.{key_eq}
use minicloud.Scheduler.{Candidate, LeaderBarrier, PlacementRequest, WorkerSnapshot, applied}
use minicloud.Scheduler.Ranking.{EligibleCandidate}
use minicloud.Scheduler.Planner.{
  DecisionRecord, Planner, acknowledge, install_barrier, invalidate_barrier, new_planner,
}
use minicloud.Scheduler.Planner.Plan.{
  Call, Encoding, acknowledges, assignment_for, commit, installs, invalidates, plan, plans, run,
  step,
}

-- The Assignment ID of a retained decision.
abbrev pub assigned : Option DecisionRecord → Option Str
assigned = map_option (λ d. d.decision.assignment.assignment_id)

-- The two maps of the planner belong together: each retained decision holds its Assignment, and each
-- held Assignment has its decision.
pub record Inv (p : Planner) : Type 0 where
  pub recorded :
      (id : Str) (d : DecisionRecord)
      → lookup id p.decisions ≡ some d
      → (d.decision.status ≡ applied)
        × (d.decision.assignment.command_id ≡ id)
        × (lookup d.decision.assignment.assignment_id p.assignments ≡ some id)
  pub held :
      (id command_id : Str)
      → lookup id p.assignments ≡ some command_id
      → assigned (lookup command_id p.decisions) ≡ some id
  pub within : length p.decisions ≤ p.max_decisions

new_planner-Inv : (configured : ℤ) (p : Planner) → new_planner configured ≡ ok p → Inv p
unfolding new_planner lookup
new_planner-Inv configured p e = record {
  recorded = λ id d h. ground arith;
  held = λ id c h. ground arith;
  within = ground arith;
}

module _ (p : Planner) (r : PlacementRequest) (fingerprint : Str) (cs : List Candidate)
    (c : EligibleCandidate) where
  unfoldable pub new_record : DecisionRecord
  new_record = record {
    fingerprint = fingerprint;
    decision = record {
      status = applied;
      assignment = assignment_for r c;
      barrier = p.barrier;
      candidates = cs;
    };
  }

  commit-Inv :
      lookup r.command_id p.decisions ≡ none
      → lookup r.assignment_id p.assignments ≡ none
      → length p.decisions < p.max_decisions
      → Inv p
      → Inv (commit p r fingerprint cs c).0
  unfolding commit new_record
  commit-Inv fresh unplaced room v = record {
    recorded = λ id d h. ground (
      arith,
      v.recorded id d,
      lookup-insert r.command_id id new_record p.decisions,
      lookup-insert r.assignment_id r.assignment_id r.command_id p.assignments,
      lookup-insert r.assignment_id d.decision.assignment.assignment_id r.command_id p.assignments,
    );
    held = λ id command_id h. ground (
      arith,
      v.held id command_id,
      lookup-insert r.command_id command_id new_record p.decisions,
      lookup-insert r.assignment_id id r.command_id p.assignments,
    );
    within = ground (arith, v.within, length-insert r.command_id new_record p.decisions);
  }

pub plan-Inv :
    (enc : Encoding) (p : Planner) (r : PlacementRequest) (ws : List WorkerSnapshot)
    → Inv p
    → Inv (plan enc p r ws).0
plan-Inv enc p r ws v =
    plan_cases Inv enc p r ws v λ fingerprint cs c _ fresh unplaced room.
      commit-Inv p r fingerprint cs c fresh unplaced room v

-- What an acknowledgement does: nothing, or it drops a decision and, since they belong together, its
-- Assignment.
acknowledge-effect :
    (p : Planner) (id : Str)
    → Inv p
    → ((acknowledge p id).0 ≡ p)
      ⊎ ((d : DecisionRecord) × (lookup id p.decisions ≡ some d)
          × ((acknowledge p id).0 ≡ record p {
            decisions = delete id p.decisions;
            assignments = delete d.decision.assignment.assignment_id p.assignments;
          }))
unfolding acknowledge
acknowledge-effect p id v = elim (Option-cases (lookup id p.decisions)) [
  | inl missing ↦ inl (ground arith)
  | inr (d, found) ↦ elim (Bool-cases (identifier_pattern id)) [
    | inl valid ↦ inr (d, found, ground (arith, v.recorded id d found))
    | inr invalid_id ↦ inl (ground arith)
  ]
]

dropped-Inv :
    (p : Planner) (k : Str) (d : DecisionRecord)
    → Inv p
    → lookup k p.decisions ≡ some d
    → Inv (record p {
      decisions = delete k p.decisions;
      assignments = delete d.decision.assignment.assignment_id p.assignments;
    })
dropped-Inv p k d v found = record {
  recorded = λ id e h. ground (
    arith,
    v.recorded id e,
    v.recorded k d found,
    lookup-delete k id p.decisions,
    lookup-delete d.decision.assignment.assignment_id e.decision.assignment.assignment_id
        p.assignments,
  );
  held = λ id c h. ground (
    arith,
    v.held id c,
    v.recorded k d found,
    lookup-delete k c p.decisions,
    lookup-delete d.decision.assignment.assignment_id id p.assignments,
  );
  within = ground (arith, v.within, length-delete-le k p.decisions);
}

acknowledge-Inv : (p : Planner) (id : Str) → Inv p → Inv (acknowledge p id).0
acknowledge-Inv p id v = elim (acknowledge-effect p id v) [
  | inl same_planner ↦ rw same_planner v
  | inr (d, found, dropped) ↦ rw dropped (dropped-Inv p id d v found)
]

barrier-Inv : (p : Planner) (b : LeaderBarrier) → Inv p → Inv (install_barrier p b).0
unfolding install_barrier
barrier-Inv p b v = record {
  recorded = λ id d h. ground (arith, v.recorded id d);
  held = λ id c h. ground (arith, v.held id c);
  within = ground (arith, v.within);
}

invalidate-Inv : (p : Planner) → Inv p → Inv (invalidate_barrier p)
unfolding invalidate_barrier
invalidate-Inv p v = record { recorded = v.recorded; held = v.held; within = v.within }

step-Inv : (enc : Encoding) (p : Planner) (c : Call) → Inv p → Inv (step enc p c)
unfolding step
step-Inv enc p (plans r ws) v = plan-Inv enc p r ws v
step-Inv enc p (acknowledges id) v = acknowledge-Inv p id v
step-Inv enc p (installs b) v = barrier-Inv p b v
step-Inv enc p invalidates v = invalidate-Inv p v

pub run-Inv : (enc : Encoding) (p : Planner) (cs : List Call) → Inv p → Inv (run enc p cs)
unfolding run
run-Inv enc p [] v = v
run-Inv enc p (c ∷ cs) v = run-Inv enc (step enc p c) cs (step-Inv enc p c v)

-- After any history of a new planner its two maps belong together, and it retains no more decisions
-- than its limit.
pub run-new_planner-Inv :
    (enc : Encoding) (configured : ℤ) (p : Planner) (cs : List Call)
    → new_planner configured ≡ ok p
    → Inv (run enc p cs)
run-new_planner-Inv enc configured p cs e = run-Inv enc p cs (new_planner-Inv configured p e)
