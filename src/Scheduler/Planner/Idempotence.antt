-- ===== src/Scheduler/Planner/Idempotence.antt =====
-- Retries: what a repeated command or a second command for a placed Assignment gets.
use minicloud.Text.{Str, str_eq}
use minicloud.Problem.{failed_or, ok}
use minicloud.ServingAuth.{connection_eq, fence_eq, identity_eq, mode_eq, session_eq}
use minicloud.WorkerCache.{key_eq}
use minicloud.Scheduler.{
  Decision, PlacementRequest, WorkerSnapshot, already_satisfied, applied, drain_eq, duplicate,
  intent_eq, state_eq,
}
use minicloud.Scheduler.Validate.{validate_request}
use minicloud.Scheduler.Candidates.{evaluate_candidates}
use minicloud.Scheduler.Planner.{
  DecisionRecord, Planner, acknowledge, install_barrier, invalidate_barrier, succeed,
}
use minicloud.Scheduler.Planner.Plan.{
  Call, Encoding, acknowledges, assignment_for, commit, installs, invalidates, plan, plans,
  request_fingerprint, run, step,
}
use minicloud.Scheduler.Planner.Effects.{place-choice, plan-applied, plan_cases}
use minicloud.Scheduler.Planner.Retention.{Inv, new_record, plan-Inv, run-Inv}
use minicloud.Base.{
  All, List, [], arith, int_eq, lookup, lookup-delete, lookup-insert, nat_eq, none, some, ◌∙◌, ◌∷◌,
  ◌≡◌, ◌≢◌, ◌⊎◌,
}

plan_keeps :
    (enc : Encoding) (p : Planner) (r : PlacementRequest) (ws : List WorkerSnapshot) (id : Str)
    {d : DecisionRecord}
    → lookup id p.decisions ≡ some d
    → lookup id (plan enc p r ws).0.decisions ≡ some d
unfolding commit new_record
plan_keeps enc p r ws id {d} h =
    plan_cases (λ q. lookup id q.decisions ≡ some d) enc p r ws h
      λ fingerprint cs c _ fresh _ _.
        ground (arith, lookup-insert r.command_id id (new_record p r fingerprint cs c) p.decisions)

acknowledge_keeps :
    (p : Planner) (k id : Str) {d : DecisionRecord}
    → k ≢ id
    → lookup id p.decisions ≡ some d
    → lookup id (acknowledge p k).0.decisions ≡ some d
unfolding acknowledge
acknowledge_keeps p k id differ h = ground (arith, lookup-delete k id p.decisions)

-- A call other than the acknowledgement of this command.
abbrev pub Spares : Str → Call → Type 0
Spares id (acknowledges k) = k ≢ id
Spares id _ = Unit {0}

step_keeps :
    (enc : Encoding) (p : Planner) (c : Call) (id : Str) {d : DecisionRecord}
    → Spares id c
    → lookup id p.decisions ≡ some d
    → lookup id (step enc p c).decisions ≡ some d
unfolding step install_barrier invalidate_barrier
step_keeps enc p (acknowledges k) id s h = acknowledge_keeps p k id s h
step_keeps enc p (plans r ws) id s h = plan_keeps enc p r ws id h
step_keeps enc p (installs b) id s h = ground arith
step_keeps enc p invalidates id s h = h

run_keeps :
    (enc : Encoding) (p : Planner) (cs : List Call) (id : Str) {d : DecisionRecord}
    → All (Spares id) cs
    → lookup id p.decisions ≡ some d
    → lookup id (run enc p cs).decisions ≡ some d
unfolding run
run_keeps enc p [] id s h = h
run_keeps enc p (c ∷ cs) id s h =
    run_keeps enc (step enc p c) cs id s.1 (step_keeps enc p c id s.0 h)

-- A fresh decision is retained under its command, with the fingerprint of its request.
applied_recorded :
    (enc : Encoding) (p : Planner) (r : PlacementRequest) (ws : List WorkerSnapshot)
    → (plan enc p r ws).1.failure ≡ none
    → (plan enc p r ws).1.decision.status ≡ applied
    → (fingerprint : Str) × (validate_request r ≡ none)
      × (request_fingerprint enc r ≡ ok fingerprint)
      × (lookup r.command_id (plan enc p r ws).0.decisions
          ≡ some (record { fingerprint = fingerprint; decision = (plan enc p r ws).1.decision }))
      × ((plan enc p r ws).1.decision.assignment.assignment_id ≡ r.assignment_id)
unfolding commit new_record assignment_for
applied_recorded enc p r ws h s =
    let (fingerprint, valid, encoded, fresh, unplaced, placed) = plan-applied enc p r ws h s in
    let (c, _, _, _, _, _, result) = place-choice p r fingerprint ws (ground (arith, placed)) in
    let made = placed ∙ result in
    (
      fingerprint,
      valid,
      encoded,
      ground (
        arith,
        made,
        lookup-insert r.command_id r.command_id
            (new_record p r fingerprint (evaluate_candidates r ws).0 c) p.decisions,
      ),
      ground (arith, made),
    )

retained_answers :
    (enc : Encoding) (q : Planner) (r : PlacementRequest) (ws : List WorkerSnapshot)
    (fingerprint : Str) {d : Decision}
    → validate_request r ≡ none
    → request_fingerprint enc r ≡ ok fingerprint
    → lookup r.command_id q.decisions ≡ some (record { fingerprint = fingerprint; decision = d })
    → plan enc q r ws ≡ (q, succeed (record d { status = duplicate }))
unfolding plan
retained_answers enc q r ws fingerprint valid encoded found = ground arith

-- A decision that was applied answers every later call with the same request, whatever Workers are
-- observed then, as a duplicate and with no effect, until its command is acknowledged.
pub plan-retry :
    (enc : Encoding) (p : Planner) (r : PlacementRequest) (ws ws' : List WorkerSnapshot)
    (cs : List Call)
    → (plan enc p r ws).1.failure ≡ none
    → (plan enc p r ws).1.decision.status ≡ applied
    → All (Spares r.command_id) cs
    → let decided = (plan enc p r ws).1.decision in
      let later = run enc (plan enc p r ws).0 cs in
      plan enc later r ws' ≡ (later, succeed (record decided { status = duplicate }))
plan-retry enc p r ws ws' cs h s spared =
    let (fingerprint, valid, encoded, found, _) = applied_recorded enc p r ws h s in
    retained_answers enc (run enc (plan enc p r ws).0 cs) r ws' fingerprint valid encoded
      (run_keeps enc (plan enc p r ws).0 cs r.command_id spared found)

assignment_answers :
    (enc : Encoding) (q : Planner) (r : PlacementRequest) (ws : List WorkerSnapshot) (id : Str)
    {d : DecisionRecord}
    → lookup r.command_id q.decisions ≡ none
    → lookup r.assignment_id q.assignments ≡ some id
    → lookup id q.decisions ≡ some d
    → ((plan enc q r ws).0 ≡ q)
      × ((plan enc q r ws).1.failure ≡ none
          → (plan enc q r ws).1.decision ≡ record (d.decision) { status = already_satisfied })
unfolding plan
assignment_answers enc q r ws id fresh held found = ground arith

-- Until its command is acknowledged, an Assignment is not placed again. A fresh command for it leaves
-- the planner as it is, and gets the decision that was applied, as already satisfied, or an error.
pub plan-same_assignment :
    (enc : Encoding) (p : Planner) (r r' : PlacementRequest) (ws ws' : List WorkerSnapshot)
    (cs : List Call)
    → Inv p
    → (plan enc p r ws).1.failure ≡ none
    → (plan enc p r ws).1.decision.status ≡ applied
    → All (Spares r.command_id) cs
    → r'.assignment_id ≡ r.assignment_id
    → lookup r'.command_id (run enc (plan enc p r ws).0 cs).decisions ≡ none
    → let decided = (plan enc p r ws).1.decision in
      let later = run enc (plan enc p r ws).0 cs in
      ((plan enc later r' ws').0 ≡ later)
      × (((plan enc later r' ws').1.failure ≢ none)
          ⊎ ((plan enc later r' ws').1.decision ≡ record decided { status = already_satisfied }))
plan-same_assignment enc p r r' ws ws' cs v h s spared e fresh =
    let (fingerprint, valid, encoded, found, id) = applied_recorded enc p r ws h s in
    let kept = run_keeps enc (plan enc p r ws).0 cs r.command_id spared found in
    let later = run-Inv enc (plan enc p r ws).0 cs (plan-Inv enc p r ws v) in
    let q = run enc (plan enc p r ws).0 cs in
    let (unchanged, answer) =
      assignment_answers enc q r' ws' r.command_id fresh
        (ground (arith, e, id, later.recorded r.command_id _ kept)) kept in
    (unchanged, failed_or (plan enc q r' ws').1.failure answer)
