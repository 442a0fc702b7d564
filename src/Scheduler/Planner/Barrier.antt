-- ===== src/Scheduler/Planner/Barrier.antt =====
-- The Leader barrier: it never moves backwards, and without it nothing new is placed.
use minicloud.Problem.{failed_or}
use minicloud.Text.{str_eq}
use minicloud.ServingAuth.{connection_eq, fence_eq, identity_eq, mode_eq, session_eq}
use minicloud.WorkerCache.{key_eq}
use minicloud.Scheduler.{PlacementRequest, WorkerSnapshot, applied, drain_eq, intent_eq, state_eq}
use minicloud.Scheduler.Planner.{Planner, acknowledge, install_barrier, invalidate_barrier}
use minicloud.Scheduler.Planner.Plan.{
  Call, Encoding, acknowledges, commit, installs, invalidates, plan, plans, run, step,
}
use minicloud.Scheduler.Planner.Effects.{plan_cases}
use minicloud.Base.{
  All, List, [], arith, false, int_eq, nat_eq, none, refl, ◌∷◌, ◌≡◌, ◌≢◌, ◌≤◌, ◌⊎◌,
}

-- Without a term there is no index.
abbrev pub BarrierInv : Planner → Type 0
BarrierInv p = p.barrier.term ≡ 0 → p.barrier.applied_index ≡ 0

abbrev pub Advances : Planner → Planner → Type 0
Advances p q =
    (p.barrier.term ≤ q.barrier.term) × (p.barrier.applied_index ≤ q.barrier.applied_index)

plan-barrier :
    (enc : Encoding) (p : Planner) (r : PlacementRequest) (ws : List WorkerSnapshot)
    → (plan enc p r ws).0.barrier ≡ p.barrier
unfolding commit
plan-barrier enc p r ws =
    plan_cases (λ q. q.barrier ≡ p.barrier) enc p r ws refl λ fingerprint cs c _ _ _ _. refl

step-Advances :
    (enc : Encoding) (p : Planner) (c : Call)
    → BarrierInv p
    → Advances p (step enc p c) × BarrierInv (step enc p c)
unfolding step
step-Advances enc p (plans r ws) v = ground (arith, plan-barrier enc p r ws)
step-Advances enc p (acknowledges id) v = unfold acknowledge in ground arith
step-Advances enc p (installs b) v = unfold install_barrier in ground arith
step-Advances enc p invalidates v = unfold invalidate_barrier in ground arith

-- From a planner whose barrier has no index without a term, no history moves the term or the applied
-- index of the barrier backwards.
pub run-Advances :
    (enc : Encoding) (p : Planner) (cs : List Call) → BarrierInv p → Advances p (run enc p cs)
unfolding run
run-Advances enc p [] v = omega arith
run-Advances enc p (c ∷ cs) v =
    let (advanced, kept) = step-Advances enc p c v in
    omega (arith, advanced, run-Advances enc (step enc p c) cs kept)

-- A call that installs no barrier.
abbrev pub InstallsNone : Call → Type 0
InstallsNone (installs _) = ⊥
InstallsNone _ = Unit {0}

step_unready :
    (enc : Encoding) (p : Planner) (c : Call)
    → InstallsNone c
    → p.barrier.is_ready ≡ false
    → (step enc p c).barrier.is_ready ≡ false
unfolding step
step_unready enc p (plans r ws) i h = ground (arith, plan-barrier enc p r ws)
step_unready enc p (acknowledges id) i h = unfold acknowledge in ground arith
step_unready enc p (installs b) i h = absurd i
step_unready enc p invalidates i h = unfold invalidate_barrier in refl

run_unready :
    (enc : Encoding) (p : Planner) (cs : List Call)
    → All InstallsNone cs
    → p.barrier.is_ready ≡ false
    → (run enc p cs).barrier.is_ready ≡ false
unfolding run
run_unready enc p [] i h = h
run_unready enc p (c ∷ cs) i h = run_unready enc (step enc p c) cs i.1 (step_unready enc p c i.0 h)

unready_places_nothing :
    (enc : Encoding) (q : Planner) (r : PlacementRequest) (ws : List WorkerSnapshot)
    → q.barrier.is_ready ≡ false
    → ((plan enc q r ws).0 ≡ q)
      × ((plan enc q r ws).1.failure ≡ none → (plan enc q r ws).1.decision.status ≢ applied)
unfolding plan
unready_places_nothing enc q r ws h = ground arith

-- After the barrier is withdrawn, and until one is installed, no call of `Plan` makes a new decision:
-- it leaves the planner as it is, and returns an error or a decision that is not newly applied.
pub withdrawn_places_nothing :
    (enc : Encoding) (p : Planner) (cs : List Call) (r : PlacementRequest)
    (ws : List WorkerSnapshot)
    → All InstallsNone cs
    → let q = run enc (invalidate_barrier p) cs in
      ((plan enc q r ws).0 ≡ q)
      × (((plan enc q r ws).1.failure ≢ none) ⊎ ((plan enc q r ws).1.decision.status ≢ applied))
withdrawn_places_nothing enc p cs r ws i =
    let unready = run_unready enc (invalidate_barrier p) cs i (unfold invalidate_barrier in refl) in
    let q = run enc (invalidate_barrier p) cs in
    let (unchanged, answer) = unready_places_nothing enc q r ws unready in
    (unchanged, failed_or (plan enc q r ws).1.failure answer)
