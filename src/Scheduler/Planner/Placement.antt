-- ===== src/Scheduler/Planner/Placement.antt =====
-- Which Worker a placement chooses.
use minicloud.Scheduler.Planner.Effects.{place-choice, plan-applied}
use minicloud.Scheduler.Fits.{Fits, Fits-HasRatios, Fits-eligible, eligible-Fits}
use minicloud.Problem.{ok}
use minicloud.Scheduler.Planner.{Planned, Planner}
use minicloud.Scheduler.Planner.Plan.{
  Encoding, assignment_for, commit, place, plan, request_fingerprint, validate_worker_set,
}
use minicloud.Scheduler.Ranking.{
  EligibleCandidate, HasRatios, compare_eligible, compare_eligible-IsRanking,
}
use minicloud.Text.{Str, str_eq}
use minicloud.Base.{
  Elem, Elem-sort, List, [], after, arith, int_eq, length, lookup, nat_eq, none, sort, sort-head,
  subst, sym, true, ◌<◌, ◌∷◌, ◌≡◌, ◌≢◌,
}
use minicloud.ServingAuth.{connection_eq, fence_eq, identity_eq, mode_eq, session_eq}
use minicloud.WorkerCache.{key_eq}
use minicloud.Scheduler.{Candidate, PlacementRequest, WorkerSnapshot, applied}
use minicloud.Scheduler.Validate.{validate_request}
use minicloud.Scheduler.Candidates.{eligible_of, evaluate_candidates, evaluate_from, unique_workers}

-- The best of the fitting Workers.
pub record IsBest (r : PlacementRequest) (workers : List WorkerSnapshot) (w : WorkerSnapshot)
    : Type 0 where
  pub observed : Elem w workers
  pub fits : Fits r w
  pub best :
      (v : WorkerSnapshot)
      → Elem v workers
      → Fits r v
      → compare_eligible (eligible_of r w) (eligible_of r v) ≢ after

set_unique :
    (ws : List WorkerSnapshot) → validate_worker_set ws ≡ none → unique_workers [] ws ≡ true
unfolding validate_worker_set
set_unique ws h = ground arith

chosen-IsBest :
    (r : PlacementRequest) (ws : List WorkerSnapshot) {c : EligibleCandidate}
    {rest : List EligibleCandidate}
    → validate_request r ≡ none
    → validate_worker_set ws ≡ none
    → sort compare_eligible (evaluate_candidates r ws).1 ≡ c ∷ rest
    → (w : WorkerSnapshot) × IsBest r ws w × (c ≡ eligible_of r w)
unfolding evaluate_candidates
chosen-IsBest r ws {c} valid unique e =
    let eligible = (evaluate_from r [] ws).1 in
    let ratios : (z : EligibleCandidate) → Elem z eligible → HasRatios z = λ z m.
      let (v, _, fits, made) = eligible-Fits r [] ws z m in
      subst HasRatios (sym made) (Fits-HasRatios r v valid fits) in
    let (listed, least) = sort-head compare_eligible compare_eligible-IsRanking eligible ratios e in
    let (w, observed, fits, made) = eligible-Fits r [] ws c listed in
    (
      w,
      record {
        observed = observed;
        fits = fits;
        best = λ v at fitting.
            subst (λ x. compare_eligible x (eligible_of r v) ≢ after) made
              (least (eligible_of r v) (Fits-eligible r [] ws v (set_unique ws unique) fitting at));
      },
      made,
    )

-- A new decision is under a ready barrier, for a Worker of the given observations that meets every
-- hard constraint, and that no other such Worker precedes in the preference order.
pub plan-IsBest :
    (enc : Encoding) (p : Planner) (r : PlacementRequest) (ws : List WorkerSnapshot)
    → (plan enc p r ws).1.failure ≡ none
    → (plan enc p r ws).1.decision.status ≡ applied
    → (p.barrier.is_ready ≡ true)
      × ((w : WorkerSnapshot) × IsBest r ws w
          × ((plan enc p r ws).1.decision.assignment ≡ assignment_for r (eligible_of r w)))
unfolding commit
plan-IsBest enc p r ws h s =
    let (fingerprint, valid, _, _, _, placed) = plan-applied enc p r ws h s in
    let (c, rest, unique, leader, _, sorted, committed) =
      place-choice p r fingerprint ws (ground (arith, placed)) in
    let (w, is_best, made) = chosen-IsBest r ws valid unique sorted in
    (leader, (w, is_best, commit-assignment p r fingerprint _ c w placed committed made))
  where
    commit-assignment :
        (p : Planner) (r : PlacementRequest) (fingerprint : Str) (cs : List Candidate)
        (c : EligibleCandidate) (w : WorkerSnapshot) {q : Planner × Planned}
        → q ≡ place p r fingerprint ws
        → place p r fingerprint ws ≡ commit p r fingerprint cs c
        → c ≡ eligible_of r w
        → q.1.decision.assignment ≡ assignment_for r (eligible_of r w)
    commit-assignment p r fingerprint cs c w e f g = ground (arith, e, f, g)

Fits-chosen :
    (r : PlacementRequest) (ws : List WorkerSnapshot) (w : WorkerSnapshot)
    → validate_worker_set ws ≡ none
    → Elem w ws
    → Fits r w
    → sort compare_eligible (evaluate_candidates r ws).1 ≢ []
unfolding evaluate_candidates
Fits-chosen r ws w unique at fits empty = no_element (eligible_of r w) (
    subst (Elem (eligible_of r w)) empty (
      Elem-sort compare_eligible (eligible_of r w) (evaluate_from r [] ws).1
        (Fits-eligible r [] ws w (set_unique ws unique) fits at)))
  where
    no_element : (c : EligibleCandidate) → Elem c [] → ⊥
    no_element c e = elim e [ ]

place_unless-empty :
    (p : Planner) (r : PlacementRequest) (fingerprint : Str) (ws : List WorkerSnapshot)
    → p.barrier.is_ready ≡ true
    → length p.decisions < p.max_decisions
    → validate_worker_set ws ≡ none
    → sort compare_eligible (evaluate_candidates r ws).1 ≢ []
    → ((place p r fingerprint ws).1.failure ≡ none)
      × ((place p r fingerprint ws).1.decision.status ≡ applied)
unfolding place
place_unless-empty p r fingerprint ws leader room unique some_left = ground arith

-- A valid request whose fingerprint can be computed, with a command and an Assignment that no retained
-- decision has, is placed under a ready barrier with room for a decision, whenever the observed Workers
-- are a valid set (not too many, and no Worker twice) and some one of them meets its constraints.
pub plan-succeeds :
    (enc : Encoding) (p : Planner) (r : PlacementRequest) (ws : List WorkerSnapshot)
    (w : WorkerSnapshot) {fingerprint : Str}
    → validate_request r ≡ none
    → request_fingerprint enc r ≡ ok fingerprint
    → lookup r.command_id p.decisions ≡ none
    → lookup r.assignment_id p.assignments ≡ none
    → p.barrier.is_ready ≡ true
    → length p.decisions < p.max_decisions
    → validate_worker_set ws ≡ none
    → Elem w ws
    → Fits r w
    → ((plan enc p r ws).1.failure ≡ none) × ((plan enc p r ws).1.decision.status ≡ applied)
unfolding plan
plan-succeeds enc p r ws w {fingerprint} valid encoded fresh unplaced leader room unique at fits =
    ground (
      arith,
      place_unless-empty p r fingerprint ws leader room unique (Fits-chosen r ws w unique at fits),
    )
