-- ===== src/Scheduler/Planner/Effects.antt =====
-- What a call of `Plan` does to the planner.
use minicloud.Scheduler.Validate.{validate_request}
use minicloud.Scheduler.Candidates.{evaluate_candidates}
use minicloud.Text.{Str, str_eq}
use minicloud.Problem.{Error, ok}
use minicloud.Base.{
  List, Option-cases, arith, inl, inr, int_eq, length, lookup, nat_eq, none, refl, some, sort,
  subst, sym, true, ◌<◌, ◌∙◌, ◌∷◌, ◌≡◌, ◌≢◌, ◌⊎◌,
}
use minicloud.ServingAuth.{connection_eq, fence_eq, identity_eq, mode_eq, session_eq}
use minicloud.WorkerCache.{key_eq}
use minicloud.Scheduler.{
  Candidate, DecisionStatus, PlacementRequest, WorkerSnapshot, already_satisfied, applied,
  duplicate, unset,
}
use minicloud.Scheduler.Ranking.{EligibleCandidate, compare_eligible}
use minicloud.Scheduler.Planner.{Planner}
use minicloud.Scheduler.Planner.Plan.{
  Encoding, commit, place, plan, request_fingerprint, validate_worker_set,
}

-- A successful placement commits the head of the sorted list.
pub place-choice :
    (p : Planner) (r : PlacementRequest) (fingerprint : Str) (ws : List WorkerSnapshot)
    → (place p r fingerprint ws).1.failure ≡ none
    → (c : EligibleCandidate) × (rest : List EligibleCandidate) × (validate_worker_set ws ≡ none)
      × (p.barrier.is_ready ≡ true)
      × (length p.decisions < p.max_decisions)
      × (sort compare_eligible (evaluate_candidates r ws).1 ≡ c ∷ rest)
      × (place p r fingerprint ws ≡ commit p r fingerprint (evaluate_candidates r ws).0 c)
unfolding place
place-choice p r fingerprint ws h = ground arith

-- A fresh decision comes from `place`, and a replayed one has another status.
pub plan-applied :
    (enc : Encoding) (p : Planner) (r : PlacementRequest) (ws : List WorkerSnapshot)
    → (plan enc p r ws).1.failure ≡ none
    → (plan enc p r ws).1.decision.status ≡ applied
    → (fingerprint : Str) × (validate_request r ≡ none)
      × (request_fingerprint enc r ≡ ok fingerprint)
      × (lookup r.command_id p.decisions ≡ none)
      × (lookup r.assignment_id p.assignments ≡ none)
      × (plan enc p r ws ≡ place p r fingerprint ws)
unfolding plan
plan-applied enc p r ws h s = ground arith

-- Any other answer leaves the planner as it was.
plan_refused :
    (enc : Encoding) (p : Planner) (r : PlacementRequest) (ws : List WorkerSnapshot) {e : Error}
    → (plan enc p r ws).1.failure ≡ some e
    → (plan enc p r ws).0 ≡ p
unfolding plan
plan_refused enc p r ws h = ground arith

plan_replayed :
    (enc : Encoding) (p : Planner) (r : PlacementRequest) (ws : List WorkerSnapshot)
    → (plan enc p r ws).1.decision.status ≢ applied
    → (plan enc p r ws).0 ≡ p
unfolding plan
plan_replayed enc p r ws s = ground arith

status_cases : (s : DecisionStatus) → (s ≡ applied) ⊎ (s ≢ applied)
status_cases applied = inl refl
status_cases unset = inr (λ e. cc)
status_cases duplicate = inr (λ e. cc)
status_cases already_satisfied = inr (λ e. cc)

-- What a call of `Plan` does: it keeps the planner, or commits one fresh decision.
pub plan_cases {ℓ} :
    (P : Planner → Type ℓ) (enc : Encoding) (p : Planner) (r : PlacementRequest)
    (ws : List WorkerSnapshot)
    → P p
    → ((fingerprint : Str) (cs : List Candidate) (c : EligibleCandidate)
        → request_fingerprint enc r ≡ ok fingerprint
        → lookup r.command_id p.decisions ≡ none
        → lookup r.assignment_id p.assignments ≡ none
        → length p.decisions < p.max_decisions
        → P (commit p r fingerprint cs c).0)
    → P (plan enc p r ws).0
plan_cases P enc p r ws kept committed = elim (Option-cases (plan enc p r ws).1.failure) [
  | inr (e, h) ↦ rw (plan_refused enc p r ws h) kept
  | inl h ↦ elim (status_cases (plan enc p r ws).1.decision.status) [
    | inr s ↦ rw (plan_replayed enc p r ws s) kept
    | inl s ↦
        let (fingerprint, _, encoded, fresh, unplaced, placed) = plan-applied enc p r ws h s in
        let (c, _, _, _, room, _, result) =
          place-choice p r fingerprint ws (ground (arith, placed)) in
        subst (λ q. P q.0) (sym (placed ∙ result))
          (committed fingerprint (evaluate_candidates r ws).0 c encoded fresh unplaced room)
  ]
]
