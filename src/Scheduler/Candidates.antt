-- ===== src/Scheduler/Candidates.antt =====
-- internal/scheduler/planner.go: the hard filters and the scores of one placement.
use minicloud.Text.{Str, str_eq}
use minicloud.Base.{
  Bool, List, Map, Option, [], contains, false, if◌then◌else◌, int_eq, is_empty, leb, lookup,
  nat_eq, none, not, some, sort, true, ℕ, ◌!=◌, ◌&&◌, ◌-◌, ◌∷◌,
}
use minicloud.WorkerCache.{key_eq}
use minicloud.ServingAuth.{connection_eq, fence_eq, identity_eq, mode_eq, session_eq}
use minicloud.Scheduler.{
  Candidate, Capacity, FilterReason, PlacementRequest, WorkerSnapshot, intent_not_schedulable,
  invalid_observation, is_ready_state, is_schedulable, labels_not_satisfied, memory_capacity,
  runtime_incompatible, session_not_ready, slot_capacity,
}
use minicloud.Scheduler.Validate.{compatible, validate_worker}
use minicloud.Scheduler.Ranking.{EligibleCandidate, compare_candidates}

-- `labels[key]`: the empty string for a missing key.
abbrev pub or_empty : Option Str → Str
or_empty none = []
or_empty (some s) = s

unfoldable pub labels_match : Map Str Str → Map Str Str → Bool
labels_match labels [] = true
labels_match labels ((key, expected) ∷ required) =
    let rest = labels_match labels required in
    if or_empty (lookup key labels) != expected then false else rest

abbrev pub memory_ok : Capacity → PlacementRequest → Bool
memory_ok c r =
    leb c.allocated_memory_mib c.memory_mib
    && leb r.memory_mib (c.memory_mib - c.allocated_memory_mib)

abbrev pub slots_ok : Capacity → PlacementRequest → Bool
slots_ok c r = leb c.allocated_slots c.slots && leb r.required_slots (c.slots - c.allocated_slots)

-- One `append` under its test.
abbrev pub unless : Bool → FilterReason → List FilterReason → List FilterReason
unless true reason rest = rest
unless false reason rest = reason ∷ rest

unfoldable pub filter_reasons : PlacementRequest → WorkerSnapshot → List FilterReason
filter_reasons r w = unless (is_schedulable w.intent) intent_not_schedulable (
    unless (is_ready_state w.state) session_not_ready (
      unless (compatible w.runtime r) runtime_incompatible (
        unless (labels_match w.labels r.required_labels) labels_not_satisfied (
          unless (memory_ok w.capacity r) memory_capacity
            (unless (slots_ok w.capacity r) slot_capacity [])))))

unfoldable pub cache_score : PlacementRequest → WorkerSnapshot → ℕ
cache_score r w =
    let artifact = if contains r.artifact_digest w.cache.artifacts then 1 else 0 in
    if not (is_empty r.compiled_cache_key.artifact_digest)
      && contains r.compiled_cache_key w.cache.compiled
    then 2
    else artifact

unfoldable pub spread_score : PlacementRequest → WorkerSnapshot → ℕ
spread_score r w = if contains w.session.worker_id r.existing_worker_ids then 0 else 1

rejected : WorkerSnapshot → List FilterReason → Candidate
rejected w reasons = record {
  worker_id = w.session.worker_id;
  session = w.session;
  eligible = false;
  reasons = reasons;
  cache_score = 0;
  load_numerator = 0;
  load_denominator = 0;
}

accepted : PlacementRequest → WorkerSnapshot → Candidate
accepted r w = record {
  worker_id = w.session.worker_id;
  session = w.session;
  eligible = true;
  reasons = [];
  cache_score = cache_score r w;
  load_numerator = w.capacity.allocated_slots;
  load_denominator = w.capacity.slots;
}

unfoldable pub eligible_of : PlacementRequest → WorkerSnapshot → EligibleCandidate
eligible_of r w = record {
  worker = w;
  cache_score = cache_score r w;
  spread_score = spread_score r w;
  load_numerator = w.capacity.allocated_slots;
  load_denominator = w.capacity.slots;
  memory_numerator = w.capacity.allocated_memory_mib;
  memory_denominator = w.capacity.memory_mib;
}

-- The reasons against one Worker; `repeated` says that its ID was seen before.
unfoldable pub reasons_against : PlacementRequest → Bool → WorkerSnapshot → List FilterReason
reasons_against r true w = invalid_observation ∷ []
reasons_against r false w = elim (validate_worker w) [
  | some _ ↦ invalid_observation ∷ []
  | none ↦ filter_reasons r w
]

-- The loop of `evaluateCandidates`, over the Workers left and the IDs seen.
unfoldable pub evaluate_from :
    PlacementRequest → List Str → List WorkerSnapshot → List Candidate × List EligibleCandidate
unfolding rejected accepted eligible_of
evaluate_from r seen [] = ([], [])
evaluate_from r seen (w ∷ ws) =
    let repeated = contains w.session.worker_id seen in
    let (candidates, eligible) =
      evaluate_from r (if repeated then seen else w.session.worker_id ∷ seen) ws in
    elim (reasons_against r repeated w) [
      | [] ↦ (accepted r w ∷ candidates, eligible_of r w ∷ eligible)
      | reason ∷ more ↦ (rejected w (reason ∷ more) ∷ candidates, eligible)
    ]

unfoldable pub evaluate_candidates :
    PlacementRequest → List WorkerSnapshot → List Candidate × List EligibleCandidate
unfolding evaluate_from
evaluate_candidates r workers =
    let (candidates, eligible) = evaluate_from r [] workers in
    (sort compare_candidates candidates, eligible)

-- The loop of `validateWorkerSet`.
unfoldable pub unique_workers : List Str → List WorkerSnapshot → Bool
unique_workers seen [] = true
unique_workers seen (w ∷ ws) =
    let rest = unique_workers (w.session.worker_id ∷ seen) ws in
    if contains w.session.worker_id seen then false else rest
