-- ===== src/Scheduler/Fits.antt =====
-- The hard constraints of a placement, and which Workers the loop of `evaluateCandidates` keeps.
use minicloud.Text.{Str, str_eq}
use minicloud.Base.{
  Bool, Elem, List, Map, [], arith, contains, false, if◌then◌else◌, inl, inr, int_eq, lookup,
  nat_eq, none, refl, true, ◌+◌, ◌∷◌, ◌≡◌, ◌≤◌, ◌⊎◌,
}
use minicloud.ServingAuth.{connection_eq, fence_eq, identity_eq, mode_eq, session_eq}
use minicloud.WorkerCache.{key_eq}
use minicloud.Scheduler.{PlacementRequest, WorkerSnapshot, ready, schedulable}
use minicloud.Scheduler.Validate.{
  compatible, validate_request, validate_request-amounts, validate_worker,
}
use minicloud.Scheduler.Ranking.{EligibleCandidate, HasRatios}
use minicloud.Scheduler.Candidates.{
  eligible_of, evaluate_from, filter_reasons, labels_match, or_empty, reasons_against,
  unique_workers,
}

-- A Worker that meets every hard constraint of a request.
pub record Fits (r : PlacementRequest) (w : WorkerSnapshot) : Type 0 where
  pub observed : validate_worker w ≡ none
  pub wanted : w.intent ≡ schedulable
  pub alive : w.state ≡ ready
  pub same_name : w.runtime.name ≡ r.runtime_name
  pub same_version : w.runtime.version ≡ r.runtime_version
  pub same_engine : w.runtime.engine ≡ r.runtime_engine
  pub same_goos : w.runtime.goos ≡ r.goos
  pub same_goarch : w.runtime.goarch ≡ r.goarch
  pub same_abi : w.runtime.abi ≡ r.abi
  pub same_host_api : w.runtime.host_api ≡ r.host_api
  pub same_features : w.runtime.feature_profile ≡ r.feature_profile
  pub same_memory : w.runtime.memory_mib ≡ r.memory_mib
  pub labelled :
      (key expected : Str)
      → Elem (key, expected) r.required_labels
      → or_empty (lookup key w.labels) ≡ expected
  pub memory_room : w.capacity.allocated_memory_mib + r.memory_mib ≤ w.capacity.memory_mib
  pub slot_room : w.capacity.allocated_slots + r.required_slots ≤ w.capacity.slots

labels_match-all :
    (labels required : Map Str Str)
    → labels_match labels required ≡ true
    → (key expected : Str) → Elem (key, expected) required
    → or_empty (lookup key labels) ≡ expected
unfolding labels_match
labels_match-all labels [] h key expected e = elim e [ ]
labels_match-all labels ((k, v) ∷ rest) h key expected (inl e) = ground arith
labels_match-all labels ((k, v) ∷ rest) h key expected (inr e) =
    labels_match-all labels rest (ground arith) key expected e

all-labels_match :
    (labels required : Map Str Str)
    → ((key expected : Str)
        → Elem (key, expected) required
        → or_empty (lookup key labels) ≡ expected)
    → labels_match labels required ≡ true
unfolding labels_match
all-labels_match labels [] h = refl
all-labels_match labels ((k, v) ∷ rest) h = ground (
  arith,
  h k v (inl refl),
  all-labels_match labels rest (λ key expected e. h key expected (inr e)),
)

-- No reason stands against a Worker exactly when it fits.
pub reasons-Fits :
    (r : PlacementRequest) (w : WorkerSnapshot) → reasons_against r false w ≡ [] → Fits r w
unfolding reasons_against filter_reasons compatible
reasons-Fits r w h = record {
  observed = ground arith;
  wanted = ground arith;
  alive = ground arith;
  same_name = ground arith;
  same_version = ground arith;
  same_engine = ground arith;
  same_goos = ground arith;
  same_goarch = ground arith;
  same_abi = ground arith;
  same_host_api = ground arith;
  same_features = ground arith;
  same_memory = ground arith;
  labelled = labels_match-all w.labels r.required_labels (ground arith);
  memory_room = ground arith;
  slot_room = ground arith;
}

pub Fits-reasons :
    (r : PlacementRequest) (w : WorkerSnapshot) → Fits r w → reasons_against r false w ≡ []
unfolding reasons_against filter_reasons compatible
Fits-reasons r w f = ground (arith, all-labels_match w.labels r.required_labels f.labelled)

abbrev seen_after : List Str → WorkerSnapshot → List Str
seen_after seen w = if contains w.session.worker_id seen then seen else w.session.worker_id ∷ seen

unrepeated :
    (r : PlacementRequest) (repeated : Bool) (w : WorkerSnapshot)
    → reasons_against r repeated w ≡ []
    → repeated ≡ false
unfolding reasons_against
unrepeated r true w h = ground arith
unrepeated r false w h = refl

eligible-cons :
    (r : PlacementRequest) (seen : List Str) (w : WorkerSnapshot) (ws : List WorkerSnapshot)
    (c : EligibleCandidate)
    → Elem c (evaluate_from r seen (w ∷ ws)).1
    → ((reasons_against r (contains w.session.worker_id seen) w ≡ []) × (c ≡ eligible_of r w))
      ⊎ Elem c (evaluate_from r (seen_after seen w) ws).1
unfolding evaluate_from
eligible-cons r seen w ws c e = ground arith

-- The eligible candidates are fitting Workers.
pub eligible-Fits :
    (r : PlacementRequest) (seen : List Str) (ws : List WorkerSnapshot) (c : EligibleCandidate)
    → Elem c (evaluate_from r seen ws).1
    → (w : WorkerSnapshot) × Elem w ws × Fits r w × (c ≡ eligible_of r w)
unfolding evaluate_from
eligible-Fits r seen [] c e = elim e [ ]
eligible-Fits r seen (w ∷ ws) c e = elim (eligible-cons r seen w ws c e) [
  | inl (free, made) ↦ (
    w,
    inl refl,
    reasons-Fits r w (rw (unrepeated r (contains w.session.worker_id seen) w free) at free),
    made,
  )
  | inr m ↦
      let (v, at, fits, equal) = eligible-Fits r (seen_after seen w) ws c m in
      (v, inr at, fits, equal)
]

-- Where no ID repeats, every fitting Worker is among them.
pub Fits-eligible :
    (r : PlacementRequest) (seen : List Str) (ws : List WorkerSnapshot) (w : WorkerSnapshot)
    → unique_workers seen ws ≡ true
    → Fits r w
    → Elem w ws
    → Elem (eligible_of r w) (evaluate_from r seen ws).1
unfolding evaluate_from unique_workers
Fits-eligible r seen [] w u f e = elim e [ ]
Fits-eligible r seen (v ∷ ws) w u f (inl e) = ground (arith, Fits-reasons r w f)
Fits-eligible r seen (v ∷ ws) w u f (inr e) =
    ground (arith, Fits-eligible r (v.session.worker_id ∷ seen) ws w)

-- A fitting Worker has slots and memory, so its ratios have denominators.
pub Fits-HasRatios :
    (r : PlacementRequest) (w : WorkerSnapshot)
    → validate_request r ≡ none
    → Fits r w
    → HasRatios (eligible_of r w)
unfolding eligible_of
Fits-HasRatios r w valid f =
    let (memory, slots, _) = validate_request-amounts r valid in
    record { load = omega arith; memory = omega arith }
