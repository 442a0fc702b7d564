-- ===== src/Registry/Lifecycle.antt =====
-- The life of one Worker record as a step relation.
use minicloud.Text.{Str, Str-discrete, str_eq}
use minicloud.Base.{
  Bool-cases, Map, Option, [], arith, false, if◌then◌else◌, inl, inr, insert, int_eq, lookup,
  lookup-insert, lookup-map_values, map_option, map_values, nat_eq, none, not, some, subst, sym,
  true, ℤ, ◌&&◌, ◌+◌, ◌<◌, ◌≡◌, ◌≢◌, ◌⊎◌,
}
use minicloud.ServingAuth.{WorkerSession, connection_eq, fence_eq, identity_eq, mode_eq, session_eq}
use minicloud.Scheduler.{
  drain_eq, drain_started, drained, draining, intent_eq, joining, not_draining, ready, removed,
  schedulable, state_eq, unavailable,
}
use minicloud.Scheduler.Validate.{validate_worker}
use minicloud.Registry.{
  DrainObservation, Inventory, Registry, WorkerRecord, is_removed, lose_record, u64, zero_capacity,
  zero_hints, zero_runtime,
}
use minicloud.Registry.Methods.{joining_record, observation}
use minicloud.Registry.Control.{classify, next_drain}

-- A record as `CommitSession` leaves it.
abbrev pub with_session : WorkerRecord → WorkerSession → WorkerRecord
with_session w s = record w {
  max_session_epoch = s.session_epoch;
  boot_id = s.boot_id;
  current = s;
  registered = false;
  needs_new_session = false;
  has_inventory = false;
  inventory_revision = 0;
  runtime = zero_runtime;
  capacity = zero_capacity;
  labels = [];
  cache = zero_hints;
  state = joining;
}

pub data Change (w : WorkerRecord) : WorkerRecord → Type 0 where
  keep : Change w w
  lose :
      w.registered ≡ true
      → is_removed w.intent ≡ false
      → Change w (record w { state = unavailable })
  commit :
      (s : WorkerSession)
      → is_removed w.intent ≡ false
      → s.session_epoch ≡ u64 (w.max_session_epoch + 1)
      → 0 < s.session_epoch
      → Change w (with_session w s)
  enrol :
      (s : WorkerSession) (now : ℤ)
      → is_removed w.intent ≡ false
      → s.session_epoch ≡ w.max_session_epoch
      → s.boot_id ≡ w.boot_id
      → w.needs_new_session ≡ false
      → w.registered ≡ false
      → Change w (record w {
        current = s;
        registered = true;
        has_inventory = false;
        state = joining;
        last_heartbeat = now;
      })
  report :
      (i : Inventory) (now : ℤ)
      → w.registered ≡ true
      → w.current ≡ i.session
      → w.needs_new_session ≡ false
      → validate_worker (observation w i) ≡ none
      → Change w (record w {
        runtime = i.runtime;
        capacity = i.capacity;
        labels = i.labels;
        cache = i.cache;
        has_inventory = true;
        inventory_revision = i.revision;
        state = ready;
        last_heartbeat = now;
      })
  beat_on :
      (now : ℤ)
      → w.registered ≡ true
      → w.needs_new_session ≡ false
      → Change w (record w { last_heartbeat = now })
  revive :
      (now : ℤ)
      → w.registered ≡ true
      → w.needs_new_session ≡ false
      → w.has_inventory ≡ true
      → Change w (record w { last_heartbeat = now; state = ready })
  assess :
      (r : Registry) (elapsed : ℤ)
      → w.registered ≡ true
      → w.needs_new_session ≡ false
      → w.has_inventory ≡ true
      → Change w (record w { state = classify r elapsed })
  start_drain :
      w.intent ≢ removed → Change w (record w { intent = draining; drain = drain_started })
  activate :
      w.intent ≢ removed
      → Change w (record w {
        intent = schedulable;
        drain = not_draining;
        needs_new_session = true;
        state = joining;
      })
  retire :
      w.intent ≡ draining
      → w.drain ≡ drained
      → Change w (record w { intent = removed; registered = false; state = unavailable })
  observe_drain :
      (o : DrainObservation)
      → w.registered ≡ true
      → w.intent ≡ draining
      → Change w (record w { drain = next_drain o })

-- What one call may do at one Worker ID: records are born by a first commitment, and never vanish.
abbrev pub Evolved : Option WorkerRecord → Option WorkerRecord → Type 0
Evolved none none = Unit
Evolved none (some w) =
    (s : WorkerSession) × (s.session_epoch ≡ 1) × (w ≡ with_session (joining_record s.worker_id) s)
Evolved (some v) none = ⊥
Evolved (some v) (some w) = Change v w

abbrev pub Evolves : Map Str WorkerRecord → Map Str WorkerRecord → Type 0
Evolves m n = (id : Str) → Evolved (lookup id m) (lookup id n)

pub Evolved-refl : (o : Option WorkerRecord) → Evolved o o
Evolved-refl none = tt
Evolved-refl (some w) = keep

insert-Evolves :
    (m : Map Str WorkerRecord) (k : Str) (v : WorkerRecord)
    → Evolved (lookup k m) (some v)
    → Evolves m (insert k v m)
insert-Evolves m k v e id = rw (lookup-insert k id v m) (at (Str-discrete k id))
  where
    at :
        (d : Dec (k ≡ id))
        → Evolved
            (lookup id m)
            (if elim d [ yes _ ↦ true | no _ ↦ false ] then some v else lookup id m)
    at (yes p) = subst (λ j. Evolved (lookup j m) (some v)) p e
    at (no p) = Evolved-refl (lookup id m)

lose-Evolves : (m : Map Str WorkerRecord) → Evolves m (map_values lose_record m)
unfolding lose_record
lose-Evolves m id = rw (lookup-map_values lose_record id m) (lost (lookup id m))
  where
    lost : (o : Option WorkerRecord) → Evolved o (map_option lose_record o)
    lost none = tt
    lost (some w) = elim (Bool-cases (w.registered && not (is_removed w.intent))) [
      | inl hit ↦ rw (hit, lose_record) (lose (ground arith) (ground arith))
      | inr miss ↦ rw (miss, lose_record) keep
    ]

abbrev pub Unchanged : Registry → Map Str WorkerRecord → Type 0
Unchanged r m = (m ≡ r.workers) ⊎ (m ≡ map_values lose_record r.workers)

pub Unchanged-Evolves :
    (r : Registry) (m : Map Str WorkerRecord) → Unchanged r m → Evolves r.workers m
Unchanged-Evolves r m (inl e) = rw e (λ id. Evolved-refl (lookup id r.workers))
Unchanged-Evolves r m (inr e) = rw e (lose-Evolves r.workers)

-- A write of a changed record under its ID.
pub written :
    (r : Registry) (k : Str) {w v : WorkerRecord} (m : Map Str WorkerRecord)
    → lookup k r.workers ≡ some w
    → Change w v
    → m ≡ insert k v r.workers
    → Evolves r.workers m
written r k {w} {v} m found c e =
    rw e (insert-Evolves r.workers k v (subst (λ o. Evolved o (some v)) (sym found) c))
