-- ===== src/Registry/Control.antt =====
-- internal/workerregistry/registry.go: the derivation of liveness, control intents, drains, the view,
-- and the Registry driven by calls.
use minicloud.Text.{Str, identifier_pattern, str_eq}
use minicloud.Problem.{Error, classified, conflict, forbidden, invalid}
use minicloud.Base.{
  List, Map, Option, [], false, if◌then◌else◌, int_eq, leb_ℤ, lookup, map_values, nat_eq, none, not,
  some, sort, true, ℕ, ℤ, ◌!=◌, ◌&&◌, ◌+◌, ◌-ℤ◌, ◌==◌, ◌||◌, ◌∷◌,
}
use minicloud.ServingAuth.{
  WorkerSession, connection_eq, fence_eq, identity_eq, mode_eq, session_eq, validate_session,
}
use minicloud.Text.Order.{compare_str}
use minicloud.Scheduler.{
  DrainState, SchedulingIntent, SessionState, drain_eq, drain_started, drained, intent_eq,
  intent_valid, joining, not_draining, ready, removed, state_eq, suspect, unavailable,
}
use minicloud.Registry.{
  DrainObservation, Inventory, Registration, Registry, Snapshot, WorkerRecord, WorkerView,
  current_record, elapsed_locked, is_draining, is_removed, put_record, stale_session, u64,
}
use minicloud.Registry.Methods.{commit_session, heartbeat, register, report_inventory}

-- The `switch` on the time since the last heartbeat.
unfoldable pub classify : Registry → ℤ → SessionState
classify r elapsed =
    if leb_ℤ r.unavailable_after elapsed
    then unavailable
    else if leb_ℤ r.suspect_after elapsed
    then suspect
    else ready

-- What `Evaluate` makes of one record.
unfoldable pub evaluate_record : Registry → ℤ → WorkerRecord → WorkerRecord
unfolding classify
evaluate_record r now w =
    if not w.registered || w.needs_new_session || not w.has_inventory
    then w
    else record w { state = classify r (now -ℤ w.last_heartbeat) }

-- The number of records whose state that changes; each is one `r.revision++`.
unfoldable pub count_changed : Registry → ℤ → Map Str WorkerRecord → ℕ
unfolding evaluate_record
count_changed r now [] = 0
count_changed r now ((id, w) ∷ m) =
    (if (evaluate_record r now w).state == w.state then 0 else 1) + count_changed r now m

unfoldable pub evaluate_all : Registry → ℤ → Registry
unfolding evaluate_record count_changed
evaluate_all r now = record r {
  workers = map_values (evaluate_record r now) r.workers;
  revision = u64 (r.revision + count_changed r now r.workers);
}

unfoldable pub evaluate : Registry → ℤ → Registry × Option Error
unfolding elapsed_locked evaluate_all
evaluate r now =
    let (read, failed) = elapsed_locked r now in
    elim failed [ some e ↦ (read, some e) | none ↦ (evaluate_all read now, none) ]

unfoldable pub remove_worker : Registry → Str → WorkerRecord → Registry × Option Error
unfolding put_record
remove_worker r id w =
    if not (is_draining w.intent) || w.drain != drained
    then (r, some (classified conflict "Worker must be Drained before Removed"))
    else (
      put_record r id (record w { intent = removed; registered = false; state = unavailable }),
      none,
    )

-- An intent other than removal, for a Worker that is not removed.
unfoldable pub change_intent :
    Registry → Str → WorkerRecord → SchedulingIntent → Registry × Option Error
unfolding put_record
change_intent r id w intent =
    if w.intent == intent
    then (r, none)
    else if is_draining intent
    then (put_record r id (record w { intent = intent; drain = drain_started }), none)
    else (
      put_record r id (record w {
        intent = intent;
        drain = not_draining;
        needs_new_session = true;
        state = joining;
      }),
      none,
    )

unfoldable pub set_intent : Registry → Str → SchedulingIntent → Registry × Option Error
unfolding remove_worker change_intent
set_intent r id intent =
    if not (identifier_pattern id) || not (intent_valid intent)
    then (r, some (invalid "worker_intent" "worker ID or intent is invalid"))
    else elim (lookup id r.workers) [
      | none ↦ (r, some (invalid "worker_id" "worker is not registered"))
      | some w ↦
          if is_removed w.intent
          then (r, some (classified forbidden "removed Worker intent cannot change"))
          else if is_removed intent
          then remove_worker r id w
          else change_intent r id w intent
    ]

unfoldable pub next_drain : DrainObservation → DrainState
next_drain o =
    if o.active_invocations == 0
      && o.assignments_drained
      && (o.gateway_fences_acked || o.authorization_expired)
    then drained
    else drain_started

unfoldable pub update_drain : Registry → DrainObservation → Registry × Option Error
unfolding current_record next_drain put_record
update_drain r o = elim (validate_session o.session) [
  | some e ↦ (r, some e)
  | none ↦ elim (current_record r o.session) [
    | none ↦ (r, some stale_session)
    | some w ↦
        if not (is_draining w.intent)
        then (r, some (classified conflict "Worker is not draining"))
        else if w.drain == next_drain o
        then (r, none)
        else (put_record r o.session.worker_id (record w { drain = next_drain o }), none)
  ]
]

unfoldable pub view : WorkerRecord → WorkerView
view w = record {
  snapshot = record {
    session = w.current;
    runtime = w.runtime;
    intent = w.intent;
    state = w.state;
    drain = w.drain;
    capacity = w.capacity;
    labels = w.labels;
    cache = w.cache;
  };
  max_session_epoch = w.max_session_epoch;
  last_heartbeat = w.last_heartbeat;
  registered = w.registered;
}

views : Map Str WorkerRecord → List WorkerView
unfolding view
views [] = []
views ((id, w) ∷ m) = view w ∷ views m

unfoldable pub snapshot : Registry → Snapshot
unfolding views
snapshot r = record {
  revision = r.revision;
  clock_healthy = r.clock_healthy;
  workers =
      sort (λ a b. compare_str a.snapshot.session.worker_id b.snapshot.session.worker_id)
        (views r.workers);
}

pub data Call : Type 0 where
  commits : Registration → Call
  registers : Registration → ℤ → Call
  reports : Inventory → ℤ → Call
  beats : WorkerSession → ℤ → Call
  evaluates : ℤ → Call
  intends : Str → SchedulingIntent → Call
  drains : DrainObservation → Call

unfoldable pub step : Registry → Call → Registry
step r (commits s) = (commit_session r s).0
step r (registers s now) = (register r s now).0
step r (reports i now) = (report_inventory r i now).0
step r (beats s now) = (heartbeat r s now).0
step r (evaluates now) = (evaluate r now).0
step r (intends id intent) = (set_intent r id intent).0
step r (drains o) = (update_drain r o).0

unfoldable pub run : Registry → List Call → Registry
unfolding step
run r [] = r
run r (c ∷ cs) = run (step r c) cs
