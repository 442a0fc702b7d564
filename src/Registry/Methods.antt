-- ===== src/Registry/Methods.antt =====
-- internal/workerregistry/registry.go: the methods that change the Registry, and its view.
use minicloud.Text.{Str, str_eq}
use minicloud.Problem.{Error, classified, forbidden, overloaded, stale_assignment, stale_generation}
use minicloud.Base.{
  Bool, Option, [], false, if◌then◌else◌, int_eq, leb, length, lookup, ltb, nat_eq, none, not, pos,
  some, true, ℤ, ◌!=◌, ◌&&◌, ◌+◌, ◌==◌, ◌||◌,
}
use minicloud.ServingAuth.{
  WorkerSession, connection_eq, fence_eq, identity_eq, mode_eq, session_eq, validate_session,
}
use minicloud.Scheduler.{
  SessionState, WorkerSnapshot, joining, not_draining, ready, schedulable, suspect, unavailable,
}
use minicloud.Scheduler.Validate.{validate_worker}
use minicloud.Registry.{
  Inventory, Registration, Registry, WorkerRecord, current_record, elapsed_locked, is_removed,
  put_record, stale_session, touch_record, u64, zero_capacity, zero_hints, zero_runtime,
  zero_session,
}

-- The record that `CommitSession` makes for an unknown Worker.
unfoldable pub joining_record : Str → WorkerRecord
joining_record id = record {
  worker_id = id;
  boot_id = [];
  max_session_epoch = 0;
  current = zero_session;
  registered = false;
  needs_new_session = false;
  intent = schedulable;
  drain = not_draining;
  state = joining;
  runtime = zero_runtime;
  capacity = zero_capacity;
  labels = [];
  cache = zero_hints;
  has_inventory = false;
  inventory_revision = 0;
  last_heartbeat = pos 0;
}

-- `CommitSession` once the record is at hand; `r` holds it.
unfoldable pub commit_record : Registry → WorkerRecord → WorkerSession → Registry × Option Error
unfolding put_record
commit_record r w s =
    if is_removed w.intent
    then (r, some (classified forbidden "removed Worker identity cannot register"))
    else if s.session_epoch != u64 (w.max_session_epoch + 1)
    then (
      r,
      some (classified stale_assignment "session epoch is not the next committed high-water mark"),
    )
    else (
      put_record r s.worker_id (record w {
        max_session_epoch = s.session_epoch;
        boot_id = s.boot_id;
        current = s;
        registered = false;
        needs_new_session = false;
        has_inventory = false;
        inventory_revision = 0;
        runtime = zero_runtime;
        capacity = zero_capacity;
        labels = [];
        cache = zero_hints;
        state = joining;
      }),
      none,
    )

unfoldable pub commit_session : Registry → Registration → Registry × Option Error
unfolding touch_record joining_record commit_record
commit_session r registration =
    let s = registration.session in
    elim (validate_session s) [
      | some e ↦ (r, some e)
      | none ↦ elim (lookup s.worker_id r.workers) [
        | some w ↦ commit_record r w s
        | none ↦
            if leb r.max_workers (length r.workers)
            then (r, some (classified overloaded "worker registry capacity is full"))
            else if s.session_epoch != 1
            then (
              r,
              some (classified stale_assignment "new Worker session must start at epoch one"),
            )
            else let w = joining_record s.worker_id in
              commit_record (touch_record r s.worker_id w) w s
      ]
    ]

-- `Register` once the record is found and current.
unfoldable pub register_record :
    Registry → WorkerRecord → WorkerSession → ℤ → Registry × Option Error
unfolding elapsed_locked put_record
register_record r w s now =
    let (read, failed) = elapsed_locked r now in
    elim failed [
      | some e ↦ (read, some e)
      | none ↦ (
        put_record read s.worker_id (record w {
          current = s;
          registered = true;
          has_inventory = false;
          state = joining;
          last_heartbeat = now;
        }),
        none,
      )
    ]

unfoldable pub register : Registry → Registration → ℤ → Registry × Option Error
unfolding register_record
register r registration now =
    let s = registration.session in
    elim (validate_session s) [
      | some e ↦ (r, some e)
      | none ↦ elim (lookup s.worker_id r.workers) [
        | none ↦ (r, some (classified stale_assignment "Worker session is not committed"))
        | some w ↦
            if is_removed w.intent
            then (r, some (classified forbidden "removed Worker identity cannot register"))
            else if w.max_session_epoch != s.session_epoch || w.boot_id != s.boot_id
            then (r, some (classified stale_assignment "Worker session is stale"))
            else if w.needs_new_session
            then (r, some (classified stale_assignment "Worker must register a newer session"))
            else if w.registered && w.current == s
            then (r, none)
            else if w.registered
            then (
              r,
              some (classified stale_assignment "another registration owns the current session"),
            )
            else register_record r w s now
      ]
    ]

-- The observation that an inventory makes of a record.
unfoldable pub observation : WorkerRecord → Inventory → WorkerSnapshot
observation w i = record {
  session = i.session;
  runtime = i.runtime;
  intent = w.intent;
  state = ready;
  drain = w.drain;
  capacity = i.capacity;
  labels = i.labels;
  cache = i.cache;
}

unfoldable pub accept_inventory : Registry → WorkerRecord → Inventory → ℤ → Registry × Option Error
unfolding elapsed_locked put_record
accept_inventory r w i now =
    let (read, failed) = elapsed_locked r now in
    elim failed [
      | some e ↦ (read, some e)
      | none ↦ (
        put_record read i.session.worker_id (record w {
          runtime = i.runtime;
          capacity = i.capacity;
          labels = i.labels;
          cache = i.cache;
          has_inventory = true;
          inventory_revision = i.revision;
          state = ready;
          last_heartbeat = now;
        }),
        none,
      )
    ]

unfoldable pub report_inventory : Registry → Inventory → ℤ → Registry × Option Error
unfolding current_record observation accept_inventory
report_inventory r i now = elim (validate_session i.session) [
  | some e ↦ (r, some e)
  | none ↦ elim (current_record r i.session) [
    | none ↦ (r, some stale_session)
    | some w ↦
        if w.needs_new_session
        then (
          r,
          some (
              classified stale_assignment
                "Worker must register a newer session before reporting inventory"),
        )
        else if w.has_inventory && ltb i.revision w.inventory_revision
        then (r, some (classified stale_generation "Worker inventory revision is stale"))
        else elim (validate_worker (observation w i)) [
          | some e ↦ (r, some e)
          | none ↦ accept_inventory r w i now
        ]
  ]
]

abbrev pub is_late : SessionState → Bool
is_late suspect = true
is_late unavailable = true
is_late _ = false

unfoldable pub beat : Registry → WorkerRecord → WorkerSession → ℤ → Registry × Option Error
unfolding elapsed_locked put_record touch_record
beat r w s now =
    let (read, failed) = elapsed_locked r now in
    elim failed [
      | some e ↦ (read, some e)
      | none ↦
          if w.has_inventory && not w.needs_new_session && is_late w.state
          then (
            put_record read s.worker_id (record w { last_heartbeat = now; state = ready }),
            none,
          )
          else (touch_record read s.worker_id (record w { last_heartbeat = now }), none)
    ]

unfoldable pub heartbeat : Registry → WorkerSession → ℤ → Registry × Option Error
unfolding current_record beat
heartbeat r s now = elim (validate_session s) [
  | some e ↦ (r, some e)
  | none ↦ elim (current_record r s) [
    | none ↦ (r, some stale_session)
    | some w ↦
        if w.needs_new_session
        then (
          r,
          some (
              classified stale_assignment
                "Worker must register a newer session before sending heartbeats"),
        )
        else beat r w s now
  ]
]
