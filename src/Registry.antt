-- ===== src/Registry.antt =====
-- internal/workerregistry/types.go and registry.go: the Worker Registry. Each method runs under the
-- mutex, so it is one step on the record; the reading of the monotonic clock is its argument `now`.
-- Counters are `uint64` and wrap.
pub mod Methods
pub mod Control
pub mod Lifecycle
pub mod Sessions
pub mod Steps
pub mod Evolution
use minicloud.Text.{Str, str_eq}
use minicloud.Problem.{
  Error, Result, classified, control_plane_stale, err, invalid, ok, plain, stale_assignment,
}
use minicloud.Base.{
  Bool, List, Map, Option, [], false, if◌then◌else◌, insert, int_eq, is_zero_ℤ, leb_ℤ, lookup,
  ltb_ℤ, map_values, nat_eq, none, not, pos, pos_part, some, true, ℕ, ℤ, ◌!=◌, ◌%◌, ◌&&◌, ◌*◌, ◌+◌,
  ◌^◌, ◌||◌,
}
use minicloud.ServingAuth.{WorkerSession, connection_eq, fence_eq, identity_eq, mode_eq, session_eq}
use minicloud.Scheduler.{
  CacheHints, Capacity, DrainState, RuntimeProfile, SchedulingIntent, SessionState, WorkerSnapshot,
  draining, max_workers, removed, unavailable,
}

pub record Registration : Type 0 where
  pub session : WorkerSession

pub record Inventory : Type 0 where
  pub revision : ℕ
  pub session : WorkerSession
  pub runtime : RuntimeProfile
  pub capacity : Capacity
  pub labels : Map Str Str
  pub cache : CacheHints

pub record DrainObservation : Type 0 where
  pub session : WorkerSession
  pub active_invocations : ℕ
  pub assignments_drained : Bool
  pub gateway_fences_acked : Bool
  pub authorization_expired : Bool

pub record WorkerRecord : Type 0 where
  pub worker_id : Str
  pub boot_id : Str
  pub max_session_epoch : ℕ
  pub current : WorkerSession
  pub registered : Bool
  pub needs_new_session : Bool
  pub intent : SchedulingIntent
  pub drain : DrainState
  pub state : SessionState
  pub runtime : RuntimeProfile
  pub capacity : Capacity
  pub labels : Map Str Str
  pub cache : CacheHints
  pub has_inventory : Bool
  pub inventory_revision : ℕ
  pub last_heartbeat : ℤ

pub record Config : Type 0 where
  pub heartbeat_interval : ℤ
  pub suspect_after : ℤ
  pub unavailable_after : ℤ
  pub max_workers : ℤ

pub record Registry : Type 0 where
  pub heartbeat_interval : ℤ
  pub suspect_after : ℤ
  pub unavailable_after : ℤ
  pub max_workers : ℕ
  pub workers : Map Str WorkerRecord
  pub revision : ℕ
  pub last_elapsed : ℤ
  pub clock_healthy : Bool

pub record WorkerView : Type 0 where
  pub snapshot : WorkerSnapshot
  pub max_session_epoch : ℕ
  pub last_heartbeat : ℤ
  pub registered : Bool

pub record Snapshot : Type 0 where
  pub revision : ℕ
  pub clock_healthy : Bool
  pub workers : List WorkerView

-- Seconds in nanoseconds.
abbrev pub seconds : ℕ → ℤ
seconds n = pos (n * 1_000_000_000)

abbrev pub u64 : ℕ → ℕ
u64 n = n % 2 ^ 64

abbrev pub zero_session : WorkerSession
zero_session = record { worker_id = []; boot_id = []; session_epoch = 0 }

abbrev pub zero_runtime : RuntimeProfile
zero_runtime = record {
  name = [];
  version = [];
  engine = [];
  goos = [];
  goarch = [];
  abi = [];
  host_api = [];
  feature_profile = [];
  memory_mib = 0;
}

abbrev pub zero_capacity : Capacity
zero_capacity = record { memory_mib = 0; allocated_memory_mib = 0; slots = 0; allocated_slots = 0 }

abbrev pub zero_hints : CacheHints
zero_hints = record { artifacts = []; compiled = [] }

abbrev or_default : ℤ → ℤ → ℤ
or_default v d = if is_zero_ℤ v then d else v

-- `New`; `elapsed` is the first reading of the clock.
unfoldable pub new_registry : Config → ℤ → Result Registry
new_registry c elapsed =
    let heartbeat = or_default c.heartbeat_interval (seconds 2) in
    let suspect_after = or_default c.suspect_after (seconds 6) in
    let unavailable_after = or_default c.unavailable_after (seconds 10) in
    let limit = or_default c.max_workers (pos 1_000) in
    if ltb_ℤ heartbeat (pos 500_000_000)
      || ltb_ℤ (seconds 30) heartbeat
      || leb_ℤ suspect_after heartbeat
      || ltb_ℤ (seconds 600) suspect_after
      || leb_ℤ unavailable_after suspect_after
      || ltb_ℤ (seconds 600) unavailable_after
    then err (plain "worker registry timing bounds are invalid")
    else if ltb_ℤ limit (pos 1) || ltb_ℤ (pos 1_000) limit
    then err (plain "worker registry worker limit is outside v1 bounds")
    else if ltb_ℤ elapsed (pos 0)
    then err (plain "worker registry clock returned negative elapsed time")
    else ok (record {
      heartbeat_interval = heartbeat;
      suspect_after = suspect_after;
      unavailable_after = unavailable_after;
      max_workers = pos_part limit;
      workers = [];
      revision = 0;
      last_elapsed = elapsed;
      clock_healthy = true;
    })

abbrev pub is_removed : SchedulingIntent → Bool
is_removed removed = true
is_removed _ = false

abbrev pub is_draining : SchedulingIntent → Bool
is_draining draining = true
is_draining _ = false

-- What an unhealthy clock does to a record.
unfoldable pub lose_record : WorkerRecord → WorkerRecord
lose_record w =
    if w.registered && not (is_removed w.intent) then record w { state = unavailable } else w

unfoldable pub elapsed_locked : Registry → ℤ → Registry × Option Error
unfolding lose_record
elapsed_locked r now =
    if not r.clock_healthy || ltb_ℤ now r.last_elapsed
    then (
      record r { clock_healthy = false; workers = map_values lose_record r.workers },
      some (classified control_plane_stale "worker registry monotonic clock is unhealthy"),
    )
    else (record r { last_elapsed = now }, none)

-- `currentLocked`: the record whose registered session is exactly this one.
unfoldable pub current_record : Registry → WorkerSession → Option WorkerRecord
current_record r s = elim (lookup s.worker_id r.workers) [
  | none ↦ none
  | some w ↦ if not w.registered || w.current != s then none else some w
]

abbrev pub stale_session : Error
stale_session = classified stale_assignment "Worker session is stale or unavailable"

-- A write through the record's pointer, and `r.revision++`.
unfoldable pub put_record : Registry → Str → WorkerRecord → Registry
put_record r id w = record r { workers = insert id w r.workers; revision = u64 (r.revision + 1) }

-- The same without a new revision.
unfoldable pub touch_record : Registry → Str → WorkerRecord → Registry
touch_record r id w = record r { workers = insert id w r.workers }
