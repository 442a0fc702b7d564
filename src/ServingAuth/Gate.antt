-- ===== src/ServingAuth/Gate.antt =====
-- internal/servingauth/gate.go: the Worker-side authorization gate. Each method runs under the
-- mutex, so it is one step on the record; the reading of the monotonic clock is its argument `now`.
pub mod Methods
pub mod Invariant
pub mod Install
pub mod Authorize
pub mod Fencing
use minicloud.Base.{
  Bool, Map, Option, [], false, if◌then◌else◌, is_zero_ℤ, leb_ℤ, length, ltb_ℤ, nat_eq, none, not,
  pos, pos_part, some, true, ℕ, ℤ, ◌!=◌, ◌&&◌, ◌-ℤ◌, ◌==◌, ◌||◌,
}
use minicloud.Text.{Str, str_eq}
use minicloud.Problem.{
  Error, Result, classified, err, ok, plain, require, stale_assignment, stale_generation,
  ◌then_check◌,
}
use minicloud.ServingAuth.{
  AssignmentIdentity, Authorization, ControlConnection, Lifetime, WorkerProcess, WorkerSession,
  connection_eq, fence_eq, identity_eq, live_only, session_eq, validate_process,
}

pub record ControlState : Type 0 where
  pub connection : ControlConnection
  pub connected : Bool

pub record AuthorizationRecord : Type 0 where
  pub authorization : Authorization
  pub connection : ControlConnection
  pub received_at : ℤ

pub record Config : Type 0 where
  pub worker : WorkerProcess
  pub max_ttl : ℤ
  pub max_authorizations : ℤ

pub record Gate : Type 0 where
  pub worker : WorkerProcess
  pub max_ttl : ℤ
  pub max_authorizations : ℕ
  pub highest_discovery_epoch : ℕ
  pub current_session_epoch : ℕ
  pub control : ControlState
  pub assignments : Map Str AssignmentIdentity
  pub authorizations : Map Str AuthorizationRecord
  pub last_elapsed : ℤ
  pub clock_healthy : Bool

-- In nanoseconds.
abbrev pub default_max_ttl : ℤ
default_max_ttl = pos 300_000_000_000

abbrev pub hard_max_ttl : ℤ
hard_max_ttl = pos 600_000_000_000

abbrev pub default_max_authorizations : ℤ
default_max_authorizations = pos 4096

abbrev pub hard_max_authorizations : ℤ
hard_max_authorizations = pos 65536

abbrev zero_connection : ControlConnection
zero_connection = record { connection_id = []; session_epoch = 0; discovery_epoch = 0 }

abbrev or_default : ℤ → ℤ → ℤ
or_default v d = if is_zero_ℤ v then d else v

-- `New`; `elapsed` is the first reading of the clock.
unfoldable pub new : Config → ℤ → Result Gate
new c elapsed =
    let max_ttl = or_default c.max_ttl default_max_ttl in
    let max_authorizations = or_default c.max_authorizations default_max_authorizations in
    elim (validate_process c.worker) [
      | some e ↦ err e
      | none ↦
          if leb_ℤ max_ttl (pos 0) || ltb_ℤ hard_max_ttl max_ttl
          then err (plain "serving authorization ttl limit is outside v1 bounds")
          else if ltb_ℤ max_authorizations (pos 1)
              || ltb_ℤ hard_max_authorizations max_authorizations
          then err (plain "serving authorization entry limit is outside v1 bounds")
          else if ltb_ℤ elapsed (pos 0)
          then err (plain "serving authorization monotonic clock returned negative elapsed time")
          else ok (record {
            worker = c.worker;
            max_ttl = max_ttl;
            max_authorizations = pos_part max_authorizations;
            highest_discovery_epoch = 0;
            current_session_epoch = 0;
            control = record { connection = zero_connection; connected = false };
            assignments = [];
            authorizations = [];
            last_elapsed = elapsed;
            clock_healthy = true;
          })
    ]

unfoldable pub current_worker : Gate → WorkerSession
current_worker g = record {
  worker_id = g.worker.worker_id;
  boot_id = g.worker.boot_id;
  session_epoch = g.current_session_epoch;
}

unfoldable pub current_control : Gate → ControlConnection → Bool
current_control g c =
    g.control.connected
    && g.control.connection == c
    && c.discovery_epoch == g.highest_discovery_epoch

-- `elapsedLocked`: the reading, or an unhealthy clock from then on.
unfoldable pub elapsed_locked : Gate → ℤ → Gate × Option Error
elapsed_locked g now =
    if not g.clock_healthy || ltb_ℤ now g.last_elapsed
    then (
      record g { clock_healthy = false },
      some (classified stale_assignment "worker monotonic clock is unhealthy"),
    )
    else (record g { last_elapsed = now }, none)

-- The switch on the lifetime at the end of `validLocked`.
unfoldable pub lifetime_valid : Gate → AuthorizationRecord → ℤ → Lifetime → Bool
unfolding current_control
lifetime_valid g r now live_only = current_control g r.connection
lifetime_valid g r now _ = ltb_ℤ (now -ℤ r.received_at) r.authorization.ttl

unfoldable pub valid_locked : Gate → AuthorizationRecord → ℤ → Bool
unfolding lifetime_valid
valid_locked g r now =
    if r.authorization.fence.discovery_epoch != g.highest_discovery_epoch || ltb_ℤ now r.received_at
    then false
    else lifetime_valid g r now r.authorization.lifetime

unfoldable pub compatible_refresh : AssignmentIdentity → AssignmentIdentity → Option Error
compatible_refresh previous next =
    require (previous.assignment_id == next.assignment_id)
      (classified stale_assignment "authorization assignment id changed")
    then_check require
        (not (
          previous.version_id != next.version_id
          || previous.admission_epoch != next.admission_epoch
          || previous.deployment_generation != next.deployment_generation
          || previous.policy_digest != next.policy_digest))
        (classified stale_generation "authorization generation identity changed")
    then_check require (previous == next)
        (classified stale_assignment "authorization assignment identity changed")

pub record Snapshot : Type 0 where
  pub highest_discovery_epoch : ℕ
  pub current_session_epoch : ℕ
  pub control_connected : Bool
  pub tracked_assignments : ℕ
  pub stored_authorizations : ℕ
  pub clock_healthy : Bool

unfoldable pub snapshot : Gate → Snapshot
snapshot g = record {
  highest_discovery_epoch = g.highest_discovery_epoch;
  current_session_epoch = g.current_session_epoch;
  control_connected = g.control.connected;
  tracked_assignments = length g.assignments;
  stored_authorizations = length g.authorizations;
  clock_healthy = g.clock_healthy;
}
