-- ===== src/Scheduler.antt =====
-- internal/scheduler/types.go: Worker observations, placement requests and their results. A Go map is
-- an association list, a Go set a list; copies of them (`clone…`) are the values themselves.
pub mod Validate
pub mod Candidates
pub mod Fits
pub mod Planner
pub mod Ranking
use minicloud.Text.{Str, Str-discrete, str_eq}
use minicloud.Base.{Bool, Eq, List, Map, false, int_eq, nat_eq, pos, true, ℕ, ℤ}
use minicloud.WorkerCache.{Key, key_eq}
use minicloud.ServingAuth.{WorkerSession, connection_eq, fence_eq, identity_eq, mode_eq, session_eq}

abbrev pub default_max_decisions : ℤ
default_max_decisions = pos 100_000

abbrev pub hard_max_decisions : ℤ
hard_max_decisions = pos 100_000

abbrev pub max_workers : ℕ
max_workers = 1_000

abbrev pub max_required_labels : ℕ
max_required_labels = 32

abbrev pub max_existing_workers : ℕ
max_existing_workers = 100

abbrev pub max_cache_hints : ℕ
max_cache_hints = 4_096

abbrev pub max_worker_slots : ℕ
max_worker_slots = 1_024

pub data SchedulingIntent : Type 0 where
  schedulable draining removed : SchedulingIntent
  unknown_intent : Str → SchedulingIntent

pub data SessionState : Type 0 where
  joining ready suspect unavailable : SessionState
  unknown_state : Str → SessionState

pub data DrainState : Type 0 where
  not_draining drain_started drained : DrainState
  unknown_drain : Str → DrainState

pub record RuntimeProfile : Type 0 where
  pub name : Str
  pub version : Str
  pub engine : Str
  pub goos : Str
  pub goarch : Str
  pub abi : Str
  pub host_api : Str
  pub feature_profile : Str
  pub memory_mib : ℕ

pub record Capacity : Type 0 where
  pub memory_mib : ℕ
  pub allocated_memory_mib : ℕ
  pub slots : ℕ
  pub allocated_slots : ℕ

pub record CacheHints : Type 0 where
  pub artifacts : List Str
  pub compiled : List Key

pub record WorkerSnapshot : Type 0 where
  pub session : WorkerSession
  pub runtime : RuntimeProfile
  pub intent : SchedulingIntent
  pub state : SessionState
  pub drain : DrainState
  pub capacity : Capacity
  pub labels : Map Str Str
  pub cache : CacheHints

pub record PlacementRequest : Type 0 where
  pub command_id : Str
  pub assignment_id : Str
  pub version_id : Str
  pub artifact_digest : Str
  pub artifact_size : ℤ
  pub abi : Str
  pub host_api : Str
  pub feature_profile : Str
  pub runtime_name : Str
  pub runtime_version : Str
  pub runtime_engine : Str
  pub goos : Str
  pub goarch : Str
  pub memory_mib : ℕ
  pub required_slots : ℕ
  pub admission_epoch : ℕ
  pub deployment_generation : ℕ
  pub policy_digest : Str
  pub compiled_cache_key : Key
  pub required_labels : Map Str Str
  pub existing_worker_ids : List Str

pub record Assignment : Type 0 where
  pub command_id : Str
  pub assignment_id : Str
  pub worker : WorkerSession
  pub version_id : Str
  pub artifact_digest : Str
  pub artifact_size : ℤ
  pub abi : Str
  pub host_api : Str
  pub feature_profile : Str
  pub memory_mib : ℕ
  pub required_slots : ℕ
  pub admission_epoch : ℕ
  pub deployment_generation : ℕ
  pub policy_digest : Str

-- `unset` is the zero value, the empty string.
pub data DecisionStatus : Type 0 where
  unset applied duplicate already_satisfied : DecisionStatus

pub data FilterReason : Type 0 where
  invalid_observation intent_not_schedulable session_not_ready : FilterReason
  runtime_incompatible labels_not_satisfied memory_capacity slot_capacity : FilterReason

pub record Candidate : Type 0 where
  pub worker_id : Str
  pub session : WorkerSession
  pub eligible : Bool
  pub reasons : List FilterReason
  pub cache_score : ℕ
  pub load_numerator : ℕ
  pub load_denominator : ℕ

pub record LeaderBarrier : Type 0 where
  pub term : ℕ
  pub applied_index : ℕ
  pub is_ready : Bool

pub record Decision : Type 0 where
  pub status : DecisionStatus
  pub assignment : Assignment
  pub barrier : LeaderBarrier
  pub candidates : List Candidate

unfoldable pub intent_valid : SchedulingIntent → Bool
intent_valid (unknown_intent _) = false
intent_valid _ = true

unfoldable pub state_valid : SessionState → Bool
state_valid (unknown_state _) = false
state_valid _ = true

unfoldable pub drain_valid : DrainState → Bool
drain_valid (unknown_drain _) = false
drain_valid _ = true

abbrev pub is_schedulable : SchedulingIntent → Bool
is_schedulable schedulable = true
is_schedulable _ = false

abbrev pub is_ready_state : SessionState → Bool
is_ready_state ready = true
is_ready_state _ = false

unfoldable pub SchedulingIntent-discrete : Discrete SchedulingIntent
unfolding Str-discrete
SchedulingIntent-discrete = hlevel Str-discrete

unfoldable pub SessionState-discrete : Discrete SessionState
unfolding Str-discrete
SessionState-discrete = hlevel Str-discrete

unfoldable pub DrainState-discrete : Discrete DrainState
unfolding Str-discrete
DrainState-discrete = hlevel Str-discrete

instance abbrev pub intent_eq : Eq SchedulingIntent
intent_eq = record { dec = SchedulingIntent-discrete }

instance abbrev pub state_eq : Eq SessionState
state_eq = record { dec = SessionState-discrete }

instance abbrev pub drain_eq : Eq DrainState
drain_eq = record { dec = DrainState-discrete }
