-- ===== src/LoadGate.antt =====
-- internal/workercache/load_gate.go: the gate of two buffered channels that bounds module loads. A channel
-- of empty structs is the number of its elements; `none` is an operation that blocks. A load goes from
-- one operation on a channel to the next; each is one step.
pub mod Occupancy
pub mod Progress
use minicloud.Text.{str_eq}
use minicloud.Base.{
  Bool, Option, false, if◌then◌else◌, int_eq, ltb, map_option, nat_eq, none, some, suc, true, zero,
  ℕ, ◌+◌,
}
use minicloud.Problem.{Error, plain}

pub record LoadGate : Type 0 where
  pub max_active : ℕ
  pub max_queued : ℕ
  pub active : ℕ
  pub queued : ℕ

pub record Reservation : Type 0 where
  pub is_active : Bool
  pub is_queued : Bool

-- Which case of the `select` in `wait` is taken.
pub data Wake : Type 0 where
  admitted cancelled : Wake

-- Where a load stands: in `reserve` before its first and its second `select`, after `reserve`, in `wait`
-- before the receive of the case that was taken, after `wait` with what it returned, and in `release`
-- after its first test. The reservation is what its fields hold at that point.
pub data Load : Type 0 where
  arriving overflowing released : Load
  refused : Error → Load
  reserved entering releasing : Reservation → Load
  abandoning : Reservation → Error → Load
  waited : Reservation → Option Error → Load

abbrev pub new_load_gate : ℕ → ℕ → LoadGate
new_load_gate concurrent queued = record {
  max_active = concurrent;
  max_queued = queued;
  active = 0;
  queued = 0;
}

-- The two `select`s of `reserve`.
unfoldable pub reserve_active : LoadGate → LoadGate × Load
reserve_active g =
    if ltb g.active g.max_active
    then (
      record g { active = g.active + 1 },
      reserved (record { is_active = true; is_queued = false }),
    )
    else (g, overflowing)

unfoldable pub reserve_queued : LoadGate → LoadGate × Load
reserve_queued g =
    if ltb g.queued g.max_queued
    then (
      record g { queued = g.queued + 1 },
      reserved (record { is_active = false; is_queued = true }),
    )
    else (g, refused (plain "worker compiled cache load queue is full"))

-- A receive from a channel.
abbrev pub receive : ℕ → Option ℕ
receive zero = none
receive (suc n) = some n

-- `wait` up to the case that its `select` takes; the first argument is the error of the context where it
-- is done.
unfoldable pub wait : Option Error → LoadGate → Reservation → Wake → Option (LoadGate × Load)
wait context g r w = if r.is_active then some (g, waited r none) else elim w [
  | admitted ↦
      if ltb g.active g.max_active
      then some (record g { active = g.active + 1 }, entering r)
      else none
  | cancelled ↦ map_option (λ e. (g, abandoning r e)) context
]

-- The rest of either case.
unfoldable pub enter : LoadGate → Reservation → Option (LoadGate × Load)
enter g r =
    map_option
      (λ n. (record g { queued = n }, waited (record { is_active = true; is_queued = false }) none))
      (receive g.queued)

unfoldable pub abandon : LoadGate → Reservation → Error → Option (LoadGate × Load)
abandon g r e =
    map_option (λ n. (record g { queued = n }, waited (record r { is_queued = false }) (some e)))
      (receive g.queued)

-- The two tests of `release`.
unfoldable pub release_active : LoadGate → Reservation → Option (LoadGate × Load)
release_active g r =
    if r.is_active
    then map_option (λ n. (record g { active = n }, releasing (record r { is_active = false })))
        (receive g.active)
    else some (g, releasing r)

unfoldable pub release_queued : LoadGate → Reservation → Option (LoadGate × Load)
release_queued g r =
    if r.is_queued
    then map_option (λ n. (record g { queued = n }, released)) (receive g.queued)
    else some (g, released)

-- The next step of a load, or `none` where it blocks or has ended. After `reserve` it calls `wait`, whose
-- `select` takes the given case, or, with `none`, `release`; after `wait` it calls `release`.
unfoldable pub advance : Option Error → LoadGate → Option Wake → Load → Option (LoadGate × Load)
unfolding reserve_active reserve_queued wait enter abandon release_active release_queued
advance context g k arriving = some (reserve_active g)
advance context g k overflowing = some (reserve_queued g)
advance context g k released = none
advance context g k (refused e) = none
advance context g none (reserved r) = release_active g r
advance context g (some w) (reserved r) = wait context g r w
advance context g k (entering r) = enter g r
advance context g k (releasing r) = release_queued g r
advance context g k (abandoning r e) = abandon g r e
advance context g k (waited r e) = release_active g r
