-- ===== src/WorkerAgent/Limiter.antt =====
-- internal/workeragent/limiter.go: the slots and the queue of an agent or of a replica. A channel of empty
-- structs is the number of its elements. A call of `acquire` is a Caller, which goes from one `select` to
-- the next; each is one step, and so is the receive that it defers.
pub mod Occupancy
pub mod Progress
use minicloud.Text.{str_eq}
use minicloud.LoadGate.{receive}
use minicloud.Base.{
  Bool, Option, if◌then◌else◌, int_eq, is_some, ltb, map_option, nat_eq, none, not, some, ℕ, ◌+◌,
  ◌||◌,
}
use minicloud.Problem.{Error, plain}

pub record Limiter : Type 0 where
  pub max_slots : ℕ
  pub max_queue : ℕ
  pub slots : ℕ
  pub queue : ℕ

-- What a call sees of its context and of the two channels that stop it, at one moment.
pub record Surroundings : Type 0 where
  pub context_error : Option Error
  pub stop : Bool
  pub also_stop : Bool

-- The case of a `select`; `none` stands for its default.
pub data Case : Type 0 where
  sends stops also_stops is_done : Case

-- Where a call stands. `leaving` has received the answer of the last `select` and still holds its place
-- in the queue; `holding` has returned nil, and its slot is not released; `released` is past that.
pub data Caller : Type 0 where
  called polling seeking overflowing queueing holding released : Caller
  leaving : Option Error → Caller
  refused : Error → Caller

abbrev pub new_limiter : ℕ → ℕ → Limiter
new_limiter concurrent queued = record {
  max_slots = concurrent;
  max_queue = queued;
  slots = 0;
  queue = 0;
}

abbrev pub queue_full : Error
queue_full = plain "worker agent invocation queue is full"

abbrev pub stopping : Error
stopping = plain "worker agent admission is stopping"

unfoldable pub check_context : Surroundings → Caller
check_context w = elim w.context_error [ none ↦ polling | some e ↦ refused e ]

unfoldable pub poll_stop : Surroundings → Caller
poll_stop w = if w.stop || w.also_stop then refused stopping else seeking

-- The error of a case that stops the call, where it is ready.
unfoldable pub interruption : Surroundings → Case → Option Error
interruption w sends = none
interruption w stops = if w.stop then some stopping else none
interruption w also_stops = if w.also_stop then some stopping else none
interruption w is_done = w.context_error

-- A default is taken only where no case is ready.
unfoldable pub none_ready : Surroundings → Bool → Bool
none_ready w room = not (room || w.stop || w.also_stop || is_some w.context_error)

unfoldable pub try_slot : Limiter → Surroundings → Option Case → Option (Limiter × Caller)
try_slot l w none = if none_ready w (ltb l.slots l.max_slots) then some (l, overflowing) else none
try_slot l w (some sends) =
    if ltb l.slots l.max_slots then some (record l { slots = l.slots + 1 }, holding) else none
try_slot l w (some stops) = map_option (λ e. (l, refused e)) (interruption w stops)
try_slot l w (some also_stops) = map_option (λ e. (l, refused e)) (interruption w also_stops)
try_slot l w (some is_done) = map_option (λ e. (l, refused e)) (interruption w is_done)

unfoldable pub try_queue : Limiter → Surroundings → Option Case → Option (Limiter × Caller)
try_queue l w none =
    if none_ready w (ltb l.queue l.max_queue) then some (l, refused queue_full) else none
try_queue l w (some sends) =
    if ltb l.queue l.max_queue then some (record l { queue = l.queue + 1 }, queueing) else none
try_queue l w (some stops) = map_option (λ e. (l, refused e)) (interruption w stops)
try_queue l w (some also_stops) = map_option (λ e. (l, refused e)) (interruption w also_stops)
try_queue l w (some is_done) = map_option (λ e. (l, refused e)) (interruption w is_done)

-- The last `select` has no default: where no case is ready, the call blocks.
unfoldable pub wait_slot : Limiter → Surroundings → Option Case → Option (Limiter × Caller)
wait_slot l w none = none
wait_slot l w (some sends) =
    if ltb l.slots l.max_slots then some (record l { slots = l.slots + 1 }, leaving none) else none
wait_slot l w (some stops) = map_option (λ e. (l, leaving (some e))) (interruption w stops)
wait_slot l w (some also_stops) =
    map_option (λ e. (l, leaving (some e))) (interruption w also_stops)
wait_slot l w (some is_done) = map_option (λ e. (l, leaving (some e))) (interruption w is_done)

-- The outcome of `acquire` after its deferred receive.
abbrev pub outcome : Option Error → Caller
outcome none = holding
outcome (some e) = refused e

unfoldable pub dequeue : Limiter → Option Error → Option (Limiter × Caller)
dequeue l r = map_option (λ n. (record l { queue = n }, outcome r)) (receive l.queue)

unfoldable pub release_slot : Limiter → Option (Limiter × Caller)
release_slot l = map_option (λ n. (record l { slots = n }, released)) (receive l.slots)

-- The next step of a call, or `none` where it blocks or has ended.
unfoldable pub advance : Limiter → Surroundings → Option Case → Caller → Option (Limiter × Caller)
unfolding check_context poll_stop try_slot try_queue wait_slot dequeue release_slot
advance l w c called = some (l, check_context w)
advance l w c polling = some (l, poll_stop w)
advance l w c seeking = try_slot l w c
advance l w c overflowing = try_queue l w c
advance l w c queueing = wait_slot l w c
advance l w c holding = release_slot l
advance l w c released = none
advance l w c (leaving r) = dequeue l r
advance l w c (refused e) = none
