-- ===== src/WorkerAgent/Limiter/Occupancy.antt =====
-- A Limiter with its calls, in any interleaving.
use minicloud.Problem.{Error}
use minicloud.Text.{str_eq}
use minicloud.WorkerAgent.Limiter.{
  Caller, Case, Limiter, Surroundings, advance, called, check_context, dequeue, holding,
  interruption, leaving, new_limiter, overflowing, poll_stop, polling, queueing, refused,
  release_slot, released, seeking, try_queue, try_slot, wait_slot,
}
use minicloud.Base.{
  List, Option, [], ap, arith, int_eq, nat_eq, none, refl, some, total_of, total_split, ℕ, ◌++◌,
  ◌+◌, ◌∙◌, ◌∷◌, ◌≡◌, ◌≤◌,
}

pub record Agent : Type 0 where
  pub limiter : Limiter
  pub callers : List Caller

-- The slots and the places in the queue that a call holds.
abbrev pub slots_of : Caller → ℕ
slots_of called = 0
slots_of polling = 0
slots_of seeking = 0
slots_of overflowing = 0
slots_of queueing = 0
slots_of holding = 1
slots_of released = 0
slots_of (leaving none) = 1
slots_of (leaving (some e)) = 0
slots_of (refused e) = 0

abbrev pub places_of : Caller → ℕ
places_of called = 0
places_of polling = 0
places_of seeking = 0
places_of overflowing = 0
places_of queueing = 1
places_of holding = 0
places_of released = 0
places_of (leaving r) = 1
places_of (refused e) = 0

-- A new call, or one step of one of the calls, in any surroundings and with any case.
pub data Move (s : Agent) : Agent → Type 0 where
  arrives : Move s (record s { callers = called ∷ s.callers })
  advances :
      (ahead behind : List Caller) (c d : Caller) (w : Surroundings) (k : Option Case) (l : Limiter)
      → s.callers ≡ ahead ++ (c ∷ behind)
      → advance s.limiter w k c ≡ some (l, d)
      → Move s (record { limiter = l; callers = ahead ++ (d ∷ behind) })

pub data Runs (s : Agent) : Agent → Type 0 where
  at_start : Runs s s
  and_move : {t u : Agent} → Runs s t → Move t u → Runs s u

-- The channels hold one element for each call that holds a slot or a place, within the capacities that
-- the limiter was made with.
pub record Fits (concurrent queued : ℕ) (s : Agent) : Type 0 where
  pub slots_exact : s.limiter.slots ≡ total_of slots_of s.callers
  pub queue_exact : s.limiter.queue ≡ total_of places_of s.callers
  pub slots_bound : total_of slots_of s.callers ≤ concurrent
  pub queue_bound : total_of places_of s.callers ≤ queued
  pub max_slots_fixed : s.limiter.max_slots ≡ concurrent
  pub max_queue_fixed : s.limiter.max_queue ≡ queued

-- A step that changes a call and the channels alike keeps the totals.
record Balanced (l : Limiter) (c : Caller) (m : Limiter) (d : Caller) : Type 0 where
  slots : m.slots + slots_of c ≡ l.slots + slots_of d
  queue : m.queue + places_of c ≡ l.queue + places_of d
  slots_bound : l.slots ≤ l.max_slots → m.slots ≤ l.max_slots
  queue_bound : l.queue ≤ l.max_queue → m.queue ≤ l.max_queue
  max_slots_kept : m.max_slots ≡ l.max_slots
  max_queue_kept : m.max_queue ≡ l.max_queue

module _ (w : Surroundings) (l m : Limiter) (d : Caller) where
  check-Balanced : advance l w none called ≡ some (m, d) → Balanced l called m d
  unfolding advance check_context
  check-Balanced h = ground arith

  poll-Balanced : advance l w none polling ≡ some (m, d) → Balanced l polling m d
  unfolding advance poll_stop
  poll-Balanced h = ground arith

  try_slot-Balanced : (k : Option Case) → try_slot l w k ≡ some (m, d) → Balanced l seeking m d
  unfolding try_slot interruption
  try_slot-Balanced k h = ground arith

  try_queue-Balanced :
      (k : Option Case) → try_queue l w k ≡ some (m, d) → Balanced l overflowing m d
  unfolding try_queue interruption
  try_queue-Balanced k h = ground arith

  wait_slot-Balanced : (k : Option Case) → wait_slot l w k ≡ some (m, d) → Balanced l queueing m d
  unfolding wait_slot interruption
  wait_slot-Balanced k h = ground arith

  dequeue-Balanced : (r : Option Error) → dequeue l r ≡ some (m, d) → Balanced l (leaving r) m d
  unfolding dequeue
  dequeue-Balanced r h = ground arith

  release_slot-Balanced : release_slot l ≡ some (m, d) → Balanced l holding m d
  unfolding release_slot
  release_slot-Balanced h = ground arith

  advance-Balanced :
      (k : Option Case) (c : Caller) → advance l w k c ≡ some (m, d) → Balanced l c m d
  unfolding advance
  advance-Balanced k called h = check-Balanced h
  advance-Balanced k polling h = poll-Balanced h
  advance-Balanced k seeking h = try_slot-Balanced k h
  advance-Balanced k overflowing h = try_queue-Balanced k h
  advance-Balanced k queueing h = wait_slot-Balanced k h
  advance-Balanced k holding h = release_slot-Balanced h
  advance-Balanced k released h = ground arith
  advance-Balanced k (leaving r) h = dequeue-Balanced r h
  advance-Balanced k (refused e) h = ground arith

module _ (concurrent queued : ℕ) where
  module _ (s : Agent) (b : Fits concurrent queued s) (ahead behind : List Caller) (c : Caller)
      (e : s.callers ≡ ahead ++ (c ∷ behind)) where
    pub slots_held : s.limiter.slots ≡ slots_of c + total_of slots_of (ahead ++ behind)
    slots_held = b.slots_exact ∙ ap (total_of slots_of) e ∙ total_split slots_of ahead behind c

    pub places_held : s.limiter.queue ≡ places_of c + total_of places_of (ahead ++ behind)
    places_held = b.queue_exact ∙ ap (total_of places_of) e ∙ total_split places_of ahead behind c

    replaced-Fits :
        (l : Limiter) (d : Caller)
        → Balanced s.limiter c l d
        → Fits concurrent queued (record { limiter = l; callers = ahead ++ (d ∷ behind) })
    replaced-Fits l d h =
        let slots : l.slots ≡ total_of slots_of (ahead ++ (d ∷ behind)) =
          omega (arith, slots_held, total_split slots_of ahead behind d, h.slots) in
        let queue : l.queue ≡ total_of places_of (ahead ++ (d ∷ behind)) =
          omega (arith, places_held, total_split places_of ahead behind d, h.queue) in
        record {
          slots_exact = slots;
          queue_exact = queue;
          slots_bound =
              let x =
                h.slots_bound (omega (arith, b.slots_exact, b.slots_bound, b.max_slots_fixed)) in
              omega (arith, slots, x, b.max_slots_fixed);
          queue_bound =
              let x =
                h.queue_bound (omega (arith, b.queue_exact, b.queue_bound, b.max_queue_fixed)) in
              omega (arith, queue, x, b.max_queue_fixed);
          max_slots_fixed = h.max_slots_kept ∙ b.max_slots_fixed;
          max_queue_fixed = h.max_queue_kept ∙ b.max_queue_fixed;
        }

  Move-Fits : {s t : Agent} → Move s t → Fits concurrent queued s → Fits concurrent queued t
  Move-Fits {s} arrives b = record {
    slots_exact = omega (arith, b.slots_exact);
    queue_exact = omega (arith, b.queue_exact);
    slots_bound = omega (arith, b.slots_bound);
    queue_bound = omega (arith, b.queue_bound);
    max_slots_fixed = b.max_slots_fixed;
    max_queue_fixed = b.max_queue_fixed;
  }
  Move-Fits {s} (advances ahead behind c d w k l e h) b =
      replaced-Fits s b ahead behind c e l d (advance-Balanced w s.limiter l d k c h)

  abbrev pub idle_agent : Agent
  idle_agent = record { limiter = new_limiter concurrent queued; callers = [] }

  -- In every state that calls reach from a new limiter, in any interleaving, each of its two channels
  -- holds exactly one element for each call that holds a slot, or a place in the queue, and these are
  -- no more than the limits it was made with.
  pub Runs-Fits : {s : Agent} → Runs idle_agent s → Fits concurrent queued s
  Runs-Fits at_start = record {
    slots_exact = refl;
    queue_exact = refl;
    slots_bound = omega arith;
    queue_bound = omega arith;
    max_slots_fixed = refl;
    max_queue_fixed = refl;
  }
  Runs-Fits (and_move p x) = Move-Fits x (Runs-Fits p)
