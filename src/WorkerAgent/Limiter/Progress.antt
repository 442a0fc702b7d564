-- ===== src/WorkerAgent/Limiter/Progress.antt =====
-- A call of a Limiter is stuck only where it has to wait.
use minicloud.Text.{str_eq}
use minicloud.Base.{
  Bool, Bool-cases, List, Option, Option-cases, arith, false, inl, inr, int_eq, ltb, nat_eq, none,
  some, true, ℕ, ◌++◌, ◌∷◌, ◌≡◌, ◌≢◌, ◌≤◌,
}
use minicloud.Problem.{Error}
use minicloud.WorkerAgent.Limiter.{
  Caller, Case, Limiter, Surroundings, advance, also_stops, called, dequeue, holding, interruption,
  is_done, leaving, none_ready, overflowing, polling, queueing, refused, release_slot, released,
  seeking, sends, stops, try_queue, try_slot, wait_slot,
}
use minicloud.WorkerAgent.Limiter.Occupancy.{
  Agent, Runs, Runs-Fits, idle_agent, places_held, slots_held,
}

-- What a call can do next. It is stuck only in the queue, while all slots are held and nothing stops it.
pub data Outlook (s : Agent) (w : Surroundings) : Caller → Type 0 where
  is_over : Outlook s w released
  is_refused : (e : Error) → Outlook s w (refused e)
  proceeds : {c : Caller} (k : Option Case) → advance s.limiter w k c ≢ none → Outlook s w c
  must_wait :
      s.limiter.slots ≡ s.limiter.max_slots
      → w.stop ≡ false
      → w.also_stop ≡ false
      → w.context_error ≡ none
      → Outlook s w queueing

module _ (l : Limiter) (w : Surroundings) where
  called_goes : advance l w none called ≢ none
  unfolding advance
  called_goes h = ground arith

  polling_goes : advance l w none polling ≢ none
  unfolding advance
  polling_goes h = ground arith

  dequeue_goes : (r : Option Error) → 1 ≤ l.queue → dequeue l r ≢ none
  unfolding dequeue
  dequeue_goes r some_queue h = ground arith

  release_goes : 1 ≤ l.slots → release_slot l ≢ none
  unfolding release_slot
  release_goes some_slots h = ground arith

-- Which case of a `select` is ready, where `room` says whether its send is.
data Readiness (w : Surroundings) (room : Bool) : Type 0 where
  sends_ready : room ≡ true → Readiness w room
  stop_ready : w.stop ≡ true → Readiness w room
  also_stop_ready : w.also_stop ≡ true → Readiness w room
  done_ready : (e : Error) → w.context_error ≡ some e → Readiness w room
  not_ready :
      room ≡ false
      → w.stop ≡ false
      → w.also_stop ≡ false
      → w.context_error ≡ none
      → Readiness w room

readiness : (w : Surroundings) (room : Bool) → Readiness w room
readiness w room = elim (Bool-cases room) [
  | inl open_now ↦ sends_ready open_now
  | inr full ↦ elim (Bool-cases w.stop) [
    | inl open_now ↦ stop_ready open_now
    | inr runs ↦ elim (Bool-cases w.also_stop) [
      | inl open_now ↦ also_stop_ready open_now
      | inr also_runs ↦ elim (Option-cases w.context_error) [
        | inl live ↦ not_ready full runs also_runs live
        | inr (e, h) ↦ done_ready e h
      ]
    ]
  ]
]

module _ (s : Agent) (w : Surroundings) where
  seeking-Outlook : Outlook s w seeking
  unfolding advance try_slot interruption none_ready
  seeking-Outlook = elim (readiness w (ltb s.limiter.slots s.limiter.max_slots)) [
    | sends_ready open_now ↦ proceeds (some sends) (λ h. ground arith)
    | stop_ready open_now ↦ proceeds (some stops) (λ h. ground arith)
    | also_stop_ready open_now ↦ proceeds (some also_stops) (λ h. ground arith)
    | done_ready e open_now ↦ proceeds (some is_done) (λ h. ground arith)
    | not_ready a b c d ↦ proceeds none (λ h. ground arith)
  ]

  overflowing-Outlook : Outlook s w overflowing
  unfolding advance try_queue interruption none_ready
  overflowing-Outlook = elim (readiness w (ltb s.limiter.queue s.limiter.max_queue)) [
    | sends_ready open_now ↦ proceeds (some sends) (λ h. ground arith)
    | stop_ready open_now ↦ proceeds (some stops) (λ h. ground arith)
    | also_stop_ready open_now ↦ proceeds (some also_stops) (λ h. ground arith)
    | done_ready e open_now ↦ proceeds (some is_done) (λ h. ground arith)
    | not_ready a b c d ↦ proceeds none (λ h. ground arith)
  ]

  queueing-Outlook : s.limiter.slots ≤ s.limiter.max_slots → Outlook s w queueing
  unfolding advance wait_slot interruption
  queueing-Outlook bound = elim (readiness w (ltb s.limiter.slots s.limiter.max_slots)) [
    | sends_ready open_now ↦ proceeds (some sends) (λ h. ground arith)
    | stop_ready open_now ↦ proceeds (some stops) (λ h. ground arith)
    | also_stop_ready open_now ↦ proceeds (some also_stops) (λ h. ground arith)
    | done_ready e open_now ↦ proceeds (some is_done) (λ h. ground arith)
    | not_ready full b c d ↦ must_wait (ground arith) b c d
  ]

-- In every state that calls reach from a new limiter, and in any surroundings, each call has ended,
-- or has a step that does not block, or waits in the queue while all the slots are held, neither
-- channel that stops it is closed and its context is not done. So neither a release nor the
-- receive that gives up a place in the queue ever blocks.
pub outlook :
    (concurrent queued : ℕ) {s : Agent} (front later : List Caller) (c : Caller) (w : Surroundings)
    → Runs (idle_agent concurrent queued) s
    → s.callers ≡ front ++ (c ∷ later)
    → Outlook s w c
unfolding advance
outlook concurrent queued {s} front later called w p e = proceeds none (called_goes s.limiter w)
outlook concurrent queued {s} front later polling w p e = proceeds none (polling_goes s.limiter w)
outlook concurrent queued {s} front later seeking w p e = seeking-Outlook s w
outlook concurrent queued {s} front later overflowing w p e = overflowing-Outlook s w
outlook concurrent queued {s} front later queueing w p e =
    let b = Runs-Fits concurrent queued p in
    queueing-Outlook s w (omega (arith, b.slots_exact, b.slots_bound, b.max_slots_fixed))
outlook concurrent queued {s} front later holding w p e = proceeds none (
    release_goes s.limiter w (
      omega (
        arith,
        slots_held concurrent queued s (Runs-Fits concurrent queued p) front later holding e,
      )))
outlook concurrent queued {s} front later released w p e = is_over
outlook concurrent queued {s} front later (leaving r) w p e = proceeds none (
    dequeue_goes s.limiter w r (
      omega (
        arith,
        places_held concurrent queued s (Runs-Fits concurrent queued p) front later (leaving r) e,
      )))
outlook concurrent queued {s} front later (refused x) w p e = is_refused x
