-- ===== src/Tests/LoadGate.antt =====
-- Runs of the load gate.
use minicloud.Text.{str_eq}
use minicloud.Problem.{plain}
use minicloud.Base.{[], false, int_eq, nat_eq, none, refl, some, true, ◌∷◌, ◌≡◌}
use minicloud.LoadGate.{
  LoadGate, Reservation, admitted, advance, arriving, entering, overflowing, refused,
  release_active, releasing, reserve_active, reserve_queued, reserved, wait, waited,
}
use minicloud.LoadGate.Occupancy.{
  IsBounded, Reaches, Reaches-IsBounded, System, advances, arrives, empty_gate, here, then_step,
}
use minicloud.LoadGate.Progress.{Outlook, never_stuck}

abbrev running : Reservation
running = record { is_active = true; is_queued = false }

abbrev queueing : Reservation
queueing = record { is_active = false; is_queued = true }

-- One load runs, and the second, which the context does not stop, is in the queue.
abbrev busy : LoadGate
busy = record { max_active = 1; max_queued = 1; active = 1; queued = 1 }

abbrev crowded : System
crowded = record { gate = busy; loads = reserved queueing ∷ waited running none ∷ [] }

Reaches-crowded : Reaches (empty_gate 1 1) crowded
unfolding advance reserve_active reserve_queued wait
Reaches-crowded =
    then_step
      (then_step
        (then_step
          (then_step
            (then_step (then_step here arrives)
              (advances [] [] arriving (reserved running) none none _ refl refl))
            (advances [] [] (reserved running) (waited running none) none (some admitted) _ refl
              refl))
          arrives)
        (advances [] (waited running none ∷ []) arriving overflowing none none _ refl refl))
      (advances [] (waited running none ∷ []) overflowing (reserved queueing) none none _ refl refl)

-- The first load is released, the second takes its place, and has yet to leave the queue: both channels
-- hold an element of it.
abbrev between : System
between = record {
  gate = busy;
  loads = entering queueing ∷ releasing (record running { is_active = false }) ∷ [];
}

Reaches-between : Reaches (empty_gate 1 1) between
unfolding advance release_active wait
Reaches-between =
    then_step
      (then_step Reaches-crowded (
        advances (reserved queueing ∷ []) [] (waited running none)
          (releasing (record running { is_active = false })) none none _ refl refl))
      (advances [] (releasing (record running { is_active = false }) ∷ []) (reserved queueing)
        (entering queueing) none (some admitted) _ refl refl)

refused_run :
    reserve_queued busy ≡ (busy, refused (plain "worker compiled cache load queue is full"))
unfolding reserve_queued
refused_run = refl

Reaches-IsBounded_example : IsBounded 1 1 between
Reaches-IsBounded_example = Reaches-IsBounded 1 1 Reaches-between

never_stuck_example : Outlook crowded none (reserved queueing)
never_stuck_example =
    never_stuck 1 1 [] (waited running none ∷ []) (reserved queueing) none Reaches-crowded refl
