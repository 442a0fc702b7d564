-- ===== src/Tests/Limiter.antt =====
-- Runs of the limiter of a Worker.
use minicloud.Text.{str_eq}
use minicloud.Base.{[], false, int_eq, nat_eq, none, refl, some, ◌∷◌, ◌≡◌}
use minicloud.WorkerAgent.Limiter.{
  Limiter, Surroundings, advance, called, check_context, holding, none_ready, overflowing,
  poll_stop, polling, queue_full, queueing, refused, seeking, sends, try_queue, try_slot,
}
use minicloud.WorkerAgent.Limiter.Progress.{Outlook, outlook}
use minicloud.WorkerAgent.Limiter.Occupancy.{
  Agent, Fits, Runs, Runs-Fits, advances, and_move, arrives, at_start, idle_agent,
}

abbrev calm : Surroundings
calm = record { context_error = none; stop = false; also_stop = false }

-- One slot and one place in the queue, both taken: a second call waits for the first.
abbrev full_limiter : Limiter
full_limiter = record { max_slots = 1; max_queue = 1; slots = 1; queue = 1 }

abbrev full_agent : Agent
full_agent = record { limiter = full_limiter; callers = queueing ∷ holding ∷ [] }

first_call :
    Runs
      (idle_agent 1 1)
      (record { limiter = record full_limiter { queue = 0 }; callers = holding ∷ [] })
unfolding advance check_context poll_stop try_slot
first_call =
    and_move
      (and_move
        (and_move (and_move at_start arrives) (advances [] [] called polling calm none _ refl refl))
        (advances [] [] polling seeking calm none _ refl refl))
      (advances [] [] seeking holding calm (some sends) _ refl refl)

Runs-full : Runs (idle_agent 1 1) full_agent
unfolding advance check_context poll_stop try_slot try_queue none_ready
Runs-full =
    and_move
      (and_move
        (and_move
          (and_move (and_move first_call arrives)
            (advances [] (holding ∷ []) called polling calm none _ refl refl))
          (advances [] (holding ∷ []) polling seeking calm none _ refl refl))
        (advances [] (holding ∷ []) seeking overflowing calm none _ refl refl))
      (advances [] (holding ∷ []) overflowing queueing calm (some sends) _ refl refl)

third_call_run : try_queue full_limiter calm none ≡ some (full_limiter, refused queue_full)
unfolding try_queue none_ready
third_call_run = refl

Runs-Fits_example : Fits 1 1 full_agent
Runs-Fits_example = Runs-Fits 1 1 Runs-full

outlook_example : Outlook full_agent calm queueing
outlook_example = outlook 1 1 [] (holding ∷ []) queueing calm Runs-full refl
