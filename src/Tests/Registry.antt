-- ===== src/Tests/Registry.antt =====
-- Runs of the Worker Registry.
use minicloud.ServingAuth.{
  WorkerSession, WorkerSession-discrete, connection_eq, fence_eq, identity_eq, mode_eq, session_eq,
  validate_session,
}
use minicloud.Scheduler.{
  DrainState-discrete, SchedulingIntent-discrete, drain_eq, drained, draining, intent_eq,
  intent_valid, removed, state_eq, unavailable,
}
use minicloud.Base.{
  List, [], arith, false, insert, int_eq, lookup, nat_eq, none, pos, refl, some, true, ℕ, ◌++◌, ◌∷◌,
  ◌≡◌, ◌≢◌,
}
use minicloud.Text.{codes, str_eq}
use minicloud.Problem.{ok}
use minicloud.Registry.Sessions.{
  AllConsistent, IsConsistent, removed_forever, run-AllConsistent, run-new_registry-IsConsistent,
  superseded_session,
}
use minicloud.Registry.Steps.{step-Evolves}
use minicloud.Registry.{
  Config, DrainObservation, Registration, Registry, WorkerRecord, current_record, new_registry,
  seconds,
}
use minicloud.Registry.Methods.{
  commit_record, commit_session, heartbeat, joining_record, register, register_record,
}
use minicloud.Registry.Control.{
  Call, change_intent, commits, drains, intends, next_drain, registers, remove_worker, run,
  set_intent, step, update_drain,
}
use minicloud.Registry.Lifecycle.{Evolves, with_session}
use minicloud.WorkerCache.{key_eq}
use minicloud.Tests.Fixtures.{texts}

abbrev config : Config
config = record {
  heartbeat_interval = pos 0;
  suspect_after = pos 0;
  unavailable_after = pos 0;
  max_workers = pos 2;
}

abbrev empty_registry : Registry
empty_registry = record {
  heartbeat_interval = seconds 2;
  suspect_after = seconds 6;
  unavailable_after = seconds 10;
  max_workers = 2;
  workers = [];
  revision = 0;
  last_elapsed = pos 5;
  clock_healthy = true;
}

abbrev session : ℕ → WorkerSession
session epoch = record {
  worker_id = codes "worker-1";
  boot_id = codes "boot-1";
  session_epoch = epoch;
}

abbrev first : Registration
first = record { session = session 1 }

abbrev successor : Registration
successor = record { session = session 2 }

-- Committed and registered with epoch one.
abbrev started : WorkerRecord
started = record (with_session (joining_record (codes "worker-1")) (session 1)) {
  registered = true;
  last_heartbeat = pos 7;
}

-- Registered, told to drain, drained and removed.
abbrev gone : WorkerRecord
gone = record started { intent = removed; drain = drained; registered = false; state = unavailable }

abbrev enlist : List Call
enlist = commits first ∷ registers first (pos 7) ∷ []

abbrev done : DrainObservation
done = record {
  session = session 1;
  active_invocations = 0;
  assignments_drained = true;
  gateway_fences_acked = true;
  authorization_expired = false;
}

abbrev leave : List Call
leave =
    commits first
    ∷ registers first (pos 7)
    ∷ intends (codes "worker-1") draining
    ∷ drains done
    ∷ intends (codes "worker-1") removed
    ∷ []

abbrev replaced : WorkerRecord
replaced = with_session started (session 2)

unfoldable runs : Unit {0}
unfolding texts new_registry commit_session commit_record register register_record joining_record
    set_intent change_intent remove_worker update_drain next_drain validate_session lookup insert
    step run current_record intent_valid SchedulingIntent-discrete WorkerSession-discrete
    DrainState-discrete
runs = tt

new_registry_run : new_registry config (pos 5) ≡ ok empty_registry
unfolding runs
new_registry_run = refl

found_started : lookup (codes "worker-1") (run empty_registry enlist).workers ≡ some started
unfolding runs
found_started = refl

found_replaced :
    lookup (codes "worker-1") (run empty_registry (enlist ++ (commits successor ∷ []))).workers
    ≡ some replaced
unfolding runs
found_replaced = refl

found_gone : lookup (codes "worker-1") (run empty_registry leave).workers ≡ some gone
unfolding runs
found_gone = refl

empty-AllConsistent : AllConsistent empty_registry
unfolding lookup
empty-AllConsistent id w e = absurd (ground arith)

step-Evolves_example :
    Evolves
      (run empty_registry enlist).workers
      (step (run empty_registry enlist) (commits successor)).workers
step-Evolves_example = step-Evolves (run empty_registry enlist) (commits successor)

run-new_registry-IsConsistent_example : IsConsistent started
run-new_registry-IsConsistent_example =
    run-new_registry-IsConsistent config (pos 5) empty_registry enlist (codes "worker-1") started
      new_registry_run found_started

superseded_session_example :
    let later =
      run
        (run empty_registry (enlist ++ (commits successor ∷ [])))
        (registers successor (pos 9) ∷ []) in
    ((register later first (pos 10)).1 ≢ none) × ((heartbeat later (session 1) (pos 10)).1 ≢ none)
superseded_session_example =
    superseded_session (run empty_registry (enlist ++ (commits successor ∷ []))) replaced
      (registers successor (pos 9) ∷ []) (session 1) (pos 10)
      (run-AllConsistent empty_registry (enlist ++ (commits successor ∷ [])) empty-AllConsistent)
      found_replaced (omega arith)

removed_forever_example :
    let later = run (run empty_registry leave) (commits successor ∷ []) in
    ((w : WorkerRecord) × (lookup (codes "worker-1") later.workers ≡ some w) × (w.intent ≡ removed))
    × ((register later successor (pos 9)).1 ≢ none)
removed_forever_example =
    removed_forever (run empty_registry leave) gone (commits successor ∷ []) (session 2) (pos 9)
      (run-AllConsistent empty_registry leave empty-AllConsistent) found_gone refl
