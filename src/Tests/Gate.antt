-- ===== src/Tests/Gate.antt =====
-- Runs of the authorization gate.
use minicloud.ServingAuth.Gate.Fencing.{newer_epoch_fences, run-epochs, stale_leader_refused}
use minicloud.ServingAuth.Gate.Authorize.{
  Permits, authorize_sync_iff, backwards_clock_closes, disconnect_ends_live_only,
}
use minicloud.ServingAuth.Gate.Install.{authorize_sync-install}
use minicloud.ServingAuth.Gate.Invariant.{Inv, run-new-Inv}
use minicloud.Text.{codes, str_eq}
use minicloud.Problem.{classified, ok, stale_generation}
use minicloud.Base.{
  List, [], arith, delete, false, inl, insert, int_eq, lookup, nat_eq, none, pos, refl, some, true,
  ℤ, ◌-ℤ◌, ◌<ℤ◌, ◌↔◌, ◌∷◌, ◌≡◌, ◌≢◌, ◌≤◌,
}
use minicloud.ServingAuth.{
  AssignmentIdentity, AssignmentIdentity-discrete, Authorization, ControlConnection,
  ControlConnection-discrete, InvocationFence, InvocationFence-discrete, Mode-discrete,
  WorkerSession-discrete, connection_eq, fence_eq, identity_eq, live_only, mode_eq, normal,
  session_eq, ttl, validate_authorization, validate_connection, validate_fence, validate_identity,
  validate_process, validate_session,
}
use minicloud.ServingAuth.Gate.{Config, Gate, current_control, current_worker, default_max_ttl, new}
use minicloud.ServingAuth.Gate.Methods.{
  Call, accept_control, accepts, authorize_sync, authorizes, disconnect_control, disconnects,
  install, installs, revoke, run, step,
}
use minicloud.Tests.Fixtures.{digest, texts}

abbrev config : Config
config = record {
  worker = record { worker_id = codes "worker-1"; boot_id = codes "boot-1" };
  max_ttl = pos 0;
  max_authorizations = pos 2;
}

abbrev fresh : Gate
fresh = record {
  worker = config.worker;
  max_ttl = default_max_ttl;
  max_authorizations = 2;
  highest_discovery_epoch = 0;
  current_session_epoch = 0;
  control = record {
    connection = record { connection_id = []; session_epoch = 0; discovery_epoch = 0 };
    connected = false;
  };
  assignments = [];
  authorizations = [];
  last_elapsed = pos 5;
  clock_healthy = true;
}

abbrev connection : ControlConnection
connection = record { connection_id = codes "conn-1"; session_epoch = 1; discovery_epoch = 3 }

abbrev old_connection : ControlConnection
old_connection = record { connection_id = codes "conn-0"; session_epoch = 2; discovery_epoch = 2 }

abbrev new_connection : ControlConnection
new_connection = record { connection_id = codes "conn-2"; session_epoch = 2; discovery_epoch = 4 }

abbrev identity : AssignmentIdentity
identity = record {
  worker = record { worker_id = codes "worker-1"; boot_id = codes "boot-1"; session_epoch = 1 };
  assignment_id = codes "assignment-1";
  version_id = codes "version-1";
  admission_epoch = 1;
  deployment_generation = 1;
  policy_digest = digest;
  mode = normal;
}

abbrev fence : InvocationFence
fence = record { assignment = identity; discovery_epoch = 3 }

abbrev timed : Authorization
timed = record { fence = fence; lifetime = ttl; ttl = pos 100 }

abbrev live : Authorization
live = record { fence = fence; lifetime = live_only; ttl = pos 0 }

abbrev connected_gate : Gate
connected_gate = record fresh {
  highest_discovery_epoch = 3;
  current_session_epoch = 1;
  control = record { connection = connection; connected = true };
}

abbrev serving_gate : Authorization → Gate
serving_gate a = record connected_gate {
  assignments = (codes "assignment-1", identity) ∷ [];
  authorizations =
      (
        codes "assignment-1",
        record { authorization = a; connection = connection; received_at = pos 10 },
      )
      ∷ [];
  last_elapsed = pos 10;
}

unfoldable runs : Unit {0}
unfolding texts new step accept_control install authorize_sync disconnect_control revoke
    validate_connection validate_fence validate_identity validate_session validate_process
    validate_authorization Mode-discrete WorkerSession-discrete AssignmentIdentity-discrete
    InvocationFence-discrete ControlConnection-discrete lookup insert delete current_worker
    current_control ◌-ℤ◌
runs = tt

new_run : new config (pos 5) ≡ ok fresh
unfolding runs
new_run = refl

accept_run : accept_control fresh connection ≡ (connected_gate, none)
unfolding runs
accept_run = refl

install_run : install connected_gate connection timed (pos 10) ≡ (serving_gate timed, none)
unfolding runs
install_run = refl

authorize_run : (authorize_sync (serving_gate timed) fence (pos 109)).1 ≡ none
unfolding runs
authorize_run = refl

expired_run : (authorize_sync (serving_gate timed) fence (pos 110)).0.authorizations ≡ []
unfolding runs
expired_run = refl

Permits-timed : Permits (serving_gate timed) fence (pos 60)
unfolding runs
Permits-timed = record {
  is_normal = refl;
  current_epoch = refl;
  is_healthy = refl;
  later = omega arith;
  stored = record { authorization = timed; connection = connection; received_at = pos 10 };
  found = refl;
  same_fence = refl;
  received = omega arith;
  alive = omega arith;
}

authorize_sync-install_example :
    ((authorize_sync (install connected_gate connection timed (pos 10)).0 fence (pos 109)).1 ≡ none)
    ↔ ((pos 109 -ℤ pos 10) <ℤ pos 100)
unfolding runs
authorize_sync-install_example =
    authorize_sync-install connected_gate connection timed (pos 10) (pos 109) refl refl refl
      (omega arith)

authorize_sync_iff_example :
    ((authorize_sync (serving_gate timed) fence (pos 60)).1 ≡ none)
    ↔ Permits (serving_gate timed) fence (pos 60)
unfolding runs
authorize_sync_iff_example = authorize_sync_iff (serving_gate timed) fence (pos 60) refl

run-epochs_example :
    (3 ≤ (run connected_gate (installs connection timed (pos 10) ∷ [])).highest_discovery_epoch)
    × (1 ≤ (run connected_gate (installs connection timed (pos 10) ∷ [])).current_session_epoch)
run-epochs_example = run-epochs connected_gate (installs connection timed (pos 10) ∷ [])

stale_leader_refused_example :
    accept_control
      (run (accept_control fresh connection).0 (disconnects connection ∷ []))
      old_connection
    ≡ (
      run (accept_control fresh connection).0 (disconnects connection ∷ []),
      some (classified stale_generation "control discovery epoch is stale"),
    )
unfolding runs
stale_leader_refused_example =
    stale_leader_refused fresh connection old_connection (disconnects connection ∷ []) refl refl
      (omega arith)

abbrev quiet_calls : List Call
quiet_calls = accepts new_connection ∷ authorizes fence (pos 50) ∷ disconnects connection ∷ []

abbrev fenced_gate : Gate
fenced_gate = run (accept_control (serving_gate timed) new_connection).0 quiet_calls

newer_epoch_fences_example :
    ((authorize_sync fenced_gate fence (pos 60)).0 ≡ fenced_gate)
    × ((authorize_sync fenced_gate fence (pos 60)).1 ≢ none)
unfolding runs
newer_epoch_fences_example =
    newer_epoch_fences (serving_gate timed) new_connection quiet_calls fence (pos 60) refl
      (inl (omega arith)) (tt, (tt, (tt, tt)))

run-new-Inv_example : Inv (run fresh (accepts connection ∷ installs connection timed (pos 10) ∷ []))
run-new-Inv_example =
    run-new-Inv config (pos 5) fresh (accepts connection ∷ installs connection timed (pos 10) ∷ [])
      new_run

backwards_clock_closes_example :
    let closed =
      run (authorize_sync (serving_gate timed) fence (pos 9)).0 (accepts new_connection ∷ []) in
    ((authorize_sync (serving_gate timed) fence (pos 9)).1 ≢ none)
    × ((f : InvocationFence) (now : ℤ) → (authorize_sync closed f now).1 ≢ none)
    × ((c : ControlConnection) (a : Authorization) (now : ℤ) → (install closed c a now).1 ≢ none)
unfolding runs
backwards_clock_closes_example =
    backwards_clock_closes (serving_gate timed) fence (pos 60) (pos 9) (accepts new_connection ∷ [])
      refl Permits-timed (omega arith)

disconnect_ends_live_only_example :
    (authorize_sync (disconnect_control (serving_gate live) connection) fence (pos 11)).1 ≢ none
unfolding runs
disconnect_ends_live_only_example =
    disconnect_ends_live_only (serving_gate live) fence
      (record { authorization = live; connection = connection; received_at = pos 10 }) (pos 11) refl
      refl refl
