-- ===== src/Tests/ControlPlane.antt =====
-- Runs of the Controller's stores.
use minicloud.ControlPlane.Catalog.{auth_eq}
use minicloud.Base.{
  List, [], arith, contains, delete, false, insert, int_eq, length, lookup, nat_eq, none, refl,
  some, sort, true, ℤ-discrete, ◌∷◌, ◌≡◌, ◌≤◌, ◌⊎◌,
}
use minicloud.Text.{Str, codes, str_eq, valid_utf8}
use minicloud.Problem.{err, ok}
use minicloud.Digest.{canonical_json}
use minicloud.Model.{
  DeploymentPhase-discrete, FunctionLifecycle-discrete, ScalingMode-discrete, Version,
  VersionState-discrete, lifecycle_eq, phase_eq, scaling_mode_eq, version_ready, version_state_eq,
}
use minicloud.Model.Route.{serving_route, validate_route}
use minicloud.Routing.{Decision, validate_route_targets}
use minicloud.Routing.Bucket.{select}
use minicloud.Routing.Selection.{AreBytes}
use minicloud.Routing.Select.{IsDecision, disabled_error, select_route, select_route_agrees}
use minicloud.ServingAuth.{
  Mode-discrete, connection_eq, fence_eq, identity_eq, mode_eq, session_eq, validate_identity,
  validate_session,
}
use minicloud.WasmProfile.{new_profile}
use minicloud.ControlPlane.Release.Lifecycle.{state_in}
use minicloud.ControlPlane.Routes.Serving.{ServingState, serving_states}
use minicloud.ControlPlane.Assignments.{
  AssignmentTarget-discrete, DesiredState-discrete, active_count, assignment_target_eq, desired_eq,
}
use minicloud.ControlPlane.Assignments.Counts.{count_active}
use minicloud.ControlPlane.State.{
  ControlCall, ControlState, call_store, new_control_state, run_calls,
}
use minicloud.ControlPlane.State.History.{run_calls-serving_states}
use minicloud.ControlPlane.State.Versions.{Evolves, IsReadyAs, call_store-Evolves, ready_forever}
use minicloud.ControlPlane.State.Placements.{run_calls-count_active}
use minicloud.Tests.Fixtures.{texts}
use minicloud.Tests.ControlFixtures.{
  all_calls, completion_call, creation, deployment, policy_encoding, publication, release_calls,
  route, start_call, target, time, upload_call, version,
}

abbrev run_from_new : List ControlCall → ControlState
run_from_new calls = run_calls policy_encoding new_control_state calls

abbrev reached : ControlState
reached = run_from_new all_calls

unfoldable control_runs : Unit {0}
unfolding texts run_calls call_store lookup insert delete contains sort AssignmentTarget-discrete
    validate_identity validate_session Mode-discrete new_profile ℤ-discrete valid_utf8
    FunctionLifecycle-discrete VersionState-discrete ScalingMode-discrete DeploymentPhase-discrete
    canonical_json DesiredState-discrete count_active serving_states
control_runs = tt

-- The calls of the run succeed: at its end the Version is Ready, and assigned.
assigned_run : count_active target reached.assignments.records ≡ 1
unfolding control_runs
assigned_run = refl

ready_run : state_in reached.releases (codes "version-1") ≡ some version_ready
unfolding control_runs
ready_run = refl

run_calls-serving_states_example :
    (states : List ServingState) × (serving_states reached.catalog reached.releases reached.routes
      ≡ ok states)
    × (length states ≡ length reached.catalog.functions_by_id)
run_calls-serving_states_example = run_calls-serving_states policy_encoding all_calls

run_calls-count_active_example :
    (active_count reached.assignments target ≡ count_active target reached.assignments.records)
    × (count_active target reached.assignments.records ≤ 1)
run_calls-count_active_example = run_calls-count_active policy_encoding all_calls target

abbrev uploaded : ControlState
uploaded = run_from_new (creation ∷ upload_call ∷ [])

call_store-Evolves_example :
    Evolves
      (state_in uploaded.releases (codes "version-1"))
      (state_in (call_store policy_encoding uploaded start_call).releases (codes "version-1"))
call_store-Evolves_example =
    call_store-Evolves policy_encoding (creation ∷ upload_call ∷ []) start_call (codes "version-1")

abbrev ready_version : Version
ready_version = record version {
  state = version_ready;
  metadata = record (version.metadata) { updated_at = time 4; resource_revision = 3 };
}

admitted_run :
    IsReadyAs
      (run_from_new release_calls).releases
      (codes "version-1")
      ready_version
      (some deployment)
unfolding control_runs
admitted_run = (refl, refl, refl)

ready_forever_example :
    IsReadyAs
      (run_calls policy_encoding
        (run_from_new release_calls)
        (completion_call ∷ publication ∷ [])).releases
      (codes "version-1")
      ready_version
      (some deployment)
ready_forever_example =
    ready_forever policy_encoding release_calls (completion_call ∷ publication ∷ [])
      (codes "version-1") ready_version (some deployment) admitted_run

abbrev constant_hash : Str → Str
constant_hash s = codes "01234567"

valid_route_run : validate_route route ≡ none
unfolding control_runs validate_route validate_route_targets
valid_route_run = refl

constant_hash-AreBytes : (s : Str) → AreBytes (constant_hash s)
constant_hash-AreBytes s = (
  omega arith,
  (
    omega arith,
    (omega arith, (omega arith, (omega arith, (omega arith, (omega arith, (omega arith, tt)))))),
  ),
)

select_route_agrees_example :
    ((route.enabled ≡ true)
      × ((d : Decision) × IsDecision constant_hash route (codes "key") d
          × (select_route constant_hash route (codes "key") ≡ ok d)
          × (select constant_hash (serving_route route) (codes "key") ≡ ok d)))
    ⊎ ((route.enabled ≡ false)
        × (select_route constant_hash route (codes "key") ≡ err disabled_error)
        × (select constant_hash (serving_route route) (codes "key") ≡ err disabled_error))
select_route_agrees_example =
    select_route_agrees constant_hash constant_hash-AreBytes route (codes "key") valid_route_run
      (omega arith)
