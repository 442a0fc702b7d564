-- ===== src/ControlPlane/State.antt =====
-- internal/controlplane: the stores of the Controller together, and histories of calls on them. Calls
-- hold the mutexes of the stores that they touch, so that a history is a sequence of calls.
pub mod Serves
pub mod Writers
pub mod Routing
pub mod Publishing
pub mod History
pub mod Versions
pub mod Placements
use minicloud.Text.{str_eq}
use minicloud.Base.{List, [], int_eq, nat_eq, ◌∷◌}
use minicloud.Problem.{Result}
use minicloud.Model.{Function, lifecycle_eq, phase_eq, scaling_mode_eq, version_state_eq}
use minicloud.Model.Policy.{PolicyEncoding}
use minicloud.ControlPlane.Catalog.{
  Catalog, CreateFunction, HttpTrigger, RotateToken, SetLifecycle, auth_eq, new_catalog,
}
use minicloud.ControlPlane.Catalog.Methods.{
  create_function, rotate_invocation_token, set_function_lifecycle,
}
use minicloud.ControlPlane.Release.{
  CompleteValidation, CreateVersion, ReleaseStore, StartValidation, new_release_store,
}
use minicloud.ControlPlane.Release.Methods.{complete_validation, create_version, start_validation}
use minicloud.ControlPlane.Routes.{PublishRoute, RouteStore, new_route_store, publish}
use minicloud.ControlPlane.Assignments.{
  AssignmentStore, CancelAssignment, InstallAssignment, assignment_target_eq, cancel_assignment,
  desired_eq, install_assignment, new_assignment_store,
}

pub record ControlState : Type 0 where
  pub catalog : Catalog
  pub releases : ReleaseStore
  pub routes : RouteStore
  pub assignments : AssignmentStore

abbrev pub new_control_state : ControlState
new_control_state = record {
  catalog = new_catalog;
  releases = new_release_store;
  routes = new_route_store;
  assignments = new_assignment_store;
}

-- A call that changes a store. `CreateVersion` reads its parent from the Catalog before it takes its own
-- mutex, so what it read may be of any earlier time.
pub data ControlCall : Type 0 where
  creates_function : CreateFunction → ControlCall
  sets_lifecycle : SetLifecycle → ControlCall
  rotates_token : RotateToken → ControlCall
  creates_version : Result (Function × HttpTrigger) → CreateVersion → ControlCall
  starts_validation : StartValidation → ControlCall
  completes_validation : CompleteValidation → ControlCall
  publishes_route : PublishRoute → ControlCall
  installs_assignment : InstallAssignment → ControlCall
  cancels_assignment : CancelAssignment → ControlCall

module _ (enc : PolicyEncoding) where
  unfoldable pub call_store : ControlState → ControlCall → ControlState
  unfolding create_function set_function_lifecycle rotate_invocation_token create_version
      start_validation complete_validation publish install_assignment cancel_assignment
  call_store s (creates_function c) = record s { catalog = (create_function s.catalog c).0 }
  call_store s (sets_lifecycle c) = record s { catalog = (set_function_lifecycle s.catalog c).0 }
  call_store s (rotates_token c) = record s { catalog = (rotate_invocation_token s.catalog c).0 }
  call_store s (creates_version parent c) = record s {
    releases = (create_version s.releases parent c).0;
  }
  call_store s (starts_validation c) = record s { releases = (start_validation s.releases c).0 }
  call_store s (completes_validation c) = record s {
    releases = (complete_validation enc s.releases c).0;
  }
  call_store s (publishes_route c) =
      let (catalog, routes, _) = publish s.catalog s.releases s.routes c in
      record s { catalog = catalog; routes = routes }
  call_store s (installs_assignment c) = record s {
    assignments = (install_assignment s.catalog s.releases s.routes s.assignments c).0;
  }
  call_store s (cancels_assignment c) = record s {
    assignments = (cancel_assignment s.assignments c).0;
  }

  unfoldable pub run_calls : ControlState → List ControlCall → ControlState
  unfolding call_store
  run_calls s [] = s
  run_calls s (call ∷ calls) = run_calls (call_store s call) calls
