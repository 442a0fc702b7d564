-- ===== src/ControlPlane/Routes/Invariant.antt =====
-- internal/controlplane/route.go: the invariant of the current Routes, which the serving view relies on.
use minicloud.Routing.{RouteTarget}
use minicloud.ControlPlane.Routes.Serving.{ServingState, enabled_state}
use minicloud.ControlPlane.Catalog.{HttpTrigger, auth_eq}
use minicloud.Base.{
  Bool, Option, arith, int_eq, lookup, nat_eq, none, refl, some, sym, ◌&&◌, ◌==◌, ◌∙◌, ◌≡◌,
}
use minicloud.Text.{Str, str_eq}
use minicloud.Model.{
  Deployment, Function, Version, VersionState, lifecycle_eq, phase_eq, scaling_mode_eq,
  version_ready, version_state_eq,
}
use minicloud.Model.Route.{Route}
use minicloud.ControlPlane.Release.{ReleaseStore}
use minicloud.ControlPlane.Release.Lifecycle.{Writes}
use minicloud.ControlPlane.Release.Invariant.{ready_kept}
use minicloud.ControlPlane.Routes.{
  deployment_matches, first_target, validate_ready_target, version_matches,
}
use minicloud.Problem.{Error, ok, require, then_check-none}

version_ready_of :
    (o : Option Version) (t : RouteTarget) (id : Str) (e : Error)
    → require (version_matches o t id) e ≡ none
    → ((v : Version) × (o ≡ some v) × (v.state ≡ version_ready))
version_ready_of none t id e h = absurd (ground arith)
version_ready_of (some v) t id e h = (v, refl, state_of_match v.function_id id v.state _ h)
  where
    state_of_match :
        (a b : Str) (state : VersionState) (rest : Bool)
        → require (a == b && state == version_ready && rest) e ≡ none
        → state ≡ version_ready
    state_of_match a b state rest k = ground arith

module _ (r : Route) (f : Function) where
  -- The target of a checked Route is Ready.
  pub target_ready :
      (s : ReleaseStore)
      → validate_ready_target s r f ≡ none
      → ((v : Version) × (lookup (first_target r.targets).version_id s.versions ≡ some v)
          × (v.state ≡ version_ready))
  unfolding validate_ready_target
  target_ready s h =
      let t = first_target r.targets in
      let (a, _) =
        then_check-none
          (require (version_matches (lookup t.version_id s.versions) t f.metadata.id) _) _ h in
      version_ready_of (lookup t.version_id s.versions) t f.metadata.id _ a

  -- A checked target stays one.
  pub target_kept :
      {s s' : ReleaseStore}
      → Writes s s'
      → validate_ready_target s r f ≡ none
      → validate_ready_target s' r f ≡ none
  unfolding validate_ready_target
  target_kept {s} w h =
      let (v, found, ready) = target_ready s h in
      let (kept, deployment) = ready_kept w (first_target r.targets).version_id v found ready in
      rw (kept ∙ sym found, deployment) h

deployment_of :
    (o : Option Deployment) (t : RouteTarget) (e : Error)
    → require (deployment_matches o t) e ≡ none
    → ((d : Deployment) × (o ≡ some d))
deployment_of none t e h = absurd (ground arith)
deployment_of (some d) t e h = (d, refl)

module _ (s : ReleaseStore) (r : Route) (f : Function) where
  target_deployment :
      validate_ready_target s r f ≡ none
      → ((d : Deployment) × (lookup (first_target r.targets).version_id s.deployments ≡ some d))
  unfolding validate_ready_target
  target_deployment h =
      let t = first_target r.targets in
      let (_, b) =
        then_check-none
          (require (version_matches (lookup t.version_id s.versions) t f.metadata.id) _) _ h in
      deployment_of (lookup t.version_id s.deployments) t _ b

  abbrev served_state : HttpTrigger → Version → Deployment → ServingState
  served_state t v d = record {
    function = f;
    trigger = t;
    route = some r;
    version = some v;
    deployment = some d;
  }

  -- A checked Route has a serving state.
  pub enabled_state-ok :
      (t : HttpTrigger)
      → validate_ready_target s r f ≡ none
      → ((state : ServingState) × (enabled_state s f t r ≡ ok state))
  unfolding enabled_state
  enabled_state-ok t h =
      let (v, found, _) = target_ready r f s h in
      let (d, deployed) = target_deployment h in
      (served_state t v d, rw (h, found, deployed, enabled_state) refl)
