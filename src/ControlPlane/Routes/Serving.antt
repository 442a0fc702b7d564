-- ===== src/ControlPlane/Routes/Serving.antt =====
-- internal/controlplane/route.go: `ServingStates`, the aggregate read for the serving view.
use minicloud.Base.{
  List, Map, Option, [], if◌then◌else◌, int_eq, lookup, nat_eq, none, some, sort, ◌!=◌, ◌∷◌,
}
use minicloud.Text.{Str, str_eq}
use minicloud.Problem.{Result, err, ok, plain, wrapped}
use minicloud.Model.{
  Deployment, Function, Version, lifecycle_eq, phase_eq, scaling_mode_eq, version_state_eq,
}
use minicloud.Model.Route.{Route, validate_core}
use minicloud.ControlPlane.Catalog.{Catalog, HttpTrigger, auth_eq}
use minicloud.ControlPlane.Catalog.Methods.{compare_function}
use minicloud.ControlPlane.Release.{ReleaseStore}
use minicloud.ControlPlane.Routes.{RouteStore, first_target, validate_ready_target}

pub record ServingState : Type 0 where
  pub function : Function
  pub trigger : HttpTrigger
  pub route : Option Route
  pub version : Option Version
  pub deployment : Option Deployment

-- An enabled Route with the Version and the Deployment of its target.
unfoldable pub enabled_state : ReleaseStore → Function → HttpTrigger → Route → Result ServingState
unfolding validate_ready_target
enabled_state releases f t r = elim (validate_ready_target releases r f) [
  | some e ↦ err (wrapped "route store invariant: validating ready target" e)
  | none ↦
      let target = first_target r.targets in
      elim (lookup target.version_id releases.versions) [
        | none ↦ err (plain "route store invariant: ready route version was not found")
        | some v ↦ elim (lookup target.version_id releases.deployments) [
          | none ↦ err (plain "route store invariant: ready route deployment was not found")
          | some d ↦ ok (record {
            function = f;
            trigger = t;
            route = some r;
            version = some v;
            deployment = some d;
          })
        ]
      ]
]

unfoldable pub routed_state : ReleaseStore → Function → HttpTrigger → Route → Result ServingState
unfolding validate_core enabled_state
routed_state releases f t r =
    if r.route_revision != f.active_route_revision
    then err (plain "route store invariant: route revision does not match function")
    else elim (validate_core r) [
      | some e ↦ err (wrapped "route store invariant: validating persisted route" e)
      | none ↦
          if r.enabled
          then enabled_state releases f t r
          else ok (record {
            function = f;
            trigger = t;
            route = some r;
            version = none;
            deployment = none;
          })
    ]

abbrev pub unrouted_state : Function → HttpTrigger → ServingState
unrouted_state f t = record {
  function = f;
  trigger = t;
  route = none;
  version = none;
  deployment = none;
}

-- One round of the loop over the Functions.
unfoldable pub serving_state : Catalog → ReleaseStore → RouteStore → Function → Result ServingState
unfolding routed_state
serving_state catalog releases s f = elim (lookup f.metadata.id catalog.trigger_id_by_func) [
  | none ↦ err (plain "catalog invariant: function has no default HTTP trigger")
  | some trigger_id ↦ elim (lookup trigger_id catalog.triggers_by_id) [
    | none ↦ err (plain "catalog invariant: default HTTP trigger was not found")
    | some t ↦ elim (lookup f.metadata.id s.routes) [
      | some r ↦ routed_state releases f t r
      | none ↦
          if f.active_route_revision != 0
          then err (plain "route store invariant: function active route is missing")
          else ok (unrouted_state f t)
    ]
  ]
]

unfoldable pub serving_states_of :
    Catalog → ReleaseStore → RouteStore → Map Str Function → Result (List ServingState)
unfolding serving_state
serving_states_of catalog releases s [] = ok []
serving_states_of catalog releases s ((id, f) ∷ fs) =
    let rest = serving_states_of catalog releases s fs in
    elim (serving_state catalog releases s f) [
      | err e ↦ err e
      | ok state ↦ elim rest [ err e ↦ err e | ok states ↦ ok (state ∷ states) ]
    ]

unfoldable pub serving_states : Catalog → ReleaseStore → RouteStore → Result (List ServingState)
unfolding serving_states_of compare_function
serving_states catalog releases s =
    elim (serving_states_of catalog releases s catalog.functions_by_id) [
      | err e ↦ err e
      | ok states ↦ ok (sort (λ a b. compare_function a.function b.function) states)
    ]
