-- ===== src/ControlPlane/State/Serves.antt =====
-- internal/controlplane: the invariant across the Catalog, the ReleaseStore and the RouteStore on which
-- `ServingStates` relies.
use minicloud.ControlPlane.Catalog.Methods.{compare_function}
use minicloud.ControlPlane.Routes.Invariant.{enabled_state-ok}
use minicloud.Base.{
  All, All-entries, Bool-cases, IsKeyed, List, Map, Option, Option-cases, [], arith, if_false,
  if_true, inl, inr, int_eq, length, length-sort, lookup, nat_eq, no_difference, none, refl, some,
  sort, subst, sym, true, ◌∙◌, ◌∷◌, ◌≡◌,
}
use minicloud.Text.{Str, str_eq}
use minicloud.Problem.{ok}
use minicloud.Model.{Function, lifecycle_eq, phase_eq, scaling_mode_eq, version_state_eq}
use minicloud.Model.Route.{Route, validate_core}
use minicloud.ControlPlane.Catalog.{Catalog, HttpTrigger, auth_eq}
use minicloud.ControlPlane.Release.{ReleaseStore}
use minicloud.ControlPlane.Routes.{RouteStore, validate_ready_target}
use minicloud.ControlPlane.Routes.Serving.{
  ServingState, routed_state, serving_state, serving_states, serving_states_of, unrouted_state,
}

abbrev pub HasTrigger : Catalog → Str → Type 0
HasTrigger c k =
    (trigger_id : Str) × (lookup k c.trigger_id_by_func ≡ some trigger_id)
    × ((t : HttpTrigger) × (lookup trigger_id c.triggers_by_id ≡ some t))

-- The Route of a Function is the one that the Function names, and it can be served.
abbrev pub RouteFits : ReleaseStore → Function → Option Route → Type 0
RouteFits s f none = f.active_route_revision ≡ 0
RouteFits s f (some r) =
    (r.route_revision ≡ f.active_route_revision)
    × (validate_core r ≡ none)
    × ((r.enabled ≡ true) → (validate_ready_target s r f ≡ none))

pub record IsServed (c : Catalog) (s : ReleaseStore) (r : RouteStore) (k : Str) (f : Function)
    : Type 0 where
  pub filed : f.metadata.id ≡ k
  pub trigger : HasTrigger c k
  pub route : RouteFits s f (lookup k r.routes)

pub record Serves (c : Catalog) (s : ReleaseStore) (r : RouteStore) : Type 0 where
  pub keyed : IsKeyed c.functions_by_id
  pub functions :
      (k : Str) (f : Function) → lookup k c.functions_by_id ≡ some f → IsServed c s r k f
  pub unrouted : (k : Str) → lookup k c.functions_by_id ≡ none → lookup k r.routes ≡ none

abbrev disabled_state : Function → HttpTrigger → Route → ServingState
disabled_state f t route = record {
  function = f;
  trigger = t;
  route = some route;
  version = none;
  deployment = none;
}

module _ (c : Catalog) (s : ReleaseStore) (r : RouteStore) where
  routed_state-ok :
      (f : Function) (t : HttpTrigger) (route : Route)
      → RouteFits s f (some route)
      → ((state : ServingState) × (routed_state s f t route ≡ ok state))
  unfolding routed_state
  routed_state-ok f t route (revision, valid, ready) =
      let current = no_difference route.route_revision f.active_route_revision revision in
      elim (Bool-cases (route.enabled)) [
        | inl on ↦
            let (state, e) = enabled_state-ok s route f t (ready on) in
            (state, rw (current, valid, routed_state) (if_true _ _ on ∙ e))
        | inr off ↦ (disabled_state f t route, rw (current, valid, routed_state) (if_false _ _ off))
      ]

  -- A served Function has a serving state.
  serving_state-ok :
      (f : Function)
      → IsServed c s r f.metadata.id f
      → ((state : ServingState) × (serving_state c s r f ≡ ok state))
  unfolding serving_state
  serving_state-ok f i =
      let (trigger_id, found, (t, given)) = i.trigger in
      elim (Option-cases (lookup f.metadata.id r.routes)) [
        | inl missing ↦
            let fits : f.active_route_revision ≡ 0 = subst (RouteFits s f) missing i.route in
            (
              unrouted_state f t,
              rw
                  (
                    found,
                    given,
                    missing,
                    no_difference f.active_route_revision 0 fits,
                    serving_state,
                  )
                  refl,
            )
        | inr (route, current) ↦
            let (state, e) = routed_state-ok f t route (subst (RouteFits s f) current i.route) in
            (state, rw (found, given, current, serving_state) e)
      ]

  -- All Functions of a list have serving states.
  serving_states_of-ok :
      (fs : Map Str Function)
      → All (λ entry. IsServed c s r (entry.0) (entry.1)) fs
      → ((states : List ServingState) × (serving_states_of c s r fs ≡ ok states)
          × (length states ≡ length fs))
  unfolding serving_states_of
  serving_states_of-ok [] h = ([], refl, refl)
  serving_states_of-ok ((k, f) ∷ fs) h =
      let (state, e) = serving_state-ok f (subst (λ j. IsServed c s r j f) (sym h.0.filed) h.0) in
      let (states, g, same_length) = serving_states_of-ok fs h.1 in
      (state ∷ states, rw (e, g, serving_states_of) refl, omega (arith, same_length))

  pub serving_states-ok :
      Serves c s r
      → ((states : List ServingState) × (serving_states c s r ≡ ok states)
          × (length states ≡ length c.functions_by_id))
  unfolding serving_states
  serving_states-ok i =
      let (states, e, same_length) =
        serving_states_of-ok c.functions_by_id
          (All-entries c.functions_by_id i.keyed i.functions) in
      (
        sort (λ a b. compare_function a.function b.function) states,
        rw (e, serving_states) refl,
        length-sort (λ a b. compare_function a.function b.function) states ∙ same_length,
      )
