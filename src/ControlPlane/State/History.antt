-- ===== src/ControlPlane/State/History.antt =====
-- internal/controlplane: after any history of calls the serving view can be read.
use minicloud.Model.Policy.{PolicyEncoding}
use minicloud.ControlPlane.Release.Lifecycle.{
  IsFiled, Writes, create_version-Writes, start_validation-Writes,
}
use minicloud.ControlPlane.Release.Invariant.{Writes-IsFiled}
use minicloud.ControlPlane.Routes.Serving.{ServingState, serving_states}
use minicloud.ControlPlane.State.{
  ControlCall, ControlState, call_store, cancels_assignment, completes_validation, creates_function,
  creates_version, installs_assignment, new_control_state, publishes_route, rotates_token,
  run_calls, sets_lifecycle, starts_validation,
}
use minicloud.ControlPlane.State.Routing.{add_function-Serves, guarded_free, new_function-unrouted}
use minicloud.ControlPlane.Release.Methods.{complete_validation, create_version, start_validation}
use minicloud.ControlPlane.State.Publishing.{publish-Serves}
use minicloud.ControlPlane.Release.Completion.{complete_validation-Writes}
use minicloud.Base.{
  List, Option, [], inl, inr, int_eq, length, lookup, nat_eq, none, option_disjoint, refl, some,
  subst, sym, ◌∷◌, ◌≡◌, ◌⊎◌,
}
use minicloud.Text.{str_eq}
use minicloud.Problem.{ok}
use minicloud.Model.{Function, lifecycle_eq, phase_eq, scaling_mode_eq, version_state_eq}
use minicloud.Model.Route.{Route}
use minicloud.ControlPlane.Catalog.{Catalog, CreateFunction, RotateToken, SetLifecycle, auth_eq}
use minicloud.ControlPlane.Catalog.Methods.{
  create_function, rotate_invocation_token, set_function_lifecycle, with_lifecycle,
}
use minicloud.ControlPlane.Catalog.Invariant.{
  create_function-cases, rotate_invocation_token-cases, set_function_lifecycle-cases,
}
use minicloud.ControlPlane.Release.{ReleaseStore}
use minicloud.ControlPlane.Routes.{RouteStore, validate_ready_target}
use minicloud.ControlPlane.State.Serves.{RouteFits, Serves, serving_states-ok}
use minicloud.ControlPlane.State.Writers.{
  release-Serves, update_function-Serves, with_trigger-Serves,
}

relabelled :
    (s : ReleaseStore) (f : Function) (change : SetLifecycle) (o : Option Route)
    → RouteFits s f o
    → RouteFits s (with_lifecycle f change) o
unfolding with_lifecycle validate_ready_target
relabelled s f change none h = h
relabelled s f change (some r) h = h

module _ (c : Catalog) (s : ReleaseStore) (r : RouteStore) where
  set_lifecycle-Serves :
      (change : SetLifecycle) → Serves c s r → Serves (set_function_lifecycle c change).0 s r
  unfolding with_lifecycle
  set_lifecycle-Serves change i = elim (set_function_lifecycle-cases c change) [
    | inl e ↦ rw e i
    | inr (f, found, e) ↦
        let k = change.function_id in
        let served = i.functions k f found in
        rw e (
          update_function-Serves i k f (with_lifecycle f change) found served.filed r
            (relabelled s f change (lookup k r.routes) served.route) (λ j _. refl))
  ]

  create_function-Serves :
      (create : CreateFunction) → Serves c s r → Serves (create_function c create).0 s r
  create_function-Serves create i = elim (create_function-cases c create) [
    | inl e ↦ rw e i
    | inr (valid, free, e) ↦
        let (fresh, fresh_trigger) = guarded_free c create free in
        rw e (
          add_function-Serves i create.function create.trigger fresh fresh_trigger
            (new_function-unrouted c create valid))
  ]

  rotate-Serves :
      (rotate : RotateToken) → Serves c s r → Serves (rotate_invocation_token c rotate).0 s r
  rotate-Serves rotate i = elim (rotate_invocation_token-cases c rotate) [
    | inl e ↦ rw e i
    | inr (id, (t, e)) ↦ rw e (with_trigger-Serves i id t)
  ]

  release_call-Serves :
      (s' : ReleaseStore)
      → (s' ≡ s) ⊎ Writes s s'
      → Serves c s r × IsFiled s
      → Serves c s' r × IsFiled s'
  release_call-Serves s' (inl e) h = subst (λ q. Serves c q r × IsFiled q) (sym e) h
  release_call-Serves s' (inr w) (i, filed) = (release-Serves w i, Writes-IsFiled w filed)

abbrev pub ControlInv : ControlState → Type 0
ControlInv s = Serves s.catalog s.releases s.routes × IsFiled s.releases

module _ (enc : PolicyEncoding) where
  pub call_store-ControlInv :
      (s : ControlState) (call : ControlCall) → ControlInv s → ControlInv (call_store enc s call)
  unfolding call_store
  call_store-ControlInv s (creates_function c) (i, h) =
      (create_function-Serves s.catalog s.releases s.routes c i, h)
  call_store-ControlInv s (sets_lifecycle c) (i, h) =
      (set_lifecycle-Serves s.catalog s.releases s.routes c i, h)
  call_store-ControlInv s (rotates_token c) (i, h) =
      (rotate-Serves s.catalog s.releases s.routes c i, h)
  call_store-ControlInv s (creates_version parent c) h =
      release_call-Serves s.catalog s.releases s.routes (create_version s.releases parent c).0
        (create_version-Writes s.releases parent c) h
  call_store-ControlInv s (starts_validation c) h =
      release_call-Serves s.catalog s.releases s.routes (start_validation s.releases c).0
        (start_validation-Writes s.releases c h.1) h
  call_store-ControlInv s (completes_validation c) h =
      release_call-Serves s.catalog s.releases s.routes (complete_validation enc s.releases c).0
        (complete_validation-Writes s.releases enc c h.1) h
  call_store-ControlInv s (publishes_route c) (i, h) =
      (publish-Serves s.catalog s.releases s.routes c i, h)
  call_store-ControlInv s (installs_assignment c) h = h
  call_store-ControlInv s (cancels_assignment c) h = h

  pub run_calls-ControlInv :
      (s : ControlState) (calls : List ControlCall)
      → ControlInv s
      → ControlInv (run_calls enc s calls)
  unfolding run_calls
  run_calls-ControlInv s [] h = h
  run_calls-ControlInv s (call ∷ calls) h =
      run_calls-ControlInv (call_store enc s call) calls (call_store-ControlInv s call h)

  pub new_state-ControlInv : ControlInv new_control_state
  unfolding lookup
  new_state-ControlInv = (
    record { keyed = tt; functions = λ k f e. absurd (option_disjoint e); unrouted = λ k e. refl },
    λ k v e. absurd (option_disjoint e),
  )

  -- After any history of calls on new stores `ServingStates` returns no error: it returns one serving
  -- state for each Function.
  pub run_calls-serving_states :
      (calls : List ControlCall)
      → (let s = run_calls enc new_control_state calls in
          (states : List ServingState) × (serving_states s.catalog s.releases s.routes ≡ ok states)
          × (length states ≡ length s.catalog.functions_by_id))
  run_calls-serving_states calls =
      let s = run_calls enc new_control_state calls in
      serving_states-ok s.catalog s.releases s.routes
        (run_calls-ControlInv new_control_state calls new_state-ControlInv).0
