-- ===== src/ControlPlane/State/Publishing.antt =====
-- internal/controlplane: a publication keeps what `ServingStates` relies on.
use minicloud.Base.{
  Option-cases, contains, if_true, inl, inr, insert, int_eq, lookup, lookup_unwritten,
  lookup_written, nat_eq, none, not, refl, some, subst, sym, true, ◌!=◌, ◌&&◌, ◌==◌, ◌||◌, ◌∙◌, ◌≡◌,
  ◌≢◌, ◌⊎◌,
}
use minicloud.Text.{identifier_pattern, str_eq}
use minicloud.Problem.{require, then_check-none}
use minicloud.Model.{Function, is_before, lifecycle_eq, phase_eq, scaling_mode_eq, version_state_eq}
use minicloud.Model.Route.{validate_core}
use minicloud.Model.Validate.{validate_function}
use minicloud.ControlPlane.{max_u64, validate_utc}
use minicloud.ControlPlane.Catalog.{Catalog, auth_eq}
use minicloud.ControlPlane.Catalog.Methods.{update_function}
use minicloud.ControlPlane.Release.{ReleaseStore}
use minicloud.ControlPlane.Routes.{
  PublishRoute, RouteStore, add_route, publish, publish_guard, validate_publish_route,
  validate_ready_target, with_route,
}
use minicloud.ControlPlane.State.Serves.{RouteFits, Serves}
use minicloud.ControlPlane.State.Writers.{update_function-Serves}

module _ (c : Catalog) (s : ReleaseStore) (r : RouteStore) (cmd : PublishRoute) where
  valid_core : validate_publish_route cmd ≡ none → validate_core cmd.route ≡ none
  unfolding validate_publish_route
  valid_core h =
      let (_, h1) = then_check-none (require (identifier_pattern cmd.function_id && _) _) _ h in
      let (_, h2) = then_check-none (require (cmd.applied_index != 0) _) _ h1 in
      let (_, h3) = then_check-none (validate_utc "updated_at" cmd.updated_at) _ h2 in
      (then_check-none (validate_core cmd.route) _ h3).0

  guarded_ready :
      (f : Function)
      → publish_guard s r cmd f ≡ none
      → cmd.route.enabled ≡ true
      → validate_ready_target s cmd.route f ≡ none
  unfolding publish_guard
  guarded_ready f h on =
      let (_, h1) = then_check-none (require (cmd.expected_active_route_revision == _) _) _ h in
      let (_, h2) = then_check-none (require (f.active_route_revision != max_u64 && _) _) _ h1 in
      let (_, h3) = then_check-none (require (cmd.route.route_revision == _) _) _ h2 in
      let (_, h4) =
        then_check-none (require (not (is_before cmd.updated_at f.metadata.updated_at)) _) _ h3 in
      let (_, h5) = then_check-none (require (not (contains cmd.route.metadata.id _)) _) _ h4 in
      let (_, h6) = then_check-none (require (not cmd.route.enabled || _) _) _ h5 in
      sym (if_true _ _ on) ∙ h6

  -- `Publish` changes nothing, or it writes the Route and the Function that names it.
  publish-cases :
      (((publish c s r cmd).0 ≡ c) × ((publish c s r cmd).1 ≡ r))
      ⊎ ((f : Function) × (lookup cmd.function_id c.functions_by_id ≡ some f)
          × (validate_publish_route cmd ≡ none)
          × (publish_guard s r cmd f ≡ none)
          × ((publish c s r cmd).0 ≡ update_function c (with_route f cmd))
          × ((publish c s r cmd).1 ≡ add_route r f.metadata.id cmd.route))
  unfolding publish
  publish-cases = elim (Option-cases (validate_publish_route cmd)) [
    | inr (_, bad) ↦ inl (rw (bad, publish) (refl, refl))
    | inl good ↦ elim (Option-cases (lookup cmd.function_id c.functions_by_id)) [
      | inl missing ↦ inl (rw (good, missing, publish) (refl, refl))
      | inr (f, found) ↦ elim (Option-cases (publish_guard s r cmd f)) [
        | inr (_, refused) ↦ inl (rw (good, found, refused, publish) (refl, refl))
        | inl free ↦ elim (Option-cases (validate_function (with_route f cmd))) [
          | inr (_, bad) ↦ inl (rw (good, found, free, bad, publish) (refl, refl))
          | inl fine ↦ inr (
            f,
            found,
            good,
            free,
            rw (good, found, free, fine, publish) refl,
            rw (good, found, free, fine, publish) refl,
          )
        ]
      ]
    ]
  ]

  pub publish-Serves : Serves c s r → Serves (publish c s r cmd).0 s (publish c s r cmd).1
  unfolding with_route add_route validate_ready_target
  publish-Serves i = elim publish-cases [
    | inl (e, g) ↦ rw (e, g) i
    | inr (f, found, good, free, e, g) ↦
        let k = cmd.function_id in
        let filed = (i.functions k f found).filed in
        let fits : RouteFits s (with_route f cmd)
            (lookup k (insert f.metadata.id cmd.route r.routes)) =
          subst (λ q. RouteFits s (with_route f cmd) (lookup k (insert q cmd.route r.routes)))
            (sym filed)
            (subst (RouteFits s (with_route f cmd)) (sym (lookup_written k cmd.route r.routes))
              (refl, valid_core good, guarded_ready f free)) in
        rw (e, g)
          (update_function-Serves i k f (with_route f cmd) found filed
            (add_route r f.metadata.id cmd.route) fits
            (λ j differ.
              lookup_unwritten f.metadata.id j cmd.route r.routes
                (subst (λ q. q ≢ j) (sym filed) differ)))
  ]
