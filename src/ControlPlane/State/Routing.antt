-- ===== src/ControlPlane/State/Routing.antt =====
-- internal/controlplane: a new Function, and a published Route, keep what `ServingStates` relies on.
use minicloud.Base.{
  Option, arith, insert, insert-IsKeyed, int_eq, is_some, lookup, lookup_unwritten, lookup_written,
  nat_eq, none, option_disjoint, not, refl, some, some-inj, subst, sym, ℕ, ◌!=◌, ◌==◌, ◌∙◌, ◌≡◌,
  ◌≢◌,
}
use minicloud.Text.{Str, str_eq}
use minicloud.Problem.{Error, require, then_check-none}
use minicloud.Model.{
  Function, lifecycle_active, lifecycle_eq, phase_eq, scaling_mode_eq, version_state_eq,
}
use minicloud.Model.Validate.{validate_function}
use minicloud.ControlPlane.Catalog.{
  Catalog, CreateFunction, HttpTrigger, auth_eq, validate_create_function,
}
use minicloud.ControlPlane.Catalog.Methods.{add_function, create_guard}
use minicloud.ControlPlane.Release.{ReleaseStore}
use minicloud.ControlPlane.Routes.{RouteStore}
use minicloud.ControlPlane.State.Serves.{HasTrigger, IsServed, RouteFits, Serves}

absent_of : {A : Type 0} (o : Option A) (e : Error) → require (not (is_some o)) e ≡ none → o ≡ none
absent_of none e h = refl
absent_of (some a) e h = absurd (ground arith)

module _ (c : Catalog) (cmd : CreateFunction) where
  -- What a passed guard says of the IDs.
  pub guarded_free :
      create_guard c cmd ≡ none
      → (lookup cmd.function.metadata.id c.functions_by_id ≡ none)
        × (lookup cmd.trigger.metadata.id c.triggers_by_id ≡ none)
  unfolding create_guard
  guarded_free h =
      let id = cmd.function.metadata.id in
      let (a, h1) = then_check-none (require (not (is_some (lookup id c.functions_by_id))) _) _ h in
      let (_, h2) =
        then_check-none (require (not (is_some (lookup cmd.function.name c.function_id_by_name))) _)
          _ h1 in
      let (b, _) =
        then_check-none
          (require (not (is_some (lookup cmd.trigger.metadata.id c.triggers_by_id))) _) _ h2 in
      (
        absent_of (lookup id c.functions_by_id) _ a,
        absent_of (lookup cmd.trigger.metadata.id c.triggers_by_id) _ b,
      )

  unrouted_revision : (n : ℕ) (e : Error) → require (n == 0) e ≡ none → n ≡ 0
  unrouted_revision n e h = ground arith

  pub new_function-unrouted :
      validate_create_function cmd ≡ none → cmd.function.active_route_revision ≡ 0
  unfolding validate_create_function
  new_function-unrouted h =
      let (_, h1) = then_check-none (require cmd.if_none_match _) _ h in
      let (_, h2) = then_check-none (require (cmd.applied_index != 0) _) _ h1 in
      let (_, h3) = then_check-none (validate_function cmd.function) _ h2 in
      let (_, h4) = then_check-none (require (cmd.function.lifecycle == lifecycle_active) _) _ h3 in
      let (a, _) = then_check-none (require (cmd.function.active_route_revision == 0) _) _ h4 in
      unrouted_revision cmd.function.active_route_revision _ a

module _ {c : Catalog} {s : ReleaseStore} {r : RouteStore} (i : Serves c s r) (f : Function)
    (t : HttpTrigger) (fresh : lookup f.metadata.id c.functions_by_id ≡ none)
    (fresh_trigger : lookup t.metadata.id c.triggers_by_id ≡ none)
    (unrouted : f.active_route_revision ≡ 0) where
  own_trigger : HasTrigger (add_function c f t) f.metadata.id
  unfolding add_function
  own_trigger = (
    t.metadata.id,
    lookup_written f.metadata.id t.metadata.id c.trigger_id_by_func,
    (t, lookup_written t.metadata.id t c.triggers_by_id),
  )

  other_trigger : (k : Str) → f.metadata.id ≢ k → HasTrigger c k → HasTrigger (add_function c f t) k
  unfolding add_function
  other_trigger k differ (trigger_id, found, (given, there)) = (
    trigger_id,
    lookup_unwritten f.metadata.id k t.metadata.id c.trigger_id_by_func differ ∙ found,
    (
      given,
      lookup_unwritten t.metadata.id trigger_id t c.triggers_by_id (λ e.
            option_disjoint (
              sym fresh_trigger
              ∙ subst (λ q. lookup q c.triggers_by_id ≡ some given) (sym e) there))
          ∙ there,
    ),
  )

  added-IsServed :
      (k : Str) (g : Function)
      → lookup k (add_function c f t).functions_by_id ≡ some g
      → IsServed (add_function c f t) s r k g
  unfolding add_function
  added-IsServed k g h = elim (str_eq.dec f.metadata.id k) [
    | yes e ↦
        let same_function : f ≡ g =
          some-inj
            (subst (λ q. lookup q (insert f.metadata.id f c.functions_by_id) ≡ some f) e
              (lookup_written f.metadata.id f c.functions_by_id))
            h in
        subst (IsServed (add_function c f t) s r k) same_function (
          subst (λ q. IsServed (add_function c f t) s r q f) e
            (record {
              filed = refl;
              trigger = own_trigger;
              route = subst (RouteFits s f) (sym (i.unrouted f.metadata.id fresh)) unrouted;
            }))
    | no differ ↦
        let served =
          i.functions k g (sym (lookup_unwritten f.metadata.id k f c.functions_by_id differ) ∙ h) in
        record {
          filed = served.filed;
          trigger = other_trigger k differ served.trigger;
          route = served.route;
        }
  ]

  pub add_function-Serves : Serves (add_function c f t) s r
  unfolding add_function
  add_function-Serves = record {
    keyed = insert-IsKeyed f.metadata.id f c.functions_by_id i.keyed;
    functions = added-IsServed;
    unrouted = λ k h. elim (str_eq.dec f.metadata.id k) [
      | yes e ↦ subst (λ q. lookup q r.routes ≡ none) e (i.unrouted f.metadata.id fresh)
      | no differ ↦
          i.unrouted k (sym (lookup_unwritten f.metadata.id k f c.functions_by_id differ) ∙ h)
    ];
  }
