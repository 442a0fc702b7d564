-- ===== src/ControlPlane/State/Writers.antt =====
-- internal/controlplane: the writes of the stores keep what `ServingStates` relies on.
use minicloud.Model.Route.{Route}
use minicloud.ControlPlane.Catalog.{Catalog, HttpTrigger, auth_eq}
use minicloud.Base.{
  Option, insert, insert-IsKeyed, int_eq, lookup, lookup_unwritten, lookup_written, nat_eq, none,
  option_disjoint, some, some-inj, subst, sym, ◌∙◌, ◌≡◌, ◌≢◌,
}
use minicloud.Text.{Str, str_eq}
use minicloud.Model.{Function, lifecycle_eq, phase_eq, scaling_mode_eq, version_state_eq}
use minicloud.ControlPlane.Catalog.Methods.{update_function}
use minicloud.ControlPlane.Catalog.Invariant.{with_trigger}
use minicloud.ControlPlane.Release.{ReleaseStore}
use minicloud.ControlPlane.Release.Lifecycle.{Writes}
use minicloud.ControlPlane.Routes.{RouteStore}
use minicloud.ControlPlane.Routes.Invariant.{target_kept}
use minicloud.ControlPlane.State.Serves.{HasTrigger, IsServed, RouteFits, Serves}

module _ {s s' : ReleaseStore} (w : Writes s s') where
  fits_after : (f : Function) (o : Option Route) → RouteFits s f o → RouteFits s' f o
  fits_after f none h = h
  fits_after f (some r) (revision, valid, ready) =
      (revision, valid, λ on. target_kept r f w (ready on))

  pub release-Serves : {c : Catalog} {r : RouteStore} → Serves c s r → Serves c s' r
  release-Serves {r} i = record {
    keyed = i.keyed;
    functions = λ k f found.
        let served = i.functions k f found in
        record {
          filed = served.filed;
          trigger = served.trigger;
          route = fits_after f (lookup k r.routes) served.route;
        };
    unrouted = i.unrouted;
  }

module _ {c : Catalog} {s : ReleaseStore} {r : RouteStore} (i : Serves c s r) where
  -- A Trigger written over is still a Trigger.
  trigger_there :
      (id : Str) (t : HttpTrigger) (k : Str) → HasTrigger c k → HasTrigger (with_trigger c id t) k
  trigger_there id t k (trigger_id, found, (given, there)) = elim (str_eq.dec id trigger_id) [
    | yes e ↦ (
      trigger_id,
      found,
      (
        t,
        subst (λ j. lookup trigger_id (insert j t c.triggers_by_id) ≡ some t) (sym e)
            (lookup_written trigger_id t c.triggers_by_id),
      ),
    )
    | no differ ↦ (
      trigger_id,
      found,
      (given, lookup_unwritten id trigger_id t c.triggers_by_id differ ∙ there),
    )
  ]

  pub with_trigger-Serves : (id : Str) (t : HttpTrigger) → Serves (with_trigger c id t) s r
  with_trigger-Serves id t = record {
    keyed = i.keyed;
    functions = λ k f found.
        let served = i.functions k f found in
        record {
          filed = served.filed;
          trigger = trigger_there id t k served.trigger;
          route = served.route;
        };
    unrouted = i.unrouted;
  }

  -- A Function written over, with the Route that it now names.
  module _ (k : Str) (old new : Function) (found : lookup k c.functions_by_id ≡ some old)
      (filed : new.metadata.id ≡ k) (r' : RouteStore) (fits : RouteFits s new (lookup k r'.routes))
      (others : (j : Str) → k ≢ j → lookup j r'.routes ≡ lookup j r.routes) where
    new-IsServed :
        (j : Str) (f : Function)
        → lookup j (insert k new c.functions_by_id) ≡ some f
        → IsServed c s r' j f
    new-IsServed j f h = elim (str_eq.dec k j) [
      | yes e ↦
          let same_function : new ≡ f =
            some-inj
              (subst (λ q. lookup q (insert k new c.functions_by_id) ≡ some new) e
                (lookup_written k new c.functions_by_id))
              h in
          subst (IsServed c s r' j) same_function (
            subst (λ q. IsServed c s r' q new) e
              (record { filed = filed; trigger = (i.functions k old found).trigger; route = fits }))
      | no differ ↦
          let served =
            i.functions j f (sym (lookup_unwritten k j new c.functions_by_id differ) ∙ h) in
          record {
            filed = served.filed;
            trigger = served.trigger;
            route = subst (RouteFits s f) (sym (others j differ)) served.route;
          }
    ]

    still_unrouted :
        (j : Str) → lookup j (insert k new c.functions_by_id) ≡ none → lookup j r'.routes ≡ none
    still_unrouted j h = elim (str_eq.dec k j) [
      | yes e ↦ absurd (
          option_disjoint (
            sym h
            ∙ subst (λ q. lookup q (insert k new c.functions_by_id) ≡ some new) e
                (lookup_written k new c.functions_by_id)))
      | no differ ↦
          others j differ
          ∙ i.unrouted j (sym (lookup_unwritten k j new c.functions_by_id differ) ∙ h)
    ]

    pub update_function-Serves : Serves (update_function c new) s r'
    unfolding update_function
    update_function-Serves =
        subst (λ q. Serves (record c { functions_by_id = insert q new c.functions_by_id }) s r')
          (sym filed)
          (record {
            keyed = insert-IsKeyed k new c.functions_by_id i.keyed;
            functions = λ j f h.
                let served = new-IsServed j f h in
                record { filed = served.filed; trigger = served.trigger; route = served.route };
            unrouted = still_unrouted;
          })
