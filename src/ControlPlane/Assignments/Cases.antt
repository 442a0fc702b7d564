-- ===== src/ControlPlane/Assignments/Cases.antt =====
-- internal/controlplane/assignment.go: what one call of the AssignmentStore writes.
use minicloud.Model.Route.{Route}
use minicloud.Model.{
  Deployment, Function, is_before, lifecycle_active, lifecycle_eq, phase_eq, scaling_mode_eq,
  version_state_eq,
}
use minicloud.Base.{
  Bool, Bool-cases, Option-cases, ap, arith, eq_of_test, false, if◌then◌else◌, inl, inr, int_eq,
  leb, length, lookup, ltb, nat_eq, none, not, refl, some, subst, true, ℕ, ◌!=◌, ◌&&◌, ◌==◌, ◌∙◌,
  ◌≡◌, ◌≢◌, ◌⊎◌,
}
use minicloud.Text.{Str, str_eq}
use minicloud.Problem.{
  Error, Result, Result-cases, classified, conflict, err, ok, plain, require, then_check-none,
}
use minicloud.Routing.{RouteTarget}
use minicloud.ControlPlane.{max_u64}
use minicloud.ControlPlane.Catalog.{Catalog, auth_eq}
use minicloud.ControlPlane.Release.{ReleaseStore}
use minicloud.ControlPlane.Routes.{RouteStore, first_target, validate_ready_target}
use minicloud.ControlPlane.Assignments.{
  AssignmentRecord, AssignmentStore, CancelAssignment, InstallAssignment, active_count, assigned,
  assignment_target_eq, cancel_assignment, cancel_guard, current_route, desired_eq,
  install_assignment, install_placed, new_record, placement_guard, retain, runtime_matches,
  target_for, target_for_record, validate_cancel_assignment, validate_install_assignment,
  validate_placement, withdraw, wrap_check,
}

module _ (catalog : Catalog) (releases : ReleaseStore) (routes : RouteStore)
    (s : AssignmentStore) where
  install_placed-cases :
      (c : InstallAssignment) (t : RouteTarget) (d : Deployment)
      → ((install_placed s c t d).0 ≡ s)
        ⊎ ((leb d.desired_replicas (active_count s (target_for c.function_id t)) ≡ false)
            × ((install_placed s c t d).0 ≡ retain s c (target_for c.function_id t)))
  unfolding install_placed
  install_placed-cases c t d =
      elim (Bool-cases (c.expected_scaling_revision != d.scaling_revision)) [
        | inl stale ↦ inl (rw (stale, install_placed) refl)
        | inr current ↦
            elim (Bool-cases
              (leb d.desired_replicas (active_count s (target_for c.function_id t)))) [
                | inl full ↦ inl (rw (current, full, install_placed) refl)
                | inr room ↦ inr (room, rw (current, room, install_placed) refl)
              ]
      ]

  pub install_assignment-cases :
      (c : InstallAssignment)
      → ((install_assignment catalog releases routes s c).0 ≡ s)
        ⊎ ((t : RouteTarget) × (d : Deployment) × (lookup c.placement.assignment_id s.records
              ≡ none)
            × (leb s.max_assignments (length s.records) ≡ false)
            × (validate_placement catalog releases routes c ≡ ok (t, d))
            × (leb d.desired_replicas (active_count s (target_for c.function_id t)) ≡ false)
            × ((install_assignment catalog releases routes s c).0
                ≡ retain s c (target_for c.function_id t)))
  unfolding install_assignment
  install_assignment-cases c = elim (Option-cases (validate_install_assignment c)) [
    | inr (_, bad) ↦ inl (rw (bad, install_assignment) refl)
    | inl good ↦ elim (Option-cases (lookup c.placement.assignment_id s.records)) [
      | inr (_, used) ↦ inl (rw (good, used, install_assignment) refl)
      | inl fresh ↦ elim (Bool-cases (leb s.max_assignments (length s.records))) [
        | inl full ↦ inl (rw (good, fresh, full, install_assignment) refl)
        | inr room ↦ elim (Result-cases (validate_placement catalog releases routes c)) [
          | inl (_, refused) ↦ inl (rw (good, fresh, room, refused, install_assignment) refl)
          | inr ((t, d), placed) ↦ elim (install_placed-cases c t d) [
            | inl e ↦ inl (rw (good, fresh, room, placed, install_assignment) e)
            | inr (below, e) ↦ inr (
              t,
              d,
              fresh,
              room,
              placed,
              below,
              rw (good, fresh, room, placed, install_assignment) e,
            )
          ]
        ]
      ]
    ]
  ]

passed : (b : Bool) (e : Error) → require b e ≡ none → b ≡ true
passed true e h = refl
passed false e h = absurd (ground arith)

err_ok : {A : Type 0} {e : Error} {a : A} → err e ≢ ok a
err_ok = λ p. cc

ok-inj : {A : Type 0} {a b : A} → ok a ≡ ok b → a ≡ b
ok-inj h = ground (arith, h)

ok_pair : {A B : Type 0} {p q : A × B} → ok p ≡ ok q → (p.0 ≡ q.0) × (p.1 ≡ q.1)
ok_pair h = let e = ok-inj h in (ap (λ x. x.0) e, ap (λ x. x.1) e)

differ_of : (n : ℕ) (e : Error) → require (n != 0) e ≡ none → n ≢ 0
differ_of n e h = ground arith

module _ (s : AssignmentStore) where
  guarded_assigned :
      (c : CancelAssignment) (r : AssignmentRecord)
      → cancel_guard s c r ≡ none
      → (r.desired_state ≡ assigned) × (active_count s (target_for_record r) ≢ 0)
  unfolding cancel_guard
  guarded_assigned c r h =
      let (_, h1) = then_check-none (require (r.resource_revision == _) _) _ h in
      let (a, h2) = then_check-none (require (r.desired_state == assigned) _) _ h1 in
      let (_, h3) = then_check-none (require (not (is_before c.updated_at r.updated_at)) _) _ h2 in
      let (_, h4) = then_check-none (require (ltb r.last_applied_index c.applied_index) _) _ h3 in
      let (_, b) = then_check-none (require (r.resource_revision != max_u64) _) _ h4 in
      (eq_of_test r.desired_state assigned (passed _ _ a), differ_of _ _ b)

  pub cancel_assignment-cases :
      (c : CancelAssignment)
      → ((cancel_assignment s c).0 ≡ s)
        ⊎ ((r : AssignmentRecord) × (lookup c.assignment_id s.records ≡ some r)
            × (r.desired_state ≡ assigned)
            × (active_count s (target_for_record r) ≢ 0)
            × ((cancel_assignment s c).0 ≡ withdraw s c r))
  unfolding cancel_assignment
  cancel_assignment-cases c = elim (Option-cases (validate_cancel_assignment c)) [
    | inr (_, bad) ↦ inl (rw (bad, cancel_assignment) refl)
    | inl good ↦ elim (Option-cases (lookup c.assignment_id s.records)) [
      | inl missing ↦ inl (rw (good, missing, cancel_assignment) refl)
      | inr (r, found) ↦ elim (Option-cases (cancel_guard s c r)) [
        | inr (_, refused) ↦ inl (rw (good, found, refused, cancel_assignment) refl)
        | inl free ↦
            let (state, counted) = guarded_assigned c r free in
            inr (r, found, state, counted, rw (good, found, free, cancel_assignment) refl)
      ]
    ]
  ]

same_target :
    (a b : Str) (m n i j : ℕ) (digest : Bool)
    → (a == b && m == n && i == j && digest) ≡ true
    → (a ≡ b) × (m ≡ n) × (i ≡ j)
same_target a b m n i j digest h = ground arith

module _ (catalog : Catalog) (releases : ReleaseStore) (routes : RouteStore)
    (c : InstallAssignment) where
  guarded_target :
      (f : Function) (r : Route)
      → placement_guard releases c f r ≡ none
      → target_for_record (new_record c) ≡ target_for c.function_id (first_target r.targets)
  unfolding placement_guard new_record
  guarded_target f r h =
      let t = first_target r.targets in
      let p = c.placement in
      let (_, h1) = then_check-none (require (current_route r f) _) _ h in
      let (_, h2) = then_check-none (wrap_check _ (validate_ready_target releases r f)) _ h1 in
      let (_, h3) =
        then_check-none (require (not (is_before c.updated_at r.metadata.updated_at) && _) _) _
          h2 in
      let (a, b, e) =
        same_target p.version_id t.version_id p.admission_epoch t.admission_epoch
          p.deployment_generation t.deployment_generation
          (p.policy_digest == t.effective_policy_digest) (passed _ _ h3) in
      rw (a, b, e) refl

  -- What the end of `validatePlacementLocked` returns.
  abbrev placed : Route → Result (RouteTarget × Deployment)
  placed r =
      let t = first_target r.targets in
      elim (lookup t.version_id releases.versions) [
        | none ↦ err (plain "unreachable")
        | some v ↦ elim (lookup t.version_id releases.deployments) [
          | none ↦ err (plain "unreachable")
          | some d ↦
              if not (runtime_matches c.placement v d)
              then err (classified conflict "assignment runtime does not match the admitted policy")
              else ok (t, d)
        ]
      ]

  placed_target :
      (f : Function) (r : Route)
      → placement_guard releases c f r ≡ none
      → (t : RouteTarget) (d : Deployment) → placed r ≡ ok (t, d)
      → (target_for_record (new_record c) ≡ target_for c.function_id t)
        × (lookup t.version_id releases.deployments ≡ some d)
  placed_target f r free t d h =
      let own = (first_target r.targets).version_id in
      elim (Option-cases (lookup own releases.versions)) [
        | inl e ↦ absurd (err_ok (rw (e, placed) at h))
        | inr (v, found) ↦ elim (Option-cases (lookup own releases.deployments)) [
          | inl e ↦ absurd (err_ok (rw (found, e, placed) at h))
          | inr (d', deployed) ↦ elim (Bool-cases (runtime_matches c.placement v d')) [
            | inr e ↦ absurd (err_ok (rw (found, deployed, e, placed) at h))
            | inl e ↦
                let (same_t, same_d) = ok_pair (rw (found, deployed, e, placed) at h) in
                (
                  subst (λ q. target_for_record (new_record c) ≡ target_for c.function_id q) same_t
                      (guarded_target f r free),
                  subst (λ q. lookup q.version_id releases.deployments ≡ some d) same_t
                      (deployed ∙ ap some same_d),
                )
          ]
        ]
      ]

  -- A placement that is valid is for the target of the current Route, with its Deployment.
  pub validate_placement-target :
      (t : RouteTarget) (d : Deployment)
      → validate_placement catalog releases routes c ≡ ok (t, d)
      → (target_for_record (new_record c) ≡ target_for c.function_id t)
        × (lookup t.version_id releases.deployments ≡ some d)
  unfolding validate_placement
  validate_placement-target t d h =
      elim (Option-cases (lookup c.function_id catalog.functions_by_id)) [
        | inl e ↦ absurd (err_ok (rw (e, validate_placement) at h))
        | inr (f, found) ↦ elim (Bool-cases (f.lifecycle != lifecycle_active)) [
          | inl off ↦ absurd (err_ok (rw (found, off, validate_placement) at h))
          | inr on ↦ elim (Option-cases (lookup c.function_id routes.routes)) [
            | inl e ↦ absurd (err_ok (rw (found, on, e, validate_placement) at h))
            | inr (r, routed) ↦ elim (Option-cases (placement_guard releases c f r)) [
              | inr (_, e) ↦ absurd (err_ok (rw (found, on, routed, e, validate_placement) at h))
              | inl free ↦
                  placed_target f r free t d (rw (found, on, routed, free, validate_placement) at h)
            ]
          ]
        ]
      ]
