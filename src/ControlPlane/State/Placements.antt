-- ===== src/ControlPlane/State/Placements.antt =====
-- internal/controlplane: how many Workers a target keeps across all calls of the Controller.
use minicloud.Base.{
  List, [], arith, false, inl, inr, insert, int_eq, leb, lookup, lookup_unwritten, lookup_written,
  nat_eq, option_disjoint, refl, some, subst, sym, ℕ, ◌%◌, ◌+◌, ◌-◌, ◌<◌, ◌^◌, ◌∷◌, ◌≡◌, ◌≤◌,
}
use minicloud.Text.{str_eq}
use minicloud.Model.{lifecycle_eq, phase_eq, scaling_mode_eq, version_state_eq}
use minicloud.Model.Policy.{PolicyEncoding}
use minicloud.ControlPlane.Catalog.{Catalog, auth_eq}
use minicloud.ControlPlane.Routes.{RouteStore}
use minicloud.ControlPlane.Release.{ReleaseStore}
use minicloud.ControlPlane.Release.Lifecycle.{OneReplica}
use minicloud.ControlPlane.Assignments.{
  AssignmentRecord, AssignmentStore, AssignmentTarget, CancelAssignment, InstallAssignment,
  active_count, assignment_target_eq, cancel_assignment, desired_eq, install_assignment, retain,
  target_for, target_for_record, withdraw,
}
use minicloud.ControlPlane.Assignments.Counts.{count_active}
use minicloud.ControlPlane.Assignments.Cases.{
  cancel_assignment-cases, install_assignment-cases, validate_placement-target,
}
use minicloud.ControlPlane.Assignments.Occupancy.{CountInv, retain-CountInv, withdraw-CountInv}
use minicloud.ControlPlane.State.{
  ControlCall, ControlState, call_store, cancels_assignment, completes_validation, creates_function,
  creates_version, installs_assignment, new_control_state, publishes_route, rotates_token,
  run_calls, sets_lifecycle, starts_validation,
}
use minicloud.ControlPlane.State.History.{ControlInv, call_store-ControlInv, new_state-ControlInv}
use minicloud.ControlPlane.State.Versions.{call_store-Writes}

-- The counts are right, and no target is assigned twice.
abbrev PlacedInv : AssignmentStore → Type 0
PlacedInv s = CountInv s × ((t : AssignmentTarget) → active_count s t ≤ 1)

module _ (s : AssignmentStore) where
  retain_single :
      (c : InstallAssignment) (t₀ : AssignmentTarget)
      → active_count s t₀ < 1
      → ((t : AssignmentTarget) → active_count s t ≤ 1)
      → (t : AssignmentTarget) → active_count (retain s c t₀) t ≤ 1
  unfolding retain
  retain_single c t₀ below h t =
      let n = (active_count s t₀ + 1) % 2 ^ 32 in
      elim (assignment_target_eq.dec t₀ t) [
        | yes e ↦
            let written : lookup t (insert t₀ n s.active_counts) ≡ some n =
              subst (λ q. lookup q (insert t₀ n s.active_counts) ≡ some n) e
                (lookup_written t₀ n s.active_counts) in
            rw written (omega arith)
        | no differ ↦ rw (lookup_unwritten t₀ t n s.active_counts differ) (h t)
      ]

  withdraw_single :
      (c : CancelAssignment) (r : AssignmentRecord)
      → ((t : AssignmentTarget) → active_count s t ≤ 1)
      → (t : AssignmentTarget) → active_count (withdraw s c r) t ≤ 1
  unfolding withdraw
  withdraw_single c r h t =
      let t₀ = target_for_record r in
      let n = active_count s t₀ - 1 in
      elim (assignment_target_eq.dec t₀ t) [
        | yes e ↦
            let written : lookup t (insert t₀ n s.active_counts) ≡ some n =
              subst (λ q. lookup q (insert t₀ n s.active_counts) ≡ some n) e
                (lookup_written t₀ n s.active_counts) in
            rw written (omega (arith, h t₀))
        | no differ ↦ rw (lookup_unwritten t₀ t n s.active_counts differ) (h t)
      ]

  below_of : (a b : ℕ) → leb a b ≡ false → b < a
  below_of a b h = ground arith

  install-PlacedInv :
      (catalog : Catalog) (releases : ReleaseStore) (routes : RouteStore) (c : InstallAssignment)
      → OneReplica releases
      → PlacedInv s
      → PlacedInv (install_assignment catalog releases routes s c).0
  install-PlacedInv catalog releases routes c one (i, h) =
      elim (install_assignment-cases catalog releases routes s c) [
        | inl e ↦ rw e (i, h)
        | inr (t, d, fresh, room, placed, below, e) ↦
            let (same_target, deployed) =
              validate_placement-target catalog releases routes c t d placed in
            let single = one t.version_id d deployed in
            rw e (
              retain-CountInv s i c (target_for c.function_id t) same_target fresh
                  (below_of _ _ room),
              retain_single c (target_for c.function_id t)
                  (subst (λ n. active_count s (target_for c.function_id t) < n) single
                    (below_of _ _ below))
                  h,
            )
      ]

  cancel-PlacedInv : (c : CancelAssignment) → PlacedInv s → PlacedInv (cancel_assignment s c).0
  cancel-PlacedInv c (i, h) = elim (cancel_assignment-cases s c) [
    | inl e ↦ rw e (i, h)
    | inr (r, found, state, counted, e) ↦
        rw e (withdraw-CountInv s i c r found state counted, withdraw_single c r h)
  ]

abbrev SingleInv : ControlState → Type 0
SingleInv s = ControlInv s × (OneReplica s.releases × PlacedInv s.assignments)

module _ (enc : PolicyEncoding) where
  call_store-OneReplica :
      (s : ControlState) (call : ControlCall)
      → SingleInv s
      → OneReplica (call_store enc s call).releases
  call_store-OneReplica s call (i, (one, _)) = elim (call_store-Writes enc s call i.1) [
    | inl e ↦ subst OneReplica (sym e) one
    | inr w ↦ w.single one
  ]

  call_store-PlacedInv :
      (s : ControlState) (call : ControlCall)
      → SingleInv s
      → PlacedInv (call_store enc s call).assignments
  unfolding call_store
  call_store-PlacedInv s (creates_function c) (i, (one, h)) = h
  call_store-PlacedInv s (sets_lifecycle c) (i, (one, h)) = h
  call_store-PlacedInv s (rotates_token c) (i, (one, h)) = h
  call_store-PlacedInv s (creates_version parent c) (i, (one, h)) = h
  call_store-PlacedInv s (starts_validation c) (i, (one, h)) = h
  call_store-PlacedInv s (completes_validation c) (i, (one, h)) = h
  call_store-PlacedInv s (publishes_route c) (i, (one, h)) = h
  call_store-PlacedInv s (installs_assignment c) (i, (one, h)) =
      install-PlacedInv s.assignments s.catalog s.releases s.routes c one h
  call_store-PlacedInv s (cancels_assignment c) (i, (one, h)) = cancel-PlacedInv s.assignments c h

  run_calls-SingleInv :
      (s : ControlState) (calls : List ControlCall)
      → SingleInv s
      → SingleInv (run_calls enc s calls)
  unfolding run_calls
  run_calls-SingleInv s [] h = h
  run_calls-SingleInv s (call ∷ calls) h = run_calls-SingleInv (call_store enc s call) calls (
    call_store-ControlInv enc s call h.0,
    (call_store-OneReplica s call h, call_store-PlacedInv s call h),
  )

  new_state-SingleInv : SingleInv new_control_state
  unfolding lookup count_active
  new_state-SingleInv = (
    new_state-ControlInv enc,
    (
      λ k d e. absurd (option_disjoint e),
      (record { counts = λ t. refl; within = omega arith; limit = refl }, λ t. omega arith),
    ),
  )

  -- After any history of calls the active count of a target is the number of its assigned records, and
  -- it is at most one: no target of a Route is assigned to two Workers at a time.
  pub run_calls-count_active :
      (calls : List ControlCall) (t : AssignmentTarget)
      → (let s = (run_calls enc new_control_state calls).assignments in
          (active_count s t ≡ count_active t s.records) × (count_active t s.records ≤ 1))
  run_calls-count_active calls t =
      let (i, single) = (run_calls-SingleInv new_control_state calls new_state-SingleInv).1.1 in
      (i.counts t, subst (λ n. n ≤ 1) (i.counts t) (single t))
