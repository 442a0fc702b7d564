-- ===== src/ControlPlane/Assignments/Occupancy.antt =====
-- internal/controlplane/assignment.go: the active count of a target is the number of its assigned records.
use minicloud.Base.{
  arith, insert, int_eq, length, length-insert, lookup, lookup_unwritten, lookup_written, nat_eq,
  none, refl, some, subst, sym, test_of_differ, test_of_eq, ◌%◌, ◌+◌, ◌-◌, ◌<◌, ◌^◌, ◌∙◌, ◌≡◌, ◌≢◌,
  ◌≤◌,
}
use minicloud.Text.{str_eq}
use minicloud.Model.{lifecycle_eq, phase_eq, scaling_mode_eq, version_state_eq}
use minicloud.Scheduler.{drain_eq, intent_eq, state_eq}
use minicloud.ControlPlane.Catalog.{auth_eq}
use minicloud.ControlPlane.Assignments.{
  AssignmentRecord, AssignmentStore, AssignmentTarget, CancelAssignment, InstallAssignment,
  active_count, assigned, assignment_target_eq, cancelled_record, desired_eq, new_record, retain,
  target_for_record, withdraw,
}
use minicloud.ControlPlane.Assignments.Counts.{
  count_active, count_active-insert, count_active-rewrite, count_active_le, is_active, one_if,
}

pub record CountInv (s : AssignmentStore) : Type 0 where
  pub counts : (t : AssignmentTarget) → active_count s t ≡ count_active t s.records
  pub within : length s.records ≤ s.max_assignments
  pub limit : s.max_assignments ≡ 100_000

-- How much a record counts for a target.
active_here :
    (r : AssignmentRecord) (t : AssignmentTarget)
    → r.desired_state ≡ assigned
    → target_for_record r ≡ t
    → one_if (is_active t r) ≡ 1
active_here r t state same_target =
    rw (test_of_eq r.desired_state assigned state, test_of_eq (target_for_record r) t same_target)
      refl

active_elsewhere :
    (r : AssignmentRecord) (t : AssignmentTarget)
    → r.desired_state ≡ assigned
    → target_for_record r ≢ t
    → one_if (is_active t r) ≡ 0
active_elsewhere r t state differ =
    rw (test_of_eq r.desired_state assigned state, test_of_differ (target_for_record r) t differ)
      refl

inactive :
    (r : AssignmentRecord) (t : AssignmentTarget)
    → r.desired_state ≢ assigned
    → one_if (is_active t r) ≡ 0
inactive r t state = rw (test_of_differ r.desired_state assigned state) refl

module _ (s : AssignmentStore) (i : CountInv s) where
  -- No count comes near the end of a `uint32`.
  count_small : (t : AssignmentTarget) → active_count s t ≤ 100_000
  count_small t = omega (arith, i.counts t, count_active_le t s.records, i.within, i.limit)

  module _ (c : InstallAssignment) (t₀ : AssignmentTarget)
      (same_target : target_for_record (new_record c) ≡ t₀)
      (fresh : lookup c.placement.assignment_id s.records ≡ none)
      (room : length s.records < s.max_assignments) where
    retained_counts :
        (t : AssignmentTarget)
        → active_count (retain s c t₀) t ≡ count_active t (retain s c t₀).records
    unfolding retain new_record
    retained_counts t =
        let r = new_record c in
        let counted = count_active-insert t c.placement.assignment_id r s.records fresh in
        let n = (active_count s t₀ + 1) % 2 ^ 32 in
        elim (assignment_target_eq.dec t₀ t) [
          | yes e ↦
              let written : lookup t (insert t₀ n s.active_counts) ≡ some n =
                subst (λ q. lookup q (insert t₀ n s.active_counts) ≡ some n) e
                  (lookup_written t₀ n s.active_counts) in
              let known : count_active t s.records ≡ active_count s t₀ =
                subst (λ q. count_active q s.records ≡ active_count s t₀) e (sym (i.counts t₀)) in
              rw written (
                omega
                  (arith, counted, active_here r t refl (same_target ∙ e), known, count_small t₀))
          | no differ ↦
              let unwritten = lookup_unwritten t₀ t n s.active_counts differ in
              rw unwritten (
                omega (
                  arith,
                  counted,
                  i.counts t,
                  active_elsewhere r t refl (subst (λ q. q ≢ t) (sym same_target) differ),
                ))
        ]

    pub retain-CountInv : CountInv (retain s c t₀)
    unfolding retain
    retain-CountInv = record {
      counts = retained_counts;
      within =
          rw (length-insert c.placement.assignment_id (new_record c) s.records, fresh)
            (omega arith);
      limit = i.limit;
    }

  module _ (c : CancelAssignment) (r : AssignmentRecord)
      (found : lookup c.assignment_id s.records ≡ some r) (state : r.desired_state ≡ assigned)
      (counted : active_count s (target_for_record r) ≢ 0) where
    withdrawn_counts :
        (t : AssignmentTarget)
        → active_count (withdraw s c r) t ≡ count_active t (withdraw s c r).records
    unfolding withdraw cancelled_record
    withdrawn_counts t =
        let t₀ = target_for_record r in
        let n = active_count s t₀ - 1 in
        let rewritten =
          count_active-rewrite t c.assignment_id r (cancelled_record r c) s.records found in
        let gone = inactive (cancelled_record r c) t (λ e. cc) in
        elim (assignment_target_eq.dec t₀ t) [
          | yes e ↦
              let written : lookup t (insert t₀ n s.active_counts) ≡ some n =
                subst (λ q. lookup q (insert t₀ n s.active_counts) ≡ some n) e
                  (lookup_written t₀ n s.active_counts) in
              let known : count_active t s.records ≡ active_count s t₀ =
                subst (λ q. count_active q s.records ≡ active_count s t₀) e (sym (i.counts t₀)) in
              rw written (omega (arith, rewritten, gone, active_here r t state e, known, counted))
          | no differ ↦
              let unwritten = lookup_unwritten t₀ t n s.active_counts differ in
              rw unwritten
                (omega (arith, rewritten, gone, active_elsewhere r t state differ, i.counts t))
        ]

    pub withdraw-CountInv : CountInv (withdraw s c r)
    unfolding withdraw
    withdraw-CountInv = record {
      counts = withdrawn_counts;
      within = rw (length-insert c.assignment_id (cancelled_record r c) s.records, found) i.within;
      limit = i.limit;
    }
