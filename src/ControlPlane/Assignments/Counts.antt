-- ===== src/ControlPlane/Assignments/Counts.antt =====
-- internal/controlplane/assignment.go: the number of assigned records of a target.
use minicloud.Base.{
  Bool, Bool-cases, Map, [], ap, arith, false, if_false, if_true, inl, inr, insert, int_eq, length,
  lookup, nat_eq, none, option_disjoint, refl, some, some-inj, sym, true, ℕ, ◌&&◌, ◌+◌, ◌==◌, ◌∙◌,
  ◌∷◌, ◌≡◌, ◌≤◌,
}
use minicloud.Text.{Str, str_eq}
use minicloud.Model.{lifecycle_eq, phase_eq, scaling_mode_eq, version_state_eq}
use minicloud.ControlPlane.Catalog.{auth_eq}
use minicloud.ControlPlane.Assignments.{
  AssignmentRecord, AssignmentTarget, assigned, assignment_target_eq, desired_eq, target_for_record,
}

-- The record keeps a Worker assigned to the target.
abbrev pub is_active : AssignmentTarget → AssignmentRecord → Bool
is_active t r = r.desired_state == assigned && target_for_record r == t

abbrev pub one_if : Bool → ℕ
one_if true = 1
one_if false = 0

unfoldable pub count_active : AssignmentTarget → Map Str AssignmentRecord → ℕ
count_active t [] = 0
count_active t ((_, r) ∷ rs) = one_if (is_active t r) + count_active t rs

pub count_active-insert :
    (t : AssignmentTarget) (k : Str) (r : AssignmentRecord) (rs : Map Str AssignmentRecord)
    → lookup k rs ≡ none
    → count_active t (insert k r rs) ≡ one_if (is_active t r) + count_active t rs
unfolding count_active lookup insert
count_active-insert t k r [] h = refl
count_active-insert t k r ((j, q) ∷ rs) h = elim (Bool-cases (j == k)) [
  | inl e ↦ absurd (option_disjoint (sym h ∙ if_true _ _ e))
  | inr e ↦ rw (e, insert) (omega (arith, count_active-insert t k r rs (sym (if_false _ _ e) ∙ h)))
]

pub count_active-rewrite :
    (t : AssignmentTarget) (k : Str) (old r : AssignmentRecord) (rs : Map Str AssignmentRecord)
    → lookup k rs ≡ some old
    → one_if (is_active t old) + count_active t (insert k r rs)
      ≡ one_if (is_active t r) + count_active t rs
unfolding count_active lookup insert
count_active-rewrite t k old r [] h = absurd (option_disjoint h)
count_active-rewrite t k old r ((j, q) ∷ rs) h = elim (Bool-cases (j == k)) [
  | inl e ↦
      let same_record : q ≡ old = some-inj (if_true (some q) (lookup k rs) e) h in
      let same_count : one_if (is_active t q) ≡ one_if (is_active t old) =
        ap (λ z. one_if (is_active t z)) same_record in
      rw (e, insert) (omega (arith, same_count))
  | inr e ↦
      rw (e, insert) (omega (arith, count_active-rewrite t k old r rs (sym (if_false _ _ e) ∙ h)))
]

pub count_active_le :
    (t : AssignmentTarget) (rs : Map Str AssignmentRecord) → count_active t rs ≤ length rs
unfolding count_active
count_active_le t [] = omega arith
count_active_le t ((k, r) ∷ rs) = elim (Bool-cases (is_active t r)) [
  | inl e ↦ rw e (omega (arith, count_active_le t rs))
  | inr e ↦ rw e (omega (arith, count_active_le t rs))
]
