-- ===== src/ControlPlane/Release/Completion.antt =====
-- internal/controlplane/release.go: what the completion of a validation writes.
use minicloud.Model.Policy.{PolicyEncoding}
use minicloud.Model.Validate.{validate_deployment, validate_version}
use minicloud.ControlPlane.Release.Lifecycle.{IsFiled, OneReplica, Writes, admit, reject}
use minicloud.Base.{
  Bool, Bool-cases, Option-cases, ap, arith, eq_of_test, false, inl, inr, insert, int_eq, lookup,
  lookup-insert, lookup_unwritten, lookup_written, nat_eq, none, pos, refl, some, some-inj, subst,
  sym, true, ℕ, ◌&&◌, ◌==◌, ◌∙◌, ◌≡◌, ◌≢◌, ◌⊎◌,
}
use minicloud.Text.{Str, str_eq}
use minicloud.Problem.{Error, require, then_check-none}
use minicloud.Model.{
  Deployment, SafeError, Time, Version, VersionState, deployment_active, is_same_time, lifecycle_eq,
  phase_eq, scaling_manual, scaling_mode_eq, version_failed, version_ready, version_state_eq,
  version_validating,
}
use minicloud.ControlPlane.Catalog.{auth_eq}
use minicloud.ControlPlane.Release.{
  CompleteValidation, ReleaseStore, exact_limits, is_generation_one, validate_complete_validation,
  validate_initial_deployment,
}
use minicloud.ControlPlane.Release.Methods.{
  admit_version, advance, complete_validation, completion_guard, finish_validation, reject_version,
}

one_of_many :
    (earlier one a b c d e : Bool) → (earlier && one && a && b && c && d && e) ≡ true → one ≡ true
one_of_many earlier one a b c d e h = ground arith

passed : (b : Bool) (e : Error) → require b e ≡ none → b ≡ true
passed true e h = refl
passed false e h = absurd (ground arith)

validating_of :
    (state : VersionState) (e : Error)
    → require (state == version_validating) e ≡ none
    → state ≡ version_validating
validating_of state e h = ground arith

-- The Deployment of an admitted Version asks for one replica.
initial_single :
    (enc : PolicyEncoding) (d : Deployment) (v : Version) (applied_index : ℕ) (updated_at : Time)
    → validate_initial_deployment enc d v applied_index updated_at ≡ none
    → d.desired_replicas ≡ 1
unfolding validate_initial_deployment is_generation_one
initial_single enc d v applied_index updated_at h =
    let (_, h1) = then_check-none (validate_deployment d) _ h in
    let (one, _) =
      then_check-none (require (is_generation_one d v applied_index updated_at) _) _ h1 in
    eq_of_test d.desired_replicas 1 (
      one_of_many
        (d.version_id == v.version_id
          && d.generation == 1
          && d.scaling_revision == 1
          && d.metadata.created_raft_index == applied_index
          && d.metadata.resource_revision == 1
          && is_same_time d.metadata.created_at updated_at
          && is_same_time d.metadata.updated_at updated_at
          && exact_limits d v
          && d.min_replicas == 1
          && d.max_replicas == 1)
        (d.desired_replicas == 1) (d.ready_replicas == 0)
        (d.target_concurrency == v.resource_request.max_concurrency)
        (d.scaling_mode == scaling_manual) (d.idle_timeout == pos 0)
        (d.desired_phase == deployment_active)
        (passed (is_generation_one d v applied_index updated_at) _ one))

module _ (s : ReleaseStore) where
  module _ (c : CompleteValidation) (v : Version) (found : lookup v.version_id s.versions ≡ some v)
      (validating : v.state ≡ version_validating) where
    reject_version-Writes : ((reject_version s c v).0 ≡ s) ⊎ Writes s (reject_version s c v).0
    unfolding advance reject_version
    reject_version-Writes =
        let failure : SafeError = record { code = c.report.code; message = c.report.message } in
        let failed = advance v version_failed (some failure) c.updated_at in
        elim (Option-cases (validate_version failed)) [
          | inr (_, bad) ↦ inl (rw (bad, reject_version) refl)
          | inl good ↦ inr (record {
            written = failed;
            versions = rw (good, reject_version) refl;
            steps = rw (found, validating) reject;
            others = λ j _. rw (good, reject_version) refl;
            single = rw (good, reject_version) (λ h. h);
          })
        ]

    admit_version-Writes :
        (enc : PolicyEncoding) (d : Deployment)
        → ((admit_version enc s c v d).0 ≡ s) ⊎ Writes s (admit_version enc s c v d).0
    unfolding advance admit_version
    admit_version-Writes enc d =
        let updated = advance v v.state v.validation_error c.updated_at in
        let admitted = record updated { state = version_ready } in
        elim (Option-cases
          (validate_initial_deployment enc d updated c.applied_index c.updated_at)) [
            | inr (_, bad) ↦ inl (rw (bad, admit_version) refl)
            | inl good ↦ elim (Option-cases (validate_version admitted)) [
              | inr (_, bad) ↦ inl (rw (good, bad, admit_version) refl)
              | inl fine ↦ inr (record {
                written = admitted;
                versions = rw (good, fine, admit_version) refl;
                steps = rw (found, validating) admit;
                others = λ j differ. rw (good, fine, admit_version) (other_deployment j differ d);
                single =
                    rw (good, fine, admit_version)
                      (single_after d
                        (initial_single enc d updated c.applied_index c.updated_at good));
              })
            ]
          ]
      where
        other_deployment :
            (j : Str)
            → v.version_id ≢ j
            → (d : Deployment)
            → lookup j (insert v.version_id d s.deployments) ≡ lookup j s.deployments
        other_deployment j differ d = ground (arith, lookup-insert v.version_id j d s.deployments)

        single_after :
            (d : Deployment)
            → d.desired_replicas ≡ 1
            → OneReplica s
            → (k : Str) (e : Deployment) → lookup k (insert v.version_id d s.deployments) ≡ some e
            → e.desired_replicas ≡ 1
        single_after d one h k e found = elim (str_eq.dec v.version_id k) [
          | yes same_id ↦
              ap (λ x. x.desired_replicas)
                (sym (
                  some-inj
                    (subst (λ q. lookup q (insert v.version_id d s.deployments) ≡ some d) same_id
                      (lookup_written v.version_id d s.deployments))
                    found))
              ∙ one
          | no differ ↦ h k e (sym (lookup_unwritten v.version_id k d s.deployments differ) ∙ found)
        ]

  guarded_validating :
      (c : CompleteValidation) (v : Version)
      → completion_guard s c v ≡ none
      → v.state ≡ version_validating
  unfolding completion_guard
  guarded_validating c v h =
      let (_, h1) = then_check-none (require (v.metadata.resource_revision == _) _) _ h in
      let (state, _) = then_check-none (require (v.state == version_validating) _) _ h1 in
      validating_of v.state _ state

  pub finish_validation-Writes :
      (enc : PolicyEncoding) (c : CompleteValidation) (v : Version)
      → lookup v.version_id s.versions ≡ some v
      → ((finish_validation enc s c v).0 ≡ s) ⊎ Writes s (finish_validation enc s c v).0
  unfolding finish_validation
  finish_validation-Writes enc c v found = elim (Option-cases (completion_guard s c v)) [
    | inr (_, bad) ↦ inl (rw (bad, finish_validation) refl)
    | inl good ↦
        let validating = guarded_validating c v good in
        elim (Bool-cases (c.report.valid)) [
          | inr rejected ↦
              rw (good, rejected, finish_validation) (reject_version-Writes c v found validating)
          | inl valid ↦ elim (Option-cases (c.deployment)) [
            | inl missing ↦ inl (rw (good, valid, missing, finish_validation) refl)
            | inr (d, given) ↦
                rw (good, valid, given, finish_validation)
                  (admit_version-Writes c v found validating enc d)
          ]
        ]
  ]

  complete_validation-cases :
      (enc : PolicyEncoding) (c : CompleteValidation)
      → ((complete_validation enc s c).0 ≡ s)
        ⊎ ((v : Version) × (lookup c.version_id s.versions ≡ some v)
            × ((complete_validation enc s c).0 ≡ (finish_validation enc s c v).0))
  unfolding complete_validation
  complete_validation-cases enc c = elim (Option-cases (validate_complete_validation c)) [
    | inr (e, h) ↦ inl (rw (h, complete_validation) refl)
    | inl h ↦ elim (Option-cases (lookup c.version_id s.versions)) [
      | inl missing ↦ inl (rw (h, missing, complete_validation) refl)
      | inr (v, found) ↦ inr (v, found, rw (h, found, complete_validation) refl)
    ]
  ]

  pub complete_validation-Writes :
      (enc : PolicyEncoding) (c : CompleteValidation)
      → IsFiled s
      → ((complete_validation enc s c).0 ≡ s) ⊎ Writes s (complete_validation enc s c).0
  complete_validation-Writes enc c filed = elim (complete_validation-cases enc c) [
    | inl same_store ↦ inl same_store
    | inr (v, found, e) ↦ rw e (
        finish_validation-Writes enc c v
          (subst (λ k. lookup k s.versions ≡ some v) (sym (filed c.version_id v found)) found))
  ]
