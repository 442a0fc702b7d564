-- ===== src/ControlPlane/Release/Lifecycle.antt =====
-- internal/controlplane/release.go: what one call of the ReleaseStore writes.
use minicloud.Model.Validate.{validate_version}
use minicloud.Base.{
  Bool, Bool-cases, Option, Option-cases, ap, arith, eq_of_no_difference, inl, inr, insert, int_eq,
  lookup, map_option, nat_eq, none, refl, some, sym, ◌!=◌, ◌&&◌, ◌==◌, ◌∙◌, ◌≡◌, ◌≢◌, ◌⊎◌,
}
use minicloud.Text.{Str, str_eq}
use minicloud.Problem.{Error, Result, Result-cases, require, then_check-none}
use minicloud.Model.{
  Deployment, Function, Version, VersionState, lifecycle_eq, phase_eq, scaling_mode_eq,
  version_failed, version_ready, version_state_eq, version_uploaded, version_validating,
}
use minicloud.ControlPlane.Catalog.{HttpTrigger, auth_eq}
use minicloud.ControlPlane.Release.{
  CreateVersion, ReleaseStore, StartValidation, validate_create_version, validate_start_validation,
}
use minicloud.ControlPlane.Release.Methods.{
  accepts_versions, add_version, advance, begin_validation, create_version, start_validation,
}

-- One step of a Version, from its state before, where it was there.
pub data VersionStep : Option VersionState → VersionState → Type 0 where
  upload : VersionStep none version_uploaded
  begin : VersionStep (some version_uploaded) version_validating
  admit : VersionStep (some version_validating) version_ready
  reject : VersionStep (some version_validating) version_failed

abbrev pub state_in : ReleaseStore → Str → Option VersionState
state_in s k = map_option (λ v. v.state) (lookup k s.versions)

-- Every Version stands under its own ID.
abbrev pub IsFiled : ReleaseStore → Type 0
IsFiled s = (k : Str) (v : Version) → lookup k s.versions ≡ some v → v.version_id ≡ k

-- Every Deployment asks for one replica.
abbrev pub OneReplica : ReleaseStore → Type 0
OneReplica s = (k : Str) (d : Deployment) → lookup k s.deployments ≡ some d → d.desired_replicas ≡ 1

uploaded_of :
    (state : VersionState) (unfailed : Bool) (e : Error)
    → require (state == version_uploaded && unfailed) e ≡ none
    → state ≡ version_uploaded
uploaded_of state unfailed e h = ground arith

new_version-uploaded :
    (c : CreateVersion) → validate_create_version c ≡ none → c.version.state ≡ version_uploaded
unfolding validate_create_version
new_version-uploaded c h =
    let (_, h1) = then_check-none (require c.if_none_match _) _ h in
    let (_, h2) = then_check-none (require (c.applied_index != 0) _) _ h1 in
    let (_, h3) = then_check-none (validate_version c.version) _ h2 in
    let (state, _) = then_check-none (require (c.version.state == version_uploaded && _) _) _ h3 in
    uploaded_of c.version.state _ _ state

-- A call writes one Version, by a step of it, and the Deployment of no other.
pub record Writes (s s' : ReleaseStore) : Type 0 where
  pub written : Version
  pub versions : s'.versions ≡ insert written.version_id written s.versions
  pub steps : VersionStep (state_in s written.version_id) written.state
  pub others : (j : Str) → written.version_id ≢ j → lookup j s'.deployments ≡ lookup j s.deployments
  pub single : OneReplica s → OneReplica s'

module _ (s : ReleaseStore) where
  add_version-cases :
      (v : Version)
      → ((add_version s v).0 ≡ s)
        ⊎ ((lookup v.version_id s.versions ≡ none)
            × ((add_version s v).0.versions ≡ insert v.version_id v s.versions)
            × ((add_version s v).0.deployments ≡ s.deployments))
  unfolding add_version
  add_version-cases v = ground arith

  add_version-Writes :
      (v : Version)
      → v.state ≡ version_uploaded
      → ((add_version s v).0 ≡ s) ⊎ Writes s (add_version s v).0
  add_version-Writes v e = elim (add_version-cases v) [
    | inl same_store ↦ inl same_store
    | inr (free, written, kept) ↦ inr (record {
      written = v;
      versions = written;
      steps = rw (free, e) upload;
      others = λ j _. ap (λ m. lookup j m) kept;
      single = λ h k d found. h k d (ap (λ m. lookup k m) (sym kept) ∙ found);
    })
  ]

  create_version-cases :
      (parent : Result (Function × HttpTrigger)) (c : CreateVersion)
      → ((create_version s parent c).0 ≡ s)
        ⊎ ((validate_create_version c ≡ none)
            × ((create_version s parent c).0 ≡ (add_version s c.version).0))
  unfolding create_version
  create_version-cases parent c = elim (Option-cases (validate_create_version c)) [
    | inr (_, h) ↦ inl (rw (h, create_version) refl)
    | inl h ↦ elim (Result-cases parent) [
      | inl (_, failed) ↦ inl (rw (h, failed, create_version) refl)
      | inr ((f, _), found) ↦ elim (Bool-cases (accepts_versions f)) [
        | inl accepted ↦ inr (h, rw (h, found, accepted, create_version) refl)
        | inr closed ↦ inl (rw (h, found, closed, create_version) refl)
      ]
    ]
  ]

  pub create_version-Writes :
      (parent : Result (Function × HttpTrigger)) (c : CreateVersion)
      → ((create_version s parent c).0 ≡ s) ⊎ Writes s (create_version s parent c).0
  create_version-Writes parent c = elim (create_version-cases parent c) [
    | inl same_store ↦ inl same_store
    | inr (valid, e) ↦ rw e (add_version-Writes c.version (new_version-uploaded c valid))
  ]

  begin_validation-cases :
      (c : StartValidation) (v : Version)
      → ((begin_validation s c v).0 ≡ s)
        ⊎ ((v.state ≡ version_uploaded)
            × ((begin_validation s c v).0.versions
                ≡ insert v.version_id
                    (advance v version_validating v.validation_error c.updated_at)
                    s.versions)
            × ((begin_validation s c v).0.deployments ≡ s.deployments))
  unfolding begin_validation
  begin_validation-cases c v =
      let started = advance v version_validating v.validation_error c.updated_at in
      elim (Bool-cases (v.metadata.resource_revision != c.expected_resource_revision)) [
        | inl stale ↦ inl (rw (stale, begin_validation) refl)
        | inr current ↦ elim (Bool-cases (v.state != version_uploaded)) [
          | inl late ↦ inl (rw (current, late, begin_validation) refl)
          | inr early ↦ elim (Option-cases (validate_version started)) [
            | inr (_, bad) ↦ inl (rw (current, early, bad, begin_validation) refl)
            | inl good ↦ inr (
              eq_of_no_difference v.state version_uploaded early,
              rw (current, early, good, begin_validation) refl,
              rw (current, early, good, begin_validation) refl,
            )
          ]
        ]
      ]

  start_validation-cases :
      (c : StartValidation)
      → ((start_validation s c).0 ≡ s)
        ⊎ ((v : Version) × (lookup c.version_id s.versions ≡ some v)
            × ((start_validation s c).0 ≡ (begin_validation s c v).0))
  unfolding start_validation
  start_validation-cases c = elim (Option-cases (validate_start_validation c)) [
    | inr (e, h) ↦ inl (rw (h, start_validation) refl)
    | inl h ↦ elim (Option-cases (lookup c.version_id s.versions)) [
      | inl missing ↦ inl (rw (h, missing, start_validation) refl)
      | inr (v, found) ↦ inr (v, found, rw (h, found, start_validation) refl)
    ]
  ]

  pub start_validation-Writes :
      (c : StartValidation)
      → IsFiled s
      → ((start_validation s c).0 ≡ s) ⊎ Writes s (start_validation s c).0
  unfolding advance
  start_validation-Writes c filed = elim (start_validation-cases c) [
    | inl same_store ↦ inl same_store
    | inr (v, found, e) ↦ elim (begin_validation-cases c v) [
      | inl same_store ↦ inl (e ∙ same_store)
      | inr (state, written, kept) ↦ inr (record {
        written = advance v version_validating v.validation_error c.updated_at;
        versions = rw e written;
        steps = rw (filed c.version_id v found, found, state) begin;
        others = λ j _. rw (e, kept) refl;
        single = λ h k d found.
            h k d (ap (λ m. lookup k m) (sym (ap (λ q. q.deployments) e ∙ kept)) ∙ found);
      })
    ]
  ]
