-- ===== src/ControlPlane/Release/Methods.antt =====
-- internal/controlplane/release.go: the methods of the ReleaseStore.
use minicloud.Base.{
  Bool, Option, delete, if◌then◌else◌, insert, int_eq, is_some, leb, lookup, nat_eq, none, not,
  or_zero, some, ◌!=◌, ◌&&◌, ◌+◌, ◌==◌,
}
use minicloud.Text.{Str, identifier_pattern, str_eq}
use minicloud.ControlPlane.Catalog.Methods.{or_empty_id}
use minicloud.Model.{
  Deployment, Function, SafeError, Time, Version, VersionState, is_before, lifecycle_deleting,
  lifecycle_eq, lifecycle_tombstoned, phase_eq, scaling_mode_eq, version_failed, version_ready,
  version_state_eq, version_uploaded, version_validating,
}
use minicloud.Model.Validate.{validate_version}
use minicloud.Model.Policy.{PolicyEncoding}
use minicloud.ControlPlane.{next_u64, revision_mismatch}
use minicloud.ControlPlane.Catalog.{HttpTrigger, auth_eq}
use minicloud.ControlPlane.Release.{
  CompleteValidation, CreateVersion, ReleaseStore, StartValidation, max_versions_per_function,
  validate_complete_validation, validate_create_version, validate_initial_deployment,
  validate_report_for_version, validate_start_validation,
}
use minicloud.Problem.{
  Error, Result, classified, conflict, err, invalid, not_found, ok, overloaded, plain, require,
  stale_generation, wrapped, ◌then_check◌,
}

-- The Function may get new Versions.
abbrev pub accepts_versions : Function → Bool
accepts_versions f = f.lifecycle != lifecycle_deleting && f.lifecycle != lifecycle_tombstoned

-- `CreateVersion` under the mutex.
unfoldable pub add_version : ReleaseStore → Version → ReleaseStore × Result Version
add_version s v =
    if is_some (lookup v.version_id s.versions)
    then (s, err (classified conflict "version id already exists"))
    else if leb max_versions_per_function (or_zero (lookup v.function_id s.version_count_by_func))
    then (s, err (classified overloaded "function version limit reached"))
    else (
      record s {
        versions = insert v.version_id v s.versions;
        version_count_by_func =
            insert v.function_id (or_zero (lookup v.function_id s.version_count_by_func) + 1)
              s.version_count_by_func;
      },
      ok v,
    )

-- `parent` is what `Catalog.GetFunction` returned before the mutex was taken.
unfoldable pub create_version :
    ReleaseStore → Result (Function × HttpTrigger) → CreateVersion → ReleaseStore × Result Version
unfolding validate_create_version add_version
create_version s parent c = elim (validate_create_version c) [
  | some e ↦ (s, err e)
  | none ↦ elim parent [
    | err e ↦ (s, err (wrapped "resolving version parent function" e))
    | ok (f, _) ↦
        if not (accepts_versions f)
        then (s, err (classified conflict "function does not accept new versions"))
        else add_version s c.version
  ]
]

-- The Version with the next revision in a new state.
unfoldable pub advance : Version → VersionState → Option SafeError → Time → Version
advance v state failure updated_at = record v {
  state = state;
  validation_error = failure;
  metadata = record (v.metadata) {
    updated_at = updated_at;
    resource_revision = next_u64 v.metadata.resource_revision;
  };
}

-- `StartValidation` for a Version that was found.
unfoldable pub begin_validation :
    ReleaseStore → StartValidation → Version → ReleaseStore × Result Version
unfolding advance validate_version
begin_validation s c v =
    if v.metadata.resource_revision != c.expected_resource_revision
    then (
      s,
      err (
          revision_mismatch "resource_revision" c.expected_resource_revision
            v.metadata.resource_revision),
    )
    else if v.state != version_uploaded
    then (s, err (classified conflict "version is not awaiting validation"))
    else (let started = advance v version_validating v.validation_error c.updated_at in
        elim (validate_version started) [
          | some e ↦ (s, err (wrapped "validating started version" e))
          | none ↦ (
            record s {
              versions = insert v.version_id started s.versions;
              validation_id_by_version =
                  insert v.version_id c.validation_id s.validation_id_by_version;
            },
            ok started,
          )
        ])

unfoldable pub start_validation : ReleaseStore → StartValidation → ReleaseStore × Result Version
unfolding validate_start_validation begin_validation
start_validation s c = elim (validate_start_validation c) [
  | some e ↦ (s, err e)
  | none ↦ elim (lookup c.version_id s.versions) [
    | none ↦ (s, err (classified not_found "version was not found"))
    | some v ↦ begin_validation s c v
  ]
]

-- The checks of `CompleteValidation` on the Version that was found.
unfoldable pub completion_guard : ReleaseStore → CompleteValidation → Version → Option Error
unfolding validate_report_for_version
completion_guard s c v =
    require (v.metadata.resource_revision == c.expected_resource_revision) (
      revision_mismatch "resource_revision" c.expected_resource_revision
        v.metadata.resource_revision)
    then_check require (v.state == version_validating)
        (classified stale_generation "version is no longer validating")
    then_check require
        (or_empty_id (lookup v.version_id s.validation_id_by_version) == c.report.validation_id)
        (classified stale_generation "validator report does not match the active validation")
    then_check validate_report_for_version c.report v
    then_check require (not (is_before c.updated_at v.metadata.updated_at))
        (invalid "updated_at" "must not precede the current version update time")

-- A report that rejects the Version.
unfoldable pub reject_version :
    ReleaseStore
    → CompleteValidation
    → Version
    → ReleaseStore × Result (Version × Option Deployment)
unfolding advance validate_version
reject_version s c v =
    let failed =
      advance v version_failed (some (record { code = c.report.code; message = c.report.message }))
        c.updated_at in
    elim (validate_version failed) [
      | some e ↦ (s, err (wrapped "validating failed version" e))
      | none ↦ (
        record s {
          versions = insert v.version_id failed s.versions;
          validation_id_by_version = delete v.version_id s.validation_id_by_version;
        },
        ok (failed, none),
      )
    ]

-- A report that admits the Version, with the deployment of the command.
unfoldable pub admit_version :
    PolicyEncoding
    → ReleaseStore
    → CompleteValidation
    → Version
    → Deployment
    → ReleaseStore × Result (Version × Option Deployment)
unfolding advance validate_version validate_initial_deployment
admit_version enc s c v d =
    let updated = advance v v.state v.validation_error c.updated_at in
    let admitted = record updated { state = version_ready } in
    elim (validate_initial_deployment enc d updated c.applied_index c.updated_at) [
      | some e ↦ (s, err e)
      | none ↦ elim (validate_version admitted) [
        | some e ↦ (s, err (wrapped "validating ready version" e))
        | none ↦ (
          record s {
            versions = insert v.version_id admitted s.versions;
            deployments = insert v.version_id d s.deployments;
            validation_id_by_version = delete v.version_id s.validation_id_by_version;
          },
          ok (admitted, some d),
        )
      ]
    ]

-- `validateCompleteValidation` leaves a valid report with a deployment; a nil pointer would panic.
unfoldable pub finish_validation :
    PolicyEncoding
    → ReleaseStore
    → CompleteValidation
    → Version
    → ReleaseStore × Result (Version × Option Deployment)
unfolding completion_guard reject_version admit_version
finish_validation enc s c v = elim (completion_guard s c v) [
  | some e ↦ (s, err e)
  | none ↦ if not c.report.valid then reject_version s c v else elim c.deployment [
    | none ↦ (s, err (plain "nil pointer dereference"))
    | some d ↦ admit_version enc s c v d
  ]
]

unfoldable pub complete_validation :
    PolicyEncoding
    → ReleaseStore
    → CompleteValidation
    → ReleaseStore × Result (Version × Option Deployment)
unfolding validate_complete_validation finish_validation
complete_validation enc s c = elim (validate_complete_validation c) [
  | some e ↦ (s, err e)
  | none ↦ elim (lookup c.version_id s.versions) [
    | none ↦ (s, err (classified not_found "version was not found"))
    | some v ↦ finish_validation enc s c v
  ]
]

-- `Get`
unfoldable pub get_version : ReleaseStore → Str → Result (Version × Option Deployment)
get_version s id =
    if not (identifier_pattern id)
    then err (invalid "version_id" "must be a valid identifier")
    else elim (lookup id s.versions) [
      | none ↦ err (classified not_found "version was not found")
      | some v ↦ ok (v, lookup id s.deployments)
    ]
