-- ===== src/ControlPlane/Catalog/Methods.antt =====
-- internal/controlplane/catalog.go: the methods of the Catalog.
use minicloud.Text.{Str, identifier_pattern, str_eq}
use minicloud.Model.{
  Function, lifecycle_active, lifecycle_disabled, lifecycle_eq, phase_eq, scaling_mode_eq,
  version_state_eq,
}
use minicloud.Model.Validate.{validate_function}
use minicloud.ControlPlane.{next_u64, revision_mismatch}
use minicloud.ControlPlane.Catalog.{
  Catalog, CatalogSnapshot, CreateFunction, HttpTrigger, RotateToken, SetLifecycle, auth_eq,
  auth_token, max_functions, validate_create_function, validate_lifecycle_command, validate_rotate,
  validate_trigger,
}
use minicloud.Text.Order.{compare_str}
use minicloud.Base.{
  Bool, Option, Rank, [], false, if◌then◌else◌, insert, int_eq, is_some, length, lookup, ltb,
  nat_eq, none, not, rank_ℕ, some, ◌!=◌, ◌&&◌, ◌==◌, ◌then_by◌, ◌∷◌,
}
use minicloud.Problem.{
  Error, Result, classified, conflict, err, invalid, not_found, ok, overloaded, plain, require,
  wrapped, ◌then_check◌,
}

-- What stands in the way of a new Function.
unfoldable pub create_guard : Catalog → CreateFunction → Option Error
create_guard c cmd =
    let id = cmd.function.metadata.id in
    require (not (is_some (lookup id c.functions_by_id)))
      (classified conflict "function id already exists")
    then_check require (not (is_some (lookup cmd.function.name c.function_id_by_name)))
        (classified conflict "function name already exists")
    then_check require (not (is_some (lookup cmd.trigger.metadata.id c.triggers_by_id)))
        (classified conflict "trigger id already exists")
    then_check require (not (is_some (lookup id c.trigger_id_by_func)))
        (classified conflict "function already has a default HTTP trigger")
    then_check require (ltb (length c.functions_by_id) max_functions)
        (classified overloaded "function catalog is full")

-- The four map writes.
unfoldable pub add_function : Catalog → Function → HttpTrigger → Catalog
add_function c f t = record {
  functions_by_id = insert f.metadata.id f c.functions_by_id;
  function_id_by_name = insert f.name f.metadata.id c.function_id_by_name;
  triggers_by_id = insert t.metadata.id t c.triggers_by_id;
  trigger_id_by_func = insert f.metadata.id t.metadata.id c.trigger_id_by_func;
}

unfoldable pub create_function : Catalog → CreateFunction → Catalog × Result CatalogSnapshot
unfolding validate_create_function create_guard add_function
create_function c cmd = elim (validate_create_function cmd) [
  | some e ↦ (c, err e)
  | none ↦ elim (create_guard c cmd) [
    | some e ↦ (c, err e)
    | none ↦ (
      add_function c cmd.function cmd.trigger,
      ok (record { functions = cmd.function ∷ []; triggers = cmd.trigger ∷ [] }),
    )
  ]
]

unfoldable pub update_function : Catalog → Function → Catalog
update_function c f = record c { functions_by_id = insert f.metadata.id f c.functions_by_id }

-- The Function with the lifecycle of the command.
unfoldable pub with_lifecycle : Function → SetLifecycle → Function
with_lifecycle f cmd = record f {
  lifecycle = cmd.lifecycle;
  metadata = record (f.metadata) {
    updated_at = cmd.updated_at;
    resource_revision = next_u64 f.metadata.resource_revision;
  };
}

-- `SetFunctionLifecycle` for a Function that was found.
unfoldable pub change_lifecycle : Catalog → SetLifecycle → Function → Catalog × Result Function
unfolding with_lifecycle validate_function update_function
change_lifecycle c cmd f =
    if f.metadata.resource_revision != cmd.expected_resource_revision
    then (
      c,
      err (
          revision_mismatch "resource_revision" cmd.expected_resource_revision
            f.metadata.resource_revision),
    )
    else if f.lifecycle != lifecycle_active && f.lifecycle != lifecycle_disabled
    then (c, err (classified conflict "function lifecycle cannot be changed in its current state"))
    else if f.lifecycle == cmd.lifecycle
    then (c, ok f)
    else elim (validate_function (with_lifecycle f cmd)) [
      | some e ↦ (c, err (wrapped "validating updated function" e))
      | none ↦ (update_function c (with_lifecycle f cmd), ok (with_lifecycle f cmd))
    ]

unfoldable pub set_function_lifecycle : Catalog → SetLifecycle → Catalog × Result Function
unfolding validate_lifecycle_command change_lifecycle
set_function_lifecycle c cmd = elim (validate_lifecycle_command cmd) [
  | some e ↦ (c, err e)
  | none ↦ elim (lookup cmd.function_id c.functions_by_id) [
    | none ↦ (c, err (classified not_found "function was not found"))
    | some f ↦ change_lifecycle c cmd f
  ]
]

unfoldable pub with_verifier : HttpTrigger → RotateToken → HttpTrigger
with_verifier t cmd = record t {
  token_verifier_digest = some cmd.token_verifier_digest;
  metadata = record (t.metadata) {
    updated_at = cmd.updated_at;
    resource_revision = next_u64 t.metadata.resource_revision;
  };
}

abbrev pub is_verifier : Option Str → Str → Bool
is_verifier none d = false
is_verifier (some e) d = e == d

-- `RotateInvocationToken` for a Trigger that was found under its ID.
unfoldable pub rotate_trigger :
    Catalog → RotateToken → Str → HttpTrigger → Catalog × Result HttpTrigger
unfolding with_verifier validate_trigger
rotate_trigger c cmd id t =
    if t.metadata.resource_revision != cmd.expected_resource_revision
    then (
      c,
      err (
          revision_mismatch "resource_revision" cmd.expected_resource_revision
            t.metadata.resource_revision),
    )
    else if t.auth_policy != auth_token
    then (c, err (classified conflict "public HTTP trigger has no invocation token"))
    else if is_verifier t.token_verifier_digest cmd.token_verifier_digest
    then (c, err (classified conflict "invocation token verifier did not change"))
    else elim (validate_trigger (with_verifier t cmd)) [
      | some e ↦ (c, err (wrapped "validating rotated HTTP trigger" e))
      | none ↦ (
        record c { triggers_by_id = insert id (with_verifier t cmd) c.triggers_by_id },
        ok (with_verifier t cmd),
      )
    ]

abbrev pub missing_trigger : Error
missing_trigger = plain "catalog invariant: function has no default HTTP trigger"

unfoldable pub rotate_invocation_token : Catalog → RotateToken → Catalog × Result HttpTrigger
unfolding validate_rotate rotate_trigger
rotate_invocation_token c cmd = elim (validate_rotate cmd) [
  | some e ↦ (c, err e)
  | none ↦ elim (lookup cmd.function_id c.trigger_id_by_func) [
    | none ↦ (c, err (classified not_found "function was not found"))
    | some id ↦ elim (lookup id c.triggers_by_id) [
      | none ↦ (c, err missing_trigger)
      | some t ↦ rotate_trigger c cmd id t
    ]
  ]
]

-- A Go map's zero value for a missing key of `map[string]string`.
abbrev pub or_empty_id : Option Str → Str
or_empty_id none = []
or_empty_id (some s) = s

unfoldable pub get_function : Catalog → Str → Result (Function × HttpTrigger)
get_function c id =
    if not (identifier_pattern id)
    then err (invalid "function_id" "must be a valid identifier")
    else elim (lookup id c.functions_by_id) [
      | none ↦ err (classified not_found "function was not found")
      | some f ↦ elim (lookup (or_empty_id (lookup id c.trigger_id_by_func)) c.triggers_by_id) [
        | none ↦ err missing_trigger
        | some t ↦ ok (f, t)
      ]
    ]

unfoldable pub compare_function : Function → Function → Rank
unfolding compare_str
compare_function a b =
    rank_ℕ a.metadata.created_raft_index b.metadata.created_raft_index
    then_by compare_str a.metadata.id b.metadata.id
