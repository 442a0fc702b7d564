-- ===== src/ControlPlane/Catalog.antt =====
-- internal/controlplane/catalog.go: Functions and their default HTTP Triggers.
pub mod Methods
pub mod Invariant
use minicloud.Text.{Str, Str-discrete, identifier_pattern, str_eq}
use minicloud.Problem.{Error, invalid, require, ◌then_check◌}
use minicloud.Model.{
  Function, FunctionLifecycle, Metadata, Time, is_same_time, lifecycle_active, lifecycle_disabled,
  lifecycle_eq, phase_eq, scaling_mode_eq, version_state_eq,
}
use minicloud.Model.Validate.{validate_function, validate_metadata}
use minicloud.ControlPlane.{validate_utc}
use minicloud.Base.{
  Bool, Eq, List, Map, Option, [], before, int_eq, nat_eq, none, not, some, zero, ℕ, ◌!=◌, ◌&&◌,
  ◌==◌, ◌||◌,
}
use minicloud.Digest.{is_digest}

pub data AuthPolicy : Type 0 where
  auth_token auth_public : AuthPolicy
  unknown_auth : Str → AuthPolicy

unfoldable pub AuthPolicy-discrete : Discrete AuthPolicy
unfolding Str-discrete
AuthPolicy-discrete = hlevel Str-discrete

instance abbrev pub auth_eq : Eq AuthPolicy
auth_eq = record { dec = AuthPolicy-discrete }

pub record HttpTrigger : Type 0 where
  pub metadata : Metadata
  pub function_id : Str
  pub enabled : Bool
  pub auth_policy : AuthPolicy
  pub token_verifier_digest : Option Str

pub record CreateFunction : Type 0 where
  pub if_none_match : Bool
  pub applied_index : ℕ
  pub function : Function
  pub trigger : HttpTrigger

pub record RotateToken : Type 0 where
  pub function_id : Str
  pub expected_resource_revision : ℕ
  pub token_verifier_digest : Str
  pub updated_at : Time
  pub applied_index : ℕ

pub record SetLifecycle : Type 0 where
  pub function_id : Str
  pub expected_resource_revision : ℕ
  pub lifecycle : FunctionLifecycle
  pub updated_at : Time
  pub applied_index : ℕ

pub record Catalog : Type 0 where
  pub functions_by_id : Map Str Function
  pub function_id_by_name : Map Str Str
  pub triggers_by_id : Map Str HttpTrigger
  pub trigger_id_by_func : Map Str Str

pub record CatalogSnapshot : Type 0 where
  pub functions : List Function
  pub triggers : List HttpTrigger

abbrev pub new_catalog : Catalog
new_catalog = record {
  functions_by_id = [];
  function_id_by_name = [];
  triggers_by_id = [];
  trigger_id_by_func = [];
}

abbrev pub max_functions : ℕ
max_functions = 1_000

-- What `HTTPTrigger.Validate` asks of the verifier under its policy.
unfoldable pub validate_auth : AuthPolicy → Option Str → Option Error
validate_auth auth_token none =
    some (invalid "token_verifier_digest" "is required for token authentication")
validate_auth auth_token (some d) =
    require (is_digest d) (invalid "token_verifier_digest" "must be a lowercase SHA-256 digest")
validate_auth auth_public none = none
validate_auth auth_public (some d) =
    some (invalid "token_verifier_digest" "is not allowed for public authentication")
validate_auth (unknown_auth _) d = some (invalid "auth_policy" "must be token or public")

unfoldable pub validate_trigger : HttpTrigger → Option Error
unfolding validate_metadata validate_auth
validate_trigger t =
    validate_metadata t.metadata
    then_check require (identifier_pattern t.function_id)
        (invalid "function_id" "must be a valid identifier")
    then_check validate_auth t.auth_policy t.token_verifier_digest

unfoldable pub validate_create_function : CreateFunction → Option Error
unfolding validate_function validate_trigger
validate_create_function c =
    require c.if_none_match (invalid "if_none_match" "is required when creating a function")
    then_check require (c.applied_index != 0) (invalid "applied_index" "must be greater than zero")
    then_check validate_function c.function
    then_check require (c.function.lifecycle == lifecycle_active)
        (invalid "function.lifecycle" "must be Active when creating a function")
    then_check require (c.function.active_route_revision == 0) (
        invalid "function.active_route_revision" "must be zero before the first Route is published")
    then_check require
        (c.function.metadata.created_raft_index == c.applied_index
          && c.function.metadata.resource_revision == 1)
        (invalid "function" "must be created at this applied index with resource revision one")
    then_check validate_trigger c.trigger
    then_check require (c.trigger.function_id == c.function.metadata.id && c.trigger.enabled)
        (invalid "trigger" "must be enabled and belong to the created function")
    then_check require
        (c.trigger.metadata.created_raft_index == c.applied_index
          && c.trigger.metadata.resource_revision == 1
          && is_same_time c.trigger.metadata.created_at c.function.metadata.created_at
          && is_same_time c.trigger.metadata.updated_at c.function.metadata.updated_at)
        (invalid "trigger" "must share the creation command and timestamp with its function")

unfoldable pub validate_lifecycle_command : SetLifecycle → Option Error
unfolding validate_utc
validate_lifecycle_command c =
    require (identifier_pattern c.function_id) (invalid "function_id" "must be a valid identifier")
    then_check require (c.expected_resource_revision != 0)
        (invalid "expected_resource_revision" "must be greater than zero")
    then_check require (c.lifecycle == lifecycle_active || c.lifecycle == lifecycle_disabled)
        (invalid "lifecycle" "must be Active or Disabled")
    then_check validate_utc "updated_at" c.updated_at
    then_check require (c.applied_index != 0) (invalid "applied_index" "must be greater than zero")

unfoldable pub validate_rotate : RotateToken → Option Error
unfolding validate_utc
validate_rotate c =
    require (identifier_pattern c.function_id) (invalid "function_id" "must be a valid identifier")
    then_check require (c.expected_resource_revision != 0)
        (invalid "expected_resource_revision" "must be greater than zero")
    then_check require (is_digest c.token_verifier_digest)
        (invalid "token_verifier_digest" "must be a lowercase SHA-256 digest")
    then_check validate_utc "updated_at" c.updated_at
    then_check require (c.applied_index != 0) (invalid "applied_index" "must be greater than zero")
