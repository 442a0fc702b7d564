-- ===== src/ControlPlane/Ledger.antt =====
-- internal/controlplane/operation.go: the values of the operation Ledger and their validation.
pub mod Canonical
pub mod Methods
pub mod Invariant
pub mod Steps
pub mod Once
use minicloud.Base.{
  Bool, Eq, List, Map, Option, Rank, [], contains, int_eq, is_empty, is_some, leb, length, nat_eq,
  none, not, pos, some, sort, true, zero, ℕ, ℤ, ◌!=◌, ◌&&◌, ◌*◌, ◌++◌, ◌==◌, ◌then_by◌, ◌||◌, ◌∷◌,
}
use minicloud.Text.{Str, Str-discrete, codes, identifier_pattern, str_eq, valid_utf8}
use minicloud.Problem.{Code, Error, invalid, known, require, ◌then_check◌}
use minicloud.Model.{Time, lifecycle_eq, phase_eq, scaling_mode_eq, version_state_eq}
use minicloud.Text.Order.{compare_str}
use minicloud.ControlPlane.{validate_utc}

pub record OperationKey : Type 0 where
  pub principal : Str
  pub namespace : Str
  pub operation_id : Str

unfoldable pub OperationKey-discrete : Discrete OperationKey
unfolding Str-discrete
OperationKey-discrete = hlevel Str-discrete

instance abbrev pub operation_key_eq : Eq OperationKey
operation_key_eq = record { dec = OperationKey-discrete }

-- `none` is a nil revision.
pub record Preconditions : Type 0 where
  pub if_none_match : Bool
  pub expected_resource_revision : Option ℕ
  pub expected_active_route_revision : Option ℕ

pub record Request : Type 0 where
  pub method : Str
  pub path : Str
  pub preconditions : Preconditions
  pub body_present : Bool
  pub body : Str
  pub artifact_digest : Option Str

pub data OutcomeStatus : Type 0 where
  outcome_succeeded outcome_failed : OutcomeStatus
  unknown_outcome : Str → OutcomeStatus

unfoldable pub OutcomeStatus-discrete : Discrete OutcomeStatus
unfolding Str-discrete
OutcomeStatus-discrete = hlevel Str-discrete

instance abbrev pub outcome_eq : Eq OutcomeStatus
outcome_eq = record { dec = OutcomeStatus-discrete }

pub record Failure : Type 0 where
  pub code : Code
  pub message : Str

pub record AffectedResource : Type 0 where
  pub kind : Str
  pub id : Str
  pub resource_revision : Option ℕ
  pub route_revision : Option ℕ

pub record Outcome : Type 0 where
  pub status : OutcomeStatus
  pub failure : Option Failure
  pub affected_resources : List AffectedResource
  pub credential_issued : Bool

pub record Completion : Type 0 where
  pub key : OperationKey
  pub request : Request
  pub outcome : Outcome
  pub completed_at : Time
  pub applied_index : ℕ

pub record Record : Type 0 where
  pub key : OperationKey
  pub digest : Str
  pub outcome : Outcome
  pub completed_at : Time
  pub applied_index : ℕ

pub record Tombstone : Type 0 where
  pub key : OperationKey
  pub digest : Str
  pub tombstoned_at : Time

pub record Ledger : Type 0 where
  pub max_operations : ℕ
  pub operation_ttl : ℤ
  pub tombstone_ttl : ℤ
  pub records : Map OperationKey Record
  pub tombstones : Map OperationKey Tombstone

abbrev hour_ns : ℕ
hour_ns = 3_600_000_000_000

-- `New`
abbrev pub new_ledger : Ledger
new_ledger = record {
  max_operations = 100_000;
  operation_ttl = pos (24 * hour_ns);
  tombstone_ttl = pos (7 * 24 * hour_ns);
  records = [];
  tombstones = [];
}

unfoldable pub validate_key : OperationKey → Option Error
validate_key k =
    require (identifier_pattern k.principal) (invalid "principal" "must be a valid identifier")
    then_check require (k.namespace == codes "default")
        (invalid "namespace" "only default is supported in v1")
    then_check require (identifier_pattern k.operation_id)
        (invalid "operation_id" "must be a valid identifier")

-- A revision that is there is not zero.
abbrev pub is_positive_revision : Option ℕ → Bool
is_positive_revision none = true
is_positive_revision (some n) = n != 0

unfoldable pub validate_preconditions : Preconditions → Option Error
validate_preconditions p =
    require
      (not (
        p.if_none_match
        && (is_some p.expected_resource_revision || is_some p.expected_active_route_revision)))
      (invalid "preconditions" "if-none-match cannot be combined with expected revisions")
    then_check require (is_positive_revision p.expected_resource_revision)
        (invalid "expected_resource_revision" "must be greater than zero")

unfoldable pub validate_failure : Option Failure → Option Error
validate_failure none = some (invalid "failure" "is required for a failed operation")
validate_failure (some f) =
    require (known f.code) (invalid "failure.code" "must be a stable v1 error code")
    then_check require
        (not (is_empty f.message) && leb (length f.message) 512 && valid_utf8 f.message)
        (invalid "failure.message" "must be valid UTF-8 and within 512 bytes")

unfoldable pub validate_resource : AffectedResource → Option Error
validate_resource r =
    require (identifier_pattern r.kind)
      (invalid "affected_resources.kind" "must be a valid identifier")
    then_check require (identifier_pattern r.id)
        (invalid "affected_resources.id" "must be a valid identifier")
    then_check require (is_some r.resource_revision || is_some r.route_revision)
        (invalid "affected_resources" "must include a resource or route revision")
    then_check require (is_positive_revision r.resource_revision)
        (invalid "affected_resources.resource_revision" "must be greater than zero")
    then_check require (is_positive_revision r.route_revision)
        (invalid "affected_resources.route_revision" "must be greater than zero")

abbrev resource_key : AffectedResource → Str
resource_key r = r.kind ++ (0 ∷ r.id)

-- The loop over the affected resources, with the keys seen so far.
unfoldable pub check_resources : List Str → List AffectedResource → Option Error
unfolding validate_resource
check_resources seen [] = none
check_resources seen (r ∷ rs) =
    validate_resource r
    then_check require (not (contains (resource_key r) seen))
        (invalid "affected_resources" "contains a duplicate resource")
    then_check check_resources (resource_key r ∷ seen) rs

unfoldable pub validate_status : Outcome → Option Error
unfolding validate_failure
validate_status o = elim (o.status) [
  | outcome_succeeded ↦
      require (not (is_some o.failure)) (invalid "failure" "is only valid for a failed operation")
  | outcome_failed ↦ validate_failure o.failure
  | unknown_outcome _ ↦ some (invalid "status" "must be a terminal operation status")
]

unfoldable pub validate_outcome : Outcome → Option Error
unfolding validate_status check_resources
validate_outcome o =
    require (leb (length o.affected_resources) 256)
      (invalid "affected_resources" "exceeds the v1 operation result limit")
    then_check require (not o.credential_issued || o.status == outcome_succeeded)
        (invalid "credential_issued" "is only valid for a successful operation")
    then_check require (not o.credential_issued || not (is_empty o.affected_resources))
        (invalid "credential_issued" "requires at least one affected resource")
    then_check validate_status o
    then_check check_resources [] o.affected_resources

unfoldable pub validate_for_insert : Completion → Option Error
unfolding validate_outcome validate_utc
validate_for_insert c =
    validate_outcome c.outcome
    then_check validate_utc "completed_at" c.completed_at
    then_check require (c.applied_index != 0) (invalid "applied_index" "must be greater than zero")

unfoldable pub compare_resources : AffectedResource → AffectedResource → Rank
unfolding compare_str
compare_resources a b = compare_str a.kind b.kind then_by compare_str a.id b.id

-- A clone has its resources in order.
unfoldable pub clone_outcome : Outcome → Outcome
unfolding compare_resources
clone_outcome o = record o { affected_resources = sort compare_resources o.affected_resources }

unfoldable pub clone_record : Record → Record
unfolding clone_outcome
clone_record r = record r { outcome = clone_outcome r.outcome }

unfoldable pub compare_operation_key : OperationKey → OperationKey → Rank
unfolding compare_str
compare_operation_key a b =
    compare_str a.principal b.principal
    then_by compare_str a.namespace b.namespace
    then_by compare_str a.operation_id b.operation_id
