-- ===== src/ServingAuth.antt =====
-- internal/servingauth/identity.go: the fences that name a Worker session, an Assignment and a
-- control connection, with their validation. The gate over them is the child `Gate`.
pub mod Gate
use minicloud.Base.{
  Eq, Option, is_zero_ℤ, leb_ℤ, ltb_ℤ, nat_eq, pos, some, zero, ℕ, ℕ_discrete, ℤ, ◌!=◌, ◌&&◌, ◌==◌,
  ◌||◌,
}
use minicloud.Text.{Str, Str-discrete, identifier_pattern, str_eq}
use minicloud.Digest.{is_digest}
use minicloud.Problem.{Error, invalid, require, ◌then_check◌}

pub data Mode : Type 0 where
  normal drain_only : Mode
  unknown_mode : Str → Mode

pub data Lifetime : Type 0 where
  ttl live_only : Lifetime
  unknown_lifetime : Str → Lifetime

pub record WorkerSession : Type 0 where
  pub worker_id : Str
  pub boot_id : Str
  pub session_epoch : ℕ

pub record WorkerProcess : Type 0 where
  pub worker_id : Str
  pub boot_id : Str

pub record AssignmentIdentity : Type 0 where
  pub worker : WorkerSession
  pub assignment_id : Str
  pub version_id : Str
  pub admission_epoch : ℕ
  pub deployment_generation : ℕ
  pub policy_digest : Str
  pub mode : Mode

pub record InvocationFence : Type 0 where
  pub assignment : AssignmentIdentity
  pub discovery_epoch : ℕ

pub record Authorization : Type 0 where
  pub fence : InvocationFence
  pub lifetime : Lifetime
  pub ttl : ℤ

pub record ControlConnection : Type 0 where
  pub connection_id : Str
  pub session_epoch : ℕ
  pub discovery_epoch : ℕ

unfoldable pub Mode-discrete : Discrete Mode
unfolding Str-discrete
Mode-discrete = hlevel Str-discrete

unfoldable pub WorkerSession-discrete : Discrete WorkerSession
unfolding Str-discrete
WorkerSession-discrete = hlevel (Str-discrete, ℕ_discrete)

unfoldable pub AssignmentIdentity-discrete : Discrete AssignmentIdentity
unfolding WorkerSession-discrete Mode-discrete
AssignmentIdentity-discrete =
    hlevel (WorkerSession-discrete, Str-discrete, Mode-discrete, ℕ_discrete)

unfoldable pub InvocationFence-discrete : Discrete InvocationFence
unfolding AssignmentIdentity-discrete
InvocationFence-discrete = hlevel (AssignmentIdentity-discrete, ℕ_discrete)

unfoldable pub ControlConnection-discrete : Discrete ControlConnection
unfolding Str-discrete
ControlConnection-discrete = hlevel (Str-discrete, ℕ_discrete)

instance abbrev pub mode_eq : Eq Mode
mode_eq = record { dec = Mode-discrete }

instance abbrev pub session_eq : Eq WorkerSession
session_eq = record { dec = WorkerSession-discrete }

instance abbrev pub identity_eq : Eq AssignmentIdentity
identity_eq = record { dec = AssignmentIdentity-discrete }

instance abbrev pub fence_eq : Eq InvocationFence
fence_eq = record { dec = InvocationFence-discrete }

instance abbrev pub connection_eq : Eq ControlConnection
connection_eq = record { dec = ControlConnection-discrete }

unfoldable pub validate_process : WorkerProcess → Option Error
validate_process p =
    require (identifier_pattern p.worker_id) (invalid "worker_id" "must be a valid identifier")
    then_check require (identifier_pattern p.boot_id)
        (invalid "boot_id" "must be a valid identifier")

unfoldable pub validate_session : WorkerSession → Option Error
validate_session s =
    require (identifier_pattern s.worker_id) (invalid "worker_id" "must be a valid identifier")
    then_check require (identifier_pattern s.boot_id)
        (invalid "boot_id" "must be a valid identifier")
    then_check require (s.session_epoch != 0) (invalid "session_epoch" "must be greater than zero")

unfoldable pub validate_identity : AssignmentIdentity → Option Error
validate_identity a =
    validate_session a.worker
    then_check require (identifier_pattern a.assignment_id)
        (invalid "assignment_id" "must be a valid identifier")
    then_check require (identifier_pattern a.version_id)
        (invalid "version_id" "must be a valid identifier")
    then_check require (a.admission_epoch != 0)
        (invalid "admission_epoch" "must be greater than zero")
    then_check require (a.deployment_generation != 0)
        (invalid "deployment_generation" "must be greater than zero")
    then_check require (is_digest a.policy_digest)
        (invalid "policy_digest" "must be a lowercase sha-256 digest")
    then_check require (a.mode == normal || a.mode == drain_only)
        (invalid "assignment_mode" "must be normal or drain-only")

unfoldable pub validate_fence : InvocationFence → Option Error
validate_fence f =
    validate_identity f.assignment
    then_check require (f.discovery_epoch != 0)
        (invalid "discovery_epoch" "must be greater than zero")

-- The `switch` on the lifetime.
validate_lifetime : Lifetime → ℤ → ℤ → Option Error
validate_lifetime ttl value max_ttl =
    require (ltb_ℤ (pos 0) value && leb_ℤ value max_ttl)
      (invalid "authorization_ttl" "must be positive and within the worker maximum")
validate_lifetime live_only value max_ttl =
    require (is_zero_ℤ value)
      (invalid "authorization_ttl" "must be zero for live-only authorization")
validate_lifetime (unknown_lifetime _) value max_ttl =
    some (invalid "authorization_lifetime" "must be ttl or live_only")

unfoldable pub validate_authorization : Authorization → ℤ → Option Error
unfolding validate_lifetime
validate_authorization a max_ttl =
    validate_fence a.fence then_check validate_lifetime a.lifetime a.ttl max_ttl

unfoldable pub validate_connection : ControlConnection → Option Error
validate_connection c =
    require (identifier_pattern c.connection_id)
      (invalid "control_connection_id" "must be a valid identifier")
    then_check require (c.session_epoch != 0) (invalid "session_epoch" "must be greater than zero")
    then_check require (c.discovery_epoch != 0)
        (invalid "discovery_epoch" "must be greater than zero")
