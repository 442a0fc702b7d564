-- ===== src/ControlPlane.antt =====
-- internal/controlplane: the deterministic state of the Controller. Each store has a mutex, which its
-- methods hold; those that span stores hold the mutexes of all of them.
pub mod Catalog
pub mod Release
pub mod Routes
pub mod Assignments
pub mod Ledger
pub mod State
use minicloud.Base.{Option, String, int_eq, nat_eq, not, ℕ, ◌%◌, ◌+◌, ◌^◌}
use minicloud.Text.{str_eq}
use minicloud.Model.{
  Time, is_utc, is_zero_time, lifecycle_eq, phase_eq, scaling_mode_eq, version_state_eq,
}
use minicloud.Problem.{Error, invalid, mismatch, require, ◌then_check◌}

-- `validateUTC`
unfoldable pub validate_utc : String → Time → Option Error
unfolding is_utc
validate_utc field t =
    require (not (is_zero_time t)) (invalid field "is required")
    then_check require (is_utc t) (invalid field "must use UTC")

-- `revisionConflict`
abbrev pub revision_mismatch : String → ℕ → ℕ → Error
revision_mismatch kind expected actual = mismatch kind expected actual

-- An increment of a `uint64`.
abbrev pub next_u64 : ℕ → ℕ
next_u64 n = (n + 1) % 2 ^ 64

abbrev pub max_u64 : ℕ
max_u64 = 18446744073709551615
