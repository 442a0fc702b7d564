-- ===== src/ValidatorProtocol.antt =====
-- internal/validator/protocol/protocol.go: requests to the validator process and its reports. A nil
-- slice is `none`.
use minicloud.Base.{
  Bool, List, Option, false, int_eq, is_empty, is_some, leb_ℤ, nat_eq, not, pos, ℕ, ℤ, ◌&&◌, ◌==◌,
  ◌||◌,
}
use minicloud.Text.{Str, codes, identifier_pattern, str_eq}
use minicloud.Problem.{Code, Error, known, other, plain, require, ◌then_check◌}
use minicloud.Model.{lifecycle_eq, phase_eq, scaling_mode_eq, version_state_eq}
use minicloud.WasmProfile.{
  engine_compiler, engine_interpreter, feature_profile, runtime_name, runtime_version,
}
use minicloud.Digest.{is_digest}

pub record Import : Type 0 where
  pub module_name : Str
  pub name : Str
  pub kind : Str

pub record Memory : Type 0 where
  pub exported : Bool
  pub min_pages : ℕ
  pub max_pages : ℕ

pub record Isolation : Type 0 where
  pub process_boundary : Bool
  pub deadline : Bool
  pub cpu_limit : Bool
  pub file_size_limit : Bool
  pub memory_limit : Bool
  pub temp_disk_limit : Bool

pub record Report : Type 0 where
  pub schema_version : Str
  pub validation_id : Str
  pub valid : Bool
  pub code : Code
  pub reason : Str
  pub message : Str
  pub artifact_digest : Str
  pub artifact_size : ℤ
  pub runtime_name : Str
  pub runtime_version : Str
  pub runtime_feature_profile : Str
  pub runtime_engine : Str
  pub imports : Option (List Import)
  pub exports : Option (List Str)
  pub memory : Memory
  pub compile_nanoseconds : ℤ
  pub isolation : Isolation

abbrev pub schema_version : Str
schema_version = codes "validator-v1"

-- `code == CodeOK`
abbrev pub is_ok_code : Code → Bool
is_ok_code (other s) = s == codes "ok"
is_ok_code _ = false

unfoldable pub validate_report : Report → Option Error
validate_report r =
    require (r.schema_version == schema_version && identifier_pattern r.validation_id)
      (plain "validator protocol: invalid report identity")
    then_check require (not (is_empty r.message) && not (is_empty r.reason))
        (plain "validator protocol: invalid report classification")
    then_check require (is_digest r.artifact_digest)
        (plain "validator protocol: invalid report artifact digest")
    then_check require
        (leb_ℤ (pos 1) r.artifact_size
          && r.runtime_name == runtime_name
          && r.runtime_version == runtime_version)
        (plain "validator protocol: invalid report runtime metadata")
    then_check require
        (r.runtime_feature_profile == feature_profile && is_some r.imports && is_some r.exports)
        (plain "validator protocol: incomplete report metadata")
    then_check require
        (r.runtime_engine == engine_compiler || r.runtime_engine == engine_interpreter)
        (plain "validator protocol: invalid report runtime engine")
    then_check require (leb_ℤ (pos 0) r.compile_nanoseconds)
        (plain "validator protocol: invalid report timing")
    then_check require (not r.valid || is_ok_code r.code)
        (plain "validator protocol: valid report must use ok code")
    then_check require (r.valid || known r.code)
        (plain "validator protocol: rejected report must use a stable error code")
