-- ===== src/WorkerCache.antt =====
-- internal/workercache/key.go: the key of a compiled module.
use minicloud.Text.{Str, Str-discrete, str_eq}
use minicloud.Problem.{Result, err, ok, plain}
use minicloud.Base.{
  Eq, if◌then◌else◌, int_eq, ltb_ℤ, nat_eq, not, pos, ℕ, ℕ_discrete, ℤ, ℤ-discrete, ◌!=◌, ◌||◌,
}
use minicloud.WasmProfile.{
  Profile, abi_wasi_command_v1, feature_profile, host_api_profile_none, max_artifact_bytes,
  runtime_name, runtime_version,
}
use minicloud.Digest.{is_digest}

pub record ModuleSpec : Type 0 where
  pub artifact_digest : Str
  pub artifact_size : ℤ
  pub abi : Str
  pub host_api_profile : Str
  pub runtime_feature_profile : Str

pub record Key : Type 0 where
  pub artifact_digest : Str
  pub artifact_size : ℤ
  pub runtime_name : Str
  pub runtime_version : Str
  pub abi : Str
  pub host_api_profile : Str
  pub runtime_feature_profile : Str
  pub engine : Str
  pub memory_limit_mib : ℕ
  pub goos : Str
  pub goarch : Str

unfoldable pub Key-discrete : Discrete Key
unfolding Str-discrete ℤ-discrete
Key-discrete = hlevel (Str-discrete, ℤ-discrete, ℕ_discrete)

instance abbrev pub key_eq : Eq Key
key_eq = record { dec = Key-discrete }

-- The platform, `runtime.GOOS` and `runtime.GOARCH`, is an argument.
unfoldable pub cache_key : Profile → Str → Str → ModuleSpec → Result Key
cache_key p goos goarch spec =
    if not (is_digest spec.artifact_digest)
    then err (plain "worker cache artifact digest is invalid")
    else if ltb_ℤ spec.artifact_size (pos 1) || ltb_ℤ max_artifact_bytes spec.artifact_size
    then err (plain "worker cache artifact size is outside v1 bounds")
    else if spec.abi != abi_wasi_command_v1
    then err (plain "worker cache abi is unsupported")
    else if spec.host_api_profile != host_api_profile_none
    then err (plain "worker cache host api profile is unsupported")
    else if spec.runtime_feature_profile != feature_profile
    then err (plain "worker cache runtime feature profile is unsupported")
    else ok (record {
      artifact_digest = spec.artifact_digest;
      artifact_size = spec.artifact_size;
      runtime_name = runtime_name;
      runtime_version = runtime_version;
      abi = spec.abi;
      host_api_profile = spec.host_api_profile;
      runtime_feature_profile = spec.runtime_feature_profile;
      engine = p.engine;
      memory_limit_mib = p.memory_limit_mib;
      goos = goos;
      goarch = goarch;
    })
