-- ===== src/WasmProfile.antt =====
-- internal/wasmprofile/profile.go and the constants of internal/model/version.go that it goes with.
use minicloud.Text.{Str, codes, str_eq}
use minicloud.Problem.{Result, err, ok, plain}
use minicloud.Base.{
  Bool, arith, false, if◌then◌else◌, int_eq, nat_eq, not, pos, true, ℕ, ℤ, ◌!=◌, ◌%◌, ◌&&◌, ◌*◌,
  ◌/◌, ◌==◌, ◌^◌, ◌||◌, ◌≡◌,
}

abbrev pub runtime_name : Str
runtime_name = codes "wazero"

abbrev pub runtime_version : Str
runtime_version = codes "v1.12.0"

abbrev pub feature_profile : Str
feature_profile = codes "wazero-core-v2-v1"

abbrev pub engine_compiler : Str
engine_compiler = codes "compiler"

abbrev pub engine_interpreter : Str
engine_interpreter = codes "interpreter"

abbrev pub abi_wasi_command_v1 : Str
abi_wasi_command_v1 = codes "wasi-command-v1"

abbrev pub host_api_profile_none : Str
host_api_profile_none = codes "none"

-- 256 << 20
abbrev pub max_artifact_bytes : ℤ
max_artifact_bytes = pos 268435456

abbrev pub wasm_page_bytes : ℕ
wasm_page_bytes = 65536

unfoldable pub valid_memory_tier : ℕ → Bool
valid_memory_tier m = m == 64 || m == 128 || m == 256 || m == 512

-- The product is taken in `uint32`.
unfoldable pub memory_limit_pages : ℕ → ℕ
memory_limit_pages m = (m * 2 ^ 20 % 2 ^ 32) / wasm_page_bytes

pub record Profile : Type 0 where
  pub engine : Str
  pub memory_limit_mib : ℕ

unfoldable pub new_profile : Str → ℕ → Result Profile
unfolding valid_memory_tier
new_profile engine memory_limit_mib =
    if engine != engine_compiler && engine != engine_interpreter
    then err (plain "unsupported wasm runtime engine")
    else if not (valid_memory_tier memory_limit_mib)
    then err (plain "unsupported wasm memory tier")
    else ok (record { engine = engine; memory_limit_mib = memory_limit_mib })

-- `_, err := New(engine, memory)` with the error dropped.
abbrev pub is_profile : Str → ℕ → Bool
is_profile engine memory = elim (new_profile engine memory) [ ok _ ↦ true | err _ ↦ false ]

-- Each supported tier is a whole number of pages, and converts without overflow.
pub memory_limit_pages-exact :
    (m : ℕ) → valid_memory_tier m ≡ true → memory_limit_pages m * wasm_page_bytes ≡ m * 2 ^ 20
unfolding valid_memory_tier memory_limit_pages
memory_limit_pages-exact m h = ground arith
