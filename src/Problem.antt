-- ===== src/Problem.antt =====
-- internal/problem/problem.go: the catalogue of error codes, and Go's `error` values and results.
use minicloud.Text.{Str, str_eq}
use minicloud.Base.{
  Bool, Option, String, false, inl, inr, int_eq, nat_eq, none, refl, some, true, ℕ, ◌≡◌, ◌≢◌, ◌⊎◌,
}

pub data Code : Type 0 where
  invalid_argument unauthenticated forbidden not_found conflict revision_conflict : Code
  rollback_unavailable operation_unknown operation_expired credential_not_replayable : Code
  no_quorum control_plane_stale function_disabled no_ready_replica overloaded : Code
  cold_start_timeout function_timeout invalid_module capability_denied function_trap : Code
  invalid_function_response output_limit worker_lost stale_assignment stale_generation : Code
  artifact_unavailable async_unavailable result_expired : Code
  -- Any other string of the type.
  other : Str → Code

-- The codes of the public catalogue.
unfoldable pub known : Code → Bool
known (other _) = false
known _ = true

unfoldable pub http_status : Code → ℕ
http_status invalid_argument = 400
http_status unauthenticated = 401
http_status forbidden = 403
http_status capability_denied = 403
http_status not_found = 404
http_status conflict = 409
http_status revision_conflict = 409
http_status rollback_unavailable = 409
http_status operation_unknown = 409
http_status credential_not_replayable = 409
http_status stale_assignment = 409
http_status operation_expired = 410
http_status result_expired = 410
http_status overloaded = 429
http_status invalid_module = 422
http_status function_trap = 502
http_status invalid_function_response = 502
http_status output_limit = 502
http_status worker_lost = 502
http_status cold_start_timeout = 504
http_status function_timeout = 504
http_status no_quorum = 503
http_status control_plane_stale = 503
http_status function_disabled = 503
http_status no_ready_replica = 503
http_status stale_generation = 503
http_status artifact_unavailable = 503
http_status async_unavailable = 503
http_status (other _) = 500

-- A Go `error`: a `*problem.Error` with its code, message and field, `errors.New` of a text, the
-- `*RevisionConflict` of internal/controlplane with its kind and the expected and actual revisions, or
-- `fmt.Errorf` of a text before `: %w`.
pub data Error : Type 0 where
  problem : Code → String → String → Error
  plain : String → Error
  mismatch : String → ℕ → ℕ → Error
  wrapped : String → Error → Error

-- `problem.Invalid`.
abbrev pub invalid : String → String → Error
invalid field message = problem invalid_argument message field

-- The packages' `classified`.
abbrev pub classified : Code → String → Error
classified c message = problem c message ""

-- A returned value, or the error returned in its place.
pub data Result {ℓ} (A : Type ℓ) : Type ℓ where
  ok : A → Result A
  err : Error → Result A

-- The first of two checks that fails; `none` is Go's `nil`.
infixr 20 ◌then_check◌
abbrev pub ◌then_check◌ : Option Error → Option Error → Option Error
some e then_check k = some e
none then_check k = k

-- A failed check, or `nil`.
abbrev pub require : Bool → Error → Option Error
require true e = none
require false e = some e

pub Result-cases {ℓ} :
    {A : Type ℓ} (r : Result A) → ((e : Error) × r ≡ err e) ⊎ ((a : A) × r ≡ ok a)
Result-cases (ok a) = inr (a, refl)
Result-cases (err e) = inl (e, refl)

-- Either there was an error, or what holds without one holds.
pub failed_or {ℓ} :
    {B : Type ℓ} (failure : Option Error) → (failure ≡ none → B) → (failure ≢ none) ⊎ B
failed_or none b = inr (b refl)
failed_or (some e) b = inl (λ h. cc)

-- Two checks pass together exactly when each does.
pub then_check-none : (a b : Option Error) → (a then_check b) ≡ none → (a ≡ none) × (b ≡ none)
then_check-none none b h = (refl, h)
then_check-none (some e) b h = cc
