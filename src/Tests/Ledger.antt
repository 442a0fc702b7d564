-- ===== src/Tests/Ledger.antt =====
-- Runs of the operation Ledger and of the strict JSON reader.
use minicloud.Base.{
  Bool, List, [], arith, contains, false, if◌then◌else◌, insert, int_eq, length, lookup, nat_eq,
  none, not, pos, refl, some, sort, true, ℕ, ◌+ℤ◌, ◌+◌, ◌<◌, ◌==◌, ◌||◌, ◌∷◌, ◌≡◌, ◌≢◌,
}
use minicloud.Text.{Str, codes, str_eq, valid_utf8}
use minicloud.Problem.{ok}
use minicloud.Digest.{canonical_json}
use minicloud.StrictJson.{
  Decoder, Token, delimiter, end_of_input, error_too_deep, scalar, validate_json,
}
use minicloud.StrictJson.Fuel.{IsConsuming, is_read, validate_json_ends}
use minicloud.Model.{Time, lifecycle_eq, phase_eq, scaling_mode_eq, version_state_eq}
use minicloud.ControlPlane.Ledger.{
  Completion, Ledger, Request, clone_outcome, new_ledger, operation_key_eq, outcome_eq,
  outcome_failed, outcome_succeeded,
}
use minicloud.ControlPlane.Ledger.Canonical.{RequestEncoding}
use minicloud.ControlPlane.Ledger.Methods.{Apply, CompletionResult, complete, completion_applied}
use minicloud.ControlPlane.Ledger.Invariant.{Inv}
use minicloud.ControlPlane.Ledger.Steps.{Call, complete_call, gc_call, run}
use minicloud.ControlPlane.Ledger.Once.{
  complete_applies_once, complete_retry, completing, replayed, run-new_ledger-Inv,
}
use minicloud.Tests.Fixtures.{texts}

-- A decoder for the runs: brackets are delimiters, and every other byte is a scalar.
abbrev byte_token : ℕ → Token
byte_token c = if c == b'{' || c == b'}' || c == b'[' || c == b']' then delimiter c else scalar

abbrev next_token : Str → Token × Str
next_token [] = (end_of_input, [])
next_token (c ∷ s) = (byte_token c, s)

abbrev has_more : Str → Bool
has_more [] = false
has_more (c ∷ s) = not (c == b'}' || c == b']')

abbrev byte_decoder : Decoder
byte_decoder = record { State = Str; start = λ s. s; token = next_token; more = has_more }

shrinks : (s : Str) → is_read (next_token s).0 ≡ true → length (next_token s).1 < length s
shrinks [] h = absurd (ground arith)
shrinks (c ∷ s) h = omega arith

byte_decoder-IsConsuming : IsConsuming byte_decoder
byte_decoder-IsConsuming = record {
  remaining = λ s. length s;
  start_le = λ s. omega arith;
  token_lt = shrinks;
}

validate_json_ends_example : validate_json byte_decoder (codes "[1[2]{}]") 32 ≢ none
validate_json_ends_example =
    validate_json_ends byte_decoder byte_decoder-IsConsuming (codes "[1[2]{}]") 32

unfoldable json_runs : Unit {0}
unfolding texts validate_json valid_utf8
json_runs = tt

nested_run : validate_json byte_decoder (codes "[1[2]{}]") 2 ≡ some none
unfolding json_runs
nested_run = refl

deep_run : validate_json byte_decoder (codes "[1[2]{}]") 1 ≡ some (some error_too_deep)
unfolding json_runs
deep_run = refl

abbrev request_encoding : RequestEncoding
request_encoding = record {
  marshal = λ r. some (codes "{}");
  transform = λ s. some s;
  sha256 = λ s. [];
  parse_request_uri = λ s. some (record { host = []; path = s });
  escaped_path = λ s. s;
  decoder = byte_decoder;
}

abbrev request : Request
request = record {
  method = codes "post";
  path = codes "/functions";
  preconditions = record {
    if_none_match = true;
    expected_resource_revision = none;
    expected_active_route_revision = none;
  };
  body_present = true;
  body = codes "{}";
  artifact_digest = none;
}

abbrev time : ℕ → Time
time n = record { instant = pos n; offset = pos 0 }

abbrev completion : Completion
completion = record {
  key = record {
    principal = codes "alice";
    namespace = codes "default";
    operation_id = codes "operation-1";
  };
  request = request;
  outcome = record {
    status = outcome_succeeded;
    failure = none;
    affected_resources =
        record {
          kind = codes "function";
          id = codes "fn-1";
          resource_revision = some 1;
          route_revision = none;
        }
        ∷ [];
    credential_issued = false;
  };
  completed_at = time 5;
  applied_index = 1;
}

-- A counter for the runs, and a callback that adds one to it.
abbrev count_up : Apply ℕ
count_up = some (λ n. (n + 1, none))

unfoldable ledger_runs : Unit {0}
unfolding json_runs complete run lookup insert contains sort canonical_json ◌+ℤ◌
ledger_runs = tt

abbrev applied_result : CompletionResult
applied_result = record {
  disposition = completion_applied;
  retained = record {
    key = completion.key;
    digest = codes "sha256:";
    outcome = completion.outcome;
    completed_at = time 5;
    applied_index = 1;
  };
}

abbrev history : List (Call ℕ)
history = gc_call (time 2) ∷ []

applied_run : (completing request_encoding 0 history completion count_up).2 ≡ ok applied_result
unfolding ledger_runs
applied_run = refl

abbrev later_calls : List (Call ℕ)
later_calls = gc_call (time 9) ∷ complete_call completion count_up ∷ []

abbrev now : Ledger × ℕ
now =
    let (l, n, _) = completing request_encoding 0 history completion count_up in
    run request_encoding l n later_calls

-- The retry of the request by a caller whose own run failed, later and with another index.
abbrev retried : Completion
retried = record completion {
  outcome = record completion.outcome { status = outcome_failed; affected_resources = [] };
  completed_at = time 7;
  applied_index = 2;
}

complete_retry_example :
    (applied_result.retained.completed_at ≡ time 5)
    × (applied_result.retained.applied_index ≡ 1)
    × (applied_result.retained.outcome ≡ clone_outcome (clone_outcome completion.outcome))
    × (complete request_encoding now.0 now.1 retried count_up
        ≡ (now.0, now.1, ok (replayed applied_result)))
unfolding ledger_runs
complete_retry_example =
    complete_retry request_encoding 0 history completion count_up applied_result applied_run refl
      later_calls (refl, (refl, tt)) retried refl refl count_up

abbrev renamed : Completion
renamed = record completion { request = record request { path = codes "/other" } }

complete_applies_once_example :
    ((complete request_encoding now.0 now.1 renamed count_up).0 ≡ now.0)
    × ((complete request_encoding now.0 now.1 renamed count_up).1 ≡ now.1)
unfolding ledger_runs
complete_applies_once_example =
    complete_applies_once request_encoding 0 history completion count_up applied_result applied_run
      refl later_calls (refl, (refl, tt)) renamed refl count_up

run-new_ledger-Inv_example : Inv (run request_encoding new_ledger 0 later_calls).0
run-new_ledger-Inv_example = run-new_ledger-Inv request_encoding 0 later_calls
