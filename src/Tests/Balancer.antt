-- ===== src/Tests/Balancer.antt =====
-- Runs of the balancer.
use minicloud.Base.{
  List, String, [], arith, contains, delete, inl, inr, insert, int_eq, lookup, nat_eq, refl, some,
  sort, sort_insert, true, ◌∷◌, ◌≡◌,
}
use minicloud.Text.{codes, str_eq, str_ltb, valid_utf8}
use minicloud.Problem.{ok}
use minicloud.Balancer.{
  TargetKey-discrete, acquire, choose_endpoint, compare_endpoints, count_in_flight,
  eligible_endpoints, give_back, least_in_flight, new_balancer, release, serves, take_endpoint,
  target_key_eq, tied_endpoints, validate_target,
}
use minicloud.Balancer.Leases.{
  Call, acquires, idle, issue, outstanding, release_at, releases, run, run-idle-Counts, step,
}
use minicloud.Balancer.Choice.{IsLeast, acquire-IsLeast}
use minicloud.Discovery.{
  Endpoint, Net, endpoint_ready, valid_endpoint_address, valid_host, valid_port, validate_endpoint,
}
use minicloud.ServingAuth.{
  AssignmentIdentity, AssignmentIdentity-discrete, Mode-discrete, WorkerSession-discrete,
  connection_eq, fence_eq, identity_eq, mode_eq, normal, session_eq, validate_identity,
  validate_session,
}
use minicloud.Routing.{RouteTarget}
use minicloud.Text.Order.{compare_str}
use minicloud.Tests.Fixtures.{digest, texts}

-- Every text is trimmed, ends in the port 80 and is a literal address.
abbrev net : Net
net = record {
  trim_space = λ s. s;
  split_host_port = λ s. some (s, codes "80");
  is_addr = λ s. true;
}

abbrev target : RouteTarget
target = record {
  version_id = codes "v1";
  admission_epoch = 1;
  deployment_generation = 2;
  effective_policy_digest = digest;
  weight_basis_points = 10000;
}

abbrev identity : String → AssignmentIdentity
identity id = record {
  worker = record { worker_id = codes id; boot_id = codes "boot"; session_epoch = 1 };
  assignment_id = codes id;
  version_id = codes "v1";
  admission_epoch = 1;
  deployment_generation = 2;
  policy_digest = digest;
  mode = normal;
}

abbrev endpoint : String → Endpoint
endpoint id = record {
  assignment = identity id;
  address = codes "10.0.0.1";
  state = endpoint_ready;
}

abbrev endpoints : List Endpoint
endpoints = endpoint "b" ∷ endpoint "a" ∷ []

abbrev history : List Call
history =
    acquires (codes "fn") target endpoints
    ∷ acquires (codes "fn") target endpoints
    ∷ releases 0
    ∷ releases 0
    ∷ []

unfoldable runs : Unit {0}
unfolding texts step run acquire validate_target eligible_endpoints serves validate_endpoint
    validate_identity validate_session valid_endpoint_address valid_port valid_host valid_utf8
    contains lookup insert delete sort sort_insert compare_endpoints compare_str str_ltb
    choose_endpoint least_in_flight tied_endpoints take_endpoint release_at release give_back issue
    outstanding AssignmentIdentity-discrete WorkerSession-discrete Mode-discrete TargetKey-discrete
runs = tt

-- Two leases on different Assignments, the first of them released twice.
outstanding_after :
    (outstanding (identity "a") (run net idle history).leases ≡ 0)
    × (outstanding (identity "b") (run net idle history).leases ≡ 1)
unfolding runs
outstanding_after = (refl, refl)

collected : eligible_endpoints net target [] endpoints ≡ ok endpoints
unfolding runs
collected = refl

run-idle-Counts_example :
    count_in_flight (run net idle history).balancer (identity "b")
    ≡ outstanding (identity "b") (run net idle history).leases
run-idle-Counts_example = run-idle-Counts net history (identity "b") (omega arith)

acquire-IsLeast_example :
    (c : Endpoint) × ((acquire net new_balancer (codes "fn") target endpoints).1 ≡ ok c)
    × IsLeast new_balancer target endpoints c
unfolding runs
acquire-IsLeast_example =
    acquire-IsLeast net new_balancer (codes "fn") target endpoints (endpoint "a") refl refl
      collected (inr (inl refl)) refl
