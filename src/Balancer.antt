-- ===== src/Balancer.antt =====
-- internal/gatewayroute/balancer.go: the choice of an Endpoint for a selected Route target. A method is
-- one step under the mutex. Counters are `uint64` and wrap.
pub mod Leases
pub mod Choice
use minicloud.Text.{Str, Str-discrete, identifier_pattern, str_eq}
use minicloud.ServingAuth.{
  AssignmentIdentity, connection_eq, fence_eq, identity_eq, mode_eq, normal, session_eq,
}
use minicloud.Discovery.{Endpoint, Net, endpoint_ready, validate_endpoint}
use minicloud.Routing.{RouteTarget, total_weight}
use minicloud.Base.{
  Bool, Eq, List, Map, Option, Rank, [], contains, delete, if◌then◌else◌, insert, int_eq, leb,
  length, lookup, min, nat_eq, none, not, or_zero, some, sort, suc, true, zero, ℕ, ℕ_discrete, ◌!=◌,
  ◌%◌, ◌&&◌, ◌+◌, ◌-◌, ◌==◌, ◌^◌, ◌∷◌,
}
use minicloud.Text.Order.{compare_str}
use minicloud.Problem.{
  Error, Result, classified, err, invalid, no_ready_replica, ok, plain, require, ◌then_check◌,
}
use minicloud.Digest.{is_digest}

pub record TargetKey : Type 0 where
  pub function_id : Str
  pub version_id : Str
  pub generation : ℕ

unfoldable pub TargetKey-discrete : Discrete TargetKey
unfolding Str-discrete
TargetKey-discrete = hlevel (Str-discrete, ℕ_discrete)

instance abbrev pub target_key_eq : Eq TargetKey
target_key_eq = record { dec = TargetKey-discrete }

pub record Balancer : Type 0 where
  pub in_flight : Map AssignmentIdentity ℕ
  pub round_robin : Map TargetKey ℕ

-- `releaseState`: the Endpoint held, and whether its `sync.Once` has run.
pub record ReleaseState : Type 0 where
  pub identity : AssignmentIdentity
  pub done : Bool

abbrev pub new_balancer : Balancer
new_balancer = record { in_flight = []; round_robin = [] }

abbrev pub count_in_flight : Balancer → AssignmentIdentity → ℕ
count_in_flight b a = or_zero (lookup a b.in_flight)

unfoldable pub validate_target : RouteTarget → Option Error
validate_target t =
    require (identifier_pattern t.version_id)
      (invalid "route_target.version_id" "must be a valid identifier")
    then_check require
        (t.admission_epoch != 0
          && t.deployment_generation != 0
          && t.weight_basis_points != 0
          && leb t.weight_basis_points total_weight)
        (invalid "route_target" "contains an invalid epoch, generation, or weight")
    then_check require (is_digest t.effective_policy_digest)
        (invalid "route_target.effective_policy_digest" "must be a lowercase SHA-256 digest")

-- The Endpoint serves exactly this target.
unfoldable pub serves : RouteTarget → Endpoint → Bool
serves t e =
    e.state == endpoint_ready
    && e.assignment.mode == normal
    && e.assignment.version_id == t.version_id
    && e.assignment.admission_epoch == t.admission_epoch
    && e.assignment.deployment_generation == t.deployment_generation
    && e.assignment.policy_digest == t.effective_policy_digest

-- The loop over the Endpoints; `seen` holds the Assignment IDs of the eligible ones.
unfoldable pub eligible_endpoints :
    Net → RouteTarget → List Str → List Endpoint → Result (List Endpoint)
unfolding serves
eligible_endpoints n t seen [] = ok []
eligible_endpoints n t seen (e ∷ es) = elim (validate_endpoint n e) [
  | some failed ↦ err failed
  | none ↦
      let skipped = eligible_endpoints n t seen es in
      let rest = eligible_endpoints n t (e.assignment.assignment_id ∷ seen) es in
      if not (serves t e)
      then skipped
      else if contains e.assignment.assignment_id seen
      then err (invalid "endpoints" "contains a duplicate Assignment ID")
      else elim rest [ err failed ↦ err failed | ok others ↦ ok (e ∷ others) ]
]

unfoldable pub compare_endpoints : Endpoint → Endpoint → Rank
unfolding compare_str
compare_endpoints a b = compare_str a.assignment.assignment_id b.assignment.assignment_id

unfoldable pub least_in_flight : Balancer → ℕ → List Endpoint → ℕ
least_in_flight b least [] = least
least_in_flight b least (e ∷ es) = least_in_flight b (min least (count_in_flight b e.assignment)) es

unfoldable pub tied_endpoints : Balancer → ℕ → List Endpoint → List Endpoint
tied_endpoints b least [] = []
tied_endpoints b least (e ∷ es) =
    let rest = tied_endpoints b least es in
    if count_in_flight b e.assignment == least then e ∷ rest else rest

-- Indexing; `none` is Go's panic.
abbrev pub get_elem? : List Endpoint → ℕ → Option Endpoint
get_elem? [] n = none
get_elem? (e ∷ es) zero = some e
get_elem? (e ∷ es) (suc n) = get_elem? es n

-- The two writes for the chosen Endpoint.
unfoldable pub take_endpoint : Balancer → TargetKey → Endpoint → Balancer
take_endpoint b key e = record {
  in_flight = insert e.assignment ((count_in_flight b e.assignment + 1) % 2 ^ 64) b.in_flight;
  round_robin = insert key ((or_zero (lookup key b.round_robin) + 1) % 2 ^ 64) b.round_robin;
}

-- The section under the mutex, for sorted eligible Endpoints.
unfoldable pub choose_endpoint : Balancer → TargetKey → List Endpoint → Balancer × Result Endpoint
unfolding least_in_flight tied_endpoints take_endpoint
choose_endpoint b key [] =
    (b, err (classified no_ready_replica "selected Route target has no ready Endpoint"))
choose_endpoint b key (e ∷ es) =
    let tied = tied_endpoints b (least_in_flight b (count_in_flight b e.assignment) es) (e ∷ es) in
    elim (get_elem? tied (or_zero (lookup key b.round_robin) % length tied)) [
      | none ↦ (b, err (plain "index out of range"))
      | some chosen ↦ (take_endpoint b key chosen, ok chosen)
    ]

unfoldable pub acquire :
    Net → Balancer → Str → RouteTarget → List Endpoint → Balancer × Result Endpoint
unfolding validate_target eligible_endpoints choose_endpoint compare_endpoints
acquire n b function_id t endpoints =
    if not (identifier_pattern function_id)
    then (b, err (invalid "function_id" "must be a valid identifier"))
    else elim (validate_target t) [
      | some e ↦ (b, err e)
      | none ↦ elim (eligible_endpoints n t [] endpoints) [
        | err e ↦ (b, err e)
        | ok eligible ↦
            choose_endpoint b
              (record {
                function_id = function_id;
                version_id = t.version_id;
                generation = t.deployment_generation;
              })
              (sort compare_endpoints eligible)
      ]
    ]

-- The function under `sync.Once`.
unfoldable pub give_back : Balancer → AssignmentIdentity → Balancer
give_back b a = record b {
  in_flight =
      if leb (count_in_flight b a) 1
      then delete a b.in_flight
      else insert a (count_in_flight b a - 1) b.in_flight;
}

unfoldable pub release : Balancer → ReleaseState → Balancer × ReleaseState
unfolding give_back
release b l = if l.done then (b, l) else (give_back b l.identity, record l { done = true })
