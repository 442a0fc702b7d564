-- ===== src/ServingAuth/Gate/Methods.antt =====
-- internal/servingauth/gate.go: the methods of the gate that change its state or consult it.
use minicloud.Base.{
  List, Option, [], delete, false, if◌then◌else◌, insert, is_empty, length, lookup, ltb, nat_eq,
  none, not, some, true, ℤ, ◌!=◌, ◌&&◌, ◌==◌, ◌∷◌,
}
use minicloud.Text.{Str, str_eq}
use minicloud.Problem.{
  Error, classified, overloaded, require, stale_assignment, stale_generation, ◌then_check◌,
}
use minicloud.ServingAuth.{
  AssignmentIdentity, Authorization, ControlConnection, InvocationFence, connection_eq, fence_eq,
  identity_eq, mode_eq, normal, session_eq, validate_authorization, validate_connection,
  validate_fence,
}
use minicloud.ServingAuth.Gate.{
  AuthorizationRecord, Gate, compatible_refresh, current_control, current_worker, elapsed_locked,
  valid_locked,
}

-- A newer Leader clears every permission and drops the connection.
unfoldable pub raise_discovery : Gate → ControlConnection → Gate
raise_discovery g c =
    if ltb g.highest_discovery_epoch c.discovery_epoch
    then record g {
      highest_discovery_epoch = c.discovery_epoch;
      authorizations = [];
      control = record { connection = g.control.connection; connected = false };
    }
    else g

unfoldable pub raise_session : Gate → ControlConnection → Gate × Option Error
raise_session g c =
    if ltb c.session_epoch g.current_session_epoch
    then (g, some (classified stale_assignment "worker session epoch is stale"))
    else if c.session_epoch == g.current_session_epoch
    then (if not (g.control.connected && g.control.connection == c)
        then (
          g,
          some (classified stale_assignment "worker session epoch must increase on reconnect"),
        )
        else (g, none))
    else (
      record g {
        current_session_epoch = c.session_epoch;
        assignments = [];
        authorizations = [];
        control = record { connection = c; connected = true };
      },
      none,
    )

unfoldable pub accept_control : Gate → ControlConnection → Gate × Option Error
unfolding raise_discovery raise_session
accept_control g c = elim (validate_connection c) [
  | some e ↦ (g, some e)
  | none ↦
      if ltb c.discovery_epoch g.highest_discovery_epoch
      then (g, some (classified stale_generation "control discovery epoch is stale"))
      else raise_session (raise_discovery g c) c
]

unfoldable pub check_assignment : Gate → ControlConnection → InvocationFence → Option Error
unfolding current_control current_worker
check_assignment g c f =
    validate_connection c
    then_check validate_fence f
    then_check require (current_control g c && f.discovery_epoch == c.discovery_epoch)
        (classified stale_assignment "authenticated control connection is unavailable")
    then_check require (f.assignment.worker == current_worker g)
        (classified stale_assignment "assignment targets another worker session")

unfoldable pub check_control : Gate → ControlConnection → Option Error
unfolding current_control
check_control g c =
    validate_connection c
    then_check require (current_control g c)
        (classified stale_assignment "authenticated control connection is unavailable")

unfoldable pub disconnect_control : Gate → ControlConnection → Gate
disconnect_control g c =
    if g.control.connection == c
    then record g { control = record { connection = g.control.connection; connected = false } }
    else g

-- The two map writes at the end of `Install`.
unfoldable pub store_authorization : Gate → ControlConnection → Authorization → ℤ → Gate
store_authorization g c a now =
    let identity = a.fence.assignment in
    record g {
      assignments = insert identity.assignment_id identity g.assignments;
      authorizations =
          insert identity.assignment_id
            (record { authorization = a; connection = c; received_at = now }) g.authorizations;
    }

-- What `Install` asks of the Assignment that holds the ID so far.
unfoldable pub install_guard : Gate → Option AssignmentIdentity → AssignmentIdentity → Option Error
unfolding compatible_refresh
install_guard g (some previous) identity = compatible_refresh previous identity
install_guard g none identity =
    require (ltb (length g.assignments) g.max_authorizations)
      (classified overloaded "serving authorization capacity is full")

-- `Install` behind its validation and its clock reading.
unfoldable pub install_at : Gate → ControlConnection → Authorization → ℤ → Gate × Option Error
unfolding store_authorization install_guard
install_at g c a now =
    let identity = a.fence.assignment in
    elim (install_guard g (lookup identity.assignment_id g.assignments) identity) [
      | some e ↦ (g, some e)
      | none ↦ (store_authorization g c a now, none)
    ]

-- The checks of `Install` that come before the clock is read.
unfoldable pub install_checks : Gate → ControlConnection → Authorization → Option Error
unfolding current_control current_worker
install_checks g c a =
    validate_authorization a g.max_ttl
    then_check validate_connection c
    then_check require (current_control g c && a.fence.discovery_epoch == c.discovery_epoch)
        (classified stale_assignment "authenticated control connection is unavailable")
    then_check require (a.fence.assignment.worker == current_worker g)
        (classified stale_assignment "authorization targets another worker session")

unfoldable pub install : Gate → ControlConnection → Authorization → ℤ → Gate × Option Error
unfolding install_checks elapsed_locked install_at
install g c a now = elim (install_checks g c a) [
  | some e ↦ (g, some e)
  | none ↦
      let (read, failed) = elapsed_locked g now in
      elim failed [ some e ↦ (read, some e) | none ↦ install_at read c a now ]
]

-- The stored record under a fence's Assignment ID, if it carries exactly this fence.
unfoldable pub matching : Gate → InvocationFence → Option AuthorizationRecord
matching g f = elim (lookup f.assignment.assignment_id g.authorizations) [
  | none ↦ none
  | some r ↦ if r.authorization.fence != f then none else some r
]

-- `AuthorizeSync` once the record is found.
unfoldable pub authorize_record :
    Gate → InvocationFence → AuthorizationRecord → ℤ → Gate × Option Error
unfolding elapsed_locked valid_locked
authorize_record g f r now =
    let (read, failed) = elapsed_locked g now in
    elim failed [
      | some e ↦ (read, some e)
      | none ↦
          if not (valid_locked read r now)
          then (
            record read { authorizations = delete f.assignment.assignment_id read.authorizations },
            some (classified stale_assignment "serving authorization is no longer valid"),
          )
          else (read, none)
    ]

unfoldable pub authorize_sync : Gate → InvocationFence → ℤ → Gate × Option Error
unfolding authorize_record matching
authorize_sync g f now = elim (validate_fence f) [
  | some e ↦ (g, some e)
  | none ↦
      if ltb f.discovery_epoch g.highest_discovery_epoch
      then (g, some (classified stale_assignment "invocation discovery epoch is stale"))
      else if f.assignment.mode != normal
      then (g, some (classified stale_assignment "assignment does not accept synchronous work"))
      else elim (matching g f) [
        | none ↦ (
          g,
          some
              (classified stale_assignment "invocation fence does not match serving authorization"),
        )
        | some r ↦ authorize_record g f r now
      ]
]

unfoldable pub revoke : Gate → Str → Gate
revoke g assignment_id = if is_empty assignment_id then g else record g {
  assignments = delete assignment_id g.assignments;
  authorizations = delete assignment_id g.authorizations;
}

-- One call on the gate, with the clock's reading where the method takes one.
pub data Call : Type 0 where
  accepts : ControlConnection → Call
  disconnects : ControlConnection → Call
  installs : ControlConnection → Authorization → ℤ → Call
  authorizes : InvocationFence → ℤ → Call
  revokes : Str → Call

unfoldable pub step : Gate → Call → Gate
step g (accepts c) = (accept_control g c).0
step g (disconnects c) = disconnect_control g c
step g (installs c a now) = (install g c a now).0
step g (authorizes f now) = (authorize_sync g f now).0
step g (revokes id) = revoke g id

unfoldable pub run : Gate → List Call → Gate
unfolding step
run g [] = g
run g (c ∷ cs) = run (step g c) cs
