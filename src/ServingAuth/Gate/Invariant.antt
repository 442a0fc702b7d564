-- ===== src/ServingAuth/Gate/Invariant.antt =====
-- What holds of the gate between two calls.
use minicloud.ServingAuth.Gate.Install.{Installed, control-epoch, install-Installed, the_record}
use minicloud.Text.{Str, str_eq}
use minicloud.Problem.{Error, ok}
use minicloud.Base.{
  is_some, List, Option-cases, [], arith, if◌then◌else◌, inl, inr, insert, length, length-delete-le,
  length-insert, lookup, lookup-delete, lookup-insert, nat_eq, some, ℤ, ◌∷◌, ◌≡◌, ◌≤ℤ◌, ◌≤◌, ◌⊎◌,
}
use minicloud.ServingAuth.{
  AssignmentIdentity, Authorization, ControlConnection, InvocationFence, connection_eq, fence_eq,
  identity_eq, mode_eq, session_eq,
}
use minicloud.ServingAuth.Gate.{
  AuthorizationRecord, Config, Gate, current_worker, elapsed_locked, new,
}
use minicloud.ServingAuth.Gate.Methods.{
  Call, accept_control, accepts, authorize_sync, authorizes, disconnect_control, disconnects,
  install, install_guard, installs, revoke, revokes, run, step, store_authorization,
}

-- A stored permission carries the current fences, and its Assignment is the tracked one.
pub record IsCurrent (g : Gate) (id : Str) (r : AuthorizationRecord) : Type 0 where
  pub same_id : r.authorization.fence.assignment.assignment_id ≡ id
  pub tracked : lookup id g.assignments ≡ some r.authorization.fence.assignment
  pub epoch : r.authorization.fence.discovery_epoch ≡ g.highest_discovery_epoch
  pub received : r.received_at ≤ℤ g.last_elapsed

pub record Inv (g : Gate) : Type 0 where
  pub current :
      (id : Str) (r : AuthorizationRecord) → lookup id g.authorizations ≡ some r → IsCurrent g id r
  pub own_session :
      (id : Str) (a : AssignmentIdentity)
      → lookup id g.assignments ≡ some a
      → (a.assignment_id ≡ id) × (a.worker ≡ current_worker g)
  pub within : length g.assignments ≤ g.max_authorizations

new-Inv : (c : Config) (elapsed : ℤ) (g : Gate) → new c elapsed ≡ ok g → Inv g
unfolding new lookup
new-Inv c elapsed g e = record {
  current = λ id r h. ground arith;
  own_session = λ id a h. ground arith;
  within = ground arith;
}

accept-Inv : (g : Gate) (c : ControlConnection) → Inv g → Inv (accept_control g c).0
unfolding accept_control lookup current_worker
accept-Inv g c v = record {
  current = λ id r h. ground (arith, v.current id r);
  own_session = λ id a h. ground (arith, v.own_session id a);
  within = ground (arith, v.within);
}

disconnect-Inv : (g : Gate) (c : ControlConnection) → Inv g → Inv (disconnect_control g c)
unfolding disconnect_control current_worker
disconnect-Inv g c v = record {
  current = λ id r h. ground (arith, v.current id r);
  own_session = λ id a h. ground (arith, v.own_session id a);
  within = ground (arith, v.within);
}

revoke-Inv : (g : Gate) (id : Str) → Inv g → Inv (revoke g id)
unfolding revoke current_worker
revoke-Inv g k v = record {
  current = λ id r h. ground (
    arith,
    v.current id r,
    lookup-delete k id g.authorizations,
    lookup-delete k id g.assignments,
  );
  own_session = λ id a h. ground (arith, v.own_session id a, lookup-delete k id g.assignments);
  within = ground (arith, v.within, length-delete-le k g.assignments);
}

elapsed-Inv : (g : Gate) (now : ℤ) → Inv g → Inv (elapsed_locked g now).0
unfolding elapsed_locked current_worker
elapsed-Inv g now v = record {
  current = λ id r h. ground (arith, v.current id r);
  own_session = λ id a h. ground (arith, v.own_session id a);
  within = ground (arith, v.within);
}

authorize-Inv : (g : Gate) (f : InvocationFence) (now : ℤ) → Inv g → Inv (authorize_sync g f now).0
unfolding authorize_sync current_worker
authorize-Inv g f now v = record {
  current = λ id r h.
      ground (arith, v.current id r, lookup-delete f.assignment.assignment_id id g.authorizations);
  own_session = λ id a h. ground (arith, v.own_session id a);
  within = ground (arith, v.within);
}

-- A refused installation changes at most what reading the clock does.
pub install_refused :
    (g : Gate) (c : ControlConnection) (a : Authorization) (now : ℤ) {e : Error}
    → (install g c a now).1 ≡ some e
    → ((install g c a now).0 ≡ g) ⊎ ((install g c a now).0 ≡ (elapsed_locked g now).0)
unfolding install
install_refused g c a now h = ground arith

module _ (g h : Gate) (c : ControlConnection) (a : Authorization) (now : ℤ)
    (i : Installed g h c a now) where
  room_left : length (insert a.fence.assignment.assignment_id a.fence.assignment g.assignments) ≤ (
      if is_some (lookup a.fence.assignment.assignment_id g.assignments)
      then length g.assignments
      else g.max_authorizations)
  unfolding install_guard
  room_left = ground (
    arith,
    i.room,
    length-insert a.fence.assignment.assignment_id a.fence.assignment g.assignments,
  )

  stored-Inv : Inv g → Inv h
  unfolding store_authorization current_worker
  stored-Inv v = rw i.result (record {
    current = λ id r e. ground (
      arith,
      v.current id r,
      i.own_session,
      i.leader_epoch,
      control-epoch g c i.from_leader,
      lookup-insert a.fence.assignment.assignment_id id a.fence.assignment g.assignments,
      lookup-insert a.fence.assignment.assignment_id id (the_record c a now) g.authorizations,
    );
    own_session = λ id b e. ground (
      arith,
      v.own_session id b,
      i.own_session,
      lookup-insert a.fence.assignment.assignment_id id a.fence.assignment g.assignments,
    );
    within = ground (arith, v.within, room_left);
  })

install-Inv :
    (g : Gate) (c : ControlConnection) (a : Authorization) (now : ℤ)
    → Inv g
    → Inv (install g c a now).0
install-Inv g c a now v = elim (Option-cases (install g c a now).1) [
  | inl e ↦ stored-Inv g (install g c a now).0 c a now (install-Installed g c a now e) v
  | inr (e, h) ↦ elim (install_refused g c a now h) [
    | inl same ↦ rw same v
    | inr read ↦ rw read (elapsed-Inv g now v)
  ]
]

-- Every call keeps it.
pub step-Inv : (g : Gate) (c : Call) → Inv g → Inv (step g c)
unfolding step
step-Inv g (accepts c) v = accept-Inv g c v
step-Inv g (disconnects c) v = disconnect-Inv g c v
step-Inv g (installs c a now) v = install-Inv g c a now v
step-Inv g (authorizes f now) v = authorize-Inv g f now v
step-Inv g (revokes id) v = revoke-Inv g id v

run-Inv : (g : Gate) (cs : List Call) → Inv g → Inv (run g cs)
unfolding run
run-Inv g [] v = v
run-Inv g (c ∷ cs) v = run-Inv (step g c) cs (step-Inv g c v)

-- After any history of a new gate, every stored permission carries the current Leader and session
-- fences and is for the tracked Assignment of its ID, and the capacity is kept.
pub run-new-Inv :
    (c : Config) (elapsed : ℤ) (g : Gate) (cs : List Call) → new c elapsed ≡ ok g → Inv (run g cs)
run-new-Inv c elapsed g cs e = run-Inv g cs (new-Inv c elapsed g e)
