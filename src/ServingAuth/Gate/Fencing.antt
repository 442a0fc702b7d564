-- ===== src/ServingAuth/Gate/Fencing.antt =====
-- The epochs of the gate: what a newer Leader or session fences off.
use minicloud.Problem.{classified, stale_generation}
use minicloud.Base.{
  All, List, [], arith, delete, inl, inr, int_eq, lookup, nat_eq, none, some, ℤ, ◌<◌, ◌∷◌, ◌≡◌, ◌≢◌,
  ◌≤◌, ◌⊎◌,
}
use minicloud.Text.{str_eq}
use minicloud.ServingAuth.{
  ControlConnection, InvocationFence, connection_eq, fence_eq, identity_eq, mode_eq, session_eq,
  validate_connection,
}
use minicloud.ServingAuth.Gate.{Gate, elapsed_locked}
use minicloud.ServingAuth.Gate.Methods.{
  Call, accept_control, accepts, authorize_sync, authorizes, disconnect_control, disconnects,
  install, installs, matching, revoke, revokes, run, step,
}

elapsed-epochs :
    (g : Gate) (now : ℤ)
    → ((elapsed_locked g now).0.highest_discovery_epoch ≡ g.highest_discovery_epoch)
      × ((elapsed_locked g now).0.current_session_epoch ≡ g.current_session_epoch)
unfolding elapsed_locked
elapsed-epochs g now = ground arith

-- Neither epoch of the gate ever goes back, whatever call is made.
pub step-epochs :
    (g : Gate) (c : Call)
    → (g.highest_discovery_epoch ≤ (step g c).highest_discovery_epoch)
      × (g.current_session_epoch ≤ (step g c).current_session_epoch)
unfolding step
step-epochs g (accepts c) = unfold accept_control in ground arith
step-epochs g (disconnects c) = unfold disconnect_control in ground arith
step-epochs g (installs c a now) = unfold install in ground (arith, elapsed-epochs g now)
step-epochs g (authorizes f now) = unfold authorize_sync in ground arith
step-epochs g (revokes id) = unfold revoke in ground arith

-- Nor along any history.
pub run-epochs :
    (g : Gate) (cs : List Call)
    → (g.highest_discovery_epoch ≤ (run g cs).highest_discovery_epoch)
      × (g.current_session_epoch ≤ (run g cs).current_session_epoch)
unfolding run
run-epochs g [] = omega arith
run-epochs g (c ∷ cs) = omega (arith, step-epochs g c, run-epochs (step g c) cs)

-- Once a control connection with some discovery epoch was accepted, then, after any further calls,
-- a valid connection with a smaller discovery epoch is refused as a stale generation and changes
-- nothing.
pub stale_leader_refused :
    (g : Gate) (c d : ControlConnection) (cs : List Call)
    → (accept_control g c).1 ≡ none
    → validate_connection d ≡ none
    → d.discovery_epoch < c.discovery_epoch
    → let later = run (accept_control g c).0 cs in
      accept_control later d
      ≡ (later, some (classified stale_generation "control discovery epoch is stale"))
unfolding accept_control
stale_leader_refused g c d cs accepted valid older =
    ground (arith, run-epochs (accept_control g c).0 cs)

-- A call of another method than `Install`.
abbrev pub IsNoInstall : Call → Type 0
IsNoInstall (installs c a now) = ⊥
IsNoInstall _ = Unit {0}

-- What a valid connection of a newer Leader, or an accepted one of a newer session, leaves.
accept-cleared :
    (g : Gate) (c : ControlConnection)
    → validate_connection c ≡ none
    → (g.highest_discovery_epoch < c.discovery_epoch)
      ⊎ (((accept_control g c).1 ≡ none) × (g.current_session_epoch < c.session_epoch))
    → (accept_control g c).0.authorizations ≡ []
unfolding accept_control
accept-cleared g c valid (inl newer) = ground arith
accept-cleared g c valid (inr newer) = ground arith

step_cleared :
    (g : Gate) (c : Call) → IsNoInstall c → g.authorizations ≡ [] → (step g c).authorizations ≡ []
unfolding step
step_cleared g (accepts c) i h = unfold accept_control in ground arith
step_cleared g (disconnects c) i h = unfold disconnect_control in ground arith
step_cleared g (installs c a now) i h = absurd i
step_cleared g (authorizes f now) i h = unfold authorize_sync matching lookup in ground arith
step_cleared g (revokes id) i h = unfold revoke delete in ground arith

run_cleared :
    (g : Gate) (cs : List Call)
    → All IsNoInstall cs
    → g.authorizations ≡ []
    → (run g cs).authorizations ≡ []
unfolding run
run_cleared g [] i h = h
run_cleared g (c ∷ cs) i h = run_cleared (step g c) cs i.1 (step_cleared g c i.0 h)

cleared_refuses :
    (g : Gate) (f : InvocationFence) (now : ℤ)
    → g.authorizations ≡ []
    → ((authorize_sync g f now).0 ≡ g) × ((authorize_sync g f now).1 ≢ none)
unfolding authorize_sync matching lookup
cleared_refuses g f now h = ground arith

-- A valid connection of a newer Leader, or an accepted one of a newer session, leaves no earlier
-- permission: after any further calls but those of `Install`, every invocation is refused, and
-- changes nothing.
pub newer_epoch_fences :
    (g : Gate) (c : ControlConnection) (cs : List Call) (f : InvocationFence) (now : ℤ)
    → validate_connection c ≡ none
    → (g.highest_discovery_epoch < c.discovery_epoch)
      ⊎ (((accept_control g c).1 ≡ none) × (g.current_session_epoch < c.session_epoch))
    → All IsNoInstall cs
    → let later = run (accept_control g c).0 cs in
      ((authorize_sync later f now).0 ≡ later) × ((authorize_sync later f now).1 ≢ none)
newer_epoch_fences g c cs f now valid newer i =
    cleared_refuses (run (accept_control g c).0 cs) f now
      (run_cleared (accept_control g c).0 cs i (accept-cleared g c valid newer))
