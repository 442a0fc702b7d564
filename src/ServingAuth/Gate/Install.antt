-- ===== src/ServingAuth/Gate/Install.antt =====
-- What `Install` leaves behind, and how long it lasts.
use minicloud.ServingAuth.Gate.Authorize.{IsAlive, Permits, authorize_sync_iff}
use minicloud.Text.{str_eq}
use minicloud.Base.{
  arith, lookup, lookup-insert, nat_eq, none, refl, some, subst, true, ℤ, ◌-ℤ◌, ◌<ℤ◌, ◌↔◌, ◌≡◌,
  ◌≤ℤ◌,
}
use minicloud.ServingAuth.{
  Authorization, ControlConnection, connection_eq, fence_eq, identity_eq, mode_eq, normal,
  session_eq, ttl, validate_authorization, validate_fence,
}
use minicloud.ServingAuth.Gate.{AuthorizationRecord, Gate, current_control, current_worker}
use minicloud.ServingAuth.Gate.Methods.{authorize_sync, install, install_guard, store_authorization}

abbrev pub the_record : ControlConnection → Authorization → ℤ → AuthorizationRecord
the_record c a now = record { authorization = a; connection = c; received_at = now }

-- A successful installation: what was checked, and the state that it made.
pub record Installed (g h : Gate) (c : ControlConnection) (a : Authorization) (now : ℤ)
    : Type 0 where
  pub valid : validate_authorization a g.max_ttl ≡ none
  pub from_leader : current_control g c ≡ true
  pub leader_epoch : a.fence.discovery_epoch ≡ c.discovery_epoch
  pub own_session : a.fence.assignment.worker ≡ current_worker g
  pub was_healthy : g.clock_healthy ≡ true
  pub in_order : g.last_elapsed ≤ℤ now
  pub room :
      install_guard g (lookup a.fence.assignment.assignment_id g.assignments) a.fence.assignment
      ≡ none
  pub result : h ≡ store_authorization (record g { last_elapsed = now }) c a now

pub install-Installed :
    (g : Gate) (c : ControlConnection) (a : Authorization) (now : ℤ)
    → (install g c a now).1 ≡ none
    → Installed g (install g c a now).0 c a now
unfolding install
install-Installed g c a now h = record {
  valid = ground arith;
  from_leader = ground arith;
  leader_epoch = ground arith;
  own_session = ground arith;
  was_healthy = ground arith;
  in_order = ground arith;
  room = ground arith;
  result = ground arith;
}

valid-fence :
    (a : Authorization) (m : ℤ) → validate_authorization a m ≡ none → validate_fence a.fence ≡ none
unfolding validate_authorization
valid-fence a m h = ground arith

pub control-epoch :
    (g : Gate) (c : ControlConnection)
    → current_control g c ≡ true
    → (g.control.connected ≡ true)
      × (g.control.connection ≡ c)
      × (c.discovery_epoch ≡ g.highest_discovery_epoch)
unfolding current_control
control-epoch g c h = ground arith

module _ (g h : Gate) (c : ControlConnection) (a : Authorization) (now : ℤ)
    (i : Installed g h c a now) where
  stored : lookup a.fence.assignment.assignment_id h.authorizations ≡ some (the_record c a now)
  unfolding store_authorization
  stored = ground (
    arith,
    i.result,
    lookup-insert a.fence.assignment.assignment_id a.fence.assignment.assignment_id
        (the_record c a now) g.authorizations,
  )

  in_time-Permits :
      (then : ℤ)
      → a.lifetime ≡ ttl
      → a.fence.assignment.mode ≡ normal
      → now ≤ℤ then
      → (then -ℤ now) <ℤ a.ttl
      → Permits h a.fence then
  unfolding store_authorization
  in_time-Permits then is_ttl normal_mode later in_time = record {
    is_normal = normal_mode;
    current_epoch = ground (arith, i.result, control-epoch g c i.from_leader, i.leader_epoch);
    is_healthy = ground (arith, i.result, i.was_healthy);
    later = ground (arith, i.result);
    stored = the_record c a now;
    found = stored;
    same_fence = refl;
    received = later;
    alive = rw is_ttl in_time;
  }

  Permits-in_time : (then : ℤ) → a.lifetime ≡ ttl → Permits h a.fence then → (then -ℤ now) <ℤ a.ttl
  Permits-in_time then is_ttl p = expires p.stored p.alive (ground (arith, stored, p.found))
    where
      expires :
          (r : AuthorizationRecord)
          → IsAlive h r then r.authorization.lifetime
          → r ≡ the_record c a now
          → (then -ℤ now) <ℤ a.ttl
      expires r alive e =
          let alive' : IsAlive h (the_record c a now) then a.lifetime =
            subst (λ x. IsAlive h x then x.authorization.lifetime) e alive in
          subst (λ l. IsAlive h (the_record c a now) then l) is_ttl alive'

-- A TTL permission for normal work that was just installed lets its own fence through at each later
-- reading of the clock until the TTL is over, and not from then on.
pub authorize_sync-install :
    (g : Gate) (c : ControlConnection) (a : Authorization) (now then : ℤ)
    → (install g c a now).1 ≡ none
    → a.lifetime ≡ ttl
    → a.fence.assignment.mode ≡ normal
    → now ≤ℤ then
    → ((authorize_sync (install g c a now).0 a.fence then).1 ≡ none) ↔ ((then -ℤ now) <ℤ a.ttl)
authorize_sync-install g c a now then installed is_ttl normal_mode later =
    let i : Installed g (install g c a now).0 c a now = install-Installed g c a now installed in
    let permits =
      authorize_sync_iff (install g c a now).0 a.fence then (valid-fence a g.max_ttl i.valid) in
    (
      λ passed. Permits-in_time g (install g c a now).0 c a now i then is_ttl (permits.0 passed),
      λ in_time.
          permits.1 (
            in_time-Permits g (install g c a now).0 c a now i then is_ttl normal_mode later
              in_time),
    )
