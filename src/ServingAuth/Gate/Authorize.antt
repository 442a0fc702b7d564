-- ===== src/ServingAuth/Gate/Authorize.antt =====
-- When `AuthorizeSync` lets an invocation through.
use minicloud.ServingAuth.Gate.Methods.{
  Call, accept_control, accepts, authorize_sync, authorizes, disconnect_control, disconnects,
  install, installs, revoke, revokes, run, step,
}
use minicloud.Base.{
  List, Option-cases, [], arith, false, inl, inr, lookup, nat_eq, none, refl, some, subst, true, ℤ,
  ◌-ℤ◌, ◌<ℤ◌, ◌↔◌, ◌∷◌, ◌≡◌, ◌≢◌, ◌≤ℤ◌,
}
use minicloud.Text.{str_eq}
use minicloud.ServingAuth.{
  Authorization, ControlConnection, InvocationFence, Lifetime, connection_eq, fence_eq, identity_eq,
  live_only, mode_eq, normal, session_eq, ttl, unknown_lifetime, validate_fence,
}
use minicloud.ServingAuth.Gate.{AuthorizationRecord, Gate, elapsed_locked, lifetime_valid}

-- A permission that has not run out: a live-only one needs its connection, any other its time.
abbrev pub IsAlive : Gate → AuthorizationRecord → ℤ → Lifetime → Type 0
IsAlive g r now live_only =
    (g.control.connected ≡ true)
    × (g.control.connection ≡ r.connection)
    × (r.connection.discovery_epoch ≡ g.highest_discovery_epoch)
IsAlive g r now _ = (now -ℤ r.received_at) <ℤ r.authorization.ttl

-- What the gate must hold to let the fence through at `now`.
pub record Permits (g : Gate) (f : InvocationFence) (now : ℤ) : Type 0 where
  pub is_normal : f.assignment.mode ≡ normal
  pub current_epoch : f.discovery_epoch ≡ g.highest_discovery_epoch
  pub is_healthy : g.clock_healthy ≡ true
  pub later : g.last_elapsed ≤ℤ now
  pub stored : AuthorizationRecord
  pub found : lookup f.assignment.assignment_id g.authorizations ≡ some stored
  pub same_fence : stored.authorization.fence ≡ f
  pub received : stored.received_at ≤ℤ now
  pub alive : IsAlive g stored now stored.authorization.lifetime

IsAlive-valid :
    (g : Gate) (r : AuthorizationRecord) (now : ℤ) (l : Lifetime)
    → IsAlive g r now l
    → lifetime_valid g r now l ≡ true
unfolding lifetime_valid
IsAlive-valid g r now ttl h = ground arith
IsAlive-valid g r now live_only h = ground arith
IsAlive-valid g r now (unknown_lifetime s) h = ground arith

valid-IsAlive :
    (g : Gate) (r : AuthorizationRecord) (now : ℤ) (l : Lifetime)
    → lifetime_valid g r now l ≡ true
    → IsAlive g r now l
unfolding lifetime_valid
valid-IsAlive g r now ttl h = ground arith
valid-IsAlive g r now live_only h = ground arith
valid-IsAlive g r now (unknown_lifetime s) h = ground arith

same-lifetime :
    (g h : Gate) (r : AuthorizationRecord) (now : ℤ) (l : Lifetime)
    → g.control ≡ h.control
    → g.highest_discovery_epoch ≡ h.highest_discovery_epoch
    → lifetime_valid g r now l ≡ lifetime_valid h r now l
unfolding lifetime_valid
same-lifetime g h r now ttl p q = refl
same-lifetime g h r now live_only p q = ground arith
same-lifetime g h r now (unknown_lifetime s) p q = refl

-- A valid fence is let through exactly when the gate permits it.
pub authorize_sync-Permits :
    (g : Gate) (f : InvocationFence) (now : ℤ)
    → validate_fence f ≡ none
    → (authorize_sync g f now).1 ≡ none
    → Permits g f now
unfolding authorize_sync
authorize_sync-Permits g f now valid passed =
    elim (Option-cases (lookup f.assignment.assignment_id g.authorizations)) [
      | inl missing ↦ ground arith
      | inr (r, found) ↦ record {
        is_normal = ground arith;
        current_epoch = ground arith;
        is_healthy = ground arith;
        later = ground arith;
        stored = r;
        found = found;
        same_fence = ground arith;
        received = ground arith;
        alive = valid-IsAlive g r now r.authorization.lifetime (
            ground
              (arith, same-lifetime (elapsed_locked g now).0 g r now r.authorization.lifetime));
      }
    ]

pub Permits-authorize_sync :
    (g : Gate) (f : InvocationFence) (now : ℤ)
    → validate_fence f ≡ none
    → Permits g f now
    → (authorize_sync g f now).1 ≡ none
unfolding authorize_sync
Permits-authorize_sync g f now valid p = ground (
  arith,
  IsAlive-valid g p.stored now p.stored.authorization.lifetime p.alive,
  same-lifetime (elapsed_locked g now).0 g p.stored now p.stored.authorization.lifetime,
)

-- `AuthorizeSync` of a valid fence succeeds exactly when the gate permits it.
pub authorize_sync_iff :
    (g : Gate) (f : InvocationFence) (now : ℤ)
    → validate_fence f ≡ none
    → ((authorize_sync g f now).1 ≡ none) ↔ Permits g f now
authorize_sync_iff g f now valid =
    (authorize_sync-Permits g f now valid, Permits-authorize_sync g f now valid)

step-unhealthy : (g : Gate) (c : Call) → g.clock_healthy ≡ false → (step g c).clock_healthy ≡ false
unfolding step
step-unhealthy g (accepts c) h = unfold accept_control in ground arith
step-unhealthy g (disconnects c) h = unfold disconnect_control in ground arith
step-unhealthy g (installs c a now) h = unfold install in ground arith
step-unhealthy g (authorizes f now) h = unfold authorize_sync in ground arith
step-unhealthy g (revokes id) h = unfold revoke in ground arith

run-unhealthy :
    (g : Gate) (cs : List Call) → g.clock_healthy ≡ false → (run g cs).clock_healthy ≡ false
unfolding run
run-unhealthy g [] h = h
run-unhealthy g (c ∷ cs) h = run-unhealthy (step g c) cs (step-unhealthy g c h)

unhealthy_refuses :
    (g : Gate) (f : InvocationFence) (now : ℤ)
    → g.clock_healthy ≡ false
    → (authorize_sync g f now).1 ≢ none
unfolding authorize_sync
unhealthy_refuses g f now h = ground arith

unhealthy_install :
    (g : Gate) (c : ControlConnection) (a : Authorization) (now : ℤ)
    → g.clock_healthy ≡ false
    → (install g c a now).1 ≢ none
unfolding install
unhealthy_install g c a now h = ground arith

backwards_latches :
    (g : Gate) (f : InvocationFence) (later now : ℤ)
    → validate_fence f ≡ none
    → Permits g f later
    → now <ℤ g.last_elapsed
    → ((authorize_sync g f now).1 ≢ none) × ((authorize_sync g f now).0.clock_healthy ≡ false)
unfolding authorize_sync
backwards_latches g f later now valid p back = ground (arith, p.found)

-- A clock that runs backwards closes the gate for good. Where a fence that the gate would permit comes
-- with an earlier reading than the last, it is refused, and after any further history every
-- invocation and every installation is refused.
pub backwards_clock_closes :
    (g : Gate) (f : InvocationFence) (later now : ℤ) (cs : List Call)
    → validate_fence f ≡ none
    → Permits g f later
    → now <ℤ g.last_elapsed
    → let closed = run (authorize_sync g f now).0 cs in
      ((authorize_sync g f now).1 ≢ none)
      × ((f' : InvocationFence) (now' : ℤ) → (authorize_sync closed f' now').1 ≢ none)
      × ((c : ControlConnection) (a : Authorization) (now' : ℤ)
          → (install closed c a now').1 ≢ none)
backwards_clock_closes g f later now cs valid p back =
    let (refused, latched) = backwards_latches g f later now valid p back in
    let closed = run-unhealthy (authorize_sync g f now).0 cs latched in
    (
      refused,
      λ f' now'. unhealthy_refuses _ f' now' closed,
      λ c a now'. unhealthy_install _ c a now' closed,
    )

disconnected :
    (g : Gate) (c : ControlConnection)
    → ((disconnect_control g c).authorizations ≡ g.authorizations)
      × ((disconnect_control g c).control.connected ≡ true → g.control.connection ≢ c)
      × ((disconnect_control g c).control.connection ≡ g.control.connection)
unfolding disconnect_control
disconnected g c = ground arith

live_only_alive :
    (g : Gate) (r : AuthorizationRecord) (now : ℤ)
    → r.authorization.lifetime ≡ live_only
    → IsAlive g r now r.authorization.lifetime
    → (g.control.connected ≡ true) × (g.control.connection ≡ r.connection)
live_only_alive g r now e alive =
    let parts : IsAlive g r now live_only = subst (λ l. IsAlive g r now l) e alive in
    (parts.0, parts.1)

-- A live-only permission ends with its connection: when the connection that it came on is
-- disconnected, its invocation is refused, whatever the clock says.
pub disconnect_ends_live_only :
    (g : Gate) (f : InvocationFence) (r : AuthorizationRecord) (now : ℤ)
    → validate_fence f ≡ none
    → lookup f.assignment.assignment_id g.authorizations ≡ some r
    → r.authorization.lifetime ≡ live_only
    → (authorize_sync (disconnect_control g r.connection) f now).1 ≢ none
disconnect_ends_live_only g f r now valid found live passed =
    let h = disconnect_control g r.connection in
    let p = authorize_sync-Permits h f now valid passed in
    let d = disconnected g r.connection in
    let same : p.stored ≡ r = ground (arith, p.found, d.0) in
    let alive = live_only_alive h p.stored now (ground (arith, same)) p.alive in
    d.1 alive.0 (ground (arith, d.2, alive.1, same))
