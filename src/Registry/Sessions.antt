-- ===== src/Registry/Sessions.antt =====
-- What the lifecycle gives: consistent records, sessions that only grow, and removal for good.
use minicloud.Text.{Str, str_eq}
use minicloud.Problem.{ok}
use minicloud.Base.{
  List, Option, [], arith, false, int_eq, lookup, nat_eq, none, refl, some, subst, true, ℤ, ◌<◌,
  ◌^◌, ◌∷◌, ◌≡◌, ◌≢◌, ◌≤◌, ◌⊎◌,
}
use minicloud.ServingAuth.{WorkerSession, connection_eq, fence_eq, identity_eq, mode_eq, session_eq}
use minicloud.Scheduler.{drain_eq, intent_eq, ready, removed, state_eq, suspect}
use minicloud.Registry.{Config, Registration, Registry, WorkerRecord, new_registry}
use minicloud.Registry.Methods.{heartbeat, joining_record, register}
use minicloud.Registry.Control.{Call, run, step}
use minicloud.Registry.Lifecycle.{
  Change, Evolved, activate, assess, beat_on, commit, enrol, keep, lose, observe_drain, report,
  retire, revive, start_drain, with_session,
}
use minicloud.Registry.Steps.{step-Evolves}

-- A registered Worker is not removed and owns the last committed session; a Worker that counts as
-- ready or suspect is registered, has reported, and owes no new session.
pub record IsConsistent (w : WorkerRecord) : Type 0 where
  pub bounded : w.max_session_epoch < 2 ^ 64
  pub not_removed : w.registered ≡ true → w.intent ≢ removed
  pub own_epoch : w.registered ≡ true → w.current.session_epoch ≡ w.max_session_epoch
  pub own_boot : w.registered ≡ true → w.current.boot_id ≡ w.boot_id
  pub live_registered : (w.state ≡ ready) ⊎ (w.state ≡ suspect) → w.registered ≡ true
  pub live_reported : (w.state ≡ ready) ⊎ (w.state ≡ suspect) → w.has_inventory ≡ true
  pub live_current : (w.state ≡ ready) ⊎ (w.state ≡ suspect) → w.needs_new_session ≡ false

born-IsConsistent :
    (s : WorkerSession)
    → s.session_epoch ≡ 1
    → IsConsistent (with_session (joining_record s.worker_id) s)
unfolding joining_record
born-IsConsistent s first = ground arith

Change-IsConsistent : {v w : WorkerRecord} → Change v w → IsConsistent v → IsConsistent w
Change-IsConsistent keep c = c
Change-IsConsistent (lose registered here) c = ground arith
Change-IsConsistent (commit s here next positive) c = ground arith
Change-IsConsistent (enrol s now here epoch boot current fresh) c = ground arith
Change-IsConsistent (report i now active own current valid) c = ground arith
Change-IsConsistent (beat_on now active current) c = ground arith
Change-IsConsistent (revive now active current seen) c = ground arith
Change-IsConsistent (assess r elapsed active current seen) c = ground arith
Change-IsConsistent (start_drain here) c = ground arith
Change-IsConsistent (activate here) c = ground arith
Change-IsConsistent (retire d g) c = ground arith
Change-IsConsistent (observe_drain o active d) c = ground arith

-- The sessions of a Worker only grow, and its removal is for good.
pub record Later (v w : WorkerRecord) : Type 0 where
  pub epoch : v.max_session_epoch ≤ w.max_session_epoch
  pub stays_removed : v.intent ≡ removed → w.intent ≡ removed

Change-Later : {v w : WorkerRecord} → Change v w → IsConsistent v → Later v w
Change-Later keep c = ground arith
Change-Later (lose registered here) c = ground arith
Change-Later (commit s here next positive) c = ground arith
Change-Later (enrol s now here epoch boot current fresh) c = ground arith
Change-Later (report i now active own current valid) c = ground arith
Change-Later (beat_on now active current) c = ground arith
Change-Later (revive now active current seen) c = ground arith
Change-Later (assess r elapsed active current seen) c = ground arith
Change-Later (start_drain here) c = ground arith
Change-Later (activate here) c = ground arith
Change-Later (retire d g) c = ground arith
Change-Later (observe_drain o active d) c = ground arith

abbrev pub AllConsistent : Registry → Type 0
AllConsistent r = (id : Str) (w : WorkerRecord) → lookup id r.workers ≡ some w → IsConsistent w

Evolved-IsConsistent :
    (o : Option WorkerRecord) (w : WorkerRecord)
    → ((v : WorkerRecord) → o ≡ some v → IsConsistent v)
    → Evolved o (some w)
    → IsConsistent w
Evolved-IsConsistent none w c (s, first, e) = rw e (born-IsConsistent s first)
Evolved-IsConsistent (some v) w c e = Change-IsConsistent e (c v refl)

step-AllConsistent : (r : Registry) (c : Call) → AllConsistent r → AllConsistent (step r c)
step-AllConsistent r c consistent id w e =
    Evolved-IsConsistent (lookup id r.workers) w (consistent id)
      (subst (Evolved (lookup id r.workers)) e (step-Evolves r c id))

pub run-AllConsistent : (r : Registry) (cs : List Call) → AllConsistent r → AllConsistent (run r cs)
unfolding run
run-AllConsistent r [] a = a
run-AllConsistent r (c ∷ cs) a = run-AllConsistent (step r c) cs (step-AllConsistent r c a)

-- After any history of a new Registry each record is consistent: a registered Worker is not removed
-- and has the last committed epoch and boot ID, and a Ready or Suspect one is registered, has reported
-- its inventory and owes no new session.
pub run-new_registry-IsConsistent :
    (c : Config) (elapsed : ℤ) (r : Registry) (cs : List Call) (id : Str) (w : WorkerRecord)
    → new_registry c elapsed ≡ ok r
    → lookup id (run r cs).workers ≡ some w
    → IsConsistent w
unfolding new_registry lookup
run-new_registry-IsConsistent c elapsed r cs id w e found =
    run-AllConsistent r cs (λ k v h. absurd (ground arith)) id w found

Evolved-Later :
    (v : WorkerRecord) (o : Option WorkerRecord)
    → IsConsistent v
    → Evolved (some v) o
    → (w : WorkerRecord) × (o ≡ some w) × Later v w
Evolved-Later v none c e = absurd e
Evolved-Later v (some w) c e = (w, refl, Change-Later e c)

-- Along any history the record of a Worker stays, its sessions only grow and its removal holds.
pub run-Later :
    (r : Registry) (cs : List Call) (id : Str) (v : WorkerRecord)
    → AllConsistent r
    → lookup id r.workers ≡ some v
    → (w : WorkerRecord) × (lookup id (run r cs).workers ≡ some w) × Later v w
unfolding run
run-Later r [] id v a found = (v, found, ground arith)
run-Later r (c ∷ cs) id v a found =
    let (u, found', first) =
      Evolved-Later v (lookup id (step r c).workers) (a id v found)
        (subst (λ o. Evolved o (lookup id (step r c).workers)) found (step-Evolves r c id)) in
    let (w, found'', rest) = run-Later (step r c) cs id u (step-AllConsistent r c a) found' in
    (w, found'', ground arith)

register_epoch :
    (r : Registry) (g : Registration) (now : ℤ) (w : WorkerRecord)
    → lookup g.session.worker_id r.workers ≡ some w
    → (register r g now).1 ≡ none
    → (g.session.session_epoch ≡ w.max_session_epoch) × (w.intent ≢ removed)
unfolding register
register_epoch r g now w found h = ground arith

heartbeat_session :
    (r : Registry) (s : WorkerSession) (now : ℤ) (w : WorkerRecord)
    → lookup s.worker_id r.workers ≡ some w
    → (heartbeat r s now).1 ≡ none
    → (w.registered ≡ true) × (w.current ≡ s)
unfolding heartbeat
heartbeat_session r s now w found h = ground arith

-- In a Registry with consistent records, a session that a later commitment replaced is fenced off for
-- good: whatever happens then, a session of the same Worker with an epoch below the last committed one
-- can neither register nor send a heartbeat.
pub superseded_session :
    (r : Registry) (v : WorkerRecord) (cs : List Call) (old : WorkerSession) (now : ℤ)
    → AllConsistent r
    → lookup old.worker_id r.workers ≡ some v
    → old.session_epoch < v.max_session_epoch
    → ((register (run r cs) (record { session = old }) now).1 ≢ none)
      × ((heartbeat (run r cs) old now).1 ≢ none)
superseded_session r v cs old now a found older =
    let (w, found', later) = run-Later r cs old.worker_id v a found in
    let c = run-AllConsistent r cs a old.worker_id w found' in
    (
      λ h. absurd (
          omega (
            arith,
            register_epoch (run r cs) (record { session = old }) now w found' h,
            later.epoch,
          )),
      λ h.
          let (active, own) = heartbeat_session (run r cs) old now w found' h in
          absurd (ground (arith, c.own_epoch active, own, later.epoch)),
    )

-- In a Registry with consistent records, a removed Worker stays removed and can never register again.
pub removed_forever :
    (r : Registry) (v : WorkerRecord) (cs : List Call) (s : WorkerSession) (now : ℤ)
    → AllConsistent r
    → lookup s.worker_id r.workers ≡ some v
    → v.intent ≡ removed
    → ((w : WorkerRecord) × (lookup s.worker_id (run r cs).workers ≡ some w) × (w.intent ≡ removed))
      × ((register (run r cs) (record { session = s }) now).1 ≢ none)
removed_forever r v cs s now a found gone =
    let (w, found', later) = run-Later r cs s.worker_id v a found in
    (
      (w, found', later.stays_removed gone),
      λ h.
          let (_, here) = register_epoch (run r cs) (record { session = s }) now w found' h in
          here (later.stays_removed gone),
    )
