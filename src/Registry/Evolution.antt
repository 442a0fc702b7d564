-- ===== src/Registry/Evolution.antt =====
-- The methods that Workers call take each Worker record through its life.
use minicloud.Text.{str_eq}
use minicloud.Problem.{Error}
use minicloud.Base.{
  Option-cases, arith, false, inl, inr, insert, int_eq, lookup, nat_eq, none, some, true, ℤ, ◌≡◌,
  ◌≢◌, ◌⊎◌,
}
use minicloud.ServingAuth.{WorkerSession, connection_eq, fence_eq, identity_eq, mode_eq, session_eq}
use minicloud.Scheduler.{drain_eq, intent_eq, joining, ready, state_eq}
use minicloud.Scheduler.Validate.{validate_worker}
use minicloud.Registry.{Inventory, Registration, Registry, WorkerRecord, is_removed}
use minicloud.Registry.Methods.{heartbeat, observation, register, report_inventory}
use minicloud.Registry.Lifecycle.{
  Evolves, Unchanged, Unchanged-Evolves, beat_on, enrol, report, revive, written,
}

module _ (r : Registry) (s : WorkerSession) (now : ℤ) where
  heartbeat_failed :
      {e : Error} → (heartbeat r s now).1 ≡ some e → Unchanged r (heartbeat r s now).0.workers
  unfolding heartbeat
  heartbeat_failed h = ground arith

  heartbeat_wrote :
      (w : WorkerRecord)
      → lookup s.worker_id r.workers ≡ some w
      → (heartbeat r s now).1 ≡ none
      → (w.registered ≡ true)
        × (w.needs_new_session ≡ false)
        × (((heartbeat r s now).0.workers
              ≡ insert s.worker_id (record w { last_heartbeat = now }) r.workers)
            ⊎ ((w.has_inventory ≡ true)
                × ((heartbeat r s now).0.workers
                    ≡ insert s.worker_id
                        (record w { last_heartbeat = now; state = ready })
                        r.workers)))
  unfolding heartbeat
  heartbeat_wrote w found h = ground arith

  heartbeat_missing : lookup s.worker_id r.workers ≡ none → (heartbeat r s now).1 ≢ none
  unfolding heartbeat
  heartbeat_missing missing = ground arith

  pub heartbeat-Evolves : Evolves r.workers (heartbeat r s now).0.workers
  heartbeat-Evolves = elim (Option-cases (heartbeat r s now).1) [
    | inr (e, h) ↦ Unchanged-Evolves r _ (heartbeat_failed h)
    | inl h ↦ elim (Option-cases (lookup s.worker_id r.workers)) [
      | inl missing ↦ absurd (heartbeat_missing missing h)
      | inr (w, found) ↦
          let (active, current, wrote) = heartbeat_wrote w found h in
          elim wrote [
            | inl e ↦ written r s.worker_id _ found (beat_on now active current) e
            | inr (observed, e) ↦
                written r s.worker_id _ found (revive now active current observed) e
          ]
    ]
  ]

module _ (r : Registry) (g : Registration) (now : ℤ) where
  register_failed :
      {e : Error} → (register r g now).1 ≡ some e → Unchanged r (register r g now).0.workers
  unfolding register
  register_failed h = ground arith

  register_missing : lookup g.session.worker_id r.workers ≡ none → (register r g now).1 ≢ none
  unfolding register
  register_missing missing = ground arith

  register_wrote :
      (w : WorkerRecord)
      → lookup g.session.worker_id r.workers ≡ some w
      → (register r g now).1 ≡ none
      → (is_removed w.intent ≡ false)
        × (g.session.session_epoch ≡ w.max_session_epoch)
        × (g.session.boot_id ≡ w.boot_id)
        × (w.needs_new_session ≡ false)
        × (((register r g now).0.workers ≡ r.workers)
            ⊎ ((w.registered ≡ false)
                × ((register r g now).0.workers
                    ≡ insert g.session.worker_id
                        (record w {
                          current = g.session;
                          registered = true;
                          has_inventory = false;
                          state = joining;
                          last_heartbeat = now;
                        })
                        r.workers)))
  unfolding register
  register_wrote w found h = ground arith

  pub register-Evolves : Evolves r.workers (register r g now).0.workers
  register-Evolves = elim (Option-cases (register r g now).1) [
    | inr (e, h) ↦ Unchanged-Evolves r _ (register_failed h)
    | inl h ↦ elim (Option-cases (lookup g.session.worker_id r.workers)) [
      | inl missing ↦ absurd (register_missing missing h)
      | inr (w, found) ↦
          let (allowed, epoch, boot, current, wrote) = register_wrote w found h in
          elim wrote [
            | inl e ↦ Unchanged-Evolves r _ (inl e)
            | inr (unregistered, e) ↦
                written r g.session.worker_id _ found
                  (enrol g.session now allowed epoch boot current unregistered) e
          ]
    ]
  ]

module _ (r : Registry) (i : Inventory) (now : ℤ) where
  report_failed :
      {e : Error}
      → (report_inventory r i now).1 ≡ some e
      → Unchanged r (report_inventory r i now).0.workers
  unfolding report_inventory
  report_failed h = ground arith

  report_missing : lookup i.session.worker_id r.workers ≡ none → (report_inventory r i now).1 ≢ none
  unfolding report_inventory
  report_missing missing = ground arith

  report_wrote :
      (w : WorkerRecord)
      → lookup i.session.worker_id r.workers ≡ some w
      → (report_inventory r i now).1 ≡ none
      → (w.registered ≡ true)
        × (w.current ≡ i.session)
        × (w.needs_new_session ≡ false)
        × (validate_worker (observation w i) ≡ none)
        × ((report_inventory r i now).0.workers
            ≡ insert i.session.worker_id
                (record w {
                  runtime = i.runtime;
                  capacity = i.capacity;
                  labels = i.labels;
                  cache = i.cache;
                  has_inventory = true;
                  inventory_revision = i.revision;
                  state = ready;
                  last_heartbeat = now;
                })
                r.workers)
  unfolding report_inventory
  report_wrote w found h = ground arith

  pub report-Evolves : Evolves r.workers (report_inventory r i now).0.workers
  report-Evolves = elim (Option-cases (report_inventory r i now).1) [
    | inr (e, h) ↦ Unchanged-Evolves r _ (report_failed h)
    | inl h ↦ elim (Option-cases (lookup i.session.worker_id r.workers)) [
      | inl missing ↦ absurd (report_missing missing h)
      | inr (w, found) ↦
          let (active, own, current, valid, e) = report_wrote w found h in
          written r i.session.worker_id _ found (report i now active own current valid) e
    ]
  ]
