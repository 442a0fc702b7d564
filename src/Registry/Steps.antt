-- ===== src/Registry/Steps.antt =====
-- The methods that the Controller calls take each Worker record through its life, and so every call.
use minicloud.Text.{Str, Str-discrete, str_eq}
use minicloud.Base.{
  Bool-cases, Map, Option, Option-cases, arith, false, if◌then◌else◌, inl, inr, insert, int_eq,
  lookup, lookup-insert, lookup-map_values, map_option, map_values, nat_eq, none, not, refl, some,
  subst, sym, true, ℤ, ◌+◌, ◌-ℤ◌, ◌<◌, ◌||◌, ◌≡◌, ◌≢◌, ◌⊎◌,
}
use minicloud.ServingAuth.{
  connection_eq, fence_eq, identity_eq, mode_eq, session_eq, validate_session,
}
use minicloud.Scheduler.{
  SchedulingIntent, drain_eq, drain_started, drained, draining, intent_eq, intent_valid, joining,
  not_draining, removed, schedulable, state_eq, unavailable,
}
use minicloud.Registry.{DrainObservation, Registration, Registry, WorkerRecord, is_removed, u64}
use minicloud.Registry.Methods.{commit_session, joining_record}
use minicloud.Registry.Control.{
  Call, beats, commits, drains, evaluate, evaluate_record, evaluates, intends, next_drain,
  registers, reports, set_intent, step, update_drain,
}
use minicloud.Registry.Lifecycle.{
  Evolved, Evolved-refl, Evolves, Unchanged, Unchanged-Evolves, activate, assess, commit, keep,
  observe_drain, retire, start_drain, with_session, written,
}
use minicloud.Registry.Evolution.{heartbeat-Evolves, register-Evolves, report-Evolves}

module _ (r : Registry) (g : Registration) where
  commit_born :
      lookup g.session.worker_id r.workers ≡ none
      → ((commit_session r g).0.workers ≡ r.workers)
        ⊎ ((g.session.session_epoch ≡ 1)
            × ((commit_session r g).0.workers
                ≡ insert g.session.worker_id
                    (with_session (joining_record g.session.worker_id) g.session)
                    (insert g.session.worker_id (joining_record g.session.worker_id) r.workers)))
  unfolding commit_session
  commit_born missing = ground arith

  commit_known :
      (w : WorkerRecord)
      → lookup g.session.worker_id r.workers ≡ some w
      → ((commit_session r g).0.workers ≡ r.workers)
        ⊎ ((is_removed w.intent ≡ false)
            × (g.session.session_epoch ≡ u64 (w.max_session_epoch + 1))
            × (validate_session g.session ≡ none)
            × ((commit_session r g).0.workers
                ≡ insert g.session.worker_id (with_session w g.session) r.workers))
  unfolding commit_session
  commit_known w found = ground arith

  valid_epoch : validate_session g.session ≡ none → 0 < g.session.session_epoch
  unfolding validate_session
  valid_epoch h = ground arith

  born-Evolves :
      (v j : WorkerRecord) (k : Str) (m : Map Str WorkerRecord)
      → Evolved (lookup k m) (some v)
      → Evolves m (insert k v (insert k j m))
  born-Evolves v j k m e id =
      rw (lookup-insert k id v (insert k j m), lookup-insert k id j m) (at (Str-discrete k id))
    where
      at :
          (d : Dec (k ≡ id))
          → Evolved (lookup id m) (
              if elim d [ yes _ ↦ true | no _ ↦ false ]
              then some v
              else (if elim d [ yes _ ↦ true | no _ ↦ false ] then some j else lookup id m))
      at (yes p) = subst (λ x. Evolved (lookup x m) (some v)) p e
      at (no p) = Evolved-refl (lookup id m)

  commit-Evolves : Evolves r.workers (commit_session r g).0.workers
  commit-Evolves = elim (Option-cases (lookup g.session.worker_id r.workers)) [
    | inl missing ↦ elim (commit_born missing) [
      | inl e ↦ Unchanged-Evolves r _ (inl e)
      | inr (first, e) ↦ rw e (
          born-Evolves _ _ g.session.worker_id r.workers (
            subst
              (λ o. Evolved o (some (with_session (joining_record g.session.worker_id) g.session)))
              (sym missing) (g.session, first, refl)))
    ]
    | inr (w, found) ↦ elim (commit_known w found) [
      | inl e ↦ Unchanged-Evolves r _ (inl e)
      | inr (allowed, next, valid, e) ↦
          written r g.session.worker_id _ found (commit g.session allowed next (valid_epoch valid))
            e
    ]
  ]

module _ (r : Registry) (now : ℤ) where
  evaluate_effect :
      Unchanged r (evaluate r now).0.workers
      ⊎ ((evaluate r now).0.workers
          ≡ map_values (evaluate_record (record r { last_elapsed = now }) now) r.workers)
  unfolding evaluate
  evaluate_effect = ground arith

  evaluate-Evolves : Evolves r.workers (evaluate r now).0.workers
  unfolding evaluate_record
  evaluate-Evolves = elim evaluate_effect [
    | inl e ↦ Unchanged-Evolves r _ e
    | inr e ↦ rw e (λ id.
        rw (lookup-map_values (evaluate_record (record r { last_elapsed = now }) now) id r.workers)
          (at (lookup id r.workers)))
  ]
    where
      at :
          (o : Option WorkerRecord)
          → Evolved o (map_option (evaluate_record (record r { last_elapsed = now }) now) o)
      at none = tt
      at (some w) =
          elim (Bool-cases (not w.registered || w.needs_new_session || not w.has_inventory)) [
            | inl skipped ↦ rw (skipped, evaluate_record) keep
            | inr judged ↦
                rw (judged, evaluate_record)
                  (assess (record r { last_elapsed = now }) (now -ℤ w.last_heartbeat) (ground arith)
                    (ground arith) (ground arith))
          ]

module _ (r : Registry) (id : Str) (intent : SchedulingIntent) where
  intent_missing : lookup id r.workers ≡ none → (set_intent r id intent).0.workers ≡ r.workers
  unfolding set_intent
  intent_missing missing = ground arith

  intent_known :
      (w : WorkerRecord)
      → lookup id r.workers ≡ some w
      → ((set_intent r id intent).0.workers ≡ r.workers)
        ⊎ (((w.intent ≢ removed)
              × ((set_intent r id intent).0.workers
                  ≡ insert id (record w { intent = draining; drain = drain_started }) r.workers))
            ⊎ (((w.intent ≢ removed)
                  × ((set_intent r id intent).0.workers
                      ≡ insert id
                          (record w {
                            intent = schedulable;
                            drain = not_draining;
                            needs_new_session = true;
                            state = joining;
                          })
                          r.workers))
                ⊎ ((w.intent ≡ draining)
                    × (w.drain ≡ drained)
                    × ((set_intent r id intent).0.workers
                        ≡ insert id
                            (record w { intent = removed; registered = false; state = unavailable })
                            r.workers))))
  unfolding set_intent intent_valid
  intent_known w found = ground arith

  intent-Evolves : Evolves r.workers (set_intent r id intent).0.workers
  intent-Evolves = elim (Option-cases (lookup id r.workers)) [
    | inl missing ↦ Unchanged-Evolves r _ (inl (intent_missing missing))
    | inr (w, found) ↦ elim (intent_known w found) [
      | inl e ↦ Unchanged-Evolves r _ (inl e)
      | inr (inl (here, e)) ↦ written r id _ found (start_drain here) e
      | inr (inr (inl (here, e))) ↦ written r id _ found (activate here) e
      | inr (inr (inr (draining_now, gone, e))) ↦ written r id _ found (retire draining_now gone) e
    ]
  ]

module _ (r : Registry) (o : DrainObservation) where
  drain_missing :
      lookup o.session.worker_id r.workers ≡ none → (update_drain r o).0.workers ≡ r.workers
  unfolding update_drain
  drain_missing missing = ground arith

  drain_known :
      (w : WorkerRecord)
      → lookup o.session.worker_id r.workers ≡ some w
      → ((update_drain r o).0.workers ≡ r.workers)
        ⊎ ((w.registered ≡ true)
            × (w.intent ≡ draining)
            × ((update_drain r o).0.workers
                ≡ insert o.session.worker_id (record w { drain = next_drain o }) r.workers))
  unfolding update_drain
  drain_known w found = ground arith

  drain-Evolves : Evolves r.workers (update_drain r o).0.workers
  drain-Evolves = elim (Option-cases (lookup o.session.worker_id r.workers)) [
    | inl missing ↦ Unchanged-Evolves r _ (inl (drain_missing missing))
    | inr (w, found) ↦ elim (drain_known w found) [
      | inl e ↦ Unchanged-Evolves r _ (inl e)
      | inr (active, draining_now, e) ↦
          written r o.session.worker_id _ found (observe_drain o active draining_now) e
    ]
  ]

-- Every call of the Registry takes the record of each Worker ID through at most one step of the
-- lifecycle; a record is born by the commitment of session one, and none ever vanishes.
pub step-Evolves : (r : Registry) (c : Call) → Evolves r.workers (step r c).workers
unfolding step
step-Evolves r (commits g) = commit-Evolves r g
step-Evolves r (registers g now) = register-Evolves r g now
step-Evolves r (reports i now) = report-Evolves r i now
step-Evolves r (beats s now) = heartbeat-Evolves r s now
step-Evolves r (evaluates now) = evaluate-Evolves r now
step-Evolves r (intends id intent) = intent-Evolves r id intent
step-Evolves r (drains o) = drain-Evolves r o
