-- ===== src/ControlPlane/Ledger/Once.antt =====
-- internal/controlplane/operation.go: an operation is applied once, and a retry is answered from its record.
use minicloud.Base.{
  List, [], ap, arith, if◌then◌else◌, inl, inr, int_eq, lookup, nat_eq, refl, true, ℤ, ◌∙◌, ◌∷◌,
  ◌≡◌, ◌≢◌,
}
use minicloud.Model.{Time, lifecycle_eq, phase_eq, scaling_mode_eq, version_state_eq}
use minicloud.Text.{str_eq}
use minicloud.Problem.{Result, ok}
use minicloud.ControlPlane.Ledger.{
  Completion, Ledger, OperationKey, Record, clone_outcome, clone_record, new_ledger,
  operation_key_eq, outcome_eq, validate_key,
}
use minicloud.ControlPlane.Ledger.Canonical.{RequestEncoding, request_digest}
use minicloud.ControlPlane.Ledger.Methods.{
  Apply, CompletionResult, complete, completion_applied, completion_credential_not_replayable,
  completion_replay, record_of, replay_record,
}
use minicloud.ControlPlane.Ledger.Invariant.{
  Inv, KeyState, complete-Inv, expired, key_state, recorded, unseen,
}
use minicloud.ControlPlane.Ledger.Steps.{
  AllBefore, Call, Remembers, aged-Remembers, complete_applied, complete_call,
  complete_keeps_config, complete_known, complete_known_refused, complete_recorded, cutoff_before,
  gc-key_state, gc_call, gc_keeps_config, gc_keeps_recorded, memory_end, retention_end, run,
  run-Inv, step, step-Inv,
}

remembered_known :
    (ttl tombstone_ttl : ℤ) (limit : Time) (known : KeyState)
    → Remembers ttl tombstone_ttl known limit
    → known ≢ unseen
remembered_known ttl tombstone_ttl limit unseen h = elim h [ ]
remembered_known ttl tombstone_ttl limit (recorded r) h = λ e. cc
remembered_known ttl tombstone_ttl limit (expired t) h = λ e. cc

-- The Ledger knows the key until the limit.
abbrev KnownUntil : OperationKey → Ledger → Time → Type 0
KnownUntil k l limit = Remembers l.operation_ttl l.tombstone_ttl (key_state l k) limit

module _ {W : Type 0} (enc : RequestEncoding) (k : OperationKey) where
  step_known :
      (limit : Time) (l : Ledger) (w : W) (call : Call W)
      → Inv l
      → cutoff_before limit call ≡ true
      → KnownUntil k l limit
      → KnownUntil k (step enc l w call).0 limit
  unfolding step
  step_known limit l w (complete_call c apply) i early h =
      let (e, f) = complete_keeps_config enc l w c apply in
      rw (e, f, complete_known enc l w c apply k (remembered_known _ _ limit (key_state l k) h)) h
  step_known limit l w (gc_call cutoff) i early h =
      let (e, f) = gc_keeps_config l cutoff in
      elim (gc-key_state l cutoff k i) [
        | inl same_state ↦ rw (e, f, same_state) h
        | inr older ↦
            rw (e, f, older)
              (aged-Remembers l.operation_ttl l.tombstone_ttl cutoff limit (key_state l k) early h)
      ]

  run_known :
      (limit : Time) (l : Ledger) (w : W) (calls : List (Call W))
      → Inv l
      → AllBefore limit calls
      → KnownUntil k l limit
      → KnownUntil k (run enc l w calls).0 limit
  unfolding run
  run_known limit l w [] i early h = h
  run_known limit l w (call ∷ calls) i early h =
      run_known limit (step enc l w call).0 (step enc l w call).1 calls (step-Inv enc l w call i)
        early.1 (step_known limit l w call i early.0 h)

  step_recorded :
      {r : Record} (l : Ledger) (w : W) (call : Call W)
      → Inv l
      → cutoff_before (retention_end l r.completed_at) call ≡ true
      → key_state l k ≡ recorded r
      → key_state (step enc l w call).0 k ≡ recorded r
  unfolding step
  step_recorded l w (complete_call c apply) i early h =
      complete_known enc l w c apply k (rw h (λ e. cc)) ∙ h
  step_recorded l w (gc_call cutoff) i early h = gc_keeps_recorded l cutoff k i early h

  step_keeps_ttl :
      (l : Ledger) (w : W) (call : Call W) → (step enc l w call).0.operation_ttl ≡ l.operation_ttl
  unfolding step
  step_keeps_ttl l w (complete_call c apply) = (complete_keeps_config enc l w c apply).0
  step_keeps_ttl l w (gc_call cutoff) = (gc_keeps_config l cutoff).0

  run_recorded :
      {r : Record} (l : Ledger) (w : W) (calls : List (Call W))
      → Inv l
      → AllBefore (retention_end l r.completed_at) calls
      → key_state l k ≡ recorded r
      → key_state (run enc l w calls).0 k ≡ recorded r
  unfolding run
  run_recorded l w [] i early h = h
  run_recorded {r} l w (call ∷ calls) i early h =
      run_recorded (step enc l w call).0 (step enc l w call).1 calls (step-Inv enc l w call i)
        (rw (step_keeps_ttl l w call) early.1) (step_recorded l w call i early.0 h)

new_ledger-Inv : Inv new_ledger
new_ledger-Inv = record {
  records_keyed = tt;
  tombstones_keyed = tt;
  disjoint = λ k. inl (unfold lookup in refl);
  within = omega arith;
}

abbrev pub replayed : CompletionResult → CompletionResult
replayed res = record {
  disposition =
      if res.retained.outcome.credential_issued
      then completion_credential_not_replayable
      else completion_replay;
  retained = res.retained;
}

module _ {W : Type 0} (enc : RequestEncoding) where
  step_keeps_config :
      (l : Ledger) (w : W) (call : Call W)
      → ((step enc l w call).0.operation_ttl ≡ l.operation_ttl)
        × ((step enc l w call).0.tombstone_ttl ≡ l.tombstone_ttl)
  unfolding step
  step_keeps_config l w (complete_call c apply) = complete_keeps_config enc l w c apply
  step_keeps_config l w (gc_call cutoff) = gc_keeps_config l cutoff

  run_keeps_config :
      (l : Ledger) (w : W) (calls : List (Call W))
      → ((run enc l w calls).0.operation_ttl ≡ l.operation_ttl)
        × ((run enc l w calls).0.tombstone_ttl ≡ l.tombstone_ttl)
  unfolding run
  run_keeps_config l w [] = (refl, refl)
  run_keeps_config l w (call ∷ calls) =
      let (e, f) = step_keeps_config l w call in
      let (g, h) = run_keeps_config (step enc l w call).0 (step enc l w call).1 calls in
      (g ∙ e, h ∙ f)

  module _ (l : Ledger) (w : W) (i : Inv l) (c : Completion) (apply : Apply W)
      (res : CompletionResult) (h : (complete enc l w c apply).2 ≡ ok res)
      (applied : res.disposition ≡ completion_applied) (calls : List (Call W))
      (again : Apply W) where
    abbrev done : Ledger × W × Result CompletionResult
    done = complete enc l w c apply

    abbrev now : Ledger × W
    now = run enc done.0 done.1 calls

    retry_answered :
        AllBefore (retention_end l c.completed_at) calls
        → (retry : Completion) → retry.key ≡ c.key
        → request_digest enc retry.request ≡ request_digest enc c.request
        → complete enc now.0 now.1 retry again ≡ (now.0, now.1, ok (replayed res))
    unfolding replay_record record_of clone_record
    retry_answered early retry same_key same_digest =
        let (key, digest, kept, state) = complete_applied enc l w c apply res h applied in
        let (same_ttl, _) = complete_keeps_config enc l w c apply in
        let held =
          run_recorded enc c.key done.0 done.1 calls (complete-Inv enc l w c apply i)
            (rw same_ttl early) state in
        let answer =
          complete_recorded enc now.0 now.1 retry again (ap (key_state now.0) same_key ∙ held)
            (ap validate_key same_key ∙ key) (same_digest ∙ digest) in
        ground (arith, answer, kept)

    never_again :
        AllBefore (memory_end l c.completed_at) calls
        → (repeated : Completion) → repeated.key ≡ c.key
        → ((complete enc now.0 now.1 repeated again).0 ≡ now.0)
          × ((complete enc now.0 now.1 repeated again).1 ≡ now.1)
    unfolding record_of
    never_again early repeated same_key =
        let (_, _, _, state) = complete_applied enc l w c apply res h applied in
        let (same_ttl, same_tombstone_ttl) = complete_keeps_config enc l w c apply in
        let known =
          run_known enc c.key (memory_end l c.completed_at) done.0 done.1 calls
            (complete-Inv enc l w c apply i) early
            (rw (state, same_ttl, same_tombstone_ttl) (omega arith)) in
        complete_known_refused enc now.0 now.1 repeated again
          (rw same_key (remembered_known _ _ (memory_end l c.completed_at) _ known))

module _ {W : Type 0} (enc : RequestEncoding) where
  -- After any history of a new Ledger no operation has both a record and a tombstone, no key stands twice,
  -- and the two maps together hold at most the limit.
  pub run-new_ledger-Inv : (w : W) (calls : List (Call W)) → Inv (run enc new_ledger w calls).0
  run-new_ledger-Inv w calls = run-Inv enc new_ledger w calls new_ledger-Inv

  -- The Ledger after a history, and after one more completion.
  abbrev pub after_history : W → List (Call W) → Ledger × W
  after_history w calls = run enc new_ledger w calls

  abbrev pub completing :
      W → List (Call W) → Completion → Apply W → Ledger × W × Result CompletionResult
  completing w calls c apply = let (l, w') = after_history w calls in complete enc l w' c apply

  module _ (w : W) (history : List (Call W)) (c : Completion) (apply : Apply W)
      (res : CompletionResult) where
    -- An operation that was applied is answered to every later completion of its key whose request has the
    -- same digest, whatever its own outcome, time and index, while every cutoff in between is before the
    -- end of the retention: with the record of the first completion, which has the time, the index and
    -- the sorted outcome of that one, without a callback, and without a change of the Ledger; only the
    -- disposition says that it is a replay, or that its credential cannot be given again.
    pub complete_retry :
        (completing w history c apply).2 ≡ ok res
        → res.disposition ≡ completion_applied
        → (later : List (Call W)) → AllBefore (retention_end new_ledger c.completed_at) later
        → (retry : Completion) → retry.key ≡ c.key
        → request_digest enc retry.request ≡ request_digest enc c.request
        → (again : Apply W)
        → (let (l, w', _) = completing w history c apply in
            let (l₂, w₂) = run enc l w' later in
            (res.retained.completed_at ≡ c.completed_at)
            × (res.retained.applied_index ≡ c.applied_index)
            × (res.retained.outcome ≡ clone_outcome (clone_outcome c.outcome))
            × (complete enc l₂ w₂ retry again ≡ (l₂, w₂, ok (replayed res))))
    unfolding record_of clone_record
    complete_retry h applied later early retry same_key same_digest again =
        let l = (after_history w history).0 in
        let w' = (after_history w history).1 in
        let (_, _, kept, _) = complete_applied enc l w' c apply res h applied in
        (
          ap (λ r. r.completed_at) kept,
          ap (λ r. r.applied_index) kept,
          ap (λ r. r.outcome) kept,
          retry_answered enc l w' (run-Inv enc new_ledger w history new_ledger-Inv) c apply res h
              applied later again (rw (run_keeps_config enc new_ledger w history).0 early) retry
              same_key same_digest,
        )

    -- An operation that was applied is not applied again, with any request or callback, while every
    -- later cutoff is before the end of its retention and of its tombstone's.
    pub complete_applies_once :
        (completing w history c apply).2 ≡ ok res
        → res.disposition ≡ completion_applied
        → (later : List (Call W)) → AllBefore (memory_end new_ledger c.completed_at) later
        → (repeated : Completion) → repeated.key ≡ c.key
        → (again : Apply W)
        → (let (l, w', _) = completing w history c apply in
            let (l₂, w₂) = run enc l w' later in
            let (l₃, w₃, _) = complete enc l₂ w₂ repeated again in (l₃ ≡ l₂) × (w₃ ≡ w₂))
    complete_applies_once h applied later early repeated same_key again =
        never_again enc (after_history w history).0 (after_history w history).1
          (run-Inv enc new_ledger w history new_ledger-Inv) c apply res h applied later again
          (rw
            (
              (run_keeps_config enc new_ledger w history).0,
              (run_keeps_config enc new_ledger w history).1,
            )
            early)
          repeated same_key
