-- ===== src/ControlPlane/Ledger/Steps.antt =====
-- internal/controlplane/operation.go: what one call makes of a key.
use minicloud.Problem.{ok}
use minicloud.Base.{
  +ℤ_parts, Bool, List, Nothing, Option-cases, [], arith, inl, inr, int_eq, lookup-insert, nat_eq,
  none, refl, sym, true, ℤ, ◌+ℤ◌, ◌∙◌, ◌∷◌, ◌≡◌, ◌≢◌, ◌≤ℤ◌, ◌⊎◌,
}
use minicloud.Model.{
  Time, add_duration, is_before, lifecycle_eq, phase_eq, scaling_mode_eq, version_state_eq,
}
use minicloud.Text.{Str, str_eq}
use minicloud.ControlPlane.{validate_utc}
use minicloud.ControlPlane.Ledger.{
  Completion, Ledger, OperationKey, Record, clone_record, operation_key_eq, outcome_eq,
  validate_key,
}
use minicloud.ControlPlane.Ledger.Canonical.{RequestEncoding, request_digest}
use minicloud.ControlPlane.Ledger.Methods.{
  Apply, CompletionResult, collect, complete, complete_new, completion_applied, gc, record_of,
  replay_record, retain_record,
}
use minicloud.ControlPlane.Ledger.Invariant.{
  Inv, KeyState, aged, collect-Inv, complete-Inv, complete-cases, digest_of, expired, key_state,
  key_state-collect, recorded, unseen,
}

-- A call of the Ledger that can change it.
pub data Call (W : Type 0) : Type 0 where
  complete_call : Completion → Apply W → Call W
  gc_call : Time → Call W

pub gc-Inv : (l : Ledger) (cutoff : Time) → Inv l → Inv (gc l cutoff).0
unfolding gc
gc-Inv l cutoff i = elim (Option-cases (validate_utc "cutoff" cutoff)) [
  | inl e ↦ rw (e, gc) (collect-Inv l cutoff i)
  | inr (_, e) ↦ rw (e, gc) i
]

module _ {W : Type 0} (enc : RequestEncoding) where
  unfoldable pub step : Ledger → W → Call W → Ledger × W
  unfolding complete gc
  step l w (complete_call c apply) = let (l', w', _) = complete enc l w c apply in (l', w')
  step l w (gc_call cutoff) = ((gc l cutoff).0, w)

  unfoldable pub run : Ledger → W → List (Call W) → Ledger × W
  unfolding step
  run l w [] = (l, w)
  run l w (call ∷ calls) = let (l', w') = step l w call in run l' w' calls

  pub step-Inv : (l : Ledger) (w : W) (call : Call W) → Inv l → Inv (step l w call).0
  unfolding step
  step-Inv l w (complete_call c apply) i = complete-Inv enc l w c apply i
  step-Inv l w (gc_call cutoff) i = gc-Inv l cutoff i

  pub run-Inv : (l : Ledger) (w : W) (calls : List (Call W)) → Inv l → Inv (run l w calls).0
  unfolding run
  run-Inv l w [] i = i
  run-Inv l w (call ∷ calls) i =
      run-Inv (step l w call).0 (step l w call).1 calls (step-Inv l w call i)

module _ {W : Type 0} where
  -- The instant is before every cutoff of the calls.
  abbrev pub cutoff_before : Time → Call W → Bool
  cutoff_before limit (complete_call _ _) = true
  cutoff_before limit (gc_call cutoff) = is_before cutoff limit

  abbrev pub AllBefore : Time → List (Call W) → Type 0
  AllBefore limit [] = Unit
  AllBefore limit (call ∷ calls) = (cutoff_before limit call ≡ true) × AllBefore limit calls

-- The end of the time in which the Ledger retains the record, and in which it knows the key.
abbrev pub retention_end : Ledger → Time → Time
retention_end l completed_at = add_duration completed_at l.operation_ttl

abbrev pub memory_end : Ledger → Time → Time
memory_end l completed_at = add_duration (retention_end l completed_at) l.tombstone_ttl

-- A collection ages a key, or it does nothing.
pub gc-key_state :
    (l : Ledger) (cutoff : Time) (k : OperationKey)
    → Inv l
    → (key_state (gc l cutoff).0 k ≡ key_state l k)
      ⊎ (key_state (gc l cutoff).0 k ≡ aged l.operation_ttl l.tombstone_ttl cutoff (key_state l k))
unfolding gc
gc-key_state l cutoff k i = elim (Option-cases (validate_utc "cutoff" cutoff)) [
  | inl e ↦ inr (rw (e, gc) (key_state-collect l cutoff k i))
  | inr (_, e) ↦ inl (rw (e, gc) refl)
]

-- The configuration never changes.
pub gc_keeps_config :
    (l : Ledger) (cutoff : Time)
    → ((gc l cutoff).0.operation_ttl ≡ l.operation_ttl)
      × ((gc l cutoff).0.tombstone_ttl ≡ l.tombstone_ttl)
unfolding gc collect
gc_keeps_config l cutoff = ground arith

module _ {W : Type 0} (enc : RequestEncoding) (l : Ledger) (w : W) (c : Completion)
    (apply : Apply W) where
  pub complete_keeps_config :
      ((complete enc l w c apply).0.operation_ttl ≡ l.operation_ttl)
      × ((complete enc l w c apply).0.tombstone_ttl ≡ l.tombstone_ttl)
  unfolding retain_record
  complete_keeps_config = elim (complete-cases enc l w c apply) [
    | inl e ↦ rw e (refl, refl)
    | inr (_, _, _, e) ↦ rw e (refl, refl)
  ]

  -- A completion leaves a known key as it is.
  pub complete_known :
      (k : OperationKey)
      → key_state l k ≢ unseen
      → key_state (complete enc l w c apply).0 k ≡ key_state l k
  unfolding key_state retain_record record_of
  complete_known k seen = elim (complete-cases enc l w c apply) [
    | inl e ↦ rw e refl
    | inr (free, alive, _, e) ↦ elim (operation_key_eq.dec c.key k) [
      | yes p ↦ absurd (seen (rw (sym p, free, alive) refl))
      | no differ ↦ ground (
        arith,
        e,
        lookup-insert c.key k (record_of c (digest_of (request_digest enc c.request))) l.records,
      )
    ]
  ]

  -- A completion of a recorded key is answered from the record.
  pub complete_recorded :
      {r : Record}
      → key_state l c.key ≡ recorded r
      → validate_key c.key ≡ none
      → request_digest enc c.request ≡ ok r.digest
      → complete enc l w c apply ≡ (l, w, replay_record r r.digest)
  unfolding key_state complete
  complete_recorded h key digest = ground arith

  -- A completion of a known key runs no callback and changes nothing.
  pub complete_known_refused :
      key_state l c.key ≢ unseen
      → ((complete enc l w c apply).0 ≡ l) × ((complete enc l w c apply).1 ≡ w)
  unfolding key_state complete
  complete_known_refused seen = ground arith

  abbrev pub applied_digest : Str
  applied_digest = digest_of (request_digest enc c.request)

  -- What an applied completion leaves.
  pub complete_applied :
      (res : CompletionResult)
      → (complete enc l w c apply).2 ≡ ok res
      → res.disposition ≡ completion_applied
      → (validate_key c.key ≡ none)
        × (request_digest enc c.request ≡ ok applied_digest)
        × (res.retained ≡ clone_record (record_of c applied_digest))
        × (key_state (complete enc l w c apply).0 c.key ≡ recorded (record_of c applied_digest))
  unfolding complete complete_new replay_record key_state retain_record record_of clone_record
  complete_applied res h applied =
      ground (arith, lookup-insert c.key c.key (record_of c applied_digest) l.records)

pub gc_keeps_recorded :
    (l : Ledger) (cutoff : Time) (k : OperationKey) {r : Record}
    → Inv l
    → is_before cutoff (retention_end l r.completed_at) ≡ true
    → key_state l k ≡ recorded r
    → key_state (gc l cutoff).0 k ≡ recorded r
unfolding aged
gc_keeps_recorded l cutoff k i early h = elim (gc-key_state l cutoff k i) [
  | inl e ↦ e ∙ h
  | inr e ↦ ground (arith, e)
]

-- What is known of a key is known until the limit.
abbrev pub Remembers : ℤ → ℤ → KeyState → Time → Type 0
Remembers ttl tombstone_ttl unseen limit = Nothing
Remembers ttl tombstone_ttl (recorded r) limit =
    limit.instant ≤ℤ r.completed_at.instant +ℤ ttl +ℤ tombstone_ttl
Remembers ttl tombstone_ttl (expired t) limit =
    limit.instant ≤ℤ t.tombstoned_at.instant +ℤ tombstone_ttl

pub aged-Remembers :
    (ttl tombstone_ttl : ℤ) (cutoff limit : Time) (known : KeyState)
    → is_before cutoff limit ≡ true
    → Remembers ttl tombstone_ttl known limit
    → Remembers ttl tombstone_ttl (aged ttl tombstone_ttl cutoff known) limit
unfolding aged
aged-Remembers ttl tombstone_ttl cutoff limit unseen early h = elim h [ ]
aged-Remembers ttl tombstone_ttl cutoff limit (expired t) early h = ground arith
aged-Remembers ttl tombstone_ttl cutoff limit (recorded r) early h = ground (
  arith,
  +ℤ_parts (r.completed_at.instant +ℤ ttl) tombstone_ttl,
  +ℤ_parts cutoff.instant tombstone_ttl,
)
