-- ===== src/ControlPlane/Ledger/Methods.antt =====
-- internal/controlplane/operation.go: the methods of the Ledger.
use minicloud.Text.{Str, str_eq}
use minicloud.Base.{
  Bool, Map, Option, [], if◌then◌else◌, insert, int_eq, leb, length, lookup, nat_eq, none, some, ℕ,
  ℤ, ◌!=◌, ◌+◌, ◌∷◌,
}
use minicloud.Problem.{
  Error, Result, classified, conflict, err, not_found, ok, operation_expired, overloaded, plain,
}
use minicloud.Model.{
  Time, add_duration, is_before, lifecycle_eq, phase_eq, scaling_mode_eq, version_state_eq,
}
use minicloud.ControlPlane.{validate_utc}
use minicloud.ControlPlane.Ledger.{
  Completion, Ledger, OperationKey, Record, Tombstone, clone_outcome, clone_record,
  operation_key_eq, outcome_eq, validate_for_insert, validate_key,
}
use minicloud.ControlPlane.Ledger.Canonical.{RequestEncoding, request_digest}

pub data CompletionDisposition : Type 0 where
  completion_applied completion_replay completion_credential_not_replayable : CompletionDisposition

pub record CompletionResult : Type 0 where
  pub disposition : CompletionDisposition
  pub retained : Record

pub record GcResult : Type 0 where
  pub tombstoned : ℕ
  pub deleted : ℕ

abbrev pub expired_error : Error
expired_error = classified operation_expired "operation id is retained as an expired tombstone"

-- The answer from a record of the key.
unfoldable pub replay_record : Record → Str → Result CompletionResult
unfolding clone_record
replay_record current digest =
    if current.digest != digest
    then err (classified conflict "operation id was already used with a different request")
    else if current.outcome.credential_issued
    then ok (record {
      disposition = completion_credential_not_replayable;
      retained = clone_record current;
    })
    else ok (record { disposition = completion_replay; retained = clone_record current })

unfoldable pub record_of : Completion → Str → Record
unfolding clone_outcome
record_of c digest = record {
  key = c.key;
  digest = digest;
  outcome = clone_outcome c.outcome;
  completed_at = c.completed_at;
  applied_index = c.applied_index;
}

unfoldable pub retain_record : Ledger → Record → Ledger
retain_record l r = record l { records = insert r.key r l.records }

-- The callback of `CompleteAfter` on the state that it changes, or `nil`.
abbrev pub Apply : Type 0 → Type 0
Apply W = Option (W → W × Option Error)

module _ {W : Type 0} where
  abbrev pub call_apply : Apply W → W → W × Option Error
  call_apply none w = (w, none)
  call_apply (some f) w = f w

  -- `complete` for a key that is not known.
  unfoldable pub complete_new :
      Ledger → W → Completion → Str → Apply W → Ledger × W × Result CompletionResult
  unfolding validate_for_insert record_of retain_record clone_record
  complete_new l w c digest apply = elim (validate_for_insert c) [
    | some e ↦ (l, w, err e)
    | none ↦
        if leb l.max_operations (length l.records + length l.tombstones)
        then (l, w, err (classified overloaded "control-plane operation ledger is full"))
        else (let (changed, failure) = call_apply apply w in
            elim failure [
              | some e ↦ (l, changed, err e)
              | none ↦ (
                retain_record l (record_of c digest),
                changed,
                ok (record {
                  disposition = completion_applied;
                  retained = clone_record (record_of c digest);
                }),
              )
            ])
  ]

  unfoldable pub complete :
      RequestEncoding → Ledger → W → Completion → Apply W → Ledger × W × Result CompletionResult
  unfolding validate_key request_digest replay_record complete_new
  complete enc l w c apply = elim (validate_key c.key) [
    | some e ↦ (l, w, err e)
    | none ↦ elim (lookup c.key l.tombstones) [
      | some _ ↦ (l, w, err expired_error)
      | none ↦ elim (request_digest enc c.request) [
        | err e ↦ (l, w, err e)
        | ok digest ↦ elim (lookup c.key l.records) [
          | some current ↦ (l, w, replay_record current digest)
          | none ↦ complete_new l w c digest apply
        ]
      ]
    ]
  ]

  -- `CompleteAfter`, whose callback is required.
  unfoldable pub complete_after :
      RequestEncoding → Ledger → W → Completion → Apply W → Ledger × W × Result CompletionResult
  unfolding complete
  complete_after enc l w c none =
      (l, w, err (plain "control-plane operation apply callback is required"))
  complete_after enc l w c (some f) = complete enc l w c (some f)

-- `Lookup`
unfoldable pub lookup_operation : Ledger → OperationKey → Result Record
unfolding validate_key clone_record
lookup_operation l k = elim (validate_key k) [
  | some e ↦ err e
  | none ↦ elim (lookup k l.tombstones) [
    | some _ ↦ err expired_error
    | none ↦ elim (lookup k l.records) [
      | none ↦ err (classified not_found "operation was not found")
      | some r ↦ ok (clone_record r)
    ]
  ]
]

-- `t.Add(ttl).After(cutoff)`
abbrev pub outlives : Time → ℤ → Time → Bool
outlives t ttl cutoff = is_before cutoff (add_duration t ttl)

abbrev pub tombstone_of : Record → Time → Tombstone
tombstone_of r cutoff = record { key = r.key; digest = r.digest; tombstoned_at = cutoff }

-- The loop over the records, with the tombstones: what is retained, and how many are not.
unfoldable pub bury :
    ℤ
    → Time
    → Map OperationKey Record
    → Map OperationKey Tombstone
    → Map OperationKey Record × Map OperationKey Tombstone × ℕ
bury ttl cutoff [] tombstones = ([], tombstones, 0)
bury ttl cutoff ((k, r) ∷ rs) tombstones =
    let (kept, buried, n) = bury ttl cutoff rs tombstones in
    if outlives r.completed_at ttl cutoff
    then ((k, r) ∷ kept, buried, n)
    else (kept, insert k (tombstone_of r cutoff) buried, n + 1)

-- The loop over the tombstones.
unfoldable pub forget : ℤ → Time → Map OperationKey Tombstone → Map OperationKey Tombstone × ℕ
forget ttl cutoff [] = ([], 0)
forget ttl cutoff ((k, t) ∷ ts) =
    let (kept, n) = forget ttl cutoff ts in
    if outlives t.tombstoned_at ttl cutoff then ((k, t) ∷ kept, n) else (kept, n + 1)

unfoldable pub collect : Ledger → Time → Ledger × GcResult
unfolding bury forget
collect l cutoff =
    let (records, buried, n) = bury l.operation_ttl cutoff l.records l.tombstones in
    let (tombstones, deleted) = forget l.tombstone_ttl cutoff buried in
    (
      record l { records = records; tombstones = tombstones },
      record { tombstoned = n; deleted = deleted },
    )

-- `GC`
unfoldable pub gc : Ledger → Time → Ledger × Result GcResult
unfolding validate_utc collect
gc l cutoff = elim (validate_utc "cutoff" cutoff) [
  | some e ↦ (l, err e)
  | none ↦ let (l', result) = collect l cutoff in (l', ok result)
]
