-- ===== src/ControlPlane/Ledger/Invariant.antt =====
-- internal/controlplane/operation.go: what the Ledger knows of a key, and what a collection makes of it.
use minicloud.Problem.{Result, err, ok}
use minicloud.Text.{Str, str_eq}
use minicloud.ControlPlane.Ledger.Canonical.{RequestEncoding, request_digest}
use minicloud.Base.{
  IsKeyed, Map, Option, [], arith, if◌then◌else◌, inl, inr, insert-IsKeyed, int_eq, length,
  length-insert, lookup, lookup-insert, nat_eq, none, refl, some, subst, ℤ, ◌+◌, ◌<◌, ◌∷◌, ◌≡◌, ◌≤◌,
  ◌⊎◌,
}
use minicloud.Model.{Time, lifecycle_eq, phase_eq, scaling_mode_eq, version_state_eq}
use minicloud.ControlPlane.Ledger.{
  Completion, Ledger, OperationKey, Record, Tombstone, operation_key_eq, outcome_eq,
}
use minicloud.ControlPlane.Ledger.Methods.{
  Apply, bury, collect, complete, complete_new, forget, outlives, record_of, retain_record,
  tombstone_of,
}

pub data KeyState : Type 0 where
  unseen : KeyState
  recorded : Record → KeyState
  expired : Tombstone → KeyState

abbrev state_of : Option Record → Option Tombstone → KeyState
state_of r (some t) = expired t
state_of (some r) none = recorded r
state_of none none = unseen

unfoldable pub key_state : Ledger → OperationKey → KeyState
key_state l k = state_of (lookup k l.records) (lookup k l.tombstones)

-- No key stands twice or in both maps, and the maps keep the limit.
pub record Inv (l : Ledger) : Type 0 where
  pub records_keyed : IsKeyed l.records
  pub tombstones_keyed : IsKeyed l.tombstones
  pub disjoint : (k : OperationKey) → (lookup k l.records ≡ none) ⊎ (lookup k l.tombstones ≡ none)
  pub within : length l.records + length l.tombstones ≤ l.max_operations

module _ (ttl : ℤ) (cutoff : Time) where
  abbrev kept_record : Option Record → Option Record
  kept_record none = none
  kept_record (some r) = if outlives r.completed_at ttl cutoff then some r else none

  abbrev buried_record : Option Record → Option Tombstone → Option Tombstone
  buried_record none t = t
  buried_record (some r) t =
      if outlives r.completed_at ttl cutoff then t else some (tombstone_of r cutoff)

  abbrev kept_tombstone : Option Tombstone → Option Tombstone
  kept_tombstone none = none
  kept_tombstone (some t) = if outlives t.tombstoned_at ttl cutoff then some t else none

  bury-records :
      (rs : Map OperationKey Record) (ts : Map OperationKey Tombstone) (k : OperationKey)
      → IsKeyed rs
      → lookup k (bury ttl cutoff rs ts).0 ≡ kept_record (lookup k rs)
  unfolding bury lookup
  bury-records [] ts k h = refl
  bury-records ((i, r) ∷ rs) ts k h = ground (arith, bury-records rs ts k h.1)

  bury-tombstones :
      (rs : Map OperationKey Record) (ts : Map OperationKey Tombstone) (k : OperationKey)
      → IsKeyed rs
      → lookup k (bury ttl cutoff rs ts).1 ≡ buried_record (lookup k rs) (lookup k ts)
  unfolding bury lookup
  bury-tombstones [] ts k h = refl
  bury-tombstones ((i, r) ∷ rs) ts k h = ground (
    arith,
    bury-tombstones rs ts k h.1,
    lookup-insert i k (tombstone_of r cutoff) (bury ttl cutoff rs ts).1,
  )

  bury-IsKeyed :
      (rs : Map OperationKey Record) (ts : Map OperationKey Tombstone)
      → IsKeyed rs
      → IsKeyed ts
      → IsKeyed (bury ttl cutoff rs ts).0 × IsKeyed (bury ttl cutoff rs ts).1
  unfolding bury
  bury-IsKeyed [] ts h i = (tt, i)
  bury-IsKeyed ((j, r) ∷ rs) ts h i = ground (
    arith,
    bury-IsKeyed rs ts h.1 i,
    bury-records rs ts j h.1,
    insert-IsKeyed j (tombstone_of r cutoff) (bury ttl cutoff rs ts).1,
  )

  bury-within :
      (rs : Map OperationKey Record) (ts : Map OperationKey Tombstone)
      → length (bury ttl cutoff rs ts).0 + length (bury ttl cutoff rs ts).1 ≤ length rs + length ts
  unfolding bury
  bury-within [] ts = omega arith
  bury-within ((j, r) ∷ rs) ts =
      ground (
        arith,
        bury-within rs ts,
        length-insert j (tombstone_of r cutoff) (bury ttl cutoff rs ts).1,
      )

  lookup-forget :
      (ts : Map OperationKey Tombstone) (k : OperationKey)
      → IsKeyed ts
      → lookup k (forget ttl cutoff ts).0 ≡ kept_tombstone (lookup k ts)
  unfolding forget lookup
  lookup-forget [] k h = refl
  lookup-forget ((i, t) ∷ ts) k h = ground (arith, lookup-forget ts k h.1)

  forget-IsKeyed : (ts : Map OperationKey Tombstone) → IsKeyed ts → IsKeyed (forget ttl cutoff ts).0
  unfolding forget
  forget-IsKeyed [] h = tt
  forget-IsKeyed ((i, t) ∷ ts) h = ground (arith, forget-IsKeyed ts h.1, lookup-forget ts i h.1)

  length-forget : (ts : Map OperationKey Tombstone) → length (forget ttl cutoff ts).0 ≤ length ts
  unfolding forget
  length-forget [] = omega arith
  length-forget ((i, t) ∷ ts) = ground (arith, length-forget ts)

-- What a collection makes of a key: an outcome past its time is buried at the cutoff, and a tombstone past
-- its time is forgotten.
unfoldable pub aged : ℤ → ℤ → Time → KeyState → KeyState
aged ttl tombstone_ttl cutoff unseen = unseen
aged ttl tombstone_ttl cutoff (recorded r) =
    if outlives r.completed_at ttl cutoff
    then recorded r
    else if outlives cutoff tombstone_ttl cutoff
    then expired (tombstone_of r cutoff)
    else unseen
aged ttl tombstone_ttl cutoff (expired t) =
    if outlives t.tombstoned_at tombstone_ttl cutoff then expired t else unseen

pub key_state-collect :
    (l : Ledger) (cutoff : Time) (k : OperationKey)
    → Inv l
    → key_state (collect l cutoff).0 k ≡ aged l.operation_ttl l.tombstone_ttl cutoff (key_state l k)
unfolding key_state collect aged
key_state-collect l cutoff k i = ground (
  arith,
  bury-records l.operation_ttl cutoff l.records l.tombstones k i.records_keyed,
  bury-tombstones l.operation_ttl cutoff l.records l.tombstones k i.records_keyed,
  lookup-forget l.tombstone_ttl cutoff (bury l.operation_ttl cutoff l.records l.tombstones).1 k
      (bury-IsKeyed l.operation_ttl cutoff l.records l.tombstones i.records_keyed
        i.tombstones_keyed).1,
  i.disjoint k,
)

pub collect-Inv : (l : Ledger) (cutoff : Time) → Inv l → Inv (collect l cutoff).0
unfolding collect
collect-Inv l cutoff i =
    let keyed =
      bury-IsKeyed l.operation_ttl cutoff l.records l.tombstones i.records_keyed
        i.tombstones_keyed in
    let buried = (bury l.operation_ttl cutoff l.records l.tombstones).1 in
    record {
      records_keyed = keyed.0;
      tombstones_keyed = forget-IsKeyed l.tombstone_ttl cutoff buried keyed.1;
      disjoint = λ k. ground (
        arith,
        i.disjoint k,
        bury-records l.operation_ttl cutoff l.records l.tombstones k i.records_keyed,
        bury-tombstones l.operation_ttl cutoff l.records l.tombstones k i.records_keyed,
        lookup-forget l.tombstone_ttl cutoff buried k keyed.1,
      );
      within = omega (
        arith,
        i.within,
        bury-within l.operation_ttl cutoff l.records l.tombstones,
        length-forget l.tombstone_ttl cutoff buried,
      );
    }

pub retain_record-Inv :
    (l : Ledger) (r : Record)
    → Inv l
    → lookup r.key l.records ≡ none
    → lookup r.key l.tombstones ≡ none
    → length l.records + length l.tombstones < l.max_operations
    → Inv (retain_record l r)
unfolding retain_record
retain_record-Inv l r i free alive room = record {
  records_keyed = insert-IsKeyed r.key r l.records i.records_keyed;
  tombstones_keyed = i.tombstones_keyed;
  disjoint = λ k. elim (operation_key_eq.dec r.key k) [
    | yes e ↦ inr (subst (λ j. lookup j l.tombstones ≡ none) e alive)
    | no differ ↦ ground (arith, i.disjoint k, lookup-insert r.key k r l.records)
  ];
  within = ground (arith, length-insert r.key r l.records);
}

abbrev pub digest_of : Result Str → Str
digest_of (ok d) = d
digest_of (err e) = []

module _ {W : Type 0} (enc : RequestEncoding) (l : Ledger) (w : W) (c : Completion)
    (apply : Apply W) where
  -- `complete` leaves the Ledger alone, or it retains the new record of an unseen key.
  pub complete-cases :
      ((complete enc l w c apply).0 ≡ l)
      ⊎ ((lookup c.key l.records ≡ none)
          × (lookup c.key l.tombstones ≡ none)
          × (length l.records + length l.tombstones < l.max_operations)
          × ((complete enc l w c apply).0
              ≡ retain_record l (record_of c (digest_of (request_digest enc c.request)))))
  unfolding complete complete_new
  complete-cases = ground arith

  pub complete-Inv : Inv l → Inv (complete enc l w c apply).0
  unfolding record_of
  complete-Inv i = elim complete-cases [
    | inl e ↦ rw e i
    | inr (free, alive, room, e) ↦ rw e (retain_record-Inv l _ i free alive room)
  ]
