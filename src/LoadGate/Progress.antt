-- ===== src/LoadGate/Progress.antt =====
-- A load blocks only where it has to wait for another one.
use minicloud.Text.{str_eq}
use minicloud.Base.{
  Bool-cases, List, Option, Option-cases, arith, inl, inr, int_eq, ltb, nat_eq, none, some, true, ℕ,
  ◌++◌, ◌∷◌, ◌≡◌, ◌≢◌, ◌≤◌, ◌⊎◌,
}
use minicloud.Problem.{Error}
use minicloud.LoadGate.{
  Load, LoadGate, Reservation, Wake, abandon, abandoning, admitted, advance, arriving, cancelled,
  enter, entering, overflowing, refused, release_active, release_queued, released, releasing,
  reserved, wait, waited,
}
use minicloud.LoadGate.Occupancy.{
  IsShaped, Reaches, Reaches-IsBounded, System, active_held, active_of, bit, empty_gate,
  queued_held, queued_of, IsShaped-load,
}

-- What a load can do next, with the error of its context where that is done. After `reserve` it can be
-- released, and its `wait` goes on in one of the cases of the `select`, unless the load is queued, as
-- many loads are active as may be, and the context is not done.
pub data Outlook (s : System) (context : Option Error) : Load → Type 0 where
  is_over : Outlook s context released
  is_refused : (x : Error) → Outlook s context (refused x)
  proceeds :
      {c : Load} → ((k : Option Wake) → advance context s.gate k c ≢ none) → Outlook s context c
  may_wait :
      (r : Reservation)
      → advance context s.gate none (reserved r) ≢ none
      → ((w : Wake) × (advance context s.gate (some w) (reserved r) ≢ none))
        ⊎ ((r.is_queued ≡ true) × (s.gate.active ≡ s.gate.max_active) × (context ≡ none))
      → Outlook s context (reserved r)

module _ (context : Option Error) (g : LoadGate) where
  arriving_goes : (k : Option Wake) → advance context g k arriving ≢ none
  unfolding advance
  arriving_goes k h = ground arith

  overflowing_goes : (k : Option Wake) → advance context g k overflowing ≢ none
  unfolding advance
  overflowing_goes k h = ground arith

  enter_goes : (r : Reservation) → 1 ≤ g.queued → enter g r ≢ none
  unfolding enter
  enter_goes r queued h = ground arith

  abandon_goes : (r : Reservation) (x : Error) → 1 ≤ g.queued → abandon g r x ≢ none
  unfolding abandon
  abandon_goes r x queued h = ground arith

  release_active_goes : (r : Reservation) → bit r.is_active ≤ g.active → release_active g r ≢ none
  unfolding release_active
  release_active_goes r active h = ground arith

  release_queued_goes : (r : Reservation) → bit r.is_queued ≤ g.queued → release_queued g r ≢ none
  unfolding release_queued
  release_queued_goes r queued h = ground arith

  active_wait_goes : (r : Reservation) → r.is_active ≡ true → wait context g r admitted ≢ none
  unfolding wait
  active_wait_goes r active h = ground arith

  admitted_wait_goes :
      (r : Reservation) → ltb g.active g.max_active ≡ true → wait context g r admitted ≢ none
  unfolding wait
  admitted_wait_goes r room h = ground arith

  cancelled_wait_goes :
      (r : Reservation) (x : Error) → context ≡ some x → wait context g r cancelled ≢ none
  unfolding wait
  cancelled_wait_goes r x over h = ground arith

  -- Whether `wait` goes on.
  wait-outlook :
      (r : Reservation)
      → IsShaped (reserved r)
      → g.active ≤ g.max_active
      → ((w : Wake) × (wait context g r w ≢ none))
        ⊎ ((r.is_queued ≡ true) × (g.active ≡ g.max_active) × (context ≡ none))
  wait-outlook r shape bound = elim (Bool-cases r.is_active) [
    | inl active ↦ inl (admitted, active_wait_goes r active)
    | inr queued ↦ elim (Bool-cases (ltb g.active g.max_active)) [
      | inl room ↦ inl (admitted, admitted_wait_goes r room)
      | inr full ↦ elim (Option-cases context) [
        | inl live ↦ inr (ground arith, ground arith, live)
        | inr (x, over) ↦ inl (cancelled, cancelled_wait_goes r x over)
      ]
    ]
  ]

load-Outlook :
    (s : System) (context : Option Error) (c : Load)
    → IsShaped c
    → active_of c ≤ s.gate.active
    → queued_of c ≤ s.gate.queued
    → s.gate.active ≤ s.gate.max_active
    → Outlook s context c
unfolding advance
load-Outlook s context arriving p a q m = proceeds (arriving_goes context s.gate)
load-Outlook s context overflowing p a q m = proceeds (overflowing_goes context s.gate)
load-Outlook s context released p a q m = is_over
load-Outlook s context (refused x) p a q m = is_refused x
load-Outlook s context (reserved r) p a q m =
    may_wait r (release_active_goes context s.gate r a) (wait-outlook context s.gate r p m)
load-Outlook s context (entering r) p a q m = proceeds (λ k. enter_goes context s.gate r q)
load-Outlook s context (releasing r) p a q m =
    proceeds (λ k. release_queued_goes context s.gate r q)
load-Outlook s context (abandoning r x) p a q m = proceeds (λ k. abandon_goes context s.gate r x q)
load-Outlook s context (waited r x) p a q m = proceeds (λ k. release_active_goes context s.gate r a)

-- In every state that loads reach from a new gate, in any interleaving, each load has ended, or its next
-- operation on a channel does not block, or it waits in the queue while as many loads are active as may
-- be and its context is not done, and then a release would not block. So neither receive that
-- follows a case of the `select` ever blocks, and neither does a release.
pub never_stuck :
    (concurrent queued : ℕ) {s : System} (ahead behind : List Load) (c : Load)
    (context : Option Error)
    → Reaches (empty_gate concurrent queued) s
    → s.loads ≡ ahead ++ (c ∷ behind)
    → Outlook s context c
never_stuck concurrent queued {s} ahead behind c context p e =
    let b = Reaches-IsBounded concurrent queued p in
    load-Outlook s context c (IsShaped-load concurrent queued s b ahead behind c e)
      (omega (arith, active_held concurrent queued s b ahead behind c e))
      (omega (arith, queued_held concurrent queued s b ahead behind c e))
      (omega (arith, b.active_exact, b.active_bound, b.max_active_fixed))
