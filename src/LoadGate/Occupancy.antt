-- ===== src/LoadGate/Occupancy.antt =====
-- The gate with its loads, in any interleaving of their steps.
use minicloud.Text.{str_eq}
use minicloud.LoadGate.{
  Load, LoadGate, Reservation, Wake, abandon, abandoning, admitted, advance, arriving, cancelled,
  enter, entering, new_load_gate, overflowing, refused, release_active, release_queued, released,
  releasing, reserve_active, reserve_queued, reserved, wait, waited,
}
use minicloud.Base.{
  All, All-replaced, All-split, Bool, List, Option, [], ap, arith, false, int_eq, nat_eq, none, not,
  refl, some, subst, total_of, total_split, true, ℕ, ◌++◌, ◌+◌, ◌∙◌, ◌∷◌, ◌≡◌, ◌≤◌,
}
use minicloud.Problem.{Error}

pub record System : Type 0 where
  pub gate : LoadGate
  pub loads : List Load

abbrev pub bit : Bool → ℕ
bit true = 1
bit false = 0

-- The elements of each channel that a load has sent and not received.
abbrev pub active_of : Load → ℕ
active_of arriving = 0
active_of overflowing = 0
active_of released = 0
active_of (refused e) = 0
active_of (reserved r) = bit r.is_active
active_of (entering r) = 1
active_of (releasing r) = bit r.is_active
active_of (abandoning r e) = 0
active_of (waited r e) = bit r.is_active

abbrev pub queued_of : Load → ℕ
queued_of arriving = 0
queued_of overflowing = 0
queued_of released = 0
queued_of (refused e) = 0
queued_of (reserved r) = bit r.is_queued
queued_of (entering r) = 1
queued_of (releasing r) = bit r.is_queued
queued_of (abandoning r e) = 1
queued_of (waited r e) = bit r.is_queued

-- A new load, or one step of one of the loads, whatever its context says.
pub data Step (s : System) : System → Type 0 where
  arrives : Step s (record s { loads = arriving ∷ s.loads })
  advances :
      (ahead behind : List Load) (c d : Load) (context : Option Error) (k : Option Wake)
      (g : LoadGate)
      → s.loads ≡ ahead ++ (c ∷ behind)
      → advance context s.gate k c ≡ some (g, d)
      → Step s (record { gate = g; loads = ahead ++ (d ∷ behind) })

pub data Reaches (s : System) : System → Type 0 where
  here : Reaches s s
  then_step : {t u : System} → Reaches s t → Step t u → Reaches s u

-- The fields of a reservation where they matter: it is queued unless it is active.
abbrev pub IsShaped : Load → Type 0
IsShaped (reserved r) = r.is_queued ≡ not r.is_active
IsShaped (entering r) = (r.is_active ≡ false) × (r.is_queued ≡ true)
IsShaped (abandoning r e) = (r.is_active ≡ false) × (r.is_queued ≡ true)
IsShaped (releasing r) = r.is_active ≡ false
IsShaped _ = Unit {0}

-- The channels hold one element for each load that has sent to them and not yet received, within the
-- capacities that the gate was made with.
pub record IsBounded (concurrent queued : ℕ) (s : System) : Type 0 where
  pub shaped : All IsShaped s.loads
  pub active_exact : s.gate.active ≡ total_of active_of s.loads
  pub queued_exact : s.gate.queued ≡ total_of queued_of s.loads
  pub active_bound : total_of active_of s.loads ≤ concurrent
  pub queued_bound : total_of queued_of s.loads ≤ queued
  pub max_active_fixed : s.gate.max_active ≡ concurrent
  pub max_queued_fixed : s.gate.max_queued ≡ queued

-- A step that changes a load and the channels alike keeps the totals.
record Balanced (g : LoadGate) (c : Load) (h : LoadGate) (d : Load) : Type 0 where
  shape : IsShaped d
  active : h.active + active_of c ≡ g.active + active_of d
  queued : h.queued + queued_of c ≡ g.queued + queued_of d
  active_bound : g.active ≤ g.max_active → h.active ≤ g.max_active
  queued_bound : g.queued ≤ g.max_queued → h.queued ≤ g.max_queued
  max_active_kept : h.max_active ≡ g.max_active
  max_queued_kept : h.max_queued ≡ g.max_queued

module _ (context : Option Error) (g h : LoadGate) (d : Load) where
  arriving-Balanced : advance context g none arriving ≡ some (h, d) → Balanced g arriving h d
  unfolding advance reserve_active
  arriving-Balanced e = ground arith

  overflowing-Balanced :
      advance context g none overflowing ≡ some (h, d) → Balanced g overflowing h d
  unfolding advance reserve_queued
  overflowing-Balanced e = ground arith

  wait-Balanced :
      (r : Reservation) (w : Wake)
      → IsShaped (reserved r)
      → wait context g r w ≡ some (h, d)
      → Balanced g (reserved r) h d
  unfolding wait
  wait-Balanced r admitted p e = ground arith
  wait-Balanced r cancelled p e = ground arith

  enter-Balanced :
      (r : Reservation)
      → IsShaped (entering r)
      → enter g r ≡ some (h, d)
      → Balanced g (entering r) h d
  unfolding enter
  enter-Balanced r p e = ground arith

  abandon-Balanced :
      (r : Reservation) (x : Error)
      → IsShaped (abandoning r x)
      → abandon g r x ≡ some (h, d)
      → Balanced g (abandoning r x) h d
  unfolding abandon
  abandon-Balanced r x p e = ground arith

  release_active-Balanced :
      (r : Reservation) (c : Load)
      → active_of c ≡ bit r.is_active
      → queued_of c ≡ bit r.is_queued
      → release_active g r ≡ some (h, d)
      → Balanced g c h d
  unfolding release_active
  release_active-Balanced r c active_c queued_c e = ground arith

  release_queued-Balanced :
      (r : Reservation)
      → IsShaped (releasing r)
      → release_queued g r ≡ some (h, d)
      → Balanced g (releasing r) h d
  unfolding release_queued
  release_queued-Balanced r p e = ground arith

  advance-Balanced :
      (k : Option Wake) (c : Load)
      → IsShaped c
      → advance context g k c ≡ some (h, d)
      → Balanced g c h d
  unfolding advance
  advance-Balanced k arriving p e = arriving-Balanced e
  advance-Balanced k overflowing p e = overflowing-Balanced e
  advance-Balanced k released p e = ground arith
  advance-Balanced k (refused x) p e = ground arith
  advance-Balanced none (reserved r) p e = release_active-Balanced r (reserved r) refl refl e
  advance-Balanced (some w) (reserved r) p e = wait-Balanced r w p e
  advance-Balanced k (entering r) p e = enter-Balanced r p e
  advance-Balanced k (releasing r) p e = release_queued-Balanced r p e
  advance-Balanced k (abandoning r x) p e = abandon-Balanced r x p e
  advance-Balanced k (waited r x) p e = release_active-Balanced r (waited r x) refl refl e

module _ (concurrent queued : ℕ) where
  module _ (s : System) (b : IsBounded concurrent queued s) (ahead behind : List Load) (c : Load)
      (e : s.loads ≡ ahead ++ (c ∷ behind)) where
    pub active_held : s.gate.active ≡ active_of c + total_of active_of (ahead ++ behind)
    active_held = b.active_exact ∙ ap (total_of active_of) e ∙ total_split active_of ahead behind c

    pub queued_held : s.gate.queued ≡ queued_of c + total_of queued_of (ahead ++ behind)
    queued_held = b.queued_exact ∙ ap (total_of queued_of) e ∙ total_split queued_of ahead behind c

    IsShaped-loads : All IsShaped (ahead ++ (c ∷ behind))
    IsShaped-loads = subst (All IsShaped) e b.shaped

    pub IsShaped-load : IsShaped c
    IsShaped-load = All-split IsShaped ahead behind c IsShaped-loads

    replaced-IsBounded :
        (g : LoadGate) (d : Load)
        → Balanced s.gate c g d
        → IsBounded concurrent queued (record { gate = g; loads = ahead ++ (d ∷ behind) })
    replaced-IsBounded g d h =
        let active : g.active ≡ total_of active_of (ahead ++ (d ∷ behind)) =
          omega (arith, active_held, total_split active_of ahead behind d, h.active) in
        let queued_now : g.queued ≡ total_of queued_of (ahead ++ (d ∷ behind)) =
          omega (arith, queued_held, total_split queued_of ahead behind d, h.queued) in
        let active_room =
          h.active_bound (omega (arith, b.active_exact, b.active_bound, b.max_active_fixed)) in
        let queued_room =
          h.queued_bound (omega (arith, b.queued_exact, b.queued_bound, b.max_queued_fixed)) in
        record {
          shaped = All-replaced IsShaped ahead behind c d IsShaped-loads h.shape;
          active_exact = active;
          queued_exact = queued_now;
          active_bound = omega (arith, active, active_room, b.max_active_fixed);
          queued_bound = omega (arith, queued_now, queued_room, b.max_queued_fixed);
          max_active_fixed = h.max_active_kept ∙ b.max_active_fixed;
          max_queued_fixed = h.max_queued_kept ∙ b.max_queued_fixed;
        }

  Step-IsBounded :
      {s t : System} → Step s t → IsBounded concurrent queued s → IsBounded concurrent queued t
  Step-IsBounded {s} arrives b = record {
    shaped = (tt, b.shaped);
    active_exact = omega (arith, b.active_exact);
    queued_exact = omega (arith, b.queued_exact);
    active_bound = omega (arith, b.active_bound);
    queued_bound = omega (arith, b.queued_bound);
    max_active_fixed = b.max_active_fixed;
    max_queued_fixed = b.max_queued_fixed;
  }
  Step-IsBounded {s} (advances ahead behind c d context k g e h) b =
      replaced-IsBounded s b ahead behind c e g d
        (advance-Balanced context s.gate g d k c (IsShaped-load s b ahead behind c e) h)

  abbrev pub empty_gate : System
  empty_gate = record { gate = new_load_gate concurrent queued; loads = [] }

  -- In every state that loads reach from a new gate, in any interleaving of their channel operations, each
  -- of its two channels holds exactly one element for each load that has sent to it and not yet
  -- received, and these are no more than the limits the gate was made with.
  pub Reaches-IsBounded : {s : System} → Reaches empty_gate s → IsBounded concurrent queued s
  Reaches-IsBounded here = record {
    shaped = tt;
    active_exact = refl;
    queued_exact = refl;
    active_bound = omega arith;
    queued_bound = omega arith;
    max_active_fixed = refl;
    max_queued_fixed = refl;
  }
  Reaches-IsBounded (then_step p x) = Step-IsBounded x (Reaches-IsBounded p)
