-- ===== src/Balancer/Leases.antt =====
-- The leases that callers hold, and the local occupancy that the balancer keeps for them.
use minicloud.Base.{
  Bool-cases, List, Option-cases, [], arith, false, if◌then◌else◌, inl, inr, int_eq, length,
  length-append, lookup, lookup-delete, lookup-insert, nat_eq, not, or_zero, refl, sort, suc, zero,
  ℕ, ◌%◌, ◌&&◌, ◌++◌, ◌+◌, ◌-◌, ◌<◌, ◌==◌, ◌^◌, ◌∷◌, ◌≡◌, ◌≤◌, ◌⊎◌,
}
use minicloud.Text.{Str, identifier_pattern, str_eq}
use minicloud.Problem.{Error, Result, Result-cases, err, ok, plain}
use minicloud.Balancer.{
  Balancer, ReleaseState, TargetKey, acquire, choose_endpoint, compare_endpoints, count_in_flight,
  eligible_endpoints, get_elem?, give_back, least_in_flight, new_balancer, release, take_endpoint,
  target_key_eq, tied_endpoints, validate_target,
}
use minicloud.Discovery.{Endpoint, Net}
use minicloud.ServingAuth.{
  AssignmentIdentity, AssignmentIdentity-discrete, connection_eq, fence_eq, identity_eq, mode_eq,
  session_eq,
}
use minicloud.Routing.{RouteTarget}

pub record System : Type 0 where
  pub balancer : Balancer
  pub leases : List ReleaseState

-- A lease is released by its place in the order of their issue; a copy of a lease has the same place.
pub data Call : Type 0 where
  acquires : Str → RouteTarget → List Endpoint → Call
  releases : ℕ → Call

unfoldable pub release_at : Balancer → List ReleaseState → ℕ → Balancer × List ReleaseState
unfolding release
release_at b [] n = (b, [])
release_at b (l ∷ ls) zero = ((release b l).0, (release b l).1 ∷ ls)
release_at b (l ∷ ls) (suc n) = ((release_at b ls n).0, l ∷ (release_at b ls n).1)

unfoldable pub issue : List ReleaseState → Result Endpoint → List ReleaseState
issue ls (err _) = ls
issue ls (ok e) = ls ++ (record { identity = e.assignment; done = false } ∷ [])

-- The leases on one Assignment that are not yet released.
unfoldable pub outstanding : AssignmentIdentity → List ReleaseState → ℕ
outstanding a [] = 0
outstanding a (l ∷ ls) = (if not l.done && l.identity == a then 1 else 0) + outstanding a ls

outstanding-append :
    (a : AssignmentIdentity) (ls ks : List ReleaseState)
    → outstanding a (ls ++ ks) ≡ outstanding a ls + outstanding a ks
unfolding outstanding
outstanding-append a [] ks = omega arith
outstanding-append a (l ∷ ls) ks = omega (arith, outstanding-append a ls ks)

outstanding_bound : (a : AssignmentIdentity) (ls : List ReleaseState) → outstanding a ls ≤ length ls
unfolding outstanding
outstanding_bound a [] = omega arith
outstanding_bound a (l ∷ ls) = ground (arith, outstanding_bound a ls)

count_after_take :
    (b : Balancer) (key : TargetKey) (e : Endpoint) (a : AssignmentIdentity)
    → count_in_flight (take_endpoint b key e) a ≡ (
        if e.assignment == a
        then (count_in_flight b e.assignment + 1) % 2 ^ 64
        else count_in_flight b a)
unfolding take_endpoint
count_after_take b key e a = ground (
  arith,
  lookup-insert e.assignment a ((count_in_flight b e.assignment + 1) % 2 ^ 64) b.in_flight,
)

count_after_give_back :
    (b : Balancer) (i a : AssignmentIdentity)
    → count_in_flight (give_back b i) a
      ≡ (if i == a then count_in_flight b i - 1 else count_in_flight b a)
unfolding give_back
count_after_give_back b i a =
    ground (
      arith,
      lookup-insert i a (count_in_flight b i - 1) b.in_flight,
      lookup-delete i a b.in_flight,
    )

release_balance :
    (b : Balancer) (l : ReleaseState) (ls : List ReleaseState) (a : AssignmentIdentity)
    → ((i : AssignmentIdentity) → outstanding i (l ∷ ls) ≤ count_in_flight b i)
    → count_in_flight (release b l).0 a + outstanding a (l ∷ ls)
      ≡ count_in_flight b a + outstanding a ((release b l).1 ∷ ls)
unfolding release outstanding
release_balance b l ls a covered =
    let own = covered l.identity in ground (arith, count_after_give_back b l.identity a)

release_at_balance :
    (b : Balancer) (ls : List ReleaseState) (n : ℕ) (a : AssignmentIdentity)
    → ((i : AssignmentIdentity) → outstanding i ls ≤ count_in_flight b i)
    → count_in_flight (release_at b ls n).0 a + outstanding a ls
      ≡ count_in_flight b a + outstanding a (release_at b ls n).1
unfolding release_at outstanding
release_at_balance b [] n a covered = refl
release_at_balance b (l ∷ ls) zero a covered = release_balance b l ls a covered
release_at_balance b (l ∷ ls) (suc n) a covered =
    omega (arith, release_at_balance b ls n a (λ i. omega (arith, covered i)))

length-release_at :
    (b : Balancer) (ls : List ReleaseState) (n : ℕ) → length (release_at b ls n).1 ≡ length ls
unfolding release_at
length-release_at b [] n = refl
length-release_at b (l ∷ ls) zero = refl
length-release_at b (l ∷ ls) (suc n) = omega (arith, length-release_at b ls n)

-- What is counted for each Assignment is what is outstanding.
abbrev Counts : Balancer → List ReleaseState → Type 0
Counts b ls = (a : AssignmentIdentity) → count_in_flight b a ≡ outstanding a ls

take-Counts :
    (b : Balancer) (ls : List ReleaseState) (key : TargetKey) (e : Endpoint)
    → length ls + 1 < 2 ^ 64
    → Counts b ls
    → Counts (take_endpoint b key e) (issue ls (ok e))
unfolding issue outstanding
take-Counts b ls key e room counts a =
    let added = outstanding-append a ls (record { identity = e.assignment; done = false } ∷ []) in
    let own = counts e.assignment in
    let other = counts a in
    let bound = outstanding_bound e.assignment ls in
    let after = count_after_take b key e a in
    elim (AssignmentIdentity-discrete e.assignment a) [ yes p ↦ ground arith | no p ↦ ground arith ]

abbrev pub idle : System
idle = record { balancer = new_balancer; leases = [] }

module _ (n : Net) where
  unfoldable pub step : System → Call → System
  unfolding release_at issue
  step s (acquires f t es) = record {
    balancer = (acquire n s.balancer f t es).0;
    leases = issue s.leases (acquire n s.balancer f t es).1;
  }
  step s (releases k) = record {
    balancer = (release_at s.balancer s.leases k).0;
    leases = (release_at s.balancer s.leases k).1;
  }

  unfoldable pub run : System → List Call → System
  unfolding step
  run s [] = s
  run s (c ∷ cs) = run (step s c) cs

  -- An acquisition fails and changes nothing, or takes the Endpoint that it returns.
  abbrev Taken : Balancer → Balancer × Result Endpoint → Type 0
  Taken b r =
      ((e : Error) × (r ≡ (b, err e)))
      ⊎ ((e : Endpoint) × (key : TargetKey) × (r ≡ (take_endpoint b key e, ok e)))

  choose-Taken :
      (b : Balancer) (key : TargetKey) (es : List Endpoint) → Taken b (choose_endpoint b key es)
  unfolding choose_endpoint
  choose-Taken b key [] = inl (_, refl)
  choose-Taken b key (e ∷ es) =
      let tied =
        tied_endpoints b (least_in_flight b (count_in_flight b e.assignment) es) (e ∷ es) in
      elim (Option-cases (get_elem? tied (or_zero (lookup key b.round_robin) % length tied))) [
        | inl h ↦ inl (plain "index out of range", rw (choose_endpoint, h) refl)
        | inr (c, h) ↦ inr (c, key, rw (choose_endpoint, h) refl)
      ]

  acquire-Taken :
      (b : Balancer) (f : Str) (t : RouteTarget) (es : List Endpoint) → Taken b (acquire n b f t es)
  unfolding acquire
  acquire-Taken b f t es = elim (Bool-cases (identifier_pattern f)) [
    | inr h ↦ rw (acquire, h) (inl (_, refl))
    | inl h ↦ elim (Option-cases (validate_target t)) [
      | inr (e, v) ↦ rw (acquire, h, v) (inl (e, refl))
      | inl v ↦ elim (Result-cases (eligible_endpoints n t [] es)) [
        | inl (e, g) ↦ rw (acquire, h, v, g) (inl (e, refl))
        | inr (eligible, g) ↦
            rw (acquire, h, v, g) (choose-Taken b _ (sort compare_endpoints eligible))
      ]
    ]
  ]

  length-issue :
      (ls : List ReleaseState) (r : Result Endpoint) → length (issue ls r) ≤ length ls + 1
  unfolding issue
  length-issue ls (err e) = omega arith
  length-issue ls (ok e) =
      omega (arith, length-append ls (record { identity = e.assignment; done = false } ∷ []))

  step-Counts :
      (s : System) (c : Call)
      → length s.leases + 1 < 2 ^ 64
      → Counts s.balancer s.leases
      → Counts (step s c).balancer (step s c).leases
  unfolding step
  step-Counts s (acquires f t es) room counts = elim (acquire-Taken s.balancer f t es) [
    | inl (e, same_state) ↦ rw same_state counts
    | inr (e, key, taken) ↦ rw taken (take-Counts s.balancer s.leases key e room counts)
  ]
  step-Counts s (releases k) room counts = λ a.
      let balance = release_at_balance s.balancer s.leases k a (λ i. omega (arith, counts i)) in
      omega (arith, counts a)

  length-step : (s : System) (c : Call) → length (step s c).leases ≤ length s.leases + 1
  unfolding step
  length-step s (acquires f t es) = length-issue s.leases (acquire n s.balancer f t es).1
  length-step s (releases k) = omega (arith, length-release_at s.balancer s.leases k)

  run-Counts :
      (s : System) (cs : List Call)
      → length s.leases + length cs < 2 ^ 64
      → Counts s.balancer s.leases
      → Counts (run s cs).balancer (run s cs).leases
  unfolding run
  run-Counts s [] room counts = counts
  run-Counts s (c ∷ cs) room counts =
      run-Counts (step s c) cs (omega (arith, length-step s c))
        (step-Counts s c (omega arith) counts)

  -- After any history of fewer than 2 ^ 64 calls on a new balancer, the occupancy of an Assignment is
  -- the number of leases on it that are not yet released, however often each one was released.
  pub run-idle-Counts :
      (cs : List Call) (a : AssignmentIdentity)
      → length cs < 2 ^ 64
      → count_in_flight (run idle cs).balancer a ≡ outstanding a (run idle cs).leases
  unfolding lookup outstanding
  run-idle-Counts cs a room = run-Counts idle cs (omega arith) (λ i. refl) a
