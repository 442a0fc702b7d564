-- ===== src/Balancer/Choice.antt =====
-- The Endpoint that the balancer chooses.
use minicloud.Text.{Str, identifier_pattern, str_eq}
use minicloud.Problem.{Result-cases, ok}
use minicloud.Balancer.{
  Balancer, TargetKey, acquire, choose_endpoint, compare_endpoints, count_in_flight,
  eligible_endpoints, get_elem?, least_in_flight, serves, target_key_eq, tied_endpoints,
  validate_target,
}
use minicloud.Discovery.{Endpoint, Net, validate_endpoint}
use minicloud.Routing.{RouteTarget}
use minicloud.Base.{
  Bool-cases, Elem, Elem-sort, List, Option-cases, [], arith, inl, inr, int_eq, leb, length, lookup,
  min, mod-lt, nat_eq, none, or_zero, refl, some, sort, sort-Elem, subst, suc, sym, true, zero, ℕ,
  ◌%◌, ◌<◌, ◌==◌, ◌∙◌, ◌∷◌, ◌≡◌, ◌≤◌, ◌⊎◌,
}

module _ (n : Net) (t : RouteTarget) where
  -- The eligible Endpoints are the ones that serve the target.
  eligible-serves :
      (seen : List Str) (es : List Endpoint) {eligible : List Endpoint}
      → eligible_endpoints n t seen es ≡ ok eligible
      → (u : Endpoint) → Elem u eligible
      → Elem u es × (serves t u ≡ true)
  unfolding eligible_endpoints
  eligible-serves seen [] h u m = absurd (ground arith)
  eligible-serves seen (e ∷ es) {eligible} h u m = elim (Option-cases (validate_endpoint n e)) [
    | inr (failed, v) ↦ absurd (ground arith)
    | inl v ↦ elim (Bool-cases (serves t e)) [
      | inr skipped ↦
          let rest : eligible_endpoints n t seen es ≡ ok eligible = ground arith in
          let (found, good) = eligible-serves seen es rest u m in (inr found, good)
      | inl used ↦
          elim (Result-cases (eligible_endpoints n t (e.assignment.assignment_id ∷ seen) es)) [
            | inl (failed, g) ↦ absurd (ground arith)
            | inr (others, g) ↦
                let whole : e ∷ others ≡ eligible = ground arith in
                elim (subst (Elem u) (sym whole) m) [
                  | inl p ↦ (inl p, rw p used)
                  | inr q ↦
                      let (found, good) =
                        eligible-serves (e.assignment.assignment_id ∷ seen) es g u q in
                      (inr found, good)
                ]
          ]
    ]
  ]

  serves-eligible :
      (seen : List Str) (es : List Endpoint) {eligible : List Endpoint}
      → eligible_endpoints n t seen es ≡ ok eligible
      → (u : Endpoint) → Elem u es
      → serves t u ≡ true
      → Elem u eligible
  unfolding eligible_endpoints
  serves-eligible seen [] h u m good = elim m [ ]
  serves-eligible seen (e ∷ es) {eligible} h u m good =
      elim (Option-cases (validate_endpoint n e)) [
        | inr (failed, v) ↦ absurd (ground arith)
        | inl v ↦ elim (Bool-cases (serves t e)) [
          | inr skipped ↦
              let rest : eligible_endpoints n t seen es ≡ ok eligible = ground arith in
              elim m [
                | inl p ↦ absurd (ground arith)
                | inr q ↦ serves-eligible seen es rest u q good
              ]
          | inl used ↦
              elim (Result-cases (eligible_endpoints n t (e.assignment.assignment_id ∷ seen) es)) [
                | inl (failed, g) ↦ absurd (ground arith)
                | inr (others, g) ↦
                    let whole : e ∷ others ≡ eligible = ground arith in
                    subst (Elem u) whole (elim m [
                      | inl p ↦ inl p
                      | inr q ↦
                          inr (serves-eligible (e.assignment.assignment_id ∷ seen) es g u q good)
                    ])
              ]
        ]
      ]

module _ (b : Balancer) where
  least_le : (least : ℕ) (es : List Endpoint) → least_in_flight b least es ≤ least
  unfolding least_in_flight
  least_le least [] = omega arith
  least_le least (e ∷ es) = omega (arith, least_le (min least (count_in_flight b e.assignment)) es)

  least_le_all :
      (least : ℕ) (es : List Endpoint) (u : Endpoint)
      → Elem u es
      → least_in_flight b least es ≤ count_in_flight b u.assignment
  unfolding least_in_flight
  least_le_all least [] u m = elim m [ ]
  least_le_all least (e ∷ es) u (inl p) =
      rw p (omega (arith, least_le (min least (count_in_flight b e.assignment)) es))
  least_le_all least (e ∷ es) u (inr q) =
      least_le_all (min least (count_in_flight b e.assignment)) es u q

  -- The minimum is the start value or is attained.
  least_attained :
      (least : ℕ) (es : List Endpoint)
      → (least_in_flight b least es ≡ least)
        ⊎ ((u : Endpoint) × Elem u es
            × (count_in_flight b u.assignment ≡ least_in_flight b least es))
  unfolding least_in_flight
  least_attained least [] = inl refl
  least_attained least (e ∷ es) =
      elim (least_attained (min least (count_in_flight b e.assignment)) es) [
        | inr (u, m, p) ↦ inr (u, inr m, p)
        | inl p ↦ elim (Bool-cases (leb least (count_in_flight b e.assignment))) [
          | inl below ↦ inl (p ∙ ground arith)
          | inr above ↦ inr (e, inl refl, ground arith)
        ]
      ]

  tied-Elem :
      (least : ℕ) (es : List Endpoint) (u : Endpoint)
      → Elem u (tied_endpoints b least es)
      → Elem u es × (count_in_flight b u.assignment ≡ least)
  unfolding tied_endpoints
  tied-Elem least [] u m = elim m [ ]
  tied-Elem least (e ∷ es) u m = elim (Bool-cases (count_in_flight b e.assignment == least)) [
    | inr differs ↦
        let (found, same_count) = tied-Elem least es u (ground arith) in (inr found, same_count)
    | inl agrees ↦
        let split : (u ≡ e) ⊎ Elem u (tied_endpoints b least es) = ground arith in
        elim split [
          | inl p ↦ (inl p, rw p (ground arith))
          | inr q ↦ let (found, same_count) = tied-Elem least es u q in (inr found, same_count)
        ]
  ]

  Elem-tied :
      (least : ℕ) (es : List Endpoint) (u : Endpoint)
      → Elem u es
      → count_in_flight b u.assignment ≡ least
      → 0 < length (tied_endpoints b least es)
  unfolding tied_endpoints
  Elem-tied least [] u m p = elim m [ ]
  Elem-tied least (e ∷ es) u (inl q) p =
      let here : count_in_flight b e.assignment ≡ least =
        subst (λ w. count_in_flight b w.assignment ≡ least) q p in
      ground arith
  Elem-tied least (e ∷ es) u (inr m) p = let rest = Elem-tied least es u m p in ground arith

get_elem?-Elem :
    (es : List Endpoint) (k : ℕ)
    → k < length es
    → (u : Endpoint) × (get_elem? es k ≡ some u) × Elem u es
get_elem?-Elem [] k h = absurd (omega arith)
get_elem?-Elem (e ∷ es) zero h = (e, refl, inl refl)
get_elem?-Elem (e ∷ es) (suc k) h =
    let (u, found, m) = get_elem?-Elem es k (omega arith) in (u, found, inr m)

-- The Endpoint has no more leases outstanding than any that serves the target.
pub record IsLeast (b : Balancer) (t : RouteTarget) (es : List Endpoint) (e : Endpoint)
    : Type 0 where
  pub offered : Elem e es
  pub fits : serves t e ≡ true
  pub least :
      (u : Endpoint)
      → Elem u es
      → serves t u ≡ true
      → count_in_flight b e.assignment ≤ count_in_flight b u.assignment

choose_least :
    (b : Balancer) (key : TargetKey) (es : List Endpoint) (u : Endpoint)
    → Elem u es
    → (c : Endpoint) × ((choose_endpoint b key es).1 ≡ ok c)
      × Elem c es
      × ((w : Endpoint)
          → Elem w es
          → count_in_flight b c.assignment ≤ count_in_flight b w.assignment)
unfolding choose_endpoint
choose_least b key [] u m = elim m [ ]
choose_least b key (e ∷ es) u m =
    let start_count = count_in_flight b e.assignment in
    let least = least_in_flight b start_count es in
    let tied = tied_endpoints b least (e ∷ es) in
    let some_tied : 0 < length tied = elim (least_attained b start_count es) [
      | inl p ↦ Elem-tied b least (e ∷ es) e (inl refl) (sym p)
      | inr (w, q, p) ↦ Elem-tied b least (e ∷ es) w (inr q) p
    ] in
    let (c, found, q) =
      get_elem?-Elem tied (or_zero (lookup key b.round_robin) % length tied)
        (mod-lt (or_zero (lookup key b.round_robin)) some_tied) in
    let (offered, lowest) = tied-Elem b least (e ∷ es) c q in
    (
      c,
      rw (choose_endpoint, found) refl,
      offered,
      λ w r. elim r [
        | inl p ↦ rw (p, lowest) (least_le b start_count es)
        | inr p ↦ rw lowest (least_le_all b start_count es w p)
      ],
    )

module _ (n : Net) where
  -- If the Function ID and the target are valid, no Endpoint is refused, and one of them serves the
  -- target, then an Endpoint is acquired: one that is offered, serves the target and has the fewest
  -- leases outstanding among those that do.
  pub acquire-IsLeast :
      (b : Balancer) (function_id : Str) (t : RouteTarget) (es : List Endpoint)
      {eligible : List Endpoint} (u : Endpoint)
      → identifier_pattern function_id ≡ true
      → validate_target t ≡ none
      → eligible_endpoints n t [] es ≡ ok eligible
      → Elem u es
      → serves t u ≡ true
      → (c : Endpoint) × ((acquire n b function_id t es).1 ≡ ok c) × IsLeast b t es c
  unfolding acquire
  acquire-IsLeast b function_id t es {eligible} u named valid collected m good =
      let into : (w : Endpoint)
          → Elem w es
          → serves t w ≡ true
          → Elem w (sort compare_endpoints eligible) =
        λ w q p.
          Elem-sort compare_endpoints w eligible (serves-eligible n t [] es collected w q p) in
      let (c, chosen, q, lowest) =
        choose_least b
          (record {
            function_id = function_id;
            version_id = t.version_id;
            generation = t.deployment_generation;
          })
          (sort compare_endpoints eligible) u (into u m good) in
      let (offered, fits) =
        eligible-serves n t [] es collected c (sort-Elem compare_endpoints c eligible q) in
      (
        c,
        rw (acquire, named, valid, collected) chosen,
        record { offered = offered; fits = fits; least = λ w r p. lowest w (into w r p) },
      )
