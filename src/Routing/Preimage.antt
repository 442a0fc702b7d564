-- ===== src/Routing/Preimage.antt =====
-- The length-prefixed preimage of a Route decision determines its fields.
use minicloud.Base.{
  All, List, [], ap, arith, inl, inr, int_eq, length, nat_eq, refl, suc, sym, zero, ℕ, ◌%◌, ◌++◌,
  ◌+◌, ◌<◌, ◌^◌, ◌∙◌, ◌∷◌, ◌≡◌,
}
use minicloud.Text.{Str, str_eq}
use minicloud.Problem.{Result-cases, ok}
use minicloud.Routing.{
  ServingRoute, hash_fields, hash_preimage, prefixed, put_uint32, put_uint64, total_bytes, u32,
}

append_injective : (f g x y : Str) → length f ≡ length g → f ++ x ≡ g ++ y → (f ≡ g) × (x ≡ y)
append_injective [] [] x y n e = (refl, e)
append_injective [] (d ∷ g) x y n e = absurd (ground arith)
append_injective (c ∷ f) [] x y n e = absurd (ground arith)
append_injective (c ∷ f) (d ∷ g) x y n e =
    let (same_tail, rest) = append_injective f g x y (omega arith) (ground arith) in
    (ground arith, rest)

put_uint32_injective :
    (a b : ℕ) (x y : Str)
    → a < 2 ^ 32
    → b < 2 ^ 32
    → put_uint32 a ++ x ≡ put_uint32 b ++ y
    → (a ≡ b) × (x ≡ y)
unfolding put_uint32
put_uint32_injective a b x y small_a small_b e = ground arith

put_uint64_injective : (a b : ℕ) → a < 2 ^ 64 → b < 2 ^ 64 → put_uint64 a ≡ put_uint64 b → a ≡ b
unfolding put_uint64 put_uint32
put_uint64_injective a b small_a small_b e = ground arith

abbrev AreShort : List Str → Type 0
AreShort fs = All (λ f. length f < 2 ^ 32) fs

prefixed_injective :
    (fs gs : List Str)
    → length fs ≡ length gs
    → AreShort fs
    → AreShort gs
    → prefixed fs ≡ prefixed gs
    → fs ≡ gs
unfolding prefixed
prefixed_injective [] [] n short_f short_g e = refl
prefixed_injective [] (g ∷ gs) n short_f short_g e = absurd (ground arith)
prefixed_injective (f ∷ fs) [] n short_f short_g e = absurd (ground arith)
prefixed_injective (f ∷ fs) (g ∷ gs) n (short_f, more_f) (short_g, more_g) e =
    let (lengths, rest) =
      put_uint32_injective (u32 (length f)) (u32 (length g)) (f ++ prefixed fs) (g ++ prefixed gs)
        (omega arith) (omega arith) e in
    let (heads, more) = append_injective f g (prefixed fs) (prefixed gs) (omega arith) rest in
    let tails = prefixed_injective fs gs (omega arith) more_f more_g more in cc

total_bytes-AreShort :
    (total : ℕ) (fs : List Str) {out : ℕ} → total_bytes total fs ≡ ok out → AreShort fs
unfolding total_bytes
total_bytes-AreShort total [] h = tt
total_bytes-AreShort total (f ∷ fs) {out} h =
    let rest : total_bytes ((total + (4 + length f)) % 2 ^ 64) fs ≡ ok out = ground arith in
    (ground arith, total_bytes-AreShort ((total + (4 + length f)) % 2 ^ 64) fs rest)

-- The preimage of a decision was computed from short fields.
hash_preimage_fields :
    (r : ServingRoute) (k p : Str)
    → hash_preimage r k ≡ ok p
    → AreShort (hash_fields r k) × (p ≡ prefixed (hash_fields r k))
unfolding hash_preimage
hash_preimage_fields r k p h = elim (Result-cases (total_bytes 0 (hash_fields r k))) [
  | inl (e, failed) ↦ ground arith
  | inr (out, passed) ↦
      let short = total_bytes-AreShort 0 (hash_fields r k) passed in (short, ground arith)
]

-- Two preimages that are computed, from Routes whose revisions fit in 64 bits, and are equal have the
-- same Function, Route revision, salt and affinity key.
pub hash_preimage_injective :
    (r s : ServingRoute) (k l p : Str)
    → r.route_revision < 2 ^ 64
    → s.route_revision < 2 ^ 64
    → hash_preimage r k ≡ ok p
    → hash_preimage s l ≡ ok p
    → (r.function_id ≡ s.function_id)
      × (r.route_revision ≡ s.route_revision)
      × (r.salt ≡ s.salt)
      × (k ≡ l)
unfolding hash_fields
hash_preimage_injective r s k l p small_r small_s made_r made_s =
    let (short_r, eq_r) = hash_preimage_fields r k p made_r in
    let (short_s, eq_s) = hash_preimage_fields s l p made_s in
    let fields : hash_fields r k ≡ hash_fields s l =
      prefixed_injective (hash_fields r k) (hash_fields s l) refl short_r short_s
        (sym eq_r ∙ eq_s) in
    (
      ap (λ fs. at 1 fs) fields,
      put_uint64_injective r.route_revision s.route_revision small_r small_s
          (ap (λ fs. at 2 fs) fields),
      ap (λ fs. at 3 fs) fields,
      ap (λ fs. at 4 fs) fields,
    )
  where
    at : ℕ → List Str → Str
    at n [] = []
    at zero (f ∷ fs) = f
    at (suc n) (f ∷ fs) = at n fs
