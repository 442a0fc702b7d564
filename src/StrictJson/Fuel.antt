-- ===== src/StrictJson/Fuel.antt =====
-- internal/strictjson/json.go: the fuel of the readers is enough for every decoder that consumes input.
use minicloud.Base.{
  Bool, List, Nothing, [], arith, false, int_eq, length, nat_eq, none, suc, true, zero, ℕ, ◌*◌, ◌+◌,
  ◌<◌, ◌∷◌, ◌≡◌, ◌≢◌, ◌≤◌,
}
use minicloud.Text.{Str, str_eq}
use minicloud.StrictJson.{
  Decoder, Reading, Token, behind, broken_input, consume_closing, end_of_input, refused, spent,
  text, validate_array, validate_json, validate_object, validate_value,
}

abbrev pub is_read : Token → Bool
is_read end_of_input = false
is_read broken_input = false
is_read _ = true

abbrev key_of : Token → Str
key_of (text key) = key
key_of _ = []

-- What is documented of a decoder: it holds at most the bytes it was made on, and a token takes at least
-- one of them.
pub record IsConsuming (d : Decoder) : Type 0 where
  pub remaining : d.State → ℕ
  pub start_le : (bytes : Str) → remaining (d.start bytes) ≤ length bytes
  pub token_lt :
      (s : d.State) → is_read (d.token s).0 ≡ true → remaining (d.token s).1 < remaining s

module _ (d : Decoder) (c : IsConsuming d) where
  -- The reader stops, and leaves less than `n`.
  abbrev Stops : ℕ → Reading d.State → Type 0
  Stops n spent = Nothing
  Stops n (refused e) = Unit
  Stops n (behind s) = c.remaining s < n

  Stops-weaken : {m n : ℕ} (r : Reading d.State) → m ≤ n → Stops m r → Stops n r
  Stops-weaken spent le h = elim h [ ]
  Stops-weaken (refused e) le h = tt
  Stops-weaken (behind s) le h = omega arith

  consume_closing-Stops :
      (s : d.State) (expected : ℕ) → Stops (c.remaining s) (consume_closing d s expected)
  unfolding consume_closing
  consume_closing-Stops s expected = ground (arith, c.token_lt s)

  -- A reader that goes on where another one stopped.
  abbrev then_read : Reading d.State → (d.State → Reading d.State) → Reading d.State
  then_read spent next = spent
  then_read (refused e) next = refused e
  then_read (behind s) next = next s

  then_read-Stops :
      {n : ℕ} (r : Reading d.State) (next : d.State → Reading d.State)
      → Stops n r
      → ((s : d.State) → c.remaining s < n → Stops (c.remaining s) (next s))
      → Stops n (then_read r next)
  then_read-Stops spent next h k = elim h [ ]
  then_read-Stops (refused e) next h k = tt
  then_read-Stops (behind s) next h k = Stops-weaken (next s) (omega arith) (k s h)

  mutual
    unfolding validate_value

    validate_value-Stops :
        (fuel : ℕ) (s : d.State) (depth max : ℕ)
        → 2 * c.remaining s + 1 ≤ fuel
        → Stops (c.remaining s) (validate_value d fuel s depth max)
    validate_value-Stops zero s depth max h = absurd (omega arith)
    validate_value-Stops (suc fuel) s depth max h =
        let later = (d.token s).1 in
        let object : c.remaining later < c.remaining s
            → Stops (c.remaining s) (validate_object d fuel later (suc depth) max []) =
          λ lt.
            Stops-weaken _ (omega arith)
              (validate_object-Stops fuel later (suc depth) max [] (omega arith)) in
        let array : c.remaining later < c.remaining s
            → Stops (c.remaining s) (validate_array d fuel later (suc depth) max) =
          λ lt.
            Stops-weaken _ (omega arith)
              (validate_array-Stops fuel later (suc depth) max (omega arith)) in
        ground (arith, c.token_lt s, object, array)

    validate_object-Stops :
        (fuel : ℕ) (s : d.State) (depth max : ℕ) (keys : List Str)
        → 2 * c.remaining s + 2 ≤ fuel
        → Stops (c.remaining s) (validate_object d fuel s depth max keys)
    validate_object-Stops zero s depth max keys h = absurd (omega arith)
    validate_object-Stops (suc fuel) s depth max keys h =
        let later = (d.token s).1 in
        let key = key_of (d.token s).0 in
        let member : c.remaining later < c.remaining s
            → Stops (c.remaining s) (
                then_read (validate_value d fuel later depth max)
                  (λ s'. validate_object d fuel s' depth max (key ∷ keys))) =
          λ lt. Stops-weaken _ (omega arith) (
            then_read-Stops _ _ (validate_value-Stops fuel later depth max (omega arith))
              (λ s' le. validate_object-Stops fuel s' depth max (key ∷ keys) (omega arith))) in
        ground (arith, c.token_lt s, consume_closing-Stops s b'}', member)

    validate_array-Stops :
        (fuel : ℕ) (s : d.State) (depth max : ℕ)
        → 2 * c.remaining s + 2 ≤ fuel
        → Stops (c.remaining s) (validate_array d fuel s depth max)
    validate_array-Stops zero s depth max h = absurd (omega arith)
    validate_array-Stops (suc fuel) s depth max h =
        let items : Stops (c.remaining s) (
            then_read (validate_value d fuel s depth max)
              (λ s'. validate_array d fuel s' depth max)) =
          then_read-Stops _ _ (validate_value-Stops fuel s depth max (omega arith))
            (λ s' le. validate_array-Stops fuel s' depth max (omega arith)) in
        ground (arith, consume_closing-Stops s b']', items)

  -- The validation of any bytes ends with a verdict: its fuel is never spent.
  pub validate_json_ends : (bytes : Str) (max_depth : ℕ) → validate_json d bytes max_depth ≢ none
  unfolding validate_json
  validate_json_ends bytes max_depth = ground (
    arith,
    c.start_le bytes,
    validate_value-Stops (2 * length bytes + 1) (d.start bytes) 0 max_depth
        (omega (arith, c.start_le bytes)),
  )
