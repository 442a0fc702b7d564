-- ===== src/StrictJson.antt =====
-- internal/strictjson/json.go: `Validate`. The `json.Decoder` of the standard library is an argument.
use minicloud.Problem.{Error, plain}
pub mod Fuel
use minicloud.Base.{
  Bool, List, Option, [], contains, false, if◌then◌else◌, int_eq, leb, length, nat_eq, none, not,
  some, suc, true, zero, ℕ, ◌*◌, ◌+◌, ◌==◌, ◌∷◌,
}
use minicloud.Text.{Str, str_eq, valid_utf8}

-- What `decoder.Token()` returns: the bytes of a delimiter, a string, another scalar, `io.EOF` or
-- another error.
pub data Token : Type 0 where
  delimiter : ℕ → Token
  text : Str → Token
  scalar : Token
  end_of_input broken_input : Token

-- A `json.Decoder`: the decoder on some data, its next token with the decoder behind it, and `More`.
pub record Decoder : Type 1 where
  pub State : Type 0
  pub start : Str → State
  pub token : State → Token × State
  pub more : State → Bool

-- How a delimiter opens a value.
pub data Opening : Type 0 where
  opens_object opens_array opens_nothing : Opening

unfoldable pub opening : ℕ → Opening
opening c = if c == b'{' then opens_object else if c == b'[' then opens_array else opens_nothing

abbrev pub error_too_deep : Error
error_too_deep = plain "json input exceeds depth limit"

abbrev pub error_duplicate_key : Error
error_duplicate_key = plain "json object contains duplicate key"

-- What a reader returns: an error, or the decoder behind what was read; or its fuel is spent.
pub data Reading (S : Type 0) : Type 0 where
  spent : Reading S
  refused : Error → Reading S
  behind : S → Reading S

module _ (d : Decoder) where
  unfoldable pub consume_closing : d.State → ℕ → Reading d.State
  consume_closing s expected =
      let (t, later) = d.token s in
      elim t [
        | end_of_input ↦ refused (plain "reading json closing delimiter")
        | broken_input ↦ refused (plain "reading json closing delimiter")
        | delimiter c ↦
            if c == expected
            then behind later
            else refused (plain "json input contains mismatched delimiter")
        | _ ↦ refused (plain "json input contains mismatched delimiter")
      ]

  -- The recursive readers, on fuel.
  unfoldable mutual
    unfolding opening consume_closing

    pub validate_value : ℕ → d.State → ℕ → ℕ → Reading d.State
    validate_value zero s depth max = spent
    validate_value (suc fuel) s depth max =
        let (t, later) = d.token s in
        elim t [
          | end_of_input ↦ refused (plain "reading json token")
          | broken_input ↦ refused (plain "reading json token")
          | delimiter c ↦ elim (leb (suc depth) max) [
            | false ↦ refused error_too_deep
            | true ↦ elim (opening c) [
              | opens_object ↦ validate_object fuel later (suc depth) max []
              | opens_array ↦ validate_array fuel later (suc depth) max
              | opens_nothing ↦ refused (plain "json input contains unexpected closing delimiter")
            ]
          ]
          | _ ↦ behind later
        ]

    pub validate_object : ℕ → d.State → ℕ → ℕ → List Str → Reading d.State
    validate_object zero s depth max keys = spent
    validate_object (suc fuel) s depth max keys = elim (d.more s) [
      | false ↦ consume_closing s b'}'
      | true ↦
          let (t, later) = d.token s in
          elim t [
            | end_of_input ↦ refused (plain "reading json object key")
            | broken_input ↦ refused (plain "reading json object key")
            | text key ↦ elim (contains key keys) [
              | true ↦ refused error_duplicate_key
              | false ↦ elim (validate_value fuel later depth max) [
                | spent ↦ spent
                | refused e ↦ refused e
                | behind s' ↦ validate_object fuel s' depth max (key ∷ keys)
              ]
            ]
            | _ ↦ refused (plain "json object key is not a string")
          ]
    ]

    pub validate_array : ℕ → d.State → ℕ → ℕ → Reading d.State
    validate_array zero s depth max = spent
    validate_array (suc fuel) s depth max = elim (d.more s) [
      | false ↦ consume_closing s b']'
      | true ↦ elim (validate_value fuel s depth max) [
        | spent ↦ spent
        | refused e ↦ refused e
        | behind s' ↦ validate_array fuel s' depth max
      ]
    ]

  -- Only the end of the data may follow the value.
  unfoldable pub check_end : d.State → Option Error
  check_end s =
      let (t, later) = d.token s in
      elim t [
        | end_of_input ↦ none
        | broken_input ↦ some (plain "reading json trailing data")
        | _ ↦ some (plain "json input contains multiple values")
      ]

  -- `Validate`, with `none` where the fuel is spent.
  unfoldable pub validate_json : Str → ℕ → Option (Option Error)
  unfolding validate_value check_end
  validate_json bytes max_depth =
      if leb max_depth 0
      then some (some (plain "json depth limit must be positive"))
      else if not (valid_utf8 bytes)
      then some (some (plain "json input is not valid utf-8"))
      else elim (validate_value (2 * length bytes + 1) (d.start bytes) 0 max_depth) [
        | spent ↦ none
        | refused e ↦ some (some e)
        | behind s ↦ some (check_end s)
      ]
