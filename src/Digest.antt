-- ===== src/Digest.antt =====
-- internal/digest/digest.go. SHA-256 and the JSON canonicaliser are arguments.
use minicloud.Base.{
  Bool, Option, [], false, if◌then◌else◌, is_empty, length, ltb, nat_eq, none, some, ℕ, ◌%◌, ◌&&◌,
  ◌++◌, ◌+◌, ◌-◌, ◌/◌, ◌==◌, ◌||◌, ◌∷◌,
}
use minicloud.Text.{Str, all_bytes, codes, is_between, is_digit, str_eq}
use minicloud.Problem.{Result, err, ok, plain}

-- A byte of the class `[0-9a-f]`.
unfoldable pub is_hex : ℕ → Bool
is_hex c = is_digit c || is_between b'a' b'f' c

-- The rest of a string behind a prefix.
unfoldable pub strip_prefix : Str → Str → Option Str
strip_prefix [] s = some s
strip_prefix (p ∷ ps) [] = none
strip_prefix (p ∷ ps) (c ∷ s) = if p == c then strip_prefix ps s else none

-- `^sha256:[0-9a-f]{64}$`
unfoldable pub is_digest : Str → Bool
unfolding is_hex strip_prefix all_bytes
is_digest s = elim (strip_prefix (codes "sha256:") s) [
  | none ↦ false
  | some rest ↦ length rest == 64 && all_bytes is_hex rest
]

hex_digit : ℕ → ℕ
hex_digit n = if ltb n 10 then b'0' + n else b'a' + (n - 10)

unfoldable pub hex_encode : Str → Str
unfolding hex_digit
hex_encode [] = []
hex_encode (c ∷ s) = hex_digit (c / 16) ∷ hex_digit (c % 16) ∷ hex_encode s

module _ (sha256 : Str → Str) where
  unfoldable pub sum : Str → Str
  unfolding hex_encode
  sum bytes = codes "sha256:" ++ hex_encode (sha256 bytes)

  module _ (transform : Str → Option Str) where
    unfoldable pub canonical_json : Str → Str → Str → Result Str
    unfolding sum
    canonical_json domain schema_version source =
        if is_empty domain
        then err (plain "digest domain is required")
        else if is_empty schema_version
        then err (plain "digest schema version is required")
        else elim (transform source) [
          | none ↦ err (plain "canonicalizing json")
          | some canonical ↦ ok (
              sum (
                (codes "minicloud" ++ (0 ∷ []))
                ++ (domain ++ ((0 ∷ []) ++ (schema_version ++ ((0 ∷ []) ++ canonical))))))
        ]
