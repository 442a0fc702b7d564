-- ===== src/Text.antt =====
-- Go strings as lists of bytes, with the patterns and the order that the program uses on them.
pub mod Order
use Prim.Native.Char.{code}
use minicloud.Base.{
  Bool, Eq, List, List-discrete, String, [], false, if◌then◌else◌, int_eq, leb, length, ltb, nat_eq,
  suc, true, zero, ℕ, ℕ_discrete, ◌&&◌, ◌==◌, ◌||◌, ◌∷◌,
}

-- The bytes of a string; each is below 256 in the program.
abbrev pub Str : Type 0
Str = List ℕ

unfoldable pub Str-discrete : Discrete Str
unfolding List-discrete ℕ_discrete
Str-discrete = List-discrete ℕ_discrete

instance abbrev pub str_eq : Eq Str
str_eq = record { dec = Str-discrete }

-- The bytes of an ASCII literal.
abbrev pub codes : String → Str
codes String.[] = []
codes (String.◌∷◌ c s) = code c ∷ codes s

unfoldable pub all_bytes : (ℕ → Bool) → Str → Bool
all_bytes p [] = true
all_bytes p (c ∷ s) = p c && all_bytes p s

abbrev pub is_between : ℕ → ℕ → ℕ → Bool
is_between lo hi c = leb lo c && leb c hi

abbrev pub is_digit : ℕ → Bool
is_digit = is_between b'0' b'9'

abbrev pub is_lower : ℕ → Bool
is_lower = is_between b'a' b'z'

abbrev pub is_upper : ℕ → Bool
is_upper = is_between b'A' b'Z'

-- A byte of the class `[A-Za-z0-9._:-]`.
unfoldable pub is_identifier_byte : ℕ → Bool
is_identifier_byte c =
    is_upper c || is_lower c || is_digit c || c == b'.' || c == b'_' || c == b':' || c == b'-'

-- `^[A-Za-z0-9._:-]{1,128}$`
unfoldable pub identifier_pattern : Str → Bool
unfolding all_bytes is_identifier_byte
identifier_pattern s = ltb 0 (length s) && leb (length s) 128 && all_bytes is_identifier_byte s

-- A byte of the class `[a-z0-9_.-]`.
unfoldable pub is_label_byte : ℕ → Bool
is_label_byte c = is_lower c || is_digit c || c == b'_' || c == b'.' || c == b'-'

-- `^[a-z][a-z0-9_.-]{0,62}$`
unfoldable pub label_key_pattern : Str → Bool
unfolding all_bytes is_label_byte
label_key_pattern [] = false
label_key_pattern (c ∷ s) = is_lower c && leb (length s) 62 && all_bytes is_label_byte s

-- `utf8.ValidString`: what the bytes read so far still ask for. `tail` is any continuation byte, the
-- others are the bounded second bytes after E0, ED, F0 and F4.
pub data Expect : Type 0 where
  start broken : Expect
  tail : ℕ → Expect
  second : ℕ → ℕ → ℕ → Expect

utf8_lead : ℕ → Expect
utf8_lead c =
    if ltb c 0x80
    then start
    else if is_between 0xC2 0xDF c
    then tail 0
    else if c == 0xE0
    then second 0xA0 0xBF 1
    else if c == 0xED
    then second 0x80 0x9F 1
    else if is_between 0xE1 0xEF c
    then tail 1
    else if c == 0xF0
    then second 0x90 0xBF 2
    else if is_between 0xF1 0xF3 c
    then tail 2
    else if c == 0xF4
    then second 0x80 0x8F 2
    else broken

utf8_more : ℕ → Expect
utf8_more zero = start
utf8_more (suc n) = tail n

utf8_step : Expect → ℕ → Expect
unfolding utf8_lead utf8_more
utf8_step start c = utf8_lead c
utf8_step broken c = broken
utf8_step (tail n) c = if is_between 0x80 0xBF c then utf8_more n else broken
utf8_step (second lo hi n) c = if is_between lo hi c then utf8_more n else broken

utf8_scan : Expect → Str → Bool
unfolding utf8_step
utf8_scan start [] = true
utf8_scan _ [] = false
utf8_scan e (c ∷ s) = utf8_scan (utf8_step e c) s

unfoldable pub valid_utf8 : Str → Bool
unfolding utf8_scan
valid_utf8 s = utf8_scan start s

-- Go's `left < right` on strings: the order of the bytes, a prefix first.
unfoldable pub str_ltb : Str → Str → Bool
str_ltb s [] = false
str_ltb [] (d ∷ t) = true
str_ltb (c ∷ s) (d ∷ t) = if ltb c d then true else if ltb d c then false else str_ltb s t
