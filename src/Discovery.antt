-- ===== src/Discovery.antt =====
-- internal/discovery/types.go and builder.go: the Endpoint and its address. What the check calls of the
-- packages net, netip and strings is an argument.
use minicloud.Problem.{Error, invalid, require, ◌then_check◌}
use minicloud.ServingAuth.{
  AssignmentIdentity, connection_eq, fence_eq, identity_eq, mode_eq, normal, session_eq,
  validate_identity,
}
use minicloud.Text.{Str, all_bytes, codes, is_digit, is_lower, is_upper, str_eq, valid_utf8}
use minicloud.Base.{
  Bool, List, Option, [], false, if◌then◌else◌, int_eq, is_empty, leb, length, ltb, nat_eq, none,
  not, some, true, ℕ, ◌!=◌, ◌&&◌, ◌*◌, ◌++◌, ◌+◌, ◌-◌, ◌==◌, ◌||◌, ◌∷◌,
}

pub record Endpoint : Type 0 where
  pub assignment : AssignmentIdentity
  pub address : Str
  pub state : Str

abbrev pub endpoint_ready : Str
endpoint_ready = codes "Ready"

abbrev max_address_bytes : ℕ
max_address_bytes = 512

-- `strings.TrimSpace`, `net.SplitHostPort` with `none` for an error, and whether `netip.ParseAddr`
-- accepts.
pub record Net : Type 0 where
  pub trim_space : Str → Str
  pub split_host_port : Str → Option (Str × Str)
  pub is_addr : Str → Bool

decimal_value : ℕ → Str → ℕ
decimal_value acc [] = acc
decimal_value acc (c ∷ s) = decimal_value (acc * 10 + (c - b'0')) s

-- `strconv.ParseUint(s, 10, 16)` succeeds with a number other than zero.
unfoldable pub valid_port : Str → Bool
unfolding all_bytes decimal_value
valid_port s =
    not (is_empty s)
    && all_bytes is_digit s
    && ltb (decimal_value 0 s) 65536
    && decimal_value 0 s != 0

-- A byte of the class `[A-Za-z0-9.-]`.
unfoldable pub is_host_byte : ℕ → Bool
is_host_byte c = is_upper c || is_lower c || is_digit c || c == b'.' || c == b'-'

last_byte : ℕ → Str → ℕ
last_byte c [] = c
last_byte c (d ∷ s) = last_byte d s

valid_label : Str → Bool
unfolding last_byte
valid_label [] = false
valid_label (c ∷ s) = leb (length s) 62 && c != b'-' && last_byte c s != b'-'

-- `strings.Split(s, ".")`, from the label read so far.
split_dots : Str → Str → List Str
split_dots label [] = label ∷ []
split_dots label (c ∷ s) =
    if c == b'.' then label ∷ split_dots [] s else split_dots (label ++ (c ∷ [])) s

valid_labels : List Str → Bool
unfolding valid_label
valid_labels [] = true
valid_labels (l ∷ ls) = valid_label l && valid_labels ls

unfoldable pub valid_host : Net → Str → Bool
unfolding all_bytes is_host_byte split_dots valid_labels
valid_host n host =
    n.is_addr host
    || (ltb 0 (length host)
        && leb (length host) 253
        && all_bytes is_host_byte host
        && valid_labels (split_dots [] host))

unfoldable pub valid_endpoint_address : Net → Str → Bool
unfolding valid_port valid_host
valid_endpoint_address n address =
    if is_empty address
      || ltb max_address_bytes (length address)
      || not (valid_utf8 address)
      || n.trim_space address != address
    then false
    else elim (n.split_host_port address) [
      | none ↦ false
      | some parts ↦ not (is_empty parts.0) && valid_port parts.1 && valid_host n parts.0
    ]

unfoldable pub validate_endpoint : Net → Endpoint → Option Error
unfolding valid_endpoint_address
validate_endpoint n e =
    require (elim (validate_identity e.assignment) [ none ↦ true | some _ ↦ false ])
      (invalid "endpoint.assignment" "contains an invalid Assignment fence")
    then_check require (e.assignment.mode == normal && e.state == endpoint_ready)
        (invalid "endpoint" "is not a normal ready Endpoint")
    then_check require (valid_endpoint_address n e.address)
        (invalid "endpoint.address" "is not a valid internal address")
