-- ===== src/ControlPlane/Ledger/Canonical.antt =====
-- internal/controlplane/operation.go: `Request.Digest`. The JSON encoding, its canonical form, SHA-256
-- and the package net/url are arguments.
use minicloud.Base.{
  Bool, Option, [], contains, false, if◌then◌else◌, int_eq, is_empty, leb, length, ltb, map, nat_eq,
  none, not, some, true, ℕ, ◌!=◌, ◌&&◌, ◌-◌, ◌==◌, ◌||◌, ◌∷◌,
}
use minicloud.Text.{Str, all_bytes, codes, is_lower, str_eq, valid_utf8}
use minicloud.Problem.{Error, Result, err, invalid, ok, plain, require, ◌then_check◌}
use minicloud.Digest.{canonical_json, is_digest}
use minicloud.StrictJson.{Decoder, validate_json}
use minicloud.Model.Route.{is_token_byte}
use minicloud.ControlPlane.Ledger.{Request, operation_key_eq, outcome_eq, validate_preconditions}

-- `canonicalRequest`
pub record CanonicalRequest : Type 0 where
  pub method : Str
  pub path : Str
  pub if_none_match : Bool
  pub expected_resource_revision : Option ℕ
  pub expected_active_route_revision : Option ℕ
  pub body_present : Bool
  pub body : Str
  pub artifact_digest : Option Str

-- What `url.ParseRequestURI` reads of a path, as far as it is used.
pub record ParsedUri : Type 0 where
  pub host : Str
  pub path : Str

-- The external encodings: `json.Marshal`, `jcs.Transform`, `sha256.Sum256`, `url.ParseRequestURI`,
-- `URL.EscapedPath` of a URL with this path only, and `json.NewDecoder`.
pub record RequestEncoding : Type 1 where
  pub marshal : CanonicalRequest → Option Str
  pub transform : Str → Option Str
  pub sha256 : Str → Str
  pub parse_request_uri : Str → Option ParsedUri
  pub escaped_path : Str → Str
  pub decoder : Decoder

abbrev upper_byte : ℕ → ℕ
upper_byte c = if is_lower c then c - 32 else c

-- `httpMethodPattern`, and `strings.ToUpper` of an ASCII string.
unfoldable pub canonical_method : Str → Result Str
unfolding is_token_byte
canonical_method m =
    if not (is_empty m) && leb (length m) 16 && all_bytes is_token_byte m
    then ok (map upper_byte m)
    else err (invalid "method" "must be a valid HTTP token within 16 bytes")

abbrev starts_with_slash : Str → Bool
starts_with_slash [] = false
starts_with_slash (c ∷ s) = c == b'/'

abbrev is_path_host : ParsedUri → Bool
is_path_host u = is_empty u.host && valid_utf8 u.path

unfoldable pub canonical_path : RequestEncoding → Str → Result Str
canonical_path enc value =
    if is_empty value
      || ltb 4_096 (length value)
      || not (valid_utf8 value)
      || contains 0 value
      || not (starts_with_slash value)
    then err (invalid "path" "must be a valid absolute path within 4096 bytes")
    else if contains b'?' value || contains b'#' value
    then err (invalid "path" "must not contain a query or fragment")
    else elim (enc.parse_request_uri value) [
      | none ↦ err (invalid "path" "must be a valid absolute URI path")
      | some u ↦
          if not (is_path_host u)
          then err (invalid "path" "must be a valid absolute URI path")
          else if enc.escaped_path u.path != value
          then err (invalid "path" "must use canonical percent encoding")
          else ok (enc.escaped_path u.path)
    ]

-- `strictjson.Validate` returned nil.
abbrev accepts : Option (Option Error) → Bool
accepts (some none) = true
accepts (some (some _)) = false
accepts none = false

unfoldable pub validate_body : Decoder → Bool → Str → Option Error
unfolding validate_json
validate_body d present body =
    if not present
    then require (is_empty body) (invalid "body" "must be absent when body_present is false")
    else require (not (is_empty body) && leb (length body) 1_048_576)
        (invalid "body" "must be a JSON value within the management body limit")
      then_check require (accepts (validate_json d body 32))
          (invalid "body" "must be bounded strict JSON")

abbrev is_digest_or_nil : Option Str → Bool
is_digest_or_nil none = true
is_digest_or_nil (some d) = is_digest d

unfoldable pub canonical_request : Request → Str → Str → CanonicalRequest
canonical_request r method path = record {
  method = method;
  path = path;
  if_none_match = r.preconditions.if_none_match;
  expected_resource_revision = r.preconditions.expected_resource_revision;
  expected_active_route_revision = r.preconditions.expected_active_route_revision;
  body_present = r.body_present;
  body = r.body;
  artifact_digest = r.artifact_digest;
}

-- `Request.Digest` behind the method and the path.
unfoldable pub digest_canonical : RequestEncoding → Request → Str → Str → Result Str
unfolding validate_preconditions validate_body canonical_request
digest_canonical enc r method path =
    elim (validate_preconditions r.preconditions
      then_check validate_body enc.decoder r.body_present r.body
      then_check require (is_digest_or_nil r.artifact_digest)
          (invalid "artifact_digest" "must be a lowercase sha-256 digest")) [
            | some e ↦ err e
            | none ↦ elim (enc.marshal (canonical_request r method path)) [
              | none ↦ err (plain "marshaling canonical control operation request")
              | some encoded ↦
                  canonical_json enc.sha256 enc.transform (codes "control-operation-request")
                    (codes "v1") encoded
            ]
          ]

unfoldable pub request_digest : RequestEncoding → Request → Result Str
unfolding canonical_method canonical_path digest_canonical
request_digest enc r = elim (canonical_method r.method) [
  | err e ↦ err e
  | ok method ↦ elim (canonical_path enc r.path) [
    | err e ↦ err e
    | ok path ↦ digest_canonical enc r method path
  ]
]
