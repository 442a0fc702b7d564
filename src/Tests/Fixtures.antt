-- ===== src/Tests/Fixtures.antt =====
-- Names and digests for the runs.
use minicloud.Digest.{is_digest, is_hex}
use minicloud.Base.{int_eq, nat_eq, refl, true, ℕ_discrete, ◌≡◌}
use minicloud.Text.{Str, Str-discrete, codes, identifier_pattern, str_eq}

abbrev pub digest : Str
digest = codes "sha256:0123456789abcdef0123456789abcdef0123456789abcdef0123456789abcdef"

-- What a run computes with.
unfoldable pub texts : Unit {0}
unfolding Str-discrete ℕ_discrete identifier_pattern is_digest is_hex
texts = tt

digest_is_valid : is_digest digest ≡ true
unfolding texts
digest_is_valid = refl
