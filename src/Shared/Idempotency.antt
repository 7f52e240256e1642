-- ===== src/Shared/Idempotency.antt =====
-- packages/shared/src/idempotency.ts. The callers pass a header's text or nothing.
use octg.Common.{ℕ, String, Option, none, some, leb, if◌then◌else◌, same, utf8_length}

abbrev pub max_idempotency_key_bytes : ℕ
max_idempotency_key_bytes = 255

pub data ParsedIdempotencyKey : Type 0 where
  absent invalid : ParsedIdempotencyKey
  valid : String → ParsedIdempotencyKey

unfoldable pub parse_idempotency_key : Option String → ParsedIdempotencyKey
parse_idempotency_key none = absent
parse_idempotency_key (some value) =
    if same value ""
    then absent
    else if leb (utf8_length value) max_idempotency_key_bytes
    then valid value
    else invalid

abbrev pub key_of : ParsedIdempotencyKey → Option String
key_of absent = none
key_of invalid = none
key_of (valid value) = some value
