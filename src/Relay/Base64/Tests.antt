-- ===== src/Relay/Base64/Tests.antt =====
-- The encoding of four bytes.
use octg.Common.{ℕ, List, [], ◌∷◌, ◌≡◌, refl, some}
use octg.Relay.Base64.{encode, decode}
use octg.Relay.Base64.RoundTrip.{decode-encode}
use octg.Relay.Base64.Canonical.{encode-decode}
use octg.Relay.Base64.Letters.{IsByte}
use octg.Common.{All, arith}

abbrev bytes : List ℕ
bytes = b'a' ∷ b'b' ∷ 255 ∷ 254 ∷ []

abbrev text : List ℕ
text = b'Y' ∷ b'W' ∷ b'L' ∷ b'_' ∷ b'_' ∷ b'g' ∷ []

encode_test : encode bytes ≡ text
unfolding encode
encode_test = refl

decode_test : decode text ≡ some bytes
unfolding decode
decode_test = refl

decode-encode_example : decode (encode bytes) ≡ some bytes
decode-encode_example = decode-encode bytes (ground arith)

encode-decode_example : (encode bytes ≡ text) × All IsByte bytes
encode-decode_example = encode-decode text bytes decode_test
