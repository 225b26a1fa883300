-- ===== src/Base64/Tests.antt =====
-- Encoding and decoding concrete bytes.
use libmcu.Base.{ℕ, ◌≡◌, refl, List, [], ◌∷◌, arith}
use libmcu.Base64.{
  lm_base64_encode, lm_base64_decode, lm_base64url_encode, lm_base64url_decode, encode,
  encode_group, to_base64_variant,
}
use libmcu.Base64.RoundTrip.{lm_base64_decode_lem}

abbrev bytes : List ℕ
bytes = 255 ∷ 254 ∷ 77 ∷ 0 ∷ 97 ∷ []

lm_base64_decode_lem_example :
    (lm_base64_decode 5 (lm_base64_encode 8 bytes) ≡ bytes)
    × (lm_base64url_decode 5 (lm_base64url_encode 8 bytes) ≡ bytes)
lm_base64_decode_lem_example =
    lm_base64_decode_lem 8 5 bytes
      (omega arith, (omega arith, (omega arith, (omega arith, (omega arith, tt))))) (omega arith)
      (omega arith) (omega arith) (omega arith)

encode_test : lm_base64_encode 4 (77 ∷ 97 ∷ []) ≡ 84 ∷ 87 ∷ 69 ∷ 61 ∷ []
unfolding lm_base64_encode encode encode_group to_base64_variant
encode_test = refl
