-- ===== src/Cobs/Tests.antt =====
-- Five bytes with two zeros, there and back.
use libmcu.Base.{
  ℕ, suc, ◌+◌, ◌/◌, ◌≤◌, ◌≡◌, ◌⊎◌, refl, List, [], ◌∷◌, length, take, replicate, get_or, done,
  arith,
}
use libmcu.Cobs.{
  encode_loop, put_byte, close_group, finish, decode_loop, decode_byte, overwrite_loop, cobs_encode,
  cobs_decode, cobs_decode_overwrite,
}
use libmcu.Cobs.RoundTrip.{IsNonzero, cobs_decode-cobs_encode}

abbrev bytes : List ℕ
bytes = 7 ∷ 0 ∷ 8 ∷ 9 ∷ 0 ∷ []

abbrev space : List ℕ
space = replicate 8 1

encodes : cobs_encode space 8 bytes ≡ done (2 ∷ 7 ∷ 3 ∷ 8 ∷ 9 ∷ 1 ∷ 0 ∷ 1 ∷ [], 7)
unfolding cobs_encode encode_loop put_byte close_group finish
encodes = refl

-- The zero behind the bytes is decoded to one more zero.
decodes_end :
    cobs_decode space 8 (2 ∷ 7 ∷ 3 ∷ 8 ∷ 9 ∷ 1 ∷ 0 ∷ []) ≡ (7 ∷ 0 ∷ 8 ∷ 9 ∷ 0 ∷ 0 ∷ 1 ∷ 1 ∷ [], 6)
unfolding cobs_decode decode_loop decode_byte
decodes_end = refl

decodes_in_place :
    cobs_decode_overwrite (2 ∷ 7 ∷ 3 ∷ 8 ∷ 9 ∷ 1 ∷ []) 6 ≡ (7 ∷ 0 ∷ 8 ∷ 9 ∷ 0 ∷ 1 ∷ [], 5)
unfolding cobs_decode_overwrite overwrite_loop decode_byte
decodes_in_place = refl

cobs_decode-cobs_encode_example :
    (buf' : List ℕ) × (n k : ℕ) × (cobs_encode space 8 bytes ≡ done (buf', n))
    × ((n ≡ k) ⊎ (n ≡ suc k))
    × IsNonzero (take k buf')
    × (get_or buf' k 1 ≡ 0)
    × (k ≤ length bytes + length bytes / 254 + 1)
    × (let (out', m) = cobs_decode space 8 (take k buf') in
        (m ≡ length bytes) × (take m out' ≡ bytes))
cobs_decode-cobs_encode_example =
    cobs_decode-cobs_encode space space bytes (omega arith) (omega arith) (omega arith)
      (omega arith)
