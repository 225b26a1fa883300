-- ===== src/Hash.antt =====
-- modules/common/src/hash.c: two hashes of a C string, given by its bytes before the NUL, at an
-- unsigned `char`.
use libmcu.Base.{ℕ, ◌+◌, ◌*◌, ◌/◌, ◌^◌, bit_xor, List, [], ◌∷◌, u32}

-- The loop, from the value so far.
unfoldable pub murmur_from : ℕ → List ℕ → ℕ
murmur_from h [] = h
murmur_from h (c ∷ key) =
    let h' = u32 (bit_xor h c * 0x5bd1e995) in murmur_from (bit_xor h' (h' / 2 ^ 15)) key

unfoldable pub hash_murmur_32 : List ℕ → ℕ
hash_murmur_32 key = murmur_from 3323198485 key

unfoldable pub dbj2_from : ℕ → List ℕ → ℕ
dbj2_from h [] = h
dbj2_from h (c ∷ key) = dbj2_from (u32 (u32 (u32 (h * 2 ^ 5) + h) + c)) key

unfoldable pub hash_dbj2_32 : List ℕ → ℕ
hash_dbj2_32 key = dbj2_from 5381 key
