-- ===== src/Base64.antt =====
-- modules/common/src/base64.c: bytes as characters of six bits each, with padding. The input is the
-- list of its bytes from the loop's index on; the result is what is stored, whose length the C
-- function returns. The functions that decode in place are not modelled.
pub mod Alphabet
pub mod RoundTrip
mod Tests
use libmcu.Base.{
  ℕ, zero, suc, ◌+◌, ◌-◌, ◌*◌, ◌/◌, ◌%◌, ◌^◌, bit_or, Bool, true, false, ◌&&◌, not, List, [], ◌∷◌,
  ◌++◌, length, get_or, leb, ltb, ◌==◌, if◌then◌else◌, u32,
}

-- The characters from `c` on.
abbrev pub span : ℕ → ℕ → List ℕ
span zero c = []
span (suc n) c = c ∷ span n (suc c)

abbrev pub alphanumeric : List ℕ
alphanumeric = span 26 65 ++ (span 26 97 ++ span 10 48)

abbrev pub ctbl : List ℕ
ctbl = alphanumeric ++ (43 ∷ 47 ∷ [])

abbrev pub ctbl_url : List ℕ
ctbl_url = alphanumeric ++ (45 ∷ 95 ∷ [])

-- '='
abbrev pub padding : ℕ
padding = 61

unfoldable pub to_base64_variant : ℕ → ℕ → List ℕ → ℕ
to_base64_variant word offset tbl = get_or tbl (word / 2 ^ (offset * 6) % 64) 0

unfoldable pub from_base64 : ℕ → ℕ → ℕ → ℕ
from_base64 c code62 code63 =
    if leb 65 c && leb c 90
    then c - 65
    else if leb 97 c && leb c 122
    then c - 97 + 26
    else if leb 48 c && leb c 57
    then c - 48 + 52
    else if c == code62
    then 62
    else if c == code63
    then 63
    else 64

unfoldable pub from_word : ℕ → ℕ → ℕ
from_word word offset = word / 2 ^ (offset * 8) % 256

-- The four characters of a group; `c1` and `c2` say that its second and third bytes are there.
unfoldable pub encode_group : List ℕ → Bool → Bool → ℕ → ℕ → ℕ → List ℕ
encode_group tbl c1 c2 b1 b2 b3 =
    let word = bit_or (bit_or (b1 * 2 ^ 16) (b2 * 2 ^ 8)) b3 in
    to_base64_variant word 3 tbl
    ∷ to_base64_variant word 2 tbl
    ∷ (if c1 then to_base64_variant word 1 tbl else padding)
    ∷ (if c2 then to_base64_variant word 0 tbl else padding)
    ∷ []

-- The loop, after `outdex` characters.
unfoldable pub encode : List ℕ → ℕ → ℕ → List ℕ → List ℕ
encode tbl bufsize outdex [] = []
encode tbl bufsize outdex (b1 ∷ []) =
    if leb (u32 (outdex + 4)) bufsize then encode_group tbl false false b1 0 0 else []
encode tbl bufsize outdex (b1 ∷ b2 ∷ []) =
    if leb (u32 (outdex + 4)) bufsize then encode_group tbl true false b1 b2 0 else []
encode tbl bufsize outdex (b1 ∷ b2 ∷ b3 ∷ rest) =
    let further = encode tbl bufsize (outdex + 4) rest in
    if leb (u32 (outdex + 4)) bufsize then encode_group tbl true true b1 b2 b3 ++ further else []

-- The word of a group; a character that is not there, or is padding, counts as 0.
unfoldable pub decode_word : ℕ → ℕ → ℕ → ℕ → ℕ
decode_word b1 b2 b3 b4 = bit_or (bit_or (bit_or (b1 * 2 ^ 18) (b2 * 2 ^ 12)) (b3 * 2 ^ 6)) b4

-- The body of the loop for the characters of a group that are there, with the rest of the loop.
unfoldable pub decode_group : ℕ → ℕ → ℕ → ℕ → Bool → Bool → ℕ → ℕ → ℕ → ℕ → List ℕ → List ℕ
decode_group c62 c63 maxlen outdex c1 c2 i0 i1 i2 i3 further =
    let nbytes = if c1 then (if c2 then 3 else 2) else 1 in
    let word =
      decode_word (from_base64 i0 c62 c63) (from_base64 i1 c62 c63)
        (if c1 then from_base64 i2 c62 c63 else 0) (if c2 then from_base64 i3 c62 c63 else 0) in
    if ltb maxlen (u32 (outdex + nbytes))
    then []
    else from_word word 2
      ∷ (if not c1
          then []
          else from_word word 1 ∷ (if not c2 then [] else from_word word 0 ∷ further))

-- The loop, after `outdex` bytes.
unfoldable pub decode : ℕ → ℕ → ℕ → ℕ → List ℕ → List ℕ
decode c62 c63 maxlen outdex [] = []
decode c62 c63 maxlen outdex (i0 ∷ []) = []
decode c62 c63 maxlen outdex (i0 ∷ i1 ∷ []) =
    decode_group c62 c63 maxlen outdex false false i0 i1 0 0 []
decode c62 c63 maxlen outdex (i0 ∷ i1 ∷ i2 ∷ []) =
    decode_group c62 c63 maxlen outdex (not (i2 == padding)) false i0 i1 i2 0 []
decode c62 c63 maxlen outdex (i0 ∷ i1 ∷ i2 ∷ i3 ∷ rest) =
    let further = decode c62 c63 maxlen (outdex + 3) rest in
    decode_group c62 c63 maxlen outdex (not (i2 == padding)) (not (i3 == padding)) i0 i1 i2 i3
      further

unfoldable pub lm_base64_encode : ℕ → List ℕ → List ℕ
lm_base64_encode bufsize data_ = encode ctbl bufsize 0 data_

unfoldable pub lm_base64url_encode : ℕ → List ℕ → List ℕ
lm_base64url_encode bufsize data_ = encode ctbl_url bufsize 0 data_

unfoldable pub lm_base64_decode : ℕ → List ℕ → List ℕ
lm_base64_decode bufsize str = decode 43 47 bufsize 0 str

unfoldable pub lm_base64url_decode : ℕ → List ℕ → List ℕ
lm_base64url_decode bufsize str = decode 45 95 bufsize 0 str
