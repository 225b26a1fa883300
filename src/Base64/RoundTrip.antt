-- ===== src/Base64/RoundTrip.antt =====
-- Decoding what was encoded.
use libmcu.Base.{
  ℕ, ◌+◌, ◌*◌, ◌/◌, ◌%◌, ◌^◌, ◌≤◌, ◌<◌, ◌≡◌, refl, ap, ap₂, ◌∙◌, Bool, true, false, not, List, [],
  ◌∷◌, ◌++◌, length, ◌==◌, if◌then◌else◌, u32, arith, le→leb, le→ltb,
}
use native.Mathlib.Nat.{mod-lt}
use libmcu.Base64.{
  padding, to_base64_variant, from_base64, from_word, encode_group, encode, decode_word,
  decode_group, decode, lm_base64_encode, lm_base64_decode, lm_base64url_encode,
  lm_base64url_decode,
}
use libmcu.Base64.Alphabet.{
  decode_word_lem, word_of, word_of_lem, IsTable, ctbl-IsTable, ctbl_url-IsTable,
}

-- Bytes.
abbrev pub AreBytes : List ℕ → Type 0
AreBytes [] = Unit
AreBytes (b ∷ bs) = (b < 256) × AreBytes bs

-- The characters that the bytes take, four for each group of three.
abbrev pub size_of : List ℕ → ℕ
size_of [] = 0
size_of (b1 ∷ []) = 4
size_of (b1 ∷ b2 ∷ []) = 4
size_of (b1 ∷ b2 ∷ b3 ∷ rest) = 4 + size_of rest

module _ {tbl : List ℕ} {c62 c63 : ℕ} (t : IsTable tbl c62 c63) (maxlen : ℕ) where
  abbrev char : ℕ → ℕ → ℕ
  char word offset = to_base64_variant word offset tbl

  char_back :
      (word offset : ℕ) → from_base64 (char word offset) c62 c63 ≡ word / 2 ^ (offset * 6) % 64
  unfolding to_base64_variant
  char_back word offset =
      t.back (word / 2 ^ (offset * 6) % 64)
        (mod-lt (word / 2 ^ (offset * 6)) {m = 64} (omega arith))

  char-padding : (word offset : ℕ) → not (char word offset == padding) ≡ true
  unfolding to_base64_variant
  char-padding word offset = ap not (
      t.no_padding (word / 2 ^ (offset * 6) % 64)
        (mod-lt (word / 2 ^ (offset * 6)) {m = 64} (omega arith)))

  -- What a group decodes to, by its word.
  abbrev stored : Bool → Bool → List ℕ → ℕ → List ℕ
  stored c1 c2 further word =
      from_word word 2
      ∷ (if not c1
          then []
          else from_word word 1 ∷ (if not c2 then [] else from_word word 0 ∷ further))

  decode_group_lem :
      (outdex : ℕ) (c1 c2 : Bool) (i0 i1 i2 i3 : ℕ) (further : List ℕ)
      → outdex + 3 < 2 ^ 32
      → outdex + (if c1 then (if c2 then 3 else 2) else 1) ≤ maxlen
      → decode_group c62 c63 maxlen outdex c1 c2 i0 i1 i2 i3 further
        ≡ stored c1 c2 further (
            decode_word
              (from_base64 i0 c62 c63)
              (from_base64 i1 c62 c63)
              (if c1 then from_base64 i2 c62 c63 else 0)
              (if c2 then from_base64 i3 c62 c63 else 0))
  unfolding decode_group
  decode_group_lem outdex c1 c2 i0 i1 i2 i3 further below fits =
      ap
        (λ b.
          if b
          then []
          else stored c1 c2 further (
              decode_word (from_base64 i0 c62 c63) (from_base64 i1 c62 c63)
                (if c1 then from_base64 i2 c62 c63 else 0)
                (if c2 then from_base64 i3 c62 c63 else 0)))
        (le→ltb maxlen (u32 (outdex + (if c1 then (if c2 then 3 else 2) else 1)))
          (ground (arith, fits)))

  -- The word of a group comes back, also where its last bytes are missing and 0.
  word_back :
      (b1 b2 b3 x y : ℕ)
      → b1 < 256
      → b2 < 256
      → b3 < 256
      → x ≡ word_of b1 b2 b3 / 2 ^ 6 % 64
      → y ≡ word_of b1 b2 b3 % 64
      → decode_word
          (from_base64 (char (word_of b1 b2 b3) 3) c62 c63)
          (from_base64 (char (word_of b1 b2 b3) 2) c62 c63)
          x
          y
        ≡ b1 * 65536 + b2 * 256 + b3
  word_back b1 b2 b3 x y h1 h2 h3 ex ey =
      let w : ℕ = word_of b1 b2 b3 in
      let wl = word_of_lem b1 b2 b3 h1 h2 h3 in
      ap₂ (λ p q. decode_word p q x y) (char_back w 3) (char_back w 2)
      ∙ decode_word_lem (w / 2 ^ 18 % 64) (w / 2 ^ 12 % 64) x y (omega arith) (omega arith)
          (omega (arith, ex)) (omega (arith, ey))
      ∙ omega (arith, wl, ex, ey)

  three_bytes :
      (b1 b2 b3 : ℕ) (further : List ℕ)
      → b1 < 256
      → b2 < 256
      → b3 < 256
      → stored true true further (b1 * 65536 + b2 * 256 + b3) ≡ b1 ∷ b2 ∷ b3 ∷ further
  unfolding from_word
  three_bytes b1 b2 b3 further h1 h2 h3 =
      let w : ℕ = b1 * 65536 + b2 * 256 + b3 in
      ap (λ x. x ∷ (w / 2 ^ 8 % 256) ∷ (w / 2 ^ 0 % 256) ∷ further) {x = w / 2 ^ 16 % 256} {y = b1}
        (omega arith)
      ∙ ap₂ (λ x y. b1 ∷ x ∷ y ∷ further) {x = w / 2 ^ 8 % 256} {y = b2} (omega arith) (omega arith)

  one_byte : (b1 : ℕ) → b1 < 256 → stored false false [] (b1 * 65536 + 0 * 256 + 0) ≡ b1 ∷ []
  unfolding from_word
  one_byte b1 h1 =
      ap (λ x. x ∷ []) {x = (b1 * 65536 + 0 * 256 + 0) / 2 ^ 16 % 256} {y = b1} (omega arith)

  two_bytes :
      (b1 b2 : ℕ)
      → b1 < 256
      → b2 < 256
      → stored true false [] (b1 * 65536 + b2 * 256 + 0) ≡ b1 ∷ b2 ∷ []
  unfolding from_word
  two_bytes b1 b2 h1 h2 =
      let w : ℕ = b1 * 65536 + b2 * 256 + 0 in
      ap₂ (λ x y. x ∷ y ∷ []) {x = w / 2 ^ 16 % 256} {y = b1} (omega arith) (omega arith)

  -- The characters of a group, decoded with what follows.
  group_lem :
      (outdex : ℕ) (c1 c2 : Bool) (b1 b2 b3 i2 i3 : ℕ) (further : List ℕ)
      → b1 < 256
      → b2 < 256
      → b3 < 256
      → outdex + 3 < 2 ^ 32
      → outdex + (if c1 then (if c2 then 3 else 2) else 1) ≤ maxlen
      → (if c1 then from_base64 i2 c62 c63 else 0) ≡ word_of b1 b2 b3 / 2 ^ 6 % 64
      → (if c2 then from_base64 i3 c62 c63 else 0) ≡ word_of b1 b2 b3 % 64
      → decode_group c62 c63 maxlen outdex c1 c2
          (char (word_of b1 b2 b3) 3)
          (char (word_of b1 b2 b3) 2)
          i2
          i3
          further
        ≡ stored c1 c2 further (b1 * 65536 + b2 * 256 + b3)
  group_lem outdex c1 c2 b1 b2 b3 i2 i3 further h1 h2 h3 below fits e2 e3 =
      decode_group_lem outdex c1 c2 (char (word_of b1 b2 b3) 3) (char (word_of b1 b2 b3) 2) i2 i3
        further below fits
      ∙ ap (stored c1 c2 further) (word_back b1 b2 b3 _ _ h1 h2 h3 e2 e3)

  decode-encode :
      (bufsize indx outdex : ℕ) (bytes : List ℕ)
      → AreBytes bytes
      → indx + size_of bytes ≤ bufsize
      → bufsize < 2 ^ 32
      → outdex + length bytes ≤ maxlen
      → outdex + length bytes + 3 < 2 ^ 32
      → decode c62 c63 maxlen outdex (encode tbl bufsize indx bytes) ≡ bytes
  unfolding decode encode encode_group
  decode-encode bufsize indx outdex [] are room below fits small = refl
  decode-encode bufsize indx outdex (b1 ∷ []) (h1, are) room below fits small =
      let w : ℕ = word_of b1 0 0 in
      ap (λ b. decode c62 c63 maxlen outdex (if b then encode_group tbl false false b1 0 0 else []))
        (le→leb (u32 (indx + 4)) bufsize (omega arith))
      ∙ group_lem outdex false false b1 0 0 padding padding [] h1 (omega arith) (omega arith)
          (omega arith) (omega arith)
          (omega (arith, word_of_lem b1 0 0 h1 (omega arith) (omega arith)))
          (omega (arith, word_of_lem b1 0 0 h1 (omega arith) (omega arith)))
      ∙ one_byte b1 h1
  decode-encode bufsize indx outdex (b1 ∷ b2 ∷ []) (h1, (h2, are)) room below fits small =
      let w : ℕ = word_of b1 b2 0 in
      let wl = word_of_lem b1 b2 0 h1 h2 (omega arith) in
      ap (λ b. decode c62 c63 maxlen outdex (if b then encode_group tbl true false b1 b2 0 else []))
        (le→leb (u32 (indx + 4)) bufsize (omega arith))
      ∙ ap
          (λ c.
            decode_group c62 c63 maxlen outdex c false (char w 3) (char w 2) (char w 1) padding [])
          (char-padding w 1)
      ∙ group_lem outdex true false b1 b2 0 (char w 1) padding [] h1 h2 (omega arith) (omega arith)
          (omega arith) (char_back w 1) (omega (arith, wl))
      ∙ two_bytes b1 b2 h1 h2
  decode-encode bufsize indx outdex (b1 ∷ b2 ∷ b3 ∷ rest) (h1, (h2, (h3, are))) room below fits
        small =
      let w : ℕ = word_of b1 b2 b3 in
      ap
        (λ b. decode c62 c63 maxlen outdex (
          if b
          then encode_group tbl true true b1 b2 b3 ++ encode tbl bufsize (indx + 4) rest
          else []))
        (le→leb (u32 (indx + 4)) bufsize (omega arith))
      ∙ ap₂
          (λ c d.
            decode_group c62 c63 maxlen outdex c d (char w 3) (char w 2) (char w 1) (char w 0)
              (decode c62 c63 maxlen (outdex + 3) (encode tbl bufsize (indx + 4) rest)))
          (char-padding w 1) (char-padding w 0)
      ∙ group_lem outdex true true b1 b2 b3 (char w 1) (char w 0) _ h1 h2 h3 (omega arith)
          (omega arith) (char_back w 1) (char_back w 0 ∙ omega arith)
      ∙ three_bytes b1 b2 b3 _ h1 h2 h3
      ∙ ap (λ l. b1 ∷ b2 ∷ b3 ∷ l)
          (decode-encode bufsize (indx + 4) (outdex + 3) rest are (omega arith) below (omega arith)
            (omega arith))

-- With four characters of room for each group of three bytes and a last shorter one, decoding what
-- was encoded gives the bytes back, in the alphabet of base64 and in that of base64url.
pub lm_base64_decode_lem :
    (bufsize maxlen : ℕ) (bytes : List ℕ)
    → AreBytes bytes
    → size_of bytes ≤ bufsize
    → bufsize < 2 ^ 32
    → length bytes ≤ maxlen
    → length bytes + 3 < 2 ^ 32
    → (lm_base64_decode maxlen (lm_base64_encode bufsize bytes) ≡ bytes)
      × (lm_base64url_decode maxlen (lm_base64url_encode bufsize bytes) ≡ bytes)
unfolding lm_base64_decode lm_base64_encode lm_base64url_decode lm_base64url_encode
lm_base64_decode_lem bufsize maxlen bytes are room below fits small = (
  decode-encode ctbl-IsTable maxlen bufsize 0 0 bytes are (omega arith) below (omega arith)
      (omega arith),
  decode-encode ctbl_url-IsTable maxlen bufsize 0 0 bytes are (omega arith) below (omega arith)
      (omega arith),
)
