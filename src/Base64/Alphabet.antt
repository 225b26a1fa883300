-- ===== src/Base64/Alphabet.antt =====
-- The words of a group, and the alphabets.
use libmcu.Base.{
  ℕ, zero, suc, ◌+◌, ◌*◌, ◌/◌, ◌^◌, ◌<◌, ◌≡◌, inl, inr, refl, sym, ap, ◌∙◌, bit_or, Bool, true,
  false, ◌&&◌, not, List, get_or, ◌==◌, arith, ==_iff, Bool-cases,
}
use libmcu.Base.Bits.{bit_or-halves, bit_or-zero}
use native.Mathlib.Nat.{pow-suc}
use libmcu.Base64.{ctbl, ctbl_url, padding, from_base64, decode_word}

-- A number of low bits and the bits above them.
pub bit_or_high : (k a x b : ℕ) → x ≡ 2 ^ k * a → b < 2 ^ k → bit_or x b ≡ x + b
bit_or_high zero a x b e h =
    ap (bit_or x) {x = b} {y = 0} (omega arith) ∙ bit_or-zero x ∙ omega arith
bit_or_high (suc k) a x b e h =
    let p : ℕ = 2 ^ k * a in
    let x_lem : x ≡ 2 * p = e ∙ ap (λ t. t * a) (pow-suc 2 k) ∙ grind arith in
    omega (
      arith,
      bit_or-halves x b,
      bit_or_high k a (x / 2) (b / 2) (omega (arith, x_lem)) (omega (arith, pow-suc 2 k)),
      x_lem,
    )

pub decode_word_lem :
    (a b c d : ℕ)
    → a < 64
    → b < 64
    → c < 64
    → d < 64
    → decode_word a b c d ≡ a * 262144 + b * 4096 + c * 64 + d
unfolding decode_word
decode_word_lem a b c d ha hb hc hd =
    let first : bit_or (a * 2 ^ 18) (b * 2 ^ 12) ≡ a * 262144 + b * 4096 =
      bit_or_high 18 a (a * 2 ^ 18) (b * 2 ^ 12) (omega arith) (omega arith) in
    let second : bit_or (bit_or (a * 2 ^ 18) (b * 2 ^ 12)) (c * 2 ^ 6)
        ≡ a * 262144 + b * 4096 + c * 64 =
      ap (λ t. bit_or t (c * 2 ^ 6)) first
      ∙ bit_or_high 12 (a * 64 + b) (a * 262144 + b * 4096) (c * 2 ^ 6) (omega arith)
          (omega arith) in
    ap (λ t. bit_or t d) second
    ∙ bit_or_high 6 (a * 4096 + b * 64 + c) (a * 262144 + b * 4096 + c * 64) d (omega arith)
        (omega arith)

abbrev pub word_of : ℕ → ℕ → ℕ → ℕ
word_of b1 b2 b3 = bit_or (bit_or (b1 * 2 ^ 16) (b2 * 2 ^ 8)) b3

pub word_of_lem :
    (b1 b2 b3 : ℕ) → b1 < 256 → b2 < 256 → b3 < 256 → word_of b1 b2 b3 ≡ b1 * 65536 + b2 * 256 + b3
word_of_lem b1 b2 b3 h1 h2 h3 =
    ap (λ t. bit_or t b3) (bit_or_high 16 b1 (b1 * 2 ^ 16) (b2 * 2 ^ 8) (omega arith) (omega arith))
    ∙ bit_or_high 8 (b1 * 256 + b2) (b1 * 65536 + b2 * 256) b3 (omega arith) (omega arith)

-- Each of the 64 characters is one number's, and none is the padding.
pub record IsTable (tbl : List ℕ) (c62 c63 : ℕ) : Type 0 where
  pub back : (i : ℕ) → i < 64 → from_base64 (get_or tbl i 0) c62 c63 ≡ i
  pub no_padding : (i : ℕ) → i < 64 → (get_or tbl i 0 == padding) ≡ false

-- The test of both for the numbers below `n`.
abbrev pub is_table : ℕ → List ℕ → ℕ → ℕ → Bool
is_table zero tbl c62 c63 = true
is_table (suc n) tbl c62 c63 =
    from_base64 (get_or tbl n 0) c62 c63 == n
    && (not (get_or tbl n 0 == padding) && is_table n tbl c62 c63)

pub is_table_lem :
    (n : ℕ) (tbl : List ℕ) (c62 c63 : ℕ)
    → is_table n tbl c62 c63 ≡ true
    → (i : ℕ) → i < n
    → (from_base64 (get_or tbl i 0) c62 c63 ≡ i) × ((get_or tbl i 0 == padding) ≡ false)
is_table_lem zero tbl c62 c63 h i lt = absurd (omega arith)
is_table_lem (suc n) tbl c62 c63 h i lt =
    let (here, padded, rest) =
      all_three (from_base64 (get_or tbl n 0) c62 c63 == n) (get_or tbl n 0 == padding)
        (is_table n tbl c62 c63) h in
    elim (Bool-cases (i == n)) [
      | inl same ↦
          let e : i ≡ n = (==_iff i n).0 same in
          (
            ap (λ j. from_base64 (get_or tbl j 0) c62 c63) e
                ∙ (==_iff (from_base64 (get_or tbl n 0) c62 c63) n).0 here
                ∙ sym e,
            ap (λ j. get_or tbl j 0 == padding) e ∙ padded,
          )
      | inr other ↦ is_table_lem n tbl c62 c63 rest i (ground arith)
    ]
  where
    all_three : (a b c : Bool) → (a && (not b && c)) ≡ true → (a ≡ true) × (b ≡ false) × (c ≡ true)
    all_three true false true h = (refl, refl, refl)
    all_three true false false h = absurd (ground arith)
    all_three true true c h = absurd (ground arith)
    all_three false b c h = absurd (ground arith)

pub ctbl-IsTable : IsTable ctbl 43 47
unfolding from_base64
ctbl-IsTable = record {
  back = λ i h. (is_table_lem 64 ctbl 43 47 refl i h).0;
  no_padding = λ i h. (is_table_lem 64 ctbl 43 47 refl i h).1;
}

pub ctbl_url-IsTable : IsTable ctbl_url 45 95
unfolding from_base64
ctbl_url-IsTable = record {
  back = λ i h. (is_table_lem 64 ctbl_url 45 95 refl i h).0;
  no_padding = λ i h. (is_table_lem 64 ctbl_url 45 95 refl i h).1;
}
