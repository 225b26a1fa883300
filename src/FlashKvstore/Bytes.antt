-- ===== src/FlashKvstore/Bytes.antt =====
-- What programming a flash that is erased from some offset on leaves.
use libmcu.Base.{
  ℕ, zero, suc, ◌+◌, ◌≤◌, ◌<◌, ◌≡◌, refl, sym, ap, ◌∙◌, ◌⊎◌, inl, List, [], ◌∷◌, length, get_or,
  set, take, drop, arith, length-set, get_or-set_self, get_or-set_ne, get_or_ext, length-take,
  length-drop,
}
use libmcu.FlashKvstore.{Entry, erased, program_bytes}

-- Writing over what is erased stores what is written.
pub record IsNor (program : ℕ → ℕ → ℕ) (program_entry : Entry → Entry → Entry) : Type 0 where
  pub on_erased : (x : ℕ) → program 0xff x ≡ x
  pub entry_on_erased : (e : Entry) → program_entry erased e ≡ e

-- Every byte from `top` on is erased.
abbrev pub IsClean : List ℕ → ℕ → Type 0
IsClean bytes top = (i : ℕ) → top ≤ i → get_or bytes i 0xff ≡ 0xff

get_or_default : (xs : List ℕ) (i d e : ℕ) → i < length xs → get_or xs i d ≡ get_or xs i e
get_or_default [] i d e h = absurd (omega arith)
get_or_default (x ∷ xs) zero d e h = refl
get_or_default (x ∷ xs) (suc i) d e h = get_or_default xs i d e (omega arith)

length-slice : (n o : ℕ) (xs : List ℕ) → o + n ≤ length xs → length (take n (drop o xs)) ≡ n
length-slice n o xs h = omega (arith, length-take n (drop o xs), length-drop o xs)

get_or-slice :
    (n o : ℕ) (xs : List ℕ) (i d : ℕ)
    → i < n
    → get_or (take n (drop o xs)) i d ≡ get_or xs (o + i) d
get_or-slice zero o xs i d h = absurd (omega arith)
get_or-slice (suc n) zero [] i d h = refl
get_or-slice (suc n) zero (x ∷ xs) zero d h = refl
get_or-slice (suc n) zero (x ∷ xs) (suc i) d h =
    get_or-slice n 0 xs i d (omega arith)
    ∙ ap (λ j. get_or (x ∷ xs) j d) {x = suc (0 + i)} {y = 0 + suc i} (omega arith)
get_or-slice (suc n) (suc o) [] i d h = refl
get_or-slice (suc n) (suc o) (x ∷ xs) i d h =
    get_or-slice (suc n) o xs i d h
    ∙ ap (λ j. get_or (x ∷ xs) j d) {x = suc (o + i)} {y = suc o + i} (omega arith)

module _ {program : ℕ → ℕ → ℕ} {program_entry : Entry → Entry → Entry}
    (nor : IsNor program program_entry) where
  abbrev put : List ℕ → ℕ → List ℕ → List ℕ
  put = program_bytes program program_entry

  pub length-put :
      (bytes : List ℕ) (off : ℕ) (xs : List ℕ) → length (put bytes off xs) ≡ length bytes
  unfolding program_bytes
  length-put bytes off [] = refl
  length-put bytes off (x ∷ xs) =
      length-put (set bytes off (program (get_or bytes off 0) x)) (suc off) xs
      ∙ length-set bytes off (program (get_or bytes off 0) x)

  -- Bytes before and behind stay.
  pub put_outside :
      (bytes : List ℕ) (off : ℕ) (xs : List ℕ) (i d : ℕ)
      → (i < off) ⊎ (off + length xs ≤ i)
      → get_or (put bytes off xs) i d ≡ get_or bytes i d
  unfolding program_bytes
  put_outside bytes off [] i d out = refl
  put_outside bytes off (x ∷ xs) i d out =
      put_outside (set bytes off (program (get_or bytes off 0) x)) (suc off) xs i d
        (ground (arith, out))
      ∙ get_or-set_ne bytes off i (program (get_or bytes off 0) x) d (ground (arith, out))

  pub put_inside :
      (bytes : List ℕ) (off : ℕ) (xs : List ℕ) (i d : ℕ)
      → off + length xs ≤ length bytes
      → IsClean bytes off
      → i < length xs
      → get_or (put bytes off xs) (off + i) d ≡ get_or xs i d
  unfolding program_bytes
  put_inside bytes off [] i d fits clean h = absurd (omega arith)
  put_inside bytes off (x ∷ xs) zero d fits clean h =
      let b : ℕ = get_or bytes off 0 in
      put_outside (set bytes off (program b x)) (suc off) xs (off + 0) d (inl (omega arith))
      ∙ ap (λ j. get_or (set bytes off (program b x)) j d) {x = off + 0} {y = off} (omega arith)
      ∙ get_or-set_self bytes off (program b x) d (omega arith)
      ∙ ap (λ t. program t x)
          (get_or_default bytes off 0 0xff (omega arith) ∙ clean off (omega arith))
      ∙ nor.on_erased x
  put_inside bytes off (x ∷ xs) (suc i) d fits clean h =
      let v : ℕ = program (get_or bytes off 0) x in
      ap (λ j. get_or (put (set bytes off v) (suc off) xs) j d) {x = off + suc i} {y = suc off + i}
        (omega arith)
      ∙ put_inside (set bytes off v) (suc off) xs i d (omega (arith, length-set bytes off v))
          (λ j le.
            get_or-set_ne bytes off j v 0xff (λ e. absurd (omega arith)) ∙ clean j (omega arith))
          (omega arith)

  -- What was written is read back.
  pub slice_self :
      (bytes : List ℕ) (off : ℕ) (xs : List ℕ)
      → off + length xs ≤ length bytes
      → IsClean bytes off
      → take (length xs) (drop off (put bytes off xs)) ≡ xs
  slice_self bytes off xs fits clean =
      let n = length-put bytes off xs in
      let m = length-slice (length xs) off (put bytes off xs) (omega (arith, n)) in
      get_or_ext 0 (take (length xs) (drop off (put bytes off xs))) xs m (λ i h.
        get_or-slice (length xs) off (put bytes off xs) i 0 (omega (arith, m))
        ∙ put_inside bytes off xs i 0 fits clean (omega (arith, m)))

  -- A slice before what was written stays.
  pub slice_before :
      (bytes : List ℕ) (off : ℕ) (xs : List ℕ) (o n : ℕ)
      → o + n ≤ off
      → off ≤ length bytes
      → take n (drop o (put bytes off xs)) ≡ take n (drop o bytes)
  slice_before bytes off xs o n before within =
      let k = length-put bytes off xs in
      let m = length-slice n o (put bytes off xs) (omega (arith, k)) in
      let m' = length-slice n o bytes (omega arith) in
      get_or_ext 0 (take n (drop o (put bytes off xs))) (take n (drop o bytes)) (m ∙ sym m') (λ i h.
        get_or-slice n o (put bytes off xs) i 0 (omega (arith, m))
        ∙ put_outside bytes off xs (o + i) 0 (inl (omega (arith, m)))
        ∙ sym (get_or-slice n o bytes i 0 (omega (arith, m))))
