-- ===== src/Cobs/Rounds.antt =====
-- The rounds of the loop of `cobs_encode`, and what the encoder has written before each.
use libmcu.Base.{
  ℕ, suc, ◌+◌, ◌-◌, ◌^◌, ◌≤◌, ◌<◌, ◌≡◌, ◌≢◌, refl, sym, ap, subst, ◌∙◌, ◌⊎◌, inr, Bool, true, false,
  ◌||◌, List, [], ◌∷◌, ◌++◌, length, set, min, length-append, length-set, append_assoc, leb, ◌==◌,
  lt→ltb, lt→leb, ==_iff, ==_ne, if◌then◌else◌, sub32, arith,
}
use libmcu.Cobs.{Encoder, is_empty, put_byte, close_group, finish, encode_loop}
use libmcu.Cobs.Starts.{Starts, Starts-patch, Starts-put}

-- The bytes that stand for a group begun with `g`, and for the bytes behind it.
abbrev pub stuffed : List ℕ → List ℕ → List ℕ
stuffed g [] = suc (length g) ∷ g
stuffed g (c ∷ cs) =
    if c == 0
    then (suc (length g) ∷ g) ++ stuffed [] cs
    else if length g == 253
    then (255 ∷ (g ++ (c ∷ []))) ++ (if is_empty cs then [] else stuffed [] cs)
    else stuffed (g ++ (c ∷ [])) cs

-- The encoder has written `w`, and behind a place for its length the group `g`.
pub record At (e : Encoder) (size : ℕ) (w g : List ℕ) : Type 0 where
  pub place : ℕ
  pub bytes : Starts e.buf (w ++ (place ∷ g))
  pub head_at : e.group_head_index ≡ length w
  pub out_at : e.outdex ≡ suc (length w + length g)
  pub len_is : e.group_len ≡ suc (length g)
  pub size_is : length e.buf ≡ size

-- What comes back: the bytes with a zero behind, and their number or one more.
pub record Framed (out : List ℕ × ℕ) (w : List ℕ) : Type 0 where
  pub bytes : Starts out.0 (w ++ (0 ∷ []))
  pub counted : (out.1 ≡ length w) ⊎ (out.1 ≡ suc (length w))

pub length-place :
    (w : List ℕ) (x : ℕ) (g : List ℕ) → length (w ++ (x ∷ g)) ≡ suc (length w + length g)
length-place w x g = omega (arith, length-append w (x ∷ g))

-- The zero goes behind the bytes.
pub put_end :
    {buf w : List ℕ} (size o : ℕ)
    → Starts buf w
    → length buf ≡ size
    → o ≡ length w
    → length w < size
    → size < 2 ^ 32
    → Starts (set buf (min o (sub32 size 1)) 0) (w ++ (0 ∷ []))
put_end {buf} {w} size o s eq at room small =
    let place : min o (sub32 size 1) ≡ length w = omega arith in
    rw place (Starts-put 0 s (omega arith))

pub patched :
    {e : Encoder} {size : ℕ} {w g : List ℕ}
    → At e size w g
    → Starts (set e.buf e.group_head_index e.group_len) (w ++ (suc (length g) ∷ g))
patched {e} {size} {w} {g} a =
    rw (a.head_at, a.len_is) (Starts-patch w a.place g (suc (length g)) a.bytes)

pub finish-Framed :
    {e : Encoder} {w g : List ℕ} (size : ℕ)
    → At e size w g
    → suc (length w + length g) < size
    → size < 2 ^ 32
    → Framed (finish size e) (w ++ (suc (length g) ∷ g))
unfolding finish
finish-Framed {e} {w} {g} size a room small = record {
  bytes =
      put_end size e.outdex (patched a)
        (length-set e.buf e.group_head_index e.group_len ∙ a.size_is)
        (a.out_at ∙ sym (length-place w (suc (length g)) g))
        (omega (arith, length-place w (suc (length g)) g)) small;
  counted = inr (ap suc (a.out_at ∙ sym (length-place w (suc (length g)) g)));
}

-- The rounds of the loop: a zero, a byte, the last byte of a full group with more behind it, and the
-- same at the end.
module _ (size c : ℕ) (e : Encoder) (room : e.outdex < size) where
  pub step_zero :
      (cs : List ℕ)
      → c ≡ 0
      → e.group_len ≢ 255
      → suc e.outdex < size
      → encode_loop size (c ∷ cs) e ≡ encode_loop size cs (record (close_group e) { group_len = 1 })
  unfolding encode_loop put_byte close_group
  step_zero cs z short more =
      rw
        (z, lt→ltb e.outdex size room, ==_ne e.group_len 255 short, lt→leb size (suc e.outdex) more)
        refl

  module _ (nz : c ≢ 0) where
    pub step_byte :
        (cs : List ℕ)
        → (put_byte e c).group_len ≢ 255
        → encode_loop size (c ∷ cs) e ≡ encode_loop size cs (put_byte e c)
    unfolding encode_loop
    step_byte cs short =
        rw (lt→ltb e.outdex size room, ==_ne c 0 nz, ==_ne (put_byte e c).group_len 255 short) refl

    pub step_full :
        (cs : List ℕ)
        → is_empty cs ≡ false
        → (put_byte e c).group_len ≡ 255
        → suc (put_byte e c).outdex < size
        → encode_loop size (c ∷ cs) e
          ≡ encode_loop size cs (record (close_group (put_byte e c)) { group_len = 1 })
    unfolding encode_loop close_group
    step_full cs some_left full more =
        rw
          (
            lt→ltb e.outdex size room,
            ==_ne c 0 nz,
            (==_iff (put_byte e c).group_len 255).1 full,
            lt→leb size (suc (put_byte e c).outdex) more,
            some_left,
          )
          refl

    pub step_last :
        (put_byte e c).group_len ≡ 255
        → encode_loop size (c ∷ []) e ≡ (
          set (close_group (put_byte e c)).buf (min (put_byte e c).outdex (sub32 size 1)) 0,
          (put_byte e c).outdex,
        )
    unfolding encode_loop close_group
    step_last full =
        rw (lt→ltb e.outdex size room, ==_ne c 0 nz, (==_iff (put_byte e c).group_len 255).1 full)
          (if_same (leb size (suc (put_byte e c).outdex)) _ _
            ∙ ap
                (λ o. (
                  set
                      (set (put_byte e c).buf (put_byte e c).group_head_index
                        (put_byte e c).group_len)
                      (min o (sub32 size 1)) 0,
                  o,
                ))
                (minus_one (put_byte e c).outdex))
      where
        minus_one : (n : ℕ) → suc n - 1 ≡ n
        minus_one n = omega arith

        if_same : (b : Bool) (x y : List ℕ × ℕ) → (if b || true then x else y) ≡ x
        if_same true x y = refl
        if_same false x y = refl

  pub put_byte-At :
      {w g : List ℕ}
      → c ≢ 0
      → At e size w g
      → length g ≤ 253
      → At (put_byte e c) size w (g ++ (c ∷ []))
  unfolding put_byte
  put_byte-At {w} {g} nz a short = rw (==_ne c 0 nz) (record {
    place = a.place;
    bytes = subst (Starts (set e.buf e.outdex c)) (append_assoc w (a.place ∷ g) (c ∷ [])) (
        rw (a.out_at ∙ sym (length-place w a.place g))
          (Starts-put c a.bytes (omega (arith, length-place w a.place g, a.out_at, a.size_is))));
    head_at = a.head_at;
    out_at = omega (arith, a.out_at, length-append g (c ∷ []));
    len_is = omega (arith, a.len_is, length-append g (c ∷ []));
    size_is = length-set e.buf e.outdex c ∙ a.size_is;
  })
