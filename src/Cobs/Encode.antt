-- ===== src/Cobs/Encode.antt =====
-- What `cobs_encode` writes, by groups.
use libmcu.Base.{
  ℕ, suc, ◌+◌, ◌^◌, ◌≤◌, ◌<◌, ◌≡◌, ◌≢◌, refl, sym, subst, ◌∙◌, inl, inr, true, false, List, [], ◌∷◌,
  ◌++◌, length, take, take_all, min, length-append, length-set, append_assoc, append-nil, ◌==◌,
  ==_iff, ==_ne, Bool-cases, if◌then◌else◌, done, arith,
}
use native.Mathlib.Decide.{ℕ_discrete}
use libmcu.Cobs.{Encoder, is_empty, put_byte, close_group, encode_loop, cobs_encode}
use libmcu.Cobs.Starts.{Starts-next}
use libmcu.Cobs.Rounds.{
  stuffed, At, Framed, length-place, put_end, patched, finish-Framed, step_zero, step_byte,
  step_full, step_last, put_byte-At,
}

-- A closed group is part of what is written, and the next group is empty.
close_group-At :
    {e : Encoder} {w g : List ℕ} (size : ℕ)
    → At e size w g
    → suc (length w + length g) < size
    → At (record (close_group e) { group_len = 1 }) size (w ++ (suc (length g) ∷ g)) []
unfolding close_group
close_group-At {e} {w} {g} size a room =
    let same = length-set e.buf e.group_head_index e.group_len ∙ a.size_is in
    let (x, next) =
      Starts-next (patched a) (omega (arith, length-place w (suc (length g)) g, same)) in
    record {
      place = x;
      bytes = next;
      head_at = a.out_at ∙ sym (length-place w (suc (length g)) g);
      out_at = omega (arith, a.out_at, length-place w (suc (length g)) g);
      len_is = refl;
      size_is = same;
    }

length-stuffed : (g cs : List ℕ) → suc (length g) ≤ length (stuffed g cs)
length-stuffed g [] = omega arith
length-stuffed g (c ∷ cs) = elim (Bool-cases (c == 0)) [
  | inl zero_ ↦ rw zero_ (omega (arith, length-append (suc (length g) ∷ g) (stuffed [] cs)))
  | inr byte ↦ elim (Bool-cases (length g == 253)) [
    | inl full ↦
        rw (byte, full)
          (omega (
            arith,
            length-append (255 ∷ (g ++ (c ∷ []))) (if is_empty cs then [] else stuffed [] cs),
            length-append g (c ∷ []),
          ))
    | inr short ↦
        rw (byte, short)
          (omega (arith, length-stuffed (g ++ (c ∷ [])) cs, length-append g (c ∷ [])))
  ]
]

behind_group :
    {out : List ℕ × ℕ} (w g r : List ℕ)
    → Framed out ((w ++ (suc (length g) ∷ g)) ++ r)
    → Framed out (w ++ ((suc (length g) ∷ g) ++ r))
behind_group {out} w g r f = subst (Framed out) (append_assoc w (suc (length g) ∷ g) r) f

-- A group of 254 bytes: the end of the bytes, or more of them behind it.
full_group :
    (cs : List ℕ) (size c : ℕ) (e : Encoder) {w g : List ℕ}
    → c ≢ 0
    → e.outdex < size
    → At (put_byte e c) size w g
    → length g ≡ 254
    → suc (length w + length g) < size
    → length w + (255 + length (if is_empty cs then [] else stuffed [] cs)) < size
    → size < 2 ^ 32
    → (is_empty cs ≡ false
        → At
            (record (close_group (put_byte e c)) { group_len = 1 })
            size
            (w ++ (suc (length g) ∷ g))
            []
        → Framed
            (encode_loop size cs (record (close_group (put_byte e c)) { group_len = 1 }))
            ((w ++ (suc (length g) ∷ g)) ++ stuffed [] cs))
    → Framed
        (encode_loop size (c ∷ cs) e)
        (w ++ ((suc (length g) ∷ g) ++ (if is_empty cs then [] else stuffed [] cs)))
full_group [] size c e {w} {g} nz room a full wide total small ih =
    rw (step_last size c e room nz (omega (arith, a.len_is)), append-nil (suc (length g) ∷ g))
      (unfold close_group in
        record {
          bytes =
              put_end size (put_byte e c).outdex (patched a)
                (length-set (put_byte e c).buf (put_byte e c).group_head_index
                    (put_byte e c).group_len
                  ∙ a.size_is)
                (a.out_at ∙ sym (length-place w (suc (length g)) g))
                (omega (arith, length-place w (suc (length g)) g)) small;
          counted = inl (a.out_at ∙ sym (length-place w (suc (length g)) g));
        })
full_group (d ∷ cs) size c e {w} {g} nz room a full wide total small ih =
    let more = length-stuffed [] (d ∷ cs) in
    rw
      (step_full size c e room nz (d ∷ cs) refl (omega (arith, a.len_is)) (omega (arith, a.out_at)))
      (behind_group w g (stuffed [] (d ∷ cs)) (ih refl (close_group-At size a wide)))

next_room :
    (w g r : List ℕ) (size : ℕ)
    → length w + (suc (length g) + length r) < size
    → length (w ++ (suc (length g) ∷ g)) + length r < size
next_room w g r size h = omega (arith, length-place w (suc (length g)) g)

encode_loop-Framed :
    (cs : List ℕ) (size : ℕ) {e : Encoder} {w g : List ℕ}
    → At e size w g
    → length g ≤ 253
    → length w + length (stuffed g cs) < size
    → size < 2 ^ 32
    → Framed (encode_loop size cs e) (w ++ stuffed g cs)
encode_loop-Framed [] size a short room small =
    unfold encode_loop in finish-Framed size a (omega arith) small
encode_loop-Framed (c ∷ cs) size {e} {w} {g} a short room small = elim (ℕ_discrete c 0) [
  | yes z ↦
      let zero_ : (c == 0) ≡ true = (==_iff c 0).1 z in
      let wide = rw zero_ at room in
      let below : length w + (suc (length g) + length (stuffed [] cs)) < size =
        omega (arith, wide, length-append (suc (length g) ∷ g) (stuffed [] cs)) in
      let more = length-stuffed [] cs in
      rw
        (
          zero_,
          step_zero size c e (omega (arith, a.out_at)) cs z (λ t. absurd (omega (arith, a.len_is)))
              (omega (arith, a.out_at)),
        )
        (behind_group w g (stuffed [] cs) (
          encode_loop-Framed cs size (close_group-At size a (omega arith)) (omega arith)
            (omega (arith, length-place w (suc (length g)) g)) small))
  | no nz ↦ elim (ℕ_discrete (length g) 253) [
    | yes full ↦
        let byte = ==_ne c 0 nz in
        let full_ = (==_iff (length g) 253).1 full in
        let wide = rw (byte, full_) at room in
        let one = length-append g (c ∷ []) in
        let all = length-append (g ++ (c ∷ [])) (if is_empty cs then [] else stuffed [] cs) in
        let e_room : e.outdex < size = omega (arith, a.out_at) in
        let a' = put_byte-At size c e e_room nz a short in
        let code : suc (length (g ++ (c ∷ []))) ≡ 255 = omega arith in
        rw (byte, full_)
          (subst
            (λ t.
              Framed (encode_loop size (c ∷ cs) e)
                (w ++ (t ∷ ((g ++ (c ∷ [])) ++ (if is_empty cs then [] else stuffed [] cs)))))
            code
            (full_group cs size c e nz e_room a' (omega arith) (omega arith) (omega arith) small
              (λ some_left at.
                encode_loop-Framed cs size at (omega arith)
                  (rw some_left at (
                    next_room w (g ++ (c ∷ [])) (if is_empty cs then [] else stuffed [] cs) size
                      (omega arith)))
                  small)))
    | no less ↦
        let byte = ==_ne c 0 nz in
        let short_ = ==_ne (length g) 253 less in
        let wide = rw (byte, short_) at room in
        let more = length-stuffed (g ++ (c ∷ [])) cs in
        let one = length-append g (c ∷ []) in
        let e_room : e.outdex < size = omega (arith, a.out_at) in
        let a' = put_byte-At size c e e_room nz a short in
        rw (byte, short_, step_byte size c e e_room nz cs (λ t. absurd (omega (arith, a'.len_is))))
          (encode_loop-Framed cs size a' (omega arith) wide small)
  ]
]

-- The bytes that stand for some data.
abbrev pub stuff : List ℕ → List ℕ
stuff bytes = stuffed [] bytes

length-data : (g cs : List ℕ) → length g + length cs < length (stuffed g cs)
length-data g [] = omega arith
length-data g (c ∷ cs) = elim (Bool-cases (c == 0)) [
  | inl zero_ ↦
      rw zero_
        (omega (arith, length-append (suc (length g) ∷ g) (stuffed [] cs), length-data [] cs))
  | inr byte ↦ elim (Bool-cases (length g == 253)) [
    | inl full ↦
        rw (byte, full)
          (omega (
            arith,
            length-append (255 ∷ (g ++ (c ∷ []))) (if is_empty cs then [] else stuffed [] cs),
            length-append g (c ∷ []),
            tail_data cs (length-data [] cs),
          ))
    | inr short ↦
        rw (byte, short) (omega (arith, length-data (g ++ (c ∷ [])) cs, length-append g (c ∷ [])))
  ]
]
  where
    tail_data :
        (cs : List ℕ)
        → length {A = ℕ} [] + length cs < length (stuffed [] cs)
        → length cs ≤ length (if is_empty cs then [] else stuffed [] cs)
    tail_data [] h = omega arith
    tail_data (d ∷ cs) h = omega arith

-- In a buffer with room for the stuffed bytes and one more, `cobs_encode` writes these and a zero.
pub cobs_encode-Framed :
    (buf bytes : List ℕ)
    → length (stuff bytes) < length buf
    → length buf < 2 ^ 32
    → (out : List ℕ × ℕ) × (cobs_encode buf (length buf) bytes ≡ done out)
      × Framed out (stuff bytes)
unfolding cobs_encode
cobs_encode-Framed buf bytes room small =
    let (x, one) =
      Starts-next {buf = buf} {w = []} (record { behind = buf; whole = refl }) (omega arith) in
    let a : At (record { buf = buf; group_head_index = 0; group_len = 1; outdex = 1 }) (length buf)
        [] [] =
      record {
        place = x;
        bytes = one;
        head_at = refl;
        out_at = refl;
        len_is = refl;
        size_is = refl;
      } in
    let fits : min (length buf) (length bytes) ≡ length bytes =
      omega (arith, length-data [] bytes) in
    (
      encode_loop (length buf) (take (min (length buf) (length bytes)) bytes)
          (record { buf = buf; group_head_index = 0; group_len = 1; outdex = 1 }),
      rw (==_ne (length buf) 0 (λ t. absurd (omega arith))) refl,
      rw (fits, take_all (length bytes) bytes (omega arith))
          (encode_loop-Framed bytes (length buf) a (omega arith) (omega arith) small),
    )
