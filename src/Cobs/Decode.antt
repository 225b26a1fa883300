-- ===== src/Cobs/Decode.antt =====
-- What `cobs_decode` makes of stuffed bytes.
use libmcu.Base.{
  ℕ, suc, ◌+◌, ◌-◌, ◌≤◌, ◌<◌, ◌≡◌, refl, sym, ap, subst, ◌∙◌, false, List, [], ◌∷◌, ◌++◌, length,
  set, length-append, length-set, append_assoc, append-nil, ◌==◌, lt→ltb, le→ltb, ==_iff, ==_ne,
  if◌then◌else◌, arith,
}
use native.Mathlib.Decide.{ℕ_discrete}
use libmcu.Cobs.{Decoder, is_empty, decode_byte, decode_loop, cobs_decode}
use libmcu.Cobs.Starts.{Starts, Starts-put}
use libmcu.Cobs.Rounds.{stuffed}

-- The decoder has written `w`.
pub record Wrote (d : Decoder) (size : ℕ) (w : List ℕ) : Type 0 where
  pub bytes : Starts d.out w
  pub count_is : d.count ≡ length w
  pub size_is : length d.out ≡ size

write_one :
    {d : Decoder} {size : ℕ} {w : List ℕ} (c left code : ℕ)
    → Wrote d size w
    → length w < size
    → Wrote
        (record { out = set d.out d.count c; count = suc d.count; left = left; code = code })
        size
        (w ++ (c ∷ []))
write_one {d} {w = w} c left code a room = record {
  bytes = rw a.count_is (Starts-put c a.bytes (omega (arith, a.size_is)));
  count_is = omega (arith, a.count_is, length-append w (c ∷ []));
  size_is = length-set d.out d.count c ∙ a.size_is;
}

-- The bytes of a group are copied.
decode_group :
    (g ds : List ℕ) (d : Decoder) (size : ℕ) (w : List ℕ)
    → Wrote d size w
    → d.left ≡ length g
    → length w + length g ≤ size
    → (d' : Decoder) × (decode_loop size (g ++ ds) d ≡ decode_loop size ds d')
      × Wrote d' size (w ++ g)
      × (d'.left ≡ 0)
      × (d'.code ≡ d.code)
unfolding decode_loop decode_byte
decode_group [] ds d size w a l room = (d, refl, rw append-nil a, l, refl)
decode_group (c ∷ g) ds d size w a l room =
    let a' = write_one c (d.left - 1) d.code a (omega arith) in
    let (d', same, b, l', k) =
      decode_group g ds
        (record {
          out = set d.out d.count c;
          count = suc d.count;
          left = d.left - 1;
          code = d.code;
        })
        size (w ++ (c ∷ [])) a' (omega arith) (omega (arith, length-append w (c ∷ []))) in
    (
      d',
      rw (lt→ltb d.count size (omega (arith, a.count_is)), lt→ltb 0 d.left (omega arith)) same,
      subst (Wrote d' size) (append_assoc w (c ∷ []) g) b,
      l',
      k,
    )

-- The zero that a code stands for, but for the first code and the full groups'.
abbrev pub zero_of : ℕ → List ℕ
zero_of code = if code == 255 then [] else 0 ∷ []

-- A code and its group.
decode_code_group :
    (g ds : List ℕ) (d : Decoder) (size : ℕ) (w : List ℕ)
    → Wrote d size w
    → d.left ≡ 0
    → length w < size
    → length w + (length (zero_of d.code) + length g) ≤ size
    → (d' : Decoder) × (decode_loop size ((suc (length g) ∷ g) ++ ds) d ≡ decode_loop size ds d')
      × Wrote d' size ((w ++ zero_of d.code) ++ g)
      × (d'.left ≡ 0)
      × (d'.code ≡ suc (length g))
unfolding decode_loop decode_byte
decode_code_group g ds d size w a l one room = elim (ℕ_discrete d.code 255) [
  | yes full ↦
      let d1 : Decoder = record {
        out = d.out;
        count = d.count;
        left = length g;
        code = suc (length g);
      } in
      let e1 = (==_iff d.code 255).1 full in
      let a1 : Wrote d1 size (w ++ []) =
        rw append-nil (record { bytes = a.bytes; count_is = a.count_is; size_is = a.size_is }) in
      let (d', same, b, l', k) =
        decode_group g ds d1 size (w ++ []) a1 refl
          (omega (arith, length-append w [], rw e1 at room)) in
      rw e1 (
        d',
        rw
            (
              lt→ltb d.count size (omega (arith, a.count_is)),
              le→ltb 0 d.left (omega arith),
              ==_ne (suc (length g)) 0 (λ t. absurd (omega arith)),
              suc_minus (length g),
            )
            same,
        b,
        l',
        k,
      )
  | no other ↦
      let e1 = ==_ne d.code 255 other in
      let a1 = write_one 0 (length g) (suc (length g)) a one in
      let (d', same, b, l', k) =
        decode_group g ds
          (record {
            out = set d.out d.count 0;
            count = suc d.count;
            left = length g;
            code = suc (length g);
          })
          size (w ++ (0 ∷ [])) a1 refl (omega (arith, length-append w (0 ∷ []), rw e1 at room)) in
      rw e1 (
        d',
        rw
            (
              lt→ltb d.count size (omega (arith, a.count_is)),
              le→ltb 0 d.left (omega arith),
              ==_ne (suc (length g)) 0 (λ t. absurd (omega arith)),
              suc_minus (length g),
            )
            same,
        b,
        l',
        k,
      )
]
  where
    suc_minus : (n : ℕ) → suc n - 1 ≡ n
    suc_minus n = omega arith

regroup : (w z g r : List ℕ) → ((w ++ z) ++ g) ++ r ≡ w ++ (z ++ (g ++ r))
regroup w z g r = append_assoc (w ++ z) g r ∙ append_assoc w z (g ++ r)

-- The rest of a full group's bytes, as the loop goes on with them.
after_full :
    (cs : List ℕ) (size : ℕ) (w : List ℕ) (d : Decoder)
    → Wrote d size w
    → (is_empty cs ≡ false → Wrote (decode_loop size (stuffed [] cs) d) size (w ++ cs))
    → Wrote (decode_loop size (if is_empty cs then [] else stuffed [] cs) d) size (w ++ cs)
unfolding decode_loop
after_full [] size w d a ih = rw append-nil a
after_full (c ∷ cs) size w d a ih = ih refl

not_empty : (cs : List ℕ) → is_empty cs ≡ false → 0 < length cs
not_empty [] h = cc
not_empty (c ∷ cs) h = omega arith

-- Decoding the bytes that stand for `g` and `cs` writes these, behind the zero of the last code.
decode_stuffed :
    (cs g : List ℕ) (d : Decoder) (size : ℕ) (w : List ℕ)
    → Wrote d size w
    → d.left ≡ 0
    → length g ≤ 253
    → length w < size
    → length w + (length (zero_of d.code) + (length g + length cs)) ≤ size
    → Wrote (decode_loop size (stuffed g cs) d) size (w ++ (zero_of d.code ++ (g ++ cs)))
decode_stuffed [] g d size w a l short one room =
    let (d', same, b, l', k) = decode_code_group g [] d size w a l one (omega arith) in
    subst (λ t. Wrote t size (w ++ (zero_of d.code ++ (g ++ [])))) (sym (rw append-nil at same))
      (unfold decode_loop in
        rw append-nil (subst (Wrote d' size) (append_assoc w (zero_of d.code) g) b))
decode_stuffed (c ∷ cs) g d size w a l short one room = elim (ℕ_discrete c 0) [
  | yes z ↦
      let (d', same, b, l', k) =
        decode_code_group g (stuffed [] cs) d size w a l one (omega arith) in
      let code_ : zero_of d'.code ≡ 0 ∷ [] =
        rw (k, ==_ne (suc (length g)) 255 (λ t. absurd (omega arith))) refl in
      let all = length-append (w ++ zero_of d.code) g in
      let part = length-append w (zero_of d.code) in
      let rec =
        decode_stuffed cs [] d' size ((w ++ zero_of d.code) ++ g) b l' (omega arith) (omega arith)
          (omega (arith, ap length code_)) in
      rw ((==_iff c 0).1 z, same)
        (subst (Wrote (decode_loop size (stuffed [] cs) d') size)
          (ap (λ t. ((w ++ zero_of d.code) ++ g) ++ (t ++ cs)) code_
            ∙ ap (λ t. ((w ++ zero_of d.code) ++ g) ++ (t ∷ cs)) (sym z)
            ∙ regroup w (zero_of d.code) g (c ∷ cs))
          rec)
  | no nz ↦ elim (ℕ_discrete (length g) 253) [
    | yes full ↦
        let g' = g ++ (c ∷ []) in
        let r = if is_empty cs then [] else stuffed [] cs in
        let one_more = length-append g (c ∷ []) in
        let (d', same, b, l', k) = decode_code_group g' r d size w a l one (omega arith) in
        let code : suc (length g') ≡ 255 = omega arith in
        let none_owed : zero_of d'.code ≡ [] = rw (k, (==_iff (suc (length g')) 255).1 code) refl in
        let all = length-append (w ++ zero_of d.code) g' in
        let part = length-append w (zero_of d.code) in
        let behind = after_full cs size ((w ++ zero_of d.code) ++ g') d' b (λ some_left.
          subst
            (λ t.
              Wrote (decode_loop size (stuffed [] cs) d') size
                (((w ++ zero_of d.code) ++ g') ++ (t ++ cs)))
            none_owed
            (decode_stuffed cs [] d' size ((w ++ zero_of d.code) ++ g') b l' (omega arith)
              (omega (arith, not_empty cs some_left)) (omega (arith, ap length none_owed)))) in
        rw (==_ne c 0 nz, (==_iff (length g) 253).1 full)
          (subst
            (λ t.
              Wrote (decode_loop size (t ∷ (g' ++ r)) d) size
                (w ++ (zero_of d.code ++ (g ++ (c ∷ cs)))))
            code
            (rw same (
              subst (Wrote (decode_loop size r d') size)
                (regroup w (zero_of d.code) g' cs
                  ∙ ap (λ t. w ++ (zero_of d.code ++ t)) (append_assoc g (c ∷ []) cs))
                behind)))
    | no less ↦
        let one_more = length-append g (c ∷ []) in
        rw (==_ne c 0 nz, ==_ne (length g) 253 less)
          (subst
            (λ t.
              Wrote (decode_loop size (stuffed (g ++ (c ∷ [])) cs) d) size
                (w ++ (zero_of d.code ++ t)))
            (append_assoc g (c ∷ []) cs)
            (decode_stuffed cs (g ++ (c ∷ [])) d size w a l (omega arith) one (omega arith)))
  ]
]

-- In a buffer with room for the data, `cobs_decode` of the bytes that stand for it writes the data,
-- and returns its length.
pub cobs_decode-Starts :
    (out bytes : List ℕ)
    → 0 < length out
    → length bytes ≤ length out
    → let (out', n) = cobs_decode out (length out) (stuffed [] bytes) in
      Starts out' bytes × (n ≡ length bytes)
unfolding cobs_decode
cobs_decode-Starts out bytes some_room room =
    let start : Decoder = record { out = out; count = 0; left = 0; code = 255 } in
    let a : Wrote start (length out) [] = record {
      bytes = record { behind = out; whole = refl };
      count_is = refl;
      size_is = refl;
    } in
    let b =
      decode_stuffed bytes [] start (length out) [] a refl (omega arith) some_room (omega arith) in
    (b.bytes, b.count_is)
