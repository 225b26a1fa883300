-- ===== src/Ringbuf/Read.antt =====
-- `ringbuf_peek`, `ringbuf_read` and `ringbuf_consume` against the bytes that the ring holds.
use native.Mathlib.Nat.{mod-lt, mod-mod, mod_self, zero-mod}
use native.Mathlib.Decide.{dec_lt}
use libmcu.Base.{
  ℕ, ◌+◌, ◌-◌, ◌%◌, ◌≤◌, ◌<◌, min, ◌≡◌, refl, ap, ap₂, subst, ◌∙◌, sym, ◌⊎◌, inl, inr, List, [],
  ◌++◌, length, take, drop, length-take, lt→ltb, le→ltb, le→leb, lt→leb, length-drop, u32, sub32,
  ltb, leb, if◌then◌else◌, arith, some, none, true, false,
}
use libmcu.Ringbuf.{
  Ringbuf, past_end, get_index, get_length, copy_out, read_from, read_core, get_pointer, peek,
  consume_core, consume, read,
}
use libmcu.Ringbuf.Window.{
  window, window_mod, window_append, window_slice, take-window, drop-window, length-window,
}
use libmcu.Ringbuf.Inv.{IsValid, contents, cap_bounds, past_end_lem, get_index_lem, wrap_mod}

-- A slice up to the end of the buffer, and one from its start, make up a window that goes round.
two_slices :
    (buf : List ℕ) (cap i cut remained len : ℕ)
    → cap ≤ length buf
    → i + cut ≤ cap
    → (remained ≡ 0) ⊎ (i + cut ≡ cap)
    → remained ≤ cap
    → len ≡ cut + remained
    → take cut (drop i buf) ++ take remained buf ≡ window buf cap i len
two_slices buf cap i cut remained len fits h1 h2 h3 e =
    ap₂ ◌++◌ (sym (window_slice buf cap i cut h1 fits)) (second h2)
    ∙ sym (window_append buf cap i (i + cut) cut remained len e refl)
  where
    second :
        (remained ≡ 0) ⊎ (i + cut ≡ cap) → take remained buf ≡ window buf cap (i + cut) remained
    second (inl none_left) = rw none_left refl
    second (inr at_end) =
        sym (window_slice buf cap 0 remained (omega arith) fits)
        ∙ window_mod buf cap 0 (i + cut) remained
            (zero-mod cap ∙ sym (ap (λ t. t % cap) at_end ∙ mod_self cap))

module _ {r : Ringbuf} (v : IsValid r) where
  -- The two copies of `read_core` read the window that starts at the pointer.
  copy_out_lem :
      (i len : ℕ)
      → i < r.capacity
      → len ≤ r.capacity
      → copy_out r i (sub32 r.capacity i) len ≡ window r.buffer r.capacity i len
  unfolding copy_out
  copy_out_lem i len i_lt le =
      two_slices r.buffer r.capacity i (sub32 len remained) remained len (omega (arith, v.size))
        (omega (arith, len_lem, cap_bounds v)) (ends (dec_lt (sub32 r.capacity i) len))
        (omega (arith, len_lem, cap_bounds v)) (omega (arith, len_lem))
    where
      remained : ℕ
      remained = past_end (sub32 r.capacity i) len

      len_lem : (remained ≡ len - sub32 r.capacity i) × (sub32 len remained + remained ≡ len)
      len_lem = past_end_lem (sub32 r.capacity i) len (omega arith) (omega (arith, cap_bounds v))

      ends : Dec (sub32 r.capacity i < len) → (remained ≡ 0) ⊎ (i + sub32 len remained ≡ r.capacity)
      ends (yes p) = inr (omega (arith, len_lem, cap_bounds v))
      ends (no p) = inl (omega (arith, len_lem))

  pointer_lem :
      (offset : ℕ)
      → get_index (u32 (r.outdex + offset)) r.capacity ≡ (r.outdex + offset) % r.capacity
  pointer_lem offset = get_index_lem v (u32 (r.outdex + offset)) ∙ wrap_mod v (r.outdex + offset)

  get_pointer-none :
      (offset : ℕ)
      → get_length r ≤ offset
      → get_pointer r offset ≡ (none, sub32 r.capacity r.capacity)
  unfolding get_pointer
  get_pointer-none offset h = rw (le→leb (get_length r) offset h)

  get_pointer-some :
      (offset : ℕ)
      → offset < get_length r
      → let i = (r.outdex + offset) % r.capacity in
        get_pointer r offset ≡ (some i, sub32 r.capacity i)
  unfolding get_pointer
  get_pointer-some offset h = rw (lt→leb (get_length r) offset h, pointer_lem offset)

  -- `read_core` gives the bytes of the ring from the offset on, at most as many as asked for.
  pub read_core_lem :
      (offset n : ℕ)
      → let bytes = take n (drop offset (contents r)) in
        read_core r offset n ≡ (bytes, length bytes)
  unfolding read_core
  read_core_lem offset n = elim (dec_lt offset (get_length r)) [
    | yes p ↦
        ap (λ t. read_from r t (min (sub32 (get_length r) offset) n)) (get_pointer-some offset p)
        ∙ pair_eq (copied p ∙ bytes_eq) (omega (arith, count))
    | no p ↦
        ap (λ t. read_from r t (min (sub32 (get_length r) offset) n))
          (get_pointer-none offset (omega arith))
        ∙ pair_eq (none_left p ∙ bytes_eq) (omega (arith, count))
  ]
    where
      len : ℕ
      len = min n (get_length r - offset)

      bytes_eq :
          window r.buffer r.capacity (r.outdex + offset) len ≡ take n (drop offset (contents r))
      bytes_eq = sym (
          ap (take n) (drop-window r.buffer r.capacity offset r.outdex (get_length r))
          ∙ take-window r.buffer r.capacity n (r.outdex + offset) (get_length r - offset))

      count : length (take n (drop offset (contents r))) ≡ len
      count = sym (ap length bytes_eq) ∙ length-window r.buffer r.capacity (r.outdex + offset) len

      pair_eq : {xs ys : List ℕ} {a b : ℕ} → xs ≡ ys → a ≡ b → ◌≡◌ {A = List ℕ × ℕ} (xs, a) (ys, b)
      pair_eq p q = λ i. (p i, q i)

      none_left :
          ¬ (offset < get_length r) → [] ≡ window r.buffer r.capacity (r.outdex + offset) len
      none_left p = ap (window r.buffer r.capacity (r.outdex + offset)) {x = 0} (omega arith)

      copied :
          offset < get_length r
          → copy_out r
              ((r.outdex + offset) % r.capacity)
              (sub32 r.capacity ((r.outdex + offset) % r.capacity))
              (min (sub32 (get_length r) offset) n)
            ≡ window r.buffer r.capacity (r.outdex + offset) len
      copied p =
          copy_out_lem ((r.outdex + offset) % r.capacity) (min (sub32 (get_length r) offset) n)
            (mod-lt (r.outdex + offset) (cap_bounds v).0) (omega (arith, v.fits))
          ∙ window_mod r.buffer r.capacity ((r.outdex + offset) % r.capacity) (r.outdex + offset)
              (min (sub32 (get_length r) offset) n) (mod-mod (r.outdex + offset) r.capacity)
          ∙ ap (window r.buffer r.capacity (r.outdex + offset)) {y = len} (omega arith)

  -- `ringbuf_peek` gives the bytes of the ring from the offset on, at most as many as asked for, and
  -- returns their number.
  pub peek_lem :
      (offset n : ℕ)
      → let bytes = take n (drop offset (contents r)) in peek r offset n ≡ (bytes, length bytes)
  unfolding peek
  peek_lem offset n = read_core_lem offset n

  consumed :
      (n : ℕ)
      → n ≤ get_length r
      → let r' : Ringbuf = record r { outdex = u32 (r.outdex + n) } in
        (contents r' ≡ drop n (contents r)) × IsValid r'
  consumed n le = (
    window_mod r.buffer r.capacity (u32 (r.outdex + n)) (r.outdex + n)
          (sub32 r.index (u32 (r.outdex + n))) (wrap_mod v (r.outdex + n))
        ∙ ap (window r.buffer r.capacity (r.outdex + n)) {y = get_length r - n}
            (omega (arith, v.index_in, v.outdex_in))
        ∙ sym (drop-window r.buffer r.capacity n r.outdex (get_length r)),
    record {
      pow = v.pow;
      small = v.small;
      cap_pow = v.cap_pow;
      size = v.size;
      index_in = v.index_in;
      outdex_in = omega arith;
      fits = omega (arith, v.fits, v.index_in, v.outdex_in);
    },
  )

  pub consume_core-true :
      (n : ℕ)
      → n ≤ get_length r
      → let (b, r') = consume_core r n in
        (b ≡ true) × (contents r' ≡ drop n (contents r)) × IsValid r'
  unfolding consume_core
  consume_core-true n le =
      rw (le→ltb (get_length r) n le) (refl, (consumed n le).0, (consumed n le).1)

  pub consume_core-false : (n : ℕ) → get_length r < n → consume_core r n ≡ (false, r)
  unfolding consume_core
  consume_core-false n lt = rw (lt→ltb (get_length r) n lt)

  -- `ringbuf_consume` drops that many bytes from the front, or returns false and changes nothing
  -- where there are fewer.
  pub consume_lem :
      (n : ℕ)
      → let (b, r') = consume r n in
        (b ≡ leb n (length (contents r)))
        × (contents r' ≡ (if leb n (length (contents r)) then drop n (contents r) else contents r))
        × IsValid r'
  unfolding consume
  consume_lem n = elim (dec_lt (get_length r) n) [
    | yes p ↦
        rw (consume_core-false n p, lt→leb n (length (contents r)) (omega (arith, size)))
          (refl, refl, v)
    | no p ↦
        rw (le→leb n (length (contents r)) (omega (arith, size)))
          (consume_core-true n (omega arith))
  ]
    where
      size : length (contents r) ≡ get_length r
      size = length-window r.buffer r.capacity r.outdex (get_length r)

  -- What `ringbuf_read` leaves in the ring after `k` bytes were read.
  advance : ℕ → ℕ → Ringbuf
  advance offset k = if ltb 0 k then (consume_core r (u32 (k + offset))).1 else r

  advance_lem :
      (offset n k : ℕ)
      → k ≡ length (take n (drop offset (contents r)))
      → (contents (advance offset k)
          ≡ (if ltb 0 k then drop (k + offset) (contents r) else contents r))
        × IsValid (advance offset k)
  unfolding advance
  advance_lem offset n k e = elim (dec_lt 0 k) [
    | yes p ↦ rw (lt→ltb 0 k p) (
      ap (λ t. contents (consume_core r t).1) (whole p)
          ∙ (consume_core-true (k + offset) (in_range p)).1,
      subst (λ t. IsValid (consume_core r t).1) (sym (whole p))
          (consume_core-true (k + offset) (in_range p)).2,
    )
    | no p ↦ rw (le→ltb 0 k (omega arith)) (refl, v)
  ]
    where
      in_range : 0 < k → k + offset ≤ get_length r
      in_range p = omega (
        arith,
        length-take n (drop offset (contents r)),
        length-drop offset (contents r),
        length-window r.buffer r.capacity r.outdex (get_length r),
      )

      whole : 0 < k → u32 (k + offset) ≡ k + offset
      whole p = omega (arith, in_range p, v.fits, cap_bounds v)

  -- `ringbuf_read` gives the bytes that `ringbuf_peek` gives; where there are some, the bytes up to
  -- the last one read leave the ring, those before the offset too.
  pub read_lem :
      (offset n : ℕ)
      → let ((bytes, k), r') = read r offset n in
        (bytes ≡ take n (drop offset (contents r)))
        × (k ≡ length bytes)
        × (contents r' ≡ (if ltb 0 k then drop (k + offset) (contents r) else contents r))
        × IsValid r'
  unfolding read advance
  read_lem offset n =
      rw (read_core_lem offset n)
        (refl, refl, (advance_lem offset n _ refl).0, (advance_lem offset n _ refl).1)
