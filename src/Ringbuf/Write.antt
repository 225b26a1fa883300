-- ===== src/Ringbuf/Write.antt =====
-- `ringbuf_write` and `ringbuf_write_cancel` against the bytes that the ring holds.
use native.Mathlib.Nat.{mod-lt, mod-mod, mod_self, zero-mod}
use native.Mathlib.Decide.{dec_lt}
use libmcu.Base.{
  ℕ, zero, suc, ◌+◌, ◌-◌, ◌%◌, ◌≤◌, ◌<◌, min, ◌≡◌, refl, ap, ◌∙◌, sym, ◌⊎◌, inl, inr, List, [], ◌∷◌,
  ◌++◌, length, take, drop, blit, length-take, length-append, length-blit, take_all, lt→ltb, le→ltb,
  u32, sub32, ltb, if◌then◌else◌, arith,
}
use libmcu.Ringbuf.{
  Ringbuf, past_end, get_index, get_length, get_available, copy_in, write, write_cancel,
}
use libmcu.Ringbuf.Window.{
  window, store, store_mod, window-store, store_append, store-eq-blit, take-window, length-window,
}
use libmcu.Ringbuf.Inv.{
  IsValid, contents, cap_bounds, past_end_lem, get_index_lem, wrap_mod, available_lem,
  available_contents, index_lem,
}

pub capacity-write :
    (r : Ringbuf) (bytes : List ℕ) (n : ℕ) → (write r bytes n).1.capacity ≡ r.capacity
unfolding write
capacity-write r bytes n = refl

take_split : (c m n : ℕ) (xs : List ℕ) → n ≡ c + m → take n xs ≡ take c xs ++ take m (drop c xs)
take_split zero m n xs e = ap (λ t. take t xs) {x = n} {y = m} (omega arith)
take_split (suc c) m zero xs e = absurd (omega arith)
take_split (suc c) zero (suc n) [] e = refl
take_split (suc c) (suc m) (suc n) [] e = refl
take_split (suc c) m (suc n) (x ∷ xs) e = ap (λ t. x ∷ t) (take_split c m n xs (omega arith))

-- The two copies of `ringbuf_write` store the bytes one after the other round the buffer.
two_copies :
    (buf : List ℕ) (cap i cut remained len : ℕ) (bytes : List ℕ)
    → i + cut ≤ cap
    → (remained ≡ 0) ⊎ (i + cut ≡ cap)
    → remained ≤ cap
    → len ≡ cut + remained
    → len ≤ length bytes
    → blit (blit buf i (take cut bytes)) 0 (take remained (drop cut bytes))
      ≡ store buf cap i (take len bytes)
two_copies buf cap i cut remained len bytes h1 h2 h3 e le = sym (
    ap (store buf cap i) (take_split cut remained len bytes e)
    ∙ store_append buf cap i (i + cut) (take cut bytes) (take remained (drop cut bytes))
        (omega (arith, length-take cut bytes))
    ∙ ap (λ b. store b cap (i + cut) (take remained (drop cut bytes)))
        (store-eq-blit buf cap i (take cut bytes) (omega (arith, length-take cut bytes)))
    ∙ second h2)
  where
    first : List ℕ
    first = blit buf i (take cut bytes)

    second :
        (remained ≡ 0) ⊎ (i + cut ≡ cap)
        → store first cap (i + cut) (take remained (drop cut bytes))
          ≡ blit first 0 (take remained (drop cut bytes))
    second (inl none_left) = rw none_left refl
    second (inr at_end) =
        store_mod first cap (i + cut) 0 (take remained (drop cut bytes))
          (ap (λ t. t % cap) at_end ∙ mod_self cap ∙ sym (zero-mod cap))
        ∙ store-eq-blit first cap 0 (take remained (drop cut bytes))
            (omega (arith, length-take remained (drop cut bytes)))

module _ {r : Ringbuf} (v : IsValid r) where
  pub copy_in_lem :
      (bytes : List ℕ) (len : ℕ)
      → len ≤ r.capacity
      → len ≤ length bytes
      → copy_in r bytes len ≡ store r.buffer r.capacity r.index (take len bytes)
  unfolding copy_in
  copy_in_lem bytes len le fits =
      two_copies r.buffer r.capacity i (sub32 len remained) remained len bytes
        (omega (arith, at, i_lt, len_lem, cap_bounds v)) (ends (dec_lt contiguous len))
        (omega (arith, len_lem, cap_bounds v)) (omega (arith, len_lem)) fits
      ∙ ap (λ t. store r.buffer r.capacity t (take len bytes)) at
      ∙ store_mod r.buffer r.capacity (r.index % r.capacity) r.index (take len bytes)
          (mod-mod r.index r.capacity)
    where
      i : ℕ
      i = get_index r.index r.capacity

      contiguous : ℕ
      contiguous = sub32 r.capacity i

      remained : ℕ
      remained = past_end contiguous len

      at : i ≡ r.index % r.capacity
      at = get_index_lem v r.index

      i_lt : r.index % r.capacity < r.capacity
      i_lt = mod-lt r.index (cap_bounds v).0

      len_lem : (remained ≡ len - contiguous) × (sub32 len remained + remained ≡ len)
      len_lem = past_end_lem contiguous len (omega arith) (omega (arith, cap_bounds v))

      ends : Dec (contiguous < len) → (remained ≡ 0) ⊎ (i + sub32 len remained ≡ r.capacity)
      ends (yes p) = inr (omega (arith, at, i_lt, len_lem, cap_bounds v))
      ends (no p) = inl (omega (arith, len_lem))

  length_grows :
      (len : ℕ) → len ≤ get_available r → sub32 (u32 (r.index + len)) r.outdex ≡ get_length r + len
  length_grows len le =
      omega (arith, available_lem v, cap_bounds v, v.index_in, v.outdex_in, v.fits)

  -- The write position and the end of the window are one place of the buffer.
  same_place : r.index % r.capacity ≡ (r.outdex + get_length r) % r.capacity
  same_place = ap (λ t. t % r.capacity) (index_lem v) ∙ wrap_mod v (r.outdex + get_length r)

  contents_grow :
      (bytes : List ℕ) (len : ℕ)
      → len ≤ get_available r
      → len ≤ length bytes
      → window (copy_in r bytes len) r.capacity r.outdex (get_length r + len)
        ≡ contents r ++ take len bytes
  contents_grow bytes len le fits =
      ap (λ b. window b r.capacity r.outdex (get_length r + len))
        (copy_in_lem bytes len (omega (arith, available_lem v)) fits
          ∙ store_mod r.buffer r.capacity r.index (r.outdex + get_length r) (take len bytes)
              same_place)
      ∙ window-store r.buffer r.capacity r.outdex (get_length r) (r.outdex + get_length r)
          (get_length r + len) (take len bytes) (omega (arith, v.size)) refl
          (omega (arith, length-take len bytes)) (omega (arith, available_lem v))

  length-copy_in : (bytes : List ℕ) (len : ℕ) → length (copy_in r bytes len) ≡ length r.buffer
  unfolding copy_in
  length-copy_in bytes len = simp length-blit

  -- `ringbuf_write` takes as many bytes as there is room for, appends exactly those, and keeps the
  -- invariant.
  pub write_lem :
      (bytes : List ℕ) (datasize : ℕ)
      → datasize ≤ length bytes
      → let (n, r') = write r bytes datasize in
        (n ≡ min (get_available r) datasize)
        × (contents r' ≡ contents r ++ take n bytes)
        × IsValid r'
  unfolding write
  write_lem bytes datasize fits = (
    refl,
    ap (window (copy_in r bytes len) r.capacity r.outdex) (length_grows len (omega arith))
        ∙ contents_grow bytes len (omega arith) (omega arith),
    record {
      pow = v.pow;
      small = v.small;
      cap_pow = v.cap_pow;
      size = length-copy_in bytes len ∙ v.size;
      index_in = omega arith;
      outdex_in = v.outdex_in;
      fits = omega (arith, length_grows len (omega arith), available_lem v);
    },
  )
    where
      len : ℕ
      len = min (get_available r) datasize

  -- Bytes that fit are written whole.
  pub write_whole :
      (bytes : List ℕ)
      → length bytes ≤ get_available r
      → let (n, r') = write r bytes (length bytes) in
        (n ≡ length bytes)
        × (contents r' ≡ contents r ++ bytes)
        × IsValid r'
        × (get_available r' + length bytes ≡ get_available r)
  write_whole bytes room =
      let (n_eq, grown, keeps) = write_lem bytes (length bytes) (omega arith) in
      let whole : (write r bytes (length bytes)).0 ≡ length bytes = n_eq ∙ omega arith in
      let grown' : contents (write r bytes (length bytes)).1 ≡ contents r ++ bytes =
        grown
        ∙ ap (λ t. contents r ++ t)
            (take_all (write r bytes (length bytes)).0 bytes (omega arith)) in
      (
        whole,
        grown',
        keeps,
        omega (
          arith,
          available_contents v,
          available_contents keeps,
          capacity-write r bytes (length bytes),
          ap length grown',
          length-append (contents r) bytes,
        ),
      )

  -- `ringbuf_write_cancel` drops the bytes written last, unless it is asked for more than there
  -- are: then it returns 0 and changes nothing.
  pub write_cancel_lem :
      (size : ℕ)
      → let (n, r') = write_cancel r size in
        (n ≡ (if ltb (get_length r) size then 0 else size))
        × (contents r' ≡ take (get_length r - n) (contents r))
        × IsValid r'
  unfolding write_cancel
  write_cancel_lem size = elim (dec_lt (get_length r) size) [
    | yes p ↦ rw (lt→ltb _ _ p) (
      refl,
      sym (
          take_all (get_length r - 0) (contents r)
            (omega (arith, length-window r.buffer r.capacity r.outdex (get_length r)))),
      v,
    )
    | no p ↦ rw (le→ltb (get_length r) size (omega arith)) (
      refl,
      ap (window r.buffer r.capacity r.outdex) {x = sub32 (sub32 r.index size) r.outdex}
            {y = min (get_length r - size) (get_length r)} (omega (arith, v.index_in, v.outdex_in))
          ∙ sym (take-window r.buffer r.capacity (get_length r - size) r.outdex (get_length r)),
      record {
        pow = v.pow;
        small = v.small;
        cap_pow = v.cap_pow;
        size = v.size;
        index_in = omega arith;
        outdex_in = v.outdex_in;
        fits = omega (arith, v.fits, v.index_in, v.outdex_in);
      },
    )
  ]
