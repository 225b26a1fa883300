-- ===== src/Ringbuf/Inv.antt =====
-- The representation invariant of `struct ringbuf`, and the bytes that a valid ring holds.
use native.Mathlib.Nat.{one-le-pow, pow-le-pow_right}
use libmcu.Base.{
  ℕ, ◌+◌, ◌-◌, ◌%◌, ◌^◌, ◌≤◌, ◌<◌, bit_and, ◌≡◌, ap, ◌∙◌, List, length, u32, sub32, arith,
}
use libmcu.Base.Bits.{bit_and_mask, mod_pow32}
use libmcu.Ringbuf.{Ringbuf, past_end, get_index, get_length, get_available}
use libmcu.Ringbuf.Window.{window, length-window}

-- The capacity is a power of two of at most 31 bits, the buffer has that many bytes, and no more
-- than those lie between the two positions.
pub record IsValid (r : Ringbuf) : Type 0 where
  pub pow : ℕ
  pub small : pow ≤ 31
  pub cap_pow : r.capacity ≡ 2 ^ pow
  pub size : length r.buffer ≡ r.capacity
  pub index_in : r.index < 2 ^ 32
  pub outdex_in : r.outdex < 2 ^ 32
  pub fits : get_length r ≤ r.capacity

-- The bytes between the read and the write position, oldest first.
abbrev pub contents : Ringbuf → List ℕ
contents r = window r.buffer r.capacity r.outdex (get_length r)

pub length-contents : (r : Ringbuf) → length (contents r) ≡ get_length r
length-contents r = length-window r.buffer r.capacity r.outdex (get_length r)

-- What goes round and what does not make up the length.
pub past_end_lem :
    (contiguous len : ℕ)
    → contiguous < 2 ^ 32
    → len < 2 ^ 32
    → (past_end contiguous len ≡ len - contiguous)
      × (sub32 len (past_end contiguous len) + past_end contiguous len ≡ len)
unfolding past_end
past_end_lem contiguous len hc hl = ground arith

module _ {r : Ringbuf} (v : IsValid r) where
  pub cap_bounds : (0 < r.capacity) × (r.capacity ≤ 2 ^ 31)
  cap_bounds = omega (
    arith,
    v.cap_pow,
    one-le-pow v.pow 2,
    pow-le-pow_right {n = 2} (omega arith) {i = v.pow} {j = 31} v.small,
  )

  pub get_index_lem : (i : ℕ) → get_index i r.capacity ≡ i % r.capacity
  unfolding get_index
  get_index_lem i = rw v.cap_pow (
      ap (bit_and i) {x = sub32 (2 ^ v.pow) 1} {y = 2 ^ v.pow - 1}
        (omega (arith, cap_bounds, v.cap_pow))
      ∙ bit_and_mask v.pow i)

  -- Positions may wrap: the capacity divides 2 ^ 32.
  pub wrap_mod : (a : ℕ) → u32 a % r.capacity ≡ a % r.capacity
  wrap_mod a = rw v.cap_pow (mod_pow32 v.pow a (omega (arith, v.small)))

  pub available_lem : get_available r + get_length r ≡ r.capacity
  available_lem = omega (arith, v.fits, cap_bounds)

  -- The room is the capacity less the bytes held.
  pub available_contents : get_available r + length (contents r) ≡ r.capacity
  available_contents =
      omega (arith, available_lem, length-window r.buffer r.capacity r.outdex (get_length r))

  -- The write position is the read position and the length, modulo 2 ^ 32.
  pub index_lem : r.index ≡ u32 (r.outdex + get_length r)
  index_lem = omega (arith, v.index_in, v.outdex_in)
