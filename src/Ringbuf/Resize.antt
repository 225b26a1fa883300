-- ===== src/Ringbuf/Resize.antt =====
-- `ringbuf_create`, `ringbuf_create_static` and `ringbuf_resize`.
use native.Mathlib.Nat.{one-le-pow, pow-le-pow_right}
use mathlib.Core.Bool.{false≢true}
use native.Mathlib.Decide.{dec_lt, ℕ_discrete}
use libmcu.Base.{
  ltb, undefined, ◌≢◌, ℕ, suc, ◌*◌, ◌^◌, ◌≤◌, ◌<◌, ◌≡◌, refl, ap, ◌∙◌, sym, ◌⊎◌, inl, inr, List, [],
  length, replicate, length-replicate, blit, length-blit, take_all, lt→ltb, le→ltb, lt→leb, le→leb,
  ==_ne, Bool-cases, ==_iff, ◌==◌, ◌&&◌, ◌||◌, sub32, leb, if◌then◌else◌, arith, some, none, Bool,
  true, false, done,
}
use libmcu.Bitops.{is_power2, flsl, shl_one, roundup_pow2}
use libmcu.Bitops.Power.{
  flsl-IsTopBit, roundup_pow2_lem, pow-le_inv, pow-lt_inv, is_power2_iff, roundup_power,
}
use libmcu.Ringbuf.{
  Ringbuf, get_length, initialize, resize_to, resized_buffer, resize, create, create_static,
}
use libmcu.Ringbuf.Window.{window, window-store, store-eq-blit, length-window}
use libmcu.Ringbuf.Inv.{IsValid, contents}
use libmcu.Ringbuf.Read.{read_core_lem}

-- A ring of 2 ^ k bytes that holds nothing.
abbrev pub empty_ring : ℕ → List ℕ → Ringbuf
empty_ring k buf = record { capacity = 2 ^ k; index = 0; outdex = 0; buffer = buf }

pub empty_ring-IsValid :
    (k : ℕ) (buf : List ℕ) → k ≤ 31 → length buf ≡ 2 ^ k → IsValid (empty_ring k buf)
empty_ring-IsValid k buf small size = record {
  pow = k;
  small = small;
  cap_pow = refl;
  size = size;
  index_in = omega arith;
  outdex_in = omega arith;
  fits = omega arith;
}

pub flsl_power : (k : ℕ) → k ≤ 31 → flsl (2 ^ k) ≡ suc k
flsl_power k small =
    let (e, at, top, e_small) =
      flsl-IsTopBit (2 ^ k) (one-le-pow k 2 (omega arith))
        (omega (arith, pow-le-pow_right {n = 2} (omega arith) {i = k} {j = 31} small)) in
    at ∙ ap suc (omega (arith, pow-le_inv e k top.0, pow-lt_inv k (suc e) top.1))

initialize_lem : (k : ℕ) (buf : List ℕ) → k ≤ 31 → initialize buf (2 ^ k) ≡ done (empty_ring k buf)
unfolding initialize shl_one
initialize_lem k buf small = rw (flsl_power k small, minus_one) (rw (lt→ltb k 32 (omega arith)))
  where
    minus_one : sub32 (suc k) 1 ≡ k
    minus_one = omega arith

-- `ringbuf_create` returns a ring for every size from 1 to 2 ^ 31 if both allocations succeed: it is
-- valid, holds nothing, and its capacity is at least the size and below twice the size.
create_lem :
    (space_size : ℕ)
    → 0 < space_size
    → space_size ≤ 2 ^ 31
    → (r : Ringbuf) × (create space_size true true ≡ done (some r))
      × IsValid r
      × (contents r ≡ [])
      × (space_size ≤ r.capacity)
      × (r.capacity < 2 * space_size)
unfolding create
create_lem space_size h le =
    let (k, e, small, lo, hi) = roundup_pow2_lem space_size h le in
    let buf : List ℕ = replicate (2 ^ k) 0 in
    (
      empty_ring k buf,
      rw (==_ne space_size 0 (λ z. absurd (omega arith)), e, initialize_lem k buf small),
      empty_ring-IsValid k buf small (length-replicate (2 ^ k) 0),
      refl,
      lo,
      hi,
    )

-- `ringbuf_create_static` takes a buffer whose size is a power of two of at most 2 ^ 31, and makes
-- a valid ring of exactly that capacity that holds nothing; it refuses every other size up to there.
pub create_static_lem :
    (buf : List ℕ) (bufsize : ℕ)
    → 0 < bufsize
    → bufsize ≤ 2 ^ 31
    → length buf ≡ bufsize
    → ((r : Ringbuf) × (is_power2 bufsize ≡ true)
        × (create_static (some buf) bufsize ≡ done (some r))
        × IsValid r
        × (contents r ≡ [])
        × (r.capacity ≡ bufsize))
      ⊎ ((is_power2 bufsize ≡ false) × (create_static (some buf) bufsize ≡ done none))
unfolding create_static
create_static_lem buf bufsize h le size = elim (Bool-cases (is_power2 bufsize)) [
  | inl power ↦
      let (k, e) = (is_power2_iff bufsize).0 power in
      inl (
        empty_ring k buf,
        power,
        rw (not_zero, roundup_power bufsize k h power e, le→ltb bufsize (2 ^ k) (omega arith))
            (rw e (rw (initialize_lem k buf (pow-le_inv k 31 (rw e at le))))),
        empty_ring-IsValid k buf (pow-le_inv k 31 (rw e at le)) (size ∙ e),
        refl,
        sym e,
      )
  | inr other ↦
      let (k, e, small, lo, hi) = roundup_pow2_lem bufsize h le in
      inr (other, rw (not_zero, e, lt→ltb bufsize (2 ^ k) (below k lo other)))
]
  where
    not_zero : (bufsize == 0) ≡ false
    not_zero = ==_ne bufsize 0 (λ z. absurd (omega arith))

    below : (k : ℕ) → bufsize ≤ 2 ^ k → is_power2 bufsize ≡ false → bufsize < 2 ^ k
    below k lo other = elim (ℕ_discrete bufsize (2 ^ k)) [
      | yes p ↦ absurd (false≢true (sym other ∙ (is_power2_iff bufsize).1 (k, p)))
      | no p ↦ omega arith
    ]

module _ {r : Ringbuf} (v : IsValid r) where
  -- The new buffer starts with the bytes of the ring.
  resized_buffer_lem : (n : ℕ) → resized_buffer r n ≡ blit (replicate n 0) 0 (contents r)
  unfolding resized_buffer
  resized_buffer_lem n = elim (dec_lt 0 (get_length r)) [
    | yes p ↦ rw (lt→ltb 0 (get_length r) p) (
        ap (blit (replicate n 0) 0) (
          ap (λ t. t.0) (read_core_lem v 0 (get_length r))
          ∙ take_all (get_length r) (contents r) (omega (arith, size))))
    | no p ↦ rw (le→ltb 0 (get_length r) (omega arith)) (
        ap (λ t. blit (replicate n 0) 0 (window r.buffer r.capacity r.outdex t)) {x = 0}
          {y = get_length r} (omega arith))
  ]
    where
      size : length (contents r) ≡ get_length r
      size = length-window r.buffer r.capacity r.outdex (get_length r)

  abbrev resized : ℕ → Ringbuf
  resized n = record { capacity = n; index = get_length r; outdex = 0; buffer = resized_buffer r n }

  resized_lem :
      (k : ℕ)
      → k ≤ 31
      → get_length r ≤ 2 ^ k
      → (contents (resized (2 ^ k)) ≡ contents r) × IsValid (resized (2 ^ k))
  resized_lem k small le = (
    contents_same,
    record {
      pow = k;
      small = small;
      cap_pow = refl;
      size =
          ap length (resized_buffer_lem (2 ^ k))
          ∙ length-blit (replicate (2 ^ k) 0) 0 (contents r)
          ∙ length-replicate (2 ^ k) 0;
      index_in = omega arith;
      outdex_in = omega arith;
      fits = omega arith;
    },
  )
    where
      size : length (contents r) ≡ get_length r
      size = length-window r.buffer r.capacity r.outdex (get_length r)

      contents_same : contents (resized (2 ^ k)) ≡ contents r
      contents_same =
          ap (window (resized_buffer r (2 ^ k)) (2 ^ k) 0) {y = get_length r} (omega arith)
          ∙ ap (λ b. window b (2 ^ k) 0 (get_length r))
              (resized_buffer_lem (2 ^ k)
                ∙ sym (
                    store-eq-blit (replicate (2 ^ k) 0) (2 ^ k) 0 (contents r)
                      (omega (arith, size))))
          ∙ window-store (replicate (2 ^ k) 0) (2 ^ k) 0 0 0 (get_length r) (contents r)
              (omega (arith, length-replicate {A = ℕ} (2 ^ k) 0)) refl (omega (arith, size)) le

  -- What `resize_to` gives, for a buffer from the heap.
  abbrev resize_out : Bool → ℕ → Bool × Ringbuf
  resize_out memory n =
      if n == r.capacity
      then (true, r)
      else if ltb n (get_length r)
      then (false, r)
      else if memory
      then (true, resized n)
      else (false, r)

  three_ways :
      (a b c : Bool) (x y z w : Bool × Ringbuf)
      → (if a then done x else if b then done y else if c then done z else done w)
        ≡ done (if a then x else if b then y else if c then z else w)
  three_ways true b c x y z w = refl
  three_ways false true c x y z w = refl
  three_ways false false true x y z w = refl
  three_ways false false false x y z w = refl

  resize_to-done : (memory : Bool) (n : ℕ) → resize_to true r memory n ≡ done (resize_out memory n)
  unfolding resize_to
  resize_to-done memory n =
      three_ways (n == r.capacity) (ltb n (get_length r)) memory (true, r) (false, r)
        (true, resized n) (false, r)

  -- A static ring that would get another buffer frees the caller's.
  resize_to-static :
      (n : ℕ) → n ≢ r.capacity → get_length r ≤ n → resize_to false r true n ≡ undefined
  unfolding resize_to
  resize_to-static n other room = rw (==_ne n r.capacity other, le→ltb n (get_length r) room) refl

  static_lem :
      (memory : Bool) (n : ℕ)
      → (resize_to false r memory n ≡ done (resize_out memory n)) × ((resize_out memory n).1 ≡ r)
        ⊎ (resize_to false r memory n ≡ undefined)
          × (n ≢ r.capacity)
          × (get_length r ≤ n)
          × (memory ≡ true)
  unfolding resize_to
  static_lem memory n = elim (ℕ_discrete n r.capacity) [
    | yes same ↦ inl (rw ((==_iff n r.capacity).1 same) (refl, refl))
    | no other ↦ elim (dec_lt n (get_length r)) [
      | yes short ↦ inl (rw (==_ne n r.capacity other, lt→ltb n (get_length r) short) (refl, refl))
      | no room ↦ by_memory memory other (omega arith)
    ]
  ]
    where
      by_memory :
          (memory : Bool)
          → n ≢ r.capacity
          → get_length r ≤ n
          → (resize_to false r memory n ≡ done (resize_out memory n))
              × ((resize_out memory n).1 ≡ r)
            ⊎ (resize_to false r memory n ≡ undefined)
              × (n ≢ r.capacity)
              × (get_length r ≤ n)
              × (memory ≡ true)
      by_memory true other room = inr (resize_to-static n other room, other, room, refl)
      by_memory false other room =
          inl (rw (==_ne n r.capacity other, le→ltb n (get_length r) room) (refl, refl))

  -- The outcome of `ringbuf_resize` for a rounded size: what it returns, and that the bytes and the
  -- invariant stay.
  resize_to_lem :
      (k : ℕ) (memory : Bool)
      → k ≤ 31
      → let (b, r') = resize_out memory (2 ^ k) in
        (b ≡ (2 ^ k == r.capacity) || (leb (length (contents r)) (2 ^ k) && memory))
        × IsValid r'
        × (contents r' ≡ contents r)
        × ((b ≡ true) × (2 ^ k ≤ r'.capacity) ⊎ (b ≡ false) × (r' ≡ r))
  resize_to_lem k memory small = elim (ℕ_discrete (2 ^ k) r.capacity) [
    | yes same ↦ rw ((==_iff (2 ^ k) r.capacity).1 same) (refl, v, refl, inl (refl, omega arith))
    | no other ↦ rw (==_ne (2 ^ k) r.capacity other) (elim (dec_lt (2 ^ k) (get_length r)) [
      | yes short ↦
          rw
            (
              lt→ltb (2 ^ k) (get_length r) short,
              lt→leb (length (contents r)) (2 ^ k) (omega (arith, size)),
            )
            (refl, v, refl, inr (refl, refl))
      | no room ↦
          rw
            (
              le→ltb (2 ^ k) (get_length r) (omega arith),
              le→leb (length (contents r)) (2 ^ k) (omega (arith, size)),
            )
            (allocated memory (omega arith))
    ])
  ]
    where
      size : length (contents r) ≡ get_length r
      size = length-window r.buffer r.capacity r.outdex (get_length r)

      allocated :
          (memory : Bool)
          → get_length r ≤ 2 ^ k
          → let out : Bool × Ringbuf = if memory then (true, resized (2 ^ k)) else (false, r) in
            (out.0 ≡ memory)
            × IsValid out.1
            × (contents out.1 ≡ contents r)
            × ((out.0 ≡ true) × (2 ^ k ≤ out.1.capacity) ⊎ (out.0 ≡ false) × (out.1 ≡ r))
      allocated true le =
          (refl, (resized_lem k small le).1, (resized_lem k small le).0, inl (refl, omega arith))
      allocated false le = (refl, v, refl, inr (refl, refl))

  -- `ringbuf_resize` to a size from 1 to 2 ^ 31 keeps the bytes of the ring and the invariant on
  -- every path. It succeeds exactly if the rounded size is the capacity already, or holds the
  -- bytes and the allocation succeeds; then the capacity is at least the new size. If it fails,
  -- nothing changes. That is for a ring of `ringbuf_create`; a static one behaves so where no new
  -- buffer comes in, and has no defined outcome where one does.
  pub resize_lem :
      (new_size : ℕ) (memory : Bool)
      → 0 < new_size
      → new_size ≤ 2 ^ 31
      → (k : ℕ) × (b : Bool) × (r' : Ringbuf) × (resize true r new_size memory ≡ done (b, r'))
        × (roundup_pow2 new_size ≡ done (2 ^ k))
        × (b ≡ (2 ^ k == r.capacity) || (leb (length (contents r)) (2 ^ k) && memory))
        × IsValid r'
        × (contents r' ≡ contents r)
        × ((b ≡ true) × (new_size ≤ r'.capacity) ⊎ (b ≡ false) × (r' ≡ r))
        × ((resize false r new_size memory ≡ done (b, r')) × (r' ≡ r)
            ⊎ (resize false r new_size memory ≡ undefined)
              × (2 ^ k ≢ r.capacity)
              × (get_length r ≤ 2 ^ k)
              × (memory ≡ true))
  unfolding resize
  resize_lem new_size memory h le =
      let (k, e, small, lo, hi) = roundup_pow2_lem new_size h le in
      let (out, keeps, same, how) = resize_to_lem k memory small in
      (
        k,
        (resize_out memory (2 ^ k)).0,
        (resize_out memory (2 ^ k)).1,
        rw (==_ne new_size 0 (λ z. absurd (omega arith)), e) (resize_to-done memory (2 ^ k)),
        e,
        out,
        keeps,
        same,
        weaken how lo,
        rw (==_ne new_size 0 (λ z. absurd (omega arith)), e) (static_lem memory (2 ^ k)),
      )
    where
      weaken :
          {b : Bool} {r' : Ringbuf} {p : ℕ}
          → (b ≡ true) × (p ≤ r'.capacity) ⊎ (b ≡ false) × (r' ≡ r)
          → new_size ≤ p
          → (b ≡ true) × (new_size ≤ r'.capacity) ⊎ (b ≡ false) × (r' ≡ r)
      weaken (inl (e, f)) lo = inl (e, omega arith)
      weaken (inr f) lo = inr f
