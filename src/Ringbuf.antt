-- ===== src/Ringbuf.antt =====
-- modules/common/src/ringbuf.c: a byte ring whose capacity is a power of two and whose read and
-- write positions run freely modulo 2 ^ 32 (`size_t`).
-- A function that updates `*handle` returns the new state beside its result. The memory fences
-- order the accesses of two threads and do nothing in one. `calloc` may fail: a Boolean argument
-- says whether each call succeeds.
pub mod Window
pub mod Inv
pub mod Write
pub mod Read
pub mod Resize
pub mod Fifo
mod Tests
use libmcu.Base.{
  ℕ, ◌+◌, ◌-◌, min, bit_and, ◌≡◌, Bool, true, false, Option, none, some, List, [], take, drop, blit,
  ◌++◌, replicate, ◌&&◌, ltb, leb, ◌==◌, if◌then◌else◌, u32, sub32, Outcome, done, undefined, ◌>>=◌,
}
use libmcu.Bitops.{flsl, shl_one, roundup_pow2}

pub record Ringbuf : Type 0 where
  pub capacity : ℕ
  pub index : ℕ
  pub outdex : ℕ
  pub buffer : List ℕ

-- GET_INDEX
unfoldable pub get_index : ℕ → ℕ → ℕ
get_index i n = bit_and i (sub32 n 1)

abbrev pub get_capacity : Ringbuf → ℕ
get_capacity r = r.capacity

abbrev pub get_length : Ringbuf → ℕ
get_length r = sub32 r.index r.outdex

abbrev pub get_available : Ringbuf → ℕ
get_available r = sub32 (get_capacity r) (get_length r)

-- The positions and the capacity that `initialize` gives a handle with this buffer.
unfoldable pub initialize : List ℕ → ℕ → Outcome Ringbuf
initialize buf bufsize = do
  capacity ← shl_one (sub32 (flsl bufsize) 1)
  done (record { capacity = capacity; index = 0; outdex = 0; buffer = buf })

-- The pointer, as an index into the buffer, and what goes through `contiguous`.
unfoldable pub get_pointer : Ringbuf → ℕ → Option ℕ × ℕ
get_pointer r offset =
    let index = get_index (u32 (r.outdex + offset)) r.capacity in
    if leb (get_length r) offset
    then (none, sub32 r.capacity r.capacity)
    else (some index, sub32 r.capacity index)

-- `remained`: how much of `len` bytes goes round to the start of the buffer.
unfoldable pub past_end : ℕ → ℕ → ℕ
past_end contiguous len = if ltb contiguous len then sub32 len contiguous else 0

-- The bytes that both `memcpy` of `read_core` put into `buf`, from the index that `p` points to.
unfoldable pub copy_out : Ringbuf → ℕ → ℕ → ℕ → List ℕ
copy_out r p contiguous len =
    let remained = past_end contiguous len in
    let cut = sub32 len remained in take cut (drop p r.buffer) ++ take remained r.buffer

-- `if (p) { ... }` of `read_core`: what is stored into `buf`, and `bytes_read`.
abbrev pub read_from : Ringbuf → Option ℕ × ℕ → ℕ → List ℕ × ℕ
read_from r (none, contiguous) len = ([], 0)
read_from r (some p, contiguous) len = (copy_out r p contiguous len, len)

-- The bytes stored into `buf`, and the count returned.
unfoldable pub read_core : Ringbuf → ℕ → ℕ → List ℕ × ℕ
read_core r offset bufsize =
    read_from r (get_pointer r offset) (min (sub32 (get_length r) offset) bufsize)

unfoldable pub consume_core : Ringbuf → ℕ → Bool × Ringbuf
consume_core r consume_size =
    if ltb (get_length r) consume_size
    then (false, r)
    else (true, record r { outdex = u32 (r.outdex + consume_size) })

-- The buffer after both `memcpy` of `ringbuf_write`.
unfoldable pub copy_in : Ringbuf → List ℕ → ℕ → List ℕ
copy_in r bytes len =
    let index = get_index r.index r.capacity in
    let contiguous = sub32 r.capacity index in
    let remained = past_end contiguous len in
    let cut = sub32 len remained in
    blit (blit r.buffer index (take cut bytes)) 0 (take remained (drop cut bytes))

unfoldable pub write : Ringbuf → List ℕ → ℕ → ℕ × Ringbuf
write r bytes datasize =
    let len = min (get_available r) datasize in
    (len, record r { index = u32 (r.index + len); buffer = copy_in r bytes len })

unfoldable pub write_cancel : Ringbuf → ℕ → ℕ × Ringbuf
write_cancel r size =
    if ltb (get_length r) size then (0, r) else (size, record r { index = sub32 r.index size })

unfoldable pub peek : Ringbuf → ℕ → ℕ → List ℕ × ℕ
peek r offset bufsize = read_core r offset bufsize

unfoldable pub peek_pointer : Ringbuf → ℕ → Option ℕ × ℕ
peek_pointer r offset =
    let (p, contiguous) = get_pointer r offset in (p, min contiguous (sub32 (get_length r) offset))

unfoldable pub consume : Ringbuf → ℕ → Bool × Ringbuf
consume r consume_size = consume_core r consume_size

unfoldable pub read : Ringbuf → ℕ → ℕ → (List ℕ × ℕ) × Ringbuf
read r offset bufsize =
    let (bytes, bytes_read) = read_core r offset bufsize in
    (
      (bytes, bytes_read),
      (if ltb 0 bytes_read then (consume_core r (u32 (bytes_read + offset))).1 else r),
    )

-- The new buffer: zeroed by `calloc`, with the old bytes copied to its start.
unfoldable pub resized_buffer : Ringbuf → ℕ → List ℕ
resized_buffer r actual_new_size =
    let data_len = get_length r in
    let fresh = replicate actual_new_size 0 in
    if ltb 0 data_len then blit fresh 0 (read_core r 0 data_len).0 else fresh

-- What `ringbuf_resize` does once the new size is rounded; `memory` says whether `calloc` succeeds,
-- and `on_heap` whether the old buffer, which is freed, is one of `calloc` and not that of a static
-- ring.
unfoldable pub resize_to : Bool → Ringbuf → Bool → ℕ → Outcome (Bool × Ringbuf)
resize_to on_heap r memory actual_new_size =
    let data_len = get_length r in
    let resized : Ringbuf = record {
      capacity = actual_new_size;
      index = data_len;
      outdex = 0;
      buffer = resized_buffer r actual_new_size;
    } in
    if actual_new_size == r.capacity
    then done (true, r)
    else if ltb actual_new_size data_len
    then done (false, r)
    else if memory
    then (if on_heap then done (true, resized) else undefined)
    else done (false, r)

unfoldable pub resize : Bool → Ringbuf → ℕ → Bool → Outcome (Bool × Ringbuf)
resize on_heap r new_size memory =
    if new_size == 0
    then done (false, r)
    else (roundup_pow2 new_size >>= λ actual_new_size. resize_to on_heap r memory actual_new_size)

-- `none` for the buffer is NULL, and for the result the `false` that leaves the handle alone.
unfoldable pub create_static : Option (List ℕ) → ℕ → Outcome (Option Ringbuf)
create_static none bufsize = done none
create_static (some buf) bufsize =
    if bufsize == 0
    then done none
    else (roundup_pow2 bufsize >>= λ required_size.
        if ltb bufsize required_size
        then done none
        else (initialize buf bufsize >>= λ r. done (some r)))

-- `handle_memory` and `buffer_memory` say whether the two `calloc` succeed; `none` is NULL.
unfoldable pub create : ℕ → Bool → Bool → Outcome (Option Ringbuf)
create space_size handle_memory buffer_memory =
    if space_size == 0
    then done none
    else (roundup_pow2 space_size >>= λ actual_size.
        if handle_memory && buffer_memory
        then (initialize (replicate actual_size 0) actual_size >>= λ r. done (some r))
        else done none)
