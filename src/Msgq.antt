-- ===== src/Msgq.antt =====
-- modules/common/src/msgq.c: a queue of messages in a ring buffer, each behind its size.
-- An `int` is its 32-bit pattern. The lock functions are the application's: they are fields of the
-- queue, and act on the context `C` that it holds. `size_t` has 4 bytes, the lowest first.
pub mod Frames
pub mod Message
pub mod Sync
pub mod Fifo
pub mod Size
mod Tests
use libmcu.Base.{
  ℕ, ◌+◌, ◌-◌, ◌*◌, ◌/◌, ◌%◌, ◌^◌, bit_or, Bool, true, false, not, Option, none, some, List, [],
  ◌∷◌, ltb, ◌==◌, if◌then◌else◌, u32, sub32, errno, Outcome, done, undefined, ◌>>=◌,
}
use libmcu.Bitops.{flsl, is_power2, shl_one}
use libmcu.Ringbuf
use libmcu.Ringbuf.{Ringbuf, get_length, get_capacity}

-- The size of a ring for `n` messages.
unfoldable pub calc_size : ℕ → ℕ → Outcome ℕ
calc_size n max_msg_size =
    let requested = u32 (u32 (4 + max_msg_size) * n) in
    let bit = flsl requested in shl_one (if is_power2 requested then sub32 bit 1 else bit)

abbrev pub enoent : ℕ
enoent = errno 2

abbrev pub eio : ℕ
eio = errno 5

abbrev pub eagain : ℕ
eagain = errno 11

abbrev pub enomem : ℕ
enomem = errno 12

abbrev pub erange : ℕ
erange = errno 34

-- `msgq_msg_meta_t` as it lies in memory: the size, in 4 bytes.
abbrev pub encode_meta : ℕ → List ℕ
encode_meta size = size % 256 ∷ size / 256 % 256 ∷ size / 65536 % 256 ∷ size / 16777216 % 256 ∷ []

-- A read of fewer bytes never gets this far.
abbrev pub decode_meta : List ℕ → ℕ
decode_meta (a ∷ b ∷ c ∷ d ∷ rest) = a + b * 256 + c * 65536 + d * 16777216
decode_meta short = 0

-- Writes the message after its meta data was written; `n` is what `ringbuf_write` took.
unfoldable pub push_body : Ringbuf → List ℕ → ℕ → ℕ × Ringbuf
push_body ringbuf bytes datasize =
    let (n, ringbuf') = Ringbuf.write ringbuf bytes datasize in
    let cancelled = (Ringbuf.write_cancel ringbuf' (u32 (n + 4))).1 in
    if n == datasize then (0, ringbuf') else (eio, cancelled)

unfoldable pub push_message : Ringbuf → List ℕ → ℕ → ℕ × Ringbuf
push_message ringbuf bytes datasize =
    let available = sub32 (get_capacity ringbuf) (get_length ringbuf) in
    let (n, ringbuf') = Ringbuf.write ringbuf (encode_meta datasize) 4 in
    let cancelled = (Ringbuf.write_cancel ringbuf' n).1 in
    if ltb available (u32 (datasize + 4))
    then (enomem, ringbuf)
    else if n == 4
    then push_body ringbuf' bytes datasize
    else (eio, cancelled)

-- What `msgq_pop` returns and the bytes that it puts into the caller's buffer.
pub record Popped : Type 0 where
  pub result : ℕ
  pub bytes : List ℕ

-- Reads the message of `size` bytes behind its meta data.
unfoldable pub pop_body : Ringbuf → ℕ → Popped × Ringbuf
pop_body ringbuf size =
    let (bytes, n) = Ringbuf.peek ringbuf 4 size in
    let consumed = (Ringbuf.consume ringbuf (u32 (4 + size))).1 in
    if n == size
    then (record { result = size; bytes = bytes }, consumed)
    else (record { result = eio; bytes = bytes }, ringbuf)

unfoldable pub pop_message : Ringbuf → ℕ → Popped × Ringbuf
pop_message ringbuf bufsize =
    let (meta, n) = Ringbuf.peek ringbuf 0 4 in
    let size = decode_meta meta in
    if n == 4
    then (if ltb bufsize size
        then (record { result = erange; bytes = [] }, ringbuf)
        else pop_body ringbuf size)
    else (record { result = enoent; bytes = [] }, ringbuf)

pub record Msgq (C : Type 0) : Type 0 where
  pub ringbuf : Ringbuf
  pub capacity : ℕ
  pub lock : Option (C → ℕ × C)
  pub unlock : Option (C → ℕ × C)
  pub sync_ctx : C

-- `!(q->lock && q->lock(q->sync_ctx) != 0)`, with what the call did to the context.
abbrev pub run_sync : {C : Type 0} → Option (C → ℕ × C) → C → ℕ × C
run_sync none c = (0, c)
run_sync (some f) c = f c

module _ {C : Type 0} where
  unfoldable pub acquire : Msgq C → Bool × Msgq C
  acquire q = let (err, c) = run_sync q.lock q.sync_ctx in (err == 0, record q { sync_ctx = c })

  unfoldable pub release : Msgq C → ℕ × Msgq C
  release q = let (err, c) = run_sync q.unlock q.sync_ctx in (err, record q { sync_ctx = c })

  unfoldable pub push : Msgq C → List ℕ → ℕ → ℕ × Msgq C
  push q bytes datasize =
      let (locked, q1) = acquire q in
      let (err, ringbuf') = push_message q1.ringbuf bytes datasize in
      let (err', q2) = release (record q1 { ringbuf = ringbuf' }) in
      if locked then (bit_or err err', q2) else (eagain, q1)

  unfoldable pub pop : Msgq C → ℕ → Popped × Msgq C
  pop q bufsize =
      let (locked, q1) = acquire q in
      let (out, ringbuf') = pop_message q1.ringbuf bufsize in
      let (err', q2) = release (record q1 { ringbuf = ringbuf' }) in
      if locked then (out, q2) else (record { result = eagain; bytes = [] }, q1)

  -- An empty queue is left by a `return` above the call of `unlock`.
  unfoldable pub next_msg_size : Msgq C → ℕ × Msgq C
  next_msg_size q =
      let (locked, q1) = acquire q in
      let (meta, n) = Ringbuf.peek q1.ringbuf 0 4 in
      let (err', q2) = release q1 in
      if locked then (if n == 4 then (decode_meta meta, q2) else (0, q1)) else (0, q1)

  unfoldable pub available : Msgq C → ℕ × Msgq C
  available q =
      let (locked, q1) = acquire q in
      let room = sub32 (get_capacity q1.ringbuf) (get_length q1.ringbuf) in
      let (err', q2) = release q1 in
      if locked then ((if ltb room 4 then 0 else sub32 room 4), q2) else (0, q1)

  unfoldable pub cap_of : Msgq C → ℕ × Msgq C
  cap_of q =
      let (locked, q1) = acquire q in
      let (err', q2) = release q1 in if locked then (get_capacity q1.ringbuf, q2) else (0, q1)

  unfoldable pub len : Msgq C → ℕ × Msgq C
  len q =
      let (locked, q1) = acquire q in
      let (err', q2) = release q1 in if locked then (get_length q1.ringbuf, q2) else (0, q1)

  -- `null` is the NULL of the context; the flags say which of the three allocations succeed. `none`
  -- for the result is NULL.
  unfoldable pub create : C → ℕ → Bool → Bool → Bool → Outcome (Option (Msgq C))
  create null capacity_bytes queue_memory handle_memory buffer_memory =
      if capacity_bytes == 0
      then done none
      else if not queue_memory
      then done none
      else (Ringbuf.create capacity_bytes handle_memory buffer_memory >>= λ made. done (elim made [
        | none ↦ none
        | some r ↦ some (record {
          ringbuf = r;
          capacity = capacity_bytes;
          lock = none;
          unlock = none;
          sync_ctx = null;
        })
      ]))

  unfoldable pub set_sync : Msgq C → Option (C → ℕ × C) → Option (C → ℕ × C) → C → Msgq C
  set_sync q lock unlock ctx = record q { lock = lock; unlock = unlock; sync_ctx = ctx }
