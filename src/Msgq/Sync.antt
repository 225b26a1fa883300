-- ===== src/Msgq/Sync.antt =====
-- The functions of the queue under its lock: what they return, what they leave in the queue, and in
-- what state they leave the lock.
use native.Mathlib.Decide.{dec_lt}
use libmcu.Base.{
  ℕ, ◌+◌, ◌-◌, ◌^◌, ◌<◌, ◌≡◌, refl, ap, sym, ◌∙◌, true, Option, List, [], ◌∷◌, ◌++◌, length, take,
  arith, ltb, leb, lt→ltb, le→ltb, ==_iff, if◌then◌else◌, sub32, ◌==◌,
}
use libmcu.Base.Bits.{bit_or-zero}
use libmcu.Ringbuf.{get_available}
use libmcu.Ringbuf.Inv.{available_contents, length-contents}
use libmcu.Ringbuf.Read.{peek_lem}
use libmcu.Msgq.{
  Msgq, Popped, enoent, enomem, erange, run_sync, acquire, release, push, pop, next_msg_size,
  available, len,
}
use libmcu.Msgq.Message.{
  Holds, used, push_message-Holds, pop_message_first, pop_message_small, pop_message_empty,
  peek_meta, decode_first,
}

-- What a lock does: on a free context it succeeds and takes it, and the unlock gives it back. Both
-- being NULL is such a lock too.
pub record IsMutex {C : Type 0} (lock unlock : Option (C → ℕ × C)) (Free Held : C → Type 0)
    : Type 0 where
  pub takes : (c : C) → Free c → ((run_sync lock c).0 ≡ 0) × Held (run_sync lock c).1
  pub gives : (c : C) → Held c → ((run_sync unlock c).0 ≡ 0) × Free (run_sync unlock c).1

-- The queue's specification: what a push and a pop do to a list of messages.
pub queue_push : ℕ → List (List ℕ) → List ℕ → ℕ × List (List ℕ)
queue_push capacity ms m =
    let fits = leb (used ms + 4 + length m) capacity in
    ((if fits then 0 else enomem), (if fits then ms ++ (m ∷ []) else ms))

pub queue_pop : List (List ℕ) → ℕ → Popped × List (List ℕ)
queue_pop [] bufsize = (record { result = enoent; bytes = [] }, [])
queue_pop (m ∷ ms) bufsize =
    if ltb bufsize (length m)
    then (record { result = erange; bytes = [] }, m ∷ ms)
    else (record { result = length m; bytes = m }, ms)

room_left : (a : ℕ) → a < 2 ^ 32 → (if ltb a 4 then 0 else sub32 a 4) ≡ a - 4
room_left a h = ground arith

module _ {C : Type 0} {lock unlock : Option (C → ℕ × C)} {Free Held : C → Type 0}
    (mutex : IsMutex lock unlock Free Held) where
  -- The queue holds `ms`, with this lock, which is free.
  pub record IsReady (q : Msgq C) (ms : List (List ℕ)) : Type 0 where
    pub holds : Holds q.ringbuf ms
    pub locks : q.lock ≡ lock
    pub unlocks : q.unlock ≡ unlock
    pub free : Free q.sync_ctx

  module _ {q : Msgq C} {ms : List (List ℕ)} (ready : IsReady q ms) where
    acquired : ((acquire q).0 ≡ true) × Held (acquire q).1.sync_ctx
    unfolding acquire
    acquired = rw ready.locks (
      (==_iff (run_sync lock q.sync_ctx).0 0).1 (mutex.takes q.sync_ctx ready.free).0,
      (mutex.takes q.sync_ctx ready.free).1,
    )

    -- The lock is held with the ring untouched, and giving it back frees it.
    freed :
        let c = (run_sync q.lock q.sync_ctx).1 in
        ((run_sync q.unlock c).0 ≡ 0) × Free (run_sync q.unlock c).1
    freed = rw (ready.locks, ready.unlocks) (mutex.gives _ (mutex.takes q.sync_ctx ready.free).1)

    taken : ((run_sync q.lock q.sync_ctx).0 == 0) ≡ true
    taken =
        rw ready.locks
          ((==_iff (run_sync lock q.sync_ctx).0 0).1 (mutex.takes q.sync_ctx ready.free).0)

    -- `msgq_push` does to the messages what the specification says, returns its code, and gives
    -- the lock back.
    pub push-IsReady :
        (m : List ℕ)
        → length m + 4 < 2 ^ 32
        → let (e, q') = push q m (length m) in
          let (code, ms') = queue_push q.ringbuf.capacity ms m in (e ≡ code) × IsReady q' ms'
    unfolding push acquire release queue_push
    push-IsReady m small =
        let (e, held) = push_message-Holds m small ready.holds in
        rw (taken, freed.0, bit_or-zero)
          (e, record { holds = held; locks = ready.locks; unlocks = ready.unlocks; free = freed.1 })

    -- `msgq_len` is the number of bytes in the ring, and the lock is free again.
    pub len_lem : let (n, q') = len q in (n ≡ used ms) × IsReady q' ms
    unfolding len acquire release
    len_lem = rw taken (
      sym (length-contents q.ringbuf) ∙ ap length ready.holds.bytes,
      record { holds = ready.holds; locks = ready.locks; unlocks = ready.unlocks; free = freed.1 },
    )

    -- `msgq_available` is the largest message that a push would take, or 0 where not even the meta
    -- data fits; the lock is free again.
    message_room_lem :
        let (n, q') = available q in (n ≡ q.ringbuf.capacity - used ms - 4) × IsReady q' ms
    unfolding available acquire release
    message_room_lem = rw taken (
      room_left (get_available q.ringbuf) (omega arith)
          ∙ omega (arith, available_contents ready.holds.valid, ap length ready.holds.bytes),
      record { holds = ready.holds; locks = ready.locks; unlocks = ready.unlocks; free = freed.1 },
    )

  -- `msgq_pop` hands out the oldest message if the buffer is large enough, returns the code of the
  -- specification, and gives the lock back.
  pub pop-IsReady :
      {q : Msgq C} {ms : List (List ℕ)} (bufsize : ℕ)
      → IsReady q ms
      → let (out, q') = pop q bufsize in
        let (out', ms') = queue_pop ms bufsize in (out ≡ out') × IsReady q' ms'
  unfolding pop acquire release queue_pop
  pop-IsReady {ms = []} bufsize ready =
      rw (taken ready, pop_message_empty bufsize ready.holds)
        (
          refl,
          record {
            holds = ready.holds;
            locks = ready.locks;
            unlocks = ready.unlocks;
            free = (freed ready).1;
          },
        )
  pop-IsReady {ms = m ∷ ms} bufsize ready = elim (dec_lt bufsize (length m)) [
    | yes small ↦
        rw
          (
            taken ready,
            pop_message_small ready.holds bufsize small,
            lt→ltb bufsize (length m) small,
          )
          (
            refl,
            record {
              holds = ready.holds;
              locks = ready.locks;
              unlocks = ready.unlocks;
              free = (freed ready).1;
            },
          )
    | no room ↦
        let (size, bs, held) = pop_message_first ready.holds bufsize (omega arith) in
        rw (taken ready, le→ltb bufsize (length m) (omega arith))
          (
            (λ i. record { result = size i; bytes = bs i }),
            record {
              holds = held;
              locks = ready.locks;
              unlocks = ready.unlocks;
              free = (freed ready).1;
            },
          )
  ]

  -- `msgq_next_msg_size` on a queue with a message is that message's size, and the lock is free.
  next_msg_size_first :
      {q : Msgq C} {m : List ℕ} {ms : List (List ℕ)}
      → IsReady q (m ∷ ms)
      → let (n, q') = next_msg_size q in (n ≡ length m) × IsReady q' (m ∷ ms)
  unfolding next_msg_size acquire release
  next_msg_size_first ready =
      rw (taken ready, peek_meta ready.holds)
        (
          decode_first ready.holds,
          record {
            holds = ready.holds;
            locks = ready.locks;
            unlocks = ready.unlocks;
            free = (freed ready).1;
          },
        )

  -- On an empty queue `msgq_next_msg_size` returns 0 and leaves the lock taken.
  pub next_msg_size_empty :
      {q : Msgq C}
      → IsReady q []
      → let (n, q') = next_msg_size q in (n ≡ 0) × Held q'.sync_ctx × (q'.ringbuf ≡ q.ringbuf)
  unfolding next_msg_size acquire release
  next_msg_size_empty {q} ready =
      rw
        (
          taken ready,
          peek_lem ready.holds.valid 0 4
              ∙ ap (λ c. (take 4 c, length (take 4 c))) ready.holds.bytes,
        )
        (refl, rw ready.locks (mutex.takes q.sync_ctx ready.free).1, refl)
