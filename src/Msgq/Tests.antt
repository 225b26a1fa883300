-- ===== src/Msgq/Tests.antt =====
-- A queue of two messages in a ring of 16 bytes, with a lock that is a flag.
use libmcu.Base.{ℕ, zero, suc, ◌≡◌, refl, some, List, [], ◌∷◌, arith}
use libmcu.Ringbuf.{Ringbuf}
use libmcu.Msgq.{Msgq, push, pop, next_msg_size, len}
use libmcu.Msgq.Message.{used}
use libmcu.Msgq.Sync.{
  IsMutex, IsReady, queue_push, queue_pop, push-IsReady, pop-IsReady, len_lem, next_msg_size_empty,
}
use libmcu.Msgq.Fifo.{Call, push_call, pop_call, calls, queue_calls, message_calls_refine}

-- It fails where it is held already, as a mutex that cannot wait does.
abbrev lock_flag : ℕ → ℕ × ℕ
lock_flag zero = (0, 1)
lock_flag (suc n) = (16, suc n)

abbrev unlock_flag : ℕ → ℕ × ℕ
unlock_flag n = (0, 0)

abbrev IsFree : ℕ → Type 0
IsFree n = n ≡ 0

abbrev IsHeld : ℕ → Type 0
IsHeld n = n ≡ 1

flag-IsMutex : IsMutex (some lock_flag) (some unlock_flag) IsFree IsHeld
flag-IsMutex = record { takes = λ c free. rw free (refl, refl); gives = λ c held. (refl, refl) }

abbrev ring : Ringbuf
ring = record {
  capacity = 16;
  index = 11;
  outdex = 0;
  buffer = 2 ∷ 0 ∷ 0 ∷ 0 ∷ 7 ∷ 8 ∷ 1 ∷ 0 ∷ 0 ∷ 0 ∷ 9 ∷ 0 ∷ 0 ∷ 0 ∷ 0 ∷ 0 ∷ [];
}

abbrev messages : List (List ℕ)
messages = (7 ∷ 8 ∷ []) ∷ (9 ∷ []) ∷ []

abbrev queue : Msgq ℕ
queue = record {
  ringbuf = ring;
  capacity = 16;
  lock = some lock_flag;
  unlock = some unlock_flag;
  sync_ctx = 0;
}

abbrev empty_queue : Msgq ℕ
empty_queue = record queue { ringbuf = record ring { index = 0 } }

queue-IsReady : IsReady flag-IsMutex queue messages
queue-IsReady = record {
  holds = record {
    valid = record {
      pow = 4;
      small = omega arith;
      cap_pow = refl;
      size = refl;
      index_in = omega arith;
      outdex_in = omega arith;
      fits = omega arith;
    };
    bytes = refl;
  };
  locks = refl;
  unlocks = refl;
  free = refl;
}

empty-IsReady : IsReady flag-IsMutex empty_queue []
empty-IsReady = record {
  holds = record {
    valid = record {
      pow = 4;
      small = omega arith;
      cap_pow = refl;
      size = refl;
      index_in = omega arith;
      outdex_in = omega arith;
      fits = omega arith;
    };
    bytes = refl;
  };
  locks = refl;
  unlocks = refl;
  free = refl;
}

abbrev script : List Call
script =
    push_call (5 ∷ [])
    ∷ pop_call 1
    ∷ push_call (5 ∷ 6 ∷ [])
    ∷ pop_call 9
    ∷ pop_call 9
    ∷ pop_call 9
    ∷ []

message_calls_refine_example : calls queue script ≡ queue_calls 16 messages script
message_calls_refine_example =
    message_calls_refine flag-IsMutex script (omega arith, (omega arith, tt)) queue-IsReady

push-IsReady_example :
    let (e, q') = push queue (5 ∷ []) 1 in
    let (code, ms') = queue_push 16 messages (5 ∷ []) in (e ≡ code) × IsReady flag-IsMutex q' ms'
push-IsReady_example = push-IsReady flag-IsMutex queue-IsReady (5 ∷ []) (omega arith)

pop-IsReady_example :
    let (out, q') = pop queue 2 in
    let (out', ms') = queue_pop messages 2 in (out ≡ out') × IsReady flag-IsMutex q' ms'
pop-IsReady_example = pop-IsReady flag-IsMutex 2 queue-IsReady

len_lem_example : let (n, q') = len queue in (n ≡ used messages) × IsReady flag-IsMutex q' messages
len_lem_example = len_lem flag-IsMutex queue-IsReady

next_msg_size_empty_example :
    let (n, q') = next_msg_size empty_queue in
    (n ≡ 0) × IsHeld q'.sync_ctx × (q'.ringbuf ≡ empty_queue.ringbuf)
next_msg_size_empty_example = next_msg_size_empty flag-IsMutex empty-IsReady
