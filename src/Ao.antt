-- ===== src/Ao.antt =====
-- modules/ao/src/ao.c: active objects, each a thread that dispatches the events of its queue.
-- `maxlen` is AO_EVENT_MAXLEN, which is positive. An event is an address, 0 for NULL. The semaphore `event` is its
-- value: sem_post adds one, sem_wait takes one and waits at 0. What a function does under
-- `ao_lock` is one step.
pub mod Timer
pub mod Post
pub mod Fifo
pub mod System
pub mod Unique
mod Tests
use libmcu.Base.{
  ℕ, zero, suc, ◌+◌, ◌-◌, ◌^◌, bit_and, Bool, true, false, Option, none, some, List, [], ◌∷◌,
  get_or, set, replicate, ltb, leb, ◌==◌, if◌then◌else◌, u16, errno,
}
use libmcu.Bitops.{flsl}

pub record EventQueue : Type 0 where
  pub events : List ℕ
  pub index : ℕ
  pub outdex : ℕ

-- Without the thread and its attributes.
pub record Ao : Type 0 where
  pub dispatch : ℕ
  pub queue : EventQueue
  pub event : ℕ

unfoldable pub increse_index : ℕ → ℕ
increse_index index = u16 (index + 1)

-- `(uint16_t)(index - outdex)`
unfoldable pub get_queue_len : EventQueue → ℕ
get_queue_len q = u16 (q.index + 2 ^ 16 - q.outdex)

unfoldable pub is_queue_empty : EventQueue → Bool
is_queue_empty q = get_queue_len q == 0

module _ (maxlen : ℕ) where
  unfoldable pub get_index : ℕ → ℕ
  get_index index = let cap = u16 (2 ^ (flsl maxlen - 1)) in bit_and index (u16 (cap + 2 ^ 16 - 1))

  unfoldable pub is_queue_full : EventQueue → Bool
  is_queue_full q = leb maxlen (get_queue_len q)

  -- The loop ends when `outdex` has come to `index`, in so many rounds as the queue has events.
  unfoldable pub is_among : EventQueue → ℕ → ℕ → ℕ → Bool
  is_among q zero outdex event = false
  is_among q (suc n) outdex event =
      let rest = is_among q n (u16 (outdex + 1)) event in
      if get_or q.events (get_index outdex) 0 == event then true else rest

  unfoldable pub is_event_already_queued : EventQueue → ℕ → Bool
  is_event_already_queued q event = is_among q (get_queue_len q) q.outdex event

  unfoldable pub pop_event : EventQueue → ℕ × EventQueue
  pop_event q =
      if is_queue_empty q
      then (0, q)
      else (get_or q.events (get_index q.outdex) 0, record q { outdex = increse_index q.outdex })

  unfoldable pub push_event : EventQueue → ℕ → Bool × EventQueue
  push_event q event = if is_queue_full q then (false, q) else (
    true,
    record q { events = set q.events (get_index q.index) event; index = increse_index q.index },
  )

  -- 0, or -ENOSPC.
  unfoldable pub post_event : Ao → ℕ → ℕ × Ao
  post_event ao event =
      let (ok, q) = push_event ao.queue event in
      if ok
      then (0, record ao { queue = q; event = suc ao.event })
      else (errno 28, record ao { queue = q })

  unfoldable pub ao_post : Ao → ℕ → ℕ × Ao
  ao_post ao event = post_event ao event

  -- What `ao_task` does behind sem_wait, up to the dispatch: the event, and whether the thread ends.
  unfoldable pub take_event : Ao → ℕ × Bool × Ao
  take_event ao =
      let (event, q) = pop_event ao.queue in (event, event == errno 125, record ao { queue = q })

  -- `sem_ok` says whether sem_init succeeds. `ao_create_static` is this at an object of its own.
  unfoldable pub ao_create : Bool → Option Ao
  ao_create sem_ok =
      if sem_ok
      then some (record {
        dispatch = 0;
        queue = record { events = replicate maxlen 0; index = 0; outdex = 0 };
        event = 0;
      })
      else none

  -- `created` says whether pthread_create succeeds; 0 or -EFAULT.
  unfoldable pub ao_start : Ao → ℕ → Bool → ℕ × Ao
  ao_start ao dispatcher created =
      ((if created then 0 else errno 14), record ao { dispatch = dispatcher })

  -- The post of -ECANCELED; the wait for the thread's end has no part here.
  unfoldable pub ao_stop : Ao → ℕ × Ao
  ao_stop ao = (0, (ao_post ao (errno 125)).1)

  -- All its bytes are zero.
  unfoldable pub ao_destroy : Ao → Ao
  ao_destroy ao = record {
    dispatch = 0;
    queue = record { events = replicate maxlen 0; index = 0; outdex = 0 };
    event = 0;
  }
