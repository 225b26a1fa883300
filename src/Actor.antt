-- ===== src/Actor.antt =====
-- modules/actor/src/actor.c: actors, which take their messages one at a time, and the pool that
-- the messages come from. An actor and a message are their numbers, in the table of the actors and
-- in the pool. Sizes are those of a 32-bit target. The sections under a lock are functions of their
-- own; `actor_send` and `dispatch_actor` are these one after the other.
pub mod Lists
pub mod Wake
pub mod Calls
pub mod Steps
pub mod Order
pub mod Run
pub mod Memory
mod Tests
use libmcu.Base.{
  ℕ, zero, suc, ◌+◌, ◌-◌, ◌*◌, ◌/◌, ◌%◌, ◌^◌, Bool, true, false, not, ◌&&◌, ◌||◌, Option, none,
  some, List, [], ◌∷◌, ◌++◌, length, get_or, set, ltb, ◌==◌, if◌then◌else◌, u32, sub32, errno,
  Outcome, done, undefined, ◌>>=◌,
}

-- `struct core`: the queue of the actors to run, and the value of its semaphore.
pub record Core : Type 0 where
  pub runq : List ℕ
  pub dispatch_event : ℕ

-- `struct msgpool`: where its memory starts, its size in bytes and its free messages.
pub record Msgpool : Type 0 where
  pub buf : ℕ
  pub cap : ℕ
  pub free_list : List ℕ

-- The static `m`, and of the actors the messages and the priorities.
pub record Actors : Type 0 where
  pub core : List Core
  pub msgpool : Msgpool
  pub messages : List (List ℕ)
  pub priority : List ℕ

-- sizeof(struct msg)
abbrev pub msg_size : ℕ
msg_size = 12

-- ACTOR_DEFAULT_MESSAGE_SIZE
abbrev pub default_message_size : ℕ
default_message_size = 8

unfoldable pub is_in : ℕ → List ℕ → Bool
is_in x [] = false
is_in x (y ∷ ys) = x == y || is_in x ys

unfoldable pub add_if_not_exist : ℕ → List ℕ → ℕ × List ℕ
add_if_not_exist node head = if is_in node head then (errno 114, head) else (0, head ++ (node ∷ []))

abbrev pub idle : Core
idle = record { runq = []; dispatch_event = 0 }

abbrev pub core_at : Actors → ℕ → Core
core_at m c = get_or m.core c idle

abbrev pub messages_of : Actors → ℕ → List ℕ
messages_of m a = get_or m.messages a []

abbrev pub priority_of : Actors → ℕ → ℕ
priority_of m a = get_or m.priority a 0

unfoldable pub push_actor : Actors → ℕ → ℕ → Actors
push_actor m a c =
    let core = core_at m c in
    record m { core = set m.core c (record core { runq = (add_if_not_exist a core.runq).1 }) }

-- The first of a list, and the rest.
abbrev pub pop : List ℕ → Option ℕ × List ℕ
pop [] = (none, [])
pop (x ∷ xs) = (some x, xs)

unfoldable pub pop_actor : Actors → ℕ → Option ℕ × Actors
pop_actor m c =
    let core = core_at m c in
    let (a, q) = pop core.runq in (a, record m { core = set m.core c (record core { runq = q }) })

unfoldable pub is_queued : ℕ → List (List ℕ) → Bool
is_queued p [] = false
is_queued p (q ∷ qs) = let rest = is_queued p qs in is_in p q || rest

-- The one link of a message is in use, in the queue of an actor or in the free list. To put the
-- message into another list then overwrites the link, and what becomes of the lists is undefined.
unfoldable pub is_linked : Actors → ℕ → Bool
is_linked m p = is_queued p m.messages || is_in p (m.msgpool).free_list

unfoldable pub push_message : Actors → ℕ → ℕ → Outcome (ℕ × Actors)
push_message m p a =
    let (rc, q) = add_if_not_exist p (messages_of m a) in
    if rc == 0 && is_linked m p
    then undefined
    else done (rc, record m { messages = set m.messages a q })

unfoldable pub pop_message : Actors → ℕ → Option ℕ × Actors
pop_message m a =
    let (p, q) = pop (messages_of m a) in (p, record m { messages = set m.messages a q })

abbrev pub has_message : List ℕ → Bool
has_message [] = false
has_message (p ∷ q) = true

-- With sem_post.
unfoldable pub schedule_actor : Actors → ℕ → Actors
schedule_actor m a =
    let c = priority_of m a in
    let m' = push_actor m a c in
    let core = core_at m' c in
    record m' { core = set m'.core c (record core { dispatch_event = suc core.dispatch_event }) }

-- sem_wait of a dispatcher that need not wait.
unfoldable pub wait_event : Actors → ℕ → Actors
wait_event m c =
    let core = core_at m c in
    record m { core = set m.core c (record core { dispatch_event = core.dispatch_event - 1 }) }

-- The rescheduling of an actor whose message was taken.
unfoldable pub reschedule : Actors → ℕ → ℕ → Actors
reschedule m a c = if has_message (messages_of m a) then push_actor m a c else m

-- `dispatch_actor` for an actor of the queue.
unfoldable pub dispatch_to : Actors → ℕ → ℕ → Option ℕ × Actors
dispatch_to m a c =
    let (p, m') = pop_message m a in (p, elim p [ none ↦ m' | some msg ↦ reschedule m' a c ])

-- The actor whose handler is called and its message, NULL as `none`, or no call. What the handler
-- does are further calls.
unfoldable pub dispatch_actor : Actors → ℕ → Option (ℕ × Option ℕ) × Actors
dispatch_actor m c =
    let (a, m') = pop_actor m c in
    elim a [
      | none ↦ (none, m')
      | some actor ↦ let (p, m'') = dispatch_to m' actor c in (some (actor, p), m'')
    ]

unfoldable pub actor_send : Actors → ℕ → Option ℕ → Outcome (ℕ × Actors)
actor_send m a none = done (0, schedule_actor m a)
actor_send m a (some p) =
    push_message m p a >>= (λ r. done (r.0, if not (r.0 == 0) then r.1 else schedule_actor r.1 a))

abbrev pub take_free : Msgpool → Option ℕ × Msgpool
take_free pool = let (p, rest) = pop pool.free_list in (p, record pool { free_list = rest })

unfoldable pub actor_alloc : Actors → ℕ → Option ℕ × Actors
actor_alloc m payload_size =
    let (p, pool) = take_free m.msgpool in
    if payload_size == 0 || ltb default_message_size payload_size
    then (none, m)
    else (p, record m { msgpool = pool })

unfoldable pub actor_free : Actors → Option ℕ → Outcome Actors
actor_free m none = done m
actor_free m (some p) =
    let (rc, free_list) = add_if_not_exist p (m.msgpool).free_list in
    if rc == 0 && is_linked m p
    then undefined
    else done (record m { msgpool = record m.msgpool { free_list = free_list } })

unfoldable pub actor_mem_cap : Actors → ℕ
actor_mem_cap m = (m.msgpool).cap

unfoldable pub actor_mem_len : Actors → ℕ
actor_mem_len m = sub32 (m.msgpool).cap (u32 (length (m.msgpool).free_list * msg_size))

-- With the number of the actor's timers.
unfoldable pub actor_count_messages : Actors → ℕ → ℕ → ℕ
actor_count_messages m a timers = u32 (length (messages_of m a) + timers)

unfoldable pub actor_set : Actors → ℕ → ℕ → Actors
actor_set m a priority = record m {
  messages = set m.messages a [];
  priority = set m.priority a priority;
}

unfoldable pub free_all : Actors → List ℕ → Outcome Actors
free_all m [] = done m
free_all m (p ∷ ps) = actor_free m (some p) >>= λ m'. free_all m' ps

-- The messages are popped, each before it is freed.
unfoldable pub actor_unset : Actors → ℕ → Outcome Actors
actor_unset m a = free_all (record m { messages = set m.messages a [] }) (messages_of m a)

-- The messages that the loop of `actor_init` puts into the free list, from `i` on.
unfoldable pub all_messages : ℕ → ℕ → List ℕ → List ℕ
all_messages zero i free_list = free_list
all_messages (suc n) i free_list = all_messages n (suc i) (add_if_not_exist i free_list).1

-- The pool of `actor_init` for `memsize` bytes at `mem`.
unfoldable pub init_msgpool : ℕ → ℕ → Msgpool
init_msgpool mem memsize =
    let max_index = (memsize - mem % 4) / msg_size in
    record {
      buf = u32 (mem + 3) / 4 * 4;
      cap = max_index * msg_size;
      free_list = all_messages max_index 0 [];
    }
