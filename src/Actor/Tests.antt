-- ===== src/Actor/Tests.antt =====
-- Runs of the actors at concrete inputs.
use libmcu.Base.{
  ℕ, Outcome, done, ◌>>=◌, ◌+◌, ◌%◌, ◌≤◌, ◌≡◌, ◌≢◌, refl, none, some, List, [], ◌∷◌, ◌++◌, arith,
}
use libmcu.Actor.{
  is_queued, is_linked, Msgpool, Actors, core_at, messages_of, priority_of, is_in, add_if_not_exist,
  push_actor, pop_actor, push_message, pop_message, schedule_actor, wait_event, reschedule,
  dispatch_to, dispatch_actor, actor_send, actor_alloc, actor_free, actor_mem_len, init_msgpool,
}
use libmcu.Actor.Order.{Call, Did, send, dispatch, actor_run, accepted_for, handled_by}
use libmcu.Actor.Run.{started, actor_run_lem}
use libmcu.Actor.Memory.{init_msgpool_lem}

abbrev pool : Msgpool
pool = record { buf = 4096; cap = 60; free_list = 0 ∷ 1 ∷ 2 ∷ 3 ∷ 4 ∷ [] }

-- Two actors on one core.
abbrev two : Actors
two = started (0 ∷ 0 ∷ []) 1 pool

abbrev calls : List Call
calls =
    send 0 (some 7)
    ∷ send 1 (some 8)
    ∷ send 0 (some 9)
    ∷ dispatch 0
    ∷ send 0 none
    ∷ dispatch 0
    ∷ dispatch 0
    ∷ dispatch 0
    ∷ []

actor_run_lem_example :
    (ds : List Did) × (m' : Actors) × (actor_run two calls ≡ done (ds, m'))
    × ((a : ℕ)
        → (accepted_for a ds ≡ handled_by a ds ++ messages_of m' a)
          × ((core_at m' (priority_of m' a)).dispatch_event ≡ 0
              → handled_by a ds ≡ accepted_for a ds))
unfolding is_in is_queued is_linked add_if_not_exist push_actor pop_actor push_message pop_message
    schedule_actor wait_event reschedule dispatch_to dispatch_actor actor_send
actor_run_lem_example = actor_run_lem (0 ∷ 0 ∷ []) 1 pool calls (
  ((omega arith, omega arith), refl),
  (
    ((omega arith, omega arith), refl),
    (
      ((omega arith, omega arith), refl),
      (omega arith, ((omega arith, omega arith), (omega arith, (omega arith, (omega arith, tt))))),
    ),
  ),
)

calls_test : (actor_run two calls >>= λ r. done (handled_by 0 r.0)) ≡ done (7 ∷ 9 ∷ [])
unfolding is_in is_queued is_linked add_if_not_exist push_actor pop_actor push_message pop_message
    schedule_actor wait_event reschedule dispatch_to dispatch_actor actor_send
calls_test = refl

init_msgpool_lem_example :
    let p = init_msgpool 4097 25 in
    (actor_mem_len (record two { msgpool = p }) ≡ 0)
    × (4097 ≤ p.buf)
    × (4097 % 4 ≢ 1 → p.cap ≢ 0 → p.buf + p.cap ≤ 4122)
    × (p.cap ≢ 0 → p.buf + p.cap ≤ 4124)
    × (4097 % 4 ≡ 1 → 25 % 12 ≡ 1 → p.buf + p.cap ≡ 4124)
init_msgpool_lem_example = init_msgpool_lem two 4097 25 (omega arith) (omega arith)

-- The dispatcher's round, from sem_wait on.
abbrev round : Actors → Actors
round m = (dispatch_actor (wait_event m 0) 0).1

-- A message for actor 0 is put into its queue, and three rounds run before the actor is scheduled
-- for it. Another message and two rounds later the semaphore is at 0 with a message for actor 1.
abbrev scheduled_late : Outcome Actors
scheduled_late = actor_send two 0 (some 11) >>= λ r. actor_send r.1 1 (some 12) >>= λ r.
    actor_send r.1 1 (some 13) >>= λ r. push_message r.1 14 0 >>= λ r.
    actor_send (round (schedule_actor (round (round (round r.1))) 0)) 1 (some 15) >>= λ r.
    done (round r.1)

abbrev semaphore_and_queue : Outcome (ℕ × List ℕ)
semaphore_and_queue = scheduled_late >>= λ m. done ((core_at m 0).dispatch_event, messages_of m 1)

scheduled_late_test : semaphore_and_queue ≡ done (0, 15 ∷ [])
unfolding is_in is_queued is_linked add_if_not_exist push_actor pop_actor push_message pop_message
    schedule_actor wait_event reschedule dispatch_to dispatch_actor actor_send
scheduled_late_test = refl

-- A message that is freed goes behind the other free ones, once.
free_test :
    (actor_free (actor_alloc two 8).1 (some 0) >>= λ m.
    actor_free m (some 0) >>= λ m'. done (m'.msgpool).free_list)
    ≡ done (1 ∷ 2 ∷ 3 ∷ 4 ∷ 0 ∷ [])
unfolding actor_alloc actor_free is_in is_queued is_linked add_if_not_exist
free_test = refl
