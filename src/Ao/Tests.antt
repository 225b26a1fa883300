-- ===== src/Ao/Tests.antt =====
-- An object with room for two events, and a pool of three timers.
use libmcu.Base.{ℕ, ◌<◌, ◌≡◌, ◌⊎◌, refl, true, false, List, [], ◌∷◌, ◌++◌, arith, errno}
use libmcu.Bitops.{flsl}
use libmcu.Ao.{
  Ao, increse_index, get_queue_len, is_queue_empty, get_index, is_queue_full, push_event, pop_event,
  post_event, ao_post, take_event, ao_create,
}
use libmcu.Ao.Fifo.{IsQueue, contents}
use libmcu.Ao.System.{
  System, waiting, post, wake, take, Steps, rest, more, IsSound, created_ao, system_of, Steps_lem,
}
use libmcu.Ao.Timer.{Timer, Timers, zero_timer, is_allocated, store}
use libmcu.Ao.Timer.Elapse.{run_steps, ao_timer_step_lem}
use libmcu.Ao.Timer.Armed.{armed_count}
use libmcu.Ao.Post.{ao_post_if_unique}
use libmcu.Ao.Unique.{occurs, ao_post_if_unique_lem}

abbrev holding : List ℕ → ℕ → ℕ → ℕ → Ao
holding events index outdex permits = record {
  dispatch = 0;
  queue = record { events = events; index = index; outdex = outdex };
  event = permits;
}

abbrev taken_one : System
taken_one = record { ao = holding (7 ∷ 8 ∷ []) 2 1 1; thread = waiting }

taken_one-Steps : Steps 2 (system_of (created_ao 2)) (7 ∷ 8 ∷ []) (7 ∷ []) taken_one
unfolding increse_index get_queue_len is_queue_empty get_index is_queue_full push_event pop_event
    post_event ao_post take_event flsl
taken_one-Steps = more (more (more (more rest (post 7)) (post 8)) (wake 1 refl refl)) (take refl)

Steps_lem_example : IsSound 2 taken_one × ((7 ∷ 8 ∷ []) ≡ (7 ∷ []) ++ contents 2 taken_one.ao.queue)
unfolding ao_create
Steps_lem_example = Steps_lem 1 (created_ao 2) (omega arith) refl taken_one-Steps

abbrev timer_of : ℕ → ℕ → ℕ → Timer
timer_of event timeout_ms interval_ms = record {
  ao = 1;
  event = event;
  timeout_ms = timeout_ms;
  interval_ms = interval_ms;
}

abbrev three : Timers
three = record {
  initialized = true;
  timer_pool = zero_timer ∷ timer_of 7 25 10 ∷ timer_of 8 40 0 ∷ [];
}

abbrev objects : ℕ → Ao
objects p = created_ao 2

ao_timer_step_lem_example :
    (run_steps 2 three objects (10 ∷ 10 ∷ []) ≡ (
      record three { timer_pool = zero_timer ∷ timer_of 7 5 10 ∷ timer_of 8 20 0 ∷ [] },
      objects,
    ))
    × (run_steps 2 three objects (10 ∷ 10 ∷ 10 ∷ []) ≡ (
      record three { timer_pool = zero_timer ∷ timer_of 7 10 10 ∷ timer_of 8 10 0 ∷ [] },
      store objects 1 (holding (7 ∷ 0 ∷ []) 1 0 1),
    ))
unfolding is_allocated increse_index get_queue_len get_index is_queue_full push_event post_event
    ao_post flsl
ao_timer_step_lem_example =
    ao_timer_step_lem 2 true (zero_timer ∷ []) (timer_of 7 25 10) (timer_of 8 40 0 ∷ []) objects
      (10 ∷ 10 ∷ []) 10 refl (omega arith) (omega arith) ((λ armed. cc), tt)
      ((λ armed. omega arith), tt)

empty-IsQueue : IsQueue 2 (objects 1).queue
unfolding get_queue_len
empty-IsQueue = record {
  pow = 1;
  small = omega arith;
  cap_pow = refl;
  size = refl;
  index_in = omega arith;
  outdex_in = omega arith;
  fits = omega arith;
}

ao_post_if_unique_lem_example :
    let (rc, aos') = ao_post_if_unique 2 three objects 1 9 in
    let held = contents 2 (objects 1).queue in
    ((occurs 9 held ≡ true) ⊎ (0 < armed_count three.timer_pool 9 1))
      × (rc ≡ errno 17)
      × (aos' ≡ objects)
    ⊎ (occurs 9 held ≡ false)
      × (armed_count three.timer_pool 9 1 ≡ 0)
      × ((rc ≡ 0) × (contents 2 (aos' 1).queue ≡ held ++ (9 ∷ []))
          ⊎ (rc ≡ errno 28)
            × (get_queue_len (objects 1).queue ≡ 2)
            × (contents 2 (aos' 1).queue ≡ held))
ao_post_if_unique_lem_example = ao_post_if_unique_lem three objects 1 9 empty-IsQueue

-- Three events for a queue of three: the third is stored over the first.
third_over_first :
    let q1 = (push_event 3 (created_ao 3).queue 7).1 in
    let q2 = (push_event 3 q1 8).1 in
    let (ok, q3) = push_event 3 q2 9 in (ok ≡ true) × ((pop_event 3 q3).0 ≡ 9)
unfolding increse_index get_queue_len get_index is_queue_empty is_queue_full push_event pop_event
    flsl
third_over_first = (refl, refl)
