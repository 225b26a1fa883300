-- ===== src/Jobqueue/Tests.antt =====
-- A pool at work: two jobs for one thread.
use libmcu.Base.{ℕ, ◌≡◌, refl, true, false, some, List, [], ◌∷◌, arith, ◌≤◌}
use libmcu.Jobqueue.{
  Attr, Jobqueue, success, is_job_scheduled, count_scheduled, count_running, job_count_internal,
  get_job_scheduled_detaching, start_job, enqueue, job_schedule_internal, job_schedule,
  jobqueue_set_attr, jobqueue_create,
}
use libmcu.Jobqueue.System.{
  System, Work, wake, start, schedule, set_attr, Reachable, create, call, work,
}
use libmcu.Jobqueue.Sound.{IsSound, Reachable-IsSound}
use libmcu.Jobqueue.Progress.{Run, IsStuck, Run_lem, stranded_lem}

abbrev attr_of : ℕ → Attr
attr_of min_threads = record {
  stack_size_bytes = 3072;
  min_threads = min_threads;
  max_threads = 1;
  priority = 5;
}

abbrev pool_of : ℕ → List ℕ → ℕ → ℕ → ℕ → Jobqueue
pool_of min_threads jobs permits threads busy = record {
  job_list = jobs;
  job_queue = permits;
  attr = attr_of min_threads;
  active_threads = threads;
  max_concurrent_jobs = 4;
  nr_running = busy;
}

abbrev created : System
created = record { pool = pool_of 1 [] 0 0 0; waiting = 0; woken = 0; running = [] }

abbrev scheduled : System
scheduled = record { pool = pool_of 1 (7 ∷ []) 1 1 0; waiting = 1; woken = 0; running = [] }

created-Reachable : Reachable 4 created
unfolding jobqueue_create
created-Reachable = create _ refl

scheduled-Reachable : Reachable 4 scheduled
unfolding job_schedule job_schedule_internal enqueue is_job_scheduled job_count_internal
    count_scheduled count_running
scheduled-Reachable =
    call created-Reachable (schedule 7 true success true (pool_of 1 (7 ∷ []) 1 1 0) refl)

Reachable-IsSound_example : IsSound 4 scheduled
Reachable-IsSound_example = Reachable-IsSound (omega arith) scheduled-Reachable

Run_lem_example :
    ((jobs : List ℕ) × (n : ℕ) × (t : System) × Run scheduled jobs n t × IsStuck t)
    × ((jobs : List ℕ) (n : ℕ) (t : System)
        → Run scheduled jobs n t
        → (n ≤ 3) × (IsStuck t → (jobs ≡ 7 ∷ []) × (t.pool.job_list ≡ [])))
Run_lem_example = Run_lem (omega arith) scheduled-Reachable (omega arith, omega arith, omega arith)

abbrev unkept : System
unkept = record { pool = pool_of 0 (8 ∷ []) 1 1 1; waiting = 0; woken = 0; running = some 7 ∷ [] }

unkept-Reachable : Reachable 4 unkept
unfolding job_schedule job_schedule_internal enqueue is_job_scheduled job_count_internal
    count_scheduled count_running jobqueue_set_attr start_job get_job_scheduled_detaching
unkept-Reachable =
    let set =
      call created-Reachable
        (set_attr (attr_of 0) success (pool_of 0 [] 0 0 0) (omega arith) refl) in
    let first = call set (schedule 7 true success true (pool_of 0 (7 ∷ []) 1 1 0) refl) in
    let begun = work (work first (wake 0 0 refl refl)) (start 0 refl) in
    call begun (schedule 8 true success false (pool_of 0 (8 ∷ []) 1 1 1) refl)

stranded_lem_example : (t : System) × Work unkept [] t × IsStuck t × (t.pool.job_list ≡ 8 ∷ [])
stranded_lem_example = stranded_lem (some 7) 8 (omega arith) unkept-Reachable refl refl refl refl
