-- ===== src/Jobqueue.antt =====
-- modules/jobqueue/src/jobqueue.c: a pool of threads that run the scheduled jobs.
-- The list of jobs is the list of their addresses, in the order of the links. The semaphore
-- `job_queue` is its value: sem_post adds one, sem_wait takes one and waits at 0. What a function
-- does under the lock is one step. `created` says whether pthread_create succeeds.
pub mod System
pub mod Lists
pub mod Sound
pub mod Progress
mod Tests
use libmcu.Base.{
  ℕ, zero, suc, ◌+◌, ◌-◌, Bool, true, false, not, ◌&&◌, ◌||◌, Option, none, some, List, [], ◌∷◌,
  ◌++◌, length, ltb, leb, ◌==◌, if◌then◌else◌, u8,
}

pub data JobError : Type 0 where
  success invalid_param full error : JobError

-- `min_threads` and `priority` are the bytes of an `int8_t`.
pub record Attr : Type 0 where
  pub stack_size_bytes : ℕ
  pub min_threads : ℕ
  pub max_threads : ℕ
  pub priority : ℕ

pub record Jobqueue : Type 0 where
  pub job_list : List ℕ
  pub job_queue : ℕ
  pub attr : Attr
  pub active_threads : ℕ
  pub max_concurrent_jobs : ℕ
  pub nr_running : ℕ

-- `pool` is the address of the pool's list; a `callback` is an address, 0 for NULL.
pub record Job : Type 0 where
  pub pool : ℕ
  pub callback : ℕ
  pub context : ℕ

unfoldable pub is_job_scheduled : List ℕ → ℕ → Bool
is_job_scheduled [] job = false
is_job_scheduled (p ∷ ps) job = p == job || is_job_scheduled ps job

unfoldable pub count_scheduled : Jobqueue → ℕ
count_scheduled pool = u8 (length pool.job_list)

unfoldable pub count_running : Jobqueue → ℕ
count_running pool = pool.nr_running

unfoldable pub job_count_internal : Jobqueue → ℕ
job_count_internal pool = u8 (count_scheduled pool + count_running pool)

unfoldable pub job_delete_internal : List ℕ → ℕ → List ℕ
job_delete_internal [] job = []
job_delete_internal (p ∷ ps) job =
    let rest = job_delete_internal ps job in if p == job then ps else p ∷ rest

-- The job or NULL, and the list without it.
unfoldable pub get_job_scheduled_detaching : Jobqueue → Option ℕ × Jobqueue
get_job_scheduled_detaching pool =
    if count_scheduled pool == 0 then (none, pool) else elim pool.job_list [
      | [] ↦ (none, pool)
      | job ∷ jobs ↦ (some job, record pool { job_list = jobs })
    ]

-- The first critical section of `jobqueue_process`: the job that the thread goes on to call.
unfoldable pub start_job : Jobqueue → Option ℕ × Jobqueue
start_job pool =
    let out = get_job_scheduled_detaching pool in
    (out.0, record out.1 { nr_running = u8 (out.1.nr_running + 1) })

-- Between the two sections of `jobqueue_process`: the call made, with its context.
unfoldable pub run_job : (ℕ → Job) → Option ℕ → Option (ℕ × ℕ)
run_job jobs none = none
run_job jobs (some job) =
    if (jobs job).callback == 0 then none else some ((jobs job).callback, (jobs job).context)

-- `active_threads > min_threads`, of a byte and a signed one.
abbrev pub is_above : ℕ → ℕ → Bool
is_above threads min_threads = leb 128 min_threads || ltb min_threads threads

-- The second critical section of `jobqueue_process`, and whether the thread goes on.
unfoldable pub finish_job : Jobqueue → Bool × Jobqueue
finish_job pool =
    let left = record pool { nr_running = u8 (pool.nr_running + 255) } in
    if leb (job_count_internal left) pool.active_threads
      && is_above pool.active_threads pool.attr.min_threads
    then (false, record left { active_threads = u8 (pool.active_threads + 255) })
    else (true, left)

unfoldable pub enqueue : Jobqueue → ℕ → Jobqueue
enqueue pool job =
    if is_job_scheduled pool.job_list job
    then pool
    else record pool { job_list = pool.job_list ++ (job ∷ []); job_queue = suc pool.job_queue }

-- Also whether a new thread runs `jobqueue_task`.
unfoldable pub job_schedule_internal : Jobqueue → ℕ → Bool → JobError × Bool × Jobqueue
job_schedule_internal pool job created =
    let nr_jobs = job_count_internal pool in
    let queued = enqueue pool job in
    if leb pool.max_concurrent_jobs nr_jobs
    then (full, false, pool)
    else if not (leb pool.active_threads nr_jobs && ltb pool.active_threads pool.attr.max_threads)
    then (success, false, queued)
    else if created
    then (success, true, record queued { active_threads = u8 (pool.active_threads + 1) })
    else (error, false, queued)

-- A pool or an argument that is NULL is `none`.
unfoldable pub job_schedule : Option Jobqueue → Option ℕ → Bool → JobError × Bool × Option Jobqueue
job_schedule none job created = (invalid_param, false, none)
job_schedule (some pool) none created = (invalid_param, false, some pool)
job_schedule (some pool) (some job) created =
    let (err, started, pool') = job_schedule_internal pool job created in (err, started, some pool')

unfoldable pub job_deschedule : Option Jobqueue → Option ℕ → JobError × Option Jobqueue
job_deschedule none job = (invalid_param, none)
job_deschedule (some pool) none = (invalid_param, some pool)
job_deschedule (some pool) (some job) =
    (success, some (record pool { job_list = job_delete_internal pool.job_list job }))

unfoldable pub jobqueue_set_attr : Option Jobqueue → Option Attr → JobError × Option Jobqueue
jobqueue_set_attr none attr = (invalid_param, none)
jobqueue_set_attr (some pool) none = (invalid_param, some pool)
jobqueue_set_attr (some pool) (some attr) = (success, some (record pool { attr = attr }))

-- `memory` and `sem_ok` say whether calloc and sem_init succeed.
unfoldable pub jobqueue_create : ℕ → Bool → Bool → Option Jobqueue
jobqueue_create max_concurrent_jobs memory sem_ok =
    if memory && sem_ok
    then some (record {
      job_list = [];
      job_queue = 0;
      attr = record { stack_size_bytes = 3072; min_threads = 1; max_threads = 1; priority = 5 };
      active_threads = 0;
      max_concurrent_jobs = max_concurrent_jobs;
      nr_running = 0;
    })
    else none

unfoldable pub job_count : Jobqueue → ℕ
job_count pool = job_count_internal pool

abbrev pub store : (ℕ → Job) → ℕ → Job → ℕ → Job
store jobs job j x = if x == job then j else jobs x

unfoldable pub job_create_static : (ℕ → Job) → Option ℕ → Option ℕ → ℕ → ℕ → JobError × (ℕ → Job)
job_create_static jobs none job callback context = (invalid_param, jobs)
job_create_static jobs (some pool) none callback context = (invalid_param, jobs)
job_create_static jobs (some pool) (some job) callback context =
    (success, store jobs job (record { pool = pool; callback = callback; context = context }))

-- `memory` is what calloc returns.
unfoldable pub job_create : (ℕ → Job) → Option ℕ → Option ℕ → ℕ → ℕ → Option ℕ × (ℕ → Job)
job_create jobs none memory callback context = (none, jobs)
job_create jobs (some pool) none callback context = (none, jobs)
job_create jobs (some pool) (some job) callback context =
    (some job, store jobs job (record { pool = pool; callback = callback; context = context }))
