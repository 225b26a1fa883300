-- ===== src/Jobqueue/System.antt =====
-- The pool with its threads: `waiting` ones before sem_wait, `woken` ones behind it that have not
-- taken the lock, and those that are `running` a job, or none, between the critical sections.
use libmcu.Base.{
  ℕ, suc, ◌<◌, ◌≡◌, Bool, true, Option, none, some, List, [], ◌∷◌, ◌++◌, if◌then◌else◌,
}
use libmcu.Jobqueue.{
  Attr, Jobqueue, JobError, start_job, finish_job, job_schedule, job_deschedule, jobqueue_set_attr,
  jobqueue_create,
}

pub record System : Type 0 where
  pub pool : Jobqueue
  pub waiting : ℕ
  pub woken : ℕ
  pub running : List (Option ℕ)

abbrev pub begun : Option ℕ → List ℕ
begun none = []
begun (some job) = job ∷ []

-- A thread in `jobqueue_task` takes a step, in which it starts the jobs listed.
pub data Work : System → List ℕ → System → Type 0 where
  wake :
      {s : System} (w n : ℕ)
      → s.waiting ≡ suc w
      → s.pool.job_queue ≡ suc n
      → Work s [] (record {
        pool = record s.pool { job_queue = n };
        waiting = w;
        woken = suc s.woken;
        running = s.running;
      })
  start :
      {s : System} (w : ℕ)
      → s.woken ≡ suc w
      → Work s (begun (start_job s.pool).0) (record {
        pool = (start_job s.pool).1;
        waiting = s.waiting;
        woken = w;
        running = (start_job s.pool).0 ∷ s.running;
      })
  finish :
      {s : System} (before : List (Option ℕ)) (job : Option ℕ) (after : List (Option ℕ))
      → s.running ≡ before ++ (job ∷ after)
      → Work s [] (record {
        pool = (finish_job s.pool).1;
        waiting = if (finish_job s.pool).0 then suc s.waiting else s.waiting;
        woken = s.woken;
        running = before ++ after;
      })

-- A thread of the application calls a function of `jobqueue.h` with pointers that are not NULL.
pub data Client : System → System → Type 0 where
  schedule :
      {s : System} (job : ℕ) (created : Bool) (err : JobError) (started : Bool) (pool : Jobqueue)
      → job_schedule (some s.pool) (some job) created ≡ (err, started, some pool)
      → Client s (record s { pool = pool; waiting = if started then suc s.waiting else s.waiting })
  deschedule :
      {s : System} (job : ℕ) (err : JobError) (pool : Jobqueue)
      → job_deschedule (some s.pool) (some job) ≡ (err, some pool)
      → Client s (record s { pool = pool })
  set_attr :
      {s : System} (attr : Attr) (err : JobError) (pool : Jobqueue)
      → attr.max_threads < 256
      → jobqueue_set_attr (some s.pool) (some attr) ≡ (err, some pool)
      → Client s (record s { pool = pool })

-- What threads and callers make of a new pool.
pub data Reachable (max_concurrent_jobs : ℕ) : System → Type 0 where
  create :
      (pool : Jobqueue)
      → jobqueue_create max_concurrent_jobs true true ≡ some pool
      → Reachable max_concurrent_jobs (record { pool = pool; waiting = 0; woken = 0; running = [] })
  call :
      {s t : System}
      → Reachable max_concurrent_jobs s
      → Client s t
      → Reachable max_concurrent_jobs t
  work :
      {s t : System} {jobs : List ℕ}
      → Reachable max_concurrent_jobs s
      → Work s jobs t
      → Reachable max_concurrent_jobs t
