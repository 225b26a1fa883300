-- ===== src/Jobqueue/Sound.antt =====
-- What holds of the pool and its threads, whatever the callers and the threads do.
use libmcu.Base.{
  ℕ, suc, ◌+◌, ◌≤◌, ◌<◌, ◌≡◌, ap, ◌⊎◌, Bool, Option, none, some, List, [], ◌∷◌, ◌++◌, length,
  if◌then◌else◌, arith, length-append,
}
use libmcu.Jobqueue.{
  Jobqueue, JobError, count_scheduled, count_running, job_count_internal,
  get_job_scheduled_detaching, start_job, finish_job, enqueue, job_schedule_internal, job_schedule,
  job_deschedule, jobqueue_set_attr, jobqueue_create,
}
use libmcu.Jobqueue.System.{
  System, Work, wake, start, finish, Client, schedule, deschedule, set_attr, Reachable, create,
  call, work,
}
use libmcu.Jobqueue.Lists.{
  IsDistinct, jobs_in, jobs_in-middle, length-job_delete_internal, job_delete_internal-IsDistinct,
  snoc-IsDistinct,
}

-- `permits`: a scheduled job has a thread that will come for it. `limit`: the jobs taken on and
-- not finished. `no_wrap`: the counts of one byte do not wrap.
pub record IsSound (cap : ℕ) (s : System) : Type 0 where
  pub workers : s.waiting + s.woken + length s.running ≡ s.pool.active_threads
  pub few : s.pool.active_threads < 256
  pub max_few : s.pool.attr.max_threads < 256
  pub counted : s.pool.nr_running ≡ length s.running
  pub permits : length s.pool.job_list ≤ s.pool.job_queue + s.woken
  pub limit : length s.pool.job_list + jobs_in s.running ≤ cap
  pub no_wrap : (length s.pool.job_list ≡ 0) ⊎ (length s.pool.job_list + length s.running ≤ cap)
  pub capped : s.pool.max_concurrent_jobs ≡ cap
  pub distinct : IsDistinct s.pool.job_list

jobs_in-le : (js : List (Option ℕ)) → jobs_in js ≤ length js
jobs_in-le [] = omega arith
jobs_in-le (none ∷ js) = omega (arith, jobs_in-le js)
jobs_in-le (some j ∷ js) = omega (arith, jobs_in-le js)

module _ {cap : ℕ} (cap_u8 : cap < 256) where
  -- What `job_count_internal` counts does not wrap.
  pub job_count_lem :
      {s : System}
      → IsSound cap s
      → job_count_internal s.pool ≡ length s.pool.job_list + length s.running
  unfolding job_count_internal count_scheduled count_running
  job_count_lem {s} v = ground (arith, v.workers, v.few, v.counted, v.no_wrap)

  start_job-IsSound :
      {s : System} (w : ℕ)
      → s.woken ≡ suc w
      → IsSound cap s
      → IsSound cap (record {
        pool = (start_job s.pool).1;
        waiting = s.waiting;
        woken = w;
        running = (start_job s.pool).0 ∷ s.running;
      })
  unfolding start_job get_job_scheduled_detaching count_scheduled
  start_job-IsSound {s} w e v = ground (arith, jobs_in-le s.running)

  finish_job-IsSound :
      {s : System} (before : List (Option ℕ)) (job : Option ℕ) (after : List (Option ℕ))
      → s.running ≡ before ++ (job ∷ after)
      → IsSound cap s
      → IsSound cap (record {
        pool = (finish_job s.pool).1;
        waiting = if (finish_job s.pool).0 then suc s.waiting else s.waiting;
        woken = s.woken;
        running = before ++ after;
      })
  unfolding finish_job
  finish_job-IsSound {s} before job after e v =
      let sizes : length s.running ≡ suc (length (before ++ after)) =
        omega
          (arith, ap length e, length-append before after, length-append before (job ∷ after)) in
      let jobs : jobs_in (before ++ after) ≤ jobs_in s.running =
        rw e (jobs_in-middle before after job) in
      ground arith

  job_schedule-IsSound :
      {s : System} (job : ℕ) (created : Bool) {err : JobError} {started : Bool} {pool : Jobqueue}
      → job_schedule (some s.pool) (some job) created ≡ (err, started, some pool)
      → IsSound cap s
      → IsSound cap
          (record s { pool = pool; waiting = if started then suc s.waiting else s.waiting })
  unfolding job_schedule job_schedule_internal enqueue
  job_schedule-IsSound {s} job created e v = ground (
    arith,
    job_count_lem v,
    jobs_in-le s.running,
    length-append s.pool.job_list (job ∷ []),
    snoc-IsDistinct s.pool.job_list job,
  )

  job_deschedule-IsSound :
      {s : System} (job : ℕ) {err : JobError} {pool : Jobqueue}
      → job_deschedule (some s.pool) (some job) ≡ (err, some pool)
      → IsSound cap s
      → IsSound cap (record s { pool = pool })
  unfolding job_deschedule
  job_deschedule-IsSound {s} job e v = ground (
    arith,
    length-job_delete_internal s.pool.job_list job,
    job_delete_internal-IsDistinct s.pool.job_list job v.distinct,
  )

  pub Work-IsSound : {s t : System} {jobs : List ℕ} → Work s jobs t → IsSound cap s → IsSound cap t
  Work-IsSound (wake w n e f) v = ground arith
  Work-IsSound (start w e) v = start_job-IsSound w e v
  Work-IsSound (finish before job after e) v = finish_job-IsSound before job after e v

  Client-IsSound : {s t : System} → Client s t → IsSound cap s → IsSound cap t
  unfolding jobqueue_set_attr
  Client-IsSound (schedule job created err started pool e) v = job_schedule-IsSound job created e v
  Client-IsSound (deschedule job err pool e) v = job_deschedule-IsSound job e v
  Client-IsSound (set_attr attr err pool few e) v = ground arith

  -- Whatever callers and threads do, with fewer than 256 jobs allowed: `active_threads` counts the
  -- threads and `nr_running` those between their critical sections; each job of the list has a
  -- permit, in the semaphore or taken by a woken thread; the jobs in the list and those being run
  -- are together at most `max_concurrent_jobs`; and no job is in the list twice.
  pub Reachable-IsSound : {s : System} → Reachable cap s → IsSound cap s
  unfolding jobqueue_create
  Reachable-IsSound (create pool e) = ground arith
  Reachable-IsSound (call r c) = Client-IsSound c (Reachable-IsSound r)
  Reachable-IsSound (work r w) = Work-IsSound w (Reachable-IsSound r)
