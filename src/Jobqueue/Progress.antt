-- ===== src/Jobqueue/Progress.antt =====
-- With the callers away, the threads of the pool come to an end of the jobs.
use libmcu.Base.{
  ℕ, zero, suc, ◌+◌, ◌*◌, ◌≤◌, ◌<◌, ◌≡◌, refl, sym, ap, ◌∙◌, ◌⊎◌, inl, inr, false, Option, List, [],
  ◌∷◌, ◌++◌, length, arith, length-append, append_assoc, append-nil,
}
use libmcu.Jobqueue.{
  count_scheduled, count_running, job_count_internal, get_job_scheduled_detaching, start_job,
  finish_job,
}
use libmcu.Jobqueue.System.{System, Work, wake, start, finish, Reachable}
use libmcu.Jobqueue.Sound.{IsSound, Reachable-IsSound, Work-IsSound}

-- Steps of the threads, with the jobs that they start and their number.
pub data Run : System → List ℕ → ℕ → System → Type 0 where
  rest : {s : System} → Run s [] 0 s
  step :
      {s t u : System} {jobs later : List ℕ} {n : ℕ}
      → Work s jobs t
      → Run t later n u
      → Run s (jobs ++ later) (suc n) u

-- No thread of the pool can take a step.
abbrev pub IsStuck : System → Type 0
IsStuck s = (jobs : List ℕ) (t : System) → ¬ Work s jobs t

-- The steps that the permits of the semaphore are good for.
abbrev pub steps_left : System → ℕ
steps_left s = 3 * s.pool.job_queue + 2 * s.woken + length s.running

-- The pool keeps a thread, and has one.
abbrev pub IsManned : System → Type 0
IsManned s =
    (0 < s.pool.attr.min_threads) × (s.pool.attr.min_threads < 128) × (0 < s.pool.active_threads)

Work-steps_left : {s t : System} {jobs : List ℕ} → Work s jobs t → steps_left s ≡ suc (steps_left t)
unfolding start_job finish_job get_job_scheduled_detaching
Work-steps_left (wake w n e f) = ground arith
Work-steps_left (start w e) = ground arith
Work-steps_left (finish before job after e) =
    ground (arith, ap length e, length-append before after, length-append before (job ∷ after))

Work-IsManned :
    {s t : System} {jobs : List ℕ}
    → s.pool.active_threads < 256
    → Work s jobs t
    → IsManned s
    → IsManned t
unfolding start_job finish_job get_job_scheduled_detaching
Work-IsManned few (wake w n e f) m = ground arith
Work-IsManned few (start w e) m = ground arith
Work-IsManned few (finish before job after e) m = ground arith

-- The jobs that a step starts are the first of the list.
Work-job_list :
    {s t : System} {jobs : List ℕ}
    → length s.pool.job_list < 256
    → Work s jobs t
    → jobs ++ t.pool.job_list ≡ s.pool.job_list
unfolding start_job finish_job get_job_scheduled_detaching count_scheduled
Work-job_list few (wake w n e f) = refl
Work-job_list few (start w e) = ground arith
Work-job_list few (finish before job after e) = ground arith

Run-steps_left :
    {s t : System} {jobs : List ℕ} {n : ℕ} → Run s jobs n t → steps_left s ≡ n + steps_left t
Run-steps_left rest = omega arith
Run-steps_left (step w r) = omega (arith, Work-steps_left w, Run-steps_left r)

module _ {cap : ℕ} (cap_u8 : cap < 256) where
  job_list_few : {s : System} → IsSound cap s → length s.pool.job_list < 256
  job_list_few v = omega (arith, v.limit)

  Run-IsManned :
      {s t : System} {jobs : List ℕ} {n : ℕ}
      → Run s jobs n t
      → IsSound cap s × IsManned s
      → IsSound cap t × IsManned t
  Run-IsManned rest h = h
  Run-IsManned (step w r) (v, m) = Run-IsManned r (Work-IsSound cap_u8 w v, Work-IsManned v.few w m)

  Run-job_list :
      {s t : System} {jobs : List ℕ} {n : ℕ}
      → Run s jobs n t
      → IsSound cap s
      → jobs ++ t.pool.job_list ≡ s.pool.job_list
  Run-job_list rest v = refl
  Run-job_list {t = u} (step {jobs} {later} w r) v =
      append_assoc jobs later u.pool.job_list
      ∙ ap (λ x. jobs ++ x) (Run-job_list r (Work-IsSound cap_u8 w v))
      ∙ Work-job_list (job_list_few v) w

-- Nobody runs a job or is about to, and no permit is left or nobody waits for one.
idle-IsStuck :
    (s : System)
    → length s.running ≡ 0
    → s.woken ≡ 0
    → (s.pool.job_queue ≡ 0) ⊎ (s.waiting ≡ 0)
    → IsStuck s
idle-IsStuck s er ek en jobs t (wake w n e f) = ground arith
idle-IsStuck s er ek en jobs t (start w e) = omega arith
idle-IsStuck s er ek en jobs t (finish before job after e) =
    omega (arith, ap length e, length-append before (job ∷ after))

empty_of_length : (jobs : List ℕ) → length jobs ≤ 0 → jobs ≡ []
empty_of_length [] h = refl
empty_of_length (job ∷ jobs) h = absurd (omega arith)

-- Either a thread can take a step, or there is no job left.
step_or_empty :
    {cap : ℕ} {s : System}
    → IsSound cap s
    → IsManned s
    → ((jobs : List ℕ) × (t : System) × Work s jobs t) ⊎ IsStuck s × (s.pool.job_list ≡ [])
step_or_empty {cap} {s} v m = found s.running s.woken s.waiting s.pool.job_queue refl refl refl refl
  where
    found :
        (running : List (Option ℕ)) (woken waiting permits : ℕ)
        → s.running ≡ running
        → s.woken ≡ woken
        → s.waiting ≡ waiting
        → s.pool.job_queue ≡ permits
        → ((jobs : List ℕ) × (t : System) × Work s jobs t) ⊎ IsStuck s × (s.pool.job_list ≡ [])
    found (job ∷ js) k w n er ek ew en = inl (_, _, finish [] job js er)
    found [] (suc k) w n er ek ew en = inl (_, _, start k ek)
    found [] zero (suc w) (suc n) er ek ew en = inl (_, _, wake w n ew en)
    found [] zero zero n er ek ew en = absurd (omega (arith, ap length er, v.workers, m.1))
    found [] zero (suc w) zero er ek ew en = inr (
      idle-IsStuck s (ap length er) ek (inl en),
      empty_of_length s.pool.job_list (omega (arith, v.permits)),
    )

-- The threads can go on until none can.
steps_until_end :
    {cap : ℕ}
    → cap < 256
    → (fuel : ℕ) {s : System} → steps_left s ≤ fuel
    → IsSound cap s
    → IsManned s
    → (jobs : List ℕ) × (n : ℕ) × (t : System) × Run s jobs n t × IsStuck t
steps_until_end cap_u8 zero {s} h v m = elim (step_or_empty v m) [
  | inr out ↦ ([], 0, s, rest, out.0)
  | inl (jobs, t, w) ↦ absurd (omega (arith, Work-steps_left w))
]
steps_until_end cap_u8 (suc fuel) {s} h v m = elim (step_or_empty v m) [
  | inr out ↦ ([], 0, s, rest, out.0)
  | inl (jobs, t, w) ↦
      let (later, n, u, r, stuck) =
        steps_until_end cap_u8 fuel (omega (arith, Work-steps_left w)) (Work-IsSound cap_u8 w v)
          (Work-IsManned v.few w m) in
      (jobs ++ later, suc n, u, step w r, stuck)
]

stuck_empty : {cap : ℕ} {s : System} → IsSound cap s → IsManned s → IsStuck s → s.pool.job_list ≡ []
stuck_empty v m stuck = elim (step_or_empty v m) [
  | inr out ↦ out.1
  | inl (jobs, t, w) ↦ absurd (stuck jobs t w)
]

-- From a pool of fewer than 256 jobs that callers and threads have made, whose `min_threads` is
-- positive as a signed byte and which has a thread, the threads alone can go on until none can take a step; however they go on, they take at most three
-- steps for each permit of the semaphore, two for each thread woken and one for each thread
-- running a job; and when none can take a step, they have started all the jobs of the list, in
-- its order, and left it empty.
pub Run_lem :
    {cap : ℕ} {s : System}
    → cap < 256
    → Reachable cap s
    → IsManned s
    → ((jobs : List ℕ) × (n : ℕ) × (t : System) × Run s jobs n t × IsStuck t)
      × ((jobs : List ℕ) (n : ℕ) (t : System)
          → Run s jobs n t
          → (n ≤ steps_left s) × (IsStuck t → (jobs ≡ s.pool.job_list) × (t.pool.job_list ≡ [])))
Run_lem {cap} {s} cap_u8 r m =
    let v = Reachable-IsSound cap_u8 r in
    (
      steps_until_end cap_u8 (steps_left s) (omega arith) v m,
      λ jobs n t run. (omega (arith, Run-steps_left run), ended run),
    )
  where
    ended :
        {jobs : List ℕ} {n : ℕ} {t : System}
        → Run s jobs n t
        → IsStuck t
        → (jobs ≡ s.pool.job_list) × (t.pool.job_list ≡ [])
    ended {jobs} run stuck =
        let v = Reachable-IsSound cap_u8 r in
        let (v', m') = Run-IsManned cap_u8 run (v, m) in
        let e = stuck_empty v' m' stuck in
        (sym (append-nil jobs) ∙ ap (λ x. jobs ++ x) (sym e) ∙ Run-job_list cap_u8 run v, e)

-- Of a pool of fewer than 256 jobs that callers and threads have made, whose `min_threads` is 0 and
-- whose only thread runs something while one job is scheduled, the thread can finish and end: then
-- the job stands in the list and no thread can take a step.
pub stranded_lem :
    {cap : ℕ} {s : System} (job : Option ℕ) (left : ℕ)
    → cap < 256
    → Reachable cap s
    → s.pool.attr.min_threads ≡ 0
    → s.pool.active_threads ≡ 1
    → s.running ≡ job ∷ []
    → s.pool.job_list ≡ left ∷ []
    → (t : System) × Work s [] t × IsStuck t × (t.pool.job_list ≡ left ∷ [])
unfolding finish_job job_count_internal count_scheduled count_running
stranded_lem {cap} {s} job left cap_u8 r none_kept one er el =
    let v = Reachable-IsSound cap_u8 r in
    let busy : length s.running ≡ 1 = ap length er in
    let queued : length s.pool.job_list ≡ 1 = ap length el in
    let ends : (finish_job s.pool).0 ≡ false = ground (arith, v.workers, v.counted) in
    (
      _,
      finish [] job [] er,
      idle-IsStuck _ refl (omega (arith, v.workers)) (inr (ground (arith, ends, v.workers))),
      ground arith,
    )
