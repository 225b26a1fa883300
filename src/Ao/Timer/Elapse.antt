-- ===== src/Ao/Timer/Elapse.antt =====
-- When the timers of a pool post their events.
use libmcu.Base.{
  ℕ, ◌+◌, ◌-◌, ◌≤◌, ◌<◌, ◌≡◌, refl, sym, ap, ap₂, ◌∙◌, Bool, true, not, List, [], ◌∷◌, ◌++◌, map,
  ◌==◌, if◌then◌else◌, arith, Bool-cases, inl, inr,
}
use mathlib.Core.List.{map-append}
use libmcu.Ao.{Ao, ao_post}
use libmcu.Ao.Timer.{
  Timer, Timers, zero_timer, is_allocated, free_timer, update_timeout, is_timed_out, store, rearm,
  process_timer, do_step, ao_timer_step,
}

-- The armed timers all have more than `k` ms to go.
abbrev pub AllLater : ℕ → List Timer → Type 0
AllLater k [] = Unit
AllLater k (t ∷ ts) = (is_allocated t ≡ true → k < t.timeout_ms) × AllLater k ts

-- A timer `k` ms later.
abbrev pub wait : ℕ → Timer → Timer
wait k t = if is_allocated t then record t { timeout_ms = t.timeout_ms - k } else t

-- A timer that is due, after a post that returned `rc`.
abbrev pub fired : ℕ → Timer → Timer
fired rc t =
    if not (rc == 0)
    then record t { timeout_ms = 0 }
    else if t.interval_ms == 0
    then zero_timer
    else record t { timeout_ms = t.interval_ms }

abbrev pub total : List ℕ → ℕ
total [] = 0
total (e ∷ es) = e + total es

abbrev pub run_steps : ℕ → Timers → (ℕ → Ao) → List ℕ → Timers × (ℕ → Ao)
run_steps maxlen m aos [] = (m, aos)
run_steps maxlen m aos (e ∷ es) =
    let (m', aos') = ao_timer_step maxlen m aos e in run_steps maxlen m' aos' es

module _ (maxlen : ℕ) where
  process_timer-later :
      (t : Timer) (aos : ℕ → Ao) (e : ℕ)
      → (is_allocated t ≡ true → e < t.timeout_ms)
      → process_timer maxlen t aos e ≡ (wait e t, aos)
  unfolding process_timer update_timeout is_timed_out
  process_timer-later t aos e later = elim (Bool-cases (is_allocated t)) [
    | inl armed ↦ rw armed (ground (arith, later armed))
    | inr free ↦ rw free refl
  ]

  process_timer-due :
      (t : Timer) (aos : ℕ → Ao) (e : ℕ)
      → is_allocated t ≡ true
      → t.timeout_ms ≤ e
      → let (rc, ao) = ao_post maxlen (aos t.ao) t.event in
        process_timer maxlen t aos e ≡ (fired rc t, store aos t.ao ao)
  unfolding process_timer update_timeout is_timed_out rearm free_timer
  process_timer-due t aos e armed due = ground arith

  do_step-later :
      (ts : List Timer) (aos : ℕ → Ao) (e : ℕ)
      → AllLater e ts
      → do_step maxlen ts aos e ≡ (map (wait e) ts, aos)
  unfolding do_step
  do_step-later [] aos e later = refl
  do_step-later (t ∷ ts) aos e (first, later) =
      rw (process_timer-later t aos e first, do_step-later ts aos e later) refl

  do_step-due :
      (before : List Timer) (t : Timer) (after : List Timer) (aos : ℕ → Ao) (e : ℕ)
      → AllLater e before
      → AllLater e after
      → let (t', aos') = process_timer maxlen t aos e in
        do_step maxlen (before ++ (t ∷ after)) aos e
        ≡ (map (wait e) before ++ (t' ∷ map (wait e) after), aos')
  unfolding do_step
  do_step-due [] t after aos e tt later =
      rw (do_step-later after (process_timer maxlen t aos e).1 e later) refl
  do_step-due (b ∷ before) t after aos e (first, earlier) later =
      rw (process_timer-later b aos e first, do_step-due before t after aos e earlier later) refl

is_allocated-wait : (k : ℕ) (t : Timer) → is_allocated (wait k t) ≡ is_allocated t
unfolding is_allocated
is_allocated-wait k t = ground arith

wait_add : (a b : ℕ) (t : Timer) → wait b (wait a t) ≡ wait (a + b) t
unfolding is_allocated
wait_add a b t = ground arith

map-wait_add : (a b : ℕ) (ts : List Timer) → map (wait b) (map (wait a) ts) ≡ map (wait (a + b)) ts
map-wait_add a b [] = refl
map-wait_add a b (t ∷ ts) = ap₂ ◌∷◌ (wait_add a b t) (map-wait_add a b ts)

map-wait_zero : (ts : List Timer) → map (wait 0) ts ≡ ts
map-wait_zero [] = refl
map-wait_zero (t ∷ ts) = ap₂ ◌∷◌ (ground arith) (map-wait_zero ts)

AllLater-le : (a b : ℕ) (ts : List Timer) → a ≤ b → AllLater b ts → AllLater a ts
AllLater-le a b [] h later = tt
AllLater-le a b (t ∷ ts) h (first, later) =
    ((λ armed. omega (arith, first armed)), AllLater-le a b ts h later)

AllLater-append :
    (k : ℕ) (before : List Timer) (t : Timer) (after : List Timer)
    → AllLater k before
    → (is_allocated t ≡ true → k < t.timeout_ms)
    → AllLater k after
    → AllLater k (before ++ (t ∷ after))
AllLater-append k [] t after tt here later = (here, later)
AllLater-append k (b ∷ before) t after (first, earlier) here later =
    (first, AllLater-append k before t after earlier here later)

AllLater-wait : (a b : ℕ) (ts : List Timer) → AllLater (a + b) ts → AllLater b (map (wait a) ts)
AllLater-wait a b [] later = tt
AllLater-wait a b (t ∷ ts) (first, later) =
    ((λ armed. ground (arith, is_allocated-wait a t, first)), AllLater-wait a b ts later)

module _ (maxlen : ℕ) where
  waiting_steps :
      (m : Timers) (aos : ℕ → Ao) (es : List ℕ)
      → AllLater (total es) m.timer_pool
      → run_steps maxlen m aos es
        ≡ (record m { timer_pool = map (wait (total es)) m.timer_pool }, aos)
  unfolding ao_timer_step
  waiting_steps m aos [] later =
      ap (λ ts. (record m { timer_pool = ts }, aos)) (sym (map-wait_zero m.timer_pool))
  waiting_steps m aos (e ∷ es) later =
      let ts = m.timer_pool in
      rw (do_step-later maxlen ts aos e (AllLater-le e (e + total es) ts (omega arith) later)) (
        waiting_steps (record m { timer_pool = map (wait e) ts }) aos es
          (AllLater-wait e (total es) ts later)
        ∙ ap (λ us. (record m { timer_pool = us }, aos)) (map-wait_add e (total es) ts))

  run_steps-append :
      (m : Timers) (aos : ℕ → Ao) (es fs : List ℕ)
      → run_steps maxlen m aos (es ++ fs)
        ≡ (let (m', aos') = run_steps maxlen m aos es in run_steps maxlen m' aos' fs)
  run_steps-append m aos [] fs = refl
  run_steps-append m aos (e ∷ es) fs =
      run_steps-append (ao_timer_step maxlen m aos e).0 (ao_timer_step maxlen m aos e).1 es fs

  step_due :
      (t : Timer) (aos : ℕ → Ao) (n e : ℕ)
      → is_allocated t ≡ true
      → t.timeout_ms ≤ n + e
      → let (rc, ao) = ao_post maxlen (aos t.ao) t.event in
        process_timer maxlen (wait n t) aos e ≡ (fired rc t, store aos t.ao ao)
  unfolding is_allocated
  step_due t aos n e armed due = rw armed (
      process_timer-due maxlen (record t { timeout_ms = t.timeout_ms - n }) aos e armed
        (omega arith))

  pool_due :
      (before : List Timer) (t : Timer) (after : List Timer) (aos : ℕ → Ao) (n e : ℕ)
      → is_allocated t ≡ true
      → t.timeout_ms ≤ n + e
      → AllLater (n + e) before
      → AllLater (n + e) after
      → let (rc, ao) = ao_post maxlen (aos t.ao) t.event in
        do_step maxlen (map (wait n) (before ++ (t ∷ after))) aos e
        ≡ (map (wait (n + e)) before ++ (fired rc t ∷ map (wait (n + e)) after), store aos t.ao ao)
  pool_due before t after aos n e armed due earlier later =
      ap (λ ts. do_step maxlen ts aos e) (map-append (wait n) before (t ∷ after))
      ∙ do_step-due maxlen (map (wait n) before) (wait n t) (map (wait n) after) aos e
          (AllLater-wait n e before earlier) (AllLater-wait n e after later)
      ∙ rw (map-wait_add n e before, map-wait_add n e after, step_due t aos n e armed due) refl

  -- The armed timer `t` of a pool is the next one that is due. As long as the time of the steps
  -- falls short of its timeout, nothing is posted and the armed timers count down. With the step
  -- that makes up the timeout its event is posted to its object, once, and to no other. Then the
  -- timer is free if it has no interval, and else waits for the interval; where the object's queue
  -- is full it stays due. The other timers count down, the free ones stay free.
  pub ao_timer_step_lem :
      (initialized : Bool) (before : List Timer) (t : Timer) (after : List Timer) (aos : ℕ → Ao)
      (es : List ℕ) (e : ℕ)
      → is_allocated t ≡ true
      → total es < t.timeout_ms
      → t.timeout_ms ≤ total es + e
      → AllLater (total es + e) before
      → AllLater (total es + e) after
      → let m : Timers = record { initialized = initialized; timer_pool = before ++ (t ∷ after) } in
        let (rc, ao) = ao_post maxlen (aos t.ao) t.event in
        let k = total es + e in
        (run_steps maxlen m aos es
          ≡ (record m { timer_pool = map (wait (total es)) m.timer_pool }, aos))
        × (run_steps maxlen m aos (es ++ (e ∷ [])) ≡ (
          record m { timer_pool = map (wait k) before ++ (fired rc t ∷ map (wait k) after) },
          store aos t.ao ao,
        ))
  unfolding ao_timer_step
  ao_timer_step_lem initialized before t after aos es e armed short due earlier later =
      let n = total es in
      let m : Timers = record { initialized = initialized; timer_pool = before ++ (t ∷ after) } in
      let waiting = waiting_steps m aos es (
        AllLater-append n before t after (AllLater-le n (n + e) before (omega arith) earlier)
          (λ _. short) (AllLater-le n (n + e) after (omega arith) later)) in
      (
        waiting,
        run_steps-append m aos es (e ∷ [])
            ∙ rw waiting (rw (pool_due before t after aos n e armed due earlier later) refl),
      )
