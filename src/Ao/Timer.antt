-- ===== src/Ao/Timer.antt =====
-- modules/ao/src/ao_timer.c: events posted after a time, by timers in a pool.
-- `maxlen` is AO_EVENT_MAXLEN and `timer_maxlen` AO_TIMER_MAXLEN. An object is known by its
-- address, 0 for NULL, and `aos` says what stands there. The lock makes the calls a sequence.
pub mod Armed
pub mod Elapse
use libmcu.Base.{
  ℕ, zero, suc, ◌+◌, ◌-◌, Bool, true, false, not, ◌&&◌, Option, none, some, List, [], ◌∷◌, set,
  replicate, leb, ◌==◌, if◌then◌else◌, errno,
}
use libmcu.Ao.{Ao, ao_post}

pub record Timer : Type 0 where
  pub ao : ℕ
  pub event : ℕ
  pub timeout_ms : ℕ
  pub interval_ms : ℕ

pub record Timers : Type 0 where
  pub initialized : Bool
  pub timer_pool : List Timer

-- All its bytes are zero.
abbrev pub zero_timer : Timer
zero_timer = record { ao = 0; event = 0; timeout_ms = 0; interval_ms = 0 }

unfoldable pub initialize : ℕ → Timers
initialize timer_maxlen = record {
  initialized = true;
  timer_pool = replicate timer_maxlen zero_timer;
}

unfoldable pub is_allocated : Timer → Bool
is_allocated t = not (t.ao == 0)

-- The first free place, from `i` on.
unfoldable pub alloc_timer : List Timer → ℕ → Option ℕ
alloc_timer [] i = none
alloc_timer (t ∷ ts) i =
    let rest = alloc_timer ts (suc i) in if not (is_allocated t) then some i else rest

unfoldable pub free_timer : Timer → Timer
free_timer t = zero_timer

unfoldable pub free_timers_by_event : List Timer → ℕ → ℕ → Bool → ℕ × List Timer
free_timers_by_event [] event ao dryrun = (0, [])
free_timers_by_event (t ∷ ts) event ao dryrun =
    let (count, rest) = free_timers_by_event ts event ao dryrun in
    if is_allocated t && (t.event == event) && (t.ao == ao)
    then (suc count, (if not dryrun then free_timer t else t) ∷ rest)
    else (count, t ∷ rest)

-- 0, or -ENOSPC.
unfoldable pub add_timer : List Timer → ℕ → ℕ → ℕ → ℕ → ℕ × List Timer
add_timer pool ao event timeout_ms interval_ms = elim (alloc_timer pool 0) [
  | none ↦ (errno 28, pool)
  | some i ↦ (
    0,
    set pool i
        (record { ao = ao; event = event; timeout_ms = timeout_ms; interval_ms = interval_ms }),
  )
]

unfoldable pub update_timeout : Timer → ℕ → Timer
update_timeout t elapsed_ms =
    if leb t.timeout_ms elapsed_ms
    then record t { timeout_ms = 0 }
    else record t { timeout_ms = t.timeout_ms - elapsed_ms }

unfoldable pub is_timed_out : Timer → Bool
is_timed_out t = t.timeout_ms == 0

abbrev pub store : (ℕ → Ao) → ℕ → Ao → ℕ → Ao
store aos p ao x = if x == p then ao else aos x

-- `timer->timeout_ms = timer->interval_ms`, where the timer may have been freed.
unfoldable pub rearm : Timer → Timer
rearm t =
    let t' = if t.interval_ms == 0 then free_timer t else t in
    record t' { timeout_ms = t'.interval_ms }

module _ (maxlen : ℕ) where
  unfoldable pub process_timer : Timer → (ℕ → Ao) → ℕ → Timer × (ℕ → Ao)
  process_timer t aos elapsed_ms =
      let t' = update_timeout t elapsed_ms in
      let (rc, ao) = ao_post maxlen (aos t'.ao) t'.event in
      let aos' = store aos t'.ao ao in
      if not (is_allocated t)
      then (t, aos)
      else if not (is_timed_out t')
      then (t', aos)
      else if not (rc == 0)
      then (t', aos')
      else (rearm t', aos')

  unfoldable pub do_step : List Timer → (ℕ → Ao) → ℕ → List Timer × (ℕ → Ao)
  do_step [] aos elapsed_ms = ([], aos)
  do_step (t ∷ ts) aos elapsed_ms =
      let (t', aos') = process_timer t aos elapsed_ms in
      let (ts', aos'') = do_step ts aos' elapsed_ms in (t' ∷ ts', aos'')

  unfoldable pub ao_timer_step : Timers → (ℕ → Ao) → ℕ → Timers × (ℕ → Ao)
  ao_timer_step m aos elapsed_ms =
      let (pool, aos') = do_step m.timer_pool aos elapsed_ms in
      (record m { timer_pool = pool }, aos')

unfoldable pub ao_timer_add : ℕ → Timers → ℕ → ℕ → ℕ → ℕ → ℕ × Timers
ao_timer_add timer_maxlen m ao event timeout_ms interval_ms =
    let m' = if not m.initialized then initialize timer_maxlen else m in
    let (rc, pool) = add_timer m'.timer_pool ao event timeout_ms interval_ms in
    (rc, record m' { timer_pool = pool })

unfoldable pub ao_timer_cancel : Timers → ℕ → ℕ → ℕ × Timers
ao_timer_cancel m ao event =
    let (rc, pool) = free_timers_by_event m.timer_pool event ao false in
    (rc, record m { timer_pool = pool })

unfoldable pub ao_timer_is_armed : Timers → ℕ → ℕ → Bool
ao_timer_is_armed m ao event = not ((free_timers_by_event m.timer_pool event ao true).0 == 0)

unfoldable pub ao_timer_reset : ℕ → Timers
ao_timer_reset timer_maxlen = initialize timer_maxlen
