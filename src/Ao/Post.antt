-- ===== src/Ao/Post.antt =====
-- modules/ao/src/ao.c, its functions that use the timers: events posted later, or unless pending.
-- The objects stand in `aos` by their addresses.
use libmcu.Base.{ℕ, Bool, true, false, ◌||◌, if◌then◌else◌, errno}
use libmcu.Ao.{Ao, is_event_already_queued, post_event}
use libmcu.Ao.Timer.{Timers, store, ao_timer_add, ao_timer_cancel, ao_timer_is_armed}

unfoldable pub is_event_unique : ℕ → Timers → (ℕ → Ao) → ℕ → ℕ → Bool
is_event_unique maxlen m aos ao event =
    if is_event_already_queued maxlen (aos ao).queue event || ao_timer_is_armed m ao event
    then false
    else true

unfoldable pub ao_post_defer : ℕ → Timers → ℕ → ℕ → ℕ → ℕ × Timers
ao_post_defer timer_maxlen m ao event millisec_delay =
    ao_timer_add timer_maxlen m ao event millisec_delay 0

unfoldable pub ao_post_repeat : ℕ → Timers → ℕ → ℕ → ℕ → ℕ → ℕ × Timers
ao_post_repeat timer_maxlen m ao event millisec_delay millisec_interval =
    ao_timer_add timer_maxlen m ao event millisec_delay millisec_interval

unfoldable pub ao_cancel : Timers → ℕ → ℕ → ℕ × Timers
ao_cancel m ao event = ao_timer_cancel m ao event

-- -EEXIST, or what the post returns.
unfoldable pub ao_post_if_unique : ℕ → Timers → (ℕ → Ao) → ℕ → ℕ → ℕ × (ℕ → Ao)
ao_post_if_unique maxlen m aos ao event =
    let (rc, posted) = post_event maxlen (aos ao) event in
    if is_event_unique maxlen m aos ao event then (rc, store aos ao posted) else (errno 17, aos)

unfoldable pub ao_post_defer_if_unique : ℕ → ℕ → Timers → (ℕ → Ao) → ℕ → ℕ → ℕ → ℕ × Timers
ao_post_defer_if_unique maxlen timer_maxlen m aos ao event millisec_delay =
    if is_event_unique maxlen m aos ao event
    then ao_timer_add timer_maxlen m ao event millisec_delay 0
    else (errno 17, m)

unfoldable pub ao_post_repeat_if_unique : ℕ → ℕ → Timers → (ℕ → Ao) → ℕ → ℕ → ℕ → ℕ → ℕ × Timers
ao_post_repeat_if_unique maxlen timer_maxlen m aos ao event millisec_delay millisec_interval =
    if is_event_unique maxlen m aos ao event
    then ao_timer_add timer_maxlen m ao event millisec_delay millisec_interval
    else (errno 17, m)
