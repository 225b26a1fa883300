-- ===== src/Retry.antt =====
-- modules/retry/src/retry.c: exponential backoff with jitter and a limit on the attempts.
-- A NULL pointer is `none`; `memory` says whether `malloc` succeeds.
pub mod Backoff
mod Tests
use libmcu.Base.{
  ℕ, ◌+◌, ◌-◌, ◌*◌, ◌%◌, ◌^◌, Bool, true, false, not, ◌&&◌, Option, none, some, ltb, leb, ◌==◌,
  if◌then◌else◌, u16, u32, sub32,
}

pub data RetryError : Type 0 where
  no_error invalid_param exhausted : RetryError

pub record RetryParam : Type 0 where
  pub max_attempts : ℕ
  pub min_backoff_ms : ℕ
  pub max_backoff_ms : ℕ
  pub max_jitter_ms : ℕ

pub record Retry : Type 0 where
  pub param : RetryParam
  pub attempts : ℕ
  pub previous_backoff_ms : ℕ

unfoldable pub get_jitter : ℕ → ℕ → ℕ
get_jitter max_jitter_ms random_jitter =
    if not (max_jitter_ms == 0) then random_jitter % max_jitter_ms else 0

unfoldable pub reset_backoff : Retry → Retry
reset_backoff r = record r { attempts = 0; previous_backoff_ms = 0 }

-- `init` of a structure that is there, whatever it held.
unfoldable pub init : RetryParam → Retry
init p = record {
  param =
      if ltb p.max_backoff_ms p.min_backoff_ms
      then record p { max_backoff_ms = p.min_backoff_ms }
      else p;
  attempts = 0;
  previous_backoff_ms = 0;
}

unfoldable pub is_exhausted : Retry → Bool
is_exhausted r = not (r.param.max_attempts == 0) && leb r.param.max_attempts r.attempts

unfoldable pub calc_backoff_time : Retry → ℕ → ℕ
calc_backoff_time r random_jitter =
    let jitter = get_jitter r.param.max_jitter_ms random_jitter in
    let backoff =
      if r.previous_backoff_ms == 0
      then u32 (r.param.min_backoff_ms + jitter)
      else u32 (r.previous_backoff_ms * 2 + jitter) in
    if ltb r.param.max_backoff_ms backoff
    then u32 (sub32 r.param.max_backoff_ms r.param.max_jitter_ms + jitter)
    else backoff

unfoldable pub update : Retry → ℕ → ℕ × Retry
update r random_jitter =
    let backoff_time = calc_backoff_time r random_jitter in
    (backoff_time, record r { attempts = u16 (r.attempts + 1); previous_backoff_ms = backoff_time })

-- The backoff is `none` where nothing is stored through the pointer.
unfoldable pub backoff : Retry → ℕ → (RetryError × Option ℕ) × Retry
backoff r random_jitter =
    let (t, r') = update r random_jitter in
    if is_exhausted r then ((exhausted, none), r) else ((no_error, some t), r')

-- `retry_backoff`, with a pointer that may be NULL for either of its two.
unfoldable pub retry_backoff : Option Retry → Bool → ℕ → (RetryError × Option ℕ) × Option Retry
retry_backoff none has_next random_jitter = ((invalid_param, none), none)
retry_backoff (some r) has_next random_jitter =
    let (out, r') = backoff r random_jitter in
    if has_next then (out, some r') else ((invalid_param, none), some r)

abbrev pub retry_get_backoff : Retry → ℕ
retry_get_backoff r = r.previous_backoff_ms

unfoldable pub retry_reset : Retry → Retry
retry_reset r = reset_backoff r

unfoldable pub retry_exhausted : Retry → Bool
retry_exhausted r = is_exhausted r

unfoldable pub retry_first : Retry → Bool
retry_first r = r.attempts == 0

unfoldable pub retry_new_static : Option RetryParam → RetryError × Option Retry
retry_new_static none = (invalid_param, none)
retry_new_static (some p) = (no_error, some (init p))

unfoldable pub retry_new : Bool → Option RetryParam → Option Retry
retry_new false p = none
retry_new true none = none
retry_new true (some p) = some (init p)
