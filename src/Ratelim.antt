-- ===== src/Ratelim.antt =====
-- modules/ratelim/src/ratelim.c: a leaky bucket. `now` is what the application's
-- `ratelim_get_time_seconds` returns in the call.
pub mod Load
mod Tests
use libmcu.Base.{
  ℕ, ◌+◌, ◌-◌, ◌*◌, ◌/◌, ◌^◌, Bool, true, false, not, ltb, leb, ◌==◌, if◌then◌else◌, u32, sub32,
  sub64,
}

pub data RateUnit : Type 0 where
  second minute hour : RateUnit

pub record Bucket : Type 0 where
  pub capacity : ℕ
  pub current_load : ℕ
  pub leak_rate : ℕ
  pub leak_time_buffer : ℕ
  pub last_update : ℕ

-- The part of `update_bucket` that runs once some seconds have passed.
unfoldable pub leak : Bucket → ℕ → Bucket
leak b elapsed_seconds =
    let buffered = u32 (b.leak_time_buffer + elapsed_seconds) in
    let leaked = u32 (buffered * b.leak_rate) / 3600 in
    if not (leaked == 0)
    then record b {
      current_load = if leb b.current_load leaked then 0 else b.current_load - leaked;
      leak_time_buffer = sub32 buffered (u32 (leaked * 3600) / b.leak_rate);
    }
    else record b { leak_time_buffer = buffered }

unfoldable pub update_bucket : Bucket → ℕ → Bucket
update_bucket b now =
    let elapsed_seconds = u32 (sub64 now b.last_update) in
    if leb now b.last_update
    then b
    else if elapsed_seconds == 0
    then b
    else record (leak b elapsed_seconds) { last_update = now }

unfoldable pub is_bucket_full : Bucket → Bool
is_bucket_full b = leb b.capacity b.current_load

unfoldable pub request_token : Bucket → ℕ → Bool × Bucket
request_token b now =
    let b' = update_bucket b now in
    if is_bucket_full b'
    then (false, b')
    else (true, record b' { current_load = u32 (b'.current_load + 1) })

unfoldable pub ratelim_full : Bucket → ℕ → Bool × Bucket
ratelim_full b now = let b' = update_bucket b now in (is_bucket_full b', b')

unfoldable pub ratelim_request : Bucket → ℕ → Bool × Bucket
ratelim_request b now = request_token b now

-- The second Boolean says whether `func` is called; `has_func` that it is not NULL.
unfoldable pub ratelim_request_format : Bucket → ℕ → Bool → (Bool × Bool) × Bucket
ratelim_request_format b now has_func =
    let (granted, b') = request_token b now in
    if not granted then ((false, false), b') else ((true, has_func), b')

unfoldable pub ratelim_request_ext : Bucket → ℕ → ℕ → Bool × Bucket
ratelim_request_ext b now n =
    let b' = update_bucket b now in
    if n == 0
    then (true, b)
    else if ltb b.capacity n
    then (false, b)
    else if ltb b'.capacity (u32 (b'.current_load + n))
    then (false, b')
    else (true, record b' { current_load = u32 (b'.current_load + n) })

unfoldable pub ratelim_init : RateUnit → ℕ → ℕ → ℕ → Bucket
ratelim_init unit cap leak_rate now = record {
  capacity = cap;
  current_load = 0;
  leak_rate = elim unit [
    | second ↦ u32 (leak_rate * 3600)
    | minute ↦ u32 (leak_rate * 60)
    | hour ↦ leak_rate
  ];
  leak_time_buffer = 0;
  last_update = now;
}
