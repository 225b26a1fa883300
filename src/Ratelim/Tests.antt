-- ===== src/Ratelim/Tests.antt =====
-- A bucket of ten tokens.
use libmcu.Base.{if◌then◌else◌, ltb, ◌+◌, ◌≡◌, leb, arith}
use libmcu.Ratelim.{Bucket, update_bucket, ratelim_request_ext}
use libmcu.Ratelim.Load.{IsValid, ratelim_request_ext_lem}

abbrev bucket : Bucket
bucket = record {
  capacity = 10;
  current_load = 8;
  leak_rate = 3600;
  leak_time_buffer = 0;
  last_update = 100;
}

bucket-IsValid : IsValid bucket
bucket-IsValid = record { limit = omega arith; load = omega arith }

ratelim_request_ext_lem_example :
    let (ok, b') = ratelim_request_ext bucket 103 4 in
    let b0 = update_bucket bucket 103 in
    (ok ≡ leb (b0.current_load + 4) 10)
    × (b' ≡ (
        if ltb 10 4 then bucket else record b0 {
          current_load =
              if leb (b0.current_load + 4) 10 then b0.current_load + 4 else b0.current_load;
        }))
    × IsValid b'
ratelim_request_ext_lem_example =
    ratelim_request_ext_lem 103 4 bucket-IsValid (omega arith) (omega arith)
