-- ===== src/Ratelim/Load.antt =====
-- The load of a bucket, through its requests.
use libmcu.Base.{
  ℕ, zero, suc, ◌+◌, ◌-◌, ◌^◌, ◌≤◌, ◌<◌, min, ◌≡◌, ap, ◌∙◌, true, false, ltb, leb, if◌then◌else◌,
  le→leb, lt→leb, u32, sub64, arith,
}
use native.Mathlib.Decide.{dec_lt}
use libmcu.Ratelim.{
  Bucket, leak, update_bucket, is_bucket_full, request_token, ratelim_request, ratelim_request_ext,
}

-- The load is at most the capacity, a 32-bit number.
pub record IsValid (b : Bucket) : Type 0 where
  pub limit : b.capacity < 2 ^ 32
  pub load : b.current_load ≤ b.capacity

leak_lem :
    (b : Bucket) (s : ℕ)
    → ((leak b s).current_load ≤ b.current_load) × ((leak b s).capacity ≡ b.capacity)
unfolding leak
leak_lem b s = ground arith

-- Time only lowers the load.
pub update_bucket_lem :
    (b : Bucket) (now : ℕ)
    → ((update_bucket b now).current_load ≤ b.current_load)
      × ((update_bucket b now).capacity ≡ b.capacity)
unfolding update_bucket
update_bucket_lem b now = ground (arith, leak_lem b (u32 (sub64 now b.last_update)))

-- A request is granted exactly if the load, after what has leaked, is below the capacity; a granted
-- one adds one to it, and the load never passes the capacity.
ratelim_request_lem :
    {b : Bucket} (now : ℕ)
    → IsValid b
    → let (granted, b') = ratelim_request b now in
      let b0 = update_bucket b now in
      (granted ≡ ltb b0.current_load b0.capacity)
      × (b'.current_load
          ≡ (if ltb b0.current_load b0.capacity then b0.current_load + 1 else b0.current_load))
      × IsValid b'
unfolding ratelim_request request_token is_bucket_full
ratelim_request_lem {b} now v = ground (arith, update_bucket_lem b now)

-- A request for `n` tokens that does not wrap: granted exactly if they fit after what has leaked.
-- Then they are added whole to the load; otherwise only the leak counts, and not even that where
-- the request is above the capacity.
pub ratelim_request_ext_lem :
    {b : Bucket} (now n : ℕ)
    → IsValid b
    → 0 < n
    → b.capacity + n < 2 ^ 32
    → let (granted, b') = ratelim_request_ext b now n in
      let b0 = update_bucket b now in
      (granted ≡ leb (b0.current_load + n) b.capacity)
      × (b' ≡ (
          if ltb b.capacity n then b else record b0 {
            current_load =
                if leb (b0.current_load + n) b.capacity
                then b0.current_load + n
                else b0.current_load;
          }))
      × IsValid b'
unfolding ratelim_request_ext
ratelim_request_ext_lem {b} now n v h small = ground (arith, update_bucket_lem b now)

-- Where the sum of the load and the request passes 2 ^ 32, the test of `ratelim_request_ext` is
-- made on the wrapped sum: more tokens than the capacity are granted, and the load falls.
ratelim_request_ext_wraps :
    {b : Bucket} (now n : ℕ)
    → IsValid b
    → n ≤ b.capacity
    → now ≤ b.last_update
    → 2 ^ 32 ≤ b.current_load + n
    → let (granted, b') = ratelim_request_ext b now n in
      (granted ≡ true)
      × (b'.current_load + 2 ^ 32 ≡ b.current_load + n)
      × (b'.current_load < b.current_load)
unfolding ratelim_request_ext update_bucket
ratelim_request_ext_wraps {b} now n v le still wraps = ground arith

-- How many of `n` requests in one second are granted.
pub granted : Bucket → ℕ → ℕ → ℕ
granted b now zero = 0
granted b now (suc n) =
    let (ok, b') = ratelim_request b now in
    let rest = granted b' now n in if ok then suc rest else rest

update_still : (b : Bucket) (now : ℕ) → now ≤ b.last_update → update_bucket b now ≡ b
unfolding update_bucket
update_still b now still = rw (le→leb now b.last_update still)

request_full :
    (b : Bucket) (now : ℕ)
    → now ≤ b.last_update
    → b.capacity ≤ b.current_load
    → ratelim_request b now ≡ (false, b)
unfolding ratelim_request request_token is_bucket_full
request_full b now still full = rw (update_still b now still, le→leb b.capacity b.current_load full)

request_room :
    (b : Bucket) (now : ℕ)
    → now ≤ b.last_update
    → b.current_load < b.capacity
    → ratelim_request b now ≡ (true, record b { current_load = u32 (b.current_load + 1) })
unfolding ratelim_request request_token is_bucket_full
request_room b now still room = rw (update_still b now still, lt→leb b.capacity b.current_load room)

-- Of requests in the second of the last update, exactly as many are granted as there is room for.
granted_at_once :
    (n : ℕ) (b : Bucket) (now : ℕ)
    → IsValid b
    → now ≤ b.last_update
    → granted b now n ≡ min n (b.capacity - b.current_load)
unfolding granted
granted_at_once zero b now v still = omega arith
granted_at_once (suc n) b now v still = elim (dec_lt b.current_load b.capacity) [
  | yes room ↦ rw (request_room b now still room) (
      ap suc (
        granted_at_once n (record b { current_load = u32 (b.current_load + 1) }) now (omega arith)
          still)
      ∙ omega arith)
  | no full ↦
      rw (request_full b now still (omega arith)) (granted_at_once n b now v still ∙ omega arith)
]
