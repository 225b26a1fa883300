-- ===== src/Retry/Backoff.antt =====
-- What `retry_backoff` gives, call after call.
use libmcu.Base.{
  true, false, ℕ, zero, suc, ◌-◌, ◌*◌, ◌^◌, ◌≤◌, ◌<◌, min, ◌≡◌, refl, ap, ◌∙◌, Option, none, some,
  List, [], ◌∷◌, length, ◌==◌, if◌then◌else◌, Bool-cases, ==_ne, le→leb, lt→leb, le→ltb, inl, inr,
  ◌⊎◌, arith,
}
use native.Mathlib.Decide.{dec_lt}
use native.Mathlib.Nat.{mod-lt, pow-suc, one-le-pow, mul-pos}
use libmcu.Retry.{
  Retry, RetryParam, RetryError, no_error, exhausted, get_jitter, init, is_exhausted,
  calc_backoff_time, update, backoff,
}

-- What `init` sets up and `retry_backoff` keeps, for a jitter that is not above the largest backoff.
pub record IsValid (r : Retry) : Type 0 where
  pub limit : r.param.max_backoff_ms < 2 ^ 32
  pub order : r.param.min_backoff_ms ≤ r.param.max_backoff_ms
  pub jitter : r.param.max_jitter_ms ≤ r.param.max_backoff_ms
  pub bounded : r.previous_backoff_ms ≤ r.param.max_backoff_ms

get_jitter-le : (m j : ℕ) → get_jitter m j ≤ m
unfolding get_jitter
get_jitter-le zero j = refl_le
  where
    refl_le : 0 ≤ 0
    refl_le = omega arith
get_jitter-le (suc m) j = ground (arith, mod-lt j {m = suc m} (omega arith))

-- `retry_new_static` sets up a valid state from 16-bit and 32-bit parameters.
pub init-IsValid :
    (p : RetryParam)
    → p.min_backoff_ms < 2 ^ 16
    → p.max_backoff_ms < 2 ^ 32
    → p.max_jitter_ms ≤ p.max_backoff_ms
    → IsValid (init p)
unfolding init
init-IsValid p h k l = ground arith

calc_backoff_time-le :
    {r : Retry} (j : ℕ) → IsValid r → calc_backoff_time r j ≤ r.param.max_backoff_ms
unfolding calc_backoff_time
calc_backoff_time-le {r} j v = ground (arith, get_jitter-le r.param.max_jitter_ms j)

is_exhausted_lem :
    (r : Retry)
    → is_exhausted r ≡ true
    → (0 < r.param.max_attempts) × (r.param.max_attempts ≤ r.attempts)
unfolding is_exhausted
is_exhausted_lem r h = ground (arith, h)

not_exhausted :
    (r : Retry)
    → is_exhausted r ≡ false
    → (r.param.max_attempts ≡ 0) ⊎ (r.attempts < r.param.max_attempts)
unfolding is_exhausted
not_exhausted r h = ground (arith, h)

-- While there is no limit on the attempts, or some are left, a valid state gives a backoff of at most
-- the maximum and stays valid, whatever the random jitter; a state whose attempts are used up gives
-- none and does not change.
pub backoff-IsValid :
    {r : Retry} (j : ℕ)
    → IsValid r
    → let ((e, t), r') = backoff r j in
      ((r.param.max_attempts ≡ 0) ⊎ (r.attempts < r.param.max_attempts))
        × (e ≡ no_error)
        × (t ≡ some r'.previous_backoff_ms)
        × (r'.previous_backoff_ms ≤ r.param.max_backoff_ms)
        × IsValid r'
      ⊎ (0 < r.param.max_attempts)
        × (r.param.max_attempts ≤ r.attempts)
        × (e ≡ exhausted)
        × (t ≡ none)
        × (r' ≡ r)
unfolding backoff update
backoff-IsValid {r} j v = elim (Bool-cases (is_exhausted r)) [
  | inl done_ ↦
      rw done_ (inr ((is_exhausted_lem r done_).0, (is_exhausted_lem r done_).1, refl, refl, refl))
  | inr more ↦ rw more (
      inl (
        not_exhausted r more,
        refl,
        refl,
        calc_backoff_time-le j v,
        record {
          limit = v.limit;
          order = v.order;
          jitter = v.jitter;
          bounded = calc_backoff_time-le j v;
        },
      ))
]

-- How many of the calls with these jitters are given a backoff.
pub granted : Retry → List ℕ → ℕ
granted r [] = 0
granted r (j ∷ js) =
    let ((e, t), r') = backoff r j in
    let rest = granted r' js in elim t [ none ↦ rest | some x ↦ suc rest ]

backoff_used_up :
    (r : Retry) (j : ℕ)
    → 0 < r.param.max_attempts
    → r.param.max_attempts ≤ r.attempts
    → backoff r j ≡ ((exhausted, none), r)
unfolding backoff is_exhausted
backoff_used_up r j h k = rw (
  ==_ne r.param.max_attempts 0 (λ e. absurd (omega arith)),
  le→leb r.param.max_attempts r.attempts k,
)

backoff_left :
    (r : Retry) (j : ℕ)
    → r.attempts < r.param.max_attempts
    → backoff r j ≡ ((no_error, some (update r j).0), (update r j).1)
unfolding backoff is_exhausted
backoff_left r j h = rw (
  ==_ne r.param.max_attempts 0 (λ e. absurd (omega arith)),
  lt→leb r.param.max_attempts r.attempts h,
)

granted_step :
    (r r' : Retry) {e : RetryError} {t : Option ℕ} (j : ℕ) (js : List ℕ)
    → backoff r j ≡ ((e, t), r')
    → granted r (j ∷ js) ≡ elim t [ none ↦ granted r' js | some x ↦ suc (granted r' js) ]
unfolding granted
granted_step r r' j js same =
    ap
      (λ out. elim out.0.1 as (λ t. ℕ) [
        | none ↦ granted out.1 js
        | some x ↦ suc (granted out.1 js)
      ])
      same

-- With a limit on the attempts, exactly those left of it are granted, however often it is asked.
pub granted_lem :
    (js : List ℕ) (r : Retry)
    → 0 < r.param.max_attempts
    → r.param.max_attempts < 2 ^ 16
    → r.attempts ≤ r.param.max_attempts
    → granted r js ≡ min (length js) (r.param.max_attempts - r.attempts)
granted_lem [] r h k l = unfold granted in omega arith
granted_lem (j ∷ js) r h k l = elim (dec_lt r.attempts r.param.max_attempts) [
  | yes p ↦
      granted_step r _ j js (backoff_left r j p)
      ∙ granted_left r j js p k
          (granted_lem js (update r j).1 (left_limit r j h) (left_small r j k) (left_bound r j p k))
  | no p ↦
      granted_step r _ j js (backoff_used_up r j h (omega arith))
      ∙ granted_lem js r h k l
      ∙ omega arith
]
  where
    left_limit :
        (r : Retry) (j : ℕ) → 0 < r.param.max_attempts → 0 < (update r j).1.param.max_attempts
    left_limit r j h = unfold update in h

    left_small :
        (r : Retry) (j : ℕ)
        → r.param.max_attempts < 2 ^ 16
        → (update r j).1.param.max_attempts < 2 ^ 16
    left_small r j h = unfold update in h

    left_bound :
        (r : Retry) (j : ℕ)
        → r.attempts < r.param.max_attempts
        → r.param.max_attempts < 2 ^ 16
        → (update r j).1.attempts ≤ (update r j).1.param.max_attempts
    left_bound r j p k = unfold update in omega arith

    granted_left :
        (r : Retry) (j : ℕ) (js : List ℕ)
        → r.attempts < r.param.max_attempts
        → r.param.max_attempts < 2 ^ 16
        → granted (update r j).1 js
          ≡ min (length js) ((update r j).1.param.max_attempts - (update r j).1.attempts)
        → suc (granted (update r j).1 js)
          ≡ min (length (j ∷ js)) (r.param.max_attempts - r.attempts)
    granted_left r j js p k ih = ap suc ih ∙ (unfold update in omega arith)

-- The state after `n` calls with no jitter.
pub repeated : Retry → ℕ → Retry
repeated r zero = r
repeated r (suc n) = (backoff (repeated r n) 0).1

-- One call with no limit and no jitter: the minimum first, then the double up to the maximum.
plain_step :
    (r : Retry)
    → r.param.max_attempts ≡ 0
    → r.param.max_jitter_ms ≡ 0
    → r.param.min_backoff_ms < 2 ^ 32
    → r.param.min_backoff_ms ≤ r.param.max_backoff_ms
    → r.param.max_backoff_ms < 2 ^ 31
    → r.previous_backoff_ms ≤ r.param.max_backoff_ms
    → (backoff r 0).1.previous_backoff_ms ≡ (
        if r.previous_backoff_ms == 0
        then r.param.min_backoff_ms
        else min (r.previous_backoff_ms * 2) r.param.max_backoff_ms)
unfolding backoff update calc_backoff_time get_jitter is_exhausted
plain_step r a j small order hi bound = ground arith

param-repeated : (n : ℕ) (r : Retry) → (repeated r n).param ≡ r.param
unfolding repeated
param-repeated zero r = refl
param-repeated (suc n) r = param-backoff (repeated r n) ∙ param-repeated n r
  where
    param-backoff : (r : Retry) → (backoff r 0).1.param ≡ r.param
    param-backoff r = unfold backoff update in ground arith

init-param : (p : RetryParam) → p.min_backoff_ms ≤ p.max_backoff_ms → (init p).param ≡ p
unfolding init
init-param p order = rw (le→ltb p.max_backoff_ms p.min_backoff_ms order)

doubled :
    (x m lo : ℕ)
    → 0 < x
    → 0 < m
    → (if min x m == 0 then lo else min (min x m * 2) m) ≡ min (2 * x) m
doubled x m lo h k = ground arith

module _ (p : RetryParam) (a : p.max_attempts ≡ 0) (j : p.max_jitter_ms ≡ 0)
    (lo : 0 < p.min_backoff_ms) (order : p.min_backoff_ms ≤ p.max_backoff_ms)
    (hi : p.max_backoff_ms < 2 ^ 31) where
  step_from :
      (r : Retry)
      → r.param ≡ p
      → r.previous_backoff_ms ≤ p.max_backoff_ms
      → (backoff r 0).1.previous_backoff_ms ≡ (
          if r.previous_backoff_ms == 0
          then p.min_backoff_ms
          else min (r.previous_backoff_ms * 2) p.max_backoff_ms)
  step_from r e bound =
      plain_step r (ap (λ q. q.max_attempts) e ∙ a) (ap (λ q. q.max_jitter_ms) e ∙ j)
        (rw e (omega arith)) (rw e order) (rw e hi) (rw e bound)
      ∙ ap
          (λ q.
            if r.previous_backoff_ms == 0
            then q.min_backoff_ms
            else min (r.previous_backoff_ms * 2) q.max_backoff_ms)
          e

  -- With no limit on the attempts and no jitter, the backoff doubles from the minimum up to the
  -- maximum: the call after `n` others gives `min (min_backoff * 2 ^ n) max_backoff`.
  repeated_lem :
      (n : ℕ)
      → (repeated (init p) (suc n)).previous_backoff_ms
        ≡ min (p.min_backoff_ms * 2 ^ n) p.max_backoff_ms
  unfolding repeated
  repeated_lem zero =
      step_from (init p) (init-param p order) (unfold init in omega arith)
      ∙ unfold init in omega arith
  repeated_lem (suc n) =
      step_from (repeated (init p) (suc n)) (param-repeated (suc n) (init p) ∙ init-param p order)
        (omega (arith, repeated_lem n))
      ∙ ap (λ t. if t == 0 then p.min_backoff_ms else min (t * 2) p.max_backoff_ms) (repeated_lem n)
      ∙ doubled (p.min_backoff_ms * 2 ^ n) p.max_backoff_ms p.min_backoff_ms
          (mul-pos lo (one-le-pow n 2 (omega arith))) (omega arith)
      ∙ ap (λ t. min t p.max_backoff_ms)
          (omega (arith, ap (λ t. p.min_backoff_ms * t) (pow-suc 2 n)))
