-- ===== src/Runner.antt =====
-- modules/runner/src/runner.c: which of the application's runners is the current one.
-- `W` is what the application's functions act on; the context pointers are part of it. A current
-- runner of `none` is the NULL from before `runner_start`; to read through it is `undefined`. Of
-- `struct runner_api` there are the two functions that this file calls.
pub mod Change
mod Tests
use libmcu.Base.{
  ℕ, zero, suc, Bool, true, false, not, ◌&&◌, ◌||◌, Option, none, some, List, [], ◌∷◌, length, ltb,
  ◌==◌, if◌then◌else◌, errno, Outcome, done, undefined,
}

abbrev pub runner_max : ℕ
runner_max = 8

abbrev pub ebadf : ℕ
ebadf = errno 9

abbrev pub efault : ℕ
efault = errno 14

abbrev pub einval : ℕ
einval = errno 22

abbrev pub ealready : ℕ
ealready = errno 114

pub record Runner (W : Type 0) : Type 0 where
  pub type : ℕ
  pub prepare : Option (W → ℕ × W)
  pub terminate : Option (W → W)

pub record Manager (W : Type 0) : Type 0 where
  pub runners : List (Runner W)
  pub pre_change_cb : Option (ℕ → W → Bool × W)
  pub post_change_cb : Option (ℕ → W → W)
  pub current : Option (Runner W)

-- The inner loop of `runner_init`, over the types seen.
pub is_seen : List ℕ → ℕ → Bool
is_seen [] t = false
is_seen (s ∷ ss) t = s == t || is_seen ss t

module _ {W : Type 0} where
  abbrev pub default_runner : Runner W
  default_runner = record { type = 255; prepare = none; terminate = none }

  pub find_runner_by_type : List (Runner W) → ℕ → Runner W
  find_runner_by_type [] runner_type = default_runner
  find_runner_by_type (r ∷ rs) runner_type =
      let rest = find_runner_by_type rs runner_type in if r.type == runner_type then r else rest

  pub run_pre : Option (ℕ → W → Bool × W) → ℕ → W → Bool × W
  run_pre none t w = (true, w)
  run_pre (some f) t w = f t w

  pub run_post : Option (ℕ → W → W) → ℕ → W → W
  run_post none t w = w
  run_post (some f) t w = f t w

  pub run_prepare : Option (W → ℕ × W) → W → ℕ × W
  run_prepare none w = (0, w)
  run_prepare (some f) w = f w

  pub run_terminate : Option (W → W) → W → W
  run_terminate none w = w
  run_terminate (some f) w = f w

  -- `change_current` from the old runner to the new one, once they differ and the callback agreed.
  pub switch : Manager W → Runner W → Runner W → ℕ → Bool → W → (ℕ × Manager W) × W
  switch m old_runner new_runner new_runner_type bypass w =
      let w1 = if not bypass then run_terminate old_runner.terminate w else w in
      let (rc, w2) = if not bypass then run_prepare new_runner.prepare w1 else (0, w1) in
      ((rc, record m { current = some new_runner }), run_post m.post_change_cb new_runner_type w2)

  -- With a current runner. No type has a NULL runner: an unknown one has the default runner.
  pub change_from : Manager W → Runner W → ℕ → Bool → W → (ℕ × Manager W) × W
  change_from m old_runner new_runner_type bypass w =
      let (agreed, w1) = run_pre m.pre_change_cb new_runner_type w in
      if new_runner_type == old_runner.type
      then ((ealready, m), w)
      else if not agreed
      then ((efault, m), w1)
      else switch m old_runner (find_runner_by_type m.runners new_runner_type) new_runner_type
          bypass w1

  pub change_current : Manager W → ℕ → Bool → W → Outcome ((ℕ × Manager W) × W)
  change_current m new_runner_type bypass w = elim m.current [
    | none ↦ undefined
    | some old_runner ↦ done (change_from m old_runner new_runner_type bypass w)
  ]

  pub runner_current_type : Manager W → Outcome ℕ
  runner_current_type m = elim m.current [ none ↦ undefined | some r ↦ done r.type ]

  pub runner_change : Manager W → ℕ → W → Outcome ((ℕ × Manager W) × W)
  runner_change m new_runner_type w = change_current m new_runner_type false w

  pub runner_change_bypass : Manager W → ℕ → W → Outcome ((ℕ × Manager W) × W)
  runner_change_bypass m new_runner_type w = change_current m new_runner_type true w

  pub runner_start : Manager W → ℕ → W → Manager W × W
  runner_start m runner_type w =
      let r = find_runner_by_type m.runners runner_type in
      let (rc, w1) = run_prepare r.prepare w in
      (record m { current = some r }, run_post m.post_change_cb runner_type w1)

  pub runner_register_change_cb :
      Manager W → Option (ℕ → W → Bool × W) → Option (ℕ → W → W) → ℕ × Manager W
  runner_register_change_cb m pre_cb post_cb =
      (0, record m { pre_change_cb = pre_cb; post_change_cb = post_cb })

  -- The outer loop of `runner_init`: whether a type comes back.
  pub has_duplicate : List ℕ → List (Runner W) → Bool
  has_duplicate seen [] = false
  has_duplicate seen (r ∷ rs) =
      let rest = has_duplicate (r.type ∷ seen) rs in is_seen seen r.type || rest

  -- `none` for the runners is NULL.
  pub runner_init : Manager W → Option (List (Runner W)) → ℕ × Manager W
  runner_init m none = (einval, m)
  runner_init m (some runners) =
      if length runners == 0 || ltb runner_max (length runners)
      then (einval, m)
      else if has_duplicate [] runners
      then (ebadf, m)
      else (0, record m { runners = runners })
