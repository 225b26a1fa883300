-- ===== src/Runner/Change.antt =====
-- Which runner is the current one after a change.
use libmcu.Base.{
  ◌∙◌, ap₂, Option, none, ℕ, ◌≡◌, ◌≢◌, refl, ap, Bool, true, false, ◌||◌, ◌⊎◌, inl, inr, some, List,
  [], ◌∷◌, ◌==◌, if◌then◌else◌, Bool-cases, ==_iff, ==_ne, done,
}
use native.Mathlib.Decide.{ℕ_discrete}
use libmcu.Runner.{
  default_runner, run_post, run_prepare, run_terminate, Runner, Manager, ealready, efault,
  find_runner_by_type, run_pre, switch, change_from, change_current,
}

module _ {W : Type 0} where
  -- A runner of the type stands in the table.
  abbrev pub is_known : ℕ → List (Runner W) → Bool
  is_known t [] = false
  is_known t (r ∷ rs) = r.type == t || is_known t rs

  find_type :
      (rs : List (Runner W)) (t : ℕ)
      → (find_runner_by_type rs t).type ≡ (if is_known t rs then t else 255)
  unfolding find_runner_by_type
  find_type [] t = refl
  find_type (r ∷ rs) t = elim (ℕ_discrete r.type t) [
    | yes p ↦ rw ((==_iff r.type t).1 p) p
    | no p ↦ rw (==_ne r.type t p) (find_type rs t)
  ]

  -- The runner that the table has for a type: one of it that has the type, or the default runner.
  abbrev pub IsRunnerOf : List (Runner W) → ℕ → Runner W → Type 0
  IsRunnerOf [] t r = r ≡ default_runner
  IsRunnerOf (x ∷ rs) t r = if x.type == t then r ≡ x else IsRunnerOf rs t r

  find-IsRunnerOf : (rs : List (Runner W)) (t : ℕ) → IsRunnerOf rs t (find_runner_by_type rs t)
  unfolding find_runner_by_type
  find-IsRunnerOf [] t = refl
  find-IsRunnerOf (x ∷ rs) t =
      by_type (x.type == t) (find_runner_by_type rs t) (find-IsRunnerOf rs t)
    where
      by_type :
          (b : Bool) (r : Runner W)
          → IsRunnerOf rs t r
          → if b then (if b then x else r) ≡ x else IsRunnerOf rs t (if b then x else r)
      by_type true r h = refl
      by_type false r h = h

  -- What the callback says of a change, and what it leaves; true where there is none.
  abbrev pub asked : Option (ℕ → W → Bool × W) → ℕ → W → Bool × W
  asked none t w = (true, w)
  asked (some f) t w = f t w

  -- The result and the effect of a change that is agreed to: the old runner ends, the new one is
  -- prepared, both not with `bypass`, and the callback behind the change is told.
  abbrev pub changed : Option (ℕ → W → W) → Runner W → Runner W → ℕ → Bool → W → ℕ × W
  changed post old new t bypass w =
      let told : W → W = λ w. elim post [ none ↦ w | some f ↦ f t w ] in
      let ended : W = elim old.terminate [ none ↦ w | some f ↦ f w ] in
      let prepared : ℕ × W = elim new.prepare [ none ↦ (0, ended) | some f ↦ f ended ] in
      if bypass then (0, told w) else (prepared.0, told prepared.1)

  asked_lem : (cb : Option (ℕ → W → Bool × W)) (t : ℕ) (w : W) → run_pre cb t w ≡ asked cb t w
  unfolding run_pre
  asked_lem none t w = refl
  asked_lem (some f) t w = refl

  told_lem :
      (post : Option (ℕ → W → W)) (t : ℕ) (w : W)
      → run_post post t w ≡ elim post [ none ↦ w | some f ↦ f t w ]
  unfolding run_post
  told_lem none t w = refl
  told_lem (some f) t w = refl

  ended_lem :
      (stop : Option (W → W)) (w : W) → run_terminate stop w ≡ elim stop [ none ↦ w | some f ↦ f w ]
  unfolding run_terminate
  ended_lem none w = refl
  ended_lem (some f) w = refl

  prepared_lem :
      (start : Option (W → ℕ × W)) (w : W)
      → run_prepare start w ≡ elim start [ none ↦ (0, w) | some f ↦ f w ]
  unfolding run_prepare
  prepared_lem none w = refl
  prepared_lem (some f) w = refl

  switch_lem :
      (m : Manager W) (old new : Runner W) (t : ℕ) (bypass : Bool) (w : W)
      → let out = switch m old new t bypass w in
        (out.0.0, out.1) ≡ changed m.post_change_cb old new t bypass w
  unfolding switch
  switch_lem m old new t true w = rw (told_lem m.post_change_cb t w) refl
  switch_lem m old new t false w =
      let ended : W = elim old.terminate [ none ↦ w | some f ↦ f w ] in
      let prepared : ℕ × W = elim new.prepare [ none ↦ (0, ended) | some f ↦ f ended ] in
      ap₂ (λ a b. (a, b))
        (ap (λ x. (run_prepare new.prepare x).0) (ended_lem old.terminate w)
          ∙ ap (λ x. x.0) (prepared_lem new.prepare ended))
        (ap (λ x. run_post m.post_change_cb t (run_prepare new.prepare x).1)
            (ended_lem old.terminate w)
          ∙ ap (λ x. run_post m.post_change_cb t x.1) (prepared_lem new.prepare ended)
          ∙ told_lem m.post_change_cb t prepared.1)

  change_from_lem :
      (m : Manager W) (old : Runner W) (t : ℕ) (bypass : Bool) (w : W)
      → let out = change_from m old t bypass w in
        (t ≡ old.type) × (out.0.0 ≡ ealready) × (out.0.1 ≡ m) × (out.1 ≡ w)
        ⊎ (t ≢ old.type)
          × ((asked m.pre_change_cb t w).0 ≡ false)
          × (out.0.0 ≡ efault)
          × (out.0.1 ≡ m)
          × (out.1 ≡ (asked m.pre_change_cb t w).1)
        ⊎ (t ≢ old.type)
          × ((asked m.pre_change_cb t w).0 ≡ true)
          × ((new : Runner W) × IsRunnerOf m.runners t new
              × (out.0.1 ≡ record m { current = some new })
              × (new.type ≡ (if is_known t m.runners then t else 255))
              × ((out.0.0, out.1)
                  ≡ changed m.post_change_cb old new t bypass (asked m.pre_change_cb t w).1))
  unfolding change_from switch
  change_from_lem m old t bypass w =
      rw (asked_lem m.pre_change_cb t w) (elim (ℕ_discrete t old.type) [
        | yes p ↦ rw ((==_iff t old.type).1 p) (inl (p, refl, refl, refl))
        | no p ↦ rw (==_ne t old.type p) (elim (Bool-cases (asked m.pre_change_cb t w).0) [
          | inl agreed ↦ rw agreed (
              inr (
                inr (
                  p,
                  refl,
                  (
                    find_runner_by_type m.runners t,
                    find-IsRunnerOf m.runners t,
                    refl,
                    find_type m.runners t,
                    switch_lem m old (find_runner_by_type m.runners t) t bypass
                        (asked m.pre_change_cb t w).1,
                  ),
                )))
          | inr refused ↦ rw refused (inr (inl (p, refl, refl, refl, refl)))
        ])
      ])

  -- With a current runner a change has an outcome. The type that runs already is refused with no
  -- call made. Otherwise the callback before the change is asked, with `bypass` too; if it refuses,
  -- the runner stays. If it agrees, the current runner becomes the one of that type, or the default
  -- runner (type 255) for an unknown type: without `bypass` the old runner ends, the new one is
  -- prepared, and what that gives is the result; with it both are left out and the result is 0. The
  -- callback behind the change is told last, with `bypass` too.
  pub change_current_lem :
      (m : Manager W) (old : Runner W) (t : ℕ) (bypass : Bool) (w : W)
      → m.current ≡ some old
      → ((out : (ℕ × Manager W) × W) × (change_current m t bypass w ≡ done out)
          × ((t ≡ old.type) × (out.0.0 ≡ ealready) × (out.0.1 ≡ m) × (out.1 ≡ w)
              ⊎ (t ≢ old.type)
                × ((asked m.pre_change_cb t w).0 ≡ false)
                × (out.0.0 ≡ efault)
                × (out.0.1 ≡ m)
                × (out.1 ≡ (asked m.pre_change_cb t w).1)
              ⊎ (t ≢ old.type)
                × ((asked m.pre_change_cb t w).0 ≡ true)
                × ((new : Runner W) × IsRunnerOf m.runners t new
                    × (out.0.1 ≡ record m { current = some new })
                    × (new.type ≡ (if is_known t m.runners then t else 255))
                    × ((out.0.0, out.1)
                        ≡ changed m.post_change_cb old new t bypass
                            (asked m.pre_change_cb t w).1))))
  unfolding change_current
  change_current_lem m old t bypass w started =
      (change_from m old t bypass w, rw started refl, change_from_lem m old t bypass w)
