-- ===== src/Runner/Tests.antt =====
-- Two runners, of which the first is the current one; a change counts in the world's number.
use libmcu.Base.{ℕ, ◌+◌, ◌≡◌, ◌≢◌, ◌⊎◌, refl, true, false, none, some, [], ◌∷◌, if◌then◌else◌, done}
use libmcu.Runner.{Runner, Manager, ealready, efault, change_current}
use libmcu.Runner.Change.{is_known, IsRunnerOf, asked, changed, change_current_lem}

abbrev first : Runner ℕ
first = record { type = 1; prepare = none; terminate = some (λ w. w + 1) }

abbrev second : Runner ℕ
second = record { type = 2; prepare = some (λ w. (0, w + 10)); terminate = none }

abbrev wanted : ℕ
wanted = 2

abbrev manager : Manager ℕ
manager = record {
  runners = first ∷ second ∷ [];
  pre_change_cb = some (λ t w. (true, w + 100));
  post_change_cb = none;
  current = some first;
}

change_current_lem_example :
    (out : (ℕ × Manager ℕ) × ℕ) × (change_current manager wanted false 0 ≡ done out)
    × ((wanted ≡ 1) × (out.0.0 ≡ ealready) × (out.0.1 ≡ manager) × (out.1 ≡ 0)
        ⊎ (wanted ≢ 1)
          × ((asked manager.pre_change_cb wanted 0).0 ≡ false)
          × (out.0.0 ≡ efault)
          × (out.0.1 ≡ manager)
          × (out.1 ≡ 100)
        ⊎ (wanted ≢ 1)
          × ((asked manager.pre_change_cb wanted 0).0 ≡ true)
          × ((new : Runner ℕ) × IsRunnerOf manager.runners wanted new
              × (out.0.1 ≡ record manager { current = some new })
              × (new.type ≡ (if is_known wanted manager.runners then wanted else 255))
              × ((out.0.0, out.1) ≡ changed manager.post_change_cb first new wanted false 100)))
change_current_lem_example = change_current_lem manager first wanted false 0 refl
