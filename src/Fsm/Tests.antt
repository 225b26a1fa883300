-- ===== src/Fsm/Tests.antt =====
-- A door that opens when the world's number is not 0; its action counts, its callback notes the state.
use libmcu.Base.{ℕ, ◌+◌, ◌*◌, ◌≡◌, ◌≢◌, ◌⊎◌, not, none, some, [], ◌∷◌, ◌==◌}
use libmcu.Fsm.{Fsm, run_action, fsm_step}
use libmcu.Fsm.Step.{Steps, fsm_step_lem}

abbrev door : Fsm ℕ
door = record {
  present = 1;
  items =
      record { present = 0; next = 1; event = none; action = none }
      ∷ record {
        present = 1;
        next = 2;
        event = some (λ s n w. (not (w == 0), w));
        action = some (λ s n w. w + 10);
      }
      ∷ [];
  cb = some (λ new_state prev_state w. w + 100 * new_state);
}

fsm_step_lem_example :
    let ((s, fsm'), u) = fsm_step door 3 in
    (fsm' ≡ record door { present = s })
    × ((v : ℕ) × Steps door.items 1 3 s v
        × ((s ≡ 1) × (u ≡ v) ⊎ (s ≢ 1) × (u ≡ run_action door.cb s 1 v)))
fsm_step_lem_example = fsm_step_lem door 3
