-- ===== src/Button/Pool.antt =====
-- modules/button/src/button.c: the static pool that `button_new` takes its buttons from.
use libmcu.Base.{
  ℕ, zero, suc, Bool, true, false, not, Option, none, some, List, [], ◌∷◌, if◌then◌else◌,
}
use libmcu.Button.{Button, unknown, default_param}

abbrev pub zero_button : Button
zero_button = record {
  waveform = 0;
  time_pressed = 0;
  time_released = 0;
  time_repeat = 0;
  clicks = 0;
  repeats = 0;
  param = record {
    sampling_period_ms = 0;
    debounce_duration_ms = 0;
    repeat_delay_ms = 0;
    repeat_rate_ms = 0;
    click_window_ms = 0;
    sampling_timeout_ms = 0;
  };
  timestamp = 0;
  state = unknown;
  active = false;
  pressed = false;
}

-- A slot of the static `btns`, with its `allocated` flag.
pub record Slot : Type 0 where
  pub allocated : Bool
  pub button : Button

-- The place of the first slot that is free, which is taken.
unfoldable pub new_button : List Slot → Option ℕ × List Slot
new_button [] = (none, [])
new_button (p ∷ ps) =
    let (found, ps') = new_button ps in
    if not p.allocated
    then (some 0, record p { allocated = true } ∷ ps)
    else (elim found [ none ↦ none | some i ↦ some (suc i) ], p ∷ ps')

unfoldable pub free_button : List Slot → ℕ → List Slot
free_button [] i = []
free_button (p ∷ ps) zero = record { allocated = false; button = zero_button } ∷ ps
free_button (p ∷ ps) (suc i) = p ∷ free_button ps i

-- `get_default_param(&btn->param)` of the slot at `i`.
unfoldable pub set_default_param : List Slot → ℕ → List Slot
set_default_param [] i = []
set_default_param (p ∷ ps) zero =
    record p { button = record p.button { param = default_param } } ∷ ps
set_default_param (p ∷ ps) (suc i) = p ∷ set_default_param ps i

-- `has_get` says that `f_get` is not NULL; the result is the place in the pool.
unfoldable pub button_new : List Slot → Bool → Option ℕ × List Slot
button_new btns has_get =
    let (found, btns') = new_button btns in
    if not has_get
    then (none, btns)
    else (found, elim found [ none ↦ btns' | some i ↦ set_default_param btns' i ])

unfoldable pub button_delete : List Slot → ℕ → List Slot
button_delete btns i = free_button btns i
