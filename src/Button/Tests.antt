-- ===== src/Button/Tests.antt =====
-- A button with the default parameters (a debounce count of 3) that has seen two samples.
use libmcu.Base.{ℕ, ◌≤◌, ◌≡◌, refl, Bool, true, false, not, ◌&&◌, List, [], ◌∷◌, leb, arith}
use libmcu.Button.{
  Button, ButtonParam, unknown, default_param, get_debounce_count, is_button_down, is_button_up,
  is_button_pressed, is_button_released,
}
use libmcu.Button.Waveform.{wave, all_high, all_low, debounce_lem}
use libmcu.Button.Events.{alternates, reported, reported-alternates}

abbrev samples : List Bool
samples = true ∷ true ∷ true ∷ false ∷ []

abbrev button : Button
button = record {
  waveform = wave samples;
  time_pressed = 0;
  time_released = 0;
  time_repeat = 0;
  clicks = 0;
  repeats = 0;
  param = default_param;
  timestamp = 1000;
  state = unknown;
  active = true;
  pressed = false;
}

-- The level is HIGH from the third sample on.
abbrev levels : ℕ → Bool
levels i = leb 2 i

count : get_debounce_count default_param ≤ 30
unfolding get_debounce_count
count = omega arith

debounce_lem_example :
    let n = get_debounce_count default_param in
    (is_button_down button ≡ all_high n samples)
    × (is_button_up button ≡ all_low n samples)
    × (is_button_pressed button ≡ not false && all_high n samples)
    × (is_button_released button ≡ false && all_low n samples)
debounce_lem_example = debounce_lem button samples refl count

abbrev slow : ButtonParam
slow = record default_param { sampling_period_ms = 20; sampling_timeout_ms = 0 }

reported-alternates_example :
    alternates false (reported button ((levels, 1060) ∷ (levels, 1400) ∷ (levels, 1605) ∷ []))
    ≡ true
reported-alternates_example =
    reported-alternates ((levels, 1060) ∷ (levels, 1400) ∷ (levels, 1605) ∷ []) button
