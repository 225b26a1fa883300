-- ===== src/Button.antt =====
-- modules/button/src/button.c: debouncing, clicks and repeats, from samples of the button's level.
-- The application's `get_state` is an argument: `levels i` is what its i-th call in a step returns.
-- Its `callback` is the event that a step yields. The masks shift by at most 31 for parameters
-- that `button_set_param` accepts (Button/Param).
pub mod Waveform
pub mod Param
pub mod Events
pub mod Pool
mod Tests
use libmcu.Base.{
  ℕ, zero, suc, ◌+◌, ◌-◌, ◌*◌, ◌/◌, ◌%◌, ◌^◌, bit_and, bit_or, Bool, true, false, not, ◌&&◌, ◌||◌,
  Option, none, some, List, [], ◌∷◌, ltb, leb, ◌==◌, if◌then◌else◌, u16, u32, sub32,
}

pub data ButtonState : Type 0 where
  unknown pressed_state released holding : ButtonState

pub data ButtonError : Type 0 where
  no_error invalid_param incorrect_param disabled : ButtonError

pub record ButtonParam : Type 0 where
  pub sampling_period_ms : ℕ
  pub debounce_duration_ms : ℕ
  pub repeat_delay_ms : ℕ
  pub repeat_rate_ms : ℕ
  pub click_window_ms : ℕ
  pub sampling_timeout_ms : ℕ

-- `struct button` with its `struct button_data`.
pub record Button : Type 0 where
  pub waveform : ℕ
  pub time_pressed : ℕ
  pub time_released : ℕ
  pub time_repeat : ℕ
  pub clicks : ℕ
  pub repeats : ℕ
  pub param : ButtonParam
  pub timestamp : ℕ
  pub state : ButtonState
  pub active : Bool
  pub pressed : Bool

abbrev pub default_param : ButtonParam
default_param = record {
  sampling_period_ms = 10;
  debounce_duration_ms = 20;
  repeat_delay_ms = 300;
  repeat_rate_ms = 200;
  click_window_ms = 500;
  sampling_timeout_ms = 1000;
}

unfoldable pub get_debounce_count : ButtonParam → ℕ
get_debounce_count p = u16 (p.debounce_duration_ms / p.sampling_period_ms + 1)

unfoldable pub get_debounce_bitstream : Button → ℕ
get_debounce_bitstream b = 2 ^ get_debounce_count b.param

unfoldable pub get_debounce_mask : Button → ℕ
get_debounce_mask b = 2 ^ get_debounce_count b.param - 1

-- C leaves the shift undefined at a debounce count of 31 or more; what is proved of the value asks
-- for at most 30.
unfoldable pub get_waveform_mask : Button → ℕ
get_waveform_mask b = 2 ^ suc (get_debounce_count b.param) - 1

unfoldable pub get_waveform : Button → ℕ
get_waveform b = bit_and b.waveform (get_waveform_mask b)

abbrev pub bit_of : Bool → ℕ
bit_of true = 1
bit_of false = 0

unfoldable pub update_waveform : ℕ → Bool → ℕ
update_waveform waveform level = bit_or (u32 (2 * waveform)) (bit_of level)

unfoldable pub is_param_ok : ButtonParam → ℕ → Bool
is_param_ok p debounce_count =
    not (p.sampling_period_ms == 0)
    && not (
        ltb p.sampling_timeout_ms p.debounce_duration_ms
        || ltb p.sampling_timeout_ms p.repeat_delay_ms
        || ltb p.sampling_timeout_ms p.repeat_rate_ms
        || ltb p.sampling_timeout_ms p.click_window_ms)
    && not (leb 30 debounce_count)

unfoldable pub is_button_pressed : Button → Bool
is_button_pressed b =
    not b.pressed && (bit_and (get_waveform b) (get_debounce_mask b) == get_debounce_mask b)

unfoldable pub is_button_released : Button → Bool
is_button_released b =
    b.pressed && (get_waveform b == get_debounce_bitstream b || get_waveform b == 0)

unfoldable pub is_button_up : Button → Bool
is_button_up b = bit_and (get_waveform b) (get_debounce_mask b) == 0

unfoldable pub is_button_down : Button → Bool
is_button_down b = bit_and (get_waveform b) (get_debounce_mask b) == get_debounce_mask b

unfoldable pub is_click_window_closed : Button → ℕ → Bool
is_click_window_closed b time_ms =
    if b.param.click_window_ms == 0 || b.clicks == 0
    then true
    else leb b.param.click_window_ms (sub32 time_ms b.time_released)

-- The loop of `update_state`, at its i-th sample, with `left` to come.
pub update_waveforms : (ℕ → Bool) → ℕ → ℕ → ℕ → ℕ
update_waveforms levels zero i waveform = waveform
update_waveforms levels (suc left) i waveform =
    update_waveforms levels left (suc i) (update_waveform waveform (levels i))

unfoldable pub update_state : Button → (ℕ → Bool) → ℕ → Button
update_state b levels pulses = record b { waveform = update_waveforms levels pulses 0 b.waveform }

unfoldable pub process_pressed : Button → ℕ → Button
process_pressed b time_ms = record b {
  time_pressed = time_ms;
  time_repeat = 0;
  repeats = 0;
  clicks = u16 (b.clicks + 1);
  pressed = true;
}

unfoldable pub process_released : Button → ℕ → Button
process_released b time_ms = record b { time_released = time_ms; pressed = false }

-- `state_updated` of `process_holding`.
unfoldable pub holding_due : Button → ℕ → Bool
holding_due b time_ms =
    if b.param.repeat_delay_ms == 0
    then false
    else if not (b.time_repeat == 0)
    then not (b.param.repeat_rate_ms == 0)
      && leb b.param.repeat_rate_ms (sub32 time_ms b.time_repeat)
    else leb b.param.repeat_delay_ms (sub32 time_ms b.time_pressed)

unfoldable pub process_holding : Button → ℕ → Bool × Button
process_holding b time_ms =
    if holding_due b time_ms
    then (true, record b { time_repeat = time_ms; repeats = u16 (b.repeats + 1) })
    else (false, b)

-- The chain of tests in `process_button` that chooses the state reported, after the samples.
unfoldable pub classify : Button → ℕ → ButtonState × Button
classify b time_ms =
    let (held, b') = process_holding b time_ms in
    if is_button_pressed b
    then (pressed_state, process_pressed b time_ms)
    else if is_button_released b
    then (released, process_released b time_ms)
    else if is_button_down b
    then ((if held then holding else unknown), b')
    else (unknown, b)

-- `if (state != BUTTON_STATE_UNKNOWN) btn->state = state;`
abbrev pub note_state : ButtonState → Button → Button
note_state unknown b = b
note_state s b = record b { state = s }

unfoldable pub reset_clicks : Button → ℕ → Button
reset_clicks b time_ms =
    if is_button_up b && is_click_window_closed b time_ms then record b { clicks = 0 } else b

-- `process_button` once there is at least one sample to take.
unfoldable pub process_samples : Button → (ℕ → Bool) → ℕ → ℕ → ButtonState × Button
process_samples b levels pulses time_corrected =
    let (state, b1) = classify (update_state b levels pulses) time_corrected in
    let b2 = reset_clicks b1 time_corrected in
    (state, record (note_state state b2) { timestamp = time_corrected })

unfoldable pub process_button : Button → (ℕ → Bool) → ℕ → ButtonState × Button
process_button b levels time_ms =
    let elapsed_ms = sub32 time_ms b.timestamp in
    let time_corrected = sub32 time_ms (elapsed_ms % b.param.sampling_period_ms) in
    let pulses = elapsed_ms / b.param.sampling_period_ms in
    let synchronized = record b { timestamp = time_corrected } in
    if pulses == 0
    then (unknown, b)
    else if ltb b.param.sampling_timeout_ms elapsed_ms
    then process_samples synchronized levels 1 time_corrected
    else process_samples b levels pulses time_corrected

-- What the callback is given: the state, the clicks and the repeats.
pub record Event : Type 0 where
  pub kind : ButtonState
  pub click_count : ℕ
  pub repeat_count : ℕ

abbrev pub report : ButtonState → Button → Option Event
report unknown b = none
report s b = some (record { kind = s; click_count = b.clicks; repeat_count = b.repeats })

unfoldable pub button_step : Button → (ℕ → Bool) → ℕ → (ButtonError × Option Event) × Button
button_step b levels time_ms =
    let (state, b') = process_button b levels time_ms in
    if not b.active then ((disabled, none), b) else ((no_error, report state b'), b')

unfoldable pub button_step_delta : Button → (ℕ → Bool) → ℕ → (ButtonError × Option Event) × Button
button_step_delta b levels delta_ms =
    let (state, b') = process_button b levels (u32 (b.timestamp + delta_ms)) in
    if not b.active then ((disabled, none), b) else ((no_error, report state b'), b')

unfoldable pub button_set_param : Button → ButtonParam → ButtonError × Button
button_set_param b param =
    let copy : ButtonParam =
      if param.sampling_timeout_ms == 0
      then record param { sampling_timeout_ms = 1000 }
      else param in
    if not (copy.sampling_period_ms == 0)
      && is_param_ok copy (u16 (copy.debounce_duration_ms / copy.sampling_period_ms))
    then (no_error, record b { param = copy })
    else (incorrect_param, b)

unfoldable pub button_busy : Button → Bool
button_busy b = not (is_button_up b) || not (is_click_window_closed b b.timestamp)

unfoldable pub button_enable : Button → Button
button_enable b = record b { active = true }

unfoldable pub button_disable : Button → Button
button_disable b = record b { active = false }
