-- ===== src/Button/Param.antt =====
-- `button_set_param`, and the parameters with which every shift of the masks has a meaning.
use libmcu.Base.{
  ◌/◌, ◌^◌, ◌≤◌, ◌<◌, ◌≡◌, refl, Bool, true, false, not, ◌&&◌, ◌⊎◌, inl, inr, ◌==◌, if◌then◌else◌,
  u16, arith,
}
use libmcu.Button.{
  Button, ButtonParam, ButtonError, no_error, incorrect_param, default_param, is_param_ok,
  button_set_param, get_debounce_count,
}

-- A division by the period is defined, the masks shift by at most 31, and no interval is longer
-- than the sampling timeout.
pub record IsValidParam (p : ButtonParam) : Type 0 where
  pub period_pos : 0 < p.sampling_period_ms
  pub count_small : get_debounce_count p ≤ 30
  pub debounce_in : p.debounce_duration_ms ≤ p.sampling_timeout_ms
  pub delay_in : p.repeat_delay_ms ≤ p.sampling_timeout_ms
  pub rate_in : p.repeat_rate_ms ≤ p.sampling_timeout_ms
  pub window_in : p.click_window_ms ≤ p.sampling_timeout_ms

pub default_param-IsValidParam : IsValidParam default_param
unfolding get_debounce_count
default_param-IsValidParam = omega arith

is_param_ok-IsValidParam :
    (p : ButtonParam)
    → p.debounce_duration_ms / p.sampling_period_ms < 2 ^ 16
    → is_param_ok p (u16 (p.debounce_duration_ms / p.sampling_period_ms)) ≡ true
    → IsValidParam p
unfolding is_param_ok get_debounce_count
is_param_ok-IsValidParam p small h = ground arith

-- The parameters with the timeout that a zero stands for.
abbrev pub with_timeout : ButtonParam → ButtonParam
with_timeout p = if p.sampling_timeout_ms == 0 then record p { sampling_timeout_ms = 1000 } else p

-- `button_set_param` with a 16-bit debounce duration takes the parameters, a zero timeout replaced,
-- if they are valid, or returns an error and changes nothing.
button_set_param_lem :
    (b : Button) (p : ButtonParam)
    → p.debounce_duration_ms < 2 ^ 16
    → let (e, b') = button_set_param b p in
      (e ≡ no_error) × (b' ≡ record b { param = with_timeout p }) × IsValidParam b'.param
      ⊎ (e ≡ incorrect_param) × (b' ≡ b)
unfolding button_set_param
button_set_param_lem b p small =
    by_test (not (copy.sampling_period_ms == 0))
      (is_param_ok copy (u16 (copy.debounce_duration_ms / copy.sampling_period_ms)))
      (is_param_ok-IsValidParam copy small_count)
  where
    copy : ButtonParam
    copy = with_timeout p

    small_count : copy.debounce_duration_ms / copy.sampling_period_ms < 2 ^ 16
    small_count = ground arith

    by_test :
        (s t : Bool)
        → (t ≡ true → IsValidParam copy)
        → let out : ButtonError × Button =
            if s && t then (no_error, record b { param = copy }) else (incorrect_param, b) in
          (out.0 ≡ no_error) × (out.1 ≡ record b { param = copy }) × IsValidParam out.1.param
          ⊎ (out.0 ≡ incorrect_param) × (out.1 ≡ b)
    by_test true true h = inl (refl, refl, h refl)
    by_test true false h = inr (refl, refl)
    by_test false t h = inr (refl, refl)
