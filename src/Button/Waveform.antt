-- ===== src/Button/Waveform.antt =====
-- What the low bits of the waveform say of the last samples.
use libmcu.Base.{
  ℕ, zero, suc, ◌+◌, ◌-◌, ◌*◌, ◌/◌, ◌%◌, ◌^◌, ◌≤◌, ◌<◌, bit_and, bit_or, ◌≡◌, refl, ap, ◌∙◌, sym,
  Bool, true, false, not, ◌&&◌, ◌||◌, List, [], ◌∷◌, ◌==◌, ◌⊎◌, u32, inl, inr, arith,
}
use libmcu.Base.Bits.{bit_or-double, bit_and_mask, mod_pow32, pow_dvd}
use native.Mathlib.Nat.{
  pow-suc, one-le-pow, zero-mod, mod-mod_of_dvd, mod-eq-sub-mod, mod-add-mod, add-mul-mod_self_left,
  mod-eq_of_lt, div-add-mod, mod-lt,
}
use native.Mathlib.Decide.{dec_lt}
use libmcu.Button.{
  Button, bit_of, update_waveform, update_waveforms, get_debounce_count, get_debounce_mask,
  get_debounce_bitstream, get_waveform_mask, get_waveform, is_button_pressed, is_button_released,
  is_button_up, is_button_down,
}

update_waveform_lem : (w : ℕ) (b : Bool) → update_waveform w b ≡ u32 (2 * w) + bit_of b
unfolding update_waveform
update_waveform_lem w b =
    ap (λ t. bit_or t (bit_of b)) even
    ∙ bit_or-double (w % 2 ^ 31) (bit_of b) (bit_le b)
    ∙ ap (λ t. t + bit_of b) (sym even)
  where
    even : u32 (2 * w) ≡ 2 * (w % 2 ^ 31)
    even = omega arith

    bit_le : (b : Bool) → bit_of b ≤ 1
    bit_le true = omega arith
    bit_le false = omega arith

mod_double : (w k b : ℕ) → b ≤ 1 → suc k ≤ 32 → (u32 (2 * w) + b) % 2 ^ suc k ≡ 2 * (w % 2 ^ k) + b
mod_double w k b h small =
    sym (mod-add-mod (u32 (2 * w)) (2 ^ suc k) b)
    ∙ ap (λ t. (t + b) % 2 ^ suc k) (mod_pow32 (suc k) (2 * w) small)
    ∙ mod-add-mod (2 * w) (2 ^ suc k) b
    ∙ ap (λ t. t % 2 ^ suc k) split
    ∙ add-mul-mod_self_left (2 * (w % 2 ^ k) + b) (2 ^ suc k) (w / 2 ^ k)
    ∙ mod-eq_of_lt {n = 2 * (w % 2 ^ k) + b} {m = 2 ^ suc k} small_sum
  where
    double : 2 ^ suc k ≡ 2 * 2 ^ k
    double = omega (arith, pow-suc 2 k)

    split : 2 * w + b ≡ 2 * (w % 2 ^ k) + b + 2 ^ suc k * (w / 2 ^ k)
    split = rw double (omega (arith, div-add-mod w (2 ^ k)))

    small_sum : 2 * (w % 2 ^ k) + b < 2 ^ suc k
    small_sum = omega (arith, double, mod-lt w {m = 2 ^ k} (one-le-pow k 2 (omega arith)))

-- The waveform after the samples of a history, newest first.
pub wave : List Bool → ℕ
wave [] = 0
wave (b ∷ h) = update_waveform (wave h) b

-- The newest `n` samples are all HIGH, or all LOW; before the first sample stands LOW.
abbrev pub all_high : ℕ → List Bool → Bool
all_high zero h = true
all_high (suc n) [] = false
all_high (suc n) (b ∷ h) = b && all_high n h

abbrev pub all_low : ℕ → List Bool → Bool
all_low zero h = true
all_low (suc n) [] = true
all_low (suc n) (b ∷ h) = not b && all_low n h

wave_step :
    (b : Bool) (h : List Bool) (k : ℕ)
    → suc k ≤ 32
    → wave (b ∷ h) % 2 ^ suc k ≡ 2 * (wave h % 2 ^ k) + bit_of b
unfolding wave
wave_step b h k small =
    ap (λ t. t % 2 ^ suc k) (update_waveform_lem (wave h) b)
    ∙ mod_double (wave h) k (bit_of b) (le b) small
  where
    le : (b : Bool) → bit_of b ≤ 1
    le true = omega arith
    le false = omega arith

pow_double : (k : ℕ) → (2 ^ suc k ≡ 2 * 2 ^ k) × (1 ≤ 2 ^ k)
pow_double k = omega (arith, pow-suc 2 k, one-le-pow k 2)

-- How the tests on the low bits follow a new lowest bit.
ones_one : (x p m : ℕ) → m ≡ 2 * p → 1 ≤ p → (2 * x + 1 == m - 1) ≡ (x == p - 1)
ones_one x p m e h = ground arith

ones_zero : (x p m : ℕ) → m ≡ 2 * p → 1 ≤ p → (2 * x + 0 == m - 1) ≡ false
ones_zero x p m e h = ground arith

zeros_one : (x : ℕ) → (2 * x + 1 == 0) ≡ false
zeros_one x = ground arith

zeros_zero : (x : ℕ) → (2 * x + 0 == 0) ≡ (x == 0)
zeros_zero x = ground arith

high_bits : (n : ℕ) (h : List Bool) → n ≤ 32 → (wave h % 2 ^ n == 2 ^ n - 1) ≡ all_high n h
high_bits zero h le = ap (λ t. t == 0) {x = wave h % 1} {y = 0} (omega arith)
high_bits (suc n) [] le =
    unfold wave in
    ap (λ t. t == 2 ^ suc n - 1) (zero-mod (2 ^ suc n)) ∙ short (2 ^ suc n) (pow_double n)
  where
    short : (m : ℕ) {p : ℕ} → (m ≡ 2 * p) × (1 ≤ p) → (0 == m - 1) ≡ false
    short m e = ground arith
high_bits (suc n) (true ∷ h) le =
    ap (λ t. t == 2 ^ suc n - 1) (wave_step true h n le)
    ∙ ones_one (wave h % 2 ^ n) (2 ^ n) (2 ^ suc n) (pow_double n).0 (pow_double n).1
    ∙ high_bits n h (omega arith)
high_bits (suc n) (false ∷ h) le =
    ap (λ t. t == 2 ^ suc n - 1) (wave_step false h n le)
    ∙ ones_zero (wave h % 2 ^ n) (2 ^ n) (2 ^ suc n) (pow_double n).0 (pow_double n).1

low_bits : (n : ℕ) (h : List Bool) → n ≤ 32 → (wave h % 2 ^ n == 0) ≡ all_low n h
low_bits zero h le = ap (λ t. t == 0) {x = wave h % 1} {y = 0} (omega arith)
low_bits (suc n) [] le = unfold wave in ap (λ t. t == 0) (zero-mod (2 ^ suc n))
low_bits (suc n) (true ∷ h) le =
    ap (λ t. t == 0) (wave_step true h n le) ∙ zeros_one (wave h % 2 ^ n)
low_bits (suc n) (false ∷ h) le =
    ap (λ t. t == 0) (wave_step false h n le)
    ∙ zeros_zero (wave h % 2 ^ n)
    ∙ low_bits n h (omega arith)

-- Masked to one bit more than the test needs, the samples are LOW exactly if the value is 0 or that
-- one bit.
released_bits : (w n : ℕ) → (w % 2 ^ suc n == 2 ^ n || w % 2 ^ suc n == 0) ≡ (w % 2 ^ n == 0)
released_bits w n =
    by_cases (w % 2 ^ suc n) (2 ^ n) (w % 2 ^ n) (mod-lt w {m = 2 ^ n} (pow_double n).1) shape
  where
    reduced : w % 2 ^ suc n % 2 ^ n ≡ w % 2 ^ n
    reduced = mod-mod_of_dvd (2 ^ n) w (pow_dvd n (suc n) (omega arith))

    shape : (w % 2 ^ n ≡ w % 2 ^ suc n) ⊎ (w % 2 ^ n + 2 ^ n ≡ w % 2 ^ suc n)
    shape = elim (dec_lt (w % 2 ^ suc n) (2 ^ n)) [
      | yes p ↦ inl (omega (arith, reduced, mod-eq_of_lt p))
      | no p ↦ inr (
          omega (
            arith,
            reduced,
            mod-eq-sub-mod {n = w % 2 ^ suc n} {m = 2 ^ n} (omega arith),
            mod-eq_of_lt {n = w % 2 ^ suc n - 2 ^ n} {m = 2 ^ n} (
                omega
                  (arith, pow_double n, mod-lt w {m = 2 ^ suc n} (omega (arith, pow_double n)))),
          ))
    ]

    by_cases : (a p r : ℕ) → r < p → (r ≡ a) ⊎ (r + p ≡ a) → (a == p || a == 0) ≡ (r == 0)
    by_cases a p r h s = ground arith

-- The samples that a step takes, put before the older ones.
pub push_samples : (ℕ → Bool) → ℕ → ℕ → List Bool → List Bool
push_samples levels zero i h = h
push_samples levels (suc left) i h = push_samples levels left (suc i) (levels i ∷ h)

pub update_waveforms_lem :
    (levels : ℕ → Bool) (left i : ℕ) (h : List Bool)
    → update_waveforms levels left i (wave h) ≡ wave (push_samples levels left i h)
unfolding update_waveforms push_samples wave
update_waveforms_lem levels zero i h = refl
update_waveforms_lem levels (suc left) i h = update_waveforms_lem levels left (suc i) (levels i ∷ h)

masked : (w n : ℕ) → bit_and (bit_and w (2 ^ suc n - 1)) (2 ^ n - 1) ≡ w % 2 ^ n
masked w n =
    bit_and_mask n (bit_and w (2 ^ suc n - 1))
    ∙ ap (λ t. t % 2 ^ n) (bit_and_mask (suc n) w)
    ∙ mod-mod_of_dvd (2 ^ n) w (pow_dvd n (suc n) (omega arith))

-- For a button whose waveform records the samples `h`, with `n` the debounce count of at most 30:
-- it is down, or up, exactly if the last `n` samples were all HIGH, or all LOW; it is found pressed
-- if it is down and was not pressed before, and released if it is up and was pressed before.
pub debounce_lem :
    (b : Button) (h : List Bool)
    → b.waveform ≡ wave h
    → get_debounce_count b.param ≤ 30
    → let n = get_debounce_count b.param in
      (is_button_down b ≡ all_high n h)
      × (is_button_up b ≡ all_low n h)
      × (is_button_pressed b ≡ not b.pressed && all_high n h)
      × (is_button_released b ≡ b.pressed && all_low n h)
unfolding is_button_down is_button_up is_button_pressed is_button_released get_waveform
    get_waveform_mask get_debounce_mask get_debounce_bitstream
debounce_lem b h e le = (
  down,
  ap (λ t. t == 0) (masked b.waveform n ∙ low) ∙ low_bits n h (omega arith),
  ap (λ t. not b.pressed && t) down,
  ap (λ t. b.pressed && t)
      (ap (λ t. t == 2 ^ n || t == 0) (bit_and_mask (suc n) b.waveform)
        ∙ released_bits b.waveform n
        ∙ ap (λ t. t == 0) low
        ∙ low_bits n h (omega arith)),
)
  where
    n : ℕ
    n = get_debounce_count b.param

    low : b.waveform % 2 ^ n ≡ wave h % 2 ^ n
    low = ap (λ t. t % 2 ^ n) e

    down : (bit_and (bit_and b.waveform (2 ^ suc n - 1)) (2 ^ n - 1) == 2 ^ n - 1) ≡ all_high n h
    down = ap (λ t. t == 2 ^ n - 1) (masked b.waveform n ∙ low) ∙ high_bits n h (omega arith)
