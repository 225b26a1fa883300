-- ===== src/Base/Bits.antt =====
-- `&` with a low mask and single-bit tests, as arithmetic, at every width.
use Prim.Native.Nat.{
  ℕ, zero, suc, ◌+◌, ◌-◌, ◌*◌, ◌/◌, ◌%◌, ◌^◌, ◌≤◌, ◌<◌, ◌∣◌, min, max, bit_and, bit_or,
}
use Prim.Native.Nat.{digits, bitwise, bit_and-bitwise, bit_or-bitwise}
use mathlib.Core.Path.{◌≡◌, refl, sym, ap, ap₂, ◌∙◌}
use native.Mathlib.Nat.{
  pow-suc, div-add-mod, mod-lt, add-mul-mod_self_left, mod-eq_of_lt, one-le-pow, mod-mod_of_dvd,
  dvd-mul_right_of_dvd, dvd_refl,
}
use native.Mathlib.Decide.{dec_lt}
use native.Mathlib.Omega.{arith}

-- `digits` takes its first argument's count of steps; more of them than there are digits do nothing.
module _ (last : ℕ → ℕ) (op : ℕ → ℕ → ℕ) where
  one_more : (steps x y : ℕ) → x ≤ steps → digits last op (suc steps) x y ≡ digits last op steps x y
  one_more zero zero y h = refl
  one_more (suc steps) zero y h = refl
  one_more zero (suc x) y h = absurd (omega arith)
  one_more (suc steps) (suc x) y h =
      ap (λ t. t * 2 + op (suc x % 2) (y % 2)) (one_more steps (suc x / 2) (y / 2) (omega arith))

  enough : (steps x y : ℕ) → x ≤ steps → digits last op steps x y ≡ bitwise last op x y
  enough zero x y h = let none_left : x ≡ 0 = omega arith in rw none_left refl
  enough (suc steps) x y h = elim (dec_lt steps x) [
    | yes all ↦ let same : x ≡ suc steps = omega arith in rw same refl
    | no fewer ↦ one_more steps x y (omega arith) ∙ enough steps x y (omega arith)
  ]

  bitwise-halves :
      (x y : ℕ)
      → bitwise last op (suc x) y ≡ 2 * bitwise last op (suc x / 2) (y / 2) + op (suc x % 2) (y % 2)
  bitwise-halves x y = omega (arith, enough x (suc x / 2) (y / 2) (omega arith))

-- Both operations from the halves and the lowest bits.
pub bit_and-halves : (x y : ℕ) → bit_and x y ≡ 2 * bit_and (x / 2) (y / 2) + min (x % 2) (y % 2)
bit_and-halves zero y = omega (arith, no_digits y, no_digits (y / 2))
  where
    no_digits : (y : ℕ) → bit_and 0 y ≡ 0
    no_digits y = bit_and-bitwise 0 y
bit_and-halves (suc x) y =
    bit_and-bitwise (suc x) y
    ∙ bitwise-halves (λ d. 0) min x y
    ∙ ap (λ t. 2 * t + min (suc x % 2) (y % 2)) (sym (bit_and-bitwise (suc x / 2) (y / 2)))

pub bit_or-halves : (x y : ℕ) → bit_or x y ≡ 2 * bit_or (x / 2) (y / 2) + max (x % 2) (y % 2)
bit_or-halves zero y = omega (arith, no_digits y, no_digits (y / 2))
  where
    no_digits : (y : ℕ) → bit_or 0 y ≡ y
    no_digits y = bit_or-bitwise 0 y
bit_or-halves (suc x) y =
    bit_or-bitwise (suc x) y
    ∙ bitwise-halves (λ d. d) max x y
    ∙ ap (λ t. 2 * t + max (suc x % 2) (y % 2)) (sym (bit_or-bitwise (suc x / 2) (y / 2)))

digits_and_none : (steps x : ℕ) → digits (λ d. 0) min steps x 0 ≡ 0
digits_and_none zero x = refl
digits_and_none (suc steps) zero = refl
digits_and_none (suc steps) (suc x) = omega (arith, digits_and_none steps (suc x / 2))

digits_or_none : (steps x : ℕ) → x ≤ steps → digits (λ d. d) max steps x 0 ≡ x
digits_or_none zero x h = omega arith
digits_or_none (suc steps) zero h = refl
digits_or_none (suc steps) (suc x) h = omega (arith, digits_or_none steps (suc x / 2) (omega arith))

pub bit_and-zero : (x : ℕ) → bit_and x 0 ≡ 0
bit_and-zero x = bit_and-bitwise x 0 ∙ digits_and_none x x

pub bit_or-zero : (x : ℕ) → bit_or x 0 ≡ x
bit_or-zero x = bit_or-bitwise x 0 ∙ digits_or_none x x (omega arith)

-- A mask of `k` low bits is the remainder by `2 ^ k`.
pub bit_and_mask : (k x : ℕ) → bit_and x (2 ^ k - 1) ≡ x % 2 ^ k
bit_and_mask zero x = omega (arith, bit_and-zero x)
bit_and_mask (suc k) x = omega (
  arith,
  bit_and-halves x (2 ^ suc k - 1),
  ap (bit_and (x / 2)) (ones k).0,
  (ones k).1,
  bit_and_mask k (x / 2),
  low_bit x k,
)
  where
    ones : (k : ℕ) → ((2 ^ suc k - 1) / 2 ≡ 2 ^ k - 1) × ((2 ^ suc k - 1) % 2 ≡ 1)
    ones k = omega (arith, pow-suc 2 k, one-le-pow k 2)

    double : (k : ℕ) → 2 ^ suc k ≡ 2 * 2 ^ k
    double k = omega (arith, pow-suc 2 k)

    split : (x k : ℕ) → x ≡ 2 * (x / 2 % 2 ^ k) + x % 2 + 2 ^ suc k * (x / 2 / 2 ^ k)
    split x k = rw (double k) (omega (arith, div-add-mod (x / 2) (2 ^ k)))

    below : (x k : ℕ) → 2 * (x / 2 % 2 ^ k) + x % 2 < 2 ^ suc k
    below x k = omega (arith, double k, mod-lt (x / 2) {m = 2 ^ k} (one-le-pow k 2 (omega arith)))

    low_bit : (x k : ℕ) → x % 2 ^ suc k ≡ 2 * (x / 2 % 2 ^ k) + x % 2
    low_bit x k =
        ap (λ t. t % 2 ^ suc k) (split x k)
        ∙ add-mul-mod_self_left (2 * (x / 2 % 2 ^ k) + x % 2) (2 ^ suc k) (x / 2 / 2 ^ k)
        ∙ mod-eq_of_lt {n = 2 * (x / 2 % 2 ^ k) + x % 2} {m = 2 ^ suc k} (below x k)

-- Shifting left by one and setting the lowest bit is a sum.
pub bit_or-double : (a b : ℕ) → b ≤ 1 → bit_or (2 * a) b ≡ 2 * a + b
bit_or-double a b h = omega (arith, bit_or-halves (2 * a) b, zero_high, bit_or-zero a)
  where
    zero_high : bit_or (2 * a / 2) (b / 2) ≡ bit_or a 0
    zero_high = ap₂ bit_or (omega arith) (omega arith)

pub pow_dvd : (k n : ℕ) → k ≤ n → 2 ^ k ∣ 2 ^ n
pow_dvd zero zero h = dvd_refl _
pow_dvd (suc k) zero h = absurd (omega arith)
pow_dvd k (suc n) h = elim (dec_lt n k) [
  | yes p ↦ let e : k ≡ suc n = omega arith in rw e (dvd_refl _)
  | no p ↦ rw pow-suc (dvd-mul_right_of_dvd (2 ^ k) (pow_dvd k n (omega arith)) 2)
]

-- Reducing at 32 bits first does not change a remainder by a smaller power of two.
pub mod_pow32 : (k a : ℕ) → k ≤ 32 → a % 2 ^ 32 % 2 ^ k ≡ a % 2 ^ k
mod_pow32 k a h = mod-mod_of_dvd (2 ^ k) a (pow_dvd k 32 h)
