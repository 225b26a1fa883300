-- ===== src/Bitops/Power.antt =====
-- What `flsl`, `is_power2` and `roundup_pow2` compute, by powers of two.
use libmcu.Base.{
  ℕ, zero, suc, ◌+◌, ◌-◌, ◌*◌, ◌/◌, ◌^◌, ◌≤◌, ◌<◌, bit_and, ◌≡◌, refl, ap, ap₂, subst, sym, lt→ltb,
  le→ltb, ◌∙◌, true, false, ◌↔◌, inl, inr, ◌⊎◌, ==_iff, ==_ne, Bool-cases, done, undefined, arith,
}
use libmcu.Base.Bits.{bit_and-halves}
use native.Mathlib.Nat.{pow-suc, one-le-pow, pow-le-pow_right}
use mathlib.Core.Bool.{false≢true}
use native.Mathlib.Decide.{dec_lt, ℕ_discrete}
use libmcu.Bitops.{clz, flsl, is_power2, shl_one, roundup_pow2}

-- `e` is the place of the highest one of `x`.
abbrev pub IsTopBit : ℕ → ℕ → Type 0
IsTopBit x e = (2 ^ e ≤ x) × (x < 2 ^ suc e)

div-eq-zero : (x p : ℕ) → 0 < p → (x / p ≡ 0) → x < p
div-eq-zero x p h e = grind arith

le_of_div-ne-zero : (x p : ℕ) → 0 < p → (x / p ≡ 0 → ⊥) → p ≤ x
le_of_div-ne-zero x p h ne = elim (dec_lt x p) [
  | yes l ↦ absurd (ne (grind arith))
  | no g ↦ omega arith
]

clz_top :
    (w x : ℕ) → 0 < x → x < 2 ^ w → (e : ℕ) × (clz w x + suc e ≡ w) × (2 ^ e ≤ x) × (x < 2 ^ suc e)
unfolding clz
clz_top zero x h lt = absurd (omega arith)
clz_top (suc w) x h lt = elim (ℕ_discrete (x / 2 ^ w) 0) [
  | yes z ↦ rw ((==_iff _ _).1 z) (
      let below : x < 2 ^ w = div-eq-zero x (2 ^ w) (one-le-pow w 2 (omega arith)) z in
      let (e, at, lo, hi) = clz_top w x h below in (e, omega arith, lo, hi))
  | no nz ↦
      rw (==_ne _ _ nz)
        (w, omega arith, le_of_div-ne-zero x (2 ^ w) (one-le-pow w 2 (omega arith)) nz, lt)
]

-- `flsl` is one more than the place of the highest one.
pub flsl-IsTopBit :
    (x : ℕ) → 0 < x → x < 2 ^ 32 → (e : ℕ) × (flsl x ≡ suc e) × IsTopBit x e × (e < 32)
unfolding flsl
flsl-IsTopBit x h lt =
    let (e, at, lo, hi) = clz_top 32 x h lt in (e, ground arith, (lo, hi), omega arith)

bit_and_self_fuel : (n a : ℕ) → a ≤ n → bit_and a a ≡ a
bit_and_self_fuel n zero h = refl
bit_and_self_fuel zero (suc a) h = absurd (omega arith)
bit_and_self_fuel (suc n) (suc a) h =
    omega (arith, bit_and-halves (suc a) (suc a), bit_and_self_fuel n (suc a / 2) (omega arith))

-- Dropping the lowest one of an even number is dropping that of its half.
pred-even : (y : ℕ) → 0 < y → bit_and (2 * y) (2 * y - 1) ≡ 2 * bit_and y (y - 1)
pred-even y h =
    omega (arith, bit_and-halves (2 * y) (2 * y - 1), ap₂ bit_and (halves y h).0 (halves y h).1)
  where
    halves : (y : ℕ) → 0 < y → (2 * y / 2 ≡ y) × ((2 * y - 1) / 2 ≡ y - 1)
    halves y h = omega arith

pred-odd : (y : ℕ) → bit_and (2 * y + 1) (2 * y) ≡ 2 * y
pred-odd y = omega (
  arith,
  bit_and-halves (2 * y + 1) (2 * y),
  ap₂ bit_and (halves y).0 (halves y).1,
  bit_and_self_fuel y y (omega arith),
)
  where
    halves : (y : ℕ) → ((2 * y + 1) / 2 ≡ y) × (2 * y / 2 ≡ y)
    halves y = omega arith

halve : (x : ℕ) → (x ≡ 2 * (x / 2)) ⊎ (x ≡ 2 * (x / 2) + 1)
halve x = omega arith

power_of_clear_fuel : (n x : ℕ) → x ≤ n → 0 < x → bit_and x (x - 1) ≡ 0 → (k : ℕ) × (x ≡ 2 ^ k)
power_of_clear_fuel n zero le h c = absurd (omega arith)
power_of_clear_fuel zero (suc x) le h c = absurd (omega arith)
power_of_clear_fuel (suc n) (suc x) le h c = elim (halve (suc x)) [
  | inl even ↦
      let c' = subst (λ (t : ℕ). bit_and t (t - 1) ≡ 0) even c in
      let (k, e) =
        power_of_clear_fuel n (suc x / 2) (omega arith) (omega arith)
          (omega (arith, pred-even (suc x / 2) (omega arith))) in
      (suc k, omega (arith, pow-suc 2 k))
  | inr odd ↦
      let c' = subst (λ (t : ℕ). bit_and t (t - 1) ≡ 0) odd c in
      (
        0,
        omega (
          arith,
          pred-odd (suc x / 2),
          ap (bit_and (2 * (suc x / 2) + 1)) (drop_one (2 * (suc x / 2))),
        ),
      )
]
  where
    drop_one : (t : ℕ) → t + 1 - 1 ≡ t
    drop_one t = omega arith

clear_power : (k : ℕ) → bit_and (2 ^ k) (2 ^ k - 1) ≡ 0
clear_power zero = refl
clear_power (suc k) =
    rw double (omega (arith, pred-even (2 ^ k) (one-le-pow k 2 (omega arith)), clear_power k))
  where
    double : 2 ^ suc k ≡ 2 * 2 ^ k
    double = omega (arith, pow-suc 2 k)

-- `is_power2` accepts exactly the powers of two.
pub is_power2_iff : (x : ℕ) → (is_power2 x ≡ true) ↔ ((k : ℕ) × (x ≡ 2 ^ k))
unfolding is_power2
is_power2_iff x = (
  λ h. power_of_clear_fuel x x (omega arith) (ground arith) (ground arith),
  λ p. rw (p.1, clear_power p.0, ==_ne (2 ^ p.0) 0 (λ e. absurd (omega (arith, one-le-pow p.0 2)))),
)

pub pow-lt_inv : (a b : ℕ) → 2 ^ a < 2 ^ b → a < b
pow-lt_inv a b h = elim (dec_lt a b) [
  | yes l ↦ l
  | no g ↦
      absurd (omega (arith, pow-le-pow_right {n = 2} (omega arith) {i = b} {j = a} (omega arith)))
]

pub pow-le_inv : (a b : ℕ) → 2 ^ a ≤ 2 ^ b → a ≤ b
pow-le_inv a b h = elim (dec_lt b a) [
  | yes l ↦ absurd (
      omega (
        arith,
        pow-suc 2 b,
        one-le-pow b 2,
        pow-le-pow_right {n = 2} (omega arith) {i = suc b} {j = a} l,
      ))
  | no g ↦ omega arith
]

-- Between two powers of two, `roundup_pow2` goes to the upper one.
roundup_between :
    (x e : ℕ)
    → is_power2 x ≡ false
    → flsl x ≡ suc e
    → 0 < x
    → e < 31
    → roundup_pow2 x ≡ done (2 ^ suc e)
unfolding roundup_pow2 shl_one
roundup_between x e other at h small =
    rw (==_ne x 0 (λ z. absurd (omega arith)), other, at) (rw (lt→ltb (suc e) 32 (omega arith)))

pub roundup_power :
    (x k : ℕ) → 0 < x → is_power2 x ≡ true → x ≡ 2 ^ k → roundup_pow2 x ≡ done (2 ^ k)
unfolding roundup_pow2
roundup_power x k h power e = rw (==_ne x 0 (λ z. absurd (omega arith)), power) (ap done e)

pub not_power_top : (x e : ℕ) → is_power2 x ≡ false → 2 ^ e ≤ x → 2 ^ e < x
not_power_top x e other lo = elim (ℕ_discrete x (2 ^ e)) [
  | yes p ↦ absurd (false≢true (sym other ∙ (is_power2_iff x).1 (e, p)))
  | no p ↦ omega arith
]

-- For a size from 1 to 2 ^ 31, `roundup_pow2` gives the least power of two that is not below it.
pub roundup_pow2_lem :
    (x : ℕ)
    → 0 < x
    → x ≤ 2 ^ 31
    → (k : ℕ) × (roundup_pow2 x ≡ done (2 ^ k)) × (k ≤ 31) × (x ≤ 2 ^ k) × (2 ^ k < 2 * x)
roundup_pow2_lem x h le = elim (Bool-cases (is_power2 x)) [
  | inl power ↦
      let (k, e) = (is_power2_iff x).0 power in
      (k, roundup_power x k h power e, pow-le_inv k 31 (rw e at le), omega arith, omega arith)
  | inr other ↦
      let (e, at, top, small) = flsl-IsTopBit x h (omega arith) in
      let strict = not_power_top x e other top.0 in
      let e_small : e < 31 = pow-lt_inv e 31 (omega arith) in
      (
        suc e,
        roundup_between x e other at h e_small,
        e_small,
        omega arith,
        omega (arith, pow-suc 2 e),
      )
]

-- Above 2 ^ 31 the shift of `roundup_pow2` is by the whole width: C gives it no meaning.
roundup_pow2_undefined : (x : ℕ) → 2 ^ 31 < x → x < 2 ^ 32 → roundup_pow2 x ≡ undefined
unfolding roundup_pow2 shl_one
roundup_pow2_undefined x h lt = elim (Bool-cases (is_power2 x)) [
  | inl power ↦
      let (k, e) = (is_power2_iff x).0 power in
      absurd (omega (arith, pow-lt_inv 31 k (rw e at h), pow-lt_inv k 32 (rw e at lt)))
  | inr other ↦
      let (e, at, top, small) = flsl-IsTopBit x (omega arith) lt in
      let e_big : 31 < suc e = pow-lt_inv 31 (suc e) (omega arith) in
      rw (==_ne x 0 (λ z. absurd (omega arith)), other, at) (rw (le→ltb (suc e) 32 (omega arith)))
]
