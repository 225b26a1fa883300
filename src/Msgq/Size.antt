-- ===== src/Msgq/Size.antt =====
-- The size that `msgq_calc_size` gives for a number of messages.
use libmcu.Base.{
  ℕ, suc, ◌+◌, ◌*◌, ◌^◌, ◌≤◌, ◌<◌, ◌≡◌, ap, ◌∙◌, Bool-cases, inl, inr, if◌then◌else◌, lt→ltb, u32,
  sub32, Outcome, done, arith,
}
use native.Mathlib.Nat.{pow-suc, le-mul_of_pos_right}
use libmcu.Bitops.{flsl, is_power2, shl_one}
use libmcu.Bitops.Power.{flsl-IsTopBit, is_power2_iff, pow-lt_inv, pow-le_inv, not_power_top}
use libmcu.Ringbuf.Resize.{flsl_power}
use libmcu.Msgq.{calc_size}

shl_one_lem : (k : ℕ) → k < 32 → shl_one k ≡ done (2 ^ k)
unfolding shl_one
shl_one_lem k h = rw (lt→ltb k 32 h)

rounded :
    (x : ℕ)
    → 0 < x
    → x ≤ 2 ^ 31
    → (k : ℕ) × (shl_one (if is_power2 x then sub32 (flsl x) 1 else flsl x) ≡ done (2 ^ k))
      × (x ≤ 2 ^ k)
      × (2 ^ k < 2 * x)
rounded x h le = elim (Bool-cases (is_power2 x)) [
  | inl power ↦
      let (k, e) = (is_power2_iff x).0 power in
      let small : k ≤ 31 = pow-le_inv k 31 (rw e at le) in
      (
        k,
        rw power (
            ap shl_one (ap (λ t. sub32 t 1) (ap flsl e ∙ flsl_power k small) ∙ minus_one k small)
            ∙ shl_one_lem k (omega arith)),
        omega arith,
        omega arith,
      )
  | inr other ↦
      let (e, at, top, small) = flsl-IsTopBit x h (omega arith) in
      let strict = not_power_top x e other top.0 in
      let e_small : e < 31 = pow-lt_inv e 31 (omega arith) in
      (
        suc e,
        rw (other, at) (shl_one_lem (suc e) (omega arith)),
        omega arith,
        omega (arith, pow-suc 2 e),
      )
]
  where
    minus_one : (k : ℕ) → k ≤ 31 → sub32 (suc k) 1 ≡ k
    minus_one k small = omega arith

-- For messages that with their meta data take from 1 to 2 ^ 31 bytes, `msgq_calc_size` gives the
-- least power of two that holds them all.
calc_size_lem :
    (n max_msg_size : ℕ)
    → 0 < n
    → (4 + max_msg_size) * n ≤ 2 ^ 31
    → (k : ℕ) × (calc_size n max_msg_size ≡ done (2 ^ k))
      × ((4 + max_msg_size) * n ≤ 2 ^ k)
      × (2 ^ k < 2 * ((4 + max_msg_size) * n))
unfolding calc_size
calc_size_lem n m h le =
    let wide : 4 + m ≤ (4 + m) * n = le-mul_of_pos_right (4 + m) h in
    let (k, at, lo, hi) = rounded ((4 + m) * n) (omega (arith, wide)) le in
    (k, ap size_for (exact wide) ∙ at, lo, hi)
  where
    size_for : ℕ → Outcome ℕ
    size_for x = shl_one (if is_power2 x then sub32 (flsl x) 1 else flsl x)

    exact : 4 + m ≤ (4 + m) * n → u32 (u32 (4 + m) * n) ≡ (4 + m) * n
    exact wide = ap (λ a. u32 (a * n)) {x = u32 (4 + m)} {y = 4 + m} (omega arith) ∙ omega arith
