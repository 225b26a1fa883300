-- ===== src/Bitops.antt =====
-- modules/common/src/bitops.c and modules/common/include/libmcu/bitops.h, at a 32-bit `long`.
pub mod Power
mod Tests
use libmcu.Base.{
  ℕ, zero, suc, ◌+◌, ◌-◌, ◌/◌, ◌^◌, bit_and, Bool, true, false, not, ◌&&◌, ◌==◌, ltb, if◌then◌else◌,
  Outcome, done, undefined,
}

-- `__builtin_clzl` on the low `w` bits of `x`: how many zeros stand above the highest one.
pub clz : ℕ → ℕ → ℕ
clz zero x = 0
clz (suc w) x = let rest = clz w x in if x / 2 ^ w == 0 then suc rest else 0

unfoldable pub flsl : ℕ → ℕ
unfolding clz
flsl x = if x == 0 then 0 else 32 - clz 32 x

unfoldable pub is_power2 : ℕ → Bool
is_power2 x = not (x == 0) && (bit_and x (x - 1) == 0)

-- `1UL << n`, which C leaves undefined from the width on.
unfoldable pub shl_one : ℕ → Outcome ℕ
shl_one n = if ltb n 32 then done (2 ^ n) else undefined

unfoldable pub roundup_pow2 : ℕ → Outcome ℕ
roundup_pow2 x = if x == 0 then done 1 else if is_power2 x then done x else shl_one (flsl x)
