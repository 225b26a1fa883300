-- ===== src/Bitops/Tests.antt =====
-- The theorems on bit operations at concrete words.
use libmcu.Base.{ℕ, suc, ◌*◌, ◌^◌, ◌≤◌, ◌<◌, ◌≡◌, done, arith}
use libmcu.Bitops.{flsl, roundup_pow2}
use libmcu.Bitops.Power.{IsTopBit, flsl-IsTopBit, roundup_pow2_lem}

flsl-IsTopBit_example : (e : ℕ) × (flsl 40 ≡ suc e) × IsTopBit 40 e × (e < 32)
flsl-IsTopBit_example = flsl-IsTopBit 40 (omega arith) (omega arith)

roundup_pow2_lem_example :
    (k : ℕ) × (roundup_pow2 100 ≡ done (2 ^ k)) × (k ≤ 31) × (100 ≤ 2 ^ k) × (2 ^ k < 2 * 100)
roundup_pow2_lem_example = roundup_pow2_lem 100 (omega arith) (omega arith)
