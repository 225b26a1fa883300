-- ===== src/Ringbuf/Tests.antt =====
-- A ring of four bytes whose three bytes go round its end, and the theorems applied to it.
use libmcu.Base.{
  undefined, ◌≢◌, ℕ, ◌-◌, ◌^◌, ◌≤◌, ◌≡◌, refl, Bool, true, false, ◌&&◌, ◌||◌, ◌⊎◌, List, [], ◌∷◌,
  take, leb, ◌==◌, done, arith,
}
use libmcu.Bitops.{roundup_pow2}
use libmcu.Ringbuf.{Ringbuf, write_cancel, peek, resize}
use libmcu.Ringbuf.Inv.{IsValid, contents}
use libmcu.Ringbuf.Write.{write_cancel_lem}
use libmcu.Ringbuf.Read.{peek_lem}
use libmcu.Ringbuf.Resize.{resize_lem}
use libmcu.Ringbuf.Fifo.{
  Call, write_call, cancel_call, peek_call, read_call, consume_call, calls, queue_calls,
  calls_refine,
}

-- The write position has wrapped at 2 ^ 32, the read position has not.
abbrev ring : Ringbuf
ring = record { capacity = 4; index = 1; outdex = 4294967294; buffer = 30 ∷ 0 ∷ 10 ∷ 20 ∷ [] }

ring-IsValid : IsValid ring
ring-IsValid = record {
  pow = 2;
  small = omega arith;
  cap_pow = refl;
  size = refl;
  index_in = omega arith;
  outdex_in = omega arith;
  fits = omega arith;
}

contents-ring : contents ring ≡ 10 ∷ 20 ∷ 30 ∷ []
contents-ring = refl

abbrev script : List Call
script =
    write_call (40 ∷ 50 ∷ []) ∷ read_call 1 2 ∷ cancel_call 5 ∷ peek_call 0 9 ∷ consume_call 1 ∷ []

calls_refine_example : calls ring script ≡ queue_calls 4 (10 ∷ 20 ∷ 30 ∷ []) script
calls_refine_example = calls_refine script ring-IsValid

write_cancel_lem_example :
    let (n, r') = write_cancel ring 2 in
    (n ≡ 2) × (contents r' ≡ take (3 - n) (10 ∷ 20 ∷ 30 ∷ [])) × IsValid r'
write_cancel_lem_example = write_cancel_lem ring-IsValid 2

peek_lem_example : peek ring 1 5 ≡ (20 ∷ 30 ∷ [], 2)
peek_lem_example = peek_lem ring-IsValid 1 5

resize_lem_example :
    (k : ℕ) × (b : Bool) × (r' : Ringbuf) × (resize true ring 5 true ≡ done (b, r'))
    × (roundup_pow2 5 ≡ done (2 ^ k))
    × (b ≡ (2 ^ k == 4) || (leb 3 (2 ^ k) && true))
    × IsValid r'
    × (contents r' ≡ 10 ∷ 20 ∷ 30 ∷ [])
    × ((b ≡ true) × (5 ≤ r'.capacity) ⊎ (b ≡ false) × (r' ≡ ring))
    × ((resize false ring 5 true ≡ done (b, r')) × (r' ≡ ring)
        ⊎ (resize false ring 5 true ≡ undefined) × (2 ^ k ≢ 4) × (3 ≤ 2 ^ k) × (true ≡ true))
resize_lem_example = resize_lem ring-IsValid 5 true (omega arith) (omega arith)
