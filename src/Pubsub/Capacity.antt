-- ===== src/Pubsub/Capacity.antt =====
-- The pool of `pubsub.c` through a registration: its invariant, and its growing and shrinking.
use libmcu.Base.{
  ℕ, suc, ◌+◌, ◌-◌, ◌*◌, ◌/◌, ◌^◌, ◌≤◌, ◌<◌, ◌≡◌, refl, sym, ap, ◌∙◌, ◌⊎◌, inl, inr, Bool, true,
  false, Option, none, some, List, ◌++◌, map, replicate, length, lt→ltb, lt→leb, le→leb, ==_iff,
  if◌then◌else◌, u8, u16, done, ◌>>=◌, arith,
}
use native.Mathlib.Decide.{dec_lt}
use native.Mathlib.Nat.{pow-suc, pow-le-pow_right}
use libmcu.Bitops.Power.{pow-lt_inv}
use libmcu.Pubsub.Pool.{
  Pubsub, copy_subscriptions, change_capacity, expand_subscription_capacity,
  shrink_subscription_capacity, place, register_subscription, unregister_subscription,
}
use libmcu.Pubsub.Slots.{
  Among, is_in, length-Among, fill_slot_lem, clear_slot_lem, copy_some, length-some, length-copy,
}

-- The array has the capacity, 4 to 128 slots, and the length counts those in use.
pub record IsValid (m : Pubsub) : Type 0 where
  pub pow : ℕ
  pub low : 2 ≤ pow
  pub high : pow ≤ 7
  pub cap_pow : m.capacity ≡ 2 ^ pow
  pub size : length m.pool ≡ m.capacity
  pub used : m.length ≡ length (copy_subscriptions m.pool)

-- A pool moves to an array of another capacity that has a slot to spare.
change_capacity_lem :
    (m : Pubsub) (n : ℕ)
    → m.length ≡ length (copy_subscriptions m.pool)
    → m.length < n
    → n ≤ 128
    → (pool' : List (Option ℕ)) × (change_capacity m n
        ≡ done (record m { capacity = n; pool = pool' }))
      × (length pool' ≡ n)
      × (copy_subscriptions pool' ≡ copy_subscriptions m.pool)
unfolding change_capacity
change_capacity_lem m n used room small =
    let subs = copy_subscriptions m.pool in
    let narrow : u8 (length subs) ≡ m.length = omega arith in
    (
      map some subs ++ replicate (n - length subs) none,
      rw (narrow, lt→ltb m.length n room, (==_iff m.length m.length).1 refl) refl,
      omega (arith, length-some subs (n - length subs)),
      copy_some subs (n - length subs),
    )

place_lem :
    {m : Pubsub} (sub : ℕ)
    → IsValid m
    → m.length < m.capacity
    → (m' : Pubsub) × (place m sub ≡ done (true, m'))
      × IsValid m'
      × (m'.heap ≡ m.heap)
      × Among sub (copy_subscriptions m.pool) (copy_subscriptions m'.pool)
unfolding place
place_lem {m} sub v room =
    let (pool', e, size, a) = fill_slot_lem m.pool sub (omega (arith, v.used, v.size)) in
    (
      record m { pool = pool'; length = u8 (m.length + 1) },
      rw (place, e) refl,
      record {
        pow = v.pow;
        low = v.low;
        high = v.high;
        cap_pow = v.cap_pow;
        size = size ∙ v.size;
        used = omega (arith, v.used, length-Among a, cap_small v);
      },
      refl,
      a,
    )
  where
    cap_small : {m : Pubsub} → IsValid m → m.capacity ≤ 128
    cap_small v =
        omega (arith, v.cap_pow, pow-le-pow_right {n = 2} (omega arith) {i = v.pow} {j = 7} v.high)

-- A full pool below 128 slots doubles.
expand_lem :
    {m : Pubsub}
    → IsValid m
    → m.length ≡ m.capacity
    → m.length < 128
    → (m' : Pubsub) × (expand_subscription_capacity m true ≡ done (true, m'))
      × IsValid m'
      × (m'.heap ≡ m.heap)
      × (m'.length < m'.capacity)
      × (copy_subscriptions m'.pool ≡ copy_subscriptions m.pool)
unfolding expand_subscription_capacity
expand_lem {m} v full few =
    let small : v.pow < 7 = pow-lt_inv v.pow 7 (omega (arith, v.cap_pow)) in
    let (n, pos) = sizes v small in
    let (pool', e, size, same) =
      change_capacity_lem m (u8 (m.capacity * 2)) v.used (omega arith) (omega arith) in
    (
      record m { capacity = u8 (m.capacity * 2); pool = pool' },
      rw (lt→ltb (u16 m.capacity * 2) 256 (omega arith)) (rw e refl),
      record {
        pow = suc v.pow;
        low = omega (arith, v.low);
        high = small;
        cap_pow = omega (arith, v.cap_pow, pow-suc 2 v.pow);
        size = size;
        used = v.used ∙ ap length (sym same);
      },
      refl,
      omega arith,
      same,
    )
  where
    sizes : {m : Pubsub} (v : IsValid m) → v.pow < 7 → (m.capacity ≤ 64) × (4 ≤ m.capacity)
    sizes v small = omega (
      arith,
      v.cap_pow,
      pow-le-pow_right {n = 2} (omega arith) {i = v.pow} {j = 6} (omega arith),
      pow-le-pow_right {n = 2} (omega arith) {i = 2} {j = v.pow} v.low,
    )

expand_failed :
    (m : Pubsub) → m.capacity < 128 → expand_subscription_capacity m false ≡ done (false, m)
unfolding expand_subscription_capacity
expand_failed m small = rw (lt→ltb (u16 m.capacity * 2) 256 (omega arith)) refl

pub register_subscription_lem :
    {m : Pubsub} (sub : ℕ) (memory : Bool)
    → IsValid m
    → m.length < 128
    → (ok : Bool) × (m' : Pubsub) × (register_subscription m sub memory ≡ done (ok, m'))
      × IsValid m'
      × (m'.heap ≡ m.heap)
      × ((ok ≡ true) × Among sub (copy_subscriptions m.pool) (copy_subscriptions m'.pool)
          ⊎ (ok ≡ false) × (memory ≡ false) × (m.length ≡ m.capacity) × (m' ≡ m))
unfolding register_subscription
register_subscription_lem {m} sub memory v few = elim (dec_lt m.length m.capacity) [
  | yes room ↦
      let (m', e, v', same, a) = place_lem sub v room in
      (true, m', rw (lt→leb m.capacity m.length room, e) refl, v', same, inl (refl, a))
  | no crowded ↦
      let full : m.length ≡ m.capacity = omega (arith, v.used, v.size, length-copy m.pool) in
      rw (le→leb m.capacity m.length (omega arith)) (register_full sub memory v full few)
]
  where
    register_full :
        {m : Pubsub} (sub : ℕ) (memory : Bool)
        → IsValid m
        → m.length ≡ m.capacity
        → m.length < 128
        → (ok : Bool) × (m' : Pubsub) × ((expand_subscription_capacity m memory >>= λ out.
              if out.0 then place out.1 sub else done (false, out.1))
            ≡ done (ok, m'))
          × IsValid m'
          × (m'.heap ≡ m.heap)
          × ((ok ≡ true) × Among sub (copy_subscriptions m.pool) (copy_subscriptions m'.pool)
              ⊎ (ok ≡ false) × (memory ≡ false) × (m.length ≡ m.capacity) × (m' ≡ m))
    register_full {m} sub true v full few =
        let (m1, e1, v1, same1, room, copied) = expand_lem v full few in
        let (m', e, v', same, a) = place_lem sub v1 room in
        (true, m', rw (e1, e) refl, v', same ∙ same1, inl (refl, rw copied at a))
    register_full {m} sub false v full few =
        (false, m, rw (expand_failed m (omega arith)) refl, v, refl, inr (refl, refl, full, refl))

shrink_lem :
    {m : Pubsub} (memory : Bool)
    → IsValid m
    → (m' : Pubsub) × (shrink_subscription_capacity m memory ≡ done m')
      × IsValid m'
      × (m'.heap ≡ m.heap)
      × (copy_subscriptions m'.pool ≡ copy_subscriptions m.pool)
unfolding shrink_subscription_capacity
shrink_lem {m} memory v = elim (dec_lt 4 m.capacity) [
  | no least ↦ (m, rw (le→leb m.capacity 4 (omega arith)) refl, v, refl, refl)
  | yes large ↦ elim (dec_lt (m.length * 2) m.capacity) [
    | no half ↦ (
      m,
      rw (lt→leb m.capacity 4 large, le→leb m.capacity (m.length * 2) (omega arith)) refl,
      v,
      refl,
      refl,
    )
    | yes sparse ↦
        rw (lt→leb m.capacity 4 large, lt→leb m.capacity (m.length * 2) sparse)
          (halve memory v large sparse)
  ]
]
  where
    halve :
        {m : Pubsub} (memory : Bool)
        → IsValid m
        → 4 < m.capacity
        → m.length * 2 < m.capacity
        → (m' : Pubsub) × ((if memory then change_capacity m (m.capacity / 2) else done m)
            ≡ done m')
          × IsValid m'
          × (m'.heap ≡ m.heap)
          × (copy_subscriptions m'.pool ≡ copy_subscriptions m.pool)
    halve {m} false v large sparse = (m, refl, v, refl, refl)
    halve {m} true v large sparse =
        let above : 2 < v.pow = pow-lt_inv 2 v.pow (omega (arith, v.cap_pow)) in
        let pow_eq : v.pow ≡ suc (v.pow - 1) = omega arith in
        let double : m.capacity ≡ 2 * 2 ^ (v.pow - 1) =
          v.cap_pow ∙ ap (λ (t : ℕ). 2 ^ t) pow_eq ∙ omega (arith, pow-suc 2 (v.pow - 1)) in
        let small : 2 ^ (v.pow - 1) ≤ 2 ^ 6 =
          pow-le-pow_right {n = 2} (omega arith) {i = v.pow - 1} {j = 6} (omega (arith, v.high)) in
        let (pool', e, size, same) =
          change_capacity_lem m (m.capacity / 2) v.used (omega arith) (omega arith) in
        (
          record m { capacity = m.capacity / 2; pool = pool' },
          e,
          record {
            pow = v.pow - 1;
            low = omega arith;
            high = omega (arith, v.high);
            cap_pow = omega arith;
            size = size;
            used = v.used ∙ ap length (sym same);
          },
          refl,
          same,
        )

pub unregister_subscription_lem :
    {m : Pubsub} (sub : ℕ) (memory : Bool)
    → IsValid m
    → (ok : Bool) × (m' : Pubsub) × (unregister_subscription m sub memory ≡ done (ok, m'))
      × IsValid m'
      × (m'.heap ≡ m.heap)
      × ((ok ≡ true) × Among sub (copy_subscriptions m'.pool) (copy_subscriptions m.pool)
          ⊎ (ok ≡ false) × (is_in sub (copy_subscriptions m.pool) ≡ false) × (m' ≡ m))
unfolding unregister_subscription
unregister_subscription_lem {m} sub memory v = elim (clear_slot_lem m.pool sub) [
  | inr (e, out) ↦ (false, m, rw (unregister_subscription, e) refl, v, refl, inr (refl, out, refl))
  | inl (pool', e, size, a) ↦
      let (m', e', v', same, copied) = shrink_lem memory (cleared pool' size a v) in
      (
        true,
        m',
        rw (unregister_subscription, e) (rw e' refl),
        v',
        same,
        inl (refl, rw (sym copied) at a),
      )
]
  where
    cleared :
        {m : Pubsub} {sub : ℕ} (pool' : List (Option ℕ))
        → length pool' ≡ length m.pool
        → Among sub (copy_subscriptions pool') (copy_subscriptions m.pool)
        → IsValid m
        → IsValid (record m { pool = pool'; length = u8 (m.length + 255) })
    cleared {m} pool' size a v = record {
      pow = v.pow;
      low = v.low;
      high = v.high;
      cap_pow = v.cap_pow;
      size = size ∙ v.size;
      used = omega (
        arith,
        v.used,
        length-Among a,
        length-copy m.pool,
        v.size,
        v.cap_pow,
        pow-le-pow_right {n = 2} (omega arith) {i = v.pow} {j = 7} v.high,
      );
    }
