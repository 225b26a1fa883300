-- ===== src/Pubsub/Slots.antt =====
-- The slots of the pool in `pubsub.c` as the list of the subscriptions in use.
use libmcu.Base.{
  ℕ, zero, suc, ◌+◌, ◌≤◌, ◌<◌, ◌≡◌, refl, ap, ◌⊎◌, inl, inr, Bool, false, ◌||◌, Option, none, some,
  List, [], ◌∷◌, ◌++◌, map, replicate, length, length-append, length-replicate, ◌==◌, ==_iff,
  Bool-cases, arith,
}
use libmcu.Pubsub.Pool.{copy_subscriptions, fill_slot, clear_slot}

-- A subscription among the others, which keep their order.
pub record Among (sub : ℕ) (others all : List ℕ) : Type 0 where
  pub before : List ℕ
  pub after : List ℕ
  pub without : others ≡ before ++ after
  pub with_sub : all ≡ before ++ (sub ∷ after)

-- Whether a subscription is there.
abbrev pub is_in : ℕ → List ℕ → Bool
is_in sub [] = false
is_in sub (x ∷ xs) = x == sub || is_in sub xs

Among-cons :
    {sub : ℕ} {others all : List ℕ} (x : ℕ)
    → Among sub others all
    → Among sub (x ∷ others) (x ∷ all)
Among-cons x a = record {
  before = x ∷ a.before;
  after = a.after;
  without = ap (λ t. x ∷ t) a.without;
  with_sub = ap (λ t. x ∷ t) a.with_sub;
}

pub length-Among :
    {sub : ℕ} {others all : List ℕ} → Among sub others all → length all ≡ suc (length others)
length-Among {sub} a = omega (
  arith,
  ap length a.without,
  ap length a.with_sub,
  length-append a.before a.after,
  length-append a.before (sub ∷ a.after),
)

pub fill_slot_lem :
    (pool : List (Option ℕ)) (sub : ℕ)
    → length (copy_subscriptions pool) < length pool
    → (pool' : List (Option ℕ)) × (fill_slot pool sub ≡ some pool')
      × (length pool' ≡ length pool)
      × Among sub (copy_subscriptions pool) (copy_subscriptions pool')
unfolding fill_slot copy_subscriptions
fill_slot_lem [] sub h = absurd (omega arith)
fill_slot_lem (none ∷ ps) sub h = (
  some sub ∷ ps,
  refl,
  refl,
  record { before = []; after = copy_subscriptions ps; without = refl; with_sub = refl },
)
fill_slot_lem (some x ∷ ps) sub h =
    let (ps', e, size, a) = fill_slot_lem ps sub (omega arith) in
    (some x ∷ ps', rw e refl, ap suc size, Among-cons x a)

pub clear_slot_lem :
    (pool : List (Option ℕ)) (sub : ℕ)
    → ((pool' : List (Option ℕ)) × (clear_slot pool sub ≡ some pool')
        × (length pool' ≡ length pool)
        × Among sub (copy_subscriptions pool') (copy_subscriptions pool))
      ⊎ (clear_slot pool sub ≡ none) × (is_in sub (copy_subscriptions pool) ≡ false)
unfolding clear_slot copy_subscriptions
clear_slot_lem [] sub = inr (refl, refl)
clear_slot_lem (none ∷ ps) sub = elim (clear_slot_lem ps sub) [
  | inl (ps', e, size, a) ↦ inl (none ∷ ps', rw e refl, ap suc size, a)
  | inr (e, out) ↦ inr (rw e refl, out)
]
clear_slot_lem (some x ∷ ps) sub = elim (Bool-cases (x == sub)) [
  | inl same ↦ rw same (
      inl (
        none ∷ ps,
        refl,
        refl,
        record {
          before = [];
          after = copy_subscriptions ps;
          without = refl;
          with_sub = ap (λ t. t ∷ copy_subscriptions ps) ((==_iff x sub).0 same);
        },
      ))
  | inr other ↦ rw other (elim (clear_slot_lem ps sub) [
    | inl (ps', e, size, a) ↦ inl (some x ∷ ps', rw e refl, ap suc size, Among-cons x a)
    | inr (e, out) ↦ inr (rw e refl, out)
  ])
]

copy_none : (k : ℕ) → copy_subscriptions (replicate k none) ≡ []
unfolding copy_subscriptions
copy_none zero = refl
copy_none (suc k) = copy_none k

pub copy_some : (xs : List ℕ) (k : ℕ) → copy_subscriptions (map some xs ++ replicate k none) ≡ xs
unfolding copy_subscriptions
copy_some [] k = copy_none k
copy_some (x ∷ xs) k = ap (λ t. x ∷ t) (copy_some xs k)

pub length-some : (xs : List ℕ) (k : ℕ) → length (map some xs ++ replicate k none) ≡ length xs + k
length-some [] k = omega (arith, length-replicate k no_slot)
  where
    no_slot : Option ℕ
    no_slot = none
length-some (x ∷ xs) k = omega (arith, length-some xs k)

pub length-copy : (pool : List (Option ℕ)) → length (copy_subscriptions pool) ≤ length pool
unfolding copy_subscriptions
length-copy [] = omega arith
length-copy (none ∷ ps) = omega (arith, length-copy ps)
length-copy (some x ∷ ps) = omega (arith, length-copy ps)
