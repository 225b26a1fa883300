-- ===== src/Actor/Memory.antt =====
-- Where the pool of messages lies.
use libmcu.Base.{
  ℕ, zero, suc, ◌+◌, ◌-◌, ◌/◌, ◌%◌, ◌^◌, ◌≤◌, ◌<◌, ◌≡◌, ◌≢◌, refl, ap, ap₂, ◌∙◌, false, ◌||◌, List,
  [], ◌∷◌, ◌++◌, length, if◌then◌else◌, arith, ==_ne, length-append,
}
use libmcu.Actor.{Actors, is_in, add_if_not_exist, all_messages, init_msgpool, actor_mem_len}

abbrev AreBelow : ℕ → List ℕ → Type 0
AreBelow i [] = Unit
AreBelow i (x ∷ xs) = (x < i) × AreBelow i xs

AreBelow-snoc : (i : ℕ) (xs : List ℕ) → AreBelow i xs → AreBelow (suc i) (xs ++ (i ∷ []))
AreBelow-snoc i [] h = (omega arith, tt)
AreBelow-snoc i (x ∷ xs) (lt, h) = (omega arith, AreBelow-snoc i xs h)

is_in-AreBelow : (i : ℕ) (xs : List ℕ) → AreBelow i xs → is_in i xs ≡ false
unfolding is_in
is_in-AreBelow i [] h = refl
is_in-AreBelow i (x ∷ xs) (lt, h) =
    ap₂ (λ a b. a || b) (==_ne i x (λ e. absurd (omega arith))) (is_in-AreBelow i xs h)

length-all_messages :
    (n i : ℕ) (xs : List ℕ) → AreBelow i xs → length (all_messages n i xs) ≡ length xs + n
unfolding all_messages add_if_not_exist
length-all_messages zero i xs h = omega arith
length-all_messages (suc n) i xs h =
    let added : ℕ × List ℕ = if is_in i xs then (4294967182, xs) else (0, xs ++ (i ∷ [])) in
    let e : added.1 ≡ xs ++ (i ∷ []) =
      ap (λ b. let r : ℕ × List ℕ = if b then (4294967182, xs) else (0, xs ++ (i ∷ [])) in r.1)
        (is_in-AreBelow i xs h) in
    ap (λ l. length (all_messages n (suc i) l)) e
    ∙ omega (
      arith,
      length-all_messages n (suc i) (xs ++ (i ∷ [])) (AreBelow-snoc i xs h),
      length-append xs (i ∷ []),
    )

-- For memory below the end of the address space, the pool is all free at first: its used size is 0. It starts
-- in the memory, and ends in it where the address is not one more than a multiple of 4. Otherwise
-- it can end up to 2 bytes behind the memory, and it does where the size is one more than that of
-- some messages.
pub init_msgpool_lem :
    (m : Actors) (mem memsize : ℕ)
    → mem + memsize + 3 < 2 ^ 32
    → mem % 4 ≤ memsize
    → let pool = init_msgpool mem memsize in
      (actor_mem_len (record m { msgpool = pool }) ≡ 0)
      × (mem ≤ pool.buf)
      × (mem % 4 ≢ 1 → pool.cap ≢ 0 → pool.buf + pool.cap ≤ mem + memsize)
      × (pool.cap ≢ 0 → pool.buf + pool.cap ≤ mem + memsize + 2)
      × (mem % 4 ≡ 1 → memsize % 12 ≡ 1 → pool.buf + pool.cap ≡ mem + memsize + 2)
unfolding init_msgpool actor_mem_len
init_msgpool_lem m mem memsize below enough =
    let n : ℕ = (memsize - mem % 4) / 12 in
    (
      omega (arith, length-all_messages n 0 [] tt),
      omega arith,
      λ not_1 some_messages. omega arith,
      λ some_messages. omega arith,
      λ is_1 one_more. omega arith,
    )
