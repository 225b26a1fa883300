-- ===== src/Actor/Lists.antt =====
-- Queues without duplicates, and the messages behind them.
use libmcu.Base.{
  ℕ, suc, ◌+◌, ◌≤◌, ◌<◌, ◌≡◌, ◌≢◌, inl, inr, refl, sym, ap, ap₂, ◌∙◌, Bool, true, false, ◌||◌, List,
  [], ◌∷◌, ◌++◌, length, get_or, set, ◌==◌, arith, ==_iff, ==_ne, Bool-cases, get_or-set_self,
  get_or-set_ne,
}
use libmcu.Actor.{is_in}

abbrev pub IsDistinct : List ℕ → Type 0
IsDistinct [] = Unit
IsDistinct (x ∷ xs) = (is_in x xs ≡ false) × IsDistinct xs

-- The dispatches that an actor with these messages needs: one for each message, and one if it is
-- in the queue without any.
abbrev pub weight : List ℕ → ℕ
weight [] = 1
weight (p ∷ ps) = suc (length ps)

abbrev pub total : List (List ℕ) → List ℕ → ℕ
total msgs [] = 0
total msgs (a ∷ q) = weight (get_or msgs a []) + total msgs q

pub or_false : (a b : Bool) → (a || b) ≡ false → (a ≡ false) × (b ≡ false)
or_false true b h = absurd (ground arith)
or_false false b h = (refl, h)

pub ==-not : (a b : ℕ) → (a == b) ≡ false → a ≢ b
==-not a b h e = absurd (ground arith)

pub is_in-snoc : (x y : ℕ) (xs : List ℕ) → is_in x (xs ++ (y ∷ [])) ≡ (is_in x xs || x == y)
unfolding is_in
is_in-snoc x y [] = ground arith
is_in-snoc x y (z ∷ xs) =
    ap (λ b. x == z || b) (is_in-snoc x y xs) ∙ or_assoc (x == z) (is_in x xs) (x == y)
  where
    or_assoc : (a b c : Bool) → (a || (b || c)) ≡ ((a || b) || c)
    or_assoc true b c = refl
    or_assoc false b c = refl

pub IsDistinct-snoc :
    (xs : List ℕ) (y : ℕ) → IsDistinct xs → is_in y xs ≡ false → IsDistinct (xs ++ (y ∷ []))
unfolding is_in
IsDistinct-snoc [] y d h = (refl, tt)
IsDistinct-snoc (x ∷ xs) y (new, d) h =
    let (other, h') = or_false (y == x) (is_in y xs) h in
    (
      is_in-snoc x y xs ∙ ap₂ (λ a b. a || b) new (==_ne x y (λ e. ==-not y x other (sym e))),
      IsDistinct-snoc xs y d h',
    )

pub total-snoc :
    (msgs : List (List ℕ)) (q : List ℕ) (a : ℕ)
    → total msgs (q ++ (a ∷ [])) ≡ total msgs q + weight (get_or msgs a [])
total-snoc msgs [] a = omega arith
total-snoc msgs (b ∷ q) a = omega (arith, total-snoc msgs q a)

pub total-set :
    (msgs : List (List ℕ)) (a : ℕ) (ms : List ℕ) (q : List ℕ)
    → is_in a q ≡ false
    → total (set msgs a ms) q ≡ total msgs q
unfolding is_in
total-set msgs a ms [] h = refl
total-set msgs a ms (b ∷ q) h =
    let (other, h') = or_false (a == b) (is_in a q) h in
    ap₂ (λ l n. weight l + n) (get_or-set_ne msgs a b ms [] (==-not a b other))
      (total-set msgs a ms q h')

-- One message more is one dispatch more at most.
pub total-set_more :
    (msgs : List (List ℕ)) (a : ℕ) (ms : List ℕ) (q : List ℕ)
    → a < length msgs
    → IsDistinct q
    → weight ms ≤ suc (weight (get_or msgs a []))
    → total (set msgs a ms) q ≤ suc (total msgs q)
total-set_more msgs a ms [] h d le = omega arith
total-set_more msgs a ms (b ∷ q) h (new, d) le = elim (Bool-cases (b == a)) [
  | inl same ↦
      let e : b ≡ a = (==_iff b a).0 same in
      omega (
        arith,
        ap weight (ap (λ i. get_or (set msgs a ms) i []) e ∙ get_or-set_self msgs a ms [] h),
        ap (λ i. weight (get_or msgs i [])) e,
        total-set msgs a ms q (ap (λ i. is_in i q) (sym e) ∙ new),
        le,
      )
  | inr other ↦ omega (
    arith,
    ap weight (get_or-set_ne msgs a b ms [] (λ e. ==-not b a other (sym e))),
    total-set_more msgs a ms q h d le,
  )
]

pub weight-total :
    (msgs : List (List ℕ)) (a : ℕ) (q : List ℕ)
    → is_in a q ≡ true
    → weight (get_or msgs a []) ≤ total msgs q
unfolding is_in
weight-total msgs a [] h = absurd (ground arith)
weight-total msgs a (b ∷ q) h = elim (Bool-cases (a == b)) [
  | inl same ↦ omega (arith, ap (λ i. weight (get_or msgs i [])) ((==_iff a b).0 same))
  | inr other ↦ omega (arith, weight-total msgs a q (ap (λ t. t || is_in a q) (sym other) ∙ h))
]
