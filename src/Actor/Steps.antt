-- ===== src/Actor/Steps.antt =====
-- Each call keeps the actors awake.
use libmcu.Base.{
  ℕ, suc, ◌+◌, ◌-◌, ◌≤◌, ◌<◌, ◌≡◌, ◌≢◌, ◌⊎◌, inl, inr, refl, sym, ap, ap₂, subst, ◌∙◌, Bool, true,
  false, ◌||◌, List, [], ◌∷◌, ◌++◌, length, set, ◌==◌, if◌then◌else◌, arith, ==_iff, ==_ne,
  Bool-cases, get_or-set_self, get_or-set_ne, errno,
}
use libmcu.Actor.{
  Core, Actors, idle, core_at, messages_of, priority_of, is_in, add_if_not_exist, pop, has_message,
}
use libmcu.Actor.Lists.{
  IsDistinct, weight, total, or_false, ==-not, is_in-snoc, IsDistinct-snoc, total-snoc, total-set,
  total-set_more,
}
use libmcu.Actor.Wake.{IsActor, IsCore, IsOwn, IsOwn-set, IsAwake, with_core, with_core-IsAwake}
use libmcu.Actor.Calls.{scheduled, dispatched}

is_in_last : (a : ℕ) (q : List ℕ) → is_in a (q ++ (a ∷ [])) ≡ true
is_in_last a q =
    is_in-snoc a a q ∙ ap (λ b. is_in a q || b) ((==_iff a a).1 refl) ∙ or_true (is_in a q)
  where
    or_true : (b : Bool) → (b || true) ≡ true
    or_true true = refl
    or_true false = refl

-- The actors of a queue with one more behind.
snoc_cases : (a b : ℕ) (q : List ℕ) → is_in b (q ++ (a ∷ [])) ≡ true → (is_in b q ≡ true) ⊎ (b ≡ a)
snoc_cases a b q h = elim (Bool-cases (is_in b q)) [
  | inl here ↦ inl here
  | inr out ↦ inr ((==_iff b a).0 (ap (λ t. t || b == a) (sym out) ∙ sym (is_in-snoc b a q) ∙ h))
]

not_both : {b : Bool} → b ≡ true → b ≡ false → ⊥
not_both h h' = ground arith

-- What `add_if_not_exist` gives.
abbrev pub added : Bool → ℕ → List ℕ → ℕ × List ℕ
added b a q = if b then (errno 114, q) else (0, q ++ (a ∷ []))

weight-pos : (ms : List ℕ) → 0 < weight ms
weight-pos [] = omega arith
weight-pos (p ∷ ps) = omega arith

module _ (m : Actors) (a : ℕ) (v : IsAwake m) (is : IsActor m a) where
  abbrev c : ℕ
  c = priority_of m a

  abbrev core : Core
  core = core_at m c

  still_ours :
      (ms : List ℕ) (b : ℕ)
      → IsOwn m.messages m.priority c b
      → IsOwn (set m.messages a ms) m.priority c b
  still_ours ms b own = IsOwn-set m.messages m.priority c b a ms own

  same_ours : (b : ℕ) → b ≡ a → IsOwn m.messages m.priority c b
  same_ours b same = (ap (priority_of m) same, omega (arith, same, is.0))

  -- An actor that is scheduled with at most one message more.
  scheduled_by :
      (ms : List ℕ) (b : Bool)
      → is_in a (core).runq ≡ b
      → weight ms ≤ suc (weight (messages_of m a))
      → (messages_of m a ≡ [] → weight ms ≤ 1)
      → IsAwake (
          with_core m a ms c (record {
            runq = (added b a (core).runq).1;
            dispatch_event = suc (core).dispatch_event;
          }))
  scheduled_by ms true e more once =
      let (covered, distinct, own) = v.cores c in
      with_core-IsAwake m a ms _ v is
        (
          omega (arith, total-set_more m.messages a ms (core).runq is.0 distinct more, covered),
          distinct,
          λ b h. still_ours ms b (own b h),
        )
        (λ b apart same out. out) (λ out. absurd (not_both e out))
  scheduled_by ms false e more once =
      let (covered, distinct, own) = v.cores c in
      with_core-IsAwake m a ms _ v is
        (
          omega (
            arith,
            total-snoc (set m.messages a ms) (core).runq a,
            total-set m.messages a ms (core).runq e,
            ap weight (get_or-set_self m.messages a ms [] is.0),
            once (v.queued a e),
            covered,
          ),
          IsDistinct-snoc (core).runq a distinct e,
          λ b h. still_ours ms b (elim (snoc_cases a b (core).runq h) [
            | inl here ↦ own b here
            | inr same ↦ same_ours b same
          ]),
        )
        (λ b apart same out.
          (or_false (is_in b (core).runq) (b == a) (sym (is_in-snoc b a (core).runq) ∙ out)).0)
        (λ out. absurd (not_both (is_in_last a (core).runq) out))

  pub scheduled-IsAwake :
      (ms : List ℕ)
      → weight ms ≤ suc (weight (messages_of m a))
      → (messages_of m a ≡ [] → weight ms ≤ 1)
      → IsAwake (with_core m a ms c (scheduled core a))
  unfolding add_if_not_exist
  scheduled-IsAwake ms more once = scheduled_by ms (is_in a (core).runq) refl more once

  module _ (q : List ℕ) (first : (core).runq ≡ a ∷ q) where
    rest_lem :
        (is_in a q ≡ false)
        × IsDistinct q
        × (weight (messages_of m a) + total m.messages q ≤ (core).dispatch_event)
        × ((b : ℕ) → is_in b q ≡ true → IsOwn m.messages m.priority c b)
    unfolding is_in
    rest_lem =
        let (covered, distinct, own) = v.cores c in
        let (new, distinct') = subst IsDistinct first distinct in
        (
          new,
          distinct',
          subst (λ r. total m.messages r ≤ (core).dispatch_event) first covered,
          λ b h. own b (ap (is_in b) first ∙ ap (λ t. b == a || t) h ∙ or_true (b == a)),
        )
      where
        or_true : (b : Bool) → (b || true) ≡ true
        or_true true = refl
        or_true false = refl

    -- The other actors of the queue stay in it.
    keeps_lem : (b : ℕ) → b ≢ a → is_in b q ≡ false → is_in b (core).runq ≡ false
    unfolding is_in
    keeps_lem b apart out = ap (is_in b) first ∙ ap₂ (λ x y. x || y) (==_ne b a apart) out

    -- An actor that is out of the queue with its last message.
    gone-IsAwake :
        IsAwake
          (with_core m a [] c (record { runq = q; dispatch_event = (core).dispatch_event - 1 }))
    gone-IsAwake =
        let (new, distinct, covered, own) = rest_lem in
        with_core-IsAwake m a [] _ v is
          (
            omega (arith, total-set m.messages a [] q new, covered, weight-pos (messages_of m a)),
            distinct,
            λ b h. still_ours [] b (own b h),
          )
          (λ b apart same out. keeps_lem b apart out) (λ out. refl)

    -- An actor with more messages goes to the end of the queue.
    again-IsAwake :
        (p x : ℕ) (xs : List ℕ)
        → messages_of m a ≡ p ∷ x ∷ xs
        → IsAwake (
            with_core m a
              (x ∷ xs)
              c
              (record { runq = q ++ (a ∷ []); dispatch_event = (core).dispatch_event - 1 }))
    again-IsAwake p x xs e =
        let (new, distinct, covered, own) = rest_lem in
        with_core-IsAwake m a (x ∷ xs) _ v is
          (
            omega (
              arith,
              total-snoc (set m.messages a (x ∷ xs)) q a,
              total-set m.messages a (x ∷ xs) q new,
              ap weight (get_or-set_self m.messages a (x ∷ xs) [] is.0),
              ap weight e,
              covered,
            ),
            IsDistinct-snoc q a distinct new,
            λ b h.
                still_ours (x ∷ xs) b (elim (snoc_cases a b q h) [
                  | inl here ↦ own b here
                  | inr same ↦ same_ours b same
                ]),
          )
          (λ b apart same out.
            keeps_lem b apart (or_false (is_in b q) (b == a) (sym (is_in-snoc b a q) ∙ out)).0)
          (λ out. absurd (not_both (is_in_last a q) out))

    dispatched_by :
        (old : List ℕ)
        → messages_of m a ≡ old
        → (b : Bool) → is_in a q ≡ b
        → IsAwake (
            with_core m a (pop old).1 c (record {
              runq = if has_message (pop old).1 then (added b a q).1 else q;
              dispatch_event = (core).dispatch_event - 1;
            }))
    dispatched_by old e true in_rest = absurd (not_both in_rest (rest_lem).0)
    dispatched_by [] e false out = gone-IsAwake
    dispatched_by (p ∷ []) e false out = gone-IsAwake
    dispatched_by (p ∷ x ∷ xs) e false out = again-IsAwake p x xs e

    pub dispatched-IsAwake :
        IsAwake (
          with_core m a (pop (messages_of m a)).1 c (dispatched core q a (pop (messages_of m a)).1))
    unfolding add_if_not_exist
    dispatched-IsAwake = dispatched_by (messages_of m a) refl (is_in a q) refl

-- A dispatcher that finds its queue empty.
pub dispatched_none-IsAwake :
    (m : Actors) (c : ℕ)
    → IsAwake m
    → c < length m.core
    → (core_at m c).runq ≡ []
    → IsAwake (record m {
      core = set m.core c (record { runq = []; dispatch_event = (core_at m c).dispatch_event - 1 });
    })
unfolding is_in
dispatched_none-IsAwake m c v there e =
    let core : Core = record { runq = []; dispatch_event = (core_at m c).dispatch_event - 1 } in
    let m' : Actors = record m { core = set m.core c core } in
    let runq_lem : (d : ℕ)
        → ((core_at m' d).runq ≡ (core_at m d).runq)
          × IsCore m.messages m.priority d (core_at m' d) =
      λ d. elim (Bool-cases (c == d)) [
        | inl same ↦
            let s : c ≡ d = (==_iff c d).0 same in
            let here : core_at m' d ≡ core =
              ap (core_at m') (sym s) ∙ get_or-set_self m.core c core idle there in
            (
              ap (λ k. k.runq) here ∙ sym (ap (λ i. (core_at m i).runq) (sym s) ∙ e),
              subst (IsCore m.messages m.priority d) (sym here)
                  (omega arith, tt, λ a h. absurd (not_both h refl)),
            )
        | inr other ↦
            let far : core_at m' d ≡ core_at m d =
              get_or-set_ne m.core c d core idle (==-not c d other) in
            (ap (λ k. k.runq) far, subst (IsCore m.messages m.priority d) (sym far) (v.cores d))
      ] in
    record {
      cores = λ d. (runq_lem d).1;
      queued = λ a h. v.queued a (ap (is_in a) (sym (runq_lem (priority_of m a)).0) ∙ h);
    }
