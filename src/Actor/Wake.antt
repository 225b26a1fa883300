-- ===== src/Actor/Wake.antt =====
-- Each queued message has a dispatch to come.
use libmcu.Base.{
  ℕ, ◌≤◌, ◌<◌, ◌≡◌, ◌≢◌, inl, inr, sym, ap, subst, ◌∙◌, true, false, List, [], ◌∷◌, length, get_or,
  set, ◌==◌, arith, ==_iff, Bool-cases, get_or-set_self, get_or-set_ne, length-set,
}
use libmcu.Actor.{Core, Actors, idle, core_at, messages_of, priority_of, is_in}
use libmcu.Actor.Lists.{IsDistinct, weight, total, ==-not, total-set, weight-total}

-- The core of an actor is there.
abbrev pub IsActor : Actors → ℕ → Type 0
IsActor m a = (a < length m.messages) × (priority_of m a < length m.core)

-- An actor of the table that the core runs.
abbrev pub IsOwn : List (List ℕ) → List ℕ → ℕ → ℕ → Type 0
IsOwn msgs priority c a = (get_or priority a 0 ≡ c) × (a < length msgs)

pub IsOwn-set :
    (msgs : List (List ℕ)) (priority : List ℕ) (c b a : ℕ) (ms : List ℕ)
    → IsOwn msgs priority c b
    → IsOwn (set msgs a ms) priority c b
IsOwn-set msgs priority c b a ms (e, h) = (e, omega (arith, length-set msgs a ms, h))

-- A core's queue holds each of its own actors at most once, and the semaphore covers the
-- dispatches that they need.
abbrev pub IsCore : List (List ℕ) → List ℕ → ℕ → Core → Type 0
IsCore msgs priority c core =
    (total msgs core.runq ≤ core.dispatch_event)
    × IsDistinct core.runq
    × ((a : ℕ) → is_in a core.runq ≡ true → IsOwn msgs priority c a)

-- An actor out of the queue of its core has no messages.
pub record IsAwake (m : Actors) : Type 0 where
  pub cores : (c : ℕ) → IsCore m.messages m.priority c (core_at m c)
  pub queued : (a : ℕ) → is_in a (core_at m (priority_of m a)).runq ≡ false → messages_of m a ≡ []

-- The state with other messages of one actor and another core.
abbrev pub with_core : Actors → ℕ → List ℕ → ℕ → Core → Actors
with_core m a ms c core = record m { messages = set m.messages a ms; core = set m.core c core }

not_in :
    (m : Actors) (a d : ℕ) → IsAwake m → d ≢ priority_of m a → is_in a (core_at m d).runq ≡ false
not_in m a d v other = elim (Bool-cases (is_in a (core_at m d).runq)) [
  | inl there ↦ absurd (other (sym ((v.cores d).2 a there).0))
  | inr out ↦ out
]

-- The cores other than that of the actor do not see a change of its messages.
pub with_core-IsAwake :
    (m : Actors) (a : ℕ) (ms : List ℕ) (core : Core)
    → IsAwake m
    → IsActor m a
    → let c = priority_of m a in
      IsCore (set m.messages a ms) m.priority c core
      → ((b : ℕ)
          → b ≢ a
          → priority_of m b ≡ c
          → is_in b core.runq ≡ false
          → is_in b (core_at m c).runq ≡ false)
      → (is_in a core.runq ≡ false → ms ≡ [])
      → IsAwake (with_core m a ms c core)
with_core-IsAwake m a ms core v (actor, there) ok keeps queued =
    let c : ℕ = priority_of m a in
    let m' : Actors = with_core m a ms c core in
    let here : core_at m' c ≡ core = get_or-set_self m.core c core idle there in
    let elsewhere : (d : ℕ) → c ≢ d → core_at m' d ≡ core_at m d =
      λ d. get_or-set_ne m.core c d core idle in
    record {
      cores = λ d. elim (Bool-cases (c == d)) [
        | inl same ↦
            let e : c ≡ d = (==_iff c d).0 same in
            subst (λ i. IsCore m'.messages m.priority i (core_at m' i)) e
              (subst (IsCore m'.messages m.priority c) (sym here) ok)
        | inr other ↦
            let (covered, distinct, own) = v.cores d in
            subst (IsCore m'.messages m.priority d) (sym (elsewhere d (==-not c d other))) (
              subst (λ n. n ≤ (core_at m d).dispatch_event)
                  (sym (
                    total-set m.messages a ms (core_at m d).runq
                      (not_in m a d v (λ e. ==-not c d other (sym e)))))
                  covered,
              distinct,
              λ b h. IsOwn-set m.messages m.priority d b a ms (own b h),
            )
      ];
      queued = λ b h. elim (Bool-cases (b == a)) [
        | inl same ↦
            let e : b ≡ a = (==_iff b a).0 same in
            ap (messages_of m') e
            ∙ get_or-set_self m.messages a ms [] actor
            ∙ queued (
                ap (λ k. is_in a k.runq) (sym here)
                ∙ ap (λ i. is_in i (core_at m' (priority_of m i)).runq) (sym e)
                ∙ h)
        | inr other ↦
            let apart = ==-not b a other in
            get_or-set_ne m.messages a b ms [] (λ e. apart (sym e))
            ∙ v.queued b (elim (Bool-cases (c == priority_of m b)) [
              | inl same ↦
                  let e : c ≡ priority_of m b = (==_iff c (priority_of m b)).0 same in
                  ap (λ i. is_in b (core_at m i).runq) (sym e)
                  ∙ keeps b apart (sym e) (
                      ap (λ k. is_in b k.runq) (sym here)
                      ∙ ap (λ i. is_in b (core_at m' i).runq) e
                      ∙ h)
              | inr far ↦
                  ap (λ k. is_in b k.runq)
                    (sym (elsewhere (priority_of m b) (==-not c (priority_of m b) far)))
                  ∙ h
            ])
      ];
    }

-- The queue of a core whose semaphore is at 0 is empty, and its actors have no messages.
pub no_message_left :
    (m : Actors) (c a : ℕ)
    → IsAwake m
    → (core_at m c).dispatch_event ≡ 0
    → priority_of m a ≡ c
    → messages_of m a ≡ []
no_message_left m c a v none_left e =
    let spent : (core_at m (priority_of m a)).dispatch_event ≡ 0 =
      ap (λ i. (core_at m i).dispatch_event) e ∙ none_left in
    v.queued a (elim (Bool-cases (is_in a (core_at m (priority_of m a)).runq)) [
      | inl there ↦ absurd (
          heavy (messages_of m a) (
            omega (arith, weight-total m.messages a _ there, (v.cores (priority_of m a)).0, spent)))
      | inr out ↦ out
    ])
  where
    heavy : (ms : List ℕ) → weight ms ≤ 0 → ⊥
    heavy [] h = omega arith
    heavy (p ∷ ps) h = omega arith
