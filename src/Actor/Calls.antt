-- ===== src/Actor/Calls.antt =====
-- What a call does to a core and to the messages of an actor.
use libmcu.Base.{
  ℕ, zero, suc, ◌-◌, ◌<◌, ◌≡◌, refl, ap, ◌∙◌, Option, none, some, List, [], ◌∷◌, length, get_or,
  set, if◌then◌else◌, get_or-set_self,
}
use libmcu.Actor.{
  Core, Actors, idle, core_at, messages_of, priority_of, add_if_not_exist, push_actor, pop,
  pop_actor, pop_message, has_message, schedule_actor, wait_event, reschedule, dispatch_to,
  dispatch_actor,
}
use libmcu.Actor.Wake.{with_core}

set_twice : {A : Type 0} (xs : List A) (i : ℕ) (x y : A) → set (set xs i x) i y ≡ set xs i y
set_twice [] i x y = refl
set_twice (z ∷ xs) zero x y = refl
set_twice (z ∷ xs) (suc i) x y = ap (λ t. z ∷ t) (set_twice xs i x y)

pub set_same : {A : Type 0} (xs : List A) (i : ℕ) (d : A) → set xs i (get_or xs i d) ≡ xs
set_same [] i d = refl
set_same (x ∷ xs) zero d = refl
set_same (x ∷ xs) (suc i) d = ap (λ t. x ∷ t) (set_same xs i d)

-- The core after scheduling an actor, and the one after a dispatch of its first actor.
abbrev pub scheduled : Core → ℕ → Core
scheduled core a = record {
  runq = (add_if_not_exist a core.runq).1;
  dispatch_event = suc core.dispatch_event;
}

abbrev pub dispatched : Core → List ℕ → ℕ → List ℕ → Core
dispatched core q a rest = record {
  runq = if has_message rest then (add_if_not_exist a q).1 else q;
  dispatch_event = core.dispatch_event - 1;
}

pub schedule_actor_lem :
    (m : Actors) (a : ℕ)
    → priority_of m a < length m.core
    → schedule_actor m a
      ≡ record m { core = set m.core (priority_of m a) (scheduled (core_at m (priority_of m a)) a) }
unfolding schedule_actor push_actor
schedule_actor_lem m a there =
    let c : ℕ = priority_of m a in
    let core : Core = core_at m c in
    let pushed : Core = record core { runq = (add_if_not_exist a core.runq).1 } in
    ap
      (λ k. record m {
        core = set (set m.core c pushed) c (record k { dispatch_event = suc k.dispatch_event });
      })
      (get_or-set_self m.core c pushed idle there)
    ∙ ap (λ cs. record m { core = cs }) (set_twice m.core c pushed (scheduled core a))

-- The core without its first actor.
abbrev popped : Core → List ℕ → Core
popped core q = record { runq = q; dispatch_event = core.dispatch_event - 1 }

pop_actor_lem :
    (m : Actors) (c a : ℕ) (q : List ℕ)
    → c < length m.core
    → (core_at m c).runq ≡ a ∷ q
    → pop_actor (wait_event m c) c
      ≡ (some a, record m { core = set m.core c (popped (core_at m c) q) })
unfolding wait_event pop_actor
pop_actor_lem m c a q there e =
    let w : Core = record (core_at m c) { dispatch_event = (core_at m c).dispatch_event - 1 } in
    let after : Core → Option ℕ × Actors = λ k. (
      (pop k.runq).0,
      record m { core = set (set m.core c w) c (record k { runq = (pop k.runq).1 }) },
    ) in
    ap after (get_or-set_self m.core c w idle there)
    ∙ ap (λ r. after (record w { runq = r })) e
    ∙ ap (λ cs. (some a, record m { core = cs })) (set_twice m.core c w (popped (core_at m c) q))

-- A dispatcher that need not wait, with no actor in its queue.
pub dispatch_none_lem :
    (m : Actors) (c : ℕ)
    → c < length m.core
    → (core_at m c).runq ≡ []
    → dispatch_actor (wait_event m c) c ≡ (
      none,
      record m {
        core =
            set m.core c (record { runq = []; dispatch_event = (core_at m c).dispatch_event - 1 });
      },
    )
unfolding dispatch_actor wait_event pop_actor
dispatch_none_lem m c there e =
    let w : Core = record (core_at m c) { dispatch_event = (core_at m c).dispatch_event - 1 } in
    let found : Option ℕ × Actors → Option (ℕ × Option ℕ) × Actors = λ r. elim r.0 [
      | none ↦ (none, r.1)
      | some actor ↦ let (p, m'') = dispatch_to r.1 actor c in (some (actor, p), m'')
    ] in
    let after : Core → Option ℕ × Actors = λ k. (
      (pop k.runq).0,
      record m { core = set (set m.core c w) c (record k { runq = (pop k.runq).1 }) },
    ) in
    ap (λ k. found (after k)) (get_or-set_self m.core c w idle there)
    ∙ ap (λ r. found (after (record w { runq = r }))) e
    ∙ ap (λ cs. (none, record m { core = cs })) (set_twice m.core c w (record w { runq = [] }))

module _ (m : Actors) (c a : ℕ) (q : List ℕ) (there : c < length m.core)
    (actor : a < length m.messages) where
  abbrev with_messages : List ℕ → Actors
  with_messages ms = with_core m a ms c (popped (core_at m c) q)

  reschedule_lem :
      (ms : List ℕ)
      → reschedule (with_messages ms) a c ≡ with_core m a ms c (dispatched (core_at m c) q a ms)
  unfolding reschedule push_actor
  reschedule_lem ms =
      ap (λ l. if has_message l then push_actor (with_messages ms) a c else with_messages ms)
        (get_or-set_self m.messages a ms [] actor)
      ∙ by_rest ms
    where
      by_rest :
          (l : List ℕ)
          → (if has_message l then push_actor (with_messages ms) a c else with_messages ms)
            ≡ with_core m a ms c (record {
              runq = if has_message l then (add_if_not_exist a q).1 else q;
              dispatch_event = (core_at m c).dispatch_event - 1;
            })
      by_rest [] = refl
      by_rest (p ∷ l) =
          let k : Core = popped (core_at m c) q in
          ap
            (λ x. record (with_messages ms) {
              core = set (set m.core c k) c (record x { runq = (add_if_not_exist a x.runq).1 });
            })
            (get_or-set_self m.core c k idle there)
          ∙ ap (λ cs. record (with_messages ms) { core = cs })
              (set_twice m.core c k (record k { runq = (add_if_not_exist a q).1 }))

  dispatch_to_lem :
      (ms : List ℕ)
      → let m' = with_messages (pop ms).1 in
        let r : Option ℕ × Actors =
          ((pop ms).0, elim (pop ms).0 [ none ↦ m' | some msg ↦ reschedule m' a c ]) in
        r ≡ ((pop ms).0, with_core m a (pop ms).1 c (dispatched (core_at m c) q a (pop ms).1))
  dispatch_to_lem [] = refl
  dispatch_to_lem (p ∷ ms) = ap (λ m'. (some p, m')) (reschedule_lem ms)

  -- A dispatcher that need not wait, with an actor in its queue.
  pub dispatch_actor_lem :
      (core_at m c).runq ≡ a ∷ q
      → dispatch_actor (wait_event m c) c ≡ (
        some (a, (pop (messages_of m a)).0),
        with_core m a
            (pop (messages_of m a)).1
            c
            (dispatched (core_at m c) q a (pop (messages_of m a)).1),
      )
  unfolding dispatch_actor dispatch_to pop_message
  dispatch_actor_lem e =
      ap
        (λ r. elim r.0 [
          | none ↦ (none, r.1)
          | some actor ↦ let (p, m'') = dispatch_to r.1 actor c in (some (actor, p), m'')
        ])
        (pop_actor_lem m c a q there e)
      ∙ ap (λ r. (some (a, r.0), r.1)) (dispatch_to_lem (messages_of m a))
