-- ===== src/Actor/Order.antt =====
-- Which messages the handlers have been given after any calls.
use libmcu.Base.{
  ◌&&◌, Outcome, done, undefined, ◌>>=◌, ℕ, suc, ◌-◌, ◌≤◌, ◌<◌, ◌≡◌, inl, inr, refl, sym, ap, subst,
  ◌∙◌, Bool, true, false, not, ◌||◌, Option, none, some, List, [], ◌∷◌, ◌++◌, length, get_or, set,
  ◌==◌, if◌then◌else◌, arith, ==_iff, Bool-cases, get_or-set_self, get_or-set_ne, length-set,
  length-append, append-nil,
}
use libmcu.Actor.{
  is_linked, Core, Actors, core_at, messages_of, priority_of, is_in, add_if_not_exist, pop,
  push_message, schedule_actor, wait_event, dispatch_actor, actor_send,
}
use libmcu.Actor.Lists.{weight, ==-not}
use libmcu.Actor.Wake.{IsActor, IsAwake, with_core}
use libmcu.Actor.Calls.{
  set_same, scheduled, dispatched, schedule_actor_lem, dispatch_actor_lem, dispatch_none_lem,
}
use libmcu.Actor.Steps.{added, scheduled-IsAwake, dispatched-IsAwake, dispatched_none-IsAwake}

-- `actor_send`, also from a handler, and a round of the dispatcher of a core.
pub data Call : Type 0 where
  send : ℕ → Option ℕ → Call
  dispatch : ℕ → Call

-- What a call did: a message accepted for an actor, or an actor's handler called.
pub data Did : Type 0 where
  accepted : ℕ → ℕ → Did
  handled : ℕ → Option ℕ → Did
  other : Did

abbrev pub handling : Option (ℕ × Option ℕ) → Did
handling none = other
handling (some (a, p)) = handled a p

-- A dispatcher whose semaphore is at 0 waits.
abbrev pub actor_step : Actors → Call → Outcome (Did × Actors)
actor_step m (send a none) = actor_send m a none >>= λ r. done (other, r.1)
actor_step m (send a (some p)) =
    actor_send m a (some p) >>= λ r. done (if r.0 == 0 then accepted a p else other, r.1)
actor_step m (dispatch c) =
    let (r, m') = dispatch_actor (wait_event m c) c in
    done (if (core_at m c).dispatch_event == 0 then (other, m) else (handling r, m'))

abbrev pub actor_run : Actors → List Call → Outcome (List Did × Actors)
actor_run m [] = done ([], m)
actor_run m (call ∷ calls) =
    actor_step m call >>= (λ r. actor_run r.1 calls >>= λ rest. done (r.0 ∷ rest.0, rest.1))

-- The messages accepted for an actor, and those that its handler was given.
abbrev pub accepted_for : ℕ → List Did → List ℕ
accepted_for a [] = []
accepted_for a (accepted b p ∷ ds) = if b == a then p ∷ accepted_for a ds else accepted_for a ds
accepted_for a (handled b p ∷ ds) = accepted_for a ds
accepted_for a (other ∷ ds) = accepted_for a ds

abbrev pub handled_by : ℕ → List Did → List ℕ
handled_by a [] = []
handled_by a (accepted b p ∷ ds) = handled_by a ds
handled_by a (handled b none ∷ ds) = handled_by a ds
handled_by a (handled b (some p) ∷ ds) = if b == a then p ∷ handled_by a ds else handled_by a ds
handled_by a (other ∷ ds) = handled_by a ds

-- The actor or the core of the call is there, and a message that is sent stands in that actor's
-- queue, which refuses it, or in no queue and not in the free list.
abbrev pub IsCall : Actors → Call → Type 0
IsCall m (send a none) = IsActor m a
IsCall m (send a (some p)) =
    IsActor m a × ((is_in p (messages_of m a) || not (is_linked m p)) ≡ true)
IsCall m (dispatch c) = c < length m.core

abbrev pub IfDone : (Did × Actors → Type 0) → Outcome (Did × Actors) → Type 0
IfDone P (done r) = P r
IfDone P undefined = Unit

-- Each call is one, in the state that it is made in.
abbrev pub AreCalls : List Call → Actors → Type 0
AreCalls [] m = Unit
AreCalls (call ∷ calls) m = IsCall m call × IfDone (λ r. AreCalls calls r.1) (actor_step m call)

-- As many actors and cores, and the same priorities.
abbrev pub IsSameSize : Actors → Actors → Type 0
IsSameSize m m' =
    (length m'.messages ≡ length m.messages)
    × (length m'.core ≡ length m.core)
    × (m'.priority ≡ m.priority)

-- What was queued and is accepted is what is handed over and stays queued, in order.
abbrev pub IsKept : Actors → Did × Actors → Type 0
IsKept m (did, m') =
    (a : ℕ)
    → messages_of m a ++ accepted_for a (did ∷ []) ≡ handled_by a (did ∷ []) ++ messages_of m' a

abbrev pub IsOk : Actors → Did × Actors → Type 0
IsOk m r = IsAwake r.1 × IsSameSize m r.1 × IsKept m r

-- The messages of the actors after those of one have changed.
messages_of-with :
    (m : Actors) (a b : ℕ) (ms : List ℕ)
    → a < length m.messages
    → get_or (set m.messages a ms) b [] ≡ (if a == b then ms else messages_of m b)
messages_of-with m a b ms actor = elim (Bool-cases (a == b)) [
  | inl same ↦
      ap (λ i. get_or (set m.messages a ms) i []) (sym ((==_iff a b).0 same))
      ∙ get_or-set_self m.messages a ms [] actor
      ∙ ap (λ t. if t then ms else messages_of m b) (sym same)
  | inr far ↦
      get_or-set_ne m.messages a b ms [] (==-not a b far)
      ∙ ap (λ t. if t then ms else messages_of m b) (sym far)
]

is_in_first : (a : ℕ) (q : List ℕ) → is_in a (a ∷ q) ≡ true
unfolding is_in
is_in_first a q = ap (λ t. t || is_in a q) ((==_iff a a).1 refl)

-- A change of cores only.
IsKept-core : (m m' : Actors) → m'.messages ≡ m.messages → IsKept m (other, m')
IsKept-core m m' e a = append-nil (messages_of m a) ∙ ap (λ msgs. get_or msgs a []) (sym e)

with_core-IsSameSize :
    (m : Actors) (a : ℕ) (ms : List ℕ) (c : ℕ) (core : Core)
    → IsSameSize m (with_core m a ms c core)
with_core-IsSameSize m a ms c core = (length-set m.messages a ms, length-set m.core c core, refl)

module _ (m : Actors) (v : IsAwake m) where
  send_none-IsOk : (a : ℕ) → IsActor m a → IsOk m (other, schedule_actor m a)
  send_none-IsOk a is =
      let c : ℕ = priority_of m a in
      let core : Core = scheduled (core_at m c) a in
      subst (λ m'. IsOk m (other, m')) (sym (schedule_actor_lem m a is.1))
        (
          subst (λ msgs. IsAwake (record m { messages = msgs; core = set m.core c core }))
              (set_same m.messages a [])
              (scheduled-IsAwake m a v is (messages_of m a) (omega arith)
                (λ e. omega (arith, ap weight e))),
          (refl, length-set m.core c core, refl),
          IsKept-core m (record m { core = set m.core c core }) refl,
        )

  -- With the test for a duplicate.
  abbrev sent : (a p : ℕ) → Bool → Did × Actors
  sent a p b =
      let (rc, q) = added b p (messages_of m a) in
      let m' : Actors = record m { messages = set m.messages a q } in
      (if rc == 0 then accepted a p else other, if not (rc == 0) then m' else schedule_actor m' a)

  weight-snoc :
      (ms : List ℕ) (p : ℕ)
      → (weight (ms ++ (p ∷ [])) ≤ suc (weight ms)) × (ms ≡ [] → weight (ms ++ (p ∷ [])) ≤ 1)
  weight-snoc [] p = (omega arith, λ e. omega arith)
  weight-snoc (x ∷ ms) p = (omega (arith, length-append ms (p ∷ [])), λ e. absurd (ground arith))

  sent-IsOk : (a p : ℕ) (b : Bool) → IsActor m a → IsOk m (sent a p b)
  sent-IsOk a p true is =
      subst (λ msgs. IsOk m (other, record m { messages = msgs })) (sym (set_same m.messages a []))
        (v, (refl, refl, refl), IsKept-core m m refl)
  sent-IsOk a p false is =
      let c : ℕ = priority_of m a in
      let ms : List ℕ = messages_of m a ++ (p ∷ []) in
      let core : Core = scheduled (core_at m c) a in
      subst (λ m'. IsOk m (accepted a p, m'))
        (sym (schedule_actor_lem (record m { messages = set m.messages a ms }) a is.1))
        (
          scheduled-IsAwake m a v is ms (weight-snoc (messages_of m a) p).0
              (weight-snoc (messages_of m a) p).1,
          with_core-IsSameSize m a ms c core,
          λ b. elim (Bool-cases (a == b)) [
            | inl same ↦
                ap (λ t. messages_of m b ++ (if t then p ∷ [] else [])) same
                ∙ ap (λ i. messages_of m i ++ (p ∷ [])) (sym ((==_iff a b).0 same))
                ∙ sym (
                    messages_of-with m a b ms is.0
                    ∙ ap (λ t. if t then ms else messages_of m b) same)
            | inr far ↦
                ap (λ t. messages_of m b ++ (if t then p ∷ [] else [])) far
                ∙ append-nil (messages_of m b)
                ∙ sym (
                    messages_of-with m a b ms is.0
                    ∙ ap (λ t. if t then ms else messages_of m b) far)
          ],
        )

  kept_pop :
      (a b : ℕ) (old : List ℕ)
      → messages_of m a ≡ old
      → messages_of m b ++ []
        ≡ handled_by b (handled a (pop old).0 ∷ [])
          ++ (if a == b then (pop old).1 else messages_of m b)
  kept_pop a b [] e = append-nil (messages_of m b) ∙ elim (Bool-cases (a == b)) [
    | inl same ↦
        ap (messages_of m) (sym ((==_iff a b).0 same))
        ∙ e
        ∙ ap (λ t. if t then [] else messages_of m b) (sym same)
    | inr far ↦ ap (λ t. if t then [] else messages_of m b) (sym far)
  ]
  kept_pop a b (p ∷ ps) e = append-nil (messages_of m b) ∙ elim (Bool-cases (a == b)) [
    | inl same ↦
        ap (messages_of m) (sym ((==_iff a b).0 same))
        ∙ e
        ∙ ap (λ t. (if t then p ∷ [] else []) ++ (if t then ps else messages_of m b)) (sym same)
    | inr far ↦
        ap (λ t. (if t then p ∷ [] else []) ++ (if t then ps else messages_of m b)) (sym far)
  ]

  dispatched-IsOk :
      (a : ℕ) (q : List ℕ)
      → IsActor m a
      → (core_at m (priority_of m a)).runq ≡ a ∷ q
      → let old = messages_of m a in
        let c = priority_of m a in
        IsOk m (
          handled a (pop old).0,
          with_core m a (pop old).1 c (dispatched (core_at m c) q a (pop old).1),
        )
  dispatched-IsOk a q is first =
      let old : List ℕ = messages_of m a in
      let c : ℕ = priority_of m a in
      (
        dispatched-IsAwake m a v is q first,
        with_core-IsSameSize m a (pop old).1 c (dispatched (core_at m c) q a (pop old).1),
        λ b.
            kept_pop a b old refl
            ∙ ap (λ l. handled_by b (handled a (pop old).0 ∷ []) ++ l)
                (sym (messages_of-with m a b (pop old).1 is.0)),
      )

  woken-IsOk :
      (c : ℕ) (q : List ℕ)
      → c < length m.core
      → (core_at m c).runq ≡ q
      → IsOk m
          (handling (dispatch_actor (wait_event m c) c).0, (dispatch_actor (wait_event m c) c).1)
  woken-IsOk c [] there e =
      let core : Core = record { runq = []; dispatch_event = (core_at m c).dispatch_event - 1 } in
      subst (λ r. IsOk m (handling r.0, r.1)) (sym (dispatch_none_lem m c there e))
        (
          dispatched_none-IsAwake m c v there e,
          (refl, length-set m.core c core, refl),
          IsKept-core m (record m { core = set m.core c core }) refl,
        )
  woken-IsOk c (a ∷ q) there e =
      let (mine, actor) = (v.cores c).2 a (ap (is_in a) e ∙ is_in_first a q) in
      subst (λ r. IsOk m (handling r.0, r.1)) (sym (dispatch_actor_lem m c a q there actor e))
        (subst
          (λ d. IsOk m (
            handled a (pop (messages_of m a)).0,
            with_core m a (pop (messages_of m a)).1 d
                (dispatched (core_at m d) q a (pop (messages_of m a)).1),
          ))
          mine
          (dispatched-IsOk a q (actor, omega (arith, mine, there))
            (ap (λ d. (core_at m d).runq) mine ∙ e)))

  send_lem :
      (a p : ℕ) (b linked : Bool)
      → (b || not linked) ≡ true
      → (let r : ℕ × List ℕ = added b p (messages_of m a) in
          let pushed : Outcome (ℕ × Actors) =
            if r.0 == 0 && linked
            then undefined
            else done (r.0, record m { messages = set m.messages a r.1 }) in
          let out : Outcome (ℕ × Actors) =
            pushed >>= λ r. done (r.0, if not (r.0 == 0) then r.1 else schedule_actor r.1 a) in
          out >>= λ r. done (if r.0 == 0 then accepted a p else other, r.1))
        ≡ done (sent a p b)
  send_lem a p true linked h = refl
  send_lem a p false false h = refl
  send_lem a p false true h = absurd (ground (arith, h))

  pub step-IsOk :
      (call : Call) → IsCall m call → (r : Did × Actors) × (actor_step m call ≡ done r) × IsOk m r
  unfolding actor_send push_message add_if_not_exist
  step-IsOk (send a none) is = ((other, schedule_actor m a), refl, send_none-IsOk a is)
  step-IsOk (send a (some p)) (is, free) =
      let b : Bool = is_in p (messages_of m a) in
      (sent a p b, send_lem a p b (is_linked m p) free, sent-IsOk a p b is)
  step-IsOk (dispatch c) there = (
    _,
    refl,
    waited ((core_at m c).dispatch_event == 0) _ (woken-IsOk c (core_at m c).runq there refl),
  )
    where
      waited : (b : Bool) (r : Did × Actors) → IsOk m r → IsOk m (if b then (other, m) else r)
      waited true r h = (v, (refl, refl, refl), IsKept-core m m refl)
      waited false r h = h
