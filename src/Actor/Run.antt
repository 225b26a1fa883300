-- ===== src/Actor/Run.antt =====
-- Any calls, from `actor_init` and `actor_set` on.
use libmcu.Base.{
  done, ◌>>=◌, ℕ, zero, suc, ◌≡◌, refl, sym, ap, subst, ◌∙◌, Bool, true, false, none, some, List,
  [], ◌∷◌, ◌++◌, length, get_or, replicate, ◌==◌, if◌then◌else◌, arith, append_assoc, append-nil,
}
use libmcu.Actor.{Msgpool, Actors, idle, core_at, messages_of, priority_of, is_in}
use libmcu.Actor.Wake.{IsCore, IsAwake, no_message_left}
use libmcu.Actor.Order.{
  Call, Did, accepted, handled, other, actor_run, accepted_for, handled_by, AreCalls, IfDone,
  step-IsOk,
}

accepted_for-cons :
    (a : ℕ) (d : Did) (ds : List Did)
    → accepted_for a (d ∷ ds) ≡ accepted_for a (d ∷ []) ++ accepted_for a ds
accepted_for-cons a (accepted b p) ds = by_test (b == a)
  where
    by_test :
        (t : Bool)
        → (if t then p ∷ accepted_for a ds else accepted_for a ds)
          ≡ (if t then p ∷ [] else []) ++ accepted_for a ds
    by_test true = refl
    by_test false = refl
accepted_for-cons a (handled b p) ds = refl
accepted_for-cons a other ds = refl

handled_by-cons :
    (a : ℕ) (d : Did) (ds : List Did)
    → handled_by a (d ∷ ds) ≡ handled_by a (d ∷ []) ++ handled_by a ds
handled_by-cons a (accepted b p) ds = refl
handled_by-cons a (handled b none) ds = refl
handled_by-cons a (handled b (some p)) ds = by_test (b == a)
  where
    by_test :
        (t : Bool)
        → (if t then p ∷ handled_by a ds else handled_by a ds)
          ≡ (if t then p ∷ [] else []) ++ handled_by a ds
    by_test true = refl
    by_test false = refl
handled_by-cons a other ds = refl

run-IsAwake :
    (m : Actors) (calls : List Call)
    → IsAwake m
    → AreCalls calls m
    → (out : List Did × Actors) × (actor_run m calls ≡ done out)
      × IsAwake out.1
      × ((a : ℕ)
          → messages_of m a ++ accepted_for a out.0 ≡ handled_by a out.0 ++ messages_of out.1 a)
      × (out.1.priority ≡ m.priority)
run-IsAwake m [] v are = (([], m), refl, v, λ a. append-nil (messages_of m a), refl)
run-IsAwake m (call ∷ calls) v (is, are) =
    let (r, step, (v', same, kept)) = step-IsOk m v call is in
    let (out, run, v'', kept', e) =
      run-IsAwake r.1 calls v' (subst (IfDone (λ r. AreCalls calls r.1)) step are) in
    (
      (r.0 ∷ out.0, out.1),
      ap (λ o. o >>= (λ r. actor_run r.1 calls >>= λ rest. done (r.0 ∷ rest.0, rest.1))) step
          ∙ ap (λ o. o >>= (λ rest. done (r.0 ∷ rest.0, rest.1))) run,
      v'',
      λ a.
          ap (λ l. messages_of m a ++ l) (accepted_for-cons a r.0 out.0)
          ∙ sym (append_assoc (messages_of m a) (accepted_for a (r.0 ∷ [])) (accepted_for a out.0))
          ∙ ap (λ l. l ++ accepted_for a out.0) (kept a)
          ∙ append_assoc (handled_by a (r.0 ∷ [])) (messages_of r.1 a) (accepted_for a out.0)
          ∙ ap (λ l. handled_by a (r.0 ∷ []) ++ l) (kept' a)
          ∙ sym (append_assoc (handled_by a (r.0 ∷ [])) (handled_by a out.0) (messages_of out.1 a))
          ∙ ap (λ l. l ++ messages_of out.1 a) (sym (handled_by-cons a r.0 out.0)),
      e ∙ same.2,
    )

-- What `actor_init` and `actor_set` leave: `cores` cores and an actor of each priority of a list.
abbrev pub started : List ℕ → ℕ → Msgpool → Actors
started priority cores pool = record {
  core = replicate cores idle;
  msgpool = pool;
  messages = replicate (length priority) [];
  priority = priority;
}

get_or-replicate : {A : Type 0} (n i : ℕ) (x : A) → get_or (replicate n x) i x ≡ x
get_or-replicate zero i x = refl
get_or-replicate (suc n) zero x = refl
get_or-replicate (suc n) (suc i) x = get_or-replicate n i x

started-IsAwake :
    (priority : List ℕ) (cores : ℕ) (pool : Msgpool) → IsAwake (started priority cores pool)
unfolding is_in
started-IsAwake priority cores pool = record {
  cores = λ c.
      subst (IsCore (replicate (length priority) []) priority c)
        (sym (get_or-replicate cores c idle)) (omega arith, tt, λ a h. absurd (ground arith));
  queued = λ a h. get_or-replicate (length priority) a [];
}

-- From the start on, whatever NULL or messages are sent to actors of the table, also by handlers,
-- and whichever dispatchers run, call after call, where no message is sent that the free list or
-- the queue of another actor holds: every call has an outcome, and an actor's handler has been
-- given, in the order of their sending, the messages that were accepted for the actor, less those
-- that are still in its queue; where the semaphore of its core is at 0, so that the dispatcher
-- waits, it has been given them all.
pub actor_run_lem :
    (priority : List ℕ) (cores : ℕ) (pool : Msgpool) (calls : List Call)
    → AreCalls calls (started priority cores pool)
    → (ds : List Did) × (m' : Actors) × (actor_run (started priority cores pool) calls
        ≡ done (ds, m'))
      × ((a : ℕ)
          → (accepted_for a ds ≡ handled_by a ds ++ messages_of m' a)
            × ((core_at m' (priority_of m' a)).dispatch_event ≡ 0
                → handled_by a ds ≡ accepted_for a ds))
actor_run_lem priority cores pool calls are =
    let m : Actors = started priority cores pool in
    let (out, run, v, kept, e) = run-IsAwake m calls (started-IsAwake priority cores pool) are in
    (out.0, out.1, run, λ a. of_actor out v kept a)
  where
    of_actor :
        (out : List Did × Actors)
        → IsAwake out.1
        → ((a : ℕ)
            → messages_of (started priority cores pool) a ++ accepted_for a out.0
              ≡ handled_by a out.0 ++ messages_of out.1 a)
        → (a : ℕ)
        → (accepted_for a out.0 ≡ handled_by a out.0 ++ messages_of out.1 a)
          × ((core_at out.1 (priority_of out.1 a)).dispatch_event ≡ 0
              → handled_by a out.0 ≡ accepted_for a out.0)
    of_actor out v kept a =
        let all : accepted_for a out.0 ≡ handled_by a out.0 ++ messages_of out.1 a =
          ap (λ l. l ++ accepted_for a out.0) (sym (get_or-replicate (length priority) a []))
          ∙ kept a in
        (
          all,
          λ waits.
              sym (append-nil (handled_by a out.0))
              ∙ ap (λ l. handled_by a out.0 ++ l)
                  (sym (no_message_left out.1 (priority_of out.1 a) a v waits refl))
              ∙ sym all,
        )
