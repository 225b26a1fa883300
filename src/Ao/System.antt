-- ===== src/Ao/System.antt =====
-- An active object with its thread: the events that the object takes on, and those its thread gets.
use libmcu.Base.{
  ℕ, suc, ◌+◌, ◌^◌, ◌≤◌, ◌≡◌, inl, inr, refl, sym, subst, ap, ◌∙◌, true, Option, none, some, List,
  [], ◌∷◌, ◌++◌, append_assoc, append-nil, length-append, ◌==◌, replicate, length-replicate,
  if◌then◌else◌, errno, arith, length,
}
use native.Mathlib.Nat.{one-le-pow}
use libmcu.Ringbuf.Window.{length-window}
use libmcu.Ao.{
  EventQueue, Ao, get_queue_len, push_event, pop_event, post_event, ao_post, take_event, ao_create,
}
use libmcu.Ao.Fifo.{
  IsQueue, contents, push_event-IsQueue, pop_event-IsQueue, push_event-contents, pop_event-contents,
}

-- The thread before sem_wait, behind it, or at its end.
pub data Thread : Type 0 where
  waiting woken ended : Thread

pub record System : Type 0 where
  pub ao : Ao
  pub thread : Thread

-- A step, with the events that the queue takes on and those that the thread takes from it.
pub data Step (maxlen : ℕ) : System → List ℕ → List ℕ → System → Type 0 where
  post :
      {s : System} (event : ℕ)
      → Step maxlen s
          (if (push_event maxlen s.ao.queue event).0 then event ∷ [] else [])
          []
          (record s { ao = (ao_post maxlen s.ao event).1 })
  wake :
      {s : System} (n : ℕ)
      → s.thread ≡ waiting
      → s.ao.event ≡ suc n
      → Step maxlen s [] [] (record { ao = record s.ao { event = n }; thread = woken })
  take :
      {s : System}
      → s.thread ≡ woken
      → Step maxlen s [] ((take_event maxlen s.ao).0 ∷ []) (record {
        ao = (take_event maxlen s.ao).2;
        thread = if (take_event maxlen s.ao).1 then ended else waiting;
      })

pub data Steps (maxlen : ℕ) : System → List ℕ → List ℕ → System → Type 0 where
  rest : {s : System} → Steps maxlen s [] [] s
  more :
      {s t u : System} {posted taken posted_before taken_before : List ℕ}
      → Steps maxlen s posted_before taken_before t
      → Step maxlen t posted taken u
      → Steps maxlen s (posted_before ++ posted) (taken_before ++ taken) u

-- The events that the thread is behind sem_wait for.
abbrev pub claimed : Thread → ℕ
claimed woken = 1
claimed _ = 0

-- The semaphore counts the events of the queue, less the one that the thread is about to take.
pub record IsSound (maxlen : ℕ) (s : System) : Type 0 where
  pub queue : IsQueue maxlen s.ao.queue
  pub counted : s.ao.event + claimed s.thread ≡ get_queue_len s.ao.queue

length-contents : (maxlen : ℕ) (q : EventQueue) → length (contents maxlen q) ≡ get_queue_len q
length-contents maxlen q = length-window q.events maxlen q.outdex (get_queue_len q)

module _ {maxlen : ℕ} {s : System} (v : IsSound maxlen s) where
  abbrev q : EventQueue
  q = s.ao.queue

  post_lem :
      (event : ℕ)
      → IsSound maxlen (record s { ao = (ao_post maxlen s.ao event).1 })
        × (contents maxlen q ++ (if (push_event maxlen q event).0 then event ∷ [] else [])
            ≡ contents maxlen (ao_post maxlen s.ao event).1.queue)
  unfolding ao_post post_event
  post_lem event =
      let q' = (push_event maxlen q event).1 in
      elim (push_event-contents v.queue event) [
        | inl (room, ok, e) ↦
            let longer : get_queue_len q' ≡ suc (get_queue_len q) = omega (
              arith,
              ap length e,
              length-append (contents maxlen q) (event ∷ []),
              length-contents maxlen q,
              length-contents maxlen q',
            ) in
            rw ok (
              record {
                queue = push_event-IsQueue v.queue event;
                counted = omega (arith, v.counted);
              },
              sym e,
            )
        | inr (full, same) ↦ rw same (v, append-nil (contents maxlen q))
      ]

  take_lem :
      s.thread ≡ woken
      → IsSound maxlen (record {
        ao = (take_event maxlen s.ao).2;
        thread = if (take_event maxlen s.ao).1 then ended else waiting;
      })
        × (contents maxlen q
            ≡ (take_event maxlen s.ao).0 ∷ contents maxlen (take_event maxlen s.ao).2.queue)
  unfolding take_event
  take_lem e =
      let one : claimed s.thread ≡ 1 = ap claimed e in
      let q' = (pop_event maxlen q).1 in
      elim (pop_event-contents v.queue) [
        | inl (empty, same) ↦ absurd (omega (arith, v.counted))
        | inr first ↦
            let shorter : get_queue_len q ≡ suc (get_queue_len q') =
              omega (arith, ap length first, length-contents maxlen q, length-contents maxlen q') in
            let none_claimed : claimed
                  (if (pop_event maxlen q).0 == errno 125 then ended else waiting)
                ≡ 0 =
              ground arith in
            (
              record { queue = pop_event-IsQueue v.queue; counted = omega (arith, v.counted) },
              first,
            )
      ]

  Step_lem :
      {t : System} {posted taken : List ℕ}
      → Step maxlen s posted taken t
      → IsSound maxlen t × (contents maxlen q ++ posted ≡ taken ++ contents maxlen t.ao.queue)
  Step_lem (post event) = post_lem event
  Step_lem (wake n e f) = (
    record { queue = v.queue; counted = omega (arith, v.counted, ap claimed e) },
    append-nil (contents maxlen q),
  )
  Step_lem (take e) = let (v', first) = take_lem e in (v', append-nil (contents maxlen q) ∙ first)

abbrev pub system_of : Ao → System
system_of ao = record { ao = ao; thread = waiting }

abbrev pub created_ao : ℕ → Ao
created_ao maxlen = record {
  dispatch = 0;
  queue = record { events = replicate maxlen 0; index = 0; outdex = 0 };
  event = 0;
}

created_lem :
    (k : ℕ)
    → k ≤ 15
    → IsSound (2 ^ k) (system_of (created_ao (2 ^ k)))
      × (contents (2 ^ k) (created_ao (2 ^ k)).queue ≡ [])
unfolding get_queue_len
created_lem k h = (
  record {
    queue = record {
      pow = k;
      small = h;
      cap_pow = refl;
      size = length-replicate (2 ^ k) 0;
      index_in = omega arith;
      outdex_in = omega arith;
      fits = omega (arith, one-le-pow k 2);
    };
    counted = refl;
  },
  refl,
)

create_lem :
    (k : ℕ) (ao : Ao)
    → k ≤ 15
    → ao_create (2 ^ k) true ≡ some ao
    → IsSound (2 ^ k) (system_of ao) × (contents (2 ^ k) ao.queue ≡ [])
unfolding ao_create
create_lem k ao h e =
    let made : Option Ao → Ao = λ o. elim o [ none ↦ ao | some a ↦ a ] in
    subst (λ a. IsSound (2 ^ k) (system_of a) × (contents (2 ^ k) a.queue ≡ [])) (ap made e)
      (created_lem k h)

-- Of an object made with a power of two up to 2 ^ 15 as AO_EVENT_MAXLEN, whatever is posted when,
-- the thread takes the events that were taken on, each once and in their order: those that it has
-- taken and those in the queue are those that were taken on. So it never finds the queue empty.
-- The semaphore's value and the event that the thread is about to take make up the queue's length.
pub Steps_lem :
    (k : ℕ) (ao : Ao)
    → k ≤ 15
    → ao_create (2 ^ k) true ≡ some ao
    → {s : System} {posted taken : List ℕ} → Steps (2 ^ k) (system_of ao) posted taken s
    → IsSound (2 ^ k) s × (posted ≡ taken ++ contents (2 ^ k) s.ao.queue)
Steps_lem k ao h e rest = let (v, empty) = create_lem k ao h e in (v, sym empty)
Steps_lem k ao h e {s = u} (more {posted} {taken} {posted_before} {taken_before} steps step) =
    let (v, same) = Steps_lem k ao h e steps in
    let (v', next) = Step_lem v step in
    (
      v',
      ap (λ x. x ++ posted) same
          ∙ append_assoc taken_before _ posted
          ∙ ap (λ x. taken_before ++ x) next
          ∙ sym (append_assoc taken_before taken (contents (2 ^ k) u.ao.queue)),
    )
