-- ===== src/Msgq/Fifo.antt =====
-- Any sequence of `msgq_push` and `msgq_pop` against the specification: a list of messages.
use libmcu.Base.{ℕ, ◌+◌, ◌^◌, ◌<◌, ◌≡◌, refl, ap, ap₂, ◌∙◌, Option, List, [], ◌∷◌, length, arith}
use libmcu.Ringbuf
use libmcu.Ringbuf.{Ringbuf}
use libmcu.Msgq.{
  Msgq, Popped, push_body, push_message, pop_body, pop_message, acquire, release, push, pop,
}
use libmcu.Msgq.Sync.{IsMutex, IsReady, queue_push, queue_pop, push-IsReady, pop-IsReady}

pub data Call : Type 0 where
  push_call : List ℕ → Call
  pop_call : ℕ → Call

pub data Reply : Type 0 where
  pushed : ℕ → Reply
  popped : Popped → Reply

-- The sizes that a `size_t` can say together with the meta data.
abbrev pub IsSmall : List Call → Type 0
IsSmall [] = Unit {0}
IsSmall (push_call m ∷ cs) = (length m + 4 < 2 ^ 32) × IsSmall cs
IsSmall (pop_call n ∷ cs) = IsSmall cs

pub queue_calls : ℕ → List (List ℕ) → List Call → List Reply
queue_calls capacity ms [] = []
queue_calls capacity ms (push_call m ∷ cs) =
    let (e, ms') = queue_push capacity ms m in pushed e ∷ queue_calls capacity ms' cs
queue_calls capacity ms (pop_call n ∷ cs) =
    let (out, ms') = queue_pop ms n in popped out ∷ queue_calls capacity ms' cs

capacity-push_message :
    (r : Ringbuf) (m : List ℕ) (n : ℕ) → (push_message r m n).1.capacity ≡ r.capacity
unfolding push_message push_body Ringbuf.write Ringbuf.write_cancel
capacity-push_message r m n = ground arith

capacity-pop_message : (r : Ringbuf) (n : ℕ) → (pop_message r n).1.capacity ≡ r.capacity
unfolding pop_message pop_body Ringbuf.consume Ringbuf.consume_core
capacity-pop_message r n = ground arith

module _ {C : Type 0} where
  pub calls : Msgq C → List Call → List Reply
  calls q [] = []
  calls q (push_call m ∷ cs) = let (e, q') = push q m (length m) in pushed e ∷ calls q' cs
  calls q (pop_call n ∷ cs) = let (out, q') = pop q n in popped out ∷ calls q' cs

  capacity-push :
      (q : Msgq C) (m : List ℕ) (n : ℕ) → (push q m n).1.ringbuf.capacity ≡ q.ringbuf.capacity
  unfolding push acquire release
  capacity-push q m n = ground (arith, capacity-push_message q.ringbuf m n)

  capacity-pop : (q : Msgq C) (n : ℕ) → (pop q n).1.ringbuf.capacity ≡ q.ringbuf.capacity
  unfolding pop acquire release
  capacity-pop q n = ground (arith, capacity-pop_message q.ringbuf n)

  module _ {lock unlock : Option (C → ℕ × C)} {Free Held : C → Type 0}
      (mutex : IsMutex lock unlock Free Held) where
    -- No sequence of pushes and pops tells the queue, with a lock that works, from the list of its
    -- messages.
    pub message_calls_refine :
        (cs : List Call) {q : Msgq C} {ms : List (List ℕ)}
        → IsSmall cs
        → IsReady mutex q ms
        → calls q cs ≡ queue_calls q.ringbuf.capacity ms cs
    unfolding calls queue_calls
    message_calls_refine [] small ready = refl
    message_calls_refine (push_call m ∷ cs) {q} {ms} small ready =
        let (e, ready') = push-IsReady mutex ready m small.0 in
        ap₂ ◌∷◌ (ap pushed e) (
          message_calls_refine cs small.1 ready'
          ∙ ap (λ k. queue_calls k (queue_push q.ringbuf.capacity ms m).1 cs)
              (capacity-push q m (length m)))
    message_calls_refine (pop_call n ∷ cs) {q} {ms} small ready =
        let (out, ready') = pop-IsReady mutex n ready in
        ap₂ ◌∷◌ (ap popped out) (
          message_calls_refine cs small ready'
          ∙ ap (λ k. queue_calls k (queue_pop ms n).1 cs) (capacity-pop q n))
