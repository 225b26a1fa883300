-- ===== src/Ringbuf/Fifo.antt =====
-- The ring against its specification: a bounded queue of bytes, for any sequence of calls.
use libmcu.Base.{
  ℕ, ◌+◌, ◌-◌, min, ◌≡◌, refl, ap, ap₂, ◌∙◌, sym, Bool, List, [], ◌∷◌, ◌++◌, length, take, drop,
  ltb, leb, if◌then◌else◌, arith,
}
use libmcu.Ringbuf.{Ringbuf, write, write_cancel, peek, read, consume, consume_core}
use libmcu.Ringbuf.Inv.{IsValid, contents, length-contents, available_lem}
use libmcu.Ringbuf.Write.{write_lem, write_cancel_lem}
use libmcu.Ringbuf.Read.{peek_lem, read_lem, consume_lem}

-- A call of the ring, by the offset and the sizes that it is given.
pub data Call : Type 0 where
  write_call : List ℕ → Call
  cancel_call : ℕ → Call
  peek_call : ℕ → ℕ → Call
  read_call : ℕ → ℕ → Call
  consume_call : ℕ → Call

-- What the caller sees.
pub data Reply : Type 0 where
  count : ℕ → Reply
  bytes : List ℕ → ℕ → Reply
  accepted : Bool → Reply

pub call : Ringbuf → Call → Reply × Ringbuf
call r (write_call payload) = let (n, r') = write r payload (length payload) in (count n, r')
call r (cancel_call n) = let (k, r') = write_cancel r n in (count k, r')
call r (peek_call offset n) = let (bs, k) = peek r offset n in (bytes bs k, r)
call r (read_call offset n) = let (out, r') = read r offset n in (bytes out.0 out.1, r')
call r (consume_call n) = let (b, r') = consume r n in (accepted b, r')

pub calls : Ringbuf → List Call → List Reply
calls r [] = []
calls r (c ∷ cs) = let (a, r') = call r c in a ∷ calls r' cs

-- The same calls on a queue of at most `capacity` bytes, oldest first.
pub queue_call : ℕ → List ℕ → Call → Reply × List ℕ
queue_call capacity q (write_call payload) =
    let n = min (capacity - length q) (length payload) in (count n, q ++ take n payload)
queue_call capacity q (cancel_call n) =
    let k = if ltb (length q) n then 0 else n in (count k, take (length q - k) q)
queue_call capacity q (peek_call offset n) =
    let bs = take n (drop offset q) in (bytes bs (length bs), q)
queue_call capacity q (read_call offset n) =
    let bs = take n (drop offset q) in
    (bytes bs (length bs), (if ltb 0 (length bs) then drop (length bs + offset) q else q))
queue_call capacity q (consume_call n) =
    (accepted (leb n (length q)), (if leb n (length q) then drop n q else q))

pub queue_calls : ℕ → List ℕ → List Call → List Reply
queue_calls capacity q [] = []
queue_calls capacity q (c ∷ cs) =
    let (a, q') = queue_call capacity q c in a ∷ queue_calls capacity q' cs

pub capacity-call : (r : Ringbuf) (c : Call) → (call r c).1.capacity ≡ r.capacity
unfolding call write write_cancel read consume consume_core
capacity-call r (write_call payload) = refl
capacity-call r (cancel_call n) = ground arith
capacity-call r (peek_call offset n) = refl
capacity-call r (read_call offset n) = ground arith
capacity-call r (consume_call n) = ground arith

pair_eq {ℓ κ} :
    {A : Type ℓ} {B : Type κ} {a b : A} {x y : B} → a ≡ b → x ≡ y → ◌≡◌ {A = A × B} (a, x) (b, y)
pair_eq p q = λ i. (p i, q i)

pub call-IsValid : {r : Ringbuf} (c : Call) → IsValid r → IsValid (call r c).1
unfolding call
call-IsValid (write_call payload) v = (write_lem v payload (length payload) (omega arith)).2
call-IsValid (cancel_call n) v = (write_cancel_lem v n).2
call-IsValid (peek_call offset n) v = v
call-IsValid (read_call offset n) v = (read_lem v offset n).3
call-IsValid (consume_call n) v = (consume_lem v n).2

-- Each call on a valid ring replies as the queue does, and leaves the ring holding its queue.
pub call_refines :
    {r : Ringbuf} (c : Call)
    → IsValid r
    → let (a, r') = call r c in (a, contents r') ≡ queue_call r.capacity (contents r) c
unfolding call queue_call
call_refines {r} (write_call payload) v =
    let (n_eq, grown, keeps) = write_lem v payload (length payload) (omega arith) in
    let n_same : (write r payload (length payload)).0
        ≡ min (r.capacity - length (contents r)) (length payload) =
      n_eq ∙ omega (arith, available_lem v, length-contents r) in
    pair_eq (ap count n_same) (grown ∙ ap (λ n. contents r ++ take n payload) n_same)
call_refines {r} (cancel_call n) v =
    let (n_eq, left, keeps) = write_cancel_lem v n in
    let n_same : (write_cancel r n).0 ≡ (if ltb (length (contents r)) n then 0 else n) =
      n_eq ∙ ap (λ l. if ltb l n then 0 else n) (sym (length-contents r)) in
    pair_eq (ap count n_same)
      (left ∙ ap₂ (λ l k. take (l - k) (contents r)) (sym (length-contents r)) n_same)
call_refines {r} (peek_call offset n) v =
    ap (λ t. (bytes t.0 t.1, contents r)) (peek_lem v offset n)
call_refines {r} (read_call offset n) v =
    let (bs_eq, k_eq, left, keeps) = read_lem v offset n in
    let k_same : (read r offset n).0.1 ≡ length (take n (drop offset (contents r))) =
      k_eq ∙ ap length bs_eq in
    pair_eq (ap₂ bytes bs_eq k_same)
      (left ∙ ap (λ k. if ltb 0 k then drop (k + offset) (contents r) else contents r) k_same)
call_refines {r} (consume_call n) v =
    let (b_eq, left, keeps) = consume_lem v n in pair_eq (ap accepted b_eq) left

-- No sequence of calls tells a valid ring from the bounded queue of the bytes that it holds.
pub calls_refine :
    (cs : List Call) {r : Ringbuf} → IsValid r → calls r cs ≡ queue_calls r.capacity (contents r) cs
unfolding calls queue_calls
calls_refine [] v = refl
calls_refine (c ∷ cs) {r} v = ap₂ ◌∷◌ (ap (λ t. t.0) (call_refines c v)) (
    calls_refine cs (call-IsValid c v)
    ∙ ap₂ (λ k q. queue_calls k q cs) (capacity-call r c) (ap (λ t. t.1) (call_refines c v)))
