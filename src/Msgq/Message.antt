-- ===== src/Msgq/Message.antt =====
-- `push_message` and `pop_message` against the list of messages that the ring holds.
use native.Mathlib.Decide.{dec_lt}
use libmcu.Base.{
  ℕ, ◌+◌, ◌^◌, ◌≤◌, ◌<◌, ◌≡◌, refl, ap, sym, ◌∙◌, List, [], ◌∷◌, ◌++◌, length, take, drop,
  length-append, append_assoc, arith, ltb, leb, lt→ltb, le→ltb, le→leb, lt→leb, ==_iff,
  if◌then◌else◌, u32,
}
use libmcu.Ringbuf
use libmcu.Ringbuf.{Ringbuf, get_length, get_capacity, get_available}
use libmcu.Ringbuf.Inv.{IsValid, contents, cap_bounds, available_contents}
use libmcu.Ringbuf.Write.{write_whole}
use libmcu.Ringbuf.Read.{peek_lem, consume_lem}
use libmcu.Msgq.{
  enoent, enomem, erange, encode_meta, decode_meta, push_body, push_message, Popped, pop_body,
  pop_message,
}
use libmcu.Msgq.Frames.{frame, frames, decode-encode, frames-append, take_body, drop-frame}

-- The ring holds the messages `ms`, oldest first.
pub record Holds (r : Ringbuf) (ms : List (List ℕ)) : Type 0 where
  pub valid : IsValid r
  pub bytes : contents r ≡ frames ms

module _ {r : Ringbuf} (v : IsValid r) (m : List ℕ) where
  body_written :
      length m ≤ get_available r
      → let (e, r') = push_body r m (length m) in
        (e ≡ 0) × (contents r' ≡ contents r ++ m) × IsValid r'
  unfolding push_body
  body_written room =
      let (whole, grown, keeps, left) = write_whole v m room in
      rw ((==_iff _ _).1 whole) (refl, grown, keeps)

-- A message that does not fit with its meta data is refused, and nothing changes.
pub push_message_full :
    (r : Ringbuf) (m : List ℕ)
    → get_available r < length m + 4
    → length m + 4 < 2 ^ 32
    → push_message r m (length m) ≡ (enomem, r)
unfolding push_message
push_message_full r m full small = rw (lt→ltb (get_available r) (u32 (length m + 4)) (omega arith))

module _ {r : Ringbuf} (v : IsValid r) (m : List ℕ) where
  -- A message that fits is appended behind its size.
  pub push_message_room :
      length m + 4 ≤ get_available r
      → let (e, r') = push_message r m (length m) in
        (e ≡ 0) × (contents r' ≡ contents r ++ frame m) × IsValid r'
  unfolding push_message
  push_message_room room =
      let (whole, grown, keeps, left) = write_whole v (encode_meta (length m)) (omega arith) in
      let (e, grown', keeps') = body_written keeps m (omega arith) in
      rw
        (
          le→ltb (get_available r) (u32 (length m + 4))
              (omega (arith, available_contents v, cap_bounds v)),
          (==_iff _ _).1 whole,
        )
        (
          e,
          grown' ∙ ap (λ t. t ++ m) grown ∙ append_assoc (contents r) (encode_meta (length m)) m,
          keeps',
        )

module _ {r : Ringbuf} {m : List ℕ} {ms : List (List ℕ)} (h : Holds r (m ∷ ms)) where
  pub peek_meta : Ringbuf.peek r 0 4 ≡ (encode_meta (length m), 4)
  peek_meta = peek_lem h.valid 0 4 ∙ ap (λ c. (take 4 c, length (take 4 c))) h.bytes

  peek_body : Ringbuf.peek r 4 (length m) ≡ (m, length m)
  peek_body =
      peek_lem h.valid 4 (length m)
      ∙ ap (λ c. (take (length m) (drop 4 c), length (take (length m) (drop 4 c)))) h.bytes
      ∙ ap (λ t. (t, length t)) (take_body m (frames ms))

  size_bound : 4 + length m ≤ length (contents r)
  size_bound = omega (arith, ap length h.bytes, length-append m (frames ms))

  pub size_word : length m + 4 < 2 ^ 32
  size_word = omega (arith, size_bound, available_contents h.valid, cap_bounds h.valid)

  consumed : Holds (Ringbuf.consume r (4 + length m)).1 ms
  consumed =
      let (b, left, keeps) = consume_lem h.valid (4 + length m) in
      record {
        valid = keeps;
        bytes =
            left
            ∙ ap (λ b. if b then drop (4 + length m) (contents r) else contents r)
                (le→leb (4 + length m) (length (contents r)) size_bound)
            ∙ ap (drop (4 + length m)) h.bytes
            ∙ drop-frame m (frames ms);
      }

  pop_body_lem :
      pop_body r (length m)
      ≡ (record { result = length m; bytes = m }, (Ringbuf.consume r (4 + length m)).1)
  unfolding pop_body
  pop_body_lem = rw (peek_body, (==_iff (length m) (length m)).1 refl, wrap)
    where
      wrap : u32 (4 + length m) ≡ 4 + length m
      wrap = omega (arith, size_word)

  pub decode_first : decode_meta (encode_meta (length m)) ≡ length m
  decode_first = decode-encode (length m) [] (omega (arith, size_word))

  pop_message_read :
      (bufsize : ℕ)
      → pop_message r bufsize ≡ (
          if ltb bufsize (length m)
          then (record { result = erange; bytes = [] }, r)
          else pop_body r (length m))
  unfolding pop_message
  pop_message_read bufsize = rw (peek_meta) (
      ap
        (λ size.
          if◌then◌else◌ {A = Popped × Ringbuf} (ltb bufsize size)
            (record { result = erange; bytes = [] }, r) (pop_body r size))
        decode_first)

  -- The first message is handed out whole if the caller's buffer is large enough.
  pub pop_message_first :
      (bufsize : ℕ)
      → length m ≤ bufsize
      → let (out, r') = pop_message r bufsize in
        (out.result ≡ length m) × (out.bytes ≡ m) × Holds r' ms
  pop_message_first bufsize room =
      rw (pop_message_read bufsize, le→ltb bufsize (length m) room, pop_body_lem)
        (refl, refl, consumed)

  -- A buffer that is too small gets nothing, and the message stays.
  pub pop_message_small :
      (bufsize : ℕ)
      → bufsize < length m
      → pop_message r bufsize ≡ (record { result = erange; bytes = [] }, r)
  pop_message_small bufsize small = pop_message_read bufsize ∙ rw (lt→ltb bufsize (length m) small)

-- Nothing comes from a queue that holds no message.
pub pop_message_empty :
    {r : Ringbuf} (bufsize : ℕ)
    → Holds r []
    → pop_message r bufsize ≡ (record { result = enoent; bytes = [] }, r)
unfolding pop_message
pop_message_empty {r} bufsize h =
    rw (peek_lem h.valid 0 4 ∙ ap (λ c. (take 4 c, length (take 4 c))) h.bytes)

-- The bytes that a list of messages takes.
abbrev pub used : List (List ℕ) → ℕ
used ms = length (frames ms)

-- `push_message` on a ring that holds `ms`: it appends the message if it fits with its 4 bytes of
-- meta data, or returns -ENOMEM and changes nothing.
pub push_message-Holds :
    {r : Ringbuf} {ms : List (List ℕ)} (m : List ℕ)
    → length m + 4 < 2 ^ 32
    → Holds r ms
    → let (e, r') = push_message r m (length m) in
      (e ≡ (if leb (used ms + 4 + length m) r.capacity then 0 else enomem))
      × Holds r' (if leb (used ms + 4 + length m) r.capacity then ms ++ (m ∷ []) else ms)
push_message-Holds {r} {ms} m small h = elim (dec_lt r.capacity (used ms + 4 + length m)) [
  | yes full ↦
      rw
        (
          lt→leb (used ms + 4 + length m) r.capacity full,
          push_message_full r m (omega (arith, room_eq)) small,
        )
        (refl, h)
  | no fits ↦
      let (e, grown, keeps) = push_message_room h.valid m (omega (arith, room_eq)) in
      rw (le→leb (used ms + 4 + length m) r.capacity (omega arith)) (
        e,
        record {
          valid = keeps;
          bytes = grown ∙ ap (λ t. t ++ frame m) h.bytes ∙ sym (frames-append ms m);
        },
      )
]
  where
    room_eq : get_available r + used ms ≡ r.capacity
    room_eq = omega (arith, available_contents h.valid, ap length h.bytes)
