-- ===== src/Logging/Text.antt =====
-- Where the text of a log is stored.
use libmcu.Base.{
  ℕ, ◌+◌, ◌-◌, ◌^◌, ◌≤◌, ◌<◌, min, ◌≡◌, ap, ◌∙◌, Option, List, [], ◌∷◌, ◌++◌, length, take, drop,
  ltb, if◌then◌else◌, u32, arith, Outcome, done, undefined, ◌>>=◌, length-take, length-drop,
  length-append, lt→ltb, le→leb, lt→leb,
}
use libmcu.Logging.{Log}
use libmcu.Logging.Stringify.{TypeName, stringify_type, store_at, logging_stringify}

-- Of `snprintf`: the length of the text is returned, and the buffer stays as long as it is.
pub record IsSnprintf (snprintf : ℕ → (ℕ × TypeName × Option ℕ) → List ℕ → ℕ × List ℕ)
    (line : (ℕ × TypeName × Option ℕ) → List ℕ) : Type 0 where
  pub returns :
      (size : ℕ) (args : ℕ × TypeName × Option ℕ) (buf : List ℕ)
      → (snprintf size args buf).0 ≡ u32 (length (line args))
  pub keeps :
      (size : ℕ) (args : ℕ × TypeName × Option ℕ) (buf : List ℕ)
      → length (snprintf size args buf).1 ≡ length buf

store_inside :
    (buf : List ℕ) (at : ℕ) (xs : List ℕ)
    → at + length xs ≤ length buf
    → (b : List ℕ) × (store_at buf at xs ≡ done b) × (length b ≡ length buf)
store_inside buf at xs h =
    let b : List ℕ = take at buf ++ (xs ++ drop (at + length xs) buf) in
    (
      b,
      ap (λ t. if t then done b else undefined) (le→leb (at + length xs) (length buf) h),
      omega (
        arith,
        length-append (take at buf) (xs ++ drop (at + length xs) buf),
        length-append xs (drop (at + length xs) buf),
        length-take at buf,
        length-drop (at + length xs) buf,
      ),
    )

store_outside :
    (buf : List ℕ) (at : ℕ) (xs : List ℕ)
    → length buf < at + length xs
    → store_at buf at xs ≡ undefined
store_outside buf at xs h =
    ap (λ t. if t then done (take at buf ++ (xs ++ drop (at + length xs) buf)) else undefined)
      (lt→leb (at + length xs) (length buf) h)

-- What `logging_stringify` does behind its call of `snprintf`.
abbrev put_text : List ℕ → ℕ → List ℕ → ℕ → ℕ → Outcome (ℕ × List ℕ)
put_text first last message len msglen = store_at first last (0 ∷ []) >>= (λ b.
    if ltb 0 len
    then store_at b len (take msglen message) >>= (λ b'.
      store_at b' (u32 (msglen + len)) (0 ∷ []) >>= (λ b''. done (u32 (msglen + len), b'')))
    else done (len, b))

module _ (first : List ℕ) (last : ℕ) (message : List ℕ) (len msglen : ℕ) (line_bytes : 0 < len)
    (at_last : last + 1 ≤ length first) where
  abbrev put_message : List ℕ → Outcome (ℕ × List ℕ)
  put_message b = store_at b len (take msglen message) >>= (λ b'.
      store_at b' (u32 (msglen + len)) (0 ∷ []) >>= (λ b''. done (u32 (msglen + len), b'')))

  put_nul :
      (b : List ℕ) × (put_text first last message len msglen ≡ put_message b)
      × (length b ≡ length first)
  put_nul =
      let (b, e, l) = store_inside first last (0 ∷ []) (omega (arith, at_last)) in
      (
        b,
        ap (λ o. o >>= (λ b. if ltb 0 len then put_message b else done (len, b))) e
            ∙ ap (λ t. if t then put_message b else done (len, b)) (lt→ltb 0 len line_bytes),
        l,
      )

  put_text_inside :
      len + msglen < length first
      → length first < 2 ^ 31
      → (b : List ℕ) × (put_text first last message len msglen ≡ done (len + msglen, b))
        × (length b ≡ length first)
  put_text_inside fits small =
      let (b, e, l) = put_nul in
      let (b', e', l') =
        store_inside b len (take msglen message) (omega (arith, l, length-take msglen message)) in
      let (b'', e'', l'') = store_inside b' (len + msglen) (0 ∷ []) (omega (arith, l, l')) in
      (
        b'',
        e
            ∙ ap
                (λ o. o >>= (λ b'.
                  store_at b' (u32 (msglen + len)) (0 ∷ [])
                  >>= (λ b''. done (u32 (msglen + len), b''))))
                e'
            ∙ ap (λ k. store_at b' k (0 ∷ []) >>= (λ b''. done (k, b''))) {x = u32 (msglen + len)}
                {y = len + msglen} (omega (arith, fits, small))
            ∙ ap (λ o. o >>= (λ b''. done (len + msglen, b''))) e'',
        l'' ∙ l' ∙ l,
      )

  put_text_outside :
      length first ≤ len
      → 0 < min msglen (length message)
      → put_text first last message len msglen ≡ undefined
  put_text_outside over some_bytes =
      let (b, e, l) = put_nul in
      e
      ∙ ap
          (λ o. o >>= (λ b'.
            store_at b' (u32 (msglen + len)) (0 ∷ []) >>= (λ b''. done (u32 (msglen + len), b''))))
          (store_outside b len (take msglen message) (omega (arith, l, length-take msglen message)))

module _ {snprintf : ℕ → (ℕ × TypeName × Option ℕ) → List ℕ → ℕ × List ℕ}
    {line : (ℕ × TypeName × Option ℕ) → List ℕ} (is : IsSnprintf snprintf line) where
  -- For a buffer of its given size of at least 2 bytes, and a log whose message is at least one
  -- byte and as long as it says: where the line before the message is shorter than the buffer,
  -- nothing is stored behind the end of the buffer, and the result is the length of the line and
  -- as much of the message as leaves a byte for the NUL. Where it is not shorter, the room left
  -- wraps around, and the message is stored behind the end of the buffer.
  pub logging_stringify_lem :
      (buf : List ℕ) (p : Log) (tag_name : Option ℕ)
      → 2 ≤ length buf
      → length buf < 2 ^ 31
      → 0 < p.message_length
      → p.message_length ≤ length p.message
      → p.message_length < 2 ^ 16
      → let n = length (line (p.timestamp, stringify_type p.type, tag_name)) in
        n < 2 ^ 31
        → 0 < n
        → (n < length buf
            → (b : List ℕ) × (logging_stringify snprintf buf (length buf) p tag_name
                ≡ done (n + min (length buf - n - 1) p.message_length, b))
              × (length b ≡ length buf))
          × (length buf ≤ n → logging_stringify snprintf buf (length buf) p tag_name ≡ undefined)
  unfolding logging_stringify
  logging_stringify_lem buf p tag_name two small some_bytes within short no_wrap line_bytes =
      let size : ℕ = length buf in
      let args : ℕ × TypeName × Option ℕ = (p.timestamp, stringify_type p.type, tag_name) in
      let n : ℕ = length (line args) in
      let (len, first) = snprintf (u32 (size + (2 ^ 32 - 2))) args buf in
      let last : ℕ = u32 (size + (2 ^ 32 - 1)) in
      let first_size : length first ≡ size = is.keeps (u32 (size + (2 ^ 32 - 2))) args buf in
      let msglen : ℕ → ℕ =
        λ k. min (u32 (u32 (size + 2 ^ 32 - k) + (2 ^ 32 - 1))) p.message_length in
      let len_n : len ≡ n = is.returns (u32 (size + (2 ^ 32 - 2))) args buf ∙ omega arith in
      let same : logging_stringify snprintf buf size p tag_name
          ≡ put_text first last p.message n (msglen n) =
        ap (λ k. put_text first last p.message k (msglen k)) len_n in
      (
        λ fits.
            let msglen_lem : msglen n ≡ min (size - n - 1) p.message_length = omega arith in
            let (b, e, l) =
              put_text_inside first last p.message n (msglen n) line_bytes (omega arith)
                (omega arith) (omega arith) in
            (b, same ∙ e ∙ ap (λ k. done (n + k, b)) msglen_lem, l ∙ first_size),
        λ over.
            same
            ∙ put_text_outside first last p.message n (msglen n) line_bytes (omega arith)
                (omega arith) (omega arith),
      )
