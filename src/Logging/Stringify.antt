-- ===== src/Logging/Stringify.antt =====
-- modules/logging/src/logging.c: an entry as text. `snprintf size text` is what the formatting of
-- the line before the message returns and stores for a buffer of `size` bytes, `text` being what
-- is formatted.
use libmcu.Base.{
  ℕ, ◌+◌, ◌-◌, ◌^◌, min, Option, List, [], ◌∷◌, length, take, drop, ◌++◌, ltb, leb, ◌==◌,
  if◌then◌else◌, u32, Outcome, done, undefined, ◌>>=◌,
}
use libmcu.Logging.{Log}

-- The names of the levels.
pub data TypeName : Type 0 where
  debug : TypeName
  info : TypeName
  warn : TypeName
  error : TypeName
  no_logging : TypeName
  unknown : TypeName

unfoldable pub stringify_type : ℕ → TypeName
stringify_type type =
    if type == 0
    then debug
    else if type == 1
    then info
    else if type == 2
    then warn
    else if type == 3
    then error
    else if type == 4
    then no_logging
    else unknown

-- A store of `xs` at `at`; behind the end of the buffer it is undefined.
abbrev pub store_at : List ℕ → ℕ → List ℕ → Outcome (List ℕ)
store_at buf at xs =
    if leb (at + length xs) (length buf)
    then done (take at buf ++ (xs ++ drop (at + length xs) buf))
    else undefined

module _ (snprintf : ℕ → (ℕ × TypeName × Option ℕ) → List ℕ → ℕ × List ℕ) where
  -- `tag_name` is the string of the entry's tag, where it has one. The result and the buffer.
  unfoldable pub logging_stringify : List ℕ → ℕ → Log → Option ℕ → Outcome (ℕ × List ℕ)
  logging_stringify buf bufsize p tag_name =
      let (len, first) =
        snprintf (u32 (bufsize + (2 ^ 32 - 2))) (p.timestamp, stringify_type p.type, tag_name)
          buf in
      let msglen = min (u32 (u32 (bufsize + 2 ^ 32 - len) + (2 ^ 32 - 1))) p.message_length in
      store_at first (u32 (bufsize + (2 ^ 32 - 1))) (0 ∷ []) >>= (λ b.
        if ltb 0 len
        then store_at b len (take msglen p.message) >>= (λ b'.
          store_at b' (u32 (msglen + len)) (0 ∷ []) >>= (λ b''. done (u32 (msglen + len), b'')))
        else done (len, b))
