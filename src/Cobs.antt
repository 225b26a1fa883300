-- ===== src/Cobs.antt =====
-- modules/common/src/cobs.c: bytes stuffed so that no zero is left, in groups behind their length.
-- The caller's buffer is a list of `bufsize` bytes. A `uint8_t` count never passes 255.
pub mod Starts
pub mod Rounds
pub mod Encode
pub mod Decode
pub mod RoundTrip
mod Tests
use libmcu.Base.{
  ℕ, zero, suc, ◌+◌, ◌-◌, min, Bool, true, false, not, ◌&&◌, ◌||◌, List, [], ◌∷◌, length, take, set,
  get_or, ltb, leb, ◌==◌, if◌then◌else◌, u8, sub32, Outcome, done, undefined,
}

-- The locals of `cobs_encode`, with the buffer.
pub record Encoder : Type 0 where
  pub buf : List ℕ
  pub group_head_index : ℕ
  pub group_len : ℕ
  pub outdex : ℕ

abbrev pub is_empty : List ℕ → Bool
is_empty [] = true
is_empty (c ∷ cs) = false

-- `if (p[i] != 0) { ... }`
unfoldable pub put_byte : Encoder → ℕ → Encoder
put_byte e c =
    if not (c == 0)
    then record e {
      buf = set e.buf e.outdex c;
      outdex = suc e.outdex;
      group_len = u8 (suc e.group_len);
    }
    else e

-- `buf[group_head_index] = group_len; group_head_index = o++;`
unfoldable pub close_group : Encoder → Encoder
close_group e = record e {
  buf = set e.buf e.group_head_index e.group_len;
  group_head_index = e.outdex;
  outdex = suc e.outdex;
}

-- What follows the loop: the buffer and the value returned.
unfoldable pub finish : ℕ → Encoder → List ℕ × ℕ
finish bufsize e = (
  set (set e.buf e.group_head_index e.group_len) (min e.outdex (sub32 bufsize 1)) 0,
  suc e.outdex,
)

-- The loop, from the bytes left of the first `maxlen`.
unfoldable pub encode_loop : ℕ → List ℕ → Encoder → List ℕ × ℕ
encode_loop bufsize [] e = finish bufsize e
encode_loop bufsize (c ∷ cs) e =
    let e1 = put_byte e c in
    let closes = c == 0 || e1.group_len == 255 in
    let e2 = close_group e1 in
    let rest = encode_loop bufsize cs (if closes then record e2 { group_len = 1 } else e1) in
    if not (ltb e.outdex bufsize)
    then finish bufsize e
    else if closes && (leb bufsize e2.outdex || e1.group_len == 255 && is_empty cs)
    then (set e2.buf (min (e2.outdex - 1) (sub32 bufsize 1)) 0, e2.outdex - 1)
    else rest

-- With no buffer the stores behind the loop are outside it.
unfoldable pub cobs_encode : List ℕ → ℕ → List ℕ → Outcome (List ℕ × ℕ)
cobs_encode buf bufsize bytes =
    if bufsize == 0
    then undefined
    else done (
        encode_loop bufsize (take (min bufsize (length bytes)) bytes)
          (record { buf = buf; group_head_index = 0; group_len = 1; outdex = 1 }))

-- The locals of `cobs_decode`, with the buffer.
pub record Decoder : Type 0 where
  pub out : List ℕ
  pub count : ℕ
  pub left : ℕ
  pub code : ℕ

-- The body of the loop, and whether it goes on.
unfoldable pub decode_byte : Decoder → ℕ → Bool × Decoder
decode_byte d c =
    let d1 =
      if not (d.code == 255)
      then record d { out = set d.out d.count 0; count = suc d.count }
      else d in
    if ltb 0 d.left
    then (true, record d { out = set d.out d.count c; count = suc d.count; left = d.left - 1 })
    else if c == 0
    then (false, record d1 { left = c; code = c })
    else (true, record d1 { left = c - 1; code = c })

unfoldable pub decode_loop : ℕ → List ℕ → Decoder → Decoder
decode_loop bufsize [] d = d
decode_loop bufsize (c ∷ cs) d =
    let (on, d') = decode_byte d c in
    let rest = decode_loop bufsize cs d' in
    if not (ltb d.count bufsize) then d else if on then rest else d'

-- The buffer, and the count returned.
unfoldable pub cobs_decode : List ℕ → ℕ → List ℕ → List ℕ × ℕ
cobs_decode buf bufsize bytes =
    let d = decode_loop bufsize bytes (record { out = buf; count = 0; left = 0; code = 255 }) in
    (d.out, d.count)

-- The loop of `cobs_decode` on one array: `n` bytes to go from index `i`, read where they stand.
unfoldable pub overwrite_loop : ℕ → ℕ → ℕ → Decoder → Decoder
overwrite_loop maxlen zero i d = d
overwrite_loop maxlen (suc n) i d =
    let (on, d') = decode_byte d (get_or d.out i 0) in
    let rest = overwrite_loop maxlen n (suc i) d' in
    if not (ltb d.count maxlen) then d else if on then rest else d'

unfoldable pub cobs_decode_overwrite : List ℕ → ℕ → List ℕ × ℕ
cobs_decode_overwrite inout maxlen =
    let d =
      overwrite_loop maxlen maxlen 0 (record { out = inout; count = 0; left = 0; code = 255 }) in
    (d.out, d.count)
