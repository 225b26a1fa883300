-- ===== src/Msgq/Frames.antt =====
-- The bytes that stand for a list of messages, and what the queue's specification says of them.
use libmcu.Base.{
  ℕ, ◌+◌, ◌^◌, ◌<◌, ◌≡◌, refl, ap, sym, ◌∙◌, List, [], ◌∷◌, ◌++◌, length, take, drop, take_append,
  drop_append, append_assoc, append-nil, arith,
}
use libmcu.Msgq.{encode_meta, decode_meta}

-- A message behind its size.
abbrev pub frame : List ℕ → List ℕ
frame m = encode_meta (length m) ++ m

-- Messages in order, oldest first.
abbrev pub frames : List (List ℕ) → List ℕ
frames [] = []
frames (m ∷ ms) = frame m ++ frames ms

pub decode-encode :
    (size : ℕ) (rest : List ℕ) → size < 2 ^ 32 → decode_meta (encode_meta size ++ rest) ≡ size
decode-encode size rest h = omega arith

pub length-frame : (m : List ℕ) → length (frame m) ≡ 4 + length m
length-frame m = omega arith

pub frames-append :
    (ms : List (List ℕ)) (m : List ℕ) → frames (ms ++ (m ∷ [])) ≡ frames ms ++ frame m
frames-append [] m = append-nil (frame m)
frames-append (k ∷ ms) m =
    ap (λ t. frame k ++ t) (frames-append ms m) ∙ sym (append_assoc (frame k) (frames ms) (frame m))

-- What stands in a ring whose first message is `m`.
pub take_meta : (m : List ℕ) (rest : List ℕ) → take 4 (frame m ++ rest) ≡ encode_meta (length m)
take_meta m rest = refl

pub take_body : (m : List ℕ) (rest : List ℕ) → take (length m) (drop 4 (frame m ++ rest)) ≡ m
take_body m rest = take_append m rest

pub drop-frame : (m : List ℕ) (rest : List ℕ) → drop (4 + length m) (frame m ++ rest) ≡ rest
drop-frame m rest =
    ap (λ t. drop t (frame m ++ rest)) (sym (length-frame m)) ∙ drop_append (frame m) rest
