-- ===== src/Logging/Message.antt =====
-- The message of a log, and the text of a log.
use libmcu.Base.{
  ℕ, zero, suc, ◌-◌, ◌^◌, ◌≤◌, ◌<◌, min, ◌≡◌, refl, ap, ap₂, ◌∙◌, some, List, [], ◌∷◌, ◌++◌, length,
  get_or, take, drop, take_all, u16, u32, arith,
}
use libmcu.Logging.{Log, pack_message}

-- What C says of `vsnprintf`: it returns the length of the text, stores as much of it as fits
-- before a NUL, and leaves the rest of the buffer.
pub record IsVsnprintf {A : Type 0} (vsnprintf : A → ℕ → List ℕ → ℕ × List ℕ) (text : A → List ℕ)
    : Type 0 where
  pub returns :
      (args : A) (size : ℕ) (buf : List ℕ) → (vsnprintf args size buf).0 ≡ u32 (length (text args))
  pub stores :
      (args : A) (size : ℕ) (buf : List ℕ)
      → 0 < size
      → size ≤ length buf
      → (vsnprintf args size buf).1
        ≡ take (min (length (text args)) (size - 1)) (text args)
          ++ (0 ∷ drop (suc (min (length (text args)) (size - 1))) buf)

take-append : (xs ys : List ℕ) → take (length xs) (xs ++ ys) ≡ xs
take-append [] ys = refl
take-append (x ∷ xs) ys = ap (λ t. x ∷ t) (take-append xs ys)

drop_to_last : (n : ℕ) (xs : List ℕ) → length xs ≡ suc n → drop n xs ≡ get_or xs n 0 ∷ []
drop_to_last n [] h = absurd (omega arith)
drop_to_last zero (x ∷ []) h = refl
drop_to_last zero (x ∷ y ∷ xs) h = absurd (omega arith)
drop_to_last (suc n) (x ∷ xs) h = drop_to_last n xs (omega arith)

-- A text of at most 78 bytes is the message. Of a longer one, shorter than 2^16 bytes, the first
-- 78 bytes are stored, then a NUL; the length that goes with the message is still that of the text,
-- up to 80, so that the NUL and, of a text of 80 bytes or more, the last byte that the buffer held
-- before are a part of the message.
pub pack_message_lem :
    {A : Type 0} {vsnprintf : A → ℕ → List ℕ → ℕ × List ℕ} {text : A → List ℕ}
    → IsVsnprintf vsnprintf text
    → (args : A) (log : Log) → length log.message ≡ 80
    → length (text args) < 2 ^ 16
    → let log' = pack_message vsnprintf (some args) log in
      (length (text args) ≤ 78 → take log'.message_length log'.message ≡ text args)
      × (78 < length (text args)
          → (log'.message_length ≡ min (length (text args)) 80)
            × (log'.message ≡ take 78 (text args) ++ (0 ∷ get_or log.message 79 0 ∷ [])))
unfolding pack_message
pack_message_lem {A} {vsnprintf} {text} is args log full small =
    let n : ℕ = length (text args) in
    let len = is.returns args 79 log.message in
    let stored = is.stores args 79 log.message (omega arith) (omega (arith, full)) in
    (
      λ short.
          ap₂ take {x = min (u16 (vsnprintf args 79 log.message).0) 80} {y = n} (omega (arith, len))
            stored
          ∙ ap (λ k. take n (take k (text args) ++ (0 ∷ drop (suc (min n 78)) log.message)))
              {x = min n 78} {y = n} (omega arith)
          ∙ ap (λ t. take n (t ++ (0 ∷ drop (suc (min n 78)) log.message)))
              (take_all n (text args) (omega arith))
          ∙ take-append (text args) (0 ∷ drop (suc (min n 78)) log.message),
      λ long. (
        omega (arith, len),
        stored
            ∙ ap (λ k. take k (text args) ++ (0 ∷ drop (suc k) log.message)) {x = min n 78} {y = 78}
                (omega arith)
            ∙ ap (λ r. take 78 (text args) ++ (0 ∷ r)) (drop_to_last 79 log.message full),
      ),
    )
