-- ===== src/Cobs/RoundTrip.antt =====
-- `cobs_encode` and then `cobs_decode`.
use libmcu.Base.{
  ℕ, suc, ◌+◌, ◌/◌, ◌^◌, ◌≤◌, ◌<◌, ◌≡◌, ◌≢◌, refl, ap, ◌∙◌, ◌⊎◌, inl, inr, Bool, true, false, List,
  [], ◌∷◌, ◌++◌, length, take, get_or, length-append, append_assoc, ◌==◌, ==_iff, ==_ne, Bool-cases,
  if◌then◌else◌, done, arith,
}
use native.Mathlib.Decide.{ℕ_discrete}
use libmcu.Cobs.{is_empty, cobs_encode, cobs_decode}
use libmcu.Cobs.Starts.{Starts, Starts-take}
use libmcu.Cobs.Rounds.{stuffed, Framed}
use libmcu.Cobs.Encode.{stuff, cobs_encode-Framed}
use libmcu.Cobs.Decode.{cobs_decode-Starts}

abbrev pub IsNonzero : List ℕ → Type 0
IsNonzero [] = Unit {0}
IsNonzero (c ∷ cs) = (c ≢ 0) × IsNonzero cs

IsNonzero-append : (xs ys : List ℕ) → IsNonzero xs → IsNonzero ys → IsNonzero (xs ++ ys)
IsNonzero-append [] ys h k = k
IsNonzero-append (x ∷ xs) ys h k = (h.0, IsNonzero-append xs ys h.1 k)

suc_ne : (n : ℕ) → suc n ≢ 0
suc_ne n e = absurd (omega arith)

-- A stuffed byte or code is not zero.
stuffed-IsNonzero : (g cs : List ℕ) → IsNonzero g → IsNonzero (stuffed g cs)
stuffed-IsNonzero g [] h = (suc_ne (length g), h)
stuffed-IsNonzero g (c ∷ cs) h = elim (ℕ_discrete c 0) [
  | yes z ↦ rw ((==_iff c 0).1 z) (
      IsNonzero-append (suc (length g) ∷ g) (stuffed [] cs) (suc_ne (length g), h)
        (stuffed-IsNonzero [] cs tt))
  | no nz ↦
      let h' = IsNonzero-append g (c ∷ []) h (nz, tt) in
      rw (==_ne c 0 nz) (
        by_length (length g == 253) g (c ∷ []) cs h' (stuffed-IsNonzero [] cs tt)
          (stuffed-IsNonzero (g ++ (c ∷ [])) cs h'))
]
  where
    tail_nonzero :
        (cs : List ℕ)
        → IsNonzero (stuffed [] cs)
        → IsNonzero (if is_empty cs then [] else stuffed [] cs)
    tail_nonzero [] h = tt
    tail_nonzero (c ∷ cs) h = h

    by_length :
        (b : Bool) (g one cs : List ℕ)
        → IsNonzero (g ++ one)
        → IsNonzero (stuffed [] cs)
        → IsNonzero (stuffed (g ++ one) cs)
        → IsNonzero (
            if b
            then (255 ∷ (g ++ one)) ++ (if is_empty cs then [] else stuffed [] cs)
            else stuffed (g ++ one) cs)
    by_length true g one cs h k l =
        IsNonzero-append (255 ∷ (g ++ one)) (if is_empty cs then [] else stuffed [] cs)
          (suc_ne 254, h) (tail_nonzero cs k)
    by_length false g one cs h k l = l

-- A byte more for each 254 bytes, and one.
length-stuffed-le :
    (g cs : List ℕ)
    → length g ≤ 253
    → length (stuffed g cs) ≤ length g + length cs + (length g + length cs) / 254 + 1
length-stuffed-le g [] h = omega arith
length-stuffed-le g (c ∷ cs) h = elim (Bool-cases (c == 0)) [
  | inl zero_ ↦ rw zero_ (
      omega (
        arith,
        length-append (suc (length g) ∷ g) (stuffed [] cs),
        length-stuffed-le [] cs (omega arith),
      ))
  | inr byte ↦ elim (ℕ_discrete (length g) 253) [
    | yes full ↦
        rw (byte, (==_iff (length g) 253).1 full)
          (omega (
            arith,
            length-append (255 ∷ (g ++ (c ∷ []))) (if is_empty cs then [] else stuffed [] cs),
            length-append g (c ∷ []),
            tail_length cs (length-stuffed-le [] cs (omega arith)),
          ))
    | no less ↦
        rw (byte, ==_ne (length g) 253 less)
          (omega (
            arith,
            length-append g (c ∷ []),
            length-stuffed-le (g ++ (c ∷ [])) cs (omega (arith, length-append g (c ∷ []))),
          ))
  ]
]
  where
    tail_length :
        (cs : List ℕ)
        → length (stuffed [] cs)
          ≤ length {A = ℕ} [] + length cs + (length {A = ℕ} [] + length cs) / 254 + 1
        → length (if is_empty cs then [] else stuffed [] cs) ≤ length cs + (254 + length cs) / 254
    tail_length [] h = omega arith
    tail_length (c ∷ cs) h = omega arith

get_or_end :
    {buf : List ℕ} (w : List ℕ) (d : ℕ) → Starts buf (w ++ (0 ∷ [])) → get_or buf (length w) d ≡ 0
get_or_end w d s = ap (λ t. get_or t (length w) d) s.whole ∙ at_end w s.behind d
  where
    at_end : (w r : List ℕ) (d : ℕ) → get_or ((w ++ (0 ∷ [])) ++ r) (length w) d ≡ 0
    at_end [] r d = refl
    at_end (x ∷ w) r d = at_end w r d

-- With room for a byte more for each 254 bytes of data and for two, `cobs_encode` writes bytes that
-- are not zero, and a zero behind them: it returns how many they are, with the zero or without. From
-- these bytes `cobs_decode` gets the data back, in any buffer that is not empty and holds it.
pub cobs_decode-cobs_encode :
    (buf out bytes : List ℕ)
    → length bytes + length bytes / 254 + 2 ≤ length buf
    → length buf < 2 ^ 32
    → 0 < length out
    → length bytes ≤ length out
    → (buf' : List ℕ) × (n k : ℕ) × (cobs_encode buf (length buf) bytes ≡ done (buf', n))
      × ((n ≡ k) ⊎ (n ≡ suc k))
      × IsNonzero (take k buf')
      × (get_or buf' k 1 ≡ 0)
      × (k ≤ length bytes + length bytes / 254 + 1)
      × (let (out', m) = cobs_decode out (length out) (take k buf') in
          (m ≡ length bytes) × (take m out' ≡ bytes))
cobs_decode-cobs_encode buf out bytes room small some_room out_room =
    let short = length-stuffed-le [] bytes (omega arith) in
    let (r, e, f) = cobs_encode-Framed buf bytes (omega arith) small in
    let k = length (stuff bytes) in
    let whole : take k r.0 ≡ stuff bytes = Starts-take (prefix f) in
    let (d, m_is) = cobs_decode-Starts out bytes some_room out_room in
    (
      r.0,
      r.1,
      k,
      e,
      f.counted,
      rw whole (stuffed-IsNonzero [] bytes tt),
      get_or_end (stuff bytes) 1 f.bytes,
      omega arith,
      rw whole (m_is, rw m_is (Starts-take d)),
    )
  where
    prefix : {r : List ℕ × ℕ} {w : List ℕ} → Framed r w → Starts r.0 w
    prefix {w = w} f = record {
      behind = (0 ∷ []) ++ f.bytes.behind;
      whole = f.bytes.whole ∙ append_assoc w (0 ∷ []) f.bytes.behind;
    }
