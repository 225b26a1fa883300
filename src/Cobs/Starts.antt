-- ===== src/Cobs/Starts.antt =====
-- An array by the bytes that it starts with, and stores behind and among them.
use libmcu.Base.{
  ℕ, ◌≤◌, ◌<◌, ◌≡◌, refl, sym, ap, ◌∙◌, List, [], ◌∷◌, ◌++◌, length, take, set, length-append,
  take_append, append_assoc, arith,
}

pub record Starts (buf w : List ℕ) : Type 0 where
  pub behind : List ℕ
  pub whole : buf ≡ w ++ behind

set_middle :
    (w : List ℕ) (x : ℕ) (g : List ℕ) (v : ℕ) → set (w ++ (x ∷ g)) (length w) v ≡ w ++ (v ∷ g)
set_middle [] x g v = refl
set_middle (y ∷ w) x g v = ap (λ t. y ∷ t) (set_middle w x g v)

module _ {buf w : List ℕ} where
  pub Starts-bound : Starts buf w → length w ≤ length buf
  Starts-bound s = omega (arith, ap length s.whole, length-append w s.behind)

  pub Starts-take : Starts buf w → take (length w) buf ≡ w
  Starts-take s = ap (take (length w)) s.whole ∙ take_append w s.behind

  pub Starts-next : Starts buf w → length w < length buf → (x : ℕ) × Starts buf (w ++ (x ∷ []))
  Starts-next s room = go s.behind s.whole
    where
      go : (r : List ℕ) → buf ≡ w ++ r → (x : ℕ) × Starts buf (w ++ (x ∷ []))
      go [] e = absurd (omega (arith, ap length e, length-append w []))
      go (x ∷ r) e = (x, record { behind = r; whole = e ∙ sym (append_assoc w (x ∷ []) r) })

-- Storing one of the bytes again.
pub Starts-patch :
    {buf : List ℕ} (w : List ℕ) (x : ℕ) (g : List ℕ) (v : ℕ)
    → Starts buf (w ++ (x ∷ g))
    → Starts (set buf (length w) v) (w ++ (v ∷ g))
Starts-patch w x g v s = record {
  behind = s.behind;
  whole =
      ap (λ t. set t (length w) v) (s.whole ∙ append_assoc w (x ∷ g) s.behind)
      ∙ set_middle w x (g ++ s.behind) v
      ∙ sym (append_assoc w (v ∷ g) s.behind);
}

pub Starts-put :
    {buf w : List ℕ} (v : ℕ)
    → Starts buf w
    → length w < length buf
    → Starts (set buf (length w) v) (w ++ (v ∷ []))
Starts-put {w} v s room = Starts-patch w (Starts-next s room).0 [] v (Starts-next s room).1
