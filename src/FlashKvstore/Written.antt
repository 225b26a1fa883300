-- ===== src/FlashKvstore/Written.antt =====
-- A partition written from the start, and lists of entries.
use libmcu.Base.{
  ℕ, zero, suc, ◌+◌, ◌^◌, ◌≤◌, ◌<◌, min, ◌≡◌, refl, ap, ◌∙◌, Bool, true, false, ◌&&◌, Option, none,
  some, List, [], ◌∷◌, ◌++◌, length, get_or, set, take, replicate, ltb, ◌==◌, if◌then◌else◌, arith,
}
use libmcu.Hash.{hash_murmur_32, hash_dbj2_32}
use libmcu.FlashKvstore.{Entry, Storage, erased, is_free_entry, find_last}
use libmcu.FlashKvstore.Scan.{end_of, top_of, AllFit, IsKey}
use libmcu.FlashKvstore.Bytes.{IsClean}

-- A partition written from the start: entries in use, then free ones; behind the values the data
-- part is erased.
pub record IsWritten (used : List Entry) (free : ℕ) (s : Storage) : Type 0 where
  pub slots : s.meta ≡ used ++ replicate free erased
  pub fit : AllFit (length s.bytes) used
  pub clean : IsClean s.bytes (top_of used 0)
  pub small : length s.bytes < 2 ^ 31

-- The entry found lies before `top`.
abbrev pub IsBefore : ℕ → Option Entry → Type 0
IsBefore top none = Unit
IsBefore top (some e) = e.offset + e.len ≤ top

pub IsBefore-le : (a b : ℕ) (o : Option Entry) → a ≤ b → IsBefore a o → IsBefore b o
IsBefore-le a b none h before = tt
IsBefore-le a b (some e) h before = omega arith

pub find_last-IsBefore :
    (murmur dbj2 size : ℕ) (es : List Entry) (found : Option Entry) (acc : ℕ)
    → AllFit size es
    → IsBefore acc found
    → IsBefore (top_of es acc) (find_last murmur dbj2 es found)
unfolding find_last
find_last-IsBefore murmur dbj2 size [] found acc fit before = before
find_last-IsBefore murmur dbj2 size (e ∷ es) found acc (taken, no_wrap, below, fit) before =
    let next : ℕ = if ltb acc (end_of e) then end_of e else acc in
    let hit : Bool = murmur == e.hash_murmur && dbj2 == e.hash_dbj2 in
    find_last-IsBefore murmur dbj2 size es (if hit then some e else found) next fit
      (either hit found (IsBefore-le acc next found (ground arith) before) (ground arith))
  where
    either :
        (hit : Bool) (found : Option Entry) {next : ℕ}
        → IsBefore next found
        → e.offset + e.len ≤ next
        → IsBefore next (if hit then some e else found)
    either true found before here = here
    either false found before here = before

pub top_of-snoc :
    (es : List Entry) (e : Entry) (acc : ℕ)
    → top_of (es ++ (e ∷ [])) acc
      ≡ (if ltb (top_of es acc) (end_of e) then end_of e else top_of es acc)
top_of-snoc [] e acc = refl
top_of-snoc (x ∷ es) e acc = top_of-snoc es e (if ltb acc (end_of x) then end_of x else acc)

pub AllFit-snoc :
    (size : ℕ) (es : List Entry) (e : Entry)
    → AllFit size es
    → is_free_entry e ≡ false
    → e.offset + e.len + 15 < 2 ^ 32
    → end_of e < size
    → AllFit size (es ++ (e ∷ []))
AllFit-snoc size [] e fit taken no_wrap below = (taken, no_wrap, below, tt)
AllFit-snoc size (x ∷ es) e (t, n, b, fit) taken no_wrap below =
    (t, n, b, AllFit-snoc size es e fit taken no_wrap below)

pub set_first_free :
    (used : List Entry) (x e : Entry) (rest : List Entry)
    → set (used ++ (x ∷ rest)) (length used) e ≡ used ++ (e ∷ rest)
set_first_free [] x e rest = refl
set_first_free (u ∷ used) x e rest = ap (λ t. u ∷ t) (set_first_free used x e rest)

pub get_first_free :
    (used : List Entry) (x d : Entry) (rest : List Entry)
    → get_or (used ++ (x ∷ rest)) (length used) d ≡ x
get_first_free [] x d rest = refl
get_first_free (u ∷ used) x d rest = get_first_free used x d rest

-- Two keys that no scan confuses.
abbrev pub IsOther : List ℕ → List ℕ → Type 0
IsOther key other =
    (hash_murmur_32 other == hash_murmur_32 key && hash_dbj2_32 other == hash_dbj2_32 key) ≡ false

-- A key that no scan takes for a free entry.
abbrev pub IsUsable : List ℕ → Type 0
IsUsable key = IsKey (hash_murmur_32 key) (hash_dbj2_32 key)

abbrev pub entry_of : List ℕ → ℕ → ℕ → Entry
entry_of key off size = record {
  hash_murmur = hash_murmur_32 key;
  hash_dbj2 = hash_dbj2_32 key;
  offset = off;
  len = size;
}

pub swap_and : (a b : Bool) → (a && b) ≡ false → (b && a) ≡ false
swap_and true true h = h
swap_and true false h = refl
swap_and false true h = refl
swap_and false false h = refl

pub take-take : (n m : ℕ) (xs : List ℕ) → take n (take m xs) ≡ take (min n m) xs
take-take zero m xs = ap (λ k. take k xs) {x = 0} {y = min 0 m} (omega arith)
take-take (suc n) zero xs = ap (λ k. take k xs) {x = 0} {y = min (suc n) 0} (omega arith)
take-take (suc n) (suc m) [] =
    let nil : List ℕ = [] in
    ap (λ k. take k nil) {x = suc (min n m)} {y = min (suc n) (suc m)} (omega arith)
take-take (suc n) (suc m) (x ∷ xs) =
    ap (λ t. x ∷ t) (take-take n m xs)
    ∙ ap (λ k. take k (x ∷ xs)) {x = suc (min n m)} {y = min (suc n) (suc m)} (omega arith)
