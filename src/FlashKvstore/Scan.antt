-- ===== src/FlashKvstore/Scan.antt =====
-- What the scans of the entries find in a partition that is written from the start.
use libmcu.Base.{
  ℕ, zero, suc, ◌+◌, ◌^◌, ◌≤◌, ◌<◌, ◌≡◌, refl, ap, ap₂, ◌∙◌, false, not, ◌&&◌, Option, none, some,
  List, [], ◌∷◌, ◌++◌, length, replicate, ltb, ◌==◌, if◌then◌else◌, u32, arith,
}
use libmcu.FlashKvstore.{Entry, erased, align, is_free_entry, find_last, alloc_loop}

-- Where the value of an entry ends, with its padding.
abbrev pub end_of : Entry → ℕ
end_of e = align (u32 (e.offset + e.len))

-- The offset behind the values of the entries, or `acc`.
abbrev pub top_of : List Entry → ℕ → ℕ
top_of [] acc = acc
top_of (e ∷ es) acc = top_of es (if ltb acc (end_of e) then end_of e else acc)

-- Entries in use, whose values end with their padding before the end of the data part.
abbrev pub AllFit : ℕ → List Entry → Type 0
AllFit size [] = Unit
AllFit size (e ∷ es) =
    (is_free_entry e ≡ false)
    × (e.offset + e.len + 15 < 2 ^ 32)
    × (end_of e < size)
    × AllFit size es

module _ (size : ℕ) where
  pub alloc_loop-used :
      (used rest : List Entry) (i acc : ℕ)
      → AllFit size used
      → alloc_loop size (used ++ rest) i none acc
        ≡ alloc_loop size rest (i + length used) none (top_of used acc)
  unfolding alloc_loop
  alloc_loop-used [] rest i acc fit =
      ap (λ j. alloc_loop size rest j none acc) {x = i} {y = i + 0} (omega arith)
  alloc_loop-used (e ∷ used) rest i acc (taken, small, below, fit) =
      let acc' : ℕ = if ltb acc (end_of e) then end_of e else acc in
      let same : (if not (is_free_entry e) && (ltb acc (end_of e) && ltb (end_of e) size)
            then end_of e
            else acc)
          ≡ acc' =
        ground arith in
      let none_yet : (if is_free_entry e then some i else none) ≡ none = ground arith in
      ap₂ (alloc_loop size (used ++ rest) (suc i)) none_yet same
      ∙ alloc_loop-used used rest (suc i) acc' fit
      ∙ ap (λ j. alloc_loop size rest j none (top_of used acc')) {x = suc i + length used}
          {y = i + suc (length used)} (omega arith)

  pub alloc_loop-found :
      (k i j acc : ℕ) → alloc_loop size (replicate k erased) i (some j) acc ≡ (some j, acc)
  unfolding alloc_loop is_free_entry
  alloc_loop-found zero i j acc = refl
  alloc_loop-found (suc k) i j acc = alloc_loop-found k (suc i) j acc

  -- With free entries behind the used ones, the first of them and the offset behind the values.
  pub alloc_loop-free :
      (used : List Entry) (k : ℕ)
      → AllFit size used
      → alloc_loop size (used ++ replicate (suc k) erased) 0 none 0
        ≡ (some (length used), top_of used 0)
  unfolding alloc_loop is_free_entry
  alloc_loop-free used k fit =
      alloc_loop-used used (replicate (suc k) erased) 0 0 fit
      ∙ ap (λ j. alloc_loop size (replicate (suc k) erased) j none (top_of used 0))
          {x = 0 + length used} {y = length used} (omega arith)
      ∙ alloc_loop-found k (suc (length used)) (length used) (top_of used 0)

pub top_of-ge : (es : List Entry) (acc : ℕ) → acc ≤ top_of es acc
top_of-ge [] acc = omega arith
top_of-ge (e ∷ es) acc = ground (arith, top_of-ge es (if ltb acc (end_of e) then end_of e else acc))

-- Which entries stand behind others does not matter for the last one with the hashes.
pub find_last-append :
    (murmur dbj2 : ℕ) (xs ys : List Entry) (found : Option Entry)
    → find_last murmur dbj2 (xs ++ ys) found
      ≡ find_last murmur dbj2 ys (find_last murmur dbj2 xs found)
unfolding find_last
find_last-append murmur dbj2 [] ys found = refl
find_last-append murmur dbj2 (x ∷ xs) ys found =
    find_last-append murmur dbj2 xs ys
      (if murmur == x.hash_murmur && dbj2 == x.hash_dbj2 then some x else found)

-- Hashes that no free entry has.
abbrev pub IsKey : ℕ → ℕ → Type 0
IsKey murmur dbj2 = (murmur == 0xffffffff && dbj2 == 0xffffffff) ≡ false

pub find_last-free :
    (murmur dbj2 : ℕ) (k : ℕ) (found : Option Entry)
    → IsKey murmur dbj2
    → find_last murmur dbj2 (replicate k erased) found ≡ found
unfolding find_last
find_last-free murmur dbj2 zero found key = refl
find_last-free murmur dbj2 (suc k) found key =
    let other : (if murmur == 0xffffffff && dbj2 == 0xffffffff then some erased else found)
        ≡ found =
      ground (arith, key) in
    ap (find_last murmur dbj2 (replicate k erased)) other ∙ find_last-free murmur dbj2 k found key
