-- ===== src/FlashKvstore/Overlap.antt =====
-- A value whose padding reaches the end of the data part.
use libmcu.Base.{
  ℕ, suc, ◌+◌, ◌≤◌, ◌<◌, ◌≡◌, refl, sym, subst, ap, ap₂, ◌∙◌, false, not, ◌&&◌, none, some, List,
  ◌∷◌, ◌++◌, length, replicate, ltb, ◌==◌, if◌then◌else◌, arith,
}
use libmcu.Hash.{hash_murmur_32, hash_dbj2_32}
use libmcu.FlashKvstore.{
  Entry, Kvstore, erased, is_free_entry, alloc_loop, alloc_entry, room_for, flash_kvstore_write,
}
use libmcu.FlashKvstore.Scan.{end_of, top_of, AllFit, alloc_loop-used, alloc_loop-found}
use libmcu.FlashKvstore.Bytes.{IsNor, length-put}
use libmcu.FlashKvstore.Append.{write_lem}
use libmcu.FlashKvstore.Written.{IsWritten, IsUsable, entry_of, swap_and}

-- An entry that ends at or behind the end of the data part does not count.
alloc_loop-late :
    (size : ℕ) (used : List Entry) (e : Entry) (k : ℕ)
    → AllFit size used
    → is_free_entry e ≡ false
    → size ≤ end_of e
    → alloc_loop size (used ++ (e ∷ replicate (suc k) erased)) 0 none 0
      ≡ (some (suc (length used)), top_of used 0)
unfolding alloc_loop is_free_entry
alloc_loop-late size used e k fit taken late =
    let top : ℕ = top_of used 0 in
    let rest : List Entry = replicate (suc k) erased in
    let none_yet : (if is_free_entry e then some (length used) else none) ≡ none = ground arith in
    let same : (if not (is_free_entry e) && (ltb top (end_of e) && ltb (end_of e) size)
          then end_of e
          else top)
        ≡ top =
      ground arith in
    alloc_loop-used size used (e ∷ rest) 0 0 fit
    ∙ ap (λ j. alloc_loop size (e ∷ rest) j none top) {x = 0 + length used} {y = length used}
        (omega arith)
    ∙ ap₂ (alloc_loop size rest (suc (length used))) none_yet same
    ∙ alloc_loop-found size k (suc (suc (length used))) (suc (length used)) top

-- In a partition written from the start, with two free entries and room behind its values: if the
-- padding of a value of at least one byte reaches the end of the data part, the write succeeds,
-- and the entry for the next value that fits there gets the offset of the value just written.
pub alloc_entry_overlaps :
    {program : ℕ → ℕ → ℕ} {program_entry : Entry → Entry → Entry}
    → IsNor program program_entry
    → (self : Kvstore) {used : List Entry} {free : ℕ} → IsWritten used (suc (suc free)) self.storage
    → (key value : List ℕ) → IsUsable key
    → 0 < length value
    → top_of used 0 + length value < length self.storage.bytes
    → length self.storage.bytes ≤ end_of (entry_of key (top_of used 0) (length value))
    → (size : ℕ) → top_of used 0 + size < length self.storage.bytes
    → let (rc, self') = flash_kvstore_write program program_entry self key value (length value) in
      (rc ≡ 0) × (alloc_entry self'.storage size ≡ some (suc (length used), top_of used 0))
unfolding alloc_entry is_free_entry
alloc_entry_overlaps {program} {program_entry} nor self {used} {free} v key value usable some_bytes
      room late size fits =
    let top : ℕ = top_of used 0 in
    let e : Entry = entry_of key top (length value) in
    let meta : List Entry = used ++ (e ∷ replicate (suc free) erased) in
    let taken : is_free_entry e ≡ false =
      swap_and (hash_murmur_32 key == 0xffffffff) (hash_dbj2_32 key == 0xffffffff) usable in
    subst (λ r. (r.0 ≡ 0) × (alloc_entry r.1.storage size ≡ some (suc (length used), top)))
      (sym (write_lem nor self v key value usable some_bytes room))
      (
        refl,
        ap (λ n. room_for n size (alloc_loop n meta 0 none 0))
              (length-put nor self.storage.bytes top value)
            ∙ ap (room_for (length self.storage.bytes) size)
                (alloc_loop-late (length self.storage.bytes) used e free v.fit taken late)
            ∙ ground (arith, v.small),
      )
