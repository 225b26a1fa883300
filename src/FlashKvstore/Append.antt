-- ===== src/FlashKvstore/Append.antt =====
-- Writing a value behind the others: what is read afterwards.
use libmcu.Base.{
  ℕ, suc, ◌+◌, ◌≤◌, ◌<◌, min, ◌≡◌, refl, sym, subst, ap, ◌∙◌, inl, inr, ◌&&◌, Option, none, some,
  List, [], ◌∷◌, ◌++◌, length, get_or, set, take, drop, take_all, replicate, ltb, ◌==◌,
  if◌then◌else◌, u32, arith, append_assoc, ==_ne, Bool-cases,
}
use libmcu.Hash.{hash_murmur_32, hash_dbj2_32}
use libmcu.FlashKvstore.{
  Entry, Storage, Kvstore, erased, is_free_entry, find_last, find_key, with_value, room_for,
  alloc_loop, alloc_entry, put_or, write_meta, write_value, program_bytes, put_entry, do_write,
  flash_kvstore_write, flash_kvstore_read, read_at,
}
use libmcu.FlashKvstore.Scan.{
  end_of, top_of, AllFit, IsKey, alloc_loop-free, find_last-append, find_last-free,
}
use libmcu.FlashKvstore.Bytes.{IsNor, length-put, put_outside, slice_self, slice_before}
use libmcu.FlashKvstore.Written.{
  IsWritten, IsBefore, find_last-IsBefore, top_of-snoc, AllFit-snoc, set_first_free, get_first_free,
  IsOther, IsUsable, entry_of, swap_and, take-take,
}

module _ {program : ℕ → ℕ → ℕ} {program_entry : Entry → Entry → Entry}
    (nor : IsNor program program_entry) (self : Kvstore) {used : List Entry} {free : ℕ}
    (v : IsWritten used (suc free) self.storage) (key value : List ℕ) (usable : IsUsable key)
    (some_bytes : 0 < length value)
    (room : top_of used 0 + length value < length self.storage.bytes) where
  abbrev top : ℕ
  top = top_of used 0

  abbrev entry : Entry
  entry = entry_of key top (length value)

  -- The storage after the write.
  abbrev pub after : Storage
  after = record self.storage {
    meta = used ++ (entry ∷ replicate free erased);
    bytes = program_bytes program program_entry self.storage.bytes top value;
  }

  alloc_lem : alloc_entry self.storage (length value) ≡ some (length used, top)
  unfolding alloc_entry
  alloc_lem =
      ap
        (λ ms.
          room_for (length self.storage.bytes) (length value)
            (alloc_loop (length self.storage.bytes) ms 0 none 0))
        v.slots
      ∙ ap (room_for (length self.storage.bytes) (length value))
          (alloc_loop-free (length self.storage.bytes) used free v.fit)
      ∙ ground (arith, v.small)

  meta_lem :
      (e : Entry)
      → set self.storage.meta
          (length used)
          (program_entry (get_or self.storage.meta (length used) erased) e)
        ≡ used ++ (e ∷ replicate free erased)
  meta_lem e =
      ap (λ ms. set ms (length used) (program_entry (get_or ms (length used) erased) e)) v.slots
      ∙ ap (λ old. set (used ++ replicate (suc free) erased) (length used) (program_entry old e))
          (get_first_free used erased erased (replicate free erased))
      ∙ ap (set (used ++ replicate (suc free) erased) (length used)) (nor.entry_on_erased e)
      ∙ set_first_free used erased e (replicate free erased)

  put_lem :
      put_entry program program_entry self key (some value) (length value) (length used, top)
      ≡ (0, record self { storage = after })
  unfolding put_entry write_meta write_value
  put_lem =
      let n : ℕ = length value in
      let put : ℕ → ℕ × Kvstore = λ len.
        let s =
          write_meta program program_entry self.storage (length used) (entry_of key top len) in
        (
          0,
          record self {
            storage = if len == 0 then s else record s {
              bytes = program_bytes program program_entry s.bytes top (take len value);
            };
          },
        ) in
      ap put {x = u32 n} {y = n} (omega (arith, v.small))
      ∙ rw (==_ne n 0 (λ e. absurd (omega arith)), take_all n value (omega arith))
          (ap
            (λ ms. (
              0,
              record self {
                storage = record self.storage {
                  meta = ms;
                  bytes = program_bytes program program_entry self.storage.bytes top value;
                };
              },
            ))
            (meta_lem entry))

  pub write_lem :
      flash_kvstore_write program program_entry self key value (length value)
      ≡ (0, record self { storage = after })
  unfolding flash_kvstore_write do_write
  write_lem =
      ap (put_or program program_entry self key (some value) (length value) _) alloc_lem ∙ put_lem

  -- What a scan finds among the entries after the write.
  scan_lem :
      (murmur dbj2 : ℕ)
      → IsKey murmur dbj2
      → find_last murmur dbj2 (used ++ (entry ∷ replicate free erased)) none ≡ (
          if murmur == hash_murmur_32 key && dbj2 == hash_dbj2_32 key
          then some entry
          else find_last murmur dbj2 self.storage.meta none)
  unfolding find_last
  scan_lem murmur dbj2 usable' =
      let before : Option Entry = find_last murmur dbj2 used none in
      let same : find_last murmur dbj2 self.storage.meta none ≡ before =
        ap (λ ms. find_last murmur dbj2 ms none) v.slots
        ∙ find_last-append murmur dbj2 used (replicate (suc free) erased) none
        ∙ find_last-free murmur dbj2 (suc free) before usable' in
      find_last-append murmur dbj2 used (entry ∷ replicate free erased) none
      ∙ find_last-free murmur dbj2 free
          (if murmur == hash_murmur_32 key && dbj2 == hash_dbj2_32 key then some entry else before)
          usable'
      ∙ ap (λ o. if murmur == hash_murmur_32 key && dbj2 == hash_dbj2_32 key then some entry else o)
          (sym same)

  find_self : find_key after key ≡ some entry
  unfolding find_key
  find_self = ap with_value (scan_lem (hash_murmur_32 key) (hash_dbj2_32 key) usable) ∙ ground arith

  find_other :
      (other : List ℕ)
      → IsUsable other
      → IsOther key other
      → find_key after other ≡ find_key self.storage other
  unfolding find_key
  find_other other usable' apart =
      ap with_value (scan_lem (hash_murmur_32 other) (hash_dbj2_32 other) usable')
      ∙ ap
          (λ b. with_value (
            if b
            then some entry
            else find_last (hash_murmur_32 other) (hash_dbj2_32 other) self.storage.meta none))
          apart

  scan_IsBefore :
      (murmur dbj2 : ℕ)
      → IsKey murmur dbj2
      → IsBefore top (find_last murmur dbj2 self.storage.meta none)
  scan_IsBefore murmur dbj2 usable' =
      subst (IsBefore top)
        (sym (
          ap (λ ms. find_last murmur dbj2 ms none) v.slots
          ∙ find_last-append murmur dbj2 used (replicate (suc free) erased) none
          ∙ find_last-free murmur dbj2 (suc free) (find_last murmur dbj2 used none) usable'))
        (find_last-IsBefore murmur dbj2 (length self.storage.bytes) used none 0 v.fit tt)

  read_before :
      (n : ℕ) (o : Option Entry)
      → IsBefore top o
      → read_at (after).bytes n (with_value o) ≡ read_at self.storage.bytes n (with_value o)
  read_before n none before = refl
  read_before n (some e) before = elim (Bool-cases (ltb 0 e.len)) [
    | inl more ↦ rw more (
        ap some (
          slice_before nor self.storage.bytes top value e.offset (min n e.len) (omega arith)
            (omega arith)))
    | inr less ↦ rw less refl
  ]

  read_old :
      (n : ℕ) (other : List ℕ)
      → IsUsable other
      → read_at (after).bytes n (find_key self.storage other)
        ≡ read_at self.storage.bytes n (find_key self.storage other)
  unfolding find_key
  read_old n other usable' =
      read_before n _ (scan_IsBefore (hash_murmur_32 other) (hash_dbj2_32 other) usable')

  after-IsWritten :
      end_of entry < length self.storage.bytes → IsWritten (used ++ (entry ∷ [])) free after
  unfolding is_free_entry
  after-IsWritten below =
      let size = length-put nor self.storage.bytes top value in
      record {
        slots = sym (append_assoc used (entry ∷ []) (replicate free erased));
        fit =
            subst (λ n. AllFit n (used ++ (entry ∷ []))) (sym size)
              (AllFit-snoc (length self.storage.bytes) used entry v.fit
                (swap_and (hash_murmur_32 key == 0xffffffff) (hash_dbj2_32 key == 0xffffffff)
                  usable)
                (omega (arith, v.small)) below);
        clean = λ i h.
            let behind : top + length value ≤ i =
              ground (arith, top_of-snoc used entry 0, h, v.small) in
            put_outside nor self.storage.bytes top value i 0xff (inr behind)
            ∙ v.clean i (omega arith);
        small = omega (arith, size, v.small);
      }

-- With a flash that stores what is written over erased bytes, a partition written from the start
-- with a free entry, and room behind its values, writing a value of at least one byte succeeds.
-- Reading its key gives the value, cut to the buffer, and reading a key of other hashes gives what
-- it gave before. If the value ends with its padding before the end of the data part, the
-- partition is again one written from the start, with one entry more. A key whose hashes are both
-- 0xffffffff is excluded.
pub flash_kvstore_write_lem :
    {program : ℕ → ℕ → ℕ} {program_entry : Entry → Entry → Entry}
    → IsNor program program_entry
    → (self : Kvstore) {used : List Entry} {free : ℕ} → IsWritten used (suc free) self.storage
    → (key value : List ℕ) → IsUsable key
    → 0 < length value
    → top_of used 0 + length value < length self.storage.bytes
    → let (rc, self') = flash_kvstore_write program program_entry self key value (length value) in
      let e = entry_of key (top_of used 0) (length value) in
      (rc ≡ 0)
      × ((n : ℕ) → flash_kvstore_read self' key n ≡ some (take n value))
      × ((other : List ℕ) (n : ℕ)
          → IsUsable other
          → IsOther key other
          → flash_kvstore_read self' other n ≡ flash_kvstore_read self other n)
      × (end_of e < length self.storage.bytes → IsWritten (used ++ (e ∷ [])) free self'.storage)
      × (self'.scratch ≡ self.scratch)
unfolding flash_kvstore_read
flash_kvstore_write_lem {program} {program_entry} nor self {used} {free} v key value usable
      some_bytes room =
    let top = top_of used 0 in
    let bytes' : List ℕ = program_bytes program program_entry self.storage.bytes top value in
    let e : Entry = entry_of key top (length value) in
    let mine : (n : ℕ) → read_at bytes' n (some e) ≡ some (take n value) = λ n. ap some (
      sym (take-take n (length value) (drop top bytes'))
      ∙ ap (take n) (slice_self nor self.storage.bytes top value (omega arith) v.clean)) in
    subst
      (λ r.
        (r.0 ≡ 0)
        × ((n : ℕ) → read_at r.1.storage.bytes n (find_key r.1.storage key) ≡ some (take n value))
        × ((other : List ℕ) (n : ℕ)
            → IsUsable other
            → IsOther key other
            → read_at r.1.storage.bytes n (find_key r.1.storage other)
              ≡ read_at self.storage.bytes n (find_key self.storage other))
        × (end_of e < length self.storage.bytes → IsWritten (used ++ (e ∷ [])) free r.1.storage)
        × (r.1.scratch ≡ self.scratch))
      (sym (write_lem nor self v key value usable some_bytes room))
      (
        refl,
        λ n. ap (read_at bytes' n) (find_self nor self v key value usable some_bytes room) ∙ mine n,
        λ other n usable' apart.
            ap (read_at bytes' n)
              (find_other nor self v key value usable some_bytes room other usable' apart)
            ∙ read_old nor self v key value usable some_bytes room n other usable',
        after-IsWritten nor self v key value usable some_bytes room,
        refl,
      )
