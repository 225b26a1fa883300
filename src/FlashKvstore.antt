-- ===== src/FlashKvstore.antt =====
-- ports/kvstore/flash_kvstore.c: keys and values appended to a flash partition, without
-- FLASH_OVERWRITE and with FLASH_LINE_ALIGN_BYTES 16. The flash driver is a parameter: `program old
-- new` is the byte that writing `new` over `old` leaves, and `program_entry` the same of an entry.
-- Its calls succeed, so that the -EIO of a failing driver is not modelled.
pub mod Scan
pub mod Bytes
pub mod Written
pub mod Append
pub mod Overlap
mod Tests
use libmcu.Base.{
  ℕ, zero, suc, ◌+◌, ◌-◌, ◌*◌, ◌/◌, ◌^◌, min, Bool, true, false, not, ◌&&◌, ◌||◌, Option, none,
  some, List, [], ◌∷◌, length, get_or, set, take, drop, replicate, ltb, leb, ◌==◌, if◌then◌else◌,
  u32, errno,
}
use libmcu.Hash.{hash_murmur_32, hash_dbj2_32}

-- `struct meta_entry`
pub record Entry : Type 0 where
  pub hash_murmur : ℕ
  pub hash_dbj2 : ℕ
  pub offset : ℕ
  pub len : ℕ

-- A partition: the entries of its meta part, and the bytes of its data part. `present` says that
-- the pointer to its flash is not NULL.
pub record Storage : Type 0 where
  pub present : Bool
  pub meta : List Entry
  pub bytes : List ℕ

pub record Kvstore : Type 0 where
  pub storage : Storage
  pub scratch : Storage

-- What an erased part holds.
abbrev pub erased : Entry
erased = record {
  hash_murmur = 0xffffffff;
  hash_dbj2 = 0xffffffff;
  offset = 0xffffffff;
  len = 0xffffffff;
}

-- ALIGN to 16 bytes, on `uint32_t`.
abbrev pub align : ℕ → ℕ
align x = u32 (x + 15) / 16 * 16

unfoldable pub is_free_entry : Entry → Bool
is_free_entry e = e.hash_dbj2 == 0xffffffff && e.hash_murmur == 0xffffffff

-- The last entry with the hashes; `found` is the last one so far.
unfoldable pub find_last : ℕ → ℕ → List Entry → Option Entry → Option Entry
find_last murmur dbj2 [] found = found
find_last murmur dbj2 (e ∷ es) found =
    find_last murmur dbj2 es
      (if murmur == e.hash_murmur && dbj2 == e.hash_dbj2 then some e else found)

-- `keycnt > 0 && meta->entry.len > 0`
abbrev pub with_value : Option Entry → Option Entry
with_value none = none
with_value (some e) = if ltb 0 e.len then some e else none

unfoldable pub find_key : Storage → List ℕ → Option Entry
find_key s key = with_value (find_last (hash_murmur_32 key) (hash_dbj2_32 key) s.meta none)

unfoldable pub find_meta : Storage → Entry → Option Entry
find_meta s e = find_last e.hash_murmur e.hash_dbj2 s.meta none

-- The loop of `alloc_entry` from entry `i` on: the place of the first free one, and the offset
-- behind the values.
unfoldable pub alloc_loop : ℕ → List Entry → ℕ → Option ℕ → ℕ → Option ℕ × ℕ
alloc_loop size [] i slot top = (slot, top)
alloc_loop size (e ∷ es) i slot top =
    let t = align (u32 (e.offset + e.len)) in
    let slot' : Option ℕ = elim slot [ none ↦ some i | some j ↦ some j ] in
    alloc_loop size es (suc i) (if is_free_entry e then slot' else slot)
      (if not (is_free_entry e) && (ltb top t && ltb t size) then t else top)

-- The test behind the loop.
abbrev pub room_for : ℕ → ℕ → Option ℕ × ℕ → Option (ℕ × ℕ)
room_for data_size size (none, top) = none
room_for data_size size (some i, top) =
    if ltb (u32 (top + size)) data_size then some (i, top) else none

-- The place of a new entry, and the offset of its value; `none` is -ENOSPC.
unfoldable pub alloc_entry : Storage → ℕ → Option (ℕ × ℕ)
alloc_entry s size = room_for (length s.bytes) size (alloc_loop (length s.bytes) s.meta 0 none 0)

module _ (program : ℕ → ℕ → ℕ) (program_entry : Entry → Entry → Entry) where
  unfoldable pub program_bytes : List ℕ → ℕ → List ℕ → List ℕ
  program_bytes bytes off [] = bytes
  program_bytes bytes off (x ∷ xs) =
      program_bytes (set bytes off (program (get_or bytes off 0) x)) (suc off) xs

  unfoldable pub write_meta : Storage → ℕ → Entry → Storage
  write_meta s i e = record s { meta = set s.meta i (program_entry (get_or s.meta i erased) e) }

  -- `none` is a NULL pointer.
  unfoldable pub write_value : Storage → Option (List ℕ) → Entry → Storage
  write_value s none e = s
  write_value s (some value) e =
      if e.len == 0
      then s
      else record s { bytes = program_bytes s.bytes e.offset (take e.len value) }

  -- The copy of `rounds` lines of 16 bytes.
  unfoldable pub copy_lines : ℕ → List ℕ → List ℕ → ℕ → ℕ → List ℕ
  copy_lines zero from to of ot = to
  copy_lines (suc rounds) from to of ot =
      copy_lines rounds from (program_bytes to ot (take 16 (drop of from))) (of + 16) (ot + 16)

  -- One entry of `from`; whether it went well, or -EIO.
  unfoldable pub move_entry : Storage → Storage → Entry → Bool × Storage
  move_entry from to t =
      let moved : Entry → Bool × Storage = λ e. elim (alloc_entry to e.len) [
        | none ↦ (false, to)
        | some (i, off) ↦
            let to' = write_meta to i (record e { offset = off }) in
            (
              true,
              record to' {
                bytes = copy_lines ((e.len + 15) / 16) from.bytes to'.bytes e.offset off;
              },
            )
      ] in
      if is_free_entry t then (true, to) else elim (find_meta from t) [
        | none ↦ (true, to)
        | some e ↦
            if e.len == 0 || ltb (length from.bytes) e.offset
            then (true, to)
            else elim (find_meta to e) [ some old ↦ (true, to) | none ↦ moved e ]
      ]

  unfoldable pub move_entries : Storage → Storage → List Entry → Bool × Storage
  move_entries from to [] = (true, to)
  move_entries from to (t ∷ ts) =
      let (ok, to') = move_entry from to t in
      let rest = move_entries from to' ts in if ok then rest else (false, to')

  -- lm_flash_erase
  unfoldable pub erase_storage : Storage → Storage
  erase_storage s = record s {
    meta = replicate (length s.meta) erased;
    bytes = replicate (length s.bytes) 0xff;
  }

  unfoldable pub move_partition : Storage → Storage → Bool × Storage
  move_partition from to = move_entries from (erase_storage to) from.meta

  -- 0 or the code, with the store; -EIO, -ENOSPC and -ENOTSUP.
  unfoldable pub reclaim : Kvstore → ℕ × Kvstore
  reclaim self =
      let (moved, scratch) = move_partition self.storage self.scratch in
      let kept = record self { scratch = scratch } in
      let (back, storage) = move_partition scratch self.storage in
      if not self.scratch.present
      then (errno 95, self)
      else if not moved
      then (errno 5, kept)
      else elim (alloc_entry scratch 16) [
        | none ↦ (errno 28, kept)
        | some at ↦ ((if back then 0 else errno 5), record kept { storage = storage })
      ]

  -- What follows the allocation in `do_write`.
  unfoldable pub put_entry : Kvstore → List ℕ → Option (List ℕ) → ℕ → ℕ × ℕ → ℕ × Kvstore
  put_entry self key value size (i, off) =
      let e : Entry = record {
        hash_murmur = hash_murmur_32 key;
        hash_dbj2 = hash_dbj2_32 key;
        offset = off;
        len = u32 size;
      } in
      (0, record self { storage = write_value (write_meta self.storage i e) value e })

  -- Where the allocation has found no place, `other`.
  abbrev pub put_or :
      Kvstore → List ℕ → Option (List ℕ) → ℕ → ℕ × Kvstore → Option (ℕ × ℕ) → ℕ × Kvstore
  put_or self key value size other none = other
  put_or self key value size other (some at) = put_entry self key value size at

  unfoldable pub do_write : Kvstore → List ℕ → Option (List ℕ) → ℕ → ℕ × Kvstore
  do_write self key value size =
      let (rc, self') = reclaim self in
      let again = put_or self' key value size (errno 28, self') (alloc_entry self'.storage size) in
      put_or self key value size (if not (rc == 0) then (rc, self') else again)
        (alloc_entry self.storage size)

  unfoldable pub flash_kvstore_write : Kvstore → List ℕ → List ℕ → ℕ → ℕ × Kvstore
  flash_kvstore_write self key value size = do_write self key (some value) size

  unfoldable pub flash_kvstore_erase : Kvstore → List ℕ → ℕ × Kvstore
  flash_kvstore_erase self key = elim (find_key self.storage key) [
    | none ↦ (errno 2, self)
    | some e ↦ do_write self key none 0
  ]

abbrev pub read_at : List ℕ → ℕ → Option Entry → Option (List ℕ)
read_at bytes size none = none
read_at bytes size (some e) = some (take (min size e.len) (drop e.offset bytes))

-- The bytes read; `none` is -ENOENT.
unfoldable pub flash_kvstore_read : Kvstore → List ℕ → ℕ → Option (List ℕ)
flash_kvstore_read self key size = read_at self.storage.bytes size (find_key self.storage key)
