-- ===== src/FlashKvstore/Tests.antt =====
-- Runs of the store at concrete inputs.
use libmcu.Base.{
  ℕ, zero, suc, ◌<◌, ◌≡◌, refl, true, none, some, List, [], ◌∷◌, length, get_or, replicate, bit_and,
  take, ◌==◌, if◌then◌else◌, arith,
}
use libmcu.Hash.{hash_murmur_32, hash_dbj2_32, murmur_from, dbj2_from}
use libmcu.FlashKvstore.{
  Entry, Storage, Kvstore, erased, is_free_entry, find_key, find_last, find_meta, alloc_loop,
  program_bytes, write_meta, write_value, copy_lines, move_entry, move_entries, move_partition,
  erase_storage, reclaim, put_entry, do_write, flash_kvstore_write, flash_kvstore_read,
  flash_kvstore_erase, alloc_entry,
}
use libmcu.FlashKvstore.Scan.{end_of}
use libmcu.FlashKvstore.Bytes.{IsNor}
use libmcu.FlashKvstore.Append.{flash_kvstore_write_lem}
use libmcu.FlashKvstore.Written.{IsWritten, IsOther, IsUsable, entry_of}
use libmcu.FlashKvstore.Overlap.{alloc_entry_overlaps}

-- A flash whose bits only go from 1 to 0.
abbrev nor_byte : ℕ → ℕ → ℕ
nor_byte old new = if old == 0xff then new else bit_and old new

abbrev nor_entry : Entry → Entry → Entry
nor_entry old new = new

flash-IsNor : IsNor nor_byte nor_entry
flash-IsNor = record { on_erased = λ x. refl; entry_on_erased = λ e. refl }

abbrev blank : ℕ → Storage
blank entries = record {
  present = true;
  meta = replicate entries erased;
  bytes = replicate 64 0xff;
}

abbrev fresh : Kvstore
fresh = record { storage = blank 3; scratch = blank 3 }

get_or_blank : (n i : ℕ) → get_or {A = ℕ} (replicate n 0xff) i 0xff ≡ 0xff
get_or_blank zero i = refl
get_or_blank (suc n) zero = refl
get_or_blank (suc n) (suc i) = get_or_blank n i

fresh-IsWritten : IsWritten [] 3 (fresh).storage
fresh-IsWritten = record {
  slots = refl;
  fit = tt;
  clean = λ i h. get_or_blank 64 i;
  small = omega arith;
}

abbrev key_a : List ℕ
key_a = 97 ∷ []

abbrev key_b : List ℕ
key_b = 98 ∷ []

key_a-IsUsable : IsUsable key_a
unfolding hash_murmur_32 hash_dbj2_32 murmur_from dbj2_from
key_a-IsUsable = refl

flash_kvstore_write_lem_example :
    let (rc, self') = flash_kvstore_write nor_byte nor_entry fresh key_a (1 ∷ 2 ∷ 3 ∷ []) 3 in
    (rc ≡ 0)
    × ((n : ℕ) → flash_kvstore_read self' key_a n ≡ some (take n (1 ∷ 2 ∷ 3 ∷ [])))
    × ((other : List ℕ) (n : ℕ)
        → IsUsable other
        → IsOther key_a other
        → flash_kvstore_read self' other n ≡ flash_kvstore_read fresh other n)
    × (end_of (entry_of key_a 0 3) < 64 → IsWritten (entry_of key_a 0 3 ∷ []) 2 self'.storage)
    × (self'.scratch ≡ (fresh).scratch)
flash_kvstore_write_lem_example =
    flash_kvstore_write_lem flash-IsNor fresh fresh-IsWritten key_a (1 ∷ 2 ∷ 3 ∷ []) key_a-IsUsable
      (omega arith) (omega arith)

abbrev long : List ℕ
long = replicate 56 7

alloc_entry_overlaps_example :
    let (rc, self') = flash_kvstore_write nor_byte nor_entry fresh key_a long 56 in
    (rc ≡ 0) × (alloc_entry self'.storage 4 ≡ some (1, 0))
alloc_entry_overlaps_example =
    alloc_entry_overlaps flash-IsNor fresh fresh-IsWritten key_a long key_a-IsUsable (omega arith)
      (omega arith) (omega arith) 4 (omega arith)

-- Four writes to three entries: the fourth copies the latest values to the scratch partition and
-- back.
abbrev run : Kvstore
run =
    let write : Kvstore → List ℕ → List ℕ → Kvstore =
      λ s key value. (flash_kvstore_write nor_byte nor_entry s key value (length value)).1 in
    write (write (write (write fresh key_a (1 ∷ 2 ∷ [])) key_b (3 ∷ [])) key_a (4 ∷ [])) key_a
      (5 ∷ 6 ∷ [])

run_test :
    (flash_kvstore_read run key_a 9 ≡ some (5 ∷ 6 ∷ []))
    × (flash_kvstore_read run key_b 9 ≡ some (3 ∷ []))
unfolding hash_murmur_32 hash_dbj2_32 murmur_from dbj2_from is_free_entry find_key find_last
    find_meta alloc_loop program_bytes write_meta write_value copy_lines move_entry move_entries
    move_partition erase_storage reclaim put_entry do_write flash_kvstore_write flash_kvstore_read
    alloc_entry
run_test = (refl, refl)

erase_test : flash_kvstore_read (flash_kvstore_erase nor_byte nor_entry run key_b).1 key_b 9 ≡ none
unfolding hash_murmur_32 hash_dbj2_32 murmur_from dbj2_from is_free_entry find_key find_last
    find_meta alloc_loop program_bytes write_meta write_value copy_lines move_entry move_entries
    move_partition erase_storage reclaim put_entry do_write flash_kvstore_write flash_kvstore_read
    flash_kvstore_erase alloc_entry
erase_test = refl
