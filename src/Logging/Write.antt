-- ===== src/Logging/Write.antt =====
-- Which logs reach which backends.
use libmcu.Base.{
  min, u16, bit_xor, ℕ, ◌+◌, ◌≡◌, refl, sym, ap, ap₂, ◌∙◌, Bool, true, false, not, ◌&&◌, Option,
  none, some, List, [], ◌∷◌, ◌++◌, map, ltb, leb, if◌then◌else◌, arith, append_assoc, append-nil,
  Outcome, done, undefined, ◌>>=◌,
}
use libmcu.Logging.{
  compute_magic, TagPtr, slot, global, Log, Backend, Logging, Context, type_max,
  is_logging_type_valid, is_logging_type_enabled, get_log_length, timestamp_of, pack_log,
  pack_message, write_all, logging_write,
}
use libmcu.Logging.Packed.{level_in}
use libmcu.Logging.Table.{TagMap, register, level_or, IsEntry, holding, obtain_tag-holding}
use libmcu.Logging.Refine.{level_at}

-- What backends have been given: the backend's address, the log and its size.
abbrev pub Given : Type 0
Given = List (ℕ × Log × ℕ)

-- The backends in use note what they are given, and return what they like.
abbrev pub AllNote : (ℕ → ℕ → ℕ) → List (Option (Backend Given)) → Type 0
AllNote answer [] = Unit
AllNote answer (none ∷ bs) = AllNote answer bs
AllNote answer (some b ∷ bs) =
    (b.write ≡ some (λ log size w. (answer b.address size, w ++ ((b.address, log, size) ∷ []))))
    × AllNote answer bs

-- The addresses of the backends in use, in the order of the table.
abbrev pub addresses : List (Option (Backend Given)) → List ℕ
addresses [] = []
addresses (none ∷ bs) = addresses bs
addresses (some b ∷ bs) = b.address ∷ addresses bs

-- What the last of them returned.
abbrev pub last_result : (ℕ → ℕ → ℕ) → List ℕ → ℕ → ℕ → ℕ
last_result answer [] size before = before
last_result answer (a ∷ more) size before = last_result answer more size (answer a size)

module _ (answer : ℕ → ℕ → ℕ) where
  write_all-AllNote :
      (bs : List (Option (Backend Given))) (log : Log) (r : ℕ) (w : Given)
      → AllNote answer bs
      → write_all bs log r w
        ≡ done (
          last_result answer (addresses bs) (get_log_length log) r,
          w ++ map (λ a. (a, log, get_log_length log)) (addresses bs),
        )
  unfolding write_all
  write_all-AllNote [] log r w all = ap (λ v. done (r, v)) (sym (append-nil w))
  write_all-AllNote (none ∷ bs) log r w all = write_all-AllNote bs log r w all
  write_all-AllNote (some b ∷ bs) log r w (notes, all) =
      let size : ℕ = get_log_length log in
      ap
        (λ o. elim o [
          | none ↦ undefined
          | some f ↦ let (r', w') = f log size w in write_all bs log r' w'
        ])
        notes
      ∙ write_all-AllNote bs log (answer b.address size) (w ++ ((b.address, log, size) ∷ [])) all
      ∙ ap (λ v. done (last_result answer (addresses bs) size (answer b.address size), v))
          (append_assoc w ((b.address, log, size) ∷ []) (map (λ a. (a, log, size)) (addresses bs)))

-- A valid level that neither the global level nor the tag's is above.
abbrev pub is_let_through : TagMap → ℕ → ℕ → Bool
is_let_through s t type =
    ltb type type_max
    && (leb s.global_level type && leb (level_or s.global_level (level_in s.levels t)) type)

enabled_lem :
    {W : Type 0} (m : Logging W) (s : TagMap) (t type : ℕ) (p : TagPtr)
    → IsEntry s t p
    → is_logging_type_enabled (holding m s) p type
      ≡ (leb s.global_level type && leb (level_or s.global_level (level_in s.levels t)) type)
unfolding is_logging_type_enabled
enabled_lem m s t type (slot i) at = ground (arith, level_at m s t (slot i) at)
enabled_lem m s t type global at = ground (arith, level_at m s t global at)

abbrev pub plus_header : ℕ → ℕ
plus_header n = 21 + n

get_log_length_lem : (log : Log) → get_log_length log ≡ plus_header log.message_length
unfolding get_log_length
get_log_length_lem log = ground arith

-- The length and the bytes of the message, in a buffer of 80 bytes.
abbrev pub formatted : {A : Type 0} → (A → ℕ → List ℕ → ℕ × List ℕ) → Option A → List ℕ → ℕ × List ℕ
formatted vsnprintf none buf = (0, buf)
formatted vsnprintf (some args) buf =
    (min (u16 (vsnprintf args 79 buf).0) 80, (vsnprintf args 79 buf).1)

-- What a log holds of its call: the level, the addresses and the time, a check value of the
-- addresses, the message and its length, which is 0 without a format, and the tag: a pointer to the
-- entry that has it, or to the global one.
pub record IsFor {A : Type 0} (vsnprintf : A → ℕ → List ℕ → ℕ × List ℕ) (log : Log) (s : TagMap)
    (type t pc lr now : ℕ) (args : Option A) (buf : List ℕ) : Type 0 where
  pub type_of : log.type ≡ type
  pub pc_of : log.pc ≡ pc
  pub lr_of : log.lr ≡ lr
  pub time_of : log.timestamp ≡ now
  pub magic_of : log.magic ≡ u16 (bit_xor (bit_xor pc lr) 0xA5A5)
  pub length_of : log.message_length ≡ (formatted vsnprintf args buf).0
  pub message_of : log.message ≡ (formatted vsnprintf args buf).1
  pub tag_of : (p : TagPtr) × (log.tag ≡ some p) × IsEntry s t p

pack_message-IsFor :
    {A W : Type 0} (vsnprintf : A → ℕ → List ℕ → ℕ × List ℕ) (args : Option A) (m : Logging W)
    (s : TagMap) (type t pc lr : ℕ) (w : W) (buf : List ℕ) (p : TagPtr)
    → IsEntry s t p
    → IsFor vsnprintf
        (record (pack_message vsnprintf args
          (pack_log m type (record { tag = some t; pc = pc; lr = lr }) w buf)) { tag = some p })
        s
        type
        t
        pc
        lr
        (timestamp_of m.time w)
        args
        buf
unfolding pack_message pack_log compute_magic
pack_message-IsFor vsnprintf none m s type t pc lr w buf p at = record {
  type_of = refl;
  pc_of = refl;
  lr_of = refl;
  time_of = refl;
  magic_of = refl;
  length_of = refl;
  message_of = refl;
  tag_of = (p, refl, at);
}
pack_message-IsFor vsnprintf (some args) m s type t pc lr w buf p at = record {
  type_of = refl;
  pc_of = refl;
  lr_of = refl;
  time_of = refl;
  magic_of = refl;
  length_of = refl;
  message_of = refl;
  tag_of = (p, refl, at);
}

valid_lem : (b : Bool) → (if not b then false else true) ≡ b
valid_lem true = refl
valid_lem false = refl

two_tests :
    {B : Type 0} (a b : Bool) (x y : B)
    → (if not a then x else if not b then x else y) ≡ (if a && b then y else x)
two_tests true true x y = refl
two_tests true false x y = refl
two_tests false b x y = refl

module _ {A : Type 0} (vsnprintf : A → ℕ → List ℕ → ℕ × List ℕ) (m : Logging Given)
    (answer : ℕ → ℕ → ℕ) (all : AllNote answer m.backends) where
  -- What `logging_write` does with the tag that it obtained.
  abbrev after_obtain :
      TagPtr
      → Logging Given
      → ℕ
      → Context
      → Option A
      → Given
      → Outcome ((ℕ × Logging Given) × Given)
  after_obtain tag m' type ctx args w =
      let log : Log = record (pack_message vsnprintf args (pack_log m' type ctx w m'.buf)) {
        tag = some tag;
      } in
      let sent : Outcome ((ℕ × Logging Given) × Given) =
        write_all m'.backends log 0 w
        >>= (λ r. done ((r.0, record m' { buf = log.message }), r.1)) in
      if not (is_logging_type_valid type)
      then done ((0, m'), w)
      else if not (is_logging_type_enabled m' tag type)
      then done ((0, m'), w)
      else sent

  -- A tag that has an entry or finds room gets one, and the message goes, once and in the order
  -- of the table, to each backend in use, where its level is valid and neither the global level nor
  -- that of the tag is above it; the result is then what the last backend returned, or 0 without a
  -- backend. Any other call returns 0 and reaches no backend. The log has the level, the addresses,
  -- the formatted message and the time of the call, and points to the entry of the tag, or to the
  -- global one where the table has no room for it. Its size is 21 and the length of the message.
  pub logging_write_lem :
      (s : TagMap) (type t pc lr : ℕ) (args : Option A) (w : Given)
      → let s' = register s t in
        (log : Log) × IsFor vsnprintf log s' type t pc lr (timestamp_of m.time w) args m.buf
        × (logging_write vsnprintf
              (holding m s)
              type
              (record { tag = some t; pc = pc; lr = lr })
              args
              w
            ≡ (if is_let_through s' t type
                then done (
                  (
                    last_result answer (addresses m.backends) (plus_header log.message_length) 0,
                    record (holding m s') { buf = log.message },
                  ),
                  w ++ map (λ a. (a, log, plus_header log.message_length)) (addresses m.backends),
                )
                else done ((0, holding m s'), w)))
  unfolding logging_write is_logging_type_valid
  logging_write_lem s type t pc lr args w =
      let s' = register s t in
      let ctx : Context = record { tag = some t; pc = pc; lr = lr } in
      let (p, e, at) = obtain_tag-holding m s t in
      let log : Log =
        record (pack_message vsnprintf args (pack_log (holding m s') type ctx w m.buf)) {
          tag = some p;
        } in
      let sent : Outcome ((ℕ × Logging Given) × Given) =
        write_all m.backends log 0 w
        >>= (λ r. done ((r.0, record (holding m s') { buf = log.message }), r.1)) in
      (
        log,
        pack_message-IsFor vsnprintf args (holding m s') s' type t pc lr w m.buf p at,
        ap (λ r. after_obtain r.0 r.1 type ctx args w) e
            ∙ ap₂
                (λ a b.
                  if not a
                  then done ((0, holding m s'), w)
                  else if not b
                  then done ((0, holding m s'), w)
                  else sent)
                (valid_lem (ltb type type_max)) (enabled_lem m s' t type p at)
            ∙ two_tests (ltb type type_max) _ (done ((0, holding m s'), w)) sent
            ∙ ap
                (λ r.
                  if is_let_through s' t type
                  then r >>= (λ r. done ((r.0, record (holding m s') { buf = log.message }), r.1))
                  else done ((0, holding m s'), w))
                (write_all-AllNote answer m.backends log 0 w all
                  ∙ ap
                      (λ n. done (
                        last_result answer (addresses m.backends) n 0,
                        w ++ map (λ a. (a, log, n)) (addresses m.backends),
                      ))
                      (get_log_length_lem log)),
      )
