-- ===== src/Logging.antt =====
-- modules/logging/src/logging.c: log entries of a tag and a level, filtered and passed to the
-- backends. `W` is what the backends and the caller's buffers are made of. A `const char *` tag is
-- its address, and `none` is NULL. `vsnprintf args size buf` is the result, as an unsigned number,
-- and the buffer afterwards. Sizes are those of a 32-bit target. The lock is not modelled.
pub mod Levels
pub mod Stringify
pub mod Packed
pub mod Table
pub mod Refine
pub mod Backends
pub mod Write
pub mod Message
pub mod Text
mod Tests
use libmcu.Base.{
  ℕ, zero, suc, ◌+◌, min, bit_xor, Bool, true, false, not, ◌&&◌, Option, none, some, List, [], ◌∷◌,
  get_or, set, length, replicate, ltb, ◌==◌, if◌then◌else◌, u16, errno, Outcome, done, undefined,
  ◌>>=◌,
}

-- LOGGING_MESSAGE_MAXLEN
abbrev pub message_maxlen : ℕ
message_maxlen = 80

-- LOGGING_TYPE_MAX
abbrev pub type_max : ℕ
type_max = 5

-- `struct logging_tag`
pub record Tag : Type 0 where
  pub tag : Option ℕ
  pub min_log_level : ℕ

-- A pointer to an entry of the table, or to the global tag.
pub data TagPtr : Type 0 where
  slot : ℕ → TagPtr
  global : TagPtr

-- `logging_data_t`
pub record Log : Type 0 where
  pub timestamp : ℕ
  pub pc : ℕ
  pub lr : ℕ
  pub magic : ℕ
  pub message_length : ℕ
  pub type : ℕ
  pub tag : Option TagPtr
  pub message : List ℕ

pub record Backend (W : Type 0) : Type 0 where
  pub address : ℕ
  pub write : Option (Log → ℕ → W → ℕ × W)
  pub peek : Option (Option ℕ → ℕ → W → ℕ × W)
  pub read : Option (Option ℕ → ℕ → W → ℕ × W)
  pub consume : Option (ℕ → W → ℕ × W)
  pub count : Option (W → ℕ)

-- The static `m`, and the message parts of the static buffers of the two writing functions.
pub record Logging (W : Type 0) : Type 0 where
  pub tags : List Tag
  pub global_tag : Tag
  pub backends : List (Option (Backend W))
  pub time : Option (W → ℕ)
  pub buf : List ℕ
  pub buf_with_backend : List ℕ

pub record Context : Type 0 where
  pub tag : Option ℕ
  pub pc : ℕ
  pub lr : ℕ

abbrev pub null_tag : Tag
null_tag = record { tag = none; min_log_level = 0 }

-- `==` of pointers.
abbrev pub is_same : Option ℕ → Option ℕ → Bool
is_same none none = true
is_same none (some b) = false
is_same (some a) none = false
is_same (some a) (some b) = a == b

abbrev pub is_null : Option ℕ → Bool
is_null none = true
is_null (some a) = false

abbrev pub next_slot : Option ℕ → Option ℕ
next_slot none = none
next_slot (some i) = some (suc i)

unfoldable pub get_empty_tag_slot : List Tag → Option ℕ
get_empty_tag_slot [] = none
get_empty_tag_slot (p ∷ ps) = if is_null p.tag then some 0 else next_slot (get_empty_tag_slot ps)

unfoldable pub get_tag_from_string : List Tag → Option ℕ → Option ℕ
get_tag_from_string [] tag = none
get_tag_from_string (p ∷ ps) tag =
    if is_same p.tag tag then some 0 else next_slot (get_tag_from_string ps tag)

unfoldable pub is_logging_type_valid : ℕ → Bool
is_logging_type_valid type = if not (ltb type type_max) then false else true

unfoldable pub compute_magic : Log → ℕ
compute_magic entry = u16 (bit_xor (bit_xor entry.pc entry.lr) 0xA5A5)

-- `sizeof(logging_data_t)` is 21.
unfoldable pub get_log_length : Log → ℕ
get_log_length entry = 21 + (if not (entry.message_length == 0) then entry.message_length else 0)

abbrev pub is_global_tag : TagPtr → Bool
is_global_tag (slot i) = false
is_global_tag global = true

module _ {A : Type 0} (vsnprintf : A → ℕ → List ℕ → ℕ × List ℕ) where
  -- `none` is a NULL format.
  unfoldable pub pack_message : Option A → Log → Log
  pack_message none log = record log { message_length = min (u16 0) message_maxlen }
  pack_message (some args) log =
      let (len, bytes) = vsnprintf args 79 log.message in
      record log { message_length = min (u16 len) message_maxlen; message = bytes }

module _ {W : Type 0} where
  -- What a pointer points to.
  abbrev pub tag_at : Logging W → TagPtr → Tag
  tag_at m (slot i) = get_or m.tags i null_tag
  tag_at m global = m.global_tag

  unfoldable pub register_tag : Logging W → Option ℕ → TagPtr × Logging W
  register_tag m tag = elim (get_empty_tag_slot m.tags) [
    | none ↦ (global, m)
    | some i ↦
        (slot i, record m { tags = set m.tags i (record (get_or m.tags i null_tag) { tag = tag }) })
  ]

  unfoldable pub obtain_tag : Logging W → Option ℕ → TagPtr × Logging W
  obtain_tag m tag = elim (get_tag_from_string m.tags tag) [
    | none ↦ register_tag m tag
    | some i ↦ (slot i, m)
  ]

  unfoldable pub is_logging_type_enabled : Logging W → TagPtr → ℕ → Bool
  is_logging_type_enabled m tag type =
      if not (is_global_tag tag) && ltb type (m.global_tag).min_log_level
      then false
      else if ltb type (tag_at m tag).min_log_level
      then false
      else true

  abbrev pub timestamp_of : Option (W → ℕ) → W → ℕ
  timestamp_of none w = 0
  timestamp_of (some f) w = f w

  -- The entry over the message bytes that the buffer held.
  unfoldable pub pack_log : Logging W → ℕ → Context → W → List ℕ → Log
  pack_log m type ctx w buf =
      let entry : Log = record {
        timestamp = timestamp_of m.time w;
        pc = ctx.pc;
        lr = ctx.lr;
        magic = 0xA5A5;
        message_length = 0;
        type = type;
        tag = none;
        message = buf;
      } in
      record entry { magic = compute_magic entry }

  -- The loop over the backends; `result` is the last one's. To call a NULL `write` is undefined.
  unfoldable pub write_all : List (Option (Backend W)) → Log → ℕ → W → Outcome (ℕ × W)
  write_all [] log result w = done (result, w)
  write_all (none ∷ bs) log result w = write_all bs log result w
  write_all (some b ∷ bs) log result w = elim b.write [
    | none ↦ undefined
    | some f ↦ let (result', w') = f log (get_log_length log) w in write_all bs log result' w'
  ]

  -- The first backend, for a NULL argument.
  abbrev pub or_first : Logging W → Option (Backend W) → Option (Backend W)
  or_first m none = get_or m.backends 0 none
  or_first m (some b) = some b

  module _ {A : Type 0} (vsnprintf : A → ℕ → List ℕ → ℕ × List ℕ) where
    unfoldable pub logging_write :
        Logging W → ℕ → Context → Option A → W → Outcome ((ℕ × Logging W) × W)
    logging_write m type ctx args w =
        let (tag, m') = obtain_tag m ctx.tag in
        let log : Log = record (pack_message vsnprintf args (pack_log m' type ctx w m'.buf)) {
          tag = some tag;
        } in
        let sent : Outcome ((ℕ × Logging W) × W) =
          write_all m'.backends log 0 w
          >>= (λ r. done ((r.0, record m' { buf = log.message }), r.1)) in
        if not (is_logging_type_valid type)
        then done ((0, m'), w)
        else if not (is_logging_type_enabled m' tag type)
        then done ((0, m'), w)
        else sent

    -- `backend->write`, where there is a backend.
    abbrev pub write_to : Option (Backend W) → Log → W → Outcome (ℕ × W)
    write_to backend log w = write_all (backend ∷ []) log 0 w

    unfoldable pub logging_write_with_backend :
        Logging W → ℕ → Option (Backend W) → Context → Option A → W → Outcome ((ℕ × Logging W) × W)
    logging_write_with_backend m type backend ctx args w =
        let (tag, m') = obtain_tag m ctx.tag in
        let log : Log = pack_message vsnprintf args (pack_log m' type ctx w m'.buf_with_backend) in
        let sent : Outcome ((ℕ × Logging W) × W) =
          write_to (or_first m backend) log w
          >>= (λ r. done ((r.0, record m' { buf_with_backend = log.message }), r.1)) in
        if not (is_logging_type_valid type)
        then done ((0, m'), w)
        else if not (is_logging_type_enabled m' tag type)
        then done ((0, m'), w)
        else sent
