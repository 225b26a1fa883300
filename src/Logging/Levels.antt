-- ===== src/Logging/Levels.antt =====
-- modules/logging/src/logging.c: the levels, the table of backends and the readers.
use libmcu.Base.{
  ℕ, zero, suc, Bool, true, false, not, ◌&&◌, ◌||◌, Option, none, some, List, [], ◌∷◌, get_or,
  length, replicate, set, ltb, ◌==◌, if◌then◌else◌, errno,
}
use libmcu.Logging.{
  Tag, TagPtr, slot, global, Backend, Logging, null_tag, type_max, tag_at, obtain_tag,
  is_global_tag, is_null, or_first,
}

-- The loop of `rounds` rounds; it looks at the entry of the count.
unfoldable pub count_tags_loop : ℕ → List Tag → ℕ → ℕ
count_tags_loop zero tags cnt = cnt
count_tags_loop (suc rounds) tags cnt =
    count_tags_loop rounds tags
      (if not (is_null (get_or tags cnt null_tag).tag) then suc cnt else cnt)

-- The callback acts on `S`.
unfoldable pub iterate_tags : {S : Type 0} → List Tag → (Option ℕ → ℕ → S → S) → S → S
iterate_tags [] callback_each s = s
iterate_tags (p ∷ ps) callback_each s =
    if is_null p.tag
    then iterate_tags ps callback_each s
    else iterate_tags ps callback_each (callback_each p.tag p.min_log_level s)

module _ {W : Type 0} where
  unfoldable pub logging_init : Logging W → Option (W → ℕ) → Logging W
  logging_init m time_func = record m {
    tags = replicate (length m.tags) null_tag;
    global_tag = null_tag;
    backends = replicate (length m.backends) none;
    time = time_func;
  }

  -- A store through a pointer.
  abbrev pub set_level : Logging W → TagPtr → ℕ → Logging W
  set_level m (slot i) level = record m {
    tags = set m.tags i (record (get_or m.tags i null_tag) { min_log_level = level });
  }
  set_level m global level = record m { global_tag = record m.global_tag { min_log_level = level } }

  unfoldable pub logging_set_level_tag : Logging W → Option ℕ → ℕ → Logging W
  logging_set_level_tag m tag min_log_level =
      let (p, m') = obtain_tag m tag in
      if ltb min_log_level type_max && not (is_global_tag p)
      then set_level m' p min_log_level
      else m'

  unfoldable pub logging_get_level_tag : Logging W → Option ℕ → ℕ × Logging W
  logging_get_level_tag m tag = let (p, m') = obtain_tag m tag in ((tag_at m' p).min_log_level, m')

  unfoldable pub logging_set_level_global : Logging W → ℕ → Logging W
  logging_set_level_global m min_log_level =
      if ltb min_log_level type_max then set_level m global min_log_level else m

  unfoldable pub logging_get_level_global : Logging W → ℕ
  logging_get_level_global m = (m.global_tag).min_log_level

  unfoldable pub logging_count_tags : Logging W → ℕ
  logging_count_tags m = count_tags_loop (length m.tags) m.tags 0

  unfoldable pub logging_iterate_tag : {S : Type 0} → Logging W → (Option ℕ → ℕ → S → S) → S → S
  logging_iterate_tag m callback_each s = iterate_tags m.tags callback_each s

  -- The first free place of the table taken; `none` where there is none.
  unfoldable pub add_first :
      List (Option (Backend W)) → Backend W → Option (List (Option (Backend W)))
  add_first [] b = none
  add_first (none ∷ bs) b = some (some b ∷ bs)
  add_first (some x ∷ bs) b = elim (add_first bs b) [ none ↦ none | some bs' ↦ some (some x ∷ bs') ]

  unfoldable pub logging_add_backend : Logging W → Option (Backend W) → ℕ × Logging W
  logging_add_backend m none = (errno 22, m)
  logging_add_backend m (some b) = elim b.write [
    | none ↦ (errno 22, m)
    | some f ↦ elim (add_first m.backends b) [
      | none ↦ (errno 28, m)
      | some bs ↦ (0, record m { backends = bs })
    ]
  ]

  -- `==` of pointers to backends.
  abbrev pub is_backend : Option (Backend W) → Option (Backend W) → Bool
  is_backend none none = true
  is_backend none (some b) = false
  is_backend (some a) none = false
  is_backend (some a) (some b) = a.address == b.address

  unfoldable pub remove_first :
      List (Option (Backend W)) → Option (Backend W) → Option (List (Option (Backend W)))
  remove_first [] b = none
  remove_first (x ∷ bs) b =
      let rest = remove_first bs b in
      if is_backend x b
      then some (none ∷ bs)
      else elim rest [ none ↦ none | some bs' ↦ some (x ∷ bs') ]

  unfoldable pub logging_remove_backend : Logging W → Option (Backend W) → ℕ × Logging W
  logging_remove_backend m b = elim (remove_first m.backends b) [
    | none ↦ (errno 2, m)
    | some bs ↦ (0, record m { backends = bs })
  ]

  -- A call through a pointer that may be NULL, which gives 0 there.
  abbrev pub call_or_0 {ℓ} : {F : Type ℓ} → Option F → (F → ℕ × W) → W → ℕ × W
  call_or_0 none call w = (0, w)
  call_or_0 (some f) call w = call f

  -- sizeof(logging_data_t) is 21.
  unfoldable pub peek_internal : Option (Backend W) → Option ℕ → ℕ → W → ℕ × W
  peek_internal none buf bufsize w = (0, w)
  peek_internal (some b) buf bufsize w =
      if is_null buf || ltb bufsize 21 then (0, w) else call_or_0 b.peek (λ f. f buf bufsize w) w

  unfoldable pub consume_internal : Option (Backend W) → ℕ → W → ℕ × W
  consume_internal none consume_size w = (0, w)
  consume_internal (some b) consume_size w =
      if consume_size == 0 then (0, w) else call_or_0 b.consume (λ f. f consume_size w) w

  unfoldable pub logging_peek : Logging W → Option (Backend W) → Option ℕ → ℕ → W → ℕ × W
  logging_peek m backend buf bufsize w = peek_internal (or_first m backend) buf bufsize w

  unfoldable pub logging_consume : Logging W → Option (Backend W) → ℕ → W → ℕ × W
  logging_consume m backend consume_size w = consume_internal (or_first m backend) consume_size w

  abbrev pub read_from : Option (Backend W) → Option ℕ → ℕ → W → ℕ × W
  read_from none buf bufsize w = (0, w)
  read_from (some b) buf bufsize w = call_or_0 b.read (λ f. f buf bufsize w) w

  unfoldable pub logging_read : Logging W → Option (Backend W) → Option ℕ → ℕ → W → ℕ × W
  logging_read m backend buf bufsize w = read_from (or_first m backend) buf bufsize w

  abbrev pub count_of : Option (Backend W) → W → ℕ
  count_of none w = 0
  count_of (some b) w = (call_or_0 b.count (λ f. (f w, w)) w).0

  unfoldable pub logging_count : Logging W → Option (Backend W) → W → ℕ
  logging_count m backend w = count_of (or_first m backend) w
