-- ===== src/Logging/Refine.antt =====
-- The tags as a map of bounded size: what calls of the interface, one after the other, return.
use libmcu.Base.{
  ℕ, zero, suc, ◌+◌, ◌≡◌, inl, inr, refl, sym, ap, ◌∙◌, Bool, true, false, not, ◌&&◌, Option, none,
  some, List, [], ◌∷◌, length, ltb, ◌==◌, if◌then◌else◌, arith, Bool-cases,
}
use libmcu.Logging.{TagPtr, slot, global, Logging, type_max, tag_at, is_global_tag}
use libmcu.Logging.Levels.{
  set_level, logging_init, logging_set_level_tag, logging_get_level_tag, logging_set_level_global,
  logging_get_level_global, logging_count_tags,
}
use libmcu.Logging.Packed.{Used, table, level_in, change_level, count_tags_loop-table}
use libmcu.Logging.Table.{TagMap, register, level_or, IsEntry, holding, obtain_tag-holding}

-- The calls, and what they do to the map.
pub data Call : Type 0 where
  set_tag : ℕ → ℕ → Call
  get_tag : ℕ → Call
  set_global : ℕ → Call
  get_global : Call
  count : Call

abbrev pub set_in_map : TagMap → ℕ → ℕ → TagMap
set_in_map s t level =
    let s' = register s t in
    if ltb level type_max then record s' { levels = change_level s'.levels t level } else s'

abbrev pub map_step : TagMap → Call → ℕ × TagMap
map_step s (set_tag t level) = (0, set_in_map s t level)
map_step s (get_tag t) =
    let s' = register s t in (level_or s'.global_level (level_in s'.levels t), s')
map_step s (set_global level) =
    (0, if ltb level type_max then record s { global_level = level } else s)
map_step s get_global = (s.global_level, s)
map_step s count = (length s.levels, s)

abbrev pub map_run : TagMap → List Call → List ℕ × TagMap
map_run s [] = ([], s)
map_run s (c ∷ cs) = let (r, s') = map_step s c in let rest = map_run s' cs in (r ∷ rest.0, rest.1)

change_level-missing :
    (us : Used) (t level : ℕ) → level_in us t ≡ none → change_level us t level ≡ us
change_level-missing [] t level h = refl
change_level-missing ((u, l) ∷ us) t level h = elim (Bool-cases (u == t)) [
  | inl same ↦ absurd (ground arith)
  | inr other ↦
      ap (λ b. if b then (u, level) ∷ us else (u, l) ∷ change_level us t level) other
      ∙ ap (λ vs. (u, l) ∷ vs)
          (change_level-missing us t level
            (ap (λ b. if b then some l else level_in us t) (sym other) ∙ h))
]

length-table : (us : Used) (free : ℕ) → length (table us free) ≡ length us + free
length-table [] zero = refl
length-table [] (suc free) = omega (arith, length-table [] free)
length-table (u ∷ us) free = omega (arith, length-table us free)

module _ {W : Type 0} where
  abbrev pub logging_step : Logging W → Call → ℕ × Logging W
  logging_step m (set_tag t level) = (0, logging_set_level_tag m (some t) level)
  logging_step m (get_tag t) = logging_get_level_tag m (some t)
  logging_step m (set_global level) = (0, logging_set_level_global m level)
  logging_step m get_global = (logging_get_level_global m, m)
  logging_step m count = (logging_count_tags m, m)

  abbrev pub logging_run : Logging W → List Call → List ℕ × Logging W
  logging_run m [] = ([], m)
  logging_run m (c ∷ cs) =
      let (r, m') = logging_step m c in let rest = logging_run m' cs in (r ∷ rest.0, rest.1)

  module _ (m : Logging W) where
    set_at :
        (s : TagMap) (t level : ℕ) (p : TagPtr) (b : Bool)
        → IsEntry s t p
        → (if b && not (is_global_tag p) then set_level (holding m s) p level else holding m s)
          ≡ holding m (if b then record s { levels = change_level s.levels t level } else s)
    set_at s t level (slot i) true (found, named, put) =
        ap (λ ps. record (holding m s) { tags = ps }) (put level)
    set_at s t level (slot i) false at = refl
    set_at s t level global true at =
        ap (λ us. holding m (record s { levels = us }))
          (sym (change_level-missing s.levels t level at))
    set_at s t level global false at = refl

    pub level_at :
        (s : TagMap) (t : ℕ) (p : TagPtr)
        → IsEntry s t p
        → (tag_at (holding m s) p).min_log_level ≡ level_or s.global_level (level_in s.levels t)
    level_at s t (slot i) (found, named, put) = ap (level_or s.global_level) (sym found)
    level_at s t global at = ap (level_or s.global_level) (sym at)

    step_lem :
        (s : TagMap) (c : Call)
        → logging_step (holding m s) c ≡ ((map_step s c).0, holding m (map_step s c).1)
    unfolding logging_set_level_tag logging_get_level_tag logging_set_level_global
        logging_get_level_global logging_count_tags
    step_lem s (set_tag t level) =
        let (p, e, at) = obtain_tag-holding m s t in
        ap
          (λ r. (
            0,
            if ltb level type_max && not (is_global_tag r.0) then set_level r.1 r.0 level else r.1,
          ))
          e
        ∙ ap (λ m'. (0, m')) (set_at (register s t) t level p (ltb level type_max) at)
    step_lem s (get_tag t) =
        let (p, e, at) = obtain_tag-holding m s t in
        ap (λ r. ((tag_at r.1 r.0).min_log_level, r.1)) e
        ∙ ap (λ l. (l, holding m (register s t))) (level_at (register s t) t p at)
    step_lem s (set_global level) = ap (λ m'. (0, m')) (by_test (ltb level type_max))
      where
        by_test :
            (b : Bool)
            → (if b then set_level (holding m s) global level else holding m s)
              ≡ holding m (if b then record s { global_level = level } else s)
        by_test true = refl
        by_test false = refl
    step_lem s get_global = refl
    step_lem s count =
        ap (λ n. (n, holding m s))
          (count_tags_loop-table s.levels s.free (length (table s.levels s.free)) 0
            (omega (arith, length-table s.levels s.free)) (omega arith))

    pub run_lem :
        (s : TagMap) (cs : List Call)
        → logging_run (holding m s) cs ≡ ((map_run s cs).0, holding m (map_run s cs).1)
    run_lem s [] = refl
    run_lem s (c ∷ cs) =
        ap (λ r. let rest = logging_run r.1 cs in (r.0 ∷ rest.0, rest.1)) (step_lem s c)
        ∙ ap (λ rest. ((map_step s c).0 ∷ rest.0, rest.1)) (run_lem (map_step s c).1 cs)

-- From `logging_init` on, whatever calls set and ask for the levels and count the tags, each
-- returns what it does on a map from tags to levels that has room for as many tags as the table
-- has entries: a tag comes in at its first call, at level 0, where there is room; the levels of a
-- tag and the global one change only to a valid level; the level of a tag that found no room is
-- the global one; the count is that of the map's tags.
pub tags_run_lem :
    {W : Type 0} (m : Logging W) (time : Option (W → ℕ)) (cs : List Call)
    → (logging_run (logging_init m time) cs).0
      ≡ (map_run (record { levels = []; free = length m.tags; global_level = 0 }) cs).0
unfolding logging_init
tags_run_lem m time cs =
    ap (λ r. r.0)
      (run_lem (logging_init m time)
        (record { levels = []; free = length m.tags; global_level = 0 }) cs)
