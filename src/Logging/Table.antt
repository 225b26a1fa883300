-- ===== src/Logging/Table.antt =====
-- What the operations of the tags do to a packed table.
use libmcu.Base.{
  ℕ, zero, suc, ◌≡◌, refl, sym, ap, subst, ◌∙◌, Bool, true, false, Option, none, some, [], ◌∷◌,
  ◌++◌, length, get_or, set, ◌==◌, if◌then◌else◌, arith, ==_iff,
}
use libmcu.Logging.{TagPtr, slot, global, Logging, null_tag, next_slot, register_tag, obtain_tag}
use libmcu.Logging.Packed.{
  Used, table, place, level_in, get_tag_from_string-table, get_empty_tag_slot-table,
  get_empty_tag_slot-full, get_or-free, set-free, AtPlace, place-AtPlace,
}

-- A map from tags to levels with room for `free` further tags, and the global level.
pub record TagMap : Type 0 where
  pub levels : Used
  pub free : ℕ
  pub global_level : ℕ

abbrev pub add_tag : Used → ℕ → ℕ → ℕ → TagMap
add_tag us zero g t = record { levels = us; free = 0; global_level = g }
add_tag us (suc free) g t = record { levels = us ++ ((t, 0) ∷ []); free = free; global_level = g }

-- The map with the tag, where it has it or has room.
abbrev pub register : TagMap → ℕ → TagMap
register s t = elim (level_in s.levels t) [
  | none ↦ add_tag s.levels s.free s.global_level t
  | some level ↦ s
]

abbrev pub level_or : ℕ → Option ℕ → ℕ
level_or d none = d
level_or d (some level) = level

next-none :
    (b : Bool) (o : Option ℕ)
    → (if b then some 0 else next_slot o) ≡ none
    → (b ≡ false) × (o ≡ none)
next-none true o h = absurd (ground arith)
next-none false none h = (refl, refl)
next-none false (some i) h = absurd (ground arith)

place-snoc :
    (us : Used) (t level : ℕ)
    → place us t ≡ none
    → place (us ++ ((t, level) ∷ [])) t ≡ some (length us)
place-snoc [] t level h = ap (λ b. if b then some 0 else none) ((==_iff t t).1 refl)
place-snoc ((u, l) ∷ us) t level h =
    let (other, later) = next-none (u == t) (place us t) h in
    ap (λ b. if b then some 0 else next_slot (place (us ++ ((t, level) ∷ [])) t)) other
    ∙ ap next_slot (place-snoc us t level later)

-- A pointer to the entry of the tag, or to the global one where the map has no entry.
abbrev pub IsEntry : TagMap → ℕ → TagPtr → Type 0
IsEntry s t (slot i) = AtPlace s.levels s.free t (some i)
IsEntry s t global = level_in s.levels t ≡ none

module _ {W : Type 0} (m : Logging W) where
  -- A state that holds the map.
  abbrev pub holding : TagMap → Logging W
  holding s = record m {
    tags = table s.levels s.free;
    global_tag = record { tag = (m.global_tag).tag; min_log_level = s.global_level };
  }

  -- The pointer is to the tag's entry, and the state holds the map with the tag.
  abbrev pub Obtained : TagMap → TagMap → ℕ → Type 0
  Obtained s s' t =
      (p : TagPtr) × (obtain_tag (holding s) (some t) ≡ (p, holding s')) × IsEntry s' t p

  obtain_new :
      (us : Used) (free g t : ℕ)
      → place us t ≡ none
      → level_in us t ≡ none
      → Obtained (record { levels = us; free = free; global_level = g }) (add_tag us free g t) t
  unfolding obtain_tag register_tag
  obtain_new us zero g t missing h =
      let s : TagMap = record { levels = us; free = 0; global_level = g } in
      (
        global,
        ap (λ o. elim o [ none ↦ register_tag (holding s) (some t) | some i ↦ (slot i, holding s) ])
              (get_tag_from_string-table us 0 t ∙ missing)
            ∙ ap
                (λ o. elim o [
                  | none ↦ (global, holding s)
                  | some i ↦ (
                    slot i,
                    record (holding s) {
                      tags =
                          set (table us 0) i
                            (record (get_or (table us 0) i null_tag) { tag = some t });
                    },
                  )
                ])
                (get_empty_tag_slot-full us),
        h,
      )
  obtain_new us (suc free) g t missing h =
      let s : TagMap = record { levels = us; free = suc free; global_level = g } in
      let us' : Used = us ++ ((t, 0) ∷ []) in
      (
        slot (length us),
        ap (λ o. elim o [ none ↦ register_tag (holding s) (some t) | some i ↦ (slot i, holding s) ])
              (get_tag_from_string-table us (suc free) t ∙ missing)
            ∙ ap
                (λ o. elim o [
                  | none ↦ (global, holding s)
                  | some i ↦ (
                    slot i,
                    record (holding s) {
                      tags =
                          set (table us (suc free)) i
                            (record (get_or (table us (suc free)) i null_tag) { tag = some t });
                    },
                  )
                ])
                (get_empty_tag_slot-table us free)
            ∙ ap (λ ps. (slot (length us), record (holding s) { tags = ps }))
                (ap (λ p. set (table us (suc free)) (length us) (record p { tag = some t }))
                    (get_or-free us (suc free))
                  ∙ set-free us free t 0),
        subst (AtPlace us' free t) (place-snoc us t 0 missing) (place-AtPlace us' free t),
      )

  obtain_at :
      (s : TagMap) (t : ℕ) (o : Option ℕ)
      → place s.levels t ≡ o
      → AtPlace s.levels s.free t o
      → Obtained s (register s t) t
  unfolding obtain_tag
  obtain_at s t none e h =
      subst (λ s'. Obtained s s' t)
        (ap (λ o. elim o [ none ↦ add_tag s.levels s.free s.global_level t | some level ↦ s ])
          (sym h))
        (obtain_new s.levels s.free s.global_level t e h)
  obtain_at s t (some i) e (found, named, put) =
      subst (λ s'. Obtained s s' t)
        (ap (λ o. elim o [ none ↦ add_tag s.levels s.free s.global_level t | some level ↦ s ])
          (sym found))
        (
          slot i,
          ap
              (λ o. elim o [
                | none ↦ register_tag (holding s) (some t)
                | some j ↦ (slot j, holding s)
              ])
              (get_tag_from_string-table s.levels s.free t ∙ e),
          (found, named, put),
        )

  pub obtain_tag-holding : (s : TagMap) (t : ℕ) → Obtained s (register s t) t
  obtain_tag-holding s t = obtain_at s t (place s.levels t) refl (place-AtPlace s.levels s.free t)
