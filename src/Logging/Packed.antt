-- ===== src/Logging/Packed.antt =====
-- The table of tags as a list of the registered ones, in the order of their registration, followed
-- by free entries.
use libmcu.Base.{
  ==_iff, ℕ, zero, suc, ◌+◌, ◌≤◌, ◌≡◌, inl, inr, leb, refl, sym, ap, ◌∙◌, Bool, true, false, not,
  Option, none, some, List, [], ◌∷◌, ◌++◌, length, get_or, set, replicate, ◌==◌, if◌then◌else◌,
  arith, Bool-cases,
}
use libmcu.Logging.{Tag, is_null, null_tag, next_slot, get_empty_tag_slot, get_tag_from_string}
use libmcu.Logging.Levels.{count_tags_loop}

-- Tags with their levels.
abbrev pub Used : Type 0
Used = List (ℕ × ℕ)

abbrev pub table : Used → ℕ → List Tag
table [] free = replicate free null_tag
table ((t, level) ∷ us) free = (record { tag = some t; min_log_level = level }) ∷ table us free

-- The place of a tag, its level, and the list with another level for it.
abbrev pub place : Used → ℕ → Option ℕ
place [] t = none
place ((u, level) ∷ us) t = if u == t then some 0 else next_slot (place us t)

abbrev pub level_in : Used → ℕ → Option ℕ
level_in [] t = none
level_in ((u, level) ∷ us) t = if u == t then some level else level_in us t

abbrev pub change_level : Used → ℕ → ℕ → Used
change_level [] t level = []
change_level ((u, old) ∷ us) t level =
    if u == t then (u, level) ∷ us else (u, old) ∷ change_level us t level

pub get_tag_from_string-table :
    (us : Used) (free t : ℕ) → get_tag_from_string (table us free) (some t) ≡ place us t
unfolding get_tag_from_string
get_tag_from_string-table [] zero t = refl
get_tag_from_string-table [] (suc free) t = ap next_slot (get_tag_from_string-table [] free t)
get_tag_from_string-table ((u, level) ∷ us) free t =
    ap (λ o. if u == t then some 0 else next_slot o) (get_tag_from_string-table us free t)

pub get_empty_tag_slot-table :
    (us : Used) (free : ℕ) → get_empty_tag_slot (table us (suc free)) ≡ some (length us)
unfolding get_empty_tag_slot
get_empty_tag_slot-table [] free = refl
get_empty_tag_slot-table (u ∷ us) free = ap next_slot (get_empty_tag_slot-table us free)

pub get_empty_tag_slot-full : (us : Used) → get_empty_tag_slot (table us 0) ≡ none
unfolding get_empty_tag_slot
get_empty_tag_slot-full [] = refl
get_empty_tag_slot-full (u ∷ us) = ap next_slot (get_empty_tag_slot-full us)

pub get_or-free : (us : Used) (free : ℕ) → get_or (table us free) (length us) null_tag ≡ null_tag
get_or-free [] zero = refl
get_or-free [] (suc free) = refl
get_or-free (u ∷ us) free = get_or-free us free

pub set-free :
    (us : Used) (free t level : ℕ)
    → set (table us (suc free)) (length us) (record { tag = some t; min_log_level = level })
      ≡ table (us ++ ((t, level) ∷ [])) free
set-free [] free t level = refl
set-free ((u, old) ∷ us) free t level =
    ap (λ ps. (record { tag = some u; min_log_level = old }) ∷ ps) (set-free us free t level)

-- What the place of a tag says.
abbrev pub AtPlace : Used → ℕ → ℕ → Option ℕ → Type 0
AtPlace us free t none = level_in us t ≡ none
AtPlace us free t (some i) =
    (level_in us t ≡ some (get_or (table us free) i null_tag).min_log_level)
    × ((get_or (table us free) i null_tag).tag ≡ some t)
    × ((level : ℕ)
        → set (table us free) i
            (record (get_or (table us free) i null_tag) { min_log_level = level })
          ≡ table (change_level us t level) free)

pub place-AtPlace : (us : Used) (free t : ℕ) → AtPlace us free t (place us t)
place-AtPlace [] free t = refl
place-AtPlace ((u, old) ∷ us) free t = first (u == t) (place-AtPlace us free t) refl
  where
    further :
        (u == t) ≡ false
        → (o : Option ℕ) → AtPlace us free t o
        → AtPlace ((u, old) ∷ us) free t (next_slot o)
    further e none h = ap (λ b. if b then some old else level_in us t) e ∙ h
    further e (some i) (found, named, put) = (
      ap (λ b. if b then some old else level_in us t) e ∙ found,
      named,
      λ level.
          ap (λ ps. (record { tag = some u; min_log_level = old }) ∷ ps) (put level)
          ∙ ap (λ b. table (if b then (u, level) ∷ us else (u, old) ∷ change_level us t level) free)
              (sym e),
    )

    first :
        (b : Bool)
        → AtPlace us free t (place us t)
        → (u == t) ≡ b
        → AtPlace ((u, old) ∷ us) free t (if b then some 0 else next_slot (place us t))
    first true h e = (
      ap (λ b. if b then some old else level_in us t) e,
      ap some ((==_iff u t).0 e),
      λ level.
          ap (λ b. table (if b then (u, level) ∷ us else (u, old) ∷ change_level us t level) free)
            (sym e),
    )
    first false h e = further e (place us t) h

is_null-free : (free i : ℕ) → is_null (get_or (replicate free null_tag) i null_tag).tag ≡ true
is_null-free zero i = refl
is_null-free (suc free) zero = refl
is_null-free (suc free) (suc i) = is_null-free free i

is_null-table :
    (us : Used) (free i : ℕ) → is_null (get_or (table us free) i null_tag).tag ≡ leb (length us) i
is_null-table [] free i = is_null-free free i ∙ ground arith
is_null-table (u ∷ us) free zero = ground arith
is_null-table (u ∷ us) free (suc i) = is_null-table us free i ∙ ground arith

pub count_tags_loop-table :
    (us : Used) (free rounds cnt : ℕ)
    → length us ≤ rounds + cnt
    → cnt ≤ length us
    → count_tags_loop rounds (table us free) cnt ≡ length us
unfolding count_tags_loop
count_tags_loop-table us free zero cnt enough before = omega arith
count_tags_loop-table us free (suc rounds) cnt enough before =
    elim (Bool-cases (leb (length us) cnt)) [
      | inl all ↦
          ap (λ b. count_tags_loop rounds (table us free) (if not b then suc cnt else cnt))
            (is_null-table us free cnt ∙ all)
          ∙ count_tags_loop-table us free rounds cnt (ground arith) before
      | inr more ↦
          ap (λ b. count_tags_loop rounds (table us free) (if not b then suc cnt else cnt))
            (is_null-table us free cnt ∙ more)
          ∙ count_tags_loop-table us free rounds (suc cnt) (omega arith) (ground arith)
    ]
