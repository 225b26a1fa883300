-- ===== src/Pubsub/Topic.antt =====
-- Topic filters by their levels.
use libmcu.Base.{
  ℕ, zero, suc, ◌≤◌, ◌<◌, ◌≡◌, ◌≢◌, refl, sym, ◌∙◌, Bool, true, false, ◌&&◌, some, List, [], ◌∷◌,
  ◌++◌, map, length, ◌==◌, ==_ne, if◌then◌else◌, Bool-cases, inl, inr, arith,
}
use libmcu.Pubsub.{
  slash, hash_mark, plus_mark, get_next_topic_word, match_loop, is_topic_matched_with,
}

-- A level of a filter: a text, `+` for any one level, `#` for one level and all behind it.
pub data Level : Type 0 where
  exact : List ℕ → Level
  any rest : Level

abbrev pub level_text : Level → List ℕ
level_text (exact w) = w
level_text any = plus_mark ∷ []
level_text rest = hash_mark ∷ []

abbrev pub slashed : List (List ℕ) → List ℕ
slashed [] = []
slashed (w ∷ ws) = slash ∷ (w ++ slashed ws)

-- The levels with a slash between each two.
abbrev pub join : List (List ℕ) → List ℕ
join [] = []
join (w ∷ ws) = w ++ slashed ws

abbrev pub filter_text : List Level → List ℕ
filter_text fs = join (map level_text fs)

abbrev pub eq_word : List ℕ → List ℕ → Bool
eq_word [] [] = true
eq_word [] (d ∷ t) = false
eq_word (c ∷ w) [] = false
eq_word (c ∷ w) (d ∷ t) = c == d && eq_word w t

-- What a filter means.
abbrev pub levels_match : List Level → List (List ℕ) → Bool
levels_match [] [] = true
levels_match [] (t ∷ ts) = false
levels_match (f ∷ fs) [] = false
levels_match (exact w ∷ fs) (t ∷ ts) = eq_word w t && levels_match fs ts
levels_match (any ∷ fs) (t ∷ ts) = levels_match fs ts
levels_match (rest ∷ fs) (t ∷ ts) = true

-- A text without a slash, and one without a mark either.
abbrev pub IsFlat : List ℕ → Type 0
IsFlat [] = Unit {0}
IsFlat (c ∷ w) = (c ≢ slash) × IsFlat w

abbrev pub IsPlain : List ℕ → Type 0
IsPlain [] = Unit {0}
IsPlain (c ∷ w) = (c ≢ slash) × (c ≢ hash_mark) × (c ≢ plus_mark) × IsPlain w

abbrev pub IsTopic : List (List ℕ) → Type 0
IsTopic [] = Unit {0}
IsTopic (t ∷ ts) = (0 < length t) × IsFlat t × IsTopic ts

abbrev pub IsFilter : List Level → Type 0
IsFilter [] = Unit {0}
IsFilter (exact w ∷ fs) = (0 < length w) × IsPlain w × IsFilter fs
IsFilter (any ∷ fs) = IsFilter fs
IsFilter (rest ∷ fs) = IsFilter fs

next_word :
    (t : List ℕ) (ts : List (List ℕ))
    → IsFlat t
    → get_next_topic_word (t ++ slashed ts) ≡ slashed ts
unfolding get_next_topic_word
next_word [] [] h = refl
next_word [] (u ∷ ts) h = refl
next_word (c ∷ t) ts h = rw (==_ne c slash h.0) (next_word t ts h.1)

-- A byte of the filter that is no mark is compared.
byte_step :
    (n c d : ℕ) (f t : List ℕ)
    → c ≢ hash_mark
    → c ≢ plus_mark
    → match_loop (suc n) (c ∷ f) (d ∷ t) ≡ (if c == d then match_loop n f t else some false)
unfolding match_loop
byte_step n c d f t h p = ground (arith, ==_ne c hash_mark h, ==_ne c plus_mark p)

-- The texts of two levels are compared to their ends.
word_lem :
    (n : ℕ) (w t : List ℕ) (fs ts : List (List ℕ)) (b : Bool)
    → IsPlain w
    → IsFlat t
    → ((k : ℕ) → length (slashed fs) < k → match_loop k (slashed fs) (slashed ts) ≡ some b)
    → length (w ++ slashed fs) < n
    → match_loop n (w ++ slashed fs) (t ++ slashed ts) ≡ some (eq_word w t && b)
unfolding match_loop
word_lem zero w t fs ts b hw ht tails fuel = absurd (omega arith)
word_lem (suc n) [] [] fs ts b hw ht tails fuel = tails (suc n) fuel
word_lem (suc n) [] (d ∷ t) [] ts b hw ht tails fuel = refl
word_lem (suc n) [] (d ∷ t) (f ∷ fs) ts b hw ht tails fuel =
    byte_step n slash d (f ++ slashed fs) (t ++ slashed ts) (omega arith) (omega arith)
    ∙ rw (==_ne slash d (λ e. ht.0 (sym e))) refl
word_lem (suc n) (c ∷ w) [] fs [] b hw ht tails fuel = refl
word_lem (suc n) (c ∷ w) [] fs (u ∷ ts) b hw ht tails fuel =
    byte_step n c slash (w ++ slashed fs) (u ++ slashed ts) hw.1 hw.2 ∙ rw (==_ne c slash hw.0) refl
word_lem (suc n) (c ∷ w) (d ∷ t) fs ts b hw ht tails fuel =
    byte_step n c d (w ++ slashed fs) (t ++ slashed ts) hw.1 hw.2 ∙ elim (Bool-cases (c == d)) [
      | inl same ↦ rw same (word_lem n w t fs ts b hw.3 ht.1 tails (omega arith))
      | inr other ↦ rw other refl
    ]

-- The rest of a filter is asked for the levels behind a slash.
tails_lem :
    (n : ℕ) (fs : List Level) (ts : List (List ℕ))
    → ((k : ℕ) (us : List (List ℕ))
        → IsTopic us
        → length (filter_text fs) < k
        → match_loop k (filter_text fs) (join us) ≡ some (levels_match fs us))
    → IsTopic ts
    → length (slashed (map level_text fs)) < n
    → match_loop n (slashed (map level_text fs)) (slashed ts) ≡ some (levels_match fs ts)
unfolding match_loop
tails_lem zero fs ts ih ht fuel = absurd (omega arith)
tails_lem (suc n) [] [] ih ht fuel = refl
tails_lem (suc n) [] (t ∷ ts) ih ht fuel = refl
tails_lem (suc n) (f ∷ fs) [] ih ht fuel = refl
tails_lem (suc n) (f ∷ fs) (t ∷ ts) ih ht fuel =
    byte_step n slash slash (filter_text (f ∷ fs)) (join (t ∷ ts)) (omega arith) (omega arith)
    ∙ ih n (t ∷ ts) ht (omega arith)

match_loop_lem :
    (fs : List Level) (ts : List (List ℕ)) (n : ℕ)
    → IsFilter fs
    → IsTopic ts
    → length (filter_text fs) < n
    → match_loop n (filter_text fs) (join ts) ≡ some (levels_match fs ts)
unfolding match_loop
match_loop_lem fs ts zero hf ht fuel = absurd (omega arith)
match_loop_lem [] [] (suc n) hf ht fuel = refl
match_loop_lem [] ([] ∷ ts) (suc n) hf ht fuel = absurd (omega arith)
match_loop_lem [] ((d ∷ t) ∷ ts) (suc n) hf ht fuel = refl
match_loop_lem (f ∷ fs) ([] ∷ ts) (suc n) hf ht fuel = absurd (omega arith)
match_loop_lem (exact [] ∷ fs) ts (suc n) hf ht fuel = absurd (omega arith)
match_loop_lem (exact (c ∷ w) ∷ fs) [] (suc n) hf ht fuel = refl
match_loop_lem (any ∷ fs) [] (suc n) hf ht fuel = refl
match_loop_lem (rest ∷ fs) [] (suc n) hf ht fuel = refl
match_loop_lem (exact (c ∷ w) ∷ fs) ((d ∷ t) ∷ ts) (suc n) hf ht fuel =
    word_lem (suc n) (c ∷ w) (d ∷ t) (map level_text fs) ts (levels_match fs ts) hf.1 ht.1
      (λ k enough. tails_lem k fs ts (λ j us hu m. match_loop_lem fs us j hf.2 hu m) ht.2 enough)
      fuel
match_loop_lem (any ∷ fs) ((d ∷ t) ∷ ts) (suc n) hf ht fuel =
    rw (next_word (plus_mark ∷ []) (map level_text fs) (omega arith, tt), next_word (d ∷ t) ts ht.1)
      (tails_lem n fs ts (λ j us hu m. match_loop_lem fs us j hf hu m) ht.2 (omega arith))
match_loop_lem (rest ∷ fs) ((d ∷ t) ∷ ts) (suc n) hf ht fuel = refl

-- For a filter of levels that are plain texts, `+` or `#`, and a topic of levels that are not empty,
-- `is_topic_matched_with` ends, and answers by the levels: a text stands for itself, `+` for any one
-- level, and `#` for one or more levels to the end of the topic.
pub is_topic_matched_with_lem :
    (fs : List Level) (ts : List (List ℕ))
    → IsFilter fs
    → IsTopic ts
    → is_topic_matched_with (filter_text fs) (join ts) ≡ some (levels_match fs ts)
unfolding is_topic_matched_with
is_topic_matched_with_lem fs ts hf ht =
    match_loop_lem fs ts (suc (length (filter_text fs))) hf ht (omega arith)

length-next_word : (s : List ℕ) → length (get_next_topic_word s) ≤ length s
unfolding get_next_topic_word
length-next_word [] = omega arith
length-next_word (c ∷ s) = ground (arith, length-next_word s)

plus_shorter :
    (c : ℕ) (s : List ℕ) → (c == plus_mark) ≡ true → length (get_next_topic_word (c ∷ s)) ≤ length s
unfolding get_next_topic_word
plus_shorter c s plus = ground (arith, length-next_word s)

match_loop_ends :
    (n : ℕ) (filter topic : List ℕ)
    → length filter < n
    → (b : Bool) × (match_loop n filter topic ≡ some b)
unfolding match_loop
match_loop_ends zero filter topic h = absurd (omega arith)
match_loop_ends (suc n) [] [] h = (true, refl)
match_loop_ends (suc n) [] (d ∷ topic) h = (false, refl)
match_loop_ends (suc n) (c ∷ filter) [] h = (false, refl)
match_loop_ends (suc n) (c ∷ filter) (d ∷ topic) h = elim (Bool-cases (c == hash_mark)) [
  | inl hash ↦ rw hash (true, refl)
  | inr no_hash ↦ elim (Bool-cases (c == plus_mark)) [
    | inl plus ↦
        rw (no_hash, plus)
          (match_loop_ends n (get_next_topic_word (c ∷ filter)) (get_next_topic_word (d ∷ topic))
            (omega (arith, plus_shorter c filter plus)))
    | inr plain ↦ elim (Bool-cases (c == d)) [
      | inl same ↦ rw (no_hash, plain, same) (match_loop_ends n filter topic (omega arith))
      | inr other ↦ rw (no_hash, plain, other) (false, refl)
    ]
  ]
]

-- `is_topic_matched_with` ends for every filter and topic.
pub is_topic_matched_with_ends :
    (filter topic : List ℕ) → (b : Bool) × (is_topic_matched_with filter topic ≡ some b)
unfolding is_topic_matched_with
is_topic_matched_with_ends filter topic =
    match_loop_ends (suc (length filter)) filter topic (omega arith)
