-- ===== src/Pubsub.antt =====
-- modules/pubsub/src/pubsub.c: topic filters, and the pool of the subscriptions.
-- A C string is the list of its bytes before the NUL. A subscription is known by its address; what
-- it points to is in a heap, since subscribing a static one again overwrites it. A failed `assert`
-- is `undefined`.
pub mod Topic
pub mod Pool
pub mod Slots
pub mod Capacity
pub mod Subscribe
mod Tests
use libmcu.Base.{
  ℕ, zero, suc, Bool, true, false, not, Option, none, some, List, [], ◌∷◌, length, ◌==◌,
  if◌then◌else◌,
}

-- '/', '#' and '+'
abbrev pub slash : ℕ
slash = 47

abbrev pub hash_mark : ℕ
hash_mark = 35

abbrev pub plus_mark : ℕ
plus_mark = 43

unfoldable pub get_next_topic_word : List ℕ → List ℕ
get_next_topic_word [] = []
get_next_topic_word (c ∷ s) = let rest = get_next_topic_word s in if c == slash then c ∷ s else rest

-- The loop, and the two tests behind it; `none` is out of fuel.
unfoldable pub match_loop : ℕ → List ℕ → List ℕ → Option Bool
match_loop zero filter topic = none
match_loop (suc n) [] [] = some true
match_loop (suc n) [] (d ∷ topic) = some false
match_loop (suc n) (c ∷ filter) [] = some false
match_loop (suc n) (c ∷ filter) (d ∷ topic) =
    let skipped =
      match_loop n (get_next_topic_word (c ∷ filter)) (get_next_topic_word (d ∷ topic)) in
    let next = match_loop n filter topic in
    if c == hash_mark
    then some true
    else if c == plus_mark
    then skipped
    else if not (c == d)
    then some false
    else next

-- Each round takes a byte of the filter at least.
unfoldable pub is_topic_matched_with : List ℕ → List ℕ → Option Bool
is_topic_matched_with filter topic = match_loop (suc (length filter)) filter topic
