-- ===== src/Pm/Table.antt =====
-- A packed table: what registering and unregistering do to it, for every table and entry.
use libmcu.Base.{
  ℕ, zero, suc, ◌≤◌, ◌<◌, ◌≡◌, refl, ◌≢◌, Bool, true, false, ◌&&◌, ◌||◌, List, [], ◌∷◌, ◌++◌,
  replicate, length, length-append, ltb, ◌==◌, if◌then◌else◌, Bool-cases, inl, inr, ==_ne, lt→ltb,
  le→ltb, done, undefined, ◌>>=◌, arith,
}
use native.Mathlib.Decide.{dec_lt}
use libmcu.Pm.{
  Item, empty_slot, same_entry, move_right_loop, move_right, move_left, register_entry,
  unregister_entry, keep_slot, fill_slot, eexist, enoent,
}

-- The entries in use, each with a callback, the higher priorities first.
abbrev pub IsBelow : ℕ → List Item → Type 0
IsBelow b [] = Unit {0}
IsBelow b (e ∷ es) = (e.priority ≤ b) × IsBelow b es

abbrev pub IsTable : List Item → Type 0
IsTable [] = Unit {0}
IsTable (e ∷ es) = (e.func ≢ 0) × IsBelow e.priority es × IsTable es

-- The slots that hold these entries, with `k` empty ones behind them.
abbrev pub slots_of : List Item → ℕ → List Item
slots_of es k = es ++ replicate k empty_slot

-- Behind the entries of at least its priority.
abbrev pub insert_entry : List Item → Item → List Item
insert_entry [] x = x ∷ []
insert_entry (e ∷ es) x = if ltb e.priority x.priority then x ∷ e ∷ es else e ∷ insert_entry es x

abbrev pub registered : List Item → Item → Bool
registered [] x = false
registered (e ∷ es) x = same_entry e x || registered es x

abbrev pub remove_entry : List Item → Item → List Item
remove_entry [] x = []
remove_entry (e ∷ es) x = if same_entry e x then es else e ∷ remove_entry es x

-- No entry has a lower priority, so that `x` goes to the end.
abbrev pub goes_last : List Item → Item → Bool
goes_last [] x = true
goes_last (e ∷ es) x = if ltb e.priority x.priority then false else goes_last es x

move_right_lem :
    (next : Item) (es : List Item) (k n : ℕ)
    → IsTable es
    → length es < n
    → move_right_loop next (slots_of es (suc k)) n ≡ done (next ∷ slots_of es k)
unfolding move_right_loop
move_right_lem next es k zero t h = absurd (omega arith)
move_right_lem next [] k (suc n) t h = refl
move_right_lem next (e ∷ es) k (suc n) t h =
    rw (==_ne e.func 0 t.0, move_right_lem e es k n t.2 (omega arith))

move_left_lem :
    (p : Item) (es : List Item) (k n : ℕ)
    → IsTable es
    → length es < n
    → move_left (p ∷ slots_of es (suc k)) n ≡ done (slots_of es (suc (suc k)))
unfolding move_left
move_left_lem p es k zero t h = absurd (omega arith)
move_left_lem p [] k (suc n) t h = refl
move_left_lem p (e ∷ es) k (suc n) t h =
    rw (==_ne e.func 0 t.0, move_left_lem e es k n t.2 (omega arith))

move_left_full :
    (p : Item) (es : List Item) (n : ℕ)
    → IsTable es
    → length es < n
    → move_left (p ∷ es) n ≡ undefined
unfolding move_left
move_left_full p es zero t h = absurd (omega arith)
move_left_full p [] (suc n) t h = refl
move_left_full p (e ∷ es) (suc n) t h =
    rw (==_ne e.func 0 t.0, move_left_full e es n t.2 (omega arith))

not_registered :
    (es : List Item) (x : Item) (b : ℕ) → b < x.priority → IsBelow b es → registered es x ≡ false
not_registered [] x b h s = refl
not_registered (e ∷ es) x b h s = ground (arith, not_registered es x b h)

-- A place in the middle: the entries from there on move one slot to the right.
place_lem :
    (e : Item) (es : List Item) (k : ℕ) (x : Item)
    → IsTable (e ∷ es)
    → (move_right (e ∷ slots_of es (suc k)) (length (e ∷ slots_of es (suc k))) >>= fill_slot x)
      ≡ done (0, x ∷ e ∷ slots_of es k)
unfolding move_right
place_lem e es k x t = rw (
    move_right_lem e es k (suc (length (slots_of es (suc k)))) t.2
      (omega (arith, length-append es (replicate (suc k) empty_slot))))

-- Keeping the slot before the ones at hand goes through the three outcomes.
keep_outcomes :
    (a b : Bool) (e : Item) (u w : ℕ × List Item)
    → ((if a then done u else if b then undefined else done w) >>= λ out. done (keep_slot e out))
      ≡ (if a then done (keep_slot e u) else if b then undefined else done (keep_slot e w))
keep_outcomes true b e u w = refl
keep_outcomes false true e u w = refl
keep_outcomes false false e u w = refl

-- What `register_entry` does to a packed table with an empty slot: an entry that is there already is
-- refused; else the entry goes behind those of at least its priority, unless the only empty slot is
-- the last and the entry goes there: then the shift runs past the array.
pub register_entry_lem :
    (es : List Item) (k : ℕ) (x : Item)
    → IsTable es
    → register_entry (slots_of es (suc k)) x ≡ (
        if registered es x
        then done (eexist, slots_of es (suc k))
        else if goes_last es x && k == 0
        then undefined
        else done (0, slots_of (insert_entry es x) k))
unfolding register_entry
register_entry_lem [] zero x t = unfold move_right move_right_loop in refl
register_entry_lem [] (suc k) x t =
    unfold move_right move_right_loop in rw (==_ne (suc k) 0 (λ e. absurd (omega arith)))
register_entry_lem (e ∷ es) k x t = elim (dec_lt e.priority x.priority) [
  | yes lower ↦
      rw (==_ne e.func 0 t.0, lt→ltb e.priority x.priority lower, place_lem e es k x t)
        (rw (not_registered (e ∷ es) x e.priority lower (omega arith, t.1)))
  | no level ↦
      rw (==_ne e.func 0 t.0, le→ltb e.priority x.priority (omega arith))
        (elim (Bool-cases (same_entry e x)) [
          | inl same ↦ rw same refl
          | inr other ↦
              rw (other, register_entry_lem es k x t.2)
                (keep_outcomes (registered es x) (goes_last es x && k == 0) e
                  (eexist, slots_of es (suc k)) (0, slots_of (insert_entry es x) k))
        ])
]

-- What `unregister_entry` does to a packed table with an empty slot: the entry leaves, and those
-- behind it move up; without it nothing changes.
unregister_entry_lem :
    (es : List Item) (k : ℕ) (x : Item)
    → IsTable es
    → unregister_entry (slots_of es (suc k)) x ≡ (
        if registered es x
        then done (0, slots_of (remove_entry es x) (suc (suc k)))
        else done (enoent, slots_of es (suc k)))
unfolding unregister_entry
unregister_entry_lem [] k x t = refl
unregister_entry_lem (e ∷ es) k x t = rw (==_ne e.func 0 t.0) (elim (Bool-cases (same_entry e x)) [
  | inl same ↦ rw (
    same,
    move_left_lem e es k (suc (length (slots_of es (suc k)))) t.2
        (omega (arith, length-append es (replicate (suc k) empty_slot))),
  )
  | inr other ↦
      rw (other, unregister_entry_lem es k x t.2)
        (keep_two (registered es x) e (0, slots_of (remove_entry es x) (suc (suc k)))
          (enoent, slots_of es (suc k)))
])
  where
    keep_two :
        (a : Bool) (e : Item) (u w : ℕ × List Item)
        → ((if a then done u else done w) >>= λ out. done (keep_slot e out))
          ≡ (if a then done (keep_slot e u) else done (keep_slot e w))
    keep_two true e u w = refl
    keep_two false e u w = refl

-- A full table: to remove an entry the shift reads past the array.
unregister_entry_full :
    (es : List Item) (x : Item)
    → IsTable es
    → registered es x ≡ true
    → unregister_entry es x ≡ undefined
unfolding unregister_entry
unregister_entry_full [] x t h = cc
unregister_entry_full (e ∷ es) x t h = rw (==_ne e.func 0 t.0) (elim (Bool-cases (same_entry e x)) [
  | inl same ↦ rw (same, move_left_full e es (suc (length es)) t.2 (omega arith))
  | inr other ↦ rw (other, unregister_entry_full es x t.2 (rw other at h))
])
