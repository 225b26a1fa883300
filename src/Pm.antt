-- ===== src/Pm.antt =====
-- modules/pm/src/pm.c: callbacks around a power mode change, in a table of PM_CALLBACK_MAXLEN slots
-- kept packed and ordered by priority.
-- A pointer into the table is the list of the slots from there on: `p[1]` past its end is outside
-- the array, and what C does there is `undefined`. A callback and its context are addresses, 0 for
-- NULL. An `int8_t` priority is counted from -128, since it is only compared.
pub mod Table
pub mod Order
pub mod Enter
mod Tests
use libmcu.Base.{
  ℕ, zero, suc, Bool, true, false, not, ◌&&◌, ◌||◌, List, [], ◌∷◌, ◌++◌, replicate, length, ltb,
  ◌==◌, if◌then◌else◌, errno, Outcome, done, undefined, ◌>>=◌,
}

abbrev pub callback_maxlen : ℕ
callback_maxlen = 8

pub record Item : Type 0 where
  pub func : ℕ
  pub ctx : ℕ
  pub mode : ℕ
  pub priority : ℕ
  pub on_exit : Bool

-- A slot after `memset(p, 0, sizeof(*p))`; a zero priority is 128 from -128.
abbrev pub empty_slot : Item
empty_slot = record { func = 0; ctx = 0; mode = 0; priority = 128; on_exit = false }

abbrev pub enoent : ℕ
enoent = errno 2

abbrev pub efault : ℕ
efault = errno 14

abbrev pub eexist : ℕ
eexist = errno 17

abbrev pub einval : ℕ
einval = errno 22

abbrev pub enospc : ℕ
enospc = errno 28

abbrev pub bool_eq : Bool → Bool → Bool
bool_eq a b = if a then b else not b

-- The tests by which an entry is found again.
abbrev pub same_entry : Item → Item → Bool
same_entry p x =
    p.mode == x.mode && bool_eq p.on_exit x.on_exit && p.priority == x.priority && p.func == x.func

pub count_empty_slots : List Item → ℕ
count_empty_slots [] = 0
count_empty_slots (p ∷ ps) =
    let rest = count_empty_slots ps in if p.func == 0 then suc rest else rest

-- The loop of `move_right`: `next` waits to be stored in the first of the slots, `p[1]`.
unfoldable pub move_right_loop : Item → List Item → ℕ → Outcome (List Item)
move_right_loop next slots zero = done slots
move_right_loop next [] (suc n) = undefined
move_right_loop next (t ∷ slots) (suc n) =
    let rest = move_right_loop t slots n >>= λ moved. done (next ∷ moved) in
    if t.func == 0 then done (next ∷ slots) else rest

unfoldable pub move_right : List Item → ℕ → Outcome (List Item)
move_right [] n = undefined
move_right (p ∷ ps) n = move_right_loop p ps n >>= λ moved. done (p ∷ moved)

unfoldable pub move_left : List Item → ℕ → Outcome (List Item)
move_left slots zero = done slots
move_left [] (suc n) = undefined
move_left (p ∷ []) (suc n) = undefined
move_left (p ∷ q ∷ slots) (suc n) =
    let rest = move_left (q ∷ slots) n >>= λ moved. done (q ∷ moved) in
    if q.func == 0 then done (empty_slot ∷ q ∷ slots) else rest

-- The fields of `*slot` are set to those of the entry.
abbrev pub fill_slot : Item → List Item → Outcome (ℕ × List Item)
fill_slot x [] = undefined
fill_slot x (slot ∷ slots) = done (0, x ∷ slots)

-- What stands before the slots at hand stays.
abbrev pub keep_slot : Item → ℕ × List Item → ℕ × List Item
keep_slot p (rc, slots) = (rc, p ∷ slots)

-- The loop of `register_entry` from a slot on. The result is -EFAULT where it ends with no slot.
unfoldable pub register_entry : List Item → Item → Outcome (ℕ × List Item)
register_entry [] x = done (efault, [])
register_entry (p ∷ ps) x =
    let placed = move_right (p ∷ ps) (length (p ∷ ps)) >>= fill_slot x in
    let rest = register_entry ps x >>= λ out. done (keep_slot p out) in
    if p.func == 0 || ltb p.priority x.priority
    then placed
    else if same_entry p x
    then done (eexist, p ∷ ps)
    else rest

unfoldable pub unregister_entry : List Item → Item → Outcome (ℕ × List Item)
unregister_entry [] x = done (enoent, [])
unregister_entry (p ∷ ps) x =
    let removed = move_left (p ∷ ps) (length (p ∷ ps)) >>= λ slots. done (0, slots) in
    let rest = unregister_entry ps x >>= λ out. done (keep_slot p out) in
    if p.func == 0 then done (enoent, p ∷ ps) else if same_entry p x then removed else rest

-- `register_callback`; the mutex makes the calls of several threads a sequence of these.
unfoldable pub register_callback : List Item → Item → Outcome (ℕ × List Item)
register_callback slots x =
    if x.func == 0
    then done (einval, slots)
    else if ltb 0 (count_empty_slots slots)
    then register_entry slots x
    else done (enospc, slots)

unfoldable pub unregister_callback : List Item → Item → Outcome (ℕ × List Item)
unregister_callback slots x = unregister_entry slots x

-- The functions of `pm.h` that pass on to these two.
unfoldable pub pm_register_entry_callback : List Item → ℕ → ℕ → ℕ → ℕ → Outcome (ℕ × List Item)
pm_register_entry_callback slots mode priority func ctx =
    register_callback slots
      (record { func = func; ctx = ctx; mode = mode; priority = priority; on_exit = false })

unfoldable pub pm_register_exit_callback : List Item → ℕ → ℕ → ℕ → ℕ → Outcome (ℕ × List Item)
pm_register_exit_callback slots mode priority func ctx =
    register_callback slots
      (record { func = func; ctx = ctx; mode = mode; priority = priority; on_exit = true })

unfoldable pub pm_unregister_entry_callback : List Item → ℕ → ℕ → ℕ → ℕ → Outcome (ℕ × List Item)
pm_unregister_entry_callback slots mode priority func ctx =
    unregister_callback slots
      (record { func = func; ctx = ctx; mode = mode; priority = priority; on_exit = false })

unfoldable pub pm_unregister_exit_callback : List Item → ℕ → ℕ → ℕ → ℕ → Outcome (ℕ × List Item)
pm_unregister_exit_callback slots mode priority func ctx =
    unregister_callback slots
      (record { func = func; ctx = ctx; mode = mode; priority = priority; on_exit = true })

-- What `pm_enter` makes happen: a callback with its context, or the port's mode change.
pub data Event : Type 0 where
  called : ℕ → ℕ → Event
  entered : ℕ → ℕ → Event

-- Both `dispatch` loops: the callbacks of a mode that are, or are not, for the exit.
unfoldable pub dispatch : Bool → List Item → ℕ → List Event
dispatch on_exit [] mode = []
dispatch on_exit (p ∷ ps) mode =
    let rest = dispatch on_exit ps mode in
    if not (p.mode == mode) || p.func == 0 || not (bool_eq p.on_exit on_exit)
    then rest
    else called p.func p.ctx ∷ rest

-- The value returned is the port's. The callbacks run under the lock, and cannot register others.
unfoldable pub pm_enter : List Item → ℕ → ℕ → List Event
pm_enter slots mode duration_ms =
    dispatch false slots mode ++ (entered mode duration_ms ∷ dispatch true slots mode)

abbrev pub pm_init : List Item
pm_init = replicate callback_maxlen empty_slot
