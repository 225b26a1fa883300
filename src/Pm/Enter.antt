-- ===== src/Pm/Enter.antt =====
-- The functions that the application calls: `register_callback`, `unregister_callback`, `pm_enter`.
use libmcu.Base.{
  ℕ, zero, suc, ◌-◌, ◌≡◌, refl, ap, ap₂, ◌≢◌, Bool, true, false, not, ◌&&◌, ◌||◌, List, [], ◌∷◌,
  ◌++◌, map, replicate, ◌==◌, if◌then◌else◌, Bool-cases, inl, inr, ==_ne, lt→ltb, done, undefined,
  arith,
}
use libmcu.Pm.{
  Item, empty_slot, enospc, eexist, bool_eq, count_empty_slots, register_callback, Event, called,
  entered, dispatch, pm_enter,
}
use libmcu.Pm.Table.{
  IsBelow, IsTable, slots_of, insert_entry, registered, goes_last, register_entry_lem,
}

count_none : (k : ℕ) → count_empty_slots (replicate k empty_slot) ≡ k
unfolding count_empty_slots
count_none zero = refl
count_none (suc k) = ap suc (count_none k)

count_lem : (es : List Item) (k : ℕ) → IsTable es → count_empty_slots (slots_of es k) ≡ k
unfolding count_empty_slots
count_lem [] k t = count_none k
count_lem (e ∷ es) k t = rw (==_ne e.func 0 t.0) (count_lem es k t.2)

-- Registering a callback with a packed table of `k` empty slots: refused with -ENOSPC in a full
-- table and with -EEXIST where the entry is there; else the entry goes behind those of at least its
-- priority. With one empty slot, an entry that goes to the end makes C write past the array.
pub register_callback_lem :
    (es : List Item) (k : ℕ) (x : Item)
    → x.func ≢ 0
    → IsTable es
    → register_callback (slots_of es k) x ≡ (
        if k == 0
        then done (enospc, slots_of es k)
        else if registered es x
        then done (eexist, slots_of es k)
        else if goes_last es x && k == 1
        then undefined
        else done (0, slots_of (insert_entry es x) (k - 1)))
unfolding register_callback
register_callback_lem es zero x h t = rw (==_ne x.func 0 h, count_lem es zero t)
register_callback_lem es (suc k) x h t =
    rw
      (
        ==_ne x.func 0 h,
        count_lem es (suc k) t,
        lt→ltb 0 (suc k) (omega arith),
        ==_ne (suc k) 0 (λ e. absurd (omega arith)),
        one_less k,
        minus_one k,
      )
      (register_entry_lem es k x t)
  where
    one_less : (k : ℕ) → (suc k == 1) ≡ (k == 0)
    one_less k = ground arith

    minus_one : (k : ℕ) → suc k - 1 ≡ k
    minus_one k = omega arith

-- The entries that a mode calls, on the way in or on the way out.
abbrev pub selected : Bool → List Item → ℕ → List Item
selected on_exit [] mode = []
selected on_exit (e ∷ es) mode =
    if e.mode == mode && bool_eq e.on_exit on_exit
    then e ∷ selected on_exit es mode
    else selected on_exit es mode

abbrev pub event : Item → Event
event e = called e.func e.ctx

dispatch_none : (b : Bool) (k mode : ℕ) → dispatch b (replicate k empty_slot) mode ≡ []
unfolding dispatch
dispatch_none b zero mode = refl
dispatch_none b (suc k) mode = ground (arith, dispatch_none b k mode)

dispatch_lem :
    (b : Bool) (es : List Item) (k mode : ℕ)
    → IsTable es
    → dispatch b (slots_of es k) mode ≡ map event (selected b es mode)
unfolding dispatch
dispatch_lem b [] k mode t = dispatch_none b k mode
dispatch_lem b (e ∷ es) k mode t =
    rw (==_ne e.func 0 t.0, dispatch_lem b es k mode t.2)
      (pick (e.mode == mode) (bool_eq e.on_exit b))
  where
    pick :
        (m o : Bool)
        → (if not m || false || not o
            then map event (selected b es mode)
            else event e ∷ map event (selected b es mode))
          ≡ map event (if m && o then e ∷ selected b es mode else selected b es mode)
    pick true true = refl
    pick true false = refl
    pick false o = refl

selected-IsBelow :
    (b : Bool) (es : List Item) (mode bound : ℕ)
    → IsBelow bound es
    → IsBelow bound (selected b es mode)
selected-IsBelow b [] mode bound s = tt
selected-IsBelow b (e ∷ es) mode bound s =
    elim (Bool-cases (e.mode == mode && bool_eq e.on_exit b)) [
      | inl p ↦ rw p (s.0, selected-IsBelow b es mode bound s.1)
      | inr p ↦ rw p (selected-IsBelow b es mode bound s.1)
    ]

selected-IsTable :
    (b : Bool) (es : List Item) (mode : ℕ) → IsTable es → IsTable (selected b es mode)
selected-IsTable b [] mode t = tt
selected-IsTable b (e ∷ es) mode t = elim (Bool-cases (e.mode == mode && bool_eq e.on_exit b)) [
  | inl p ↦ rw p (t.0, selected-IsBelow b es mode e.priority t.1, selected-IsTable b es mode t.2)
  | inr p ↦ rw p (selected-IsTable b es mode t.2)
]

-- `pm_enter` calls the entry callbacks of the mode, then the port, then the exit callbacks, both in
-- order of priority, and no others.
pub pm_enter_lem :
    (es : List Item) (k mode duration_ms : ℕ)
    → IsTable es
    → (pm_enter (slots_of es k) mode duration_ms
        ≡ map event (selected false es mode)
          ++ (entered mode duration_ms ∷ map event (selected true es mode)))
      × IsTable (selected false es mode)
      × IsTable (selected true es mode)
unfolding pm_enter
pm_enter_lem es k mode duration_ms t = (
  ap₂ (λ a b. a ++ (entered mode duration_ms ∷ b)) (dispatch_lem false es k mode t)
      (dispatch_lem true es k mode t),
  selected-IsTable false es mode t,
  selected-IsTable true es mode t,
)
