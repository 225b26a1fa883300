-- ===== src/Pm/Tests.antt =====
-- A table of two entries for mode 1, and the callbacks registered with it.
use libmcu.Base.{
  ℕ, suc, ◌-◌, ◌≡◌, ◌≢◌, true, false, ◌&&◌, List, [], ◌∷◌, ◌++◌, map, ◌==◌, if◌then◌else◌, done,
  undefined, arith,
}
use libmcu.Pm.{Item, enospc, eexist, register_callback, entered, pm_enter}
use libmcu.Pm.Table.{IsTable, slots_of, insert_entry, registered, goes_last}
use libmcu.Pm.Enter.{register_callback_lem, selected, event, pm_enter_lem}

abbrev wake : Item
wake = record { func = 64; ctx = 1; mode = 1; priority = 130; on_exit = true }

abbrev sleep : Item
sleep = record { func = 80; ctx = 2; mode = 1; priority = 128; on_exit = false }

abbrev other : Item
other = record { func = 96; ctx = 3; mode = 1; priority = 129; on_exit = false }

abbrev entries : List Item
entries = wake ∷ sleep ∷ []

not_null : (n : ℕ) → suc n ≢ 0
not_null n e = absurd (omega arith)

entries-IsTable : IsTable entries
entries-IsTable = (not_null 63, (omega arith, tt), (not_null 79, tt, tt))

register_callback_lem_example : register_callback (slots_of entries 6) other ≡ (
    if 6 == 0
    then done (enospc, slots_of entries 6)
    else if registered entries other
    then done (eexist, slots_of entries 6)
    else if goes_last entries other && 6 == 1
    then undefined
    else done (0, slots_of (insert_entry entries other) (6 - 1)))
register_callback_lem_example = register_callback_lem entries 6 other (not_null 95) entries-IsTable

pm_enter_lem_example :
    (pm_enter (slots_of entries 6) 1 500
      ≡ map event (selected false entries 1)
        ++ (entered 1 500 ∷ map event (selected true entries 1)))
    × IsTable (selected false entries 1)
    × IsTable (selected true entries 1)
pm_enter_lem_example = pm_enter_lem entries 6 1 500 entries-IsTable
