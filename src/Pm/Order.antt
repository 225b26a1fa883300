-- ===== src/Pm/Order.antt =====
-- Tables in order of priority, through registering and unregistering.
use libmcu.Base.{ℕ, ◌≤◌, ◌≢◌, List, [], ◌∷◌, Bool-cases, inl, inr, lt→ltb, le→ltb, arith}
use native.Mathlib.Decide.{dec_lt}
use libmcu.Pm.{Item, same_entry}
use libmcu.Pm.Table.{IsBelow, IsTable, insert_entry, remove_entry}

IsBelow-weaken : (es : List Item) (a b : ℕ) → a ≤ b → IsBelow a es → IsBelow b es
IsBelow-weaken [] a b h s = tt
IsBelow-weaken (e ∷ es) a b h s = (omega arith, IsBelow-weaken es a b h s.1)

IsBelow-insert :
    (es : List Item) (x : Item) (b : ℕ)
    → x.priority ≤ b
    → IsBelow b es
    → IsBelow b (insert_entry es x)
IsBelow-insert [] x b h s = (h, tt)
IsBelow-insert (e ∷ es) x b h s = elim (dec_lt e.priority x.priority) [
  | yes p ↦ rw (lt→ltb e.priority x.priority p) (h, s)
  | no p ↦ rw (le→ltb e.priority x.priority (omega arith)) (s.0, IsBelow-insert es x b h s.1)
]

IsBelow-remove : (es : List Item) (x : Item) (b : ℕ) → IsBelow b es → IsBelow b (remove_entry es x)
IsBelow-remove [] x b s = tt
IsBelow-remove (e ∷ es) x b s = elim (Bool-cases (same_entry e x)) [
  | inl p ↦ rw p s.1
  | inr p ↦ rw p (s.0, IsBelow-remove es x b s.1)
]

-- A new entry goes to its place: the table stays in order of priority.
pub insert_entry-IsTable :
    (es : List Item) (x : Item) → x.func ≢ 0 → IsTable es → IsTable (insert_entry es x)
insert_entry-IsTable [] x h t = (h, tt, tt)
insert_entry-IsTable (e ∷ es) x h t = elim (dec_lt e.priority x.priority) [
  | yes p ↦
      rw (lt→ltb e.priority x.priority p)
        (h, (omega arith, IsBelow-weaken es e.priority x.priority (omega arith) t.1), t)
  | no p ↦
      rw (le→ltb e.priority x.priority (omega arith))
        (t.0, IsBelow-insert es x e.priority (omega arith) t.1, insert_entry-IsTable es x h t.2)
]

pub remove_entry-IsTable : (es : List Item) (x : Item) → IsTable es → IsTable (remove_entry es x)
remove_entry-IsTable [] x t = tt
remove_entry-IsTable (e ∷ es) x t = elim (Bool-cases (same_entry e x)) [
  | inl p ↦ rw p t.2
  | inr p ↦ rw p (t.0, IsBelow-remove es x e.priority t.1, remove_entry-IsTable es x t.2)
]
