-- ===== src/Cleanup/Order.antt =====
-- The order of the list of `cleanup.c`, and of the calls that `cleanup_execute` makes.
use libmcu.Base.{ℕ, ◌≤◌, ◌<◌, List, [], ◌∷◌}
use libmcu.Cleanup.{Cleanup}

-- All at least, or all below, a priority.
abbrev pub IsAtLeast : ℕ → List Cleanup → Type 0
IsAtLeast b [] = Unit {0}
IsAtLeast b (e ∷ es) = (b ≤ e.priority) × IsAtLeast b es

abbrev pub IsUnder : ℕ → List Cleanup → Type 0
IsUnder b [] = Unit {0}
IsUnder b (e ∷ es) = (e.priority < b) × IsUnder b es

abbrev pub IsAtMost : ℕ → List Cleanup → Type 0
IsAtMost b [] = Unit {0}
IsAtMost b (e ∷ es) = (e.priority ≤ b) × IsAtMost b es

abbrev pub IsOrdered : List Cleanup → Type 0
IsOrdered [] = Unit {0}
IsOrdered (e ∷ es) = IsAtMost e.priority es × IsOrdered es
