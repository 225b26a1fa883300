-- ===== src/Cleanup.antt =====
-- modules/cleanup/src/cleanup.c: functions to call at the end, in a linked list ordered by priority.
-- The circular list with its head is the list of its entries. An `int` priority is counted from
-- -2 ^ 31, since it is only compared. A function and its context are addresses.
pub mod Order
mod Tests
use libmcu.Base.{ℕ, Bool, true, false, List, [], ◌∷◌, ltb, if◌then◌else◌}

pub data CleanupError : Type 0 where
  no_error alloc_failed : CleanupError

pub record Cleanup : Type 0 where
  pub func : ℕ
  pub func_ctx : ℕ
  pub priority : ℕ

-- The calls that `cleanup_execute` makes: each function with its context.
pub cleanup_execute : List Cleanup → List (ℕ × ℕ)
cleanup_execute [] = []
cleanup_execute (e ∷ es) = (e.func, e.func_ctx) ∷ cleanup_execute es

-- The loop that moves `p` along the links, and the two stores behind it.
pub insert_link : List Cleanup → Cleanup → List Cleanup
insert_link [] entry = entry ∷ []
insert_link (t ∷ ts) entry =
    let rest = insert_link ts entry in
    if ltb t.priority entry.priority then entry ∷ t ∷ ts else t ∷ rest

-- `memory` says whether `malloc` succeeds.
pub cleanup_register : List Cleanup → ℕ → ℕ → ℕ → Bool → CleanupError × List Cleanup
cleanup_register list priority func func_ctx memory =
    if memory
    then (
      no_error,
      insert_link list (record { func = func; func_ctx = func_ctx; priority = priority }),
    )
    else (alloc_failed, list)

pub cleanup_init : CleanupError × List Cleanup
cleanup_init = (no_error, [])

-- What is left once the loop has taken each entry out.
pub cleanup_deinit : List Cleanup → List Cleanup
cleanup_deinit [] = []
cleanup_deinit (e ∷ es) = cleanup_deinit es
