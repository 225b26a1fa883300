-- ===== src/Fsm.antt =====
-- modules/fsm/src/fsm.c: a table-driven state machine.
-- `W` is what the application's functions act on: their contexts and the world. They do not touch
-- the machine itself. An `int16_t` state is only compared, and is its pattern.
pub mod Step
mod Tests
use libmcu.Base.{
  ℕ, Bool, true, false, not, ◌&&◌, Option, none, some, List, [], ◌∷◌, ◌==◌, if◌then◌else◌,
}

pub record Item (W : Type 0) : Type 0 where
  pub present : ℕ
  pub next : ℕ
  pub event : Option (ℕ → ℕ → W → Bool × W)
  pub action : Option (ℕ → ℕ → W → W)

pub record Fsm (W : Type 0) : Type 0 where
  pub present : ℕ
  pub items : List (Item W)
  pub cb : Option (ℕ → ℕ → W → W)

module _ {W : Type 0} where
  -- `item->event && (*item->event)(...)`
  pub run_event : Option (ℕ → ℕ → W → Bool × W) → ℕ → ℕ → W → Bool × W
  run_event none state next w = (false, w)
  run_event (some f) state next w = f state next w

  pub run_action : Option (ℕ → ℕ → W → W) → ℕ → ℕ → W → W
  run_action none state next w = w
  run_action (some f) state next w = f state next w

  -- Whether the item was taken, `*next_state` and the world after.
  pub process : Item W → ℕ → ℕ → W → Bool × ℕ × W
  process item current_state next_state w =
      let (fired, w1) = run_event item.event current_state item.next w in
      let stored = if not (current_state == item.next) then item.next else next_state in
      if not (item.present == current_state)
      then (false, next_state, w)
      else if fired
      then (true, stored, run_action item.action current_state item.next w1)
      else (false, next_state, w1)

  -- The loop of `fsm_step`, from the items that are left.
  pub process_items : List (Item W) → ℕ → ℕ → W → ℕ × W
  process_items [] current_state present w = (present, w)
  process_items (item ∷ items) current_state present w =
      let (taken, present', w') = process item current_state present w in
      let rest = process_items items current_state present' w' in
      if taken then (present', w') else rest

  pub fsm_step : Fsm W → W → (ℕ × Fsm W) × W
  fsm_step fsm w =
      let (present', w') = process_items fsm.items fsm.present fsm.present w in
      (
        (present', record fsm { present = present' }),
        (if not (fsm.present == present') then run_action fsm.cb present' fsm.present w' else w'),
      )

  pub fsm_get_state : Fsm W → ℕ
  fsm_get_state fsm = fsm.present

  pub fsm_set_state_change_cb : Fsm W → Option (ℕ → ℕ → W → W) → Fsm W
  fsm_set_state_change_cb fsm cb = record fsm { cb = cb }

  pub fsm_reset : Fsm W → Fsm W
  fsm_reset fsm = record fsm { present = 0 }

  pub fsm_init : Fsm W → List (Item W) → Fsm W
  fsm_init fsm items = fsm_reset (record fsm { items = items })
