-- ===== src/Fsm/Step.antt =====
-- One step of the machine against a step relation on its table.
use libmcu.Base.{
  ℕ, ◌≡◌, ◌≢◌, refl, sym, true, false, not, ◌⊎◌, List, [], ◌∷◌, ◌==◌, if◌then◌else◌, Bool-cases,
  inl, inr, ==_iff, ==_ne,
}
use native.Mathlib.Decide.{ℕ_discrete}
use libmcu.Fsm.{Item, Fsm, run_event, run_action, process, process_items, fsm_step}

-- From a state and a world, a table leads to a state and a world: by the first item of the state
-- whose event fires; the events asked before it have acted on the world.
pub data Steps {W : Type 0} : List (Item W) → ℕ → W → ℕ → W → Type 0 where
  idle : (s : ℕ) (w : W) → Steps [] s w s w
  other :
      {item : Item W} {items : List (Item W)} {s t : ℕ} {w u : W}
      → item.present ≢ s
      → Steps items s w t u
      → Steps (item ∷ items) s w t u
  declined :
      {item : Item W} {items : List (Item W)} {s t : ℕ} {w u : W}
      → item.present ≡ s
      → (run_event item.event s item.next w).0 ≡ false
      → Steps items s (run_event item.event s item.next w).1 t u
      → Steps (item ∷ items) s w t u
  taken :
      {item : Item W} {items : List (Item W)} {s : ℕ} {w : W}
      → item.present ≡ s
      → (run_event item.event s item.next w).0 ≡ true
      → Steps
          (item ∷ items)
          s
          w
          item.next
          (run_action item.action s item.next (run_event item.event s item.next w).1)

-- The stored state is the item's next one, changed or not.
stored : (s n : ℕ) → (if not (s == n) then n else s) ≡ n
stored s n = elim (ℕ_discrete s n) [
  | yes p ↦ rw ((==_iff s n).1 p) p
  | no p ↦ rw (==_ne s n p) refl
]

module _ {W : Type 0} where
  process_items-Steps :
      (items : List (Item W)) (s : ℕ) (w : W)
      → Steps items s w (process_items items s s w).0 (process_items items s s w).1
  unfolding process_items process
  process_items-Steps [] s w = idle s w
  process_items-Steps (item ∷ items) s w = elim (ℕ_discrete item.present s) [
    | no p ↦ rw (==_ne item.present s p) (other p (process_items-Steps items s w))
    | yes p ↦
        rw ((==_iff item.present s).1 p) (elim (Bool-cases (run_event item.event s item.next w).0) [
          | inl fires ↦ rw (fires, stored s item.next) (taken p fires)
          | inr not_yet ↦ rw not_yet (
              declined p not_yet
                (process_items-Steps items s (run_event item.event s item.next w).1))
        ])
  ]

  -- `fsm_step` takes the first item of the present state whose event fires, or stays; it returns the
  -- new state, and calls the change callback exactly if the state is another one.
  pub fsm_step_lem :
      (fsm : Fsm W) (w : W)
      → let ((s, fsm'), u) = fsm_step fsm w in
        (fsm' ≡ record fsm { present = s })
        × ((v : W) × Steps fsm.items fsm.present w s v
            × ((s ≡ fsm.present) × (u ≡ v)
                ⊎ (s ≢ fsm.present) × (u ≡ run_action fsm.cb s fsm.present v)))
  unfolding fsm_step
  fsm_step_lem fsm w =
      let out = process_items fsm.items fsm.present fsm.present w in
      (refl, (out.1, process_items-Steps fsm.items fsm.present w, changed out.0 out.1))
    where
      changed :
          (s : ℕ) (v : W)
          → let u = if not (fsm.present == s) then run_action fsm.cb s fsm.present v else v in
            (s ≡ fsm.present) × (u ≡ v)
            ⊎ (s ≢ fsm.present) × (u ≡ run_action fsm.cb s fsm.present v)
      changed s v = elim (ℕ_discrete fsm.present s) [
        | yes p ↦ rw ((==_iff fsm.present s).1 p) (inl (sym p, refl))
        | no p ↦ rw (==_ne fsm.present s p) (inr ((λ q. p (sym q)), refl))
      ]
