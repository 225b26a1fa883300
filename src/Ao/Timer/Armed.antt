-- ===== src/Ao/Timer/Armed.antt =====
-- Which events are armed before and after a timer is added or cancelled.
use libmcu.Base.{
  suc, Bool, ◌==◌, if◌then◌else◌, ℕ, ◌≡◌, ◌≢◌, ◌⊎◌, refl, true, false, List, [], ◌∷◌, arith,
}
use libmcu.Ao.Timer.{
  Timer, Timers, is_allocated, free_timer, free_timers_by_event, ao_timer_cancel, ao_timer_is_armed,
}

-- A timer in use, for this event and this object.
abbrev pub is_for : Timer → ℕ → ℕ → Bool
is_for t event ao = if t.ao == 0 then false else if t.ao == ao then t.event == event else false

-- The timers armed for an event of an object.
unfoldable pub armed_count : List Timer → ℕ → ℕ → ℕ
armed_count [] event ao = 0
armed_count (t ∷ ts) event ao =
    if is_for t event ao then suc (armed_count ts event ao) else armed_count ts event ao

module _ (event ao : ℕ) where
  pub count-dryrun :
      (ts : List Timer) → (free_timers_by_event ts event ao true).0 ≡ armed_count ts event ao
  unfolding armed_count free_timers_by_event is_allocated
  count-dryrun [] = refl
  count-dryrun (t ∷ ts) = ground (arith, count-dryrun ts)

  count-cancel :
      (ts : List Timer) → (free_timers_by_event ts event ao false).0 ≡ armed_count ts event ao
  unfolding armed_count free_timers_by_event is_allocated
  count-cancel [] = refl
  count-cancel (t ∷ ts) = ground (arith, count-cancel ts)

  none_left :
      (ts : List Timer) → armed_count (free_timers_by_event ts event ao false).1 event ao ≡ 0
  unfolding armed_count free_timers_by_event free_timer is_allocated
  none_left [] = refl
  none_left (t ∷ ts) = ground (arith, none_left ts)

  others_stay :
      (other whose : ℕ)
      → (other ≢ event) ⊎ (whose ≢ ao)
      → (ts : List Timer)
      → armed_count (free_timers_by_event ts event ao false).1 other whose
        ≡ armed_count ts other whose
  unfolding armed_count free_timers_by_event free_timer is_allocated
  others_stay other whose apart [] = refl
  others_stay other whose apart (t ∷ ts) = ground (arith, others_stay other whose apart ts)

-- Cancelling returns how many timers were armed for the event of the object, disarms them all, and
-- leaves every other event, and the same event of other objects, armed as often as before.
pub ao_timer_cancel_lem :
    (m : Timers) (ao event : ℕ)
    → let (count, m') = ao_timer_cancel m ao event in
      (count ≡ armed_count m.timer_pool event ao)
      × (ao_timer_is_armed m' ao event ≡ false)
      × ((whose other : ℕ)
          → (other ≢ event) ⊎ (whose ≢ ao)
          → armed_count m'.timer_pool other whose ≡ armed_count m.timer_pool other whose)
unfolding ao_timer_cancel ao_timer_is_armed
ao_timer_cancel_lem m ao event = (
  count-cancel event ao m.timer_pool,
  ground (
    arith,
    count-dryrun event ao (free_timers_by_event m.timer_pool event ao false).1,
    none_left event ao m.timer_pool,
  ),
  λ whose other apart. others_stay event ao other whose apart m.timer_pool,
)
