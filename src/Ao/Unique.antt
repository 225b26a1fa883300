-- ===== src/Ao/Unique.antt =====
-- What the search of the queue finds, and when `ao_post_if_unique` posts.
use libmcu.Base.{
  ℕ, zero, suc, ◌+◌, ◌%◌, ◌<◌, ◌≡◌, ◌⊎◌, inl, inr, refl, ap, ap₂, ◌∙◌, Bool, true, false, List, [],
  ◌∷◌, ◌++◌, get_or, ◌==◌, if◌then◌else◌, u16, errno, arith, ==_iff,
}
use libmcu.Ringbuf.Window.{window, window_mod}
use libmcu.Ao.{EventQueue, Ao, get_queue_len, is_among, is_event_already_queued, post_event}
use libmcu.Ao.Fifo.{IsQueue, contents, get_index_lem, wrap_mod, push_event-contents}
use libmcu.Ao.Timer.{Timers, ao_timer_is_armed}
use libmcu.Ao.Timer.Armed.{armed_count, count-dryrun}
use libmcu.Ao.Post.{is_event_unique, ao_post_if_unique}

abbrev pub occurs : ℕ → List ℕ → Bool
occurs event [] = false
occurs event (x ∷ xs) = if x == event then true else occurs event xs

module _ {maxlen : ℕ} {q : EventQueue} (v : IsQueue maxlen q) where
  is_among_lem :
      (n outdex event : ℕ)
      → is_among maxlen q n outdex event ≡ occurs event (window q.events maxlen outdex n)
  unfolding is_among
  is_among_lem zero outdex event = refl
  is_among_lem (suc n) outdex event =
      ap₂ (λ i rest. if get_or q.events i 0 == event then true else rest) (get_index_lem v outdex)
        (is_among_lem n (u16 (outdex + 1)) event
          ∙ ap (occurs event) (
              window_mod q.events maxlen (u16 (outdex + 1)) (suc outdex) n
                (wrap_mod v (outdex + 1) ∙ ap (λ t. t % maxlen) {x = outdex + 1} (omega arith))))

  is_event_already_queued_lem :
      (event : ℕ) → is_event_already_queued maxlen q event ≡ occurs event (contents maxlen q)
  unfolding is_event_already_queued
  is_event_already_queued_lem event = is_among_lem (get_queue_len q) q.outdex event

-- On an object with a valid queue, `ao_post_if_unique` fails with -EEXIST and changes nothing if the
-- event is in the queue or armed for the object. If it is neither, the event is posted: it is then the
-- last one of the queue, or, with the queue full, the call fails with -ENOSPC and the queue stays.
pub ao_post_if_unique_lem :
    {maxlen : ℕ} (m : Timers) (aos : ℕ → Ao) (ao event : ℕ)
    → IsQueue maxlen (aos ao).queue
    → let (rc, aos') = ao_post_if_unique maxlen m aos ao event in
      let held = contents maxlen (aos ao).queue in
      ((occurs event held ≡ true) ⊎ (0 < armed_count m.timer_pool event ao))
        × (rc ≡ errno 17)
        × (aos' ≡ aos)
      ⊎ (occurs event held ≡ false)
        × (armed_count m.timer_pool event ao ≡ 0)
        × ((rc ≡ 0) × (contents maxlen (aos' ao).queue ≡ held ++ (event ∷ []))
            ⊎ (rc ≡ errno 28)
              × (get_queue_len (aos ao).queue ≡ maxlen)
              × (contents maxlen (aos' ao).queue ≡ held))
unfolding ao_post_if_unique is_event_unique post_event ao_timer_is_armed
ao_post_if_unique_lem {maxlen} m aos ao event v =
    let q = (aos ao).queue in
    let here : (ao == ao) ≡ true = (==_iff ao ao).1 refl in
    elim (push_event-contents v event) [
      | inl (room, ok, e) ↦
          rw (is_event_already_queued_lem v event, count-dryrun event ao m.timer_pool)
            (ground (arith, here, ok, e))
      | inr (full, same) ↦
          rw (is_event_already_queued_lem v event, count-dryrun event ao m.timer_pool)
            (ground (arith, here, full, same))
    ]
