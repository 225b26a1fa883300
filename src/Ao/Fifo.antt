-- ===== src/Ao/Fifo.antt =====
-- The queue of events as a first-in first-out list, for a power of two as AO_EVENT_MAXLEN.
use native.Mathlib.Nat.{mod-mod_of_dvd, pow-le-pow_right, one-le-pow}
use native.Mathlib.Decide.{dec_lt, ℕ_discrete}
use libmcu.Base.{
  ℕ, suc, ◌+◌, ◌-◌, ◌%◌, ◌^◌, ◌≤◌, ◌<◌, bit_and, ◌≡◌, ◌≢◌, ◌⊎◌, inl, inr, ==_iff, ==_ne, lt→leb,
  le→leb, refl, sym, ap, ap₂, ◌∙◌, true, false, List, [], ◌∷◌, ◌++◌, get_or, set, length,
  length-set, u16, arith,
}
use libmcu.Base.Bits.{bit_and_mask, pow_dvd}
use libmcu.Bitops.{flsl}
use libmcu.Bitops.Power.{flsl-IsTopBit, pow-lt_inv, pow-le_inv}
use libmcu.Ringbuf.Window.{window, window_mod, window-store}
use libmcu.Ao.{
  EventQueue, increse_index, get_queue_len, is_queue_empty, get_index, is_queue_full, pop_event,
  push_event,
}

mod_pow16 : (k a : ℕ) → k ≤ 16 → u16 a % 2 ^ k ≡ a % 2 ^ k
mod_pow16 k a h = mod-mod_of_dvd (2 ^ k) a (pow_dvd k 16 h)

flsl-pow : (k : ℕ) → k ≤ 15 → flsl (2 ^ k) ≡ suc k
flsl-pow k h =
    let small = pow-le-pow_right {n = 2} (omega arith) {i = k} {j = 15} h in
    let (e, is, top, lt) = flsl-IsTopBit (2 ^ k) (one-le-pow k 2 (omega arith)) (omega arith) in
    is ∙ ap suc {x = e} {y = k} (omega (arith, pow-le_inv e k top.0, pow-lt_inv k (suc e) top.1))

-- The events between the two indices, oldest first.
abbrev pub contents : ℕ → EventQueue → List ℕ
contents maxlen q = window q.events maxlen q.outdex (get_queue_len q)

pub record IsQueue (maxlen : ℕ) (q : EventQueue) : Type 0 where
  pub pow : ℕ
  pub small : pow ≤ 15
  pub cap_pow : maxlen ≡ 2 ^ pow
  pub size : length q.events ≡ maxlen
  pub index_in : q.index < 2 ^ 16
  pub outdex_in : q.outdex < 2 ^ 16
  pub fits : get_queue_len q ≤ maxlen

module _ {maxlen : ℕ} {q : EventQueue} (v : IsQueue maxlen q) where
  maxlen_bounds : (0 < maxlen) × (maxlen ≤ 2 ^ 15)
  maxlen_bounds = omega (
    arith,
    v.cap_pow,
    v.small,
    one-le-pow v.pow 2,
    pow-le-pow_right {n = 2} (omega arith) {i = v.pow} {j = 15} v.small,
  )

  pub get_index_lem : (i : ℕ) → get_index maxlen i ≡ i % maxlen
  unfolding get_index
  get_index_lem i =
      rw (v.cap_pow, flsl-pow v.pow v.small)
        (ap (bit_and i) {y = 2 ^ v.pow - 1} (
            omega (
              arith,
              maxlen_bounds,
              v.cap_pow,
              ap (λ (t : ℕ). 2 ^ t) {x = suc v.pow - 1} {y = v.pow} (omega arith),
            ))
          ∙ bit_and_mask v.pow i)

  pub wrap_mod : (a : ℕ) → u16 a % maxlen ≡ a % maxlen
  wrap_mod a = rw v.cap_pow (mod_pow16 v.pow a (omega (arith, v.small)))

  index_lem : q.index ≡ u16 (q.outdex + get_queue_len q)
  unfolding get_queue_len
  index_lem = omega (arith, v.index_in, v.outdex_in)

  pub push_event-IsQueue : (event : ℕ) → IsQueue maxlen (push_event maxlen q event).1
  unfolding push_event is_queue_full increse_index get_queue_len
  push_event-IsQueue event = ground (
    arith,
    v.size,
    v.fits,
    v.index_in,
    v.outdex_in,
    maxlen_bounds,
    length-set q.events (get_index maxlen q.index) event,
  )

  pub pop_event-IsQueue : IsQueue maxlen (pop_event maxlen q).1
  unfolding pop_event is_queue_empty increse_index get_queue_len
  pop_event-IsQueue = ground (arith, v.size, v.fits, v.index_in, v.outdex_in, maxlen_bounds)

  -- Storing at the write position extends the window by the event.
  stored :
      (event : ℕ)
      → get_queue_len q < maxlen
      → window
          (set q.events (get_index maxlen q.index) event)
          maxlen
          q.outdex
          (suc (get_queue_len q))
        ≡ contents maxlen q ++ (event ∷ [])
  stored event room =
      let n = get_queue_len q in
      let at : get_index maxlen q.index ≡ (q.outdex + n) % maxlen =
        get_index_lem q.index ∙ ap (λ t. t % maxlen) index_lem ∙ wrap_mod (q.outdex + n) in
      ap (λ t. window (set q.events t event) maxlen q.outdex (suc n)) at
      ∙ window-store q.events maxlen q.outdex n (q.outdex + n) (suc n) (event ∷ [])
          (omega (arith, v.size)) refl (omega arith) room

  len-push :
      (events : List ℕ)
      → get_queue_len q < maxlen
      → get_queue_len (record q { events = events; index = increse_index q.index })
        ≡ suc (get_queue_len q)
  unfolding get_queue_len increse_index
  len-push events room = omega (arith, v.index_in, v.outdex_in, maxlen_bounds)

  -- A full queue refuses the event; otherwise it is the last one then.
  pub push_event-contents :
      (event : ℕ)
      → (get_queue_len q < maxlen)
          × ((push_event maxlen q event).0 ≡ true)
          × (contents maxlen (push_event maxlen q event).1 ≡ contents maxlen q ++ (event ∷ []))
        ⊎ (get_queue_len q ≡ maxlen) × (push_event maxlen q event ≡ (false, q))
  unfolding push_event is_queue_full
  push_event-contents event = elim (dec_lt (get_queue_len q) maxlen) [
    | yes room ↦ rw (lt→leb maxlen (get_queue_len q) room) (
        inl (
          room,
          refl,
          ap (λ n. window (set q.events (get_index maxlen q.index) event) maxlen q.outdex n)
                (len-push (set q.events (get_index maxlen q.index) event) room)
              ∙ stored event room,
        ))
    | no none_left ↦
        rw (le→leb maxlen (get_queue_len q) (omega arith)) (inr (omega (arith, v.fits), refl))
  ]

  first :
      get_queue_len q ≢ 0
      → contents maxlen q
        ≡ get_or q.events (get_index maxlen q.outdex) 0
          ∷ contents maxlen (record q { outdex = increse_index q.outdex })
  unfolding increse_index get_queue_len
  first some_left =
      let n : ℕ = u16 (q.index + 2 ^ 16 - u16 (q.outdex + 1)) in
      let e : get_queue_len q ≡ suc n = omega (arith, v.index_in, v.outdex_in) in
      ap (window q.events maxlen q.outdex) {x = get_queue_len q} {y = suc n} e
      ∙ ap₂ ◌∷◌ (ap (λ t. get_or q.events t 0) (sym (get_index_lem q.outdex))) (
          window_mod q.events maxlen (suc q.outdex) (u16 (q.outdex + 1)) n
            (sym (wrap_mod (q.outdex + 1) ∙ ap (λ t. t % maxlen) {x = q.outdex + 1} (omega arith))))

  -- The event popped is the first one; an empty queue gives NULL and stays.
  pub pop_event-contents :
      (get_queue_len q ≡ 0) × (pop_event maxlen q ≡ (0, q))
      ⊎ (contents maxlen q ≡ (pop_event maxlen q).0 ∷ contents maxlen (pop_event maxlen q).1)
  unfolding pop_event is_queue_empty
  pop_event-contents = elim (ℕ_discrete (get_queue_len q) 0) [
    | yes e ↦ rw ((==_iff (get_queue_len q) 0).1 e) (inl (e, refl))
    | no some_left ↦ rw (==_ne (get_queue_len q) 0 some_left) (inr (first some_left))
  ]
