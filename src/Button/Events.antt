-- ===== src/Button/Events.antt =====
-- The events that a button reports, and the clock that its steps keep.
use libmcu.Base.{
  ℕ, ◌/◌, ◌%◌, ◌^◌, ◌≤◌, ◌<◌, ◌≡◌, refl, ap, sym, subst, ◌∙◌, Bool, true, false, not, Option, none,
  some, List, [], ◌∷◌, ◌==◌, ==_ne, ==_iff, if◌then◌else◌, sub32, ltb, arith,
}
use native.Mathlib.Decide.{ℕ_discrete}
use mathlib.Core.Option.{some-injective}
use native.Mathlib.Nat.{mod-lt, mod-le}
use libmcu.Button.{
  Button, ButtonError, no_error, disabled, ButtonState, unknown, pressed_state, released, holding,
  Event, report, is_button_pressed, is_button_released, is_button_down, update_state,
  process_pressed, process_released, process_holding, classify, note_state, reset_clicks,
  process_samples, process_button, button_step,
}

-- Where a reported state leads from not pressed or pressed; `none` is a report out of place.
abbrev pub next_pressed : Bool → ButtonState → Option Bool
next_pressed p unknown = some p
next_pressed false pressed_state = some true
next_pressed true released = some false
next_pressed true holding = some true
next_pressed p s = none

classify_next :
    (b : Button) (t : ℕ) → next_pressed b.pressed (classify b t).0 ≡ some (classify b t).1.pressed
unfolding classify process_pressed process_released process_holding is_button_pressed
    is_button_released is_button_down
classify_next b t = ground arith

pressed-rest :
    (s : ButtonState) (b : Button) (t : ℕ) → (note_state s (reset_clicks b t)).pressed ≡ b.pressed
unfolding reset_clicks
pressed-rest s b t = ground arith

pressed-process_samples :
    (b : Button) (levels : ℕ → Bool) (n t : ℕ)
    → next_pressed b.pressed (process_samples b levels n t).0
      ≡ some (process_samples b levels n t).1.pressed
unfolding process_samples update_state
pressed-process_samples b levels n t =
    let b' = update_state b levels n in
    classify_next b' t ∙ ap some (sym (pressed-rest (classify b' t).0 (classify b' t).1 t))

process_button_next :
    (b : Button) (levels : ℕ → Bool) (t : ℕ)
    → next_pressed b.pressed (process_button b levels t).0
      ≡ some (process_button b levels t).1.pressed
unfolding process_button
process_button_next b levels t =
    by_test (elapsed / period == 0) (ltb b.param.sampling_timeout_ms elapsed)
      (process_samples (record b { timestamp = corrected }) levels 1 corrected)
      (process_samples b levels (elapsed / period) corrected)
      (pressed-process_samples (record b { timestamp = corrected }) levels 1 corrected)
      (pressed-process_samples b levels (elapsed / period) corrected)
  where
    period : ℕ
    period = b.param.sampling_period_ms

    elapsed : ℕ
    elapsed = sub32 t b.timestamp

    corrected : ℕ
    corrected = sub32 t (elapsed % period)

    by_test :
        (idle late : Bool) (x y : ButtonState × Button)
        → next_pressed b.pressed x.0 ≡ some x.1.pressed
        → next_pressed b.pressed y.0 ≡ some y.1.pressed
        → let out : ButtonState × Button = if idle then (unknown, b) else if late then x else y in
          next_pressed b.pressed out.0 ≡ some out.1.pressed
    by_test true late x y h k = refl
    by_test false true x y h k = h
    by_test false false x y h k = k

-- The kinds of the events that a sequence of steps reports: each step with the levels that it
-- would sample and its time.
pub reported : Button → List ((ℕ → Bool) × ℕ) → List ButtonState
reported b [] = []
reported b ((levels, t) ∷ steps) =
    let (out, b') = button_step b levels t in
    let rest = reported b' steps in elim out.1 [ none ↦ rest | some e ↦ e.kind ∷ rest ]

-- Presses and releases take turns, and holding is reported only between a press and its release.
pub alternates : Bool → List ButtonState → Bool
alternates p [] = true
alternates p (s ∷ ss) = elim (next_pressed p s) [ none ↦ false | some q ↦ alternates q ss ]

-- What a step reports and the button that it leaves agree with the order of the events.
data StepShape (b : Button) : (ButtonError × Option Event) × Button → Type 0 where
  silent : {e : ButtonError} {b' : Button} → b'.pressed ≡ b.pressed → StepShape b ((e, none), b')
  event :
      {e : ButtonError} {b' : Button} (v : Event)
      → next_pressed b.pressed v.kind ≡ some b'.pressed
      → StepShape b ((e, some v), b')

report_shape :
    (b b' : Button) (e : ButtonError) (s : ButtonState)
    → next_pressed b.pressed s ≡ some b'.pressed
    → StepShape b ((e, report s b'), b')
report_shape b b' e unknown h = silent (sym (some-injective _ _ h))
report_shape b b' e pressed_state h = event _ h
report_shape b b' e released h = event _ h
report_shape b b' e holding h = event _ h

button_step-StepShape :
    (b : Button) (levels : ℕ → Bool) (t : ℕ) → StepShape b (button_step b levels t)
unfolding button_step
button_step-StepShape b levels t = by_active b.active (process_button b levels t) (
    report_shape b (process_button b levels t).1 no_error (process_button b levels t).0
      (process_button_next b levels t))
  where
    by_active :
        (on : Bool) (out : ButtonState × Button)
        → StepShape b ((no_error, report out.0 out.1), out.1)
        → StepShape b
            (if not on then ((disabled, none), b) else ((no_error, report out.0 out.1), out.1))
    by_active true out h = h
    by_active false out h = silent refl

-- Whatever the samples and the times, the events of a button take turns: a press, any number of
-- holdings, its release, and again.
pub reported-alternates :
    (steps : List ((ℕ → Bool) × ℕ)) (b : Button) → alternates b.pressed (reported b steps) ≡ true
unfolding reported alternates
reported-alternates [] b = refl
reported-alternates ((levels, t) ∷ steps) b =
    go (button_step-StepShape b levels t) (reported-alternates steps (button_step b levels t).1)
  where
    go :
        {out : (ButtonError × Option Event) × Button}
        → StepShape b out
        → alternates out.1.pressed (reported out.1 steps) ≡ true
        → alternates b.pressed
            (elim out.0.1 [ none ↦ reported out.1 steps | some e ↦ e.kind ∷ reported out.1 steps ])
          ≡ true
    go {out} (silent e) h = subst (λ p. alternates p (reported out.1 steps) ≡ true) e h
    go (event v e) h = rw (e, alternates) h

phase_bound :
    (t ts period : ℕ) → 0 < period → t < 2 ^ 32 → sub32 t (sub32 t (sub32 t ts % period)) < period
phase_bound t ts period h ht = omega (arith, back, mod-lt (sub32 t ts) h)
  where
    small : sub32 t ts % period ≤ sub32 t ts
    small = mod-le (sub32 t ts) period

    back : sub32 t (sub32 t (sub32 t ts % period)) ≡ sub32 t ts % period
    back = undo t (sub32 t ts % period) ht (omega (arith, small))
      where
        undo : (t r : ℕ) → t < 2 ^ 32 → r < 2 ^ 32 → sub32 t (sub32 t r) ≡ r
        undo t r p q = omega arith

-- A step never lets the button's clock fall a whole sampling period behind: the time that its
-- samples do not cover is less than one period, and is carried over to the next step.
process_button_phase :
    (b : Button) (levels : ℕ → Bool) (t : ℕ)
    → 0 < b.param.sampling_period_ms
    → t < 2 ^ 32
    → sub32 t (process_button b levels t).1.timestamp < b.param.sampling_period_ms
unfolding process_button process_samples
process_button_phase b levels t h ht = elim (ℕ_discrete (elapsed / period) 0) [
  | yes idle ↦ rw ((==_iff (elapsed / period) 0).1 idle) (within elapsed period h idle)
  | no busy ↦
      rw (==_ne (elapsed / period) 0 busy) (by_late (ltb b.param.sampling_timeout_ms elapsed))
]
  where
    period : ℕ
    period = b.param.sampling_period_ms

    elapsed : ℕ
    elapsed = sub32 t b.timestamp

    corrected : ℕ
    corrected = sub32 t (elapsed % period)

    within : (e p : ℕ) → 0 < p → e / p ≡ 0 → e < p
    within e p q z = grind arith

    by_late :
        (late : Bool)
        → let out : ButtonState × Button =
            if late
            then process_samples (record b { timestamp = corrected }) levels 1 corrected
            else process_samples b levels (elapsed / period) corrected in
          sub32 t out.1.timestamp < period
    by_late true = phase_bound t b.timestamp period h ht
    by_late false = phase_bound t b.timestamp period h ht
