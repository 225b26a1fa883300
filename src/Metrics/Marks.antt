-- ===== src/Metrics/Marks.antt =====
-- High and low water marks: what `metrics_set_max_min` makes of a series of values.
use libmcu.Base.{
  get_or, set, ltb, ℕ, ◌<◌, ◌≡◌, ◌≢◌, refl, sym, subst, ap, ◌∙◌, Bool, true, false, not, ◌||◌, List,
  [], ◌∷◌, length, length-set, get_or-set_self, get_or-set_ne, ◌==◌, if◌then◌else◌, arith,
  Bool-cases, inl, inr, lt→ltb,
}
use libmcu.Metrics.{
  Metric, Metrics, ltb_signed, is_valid_key, get_obj_from_key, set_metric_value,
  set_metric_value_if_min, set_metric_value_if_max, metrics_set_max_min, metrics_get,
}

abbrev pub occurs : ℕ → List ℕ → Bool
occurs x [] = false
occurs x (y ∷ ys) = if y == x then true else occurs x ys

-- No value of the list is above, or below, as signed numbers.
abbrev pub IsTop : ℕ → List ℕ → Type 0
IsTop v [] = Unit
IsTop v (x ∷ xs) = (ltb_signed v x ≡ false) × IsTop v xs

abbrev pub IsBottom : ℕ → List ℕ → Type 0
IsBottom v [] = Unit
IsBottom v (x ∷ xs) = (ltb_signed x v ≡ false) × IsBottom v xs

-- Two values of the list, that none is above and none is below.
abbrev pub AreMarks : ℕ → ℕ → List ℕ → Type 0
AreMarks top bottom xs =
    (occurs top xs ≡ true) × IsTop top xs × (occurs bottom xs ≡ true) × IsBottom bottom xs

abbrev pub record_all : Metrics → ℕ → ℕ → List ℕ → Metrics
record_all m k_max k_min [] = m
record_all m k_max k_min (x ∷ xs) = record_all (metrics_set_max_min m k_max k_min x) k_max k_min xs

-- What the two items come to.
abbrev raised : Metric → ℕ → Metric
raised p value =
    if not p.is_set || ltb_signed p.value value
    then record p { value = value; is_set = true }
    else p

abbrev lowered : Metric → ℕ → Metric
lowered p value =
    if not p.is_set || ltb_signed value p.value
    then record p { value = value; is_set = true }
    else p

-- One item changes as said, the others stay.
record Changed (m : Metrics) (key : ℕ) (p : Metric) (m' : Metrics) : Type 0 where
  count : length m'.items ≡ length m.items
  here : get_obj_from_key m' key ≡ p
  others : (j : ℕ) → key ≢ j → get_obj_from_key m' j ≡ get_obj_from_key m j

set_metric_value-Changed :
    (m : Metrics) (key value : ℕ)
    → key < length m.items
    → Changed m key
        (record (get_obj_from_key m key) { value = value; is_set = true })
        (set_metric_value m key value)
unfolding set_metric_value
set_metric_value-Changed m key value within =
    let p : Metric = record (get_obj_from_key m key) { value = value; is_set = true } in
    let magic_kept : (if ltb key (length m.items) then m.magic else p) ≡ m.magic =
      ap (λ b. if b then m.magic else p) (lt→ltb key (length m.items) within) in
    record {
      count = length-set m.items key p;
      here =
          ap (get_or (set m.items key p) key) magic_kept
          ∙ get_or-set_self m.items key p m.magic within;
      others = λ j apart.
          ap (get_or (set m.items key p) j) magic_kept
          ∙ get_or-set_ne m.items key j p m.magic apart;
    }

unchanged : (m : Metrics) (key : ℕ) → Changed m key (get_obj_from_key m key) m
unchanged m key = record { count = refl; here = refl; others = λ j apart. refl }

set_if_max-Changed :
    (m : Metrics) (key value : ℕ)
    → key < length m.items
    → Changed m key (raised (get_obj_from_key m key) value) (set_metric_value_if_max m key value)
unfolding set_metric_value_if_max
set_if_max-Changed m key value within =
    let p = get_obj_from_key m key in
    elim (Bool-cases (not p.is_set || ltb_signed p.value value)) [
      | inl above ↦ rw above (set_metric_value-Changed m key value within)
      | inr below ↦ rw below (unchanged m key)
    ]

set_if_min-Changed :
    (m : Metrics) (key value : ℕ)
    → key < length m.items
    → Changed m key (lowered (get_obj_from_key m key) value) (set_metric_value_if_min m key value)
unfolding set_metric_value_if_min
set_if_min-Changed m key value within =
    let p = get_obj_from_key m key in
    elim (Bool-cases (not p.is_set || ltb_signed value p.value)) [
      | inl below ↦ rw below (set_metric_value-Changed m key value within)
      | inr above ↦ rw above (unchanged m key)
    ]

record Sampled (m : Metrics) (k_max k_min value : ℕ) (m' : Metrics) : Type 0 where
  count : length m'.items ≡ length m.items
  top : get_obj_from_key m' k_max ≡ raised (get_obj_from_key m k_max) value
  bottom : get_obj_from_key m' k_min ≡ lowered (get_obj_from_key m k_min) value

set_max_min-Sampled :
    (m : Metrics) (k_max k_min value : ℕ)
    → k_max < length m.items
    → k_min < length m.items
    → k_max ≢ k_min
    → Sampled m k_max k_min value (metrics_set_max_min m k_max k_min value)
unfolding metrics_set_max_min is_valid_key
set_max_min-Sampled m k_max k_min value max_in min_in apart =
    let m1 = set_metric_value_if_max m k_max value in
    let up = set_if_max-Changed m k_max value max_in in
    let down = set_if_min-Changed m1 k_min value (omega (arith, up.count)) in
    rw (lt→ltb k_max (length m.items) max_in, lt→ltb k_min (length m.items) min_in)
      (record {
        count = down.count ∙ up.count;
        top = down.others k_max (λ e. apart (sym e)) ∙ up.here;
        bottom = down.here ∙ ap (λ p. lowered p value) (up.others k_min apart);
      })

-- One value more, and the mark that comes of the rest of the series.
raise_lem :
    (p : Metric) (x v : ℕ) (xs : List ℕ)
    → p.is_set ≡ true
    → occurs v ((raised p x).value ∷ xs) ≡ true
    → IsTop v ((raised p x).value ∷ xs)
    → (occurs v (p.value ∷ (x ∷ xs)) ≡ true) × IsTop v (p.value ∷ (x ∷ xs))
raise_lem p x v xs e o (first, rest) = (ground arith, (ground arith, (ground arith, rest)))

lower_lem :
    (p : Metric) (x v : ℕ) (xs : List ℕ)
    → p.is_set ≡ true
    → occurs v ((lowered p x).value ∷ xs) ≡ true
    → IsBottom v ((lowered p x).value ∷ xs)
    → (occurs v (p.value ∷ (x ∷ xs)) ≡ true) × IsBottom v (p.value ∷ (x ∷ xs))
lower_lem p x v xs e o (first, rest) = (ground arith, (ground arith, (ground arith, rest)))

-- The marks of a series, where those of the items so far are set.
marks_of :
    (m : Metrics) (k_max k_min : ℕ) (xs : List ℕ)
    → k_max < length m.items
    → k_min < length m.items
    → k_max ≢ k_min
    → (get_obj_from_key m k_max).is_set ≡ true
    → (get_obj_from_key m k_min).is_set ≡ true
    → let hi = (get_obj_from_key m k_max).value in
      let lo = (get_obj_from_key m k_min).value in
      let m' = record_all m k_max k_min xs in
      let top = (get_obj_from_key m' k_max).value in
      let bottom = (get_obj_from_key m' k_min).value in
      (length m'.items ≡ length m.items)
      × (occurs top (hi ∷ xs) ≡ true)
      × IsTop top (hi ∷ xs)
      × (occurs bottom (lo ∷ xs) ≡ true)
      × IsBottom bottom (lo ∷ xs)
marks_of m k_max k_min [] max_in min_in apart max_set min_set =
    (refl, ground arith, (ground arith, tt), ground arith, (ground arith, tt))
marks_of m k_max k_min (x ∷ xs) max_in min_in apart max_set min_set =
    let s = set_max_min-Sampled m k_max k_min x max_in min_in apart in
    let m1 = metrics_set_max_min m k_max k_min x in
    let (n, o1, t1, o2, t2) =
      marks_of m1 k_max k_min xs (omega (arith, s.count)) (omega (arith, s.count)) apart
        (rw s.top (ground arith)) (rw s.bottom (ground arith)) in
    let v = (get_obj_from_key (record_all m1 k_max k_min xs) k_max).value in
    let w = (get_obj_from_key (record_all m1 k_max k_min xs) k_min).value in
    let (o3, t3) =
      raise_lem (get_obj_from_key m k_max) x v xs max_set
        (subst (λ p. occurs v (p.value ∷ xs) ≡ true) s.top o1)
        (subst (λ p. IsTop v (p.value ∷ xs)) s.top t1) in
    let (o4, t4) =
      lower_lem (get_obj_from_key m k_min) x w xs min_set
        (subst (λ p. occurs w (p.value ∷ xs) ≡ true) s.bottom o2)
        (subst (λ p. IsBottom w (p.value ∷ xs)) s.bottom t2) in
    (n ∙ s.count, o3, t3, o4, t4)

metrics_get_lem :
    (m : Metrics) (key : ℕ)
    → key < length m.items
    → metrics_get m key ≡ (get_obj_from_key m key).value
unfolding metrics_get is_valid_key
metrics_get_lem m key within = rw (lt→ltb key (length m.items) within) refl

-- From two items that are not set, a series of values leaves in the first one of its values that no
-- other is above, as signed numbers, and in the second one that no other is below.
pub metrics_set_max_min_lem :
    (m : Metrics) (k_max k_min x : ℕ) (xs : List ℕ)
    → k_max < length m.items
    → k_min < length m.items
    → k_max ≢ k_min
    → (get_obj_from_key m k_max).is_set ≡ false
    → (get_obj_from_key m k_min).is_set ≡ false
    → let m' = record_all m k_max k_min (x ∷ xs) in
      let top = metrics_get m' k_max in
      let bottom = metrics_get m' k_min in AreMarks top bottom (x ∷ xs)
metrics_set_max_min_lem m k_max k_min x xs max_in min_in apart max_unset min_unset =
    let s = set_max_min-Sampled m k_max k_min x max_in min_in apart in
    let m1 = metrics_set_max_min m k_max k_min x in
    let first : get_obj_from_key m1 k_max
        ≡ record (get_obj_from_key m k_max) { value = x; is_set = true } =
      s.top ∙ rw max_unset refl in
    let last : get_obj_from_key m1 k_min
        ≡ record (get_obj_from_key m k_min) { value = x; is_set = true } =
      s.bottom ∙ rw min_unset refl in
    let (n, o1, t1, o2, t2) =
      marks_of m1 k_max k_min xs (omega (arith, s.count)) (omega (arith, s.count)) apart
        (ap (λ p. p.is_set) first) (ap (λ p. p.is_set) last) in
    let m' = record_all m1 k_max k_min xs in
    let v = (get_obj_from_key m' k_max).value in
    let w = (get_obj_from_key m' k_min).value in
    subst (λ top. AreMarks top (metrics_get m' k_min) (x ∷ xs))
      (sym (metrics_get_lem m' k_max (omega (arith, n, s.count))))
      (subst (λ bottom. AreMarks v bottom (x ∷ xs))
        (sym (metrics_get_lem m' k_min (omega (arith, n, s.count))))
        (
          subst (λ p. occurs v (p.value ∷ xs) ≡ true) first o1,
          subst (λ p. IsTop v (p.value ∷ xs)) first t1,
          subst (λ p. occurs w (p.value ∷ xs) ≡ true) last o2,
          subst (λ p. IsBottom w (p.value ∷ xs)) last t2,
        ))
