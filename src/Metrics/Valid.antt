-- ===== src/Metrics/Valid.antt =====
-- The table stays valid under every call, so that a warm start keeps it.
use native.Mathlib.Decide.{dec_lt}
use libmcu.Base.{
  ◌<◌, subst, not, ltb, lt→ltb, le→ltb, if◌then◌else◌, ◌||◌, ◌==◌, ℕ, zero, suc, ◌≡◌, refl, ap, ◌∙◌,
  Bool, true, false, List, [], ◌∷◌, length, get_or, set, length-set, Outcome, done, undefined,
  ◌>>=◌, arith,
}
use libmcu.Metrics.{
  Metric, Metrics, magic_key, is_valid_key, get_obj_from_key, put_obj, metrics_collect_reset,
  add_signed, set_metric_value, set_metric_value_if_min, set_metric_value_if_max, reset_items,
  reset_all, percentage, has_keys, validate_metrics, metrics_set, metrics_set_if_min,
  metrics_set_if_max, metrics_set_max_min, metrics_increase_by, metrics_set_pct, metrics_reset,
  metrics_unset, metrics_init,
}

-- A call that changes the table; one that collects has the state of the encoders at the time.
pub data Call (W : Type 0) : Type 0 where
  set_call min_call max_call increase_call : ℕ → ℕ → Call W
  max_min_call pct_call : ℕ → ℕ → ℕ → Call W
  unset_call : ℕ → Call W
  reset_call : Call W
  collect_reset_call : Bool → ℕ → W → Call W
  init_call : Bool → Call W

module _ {W : Type 0} (header each : Bool → ℕ → ℕ → ℕ → W → ℕ × W) (address : ℕ) where
  unfoldable pub call : Metrics → Call W → Outcome Metrics
  call m (set_call key val) = done (metrics_set m key val)
  call m (min_call key val) = done (metrics_set_if_min m key val)
  call m (max_call key val) = done (metrics_set_if_max m key val)
  call m (increase_call key n) = metrics_increase_by m key n
  call m (max_min_call k_max k_min val) = done (metrics_set_max_min m k_max k_min val)
  call m (pct_call key num denom) = done (metrics_set_pct m key num denom)
  call m (unset_call key) = done (metrics_unset m key)
  call m reset_call = done (metrics_reset m)
  call m (collect_reset_call has_buf bufsize w) =
      done (metrics_collect_reset header each m has_buf bufsize w).0.1
  call m (init_call force) = done (metrics_init address m force)

  unfoldable pub calls : Metrics → List (Call W) → Outcome Metrics
  calls m [] = done m
  calls m (c ∷ cs) = call m c >>= λ m'. calls m' cs

has_keys-set :
    (ps : List Metric) (i k : ℕ) (q other : Metric)
    → q.key ≡ (get_or ps k other).key
    → k < length ps
    → has_keys ps i ≡ true
    → has_keys (set ps k q) i ≡ true
unfolding has_keys
has_keys-set [] i k q other e within h = h
has_keys-set (p ∷ ps) i zero q other e within h = ground arith
has_keys-set (p ∷ ps) i (suc k) q other e within h =
    ground (arith, has_keys-set ps (suc i) k q other e (omega arith))

has_keys-reset_items : (ps : List Metric) (i : ℕ) → has_keys (reset_items ps i) i ≡ true
unfolding has_keys reset_items
has_keys-reset_items [] i = refl
has_keys-reset_items (p ∷ ps) i = ground (arith, has_keys-reset_items ps (suc i))

length-reset_items : (ps : List Metric) (i : ℕ) → length (reset_items ps i) ≡ length ps
unfolding reset_items
length-reset_items [] i = refl
length-reset_items (p ∷ ps) i = ap suc (length-reset_items ps (suc i))

pub record IsValid (address size : ℕ) (m : Metrics) : Type 0 where
  pub magic_set : m.magic.key ≡ magic_key
  pub magic_here : m.magic.value ≡ address
  pub keys : has_keys m.items 0 ≡ true
  pub count : length m.items ≡ size

-- A call that has an outcome leaves a valid table.
abbrev LeavesValid : ℕ → ℕ → Outcome Metrics → Type 0
LeavesValid address size (done m) = IsValid address size m
LeavesValid address size undefined = Unit

bind-LeavesValid :
    (address size : ℕ) {A : Type 0} (o : Outcome A) (f : A → Outcome Metrics)
    → ((a : A) → LeavesValid address size (f a))
    → LeavesValid address size (o >>= f)
bind-LeavesValid address size (done a) f h = h a
bind-LeavesValid address size undefined f h = tt

module _ {address size : ℕ} where
  -- A store below the magic that keeps the key of the item.
  put_obj-IsValid :
      {m : Metrics} (key : ℕ) (q : Metric)
      → key < size
      → q.key ≡ (get_obj_from_key m key).key
      → IsValid address size m
      → IsValid address size (put_obj m key q)
  put_obj-IsValid {m} key q within e v =
      let here : ltb key (length m.items) ≡ true =
        lt→ltb key (length m.items) (omega (arith, v.count)) in
      record {
        magic_set = ap (λ b. (if b then m.magic else q).key) here ∙ v.magic_set;
        magic_here = ap (λ b. (if b then m.magic else q).value) here ∙ v.magic_here;
        keys = has_keys-set m.items 0 key q m.magic e (omega (arith, v.count)) v.keys;
        count = length-set m.items key q ∙ v.count;
      }

  set_metric_value-IsValid :
      {m : Metrics} (key value : ℕ)
      → key < size
      → IsValid address size m
      → IsValid address size (set_metric_value m key value)
  unfolding set_metric_value
  set_metric_value-IsValid {m} key value within v =
      put_obj-IsValid key (record (get_obj_from_key m key) { value = value; is_set = true }) within
        refl v

  set_metric_value_if_min-IsValid :
      {m : Metrics} (key value : ℕ)
      → key < size
      → IsValid address size m
      → IsValid address size (set_metric_value_if_min m key value)
  unfolding set_metric_value_if_min
  set_metric_value_if_min-IsValid key value within v =
      ground (arith, set_metric_value-IsValid key value within v)

  set_metric_value_if_max-IsValid :
      {m : Metrics} (key value : ℕ)
      → key < size
      → IsValid address size m
      → IsValid address size (set_metric_value_if_max m key value)
  unfolding set_metric_value_if_max
  set_metric_value_if_max-IsValid key value within v =
      ground (arith, set_metric_value-IsValid key value within v)

  reset_all-IsValid : {m : Metrics} → IsValid address size m → IsValid address size (reset_all m)
  unfolding reset_all
  reset_all-IsValid {m} v = record {
    magic_set = v.magic_set;
    magic_here = v.magic_here;
    keys = has_keys-reset_items m.items 0;
    count = length-reset_items m.items 0 ∙ v.count;
  }

  -- A guarded change keeps the table valid if it does so for a key of the table.
  guarded :
      {m m1 : Metrics} (key : ℕ)
      → IsValid address size m
      → (key < size → IsValid address size m1)
      → IsValid address size (if not (is_valid_key m key) then m else m1)
  unfolding is_valid_key
  guarded {m} {m1} key v h = elim (dec_lt key (length m.items)) [
    | yes within ↦ rw (lt→ltb key (length m.items) within) (h (omega (arith, v.count)))
    | no beyond ↦ rw (le→ltb key (length m.items) (omega arith)) v
  ]

  both_guards :
      (m m1 : Metrics) (a c : Bool)
      → IsValid address size (if not a then m else if c then m else m1)
      → IsValid address size (if not a || c then m else m1)
  both_guards m m1 true c v = v
  both_guards m m1 false c v = v

  metrics_unset-IsValid :
      {m : Metrics} (key : ℕ) → IsValid address size m → IsValid address size (metrics_unset m key)
  unfolding metrics_unset
  metrics_unset-IsValid {m} key v = guarded key v (λ within.
      unset_if (get_obj_from_key m key).is_set (
        put_obj-IsValid key (record (get_obj_from_key m key) { value = 0; is_set = false }) within
          refl v))
    where
      unset_if :
          {m' : Metrics} (b : Bool)
          → IsValid address size m'
          → IsValid address size (if b then m' else m)
      unset_if true valid = valid
      unset_if false valid = v

  -- Whatever the memory holds, the table is valid after the start.
  metrics_init-IsValid :
      (m : Metrics) (force : Bool)
      → length m.items ≡ size
      → IsValid address size (metrics_init address m force)
  unfolding metrics_init validate_metrics reset_all
  metrics_init-IsValid m force e =
      ground (arith, has_keys-reset_items m.items 0, length-reset_items m.items 0)

  collect_reset-IsValid :
      {W : Type 0} (header each : Bool → ℕ → ℕ → ℕ → W → ℕ × W) {m : Metrics} (has_buf : Bool)
      (bufsize : ℕ) (w : W)
      → IsValid address size m
      → IsValid address size (metrics_collect_reset header each m has_buf bufsize w).0.1
  unfolding metrics_collect_reset
  collect_reset-IsValid header each {m} has_buf bufsize w v = ground (arith, reset_all-IsValid v)

  guarded-LeavesValid :
      {m : Metrics} (o : Outcome Metrics) (key : ℕ)
      → IsValid address size m
      → (key < size → LeavesValid address size o)
      → LeavesValid address size (if not (is_valid_key m key) then done m else o)
  unfolding is_valid_key
  guarded-LeavesValid {m} o key v h = elim (dec_lt key (length m.items)) [
    | yes within ↦ rw (lt→ltb key (length m.items) within) (h (omega (arith, v.count)))
    | no beyond ↦ rw (le→ltb key (length m.items) (omega arith)) v
  ]

  step-LeavesValid :
      (o : Outcome Metrics) (f : Metrics → Outcome Metrics)
      → ((m : Metrics) → IsValid address size m → LeavesValid address size (f m))
      → LeavesValid address size o
      → LeavesValid address size (o >>= f)
  step-LeavesValid (done m) f h v = h m v
  step-LeavesValid undefined f h v = tt

  module _ {W : Type 0} (header each : Bool → ℕ → ℕ → ℕ → W → ℕ × W) where
    call-LeavesValid :
        {m : Metrics} (c : Call W)
        → IsValid address size m
        → LeavesValid address size (call header each address m c)
    unfolding call metrics_set metrics_set_if_min metrics_set_if_max metrics_set_max_min
        metrics_increase_by metrics_set_pct metrics_reset
    call-LeavesValid (set_call key val) v =
        guarded key v (λ within. set_metric_value-IsValid key val within v)
    call-LeavesValid (min_call key val) v =
        guarded key v (λ within. set_metric_value_if_min-IsValid key val within v)
    call-LeavesValid (max_call key val) v =
        guarded key v (λ within. set_metric_value_if_max-IsValid key val within v)
    call-LeavesValid {m} (increase_call key n) v = guarded-LeavesValid _ key v (λ within.
        bind-LeavesValid address size (add_signed (get_obj_from_key m key).value n)
          (λ val. done (set_metric_value m key val))
          (λ val. set_metric_value-IsValid key val within v))
    call-LeavesValid {m} (max_min_call k_max k_min val) v =
        both_guards m _ (is_valid_key m k_max) (not (is_valid_key m k_min)) (
          guarded k_max v (λ a. guarded k_min v (λ b.
            set_metric_value_if_min-IsValid k_min val b
              (set_metric_value_if_max-IsValid k_max val a v))))
    call-LeavesValid {m} (pct_call key num denom) v =
        both_guards m _ (is_valid_key m key) (denom == 0) (
          guarded key v (λ within.
            unless (denom == 0) (set_metric_value-IsValid key (percentage num denom) within v)))
      where
        unless :
            {m1 : Metrics} (b : Bool)
            → IsValid address size m1
            → IsValid address size (if b then m else m1)
        unless true h = v
        unless false h = h
    call-LeavesValid (unset_call key) v = metrics_unset-IsValid key v
    call-LeavesValid reset_call v = reset_all-IsValid v
    call-LeavesValid (collect_reset_call has_buf bufsize w) v =
        collect_reset-IsValid header each has_buf bufsize w v
    call-LeavesValid {m} (init_call force) v = metrics_init-IsValid m force v.count

    calls-LeavesValid :
        {m : Metrics} (cs : List (Call W))
        → IsValid address size m
        → LeavesValid address size (calls header each address m cs)
    unfolding calls
    calls-LeavesValid [] v = v
    calls-LeavesValid {m} (c ∷ cs) v =
        step-LeavesValid (call header each address m c) (λ m'. calls header each address m' cs)
          (λ m' v'. calls-LeavesValid cs v') (call-LeavesValid c v)

-- Whatever the memory holds at the first start, and whatever calls follow in which no sum
-- overflows, a later start that is not forced keeps the whole table.
pub metrics_init_lem :
    {W : Type 0} (header each : Bool → ℕ → ℕ → ℕ → W → ℕ × W) (address : ℕ) (m : Metrics)
    (force : Bool) (cs : List (Call W)) {m' : Metrics}
    → calls header each address (metrics_init address m force) cs ≡ done m'
    → (metrics_init address m' false ≡ m') × (length m'.items ≡ length m.items)
unfolding metrics_init validate_metrics
metrics_init_lem header each address m force cs {m'} e =
    let v : IsValid address (length m.items) m' =
      subst (LeavesValid address (length m.items)) e (
        calls-LeavesValid header each cs (metrics_init-IsValid {address = address} m force refl)) in
    (ground (arith, v.magic_set, v.magic_here, v.keys), v.count)
