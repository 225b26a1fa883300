-- ===== src/Metrics.antt =====
-- modules/metrics/src/metrics.c, without METRICS_SCHEMA_IBS: a table of counters that outlives a
-- warm start. The items are those below METRICS_KEY_MAX, and the last one is the magic. A value is
-- the pattern of an `int32_t`. `address` is MAGIC_VALUE, the address of the table. The lock makes
-- the calls a sequence.
pub mod Valid
pub mod Marks
pub mod Collect
mod Tests
use libmcu.Base.{
  ℕ, zero, suc, ◌+◌, ◌-◌, ◌*◌, ◌/◌, ◌^◌, Bool, true, false, not, ◌&&◌, ◌||◌, List, [], ◌∷◌, length,
  get_or, set, ltb, leb, ◌==◌, if◌then◌else◌, u32, Outcome, done, undefined, ◌>>=◌,
}

pub record Metric : Type 0 where
  pub key : ℕ
  pub value : ℕ
  pub is_set : Bool

pub record Metrics : Type 0 where
  pub items : List Metric
  pub magic : Metric

abbrev pub magic_key : ℕ
magic_key = 0xff

-- `a < b` on `int32_t`
abbrev pub ltb_signed : ℕ → ℕ → Bool
ltb_signed a b = ltb (u32 (a + 2 ^ 31)) (u32 (b + 2 ^ 31))

abbrev pub is_negative : ℕ → Bool
is_negative a = leb (2 ^ 31) a

-- `a + b` on `int32_t`, which C leaves undefined where it overflows.
unfoldable pub add_signed : ℕ → ℕ → Outcome ℕ
add_signed a b =
    let sum = u32 (a + b) in
    if is_negative a
    then (if is_negative b && not (is_negative sum) then undefined else done sum)
    else if not (is_negative b) && is_negative sum
    then undefined
    else done sum

unfoldable pub is_valid_key : Metrics → ℕ → Bool
is_valid_key m key = ltb key (length m.items)

-- The assertion on the key may be compiled out, so the guards of the callers are what keeps the
-- magic: it is the item at METRICS_KEY_MAX. A larger key is taken for that one too.
abbrev pub get_obj_from_key : Metrics → ℕ → Metric
get_obj_from_key m key = get_or m.items key m.magic

-- A store through the pointer of `get_obj_from_key`.
abbrev pub put_obj : Metrics → ℕ → Metric → Metrics
put_obj m key p = record m {
  items = set m.items key p;
  magic = if ltb key (length m.items) then m.magic else p;
}

unfoldable pub set_metric_value : Metrics → ℕ → ℕ → Metrics
set_metric_value m key value =
    put_obj m key (record (get_obj_from_key m key) { value = value; is_set = true })

unfoldable pub set_metric_value_if_min : Metrics → ℕ → ℕ → Metrics
set_metric_value_if_min m key value =
    let p = get_obj_from_key m key in
    if not p.is_set || ltb_signed value p.value then set_metric_value m key value else m

unfoldable pub set_metric_value_if_max : Metrics → ℕ → ℕ → Metrics
set_metric_value_if_max m key value =
    let p = get_obj_from_key m key in
    if not p.is_set || ltb_signed p.value value then set_metric_value m key value else m

-- The items from index `i` on, reset.
unfoldable pub reset_items : List Metric → ℕ → List Metric
reset_items [] i = []
reset_items (p ∷ ps) i = record { key = i; value = 0; is_set = false } ∷ reset_items ps (suc i)

unfoldable pub reset_all : Metrics → Metrics
reset_all m = record m { items = reset_items m.items 0 }

unfoldable pub count_metrics_updated : List Metric → ℕ
count_metrics_updated [] = 0
count_metrics_updated (p ∷ ps) =
    let rest = count_metrics_updated ps in if p.is_set then suc rest else rest

unfoldable pub has_keys : List Metric → ℕ → Bool
has_keys [] i = true
has_keys (p ∷ ps) i = let rest = has_keys ps (suc i) in if not (p.key == i) then false else rest

unfoldable pub validate_metrics : ℕ → Metrics → Bool
validate_metrics address m =
    if not (m.magic.key == magic_key) || not (m.magic.value == address)
    then false
    else has_keys m.items 0

unfoldable pub metrics_set : Metrics → ℕ → ℕ → Metrics
metrics_set m key val = if not (is_valid_key m key) then m else set_metric_value m key val

unfoldable pub metrics_set_if_min : Metrics → ℕ → ℕ → Metrics
metrics_set_if_min m key val =
    if not (is_valid_key m key) then m else set_metric_value_if_min m key val

unfoldable pub metrics_set_if_max : Metrics → ℕ → ℕ → Metrics
metrics_set_if_max m key val =
    if not (is_valid_key m key) then m else set_metric_value_if_max m key val

unfoldable pub metrics_set_max_min : Metrics → ℕ → ℕ → ℕ → Metrics
metrics_set_max_min m k_max k_min val =
    if not (is_valid_key m k_max) || not (is_valid_key m k_min)
    then m
    else set_metric_value_if_min (set_metric_value_if_max m k_max val) k_min val

unfoldable pub metrics_get : Metrics → ℕ → ℕ
metrics_get m key = if not (is_valid_key m key) then 0 else (get_obj_from_key m key).value

unfoldable pub metrics_increase_by : Metrics → ℕ → ℕ → Outcome Metrics
metrics_increase_by m key n =
    if not (is_valid_key m key)
    then done m
    else add_signed (get_obj_from_key m key).value n >>= λ val. done (set_metric_value m key val)

unfoldable pub metrics_increase : Metrics → ℕ → Outcome Metrics
metrics_increase m key = metrics_increase_by m key 1

abbrev pub magnitude : ℕ → ℕ
magnitude a = if is_negative a then 2 ^ 32 - a else a

-- `(int32_t)((int64_t)num * 100 / denom)`: the quotient is cut towards zero.
unfoldable pub percentage : ℕ → ℕ → ℕ
percentage num denom =
    let q = u32 (magnitude num * 100 / magnitude denom) in
    if is_negative num
    then (if is_negative denom then q else u32 (2 ^ 32 - q))
    else if is_negative denom
    then u32 (2 ^ 32 - q)
    else q

unfoldable pub metrics_set_pct : Metrics → ℕ → ℕ → ℕ → Metrics
metrics_set_pct m key num denom =
    if not (is_valid_key m key) || denom == 0
    then m
    else set_metric_value m key (percentage num denom)

unfoldable pub metrics_is_set : Metrics → ℕ → Bool
metrics_is_set m key = if not (is_valid_key m key) then false else (get_obj_from_key m key).is_set

unfoldable pub metrics_reset : Metrics → Metrics
metrics_reset m = reset_all m

unfoldable pub metrics_unset : Metrics → ℕ → Metrics
metrics_unset m key =
    let p = get_obj_from_key m key in
    if not (is_valid_key m key)
    then m
    else if p.is_set
    then put_obj m key (record p { value = 0; is_set = false })
    else m

unfoldable pub metrics_count_set : Metrics → ℕ
metrics_count_set m = count_metrics_updated m.items

unfoldable pub metrics_init : ℕ → Metrics → Bool → Metrics
metrics_init address m force =
    let fresh = reset_all m in
    if force || not (validate_metrics address m)
    then record fresh { magic = record fresh.magic { key = magic_key; value = address } }
    else m

-- `metrics_encode_header` and `metrics_encode_each` are the port's: from whether there is a buffer,
-- its size, and what to encode, the bytes written or needed. They may depend on the time or on
-- other state of the port, `W`, and change it.
module _ {W : Type 0} (header each : Bool → ℕ → ℕ → ℕ → W → ℕ × W) where
  unfoldable pub encode_items : Bool → ℕ → List Metric → ℕ → W → ℕ × W
  encode_items has_buf bufsize [] written w = (written, w)
  encode_items has_buf bufsize (p ∷ ps) written w =
      let remaining = if has_buf && ltb written bufsize then bufsize - written else 0 in
      let encoded = if p.is_set then each has_buf remaining p.key p.value w else (0, w) in
      encode_items has_buf bufsize ps (if p.is_set then u32 (written + encoded.0) else written)
        encoded.1

  unfoldable pub encode_all : Bool → ℕ → Metrics → W → ℕ × W
  encode_all has_buf bufsize m w =
      let start = header has_buf bufsize (length m.items) (count_metrics_updated m.items) w in
      encode_items has_buf bufsize m.items start.0 start.1

  unfoldable pub metrics_collect : Metrics → Bool → ℕ → W → ℕ × W
  metrics_collect m has_buf bufsize w = encode_all has_buf bufsize m w

  unfoldable pub metrics_collect_reset : Metrics → Bool → ℕ → W → (ℕ × Metrics) × W
  metrics_collect_reset m has_buf bufsize w =
      let required = encode_all false 0 m w in
      let written = encode_all has_buf bufsize m required.1 in
      if not has_buf || bufsize == 0
      then ((0, m), w)
      else if not (ltb 0 required.0 && leb required.0 bufsize)
      then ((0, m), required.1)
      else if leb required.0 written.0 && leb written.0 bufsize
      then ((written.0, reset_all m), written.1)
      else ((0, m), written.1)

-- The weak encoders of modules/metrics/src/metrics_overrides.c: 4 bytes of key and 4 of value.
unfoldable pub default_header : {W : Type 0} → Bool → ℕ → ℕ → ℕ → W → ℕ × W
default_header has_buf bufsize nr_total nr_updated w = (0, w)

unfoldable pub default_each : {W : Type 0} → Bool → ℕ → ℕ → ℕ → W → ℕ × W
default_each has_buf bufsize key value w =
    (if not has_buf then 8 else if ltb bufsize 8 then 0 else 8, w)

-- The calls that `callback_each` gets, with the key and the value.
unfoldable pub metrics_iterate : List Metric → List (ℕ × ℕ)
metrics_iterate [] = []
metrics_iterate (p ∷ ps) =
    let rest = metrics_iterate ps in if p.is_set then (p.key, p.value) ∷ rest else rest
