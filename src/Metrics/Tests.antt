-- ===== src/Metrics/Tests.antt =====
-- A table of three metrics, with the weak encoders.
use libmcu.Base.{
  ◌+◌, ◌≤◌, ◌<◌, ◌⊎◌, ap, ltb, ◌&&◌, le→ltb, if◌then◌else◌, ℕ, ◌-◌, ◌^◌, ◌≡◌, refl, Bool, true,
  false, [], ◌∷◌, length, arith,
}
use libmcu.Metrics.{
  count_metrics_updated, Metric, Metrics, add_signed, is_valid_key, set_metric_value, reset_items,
  reset_all, validate_metrics, metrics_set, metrics_get, metrics_increase_by, metrics_init,
  metrics_collect_reset, percentage, default_header, default_each,
}
use libmcu.Metrics.Valid.{set_call, increase_call, call, calls, metrics_init_lem}
use libmcu.Metrics.Marks.{AreMarks, record_all, metrics_set_max_min_lem}
use libmcu.Metrics.Collect.{IsEncoder, metrics_collect_reset_lem}

abbrev metric : ℕ → ℕ → Bool → Metric
metric key value is_set = record { key = key; value = value; is_set = is_set }

abbrev garbage : Metrics
garbage = record {
  items = metric 9 9 true ∷ metric 9 9 true ∷ metric 9 9 true ∷ [];
  magic = metric 1 2 false;
}

abbrev fresh : Metrics
fresh = record {
  items = metric 0 0 false ∷ metric 1 0 false ∷ metric 2 0 false ∷ [];
  magic = metric 255 4096 false;
}

abbrev counted : Metrics
counted = record {
  items = metric 0 0 false ∷ metric 1 7 true ∷ metric 2 0 false ∷ [];
  magic = metric 255 4096 false;
}

metrics_init_lem_example : (metrics_init 4096 counted false ≡ counted) × (length counted.items ≡ 3)
unfolding calls call metrics_init validate_metrics reset_all reset_items metrics_set
    metrics_increase_by add_signed is_valid_key set_metric_value
metrics_init_lem_example =
    metrics_init_lem {W = Unit} default_header default_each 4096 garbage false
      (set_call 1 5 ∷ increase_call 1 2 ∷ []) refl

metrics_set_max_min_lem_example :
    AreMarks
      (metrics_get (record_all fresh 0 2 (5 ∷ 4294967295 ∷ 3 ∷ [])) 0)
      (metrics_get (record_all fresh 0 2 (5 ∷ 4294967295 ∷ 3 ∷ [])) 2)
      (5 ∷ 4294967295 ∷ 3 ∷ [])
metrics_set_max_min_lem_example =
    metrics_set_max_min_lem fresh 0 2 5 (4294967295 ∷ 3 ∷ []) (omega arith) (omega arith)
      (omega arith) refl refl

default_header-IsEncoder : IsEncoder (default_header {W = ℕ})
unfolding default_header
default_header-IsEncoder = record { enough = λ room a b w h. refl }

-- An encoder that needs a byte more each time that it is called.
abbrev growing : Bool → ℕ → ℕ → ℕ → ℕ → ℕ × ℕ
growing has_buf bufsize key value w = (if has_buf && ltb bufsize (8 + w) then 0 else 8 + w, w + 1)

growing-IsEncoder : IsEncoder growing
growing-IsEncoder = record {
  enough = λ room a b w h. ap (λ x. (if x then 0 else 8 + w, w + 1)) (le→ltb room (8 + w) h);
}

-- The table needs 8 bytes when it is measured, and 9 when it is encoded.
metrics_collect_reset_lem_example :
    let out = (metrics_collect_reset default_header growing counted true 16 0).0 in
    (true ≡ false) × (out ≡ (0, counted))
    ⊎ (true ≡ true) × (9 ≤ 16) × (out ≡ (9, fresh))
    ⊎ (true ≡ true)
      × (16 < 9)
      × ((out ≡ (0, counted)) ⊎ (8 ≤ out.0) × (out.0 ≤ 16) × (out.1 ≡ fresh))
unfolding default_header reset_all reset_items count_metrics_updated
metrics_collect_reset_lem_example =
    metrics_collect_reset_lem default_header growing default_header-IsEncoder growing-IsEncoder
      counted 16 0 (omega arith) (omega arith)

-- Half of -3, cut towards zero.
cuts : percentage (2 ^ 32 - 3) 200 ≡ 2 ^ 32 - 1
unfolding percentage
cuts = refl
