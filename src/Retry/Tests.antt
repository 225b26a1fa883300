-- ===== src/Retry/Tests.antt =====
-- A retry of three attempts, and one that doubles without end.
use libmcu.Base.{◌<◌, ◌≤◌, ◌≡◌, ◌⊎◌, none, some, [], ◌∷◌, arith}
use libmcu.Retry.{Retry, RetryParam, no_error, exhausted, backoff}
use libmcu.Retry.Backoff.{IsValid, backoff-IsValid, granted, granted_lem}

abbrev limited : Retry
limited = record {
  param = record {
    max_attempts = 3;
    min_backoff_ms = 100;
    max_backoff_ms = 1000;
    max_jitter_ms = 50;
  };
  attempts = 1;
  previous_backoff_ms = 100;
}

abbrev endless : RetryParam
endless = record {
  max_attempts = 0;
  min_backoff_ms = 100;
  max_backoff_ms = 1000;
  max_jitter_ms = 0;
}

limited-IsValid : IsValid limited
limited-IsValid = record {
  limit = omega arith;
  order = omega arith;
  jitter = omega arith;
  bounded = omega arith;
}

backoff-IsValid_example :
    let ((e, t), r') = backoff limited 77 in
    (((limited).param.max_attempts ≡ 0) ⊎ ((limited).attempts < (limited).param.max_attempts))
      × (e ≡ no_error)
      × (t ≡ some r'.previous_backoff_ms)
      × (r'.previous_backoff_ms ≤ 1000)
      × IsValid r'
    ⊎ (0 < (limited).param.max_attempts)
      × ((limited).param.max_attempts ≤ (limited).attempts)
      × (e ≡ exhausted)
      × (t ≡ none)
      × (r' ≡ limited)
backoff-IsValid_example = backoff-IsValid 77 limited-IsValid

granted_lem_example : granted limited (1 ∷ 2 ∷ 3 ∷ 4 ∷ []) ≡ 2
granted_lem_example =
    granted_lem (1 ∷ 2 ∷ 3 ∷ 4 ∷ []) limited (omega arith) (omega arith) (omega arith)
