-- ===== src/Logging/Tests.antt =====
-- Runs of the logging at concrete inputs.
use libmcu.Base.{
  ℕ, suc, ◌-◌, ◌≤◌, ◌<◌, min, ◌≡◌, ◌⊎◌, refl, Option, none, some, List, [], ◌∷◌, ◌++◌, length, take,
  drop, replicate, u32, errno, arith, done, undefined, length-append, length-take, length-drop,
}
use libmcu.Logging.{Log, Backend, Logging, null_tag, logging_write, pack_message}
use libmcu.Logging.Levels.{
  logging_init, logging_add_backend, logging_remove_backend, logging_iterate_tag, iterate_tags,
}
use libmcu.Logging.Stringify.{TypeName, logging_stringify}
use libmcu.Logging.Table.{TagMap, holding}
use libmcu.Logging.Refine.{set_tag, get_tag, set_global, count, logging_run, tags_run_lem}
use libmcu.Logging.Backends.{in_use, logging_add_backend_lem}
use libmcu.Logging.Write.{Given, IsFor, plus_header, logging_write_lem}
use libmcu.Logging.Message.{IsVsnprintf, pack_message_lem}
use libmcu.Logging.Text.{IsSnprintf, logging_stringify_lem}

abbrev noting : ℕ → Backend Given
noting a = record {
  address = a;
  write = some (λ log size w. (size - a, w ++ ((a, log, size) ∷ [])));
  peek = none;
  read = none;
  consume = none;
  count = none;
}

-- Two tags and two backends.
abbrev logging : Logging Given
logging = record {
  tags = replicate 2 null_tag;
  global_tag = null_tag;
  backends = some (noting 1) ∷ none ∷ some (noting 3) ∷ [];
  time = some (λ w. 5);
  buf = replicate 80 7;
  buf_with_backend = replicate 80 0;
}

tags_run_lem_example :
    (logging_run (logging_init logging none) (
      set_tag 10 3
      ∷ get_tag 20
      ∷ set_tag 30 4
      ∷ set_global 1
      ∷ set_tag 10 9
      ∷ get_tag 30
      ∷ get_tag 10
      ∷ count
      ∷ [])).0
    ≡ 0 ∷ 0 ∷ 0 ∷ 0 ∷ 0 ∷ 1 ∷ 3 ∷ 2 ∷ []
tags_run_lem_example = tags_run_lem logging none (
    set_tag 10 3
    ∷ get_tag 20
    ∷ set_tag 30 4
    ∷ set_global 1
    ∷ set_tag 10 9
    ∷ get_tag 30
    ∷ get_tag 10
    ∷ count
    ∷ [])

-- A formatted text is a list of bytes.
abbrev format : List ℕ → ℕ → List ℕ → ℕ × List ℕ
format text size buf =
    let n = min (length text) (size - 1) in
    (u32 (length text), take n text ++ (0 ∷ drop (suc n) buf))

format-IsVsnprintf : IsVsnprintf format (λ text. text)
format-IsVsnprintf = record {
  returns = λ args size buf. refl;
  stores = λ args size buf some_room within. refl;
}

-- The tag 10 is at level 2, the global level 1.
abbrev levels : TagMap
levels = record { levels = (10, 2) ∷ []; free = 1; global_level = 1 }

-- Each backend returns the size less its address.
logging_write_lem_example :
    (log : Log) × IsFor format log levels 2 10 100 200 5 (some (1 ∷ 2 ∷ 3 ∷ [])) (logging).buf
    × (logging_write format
          (holding logging levels)
          2
          (record { tag = some 10; pc = 100; lr = 200 })
          (some (1 ∷ 2 ∷ 3 ∷ []))
          []
        ≡ done (
          (
            plus_header log.message_length - 3,
            record (holding logging levels) { buf = log.message },
          ),
          (1, log, plus_header log.message_length) ∷ (3, log, plus_header log.message_length) ∷ [],
        ))
logging_write_lem_example =
    logging_write_lem format logging (λ a size. size - a) (refl, (refl, tt)) levels 2 10 100 200
      (some (1 ∷ 2 ∷ 3 ∷ [])) []

logging_add_backend_lem_example :
    let (rc, m') = logging_add_backend logging (some (noting 2)) in
    ((rc ≡ 0)
      × (in_use m'.backends ≡ 3)
      × (length m'.backends ≡ 3)
      × (logging_remove_backend m' (some (noting 2)) ≡ (0, logging)))
    ⊎ ((in_use (logging).backends ≡ length (logging).backends) × (rc ≡ errno 28) × (m' ≡ logging))
logging_add_backend_lem_example = logging_add_backend_lem logging (noting 2) refl (refl, (refl, tt))

abbrev blank_log : Log
blank_log = record {
  timestamp = 0;
  pc = 0;
  lr = 0;
  magic = 0;
  message_length = 0;
  type = 1;
  tag = none;
  message = replicate 80 7;
}

pack_message_lem_example :
    let log' = pack_message format (some (replicate 100 1)) blank_log in
    (100 ≤ 78 → take log'.message_length log'.message ≡ replicate 100 1)
    × (78 < 100 → (log'.message_length ≡ 80) × (log'.message ≡ replicate 78 1 ++ (0 ∷ 7 ∷ [])))
pack_message_lem_example =
    pack_message_lem format-IsVsnprintf (replicate 100 1) blank_log refl (omega arith)

-- A line of 4 bytes, whatever the log.
abbrev nines : List ℕ
nines = 9 ∷ 9 ∷ 9 ∷ 9 ∷ 0 ∷ []

abbrev print_line : ℕ → ℕ × TypeName × Option ℕ → List ℕ → ℕ × List ℕ
print_line size args buf = (4, take (length buf) nines ++ drop 5 buf)

abbrev short_log : Log
short_log = record blank_log { message_length = 3 }

logging_stringify_lem_example :
    (4 < 6
      → (b : List ℕ) × (logging_stringify print_line (replicate 6 0) 6 short_log none ≡ done (5, b))
        × (length b ≡ 6))
    × (6 ≤ 4 → logging_stringify print_line (replicate 6 0) 6 short_log none ≡ undefined)
logging_stringify_lem_example =
    logging_stringify_lem print_line-IsSnprintf (replicate 6 0) short_log none (omega arith)
      (omega arith) (omega arith) (omega arith) (omega arith) (omega arith) (omega arith)
  where
    print_line-IsSnprintf : IsSnprintf print_line (λ args. 9 ∷ 9 ∷ 9 ∷ 9 ∷ [])
    print_line-IsSnprintf = record {
      returns = λ size args buf. refl;
      keeps = λ size args buf. omega (
        arith,
        length-append (take (length buf) nines) (drop 5 buf),
        length-take (length buf) nines,
        length-drop 5 buf,
      );
    }

-- The levels that a callback is shown.
iterate_test :
    logging_iterate_tag (holding logging levels) (λ tag level seen. level ∷ seen) [] ≡ 2 ∷ []
unfolding logging_iterate_tag iterate_tags
iterate_test = refl
