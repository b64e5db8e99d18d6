-- ===== src/Tests/LogTests.antt =====
-- Messages logged and written.
use tirpc.Log.{
  execute, ends, flush, rank, waits, info, warn, rpc_log, app_log, AsyncLogger, Logger, Now,
}
use tirpc.Log.Buffers.{Holds, logs, loops, after, after-Holds}
use tirpc.Log.Files.{execute-Writes, flush_lost, texts}
use tirpc.Prelude.{true, false, List, [], ◌∷◌, Bytes, none, ok, ◌≡◌, refl, codes}

abbrev waiting : List (List Bytes) → AsyncLogger
waiting batches = record {
  tasks = batches;
  stop = false;
  max_size = 5;
  no = 0;
  need_reopen = false;
  date = [];
  file = none;
  written = [];
}

abbrev logger : Logger
logger = record {
  rpc_buffer = (7 ∷ []) ∷ [];
  app_buffer = [];
  rpc_logger = waiting (((8 ∷ []) ∷ []) ∷ []);
  app_logger = waiting [];
}

-- A day on which each file is new.
abbrev monday : Now
monday = record { today = codes "20240101"; told = 0; can_open = λ f. true }

after-Holds_example :
    Holds warn info
      (after warn info
        (logs info rpc_log (1 ∷ [])
          ∷ logs warn rpc_log (2 ∷ [])
          ∷ loops
          ∷ logs info app_log (3 ∷ [])
          ∷ [])
        logger)
      ((8 ∷ []) ∷ (7 ∷ []) ∷ (2 ∷ 10 ∷ []) ∷ [])
      ((3 ∷ 10 ∷ []) ∷ [])
unfolding rank
after-Holds_example =
    after-Holds warn info
      (logs info rpc_log (1 ∷ [])
        ∷ logs warn rpc_log (2 ∷ [])
        ∷ loops
        ∷ logs info app_log (3 ∷ [])
        ∷ [])
      logger ((8 ∷ []) ∷ (7 ∷ []) ∷ []) [] (refl, refl)

execute-Writes_example :
    (a : AsyncLogger) × (execute
        (monday ∷ monday ∷ [])
        (waiting (((8 ∷ []) ∷ [] ∷ []) ∷ ((9 ∷ []) ∷ []) ∷ []))
      ≡ ok (waits a))
    × (a.tasks ≡ [])
    × (texts a.written ≡ (8 ∷ []) ∷ (9 ∷ []) ∷ [])
execute-Writes_example =
    execute-Writes (monday ∷ monday ∷ []) (((8 ∷ []) ∷ [] ∷ []) ∷ ((9 ∷ []) ∷ []) ∷ [])
      (waiting (((8 ∷ []) ∷ [] ∷ []) ∷ ((9 ∷ []) ∷ []) ∷ [])) ((λ f. refl), ((λ f. refl), tt)) refl
      refl refl

flush_lost_example :
    (a : AsyncLogger) × (execute (monday ∷ monday ∷ []) (flush logger).rpc_logger ≡ ok (ends a))
    × (a.tasks ≡ ((7 ∷ []) ∷ []) ∷ [])
    × (texts a.written ≡ (8 ∷ []) ∷ [])
flush_lost_example =
    flush_lost monday (monday ∷ []) ((8 ∷ []) ∷ []) [] (7 ∷ []) [] logger (λ f. refl) refl refl
