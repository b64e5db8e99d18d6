-- ===== src/Log/Buffers.antt =====
-- The way of a message from a buffer of the Logger into the queue of its AsyncLogger.
use tirpc.Log.{
  LogLevel, LogType, app_log, rpc_log, rank, AsyncLogger, Logger, push_rpc_log, push_app_log,
  log_event, push_batch, loop_func,
}
use tirpc.Prelude.{
  true, false, List, [], ◌∷◌, ◌++◌, if◌then◌else◌, leb, Bytes, ◌≡◌, refl, sym, ap, ◌∙◌, append-nil,
  append_assoc,
}

abbrev pub concat : List (List Bytes) → List Bytes
concat [] = []
concat (b ∷ bs) = b ++ concat bs

-- What was logged and is not yet written, oldest first.
abbrev pub unwritten : AsyncLogger → List Bytes → List Bytes
unwritten a buffer = concat a.tasks ++ buffer

pub data Call : Type 0 where
  logs : LogLevel → LogType → Bytes → Call
  loops : Call

-- The calls of a thread, under the two levels of the configuration.
abbrev pub called : LogLevel → LogLevel → Call → Logger → Logger
called rpc app (logs level type text) l = log_event rpc app level type text l
called rpc app loops l = loop_func l

abbrev pub after : LogLevel → LogLevel → List Call → Logger → Logger
after rpc app [] l = l
after rpc app (c ∷ calls) l = after rpc app calls (called rpc app c l)

-- The messages of a type that the level lets through, each with its line feed.
abbrev pub passed : LogLevel → LogType → LogLevel → LogType → Bytes → List Bytes
passed least rpc_log level rpc_log text =
    if leb (rank least) (rank level) then (text ++ (10 ∷ [])) ∷ [] else []
passed least app_log level app_log text =
    if leb (rank least) (rank level) then (text ++ (10 ∷ [])) ∷ [] else []
passed least rpc_log level app_log text = []
passed least app_log level rpc_log text = []

abbrev pub all_passed : LogLevel → LogType → List Call → List Bytes
all_passed least type [] = []
all_passed least type (logs level t text ∷ calls) =
    passed least type level t text ++ all_passed least type calls
all_passed least type (loops ∷ calls) = all_passed least type calls

concat-append : (xs ys : List (List Bytes)) → concat (xs ++ ys) ≡ concat xs ++ concat ys
concat-append [] ys = refl
concat-append (x ∷ xs) ys = rw (concat-append xs ys) (sym (append_assoc x (concat xs) (concat ys)))

-- A batch that is pushed goes from the buffer to the end of the queue.
push_batch-unwritten :
    (buffer : List Bytes) (a : AsyncLogger)
    → unwritten (push_batch buffer a) [] ≡ unwritten a buffer
unfolding push_batch
push_batch-unwritten [] a = refl
push_batch-unwritten (m ∷ ms) a = simp (concat-append, append-nil)

module _ (rpc app : LogLevel) where
  -- The pairs of what is unwritten.
  abbrev pub Holds : Logger → List Bytes → List Bytes → Type 0
  Holds l rs as' =
      (unwritten l.rpc_logger l.rpc_buffer ≡ rs) × (unwritten l.app_logger l.app_buffer ≡ as')

  -- A message that passes its level joins what is unwritten of its type.
  log_event-Holds :
      (level : LogLevel) (type : LogType) (text : Bytes) (l : Logger) (rs xs : List Bytes)
      → Holds l rs xs
      → Holds
          (log_event rpc app level type text l)
          (rs ++ passed rpc rpc_log level type text)
          (xs ++ passed app app_log level type text)
  unfolding log_event push_rpc_log push_app_log
  log_event-Holds level rpc_log text l rs xs (h, k) =
      elim (leb (rank rpc) (rank level))
        as (λ b.
          Holds (if b then push_rpc_log (text ++ (10 ∷ [])) l else l)
            (rs ++ (if b then (text ++ (10 ∷ [])) ∷ [] else [])) (xs ++ [])) [
              | true ↦ (
                sym (
                      append_assoc (concat l.rpc_logger.tasks) l.rpc_buffer
                        ((text ++ (10 ∷ [])) ∷ []))
                    ∙ ap (λ ms. ms ++ ((text ++ (10 ∷ [])) ∷ [])) h,
                k ∙ sym (append-nil xs),
              )
              | false ↦ (h ∙ sym (append-nil rs), k ∙ sym (append-nil xs))
            ]
  log_event-Holds level app_log text l rs xs (h, k) =
      elim (leb (rank app) (rank level))
        as (λ b.
          Holds (if b then push_app_log (text ++ (10 ∷ [])) l else l) (rs ++ [])
            (xs ++ (if b then (text ++ (10 ∷ [])) ∷ [] else []))) [
              | true ↦ (
                h ∙ sym (append-nil rs),
                sym (
                      append_assoc (concat l.app_logger.tasks) l.app_buffer
                        ((text ++ (10 ∷ [])) ∷ []))
                    ∙ ap (λ ms. ms ++ ((text ++ (10 ∷ [])) ∷ [])) k,
              )
              | false ↦ (h ∙ sym (append-nil rs), k ∙ sym (append-nil xs))
            ]

  loop_func-Holds : (l : Logger) (rs xs : List Bytes) → Holds l rs xs → Holds (loop_func l) rs xs
  unfolding loop_func
  loop_func-Holds l rs xs (h, k) = (
    push_batch-unwritten l.rpc_buffer l.rpc_logger ∙ h,
    push_batch-unwritten l.app_buffer l.app_logger ∙ k,
  )

  -- Whatever a thread logs, and whenever the timer moves the buffers into the queues: what is unwritten of
  -- each type is what was unwritten before followed by the messages of that type that pass the level, in
  -- their order, none lost and none twice.
  pub after-Holds :
      (calls : List Call) (l : Logger) (rs xs : List Bytes)
      → Holds l rs xs
      → Holds
          (after rpc app calls l)
          (rs ++ all_passed rpc rpc_log calls)
          (xs ++ all_passed app app_log calls)
  after-Holds [] l rs xs (h, k) = (h ∙ sym (append-nil rs), k ∙ sym (append-nil xs))
  after-Holds (logs level type text ∷ calls) l rs xs h =
      let rest =
        after-Holds calls (log_event rpc app level type text l)
          (rs ++ passed rpc rpc_log level type text) (xs ++ passed app app_log level type text)
          (log_event-Holds level type text l rs xs h) in
      (
        rest.0
            ∙ append_assoc rs (passed rpc rpc_log level type text) (all_passed rpc rpc_log calls),
        rest.1
            ∙ append_assoc xs (passed app app_log level type text) (all_passed app app_log calls),
      )
  after-Holds (loops ∷ calls) l rs xs h =
      after-Holds calls (loop_func l) rs xs (loop_func-Holds l rs xs h)
