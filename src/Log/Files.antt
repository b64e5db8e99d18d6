-- ===== src/Log/Files.antt =====
-- What the thread of an AsyncLogger writes of the batches in its queue.
use tirpc.Log.{
  AsyncLogger, Logger, push_batch, loop_func, stop_logger, flush, Now, fopen, new_day, reopen,
  rotate, is_blank, write_one, write_all, waits, ends, goes, write_batch, execute_round, go_on,
  execute,
}
use tirpc.Log.Buffers.{concat}
use tirpc.Prelude.{
  ℕ, suc, ◌+◌, true, false, List, [], ◌∷◌, ◌++◌, none, some, if◌then◌else◌, ltb, Bytes, same_text,
  ok, ◌>>=◌, ◌≡◌, refl, sym, ap, ◌∙◌, append-nil, append_assoc, arith,
}

abbrev pub texts : List ((Bytes × ℕ) × Bytes) → List Bytes
texts [] = []
texts ((f, m) ∷ ws) = m ∷ texts ws

abbrev pub not_blank : List Bytes → List Bytes
not_blank [] = []
not_blank (m ∷ ms) = if is_blank m then not_blank ms else m ∷ not_blank ms

abbrev pub AllOpen : Now → Type 0
AllOpen now = (f : Bytes × ℕ) → now.can_open f ≡ true

abbrev pub EachOpen : List Now → Type 0
EachOpen [] = Unit
EachOpen (now ∷ rounds) = AllOpen now × EachOpen rounds

abbrev pub count : {A : Type 0} → List A → ℕ
count [] = 0
count (x ∷ xs) = suc (count xs)

-- A step that ends with a file open, and with the queue, the flag and what was written as they were.
abbrev Opens : AsyncLogger → AsyncLogger → Type 0
Opens a a' =
    ((f : Bytes × ℕ) × a'.file ≡ some f)
    × (a'.tasks ≡ a.tasks)
    × (a'.stop ≡ a.stop)
    × (a'.written ≡ a.written)

-- A step that writes the messages `ms` and leaves the queue and the flag.
abbrev pub Writes : List Bytes → AsyncLogger → AsyncLogger → Type 0
Writes ms a a' =
    (a'.tasks ≡ a.tasks) × (a'.stop ≡ a.stop) × (texts a'.written ≡ texts a.written ++ ms)

texts-append : (us vs : List ((Bytes × ℕ) × Bytes)) → texts (us ++ vs) ≡ texts us ++ texts vs
texts-append [] vs = refl
texts-append ((f, m) ∷ us) vs = ap (λ ms. m ∷ ms) (texts-append us vs)

not_blank-append : (us vs : List Bytes) → not_blank (us ++ vs) ≡ not_blank us ++ not_blank vs
not_blank-append [] vs = refl
not_blank-append ([] ∷ us) vs = not_blank-append us vs
not_blank-append ((c ∷ m) ∷ us) vs = ap (λ ms. (c ∷ m) ∷ ms) (not_blank-append us vs)

-- What one file takes of a batch.
write_all-Writes :
    (ms : List Bytes) (a : AsyncLogger) (f : Bytes × ℕ)
    → a.file ≡ some f
    → (a' : AsyncLogger) × write_all ms a ≡ ok a' × Writes (not_blank ms) a a'
unfolding write_all write_one
write_all-Writes [] a f h = (a, refl, (refl, refl, sym (append-nil (texts a.written))))
write_all-Writes ([] ∷ ms) a f h = write_all-Writes ms a f h
write_all-Writes ((c ∷ m) ∷ ms) a f h =
    let (a', e, (t, s, w)) =
      write_all-Writes ms (record a { written = a.written ++ ((f, c ∷ m) ∷ []) }) f h in
    (
      a',
      ap (λ o. write_one (c ∷ m) o a >>= write_all ms) h ∙ e,
      (
        t,
        s,
        w
            ∙ ap (λ us. us ++ not_blank ms) (texts-append a.written ((f, c ∷ m) ∷ []))
            ∙ append_assoc (texts a.written) ((c ∷ m) ∷ []) (not_blank ms),
      ),
    )

-- fopen succeeds when every file can be opened.
fopen-some : (now : Now) → AllOpen now → (f : Bytes × ℕ) → fopen now.can_open f ≡ some f
unfolding fopen
fopen-some now h f = ap (λ b. if b then some f else none) (h f)

reopen-Opens : (now : Now) (a : AsyncLogger) → AllOpen now → Opens a (reopen now.can_open a)
unfolding reopen
reopen-Opens now a h =
    elim a.need_reopen
      as (λ b.
        Opens (record a { need_reopen = b }) (reopen now.can_open (record a { need_reopen = b }))) [
          | true ↦ (((a.date, a.no), fopen-some now h (a.date, a.no)), refl, refl, refl)
          | false ↦
              elim a.file
                as (λ o.
                  Opens (record a { need_reopen = false; file = o })
                    (reopen now.can_open (record a { need_reopen = false; file = o }))) [
                      | none ↦ (((a.date, a.no), fopen-some now h (a.date, a.no)), refl, refl, refl)
                      | some f ↦ ((f, refl), refl, refl, refl)
                    ]
        ]

new_day-Opens : (today : Bytes) (a a' : AsyncLogger) → Opens (new_day today a) a' → Opens a a'
unfolding new_day
new_day-Opens today a a' h =
    elim (same_text a.date today)
        as (λ b.
          Opens (if b then a else record a { no = 0; date = today; need_reopen = true }) a'
          → Opens a a') [ true ↦ λ o. o | false ↦ λ o. o ]
      h

rotate-Opens :
    (now : Now) (a : AsyncLogger)
    → AllOpen now
    → ((f : Bytes × ℕ) × a.file ≡ some f)
    → (a' : AsyncLogger) × rotate now a.file a ≡ ok a' × Opens a a'
unfolding rotate
rotate-Opens now a h (f, e) =
    let next = record a {
      no = a.no + 1;
      file = fopen now.can_open (a.date, a.no + 1);
      need_reopen = false;
    } in
    let (a', r, o) =
      elim (ltb a.max_size now.told)
        as (λ b. (a' : AsyncLogger) × (if b then ok next else ok a) ≡ ok a' × Opens a a') [
          | true ↦ (
            next,
            refl,
            (((a.date, a.no + 1), fopen-some now h (a.date, a.no + 1)), refl, refl, refl),
          )
          | false ↦ (a, refl, ((f, e), refl, refl, refl))
        ] in
    (a', ap (λ o'. rotate now o' a) e ∙ r, o)

-- A round writes its batch when every file can be opened.
write_batch-Writes :
    (now : Now) (batch : List Bytes) (a : AsyncLogger)
    → AllOpen now
    → (a' : AsyncLogger) × write_batch now batch a ≡ ok a' × Writes (not_blank batch) a a'
unfolding write_batch
write_batch-Writes now batch a h =
    let (file, t, s, w) =
      new_day-Opens now.today a (reopen now.can_open (new_day now.today a))
        (reopen-Opens now (new_day now.today a) h) in
    let (a1, e1, ((f, e), t1, s1, w1)) =
      rotate-Opens now (reopen now.can_open (new_day now.today a)) h file in
    let (a2, e2, (t2, s2, w2)) = write_all-Writes batch a1 f e in
    (
      a2,
      ap (λ o. o >>= write_all batch) e1 ∙ e2,
      (t2 ∙ t1 ∙ t, s2 ∙ s1 ∙ s, w2 ∙ ap (λ ws. texts ws ++ not_blank batch) (w1 ∙ w)),
    )

execute_round-goes :
    (now : Now) (b : List Bytes) (bs : List (List Bytes)) (a a' : AsyncLogger)
    → write_batch now b (record a { tasks = bs }) ≡ ok a'
    → a.stop ≡ false
    → execute_round now (b ∷ bs) a ≡ ok (goes a')
unfolding execute_round
execute_round-goes now b bs a a' e s =
    ap (λ o. o >>= λ a1. if a.stop then ok (ends (record a1 { file = none })) else ok (goes a1)) e
    ∙ ap (λ c. if c then ok (ends (record a' { file = none })) else ok (goes a')) s

-- When every file can be opened and the logger is not stopped, as many rounds as there are batches write
-- them all: what is written grows by the messages of the queue that are not blank, in their order, and the
-- thread waits on an empty queue.
pub execute-Writes :
    (rounds : List Now) (batches : List (List Bytes)) (a : AsyncLogger)
    → EachOpen rounds
    → count rounds ≡ count batches
    → a.tasks ≡ batches
    → a.stop ≡ false
    → (a' : AsyncLogger) × execute rounds a ≡ ok (waits a')
      × (a'.tasks ≡ [])
      × (texts a'.written ≡ texts a.written ++ not_blank (concat batches))
unfolding execute execute_round go_on
execute-Writes [] [] a h n t s = (a, refl, t, sym (append-nil (texts a.written)))
execute-Writes [] (b ∷ bs) a h n t s = ground arith
execute-Writes (now ∷ rounds) [] a h n t s = ground arith
execute-Writes (now ∷ rounds) (b ∷ bs) a (h, hs) n t s =
    let (a1, e1, (t1, s1, w1)) = write_batch-Writes now b (record a { tasks = bs }) h in
    let (a2, e2, t2, w2) = execute-Writes rounds bs a1 hs (omega arith) t1 (s1 ∙ s) in
    (
      a2,
      ap (λ q. execute_round now q a >>= go_on (execute rounds)) t
          ∙ ap (λ o. o >>= go_on (execute rounds)) (execute_round-goes now b bs a a1 e1 s)
          ∙ e2,
      t2,
      w2
          ∙ ap (λ us. us ++ not_blank (concat bs)) w1
          ∙ append_assoc (texts a.written) (not_blank b) (not_blank (concat bs))
          ∙ ap (λ us. texts a.written ++ us) (sym (not_blank-append b (concat bs))),
    )

-- Flush on a logger that has a batch in the queue and messages in the buffer: the thread writes the first
-- batch only, then sees the stop flag and ends. The rest of the queue and the buffer's messages are never
-- written, though every file can be opened.
pub flush_lost :
    (now : Now) (rounds : List Now) (b : List Bytes) (bs : List (List Bytes)) (m : Bytes)
    (ms : List Bytes) (l : Logger)
    → AllOpen now
    → l.rpc_logger.tasks ≡ b ∷ bs
    → l.rpc_buffer ≡ m ∷ ms
    → (a' : AsyncLogger) × execute (now ∷ rounds) (flush l).rpc_logger ≡ ok (ends a')
      × (a'.tasks ≡ bs ++ ((m ∷ ms) ∷ []))
      × (texts a'.written ≡ texts l.rpc_logger.written ++ not_blank b)
unfolding execute execute_round go_on flush loop_func push_batch stop_logger
flush_lost now rounds b bs m ms l h t u =
    let a = record l.rpc_logger { tasks = bs ++ ((m ∷ ms) ∷ []); stop = true } in
    let (a1, e1, (t1, s1, w1)) = write_batch-Writes now b a h in
    (record a1 { file = none }, rw (u, t, e1) refl, t1, w1)
