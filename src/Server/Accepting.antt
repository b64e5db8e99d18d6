-- ===== src/Server/Accepting.antt =====
-- How the connections that are accepted come to the threads.
use tirpc.Prelude.{
  ℕ, zero, suc, ◌+◌, ◌<◌, Bool, true, false, not, ◌||◌, List, [], ◌∷◌, ◌++◌, Option, none, some,
  if◌then◌else◌, ◌==◌, ltb, ℤ, pos, length, get_elem?, get_elem?_in, set, length-set, Outcome, ok,
  fault, ◌>>=◌, ◌≡◌, ◌↔◌, refl, sym, ap, ◌∙◌, arith, lt→ltb, ==_iff, append-nil, append_assoc,
  if_false, if_true,
}
use tirpc.Server.{
  IoThread, IoThreadPool, TcpServer, take_task, give_task, next_index, thread_at, get_io_thread,
  add_client, accept_client, main_accept_cor_func,
}
use tirpc.Reactor.Events.{add_task, wakeup}

-- The tasks that wait on thread `j`.
abbrev pub tasks_at : {T : Type 0} → ℕ → List (IoThread T) → List (Option T)
tasks_at j ts = elim (get_elem? ts j) [ none ↦ [] | some t ↦ t.reactor.pending_tasks ]

abbrev pub following : ℕ → ℕ → ℕ
following n k = if k + 1 == n then 0 else k + 1

-- What thread `j` of `n` gets of the connections, if they are dealt one to each thread in turn from `k` on.
abbrev pub dealt : {T : Type 0} → (ℕ → ℤ → T) → ℕ → ℕ → ℕ → List (Option ℤ) → List (Option T)
dealt task n k j [] = []
dealt task n k j (none ∷ socks) = dealt task n k j socks
dealt task n k j (some fd ∷ socks) =
    (if k == j then some (task k fd) ∷ [] else []) ++ dealt task n (following n k) j socks

abbrev pub accepted : List (Option ℤ) → ℕ
accepted [] = 0
accepted (none ∷ socks) = accepted socks
accepted (some fd ∷ socks) = suc (accepted socks)

take_task-tasks :
    {T : Type 0} (task : T) (t : IoThread T)
    → (take_task task t).reactor.pending_tasks ≡ t.reactor.pending_tasks ++ (some task ∷ [])
unfolding take_task add_task wakeup
take_task-tasks task t =
    elim t.reactor.is_looping
      as (λ b.
        (if not b
          then record t.reactor { pending_tasks = t.reactor.pending_tasks ++ (some task ∷ []) }
          else record t.reactor {
            pending_tasks = t.reactor.pending_tasks ++ (some task ∷ []);
            wakes = t.reactor.wakes + 1;
          }).pending_tasks
        ≡ t.reactor.pending_tasks ++ (some task ∷ [])) [ true ↦ refl | false ↦ refl ]

-- A task that thread `k` takes; `b` is whether that is thread `j`.
tasks_at-set :
    {T : Type 0} (b : Bool) (ts : List (IoThread T)) (k j : ℕ) (task : T) (t : IoThread T)
    → (b ≡ true) ↔ (k ≡ j)
    → get_elem? ts k ≡ some t
    → tasks_at j (set ts k (take_task task t)) ≡ tasks_at j ts ++ (if b then some task ∷ [] else [])
tasks_at-set b [] k j task t e h = ground arith
tasks_at-set true (u ∷ ts) zero zero task t e h =
    let same : u ≡ t = ap (λ o. elim o [ none ↦ u | some v ↦ v ]) h in
    take_task-tasks task t ∙ ap (λ v. v.reactor.pending_tasks ++ (some task ∷ [])) (sym same)
tasks_at-set false (u ∷ ts) zero zero task t e h = ground arith
tasks_at-set true (u ∷ ts) zero (suc j) task t e h = ground arith
tasks_at-set false (u ∷ ts) zero (suc j) task t e h = sym (append-nil (tasks_at j ts))
tasks_at-set true (u ∷ ts) (suc k) zero task t e h = ground arith
tasks_at-set false (u ∷ ts) (suc k) zero task t e h = sym (append-nil u.reactor.pending_tasks)
tasks_at-set b (u ∷ ts) (suc k) (suc j) task t e h = tasks_at-set b ts k j task t (ground arith) h

give_task_lem :
    {T : Type 0} (k : ℕ) (task : T) (pool : IoThreadPool T) (t : IoThread T)
    → get_elem? pool.io_threads k ≡ some t
    → give_task k task pool
      ≡ ok (record pool { io_threads = set pool.io_threads k (take_task task t) })
unfolding give_task
give_task_lem {T} k task pool t e =
    ap
      (λ o. elim o as (λ o'. Outcome (IoThreadPool T)) [
        | none ↦ fault
        | some u ↦ ok (record pool { io_threads = set pool.io_threads k (take_task task u) })
      ])
      e

module _ {C T : Type 0} (connect : ℕ → ℤ → C) (resume : C → T) where
  -- The server has `n` threads, does not stop, and thread `k` is next.
  pub record Serves (n k : ℕ) (s : TcpServer C T) : Type 0 where
    pub sized : s.io_pool.size ≡ n
    pub filled : length s.io_pool.io_threads ≡ n
    pub next : next_index n s.io_pool.index ≡ pos k
    pub below : k < n
    pub runs : s.is_stop_accept ≡ false

  -- What one connection does.
  abbrev Accepts : ℕ → ℕ → ℤ → TcpServer C T → Outcome (TcpServer C T) → Type 0
  Accepts n k fd s o =
      (s' : TcpServer C T) × (o ≡ ok s')
      × Serves n (following n k) s'
      × (s'.tcp_counts ≡ s.tcp_counts + 1)
      × ((j : ℕ)
          → tasks_at j s'.io_pool.io_threads
            ≡ tasks_at j s.io_pool.io_threads
              ++ (if k == j then some (resume (connect k fd)) ∷ [] else []))

  following-next : (n k : ℕ) → k < n → next_index n (pos (k + 1)) ≡ pos (following n k)
  unfolding next_index
  following-next n k h =
      elim (k + 1 == n)
        as (λ b. (if b || false then pos 0 else pos (k + 1)) ≡ pos (if b then 0 else k + 1)) [
          | true ↦ refl
          | false ↦ refl
        ]

  following_below : (n k : ℕ) → k < n → following n k < n
  following_below n k h = ground arith

  get_io_thread_next :
      (n k : ℕ) (s : TcpServer C T)
      → Serves n k s
      → get_io_thread s.io_pool ≡ ok (k, record s.io_pool { index = pos (k + 1) })
  unfolding get_io_thread thread_at
  get_io_thread_next n k s v =
      ap (λ n'. thread_at (next_index n' s.io_pool.index) s.io_pool) v.sized
      ∙ ap (λ z. thread_at z s.io_pool) v.next
      ∙ if_true (ltb k (length s.io_pool.io_threads))
          (ok (k, record s.io_pool { index = pos (k + 1) })) fault
          (lt→ltb k (length s.io_pool.io_threads) (rw v.filled v.below))

  accept_client-Accepts :
      (n k : ℕ) (fd : ℤ) (s : TcpServer C T)
      → Serves n k s
      → Accepts n k fd s (accept_client connect resume fd s)
  unfolding accept_client get_io_thread thread_at give_task
  accept_client-Accepts n k fd s v =
      let (t, e) = get_elem?_in s.io_pool.io_threads k (rw v.filled v.below) in
      let pool = record s.io_pool {
        index = pos (k + 1);
        io_threads = set s.io_pool.io_threads k (take_task (resume (connect k fd)) t);
      } in
      (
        record s {
          io_pool = pool;
          clients = add_client fd (connect k fd) s.clients;
          tcp_counts = s.tcp_counts + 1;
        },
        ap
              (λ o. o >>= λ (i, pool'). give_task i (resume (connect i fd)) pool' >>= λ pool2.
                ok (record s {
                  io_pool = pool2;
                  clients = add_client fd (connect i fd) s.clients;
                  tcp_counts = s.tcp_counts + 1;
                }))
              (get_io_thread_next n k s v)
            ∙ ap
                (λ o. o >>= λ pool2. ok (record s {
                  io_pool = pool2;
                  clients = add_client fd (connect k fd) s.clients;
                  tcp_counts = s.tcp_counts + 1;
                }))
                (give_task_lem k (resume (connect k fd)) (record s.io_pool { index = pos (k + 1) })
                  t e),
        record {
          sized = v.sized;
          filled =
              length-set s.io_pool.io_threads k (take_task (resume (connect k fd)) t) ∙ v.filled;
          next = following-next n k v.below;
          below = following_below n k v.below;
          runs = v.runs;
        },
        refl,
        λ j.
            tasks_at-set (k == j) s.io_pool.io_threads k j (resume (connect k fd)) t (==_iff k j) e,
      )

  -- A server whose pool has `n` threads of which thread `k` is next, and which does not stop: whatever
  -- Accept gives in its turns, the loop goes on, the count grows by the connections, and the threads get
  -- them one after the other in turn, so that each thread's queue grows by its share in order.
  pub main_accept_cor_func-Deals :
      (socks : List (Option ℤ)) (n k : ℕ) (s : TcpServer C T)
      → Serves n k s
      → (s' : TcpServer C T) × (main_accept_cor_func connect resume socks s ≡ ok s')
        × (s'.tcp_counts ≡ s.tcp_counts + accepted socks)
        × ((j : ℕ)
            → tasks_at j s'.io_pool.io_threads
              ≡ tasks_at j s.io_pool.io_threads
                ++ dealt (λ i fd. resume (connect i fd)) n k j socks)
  unfolding main_accept_cor_func
  main_accept_cor_func-Deals [] n k s v =
      (s, refl, omega arith, λ j. sym (append-nil (tasks_at j s.io_pool.io_threads)))
  main_accept_cor_func-Deals (none ∷ socks) n k s v = main_accept_cor_func-Deals socks n k s v
  main_accept_cor_func-Deals (some fd ∷ socks) n k s v =
      let (s1, e1, v1, c1, d1) = accept_client-Accepts n k fd s v in
      let (s2, e2, c2, d2) = main_accept_cor_func-Deals socks n (following n k) s1 v1 in
      (
        s2,
        if_false s.is_stop_accept (ok s)
              (accept_client connect resume fd s >>= main_accept_cor_func connect resume socks)
              v.runs
            ∙ ap (λ o. o >>= main_accept_cor_func connect resume socks) e1
            ∙ e2,
        omega (arith, c1, c2),
        λ j.
            d2 j
            ∙ ap (λ xs. xs ++ dealt (λ i f. resume (connect i f)) n (following n k) j socks) (d1 j)
            ∙ append_assoc (tasks_at j s.io_pool.io_threads)
                (if k == j then some (resume (connect k fd)) ∷ [] else [])
                (dealt (λ i f. resume (connect i f)) n (following n k) j socks),
      )
