-- ===== src/Server.antt =====
-- net/tcp/io_thread.cpp and net/tcp/tcp_server.cpp: the threads that serve, and how connections come to
-- them. `T` stands for std::function<void()>, and `C` for a TcpConnection; `resume` gives the function that
-- AddCoroutine makes of a coroutine. The number of a thread stands for its pthread_t.
pub mod Threads
pub mod Accepting
use tirpc.Connection.{State, not_connected, connected, half_closing, closed}
use tirpc.Prelude.{
  ℕ, zero, suc, ◌+◌, ◌-◌, ◌%◌, Bool, true, false, not, ◌&&◌, ◌||◌, List, [], ◌∷◌, ◌++◌, Option,
  none, some, if◌then◌else◌, ◌==◌, ltb, ℤ, pos, negsuc, ltb_ℤ, map, length, get_elem?, set, Outcome,
  ok, fault, ◌>>=◌,
}
use tirpc.Reactor.Events.{Reactor, add_task, same_fd}
use tirpc.Coroutine.Pool.{Pool, get_coroutine_instanse}
use tirpc.Coroutine.Switch.{Thread, set_call_back}

pub record IoThread (T : Type 0) : Type 0 where
  pub thread : ℕ
  pub reactor : Reactor T

pub record IoThreadPool (T : Type 0) : Type 0 where
  pub size : ℕ
  pub index : ℤ
  pub io_threads : List (IoThread T)

-- The index that GetIoThread reads, and the next one.
unfoldable pub next_index : ℕ → ℤ → ℤ
next_index size index =
    if same_fd index (pos size) || same_fd index (negsuc 0) then pos 0 else index

module _ {T : Type 0} where
  -- A thread takes a task, and is woken.
  unfoldable pub take_task : T → IoThread T → IoThread T
  unfolding add_task
  take_task task t = record t { reactor = add_task (some task) true t.reactor }

  -- io_threads_[i]->GetReactor()->AddTask(task, true)
  unfoldable pub give_task : ℕ → T → IoThreadPool T → Outcome (IoThreadPool T)
  unfolding take_task
  give_task i task pool = elim (get_elem? pool.io_threads i) [
    | none ↦ fault
    | some t ↦ ok (record pool { io_threads = set pool.io_threads i (take_task task t) })
  ]

  -- An index outside of the vector is undefined.
  unfoldable pub thread_at : ℤ → IoThreadPool T → Outcome (ℕ × IoThreadPool T)
  thread_at (negsuc i) pool = fault
  thread_at (pos i) pool =
      if ltb i (length pool.io_threads) then ok (i, record pool { index = pos (i + 1) }) else fault

  -- GetIoThread gives the number of the thread.
  unfoldable pub get_io_thread : IoThreadPool T → Outcome (ℕ × IoThreadPool T)
  unfolding next_index thread_at
  get_io_thread pool = thread_at (next_index pool.size pool.index) pool

  unfoldable pub broadcast_task : T → IoThreadPool T → IoThreadPool T
  unfolding take_task
  broadcast_task cb pool = record pool { io_threads = map (take_task cb) pool.io_threads }

  unfoldable pub add_task_by_index : ℤ → T → IoThreadPool T → Outcome (IoThreadPool T)
  unfolding give_task
  add_task_by_index (negsuc i) cb pool = ok pool
  add_task_by_index (pos i) cb pool = if ltb i pool.size then give_task i cb pool else ok pool

  -- The loop of AddCoroutineToRandomThread, which ends in its first turn: `i` is what rand gave, and
  -- `cur` the current IOThread. The pointer to it is null on a thread that is none.
  unfoldable pub other_thread : ℕ → Option ℕ → ℕ → IoThreadPool T → Outcome ℕ
  other_thread i none size pool = fault
  other_thread i (some cur) size pool = elim (get_elem? pool.io_threads i) [
    | none ↦ fault
    | some t ↦ ok (if t.thread == cur then (if i + 1 == size then i + 1 - 2 else i + 1) else i)
  ]

  unfoldable pub choose_thread : ℕ → Option ℕ → Bool → ℕ → IoThreadPool T → Outcome ℕ
  unfolding other_thread
  choose_thread random cur self zero pool = fault
  choose_thread random cur true (suc n) pool = ok (random % suc n)
  choose_thread random cur false (suc n) pool = other_thread (random % suc n) cur (suc n) pool

  unfoldable pub add_coroutine_to_random_thread :
      ℕ → Option ℕ → Bool → T → IoThreadPool T → Outcome (IoThreadPool T)
  unfolding choose_thread give_task
  add_coroutine_to_random_thread random cur self cor pool =
      let i = choose_thread random cur self pool.size pool >>= λ i'. give_task i' cor pool in
      if pool.size == 1 then give_task 0 cor pool else i

module _ {T : Type 0} (resume : ℕ → T) where
  -- A coroutine of the pool with a callback.
  unfoldable pub coroutine_for : ℕ → Pool × Thread → Outcome (ℕ × Pool × Thread)
  unfolding get_coroutine_instanse set_call_back
  coroutine_for address (pool, t) = get_coroutine_instanse address pool t >>= λ (p, pool', t').
      set_call_back p t' >>= λ (set', t2). ok (p, pool', t2)

  -- The overload that makes the coroutine.
  unfoldable pub add_callback_to_random_thread :
      ℕ
      → Option ℕ
      → Bool
      → ℕ
      → Pool × Thread
      → IoThreadPool T
      → Outcome (ℕ × (Pool × Thread) × IoThreadPool T)
  unfolding coroutine_for add_coroutine_to_random_thread
  add_callback_to_random_thread random cur self address cors pool =
      coroutine_for address cors >>= λ (p, cors', t').
      add_coroutine_to_random_thread random cur self (resume p) pool >>= λ pool'.
      ok (p, (cors', t'), pool')

  unfoldable pub add_coroutine_to_thread_by_index :
      ℤ → ℕ → Pool × Thread → IoThreadPool T → Outcome (Option ℕ × (Pool × Thread) × IoThreadPool T)
  unfolding coroutine_for give_task
  add_coroutine_to_thread_by_index (negsuc i) address cors pool = ok (none, cors, pool)
  add_coroutine_to_thread_by_index (pos i) address cors pool =
      let added = coroutine_for address cors >>= λ (p, cors', t').
      give_task i (resume p) pool >>= λ pool'. ok (some p, (cors', t'), pool') in
      if ltb i (length pool.io_threads) then added else ok (none, cors, pool)

  -- The loop of AddCoroutineToEachThread; the addresses are what malloc would give in its turns.
  unfoldable pub to_each :
      (ℕ → ℕ) → List (IoThread T) → Pool × Thread → Outcome (List (IoThread T) × Pool × Thread)
  unfolding coroutine_for take_task
  to_each address [] (cors, t) = ok ([], cors, t)
  to_each address (io ∷ ios) (cors, t) =
      coroutine_for (address (length ios)) (cors, t) >>= λ (p, cors', t').
      to_each address ios (cors', t') >>= λ (ios', cors2, t2).
      ok (take_task (resume p) io ∷ ios', cors2, t2)

pub record TcpServer (C T : Type 0) : Type 0 where
  pub io_pool : IoThreadPool T
  pub clients : List (ℤ × Option C)
  pub tcp_counts : ℕ
  pub is_stop_accept : Bool

-- The map of clients; its order plays no part. AddClient replaces the connection of a descriptor.
unfoldable pub add_client : {C : Type 0} → ℤ → C → List (ℤ × Option C) → List (ℤ × Option C)
add_client fd conn [] = (fd, some conn) ∷ []
add_client fd conn ((k, c) ∷ cs) =
    let rest = add_client fd conn cs in if same_fd k fd then (k, some conn) ∷ cs else (k, c) ∷ rest

abbrev pub is_closed : State → Bool
is_closed closed = true
is_closed _ = false

-- The turn of ClearClientTimerFunc's loop.
unfoldable pub clear_closed : {C : Type 0} → (C → State) → Option C → Option C
clear_closed state none = none
clear_closed state (some c) = if is_closed (state c) then none else some c

unfoldable pub clear_client_timer_func :
    {C : Type 0} → (C → State) → List (ℤ × Option C) → List (ℤ × Option C)
unfolding clear_closed
clear_client_timer_func state [] = []
clear_client_timer_func state ((k, c) ∷ cs) =
    (k, clear_closed state c) ∷ clear_client_timer_func state cs

-- MainAcceptCorFunc, over what Accept gives: `connect` makes the connection of a descriptor on a thread,
-- and `resume` the task that runs its coroutine. A turn without a descriptor is a Yield.
module _ {C T : Type 0} (connect : ℕ → ℤ → C) (resume : C → T) where
  unfoldable pub accept_client : ℤ → TcpServer C T → Outcome (TcpServer C T)
  unfolding get_io_thread add_client give_task
  accept_client fd s = get_io_thread s.io_pool >>= λ (i, pool).
      give_task i (resume (connect i fd)) pool >>= λ pool'. ok (record s {
        io_pool = pool';
        clients = add_client fd (connect i fd) s.clients;
        tcp_counts = s.tcp_counts + 1;
      })

  unfoldable pub main_accept_cor_func : List (Option ℤ) → TcpServer C T → Outcome (TcpServer C T)
  unfolding accept_client
  main_accept_cor_func [] s = ok s
  main_accept_cor_func (none ∷ socks) s = main_accept_cor_func socks s
  main_accept_cor_func (some fd ∷ socks) s =
      if s.is_stop_accept then ok s else accept_client fd s >>= main_accept_cor_func socks
