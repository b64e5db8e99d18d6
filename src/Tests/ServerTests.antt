-- ===== src/Tests/ServerTests.antt =====
-- Three threads, and the server that has them.
use tirpc.Prelude.{
  ℕ, zero, suc, ◌<◌, true, false, [], ◌∷◌, ◌++◌, none, some, ℤ, pos, negsuc, ok, ◌≡◌, ◌≢◌, refl,
  arith,
}
use tirpc.Reactor.Events.{Reactor}
use tirpc.Server.{
  IoThread, IoThreadPool, TcpServer, next_index, choose_thread, main_accept_cor_func,
}
use tirpc.Server.Threads.{Numbered, choose_thread-Other}
use tirpc.Server.Accepting.{Serves, tasks_at, dealt, main_accept_cor_func-Deals}

abbrev idle : Reactor ℕ
idle = record {
  wakeup_fd = pos 3;
  timer_fd = pos 4;
  stop = false;
  is_looping = true;
  thread_idx = pos 0;
  is_sub_reactor = true;
  fds = [];
  pending_add_fds = [];
  pending_del_fds = [];
  pending_tasks = [];
  calls = [];
  wakes = 0;
}

abbrev io : ℕ → IoThread ℕ
io i = record { thread = i; reactor = idle }

abbrev three : IoThreadPool ℕ
three = record { size = 3; index = negsuc 0; io_threads = io 0 ∷ io 1 ∷ io 2 ∷ [] }

three-Numbered : Numbered three
three-Numbered zero h = (io 0, refl, refl)
three-Numbered (suc zero) h = (io 1, refl, refl)
three-Numbered (suc (suc zero)) h = (io 2, refl, refl)
three-Numbered (suc (suc (suc i))) h = ground arith

choose_thread-Other_example :
    (i : ℕ) × (choose_thread 8 (some 2) false 3 three ≡ ok i) × (i < 3) × (i ≢ 2)
choose_thread-Other_example = choose_thread-Other 8 2 three (omega arith) three-Numbered

-- A connection is its thread and descriptor, and its task the number of its descriptor.
abbrev connection : ℕ → ℤ → ℕ × ℤ
connection i fd = (i, fd)

abbrev task : ℕ × ℤ → ℕ
task (i, pos fd) = fd
task (i, negsuc n) = 0

abbrev server : TcpServer (ℕ × ℤ) ℕ
server = record { io_pool = three; clients = []; tcp_counts = 0; is_stop_accept = false }

server-Serves : Serves connection task 3 0 server
unfolding next_index
server-Serves = record {
  sized = refl;
  filled = refl;
  next = refl;
  below = omega arith;
  runs = refl;
}

main_accept_cor_func-Deals_example :
    (s' : TcpServer (ℕ × ℤ) ℕ) × (main_accept_cor_func connection task
        (some (pos 20) ∷ none ∷ some (pos 21) ∷ some (pos 22) ∷ some (pos 23) ∷ [])
        server
      ≡ ok s')
    × (s'.tcp_counts ≡ 4)
    × ((j : ℕ)
        → tasks_at j s'.io_pool.io_threads
          ≡ tasks_at j three.io_threads
            ++ dealt
                (λ i fd. task (connection i fd))
                3
                0
                j
                (some (pos 20) ∷ none ∷ some (pos 21) ∷ some (pos 22) ∷ some (pos 23) ∷ []))
main_accept_cor_func-Deals_example =
    main_accept_cor_func-Deals connection task
      (some (pos 20) ∷ none ∷ some (pos 21) ∷ some (pos 22) ∷ some (pos 23) ∷ []) 3 0 server
      server-Serves
