-- ===== src/Tests/SwitchTests.antt =====
-- A thread with coroutines, a pool of two of them, and a hook.
use tirpc.Coroutine.Hook.{Io, wait_for}
use tirpc.Coroutine.Hook.Parking.{Parks, wait_for-Parks, wait_for-Mirrors}
use tirpc.Coroutine.Pool.{Pool, new_pool}
use tirpc.Coroutine.Pool.Giving.{gets, NoRepeat}
use tirpc.Coroutine.Pool.Making.{new_pool-NoRepeat}
use tirpc.Coroutine.Switch.{Coroutine, Thread}
use tirpc.Prelude.{
  ℕ, ◌+◌, Bool, true, false, List, [], ◌∷◌, Option, none, some, ℤ, pos, negsuc, ◌≡◌, refl, arith,
  length, ok,
}
use tirpc.Reactor.Events.{read, Reactor, Call, Op}
use tirpc.Reactor.Events.Interest.{Mirrors}

abbrev cor : ℕ → ℤ → Option ℕ → Coroutine
cor id index stack = record {
  cor_id = id;
  stack_size = 64;
  stack_sp = stack;
  is_in_cofunc = false;
  can_resume = true;
  index = index;
  has_callback = true;
  top = elim stack [ none ↦ none | some sp ↦ some (sp + 64) ];
}

-- The main coroutine and two more.
abbrev three : Thread
three = record {
  cors = cor 0 (negsuc 0) none ∷ cor 1 (pos 0) (some 100) ∷ cor 2 (pos 1) (some 164) ∷ [];
  main_coroutine = some 0;
  current_coroutine = some 0;
  current_runtime = none;
  coroutine_count = 3;
  current_coroutine_id = 3;
  prints = true;
  swaps = [];
}

-- A thread that has made no coroutine.
abbrev new_thread : Thread
new_thread = record {
  cors = [];
  main_coroutine = none;
  current_coroutine = none;
  current_runtime = none;
  coroutine_count = 0;
  current_coroutine_id = 1;
  prints = true;
  swaps = [];
}

-- Two coroutines of the vector, and one that is made.
new_pool-NoRepeat_example :
    (pool : Pool) × (t1 : Thread) × (ps : List ℕ) × (pool2 : Pool) × (t2 : Thread) × (new_pool 100 2
        64 new_thread
      ≡ ok (pool, t1))
    × (gets (500 ∷ 600 ∷ 700 ∷ []) pool t1 ≡ ok (ps, pool2, t2))
    × (length ps ≡ 3)
    × NoRepeat ps
new_pool-NoRepeat_example =
    new_pool-NoRepeat 100 2 64 (500 ∷ 600 ∷ 700 ∷ []) new_thread (omega arith) (omega arith)
      (omega arith) (omega arith, (omega arith, (omega arith, tt))) refl

abbrev answers : List Call → Op → ℤ → Bool
answers calls op fd = true

abbrev reactor : Reactor ℕ
reactor = record {
  wakeup_fd = pos 3;
  timer_fd = pos 4;
  stop = false;
  is_looping = true;
  thread_idx = pos 0;
  is_sub_reactor = true;
  fds = [];
  pending_add_fds = [];
  pending_del_fds = [];
  pending_tasks = [];
  calls = [];
  wakes = 0;
}

abbrev io : Io ℕ
io = record {
  event = record {
    fd = pos 9;
    read_callback = none;
    write_callback = none;
    listen_events = λ e. false;
    attached = false;
    coroutine = none;
  };
  reactor = reactor;
  non_block = false;
}

wait_for-Parks_example :
    Parks answers true 5 read 1 true
      (pos 4)
      (λ x. x)
      io
      (wait_for answers true 5 read false 1 true (negsuc 0) (pos 4) (λ x. x) io)
wait_for-Parks_example =
    wait_for-Parks answers true 5 read 1 true (negsuc 0) (pos 4) (λ x. x) io refl

wait_for-Mirrors_example :
    Mirrors (wait_for answers true 5 read false 1 true (negsuc 0) (pos 4) (λ x. x) io).1.reactor
wait_for-Mirrors_example =
    wait_for-Mirrors answers 5 read false 1 true (negsuc 0) (pos 4) (λ x. x) io (λ x m. m)
      (record { same = refl; legal = tt })
