-- ===== src/Reactor/Loop.antt =====
-- Reactor::Loop of net/base/reactor.cpp. What the loop runs is an argument: `run_task` for a
-- std::function, `resume` for Coroutine::Resume of a coroutine that is not null. Either changes the
-- reactor and the FdEvents of its thread, and not the queues of ready coroutines: only the loop
-- pushes to the queue of its thread. What epoll_wait gives is an argument of each round.
pub mod Draining
pub mod Keeping
use tirpc.Prelude.{
  ℕ, zero, suc, ◌+◌, Bool, true, false, not, ◌&&◌, List, [], ◌∷◌, ◌++◌, Option, none, some,
  if◌then◌else◌, ◌==◌, ℤ, pos, negsuc, Outcome, ok, fault, throws, ◌>>=◌, length, get_elem?,
}
use tirpc.Reactor.Events.{
  IoEvent, read, write, EpollEvent, Op, Call, Reactor, FdEvent, same_fd, add_event_in_loop_thread,
  del_event_in_loop_thread, get_call_back,
}
use tirpc.Reactor.TaskQueue.{push, pop_some, is_empty, steal}

-- `data` of an epoll_event is a union: the wakeup descriptor, or a pointer that may be null.
pub data Target : Type 0 where
  wakeup_number : Target
  pointer : Option ℕ → Target

pub record Ready : Type 0 where
  pub target : Target
  pub readable : Bool
  pub writable : Bool

-- What epoll_wait returns.
pub data Wait : Type 0 where
  failed : Wait
  ready : List Ready → Wait

-- What the thread of a reactor keeps: the reactor, and its FdEvents by address.
pub record Thread (T : Type 0) : Type 0 where
  pub reactor : Reactor T
  pub events : ℕ → FdEvent T

pub record World (T : Type 0) : Type 0 where
  pub thread : Thread T
  pub queues : List (List ℕ)

module _ {T : Type 0} where
  abbrev pub store : ℕ → FdEvent T → (ℕ → FdEvent T) → ℕ → FdEvent T
  store p e events q = if q == p then e else events q

  -- SetReactor(this) or SetReactor(nullptr)
  unfoldable pub set_reactor : ℕ → Bool → Thread T → Thread T
  set_reactor p b t = record t { events = store p (record (t.events p) { attached = b }) t.events }

  unfoldable pub on_reactor : (Reactor T → Reactor T) → Thread T → Thread T
  on_reactor f t = record t { reactor = f t.reactor }

  unfoldable pub on_thread : (Thread T → Thread T) → World T → World T
  on_thread f w = record w { thread = f w.thread }

-- An index into the vector of queues.
unfoldable pub index_of : ℤ → Outcome ℕ
index_of (pos i) = ok i
index_of (negsuc i) = fault

-- The rounds of `drain` that a queue can need.
unfoldable pub fuel_of : ℕ → List (List ℕ) → ℕ
fuel_of i queues = elim (get_elem? queues i) [ none ↦ 0 | some q ↦ length q + 1 ]

module _ {T : Type 0} (resume : ℕ → Thread T → Thread T) where
  -- Resume(co) returns at once for a null pointer.
  unfoldable pub resume_coroutine : Option ℕ → Thread T → Thread T
  resume_coroutine none t = t
  resume_coroutine (some c) t = resume c t

  -- The loops over stolen or popped tasks.
  unfoldable pub resume_tasks : List ℕ → Thread T → Thread T
  unfolding resume_coroutine set_reactor
  resume_tasks [] t = t
  resume_tasks (p ∷ ps) t =
      let t' = set_reactor p true t in resume_tasks ps (resume_coroutine (t'.events p).coroutine t')

  -- while (true) { PopSome ... }, on as many rounds as there are tasks and one more.
  unfoldable pub drain : ℕ → ℕ → World T → Outcome (World T)
  unfolding resume_tasks on_thread
  drain zero i w = ok w
  drain (suc n) i w = pop_some i (pos 16) w.queues >>= λ (tasks, queues).
      let w' = record w { queues = queues } in
      let rest = drain n i (on_thread (resume_tasks tasks) w') in
      if length tasks == 0 then ok w' else rest

  -- An empty queue steals, and any other is run down.
  unfoldable pub steal_or_drain : ℕ → Bool → World T → Outcome (World T)
  unfolding fuel_of drain resume_tasks on_thread
  steal_or_drain i true w =
      let stolen = steal (pos i) (pos 16) w.queues in
      ok (on_thread (resume_tasks stolen.0) (record w { queues = stolen.1 }))
  steal_or_drain i false w = drain (fuel_of i w.queues) i w

  -- What only the loop of a sub-reactor does before it waits.
  unfoldable pub run_ready : World T → Outcome (World T)
  unfolding index_of steal_or_drain
  run_ready w = if not w.thread.reactor.is_sub_reactor then ok w else (do
    i ← index_of w.thread.reactor.thread_idx
    empty ← is_empty i w.queues
    steal_or_drain i empty w)

module _ {T : Type 0} (run_task : T → Thread T → Thread T) where
  unfoldable pub run_all : List (Option T) → Thread T → Thread T
  run_all [] t = t
  run_all (none ∷ ts) t = run_all ts t
  run_all (some task ∷ ts) t = run_all ts (run_task task t)

  -- The pending tasks are swapped out before they run.
  unfoldable pub run_pending : World T → World T
  unfolding run_all on_thread on_reactor
  run_pending w =
      let tasks = w.thread.reactor.pending_tasks in
      on_thread (λ t. run_all tasks (on_reactor (λ r. record r { pending_tasks = [] }) t)) w

  -- The callback of the timer: calling an empty std::function throws.
  unfoldable pub call_back : Option T → World T → Outcome (World T)
  unfolding on_thread
  call_back none w = throws
  call_back (some task) w = ok (on_thread (run_task task) w)

module _ {T : Type 0} where
  abbrev pub push_pending : Bool → Option T → Thread T → Thread T
  push_pending b cb t =
      if b then on_reactor (λ r. record r { pending_tasks = r.pending_tasks ++ (cb ∷ []) }) t else t

  -- Other events: the callbacks wait for the next round.
  unfoldable pub callbacks_ready : ℕ → Ready → World T → World T
  unfolding on_thread on_reactor
  callbacks_ready p ev w =
      let e = w.thread.events p in
      on_thread
        (λ t.
          push_pending ev.writable (get_call_back write e)
            (push_pending ev.readable (get_call_back read e) t))
        w

module _ {T : Type 0} (epoll_ctl : List Call → Op → ℤ → Bool) where
  abbrev pub delete_fd : ℤ → World T → World T
  delete_fd fd = on_thread (on_reactor (del_event_in_loop_thread epoll_ctl fd))

  unfoldable pub add_all : List (ℤ × EpollEvent) → Reactor T → Reactor T
  add_all [] r = r
  add_all ((fd, e) ∷ m) r = add_all m (add_event_in_loop_thread epoll_ctl fd e r)

  unfoldable pub del_all : List ℤ → Reactor T → Reactor T
  del_all [] r = r
  del_all (fd ∷ fds) r = del_all fds (del_event_in_loop_thread epoll_ctl fd r)

  -- What other threads have asked for is swapped out, and done.
  unfoldable pub apply_pending : Reactor T → Reactor T
  unfolding add_all del_all
  apply_pending r =
      let adds = r.pending_add_fds in
      let dels = r.pending_del_fds in
      del_all dels (add_all adds (record r { pending_add_fds = []; pending_del_fds = [] }))

module _ {T : Type 0} (epoll_ctl : List Call → Op → ℤ → Bool) (run_task : T → Thread T → Thread T)
    (resume : ℕ → Thread T → Thread T) where
  -- An event of a coroutine.
  unfoldable pub coroutine_ready : ℕ → ℕ → World T → Outcome (World T)
  unfolding index_of on_thread on_reactor set_reactor
  coroutine_ready p c w =
      if w.thread.reactor.is_sub_reactor
      then (do
        let w' = on_thread (set_reactor p false) (delete_fd epoll_ctl (w.thread.events p).fd w)
        i ← index_of w.thread.reactor.thread_idx
        queues ← push i p w'.queues
        ok (record w' { queues = queues }))
      else ok (on_thread (resume c) w)

  -- ptr->GetCoroutine() is a null pointer for `none`.
  unfoldable pub event_of : Option ℕ → ℕ → Ready → World T → Outcome (World T)
  unfolding coroutine_ready callbacks_ready call_back
  event_of (some c) p ev w = coroutine_ready p c w
  event_of none p ev w =
      let e = w.thread.events p in
      if same_fd e.fd w.thread.reactor.timer_fd
      then call_back run_task (get_call_back read e) w
      else ok (callbacks_ready p ev w)

  unfoldable pub event_at : ℕ → Ready → World T → Outcome (World T)
  unfolding event_of
  event_at p ev w =
      let e = w.thread.events p in
      if not ev.readable && not ev.writable
      then ok (delete_fd epoll_ctl e.fd w)
      else event_of e.coroutine p ev w

  -- One turn of the loop over the events. The number of the wakeup descriptor taken as a pointer is
  -- undefined behaviour.
  unfoldable pub handle_target : Target → Ready → World T → Outcome (World T)
  unfolding event_at
  handle_target wakeup_number ev w = if ev.readable then ok w else fault
  handle_target (pointer none) ev w = ok w
  handle_target (pointer (some p)) ev w = event_at p ev w

  unfoldable pub handle_all : List Ready → World T → Outcome (World T)
  unfolding handle_target
  handle_all [] w = ok w
  handle_all (ev ∷ evs) w = handle_target ev.target ev w >>= handle_all evs

  unfoldable pub after_wait : Wait → World T → Outcome (World T)
  unfolding handle_all apply_pending on_thread on_reactor
  after_wait failed w = ok w
  after_wait (ready evs) w = do
    w' ← handle_all evs w
    ok (on_thread (on_reactor (apply_pending epoll_ctl)) w')

  unfoldable pub round : Wait → World T → Outcome (World T)
  unfolding run_ready run_pending after_wait
  round wait w = do w' ← run_ready resume w; after_wait wait (run_pending run_task w')

  -- while (!stop_), as far as epoll_wait has returned.
  unfoldable pub rounds : List Wait → World T → Outcome (World T)
  unfolding round on_thread on_reactor
  rounds [] w = ok w
  rounds (wait ∷ waits) w =
      let rest = round wait w >>= rounds waits in
      if w.thread.reactor.stop
      then ok (on_thread (on_reactor (λ r. record r { is_looping = false })) w)
      else rest

  unfoldable pub loop : List Wait → World T → Outcome (World T)
  unfolding rounds on_thread on_reactor
  loop waits w =
      if w.thread.reactor.is_looping
      then ok w
      else rounds waits
          (on_thread (on_reactor (λ r. record r { is_looping = true; stop = false })) w)
