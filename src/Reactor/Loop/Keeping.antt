-- ===== src/Reactor/Loop/Keeping.antt =====
-- The loop keeps the reactor's list equal to what epoll watches.
use tirpc.Prelude.{
  ℕ, zero, suc, Bool, true, false, not, ◌&&◌, List, [], ◌∷◌, Option, none, some, if◌then◌else◌,
  ◌==◌, ℤ, pos, Outcome, ok, fault, throws, ◌>>=◌, length,
}
use tirpc.Reactor.Events.{Op, Call, EpollEvent, Reactor, same_fd, get_call_back, read, write}
use tirpc.Reactor.Events.Interest.{
  Mirrors, Deletes, add_event_in_loop_thread-Mirrors, del_event_in_loop_thread-Mirrors,
}
use tirpc.Reactor.Loop.{
  Target, wakeup_number, pointer, Ready, Wait, failed, ready, Thread, World, set_reactor,
  on_reactor, on_thread, index_of, resume_coroutine, resume_tasks, drain, steal_or_drain, run_ready,
  run_all, run_pending, call_back, push_pending, callbacks_ready, delete_fd, add_all, del_all,
  apply_pending, coroutine_ready, event_of, event_at, handle_target, handle_all, after_wait, round,
  rounds, loop,
}
use tirpc.Reactor.TaskQueue.{pop_some, is_empty, steal, push}

-- The end of a call, if it has a value, leaves a mirror.
abbrev pub Keeps : {T : Type 0} → Outcome (World T) → Type 0
Keeps (ok w) = Mirrors w.thread.reactor
Keeps fault = Unit
Keeps throws = Unit

Keeps-bind :
    {T : Type 0} (m : Outcome (World T)) (f : World T → Outcome (World T))
    → Keeps m
    → ((w : World T) → Mirrors w.thread.reactor → Keeps (f w))
    → Keeps (m >>= f)
Keeps-bind (ok w) f h k = k w h
Keeps-bind fault f h k = tt
Keeps-bind throws f h k = tt

-- What comes from elsewhere keeps nothing by itself.
Keeps-after :
    {T A : Type 0} (m : Outcome A) (f : A → Outcome (World T))
    → ((a : A) → Keeps (f a))
    → Keeps (m >>= f)
Keeps-after (ok a) f k = k a
Keeps-after fault f k = tt
Keeps-after throws f k = tt

if_Keeps :
    {T : Type 0} (b : Bool) (x y : Outcome (World T))
    → Keeps x
    → Keeps y
    → Keeps (if b then x else y)
if_Keeps true x y h k = h
if_Keeps false x y h k = k

-- A change of the thread that keeps the mirror.
abbrev pub Safe : {T : Type 0} → (Thread T → Thread T) → Type 0
Safe {T} f = (t : Thread T) → Mirrors t.reactor → Mirrors (f t).reactor

module _ {T : Type 0} (resume : ℕ → Thread T → Thread T)
    (resume-Safe : (c : ℕ) → Safe (resume c)) where
  resume_coroutine-Safe : (o : Option ℕ) → Safe (resume_coroutine resume o)
  unfolding resume_coroutine
  resume_coroutine-Safe none t m = m
  resume_coroutine-Safe (some c) t m = resume-Safe c t m

  resume_tasks-Safe : (ps : List ℕ) → Safe (resume_tasks resume ps)
  unfolding resume_tasks set_reactor
  resume_tasks-Safe [] t m = m
  resume_tasks-Safe (p ∷ ps) t m = resume_tasks-Safe ps _ (resume_coroutine-Safe _ _ m)

  drain-Keeps : (n i : ℕ) (w : World T) → Mirrors w.thread.reactor → Keeps (drain resume n i w)
  unfolding drain on_thread
  drain-Keeps zero i w m = m
  drain-Keeps (suc n) i w m = Keeps-after (pop_some i (pos 16) w.queues) _ (λ x.
      let w' = record w { queues = x.1 } in
      let t = on_thread (resume_tasks resume x.0) w' in
      if_Keeps (length x.0 == 0) (ok w') (drain resume n i t) m
        (drain-Keeps n i t (resume_tasks-Safe x.0 w.thread m)))

  steal_or_drain-Keeps :
      (i : ℕ) (b : Bool) (w : World T)
      → Mirrors w.thread.reactor
      → Keeps (steal_or_drain resume i b w)
  unfolding steal_or_drain on_thread
  steal_or_drain-Keeps i true w m = resume_tasks-Safe (steal (pos i) (pos 16) w.queues).0 w.thread m
  steal_or_drain-Keeps i false w m = drain-Keeps _ i w m

  run_ready-Keeps : (w : World T) → Mirrors w.thread.reactor → Keeps (run_ready resume w)
  unfolding run_ready
  run_ready-Keeps w m =
      let i = index_of w.thread.reactor.thread_idx in
      if_Keeps (not w.thread.reactor.is_sub_reactor) (ok w)
        (i >>= λ i. is_empty i w.queues >>= λ b. steal_or_drain resume i b w) m
        (Keeps-after i _
          (λ i. Keeps-after (is_empty i w.queues) _ (λ b. steal_or_drain-Keeps i b w m)))

module _ {T : Type 0} (run_task : T → Thread T → Thread T)
    (run_task-Safe : (t : T) → Safe (run_task t)) where
  run_all-Safe : (ts : List (Option T)) → Safe (run_all run_task ts)
  unfolding run_all
  run_all-Safe [] t m = m
  run_all-Safe (none ∷ ts) t m = run_all-Safe ts t m
  run_all-Safe (some task ∷ ts) t m = run_all-Safe ts _ (run_task-Safe task t m)

  run_pending-Keeps :
      (w : World T) → Mirrors w.thread.reactor → Mirrors (run_pending run_task w).thread.reactor
  unfolding run_pending on_thread on_reactor
  run_pending-Keeps w m =
      run_all-Safe w.thread.reactor.pending_tasks _ (record { same = m.same; legal = m.legal })

  call_back-Keeps :
      (o : Option T) (w : World T) → Mirrors w.thread.reactor → Keeps (call_back run_task o w)
  unfolding call_back on_thread
  call_back-Keeps none w m = tt
  call_back-Keeps (some t) w m = run_task-Safe t w.thread m

push_pending-Safe : {T : Type 0} (b : Bool) (o : Option T) → Safe (push_pending b o)
unfolding on_reactor
push_pending-Safe true o t m = record { same = m.same; legal = m.legal }
push_pending-Safe false o t m = m

module _ {T : Type 0} (epoll_ctl : List Call → Op → ℤ → Bool) (deletes : Deletes epoll_ctl) where
  delete_fd-Keeps :
      (fd : ℤ) (w : World T)
      → Mirrors w.thread.reactor
      → Mirrors (delete_fd epoll_ctl fd w).thread.reactor
  unfolding on_thread on_reactor
  delete_fd-Keeps fd w m = del_event_in_loop_thread-Mirrors epoll_ctl fd w.thread.reactor deletes m

  add_all-Mirrors :
      (xs : List (ℤ × EpollEvent)) (r : Reactor T) → Mirrors r → Mirrors (add_all epoll_ctl xs r)
  unfolding add_all
  add_all-Mirrors [] r m = m
  add_all-Mirrors ((fd, e) ∷ xs) r m =
      add_all-Mirrors xs _ (add_event_in_loop_thread-Mirrors epoll_ctl fd e r m)

  del_all-Mirrors : (xs : List ℤ) (r : Reactor T) → Mirrors r → Mirrors (del_all epoll_ctl xs r)
  unfolding del_all
  del_all-Mirrors [] r m = m
  del_all-Mirrors (fd ∷ xs) r m =
      del_all-Mirrors xs _ (del_event_in_loop_thread-Mirrors epoll_ctl fd r deletes m)

  apply_pending-Mirrors : (r : Reactor T) → Mirrors r → Mirrors (apply_pending epoll_ctl r)
  unfolding apply_pending
  apply_pending-Mirrors r m =
      del_all-Mirrors r.pending_del_fds _
        (add_all-Mirrors r.pending_add_fds _ (record { same = m.same; legal = m.legal }))

module _ {T : Type 0} (epoll_ctl : List Call → Op → ℤ → Bool) (run_task : T → Thread T → Thread T)
    (resume : ℕ → Thread T → Thread T) (deletes : Deletes epoll_ctl)
    (run_task-Safe : (t : T) → Safe (run_task t)) (resume-Safe : (c : ℕ) → Safe (resume c)) where
  coroutine_ready-Keeps :
      (p c : ℕ) (w : World T)
      → Mirrors w.thread.reactor
      → Keeps (coroutine_ready epoll_ctl run_task resume p c w)
  unfolding coroutine_ready on_thread set_reactor
  coroutine_ready-Keeps p c w m =
      let fd = (w.thread.events p).fd in
      let w' = on_thread (set_reactor p false) (delete_fd epoll_ctl fd w) in
      let i = index_of w.thread.reactor.thread_idx in
      let go : List (List ℕ) → Outcome (World T) = λ qs. ok (record w' { queues = qs }) in
      if_Keeps w.thread.reactor.is_sub_reactor (i >>= λ i. push i p w'.queues >>= go)
        (ok (on_thread (resume c) w))
        (Keeps-after i (λ i. push i p w'.queues >>= go)
          (λ i.
            Keeps-after (push i p w'.queues) go (λ qs. delete_fd-Keeps epoll_ctl deletes fd w m)))
        (resume-Safe c w.thread m)

  event_of-Keeps :
      (o : Option ℕ) (p : ℕ) (ev : Ready) (w : World T)
      → Mirrors w.thread.reactor
      → Keeps (event_of epoll_ctl run_task resume o p ev w)
  unfolding event_of callbacks_ready on_thread
  event_of-Keeps (some c) p ev w m = coroutine_ready-Keeps p c w m
  event_of-Keeps none p ev w m =
      let e = w.thread.events p in
      if_Keeps (same_fd e.fd w.thread.reactor.timer_fd)
        (call_back run_task (get_call_back read e) w) (ok (callbacks_ready p ev w))
        (call_back-Keeps run_task run_task-Safe (get_call_back read e) w m)
        (push_pending-Safe ev.writable (get_call_back write e)
          (push_pending ev.readable (get_call_back read e) w.thread)
          (push_pending-Safe ev.readable (get_call_back read e) w.thread m))

  event_at-Keeps :
      (p : ℕ) (ev : Ready) (w : World T)
      → Mirrors w.thread.reactor
      → Keeps (event_at epoll_ctl run_task resume p ev w)
  unfolding event_at
  event_at-Keeps p ev w m =
      let e = w.thread.events p in
      if_Keeps (not ev.readable && not ev.writable) (ok (delete_fd epoll_ctl e.fd w))
        (event_of epoll_ctl run_task resume e.coroutine p ev w)
        (delete_fd-Keeps epoll_ctl deletes e.fd w m) (event_of-Keeps e.coroutine p ev w m)

  handle_target-Keeps :
      (g : Target) (ev : Ready) (w : World T)
      → Mirrors w.thread.reactor
      → Keeps (handle_target epoll_ctl run_task resume g ev w)
  unfolding handle_target
  handle_target-Keeps wakeup_number ev w m = if_Keeps ev.readable (ok w) fault m tt
  handle_target-Keeps (pointer none) ev w m = m
  handle_target-Keeps (pointer (some p)) ev w m = event_at-Keeps p ev w m

  handle_all-Keeps :
      (evs : List Ready) (w : World T)
      → Mirrors w.thread.reactor
      → Keeps (handle_all epoll_ctl run_task resume evs w)
  unfolding handle_all
  handle_all-Keeps [] w m = m
  handle_all-Keeps (ev ∷ evs) w m =
      Keeps-bind _ _ (handle_target-Keeps ev.target ev w m) (handle_all-Keeps evs)

  after_wait-Keeps :
      (wait : Wait) (w : World T)
      → Mirrors w.thread.reactor
      → Keeps (after_wait epoll_ctl run_task resume wait w)
  unfolding after_wait on_thread on_reactor
  after_wait-Keeps failed w m = m
  after_wait-Keeps (ready evs) w m =
      Keeps-bind _ _ (handle_all-Keeps evs w m)
        (λ w' m'. apply_pending-Mirrors epoll_ctl deletes _ m')

  round-Keeps :
      (wait : Wait) (w : World T)
      → Mirrors w.thread.reactor
      → Keeps (round epoll_ctl run_task resume wait w)
  unfolding round
  round-Keeps wait w m =
      Keeps-bind _ _ (run_ready-Keeps resume resume-Safe w m)
        (λ w' m'. after_wait-Keeps wait _ (run_pending-Keeps run_task run_task-Safe w' m'))

  rounds-Keeps :
      (waits : List Wait) (w : World T)
      → Mirrors w.thread.reactor
      → Keeps (rounds epoll_ctl run_task resume waits w)
  unfolding rounds on_thread on_reactor
  rounds-Keeps [] w m = m
  rounds-Keeps (wait ∷ waits) w m =
      if_Keeps w.thread.reactor.stop
        (ok (on_thread (on_reactor (λ r. record r { is_looping = false })) w))
        (round epoll_ctl run_task resume wait w >>= rounds epoll_ctl run_task resume waits)
        (record { same = m.same; legal = m.legal })
        (Keeps-bind _ _ (round-Keeps wait w m) (rounds-Keeps waits))

  -- Where epoll_ctl deletes what it watches, and the tasks and coroutines that run keep it so, Loop
  -- keeps the reactor's list equal to what epoll watches and makes only legal calls of epoll_ctl,
  -- through any results of epoll_wait, for as long as nothing is undefined or throws.
  pub loop-Keeps :
      (waits : List Wait) (w : World T)
      → Mirrors w.thread.reactor
      → Keeps (loop epoll_ctl run_task resume waits w)
  unfolding loop on_thread on_reactor
  loop-Keeps waits w m =
      let w' = on_thread (on_reactor (λ r. record r { is_looping = true; stop = false })) w in
      if_Keeps w.thread.reactor.is_looping (ok w) (rounds epoll_ctl run_task resume waits w') m
        (rounds-Keeps waits w' (record { same = m.same; legal = m.legal }))
