-- ===== src/Tests/LoopTests.antt =====
-- A reactor whose tasks and coroutines do little.
use tirpc.Reactor.Events.{Op, Call, EpollEvent, Reactor, no_events, new_fd_event}
use tirpc.Reactor.Events.Interest.{Mirrors}
use tirpc.Reactor.Loop.{failed, ready, pointer, wakeup_number, World, loop, steal_or_drain}
use tirpc.Reactor.Loop.Draining.{drained, steal_or_drain-drained}
use tirpc.Reactor.Loop.Keeping.{Keeps, loop-Keeps}
use tirpc.Prelude.{ℕ, Bool, true, false, List, [], ◌∷◌, ℤ, pos, ◌≡◌, refl, none, some, ok}

abbrev willing : List Call → Op → ℤ → Bool
willing cs op fd = true

abbrev quiet : Reactor ℕ
quiet = record {
  wakeup_fd = pos 3;
  timer_fd = pos 4;
  stop = false;
  is_looping = false;
  thread_idx = pos 0;
  is_sub_reactor = true;
  fds = [];
  pending_add_fds = (pos 7, record { events = no_events; target = 70 }) ∷ [];
  pending_del_fds = [];
  pending_tasks = none ∷ some 5 ∷ [];
  calls = [];
  wakes = 0;
}

abbrev start : World ℕ
start = record {
  thread = record { reactor = quiet; events = λ p. new_fd_event (pos 9) };
  queues = (70 ∷ 71 ∷ []) ∷ (72 ∷ []) ∷ [];
}

quiet-Mirrors : Mirrors quiet
quiet-Mirrors = record { same = refl; legal = tt }

loop-Keeps_example : Keeps (
    loop willing
      (λ t th. th)
      (λ c th. th)
      (failed
        ∷ ready (
            record { target = pointer (some 70); readable = true; writable = false }
            ∷ record { target = wakeup_number; readable = true; writable = false }
            ∷ [])
        ∷ [])
      start)
loop-Keeps_example =
    loop-Keeps willing (λ t th. th) (λ c th. th) (λ cs fd h. refl) (λ t th m. m) (λ c th m. m)
      (failed
        ∷ ready (
            record { target = pointer (some 70); readable = true; writable = false }
            ∷ record { target = wakeup_number; readable = true; writable = false }
            ∷ [])
        ∷ [])
      start quiet-Mirrors

steal_or_drain-drained_example :
    steal_or_drain (λ c th. th) 0 false start ≡ ok (drained (λ c th. th) (70 ∷ 71 ∷ []) 0 start)
steal_or_drain-drained_example = steal_or_drain-drained (λ c th. th) 0 (70 ∷ 71 ∷ []) start refl

abbrev reads : EpollEvent
reads = record { events = λ e. true; target = 70 }

abbrev silent : EpollEvent
silent = record { events = no_events; target = 70 }
