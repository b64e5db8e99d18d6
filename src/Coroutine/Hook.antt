-- ===== src/Coroutine/Hook.antt =====
-- coroutine/coroutine_hook.cpp: the system calls that a coroutine makes. What a system call answers is an
-- argument (the bytes that it moves are the business of its caller), and so is what happens between a Yield
-- and the Resume that ends it. `cur` is the current coroutine. GetReactor gives the reactor of the model.
pub mod Parking
use tirpc.Reactor.Events.{
  IoEvent, read, write, Op, Call, Reactor, FdEvent, same_fd, add_listen_events, del_listen_events,
}
use tirpc.Timer.{Timer, new_timer_event, add_timer_event, del_timer_event, update}
use tirpc.Prelude.{
  ℕ, ◌+◌, ◌*◌, Bool, true, false, not, ◌&&◌, ◌||◌, List, [], ◌∷◌, Option, none, some, if◌then◌else◌,
  ◌==◌, ℤ, pos, negsuc, ltb_ℤ,
}

-- An event of a descriptor, its reactor, and whether the descriptor does not block.
pub record Io (T : Type 0) : Type 0 where
  pub event : FdEvent T
  pub reactor : Reactor T
  pub non_block : Bool

module _ {T : Type 0} where
  unfoldable pub with_reactor : FdEvent T → FdEvent T
  with_reactor e = if e.attached then e else record e { attached = true }

  -- SetNonBlock, where `can_set` is what fcntl comes to.
  unfoldable pub set_non_block : Bool → Io T → Io T
  set_non_block can_set io =
      if same_fd io.event.fd (negsuc 0) || io.non_block
      then io
      else record io { non_block = can_set }

  unfoldable pub set_coroutine : ℕ → FdEvent T → FdEvent T
  set_coroutine cor e = record e { coroutine = some cor }

  unfoldable pub clear_coroutine : FdEvent T → FdEvent T
  clear_coroutine e = record e { coroutine = none }

  -- GetFdEvent has found the event: what a hook does before its system call.
  unfoldable pub prepare : Bool → Io T → Io T
  unfolding with_reactor set_non_block
  prepare can_set io = set_non_block can_set (record io { event = with_reactor io.event })

module _ {T : Type 0} (epoll_ctl : List Call → Op → ℤ → Bool) (in_loop : Bool) (this : ℕ) where
  abbrev pub with_event : FdEvent T × Reactor T → Io T → Io T
  with_event (e, r) io = record io { event = e; reactor = r }

  -- toEpoll, which each hook calls with one event.
  unfoldable pub to_epoll : ℕ → IoEvent → Io T → Io T
  unfolding set_coroutine add_listen_events
  to_epoll cur event io =
      with_event
        (add_listen_events epoll_ctl in_loop this event (set_coroutine cur io.event) io.reactor) io

  -- What a hook does behind its Yield.
  unfoldable pub leave_epoll : IoEvent → Io T → Io T
  unfolding clear_coroutine del_listen_events
  leave_epoll event io =
      let io' =
        with_event (del_listen_events epoll_ctl in_loop this event io.event io.reactor) io in
      record io' { event = clear_coroutine io'.event }

  -- The body that five hooks share: `first` and `second` are the answers of the system call, where `main`
  -- says that the main coroutine calls.
  unfoldable pub wait_for : IoEvent → Bool → ℕ → Bool → ℤ → ℤ → (Io T → Io T) → Io T → ℤ × Io T
  unfolding prepare to_epoll leave_epoll
  wait_for event main cur can_set first second elsewhere io =
      if main
      then (first, io)
      else if ltb_ℤ (pos 0) first
      then (first, prepare can_set io)
      else (second, leave_epoll event (elsewhere (to_epoll cur event (prepare can_set io))))

  unfoldable pub recv_hook : Bool → ℕ → Bool → ℤ → ℤ → (Io T → Io T) → Io T → ℤ × Io T
  unfolding wait_for
  recv_hook = wait_for read

  unfoldable pub send_hook : Bool → ℕ → Bool → ℤ → ℤ → (Io T → Io T) → Io T → ℤ × Io T
  unfolding wait_for
  send_hook = wait_for write

  unfoldable pub read_hook : Bool → ℕ → Bool → ℤ → ℤ → (Io T → Io T) → Io T → ℤ × Io T
  unfolding wait_for
  read_hook = wait_for read

  unfoldable pub accept_hook : Bool → ℕ → Bool → ℤ → ℤ → (Io T → Io T) → Io T → ℤ × Io T
  unfolding wait_for
  accept_hook = wait_for read

  unfoldable pub write_hook : Bool → ℕ → Bool → ℤ → ℤ → (Io T → Io T) → Io T → ℤ × Io T
  unfolding wait_for
  write_hook = wait_for write

-- The values that Linux gives to these.
abbrev pub in_progress : ℕ
in_progress = 115

abbrev pub already_connected : ℕ
already_connected = 106

abbrev pub timed_out : ℕ
timed_out = 110

-- An answer of connect, with errno.
abbrev pub Answer : Type 0
Answer = ℤ × ℕ

-- The end of connect_hook: the second answer, and whether the timer has fired.
unfoldable pub connect_result : Bool → Answer → Answer
connect_result is_timeout (n, errno) =
    if (ltb_ℤ n (pos 0) && (errno == already_connected)) || same_fd n (pos 0)
    then (pos 0, errno)
    else (negsuc 0, if is_timeout then timed_out else errno)

module _ {T : Type 0} (epoll_ctl : List Call → Op → ℤ → Bool) (in_loop : Bool) (this : ℕ) where
  -- connect_hook: `id` is the address of its timer event, `task` resumes the coroutine, and `elsewhere`
  -- also says whether that has run.
  unfoldable pub connect_hook :
      Bool
      → ℕ
      → Bool
      → Answer
      → Answer
      → ℕ
      → ℕ
      → ℕ
      → ℕ
      → T
      → (Io T × Timer T → Bool × Io T × Timer T)
      → Io T × Timer T
      → Answer × Io T × Timer T
  unfolding prepare to_epoll leave_epoll new_timer_event add_timer_event del_timer_event
      connect_result
  connect_hook main cur can_set (n, errno) second now later id max_connect_timeout task elsewhere
        (io, timer) =
      let io1 = prepare can_set io in
      let timer1 =
        add_timer_event later id true
          (update id (λ e. new_timer_event now max_connect_timeout false task) timer) in
      let (is_timeout, io2, timer2) =
        elsewhere (to_epoll epoll_ctl in_loop this cur write io1, timer1) in
      if main
      then ((n, errno), io, timer)
      else if same_fd n (pos 0) || not (errno == in_progress)
      then ((n, errno), io1, timer)
      else (
        connect_result is_timeout second,
        leave_epoll epoll_ctl in_loop this write io2,
        del_timer_event id timer2,
      )

-- The loop of sleep_hook, over what resumes the coroutine: is it the timer? It gives the number of its
-- Yields, and `none` while it still waits.
unfoldable pub sleep_loop : List Bool → ℕ → Option ℕ
sleep_loop [] yields = none
sleep_loop (is_timeout ∷ resumes) yields =
    let rest = sleep_loop resumes (yields + 1) in if is_timeout then some (yields + 1) else rest
