-- ===== src/Reactor/Events.antt =====
-- net/base/fd_event.cpp and the part of net/base/reactor.cpp that keeps epoll's list of file
-- descriptors. `T` stands for std::function<void()>, where `none` is an empty one, and a number for
-- the address of an FdEvent. A call of epoll_ctl is an argument: what it answers may depend on all
-- calls before it, which the reactor's `calls` records, the last one first. `in_loop` is the answer
-- of IsLoopThread.
pub mod Interest
pub mod Pending
use tirpc.Prelude.{
  ℕ, ◌+◌, Bool, true, false, not, ◌&&◌, ◌||◌, List, [], ◌∷◌, ◌++◌, Option, none, some,
  if◌then◌else◌, ◌==◌, ℤ, pos, negsuc, ltb_ℤ, zero, suc, ◌-◌, ◌*◌, ◌/◌, Outcome, ok, fault, ltb,
  length, get_elem?,
}

abbrev pub same_fd : ℤ → ℤ → Bool
same_fd (pos a) (pos b) = a == b
same_fd (negsuc a) (negsuc b) = a == b
same_fd (pos a) (negsuc b) = false
same_fd (negsuc a) (pos b) = false

pub data IoEvent : Type 0 where
  read write edge : IoEvent

abbrev pub same_event : IoEvent → IoEvent → Bool
same_event read read = true
same_event write write = true
same_event edge edge = true
same_event _ _ = false

-- The bits of an `int` that stand for the three events.
abbrev pub IoSet : Type 0
IoSet = IoEvent → Bool

abbrev pub no_events : IoSet
no_events e = false

pub data Op : Type 0 where
  ctl_add ctl_change ctl_del : Op

pub record EpollEvent : Type 0 where
  pub events : IoSet
  pub target : ℕ

pub record Call : Type 0 where
  pub op : Op
  pub on : ℤ
  pub event : Option EpollEvent
  pub answer : Bool

pub record Reactor (T : Type 0) : Type 0 where
  pub wakeup_fd : ℤ
  pub timer_fd : ℤ
  pub stop : Bool
  pub is_looping : Bool
  pub thread_idx : ℤ
  pub is_sub_reactor : Bool
  pub fds : List ℤ
  pub pending_add_fds : List (ℤ × EpollEvent)
  pub pending_del_fds : List ℤ
  pub pending_tasks : List (Option T)
  pub calls : List Call
  pub wakes : ℕ

-- find(fds_.begin(), fds_.end(), fd) != fds_.end()
unfoldable pub has_fd : ℤ → List ℤ → Bool
has_fd fd [] = false
has_fd fd (x ∷ xs) = same_fd x fd || has_fd fd xs

-- fds_.erase(it) at the first place where `fd` stands.
unfoldable pub erase_fd : ℤ → List ℤ → List ℤ
erase_fd fd [] = []
erase_fd fd (x ∷ xs) = let rest = erase_fd fd xs in if same_fd x fd then xs else x ∷ rest

-- insert() into a std::map, which is ordered by its keys: a key that is there keeps its value.
unfoldable pub insert_fd : ℤ → EpollEvent → List (ℤ × EpollEvent) → List (ℤ × EpollEvent)
insert_fd fd e [] = (fd, e) ∷ []
insert_fd fd e ((k, v) ∷ m) =
    let rest = insert_fd fd e m in
    if same_fd k fd then (k, v) ∷ m else if ltb_ℤ fd k then (fd, e) ∷ (k, v) ∷ m else (k, v) ∷ rest

module _ {T : Type 0} where
  unfoldable pub wakeup : Reactor T → Reactor T
  wakeup r = if not r.is_looping then r else record r { wakes = r.wakes + 1 }

  unfoldable pub stop_loop : Reactor T → Reactor T
  unfolding wakeup
  stop_loop r = if not r.stop && r.is_looping then wakeup (record r { stop = true }) else r

  unfoldable pub add_task : Option T → Bool → Reactor T → Reactor T
  unfolding wakeup
  add_task task is_wakeup r =
      let r' = record r { pending_tasks = r.pending_tasks ++ (task ∷ []) } in
      if is_wakeup then wakeup r' else r'

  -- The overload for a vector of tasks.
  unfoldable pub add_tasks : List (Option T) → Bool → Reactor T → Reactor T
  unfolding wakeup
  add_tasks [] is_wakeup r = r
  add_tasks (t ∷ tasks) is_wakeup r =
      let r' = record r { pending_tasks = r.pending_tasks ++ (t ∷ tasks) } in
      if is_wakeup then wakeup r' else r'

module _ {T : Type 0} (epoll_ctl : List Call → Op → ℤ → Bool) where
  -- One call of epoll_ctl.
  unfoldable pub control : Op → ℤ → Option EpollEvent → Reactor T → Reactor T
  control op fd event r =
      let call : Call = record {
        op = op;
        on = fd;
        event = event;
        answer = epoll_ctl r.calls op fd;
      } in
      record r { calls = call ∷ r.calls }

  unfoldable pub add_event_in_loop_thread : ℤ → EpollEvent → Reactor T → Reactor T
  unfolding has_fd control
  add_event_in_loop_thread fd event r =
      let old = has_fd fd r.fds in
      let op = if old then ctl_change else ctl_add in
      let r' = control op fd (some event) r in
      if not (epoll_ctl r.calls op fd)
      then r'
      else if old
      then r'
      else record r' { fds = r'.fds ++ (fd ∷ []) }

  unfoldable pub del_event_in_loop_thread : ℤ → Reactor T → Reactor T
  unfolding has_fd control erase_fd
  del_event_in_loop_thread fd r =
      if not (has_fd fd r.fds)
      then r
      else (let r' = control ctl_del fd none r in record r' { fds = erase_fd fd r'.fds })

  unfoldable pub add_event : Bool → ℤ → EpollEvent → Bool → Reactor T → Reactor T
  unfolding add_event_in_loop_thread insert_fd wakeup
  add_event in_loop fd event is_wakeup r =
      let r' = record r { pending_add_fds = insert_fd fd event r.pending_add_fds } in
      if same_fd fd (negsuc 0)
      then r
      else if in_loop
      then add_event_in_loop_thread fd event r
      else if is_wakeup
      then wakeup r'
      else r'

  unfoldable pub del_event : Bool → ℤ → Bool → Reactor T → Reactor T
  unfolding del_event_in_loop_thread wakeup
  del_event in_loop fd is_wakeup r =
      let r' = record r { pending_del_fds = r.pending_del_fds ++ (fd ∷ []) } in
      if same_fd fd (negsuc 0)
      then r
      else if in_loop
      then del_event_in_loop_thread fd r
      else if is_wakeup
      then wakeup r'
      else r'

pub record FdEvent (T : Type 0) : Type 0 where
  pub fd : ℤ
  pub read_callback : Option T
  pub write_callback : Option T
  pub listen_events : IoSet
  -- Is `reactor_` set? It is then the reactor of the model.
  pub attached : Bool
  pub coroutine : Option ℕ

module _ {T : Type 0} where
  -- FdEvent(int fd)
  unfoldable pub new_fd_event : ℤ → FdEvent T
  new_fd_event fd = record {
    fd = fd;
    read_callback = none;
    write_callback = none;
    listen_events = no_events;
    attached = false;
    coroutine = none;
  }

  unfoldable pub set_call_back : IoEvent → Option T → FdEvent T → FdEvent T
  set_call_back read cb e = record e { read_callback = cb }
  set_call_back write cb e = record e { write_callback = cb }
  set_call_back edge cb e = e

  unfoldable pub get_call_back : IoEvent → FdEvent T → Option T
  get_call_back read e = e.read_callback
  get_call_back write e = e.write_callback
  get_call_back edge e = none

module _ {T : Type 0} (epoll_ctl : List Call → Op → ℤ → Bool) (in_loop : Bool) (this : ℕ) where
  unfoldable pub update_to_reactor : FdEvent T → Reactor T → FdEvent T × Reactor T
  unfolding add_event
  update_to_reactor e r = (
    record e { attached = true },
    add_event epoll_ctl in_loop e.fd (record { events = e.listen_events; target = this }) true r,
  )

  unfoldable pub unregister_from_reactor : FdEvent T → Reactor T → FdEvent T × Reactor T
  unfolding del_event
  unregister_from_reactor e r = (
    record e {
      attached = true;
      listen_events = no_events;
      read_callback = none;
      write_callback = none;
    },
    del_event epoll_ctl in_loop e.fd true r,
  )

  unfoldable pub add_listen_events : IoEvent → FdEvent T → Reactor T → FdEvent T × Reactor T
  unfolding update_to_reactor
  add_listen_events event e r =
      if e.listen_events event
      then (e, r)
      else update_to_reactor
          (record e { listen_events = λ x. same_event x event || e.listen_events x }) r

  unfoldable pub del_listen_events : IoEvent → FdEvent T → Reactor T → FdEvent T × Reactor T
  unfolding update_to_reactor
  del_listen_events event e r =
      if e.listen_events event
      then update_to_reactor
          (record e { listen_events = λ x. not (same_event x event) && e.listen_events x }) r
      else (e, r)

-- The loop that fills a vector of FdEvents: `n` more from number `i` on.
unfoldable pub fill : {T : Type 0} → ℕ → ℕ → List (FdEvent T)
unfolding new_fd_event
fill zero i = []
fill (suc n) i = new_fd_event (pos i) ∷ fill n (i + 1)

-- static_cast<int>(fd * 1.5)
abbrev pub grown : ℕ → ℕ
grown fd = 3 * fd / 2

abbrev pub found_event :
    {T : Type 0} → List (FdEvent T) → Option (FdEvent T) → Outcome (FdEvent T × List (FdEvent T))
found_event fds none = fault
found_event fds (some e) = ok (e, fds)

-- fds_[fd]
abbrev pub at_index : {T : Type 0} → ℕ → List (FdEvent T) → Outcome (FdEvent T × List (FdEvent T))
at_index fd fds = found_event fds (get_elem? fds fd)

-- FdEventContainer::GetFdEvent, with the vector behind it.
unfoldable pub get_fd_event :
    {T : Type 0} → ℤ → List (FdEvent T) → Outcome (FdEvent T × List (FdEvent T))
unfolding fill
get_fd_event (negsuc n) fds = fault
get_fd_event (pos fd) fds =
    if ltb fd (length fds)
    then at_index fd fds
    else at_index fd (fds ++ fill (grown fd - length fds) (length fds))
