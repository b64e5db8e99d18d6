-- ===== src/Timer.antt =====
-- net/base/timer.cpp. Timer events are shared objects: `events` holds them by address, and the
-- multimap `pending`, ordered by its keys, has the addresses. A key is the arrive time at which the
-- event was put in. Each reading of the clock is an argument, in milliseconds. `setting` is the last
-- value that timerfd_settime was given, in seconds and nanoseconds. `T` stands for the tasks.
pub mod Ordering
pub mod Firing
use tirpc.Prelude.{
  ℕ, zero, suc, ◌+◌, ◌-◌, ◌*◌, ◌/◌, ◌%◌, Bool, true, false, not, ◌&&◌, ◌||◌, List, [], ◌∷◌, ◌++◌,
  Option, none, some, if◌then◌else◌, ltb, leb, ◌==◌,
}

pub record TimerEvent (T : Type 0) : Type 0 where
  pub arrive_time : ℕ
  pub interval : ℕ
  pub is_repeated : Bool
  pub is_canceled : Bool
  pub task : T

-- A key, and the address of an event.
abbrev pub Entry : Type 0
Entry = ℕ × ℕ

pub record Timer (T : Type 0) : Type 0 where
  pub pending : List Entry
  pub events : ℕ → TimerEvent T
  pub setting : Option (ℕ × ℕ)

-- emplace() puts an entry behind those of the same key.
unfoldable pub emplace : ℕ → ℕ → List Entry → List Entry
emplace key id [] = (key, id) ∷ []
emplace key id ((k, x) ∷ m) =
    let rest = emplace key id m in if ltb key k then (key, id) ∷ (k, x) ∷ m else (k, x) ∷ rest

-- rbegin()->first
unfoldable pub last_key : List Entry → Option ℕ
last_key [] = none
last_key ((k, x) ∷ []) = some k
last_key (e ∷ f ∷ m) = last_key (f ∷ m)

-- DelTimerEvent from lower_bound on: the search ends at upper_bound, and what stands there, if
-- anything does, is erased like an event that was found.
unfoldable pub erase_event : ℕ → ℕ → List Entry → List Entry
erase_event key id [] = []
erase_event key id ((k, x) ∷ m) =
    let rest = erase_event key id m in
    if ltb k key then (k, x) ∷ rest else if (k == key) && not (x == id) then (k, x) ∷ rest else m

module _ {T : Type 0} where
  -- TimerEvent(interval, is_repeated, task)
  unfoldable pub new_timer_event : ℕ → ℕ → Bool → T → TimerEvent T
  new_timer_event now interval is_repeated task = record {
    arrive_time = now + interval;
    interval = interval;
    is_repeated = is_repeated;
    is_canceled = false;
    task = task;
  }

  unfoldable pub reset : ℕ → TimerEvent T → TimerEvent T
  reset now e = record e { arrive_time = now + e.interval; is_canceled = false }

  abbrev pub update : ℕ → (TimerEvent T → TimerEvent T) → Timer T → Timer T
  update id f t = record t { events = λ x. if x == id then f (t.events id) else t.events x }

  unfoldable pub set_time : ℕ → ℕ → Timer T → Timer T
  set_time now last t =
      let interval = last - now in
      if ltb last now
      then t
      else record t { setting = some (interval / 1000, interval % 1000 * 1000000) }

  unfoldable pub set_last : ℕ → Option ℕ → Timer T → Timer T
  unfolding set_time
  set_last now none t = t
  set_last now (some last) t = set_time now last t

  unfoldable pub reset_arrive_time : ℕ → Timer T → Timer T
  unfolding last_key set_last
  reset_arrive_time now t = set_last now (last_key t.pending) t

  -- Is the event due before the first one of the multimap?
  unfoldable pub is_first : ℕ → Timer T → Bool
  is_first id t = elim t.pending [
    | [] ↦ true
    | (k, x) ∷ m ↦ ltb (t.events id).arrive_time (t.events x).arrive_time
  ]

  unfoldable pub add_timer_event : ℕ → ℕ → Bool → Timer T → Timer T
  unfolding emplace is_first reset_arrive_time
  add_timer_event now id need_reset t =
      let t' = record t { pending = emplace (t.events id).arrive_time id t.pending } in
      if is_first id t && need_reset then reset_arrive_time now t' else t'

  unfoldable pub del_timer_event : ℕ → Timer T → Timer T
  unfolding erase_event
  del_timer_event id t =
      let t' = update id (λ e. record e { is_canceled = true }) t in
      record t' { pending = erase_event (t.events id).arrive_time id t.pending }

  -- The loop of OnTimer: the events that it takes, and the ones that stay.
  unfoldable pub take_due : ℕ → (ℕ → TimerEvent T) → List Entry → List ℕ × List Entry
  take_due now events [] = ([], [])
  take_due now events ((k, x) ∷ m) =
      let rest = take_due now events m in
      if ltb now k || (events x).is_canceled then ([], (k, x) ∷ m) else (x ∷ rest.0, rest.1)

  unfoldable pub repeated : (ℕ → TimerEvent T) → List ℕ → List ℕ
  repeated events [] = []
  repeated events (x ∷ xs) =
      let rest = repeated events xs in if (events x).is_repeated then x ∷ rest else rest

  abbrev pub tasks_of : (ℕ → TimerEvent T) → List ℕ → List T
  tasks_of events [] = []
  tasks_of events (x ∷ xs) = (events x).task ∷ tasks_of events xs

  -- The loop that puts the repeated events in again; `now i` is the clock in round `i`.
  unfoldable pub repeat_all : (ℕ → ℕ) → ℕ → List ℕ → Timer T → Timer T
  unfolding reset add_timer_event
  repeat_all now i [] t = t
  repeat_all now i (x ∷ xs) t =
      repeat_all now (i + 1) xs (add_timer_event (now i) x false (update x (reset (now i)) t))

  -- OnTimer behind the reads of the descriptor: the tasks, which it runs last, and the timer.
  unfoldable pub on_timer : ℕ → (ℕ → ℕ) → ℕ → Timer T → List T × Timer T
  unfolding take_due repeated repeat_all reset_arrive_time
  on_timer now nows now' t =
      let due = take_due now t.events t.pending in
      let again = repeat_all nows 0 (repeated t.events due.0) (record t { pending = due.1 }) in
      (tasks_of t.events due.0, reset_arrive_time now' again)
