-- ===== src/Timer/Firing.antt =====
-- Which tasks OnTimer runs, and when the descriptor is set to fire.
use tirpc.Prelude.{
  ℕ, ◌+◌, ◌-◌, ◌*◌, ◌/◌, ◌%◌, ◌≤◌, ◌<◌, ◌≡◌, refl, sym, ap, ◌∙◌, subst, inl, inr, true, false, List,
  [], ◌∷◌, some, if◌then◌else◌, ltb, lt→ltb, le→ltb, ltb→lt, arith, Bool-cases,
}
use tirpc.Timer.{
  TimerEvent, Entry, Timer, last_key, set_time, set_last, reset_arrive_time, take_due, tasks_of,
  repeated, repeat_all, on_timer,
}
use tirpc.Timer.Ordering.{IsSorted, reset_arrive_time-pending}

-- The events whose key is not past `now`, wherever they stand.
abbrev pub due_by : ℕ → List Entry → List ℕ
due_by now [] = []
due_by now ((k, x) ∷ m) = if ltb now k then due_by now m else x ∷ due_by now m

-- Past `now` nothing is due.
none_due : (now lo : ℕ) (m : List Entry) → now < lo → IsSorted lo m → due_by now m ≡ []
none_due now lo [] h s = refl
none_due now lo ((k, x) ∷ m) h (l, s) =
    rw (lt→ltb now k (omega arith)) (none_due now k m (omega arith) s)

-- The moment, on the clock of the calls, that the descriptor is set for.
abbrev pub alarm : ℕ → ℕ × ℕ → ℕ
alarm now (seconds, nanos) = now + seconds * 1000 + nanos / 1000000

split_interval :
    (now last : ℕ)
    → now ≤ last
    → alarm now ((last - now) / 1000, (last - now) % 1000 * 1000000) ≡ last
split_interval now last h = omega arith

module _ {T : Type 0} where
  abbrev pub NoneCanceled : (ℕ → TimerEvent T) → List Entry → Type 0
  NoneCanceled events [] = Unit
  NoneCanceled events ((k, x) ∷ m) = ((events x).is_canceled ≡ false) × NoneCanceled events m

  take_due-due_by :
      (now lo : ℕ) (events : ℕ → TimerEvent T) (m : List Entry)
      → IsSorted lo m
      → NoneCanceled events m
      → (take_due now events m).0 ≡ due_by now m
  unfolding take_due
  take_due-due_by now lo events [] s n = refl
  take_due-due_by now lo events ((k, x) ∷ m) (l, s) (c, n) = elim (Bool-cases (ltb now k)) [
    | inl e ↦ rw e (sym (none_due now k m (ltb→lt now k e) s))
    | inr e ↦ rw (e, c) (ap (λ r. x ∷ r) (take_due-due_by now k events m s n))
  ]

  -- Where the pending events are in order and none of them is cancelled, OnTimer runs the tasks of
  -- all events that are due, in their order, and of no others.
  pub on_timer-due_by :
      (now : ℕ) (nows : ℕ → ℕ) (now' : ℕ) (t : Timer T)
      → IsSorted 0 t.pending
      → NoneCanceled t.events t.pending
      → (on_timer now nows now' t).0 ≡ tasks_of t.events (due_by now t.pending)
  unfolding on_timer
  on_timer-due_by now nows now' t s n =
      ap (tasks_of t.events) (take_due-due_by now 0 t.events t.pending s n)

  take_due_blocked :
      (now k x : ℕ) (events : ℕ → TimerEvent T) (m : List Entry)
      → (events x).is_canceled ≡ true
      → take_due now events ((k, x) ∷ m) ≡ ([], (k, x) ∷ m)
  unfolding take_due
  take_due_blocked now k x events m c = elim (Bool-cases (ltb now k)) [
    | inl e ↦ rw e refl
    | inr e ↦ rw (e, c) refl
  ]

  -- Where the first pending event is cancelled, OnTimer runs nothing and every pending event stays,
  -- however many are due.
  on_timer_blocked :
      (now : ℕ) (nows : ℕ → ℕ) (now' k x : ℕ) (m : List Entry) (t : Timer T)
      → t.pending ≡ (k, x) ∷ m
      → (t.events x).is_canceled ≡ true
      → ((on_timer now nows now' t).0 ≡ []) × ((on_timer now nows now' t).1.pending ≡ t.pending)
  unfolding on_timer repeat_all repeated
  on_timer_blocked now nows now' k x m t e c =
      let stays =
        subst (λ p. take_due now t.events p ≡ ([], p)) (sym e)
          (take_due_blocked now k x t.events m c) in
      let left = λ (d : List ℕ × List Entry).
        repeat_all nows 0 (repeated t.events d.0) (record t { pending = d.1 }) in
      (
        ap (λ d. tasks_of t.events d.0) stays,
        reset_arrive_time-pending now' _ ∙ ap (λ d. (left d).pending) stays,
      )

  set_time-setting :
      (now last : ℕ) (t : Timer T)
      → now ≤ last
      → (set_time now last t).setting ≡ some ((last - now) / 1000, (last - now) % 1000 * 1000000)
  unfolding set_time
  set_time-setting now last t h = rw (le→ltb last now h) refl

  -- ResetArriveTime, where the last of the pending events is not past, sets the descriptor to fire
  -- at the time of that last one, whatever is due before it.
  reset_arrive_time-last_key :
      (now last : ℕ) (t : Timer T)
      → last_key t.pending ≡ some last
      → now ≤ last
      → (s : ℕ × ℕ) × ((reset_arrive_time now t).setting ≡ some s) × (alarm now s ≡ last)
  unfolding reset_arrive_time set_last
  reset_arrive_time-last_key now last t e h = (
    ((last - now) / 1000, (last - now) % 1000 * 1000000),
    ap (λ o. (set_last now o t).setting) e ∙ set_time-setting now last t h,
    split_interval now last h,
  )
