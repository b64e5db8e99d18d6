-- ===== src/Timer/Ordering.antt =====
-- The order of the pending events, and which of them DelTimerEvent takes out.
use tirpc.Prelude.{
  ℕ, ◌+◌, ◌≤◌, ◌<◌, ◌≡◌, ◌≢◌, refl, ap, ◌∙◌, ◌⊎◌, inl, inr, Bool, true, false, not, ◌&&◌, ◌||◌,
  List, [], ◌∷◌, ◌++◌, Option, none, some, if◌then◌else◌, ltb, ◌==◌, arith, Bool-cases,
}
use tirpc.Timer.{
  TimerEvent, Entry, Timer, emplace, last_key, erase_event, reset, update, set_time, set_last,
  reset_arrive_time, is_first, add_timer_event, del_timer_event, take_due, repeated, repeat_all,
  on_timer,
}

-- The keys rise from `lo` on.
abbrev pub IsSorted : ℕ → List Entry → Type 0
IsSorted lo [] = Unit
IsSorted lo ((k, x) ∷ m) = (lo ≤ k) × IsSorted k m

IsSorted-weaken : (lo lo' : ℕ) (m : List Entry) → lo' ≤ lo → IsSorted lo m → IsSorted lo' m
IsSorted-weaken lo lo' [] h s = tt
IsSorted-weaken lo lo' ((k, x) ∷ m) h (l, s) = (omega arith, s)

emplace-IsSorted :
    (key id lo : ℕ) (m : List Entry) → lo ≤ key → IsSorted lo m → IsSorted lo (emplace key id m)
unfolding emplace
emplace-IsSorted key id lo [] h s = (h, tt)
emplace-IsSorted key id lo ((k, x) ∷ m) h (l, s) = elim (Bool-cases (ltb key k)) [
  | inl e ↦ rw e (h, (ground arith, s))
  | inr e ↦ rw e (l, emplace-IsSorted key id k m (ground arith) s)
]

erase_event-IsSorted :
    (key id lo : ℕ) (m : List Entry) → IsSorted lo m → IsSorted lo (erase_event key id m)
unfolding erase_event
erase_event-IsSorted key id lo [] s = tt
erase_event-IsSorted key id lo ((k, x) ∷ m) (l, s) =
    let kept : IsSorted lo ((k, x) ∷ erase_event key id m) =
      (l, erase_event-IsSorted key id k m s) in
    let rest : IsSorted lo m = IsSorted-weaken k lo m l s in
    if_IsSorted (ltb k key) _ _ kept (if_IsSorted ((k == key) && not (x == id)) _ _ kept rest)
  where
    if_IsSorted :
        (b : Bool) (m n : List Entry)
        → IsSorted lo m
        → IsSorted lo n
        → IsSorted lo (if b then m else n)
    if_IsSorted true m n h k = h
    if_IsSorted false m n h k = k

-- The entries that the search passes over.
abbrev pub Passed : ℕ → ℕ → List Entry → Type 0
Passed key id [] = Unit
Passed key id ((k, x) ∷ m) = ((k < key) ⊎ ((k ≡ key) × (x ≢ id))) × Passed key id m

passes :
    (key id k x : ℕ) (m : List Entry)
    → (k < key) ⊎ ((k ≡ key) × (x ≢ id))
    → erase_event key id ((k, x) ∷ m) ≡ (k, x) ∷ erase_event key id m
unfolding erase_event
passes key id k x m h = ground arith

erases :
    (key id k x : ℕ) (m : List Entry)
    → ((k ≡ key) × (x ≡ id)) ⊎ (key < k)
    → erase_event key id ((k, x) ∷ m) ≡ m
unfolding erase_event
erases key id k x m h = ground arith

erase_event-Passed :
    (key id k x : ℕ) (before after : List Entry)
    → Passed key id before
    → ((k ≡ key) × (x ≡ id)) ⊎ (key < k)
    → erase_event key id (before ++ ((k, x) ∷ after)) ≡ before ++ after
erase_event-Passed key id k x [] after p h = erases key id k x after h
erase_event-Passed key id k x ((j, y) ∷ before) after (p, ps) h =
    passes key id j y _ p ∙ ap (λ r. (j, y) ∷ r) (erase_event-Passed key id k x before after ps h)

-- DelTimerEvent of an event erases the entry of that event at its arrive time; but if no entry of
-- that time is the event's, then it erases the first entry of a later time, which is another event's.
del_timer_event-erases :
    {T : Type 0} (id k x : ℕ) (before after : List Entry) (t : Timer T)
    → t.pending ≡ before ++ ((k, x) ∷ after)
    → Passed (t.events id).arrive_time id before
    → ((k ≡ (t.events id).arrive_time) × (x ≡ id)) ⊎ ((t.events id).arrive_time < k)
    → (del_timer_event id t).pending ≡ before ++ after
unfolding del_timer_event
del_timer_event-erases id k x before after t e p h =
    ap (erase_event (t.events id).arrive_time id) e ∙ erase_event-Passed _ id k x before after p h

module _ {T : Type 0} where
  set_time-pending : (now last : ℕ) (t : Timer T) → (set_time now last t).pending ≡ t.pending
  unfolding set_time
  set_time-pending now last t = ground arith

  set_last-pending : (now : ℕ) (o : Option ℕ) (t : Timer T) → (set_last now o t).pending ≡ t.pending
  unfolding set_last
  set_last-pending now none t = refl
  set_last-pending now (some last) t = set_time-pending now last t

  pub reset_arrive_time-pending :
      (now : ℕ) (t : Timer T) → (reset_arrive_time now t).pending ≡ t.pending
  unfolding reset_arrive_time
  reset_arrive_time-pending now t = set_last-pending now (last_key t.pending) t

  if_pending :
      (b : Bool) (x y : Timer T) (m : List Entry)
      → x.pending ≡ m
      → y.pending ≡ m
      → (if b then x else y).pending ≡ m
  if_pending true x y m h k = h
  if_pending false x y m h k = k

  add_timer_event-pending :
      (now id : ℕ) (b : Bool) (t : Timer T)
      → (add_timer_event now id b t).pending ≡ emplace (t.events id).arrive_time id t.pending
  unfolding add_timer_event
  add_timer_event-pending now id b t =
      let t' = record t { pending = emplace (t.events id).arrive_time id t.pending } in
      if_pending (is_first id t && b) (reset_arrive_time now t') t' _
        (reset_arrive_time-pending now t') refl

  take_due-IsSorted :
      (now lo : ℕ) (events : ℕ → TimerEvent T) (m : List Entry)
      → IsSorted lo m
      → IsSorted lo (take_due now events m).1
  unfolding take_due
  take_due-IsSorted now lo events [] s = tt
  take_due-IsSorted now lo events ((k, x) ∷ m) (l, s) =
      elim (Bool-cases (ltb now k || (events x).is_canceled)) [
        | inl e ↦ rw e (l, s)
        | inr e ↦ rw e (IsSorted-weaken k lo _ l (take_due-IsSorted now k events m s))
      ]

  add_timer_event-IsSorted :
      (now id : ℕ) (b : Bool) (t : Timer T)
      → IsSorted 0 t.pending
      → IsSorted 0 (add_timer_event now id b t).pending
  add_timer_event-IsSorted now id b t s =
      rw (add_timer_event-pending now id b t) (emplace-IsSorted _ id 0 t.pending (omega arith) s)

  repeat_all-IsSorted :
      (now : ℕ → ℕ) (i : ℕ) (xs : List ℕ) (t : Timer T)
      → IsSorted 0 t.pending
      → IsSorted 0 (repeat_all now i xs t).pending
  unfolding repeat_all
  repeat_all-IsSorted now i [] t s = s
  repeat_all-IsSorted now i (x ∷ xs) t s =
      repeat_all-IsSorted now (i + 1) xs _
        (add_timer_event-IsSorted (now i) x false (update x (reset (now i)) t) s)

  on_timer-IsSorted :
      (now : ℕ) (nows : ℕ → ℕ) (now' : ℕ) (t : Timer T)
      → IsSorted 0 t.pending
      → IsSorted 0 (on_timer now nows now' t).1.pending
  unfolding on_timer
  on_timer-IsSorted now nows now' t s =
      let due = take_due now t.events t.pending in
      rw
        (reset_arrive_time-pending now'
          (repeat_all nows 0 (repeated t.events due.0) (record t { pending = due.1 })))
        (repeat_all-IsSorted nows 0 (repeated t.events due.0) (record t { pending = due.1 })
          (take_due-IsSorted now 0 t.events t.pending s))
