-- ===== src/Mutex/Waking.antt =====
-- Who waits for the mutex, and who is woken.
use tirpc.Mutex.{CoroutineMutex, Locking, enters, sleeps, refused, lock, wake, unlock}
use tirpc.Prelude.{
  true, false, List, [], ◌∷◌, ◌++◌, Option, none, some, ◌≡◌, refl, sym, ap, ◌∙◌, append-nil,
  append_assoc,
}

pub data Call (C : Type 0) : Type 0 where
  locks unlocks : Option C → Call C

-- A mutex with all coroutines that have gone to sleep on it, and all that have been woken, in order.
pub record History (C : Type 0) : Type 0 where
  pub mutex : CoroutineMutex C
  pub slept : List C
  pub woken : List C

module _ {C : Type 0} where
  abbrev pub asleep : Option C → Locking → List C
  asleep none r = []
  asleep (some cor) sleeps = cor ∷ []
  asleep (some cor) enters = []
  asleep (some cor) refused = []

  abbrev pub awake : Option C → List C
  awake none = []
  awake (some cor) = cor ∷ []

  abbrev pub called : Call C → History C → History C
  called (locks cor) h =
      let r = lock cor h.mutex in record h { mutex = r.1; slept = h.slept ++ asleep cor r.0 }
  called (unlocks cor) h =
      let r = unlock cor h.mutex in record h { mutex = r.1; woken = h.woken ++ awake r.0 }

  abbrev pub after : List (Call C) → History C → History C
  after [] h = h
  after (c ∷ calls) h = after calls (called c h)

  -- Those who have slept are those woken and, behind them, those still asleep.
  abbrev pub InOrder : History C → Type 0
  InOrder h = h.woken ++ h.mutex.sleep_cors ≡ h.slept

  lock-InOrder : (cor : Option C) (h : History C) → InOrder h → InOrder (called (locks cor) h)
  unfolding lock
  lock-InOrder none h o = o ∙ sym (append-nil h.slept)
  lock-InOrder (some cor) h o =
      elim h.mutex.locked
        as (λ b. InOrder (
          let r = lock (some cor) (record h.mutex { locked = b }) in
          record h { mutex = r.1; slept = h.slept ++ asleep (some cor) r.0 })) [
            | true ↦
                sym (append_assoc h.woken h.mutex.sleep_cors (cor ∷ []))
                ∙ ap (λ xs. xs ++ (cor ∷ [])) o
            | false ↦ o ∙ sym (append-nil h.slept)
          ]

  wake-InOrder :
      (cors : List C) (m : CoroutineMutex C) (woken slept : List C)
      → m.sleep_cors ≡ cors
      → woken ++ cors ≡ slept
      → InOrder (record {
        mutex = (wake cors m).1;
        slept = slept;
        woken = woken ++ awake (wake cors m).0;
      })
  unfolding wake
  wake-InOrder [] m woken slept e o =
      ap (λ xs. xs ++ m.sleep_cors) (append-nil woken) ∙ ap (λ xs. woken ++ xs) e ∙ o
  wake-InOrder (cor ∷ cors) m woken slept e o = append_assoc woken (cor ∷ []) cors ∙ o

  unlock-InOrder : (cor : Option C) (h : History C) → InOrder h → InOrder (called (unlocks cor) h)
  unfolding unlock
  unlock-InOrder none h o = ap (λ xs. xs ++ h.mutex.sleep_cors) (append-nil h.woken) ∙ o
  unlock-InOrder (some cor) h o =
      elim h.mutex.locked
        as (λ b. InOrder (
          let r = unlock (some cor) (record h.mutex { locked = b }) in
          record h { mutex = r.1; woken = h.woken ++ awake r.0 })) [
            | true ↦
                wake-InOrder h.mutex.sleep_cors (record h.mutex { locked = true }) h.woken h.slept
                  refl o
            | false ↦ ap (λ xs. xs ++ h.mutex.sleep_cors) (append-nil h.woken) ∙ o
          ]

-- Coroutines are woken in the order in which they went to sleep, each once: through any calls of Lock
-- and Unlock, those that have slept are those that were woken and then those still in the queue.
pub after-InOrder :
    {C : Type 0} (calls : List (Call C)) (h : History C) → InOrder h → InOrder (after calls h)
after-InOrder [] h o = o
after-InOrder (locks cor ∷ calls) h o =
    after-InOrder calls (called (locks cor) h) (lock-InOrder cor h o)
after-InOrder (unlocks cor ∷ calls) h o =
    after-InOrder calls (called (unlocks cor) h) (unlock-InOrder cor h o)

abbrev pub lock_each : {C : Type 0} → List C → List (Call C)
lock_each [] = []
lock_each (cor ∷ cors) = locks (some cor) ∷ lock_each cors

abbrev pub locked_with : {C : Type 0} → List C → History C
locked_with cors = record {
  mutex = record { locked = true; sleep_cors = cors };
  slept = cors;
  woken = [];
}

after-append :
    {C : Type 0} (xs ys : List (Call C)) (h : History C)
    → after (xs ++ ys) h ≡ after ys (after xs h)
after-append [] ys h = refl
after-append (x ∷ xs) ys h = after-append xs ys (called x h)

after-lock_each :
    {C : Type 0} (cors before : List C)
    → after (lock_each cors) (locked_with before) ≡ locked_with (before ++ cors)
unfolding lock
after-lock_each [] before = ap locked_with (sym (append-nil before))
after-lock_each (cor ∷ cors) before =
    after-lock_each cors (before ++ (cor ∷ []))
    ∙ ap locked_with (append_assoc before (cor ∷ []) cors)

-- On an open mutex on which nobody sleeps, an owner calls Lock, then `first` and any `rest` do, in this
-- order, then the owner calls Unlock, and then `first`, which that has woken: the mutex is open in the end,
-- nobody but `first` was woken, and all the `rest` are still asleep.
pub unlock-Stranded :
    {C : Type 0} (owner first : C) (rest : List C)
    → after
        (locks (some owner)
          ∷ (lock_each (first ∷ rest) ++ (unlocks (some owner) ∷ unlocks (some first) ∷ [])))
        (record { mutex = record { locked = false; sleep_cors = [] }; slept = []; woken = [] })
      ≡ record {
        mutex = record { locked = false; sleep_cors = rest };
        slept = first ∷ rest;
        woken = first ∷ [];
      }
unfolding lock unlock wake
unlock-Stranded owner first rest =
    let last = unlocks (some owner) ∷ unlocks (some first) ∷ [] in
    after-append (lock_each (first ∷ rest)) last (locked_with [])
    ∙ ap (after last) (after-lock_each (first ∷ rest) [])
