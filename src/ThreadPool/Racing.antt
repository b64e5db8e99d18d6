-- ===== src/ThreadPool/Racing.antt =====
-- One worker, and two.
use tirpc.ThreadPool.{ThreadPool, Move, copies, pops, copy_task, pop_task, run_task, move, moves}
use tirpc.Prelude.{
  ℕ, zero, suc, true, false, List, [], ◌∷◌, ◌++◌, Option, none, some, if◌then◌else◌, ◌==◌, ==_iff,
  Outcome, ok, fault, ◌≡◌, ◌≢◌, refl, sym, ◌∙◌, append_assoc, append-nil, length, arith,
}

-- A worker that is never disturbed.
abbrev pub rounds : {T : Type 0} → ℕ → ℕ → List (Move T)
rounds i zero = []
rounds i (suc n) = copies i ∷ pops i ∷ rounds i n

-- A pool that goes on.
abbrev pub going : {T : Type 0} → List T → (ℕ → Option T) → List T → ThreadPool T
going tasks copied ran = record { tasks = tasks; stop = false; copied = copied; ran = ran }

abbrev at : {T : Type 0} → ℕ → Option T → (ℕ → Option T) → ℕ → Option T
at i o copied j = if j == i then o else copied j

same : (i : ℕ) → (i == i) ≡ true
same i = (==_iff i i).1 refl

module _ {T : Type 0} where
  one_round :
      (i : ℕ) (t : T) (tasks ran : List T) (copied : ℕ → Option T) (ms : List (Move T))
      → moves (copies i ∷ pops i ∷ ms) (going (t ∷ tasks) copied ran)
        ≡ moves ms (going tasks (at i none (at i (some t) copied)) (ran ++ (t ∷ [])))
  unfolding moves move copy_task run_task pop_task
  one_round i t tasks ran copied ms = rw (same i) refl

  -- What has been run by then, and what is left in the queue.
  abbrev pub Done : List T → List T → Outcome (ThreadPool T) → Type 0
  Done ran left m = (p : ThreadPool T) × (m ≡ ok p) × (p.ran ≡ ran) × (p.tasks ≡ left)

  -- A worker that no other one disturbs runs each task that waits once, in the order of the queue, and
  -- leaves the queue empty.
  alone-Done :
      (i : ℕ) (tasks ran : List T) (copied : ℕ → Option T)
      → Done (ran ++ tasks) [] (moves (rounds i (length tasks)) (going tasks copied ran))
  unfolding moves
  alone-Done i [] ran copied = (going [] copied ran, refl, sym (append-nil ran), refl)
  alone-Done i (t ∷ tasks) ran copied =
      let (p, e, f, g) = alone-Done i tasks (ran ++ (t ∷ [])) (at i none (at i (some t) copied)) in
      (
        p,
        one_round i t tasks ran copied (rounds i (length tasks)) ∙ e,
        f ∙ append_assoc ran (t ∷ []) tasks,
        g,
      )

  -- Two different workers that both copy before either pops: where two tasks wait or more, they run the
  -- first one twice, and the second one is popped and never run; where only one waits, the second pop is
  -- undefined.
  pub run_twice :
      (i j : ℕ) (t lost : T) (tasks ran : List T) (copied : ℕ → Option T)
      → i ≢ j
      → Done
          (ran ++ (t ∷ t ∷ []))
          tasks
          (moves (copies i ∷ copies j ∷ pops i ∷ pops j ∷ []) (going (t ∷ lost ∷ tasks) copied ran))
        × (moves (copies i ∷ copies j ∷ pops i ∷ pops j ∷ []) (going (t ∷ []) copied ran) ≡ fault)
  unfolding moves move copy_task run_task pop_task
  run_twice i j t lost tasks ran copied h =
      let apart : (i == j) ≡ false = ground arith in
      let apart' : (j == i) ≡ false = ground arith in
      (
        (
          going tasks (at j none (at i none (at j (some t) (at i (some t) copied))))
              ((ran ++ (t ∷ [])) ++ (t ∷ [])),
          rw (same i, apart) (rw (same j, apart') refl),
          append_assoc ran (t ∷ []) (t ∷ []),
          refl,
        ),
        rw (same i, apart) (rw (same j, apart') refl),
      )
