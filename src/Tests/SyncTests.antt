-- ===== src/Tests/SyncTests.antt =====
-- A mutex with sleepers, and a pool with tasks.
use tirpc.Mutex.{CoroutineMutex}
use tirpc.Mutex.Waking.{
  History, InOrder, locks, unlocks, after, after-InOrder, lock_each, unlock-Stranded,
}
use tirpc.Prelude.{ℕ, true, false, [], ◌∷◌, ◌++◌, none, some, fault, ◌≡◌, refl, arith}
use tirpc.ThreadPool.{copies, pops, moves}
use tirpc.ThreadPool.Racing.{going, Done, run_twice}

abbrev asleep : CoroutineMutex ℕ
asleep = record { locked = true; sleep_cors = 2 ∷ 3 ∷ [] }

abbrev history : History ℕ
history = record { mutex = asleep; slept = 2 ∷ 3 ∷ []; woken = [] }

after-InOrder_example :
    InOrder
      (after (unlocks (some 1) ∷ locks (some 4) ∷ locks (some 5) ∷ unlocks (some 4) ∷ []) history)
after-InOrder_example =
    after-InOrder (unlocks (some 1) ∷ locks (some 4) ∷ locks (some 5) ∷ unlocks (some 4) ∷ [])
      history refl

unlock-Stranded_example :
    after {C = ℕ}
      (locks (some 1) ∷ (lock_each (2 ∷ 3 ∷ 4 ∷ []) ++ (unlocks (some 1) ∷ unlocks (some 2) ∷ [])))
      (record { mutex = record { locked = false; sleep_cors = [] }; slept = []; woken = [] })
    ≡ record {
      mutex = record { locked = false; sleep_cors = 3 ∷ 4 ∷ [] };
      slept = 2 ∷ 3 ∷ 4 ∷ [];
      woken = 2 ∷ [];
    }
unlock-Stranded_example = unlock-Stranded 1 2 (3 ∷ 4 ∷ [])

run_twice_example :
    Done {T = ℕ} (4 ∷ 5 ∷ 5 ∷ []) (7 ∷ []) (
      moves
        (copies 0 ∷ copies 1 ∷ pops 0 ∷ pops 1 ∷ [])
        (going (5 ∷ 6 ∷ 7 ∷ []) (λ i. none) (4 ∷ [])))
    × (moves {T = ℕ}
          (copies 0 ∷ copies 1 ∷ pops 0 ∷ pops 1 ∷ [])
          (going (5 ∷ []) (λ i. none) (4 ∷ []))
        ≡ fault)
run_twice_example = run_twice {T = ℕ} 0 1 5 6 (7 ∷ []) (4 ∷ []) (λ i. none) (omega arith)
