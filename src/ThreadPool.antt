-- ===== src/ThreadPool.antt =====
-- common/thread_pool.cpp. A worker copies the first task under the lock, and pops the queue and runs
-- its copy once it has let the lock go, so that these are two steps.
pub mod Racing
use tirpc.Prelude.{
  ℕ, Bool, true, false, not, List, [], ◌∷◌, ◌++◌, Option, none, some, if◌then◌else◌, ◌==◌, Outcome,
  ok, fault, ◌>>=◌,
}

pub record ThreadPool (T : Type 0) : Type 0 where
  pub tasks : List T
  pub stop : Bool
  -- The task that a worker has copied and not yet run.
  pub copied : ℕ → Option T
  pub ran : List T

-- `copies i` is a step of a worker that has found `stop_` unset.
pub data Move (T : Type 0) : Type 0 where
  copies pops : ℕ → Move T
  adds : T → Move T
  stops : Move T

module _ {T : Type 0} where
  abbrev pub with_copy : ℕ → Option T → ThreadPool T → ThreadPool T
  with_copy i o p = record p { copied = λ j. if j == i then o else p.copied j }

  -- MainFunction behind its test of `stop_` and up to Unlock: a worker that finds no task waits.
  unfoldable pub copy_task : ℕ → List T → ThreadPool T → ThreadPool T
  copy_task i [] p = p
  copy_task i (t ∷ tasks) p = with_copy i (some t) p

  -- The test at the head of a worker's loop.
  unfoldable pub not_stopped : ThreadPool T → Bool
  not_stopped p = not p.stop

  -- pop() of an empty queue is undefined.
  unfoldable pub pop_task : List T → ThreadPool T → Outcome (ThreadPool T)
  pop_task [] p = fault
  pop_task (t ∷ tasks) p = ok (record p { tasks = tasks })

  -- The rest of the round, for a worker that has copied a task.
  unfoldable pub run_task : ℕ → Option T → ThreadPool T → Outcome (ThreadPool T)
  unfolding pop_task
  run_task i none p = ok p
  run_task i (some t) p =
      pop_task p.tasks p >>= λ p'. ok (with_copy i none (record p' { ran = p'.ran ++ (t ∷ []) }))

  unfoldable pub add_task : T → ThreadPool T → ThreadPool T
  add_task t p = record p { tasks = p.tasks ++ (t ∷ []) }

  unfoldable pub stop_pool : ThreadPool T → ThreadPool T
  stop_pool p = record p { stop = true }

  unfoldable pub move : Move T → ThreadPool T → Outcome (ThreadPool T)
  unfolding copy_task run_task add_task stop_pool
  move (copies i) p = ok (copy_task i p.tasks p)
  move (pops i) p = run_task i (p.copied i) p
  move (adds t) p = ok (add_task t p)
  move stops p = ok (stop_pool p)

  unfoldable pub moves : List (Move T) → ThreadPool T → Outcome (ThreadPool T)
  unfolding move
  moves [] p = ok p
  moves (m ∷ ms) p = move m p >>= moves ms
