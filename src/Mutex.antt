-- ===== src/Mutex.antt =====
-- common/mutex.cpp: CoroutineMutex. The coroutine that calls is an argument, `none` on the main one;
-- the pthread mutex around the members makes each call one step.
pub mod Waking
use tirpc.Prelude.{Bool, true, false, List, [], ◌∷◌, ◌++◌, Option, none, some}

pub record CoroutineMutex (C : Type 0) : Type 0 where
  pub locked : Bool
  pub sleep_cors : List C

-- How a call of Lock ends: the coroutine goes on with the lock, it yields, or it is the main one.
pub data Locking : Type 0 where
  enters sleeps refused : Locking

module _ {C : Type 0} where
  unfoldable pub lock : Option C → CoroutineMutex C → Locking × CoroutineMutex C
  lock none m = (refused, m)
  lock (some cor) m = elim m.locked [
    | false ↦ (enters, record m { locked = true })
    | true ↦ (sleeps, record m { sleep_cors = m.sleep_cors ++ (cor ∷ []) })
  ]

  -- Unlock of a locked mutex, with the coroutine that a new task of the reactor will resume.
  unfoldable pub wake : List C → CoroutineMutex C → Option C × CoroutineMutex C
  wake [] m = (none, record m { locked = false })
  wake (cor ∷ cors) m = (some cor, record m { locked = false; sleep_cors = cors })

  unfoldable pub unlock : Option C → CoroutineMutex C → Option C × CoroutineMutex C
  unfolding wake
  unlock none m = (none, m)
  unlock (some cor) m = elim m.locked [ true ↦ wake m.sleep_cors m | false ↦ (none, m) ]
