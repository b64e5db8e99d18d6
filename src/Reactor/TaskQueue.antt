-- ===== src/Reactor/TaskQueue.antt =====
-- CoroutineTaskQueue of net/base/reactor.cpp: one queue of FdEvents for each thread, front first.
-- `A` stands for FdEvent *. An index outside of the vector is undefined behaviour. Each queue has
-- its mutex, and a call holds at most one of them at a time: a step here is a whole call.
pub mod Stealing
use tirpc.Prelude.{
  ℕ, suc, ◌+◌, Bool, true, false, ◌≡◌, List, [], ◌∷◌, ◌++◌, Option, none, some, if◌then◌else◌, ◌==◌,
  ℤ, pos, negsuc, ltb_ℤ, Outcome, ok, fault, ◌>>=◌, length, set, get_elem?,
}

-- `cnt == pop_cnt`
abbrev pub is_count : ℕ → ℤ → Bool
is_count cnt (pos n) = cnt == n
is_count cnt (negsuc n) = false

-- `i == thread_idx`
abbrev pub is_thread : ℕ → ℤ → Bool
is_thread i t = is_count i t

module _ {A : Type 0} where
  unfoldable pub found : Option (List A) → Outcome (List A)
  found none = fault
  found (some q) = ok q

  -- tasks_[thread_idx]
  unfoldable pub tasks_at : ℕ → List (List A) → Outcome (List A)
  unfolding found
  tasks_at i ts = found (get_elem? ts i)

  unfoldable pub push : ℕ → A → List (List A) → Outcome (List (List A))
  push i task ts = do q ← tasks_at i ts; ok (set ts i (q ++ (task ∷ [])))

  -- The loop of PopSome: the tasks that it takes, and the ones that stay.
  unfoldable pub pop_loop : List A → ℕ → ℤ → List A × List A
  pop_loop [] cnt pop_cnt = ([], [])
  pop_loop (task ∷ q) cnt pop_cnt =
      let rest = pop_loop q (cnt + 1) pop_cnt in
      if is_count cnt pop_cnt then ([], task ∷ q) else (task ∷ rest.0, rest.1)

  unfoldable pub pop_some : ℕ → ℤ → List (List A) → Outcome (List A × List (List A))
  pop_some i pop_cnt ts = do
    q ← tasks_at i ts
    ok ((pop_loop q 0 pop_cnt).0, set ts i (pop_loop q 0 pop_cnt).1)

  unfoldable pub is_empty : ℕ → List (List A) → Outcome Bool
  is_empty i ts = do q ← tasks_at i ts; ok (length q == 0)

  -- The inner loop of Steal.
  unfoldable pub steal_from : List A → ℕ → ℤ → List A × List A
  steal_from [] cnt steal_cnt = ([], [])
  steal_from (task ∷ q) cnt steal_cnt =
      let rest = steal_from q (cnt + 1) steal_cnt in
      if ltb_ℤ (pos cnt) steal_cnt then (task ∷ rest.0, rest.1) else ([], task ∷ q)

  -- The outer loop of Steal, from index `i` on.
  unfoldable pub steal_loop : List (List A) → ℕ → ℤ → ℕ → ℤ → List A × List (List A)
  steal_loop [] i thread_idx cnt steal_cnt = ([], [])
  steal_loop (q ∷ qs) i thread_idx cnt steal_cnt =
      let got = steal_from q cnt steal_cnt in
      let own = steal_loop qs (i + 1) thread_idx cnt steal_cnt in
      let rest = steal_loop qs (i + 1) thread_idx (cnt + length got.0) steal_cnt in
      if is_count cnt steal_cnt
      then ([], q ∷ qs)
      else if is_thread i thread_idx
      then (own.0, q ∷ own.1)
      else (got.0 ++ rest.0, got.1 ∷ rest.1)

  unfoldable pub steal : ℤ → ℤ → List (List A) → List A × List (List A)
  steal thread_idx steal_cnt ts = steal_loop ts 0 thread_idx 0 steal_cnt
