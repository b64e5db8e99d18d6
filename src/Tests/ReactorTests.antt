-- ===== src/Tests/ReactorTests.antt =====
-- Three threads with tasks in their queues.
use tirpc.Reactor.TaskQueue.{steal, steal_loop, steal_from}
use tirpc.Prelude.{ℕ, ◌≡◌, refl, List, [], ◌∷◌, pos}

abbrev three_queues : List (List ℕ)
three_queues = (1 ∷ 2 ∷ []) ∷ (3 ∷ 4 ∷ []) ∷ (5 ∷ 6 ∷ 7 ∷ []) ∷ []

takes_three :
    steal (pos 1) (pos 3) three_queues ≡ (1 ∷ 2 ∷ 5 ∷ [], [] ∷ (3 ∷ 4 ∷ []) ∷ (6 ∷ 7 ∷ []) ∷ [])
unfolding steal steal_loop steal_from
takes_three = refl
