-- ===== src/Tests/TimeWheelTests.antt =====
-- A wheel of three buckets.
use tirpc.TimeWheel.{fresh, add_back, loop_func, freshes, ticks, event, run}
use tirpc.TimeWheel.Lifetime.{Lives, fresh-Lives}
use tirpc.Prelude.{◌≡◌, refl, [], ◌∷◌, ok, ◌>>=◌, arith}

two_ticks :
    (fresh 1 ([] ∷ (2 ∷ []) ∷ [] ∷ []) >>= run (ticks ∷ freshes 2 ∷ ticks ∷ []))
    ≡ ok ((1 ∷ []) ∷ (2 ∷ []) ∷ [] ∷ [])
unfolding fresh add_back loop_func event run
two_ticks = refl

fresh-Lives_example : Lives 1 (ticks ∷ freshes 2 ∷ ticks ∷ ticks ∷ []) ([] ∷ (2 ∷ []) ∷ [] ∷ [])
fresh-Lives_example =
    fresh-Lives 1 (ticks ∷ freshes 2 ∷ ticks ∷ ticks ∷ []) ([] ∷ (2 ∷ []) ∷ [] ∷ [])
      (omega arith, tt) (omega arith)
