-- ===== src/TimeWheel.antt =====
-- net/tcp/tcp_connection_time_wheel.cpp: buckets of connections that are shut down unless they are
-- refreshed. A number names an AbstractSlot; the buckets hold the only lasting shared pointers to it,
-- so it is destroyed, which shuts its connection down, once no bucket holds it. Front bucket first.
pub mod Lifetime
use tirpc.Prelude.{
  ℕ, ◌+◌, Bool, true, false, not, ◌&&◌, ◌||◌, List, [], ◌∷◌, ◌++◌, ◌==◌, if◌then◌else◌, Outcome, ok,
  fault, ◌>>=◌, replicate,
}

-- The loop of the constructor.
unfoldable pub make : ℕ → List (List ℕ)
make bucket_count = replicate bucket_count []

-- wheel_.back().emplace_back(slot)
unfoldable pub add_back : ℕ → List ℕ → List (List ℕ) → List (List ℕ)
add_back slot b [] = (b ++ (slot ∷ [])) ∷ []
add_back slot b (c ∷ w) = b ∷ add_back slot c w

-- back() of an empty queue is undefined, and so is pop().
unfoldable pub fresh : ℕ → List (List ℕ) → Outcome (List (List ℕ))
fresh slot [] = fault
fresh slot (b ∷ w) = ok (add_back slot b w)

unfoldable pub loop_func : List (List ℕ) → Outcome (List (List ℕ))
loop_func [] = fault
loop_func (b ∷ w) = ok (w ++ ([] ∷ []))

abbrev pub contains : ℕ → List ℕ → Bool
contains s [] = false
contains s (x ∷ xs) = s == x || contains s xs

-- Does a bucket hold the slot?
abbrev pub held : ℕ → List (List ℕ) → Bool
held s [] = false
held s (b ∷ w) = contains s b || held s w

pub data Event : Type 0 where
  freshes : ℕ → Event
  ticks : Event

unfoldable pub event : Event → List (List ℕ) → Outcome (List (List ℕ))
event (freshes s) w = fresh s w
event ticks w = loop_func w

unfoldable pub run : List Event → List (List ℕ) → Outcome (List (List ℕ))
run [] w = ok w
run (e ∷ es) w = event e w >>= run es
