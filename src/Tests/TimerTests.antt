-- ===== src/Tests/TimerTests.antt =====
-- Three timer events, of which one is cancelled.
use tirpc.Timer.{TimerEvent, Timer, add_timer_event, on_timer}
use tirpc.Timer.Firing.{due_by, on_timer-due_by}
use tirpc.Timer.{tasks_of}
use tirpc.Prelude.{ℕ, ◌+◌, [], ◌∷◌, ◌≡◌, refl, none, arith, ◌==◌}

abbrev event_of : ℕ → TimerEvent ℕ
event_of x = record {
  arrive_time = 10 + x;
  interval = 10;
  is_repeated = x == 2;
  is_canceled = x == 3;
  task = x;
}

abbrev two : Timer ℕ
two = record { pending = (11, 1) ∷ (12, 2) ∷ []; events = event_of; setting = none }

abbrev blocked : Timer ℕ
blocked = record { pending = (9, 3) ∷ (11, 1) ∷ []; events = event_of; setting = none }

repeats : (on_timer 12 (λ i. 13) 13 two).1.pending ≡ (23, 2) ∷ []
unfolding on_timer add_timer_event
repeats = refl

on_timer-due_by_example :
    (on_timer 11 (λ i. 13) 13 two).0 ≡ tasks_of event_of (due_by 11 ((11, 1) ∷ (12, 2) ∷ []))
on_timer-due_by_example = on_timer-due_by 11 (λ i. 13) 13 two (omega arith) (refl, (refl, tt))
