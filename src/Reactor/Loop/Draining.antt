-- ===== src/Reactor/Loop/Draining.antt =====
-- The loop over PopSome in Reactor::Loop runs its queue down, in the order of the queue.
use tirpc.Prelude.{
  ℕ, zero, suc, ◌+◌, ◌<◌, false, List, [], ◌∷◌, ◌++◌, some, ◌==◌, ◌≡◌, refl, sym, ap, ◌∙◌, ok,
  length, get_elem?, set, take, drop, take-append-drop, length-drop, arith,
}
use tirpc.Reactor.Loop.{Thread, World, resume_tasks, drain, fuel_of, steal_or_drain, on_thread}
use tirpc.Reactor.TaskQueue.Stealing.{pop_some-take}

suc_positive : (m : ℕ) → (suc m == 0) ≡ false
suc_positive m = ground arith

set-set : {A : Type 0} (xs : List A) (i : ℕ) (a b : A) → set (set xs i a) i b ≡ set xs i b
set-set [] i a b = refl
set-set (x ∷ xs) zero a b = refl
set-set (x ∷ xs) (suc i) a b = ap (λ r. x ∷ r) (set-set xs i a b)

get_elem?-set_self :
    {A : Type 0} (xs : List A) (i : ℕ) (a b : A)
    → get_elem? xs i ≡ some a
    → get_elem? (set xs i b) i ≡ some b
get_elem?-set_self [] i a b h = cc h
get_elem?-set_self (x ∷ xs) zero a b h = refl
get_elem?-set_self (x ∷ xs) (suc i) a b h = get_elem?-set_self xs i a b h

fuel_of-some :
    (i : ℕ) (qs : List (List ℕ)) (q : List ℕ)
    → get_elem? qs i ≡ some q
    → fuel_of i qs ≡ length q + 1
unfolding fuel_of
fuel_of-some i qs q h = rw (h, fuel_of) refl

module _ {T : Type 0} (resume : ℕ → Thread T → Thread T) where
  resume_tasks-append :
      (xs ys : List ℕ) (t : Thread T)
      → resume_tasks resume (xs ++ ys) t ≡ resume_tasks resume ys (resume_tasks resume xs t)
  unfolding resume_tasks
  resume_tasks-append [] ys t = refl
  resume_tasks-append (x ∷ xs) ys t = resume_tasks-append xs ys _

  -- The queue run down, and its tasks resumed.
  abbrev pub drained : List ℕ → ℕ → World T → World T
  drained q i w = record { thread = resume_tasks resume q w.thread; queues = set w.queues i [] }

  drain_stops :
      (n i : ℕ) (w : World T)
      → get_elem? w.queues i ≡ some []
      → drain resume (suc n) i w ≡ ok (drained [] i w)
  unfolding drain resume_tasks
  drain_stops n i w h = rw (pop_some-take i 16 w.queues [] h) refl

  drain_batch :
      (n i p : ℕ) (q : List ℕ) (w : World T)
      → get_elem? w.queues i ≡ some (p ∷ q)
      → drain resume (suc n) i w
        ≡ drain resume n i (record {
          thread = resume_tasks resume (take 16 (p ∷ q)) w.thread;
          queues = set w.queues i (drop 16 (p ∷ q));
        })
  unfolding drain on_thread
  drain_batch n i p q w h =
      rw (pop_some-take i 16 w.queues (p ∷ q) h) (rw (suc_positive (length (take 15 q))) refl)

  drained_batch :
      (i : ℕ) (q : List ℕ) (w : World T)
      → ok (
          drained (drop 16 q) i (record {
            thread = resume_tasks resume (take 16 q) w.thread;
            queues = set w.queues i (drop 16 q);
          }))
        ≡ ok (drained q i w)
  drained_batch i q w =
      let t =
        sym (resume_tasks-append (take 16 q) (drop 16 q) w.thread)
        ∙ ap (λ r. resume_tasks resume r w.thread) (take-append-drop 16 q) in
      let e = set-set w.queues i (drop 16 q) [] in λ k. ok (record { thread = t k; queues = e k })

  drain_lem :
      (n i : ℕ) (q : List ℕ) (w : World T)
      → get_elem? w.queues i ≡ some q
      → length q < n
      → drain resume n i w ≡ ok (drained q i w)
  drain_lem zero i q w h l = elim l [ ]
  drain_lem (suc n) i [] w h l = drain_stops n i w h
  drain_lem (suc n) i (p ∷ q) w h l =
      drain_batch n i p q w h
      ∙ drain_lem n i (drop 16 (p ∷ q)) _ (get_elem?-set_self w.queues i _ _ h)
          (omega (arith, length-drop 15 q))
      ∙ drained_batch i (p ∷ q) w

  -- The loop that takes tasks sixteen at a time from a queue that is there empties that queue, leaves
  -- the others alone, and has resumed each task of it once, oldest first, as if there were no batches.
  pub steal_or_drain-drained :
      (i : ℕ) (q : List ℕ) (w : World T)
      → get_elem? w.queues i ≡ some q
      → steal_or_drain resume i false w ≡ ok (drained q i w)
  unfolding steal_or_drain
  steal_or_drain-drained i q w h =
      ap (λ n. drain resume n i w) (fuel_of-some i w.queues q h)
      ∙ drain_lem (length q + 1) i q w h (omega arith)
