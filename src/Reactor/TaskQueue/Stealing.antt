-- ===== src/Reactor/TaskQueue/Stealing.antt =====
-- What threads take from the queues: oldest first, nothing lost, and Steal leaves the own queue.
use tirpc.Reactor.TaskQueue.{
  is_count, is_thread, found, tasks_at, pop_loop, pop_some, steal_from, steal_loop, steal,
}
use tirpc.Prelude.{
  subst, ℕ, zero, suc, ◌+◌, ◌-◌, ◌<◌, true, false, ◌≡◌, refl, ap, sym, ◌∙◌, inl, inr, List, [], ◌∷◌,
  ◌++◌, some, if◌then◌else◌, ◌==◌, ==_iff, ℤ, pos, ok, length, set, get_elem?, take, drop, arith,
  Bool-cases, length-take, lt→ltb, le→ltb,
}

is_same : (m n : ℕ) → m ≡ n → (m == n) ≡ true
is_same m n h = (==_iff m n).1 h

is_other : (m n : ℕ) → m < n → (m == n) ≡ false
is_other m n h = ground arith

module _ {A : Type 0} where
  pop_loop-take :
      (q : List A) (cnt n k : ℕ) → k ≡ cnt + n → pop_loop q cnt (pos k) ≡ (take n q, drop n q)
  unfolding pop_loop
  pop_loop-take [] cnt zero k h = refl
  pop_loop-take [] cnt (suc n) k h = refl
  pop_loop-take (task ∷ q) cnt zero k h = rw (is_same cnt k (omega arith)) refl
  pop_loop-take (task ∷ q) cnt (suc n) k h =
      rw (is_other cnt k (omega arith)) (rw (pop_loop-take q (cnt + 1) n k (omega arith)) refl)

  steal_from-take :
      (q : List A) (cnt n k : ℕ) → k ≡ cnt + n → steal_from q cnt (pos k) ≡ (take n q, drop n q)
  unfolding steal_from
  steal_from-take [] cnt zero k h = refl
  steal_from-take [] cnt (suc n) k h = refl
  steal_from-take (task ∷ q) cnt zero k h = rw (le→ltb cnt k (omega arith)) refl
  steal_from-take (task ∷ q) cnt (suc n) k h =
      rw (lt→ltb cnt k (omega arith)) (rw (steal_from-take q (cnt + 1) n k (omega arith)) refl)

  -- The tasks that Steal may take, in its order: those of all threads but one.
  abbrev pub others : ℕ → ℤ → List (List A) → List A
  others i t [] = []
  others i t (q ∷ qs) = (if is_thread i t then [] else q) ++ others (i + 1) t qs

  abbrev pub Keeps : ℕ → ℤ → List (List A) → List (List A) → Type 0
  Keeps i t ts ts' = (j : ℕ) → is_thread (i + j) t ≡ true → get_elem? ts' j ≡ get_elem? ts j

  Keeps-own :
      (q : List A) (qs left : List (List A)) (i : ℕ) (t : ℤ)
      → Keeps (i + 1) t qs left
      → Keeps i t (q ∷ qs) (q ∷ left)
  Keeps-own q qs left i t keep zero h = refl
  Keeps-own q qs left i t keep (suc j) h =
      let e : i + 1 + j ≡ i + suc j = omega arith in keep j (rw e h)

  Keeps-other :
      (q q' : List A) (qs left : List (List A)) (i : ℕ) (t : ℤ)
      → is_thread i t ≡ false
      → Keeps (i + 1) t qs left
      → Keeps i t (q ∷ qs) (q' ∷ left)
  Keeps-other q q' qs left i t other keep zero h =
      let e : i + 0 ≡ i = omega arith in
      let h' : is_thread i t ≡ true = rw (← e) h in cc (other, h')
  Keeps-other q q' qs left i t other keep (suc j) h =
      let e : i + 1 + j ≡ i + suc j = omega arith in keep j (rw e h)

  abbrev pub Steals : ℕ → ℤ → ℕ → List (List A) → List A × List (List A) → Type 0
  Steals i t n ts (got, ts') =
      (got ≡ take n (others i t ts))
      × (others i t ts' ≡ drop n (others i t ts))
      × (length ts' ≡ length ts)
      × Keeps i t ts ts'

  take-append_split :
      (n : ℕ) (xs ys : List A) → take n (xs ++ ys) ≡ take n xs ++ take (n - length xs) ys
  take-append_split zero [] ys = refl
  take-append_split zero (x ∷ xs) ys = let e : 0 - suc (length xs) ≡ 0 = omega arith in rw e refl
  take-append_split (suc n) [] ys = let e : suc n - 0 ≡ suc n = omega arith in rw e refl
  take-append_split (suc n) (x ∷ xs) ys =
      let e : suc n - suc (length xs) ≡ n - length xs = omega arith in
      rw e (ap (λ r. x ∷ r) (take-append_split n xs ys))

  drop-append_split :
      (n : ℕ) (xs ys : List A) → drop n (xs ++ ys) ≡ drop n xs ++ drop (n - length xs) ys
  drop-append_split zero [] ys = refl
  drop-append_split zero (x ∷ xs) ys = let e : 0 - suc (length xs) ≡ 0 = omega arith in rw e refl
  drop-append_split (suc n) [] ys = let e : suc n - 0 ≡ suc n = omega arith in rw e refl
  drop-append_split (suc n) (x ∷ xs) ys =
      let e : suc n - suc (length xs) ≡ n - length xs = omega arith in
      rw e (drop-append_split n xs ys)

  Steals-own :
      (q : List A) (qs : List (List A)) (i n : ℕ) (t : ℤ) (r : List A × List (List A))
      → is_thread i t ≡ true
      → Steals (i + 1) t n qs r
      → Steals i t n (q ∷ qs) (r.0, q ∷ r.1)
  Steals-own q qs i n t (got, left) e (h, h', l, keep) =
      rw e (h, h', ap suc l, Keeps-own q qs left i t keep)

  Steals-other :
      (q : List A) (qs : List (List A)) (i n : ℕ) (t : ℤ) (r : List A × List (List A))
      → is_thread i t ≡ false
      → Steals (i + 1) t (n - length q) qs r
      → Steals i t n (q ∷ qs) (take n q ++ r.0, drop n q ∷ r.1)
  Steals-other q qs i n t (got, left) e (h, h', l, keep) = rw e (
    ap (λ r. take n q ++ r) h ∙ sym (take-append_split n q (others (i + 1) t qs)),
    ap (λ r. drop n q ++ r) h' ∙ sym (drop-append_split n q (others (i + 1) t qs)),
    ap suc l,
    Keeps-other q (drop n q) qs left i t e keep,
  )

  steal_loop-own :
      (q : List A) (qs : List (List A)) (i cnt : ℕ) (t k : ℤ)
      → is_count cnt k ≡ false
      → is_thread i t ≡ true
      → steal_loop (q ∷ qs) i t cnt k
        ≡ ((steal_loop qs (i + 1) t cnt k).0, q ∷ (steal_loop qs (i + 1) t cnt k).1)
  unfolding steal_loop
  steal_loop-own q qs i cnt t k h e = rw (h, e) refl

  steal_loop-other :
      (q got left : List A) (qs : List (List A)) (i cnt : ℕ) (t k : ℤ)
      → is_count cnt k ≡ false
      → is_thread i t ≡ false
      → steal_from q cnt k ≡ (got, left)
      → steal_loop (q ∷ qs) i t cnt k ≡ (
        got ++ (steal_loop qs (i + 1) t (cnt + length got) k).0,
        left ∷ (steal_loop qs (i + 1) t (cnt + length got) k).1,
      )
  unfolding steal_loop
  steal_loop-other q got left qs i cnt t k h e e' = rw (h, e) (rw e' refl)

  steal_loop-Steals :
      (ts : List (List A)) (i cnt n k : ℕ) (t : ℤ)
      → k ≡ cnt + n
      → Steals i t n ts (steal_loop ts i t cnt (pos k))
  steal_loop-Steals [] i cnt zero k t h = unfold steal_loop in (refl, refl, refl, λ j e. refl)
  steal_loop-Steals [] i cnt (suc n) k t h = unfold steal_loop in (refl, refl, refl, λ j e. refl)
  steal_loop-Steals (q ∷ qs) i cnt zero k t h =
      unfold steal_loop in rw (is_same cnt k (omega arith)) (refl, refl, refl, λ j e. refl)
  steal_loop-Steals (q ∷ qs) i cnt (suc n) k t h =
      let go = is_other cnt k (omega arith) in
      elim (Bool-cases (is_thread i t)) [
        | inl e ↦
            subst (Steals i t (suc n) (q ∷ qs)) (sym (steal_loop-own q qs i cnt t (pos k) go e))
              (Steals-own q qs i (suc n) t _ e (steal_loop-Steals qs (i + 1) cnt (suc n) k t h))
        | inr e ↦
            subst (Steals i t (suc n) (q ∷ qs))
              (sym (
                steal_loop-other q _ _ qs i cnt t (pos k) go e (steal_from-take q cnt (suc n) k h)))
              (Steals-other q qs i (suc n) t _ e (
                steal_loop-Steals qs (i + 1) _ (suc n - length q) k t
                  (omega (arith, h, length-take (suc n) q))))
      ]

tasks_at-some :
    {A : Type 0} (i : ℕ) (ts : List (List A)) (q : List A)
    → get_elem? ts i ≡ some q
    → tasks_at i ts ≡ ok q
unfolding tasks_at found
tasks_at-some i ts q h = ap found h

-- PopSome of a nonnegative count takes that many tasks, or all, from the front of the queue of a
-- thread, oldest first, and leaves the others there.
pub pop_some-take :
    {A : Type 0} (i n : ℕ) (ts : List (List A)) (q : List A)
    → get_elem? ts i ≡ some q
    → pop_some i (pos n) ts ≡ ok (take n q, set ts i (drop n q))
unfolding pop_some
pop_some-take i n ts q h =
    rw (tasks_at-some i ts q h) (rw (pop_loop-take q 0 n n (omega arith)) refl)

-- Steal of a nonnegative count takes that many tasks, or all, from the front of the queues of the
-- other threads in their order, leaves the others there, and keeps the queue of its own thread.
steal-Steals :
    {A : Type 0} (t : ℤ) (n : ℕ) (ts : List (List A)) → Steals 0 t n ts (steal t (pos n) ts)
unfolding steal
steal-Steals t n ts = steal_loop-Steals ts 0 0 n n t (omega arith)
