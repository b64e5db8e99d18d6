-- ===== src/Server/Threads.antt =====
-- Which threads a pool of them chooses.
use tirpc.Prelude.{
  ℕ, zero, suc, ◌+◌, ◌-◌, ◌%◌, ◌≤◌, ◌<◌, Bool, true, false, none, some, if◌then◌else◌, ◌==◌,
  get_elem?, Outcome, ok, fault, ◌≡◌, ◌≢◌, refl, ap, ◌∙◌, arith, ◌↔◌, ==_iff,
}
use tirpc.Server.{IoThread, IoThreadPool, other_thread, choose_thread}

-- Every thread stands at its number.
abbrev pub Numbered : {T : Type 0} → IoThreadPool T → Type 0
Numbered {T} pool =
    (i : ℕ)
    → i < pool.size
    → (t : IoThread T) × get_elem? pool.io_threads i ≡ some t × (t.thread ≡ i)

-- The choice behind rand: `b` says that it fell on the caller's own thread, and `c` that this is the last.
pick :
    (b c : Bool) (i cur size : ℕ) (thread : ℕ)
    → (b ≡ true) ↔ (thread ≡ cur)
    → (c ≡ true) ↔ (i + 1 ≡ size)
    → thread ≡ i
    → i < size
    → 2 ≤ size
    → (j : ℕ) × ((if b then (if c then i + 1 - 2 else i + 1) else i) ≡ j) × (j < size) × (j ≢ cur)
pick true true i cur size thread h k e l m = (i + 1 - 2, refl, omega arith, ground arith)
pick true false i cur size thread h k e l m = (i + 1, refl, ground arith, ground arith)
pick false c i cur size thread h k e l m = (i, refl, l, ground arith)

other_thread-Other :
    {T : Type 0} (i cur size : ℕ) (pool : IoThreadPool T) (t : IoThread T)
    → get_elem? pool.io_threads i ≡ some t
    → t.thread ≡ i
    → i < size
    → 2 ≤ size
    → (j : ℕ) × (other_thread i (some cur) size pool ≡ ok j) × (j < size) × (j ≢ cur)
unfolding other_thread
other_thread-Other {T} i cur size pool t e f l m =
    let (j, g, k, n) =
      pick (t.thread == cur) (i + 1 == size) i cur size t.thread (==_iff t.thread cur)
        (==_iff (i + 1) size) f l m in
    (
      j,
      ap
            (λ o. elim o as (λ o'. Outcome ℕ) [
              | none ↦ fault
              | some u ↦
                  ok (if u.thread == cur then (if i + 1 == size then i + 1 - 2 else i + 1) else i)
            ])
            e
          ∙ ap ok g,
      k,
      n,
    )

choose-Other :
    {T : Type 0} (random cur size : ℕ) (pool : IoThreadPool T)
    → 2 ≤ size
    → ((i : ℕ)
        → i < size
        → (t : IoThread T) × get_elem? pool.io_threads i ≡ some t × (t.thread ≡ i))
    → (i : ℕ) × (choose_thread random (some cur) false size pool ≡ ok i) × (i < size) × (i ≢ cur)
unfolding choose_thread
choose-Other random cur zero pool h n = ground arith
choose-Other random cur (suc size) pool h n =
    let l : random % suc size < suc size = omega arith in
    let (t, e, f) = n (random % suc size) l in
    other_thread-Other (random % suc size) cur (suc size) pool t e f l h

-- For a caller on a thread `cur` of a pool of at least two threads, each at its number, and whatever rand
-- gives: the coroutine goes to a thread of the pool that is not the caller's own.
pub choose_thread-Other :
    {T : Type 0} (random cur : ℕ) (pool : IoThreadPool T)
    → 2 ≤ pool.size
    → Numbered pool
    → (i : ℕ) × (choose_thread random (some cur) false pool.size pool ≡ ok i)
      × (i < pool.size)
      × (i ≢ cur)
choose_thread-Other random cur pool h n = choose-Other random cur pool.size pool h n
