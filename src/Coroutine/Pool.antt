-- ===== src/Coroutine/Pool.antt =====
-- coroutine/coroutine_pool.cpp: the coroutines made in advance, and the memories for more of them. The
-- addresses that malloc gives to memories are arguments. The pool is locked while it gives a coroutine; the
-- return of one, which takes no lock, is a step of its own here.
mod Finding
pub mod Giving
pub mod Making
use tirpc.Coroutine.Memory.{Memory, make, get_block, has_block, back_block}
use tirpc.Coroutine.Switch.{Coroutine, Thread, get_current_coroutine, new_coroutine, deref, put}
use tirpc.Prelude.{
  ℕ, zero, suc, ◌+◌, Bool, true, false, not, ◌&&◌, List, [], ◌∷◌, ◌++◌, Option, none, some,
  if◌then◌else◌, ltb, ℤ, pos, negsuc, set, Outcome, ok, fault, ◌>>=◌,
}

pub record Pool : Type 0 where
  pub pool_size : ℕ
  pub stack_size : ℕ
  pub free_cors : List (ℕ × Bool)
  -- The first memory, and those that were added.
  pub first_memory : Memory
  pub memory_pool : List Memory

-- The loop of the constructor from the index `i` on.
unfoldable pub make_cors : ℕ → ℕ → ℕ → Memory → Thread → Outcome (List (ℕ × Bool) × Memory × Thread)
unfolding get_block new_coroutine deref
make_cors zero i stack_size m t = ok ([], m, t)
make_cors (suc n) i stack_size m t =
    let (block, m') = get_block m in
    new_coroutine stack_size block t >>= λ (p, t'). deref (some p) t' >>= λ co.
    make_cors n (i + 1) stack_size m' (put p (record co { index = pos i }) t') >>= λ (cors, m2, t2).
    ok ((p, false) ∷ cors, m2, t2)

-- CoroutinePool::CoroutinePool
unfoldable pub new_pool : ℕ → ℕ → ℕ → Thread → Outcome (Pool × Thread)
unfolding make_cors get_current_coroutine make
new_pool address pool_size stack_size t = make address stack_size pool_size >>= λ memory.
    make_cors pool_size 0 stack_size memory (get_current_coroutine t) >>= λ (cors, m, t'). ok (
      record {
        pool_size = pool_size;
        stack_size = stack_size;
        free_cors = cors;
        first_memory = m;
        memory_pool = [];
      },
      t',
    )

-- The first loop of GetCoroutineInstanse: the index and the coroutine that it finds.
unfoldable pub find_free : List (ℕ × Bool) → ℕ → Thread → Outcome (Option (ℕ × ℕ))
unfolding deref
find_free [] i t = ok none
find_free ((p, used) ∷ cors) i t = deref (some p) t >>= λ co.
    let rest = find_free cors (i + 1) t in
    if not co.is_in_cofunc && not used then ok (some (i, p)) else rest

-- A memory that gives a block stands in the list as it is then; else the rest of the list is asked.
unfoldable pub block_or :
    Memory → List Memory → Option ℕ × Memory → Option (ℕ × List Memory) → Option (ℕ × List Memory)
block_or m ms (some block, m') rest = some (block, m' ∷ ms)
block_or m ms (none, m') none = none
block_or m ms (none, m') (some (block, ms')) = some (block, m ∷ ms')

-- The second one.
unfoldable pub find_block : List Memory → Option (ℕ × List Memory)
unfolding get_block block_or
find_block [] = none
find_block (m ∷ ms) = let rest = find_block ms in block_or m ms (get_block m) rest

-- Behind both loops; `address` is what malloc would give.
unfoldable pub add_memory : ℕ → Pool → Thread → Outcome (ℕ × Pool × Thread)
unfolding make get_block new_coroutine
add_memory address pool t = make address pool.stack_size pool.pool_size >>= λ memory.
    let (block, m) = get_block memory in
    new_coroutine pool.stack_size block t >>= λ (p, t').
    ok (p, record pool { memory_pool = pool.memory_pool ++ (m ∷ []) }, t')

unfoldable pub get_more : ℕ → Option (ℕ × List Memory) → Pool → Thread → Outcome (ℕ × Pool × Thread)
unfolding add_memory new_coroutine
get_more address none pool t = add_memory address pool t
get_more address (some (block, ms)) pool t =
    new_coroutine pool.stack_size (some block) t >>= λ (p, t').
    ok (p, record pool { memory_pool = ms }, t')

unfoldable pub give : ℕ → Option (ℕ × ℕ) → Pool → Thread → Outcome (ℕ × Pool × Thread)
unfolding get_more find_block
give address (some (i, p)) pool t =
    ok (p, record pool { free_cors = set pool.free_cors i (p, true) }, t)
give address none pool t = get_more address (find_block pool.memory_pool) pool t

unfoldable pub get_coroutine_instanse : ℕ → Pool → Thread → Outcome (ℕ × Pool × Thread)
unfolding find_free give
get_coroutine_instanse address pool t =
    find_free pool.free_cors 0 t >>= λ found. give address found pool t

-- The loop of ReturnCoroutine, which does not stop where it has found the stack.
unfoldable pub back_blocks : ℕ → List Memory → List Memory
unfolding has_block back_block
back_blocks block [] = []
back_blocks block (m ∷ ms) =
    (if has_block block m then back_block block m else m) ∷ back_blocks block ms

-- A mark that is taken off: the pair's second part.
unfoldable pub unmark : List (ℕ × Bool) → ℕ → List (ℕ × Bool)
unmark [] i = []
unmark ((p, used) ∷ cors) zero = (p, false) ∷ cors
unmark ((p, used) ∷ cors) (suc i) = (p, used) ∷ unmark cors i

-- A stack that is null lies in no memory.
unfoldable pub back : Option ℕ → Pool → Pool
unfolding back_blocks
back none pool = pool
back (some block) pool = record pool { memory_pool = back_blocks block pool.memory_pool }

unfoldable pub return_coroutine : ℕ → Pool → Thread → Outcome Pool
unfolding deref unmark back
return_coroutine p pool t = deref (some p) t >>= λ co.
    let more = back co.stack_sp pool in
    ok (elim co.index [
      | negsuc n ↦ more
      | pos i ↦
          if ltb i pool.pool_size then record pool { free_cors = unmark pool.free_cors i } else more
    ])
