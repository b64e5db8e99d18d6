-- ===== src/Coroutine/Pool/Giving.antt =====
-- A pool gives each coroutine to one user at a time.
use tirpc.Coroutine.Memory.{Memory, make, fresh, first_free, take_block, get_block}
use tirpc.Coroutine.Pool.{Pool, find_block, add_memory, get_more, give, get_coroutine_instanse}
use tirpc.Coroutine.Switch.{Coroutine, Thread, new_main_coroutine, need_main, new_coroutine}
use tirpc.Prelude.{
  ℕ, zero, suc, ◌+◌, ◌*◌, ◌<◌, Bool, true, false, List, [], ◌∷◌, ◌++◌, Option, none, some, pos,
  negsuc, lt→ltb, length, get_elem?, get_elem?-new, get_elem?_bound, get_elem?-set, set, Outcome,
  ok, ◌>>=◌, ◌≡◌, ◌≢◌, inl, inr, refl, sym, ap, ◌∙◌, subst, length-append, arith,
}
use tirpc.Coroutine.Pool.Finding.{Finds, find_free-Finds}

-- Every entry of the vector points to a coroutine with the entry's index, and there are blocks to give.
pub record IsValid (pool : Pool) (t : Thread) : Type 0 where
  pub known :
      (i p : ℕ) (used : Bool)
      → get_elem? pool.free_cors i ≡ some (p, used)
      → (co : Coroutine) × get_elem? t.cors p ≡ some co × (co.index ≡ pos i)
  pub has_blocks : 0 < pool.pool_size
  pub size_fits : pool.stack_size * pool.pool_size < 2_147_483_648
  pub has_main : (m : ℕ) × t.main_coroutine ≡ some m

-- The coroutine `p` exists and is marked as used, if it is one of the vector.
abbrev pub Held : Pool → Thread → ℕ → Type 0
Held pool t p =
    (p < length t.cors)
    × ((i : ℕ) (used : Bool) → get_elem? pool.free_cors i ≡ some (p, used) → used ≡ true)

abbrev pub Apart : ℕ → List ℕ → Type 0
Apart p [] = Unit
Apart p (q ∷ qs) = (p ≢ q) × Apart p qs

abbrev pub NoRepeat : List ℕ → Type 0
NoRepeat [] = Unit
NoRepeat (p ∷ ps) = Apart p ps × NoRepeat ps

-- Malloc gives no null pointer.
abbrev pub EachPositive : List ℕ → Type 0
EachPositive [] = Unit
EachPositive (a ∷ as') = (0 < a) × EachPositive as'

-- Calls of GetCoroutineInstanse one after the other.
abbrev pub gets : List ℕ → Pool → Thread → Outcome (List ℕ × Pool × Thread)
gets [] pool t = ok ([], pool, t)
gets (address ∷ more) pool t = get_coroutine_instanse address pool t >>= λ (p, pool', t').
    gets more pool' t' >>= λ (ps, pool2, t2). ok (p ∷ ps, pool2, t2)

-- What one call gives: a coroutine that nobody holds, and those that are held stay so.
abbrev pub Gives : Pool → Thread → Outcome (ℕ × Pool × Thread) → Type 0
Gives pool t o =
    (p : ℕ) × (pool' : Pool) × (t' : Thread) × (o ≡ ok (p, pool', t'))
    × IsValid pool' t'
    × Held pool' t' p
    × ((q : ℕ) → Held pool t q → Held pool' t' q × (p ≢ q))

-- Two entries with the same coroutine are one.
same_index :
    (t : Thread) (p i k : ℕ) (co : Coroutine) (used : Bool)
    → ((co2 : Coroutine) × get_elem? t.cors p ≡ some co2 × (co2.index ≡ pos k))
    → get_elem? t.cors p ≡ some co
    → co.index ≡ pos i
    → k ≢ i
    → used ≡ true
same_index t p i k co used (co2, e2, f2) e f n =
    let same : co2.index ≡ co.index =
      ap (λ o. elim o [ none ↦ co.index | some c ↦ c.index ]) (sym e2 ∙ e) in
    let same_i : k ≡ i = ap (λ z. elim z [ pos a ↦ a | negsuc a ↦ 0 ]) (sym f2 ∙ same ∙ f) in
    elim (n same_i) [ ]

not_true : false ≡ true → ⊥
not_true h = ground arith

pub need_main_same : (t : Thread) (m : ℕ) → t.main_coroutine ≡ some m → need_main t ≡ t
unfolding need_main new_main_coroutine
need_main_same t m h =
    ap (λ o. elim o as (λ o'. Thread) [ none ↦ new_main_coroutine t | some m' ↦ t ]) h

-- An entry of the vector.
give-Gives :
    (address : ℕ) (pool : Pool) (t : Thread) (i p : ℕ)
    → IsValid pool t
    → get_elem? pool.free_cors i ≡ some (p, false)
    → Gives pool t (ok (p, record pool { free_cors = set pool.free_cors i (p, true) }, t))
give-Gives address pool t i p v h =
    let (co, e, f) = v.known i p false h in
    (
      p,
      record pool { free_cors = set pool.free_cors i (p, true) },
      t,
      refl,
      record {
        known = λ k q used g. elim (get_elem?-set pool.free_cors i (p, true) k (q, used) g) [
          | inl (a, b) ↦ (co, ap (get_elem? t.cors) (ap (λ r. r.0) b) ∙ e, f ∙ ap pos (sym a))
          | inr (a, b) ↦ v.known k q used b
        ];
        has_blocks = v.has_blocks;
        size_fits = v.size_fits;
        has_main = v.has_main;
      },
      (
        get_elem?_bound t.cors p co e,
        λ k used g. elim (get_elem?-set pool.free_cors i (p, true) k (p, used) g) [
          | inl (a, b) ↦ ap (λ q. q.1) b
          | inr (a, b) ↦ same_index t p i k co used (v.known k p used b) e f a
        ],
      ),
      λ q (l, u). (
        (
          l,
          λ k used g. elim (get_elem?-set pool.free_cors i (p, true) k (q, used) g) [
            | inl (a, b) ↦ ap (λ r. r.1) b
            | inr (a, b) ↦ u k used b
          ],
        ),
        λ r. not_true (u i false (h ∙ ap (λ x. some (x, false)) r)),
      ),
    )

longer : (xs : List Coroutine) (x : Coroutine) → length xs < length (xs ++ (x ∷ []))
longer xs x = omega (arith, length-append xs (x ∷ []))

shorter :
    (xs : List Coroutine) (x : Coroutine) (q : ℕ) → q < length xs → q < length (xs ++ (x ∷ []))
shorter xs x q h = omega (arith, length-append xs (x ∷ []))

not_same : (q n : ℕ) → q < n → n ≡ q → ⊥
not_same q n h k = omega arith

outside :
    (xs : List Coroutine) (used : Bool) (co : Coroutine)
    → get_elem? xs (length xs) ≡ some co
    → used ≡ true
outside xs used co h = let l = get_elem?_bound xs (length xs) co h in ground arith

-- A coroutine that is made, whatever happens to the memories.
fresh-Gives :
    (stack : ℕ) (ms : List Memory) (pool : Pool) (t : Thread)
    → IsValid pool t
    → Gives pool t (
        new_coroutine pool.stack_size (some stack) t >>= λ (p, t').
        ok (p, record pool { memory_pool = ms }, t'))
unfolding new_coroutine need_main
fresh-Gives stack ms pool t v =
    let (m, h) = v.has_main in
    let made : Thread → Outcome (ℕ × Pool × Thread) = λ u. ok (
      length u.cors,
      record pool { memory_pool = ms },
      record u {
        cors =
            u.cors
            ++ (record {
              cor_id = u.current_coroutine_id;
              stack_size = pool.stack_size;
              stack_sp = some stack;
              is_in_cofunc = false;
              can_resume = true;
              index = negsuc 0;
              has_callback = false;
              top = none;
            }
                ∷ []);
        current_coroutine_id = u.current_coroutine_id + 1;
        coroutine_count = u.coroutine_count + 1;
      },
    ) in
    (
      length t.cors,
      record pool { memory_pool = ms },
      _,
      ap made (need_main_same t m h),
      record {
        known = λ i p used g.
            let (co, e, f) = v.known i p used g in (co, get_elem?-new t.cors _ p co e, f);
        has_blocks = v.has_blocks;
        size_fits = v.size_fits;
        has_main = v.has_main;
      },
      (
        longer t.cors _,
        λ i used g. let (co, e, f) = v.known i (length t.cors) used g in outside t.cors used co e,
      ),
      λ q (l, u). ((shorter t.cors _ q l, u), λ r. not_same q (length t.cors) l r),
    )

first_block :
    (address size n : ℕ)
    → 0 < n
    → get_block (fresh address size n) ≡ take_block (fresh address size n) (some 0)
unfolding get_block first_free
first_block address size zero h = ground arith
first_block address size (suc n) h = refl

-- The constructor of a memory returns, where malloc does.
pub make-fresh :
    (address size n : ℕ)
    → 0 < address
    → size * n < 2_147_483_648
    → make address size n ≡ ok (fresh address size n)
unfolding make
make-fresh address size n l f =
    rw (lt→ltb (size * n) 2_147_483_648 f) (rw (lt→ltb 0 address l) refl)

-- A block for a coroutine beyond the vector, out of the memories or of a new one.
more-Gives :
    (address : ℕ) (pool : Pool) (t : Thread) (o : Option (ℕ × List Memory))
    → 0 < address
    → IsValid pool t
    → Gives pool t (get_more address o pool t)
unfolding get_more add_memory
more-Gives address pool t none l v =
    let m = fresh address pool.stack_size pool.pool_size in
    rw (make-fresh address pool.stack_size pool.pool_size l v.size_fits) (
      subst
        (λ (r : Option ℕ × Memory). Gives pool t (
          new_coroutine pool.stack_size r.0 t >>= λ (p, t').
          ok (p, record pool { memory_pool = pool.memory_pool ++ (r.1 ∷ []) }, t')))
        (sym (first_block address pool.stack_size pool.pool_size v.has_blocks))
        (fresh-Gives (address + 0 * pool.stack_size)
          (pool.memory_pool ++ ((take_block m (some 0)).1 ∷ [])) pool t v))
more-Gives address pool t (some (block, ms)) l v = fresh-Gives block ms pool t v

found-Gives :
    (address : ℕ) (pool : Pool) (t : Thread) (o : Option (ℕ × ℕ))
    → 0 < address
    → IsValid pool t
    → Finds pool t 0 pool.free_cors o
    → Gives pool t (give address o pool t)
unfolding give
found-Gives address pool t none l v f = more-Gives address pool t (find_block pool.memory_pool) l v
found-Gives address pool t (some (i, p)) l v (k, e, f) =
    let same : i ≡ k = omega arith in
    give-Gives address pool t i p v (ap (get_elem? pool.free_cors) same ∙ f)

get-Gives :
    (address : ℕ) (pool : Pool) (t : Thread)
    → 0 < address
    → IsValid pool t
    → Gives pool t (get_coroutine_instanse address pool t)
unfolding get_coroutine_instanse give
get-Gives address pool t l v =
    let (o, e, f) =
      find_free-Finds pool t pool.free_cors 0
        (λ k p used h. let (co, g, i) = v.known k p used h in (co, g)) in
    subst (λ r. Gives pool t (r >>= λ found. give address found pool t)) (sym e)
      (found-Gives address pool t o l v f)

-- Calls of GetCoroutineInstanse, where malloc gives no null pointer, on a pool whose entries point to the coroutines of their index, with
-- nothing returned in between: each call gives a coroutine, no two give the same, and none gives one that
-- was held before them; the pool stays so.
pub gets-NoRepeat :
    (addresses : List ℕ) (pool : Pool) (t : Thread)
    → EachPositive addresses
    → IsValid pool t
    → (ps : List ℕ) × (pool' : Pool) × (t' : Thread) × (gets addresses pool t ≡ ok (ps, pool', t'))
      × IsValid pool' t'
      × (length ps ≡ length addresses)
      × NoRepeat ps
      × ((q : ℕ) → Held pool t q → Apart q ps)
gets-NoRepeat [] pool t l v = ([], pool, t, refl, v, refl, tt, λ q h. tt)
gets-NoRepeat (address ∷ more) pool t (a, as') v =
    let (p, pool1, t1, e, v1, h, apart) = get-Gives address pool t a v in
    let (ps, pool2, t2, f, v2, l, n, rest) = gets-NoRepeat more pool1 t1 as' v1 in
    (
      p ∷ ps,
      pool2,
      t2,
      ap
            (λ o. o >>= λ (p', pool', t').
              gets more pool' t' >>= λ (ps', pool3, t3). ok (p' ∷ ps', pool3, t3))
            e
          ∙ ap (λ o. o >>= λ (ps', pool3, t3). ok (p ∷ ps', pool3, t3)) f,
      v2,
      ap suc l,
      (rest p h, n),
      λ q k. let (k', d) = apart q k in (λ r. d (sym r), rest q k'),
    )
