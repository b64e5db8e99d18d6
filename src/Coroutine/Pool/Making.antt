-- ===== src/Coroutine/Pool/Making.antt =====
-- The pool that the constructor makes is one to give coroutines from.
use tirpc.Coroutine.Memory.{Memory, fresh, first_free, take_block, get_block}
use tirpc.Coroutine.Memory.Blocks.{used, Search, first_free-Search}
use tirpc.Coroutine.Pool.{Pool, make_cors, new_pool}
use tirpc.Coroutine.Pool.Giving.{
  EachPositive, make-fresh, IsValid, gets, NoRepeat, gets-NoRepeat, need_main_same,
}
use tirpc.Coroutine.Switch.{
  Coroutine, Thread, deref, put, new_main_coroutine, get_current_coroutine, new_coroutine,
}
use tirpc.Prelude.{
  ℕ, zero, suc, ◌+◌, ◌*◌, ◌≤◌, ◌<◌, Bool, true, false, List, [], ◌∷◌, ◌++◌, Option, none, some, pos,
  negsuc, ◌+ℤ◌, length, length-replicate, replicate, get_elem?, get_elem?-new, set, length-set,
  Outcome, ok, fault, ◌>>=◌, ◌≡◌, refl, sym, ap, ◌∙◌, arith,
}

-- Every entry from index `i` on points to a coroutine with its index.
abbrev Indexed : ℕ → List (ℕ × Bool) → Thread → Type 0
Indexed i cors t =
    (k p : ℕ) (b : Bool)
    → get_elem? cors k ≡ some (p, b)
    → (co : Coroutine) × get_elem? t.cors p ≡ some co × (co.index ≡ pos (i + k))

Indexed-cons :
    (i p : ℕ) (cors : List (ℕ × Bool)) (t : Thread) (co : Coroutine)
    → get_elem? t.cors p ≡ some co
    → co.index ≡ pos i
    → Indexed (i + 1) cors t
    → Indexed i ((p, false) ∷ cors) t
Indexed-cons i p cors t co e f known zero q b g =
    let same : p ≡ q = ap (λ o. elim o [ none ↦ p | some r ↦ r.0 ]) g in
    let zero_more : i ≡ i + 0 = omega arith in
    (co, ap (get_elem? t.cors) (sym same) ∙ e, f ∙ ap pos zero_more)
Indexed-cons i p cors t co e f known (suc k) q b g =
    let (c, x, y) = known k q b g in
    let shift : i + 1 + k ≡ i + suc k = omega arith in (c, x, y ∙ ap pos shift)

-- A thread that has what another has, and the same main coroutine.
abbrev Extends : Thread → Thread → Type 0
Extends t t' =
    ((p : ℕ) (co : Coroutine) → get_elem? t.cors p ≡ some co → get_elem? t'.cors p ≡ some co)
    × (t'.main_coroutine ≡ t.main_coroutine)

get_elem?-last :
    {A : Type 0} (xs : List A) (x : A) → get_elem? (xs ++ (x ∷ [])) (length xs) ≡ some x
get_elem?-last [] x = refl
get_elem?-last (y ∷ xs) x = get_elem?-last xs x

set-last :
    {A : Type 0} (xs : List A) (x y : A) → set (xs ++ (x ∷ [])) (length xs) y ≡ xs ++ (y ∷ [])
set-last [] x y = refl
set-last (z ∷ xs) x y = ap (λ zs. z ∷ zs) (set-last xs x y)

-- A memory with a free block gives one, and has one less.
abbrev GivesOne : Memory → Option ℕ × Memory → Type 0
GivesOne m r =
    (p : ℕ) × (m' : Memory) × (r ≡ (some p, m'))
    × (used m'.blocks ≡ used m.blocks + 1)
    × (length m'.blocks ≡ length m.blocks)

take_block-GivesOne :
    (m : Memory) (o : Option ℕ)
    → used m.blocks < length m.blocks
    → Search m.blocks 0 o
    → GivesOne m (take_block m o)
unfolding take_block
take_block-GivesOne m none h s = (let f : ⊥ = omega arith in elim f [ ])
take_block-GivesOne m (some j) h (t, e, f, l, u, back) =
    let same : j ≡ t = omega arith in
    (
      m.start + j * m.block_size,
      record m { blocks = set m.blocks j true; ref_count = m.ref_count +ℤ pos 1 },
      refl,
      ap (λ k. used (set m.blocks k true)) same ∙ u,
      length-set m.blocks j true,
    )

get_block-GivesOne : (m : Memory) → used m.blocks < length m.blocks → GivesOne m (get_block m)
unfolding get_block
get_block-GivesOne m h =
    take_block-GivesOne m (first_free m.blocks 0) h (first_free-Search m.blocks 0)

-- The coroutine that a turn of the constructor's loop makes.
abbrev made : ℕ → ℕ → ℕ → ℕ → Coroutine
made id size stack i = record {
  cor_id = id;
  stack_size = size;
  stack_sp = some stack;
  is_in_cofunc = false;
  can_resume = true;
  index = pos i;
  has_callback = false;
  top = none;
}

abbrev with_made : ℕ → ℕ → ℕ → Thread → Thread
with_made size stack i t = record t {
  cors = t.cors ++ (made t.current_coroutine_id size stack i ∷ []);
  current_coroutine_id = t.current_coroutine_id + 1;
  coroutine_count = t.coroutine_count + 1;
}

abbrev after_new : ℕ → ℕ → ℕ → Memory → ℕ × Thread → Outcome (List (ℕ × Bool) × Memory × Thread)
after_new n i size m (p, t) = deref (some p) t >>= λ co.
    make_cors n (i + 1) size m (put p (record co { index = pos i }) t) >>= λ (cors, m2, t2).
    ok ((p, false) ∷ cors, m2, t2)

abbrev raw : ℕ → ℕ → Thread → Thread
raw size stack t = record t {
  cors = t.cors ++ (record (made t.current_coroutine_id size stack 0) { index = negsuc 0 } ∷ []);
  current_coroutine_id = t.current_coroutine_id + 1;
  coroutine_count = t.coroutine_count + 1;
}

new_coroutine-raw :
    (size stack : ℕ) (t : Thread) (mc : ℕ)
    → t.main_coroutine ≡ some mc
    → new_coroutine size (some stack) t ≡ ok (length t.cors, raw size stack t)
unfolding new_coroutine
new_coroutine-raw size stack t mc h =
    ap (λ u. ok (length u.cors, raw size stack u)) (need_main_same t mc h)

-- One turn of the loop.
make_cors_turn :
    (n i size stack : ℕ) (m m' : Memory) (t : Thread) (mc : ℕ)
    → t.main_coroutine ≡ some mc
    → get_block m ≡ (some stack, m')
    → make_cors (suc n) i size m t ≡ (
        make_cors n (i + 1) size m' (with_made size stack i t) >>= λ (cors, m2, t2).
        ok ((length t.cors, false) ∷ cors, m2, t2))
unfolding make_cors deref
make_cors_turn n i size stack m m' t mc h e =
    let co = record (made t.current_coroutine_id size stack 0) { index = negsuc 0 } in
    let last : Thread → Outcome (List (ℕ × Bool) × Memory × Thread) = λ u.
      make_cors n (i + 1) size m' u >>= λ (cors, m2, t2).
      ok ((length t.cors, false) ∷ cors, m2, t2) in
    ap (λ (r : Option ℕ × Memory). new_coroutine size r.0 t >>= after_new n i size r.1) e
    ∙ ap (λ o. o >>= after_new n i size m') (new_coroutine-raw size stack t mc h)
    ∙ ap
        (λ o. elim o as (λ o'. Outcome Coroutine) [ none ↦ fault | some c ↦ ok c ] >>= λ c.
          last (put (length t.cors) (record c { index = pos i }) (raw size stack t)))
        (get_elem?-last t.cors co)
    ∙ ap (λ cs. last (record (raw size stack t) { cors = cs }))
        (set-last t.cors co (record co { index = pos i }))

make_cors-Indexed :
    (n i size : ℕ) (m : Memory) (t : Thread) (mc : ℕ)
    → t.main_coroutine ≡ some mc
    → used m.blocks + n ≤ length m.blocks
    → (cors : List (ℕ × Bool)) × (m' : Memory) × (t' : Thread) × (make_cors n i size m t
        ≡ ok (cors, m', t'))
      × Indexed i cors t'
      × Extends t t'
unfolding make_cors
make_cors-Indexed zero i size m t mc h l =
    ([], m, t, refl, (λ k p b g. ground arith), ((λ p co g. g), refl))
make_cors-Indexed (suc n) i size m t mc h l =
    let (stack, m1, e, u, len) = get_block-GivesOne m (omega arith) in
    let t1 = with_made size stack i t in
    let (cors, m2, t2, f, known, (keep, main)) =
      make_cors-Indexed n (i + 1) size m1 t1 mc h (omega arith) in
    let co = made t.current_coroutine_id size stack i in
    (
      (length t.cors, false) ∷ cors,
      m2,
      t2,
      make_cors_turn n i size stack m m1 t mc h e
          ∙ ap (λ o. o >>= λ (cors', m3, t3). ok ((length t.cors, false) ∷ cors', m3, t3)) f,
      Indexed-cons i (length t.cors) cors t2 co (keep (length t.cors) co (get_elem?-last t.cors co))
          refl known,
      ((λ p c g. keep p c (get_elem?-new t.cors co p c g)), main),
    )

used-replicate : (n : ℕ) → used (replicate n false) ≡ 0
used-replicate zero = refl
used-replicate (suc n) = omega (arith, used-replicate n)

current_main :
    (t : Thread)
    → t.current_coroutine ≡ none
    → (mc : ℕ) × (get_current_coroutine t).main_coroutine ≡ some mc
unfolding get_current_coroutine new_main_coroutine
current_main t h = (
  length t.cors,
  ap (λ o. (elim o as (λ o'. Thread) [ none ↦ new_main_coroutine t | some c ↦ t ]).main_coroutine)
      h,
)

new_pool-IsValid :
    (address pool_size stack_size : ℕ) (t : Thread)
    → 0 < pool_size
    → stack_size * pool_size < 2_147_483_648
    → 0 < address
    → t.current_coroutine ≡ none
    → (pool : Pool) × (t' : Thread) × (new_pool address pool_size stack_size t ≡ ok (pool, t'))
      × IsValid pool t'
unfolding new_pool
new_pool-IsValid address pool_size stack_size t h s l c =
    let (mc, e) = current_main t c in
    let m = fresh address stack_size pool_size in
    let room : used m.blocks + pool_size ≤ length m.blocks =
      omega (arith, used-replicate pool_size, length-replicate pool_size false) in
    let (cors, m1, t1, f, known, (keep, main)) =
      make_cors-Indexed pool_size 0 stack_size m (get_current_coroutine t) mc e room in
    (
      record {
        pool_size = pool_size;
        stack_size = stack_size;
        free_cors = cors;
        first_memory = m1;
        memory_pool = [];
      },
      t1,
      ap
            (λ r. r >>= λ memory.
              make_cors pool_size 0 stack_size memory (get_current_coroutine t) >>= λ (cs, m2, t2).
              ok (
                record {
                  pool_size = pool_size;
                  stack_size = stack_size;
                  free_cors = cs;
                  first_memory = m2;
                  memory_pool = [];
                },
                t2,
              ))
            (make-fresh address stack_size pool_size l s)
          ∙ ap
              (λ o. o >>= λ (cs, m2, t2). ok (
                record {
                  pool_size = pool_size;
                  stack_size = stack_size;
                  free_cors = cs;
                  first_memory = m2;
                  memory_pool = [];
                },
                t2,
              ))
              f,
      record {
        known = λ i p b g.
            (let (co, x, y) = known i p b g in
              let start : 0 + i ≡ i = omega arith in (co, x, y ∙ ap pos start));
        has_blocks = h;
        size_fits = s;
        has_main = (mc, main ∙ e);
      },
    )

-- A pool of at least one coroutine that is made on a new thread, whose stacks take less than 2 ^ 31 bytes in
-- all, wherever malloc puts its memories, as long as it gives no null pointer: the constructor returns, and so does each call of GetCoroutineInstanse one after the other, more of them than
-- the pool was made for included, and no two calls give the same coroutine.
pub new_pool-NoRepeat :
    (address pool_size stack_size : ℕ) (addresses : List ℕ) (t : Thread)
    → 0 < pool_size
    → stack_size * pool_size < 2_147_483_648
    → 0 < address
    → EachPositive addresses
    → t.current_coroutine ≡ none
    → (pool : Pool) × (t1 : Thread) × (ps : List ℕ) × (pool2 : Pool) × (t2 : Thread) × (new_pool
          address pool_size stack_size t
        ≡ ok (pool, t1))
      × (gets addresses pool t1 ≡ ok (ps, pool2, t2))
      × (length ps ≡ length addresses)
      × NoRepeat ps
new_pool-NoRepeat address pool_size stack_size addresses t h s l as' c =
    let (pool, t1, e, v) = new_pool-IsValid address pool_size stack_size t h s l c in
    let (ps, pool2, t2, f, w, l, n, rest) = gets-NoRepeat addresses pool t1 as' v in
    (pool, t1, ps, pool2, t2, e, f, l, n)
