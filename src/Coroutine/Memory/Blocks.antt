-- ===== src/Coroutine/Memory/Blocks.antt =====
-- Blocks are handed out once, lie apart, and come back.
use native.Mathlib.Nat.{mul-div_cancel}
use native.Mathlib.Decide.{dec_lt}
use tirpc.Coroutine.Memory.{
  Memory, end_of, first_free, take_block, get_block, has_block, back_block,
}
use tirpc.Prelude.{
  ℕ, subst, zero, suc, ◌+◌, ◌-◌, ◌*◌, ◌/◌, ◌≤◌, ◌<◌, ◌≡◌, ◌≢◌, refl, ap, ◌∙◌, ◌⊎◌, inl, inr, Bool,
  true, false, List, [], ◌∷◌, Option, none, some, if◌then◌else◌, ℤ, pos, ◌+ℤ◌, ◌-ℤ◌, sub_ℕ-pos,
  le→leb, le→ltb, length, set, get_elem?, arith, length-set,
}

abbrev pub used : List Bool → ℕ
used [] = 0
used (b ∷ bs) = (if b then 1 else 0) + used bs

-- The flags and the counter fit the memory.
pub record IsValid (m : Memory) : Type 0 where
  pub has_size : 0 < m.block_size
  pub not_null : 0 < m.start
  pub flags : length m.blocks ≡ m.block_count
  pub counted : m.ref_count ≡ pos (used m.blocks)

-- What the flags say where the search stops.
abbrev pub Search : List Bool → ℕ → Option ℕ → Type 0
Search bs i none = used bs ≡ length bs
Search bs i (some j) =
    (t : ℕ) × (j ≡ i + t)
    × (get_elem? bs t ≡ some false)
    × (t < length bs)
    × (used (set bs t true) ≡ used bs + 1)
    × (set (set bs t true) t false ≡ bs)

Search-cons : (bs : List Bool) (i : ℕ) (o : Option ℕ) → Search bs (i + 1) o → Search (true ∷ bs) i o
Search-cons bs i none s = omega arith
Search-cons bs i (some j) (t, e, f, l, u, back) =
    (suc t, omega arith, f, omega arith, omega arith, ap (λ x. true ∷ x) back)

pub first_free-Search : (bs : List Bool) (i : ℕ) → Search bs i (first_free bs i)
unfolding first_free
first_free-Search [] i = refl
first_free-Search (false ∷ bs) i = (0, omega arith, refl, omega arith, omega arith, refl)
first_free-Search (true ∷ bs) i =
    Search-cons bs i (first_free bs (i + 1)) (first_free-Search bs (i + 1))

-- What GetBlock gives: a null pointer exactly where every block is used, and else a block of the
-- memory that was free and is now counted as used. Handing it back restores the memory.
abbrev pub Gives : Memory → Option ℕ × Memory → Type 0
Gives m (none, m') = (m' ≡ m) × (used m.blocks ≡ m.block_count)
Gives m (some p, m') =
    (t : ℕ) × (p ≡ m.start + t * m.block_size)
    × (get_elem? m.blocks t ≡ some false)
    × (m'.blocks ≡ set m.blocks t true)
    × (m'.start ≡ m.start)
    × (m'.block_size ≡ m.block_size)
    × (has_block p m ≡ true)
    × (p + m.block_size ≤ end_of m + 1)
    × IsValid m'
    × (back_block p m' ≡ m)

in_memory : (t n s a : ℕ) → t < n → 0 < s → 0 < a → a + t * s + s ≤ a + s * n - 1 + 1
in_memory t n s a h k l = grind arith

index_of : (t s a : ℕ) → 0 < s → (a + t * s - a) / s ≡ t
index_of t s a h = let e : a + t * s - a ≡ t * s = omega arith in rw e (mul-div_cancel t h)

back_and_forth : (z : ℤ) (n : ℕ) → z ≡ pos n → z +ℤ pos 1 -ℤ pos 1 ≡ z
back_and_forth z n h = rw h (sub_ℕ-pos (n + 1) 1 n (omega arith))

one_more : (z : ℤ) (n k : ℕ) → z ≡ pos n → k ≡ n + 1 → z +ℤ pos 1 ≡ pos k
one_more z n k h e = rw h (rw e)

has_block-inside : (p : ℕ) (m : Memory) → m.start ≤ p → p ≤ end_of m → has_block p m ≡ true
unfolding has_block
has_block-inside p m h k = rw (le→leb m.start p h) (le→leb p (end_of m) k)

back_block-inside :
    (p t : ℕ) (m : Memory)
    → m.start ≤ p
    → p ≤ end_of m
    → (p - m.start) / m.block_size ≡ t
    → back_block p m ≡ record m { blocks = set m.blocks t false; ref_count = m.ref_count -ℤ pos 1 }
unfolding back_block
back_block-inside p t m h k e = rw (le→ltb (end_of m) p k) (rw (le→ltb p m.start h) (rw e))

take_block-some :
    (m : Memory) (t : ℕ)
    → IsValid m
    → get_elem? m.blocks t ≡ some false
    → t < length m.blocks
    → used (set m.blocks t true) ≡ used m.blocks + 1
    → set (set m.blocks t true) t false ≡ m.blocks
    → Gives m (take_block m (some t))
unfolding take_block
take_block-some m t v f l u back =
    let p = m.start + t * m.block_size in
    let m' = (take_block m (some t)).1 in
    let room =
      in_memory t m.block_count m.block_size m.start (omega (arith, v.flags)) v.has_size
        v.not_null in
    (
      t,
      refl,
      f,
      refl,
      refl,
      refl,
      has_block-inside p m (omega arith) (omega (arith, room, v.has_size)),
      room,
      record {
        has_size = v.has_size;
        not_null = v.not_null;
        flags = length-set m.blocks t true ∙ v.flags;
        counted = one_more m.ref_count (used m.blocks) _ v.counted u;
      },
      back_block-inside p t m' (omega arith) (omega (arith, room, v.has_size))
            (index_of t m.block_size m.start v.has_size)
          ∙ (λ i. record m {
            blocks = back i;
            ref_count = back_and_forth m.ref_count _ v.counted i;
          }),
    )

take_block-Gives :
    (m : Memory) (o : Option ℕ) → IsValid m → Search m.blocks 0 o → Gives m (take_block m o)
take_block-Gives m none v s = unfold take_block in (refl, s ∙ v.flags)
take_block-Gives m (some j) v (t, e, f, l, u, back) =
    let same : j ≡ t = omega arith in rw same (take_block-some m t v f l u back)

-- GetBlock on a valid memory gives a null pointer and changes nothing where every block is used,
-- and else a block of the memory that was free, with the memory still valid; BackBlock of it then
-- restores the memory as it was.
pub get_block-Gives : (m : Memory) → IsValid m → Gives m (get_block m)
unfolding get_block
get_block-Gives m v = take_block-Gives m (first_free m.blocks 0) v (first_free-Search m.blocks 0)

get_elem?-set-true : (bs : List Bool) (t : ℕ) → get_elem? (set bs t true) t ≢ some false
get_elem?-set-true [] t e = cc e
get_elem?-set-true (b ∷ bs) zero e = cc e
get_elem?-set-true (b ∷ bs) (suc t) e = get_elem?-set-true bs t e

behind : (a s t u : ℕ) → t < u → a + t * s + s ≤ a + u * s
behind a s t u h = let h' : t + 1 ≤ u = omega arith in grind arith

apart : (a s t u : ℕ) → t ≢ u → (a + t * s + s ≤ a + u * s) ⊎ (a + u * s + s ≤ a + t * s)
apart a s t u h = elim (dec_lt t u) [
  | yes l ↦ inl (behind a s t u l)
  | no l ↦ inr (behind a s u t (omega arith))
]

IsValid-behind : (m m' : Memory) (p : ℕ) → Gives m (some p, m') → IsValid m'
IsValid-behind m m' p (_, _, _, _, _, _, _, _, v, _) = v

Gives-apart :
    (m m' m'' : Memory) (p q : ℕ)
    → Gives m (some p, m')
    → Gives m' (some q, m'')
    → (p + m.block_size ≤ q) ⊎ (q + m.block_size ≤ p)
Gives-apart m m' m'' p q (t, at, _, b, s, z, _, _, _, _) (u, at', f, _, _, _, _, _, _, _) =
    let ne : t ≢ u = λ same.
      get_elem?-set-true m.blocks u
        (subst (λ x. get_elem? x u ≡ some false) (b ∙ ap (λ x. set m.blocks x true) same) f) in
    let at'' : q ≡ m.start + u * m.block_size = rw (← s, ← z) at' in
    rw (at, at'') (apart m.start m.block_size t u ne)

-- Two calls of GetBlock in a row on a valid memory, that both give a block, give blocks that do
-- not overlap.
get_block_apart :
    (m m' m'' : Memory) (p q : ℕ)
    → IsValid m
    → get_block m ≡ (some p, m')
    → get_block m' ≡ (some q, m'')
    → (p + m.block_size ≤ q) ⊎ (q + m.block_size ≤ p)
get_block_apart m m' m'' p q v e e' =
    let g = subst (Gives m) e (get_block-Gives m v) in
    Gives-apart m m' m'' p q g (subst (Gives m') e' (get_block-Gives m' (IsValid-behind m m' p g)))
