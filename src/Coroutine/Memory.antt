-- ===== src/Coroutine/Memory.antt =====
-- coroutine/memory.cpp: one malloc of `block_count` stacks of `block_size` bytes. Addresses are
-- numbers; `start` is what malloc returned, which the constructor asserts not to be null: a failed assert
-- ends the program, and is undefined here.
pub mod Blocks
use tirpc.Prelude.{
  ℕ, zero, suc, ◌+◌, ◌-◌, ◌*◌, ◌/◌, Bool, true, false, ◌&&◌, ◌||◌, List, [], ◌∷◌, Option, none,
  some, if◌then◌else◌, ltb, leb, ℤ, pos, ◌+ℤ◌, ◌-ℤ◌, length, set, replicate, Outcome, ok, fault,
}

pub record Memory : Type 0 where
  pub block_size : ℕ
  pub block_count : ℕ
  pub start : ℕ
  pub ref_count : ℤ
  pub blocks : List Bool

abbrev pub fresh : ℕ → ℕ → ℕ → Memory
fresh address block_size block_count = record {
  block_size = block_size;
  block_count = block_count;
  start = address;
  ref_count = pos 0;
  blocks = replicate block_count false;
}

-- Memory(block_size, block_count), whose size is an `int`.
unfoldable pub make : ℕ → ℕ → ℕ → Outcome Memory
make address block_size block_count =
    if ltb (block_size * block_count) 2_147_483_648 && ltb 0 address
    then ok (fresh address block_size block_count)
    else fault

abbrev pub end_of : Memory → ℕ
end_of m = m.start + m.block_size * m.block_count - 1

-- The loop over `blocks_`: the first index from `i` on whose block is free.
unfoldable pub first_free : List Bool → ℕ → Option ℕ
first_free [] i = none
first_free (used ∷ bs) i = let rest = first_free bs (i + 1) in if used then rest else some i

-- GetBlock behind the loop, at the index that it found; `none` is a null pointer.
unfoldable pub take_block : Memory → Option ℕ → Option ℕ × Memory
take_block m none = (none, m)
take_block m (some t) = (
  some (m.start + t * m.block_size),
  record m { blocks = set m.blocks t true; ref_count = m.ref_count +ℤ pos 1 },
)

unfoldable pub get_block : Memory → Option ℕ × Memory
unfolding first_free take_block
get_block m = take_block m (first_free m.blocks 0)

unfoldable pub has_block : ℕ → Memory → Bool
has_block block m = leb m.start block && leb block (end_of m)

unfoldable pub back_block : ℕ → Memory → Memory
back_block block m = if ltb (end_of m) block || ltb block m.start then m else record m {
  blocks = set m.blocks ((block - m.start) / m.block_size) false;
  ref_count = m.ref_count -ℤ pos 1;
}
