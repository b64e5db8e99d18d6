-- ===== src/Tests/CoroutineTests.antt =====
-- The coroutine stacks on a small memory.
use tirpc.Coroutine.Memory.{Memory, fresh, get_block}
use tirpc.Coroutine.Memory.Blocks.{IsValid, Gives, get_block-Gives}
use tirpc.Prelude.{refl, arith}

-- Three blocks of 16 bytes at address 100.
abbrev three : Memory
three = fresh 100 16 3

three-IsValid : IsValid three
three-IsValid = record {
  has_size = omega arith;
  not_null = omega arith;
  flags = refl;
  counted = refl;
}

get_block-Gives_example : Gives three (get_block three)
get_block-Gives_example = get_block-Gives three three-IsValid
