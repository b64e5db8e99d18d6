-- ===== src/Tests/BufferTests.antt =====
-- TcpBuffer on a small vector.
use tirpc.Buffer.{TcpBuffer, make, write_to_buffer, resize_buffer, get_buffer_string}
use tirpc.Buffer.Contents.{between, IsValid, valid, contents, Yields}
use tirpc.Buffer.Writing.{write_to_buffer-Yields}
use tirpc.Buffer.Refinement.{
  writes, reads, recycles, resizes, calls, calls-refines, all_on_queue, on_queue,
}
use tirpc.Prelude.{◌≡◌, refl, [], ◌∷◌, Bytes, ok, arith, ◌>>=◌, slice, overwrite}

abbrev few : Bytes
few = 7 ∷ 8 ∷ 9 ∷ []

-- Two of six bytes are waiting.
abbrev waiting : TcpBuffer
waiting = between 1 3 (6 ∷ 7 ∷ 8 ∷ 0 ∷ 0 ∷ 0 ∷ [])

waiting-IsValid : IsValid waiting
waiting-IsValid = valid 1 3 _ (omega arith) (omega arith)

grows : (write_to_buffer few (make 2) >>= get_buffer_string) ≡ ok few
unfolding write_to_buffer get_buffer_string make resize_buffer slice overwrite
grows = refl

write_to_buffer-Yields_example : Yields (write_to_buffer few waiting) (7 ∷ 8 ∷ 7 ∷ 8 ∷ 9 ∷ [])
write_to_buffer-Yields_example = write_to_buffer-Yields few waiting waiting-IsValid (omega arith)

calls-refines_example :
    (b : TcpBuffer) × (calls (writes few ∷ reads 2 ∷ recycles 1 ∷ resizes 9 ∷ []) waiting
      ≡ ok ([] ∷ (7 ∷ 8 ∷ []) ∷ [] ∷ [] ∷ [], b))
    × IsValid b
    × (contents b ≡ 8 ∷ 9 ∷ [])
unfolding all_on_queue on_queue
calls-refines_example =
    calls-refines (writes few ∷ reads 2 ∷ recycles 1 ∷ resizes 9 ∷ []) waiting
      ([] ∷ (7 ∷ 8 ∷ []) ∷ [] ∷ [] ∷ []) (8 ∷ 9 ∷ []) waiting-IsValid (omega arith) refl
