-- ===== src/Buffer.antt =====
-- net/tcp/tcp_buffer.cpp: the growing byte buffer between a socket and a codec.
-- Where a buffer grows, the new size must be an `int`; the indices lie within a vector whose size is one,
-- so their arithmetic is exact. The member `size_`, which nothing reads, is left out, and so are the log
-- lines.
pub mod Contents
pub mod Writing
pub mod Indices
pub mod Reading
pub mod Refinement
use tirpc.Prelude.{
  ℕ, ◌+◌, ◌-◌, ◌*◌, ◌/◌, Bool, false, [], ◌++◌, if◌then◌else◌, ℤ, pos, negsuc, neg, ◌+ℤ◌, ◌-ℤ◌,
  ltb_ℤ, min_ℤ, Outcome, ok, fault, throws, ◌>>=◌, Bytes, slice, overwrite, length, replicate, leb,
}

pub record TcpBuffer : Type 0 where
  pub read_index : ℤ
  pub write_index : ℤ
  pub buffer : Bytes

-- TcpBuffer(int size)
unfoldable pub make : ℕ → TcpBuffer
make size = record { read_index = pos 0; write_index = pos 0; buffer = replicate size 0 }

abbrev pub size_of : TcpBuffer → ℤ
size_of b = pos (length b.buffer)

abbrev pub readable : TcpBuffer → ℤ
readable b = b.write_index -ℤ b.read_index

abbrev pub writeable : TcpBuffer → ℤ
writeable b = size_of b -ℤ b.write_index

-- A fresh vector of `size` bytes that starts with `xs`.
abbrev pub padded : ℕ → Bytes → Bytes
padded size xs = xs ++ replicate (size - length xs) 0

-- `std::vector<char> tmp(size)` throws at a negative size.
unfoldable pub resize_buffer : ℤ → TcpBuffer → Outcome TcpBuffer
resize_buffer (pos size) b = do
  let c = min_ℤ (pos size) (readable b)
  xs ← slice b.buffer b.read_index c
  ok (record { read_index = pos 0; write_index = pos 0 +ℤ c; buffer = padded size xs })
resize_buffer (negsuc size) b = throws

-- static_cast<int>(1.5 * n)
abbrev pub one_and_half : ℤ → ℤ
one_and_half (pos n) = pos (3 * n / 2)
one_and_half (negsuc n) = neg (pos (3 * (n + 1) / 2))

-- A value that an `int` cannot hold is undefined behaviour.
abbrev pub grow_to : ℤ → TcpBuffer → Outcome TcpBuffer
grow_to n b = if ltb_ℤ n (pos 2_147_483_648) then resize_buffer n b else fault

-- The caller passes `size` bytes, which are `xs`.
unfoldable pub write_to_buffer : Bytes → TcpBuffer → Outcome TcpBuffer
write_to_buffer xs b = do
  let size = pos (length xs)
  b' ← (if ltb_ℤ (writeable b) size then grow_to (one_and_half (b.write_index +ℤ size)) b else ok b)
  v ← overwrite b'.buffer b'.write_index xs
  ok (record b' { write_index = b'.write_index +ℤ size; buffer = v })

-- The target of the copy has the buffer's size, so the source check bounds both ends.
unfoldable pub adjust_buffer : TcpBuffer → Outcome TcpBuffer
adjust_buffer b =
    if ltb_ℤ (pos (length b.buffer / 3)) b.read_index
    then (do
      xs ← slice b.buffer b.read_index (readable b)
      ok (record {
        read_index = pos 0;
        write_index = readable b;
        buffer = padded (length b.buffer) xs;
      }))
    else ok b

abbrev is_zero : ℤ → Bool
is_zero (pos n) = leb n 0
is_zero (negsuc n) = false

-- `re` is the vector that the bytes are swapped into.
unfoldable pub read_from_buffer : Bytes → ℤ → TcpBuffer → Outcome (Bytes × TcpBuffer)
unfolding adjust_buffer
read_from_buffer re size b =
    if is_zero (readable b)
    then ok (re, b)
    else (let read_size = if ltb_ℤ size (readable b) then size else readable b in
        elim read_size [
          | negsuc n ↦ throws
          | pos n ↦ do
            xs ← slice b.buffer b.read_index (pos n)
            b' ← adjust_buffer (record b { read_index = b.read_index +ℤ pos n })
            ok (xs, b')
        ])

unfoldable pub recycle_read : ℤ → TcpBuffer → Outcome TcpBuffer
recycle_read index b =
    if ltb_ℤ (size_of b) (b.read_index +ℤ index)
    then ok b
    else adjust_buffer (record b { read_index = b.read_index +ℤ index })

unfoldable pub recycle_write : ℤ → TcpBuffer → Outcome TcpBuffer
recycle_write index b =
    if ltb_ℤ (size_of b) (b.write_index +ℤ index)
    then ok b
    else adjust_buffer (record b { write_index = b.write_index +ℤ index })

unfoldable pub clear_buffer : TcpBuffer → TcpBuffer
clear_buffer b = record { read_index = pos 0; write_index = pos 0; buffer = [] }

-- `std::string re(Readable(), '0')` throws at a negative size.
unfoldable pub get_buffer_string : TcpBuffer → Outcome Bytes
get_buffer_string b = elim (readable b) [
  | negsuc n ↦ throws
  | pos n ↦ slice b.buffer b.read_index (pos n)
]
