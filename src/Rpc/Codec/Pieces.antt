-- ===== src/Rpc/Codec/Pieces.antt =====
-- The readers of the codec at a piece of a package that lies at a known place.
use tirpc.Prelude.{
  ℕ, suc, ◌-◌, ◌<◌, ◌≡◌, refl, sym, ◌∙◌, true, [], ◌∷◌, ◌++◌, arith, in_int32, le→leb, ℤ, pos, ok,
  Bytes, slice-at, length, append_assoc,
}
use tirpc.Rpc.Codec.{c_str, copy_c_str}
use tirpc.Rpc.NetByte.{put_int32, get_int32, length-put_int32, of_big_endian-put_int32}

abbrev pub NoZero : Bytes → Type 0
NoZero [] = Unit
NoZero (c ∷ cs) = (0 < c) × NoZero cs

-- The same bytes with one more piece counted to the front.
pub regroup :
    {v : Bytes} (front xs rest : Bytes) → v ≡ front ++ (xs ++ rest) → v ≡ (front ++ xs) ++ rest
regroup front xs rest e = e ∙ sym (append_assoc front xs rest)

pub get_int32-at :
    (v front rest : Bytes) (z : ℤ) (o : ℕ)
    → v ≡ front ++ (put_int32 z ++ rest)
    → o ≡ length front
    → in_int32 z ≡ true
    → get_int32 v (pos o) ≡ ok z
unfolding get_int32
get_int32-at v front rest z o e h r =
    rw (slice-at v front (put_int32 z) rest o 4 e h (sym (length-put_int32 z)))
      (of_big_endian-put_int32 z r)

c_str-append : (xs rest : Bytes) → NoZero xs → c_str (xs ++ (0 ∷ rest)) ≡ ok xs
unfolding c_str
c_str-append [] rest h = refl
c_str-append (x ∷ xs) rest h = rw (c_str-append xs rest h.1) (ground arith)

pub copy_c_str-at :
    (cap : ℕ) (v front xs rest : Bytes) (o n : ℕ)
    → v ≡ front ++ (xs ++ rest)
    → o ≡ length front
    → n ≡ length xs
    → length xs < cap
    → NoZero xs
    → copy_c_str cap v (pos o) (pos n) ≡ ok xs
unfolding copy_c_str
copy_c_str-at cap v front xs rest o n e h k fits z =
    let more : cap - length xs ≡ suc (cap - length xs - 1) = omega arith in
    rw (slice-at v front xs rest o n e h k)
      (rw (le→leb (length xs) cap (omega arith)) (rw more (c_str-append xs _ z)))
