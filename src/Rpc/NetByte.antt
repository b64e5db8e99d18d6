-- ===== src/Rpc/NetByte.antt =====
-- net/base/byte.hpp, and `htonl` with the copy of its result into a package: `int32_t` as four
-- bytes, the highest first.
use tirpc.Prelude.{
  ℕ, ◌+◌, ◌-◌, ◌*◌, ◌/◌, ◌%◌, ◌≡◌, refl, [], ◌∷◌, true, if◌then◌else◌, ltb, arith, ℤ, pos, negsuc,
  in_int32, Outcome, ok, fault, ◌>>=◌, Bytes, slice, length,
}

-- The bit pattern of an `int32_t`.
abbrev pub to_uint32 : ℤ → ℕ
to_uint32 (pos n) = n % 4_294_967_296
to_uint32 (negsuc n) = 4_294_967_295 - n % 4_294_967_296

abbrev pub of_uint32 : ℕ → ℤ
of_uint32 u = if ltb u 2_147_483_648 then pos u else negsuc (4_294_967_295 - u)

abbrev pub big_endian : ℕ → Bytes
big_endian u = u / 16_777_216 % 256 ∷ u / 65_536 % 256 ∷ u / 256 % 256 ∷ u % 256 ∷ []

unfoldable pub put_int32 : ℤ → Bytes
put_int32 z = big_endian (to_uint32 z)

abbrev pub of_big_endian : Bytes → Outcome ℤ
of_big_endian (a ∷ b ∷ c ∷ d ∷ []) = ok (of_uint32 (((a * 256 + b) * 256 + c) * 256 + d))
of_big_endian _ = fault

unfoldable pub get_int32 : Bytes → ℤ → Outcome ℤ
get_int32 v off = do xs ← slice v off (pos 4); of_big_endian xs

pub length-put_int32 : (z : ℤ) → length (put_int32 z) ≡ 4
unfolding put_int32
length-put_int32 z = refl

big_endian-sum :
    (u : ℕ)
    → ((u / 16_777_216 % 256 * 256 + u / 65_536 % 256) * 256 + u / 256 % 256) * 256 + u % 256
      ≡ u % 4_294_967_296
big_endian-sum u = omega arith

-- An `int32_t` survives the way over the network.
pub of_big_endian-put_int32 : (z : ℤ) → in_int32 z ≡ true → of_big_endian (put_int32 z) ≡ ok z
unfolding put_int32
of_big_endian-put_int32 (pos n) h = rw (big_endian-sum (n % 4_294_967_296)) (ground arith)
of_big_endian-put_int32 (negsuc n) h =
    rw (big_endian-sum (4_294_967_295 - n % 4_294_967_296)) (ground arith)
