-- ===== src/Prelude/Memory.antt =====
-- `memcpy` and `operator[]` on a vector of bytes, with the accesses that are undefined.
use mathlib.Core.Path.{◌≡◌, refl}
use mathlib.Core.List.{List, [], ◌∷◌, ◌++◌}
use mathlib.Core.Option.{none, some}
use native.Mathlib.Omega.{arith}
use Prim.Native.Nat.{ℕ, ◌+◌, ◌≤◌}
use tirpc.Prelude.Int.{ℤ, pos, negsuc}
use tirpc.Prelude.Lists.{length, take, drop, get_elem?, length-append, take-append, drop-append}
use tirpc.Prelude.Results.{Outcome, ok, fault}
use tirpc.Prelude.Tests.{leb, if◌then◌else◌, le→leb}

abbrev pub Bytes : Type 0
Bytes = List ℕ

-- The source of `memcpy(_, &v[off], n)`.
unfoldable pub slice : Bytes → ℤ → ℤ → Outcome Bytes
slice v (pos o) (pos n) = if leb (o + n) (length v) then ok (take n (drop o v)) else fault
slice v _ _ = fault

-- The vector after `memcpy(&v[off], xs, n)`, with n the length of xs.
unfoldable pub overwrite : Bytes → ℤ → Bytes → Outcome Bytes
overwrite v (pos o) xs =
    if leb (o + length xs) (length v)
    then ok (take o v ++ (xs ++ drop (o + length xs) v))
    else fault
overwrite v (negsuc o) xs = fault

-- `v[i]`
unfoldable pub byte_at : Bytes → ℤ → Outcome ℕ
byte_at v (pos i) = elim (get_elem? v i) [ none ↦ fault | some c ↦ ok c ]
byte_at v (negsuc i) = fault

pub slice-ok :
    (v : Bytes) (o n : ℕ) → o + n ≤ length v → slice v (pos o) (pos n) ≡ ok (take n (drop o v))
unfolding slice
slice-ok v o n h = rw (le→leb (o + n) (length v) h)

-- A piece of the vector, wherever its offset and length are computed.
pub slice-at :
    (v xs ys zs : Bytes) (o n : ℕ)
    → v ≡ xs ++ (ys ++ zs)
    → o ≡ length xs
    → n ≡ length ys
    → slice v (pos o) (pos n) ≡ ok ys
slice-at v xs ys zs o n e ho hn = rw e (
    rw
      (slice-ok (xs ++ (ys ++ zs)) o n
        (omega (arith, length-append xs (ys ++ zs), length-append ys zs)))
      (rw (drop-append o xs (ys ++ zs) ho) (rw (take-append n ys zs hn))))

pub get_elem?-append :
    (xs : Bytes) (c : ℕ) (zs : Bytes) (o : ℕ)
    → o ≡ length xs
    → get_elem? (xs ++ (c ∷ zs)) o ≡ some c
get_elem?-append [] c zs o h = rw h
get_elem?-append (x ∷ xs) c zs o h = rw h (get_elem?-append xs c zs (length xs) refl)

pub byte_at-at :
    (v xs : Bytes) (c : ℕ) (zs : Bytes) (o : ℕ)
    → v ≡ xs ++ (c ∷ zs)
    → o ≡ length xs
    → byte_at v (pos o) ≡ ok c
unfolding byte_at
byte_at-at v xs c zs o e h = rw e (rw (get_elem?-append xs c zs o h, byte_at))
