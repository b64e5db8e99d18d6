-- ===== src/Buffer/Contents.antt =====
-- The view of a TcpBuffer as a queue of bytes, and what a call that succeeds leaves in it.
use tirpc.Prelude.{
  ℕ, ◌-◌, ◌/◌, ◌≤◌, ◌≡◌, refl, sym, inl, inr, ◌++◌, ℤ, pos, negsuc, Outcome, ok, Bytes, slice-ok,
  length, length-append, length-take, length-drop, length-replicate, take-append, take, drop,
  replicate, Bool-cases, ltb, le→leb, arith,
}
use tirpc.Buffer.{TcpBuffer, adjust_buffer}

abbrev pub between : ℕ → ℕ → Bytes → TcpBuffer
between r w v = record { read_index = pos r; write_index = pos w; buffer = v }

-- The indices are in order and within the vector.
pub data IsValid : TcpBuffer → Type 0 where
  valid : (r w : ℕ) (v : Bytes) → r ≤ w → w ≤ length v → IsValid (between r w v)

abbrev pub index : ℤ → ℕ
index (pos n) = n
index (negsuc n) = 0

-- What has been written and not yet read.
abbrev pub contents : TcpBuffer → Bytes
contents b = take (index b.write_index - index b.read_index) (drop (index b.read_index) b.buffer)

-- The call succeeds, in a valid buffer that holds `xs`.
abbrev pub Yields : Outcome TcpBuffer → Bytes → Type 0
Yields m xs = (b : TcpBuffer) × (m ≡ ok b) × IsValid b × (contents b ≡ xs)

pub length-contents :
    (r w : ℕ) (v : Bytes) → r ≤ w → w ≤ length v → length (take (w - r) (drop r v)) ≡ w - r
length-contents r w v h k = omega (arith, length-take (w - r) (drop r v), length-drop r v)

-- A buffer that starts with the bytes `xs`, at any size that they fit into.
pub padded-Yields :
    (m : Outcome TcpBuffer) (size n : ℕ) (xs : Bytes)
    → n ≡ length xs
    → n ≤ size
    → m ≡ ok (between 0 n (xs ++ replicate (size - length xs) 0))
    → Yields m xs
padded-Yields m size n xs e h k = (
  between 0 n (xs ++ replicate (size - length xs) 0),
  k,
  valid 0 n _ (omega arith) (
      omega (
        arith,
        length-append xs (replicate (size - length xs) 0),
        length-replicate {A = ℕ} (size - length xs) 0,
      )),
  take-append (n - 0) xs _ (omega arith),
)

pub adjust_buffer-Yields :
    (r w : ℕ) (v : Bytes)
    → r ≤ w
    → w ≤ length v
    → Yields (adjust_buffer (between r w v)) (take (w - r) (drop r v))
unfolding adjust_buffer
adjust_buffer-Yields r w v h k = elim (Bool-cases (ltb (length v / 3) r)) [
  | inl moved ↦ rw moved (
      rw (le→leb r w h) (
        padded-Yields _ (length v) (w - r) _ (sym (length-contents r w v h k)) (omega arith)
          (rw (slice-ok v r (w - r) (omega arith)))))
  | inr kept ↦ rw kept (between r w v, refl, valid r w v h k, refl)
]
