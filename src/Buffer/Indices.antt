-- ===== src/Buffer/Indices.antt =====
-- How far the write index of a buffer moves: by the bytes that are written, and never further.
use tirpc.Buffer.{
  TcpBuffer, readable, resize_buffer, write_to_buffer, adjust_buffer, read_from_buffer,
  recycle_read, recycle_write,
}
use tirpc.Buffer.Contents.{between, index, IsValid, valid, contents, length-contents}
use tirpc.Buffer.Writing.{resize_buffer-cut}
use tirpc.Prelude.{
  ℕ, ◌+◌, ◌-◌, ◌*◌, ◌/◌, ◌≤◌, refl, inl, inr, pos, ok, fault, throws, Bytes, slice, overwrite,
  length, take, drop, Bool-cases, leb, le→ltb, ltb, le→leb, arith, Outcome, ◌>>=◌, min, slice-ok,
  if◌then◌else◌, Bool, true, false,
}

-- The call fails, or leaves a write index of at most `n`.
abbrev pub Within : ℕ → Outcome TcpBuffer → Type 0
Within n (ok b) = index b.write_index ≤ n
Within n fault = Unit
Within n throws = Unit

bind-Within :
    {A : Type 0} (n : ℕ) (m : Outcome A) (f : A → Outcome TcpBuffer)
    → ((a : A) → Within n (f a))
    → Within n (m >>= f)
bind-Within n (ok a) f h = h a
bind-Within n fault f h = tt
bind-Within n throws f h = tt

if_Within :
    (n : ℕ) (c : Bool) (x y : Outcome TcpBuffer)
    → Within n x
    → Within n y
    → Within n (if c then x else y)
if_Within n true x y h k = h
if_Within n false x y h k = k

pub adjust_buffer-Within : (r w : ℕ) (v : Bytes) → r ≤ w → Within w (adjust_buffer (between r w v))
unfolding adjust_buffer
adjust_buffer-Within r w v h =
    let moved : index (readable (between r w v)) ≤ w = rw (le→leb r w h) (omega arith) in
    if_Within w (ltb (length v / 3) r) _ (ok (between r w v))
      (bind-Within w (slice v (pos r) (readable (between r w v))) _ (λ xs. moved)) (omega arith)

pub resize_buffer-Within :
    (n : ℕ) (b : TcpBuffer) → IsValid b → Within (index b.write_index) (resize_buffer (pos n) b)
resize_buffer-Within n b (valid r w v h k) =
    rw (resize_buffer-cut n (min n (w - r)) r w v h k refl) (ground arith)

pub write_to_buffer-Within :
    (xs : Bytes) (b : TcpBuffer)
    → IsValid b
    → Within (index b.write_index + length xs) (write_to_buffer xs b)
unfolding write_to_buffer
write_to_buffer-Within xs b (valid r w v h k) = elim (Bool-cases (ltb (length v - w) (length xs))) [
  | inl grow ↦ elim (Bool-cases (ltb (3 * (w + length xs) / 2) 2_147_483_648)) [
    | inl fits ↦ rw (le→leb w (length v) k) (
        rw grow (
          rw fits (
            rw (resize_buffer-cut (3 * (w + length xs) / 2) (w - r) r w v h k (omega arith))
              (bind-Within (w + length xs) (overwrite _ (pos (w - r)) xs) _ (λ v'. omega arith)))))
    | inr over ↦ rw (le→leb w (length v) k) (rw grow (rw over tt))
  ]
  | inr room ↦
      rw (le→leb w (length v) k)
        (rw room (bind-Within (w + length xs) (overwrite v (pos w) xs) _ (λ v'. omega arith)))
]

pub recycle_read-Within :
    (n : ℕ) (b : TcpBuffer)
    → IsValid b
    → n ≤ length (contents b)
    → Within (index b.write_index) (recycle_read (pos n) b)
unfolding recycle_read
recycle_read-Within n b (valid r w v h k) e =
    let short : r + n ≤ w = omega (arith, length-contents r w v h k) in
    rw (le→ltb (length v) (r + n) (omega arith)) (adjust_buffer-Within (r + n) w v short)

pub recycle_write-Within :
    (n r w : ℕ) (v : Bytes)
    → r ≤ w
    → w + n ≤ length v
    → Within (w + n) (recycle_write (pos n) (between r w v))
unfolding recycle_write
recycle_write-Within n r w v h k =
    rw (le→ltb (length v) (w + n) k) (adjust_buffer-Within r (w + n) v (omega arith))

-- The same of a call that hands bytes out.
abbrev pub ReadWithin : ℕ → Outcome (Bytes × TcpBuffer) → Type 0
ReadWithin n (ok p) = index p.1.write_index ≤ n
ReadWithin n fault = Unit
ReadWithin n throws = Unit

pub hand_out-Within :
    (n : ℕ) (m : Outcome TcpBuffer) (xs : Bytes) → Within n m → ReadWithin n (m >>= λ b. ok (xs, b))
hand_out-Within n (ok b) xs h = h
hand_out-Within n fault xs h = tt
hand_out-Within n throws xs h = tt

read_count-Within :
    (n r w : ℕ) (v : Bytes)
    → r + n ≤ w
    → w ≤ length v
    → ReadWithin w
        (slice v (pos r) (pos n) >>= λ xs. adjust_buffer (between (r + n) w v) >>= λ b. ok (xs, b))
read_count-Within n r w v h k = rw (slice-ok v r n (omega arith)) (
    hand_out-Within w (adjust_buffer (between (r + n) w v)) (take n (drop r v))
      (adjust_buffer-Within (r + n) w v h))

pub read_from_buffer-Within :
    (re : Bytes) (n : ℕ) (b : TcpBuffer)
    → IsValid b
    → ReadWithin (index b.write_index) (read_from_buffer re (pos n) b)
unfolding read_from_buffer
read_from_buffer-Within re n b (valid r w v h k) = elim (Bool-cases (leb (w - r) 0)) [
  | inl none_left ↦ rw (le→leb r w h) (rw none_left (omega arith))
  | inr some_left ↦ elim (Bool-cases (ltb n (w - r))) [
    | inl few ↦
        rw (le→leb r w h) (rw some_left (rw few (read_count-Within n r w v (ground arith) k)))
    | inr all ↦
        rw (le→leb r w h) (rw some_left (rw all (read_count-Within (w - r) r w v (omega arith) k)))
  ]
]
