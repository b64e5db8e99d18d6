-- ===== src/Buffer/Writing.antt =====
-- ResizeBuffer and WriteToBuffer on a valid buffer, against its contents.
use native.Mathlib.Nat.{zero-add}
use tirpc.Prelude.{
  min_ℤ, ℕ, ◌+◌, ◌<◌, ◌⊎◌, fault, ◌-◌, ◌*◌, ◌/◌, ◌≤◌, ◌≡◌, refl, ap, ◌∙◌, inl, inr, ◌++◌, pos, ok,
  Bytes, slice-ok, overwrite, length, length-append, length-take, length-drop, length-replicate,
  take-append, drop-take, take-min, take, drop, replicate, Bool-cases, ltb, le→leb, arith, Outcome,
  ◌>>=◌, append_assoc, min, drop-append_le,
}
use tirpc.Buffer.{TcpBuffer, resize_buffer, write_to_buffer}
use tirpc.Buffer.Contents.{
  between, index, IsValid, valid, contents, Yields, length-contents, padded-Yields,
}

-- The copy of `resize_buffer`, with its bound already a number.
pub resize-Yields :
    (m : Outcome TcpBuffer) (size c r w : ℕ) (v : Bytes)
    → r ≤ w
    → w ≤ length v
    → c ≡ min size (w - r)
    → m ≡ ok (between 0 c (take c (drop r v) ++ replicate (size - length (take c (drop r v))) 0))
    → Yields m (take size (take (w - r) (drop r v)))
resize-Yields m size c r w v h k e f = rw (take-min size (w - r) c (drop r v) e) (
    padded-Yields m size c (take c (drop r v))
      (omega (arith, length-take c (drop r v), length-drop r v)) (omega arith) f)

abbrev pub cut : ℕ → ℕ → ℕ → Bytes → TcpBuffer
cut c r size v = between 0 c (take c (drop r v) ++ replicate (size - length (take c (drop r v))) 0)

pub resize_buffer-cut :
    (n c r w : ℕ) (v : Bytes)
    → r ≤ w
    → w ≤ length v
    → c ≡ min n (w - r)
    → resize_buffer (pos n) (between r w v) ≡ ok (cut c r n v)
unfolding resize_buffer
resize_buffer-cut n c r w v h k e =
    rw (le→leb r w h) (rw (bound c e) (rw (slice-ok v r c (omega arith)) (rw (zero-add c))))
  where
    bound : (c : ℕ) → c ≡ min n (w - r) → min_ℤ (pos n) (pos (w - r)) ≡ pos c
    bound c e = ground arith

-- ResizeBuffer keeps the bytes that fit.
pub resize_buffer-Yields :
    (n : ℕ) (b : TcpBuffer) → IsValid b → Yields (resize_buffer (pos n) b) (take n (contents b))
resize_buffer-Yields n b (valid r w v h k) =
    resize-Yields _ n (min n (w - r)) r w v h k refl (resize_buffer-cut n _ r w v h k refl)

-- Bytes copied behind the contents.
pub overwrite-Yields :
    (r w : ℕ) (v xs : Bytes)
    → r ≤ w
    → w + length xs ≤ length v
    → Yields
        (overwrite v (pos w) xs >>= λ v'. ok (between r (w + length xs) v'))
        (take (w - r) (drop r v) ++ xs)
unfolding overwrite
overwrite-Yields r w v xs h k = (
  between r (w + length xs) (take w v ++ (xs ++ drop (w + length xs) v)),
  rw (le→leb (w + length xs) (length v) k),
  valid r (w + length xs) _ (omega arith) (
      omega (
        arith,
        length-append (take w v) (xs ++ drop (w + length xs) v),
        length-append xs (drop (w + length xs) v),
        length-take w v,
        length-drop (w + length xs) v,
      )),
  rw (drop-append_le r (take w v) (xs ++ drop (w + length xs) v) (omega (arith, length-take w v))) (
      rw (drop-take r w (w - r) v (omega arith)) (
        rw (← append_assoc) (
          take-append (w + length xs - r) (take (w - r) (drop r v) ++ xs) _ (
            omega (
              arith,
              length-append (take (w - r) (drop r v)) xs,
              length-take (w - r) (drop r v),
              length-drop r v,
            ))))),
)

pub Yields-eq : (m : Outcome TcpBuffer) (xs ys : Bytes) → xs ≡ ys → Yields m xs → Yields m ys
Yields-eq m xs ys e (b, f, v, c) = (b, f, v, c ∙ e)

-- The same in a vector that was just made larger.
grown-Yields :
    (r w : ℕ) (v xs : Bytes)
    → r ≤ w
    → w ≤ length v
    → Yields
        (overwrite (cut (w - r) r (3 * (w + length xs) / 2) v).buffer (pos (w - r)) xs >>= λ v'.
          ok (between 0 (w - r + length xs) v'))
        (take (w - r) (drop r v) ++ xs)
grown-Yields r w v xs h k =
    Yields-eq _ _ _
      (ap (λ c. c ++ xs)
        (take-append (w - r - 0) (take (w - r) (drop r v))
          (replicate (3 * (w + length xs) / 2 - length (take (w - r) (drop r v))) 0)
          (omega (arith, length-contents r w v h k))))
      (overwrite-Yields 0 (w - r) (cut (w - r) r (3 * (w + length xs) / 2) v).buffer xs
        (omega arith)
        (omega (
          arith,
          length-contents r w v h k,
          length-append (take (w - r) (drop r v))
              (replicate (3 * (w + length xs) / 2 - length (take (w - r) (drop r v))) 0),
          length-replicate {A = ℕ} (3 * (w + length xs) / 2 - length (take (w - r) (drop r v))) 0,
        )))

-- WriteToBuffer appends all bytes, growing the vector if it must, unless the new size is no `int`.
pub write_to_buffer-cases :
    (xs : Bytes) (b : TcpBuffer)
    → IsValid b
    → Yields (write_to_buffer xs b) (contents b ++ xs)
      ⊎ ((write_to_buffer xs b ≡ fault) × (1_431_655_765 < index b.write_index + length xs))
unfolding write_to_buffer
write_to_buffer-cases xs b (valid r w v h k) = elim (Bool-cases (ltb (length v - w) (length xs))) [
  | inl grow ↦ elim (Bool-cases (ltb (3 * (w + length xs) / 2) 2_147_483_648)) [
    | inl fits ↦ inl (
        rw (le→leb w (length v) k) (
          rw grow (
            rw fits (
              rw (resize_buffer-cut (3 * (w + length xs) / 2) (w - r) r w v h k (omega arith))
                (grown-Yields r w v xs h k)))))
    | inr over ↦ inr (rw (le→leb w (length v) k) (rw grow (rw over refl)), ground arith)
  ]
  | inr room ↦
      inl (rw (le→leb w (length v) k) (rw room (overwrite-Yields r w v xs h (ground arith))))
]

-- How far the write index may come: 1.5 times that is still an `int`.
pub write_to_buffer-Yields :
    (xs : Bytes) (b : TcpBuffer)
    → IsValid b
    → index b.write_index + length xs ≤ 1_431_655_765
    → Yields (write_to_buffer xs b) (contents b ++ xs)
write_to_buffer-Yields xs b v h = elim (write_to_buffer-cases xs b v) [
  | inl y ↦ y
  | inr (e, over) ↦ (let f : ⊥ = omega arith in elim f [ ])
]
