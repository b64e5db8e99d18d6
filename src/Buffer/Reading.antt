-- ===== src/Buffer/Reading.antt =====
-- The calls that take bytes off the front of a buffer, and those for bytes filled in from outside.
use tirpc.Prelude.{
  drop_all, if◌then◌else◌, ◌==◌, lt→leb, subst, ℕ, ◌+◌, ◌-◌, ◌/◌, ◌≤◌, ◌<◌, ◌≡◌, refl, sym, ap, ◌∙◌,
  inl, inr, [], ◌++◌, pos, ok, fault, Bytes, slice, slice-ok, length, take-take, drop-take,
  drop-drop, take_add, take, drop, Bool-cases, ltb, le→leb, le→ltb, lt→ltb, arith, Outcome, ◌>>=◌,
  take_all,
}
use tirpc.Buffer.{
  TcpBuffer, adjust_buffer, read_from_buffer, recycle_read, recycle_write, get_buffer_string,
}
use tirpc.Buffer.Contents.{
  between, IsValid, valid, contents, Yields, length-contents, adjust_buffer-Yields,
}

-- The buffer with its read index moved on, before it is adjusted.
skip-Yields :
    (n r w : ℕ) (v : Bytes)
    → r + n ≤ w
    → w ≤ length v
    → Yields (adjust_buffer (between (r + n) w v)) (drop n (take (w - r) (drop r v)))
skip-Yields n r w v h k =
    subst (Yields _)
      (sym (
        drop-take n (w - r) (w - (r + n)) (drop r v) (omega arith)
        ∙ ap (take (w - (r + n))) (drop-drop n r (r + n) v refl)))
      (adjust_buffer-Yields (r + n) w v h k)

-- RecycleRead drops bytes from the front, if that many have been written.
pub recycle_read-Yields :
    (n : ℕ) (b : TcpBuffer)
    → IsValid b
    → n ≤ length (contents b)
    → Yields (recycle_read (pos n) b) (drop n (contents b))
unfolding recycle_read
recycle_read-Yields n b (valid r w v h k) e =
    let short : r + n ≤ w = omega (arith, length-contents r w v h k) in
    rw (le→ltb (length v) (r + n) (omega arith)) (skip-Yields n r w v short k)

pieces :
    (n r w : ℕ) (v : Bytes)
    → r ≤ w
    → take (w + n - r) (drop r v) ≡ take (w - r) (drop r v) ++ take n (drop w v)
pieces n r w v h =
    sym (take_add (w - r) n (w + n - r) (drop r v) (omega arith))
    ∙ ap (λ d. take (w - r) (drop r v) ++ take n d) (drop-drop (w - r) r w v (omega arith))

-- RecycleWrite takes the next bytes of the vector, which the caller has filled in.
pub recycle_write-Yields :
    (n r w : ℕ) (v : Bytes)
    → r ≤ w
    → w + n ≤ length v
    → Yields (recycle_write (pos n) (between r w v)) (contents (between r w v) ++ take n (drop w v))
unfolding recycle_write
recycle_write-Yields n r w v h k =
    rw (le→ltb (length v) (w + n) k)
      (subst (Yields _) (pieces n r w v h) (adjust_buffer-Yields r (w + n) v (omega arith) k))

-- GetBufferString is the contents.
pub get_buffer_string-contents : (b : TcpBuffer) → IsValid b → get_buffer_string b ≡ ok (contents b)
unfolding get_buffer_string
get_buffer_string-contents b (valid r w v h k) =
    rw (le→leb r w h, get_buffer_string) (slice-ok v r (w - r) (omega arith))

-- The outcome of a read: the bytes handed out, and the buffer after it.
abbrev pub Reads : Outcome (Bytes × TcpBuffer) → Bytes → Bytes → Type 0
Reads m out xs = (b : TcpBuffer) × (m ≡ ok (out, b)) × IsValid b × (contents b ≡ xs)

Reads-of-Yields :
    (m : Outcome TcpBuffer) (out xs : Bytes) → Yields m xs → Reads (m >>= λ b. ok (out, b)) out xs
Reads-of-Yields m out xs (b, e, v, c) = (b, rw e, v, c)

pub Reads-eq :
    (m : Outcome (Bytes × TcpBuffer)) (out out' xs xs' : Bytes)
    → out ≡ out'
    → xs ≡ xs'
    → Reads m out xs
    → Reads m out' xs'
Reads-eq m out out' xs xs' e e' (b, f, v, c) = (b, f ∙ ap (λ o. ok (o, b)) e, v, c ∙ e')

read_count-Yields :
    (n r w : ℕ) (v : Bytes)
    → r + n ≤ w
    → w ≤ length v
    → Reads
        (slice v (pos r) (pos n) >>= λ xs. adjust_buffer (between (r + n) w v) >>= λ b. ok (xs, b))
        (take n (take (w - r) (drop r v)))
        (drop n (take (w - r) (drop r v)))
read_count-Yields n r w v h k = rw (slice-ok v r n (omega arith)) (
    Reads-eq _ _ _ _ _ (sym (take-take n (w - r) (drop r v) (omega arith))) refl
      (Reads-of-Yields _ (take n (drop r v)) _ (skip-Yields n r w v h k)))

-- What ReadFromBuffer leaves in its target.
abbrev pub handed_out : Bytes → ℕ → Bytes → Bytes
handed_out re n xs = if length xs == 0 then re else take n xs

read-empty :
    (re : Bytes) (n r w : ℕ) (v : Bytes)
    → r ≤ w
    → w ≤ length v
    → w - r ≡ 0
    → Reads
        (read_from_buffer re (pos n) (between r w v))
        (handed_out re n (take (w - r) (drop r v)))
        (drop n (take (w - r) (drop r v)))
unfolding read_from_buffer
read-empty re n r w v h k e =
    rw (le→leb r w h)
      (rw e (between r w v, refl, valid r w v h k, rw e (sym (drop_all n [] (omega arith)))))

read-some :
    (re : Bytes) (n r w : ℕ) (v : Bytes)
    → r < w
    → w ≤ length v
    → Reads
        (read_from_buffer re (pos n) (between r w v))
        (take n (take (w - r) (drop r v)))
        (drop n (take (w - r) (drop r v)))
unfolding read_from_buffer
read-some re n r w v h k = elim (Bool-cases (ltb n (w - r))) [
  | inl few ↦
      rw (le→leb r w (omega arith))
        (rw (lt→leb (w - r) 0 (omega arith)) (rw few (read_count-Yields n r w v (ground arith) k)))
  | inr all ↦
      let e : length (take (w - r) (drop r v)) ≤ n =
        ground (arith, length-contents r w v (omega arith) k) in
      let e' : length (take (w - r) (drop r v)) ≤ w - r =
        omega (arith, length-contents r w v (omega arith) k) in
      rw (le→leb r w (omega arith)) (
        rw (lt→leb (w - r) 0 (omega arith)) (
          rw all (
            Reads-eq _ _ _ _ _ (take_all (w - r) _ e' ∙ sym (take_all n _ e))
              (drop_all (w - r) _ e' ∙ sym (drop_all n _ e))
              (read_count-Yields (w - r) r w v (omega arith) k))))
]

-- ReadFromBuffer hands out the oldest bytes, at most `n` of them, and drops them from the front;
-- from an empty buffer it leaves the target `re` as it was.
pub read_from_buffer-Reads :
    (re : Bytes) (n : ℕ) (b : TcpBuffer)
    → IsValid b
    → Reads (read_from_buffer re (pos n) b) (handed_out re n (contents b)) (drop n (contents b))
read_from_buffer-Reads re n b (valid r w v h k) = elim (Bool-cases (ltb r w)) [
  | inl some_left ↦
      Reads-eq _ _ _ _ _ (ground (arith, length-contents r w v h k)) refl
        (read-some re n r w v (ground arith) k)
  | inr empty ↦ read-empty re n r w v h k (ground arith)
]

-- RecycleRead checks its argument against the size of the vector and not against what has been
-- written. Past the write index the next copy has a negative length.
recycle_read_past :
    (n r w : ℕ) (v : Bytes)
    → r ≤ w
    → w < r + n
    → r + n ≤ length v
    → length v / 3 < r + n
    → recycle_read (pos n) (between r w v) ≡ fault
unfolding recycle_read adjust_buffer slice
recycle_read_past n r w v h k fits far =
    rw (le→ltb (length v) (r + n) fits)
      (rw (lt→ltb (length v / 3) (r + n) far) (rw (lt→leb (r + n) w k)))
