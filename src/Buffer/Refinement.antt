-- ===== src/Buffer/Refinement.antt =====
-- TcpBuffer against its contract: any sequence of calls behaves as on an unbounded queue of bytes.
use tirpc.Prelude.{
  ℕ, ◌+◌, ◌≤◌, subst, ◌≡◌, ap, ◌∙◌, sym, List, [], ◌∷◌, ◌++◌, pos, Outcome, ok, ◌>>=◌, Bytes,
  length, take, drop, Option, none, some, leb, if◌then◌else◌, arith, Bool-cases, inl, inr, take_all,
  Option-cases,
}
use tirpc.Buffer.{TcpBuffer, write_to_buffer, read_from_buffer, recycle_read, resize_buffer}
use tirpc.Buffer.Contents.{index, IsValid, contents, Yields}
use tirpc.Buffer.Writing.{write_to_buffer-Yields, resize_buffer-Yields}
use tirpc.Buffer.Indices.{
  ReadWithin, hand_out-Within, write_to_buffer-Within, read_from_buffer-Within, recycle_read-Within,
  resize_buffer-Within,
}
use tirpc.Buffer.Reading.{read_from_buffer-Reads, recycle_read-Yields, handed_out, Reads, Reads-eq}

pub data Call : Type 0 where
  writes : Bytes → Call
  reads : ℕ → Call
  recycles : ℕ → Call
  resizes : ℕ → Call

abbrev silent : Outcome TcpBuffer → Outcome (Bytes × TcpBuffer)
silent m = m >>= λ b. ok ([], b)

-- A call, with the bytes that it hands out.
unfoldable pub call : Call → TcpBuffer → Outcome (Bytes × TcpBuffer)
call (writes xs) b = silent (write_to_buffer xs b)
call (reads n) b = read_from_buffer [] (pos n) b
call (recycles n) b = silent (recycle_read (pos n) b)
call (resizes n) b = silent (resize_buffer (pos n) b)

-- The same on the queue. Only as many bytes may be recycled as it holds.
unfoldable pub on_queue : Call → Bytes → Option (Bytes × Bytes)
on_queue (writes xs) q = some ([], q ++ xs)
on_queue (reads n) q = some (take n q, drop n q)
on_queue (recycles n) q = if leb n (length q) then some ([], drop n q) else none
on_queue (resizes n) q = some ([], take n q)

unfoldable pub calls : List Call → TcpBuffer → Outcome (List Bytes × TcpBuffer)
calls [] b = ok ([], b)
calls (c ∷ cs) b = call c b >>= λ p. calls cs p.1 >>= λ q. ok (p.0 ∷ q.0, q.1)

abbrev cons_out : Bytes → Option (List Bytes × Bytes) → Option (List Bytes × Bytes)
cons_out out none = none
cons_out out (some (outs, q)) = some (out ∷ outs, q)

unfoldable pub all_on_queue : List Call → Bytes → Option (List Bytes × Bytes)
all_on_queue [] q = some ([], q)
all_on_queue (c ∷ cs) q = elim (on_queue c q) [
  | none ↦ none
  | some p ↦ cons_out p.0 (all_on_queue cs p.1)
]

silent-Reads : (m : Outcome TcpBuffer) (xs : Bytes) → Yields m xs → Reads (silent m) [] xs
silent-Reads m xs (b, e, v, c) = (b, ap silent e, v, c)

handed_out-take : (n : ℕ) (q : Bytes) → handed_out [] n q ≡ take n q
handed_out-take n [] = sym (take_all n [] (omega arith))
handed_out-take n (x ∷ q) = ground arith

some_pair {ℓ} :
    {A : Type ℓ} {x x' : A} {y y' : Bytes}
    → ◌≡◌ {A = Option (A × Bytes)} (some (x, y)) (some (x', y'))
    → (x ≡ x') × (y ≡ y')
some_pair e = ground arith

-- How many bytes the calls write.
abbrev pub written : List Call → ℕ
written [] = 0
written (writes xs ∷ cs) = length xs + written cs
written (reads n ∷ cs) = written cs
written (recycles n ∷ cs) = written cs
written (resizes n ∷ cs) = written cs

-- A call that the queue allows succeeds on the buffer, with the same bytes and the same contents.
call-Reads :
    (c : Call) (cs : List Call) (b : TcpBuffer) (out q : Bytes)
    → IsValid b
    → index b.write_index + written (c ∷ cs) ≤ 1_431_655_765
    → on_queue c (contents b) ≡ some (out, q)
    → Reads (call c b) out q
unfolding call on_queue
call-Reads (writes xs) cs b out q v l e =
    Reads-eq _ _ _ _ _ (some_pair e).0 (some_pair e).1
      (silent-Reads _ _ (write_to_buffer-Yields xs b v (omega arith)))
call-Reads (reads n) cs b out q v l e =
    Reads-eq _ _ _ _ _ (handed_out-take n (contents b) ∙ (some_pair e).0) (some_pair e).1
      (read_from_buffer-Reads [] n b v)
call-Reads (recycles n) cs b out q v l e = elim (Bool-cases (leb n (length (contents b)))) [
  | inl fits ↦
      let e' : ◌≡◌ {A = Option (Bytes × Bytes)} (some ([], drop n (contents b))) (some (out, q)) =
        rw fits at e in
      Reads-eq _ _ _ _ _ (some_pair e').0 (some_pair e').1
        (silent-Reads _ _ (recycle_read-Yields n b v (ground arith)))
  | inr past ↦ cc (rw past at e)
]
call-Reads (resizes n) cs b out q v l e =
    Reads-eq _ _ _ _ _ (some_pair e).0 (some_pair e).1
      (silent-Reads _ _ (resize_buffer-Yields n b v))

-- Behind a call, the write index and what is still to be written are as far in all as before.
call-Within :
    (c : Call) (cs : List Call) (b b' : TcpBuffer) (out : Bytes) (p : Bytes × Bytes)
    → IsValid b
    → on_queue c (contents b) ≡ some p
    → call c b ≡ ok (out, b')
    → index b'.write_index + written cs ≤ index b.write_index + written (c ∷ cs)
unfolding call on_queue
call-Within (writes xs) cs b b' out p v e f =
    let h : ReadWithin (index b.write_index + length xs) (ok (out, b')) =
      subst (ReadWithin (index b.write_index + length xs)) f
        (hand_out-Within _ _ [] (write_to_buffer-Within xs b v)) in
    omega arith
call-Within (reads n) cs b b' out p v e f =
    let h : ReadWithin (index b.write_index) (ok (out, b')) =
      subst (ReadWithin (index b.write_index)) f (read_from_buffer-Within [] n b v) in
    omega arith
call-Within (recycles n) cs b b' out p v e f = elim (Bool-cases (leb n (length (contents b)))) [
  | inl fits ↦
      let h : ReadWithin (index b.write_index) (ok (out, b')) =
        subst (ReadWithin (index b.write_index)) f
          (hand_out-Within _ _ [] (recycle_read-Within n b v (ground arith))) in
      omega arith
  | inr past ↦ cc (rw past at e)
]
call-Within (resizes n) cs b b' out p v e f =
    let h : ReadWithin (index b.write_index) (ok (out, b')) =
      subst (ReadWithin (index b.write_index)) f
        (hand_out-Within _ _ [] (resize_buffer-Within n b v)) in
    omega arith

-- What a sequence of calls does on the queue it does on a valid buffer with the same contents, where the
-- write index and the bytes to be written come to 1_431_655_765 at most: 1.5 times that is still an `int`.
pub calls-refines :
    (cs : List Call) (b : TcpBuffer) (outs : List Bytes) (q : Bytes)
    → IsValid b
    → index b.write_index + written cs ≤ 1_431_655_765
    → all_on_queue cs (contents b) ≡ some (outs, q)
    → (b' : TcpBuffer) × (calls cs b ≡ ok (outs, b')) × IsValid b' × (contents b' ≡ q)
unfolding calls all_on_queue
calls-refines [] b outs q v l e = (b, ap (λ o. ok (o, b)) (some_pair e).0, v, (some_pair e).1)
calls-refines (c ∷ cs) b outs q v l e = elim (Option-cases (on_queue c (contents b))) [
  | inl refused ↦ cc (rw (refused, all_on_queue) at e)
  | inr ((out, q'), e') ↦
      let (b', f, v', k) = call-Reads c cs b out q' v l e' in
      let l' = call-Within c cs b b' out (out, q') v e' f in
      elim (Option-cases (all_on_queue cs q')) [
        | inl refused ↦ cc (rw (e', refused, all_on_queue) at e)
        | inr ((outs', q''), e'') ↦
            let (b'', f', v'', k') =
              calls-refines cs b' outs' q'' v' (omega arith) (ap (all_on_queue cs) k ∙ e'') in
            let end : ◌≡◌ {A = Option (List Bytes × Bytes)} (some (out ∷ outs', q''))
                (some (outs, q)) =
              rw (e', e'', all_on_queue) at e in
            (
              b'',
              rw f (rw f' (ap (λ o. ok (o, b'')) (some_pair end).0)),
              v'',
              k' ∙ (some_pair end).1,
            )
      ]
]
