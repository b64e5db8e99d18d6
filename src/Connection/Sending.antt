-- ===== src/Connection/Sending.antt =====
-- Output: what send_hook takes comes from the front of the write buffer.
use tirpc.Prelude.{
  ℕ, zero, suc, ◌-◌, ◌≤◌, ◌<◌, ◌≡◌, refl, sym, ap, ◌∙◌, subst, Bool, true, false, not, ◌||◌, List,
  [], ◌∷◌, ◌++◌, if◌then◌else◌, ◌==◌, pos, negsuc, leb_ℤ, Bytes, slice, slice-ok, Outcome, ok,
  ◌>>=◌, length, take, drop, min, arith, sub_ℕ-pos, le→ltb, take_add, drop-drop, append_assoc,
}
use tirpc.Buffer.{TcpBuffer, readable, recycle_read, adjust_buffer}
use tirpc.Buffer.Contents.{between, IsValid, valid, contents, adjust_buffer-Yields}
use tirpc.Buffer.Reading.{recycle_read-Yields}
use tirpc.Connection.{
  Connection, Sent, sends, fails, connected, meanwhile, is_connected, with_output, Writing, is_zero,
  behind_sent, wrote, output_loop, output,
}

-- send_hook never fails.
abbrev pub IsSending : List Sent → Type 0
IsSending [] = Unit
IsSending (sends n m ∷ script) = IsSending script
IsSending (fails rt m ∷ script) = ⊥

pub all_readable :
    (b : TcpBuffer) → IsValid b → slice b.buffer b.read_index (readable b) ≡ ok (contents b)
all_readable b (valid r w v h k) =
    rw (sub_ℕ-pos w r (w - r) (omega arith)) (slice-ok v r (w - r) (omega arith))

cut_front : (n : ℕ) (xs : Bytes) → take n xs ++ drop (min n (length xs)) xs ≡ xs
cut_front zero xs = let e : min 0 (length xs) ≡ 0 = omega arith in rw e refl
cut_front (suc n) [] = let e : min (suc n) 0 ≡ 0 = omega arith in rw e refl
cut_front (suc n) (x ∷ xs) =
    let e : min (suc n) (length (x ∷ xs)) ≡ suc (min n (length xs)) = omega arith in
    subst (λ k. take (suc n) (x ∷ xs) ++ drop k (x ∷ xs) ≡ x ∷ xs) (sym e)
      (rw (cut_front n xs) refl)

module _ {D : Type 0} where
  -- No call fails, and what has been sent and what the valid write buffer holds make up `xs`.
  abbrev pub Sends : Outcome (Writing D) → Bytes → Type 0
  Sends m xs =
      (w : Writing D) × (m ≡ ok w)
      × IsValid w.connection.write_buffer
      × (w.sent ++ contents w.connection.write_buffer ≡ xs)

  if_Sends :
      (b : Bool) (x y : Outcome (Writing D)) (xs : Bytes)
      → Sends x xs
      → Sends y xs
      → Sends (if b then x else y) xs
  if_Sends true x y xs h k = h
  if_Sends false x y xs h k = k

  wrote-Sends :
      (b : Bool) (xs ys : Bytes) (c : Connection D)
      → IsValid c.write_buffer
      → xs ++ contents c.write_buffer ≡ ys
      → Sends (wrote b xs c) ys
  wrote-Sends b xs ys c v h = (record { connection = c; ended = b; sent = xs }, refl, v, h)

  behind_sent-Sends :
      (xs ys : Bytes) (m : Outcome (Writing D)) → Sends m ys → Sends (behind_sent xs m) (xs ++ ys)
  behind_sent-Sends xs ys m (w, e, v, h) = (
    record w { sent = xs ++ w.sent },
    rw e refl,
    v,
    append_assoc xs w.sent (contents w.connection.write_buffer) ∙ ap (λ p. xs ++ p) h,
  )

  output_loop-Sends :
      (script : List Sent) (c : Connection D)
      → IsValid c.write_buffer
      → IsSending script
      → Sends (output_loop script c) (contents c.write_buffer)
  unfolding output_loop
  output_loop-Sends [] c v h =
      wrote-Sends (not (is_connected c.state) || is_zero (readable c.write_buffer)) []
        (contents c.write_buffer) c v refl
  output_loop-Sends (fails rt m ∷ script) c v h = elim h [ ]
  output_loop-Sends (sends n m ∷ script) c v h =
      let b = c.write_buffer in
      let xs = contents b in
      let taken = min n (length xs) in
      let (b', e, v', k) = recycle_read-Yields taken b v (omega arith) in
      let c' = with_output b' (meanwhile m c) in
      let all : take n xs ++ contents b' ≡ xs = ap (λ p. take n xs ++ p) k ∙ cut_front n xs in
      let go : Bytes → TcpBuffer → Outcome (Writing D) = λ ys b''.
        let c'' = with_output b'' (meanwhile m c) in
        if leb_ℤ (readable b'') (pos 0) || c''.is_over_time
        then wrote true (take n ys) c''
        else behind_sent (take n ys) (output_loop script c'') in
      if_Sends (not (is_connected c.state) || is_zero (readable b)) (wrote true [] c)
        (slice b.buffer b.read_index (readable b) >>= λ ys.
          recycle_read (pos (min n (length ys))) b >>= go ys)
        xs (wrote-Sends true [] xs c v refl)
        (rw (all_readable b v) (
          rw e (
            if_Sends (leb_ℤ (readable b') (pos 0) || c'.is_over_time) (wrote true (take n xs) c')
              (behind_sent (take n xs) (output_loop script c')) xs
              (wrote-Sends true (take n xs) xs c' v' all)
              (subst (Sends (behind_sent (take n xs) (output_loop script c'))) all (
                behind_sent-Sends (take n xs) (contents b') (output_loop script c')
                  (output_loop-Sends script c' v' h))))))

-- Output on a connection with a valid write buffer, where send_hook never fails: no call fails, and where
-- Output returns, and also where it waits in send_hook, what it has sent is the front of what the buffer
-- held, and the valid buffer still holds the rest.
pub output-Sends :
    {D : Type 0} (script : List Sent) (c : Connection D)
    → IsValid c.write_buffer
    → IsSending script
    → Sends (output script c) (contents c.write_buffer)
unfolding output
output-Sends script c v h =
    if_Sends c.is_over_time (wrote true [] c) (output_loop script c) (contents c.write_buffer)
      (wrote-Sends true [] (contents c.write_buffer) c v refl) (output_loop-Sends script c v h)

recycle_back :
    (r w : ℕ) (v : Bytes)
    → r < w
    → w ≤ length v
    → recycle_read (negsuc 0) (between (suc r) w v) ≡ adjust_buffer (between r w v)
unfolding recycle_read
recycle_back r w v h k =
    rw (sub_ℕ-pos (suc r) 1 r (omega arith), recycle_read)
      (rw (le→ltb (length v) r (omega arith)) refl)

gives_back :
    (r w : ℕ) (v : Bytes)
    → r < w
    → w ≤ length v
    → take (w - r) (drop r v) ≡ take 1 (drop r v) ++ take (w - suc r) (drop (suc r) v)
gives_back r w v h k =
    sym (take_add 1 (w - suc r) (w - r) (drop r v) (omega arith))
    ∙ ap (λ d. take 1 (drop r v) ++ take (w - suc r) d) (drop-drop 1 r (suc r) v (omega arith))

-- The call has sent nothing, and leaves the bytes `xs` to send.
abbrev pub Refused : {D : Type 0} → Outcome (Writing D) → Bytes → Type 0
Refused {D} m xs =
    (u : Writing D) × (m ≡ ok u) × (u.sent ≡ []) × (contents u.connection.write_buffer ≡ xs)

if_Refused :
    {D : Type 0} (b : Bool) (x y : Outcome (Writing D)) (xs : Bytes)
    → Refused x xs
    → Refused y xs
    → Refused (if b then x else y) xs
if_Refused true x y xs h k = h
if_Refused false x y xs h k = k

abbrev pub refusal : Sent
refusal = fails (negsuc 0) (record { over_time = false; shut = false })

-- A send_hook that returns -1 on an open connection gives the byte in front of the contents, which was
-- sent before, back to the write buffer.
output_again :
    {D : Type 0} (r w : ℕ) (v : Bytes) (c : Connection D)
    → suc r < w
    → w ≤ length v
    → c.write_buffer ≡ between (suc r) w v
    → c.state ≡ connected
    → c.is_over_time ≡ false
    → Refused (output (refusal ∷ []) c) (take 1 (drop r v) ++ contents c.write_buffer)
unfolding output output_loop meanwhile
output_again {D} r w v c h k e s o =
    let (b', f, v', g) = adjust_buffer-Yields r w v (omega arith) k in
    let some_left : (w - suc r == 0) ≡ false = ground arith in
    let moved = recycle_back r w v (omega arith) k ∙ f in
    let holds = g ∙ gives_back r w v (omega arith) k in
    let c' : Connection D = record c {
      state = connected;
      is_over_time = false;
      write_buffer = b';
    } in
    rw o (
      rw e (
        rw s (
          rw (sub_ℕ-pos w (suc r) (w - suc r) (omega arith)) (
            rw some_left (
              rw (slice-ok v (suc r) (w - suc r) (omega arith)) (
                rw moved (
                  if_Refused (leb_ℤ (readable b') (pos 0) || false) (wrote true [] c')
                    (wrote (is_zero (readable b')) [] c')
                    (take 1 (drop r v) ++ take (w - suc r) (drop (suc r) v))
                    (record { connection = c'; ended = true; sent = [] }, refl, refl, holds)
                    (
                      record { connection = c'; ended = is_zero (readable b'); sent = [] },
                      refl,
                      refl,
                      holds,
                    ))))))))
