-- ===== src/Connection/Ending.antt =====
-- Output comes to an end.
use tirpc.Prelude.{
  ◌-◌, ◌≤◌, ◌<◌, ◌≡◌, refl, Bool, true, false, not, ◌||◌, List, [], ◌∷◌, ◌++◌, if◌then◌else◌, pos,
  leb_ℤ, Bytes, slice, Outcome, ok, ◌>>=◌, length, length-drop, take, min, arith, sub_ℕ-pos,
}
use tirpc.Buffer.{TcpBuffer, readable, recycle_read}
use tirpc.Buffer.Contents.{IsValid, valid, contents, length-contents}
use tirpc.Buffer.Reading.{recycle_read-Yields}
use tirpc.Connection.{
  Connection, Sent, sends, fails, meanwhile, is_connected, with_output, Writing, is_zero,
  behind_sent, wrote, output_loop, output,
}
use tirpc.Connection.Sending.{all_readable}

-- send_hook takes at least one byte in each call.
abbrev pub EachTakes : List Sent → Type 0
EachTakes [] = Unit
EachTakes (sends n m ∷ script) = (0 < n) × EachTakes script
EachTakes (fails rt m ∷ script) = ⊥

none_readable : (b : TcpBuffer) → IsValid b → length (contents b) ≤ 0 → is_zero (readable b) ≡ true
none_readable b (valid r w v h k) l =
    let e : w - r ≡ 0 = omega (arith, length-contents r w v h k) in
    rw (sub_ℕ-pos w r 0 (omega arith)) refl

module _ {D : Type 0} where
  abbrev pub Ends : Outcome (Writing D) → Type 0
  Ends m = (w : Writing D) × (m ≡ ok w) × (w.ended ≡ true)

  if_Ends : (b : Bool) (x y : Outcome (Writing D)) → Ends x → Ends y → Ends (if b then x else y)
  if_Ends true x y h k = h
  if_Ends false x y h k = k

  behind_sent-Ends : (xs : Bytes) (m : Outcome (Writing D)) → Ends m → Ends (behind_sent xs m)
  behind_sent-Ends xs m (w, e, h) = (record w { sent = xs ++ w.sent }, rw e refl, h)

  output_loop-Ends :
      (script : List Sent) (c : Connection D)
      → IsValid c.write_buffer
      → EachTakes script
      → length (contents c.write_buffer) ≤ length script
      → Ends (output_loop script c)
  unfolding output_loop
  output_loop-Ends [] c v h l =
      let e = none_readable c.write_buffer v l in
      (
        record {
          connection = c;
          ended = not (is_connected c.state) || is_zero (readable c.write_buffer);
          sent = [];
        },
        refl,
        rw e (ground arith),
      )
  output_loop-Ends (fails rt m ∷ script) c v h l = elim h [ ]
  output_loop-Ends (sends n m ∷ script) c v (p, h) l =
      let b = c.write_buffer in
      let xs = contents b in
      let taken = min n (length xs) in
      let (b', e, v', k) = recycle_read-Yields taken b v (omega arith) in
      let c' = with_output b' (meanwhile m c) in
      let fewer : length (contents b') ≤ length script =
        rw k (omega (arith, length-drop taken xs)) in
      let go : Bytes → TcpBuffer → Outcome (Writing D) = λ ys b''.
        let c'' = with_output b'' (meanwhile m c) in
        if leb_ℤ (readable b'') (pos 0) || c''.is_over_time
        then wrote true (take n ys) c''
        else behind_sent (take n ys) (output_loop script c'') in
      if_Ends (not (is_connected c.state) || is_zero (readable b)) (wrote true [] c)
        (slice b.buffer b.read_index (readable b) >>= λ ys.
          recycle_read (pos (min n (length ys))) b >>= go ys)
        (_, refl, refl)
        (rw (all_readable b v) (
          rw e (
            if_Ends (leb_ℤ (readable b') (pos 0) || c'.is_over_time) (wrote true (take n xs) c')
              (behind_sent (take n xs) (output_loop script c')) (_, refl, refl)
              (behind_sent-Ends (take n xs) (output_loop script c')
                (output_loop-Ends script c' v' h fewer)))))

-- Output on a connection with a valid write buffer, where send_hook takes at least one byte in each call:
-- as many calls as there are bytes to write are enough for Output to return.
pub output-Ends :
    {D : Type 0} (script : List Sent) (c : Connection D)
    → IsValid c.write_buffer
    → EachTakes script
    → length (contents c.write_buffer) ≤ length script
    → Ends (output script c)
unfolding output
output-Ends script c v h l =
    if_Ends c.is_over_time (wrote true [] c) (output_loop script c) (_, refl, refl)
      (output_loop-Ends script c v h l)
