-- ===== src/Connection/Receiving.antt =====
-- Input: what recv_hook brings is appended to the read buffer.
use tirpc.Prelude.{
  ℕ, ◌<◌, ◌*◌, ltb, ◌+◌, ◌-◌, ◌≤◌, ◌≡◌, refl, sym, ap, ◌∙◌, subst, Bool, true, false, not, ◌||◌,
  List, [], ◌∷◌, ◌++◌, if◌then◌else◌, ◌==◌, Bytes, overwrite, Outcome, ok, ◌>>=◌, length, take,
  drop, arith, inl, inr, Bool-cases, sub_ℕ-pos, le→leb, append-nil, append_assoc, length-append,
  length-take, length-drop, take-append, drop-append, drop-append_le, drop-take, take_all,
}
use tirpc.Buffer.{TcpBuffer}
use tirpc.Buffer.Contents.{between, index, IsValid, valid, contents, length-contents}
use tirpc.Buffer.Indices.{Within, resize_buffer-Within, recycle_write-Within}
use tirpc.Buffer.Reading.{recycle_write-Yields}
use tirpc.Buffer.Writing.{resize_buffer-Yields}
use tirpc.Connection.{
  Connection, Meanwhile, Received, bytes, nothing, clear_client, shutdown_connection, meanwhile,
  can_read, Ended, read_all, over_time, closing, waiting, Reading, room_for, fill_in, room,
  with_input, judge, behind, input_loop, after_input, input,
}

-- A round finds room: the contents stay, whether the buffer is doubled or not, and the write index does
-- not grow.
pub room_for-Yields :
    (b : TcpBuffer)
    → IsValid b
    → index b.write_index < 1_073_741_824
    → (b' : TcpBuffer) × (room_for b ≡ ok b')
      × IsValid b'
      × (contents b' ≡ contents b)
      × (index b'.write_index ≤ index b.write_index)
unfolding room_for
room_for-Yields b (valid r w v h k) l =
    rw (sub_ℕ-pos (length v) w (length v - w) (omega arith), room_for)
      (elim (Bool-cases (length v - w == 0)) [
        | inl full ↦
            let fits : ltb (2 * length v) 2_147_483_648 ≡ true = ground arith in
            let (b', e, v', c) =
              resize_buffer-Yields (2 * length v) (between r w v) (valid r w v h k) in
            let near =
              subst (Within w) e
                (resize_buffer-Within (2 * length v) (between r w v) (valid r w v h k)) in
            rw full (
              rw fits (
                b',
                e,
                v',
                c
                    ∙ take_all (2 * length v) (contents (between r w v))
                        (omega (arith, length-contents r w v h k)),
                near,
              ))
        | inr some_room ↦ rw some_room (between r w v, refl, valid r w v h k, refl, omega arith)
      ])

overwritten :
    (r w : ℕ) (v xs : Bytes)
    → r ≤ w
    → w + length xs ≤ length v
    → take (w - r) (drop r (take w v ++ (xs ++ drop (w + length xs) v)))
        ++ take (length xs) (drop w (take w v ++ (xs ++ drop (w + length xs) v)))
      ≡ take (w - r) (drop r v) ++ xs
overwritten r w v xs h k =
    let front : length (take w v) ≡ w = omega (arith, length-take w v) in
    rw (drop-append_le r (take w v) (xs ++ drop (w + length xs) v) (omega arith)) (
      rw (drop-take r w (w - r) v (omega arith)) (
        rw
          (take-append (w - r) (take (w - r) (drop r v)) (xs ++ drop (w + length xs) v)
            (omega (arith, length-contents r w v h (omega arith))))
          (rw (drop-append w (take w v) (xs ++ drop (w + length xs) v) (sym front))
            (rw (take-append (length xs) xs (drop (w + length xs) v) refl) refl))))

room_left : (r w : ℕ) (v : Bytes) → w ≤ length v → room (between r w v) ≡ length v - w
room_left r w v k = rw (sub_ℕ-pos (length v) w (length v - w) (omega arith), room) refl

-- What a round puts behind the contents.
fill_in-Yields :
    (xs : Bytes) (b : TcpBuffer)
    → IsValid b
    → length xs ≤ room b
    → (b' : TcpBuffer) × (fill_in xs b ≡ ok b')
      × IsValid b'
      × (contents b' ≡ contents b ++ xs)
      × (index b'.write_index ≤ index b.write_index + length xs)
unfolding fill_in overwrite
fill_in-Yields xs b (valid r w v h k) l =
    let fits : w + length xs ≤ length v = omega (arith, room_left r w v k) in
    let size : length v ≤ length (take w v ++ (xs ++ drop (w + length xs) v)) = omega (
      arith,
      length-append (take w v) (xs ++ drop (w + length xs) v),
      length-append xs (drop (w + length xs) v),
      length-take w v,
      length-drop (w + length xs) v,
    ) in
    let v' = take w v ++ (xs ++ drop (w + length xs) v) in
    let (b', e, good, c) = recycle_write-Yields (length xs) r w v' h (omega arith) in
    let near =
      subst (Within (w + length xs)) e (recycle_write-Within (length xs) r w v' h (omega arith)) in
    rw (le→leb (w + length xs) (length v) fits) (b', e, good, c ∙ overwritten r w v xs h fits, near)

-- How many bytes recv_hook has to bring.
abbrev pub arriving : List Received → ℕ
arriving [] = 0
arriving (nothing m ∷ script) = arriving script
arriving (bytes xs m ∷ script) = length xs + arriving script

module _ {D : Type 0} where
  -- The call succeeds, and the read buffer is valid and holds `xs` and what has come in.
  abbrev pub Appends : Outcome (Reading D) → Bytes → Type 0
  Appends m xs =
      (r : Reading D) × (m ≡ ok r)
      × IsValid r.connection.read_buffer
      × (contents r.connection.read_buffer ≡ xs ++ r.got)

  if_Appends :
      (b : Bool) (x y : Outcome (Reading D)) (xs : Bytes)
      → Appends x xs
      → Appends y xs
      → Appends (if b then x else y) xs
  if_Appends true x y xs h k = h
  if_Appends false x y xs h k = k

  behind-Appends :
      (xs ys : Bytes) (m : Outcome (Reading D)) → Appends m (xs ++ ys) → Appends (behind ys m) xs
  behind-Appends xs ys m (r, e, v, h) =
      (record r { got = ys ++ r.got }, rw e refl, v, h ∙ append_assoc xs ys r.got)

  judge-Appends :
      (rt n : ℕ) (xs ys : Bytes) (c : Connection D) (more : Outcome (Reading D))
      → IsValid c.read_buffer
      → contents c.read_buffer ≡ xs ++ ys
      → Appends more xs
      → Appends (judge rt n ys c more) xs
  unfolding judge
  judge-Appends rt n xs ys c more v h k =
      let end : Ended → Outcome (Reading D) =
        λ e. ok (record { connection = c; ended = e; got = ys }) in
      let ends : (e : Ended) → Appends (end e) xs =
        λ e. (record { connection = c; ended = e; got = ys }, refl, v, h) in
      if_Appends c.is_over_time (end over_time)
        (if rt == 0 then end closing else if rt == n then more else end read_all) xs
        (ends over_time)
        (if_Appends (rt == 0) (end closing) (if rt == n then more else end read_all) xs
          (ends closing) (if_Appends (rt == n) more (end read_all) xs k (ends read_all)))

  meanwhile-read_buffer :
      (m : Meanwhile) (c : Connection D) → (meanwhile m c).read_buffer ≡ c.read_buffer
  unfolding meanwhile shutdown_connection
  meanwhile-read_buffer m c = ground arith

  input_loop-Appends :
      (script : List Received) (c : Connection D)
      → IsValid c.read_buffer
      → index c.read_buffer.write_index + arriving script < 1_073_741_824
      → Appends (input_loop script c) (contents c.read_buffer)
  unfolding input_loop
  input_loop-Appends [] c v l = (
    record { connection = c; ended = waiting; got = [] },
    refl,
    v,
    sym (append-nil (contents c.read_buffer)),
  )
  input_loop-Appends (nothing m ∷ script) c v l =
      let (b, e, v', h, near) = room_for-Yields c.read_buffer v (omega arith) in
      let same = meanwhile-read_buffer m (with_input b c) in
      let c' = meanwhile m (with_input b c) in
      let v'' : IsValid c'.read_buffer = subst IsValid (sym same) v' in
      let h' : contents c'.read_buffer ≡ contents c.read_buffer ++ [] =
        ap contents same ∙ h ∙ sym (append-nil (contents c.read_buffer)) in
      rw e (
        judge-Appends 0 (room b) (contents c.read_buffer) [] c'
          (ok (record { connection = c'; ended = closing; got = [] })) v'' h'
          (record { connection = c'; ended = closing; got = [] }, refl, v'', h'))
  input_loop-Appends (bytes ys m ∷ script) c v l =
      let (b, e, v', h, near) = room_for-Yields c.read_buffer v (omega arith) in
      let xs = take (room b) ys in
      let (b', e', w, k, near') = fill_in-Yields xs b v' (omega (arith, length-take (room b) ys)) in
      let same = meanwhile-read_buffer m (with_input b' c) in
      let c' = meanwhile m (with_input b' c) in
      let w' : IsValid c'.read_buffer = subst IsValid (sym same) w in
      let k' : contents c'.read_buffer ≡ contents c.read_buffer ++ xs =
        ap contents same ∙ k ∙ ap (λ p. p ++ xs) h in
      let back : index c'.read_buffer.write_index ≡ index b'.write_index =
        ap (λ q. index q.write_index) same in
      let left : index c'.read_buffer.write_index + arriving script < 1_073_741_824 =
        omega (arith, length-take (room b) ys) in
      rw e (
        rw e' (
          judge-Appends (length xs) (room b) (contents c.read_buffer) xs c'
            (behind xs (input_loop script c')) w' k'
            (behind-Appends (contents c.read_buffer) xs (input_loop script c')
              (subst (Appends (input_loop script c')) k' (input_loop-Appends script c' w' left)))))

  after_input-same :
      (r : Reading D)
      → ((after_input r).connection.read_buffer ≡ r.connection.read_buffer)
        × ((after_input r).got ≡ r.got)
  unfolding after_input clear_client
  after_input-same r = ground arith

-- Input on a connection with a valid read buffer, whose write index and the bytes that arrive come to less
-- than 2 ^ 30: whatever recv_hook brings, no call fails; where Input returns, and also where it waits in
-- recv_hook for more, the buffer is valid, and it holds what it held and then the bytes received, in their
-- order.
pub input-Appends :
    {D : Type 0} (script : List Received) (c : Connection D)
    → IsValid c.read_buffer
    → index c.read_buffer.write_index + arriving script < 1_073_741_824
    → Appends (input script c) (contents c.read_buffer)
unfolding input
input-Appends script c v l =
    let (r, e, w, h) = input_loop-Appends script c v l in
    let (same, got) = after_input-same r in
    if_Appends (c.is_over_time || not (can_read c.state))
      (ok (record { connection = c; ended = over_time; got = [] }))
      (input_loop script c >>= λ r. ok (after_input r)) (contents c.read_buffer)
      (
        record { connection = c; ended = over_time; got = [] },
        refl,
        v,
        sym (append-nil (contents c.read_buffer)),
      )
      (
        after_input r,
        rw e refl,
        subst IsValid (sym same) w,
        ap contents same ∙ h ∙ ap (λ g. contents c.read_buffer ++ g) (sym got),
      )
