-- ===== src/Connection/Closing.antt =====
-- The life of a connection: its descriptor is closed at most once.
use tirpc.Prelude.{
  ℕ, ◌≡◌, Bool, true, false, not, ◌||◌, List, [], ◌∷◌, if◌then◌else◌, ◌==◌, pos, leb_ℤ, Bytes,
  Outcome, ok, fault, throws, ◌>>=◌, slice, length, take, arith,
}
use tirpc.Buffer.{TcpBuffer, readable, recycle_read}
use tirpc.Connection.{
  State, not_connected, connected, half_closing, closed, Connection, Meanwhile, Received, bytes,
  nothing, Sent, clear_client, shutdown_connection, meanwhile, can_read, is_connected, Ended,
  read_all, over_time, closing, Reading, room_for, fill_in, room, with_input, judge, behind,
  input_loop, after_input, input, with_output, Writing, result_of, aside, sent_of, is_zero,
  behind_sent, wrote, output_loop, output,
}

-- Closed once, or not at all and then not in the state of a closed connection.
abbrev pub CloseCount : State → ℕ → Type 0
CloseCount closed n = n ≡ 1
CloseCount not_connected n = n ≡ 0
CloseCount connected n = n ≡ 0
CloseCount half_closing n = n ≡ 0

module _ {D : Type 0} where
  abbrev pub ClosedOnce : Connection D → Type 0
  ClosedOnce c = CloseCount c.state c.closes

  clear_client-ClosedOnce : (c : Connection D) → ClosedOnce c → ClosedOnce (clear_client c)
  unfolding clear_client
  clear_client-ClosedOnce c h = ground arith

  shutdown_connection-ClosedOnce :
      (c : Connection D) → ClosedOnce c → ClosedOnce (shutdown_connection c)
  unfolding shutdown_connection
  shutdown_connection-ClosedOnce c h = ground arith

  meanwhile-ClosedOnce :
      (m : Meanwhile) (c : Connection D) → ClosedOnce c → ClosedOnce (meanwhile m c)
  unfolding meanwhile
  meanwhile-ClosedOnce m c h = ground (arith, shutdown_connection-ClosedOnce c h)

  -- The outcome of a loop, if it has one, is a connection closed at most once.
  abbrev pub ReadsOnce : Outcome (Reading D) → Type 0
  ReadsOnce (ok r) = ClosedOnce r.connection
  ReadsOnce fault = Unit
  ReadsOnce throws = Unit

  abbrev pub WritesOnce : Outcome (Writing D) → Type 0
  WritesOnce (ok w) = ClosedOnce w.connection
  WritesOnce fault = Unit
  WritesOnce throws = Unit

  ReadsOnce-after :
      {A : Type 0} (m : Outcome A) (f : A → Outcome (Reading D))
      → ((a : A) → ReadsOnce (f a))
      → ReadsOnce (m >>= f)
  ReadsOnce-after (ok a) f k = k a
  ReadsOnce-after fault f k = tt
  ReadsOnce-after throws f k = tt

  WritesOnce-after :
      {A : Type 0} (m : Outcome A) (f : A → Outcome (Writing D))
      → ((a : A) → WritesOnce (f a))
      → WritesOnce (m >>= f)
  WritesOnce-after (ok a) f k = k a
  WritesOnce-after fault f k = tt
  WritesOnce-after throws f k = tt

  if_ReadsOnce :
      (b : Bool) (x y : Outcome (Reading D))
      → ReadsOnce x
      → ReadsOnce y
      → ReadsOnce (if b then x else y)
  if_ReadsOnce true x y h k = h
  if_ReadsOnce false x y h k = k

  if_WritesOnce :
      (b : Bool) (x y : Outcome (Writing D))
      → WritesOnce x
      → WritesOnce y
      → WritesOnce (if b then x else y)
  if_WritesOnce true x y h k = h
  if_WritesOnce false x y h k = k

  behind-ReadsOnce : (xs : Bytes) (m : Outcome (Reading D)) → ReadsOnce m → ReadsOnce (behind xs m)
  behind-ReadsOnce xs (ok r) h = h
  behind-ReadsOnce xs fault h = tt
  behind-ReadsOnce xs throws h = tt

  behind_sent-WritesOnce :
      (xs : Bytes) (m : Outcome (Writing D)) → WritesOnce m → WritesOnce (behind_sent xs m)
  behind_sent-WritesOnce xs (ok r) h = h
  behind_sent-WritesOnce xs fault h = tt
  behind_sent-WritesOnce xs throws h = tt

  judge-ReadsOnce :
      (rt n : ℕ) (xs : Bytes) (c : Connection D) (more : Outcome (Reading D))
      → ClosedOnce c
      → ReadsOnce more
      → ReadsOnce (judge rt n xs c more)
  unfolding judge
  judge-ReadsOnce rt n xs c more h k =
      let end : Ended → Outcome (Reading D) =
        λ e. ok (record { connection = c; ended = e; got = xs }) in
      if_ReadsOnce c.is_over_time (end over_time)
        (if rt == 0 then end closing else if rt == n then more else end read_all) h
        (if_ReadsOnce (rt == 0) (end closing) (if rt == n then more else end read_all) h
          (if_ReadsOnce (rt == n) more (end read_all) k h))

  input_loop-ReadsOnce :
      (script : List Received) (c : Connection D) → ClosedOnce c → ReadsOnce (input_loop script c)
  unfolding input_loop
  input_loop-ReadsOnce [] c h = h
  input_loop-ReadsOnce (nothing m ∷ script) c h = ReadsOnce-after (room_for c.read_buffer) _ (λ b.
      let c' = meanwhile m (with_input b c) in
      let h' = meanwhile-ClosedOnce m (with_input b c) h in
      judge-ReadsOnce 0 (room b) [] c' (ok (record { connection = c'; ended = closing; got = [] }))
        h' h')
  input_loop-ReadsOnce (bytes ys m ∷ script) c h = ReadsOnce-after (room_for c.read_buffer) _ (λ b.
      let xs = take (room b) ys in
      ReadsOnce-after (fill_in xs b) _ (λ b'.
        let c' = meanwhile m (with_input b' c) in
        let h' = meanwhile-ClosedOnce m (with_input b' c) h in
        judge-ReadsOnce (length xs) (room b) xs c' (behind xs (input_loop script c')) h'
          (behind-ReadsOnce xs (input_loop script c') (input_loop-ReadsOnce script c' h'))))

  after_input-ClosedOnce :
      (r : Reading D) → ClosedOnce r.connection → ClosedOnce (after_input r).connection
  unfolding after_input
  after_input-ClosedOnce r h = ground (arith, clear_client-ClosedOnce r.connection h)

  input-ReadsOnce :
      (script : List Received) (c : Connection D) → ClosedOnce c → ReadsOnce (input script c)
  unfolding input
  input-ReadsOnce script c h =
      if_ReadsOnce (c.is_over_time || not (can_read c.state))
        (ok (record { connection = c; ended = over_time; got = [] }))
        (input_loop script c >>= λ r. ok (after_input r)) h
        (ended (input_loop script c) (input_loop-ReadsOnce script c h))
    where
      ended : (m : Outcome (Reading D)) → ReadsOnce m → ReadsOnce (m >>= λ r. ok (after_input r))
      ended (ok r) k = after_input-ClosedOnce r k
      ended fault k = tt
      ended throws k = tt

  output_loop-WritesOnce :
      (script : List Sent) (c : Connection D) → ClosedOnce c → WritesOnce (output_loop script c)
  unfolding output_loop
  output_loop-WritesOnce [] c h = h
  output_loop-WritesOnce (s ∷ script) c h =
      let b = c.write_buffer in
      let go : Bytes → TcpBuffer → Outcome (Writing D) = λ xs b'.
        let c' = with_output b' (meanwhile (aside s) c) in
        if leb_ℤ (readable b') (pos 0) || c'.is_over_time
        then wrote true (sent_of s xs) c'
        else behind_sent (sent_of s xs) (output_loop script c') in
      if_WritesOnce (not (is_connected c.state) || is_zero (readable b)) (wrote true [] c)
        (slice b.buffer b.read_index (readable b) >>= λ xs.
          recycle_read (result_of s (length xs)) b >>= go xs)
        h
        (WritesOnce-after (slice b.buffer b.read_index (readable b)) _ (λ xs.
          WritesOnce-after (recycle_read (result_of s (length xs)) b) (go xs) (λ b'.
            let c' = with_output b' (meanwhile (aside s) c) in
            let h' : ClosedOnce c' = meanwhile-ClosedOnce (aside s) c h in
            if_WritesOnce (leb_ℤ (readable b') (pos 0) || c'.is_over_time)
              (wrote true (sent_of s xs) c') (behind_sent (sent_of s xs) (output_loop script c')) h'
              (behind_sent-WritesOnce (sent_of s xs) (output_loop script c')
                (output_loop-WritesOnce script c' h')))))

-- The calls that change the state of a connection.
pub data Act : Type 0 where
  reads : List Received → Act
  writes : List Sent → Act
  clears shuts : Act

abbrev pub acted : {D : Type 0} → Act → Connection D → Outcome (Connection D)
acted (reads script) c = input script c >>= λ r. ok r.connection
acted (writes script) c = output script c >>= λ w. ok w.connection
acted clears c = ok (clear_client c)
acted shuts c = ok (shutdown_connection c)

abbrev pub acts : {D : Type 0} → List Act → Connection D → Outcome (Connection D)
acts [] c = ok c
acts (a ∷ rest) c = acted a c >>= acts rest

abbrev pub EndsOnce : {D : Type 0} → Outcome (Connection D) → Type 0
EndsOnce (ok c) = ClosedOnce c
EndsOnce fault = Unit
EndsOnce throws = Unit

module _ {D : Type 0} where
  acts-after :
      (m : Outcome (Connection D)) (f : Connection D → Outcome (Connection D))
      → EndsOnce m
      → ((c : Connection D) → ClosedOnce c → EndsOnce (f c))
      → EndsOnce (m >>= f)
  acts-after (ok c) f h k = k c h
  acts-after fault f h k = tt
  acts-after throws f h k = tt

  read-EndsOnce : (m : Outcome (Reading D)) → ReadsOnce m → EndsOnce (m >>= λ r. ok r.connection)
  read-EndsOnce (ok r) h = h
  read-EndsOnce fault h = tt
  read-EndsOnce throws h = tt

  written-EndsOnce :
      (m : Outcome (Writing D)) → WritesOnce m → EndsOnce (m >>= λ w. ok w.connection)
  written-EndsOnce (ok w) h = h
  written-EndsOnce fault h = tt
  written-EndsOnce throws h = tt

  output-WritesOnce :
      (script : List Sent) (c : Connection D) → ClosedOnce c → WritesOnce (output script c)
  unfolding output
  output-WritesOnce script c h =
      if_WritesOnce c.is_over_time (wrote true [] c) (output_loop script c) h
        (output_loop-WritesOnce script c h)

  acted-EndsOnce : (a : Act) (c : Connection D) → ClosedOnce c → EndsOnce (acted a c)
  acted-EndsOnce (reads script) c h = read-EndsOnce (input script c) (input-ReadsOnce script c h)
  acted-EndsOnce (writes script) c h =
      written-EndsOnce (output script c) (output-WritesOnce script c h)
  acted-EndsOnce clears c h = clear_client-ClosedOnce c h
  acted-EndsOnce shuts c h = shutdown_connection-ClosedOnce c h

-- Whatever calls of Input, Output, ClearClient and ShutdownConnection a connection sees, if its
-- descriptor has been closed once when its state is Closed and never before, then so it is after them,
-- where none of them ends in undefined behaviour.
pub acts-EndsOnce :
    {D : Type 0} (calls : List Act) (c : Connection D) → ClosedOnce c → EndsOnce (acts calls c)
acts-EndsOnce [] c h = h
acts-EndsOnce (a ∷ rest) c h =
    acts-after (acted a c) (acts rest) (acted-EndsOnce a c h) (acts-EndsOnce rest)
