-- ===== src/Connection.antt =====
-- net/tcp/tcp_connection.cpp. The sockets are arguments: a list of what each wait of recv_hook or
-- send_hook brings. The codec, the dispatcher and the data that they pass (`D`) are arguments too.
-- `closes` counts the calls of close on the descriptor, `refreshes` those of FreshTcpConnection.
pub mod Packages
pub mod Closing
pub mod Receiving
pub mod Sending
pub mod Ending
pub mod Executing
use tirpc.Buffer.{
  TcpBuffer, readable, writeable, size_of, resize_buffer, recycle_read, recycle_write,
}
use tirpc.Prelude.{
  ℕ, zero, suc, ◌+◌, ◌-◌, ◌*◌, Bool, true, false, not, ◌&&◌, ◌||◌, List, [], ◌∷◌, ◌++◌, Option,
  none, some, if◌then◌else◌, ◌==◌, ltb, ℤ, pos, negsuc, neg, ◌+ℤ◌, ◌-ℤ◌, ltb_ℤ, leb_ℤ, Bytes,
  Outcome, ok, fault, ◌>>=◌, slice, overwrite, length, take, min, same_text,
}

pub data State : Type 0 where
  not_connected connected half_closing closed : State

pub record Connection (D : Type 0) : Type 0 where
  pub state : State
  pub is_server : Bool
  pub stop : Bool
  pub is_over_time : Bool
  pub read_buffer : TcpBuffer
  pub write_buffer : TcpBuffer
  pub reply_datas : List (Bytes × D)
  -- Is the slot of the connection still in the time wheel?
  pub has_slot : Bool
  pub refreshes : ℕ
  pub closes : ℕ

-- What happens to the connection while a call of a hook waits.
pub record Meanwhile : Type 0 where
  pub over_time : Bool
  pub shut : Bool

-- What recv_hook brings: bytes, of which it takes as many as there is room for, or a result that is
-- not positive.
pub data Received : Type 0 where
  bytes : Bytes → Meanwhile → Received
  nothing : Meanwhile → Received

-- What send_hook brings: how much it could send, or a result that is not positive.
pub data Sent : Type 0 where
  sends : ℕ → Meanwhile → Sent
  fails : ℤ → Meanwhile → Sent

abbrev pub can_read : State → Bool
can_read not_connected = false
can_read connected = true
can_read half_closing = true
can_read closed = false

abbrev pub is_connected : State → Bool
is_connected not_connected = false
is_connected connected = true
is_connected half_closing = false
is_connected closed = false

module _ {D : Type 0} where
  unfoldable pub clear_client : Connection D → Connection D
  clear_client c = elim c.state [
    | closed ↦ c
    | _ ↦ record c { stop = true; closes = c.closes + 1; state = closed }
  ]

  unfoldable pub shutdown_connection : Connection D → Connection D
  shutdown_connection c = elim c.state [
    | closed ↦ c
    | not_connected ↦ c
    | _ ↦ record c { state = half_closing }
  ]

  unfoldable pub meanwhile : Meanwhile → Connection D → Connection D
  unfolding shutdown_connection
  meanwhile m c =
      let c' = if m.over_time then record c { is_over_time = true } else c in
      if m.shut then shutdown_connection c' else c'

-- How the loop of Input ends.
pub data Ended : Type 0 where
  read_all over_time closing waiting : Ended

pub record Reading (D : Type 0) : Type 0 where
  pub connection : Connection D
  pub ended : Ended
  -- The bytes that recv_hook has put into the buffer.
  pub got : Bytes

-- A buffer with no room left is doubled: its size times two is an `int`, and undefined where it is too large.
unfoldable pub double_size : TcpBuffer → Outcome TcpBuffer
double_size b =
    if ltb (2 * length b.buffer) 2_147_483_648
    then resize_buffer (pos (2 * length b.buffer)) b
    else fault

unfoldable pub room_for : TcpBuffer → Outcome TcpBuffer
unfolding double_size
room_for b = elim (writeable b) [ pos n ↦ if n == 0 then double_size b else ok b | negsuc n ↦ ok b ]

-- recv_hook writes behind the write index, which RecycleWrite then moves.
unfoldable pub fill_in : Bytes → TcpBuffer → Outcome TcpBuffer
fill_in xs b = overwrite b.buffer b.write_index xs >>= λ v.
    recycle_write (pos (length xs)) (record b { buffer = v })

abbrev pub room : TcpBuffer → ℕ
room b = elim (writeable b) [ pos n ↦ n | negsuc n ↦ 0 ]

module _ {D : Type 0} where
  abbrev pub with_input : TcpBuffer → Connection D → Connection D
  with_input b c = record c { read_buffer = b }

  -- The rest of a round, behind the call of recv_hook; `more` goes on with the loop.
  unfoldable pub judge : ℕ → ℕ → Bytes → Connection D → Outcome (Reading D) → Outcome (Reading D)
  judge rt read_count xs c more =
      let end : Ended → Outcome (Reading D) =
        λ e. ok (record { connection = c; ended = e; got = xs }) in
      if c.is_over_time
      then end over_time
      else if rt == 0
      then end closing
      else if rt == read_count
      then more
      else end read_all

  abbrev pub behind : Bytes → Outcome (Reading D) → Outcome (Reading D)
  behind xs m = m >>= λ r. ok (record r { got = xs ++ r.got })

  unfoldable pub input_loop : List Received → Connection D → Outcome (Reading D)
  unfolding room_for fill_in meanwhile judge
  input_loop [] c = ok (record { connection = c; ended = waiting; got = [] })
  input_loop (nothing m ∷ script) c = room_for c.read_buffer >>= λ b.
      let c' = meanwhile m (with_input b c) in
      judge 0 (room b) [] c' (ok (record { connection = c'; ended = closing; got = [] }))
  input_loop (bytes ys m ∷ script) c = room_for c.read_buffer >>= λ b.
      let xs = take (room b) ys in
      fill_in xs b >>= λ b'.
      let c' = meanwhile m (with_input b' c) in
      judge (length xs) (room b) xs c' (behind xs (input_loop script c'))

  -- Input behind its loop.
  unfoldable pub after_input : Reading D → Reading D
  unfolding clear_client
  after_input r =
      let c = r.connection in
      elim r.ended [
        | closing ↦ record r { connection = clear_client c }
        | over_time ↦ r
        | waiting ↦ r
        | read_all ↦
            if c.is_server && c.has_slot
            then record r { connection = record c { refreshes = c.refreshes + 1 } }
            else r
      ]

  unfoldable pub input : List Received → Connection D → Outcome (Reading D)
  unfolding input_loop after_input
  input script c =
      if c.is_over_time || not (can_read c.state)
      then ok (record { connection = c; ended = over_time; got = [] })
      else input_loop script c >>= λ r. ok (after_input r)

  abbrev pub with_output : TcpBuffer → Connection D → Connection D
  with_output b c = record c { write_buffer = b }

abbrev pub is_zero : ℤ → Bool
is_zero (pos n) = n == 0
is_zero (negsuc n) = false

-- How Output ends, with the bytes that send_hook took from the buffer.
pub record Writing (D : Type 0) : Type 0 where
  pub connection : Connection D
  pub ended : Bool
  pub sent : Bytes

-- The result of send_hook that asks for `total` bytes, and what happens meanwhile.
abbrev pub result_of : Sent → ℕ → ℤ
result_of (sends n m) total = pos (min n total)
result_of (fails rt m) total = rt

abbrev pub aside : Sent → Meanwhile
aside (sends n m) = m
aside (fails rt m) = m

abbrev pub sent_of : Sent → Bytes → Bytes
sent_of (sends n m) xs = take n xs
sent_of (fails rt m) xs = []

module _ {D : Type 0} where
  abbrev pub behind_sent : Bytes → Outcome (Writing D) → Outcome (Writing D)
  behind_sent xs m = m >>= λ w. ok (record w { sent = xs ++ w.sent })

  abbrev pub wrote : Bool → Bytes → Connection D → Outcome (Writing D)
  wrote b xs c = ok (record { connection = c; ended = b; sent = xs })

  -- The loop of Output, which sends all that is readable: to read outside of the vector is undefined.
  -- An empty list is a call of send_hook that still waits.
  unfoldable pub output_loop : List Sent → Connection D → Outcome (Writing D)
  unfolding meanwhile
  output_loop [] c = wrote (not (is_connected c.state) || is_zero (readable c.write_buffer)) [] c
  output_loop (s ∷ script) c =
      let b = c.write_buffer in
      let round = slice b.buffer b.read_index (readable b) >>= λ xs.
      recycle_read (result_of s (length xs)) b >>= λ b'.
      let c' = with_output b' (meanwhile (aside s) c) in
      let rest = behind_sent (sent_of s xs) (output_loop script c') in
      if leb_ℤ (readable b') (pos 0) || c'.is_over_time
      then wrote true (sent_of s xs) c'
      else rest in
      if not (is_connected c.state) || is_zero (readable b) then wrote true [] c else round

  unfoldable pub output : List Sent → Connection D → Outcome (Writing D)
  unfolding output_loop
  output script c = if c.is_over_time then wrote true [] c else output_loop script c
