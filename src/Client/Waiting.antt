-- ===== src/Client/Waiting.antt =====
-- A call whose peer closes the connection.
use tirpc.Buffer.{TcpBuffer}
use tirpc.Buffer.Contents.{index, IsValid}
use tirpc.Client.{
  TcpClient, Turn, Stage, waits, returns, error_rpc_call_timeout, error_peer_closed, reset_fd,
  with_connection, timer_cb, err_deal, after_turn, turn_over, receive,
}
use tirpc.Connection.{
  Connection, connected, closed, nothing, closing, Reading, meanwhile, judge, input_loop,
  after_input, clear_client, input,
}
use tirpc.Connection.Packages.{get_res_package_data}
use tirpc.Connection.Receiving.{room_for-Yields}
use tirpc.Prelude.{
  ℕ, ◌<◌, ◌+◌, ℤ, Bool, true, false, List, [], ◌∷◌, Option, none, some, ◌≡◌, refl, ◌∙◌, Bytes,
  Outcome, ok,
}
use tirpc.Rpc.Data.{TinyPbStruct}

-- The peer closes, and the coroutine is resumed as `resumed` says.
abbrev pub peer_closes : Option Bool → Turn
peer_closes resumed = record {
  received = nothing (record { over_time = false; shut = false }) ∷ [];
  resumed = resumed;
}

module _ {D : Type 0} where
  -- Input has closed the descriptor, once more than before.
  input_closes :
      (c : Connection D)
      → IsValid c.read_buffer
      → c.state ≡ connected
      → c.is_over_time ≡ false
      → index c.read_buffer.write_index < 1_073_741_824
      → (b : TcpBuffer) × (input (nothing (record { over_time = false; shut = false }) ∷ []) c
          ≡ ok (record {
            connection = record c {
              read_buffer = b;
              stop = true;
              closes = c.closes + 1;
              state = closed;
            };
            ended = closing;
            got = [];
          }))
  unfolding input input_loop judge meanwhile after_input clear_client
  input_closes c v e o l =
      let (b, f, v', h, near) = room_for-Yields c.read_buffer v l in (b, rw (o, e, f) refl)

-- The call has returned `rt` without a reply, and the descriptor was closed twice since `c`.
abbrev pub ClosesTwice : TcpClient → ℤ → Outcome Stage → Type 0
ClosesTwice c rt m =
    (c' : TcpClient) × (m ≡ ok (returns rt none c'))
    × (c'.shuts ≡ c.shuts + 1)
    × (c'.connection.closes ≡ c.connection.closes + 1)

abbrev pub Waits : Outcome Stage → Type 0
Waits m = (c' : TcpClient) × (m ≡ ok (waits c'))

module _ (on_main : Bool) (msg_no : Bytes) (rounds : ℕ) where
  turned :
      (t : Turn) (turns : List Turn) (c : TcpClient) (r : Reading TinyPbStruct)
      → (get_res_package_data msg_no c.connection).0 ≡ none
      → input t.received (get_res_package_data msg_no c.connection).1 ≡ ok r
      → receive on_main msg_no rounds (t ∷ turns) c
        ≡ turn_over on_main msg_no rounds r.ended t.resumed
            (receive on_main msg_no rounds turns)
            (with_connection r.connection c)
  unfolding receive
  turned t turns c r h f = rw (h, receive) (rw f refl)

module _ (msg_no : Bytes) (rounds : ℕ) (next : TcpClient → Outcome Stage) (c : TcpClient) where
  timed_out :
      c.pending ≡ true
      → turn_over false msg_no rounds closing (some true) next c
        ≡ ok (
            returns error_rpc_call_timeout none (record (reset_fd c) {
              is_timeout = true;
              pending = false;
              connection = record c.connection { is_over_time = false };
            }))
  unfolding turn_over after_turn timer_cb err_deal
  timed_out h = rw h refl

  waits_closing : turn_over false msg_no rounds closing none next c ≡ ok (waits c)
  unfolding turn_over
  waits_closing = refl

  told_closed :
      c.connection.is_over_time ≡ false
      → c.connection.state ≡ closed
      → turn_over true msg_no rounds closing none next c
        ≡ ok (returns error_peer_closed none (reset_fd c))
  unfolding turn_over after_turn err_deal
  told_closed h k = rw h (rw k refl)

-- The peer closes an open connection, in time and before the reply is there; the read buffer is valid and
-- its write index is below 2 ^ 30. On another coroutine than the main one, the call does not return, but
-- waits for its timer; when that fires, the call returns the code of a timeout, not that of a closed peer.
-- On the main coroutine it returns the code of a closed peer at once. Where it returns, the descriptor has
-- been closed twice.
pub receive_closed :
    (msg_no : Bytes) (rounds : ℕ) (turns : List Turn) (c : TcpClient)
    → IsValid c.connection.read_buffer
    → index c.connection.read_buffer.write_index < 1_073_741_824
    → c.connection.state ≡ connected
    → c.connection.is_over_time ≡ false
    → c.pending ≡ true
    → (get_res_package_data msg_no c.connection).0 ≡ none
    → Waits (receive false msg_no rounds (peer_closes none ∷ turns) c)
      × ClosesTwice c error_rpc_call_timeout
          (receive false msg_no rounds (peer_closes (some true) ∷ turns) c)
      × ClosesTwice c error_peer_closed (receive true msg_no rounds (peer_closes none ∷ turns) c)
unfolding get_res_package_data
receive_closed msg_no rounds turns c v l e o p h =
    let d = (get_res_package_data msg_no c.connection).1 in
    let (b, f) = input_closes d v e o l in
    let shut : Connection TinyPbStruct = record d {
      read_buffer = b;
      stop = true;
      closes = d.closes + 1;
      state = closed;
    } in
    let r : Reading TinyPbStruct = record { connection = shut; ended = closing; got = [] } in
    let c1 : TcpClient = with_connection shut c in
    let still : c1.pending ≡ true = rw (p, o) refl in
    (
      (
        c1,
        turned false msg_no rounds (peer_closes none) turns c r h f
            ∙ waits_closing msg_no rounds (receive false msg_no rounds turns) c1,
      ),
      (
        record (reset_fd c1) {
          is_timeout = true;
          pending = false;
          connection = record c1.connection { is_over_time = false };
        },
        turned false msg_no rounds (peer_closes (some true)) turns c r h f
            ∙ timed_out msg_no rounds (receive false msg_no rounds turns) c1 still,
        refl,
        refl,
      ),
      (
        reset_fd c1,
        turned true msg_no rounds (peer_closes none) turns c r h f
            ∙ told_closed msg_no rounds (receive true msg_no rounds turns) c1 o refl,
        refl,
        refl,
      ),
    )
