-- ===== src/Client.antt =====
-- net/tcp/tcp_client.cpp: a call over a connection of its own. What each connect_hook brings, and
-- whether the timer fires meanwhile, is an argument, and so are the scripts of the connection.
pub mod Waiting
use tirpc.Buffer.{TcpBuffer}
use tirpc.Connection.{
  State, not_connected, connected, half_closing, closed, is_connected, Connection, Meanwhile,
  Received, Sent, meanwhile, Reading, Ended, read_all, over_time, closing, waiting, input, output,
}
use tirpc.Connection.Packages.{get_res_package_data, execute}
use tirpc.Prelude.{
  ℕ, zero, suc, ◌+◌, Bool, true, false, ◌&&◌, ◌||◌, not, List, [], ◌∷◌, Option, none, some,
  if◌then◌else◌, ℤ, pos, Bytes, Outcome, ok, ◌>>=◌,
}
use tirpc.Rpc.Data.{TinyPbStruct}
use tirpc.Rpc.Dispatcher.{decode_package}

abbrev pub error_peer_closed : ℤ
error_peer_closed = pos 10_000_000

abbrev pub error_failed_connect : ℤ
error_failed_connect = pos 10_000_001

abbrev pub error_rpc_call_timeout : ℤ
error_rpc_call_timeout = pos 10_000_007

abbrev pub error_connect_sys_err : ℤ
error_connect_sys_err = pos 10_000_012

-- `pending`: the timer still holds the event of the call. `shuts` and `opens` count the calls of close
-- and of socket that the client makes itself.
pub record TcpClient : Type 0 where
  pub connection : Connection TinyPbStruct
  pub is_timeout : Bool
  pub pending : Bool
  pub shuts : ℕ
  pub opens : ℕ

-- The callback of the timer, which is not repeated.
unfoldable pub timer_cb : Bool → TcpClient → TcpClient
timer_cb fires c =
    if fires && c.pending
    then record c {
      is_timeout = true;
      pending = false;
      connection = record c.connection { is_over_time = true };
    }
    else c

abbrev pub reset_fd : TcpClient → TcpClient
reset_fd c = record c { shuts = c.shuts + 1; opens = c.opens + 1 }

abbrev pub del_timer : TcpClient → TcpClient
del_timer c = record c { pending = false }

abbrev pub set_up_client : TcpClient → TcpClient
set_up_client c = record c { connection = record c.connection { state = connected } }

-- The result of connect_hook, and whether the timer fires before it.
pub data Connect : Type 0 where
  succeeds refused unsupported others : Bool → Connect

-- Where a part of the call ends: behind it, in a return of the call, or in a hook that waits.
pub data Stage : Type 0 where
  goes_on : TcpClient → Stage
  returns : ℤ → Option TinyPbStruct → TcpClient → Stage
  waits : TcpClient → Stage

unfoldable pub attempt : Connect → TcpClient → (TcpClient → Stage) → Stage
unfolding timer_cb
attempt (succeeds t) c again = goes_on (set_up_client (timer_cb t c))
attempt (refused t) c again = returns error_peer_closed none (del_timer (reset_fd (timer_cb t c)))
attempt (unsupported t) c again =
    returns error_connect_sys_err none (del_timer (reset_fd (timer_cb t c)))
attempt (others t) c again = again (reset_fd (timer_cb t c))

unfoldable pub connect_loop : List Connect → TcpClient → Stage
unfolding attempt
connect_loop [] c = if c.is_timeout || is_connected c.connection.state then goes_on c else waits c
connect_loop (x ∷ script) c =
    if c.is_timeout || is_connected c.connection.state
    then goes_on c
    else attempt x c (connect_loop script)

-- The code at err_deal.
unfoldable pub err_deal : Bool → TcpClient → Stage
err_deal timeout c =
    let c' = reset_fd c in
    if timeout
    then returns error_rpc_call_timeout none
        (record c' { connection = record c'.connection { is_over_time = false } })
    else returns error_peer_closed none c'

-- The client behind a call on its connection, in which the timer may have fired.
abbrev pub with_connection : Connection TinyPbStruct → TcpClient → TcpClient
with_connection d c = record c {
  connection = d;
  is_timeout = c.is_timeout || d.is_over_time;
  pending = c.pending && not d.is_over_time;
}

abbrev pub is_closed : State → Bool
is_closed closed = true
is_closed not_connected = false
is_closed connected = false
is_closed half_closing = false

-- What one call of Input finds: the results of recv_hook and, if the peer has closed, whether the
-- timer resumes the coroutine that has yielded; the main coroutine is not waited for.
pub record Turn : Type 0 where
  pub received : List Received
  pub resumed : Option Bool

abbrev pub no_dispatch :
    TinyPbStruct → Unit {0} → Connection TinyPbStruct → Outcome (Unit {0} × Connection TinyPbStruct)
no_dispatch d u c = ok (u, c)

abbrev pub key : TinyPbStruct → Option Bytes
key d = some d.msg_seq

-- `on_main`: the call runs on the main coroutine of its thread, from which Yield returns at once.
module _ (on_main : Bool) (msg_no : Bytes) (rounds : ℕ) where
  -- Behind Input, with what is done once it has returned.
  unfoldable pub after_turn : (TcpClient → Outcome Stage) → TcpClient → Outcome Stage
  unfolding err_deal
  after_turn next c =
      if c.connection.is_over_time
      then ok (err_deal true c)
      else if is_closed c.connection.state
      then ok (err_deal false c)
      else execute decode_package (λ d. d.decode_succ) key no_dispatch rounds tt c.connection
        >>= λ o. elim o [ none ↦ ok (waits c) | some (u, d) ↦ next (with_connection d c) ]

  unfoldable pub turn_over :
      Ended → Option Bool → (TcpClient → Outcome Stage) → TcpClient → Outcome Stage
  unfolding after_turn timer_cb
  turn_over waiting r next c = ok (waits c)
  turn_over closing none next c = if on_main then after_turn next c else ok (waits c)
  turn_over closing (some t) next c =
      if on_main then after_turn next c else after_turn next (timer_cb t c)
  turn_over read_all r next c = after_turn next c
  turn_over over_time r next c = after_turn next c

  abbrev pub replied : TinyPbStruct → Connection TinyPbStruct → TcpClient → Stage
  replied d conn c = returns (pos 0) (some d) (del_timer (record c { connection = conn }))

  unfoldable pub receive : List Turn → TcpClient → Outcome Stage
  unfolding turn_over
  receive [] c =
      let p = get_res_package_data msg_no c.connection in
      elim p.0 [ some d ↦ ok (replied d p.1 c) | none ↦ ok (waits c) ]
  receive (t ∷ turns) c =
      let p = get_res_package_data msg_no c.connection in
      let more = input t.received p.1 >>= λ r.
      turn_over r.ended t.resumed (receive turns) (with_connection r.connection c) in
      elim p.0 [ some d ↦ ok (replied d p.1 c) | none ↦ more ]

  -- Once the connection is there, or the timer has fired.
  unfoldable pub exchange : List Sent → List Turn → TcpClient → Outcome Stage
  unfolding receive err_deal
  exchange sents turns c =
      if not (is_connected c.connection.state)
      then ok (returns error_failed_connect none (del_timer c))
      else output sents (set_up_client c).connection >>= λ w.
          let c' = with_connection w.connection c in
          if not w.ended
          then ok (waits c')
          else if w.connection.is_over_time
          then ok (err_deal true c')
          else receive turns c'

  abbrev pub connected_then : (TcpClient → Outcome Stage) → Stage → Outcome Stage
  connected_then next (goes_on c) = next c
  connected_then next (returns rt d c) = ok (returns rt d c)
  connected_then next (waits c) = ok (waits c)

  -- SendAndRecvTinyPb
  unfoldable pub send_and_recv_tiny_pb :
      List Connect → List Sent → List Turn → TcpClient → Outcome Stage
  unfolding connect_loop exchange
  send_and_recv_tiny_pb connects sents turns c =
      connected_then (exchange sents turns)
        (connect_loop connects (record c { is_timeout = false; pending = true }))
