-- ===== src/Tests/ClientTests.antt =====
-- A client that has connected.
use tirpc.Buffer.Contents.{between, valid}
use tirpc.Client.{TcpClient, receive, error_rpc_call_timeout, error_peer_closed}
use tirpc.Client.Waiting.{peer_closes, ClosesTwice, Waits, receive_closed}
use tirpc.Connection.{connected}
use tirpc.Connection.Packages.{get_res_package_data, take_reply}
use tirpc.Prelude.{true, false, [], ◌∷◌, none, some, refl, arith}

abbrev client : TcpClient
client = record {
  connection = record {
    state = connected;
    is_server = false;
    stop = false;
    is_over_time = false;
    read_buffer = between 0 0 (0 ∷ 0 ∷ []);
    write_buffer = between 0 0 (0 ∷ 0 ∷ []);
    reply_datas = [];
    has_slot = false;
    refreshes = 0;
    closes = 0;
  };
  is_timeout = false;
  pending = true;
  shuts = 0;
  opens = 0;
}

receive_closed_example :
    Waits (receive false (7 ∷ []) 5 (peer_closes none ∷ []) client)
    × ClosesTwice client error_rpc_call_timeout
        (receive false (7 ∷ []) 5 (peer_closes (some true) ∷ []) client)
    × ClosesTwice client error_peer_closed (receive true (7 ∷ []) 5 (peer_closes none ∷ []) client)
unfolding get_res_package_data take_reply
receive_closed_example =
    receive_closed (7 ∷ []) 5 [] client (valid 0 0 (0 ∷ 0 ∷ []) (omega arith) (omega arith))
      (omega arith) refl refl refl refl
