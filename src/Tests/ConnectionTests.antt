-- ===== src/Tests/ConnectionTests.antt =====
-- A connection with small buffers.
use tirpc.Buffer.Contents.{between, valid}
use tirpc.Connection.{Connection, connected, Meanwhile, bytes, nothing, sends, input, output}
use tirpc.Connection.Closing.{reads, writes, clears, shuts, acts, acts-EndsOnce, EndsOnce}
use tirpc.Connection.Ending.{Ends, output-Ends}
use tirpc.Connection.Receiving.{Appends, input-Appends}
use tirpc.Connection.Sending.{Sends, output-Sends}
use tirpc.Prelude.{ℕ, true, false, [], ◌∷◌, refl, arith}

abbrev calm : Meanwhile
calm = record { over_time = false; shut = false }

abbrev small : Connection ℕ
small = record {
  state = connected;
  is_server = true;
  stop = false;
  is_over_time = false;
  read_buffer = between 1 2 (8 ∷ 9 ∷ []);
  write_buffer = between 1 3 (5 ∷ 6 ∷ 7 ∷ []);
  reply_datas = [];
  has_slot = true;
  refreshes = 0;
  closes = 0;
}

acts-EndsOnce_example :
    EndsOnce
      (acts (reads (nothing calm ∷ []) ∷ writes (sends 1 calm ∷ []) ∷ clears ∷ shuts ∷ []) small)
acts-EndsOnce_example =
    acts-EndsOnce (reads (nothing calm ∷ []) ∷ writes (sends 1 calm ∷ []) ∷ clears ∷ shuts ∷ [])
      small refl

input-Appends_example : Appends (input (bytes (1 ∷ 2 ∷ 3 ∷ []) calm ∷ []) small) (9 ∷ [])
input-Appends_example =
    input-Appends (bytes (1 ∷ 2 ∷ 3 ∷ []) calm ∷ []) small
      (valid 1 2 (8 ∷ 9 ∷ []) (omega arith) (omega arith)) (omega arith)

output-Sends_example : Sends (output (sends 1 calm ∷ sends 5 calm ∷ []) small) (6 ∷ 7 ∷ [])
output-Sends_example =
    output-Sends (sends 1 calm ∷ sends 5 calm ∷ []) small
      (valid 1 3 (5 ∷ 6 ∷ 7 ∷ []) (omega arith) (omega arith)) tt

output-Ends_example : Ends (output (sends 1 calm ∷ sends 5 calm ∷ []) small)
output-Ends_example =
    output-Ends (sends 1 calm ∷ sends 5 calm ∷ []) small
      (valid 1 3 (5 ∷ 6 ∷ 7 ∷ []) (omega arith) (omega arith)) (omega arith, (omega arith, tt))
      (omega arith)
