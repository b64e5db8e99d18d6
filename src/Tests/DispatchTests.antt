-- ===== src/Tests/DispatchTests.antt =====
-- Servers whose services give back what they get.
use tirpc.Buffer.{TcpBuffer, write_to_buffer}
use tirpc.Buffer.Contents.{between, IsValid, valid, contents}
use tirpc.Connection.{Connection, connected, half_closing, sends, output, shutdown_connection}
use tirpc.Connection.Packages.{execute}
use tirpc.Connection.Executing.{Ends}
use tirpc.Http.{get, HttpRequest, HttpResponse, crlf, encode, response_text, to_http_string}
use tirpc.Http.Dispatcher.{
  HttpDispatcher, decode_request, choose, find_servlet, find_glob, serve, dispatch,
}
use tirpc.Http.Dispatcher.Closing.{dispatch_unsent}
use tirpc.Http.Dispatcher.Endless.{no_key, execute_endless}
use tirpc.Http.Servlet.{set_comm_param, handle}
use tirpc.Prelude.{
  ℕ, Bool, true, false, [], ◌∷◌, ◌++◌, Option, none, some, ◌≡◌, refl, inl, Outcome, ok, Bytes, pos,
  arith, codes, replicate, find, starts_with, substr, slice, overwrite, value_at, assign, to_string,
  digits, if◌then◌else◌, ◌==◌,
}
use tirpc.Rpc.Codec
use tirpc.Rpc.Codec.{package_of, encode_pb_data, with_msg_seq}
use tirpc.Rpc.Codec.RoundTrip.{IsSendable, received}
use tirpc.Rpc.Data.{TinyPbStruct, blank}
use tirpc.Rpc.Dispatcher
use tirpc.Rpc.Dispatcher.{
  Runtime, ServiceMap, decode_package, find_service, respond, reply_of, new_reply, call_service,
  call_method, with_response, parse_service_full_name,
}
use tirpc.Rpc.Dispatcher.Answering.{answer, Called, dispatched, dispatch-answered}
use tirpc.Rpc.Dispatcher.Serving.{key_of, serving, serving-Ends}
use tirpc.Rpc.NetByte.{put_int32}

abbrev has_method : ℕ → Bytes → Option Bytes
has_method s m = some m

abbrev name_of : Bytes → Bytes
name_of m = m

abbrev parsed : Bytes → Bytes → Option Bytes
parsed m d = some d

abbrev echo : ℕ → Bytes → Bytes → Bytes → Outcome Bytes
echo s m seq d = ok d

abbrev written : Bytes → Option Bytes
written d = some d

abbrev services : ServiceMap ℕ
services = (codes "S", some 1) ∷ []

abbrev ask : TinyPbStruct
ask = record blank { msg_seq = codes "7"; service_full_name = codes "S.m"; pb_data = 2 ∷ 3 ∷ [] }

abbrev thread : Runtime
thread = record {
  msg_no = [];
  interface_name = [];
  gen = record { msg_req_nu = []; max_msg_req_nu = [] };
}

abbrev thread_after : Runtime
thread_after = record {
  msg_no = codes "7";
  interface_name = codes "S.m";
  gen = record { msg_req_nu = []; max_msg_req_nu = [] };
}

abbrev server : {D : Type 0} → TcpBuffer → TcpBuffer → Connection D
server r w = record {
  state = connected;
  is_server = true;
  stop = false;
  is_over_time = false;
  read_buffer = r;
  write_buffer = w;
  reply_datas = [];
  has_slot = true;
  refreshes = 0;
  closes = 0;
}

abbrev empty : TcpBuffer
empty = between 0 0 (replicate 64 0)

abbrev full : TcpBuffer
full = between 0 32 (package_of (answer ask (2 ∷ 3 ∷ [])) ++ replicate 32 0)

ask-Called :
    Called has_method name_of parsed echo written services 20 none none ask
      (codes "S")
      (codes "m")
      (2 ∷ 3 ∷ [])
      1
      (codes "m")
      (2 ∷ 3 ∷ [])
      (2 ∷ 3 ∷ [])
unfolding find_service
ask-Called = record {
  named = refl;
  no_dot = omega arith;
  numbered = refl;
  known = refl;
  has_method = refl;
  parsed = refl;
  returned = refl;
  serialized = refl;
}

answer-IsSendable : IsSendable (answer ask (2 ∷ 3 ∷ []))
answer-IsSendable = record {
  header = record {
    seq_ne = omega arith;
    seq_fits = omega arith;
    seq_text = omega arith;
    name_fits = omega arith;
    name_text = omega arith;
    code_fits = refl;
    info_fits = omega arith;
    info_text = tt;
  };
  name_ne = omega arith;
  total_fits = omega arith;
}

ask-dispatched :
    dispatched has_method name_of parsed echo written services 20 none none ask thread
      (server empty empty)
    ≡ ok (thread_after, server empty full)
unfolding Dispatcher.dispatch respond reply_of new_reply call_service call_method with_response
    find_service parse_service_full_name find starts_with substr Codec.encode encode_pb_data
    with_msg_seq package_of put_int32 write_to_buffer overwrite slice
ask-dispatched = refl

dispatch-answered_example :
    (b : TcpBuffer) × (Codec.decode full blank ≡ ok (b, received (answer ask (2 ∷ 3 ∷ [])) blank))
    × IsValid b
    × (contents b ≡ [])
unfolding package_of put_int32
dispatch-answered_example =
    dispatch-answered has_method name_of parsed echo written services 20 none none ask (codes "S")
      (codes "m") (2 ∷ 3 ∷ []) 1 (codes "m") (2 ∷ 3 ∷ []) (2 ∷ 3 ∷ []) thread thread_after
      (server empty empty) (server empty full) full ask-Called answer-IsSendable
      (valid 0 0 (replicate 64 0) (omega arith) (omega arith)) refl ask-dispatched
      (valid 0 32 (package_of (answer ask (2 ∷ 3 ∷ [])) ++ replicate 32 0) (omega arith)
        (omega arith))
      (omega arith) refl

serving-Ends_example :
    Ends decode_package
      (λ d. d.decode_succ)
      key_of
      (serving has_method name_of parsed echo written services 20 none none)
      (execute decode_package
        (λ d. d.decode_succ)
        key_of
        (serving has_method name_of parsed echo written services 20 none none)
        40
        thread
        (server full empty))
unfolding package_of put_int32
serving-Ends_example =
    serving-Ends has_method name_of parsed echo written services 20 none none 40 thread
      (server full empty)
      (valid 0 32 (package_of (answer ask (2 ∷ 3 ∷ [])) ++ replicate 32 0) (omega arith)
        (omega arith))
      (omega arith)

abbrev never : Bytes → Bytes → Bool
never k path = false

abbrev same : ℕ → HttpRequest → HttpResponse → HttpResponse
same i req res = res

abbrev one_servlet : HttpDispatcher
one_servlet = record { servlets = (codes "/a", 5) ∷ []; globs = []; is_close = λ i. false }

abbrev line_only : TcpBuffer
line_only = between 0 6 (codes "junk" ++ crlf)

execute_endless_example :
    execute
      (decode_request get)
      (λ r. r.decode_succ)
      no_key
      (dispatch never same same (pos 0))
      100
      one_servlet
      (server line_only empty)
    ≡ ok none
execute_endless_example =
    execute_endless never same same (pos 0) get (codes "junk") 100 one_servlet
      (server line_only empty) (valid 0 6 (codes "junk" ++ crlf) (omega arith) (omega arith)) refl
      (omega arith) refl

abbrev old : HttpRequest
old = record {
  request_method = get;
  request_path = codes "/a";
  request_query = [];
  request_version = codes "HTTP/1.0";
  request_header = [];
  request_body = [];
  query_maps = [];
  decode_succ = true;
}

abbrev said : Bytes
said = codes "HTTP/1.0 0 " ++ (crlf ++ (codes "Connection:" ++ (crlf ++ crlf)))

abbrev shut : Connection HttpRequest
shut = record (server empty (between 0 28 (said ++ replicate 36 0))) { state = half_closing }

abbrev tired : HttpDispatcher
tired = record one_servlet { is_close = λ i. if i == 5 then true else false }

old-dispatched :
    dispatch never same same (pos 0) old one_servlet (server empty empty) ≡ ok (tired, shut)
unfolding dispatch choose find_servlet find_glob serve set_comm_param handle shutdown_connection
    encode response_text to_http_string to_string digits value_at assign write_to_buffer overwrite
    slice
old-dispatched = refl

dispatch_unsent_example :
    (output (sends 9 (record { over_time = false; shut = false }) ∷ []) shut
      ≡ ok (record { connection = shut; ended = true; sent = [] }))
    × (tired.is_close 5 ≡ true)
unfolding choose find_servlet find_glob
dispatch_unsent_example =
    dispatch_unsent never same same (pos 0) 5 old one_servlet tired (server empty empty) shut
      (sends 9 (record { over_time = false; shut = false }) ∷ []) refl refl (inl refl) refl
      old-dispatched
