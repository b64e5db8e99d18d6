-- ===== src/Rpc/Dispatcher.antt =====
-- net/rpc/rpc_dispatcher.cpp: how a server answers a package. What protobuf and the services do are
-- arguments. Each return of Dispatch encodes one reply, which is written once here.
pub mod Answering
pub mod Serving
use tirpc.Buffer.{TcpBuffer}
use tirpc.Connection.{Connection}
use tirpc.MsgReq.{MsgReq, gen_msg_number, is_empty}
use tirpc.Prelude.{
  ℕ, ◌+◌, ◌-◌, Bool, true, false, List, [], ◌∷◌, ◌++◌, Option, none, some, if◌then◌else◌, ℤ, pos,
  Outcome, ok, ◌>>=◌, Bytes, length, codes, same_text, find, substr,
}
use tirpc.Rpc.Codec.{encode, decode}
use tirpc.Rpc.Data.{TinyPbStruct, blank}

abbrev pub error_failed_serialize : ℤ
error_failed_serialize = pos 10_000_004

abbrev pub error_service_not_found : ℤ
error_service_not_found = pos 10_000_008

abbrev pub error_method_not_found : ℤ
error_method_not_found = pos 10_000_009

abbrev pub error_parse_service_name : ℤ
error_parse_service_name = pos 10_000_010

-- The Runtime of the coroutine, and the thread's numbers.
pub record Runtime : Type 0 where
  pub msg_no : Bytes
  pub interface_name : Bytes
  pub gen : MsgReq

-- The names in front of the first dot and behind it.
unfoldable pub parse_service_full_name : Bytes → Outcome (Option (Bytes × Bytes))
parse_service_full_name full_name =
    if is_empty full_name then ok none else elim (find (46 ∷ []) full_name) [
      | none ↦ ok none
      | some i ↦ substr full_name 0 i >>= λ s.
          substr full_name (i + 1) (length full_name - i - 1) >>= λ m. ok (some (s, m))
    ]

abbrev pub failed : ℤ → Bytes → TinyPbStruct → TinyPbStruct
failed code info r = record r { err_code = code; err_info = info }

-- What GenDataPtr and Decode give for the bytes of a connection.
abbrev pub decode_package : TcpBuffer → Outcome (TinyPbStruct × TcpBuffer)
decode_package b = decode b blank >>= λ (b', d). ok (d, b')

-- The services by their names; a pointer that is registered may be null.
abbrev pub ServiceMap : Type 0 → Type 0
ServiceMap Service = List (Bytes × Option Service)

module _ {Service : Type 0} where
  unfoldable pub find_service : Bytes → ServiceMap Service → Option Service
  find_service name [] = none
  find_service name ((k, s) ∷ m) =
      let rest = find_service name m in if same_text k name then s else rest

  -- service_map_[service_name] = service
  unfoldable pub register_service : Bytes → Option Service → ServiceMap Service → ServiceMap Service
  register_service name service [] = (name, service) ∷ []
  register_service name service ((k, s) ∷ m) =
      let rest = register_service name service m in
      if same_text k name then (k, service) ∷ m else (k, s) ∷ rest

-- The reply once the service has returned.
unfoldable pub with_response : Option Bytes → TinyPbStruct → TinyPbStruct
with_response (some text) r = record r { pb_data = text }
with_response none r =
    failed error_failed_serialize (codes "failed to serilize relpy data")
      (record r { pb_data = [] })

-- reply_pk as it is made, with a new number where the package has none.
unfoldable pub new_reply : ℕ → Option Bytes → TinyPbStruct → MsgReq → TinyPbStruct × MsgReq
new_reply len random tmp g =
    let r = record blank { service_full_name = tmp.service_full_name; msg_seq = tmp.msg_seq } in
    if is_empty tmp.msg_seq
    then (let (seq, g') = gen_msg_number len random g in (record r { msg_seq = seq }, g'))
    else (r, g)

module _ {Service Method Request Response : Type 0} (find_method : Service → Bytes → Option Method)
    (request_name : Method → Bytes) (parse : Method → Bytes → Option Request)
    (call : Service → Method → Bytes → Request → Outcome Response)
    (serialize : Response → Option Bytes) (service_map : ServiceMap Service) where
  unfoldable pub call_method : Service → Method → Bytes → TinyPbStruct → Outcome TinyPbStruct
  unfolding with_response
  call_method service method pb_data r = elim (parse method pb_data) [
    | none ↦ ok (
        failed error_failed_serialize
          (codes "faild to parse request data, request.name:["
            ++ (request_name method ++ codes "]"))
          r)
    | some request ↦ call service method r.msg_seq request >>= λ response.
        ok (with_response (serialize response) r)
  ]

  unfoldable pub call_service : Bytes → Bytes → Bytes → TinyPbStruct → Outcome TinyPbStruct
  unfolding call_method
  call_service service_name method_name pb_data r = elim (find_service service_name service_map) [
    | none ↦ ok (
        failed error_service_not_found
          (codes "not found service_name:[" ++ (service_name ++ codes "]")) r)
    | some service ↦ elim (find_method service method_name) [
      | none ↦ ok (
          failed error_method_not_found
            (codes "not found method_name:[" ++ (method_name ++ codes "]")) r)
      | some method ↦ call_method service method pb_data r
    ]
  ]

  -- The reply to the package `tmp`, which starts as `r`, and the interface name of the runtime.
  unfoldable pub reply_of : TinyPbStruct → TinyPbStruct → Bytes → Outcome (TinyPbStruct × Bytes)
  unfolding parse_service_full_name call_service
  reply_of tmp r interface = parse_service_full_name tmp.service_full_name >>= λ o. elim o [
    | none ↦ ok (
      failed error_parse_service_name
          (codes "cannot parse service_name:[" ++ (tmp.service_full_name ++ codes "]")) r,
      interface,
    )
    | some (s, m) ↦ call_service s m tmp.pb_data r >>= λ r'. ok (r', tmp.service_full_name)
  ]

  unfoldable pub respond :
      ℕ
      → Option Bytes
      → TinyPbStruct
      → Runtime
      → Connection TinyPbStruct
      → TinyPbStruct × MsgReq
      → Outcome (Runtime × Connection TinyPbStruct)
  unfolding reply_of
  respond len random tmp runtime conn (r, g) =
      reply_of tmp r runtime.interface_name >>= λ (reply, interface).
      encode len random g conn.write_buffer reply >>= λ (out, reply', g'). ok (
        record { msg_no = tmp.msg_seq; interface_name = interface; gen = g' },
        record conn { write_buffer = out },
      )

  -- Dispatch. The two reads of /dev/urandom are those for a new number here and in Encode.
  unfoldable pub dispatch :
      ℕ
      → Option Bytes
      → Option Bytes
      → TinyPbStruct
      → Runtime
      → Connection TinyPbStruct
      → Outcome (Runtime × Connection TinyPbStruct)
  unfolding respond new_reply
  dispatch len random random' tmp runtime conn =
      respond len random' tmp runtime conn (new_reply len random tmp runtime.gen)
