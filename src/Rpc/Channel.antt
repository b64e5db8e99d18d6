-- ===== src/Rpc/Channel.antt =====
-- net/rpc/rpc_channel.cpp and rpc_controller.cpp. Addresses are their texts. The load balancer and
-- ParseFromString are arguments, and so is what SendAndRecvTinyPb comes to in the `i`-th attempt at an
-- address, with what Encode has put into the write buffer of the new client. `dones` counts the runs of the
-- closure, `none` if there is none; `gen` is the state behind GenMsgNumber.
pub mod Retrying
use tirpc.Buffer.{TcpBuffer, make}
use tirpc.Client.{error_rpc_call_timeout}
use tirpc.Reactor.Events.{same_fd}
use tirpc.MsgReq.{MsgReq, gen_msg_number}
use tirpc.Rpc.Codec.{encode}
use tirpc.Rpc.Data.{TinyPbStruct}
use tirpc.Rpc.Dispatcher.{error_service_not_found}
use tirpc.Prelude.{
  ℕ, zero, suc, ◌+◌, ◌-◌, Bool, true, false, not, List, [], ◌∷◌, Option, none, some, if◌then◌else◌,
  ℤ, pos, negsuc, ◌-ℤ◌, ◌+ℤ◌, Bytes, codes, same_text, Outcome, ok, fault, ◌>>=◌,
}

abbrev pub error_failed_encode : ℤ
error_failed_encode = pos 10_000_005

abbrev pub error_failed_deserialize : ℤ
error_failed_deserialize = pos 10_000_003

pub record RpcController : Type 0 where
  pub error_code : ℤ
  pub error_info : Bytes
  pub msg_req : Bytes
  pub is_failed : Bool
  pub timeout : ℤ
  pub max_retry : ℤ

unfoldable pub set_failed : Bytes → RpcController → RpcController
set_failed reason c = record c { is_failed = true; error_info = reason }

unfoldable pub set_error_code : ℤ → RpcController → RpcController
set_error_code code c = record c { error_code = code }

unfoldable pub set_error : ℤ → Bytes → RpcController → RpcController
unfolding set_failed set_error_code
set_error err_code err_info c = set_error_code err_code (set_failed err_info c)

unfoldable pub set_msg_seq : Bytes → RpcController → RpcController
set_msg_seq msg_req c = record c { msg_req = msg_req }

-- What a call works on: the addresses of the channel, the controller, the response, and the closure.
pub record CallState (R : Type 0) : Type 0 where
  pub addrs : List Bytes
  pub origin_addrs : List Bytes
  pub controller : RpcController
  pub response : Option R
  pub dones : Option ℕ
  pub gen : MsgReq

-- A call of SendAndRecvTinyPb: its code, the error's text, and the reply that it stores.
pub record Sent : Type 0 where
  pub ret : ℤ
  pub err_info : Bytes
  pub reply : Option TinyPbStruct

module _ {R : Type 0} where
  -- if (done) done->Run()
  unfoldable pub run_done : CallState R → CallState R
  run_done s = record s { dones = elim s.dones [ none ↦ none | some n ↦ some (n + 1) ] }

  unfoldable pub fail_with : ℤ → Bytes → CallState R → CallState R
  unfolding set_error run_done
  fail_with code info s = run_done (record s { controller = set_error code info s.controller })

-- The erasure of an address behind an attempt that failed.
unfoldable pub erase_addr : Bytes → List Bytes → List Bytes
erase_addr addr [] = []
erase_addr addr (a ∷ as') =
    let rest = erase_addr addr as' in if same_text a addr then as' else a ∷ rest

abbrev pub is_empty : {A : Type 0} → List A → Bool
is_empty [] = true
is_empty (a ∷ as') = false

unfoldable pub refill : {R : Type 0} → CallState R → CallState R
refill s = if is_empty s.addrs then record s { addrs = s.origin_addrs } else s

-- The number of a request: the controller's, the runtime's, or a new one.
unfoldable pub number_of : Bytes → Option Bytes → MsgReq → Bytes × MsgReq → Bytes × MsgReq
number_of own runtime g generated = if not (is_empty own) then (own, g) else elim runtime [
  | none ↦ generated
  | some msg_no ↦ if not (is_empty msg_no) then (msg_no, g) else generated
]

-- How often the loop runs at most: `retry_times` from 0 to `max_retry`.
unfoldable pub attempts : ℤ → ℕ
attempts (pos n) = suc n
attempts (negsuc n) = 0

-- The write buffer of a new client.
abbrev pub client_buffer : TcpBuffer
unfolding make
client_buffer = make 128

-- `random` is what each Encode would read for a new number.
module _ {R : Type 0} (select : ℕ → List Bytes → Bytes) (len : ℕ) (random : ℕ → Option Bytes)
    (send : ℕ → Bytes → TcpBuffer → Sent) (parse : Bytes → Option R) where
  -- Behind the parse of the reply, whose error the controller is not told.
  unfoldable pub take_response : TinyPbStruct → Option R → CallState R → CallState R
  unfolding set_error run_done
  take_response reply none s = record s {
    controller =
        set_error error_failed_deserialize (codes "failed to deserialize data from server")
          s.controller;
  }
  take_response reply (some r) s = run_done (record s { response = some r })

  -- Behind the loop: the reply is read through a pointer that may be null.
  unfoldable pub read_response : Option TinyPbStruct → CallState R → Outcome (CallState R)
  unfolding take_response
  read_response none s = fault
  read_response (some reply) s = ok (take_response reply (parse reply.pb_data) s)

  abbrev pub stored : Option TinyPbStruct → Option TinyPbStruct → Option TinyPbStruct
  stored (some reply) old = some reply
  stored none old = old

  -- The loop with `n` attempts left, the next of which has the number `i`.
  unfoldable pub retry :
      ℕ → ℕ → TinyPbStruct → Option TinyPbStruct → CallState R → Outcome (CallState R)
  unfolding refill fail_with erase_addr read_response encode
  retry zero i pb res s = read_response res s
  retry (suc n) i pb res s =
      let s' = refill s in
      let addr = select i s'.addrs in
      let attempt : TcpBuffer × TinyPbStruct × MsgReq → Outcome (CallState R) = λ (out, pb', g).
        let t = record s' { gen = g } in
        let sent = send i addr out in
        let rest =
          retry n (i + 1) pb' (stored sent.reply res)
            (record t { addrs = erase_addr addr t.addrs }) in
        if not pb'.encode_succ
        then ok (fail_with error_failed_encode (codes "encode tinypb data error") t)
        else if same_fd sent.ret (pos 0)
        then read_response (stored sent.reply res) t
        else if not (same_fd sent.ret error_rpc_call_timeout)
        then rest
        else ok (fail_with sent.ret sent.err_info t) in
      if is_empty s'.addrs
      then ok (fail_with error_service_not_found (codes "not found address of service") s')
      else encode len (random i) s'.gen client_buffer pb >>= attempt

  -- CallMethod with a controller of this library, where `serialized` is what SerializeToString gives.
  unfoldable pub call_method :
      TinyPbStruct
      → Bytes
      → Option Bytes
      → Option Bytes
      → Option Bytes
      → CallState R
      → Outcome (CallState R)
  unfolding retry attempts number_of gen_msg_number set_msg_seq run_done
  call_method blank full_name none runtime random' s = ok (run_done s)
  call_method blank full_name (some pb_data) runtime random' s =
      let (seq, g) =
        number_of s.controller.msg_req runtime s.gen (gen_msg_number len random' s.gen) in
      retry (attempts s.controller.max_retry) 0
        (record blank { service_full_name = full_name; pb_data = pb_data; msg_seq = seq }) none
        (record s { controller = set_msg_seq seq s.controller; gen = g })
