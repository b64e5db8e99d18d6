-- ===== src/Rpc/Dispatcher/Serving.antt =====
-- Execute on a server of TinyPb: the codec, the dispatcher and the loop together.
use tirpc.Buffer.{TcpBuffer}
use tirpc.Buffer.Contents.{IsValid, contents}
use tirpc.Connection.{Connection}
use tirpc.Connection.Packages.{execute}
use tirpc.Connection.Executing.{Consumes, Ends, execute-Ends}
use tirpc.MsgReq.{MsgReq}
use tirpc.Prelude.{
  ℕ, ◌<◌, ◌≡◌, refl, ap, subst, ◌∙◌, true, false, [], Option, none, some, Outcome, ok, fault,
  throws, ◌>>=◌, Bytes, length, codes, ◌++◌, arith,
}
use tirpc.Rpc.Codec.{encode, encode_pb_data, decode}
use tirpc.Rpc.Codec.Consuming.{Shorter, decode-Shorter}
use tirpc.Rpc.Data.{TinyPbStruct, blank}
use tirpc.Rpc.Dispatcher.{
  Runtime, decode_package, parse_service_full_name, ServiceMap, reply_of, failed,
  error_parse_service_name, new_reply, respond, dispatch,
}

ok_pair : {A B : Type 0} {p q : A × B} → ok p ≡ ok q → p ≡ q
ok_pair {A = A} {B = B} {p = p} e = ap held e
  where
    held : Outcome (A × B) → A × B
    held (ok r) = r
    held fault = p
    held throws = p

Shorter-package :
    (b : TcpBuffer) (m : Outcome (TcpBuffer × TinyPbStruct)) (d : TinyPbStruct) (b' : TcpBuffer)
    → Shorter b m
    → ◌>>=◌ {B = TinyPbStruct × TcpBuffer} m (λ (c, e). ok (e, c)) ≡ ok (d, b')
    → d.decode_succ ≡ true
    → IsValid b' × (length (contents b') < length (contents b))
Shorter-package b (ok (c, e)) d b' h f s =
    let both : (e, c) ≡ (d, b') = ok_pair f in
    let (v, l) = h (ap (λ p. p.0.decode_succ) both ∙ s) in
    (
      subst (λ p. IsValid p.1) both v,
      subst (λ p. length (contents p.1) < length (contents b)) both l,
    )
Shorter-package b fault d b' h f s = ground arith
Shorter-package b throws d b' h f s = ground arith

encode_nameless :
    (n : ℕ) (random : Option Bytes) (g : MsgReq) (b : TcpBuffer) (d : TinyPbStruct)
    → d.service_full_name ≡ []
    → encode n random g b d ≡ ok (b, record d { encode_succ = false }, g)
unfolding encode encode_pb_data
encode_nameless n random g b d e = rw e refl

new_reply-name :
    (n : ℕ) (random : Option Bytes) (tmp : TinyPbStruct) (g : MsgReq)
    → (new_reply n random tmp g).0.service_full_name ≡ tmp.service_full_name
unfolding new_reply
new_reply-name n random tmp g = ground arith

parse_nameless : (name : Bytes) → name ≡ [] → parse_service_full_name name ≡ ok none
unfolding parse_service_full_name
parse_nameless name e = rw e refl

abbrev pub key_of : TinyPbStruct → Option Bytes
key_of d = some d.msg_seq

module _ {Service Method Request Response : Type 0} (find_method : Service → Bytes → Option Method)
    (request_name : Method → Bytes) (parse : Method → Bytes → Option Request)
    (call : Service → Method → Bytes → Request → Outcome Response)
    (serialize : Response → Option Bytes) (service_map : ServiceMap Service) (len : ℕ)
    (random random' : Option Bytes) where
  abbrev pub serving :
      TinyPbStruct → Runtime → Connection TinyPbStruct → Outcome (Runtime × Connection TinyPbStruct)
  serving = dispatch find_method request_name parse call serialize service_map len random random'

  respond-read_buffer :
      (tmp : TinyPbStruct) (rt rt' : Runtime) (c c' : Connection TinyPbStruct)
      (p : TinyPbStruct × MsgReq)
      → respond find_method request_name parse call serialize service_map len random' tmp rt c p
        ≡ ok (rt', c')
      → c'.read_buffer ≡ c.read_buffer
  unfolding respond
  respond-read_buffer tmp rt rt' c c' (r, g) e = ground arith

  serving-Consumes : Consumes decode_package (λ d. d.decode_succ) serving
  unfolding dispatch
  serving-Consumes = record {
    shorter =
        λ b d b' v e s. Shorter-package b (decode b blank) d b' (decode-Shorter b blank v refl) e s;
    apart = λ d s c s' c' e. respond-read_buffer d s s' c c' (new_reply len random d s.gen) e;
  }

  -- Execute of a server of TinyPb, on any bytes in a valid read buffer and with any services, ends,
  -- if only in undefined behaviour or an exception: more rounds than there are bytes are never used up.
  pub serving-Ends :
      (n : ℕ) (runtime : Runtime) (c : Connection TinyPbStruct)
      → IsValid c.read_buffer
      → length (contents c.read_buffer) < n
      → Ends decode_package
          (λ d. d.decode_succ)
          key_of
          serving
          (execute decode_package (λ d. d.decode_succ) key_of serving n runtime c)
  serving-Ends = execute-Ends decode_package (λ d. d.decode_succ) key_of serving serving-Consumes

  reply_silent :
      (tmp r : TinyPbStruct) (i : Bytes)
      → tmp.service_full_name ≡ []
      → (r' : TinyPbStruct) × (reply_of find_method request_name parse call serialize service_map
            tmp r i
          ≡ ok (r', i))
        × (r'.service_full_name ≡ r.service_full_name)
  unfolding reply_of
  reply_silent tmp r i e = (
    failed error_parse_service_name
        (codes "cannot parse service_name:[" ++ (tmp.service_full_name ++ codes "]")) r,
    rw (parse_nameless tmp.service_full_name e) refl,
    refl,
  )

  respond_silent :
      (tmp r : TinyPbStruct) (g : MsgReq) (runtime : Runtime) (c : Connection TinyPbStruct)
      → tmp.service_full_name ≡ []
      → r.service_full_name ≡ []
      → (runtime' : Runtime) × (respond find_method request_name parse call serialize service_map
            len random' tmp runtime c
            (r, g)
          ≡ ok (runtime', c))
  unfolding respond
  respond_silent tmp r g runtime c e h =
      let (r', f, k) = reply_silent tmp r runtime.interface_name e in
      (
        record { msg_no = tmp.msg_seq; interface_name = runtime.interface_name; gen = g },
        rw f (rw (encode_nameless len random' g c.write_buffer r' (k ∙ h)) refl),
      )

  -- A package without a service name is dispatched, but nothing is written for it: the codec does not
  -- encode the reply that says what is wrong, since that has no service name either.
  dispatch_silent :
      (tmp : TinyPbStruct) (runtime : Runtime) (c : Connection TinyPbStruct)
      → tmp.service_full_name ≡ []
      → (runtime' : Runtime) × (serving tmp runtime c ≡ ok (runtime', c))
  unfolding dispatch
  dispatch_silent tmp runtime c e =
      let p = new_reply len random tmp runtime.gen in
      respond_silent tmp p.0 p.1 runtime c e (new_reply-name len random tmp runtime.gen ∙ e)
