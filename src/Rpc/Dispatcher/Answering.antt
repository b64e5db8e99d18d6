-- ===== src/Rpc/Dispatcher/Answering.antt =====
-- What a client reads for its request.
use tirpc.Buffer.{TcpBuffer}
use tirpc.Buffer.Contents.{IsValid, contents}
use tirpc.Connection.{Connection}
use tirpc.MsgReq.{MsgReq, is_empty}
use tirpc.Prelude.{
  ℕ, suc, ◌+◌, ◌-◌, ◌<◌, ◌≡◌, refl, sym, ap, ◌∙◌, false, [], ◌∷◌, ◌++◌, Option, some, Outcome, ok,
  inl, inr, ◌>>=◌, Bytes, length, length-append, append-nil, arith, find, next, starts_with,
  append_assoc,
}
use tirpc.Rpc.Codec.{package_of, encode, decode}
use tirpc.Rpc.Codec.RoundTrip.{IsSendable, received, encode-cases, no_result, decode-package_of}
use tirpc.Rpc.Data.{TinyPbStruct, blank}
use tirpc.Rpc.Dispatcher.{
  Runtime, parse_service_full_name, ServiceMap, find_service, with_response, call_method,
  call_service, reply_of, new_reply, respond, dispatch,
}
use tirpc.StringUtil.Searches.{Without, substr-at, other_byte}

find_dot : (xs ys : Bytes) → Without 46 xs → find (46 ∷ []) (xs ++ (46 ∷ ys)) ≡ some (length xs)
unfolding find starts_with
find_dot [] ys w = refl
find_dot (x ∷ xs) ys (h, w) = rw (other_byte 46 x (λ e. h (sym e))) (ap next (find_dot xs ys w))

not_empty : (xs ys : Bytes) (c : ℕ) → is_empty (xs ++ (c ∷ ys)) ≡ false
not_empty [] ys c = refl
not_empty (x ∷ xs) ys c = refl

-- A full name is the name of a service without a dot, a dot, and the rest.
pub parse_service_full_name-dot :
    (s m : Bytes) → Without 46 s → parse_service_full_name (s ++ (46 ∷ m)) ≡ ok (some (s, m))
unfolding parse_service_full_name
parse_service_full_name-dot s m w =
    let full = s ++ (46 ∷ m) in
    let size : length full ≡ length s + suc (length m) = length-append s (46 ∷ m) in
    let pieces : full ≡ (s ++ (46 ∷ [])) ++ (m ++ []) =
      rw (append-nil m) (sym (append_assoc s (46 ∷ []) m)) in
    rw (not_empty s m 46) (
      rw (find_dot s m w) (
        rw (substr-at full [] s (46 ∷ m) 0 (length s) refl refl refl) (
          rw
            (substr-at full (s ++ (46 ∷ [])) m [] (length s + 1) (length full - length s - 1) pieces
              (sym (length-append s (46 ∷ []))) (omega (arith, size)))
            refl)))

ok_second :
    {A B : Type 0} {a a' : A} {b b' : B}
    → ◌≡◌ {A = Outcome (A × B)} (ok (a, b)) (ok (a', b'))
    → b ≡ b'
ok_second e = ground arith

-- The reply that carries the result `text`.
abbrev pub answer : TinyPbStruct → Bytes → TinyPbStruct
answer tmp text = record blank {
  service_full_name = tmp.service_full_name;
  msg_seq = tmp.msg_seq;
  pb_data = text;
}

new_reply-answer :
    (len : ℕ) (random : Option Bytes) (tmp : TinyPbStruct) (g : MsgReq)
    → is_empty tmp.msg_seq ≡ false
    → new_reply len random tmp g ≡ (answer tmp [], g)
unfolding new_reply
new_reply-answer len random tmp g e = rw e refl

module _ {Service Method Request Response : Type 0} (find_method : Service → Bytes → Option Method)
    (request_name : Method → Bytes) (parse : Method → Bytes → Option Request)
    (call : Service → Method → Bytes → Request → Outcome Response)
    (serialize : Response → Option Bytes) (service_map : ServiceMap Service) (len : ℕ)
    (random random' : Option Bytes) where
  abbrev pub dispatched :
      TinyPbStruct → Runtime → Connection TinyPbStruct → Outcome (Runtime × Connection TinyPbStruct)
  dispatched = dispatch find_method request_name parse call serialize service_map len random random'

  -- The request `tmp` names a method of a service that is there, and the call has the result `text`.
  pub record Called (tmp : TinyPbStruct) (s m text : Bytes) (service : Service) (method : Method)
      (request : Request) (response : Response) : Type 0 where
    pub named : tmp.service_full_name ≡ s ++ (46 ∷ m)
    pub no_dot : Without 46 s
    pub numbered : is_empty tmp.msg_seq ≡ false
    pub known : find_service s service_map ≡ some service
    pub has_method : find_method service m ≡ some method
    pub parsed : parse method tmp.pb_data ≡ some request
    pub returned : call service method tmp.msg_seq request ≡ ok response
    pub serialized : serialize response ≡ some text

  call_method-answer :
      (tmp : TinyPbStruct) (s m text : Bytes) (service : Service) (method : Method)
      (request : Request) (response : Response)
      → Called tmp s m text service method request response
      → call_method find_method request_name parse call serialize service_map service method
          tmp.pb_data
          (answer tmp [])
        ≡ ok (answer tmp text)
  unfolding call_method with_response
  call_method-answer tmp s m text service method request response c =
      rw (c.parsed, call_method) (rw c.returned (rw c.serialized refl))

  call_service-answer :
      (tmp : TinyPbStruct) (s m text : Bytes) (service : Service) (method : Method)
      (request : Request) (response : Response)
      → Called tmp s m text service method request response
      → call_service find_method request_name parse call serialize service_map s m tmp.pb_data
          (answer tmp [])
        ≡ ok (answer tmp text)
  unfolding call_service
  call_service-answer tmp s m text service method request response c =
      rw (c.known, call_service)
        (rw c.has_method (call_method-answer tmp s m text service method request response c))

  reply_of-answer :
      (tmp : TinyPbStruct) (s m text i : Bytes) (service : Service) (method : Method)
      (request : Request) (response : Response)
      → Called tmp s m text service method request response
      → reply_of find_method request_name parse call serialize service_map tmp (answer tmp []) i
        ≡ ok (answer tmp text, tmp.service_full_name)
  unfolding reply_of
  reply_of-answer tmp s m text i service method request response c =
      rw (ap parse_service_full_name c.named ∙ parse_service_full_name-dot s m c.no_dot)
        (rw (call_service-answer tmp s m text service method request response c) refl)

  -- Dispatch, where Encode is the last that it calls.
  dispatch-encode :
      (tmp : TinyPbStruct) (s m text : Bytes) (service : Service) (method : Method)
      (request : Request) (response : Response) (runtime : Runtime) (conn : Connection TinyPbStruct)
      → Called tmp s m text service method request response
      → dispatched tmp runtime conn ≡ (
          encode len random' runtime.gen conn.write_buffer (answer tmp text)
          >>= λ (out, reply', g'). ok (
            record { msg_no = tmp.msg_seq; interface_name = tmp.service_full_name; gen = g' },
            record conn { write_buffer = out },
          ))
  unfolding dispatch respond
  dispatch-encode tmp s m text service method request response runtime conn c =
      ap
        (respond find_method request_name parse call serialize service_map len random' tmp runtime
          conn)
        (new_reply-answer len random tmp runtime.gen c.numbered)
      ∙ rw (reply_of-answer tmp s m text runtime.interface_name service method request response c)
          refl

  -- Dispatch puts one package behind what there is to write, where it has a result.
  pub dispatch-answer :
      (tmp : TinyPbStruct) (s m text : Bytes) (service : Service) (method : Method)
      (request : Request) (response : Response) (runtime runtime' : Runtime)
      (conn conn' : Connection TinyPbStruct)
      → Called tmp s m text service method request response
      → IsSendable (answer tmp text)
      → IsValid conn.write_buffer
      → dispatched tmp runtime conn ≡ ok (runtime', conn')
      → contents conn'.write_buffer ≡ contents conn.write_buffer ++ package_of (answer tmp text)
  dispatch-answer tmp s m text service method request response runtime runtime' conn conn' c good v
        e =
      let go : TcpBuffer × TinyPbStruct × MsgReq → Outcome (Runtime × Connection TinyPbStruct) =
        λ (out, reply', g'). ok (
          record { msg_no = tmp.msg_seq; interface_name = tmp.service_full_name; gen = g' },
          record conn { write_buffer = out },
        ) in
      let out = dispatch-encode tmp s m text service method request response runtime conn c in
      elim (encode-cases len random' runtime.gen conn.write_buffer (answer tmp text) v good) [
        | inl (b, f, v', k) ↦
            ap (λ q. contents q.write_buffer) (ok_second (sym e ∙ out ∙ ap (λ o. o >>= go) f)) ∙ k
        | inr (f, over) ↦ elim (no_result (sym (ap (λ o. o >>= go) f) ∙ sym out ∙ e)) [ ]
      ]

  -- A server with an empty and valid write buffer dispatches a call that has a result, with a reply that may
  -- be sent: its number has 1 to 49 bytes, its name 1 to 511, neither has a zero byte, and the package is
  -- shorter than 2 ^ 31. A client whose valid buffer, shorter than 2 ^ 31, holds the bytes that the server
  -- then has to write decodes them to that reply, with the result under the number of the request, and
  -- nothing is left over.
  pub dispatch-answered :
      (tmp : TinyPbStruct) (s m text : Bytes) (service : Service) (method : Method)
      (request : Request) (response : Response) (runtime runtime' : Runtime)
      (conn conn' : Connection TinyPbStruct) (b : TcpBuffer)
      → Called tmp s m text service method request response
      → IsSendable (answer tmp text)
      → IsValid conn.write_buffer
      → contents conn.write_buffer ≡ []
      → dispatched tmp runtime conn ≡ ok (runtime', conn')
      → IsValid b
      → length b.buffer < 2_147_483_648
      → contents b ≡ contents conn'.write_buffer
      → (b' : TcpBuffer) × (decode b blank ≡ ok (b', received (answer tmp text) blank))
        × IsValid b'
        × (contents b' ≡ [])
  dispatch-answered tmp s m text service method request response runtime runtime' conn conn' b c
        good v empty e v' small same =
      let k =
        dispatch-answer tmp s m text service method request response runtime runtime' conn conn' c
          good v e in
      let written : contents conn'.write_buffer ≡ package_of (answer tmp text) ++ [] =
        k
        ∙ ap (λ xs. xs ++ package_of (answer tmp text)) empty
        ∙ sym (append-nil (package_of (answer tmp text))) in
      decode-package_of b (answer tmp text) blank [] v' small (same ∙ written) good
