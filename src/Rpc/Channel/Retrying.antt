-- ===== src/Rpc/Channel/Retrying.antt =====
-- Calls whose attempts fail, all of them or all but the last.
use tirpc.Client.{error_rpc_call_timeout}
use tirpc.Reactor.Events.{same_fd}
use tirpc.Buffer.{TcpBuffer}
use tirpc.Buffer.Contents.{IsValid, valid}
use tirpc.MsgReq.{MsgReq, gen_msg_number}
use tirpc.Rpc.Codec.{encode, encoded, pk_len_of}
use tirpc.Rpc.Codec.RoundTrip.{IsSendable, encode-cases, length-package_of}
use tirpc.Rpc.Data.{TinyPbStruct}
use tirpc.Rpc.Channel.{
  CallState, Sent, run_done, erase_addr, is_empty, refill, take_response, read_response, retry,
  attempts, number_of, set_msg_seq, call_method, client_buffer,
}
use tirpc.Prelude.{
  ℕ, zero, suc, ◌+◌, ◌≤◌, ◌<◌, Bool, true, false, List, Option, none, some, if◌then◌else◌, pos,
  replicate, Bytes, Outcome, ok, fault, ◌≡◌, ◌≢◌, refl, sym, ap, ◌∙◌, subst, arith, Bool-cases,
  ◌==◌, ==_iff, inl, inr,
}

-- An attempt that fails, but not by the timeout, and that stores no reply.
pub record Refused (sent : Sent) : Type 0 where
  pub not_sent : same_fd sent.ret (pos 0) ≡ false
  pub in_time : same_fd sent.ret error_rpc_call_timeout ≡ false
  pub nothing : sent.reply ≡ none

not_both : (b : Bool) → b ≡ false → b ≡ true → ⊥
not_both b h k = ground arith

abbrev pub request_of : TinyPbStruct → Bytes → Bytes → Bytes → TinyPbStruct
request_of blank full_name pb_data seq = record blank {
  service_full_name = full_name;
  pb_data = pb_data;
  msg_seq = seq;
}

-- A request that Encode takes, on the buffer of a new client.
pub record IsRequest (pb : TinyPbStruct) : Type 0 where
  pub sendable : IsSendable pb
  pub room : pk_len_of pb ≤ 1_431_655_765

encoded-IsRequest : (pb : TinyPbStruct) → IsRequest pb → IsRequest (encoded pb)
encoded-IsRequest pb q = record {
  sendable = record {
    header = q.sendable.header;
    name_ne = q.sendable.name_ne;
    total_fits = q.sendable.total_fits;
  };
  room = q.room;
}

encode-IsRequest :
    (len : ℕ) (random : Option Bytes) (g : MsgReq) (pb : TinyPbStruct)
    → IsRequest pb
    → (b : TcpBuffer) × (encode len random g client_buffer pb ≡ ok (b, encoded pb, g))
unfolding client_buffer
encode-IsRequest len random g pb q =
    let start : IsValid client_buffer = valid 0 0 (replicate 128 0) (omega arith) (omega arith) in
    elim (encode-cases len random g client_buffer pb start q.sendable) [
      | inl (b, e, v, c) ↦ (b, e)
      | inr (e, over) ↦ (let f : ⊥ = omega (arith, length-package_of pb, q.room) in elim f [ ])
    ]

module _ {R : Type 0} (select : ℕ → List Bytes → Bytes) (len : ℕ) (random : ℕ → Option Bytes)
    (send : ℕ → Bytes → TcpBuffer → Sent) (parse : Bytes → Option R) where
  -- A channel that was given an address has one to try.
  refill_some :
      (s : CallState R) → is_empty s.origin_addrs ≡ false → is_empty (refill s).addrs ≡ false
  unfolding refill
  refill_some s h = elim (Bool-cases (is_empty s.addrs)) [ inl e ↦ rw e h | inr e ↦ rw e e ]

  refill-origin : (s : CallState R) → (refill s).origin_addrs ≡ s.origin_addrs
  unfolding refill
  refill-origin s =
      elim (is_empty s.addrs)
        as (λ b.
          (if b then record s { addrs = s.origin_addrs } else s).origin_addrs ≡ s.origin_addrs) [
            | true ↦ refl
            | false ↦ refl
          ]

  -- The state behind a refused attempt.
  abbrev next_state : ℕ → CallState R → CallState R
  next_state i s = record (refill s) {
    addrs = erase_addr (select i (refill s).addrs) (refill s).addrs;
  }

  retry-Refused :
      (n i : ℕ) (pb : TinyPbStruct) (s : CallState R) (b : TcpBuffer)
      → is_empty s.origin_addrs ≡ false
      → encode len (random i) (refill s).gen client_buffer pb ≡ ok (b, encoded pb, (refill s).gen)
      → Refused (send i (select i (refill s).addrs) b)
      → retry select len random send parse (suc n) i pb none s
        ≡ retry select len random send parse n (i + 1) (encoded pb) none (next_state i s)
  unfolding retry
  retry-Refused n i pb s b h e r = rw (refill_some s h, e, r.not_sent, r.in_time, r.nothing) refl

  -- The loop when each attempt is refused.
  retry_fault :
      (n i : ℕ) (pb : TinyPbStruct) (s : CallState R)
      → is_empty s.origin_addrs ≡ false
      → IsRequest pb
      → ((j : ℕ) (addr : Bytes) (out : TcpBuffer) → Refused (send j addr out))
      → retry select len random send parse n i pb none s ≡ fault
  unfolding retry read_response
  retry_fault zero i pb s h q r = refl
  retry_fault (suc n) i pb s h q r =
      let (b, e) = encode-IsRequest len (random i) (refill s).gen pb q in
      retry-Refused n i pb s b h e (r i (select i (refill s).addrs) b)
      ∙ retry_fault n (i + 1) (encoded pb) (next_state i s) (ap is_empty (refill-origin s) ∙ h)
          (encoded-IsRequest pb q) r

  -- What a call that succeeds leaves: the response, the closure run once, and the controller's errors as
  -- they were.
  abbrev pub Succeeds : R → CallState R → Outcome (CallState R) → Type 0
  Succeeds r s o =
      (s' : CallState R) × (o ≡ ok s')
      × (s'.response ≡ some r)
      × (s'.dones ≡ (run_done s).dones)
      × (s'.controller ≡ s.controller)

  run_done-same : (s t : CallState R) → s.dones ≡ t.dones → (run_done s).dones ≡ (run_done t).dones
  unfolding run_done
  run_done-same s t h =
      ap (λ o. elim o as (λ o'. Option ℕ) [ none ↦ none | some n ↦ some (n + 1) ]) h

  refill_same :
      (s : CallState R) → ((refill s).dones ≡ s.dones) × ((refill s).controller ≡ s.controller)
  unfolding refill
  refill_same s =
      elim (is_empty s.addrs)
        as (λ b.
          ((if b then record s { addrs = s.origin_addrs } else s).dones ≡ s.dones)
          × ((if b then record s { addrs = s.origin_addrs } else s).controller ≡ s.controller)) [
            | true ↦ (refl, refl)
            | false ↦ (refl, refl)
          ]

  -- An attempt that succeeds.
  abbrev pub Answers : TinyPbStruct → Sent → Type 0
  Answers reply sent = (same_fd sent.ret (pos 0) ≡ true) × (sent.reply ≡ some reply)

  retry_answered :
      (n i : ℕ) (pb reply : TinyPbStruct) (r : R) (s : CallState R) (b : TcpBuffer)
      → is_empty s.origin_addrs ≡ false
      → encode len (random i) (refill s).gen client_buffer pb ≡ ok (b, encoded pb, (refill s).gen)
      → Answers reply (send i (select i (refill s).addrs) b)
      → parse reply.pb_data ≡ some r
      → Succeeds r s (retry select len random send parse (suc n) i pb none s)
  unfolding retry read_response take_response run_done
  retry_answered n i pb reply r s b h e (g, f) p =
      let (d, c) = refill_same s in
      (
        run_done (record (refill s) { response = some r }),
        rw (refill_some s h, e, g, f, p) refl,
        refl,
        run_done-same (record (refill s) { response = some r }) s d,
        c,
      )

  -- The attempts from `i` up to `m` are refused, and the one with number `m` is answered.
  retry-Succeeds :
      (n i m : ℕ) (pb reply : TinyPbStruct) (r : R) (s : CallState R)
      → i ≤ m
      → m < i + n
      → is_empty s.origin_addrs ≡ false
      → IsRequest pb
      → ((j : ℕ) (addr : Bytes) (out : TcpBuffer) → j < m → Refused (send j addr out))
      → ((addr : Bytes) (out : TcpBuffer) → Answers reply (send m addr out))
      → parse reply.pb_data ≡ some r
      → Succeeds r s (retry select len random send parse n i pb none s)
  retry-Succeeds zero i m pb reply r s l k h q refused answered p = ground arith
  retry-Succeeds (suc n) i m pb reply r s l k h q refused answered p =
      let (b, e) = encode-IsRequest len (random i) (refill s).gen pb q in
      let addr = select i (refill s).addrs in
      elim (Bool-cases (i == m)) [
        | inl c ↦
            let same : i ≡ m = (==_iff i m).0 c in
            retry_answered n i pb reply r s b h e
              (subst (λ j. Answers reply (send j addr b)) (sym same) (answered addr b)) p
        | inr c ↦
            let other : i ≢ m = λ e'. not_both (i == m) c ((==_iff i m).1 e') in
            let (s', f, a, d, t) =
              retry-Succeeds n (i + 1) m (encoded pb) reply r (next_state i s) (omega arith)
                (omega arith) (ap is_empty (refill-origin s) ∙ h) (encoded-IsRequest pb q) refused
                answered p in
            let (x, y) = refill_same s in
            (
              s',
              retry-Refused n i pb s b h e (refused i addr b (omega arith)) ∙ f,
              a,
              d ∙ run_done-same (next_state i s) s x,
              t ∙ y,
            )
      ]

  -- The number of the request, and the state with which the loop starts.
  abbrev pub numbered : Option Bytes → Option Bytes → CallState R → Bytes × MsgReq
  numbered runtime random' s =
      number_of s.controller.msg_req runtime s.gen (gen_msg_number len random' s.gen)

  abbrev pub started : Option Bytes → Option Bytes → CallState R → CallState R
  started runtime random' s = record s {
    controller = set_msg_seq (numbered runtime random' s).0 s.controller;
    gen = (numbered runtime random' s).1;
  }

  -- On a channel that was given an address, with a request that has a number, a service name and text fields
  -- that the codec's arrays hold and whose package fits the buffer, where every attempt fails with another
  -- code than that of a timeout, storing no reply: CallMethod reads the reply through a null pointer, however
  -- many attempts the controller allows.
  pub call_method_null :
      (blank : TinyPbStruct) (full_name pb_data : Bytes) (runtime random' : Option Bytes)
      (s : CallState R)
      → is_empty s.origin_addrs ≡ false
      → IsRequest (request_of blank full_name pb_data (numbered runtime random' s).0)
      → ((j : ℕ) (addr : Bytes) (out : TcpBuffer) → Refused (send j addr out))
      → call_method select len random send parse blank full_name (some pb_data) runtime random' s
        ≡ fault
  unfolding call_method
  call_method_null blank full_name pb_data runtime random' s h q r =
      retry_fault (attempts s.controller.max_retry) 0
        (request_of blank full_name pb_data (numbered runtime random' s).0)
        (started runtime random' s) h q r

  -- On a channel that was given an address, with a request that has a number, a service name and text fields
  -- that the codec's arrays hold and whose package fits the buffer, where the first `m` attempts fail with
  -- another code than that of a timeout and store no reply, `m` is at most `max_retry`, the next attempt
  -- returns 0 with a reply, and its data parse: CallMethod returns, with the parsed data as the response; the
  -- closure, if there is one, has run once more, and the controller has the number of the request and no new
  -- error.
  pub call_method-Succeeds :
      (m max : ℕ) (blank reply : TinyPbStruct) (r : R) (full_name pb_data : Bytes)
      (runtime random' : Option Bytes) (s : CallState R)
      → s.controller.max_retry ≡ pos max
      → m ≤ max
      → is_empty s.origin_addrs ≡ false
      → IsRequest (request_of blank full_name pb_data (numbered runtime random' s).0)
      → ((j : ℕ) (addr : Bytes) (out : TcpBuffer) → j < m → Refused (send j addr out))
      → ((addr : Bytes) (out : TcpBuffer) → Answers reply (send m addr out))
      → parse reply.pb_data ≡ some r
      → Succeeds r (started runtime random' s) (
          call_method select len random send parse blank full_name (some pb_data) runtime random' s)
  unfolding call_method attempts
  call_method-Succeeds m max blank reply r full_name pb_data runtime random' s x l h q refused
        answered p =
      let pb = request_of blank full_name pb_data (numbered runtime random' s).0 in
      let start = started runtime random' s in
      subst
        (λ z. Succeeds r start (retry select len random send parse (attempts z) 0 pb none start))
        (sym x)
        (retry-Succeeds (suc max) 0 m pb reply r start (omega arith) (omega arith) h q refused
          answered p)
