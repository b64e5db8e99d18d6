-- ===== src/Tests/ChannelTests.antt =====
-- A channel with two addresses, of which the servers refuse.
use tirpc.Buffer.{TcpBuffer}
use tirpc.Client.{error_failed_connect}
use tirpc.Prelude.{
  ℕ, zero, suc, ◌<◌, true, false, List, [], ◌∷◌, Option, none, some, pos, Bytes, fault, ◌≡◌, refl,
  arith,
}
use tirpc.Rpc.Async.{RpcAsyncChannel}
use tirpc.Rpc.Async.Waiting.{waits, comes_back, calls, step, steps, steps-Awake}
use tirpc.Rpc.Channel.{RpcController, CallState, Sent, call_method, number_of}
use tirpc.Rpc.Channel.Retrying.{
  Refused, Succeeds, IsRequest, request_of, started, call_method_null, call_method-Succeeds,
}
use tirpc.Rpc.Data.{TinyPbStruct, blank}

abbrev controller : RpcController
controller = record {
  error_code = pos 0;
  error_info = [];
  msg_req = [];
  is_failed = false;
  timeout = pos 5000;
  max_retry = pos 3;
}

abbrev call : CallState Bytes
call = record {
  addrs = (1 ∷ []) ∷ (2 ∷ []) ∷ [];
  origin_addrs = (1 ∷ []) ∷ (2 ∷ []) ∷ [];
  controller = controller;
  response = none;
  dones = some 0;
  gen = record { msg_req_nu = []; max_msg_req_nu = [] };
}

abbrev first : ℕ → List Bytes → Bytes
first i [] = []
first i (a ∷ as') = a

abbrev none_read : ℕ → Option Bytes
none_read i = none

abbrev refusal : Sent
refusal = record { ret = error_failed_connect; err_info = []; reply = none }

abbrev reply : TinyPbStruct
reply = record blank { pb_data = 7 ∷ [] }

-- The third attempt is answered.
abbrev third : ℕ → Bytes → TcpBuffer → Sent
third zero addr out = refusal
third (suc zero) addr out = refusal
third (suc (suc i)) addr out = record { ret = pos 0; err_info = []; reply = some reply }

abbrev refuses : ℕ → Bytes → TcpBuffer → Sent
refuses i addr out = refusal

abbrev request : TinyPbStruct
request = request_of blank (9 ∷ []) [] (4 ∷ [])

request-IsRequest : IsRequest request
request-IsRequest = record {
  sendable = record {
    header = record {
      seq_ne = omega arith;
      seq_fits = omega arith;
      seq_text = omega arith;
      name_fits = omega arith;
      name_text = omega arith;
      code_fits = refl;
      info_fits = omega arith;
      info_text = tt;
    };
    name_ne = omega arith;
    total_fits = omega arith;
  };
  room = omega arith;
}

refusal-Refused : Refused refusal
refusal-Refused = record { not_sent = refl; in_time = refl; nothing = refl }

-- The coroutine's runtime has the number 4.
call_method_null_example :
    call_method first 20 none_read refuses
      (λ text. some text)
      blank
      (9 ∷ [])
      (some [])
      (some (4 ∷ []))
      none
      call
    ≡ fault
unfolding number_of
call_method_null_example =
    call_method_null first 20 none_read refuses (λ text. some text) blank (9 ∷ []) []
      (some (4 ∷ [])) none call refl request-IsRequest (λ j addr out. refusal-Refused)

third-Refused : (j : ℕ) (addr : Bytes) (out : TcpBuffer) → j < 2 → Refused (third j addr out)
third-Refused zero addr out h = refusal-Refused
third-Refused (suc zero) addr out h = refusal-Refused
third-Refused (suc (suc j)) addr out h = ground arith

call_method-Succeeds_example :
    Succeeds first 20 none_read third
      (λ text. some text)
      (7 ∷ [])
      (started first 20 none_read third (λ text. some text) (some (4 ∷ [])) none call)
      (call_method first 20 none_read third
        (λ text. some text)
        blank
        (9 ∷ [])
        (some [])
        (some (4 ∷ []))
        none
        call)
unfolding number_of
call_method-Succeeds_example =
    call_method-Succeeds first 20 none_read third (λ text. some text) 2 3 blank reply (7 ∷ [])
      (9 ∷ []) [] (some (4 ∷ [])) none call refl (omega arith) refl request-IsRequest third-Refused
      (λ addr out. (refl, refl)) refl

-- A channel before its call.
abbrev idle : RpcAsyncChannel
idle = record {
  controller = controller;
  is_pre_set = true;
  is_finished = false;
  need_resume = false;
  pending_cor = none;
  closure = none;
  waiting = false;
}

steps-Awake_example :
    (steps (waits ∷ []) (step comes_back (steps (calls none (7 ∷ []) 4 ∷ waits ∷ []) idle))).waiting
    ≡ false
steps-Awake_example = steps-Awake (calls none (7 ∷ []) 4 ∷ waits ∷ []) (waits ∷ []) idle refl
