-- ===== src/Rpc/Async.antt =====
-- net/rpc/rpc_async_channel.cpp. The call itself runs on another thread, whose coroutine is `pending_cor`;
-- what comes back to the thread of the caller is one step, `call_back`. `waiting` says that the caller has
-- yielded in Wait; `closure` counts the runs of the closure, `none` if there is none.
pub mod Waiting
use tirpc.Rpc.Channel.{RpcController, set_error, set_msg_seq}
use tirpc.Prelude.{
  ℕ, ◌+◌, Bool, true, false, not, List, [], ◌∷◌, Option, none, some, if◌then◌else◌, ℤ, pos, Bytes,
  codes, Outcome, ok, fault, ◌>>=◌,
}

abbrev pub error_not_set_async_pre_call : ℤ
error_not_set_async_pre_call = pos 10_000_011

pub record RpcAsyncChannel : Type 0 where
  pub controller : RpcController
  pub is_pre_set : Bool
  pub is_finished : Bool
  pub need_resume : Bool
  pub pending_cor : Option ℕ
  pub closure : Option ℕ
  pub waiting : Bool

unfoldable pub save_callee : RpcController → Option ℕ → RpcAsyncChannel → RpcAsyncChannel
save_callee controller closure c = record c {
  controller = controller;
  closure = closure;
  is_pre_set = true;
}

-- The number of the request is that of the runtime, if there is one.
unfoldable pub async_number : Option Bytes → Bytes → Bytes
async_number none generated = generated
async_number (some msg_no) generated = msg_no

-- CallMethod, where `cor` is the coroutine that another thread has been given.
unfoldable pub call_method : Option Bytes → Bytes → ℕ → RpcAsyncChannel → RpcAsyncChannel
unfolding set_error set_msg_seq async_number
call_method runtime generated cor c =
    if not c.is_pre_set
    then record c {
      controller =
          set_error error_not_set_async_pre_call
            (codes "Error! must call [saveCallee()] function before [CallMethod()];") c.controller;
      is_finished = true;
    }
    else record c {
      controller = set_msg_seq (async_number runtime generated) c.controller;
      pending_cor = some cor;
    }

-- SetFinished, whatever its argument.
unfoldable pub set_finished : Bool → RpcAsyncChannel → RpcAsyncChannel
set_finished value c = record c { is_finished = true }

-- Resume of the caller's coroutine, which goes on behind its Yield.
abbrev pub resume_caller : RpcAsyncChannel → RpcAsyncChannel
resume_caller c = record c { waiting = false }

unfoldable pub call_back : RpcAsyncChannel → RpcAsyncChannel
unfolding set_finished
call_back c =
    let c' =
      set_finished true
        (record c { closure = elim c.closure [ none ↦ none | some n ↦ some (n + 1) ] }) in
    if c'.need_resume then resume_caller c' else c'

unfoldable pub wait : RpcAsyncChannel → RpcAsyncChannel
wait c =
    let c' = record c { need_resume = true } in
    if c'.is_finished then c' else record c' { waiting = true }

-- The destructor, where `return_to` gives a coroutine back to the pool: a null one is read.
unfoldable pub destroy : {P : Type 0} → (ℕ → P → Outcome P) → RpcAsyncChannel → P → Outcome P
destroy return_to c p = elim c.pending_cor [ none ↦ fault | some cor ↦ return_to cor p ]
