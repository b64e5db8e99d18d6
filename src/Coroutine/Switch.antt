-- ===== src/Coroutine/Switch.antt =====
-- coroutine/coroutine.cpp: what a thread knows of its coroutines. A pointer is a place in `cors`; a context
-- is the stack top that SetCallBack puts into it; CoctxSwap, which is assembly, is noted in `swaps`. The
-- two counters are those of the process. `prints` is whether the level of the configuration lets a line of
-- LOG_ERROR through: such a line fetches the current coroutine.
pub mod Alternation
use tirpc.Prelude.{
  ℕ, suc, ◌+◌, ◌-◌, ◌%◌, Bool, true, false, not, ◌||◌, List, [], ◌∷◌, ◌++◌, Option, none, some,
  if◌then◌else◌, ◌==◌, ℤ, pos, negsuc, length, get_elem?, set, Outcome, ok, fault, ◌>>=◌,
}

pub record Coroutine : Type 0 where
  pub cor_id : ℕ
  pub stack_size : ℕ
  pub stack_sp : Option ℕ
  pub is_in_cofunc : Bool
  pub can_resume : Bool
  pub index : ℤ
  pub has_callback : Bool
  -- rsp and rbp of a context that starts CoFunction.
  pub top : Option ℕ

pub record Thread : Type 0 where
  pub cors : List Coroutine
  pub main_coroutine : Option ℕ
  pub current_coroutine : Option ℕ
  pub current_runtime : Option ℕ
  pub coroutine_count : ℕ
  pub current_coroutine_id : ℕ
  pub prints : Bool
  pub swaps : List (ℕ × ℕ)

abbrev pub same_ptr : Option ℕ → Option ℕ → Bool
same_ptr none none = true
same_ptr none (some q) = false
same_ptr (some p) none = false
same_ptr (some p) (some q) = p == q

-- An access through a pointer that is null, or that points to no object, is undefined.
unfoldable pub deref : Option ℕ → Thread → Outcome Coroutine
deref none t = fault
deref (some p) t = elim (get_elem? t.cors p) [ none ↦ fault | some co ↦ ok co ]

-- Coroutine::Coroutine(), which makes itself the current one.
unfoldable pub new_main : Thread → Thread
new_main t = record t {
  cors =
      t.cors
      ++ (record {
        cor_id = 0;
        stack_size = 0;
        stack_sp = none;
        is_in_cofunc = false;
        can_resume = true;
        index = negsuc 0;
        has_callback = false;
        top = none;
      }
          ∷ []);
  current_coroutine = some (length t.cors);
  coroutine_count = t.coroutine_count + 1;
}

unfoldable pub new_main_coroutine : Thread → Thread
unfolding new_main
new_main_coroutine t = record (new_main t) { main_coroutine = some (length t.cors) }

-- The constructors' `if`.
unfoldable pub need_main : Thread → Thread
unfolding new_main_coroutine
need_main t = elim t.main_coroutine [ none ↦ new_main_coroutine t | some m ↦ t ]

unfoldable pub get_current_coroutine : Thread → Thread
unfolding new_main_coroutine
get_current_coroutine t = elim t.current_coroutine [ none ↦ new_main_coroutine t | some c ↦ t ]

unfoldable pub get_main_coroutine : Thread → Thread
unfolding need_main
get_main_coroutine t = need_main t

unfoldable pub is_main_coroutine : Thread → Bool
is_main_coroutine t = elim t.main_coroutine [
  | none ↦ true
  | some m ↦ same_ptr t.current_coroutine (some m)
]

abbrev pub log_error : Thread → Thread
log_error t = if t.prints then get_current_coroutine t else t

-- The object that the constructors build; a failed assert is undefined here.
unfoldable pub new_coroutine : ℕ → Option ℕ → Thread → Outcome (ℕ × Thread)
unfolding need_main
new_coroutine size none t = fault
new_coroutine size (some stack) t =
    let t' = need_main t in
    ok (
      length t'.cors,
      record t' {
        cors =
            t'.cors
            ++ (record {
              cor_id = t'.current_coroutine_id;
              stack_size = size;
              stack_sp = some stack;
              is_in_cofunc = false;
              can_resume = true;
              index = negsuc 0;
              has_callback = false;
              top = none;
            }
                ∷ []);
        current_coroutine_id = t'.current_coroutine_id + 1;
        coroutine_count = t'.coroutine_count + 1;
      },
    )

abbrev pub put : ℕ → Coroutine → Thread → Thread
put p co t = record t { cors = set t.cors p co }

-- The top of the stack, at a multiple of 16; a null stack has no top.
unfoldable pub with_callback : Coroutine → Coroutine
with_callback co = record co {
  has_callback = true;
  top = elim co.stack_sp [
    | none ↦ none
    | some sp ↦ some (sp + co.stack_size - (sp + co.stack_size) % 16)
  ];
  can_resume = true;
}

unfoldable pub set_call_back : ℕ → Thread → Outcome (Bool × Thread)
unfolding deref with_callback
set_call_back p t =
    if same_ptr (some p) t.main_coroutine
    then ok (false, log_error t)
    else deref (some p) t >>= λ co.
        if co.is_in_cofunc then ok (false, log_error t) else ok (true, put p (with_callback co) t)

-- The switch that ends Yield and Resume.
unfoldable pub yield_from : ℕ → ℕ → Thread → Thread
yield_from m c t = record t {
  current_coroutine = some m;
  current_runtime = none;
  swaps = t.swaps ++ ((c, m) ∷ []);
}

-- A coroutine whose context was never set has nothing to jump to.
unfoldable pub resume_to : ℕ → ℕ → Option ℕ → Thread → Outcome Thread
resume_to m c none t = fault
resume_to m c (some top) t = ok (record t {
  current_coroutine = some c;
  current_runtime = some c;
  swaps = t.swaps ++ ((m, c) ∷ []);
})

-- Swapping out of a null pointer is undefined.
unfoldable pub yield_current : ℕ → Option ℕ → Thread → Outcome Thread
unfolding yield_from
yield_current m none t = fault
yield_current m (some c) t =
    if same_ptr (some c) (some m) then ok (log_error t) else ok (yield_from m c t)

unfoldable pub yield_cor : Thread → Outcome Thread
unfolding yield_current
yield_cor t = elim t.main_coroutine [
  | none ↦ ok (log_error t)
  | some m ↦ yield_current m t.current_coroutine t
]

-- Behind the first two tests of Resume. The line that is logged for a null pointer reads through it where
-- it prints.
unfoldable pub resume_pending : ℕ → Option ℕ → Thread → Outcome Thread
unfolding deref resume_to
resume_pending m none t = if t.prints then fault else ok t
resume_pending m (some c) t = deref (some c) t >>= λ co.
    if not co.can_resume || same_ptr t.current_coroutine (some c)
    then ok (log_error t)
    else resume_to m c co.top t

unfoldable pub resume_cor : Option ℕ → Thread → Outcome Thread
unfolding resume_pending
resume_cor co t =
    if same_ptr t.current_coroutine t.main_coroutine
    then elim t.main_coroutine [ none ↦ ok (log_error t) | some m ↦ resume_pending m co t ]
    else ok (log_error t)

unfoldable pub set_is_in_co_func : Bool → Coroutine → Coroutine
set_is_in_co_func v co = record co { is_in_cofunc = v }

unfoldable pub set_can_resume : Bool → Coroutine → Coroutine
set_can_resume v co = record co { can_resume = v }

-- CoFunction, where the callback is any step of the thread; a callback that is empty throws.
unfoldable pub co_function : (Thread → Outcome Thread) → ℕ → Thread → Outcome Thread
unfolding deref set_is_in_co_func yield_cor
co_function callback p t = deref (some p) t >>= λ co.
    callback (put p (set_is_in_co_func true co) t) >>= λ t'.
    deref (some p) t' >>= λ co'. yield_cor (put p (set_is_in_co_func false co') t')
