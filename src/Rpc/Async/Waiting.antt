-- ===== src/Rpc/Async/Waiting.antt =====
-- No wakeup of a caller is lost.
use tirpc.Rpc.Async.{RpcAsyncChannel, call_method, set_finished, call_back, wait}
use tirpc.Prelude.{
  ℕ, Bool, true, false, List, [], ◌∷◌, Option, if◌then◌else◌, Bytes, ◌≡◌, refl, arith, Bool-cases,
  inl, inr,
}

pub data Event : Type 0 where
  waits comes_back : Event
  calls : Option Bytes → Bytes → ℕ → Event

-- A caller that waits makes no calls.
abbrev pub step : Event → RpcAsyncChannel → RpcAsyncChannel
step waits c = if c.waiting then c else wait c
step comes_back c = call_back c
step (calls runtime generated cor) c = if c.waiting then c else call_method runtime generated cor c

abbrev pub steps : List Event → RpcAsyncChannel → RpcAsyncChannel
steps [] c = c
steps (e ∷ es) c = steps es (step e c)

-- A caller that waits is to be resumed, and its call is not finished.
pub record Sound (c : RpcAsyncChannel) : Type 0 where
  pub resumes : c.waiting ≡ true → c.need_resume ≡ true
  pub open_call : c.waiting ≡ true → c.is_finished ≡ false

not_waiting : (w n : Bool) → (w ≡ true → n ≡ true) → n ≡ false → w ≡ false
not_waiting true n h k = ground arith
not_waiting false n h k = refl

closed_call : (w f : Bool) → (w ≡ true → f ≡ false) → f ≡ true → w ≡ false
closed_call true f h k = ground arith
closed_call false f h k = refl

wait-Sound : (c : RpcAsyncChannel) → c.waiting ≡ false → Sound (wait c)
unfolding wait
wait-Sound c h = elim c.is_finished as (λ b. Sound (wait (record c { is_finished = b }))) [
  | true ↦ record { resumes = λ w. refl; open_call = λ w. ground arith }
  | false ↦ record { resumes = λ w. refl; open_call = λ w. refl }
]

call_back-Sound :
    (c : RpcAsyncChannel)
    → Sound c
    → Sound (call_back c) × ((call_back c).waiting ≡ false) × ((call_back c).is_finished ≡ true)
unfolding call_back set_finished
call_back-Sound c s = elim (Bool-cases c.need_resume) [
  | inl e ↦ rw e (record { resumes = λ w. ground arith; open_call = λ w. ground arith }, refl, refl)
  | inr e ↦
      let asleep : c.waiting ≡ false = not_waiting c.waiting c.need_resume s.resumes e in
      rw e (record { resumes = λ w. ground arith; open_call = λ w. ground arith }, asleep, refl)
]

call_method-Sound :
    (runtime : Option Bytes) (generated : Bytes) (cor : ℕ) (c : RpcAsyncChannel)
    → c.waiting ≡ false
    → (call_method runtime generated cor c).waiting ≡ false
unfolding call_method
call_method-Sound runtime generated cor c h = elim (Bool-cases c.is_pre_set) [
  | inl e ↦ rw e h
  | inr e ↦ rw e h
]

-- A property of both branches of a test.
either :
    (P : RpcAsyncChannel → Type 0) (b : Bool) (x y : RpcAsyncChannel)
    → (b ≡ true → P x)
    → (b ≡ false → P y)
    → P (if b then x else y)
either P true x y h k = h refl
either P false x y h k = k refl

awake-Sound : (c : RpcAsyncChannel) → c.waiting ≡ false → Sound c
awake-Sound c h = record { resumes = λ w. ground arith; open_call = λ w. ground arith }

step-Sound : (e : Event) (c : RpcAsyncChannel) → Sound c → Sound (step e c)
step-Sound waits c s = either Sound c.waiting c (wait c) (λ w. s) (λ w. wait-Sound c w)
step-Sound comes_back c s = (call_back-Sound c s).0
step-Sound (calls runtime generated cor) c s =
    either Sound c.waiting c (call_method runtime generated cor c) (λ w. s)
      (λ w.
        awake-Sound (call_method runtime generated cor c)
          (call_method-Sound runtime generated cor c w))

steps-Sound : (es : List Event) (c : RpcAsyncChannel) → Sound c → Sound (steps es c)
steps-Sound [] c s = s
steps-Sound (e ∷ es) c s = steps-Sound es (step e c) (step-Sound e c s)

step_finished :
    (e : Event) (c : RpcAsyncChannel) → c.is_finished ≡ true → (step e c).is_finished ≡ true
unfolding wait call_back call_method set_finished
step_finished waits c h =
    let done : RpcAsyncChannel → Type 0 = λ c'. c'.is_finished ≡ true in
    either done c.waiting c (wait c) (λ w. h)
      (λ w.
        either done c.is_finished (record c { need_resume = true })
          (record c { need_resume = true; waiting = true }) (λ f. h) (λ f. h))
step_finished comes_back c h = elim (Bool-cases c.need_resume) [
  | inl n ↦ rw n refl
  | inr n ↦ rw n refl
]
step_finished (calls runtime generated cor) c h =
    let done : RpcAsyncChannel → Type 0 = λ c'. c'.is_finished ≡ true in
    either done c.waiting c (call_method runtime generated cor c) (λ w. h)
      (λ w. elim (Bool-cases c.is_pre_set) [ inl p ↦ rw p h | inr p ↦ rw p refl ])

steps_finished :
    (es : List Event) (c : RpcAsyncChannel) → c.is_finished ≡ true → (steps es c).is_finished ≡ true
steps_finished [] c h = h
steps_finished (e ∷ es) c h = steps_finished es (step e c) (step_finished e c h)

-- From a channel on which nobody waits: whatever the caller does before its call comes back and whatever it
-- does afterwards, it does not wait in the end, whether Wait comes first or the call.
pub steps-Awake :
    (before later : List Event) (c : RpcAsyncChannel)
    → c.waiting ≡ false
    → (steps later (step comes_back (steps before c))).waiting ≡ false
steps-Awake before later c h =
    let s = steps-Sound before c (awake-Sound c h) in
    let (t, a, f) = call_back-Sound (steps before c) s in
    let end_state = steps later (call_back (steps before c)) in
    let u = steps-Sound later (call_back (steps before c)) t in
    let g = steps_finished later (call_back (steps before c)) f in
    closed_call end_state.waiting end_state.is_finished u.open_call g
