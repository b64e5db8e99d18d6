-- ===== src/MsgReq.antt =====
-- common/msg_req.cpp: the numbers that identify requests. The state is that of one thread; the
-- length is the configured `msg_req_len`, and the read of /dev/urandom is an argument, `none` where
-- it comes back short.
pub mod Digits
pub mod Counting
use tirpc.Prelude.{
  ℕ, zero, suc, ◌+◌, ◌-◌, ◌%◌, Bool, true, false, ◌||◌, [], ◌∷◌, ◌++◌, map, Option, none, some,
  ◌==◌, if◌then◌else◌, Bytes, length, take, set, replicate, get_elem?,
}

pub record MsgReq : Type 0 where
  pub msg_req_nu : Bytes
  pub max_msg_req_nu : Bytes

unfoldable pub equal : Bytes → Bytes → Bool
equal [] [] = true
equal [] (c ∷ t) = false
equal (b ∷ s) [] = false
equal (b ∷ s) (c ∷ t) = if b == c then equal s t else false

abbrev pub is_empty : Bytes → Bool
is_empty [] = true
is_empty (x ∷ xs) = false

abbrev is_nine : Option ℕ → Bool
is_nine none = false
is_nine (some c) = c == b'9'

-- while (i >= 0 && s[i] == '9') i--; the argument is i + 1, and `none` is i == -1.
unfoldable pub last_not_nine : Bytes → ℕ → Option ℕ
last_not_nine s zero = none
last_not_nine s (suc i) = elim (is_nine (get_elem? s i)) [
  | true ↦ last_not_nine s i
  | false ↦ some i
]

abbrev digit_at : Option ℕ → ℕ
digit_at none = 0
digit_at (some c) = c

-- s[i] += 1, and '0' behind it.
unfoldable pub bump_at : Bytes → ℕ → Bytes
bump_at s i =
    take (i + 1) (set s i (digit_at (get_elem? s i) + 1)) ++ replicate (length s - (i + 1)) b'0'

-- if (i >= 0)
unfoldable pub bumped : Bytes → Option ℕ → Bytes
unfolding bump_at
bumped s none = s
bumped s (some i) = bump_at s i

unfoldable pub next_number : Bytes → Bytes
unfolding last_not_nine bumped
next_number s = bumped s (last_not_nine s (length s))

abbrev pub random_digit : ℕ → ℕ
random_digit x = x % 10 + b'0'

unfoldable pub gen_msg_number : ℕ → Option Bytes → MsgReq → Bytes × MsgReq
unfolding next_number equal
gen_msg_number len random g =
    if is_empty g.msg_req_nu || equal g.msg_req_nu g.max_msg_req_nu
    then elim random [
      | none ↦ ([], g)
      | some res ↦
          let nu = map random_digit res in
          (nu, record { msg_req_nu = nu; max_msg_req_nu = replicate len b'9' })
    ]
    else (let nu = next_number g.msg_req_nu in (nu, record g { msg_req_nu = nu }))
