-- ===== src/MsgReq/Counting.antt =====
-- GenMsgNumber counts: a number of decimal digits is followed by the next one of the same length.
use tirpc.MsgReq.Digits.{Digits, Next, next_number-Next}
use tirpc.MsgReq.{MsgReq, equal, is_empty, gen_msg_number, random_digit}
use tirpc.Prelude.{
  ℕ, suc, ◌<◌, ◌≡◌, ◌≢◌, refl, ap, subst, inl, inr, true, false, [], ◌∷◌, Option, some, ◌==◌,
  ==_iff, Bytes, length, replicate, map, arith, Bool-cases,
}

equal-same : (s t : Bytes) → equal s t ≡ true → s ≡ t
unfolding equal
equal-same [] [] h = refl
equal-same [] (c ∷ t) h = cc h
equal-same (b ∷ s) [] h = cc h
equal-same (b ∷ s) (c ∷ t) h = elim (Bool-cases (b == c)) [
  | inl e ↦
      let h' : equal s t ≡ true = rw e at h in
      let x = (==_iff b c).0 e in let y = equal-same s t h' in λ i. x i ∷ y i
  | inr e ↦ let h' : false ≡ true = rw e at h in cc h'
]

equal-differ : (s t : Bytes) → s ≢ t → equal s t ≡ false
equal-differ s t h = elim (Bool-cases (equal s t)) [
  | inl e ↦ elim (h (equal-same s t e)) [ ]
  | inr e ↦ e
]

equal_refl : (s : Bytes) → equal s s ≡ true
unfolding equal
equal_refl [] = refl
equal_refl (c ∷ s) = rw ((==_iff c c).1 refl) (equal_refl s)

equal-unlike : (s t : Bytes) → equal s t ≡ false → s ≢ t
equal-unlike s t h e =
    let h' : equal s t ≡ true = subst (λ r. equal s r ≡ true) e (equal_refl s) in cc (h, h')

-- What GenMsgNumber keeps of a thread: decimal digits, and as many nines.
pub record IsValid (g : MsgReq) : Type 0 where
  pub digits : Digits g.msg_req_nu
  pub nines : g.max_msg_req_nu ≡ replicate (length g.msg_req_nu) b'9'

-- What a call that counts on returns and leaves.
abbrev pub Counts : MsgReq → Bytes × MsgReq → Type 0
Counts g (nu, g') = Next g.msg_req_nu nu × (g'.msg_req_nu ≡ nu) × IsValid g'

Counts-on :
    (g : MsgReq) (nu : Bytes)
    → IsValid g
    → Next g.msg_req_nu nu
    → Counts g (nu, record g { msg_req_nu = nu })
Counts-on g nu v (e, l, d) = ((e, l, d), refl, record { digits = d; nines = rw l v.nines })

not_first : (s : Bytes) → 0 < length s → is_empty s ≡ false
not_first [] h = (let f : ⊥ = omega arith in elim f [ ])
not_first (c ∷ s) h = refl

-- GenMsgNumber, on a thread whose last number is valid, not empty and not all nines, returns the
-- number one above it with as many digits, and keeps it as the last number of a valid state.
gen_msg_number-Counts :
    (len : ℕ) (random : Option Bytes) (g : MsgReq)
    → IsValid g
    → 0 < length g.msg_req_nu
    → g.msg_req_nu ≢ g.max_msg_req_nu
    → Counts g (gen_msg_number len random g)
unfolding gen_msg_number
gen_msg_number-Counts len random g v h ne =
    let next = next_number-Next g.msg_req_nu v.digits (rw (← v.nines) ne) in
    rw (not_first g.msg_req_nu h, equal-differ _ _ ne) (Counts-on g _ v next)

map-Digits : (s : Bytes) → Digits (map random_digit s)
map-Digits [] = tt
map-Digits (c ∷ s) = (omega arith, omega arith, map-Digits s)

length-map : (s : Bytes) → length (map random_digit s) ≡ length s
length-map [] = refl
length-map (c ∷ s) = ap suc (length-map s)

first : ℕ → Bytes → MsgReq
first len res = record { msg_req_nu = map random_digit res; max_msg_req_nu = replicate len b'9' }

first-IsValid : (len : ℕ) (res : Bytes) → length res ≡ len → IsValid (first len res)
unfolding first
first-IsValid len res h = record { digits = map-Digits res; nines = rw (length-map res, h) refl }

not_empty : (s : Bytes) → is_empty s ≡ false → 0 < length s
not_empty [] h = cc h
not_empty (c ∷ s) h = omega arith

-- Every call of GenMsgNumber for which the read of random bytes gives `len` bytes leaves a valid
-- state valid.
gen_msg_number-IsValid :
    (len : ℕ) (res : Bytes) (g : MsgReq)
    → IsValid g
    → length res ≡ len
    → IsValid (gen_msg_number len (some res) g).1
unfolding gen_msg_number first
gen_msg_number-IsValid len res g v h = elim (Bool-cases (is_empty g.msg_req_nu)) [
  | inl e ↦ rw e (first-IsValid len res h)
  | inr e ↦ elim (Bool-cases (equal g.msg_req_nu g.max_msg_req_nu)) [
    | inl e' ↦ rw (e, e') (first-IsValid len res h)
    | inr e' ↦ (gen_msg_number-Counts len (some res) g v (not_empty _ e) (equal-unlike _ _ e')).2
  ]
]
