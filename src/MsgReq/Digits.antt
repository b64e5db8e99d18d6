-- ===== src/MsgReq/Digits.antt =====
-- The decimal digits of a message number, and the number behind it.
use tirpc.MsgReq.{last_not_nine, bump_at, bumped, next_number}
use tirpc.Prelude.{
  ℕ, zero, suc, ◌+◌, ◌-◌, ◌*◌, ◌≤◌, ◌<◌, ◌≡◌, ◌≢◌, refl, sym, ap, subst, ◌∙◌, ◌⊎◌, inl, inr, false,
  [], ◌∷◌, ◌++◌, some, ◌==◌, ==_iff, Bytes, length, take, set, replicate, get_elem?, arith,
  Bool-cases, length-append, length-replicate, append_assoc,
}

-- Decimal digits, in ASCII.
abbrev pub Digits : Bytes → Type 0
Digits [] = Unit
Digits (c ∷ s) = (b'0' ≤ c) × (c ≤ b'9') × Digits s

-- The number that the digits `s` behind a number `a` stand for.
abbrev pub value_from : ℕ → Bytes → ℕ
value_from a [] = a
value_from a (c ∷ s) = value_from (a * 10 + (c - b'0')) s

abbrev pub value : Bytes → ℕ
value s = value_from 0 s

-- A text that is not all nines: what stands in front of its trailing nines.
record Split (s : Bytes) : Type 0 where
  front : Bytes
  digit : ℕ
  nines : ℕ
  not_nine : digit ≢ b'9'
  parts : s ≡ front ++ (digit ∷ replicate nines b'9')

Split-cons : (c : ℕ) (s : Bytes) → Split s → Split (c ∷ s)
Split-cons c s p = record {
  front = c ∷ p.front;
  digit = p.digit;
  nines = p.nines;
  not_nine = p.not_nine;
  parts = ap (λ r. c ∷ r) p.parts;
}

not_same : (m n : ℕ) → (m == n) ≡ false → m ≢ n
not_same m n h = ground arith

differs : (m n : ℕ) → m ≢ n → (m == n) ≡ false
differs m n h = ground arith

Split-of : (s : Bytes) → (s ≡ replicate (length s) b'9') ⊎ Split s
Split-of [] = inl refl
Split-of (c ∷ s) = elim (Split-of s) [
  | inr p ↦ inr (Split-cons c s p)
  | inl e ↦ elim (Bool-cases (c == b'9')) [
    | inl h ↦ inl (let h' : c ≡ b'9' = (==_iff c b'9').0 h in λ i. h' i ∷ e i)
    | inr h ↦ inr record {
      front = [];
      digit = c;
      nines = length s;
      not_nine = not_same c b'9' h;
      parts = ap (λ r. c ∷ r) e;
    }
  ]
]

get_elem?-replicate : (n k v : ℕ) → n < k → get_elem? (replicate k v) n ≡ some v
get_elem?-replicate zero zero v h = (let f : ⊥ = omega arith in elim f [ ])
get_elem?-replicate (suc n) zero v h = (let f : ⊥ = omega arith in elim f [ ])
get_elem?-replicate zero (suc k) v h = refl
get_elem?-replicate (suc n) (suc k) v h = get_elem?-replicate n k v (omega arith)

get_elem?-append : (p s : Bytes) (n : ℕ) → get_elem? (p ++ s) (length p + n) ≡ get_elem? s n
get_elem?-append [] s n = let e : 0 + n ≡ n = omega arith in rw e refl
get_elem?-append (x ∷ p) s n =
    let e : suc (length p) + n ≡ suc (length p + n) = omega arith in rw e (get_elem?-append p s n)

stops : (s : Bytes) (i c : ℕ) → get_elem? s i ≡ some c → c ≢ b'9' → last_not_nine s (suc i) ≡ some i
unfolding last_not_nine
stops s i c h h' = rw (h, last_not_nine) (rw (differs c b'9' h') refl)

passes :
    (s : Bytes) (i : ℕ) → get_elem? s i ≡ some b'9' → last_not_nine s (suc i) ≡ last_not_nine s i
unfolding last_not_nine
passes s i h = rw (h, last_not_nine) refl

-- The search from behind passes over the nines.
last_not_nine-split :
    (p : Bytes) (c k j : ℕ)
    → c ≢ b'9'
    → j ≤ k
    → last_not_nine (p ++ (c ∷ replicate k b'9')) (length p + suc j) ≡ some (length p)
last_not_nine-split p c k zero h l =
    let e : length p + 1 ≡ suc (length p + 0) = omega arith in
    let e' : length p + 0 ≡ length p = omega arith in
    rw e (stops _ (length p + 0) c (get_elem?-append p _ 0) h ∙ ap some e')
last_not_nine-split p c k (suc j) h l =
    let e : length p + suc (suc j) ≡ suc (length p + suc j) = omega arith in
    rw e (
      passes _ (length p + suc j) (get_elem?-append p _ (suc j) ∙ get_elem?-replicate j k b'9' l)
      ∙ last_not_nine-split p c k j h (omega arith))

set-append :
    (p s : Bytes) (v : ℕ)
    → take (length p + 1) (set (p ++ s) (length p) v) ≡ p ++ take 1 (set s 0 v)
set-append [] s v = refl
set-append (x ∷ p) s v =
    let e : suc (length p) + 1 ≡ suc (length p + 1) = omega arith in
    rw e (ap (λ r. x ∷ r) (set-append p s v))

value_from-append : (p s : Bytes) (a : ℕ) → value_from a (p ++ s) ≡ value_from (value_from a p) s
value_from-append [] s a = refl
value_from-append (c ∷ p) s a = value_from-append p s (a * 10 + (c - b'0'))

carry : (k a : ℕ) → value_from (a + 1) (replicate k b'0') ≡ value_from a (replicate k b'9') + 1
carry zero a = refl
carry (suc k) a =
    let e : (a + 1) * 10 + 0 ≡ a * 10 + 9 + 1 = omega arith in
    ap (λ n. value_from n (replicate k b'0')) e ∙ carry k (a * 10 + 9)

bump_at-split :
    (p : Bytes) (c k : ℕ)
    → bump_at (p ++ (c ∷ replicate k b'9')) (length p) ≡ p ++ ((c + 1) ∷ replicate k b'0')
unfolding bump_at
bump_at-split p c k =
    let n : length (p ++ (c ∷ replicate k b'9')) - (length p + 1) ≡ k =
      omega (arith, length-append p (c ∷ replicate k b'9'), length-replicate {A = ℕ} k b'9') in
    let e : length p + 0 ≡ length p = omega arith in
    let at : get_elem? (p ++ (c ∷ replicate k b'9')) (length p) ≡ some c =
      ap (get_elem? (p ++ (c ∷ replicate k b'9'))) (sym e) ∙ get_elem?-append p _ 0 in
    rw (n, at, set-append p (c ∷ replicate k b'9') (c + 1)) (append_assoc p _ _)

next_number-split :
    (p : Bytes) (c k : ℕ)
    → c ≢ b'9'
    → next_number (p ++ (c ∷ replicate k b'9')) ≡ p ++ ((c + 1) ∷ replicate k b'0')
unfolding next_number
next_number-split p c k h =
    let e : length (p ++ (c ∷ replicate k b'9')) ≡ length p + suc k =
      omega (arith, length-append p (c ∷ replicate k b'9'), length-replicate {A = ℕ} k b'9') in
    let e' : last_not_nine (p ++ (c ∷ replicate k b'9')) (length (p ++ (c ∷ replicate k b'9')))
        ≡ some (length p) =
      rw e (last_not_nine-split p c k k h (omega arith)) in
    ap (bumped _) e' ∙ unfold bumped in bump_at-split p c k

-- What the next number is: one more, and as many digits.
abbrev pub Next : Bytes → Bytes → Type 0
Next s s' = (value s' ≡ value s + 1) × (length s' ≡ length s) × Digits s'

Digits-zeros : (k : ℕ) → Digits (replicate k b'0')
Digits-zeros zero = tt
Digits-zeros (suc k) = (omega arith, omega arith, Digits-zeros k)

Digits-split :
    (p : Bytes) (c k : ℕ)
    → c ≢ b'9'
    → Digits (p ++ (c ∷ replicate k b'9'))
    → Digits (p ++ ((c + 1) ∷ replicate k b'0'))
Digits-split [] c k h (l, u, d) = (omega arith, omega arith, Digits-zeros k)
Digits-split (x ∷ p) c k h (l, u, d) = (l, u, Digits-split p c k h d)

Digits-digit : (p : Bytes) (c : ℕ) (s : Bytes) → Digits (p ++ (c ∷ s)) → b'0' ≤ c
Digits-digit [] c s (l, u, d) = l
Digits-digit (x ∷ p) c s (l, u, d) = Digits-digit p c s d

value-split :
    (p : Bytes) (c k : ℕ)
    → b'0' ≤ c
    → value (p ++ ((c + 1) ∷ replicate k b'0')) ≡ value (p ++ (c ∷ replicate k b'9')) + 1
value-split p c k l =
    let v = value_from 0 p in
    let e : v * 10 + (c + 1 - b'0') ≡ v * 10 + (c - b'0') + 1 = omega arith in
    value_from-append p _ 0
    ∙ ap (λ n. value_from n (replicate k b'0')) e
    ∙ carry k (v * 10 + (c - b'0'))
    ∙ ap (λ n. n + 1) (sym (value_from-append p (c ∷ replicate k b'9') 0))

length-split :
    (p : Bytes) (c k : ℕ)
    → length (p ++ ((c + 1) ∷ replicate k b'0')) ≡ length (p ++ (c ∷ replicate k b'9'))
length-split p c k = omega (
  arith,
  length-append p ((c + 1) ∷ replicate k b'0'),
  length-append p (c ∷ replicate k b'9'),
  length-replicate {A = ℕ} k b'0',
  length-replicate {A = ℕ} k b'9',
)

Next-split :
    (p : Bytes) (c k : ℕ)
    → c ≢ b'9'
    → Digits (p ++ (c ∷ replicate k b'9'))
    → Next (p ++ (c ∷ replicate k b'9')) (p ++ ((c + 1) ∷ replicate k b'0'))
Next-split p c k h d =
    (value-split p c k (Digits-digit p c _ d), length-split p c k, Digits-split p c k h d)

pub next_number-Next :
    (s : Bytes) → Digits s → s ≢ replicate (length s) b'9' → Next s (next_number s)
next_number-Next s d h = elim (Split-of s) [
  | inl e ↦ elim (h e) [ ]
  | inr p ↦
      let d' = subst Digits p.parts d in
      subst (λ s. Next s (next_number s)) (sym p.parts)
        (subst (Next (p.front ++ (p.digit ∷ replicate p.nines b'9')))
          (sym (next_number-split p.front p.digit p.nines p.not_nine))
          (Next-split p.front p.digit p.nines p.not_nine d'))
]
