-- ===== src/Address/Printing.antt =====
-- An address that is printed and read again.
use tirpc.Address.{
  check_port, check_valid_ip_addr, IpAddress, of_parts, of_text, text_of, port_text, to_uint16,
}
use tirpc.Http.{atoi, atoi_digits, atoi_sign, trim}
use tirpc.Prelude.{
  ℕ, zero, suc, ◌+◌, ◌-◌, ◌*◌, ◌/◌, ◌%◌, ◌≤◌, ◌<◌, Bool, true, false, ◌&&◌, ◌||◌, [], ◌∷◌, ◌++◌,
  none, some, if◌then◌else◌, if_true, if_false, ◌==◌, ltb, leb, length, take, drop, take-append, ℤ,
  pos, in_int32, Bytes, find_first_of, digits, to_string, until_zero, Outcome, ok, fault, ◌>>=◌,
  ◌≡◌, refl, sym, ap, ◌∙◌, append_assoc, append-nil, arith, Bool-cases, ==_iff, neg, next, subst,
  ◌≢◌, inl, inr,
}

-- The bytes of a text are decimal digits.
abbrev pub Decimal : Bytes → Type 0
Decimal [] = Unit
Decimal (c ∷ s) = (48 ≤ c) × (c ≤ 57) × Decimal s

Decimal-append : (s t : Bytes) → Decimal s → Decimal t → Decimal (s ++ t)
Decimal-append [] t d e = e
Decimal-append (c ∷ s) t (l, u, d) e = (l, u, Decimal-append s t d e)

digits-Decimal : (fuel n : ℕ) → Decimal (digits fuel n)
unfolding digits
digits-Decimal zero n = tt
digits-Decimal (suc fuel) n = elim (Bool-cases (ltb n 10)) [
  | inl e ↦ rw e (omega arith, ground arith, tt)
  | inr e ↦ rw e (
      Decimal-append (digits fuel (n / 10)) ((n % 10 + 48) ∷ []) (digits-Decimal fuel (n / 10))
        (omega arith, omega arith, tt))
]

to_string-Decimal : (n : ℕ) → Decimal (to_string n)
unfolding to_string
to_string-Decimal n = digits-Decimal (n + 1) n

read_digit :
    (acc d : ℕ) (rest : Bytes)
    → d ≤ 9
    → atoi_digits acc ((d + 48) ∷ rest) ≡ atoi_digits (acc * 10 + d) rest
unfolding atoi_digits
read_digit acc d rest h =
    let cond : (leb 48 (d + 48) && leb (d + 48) 57) ≡ true = ground arith in
    let value : acc * 10 + (d + 48 - 48) ≡ acc * 10 + d = omega arith in
    if_true (leb 48 (d + 48) && leb (d + 48) 57) (atoi_digits (acc * 10 + (d + 48 - 48)) rest) acc
      cond
    ∙ ap (λ x. atoi_digits x rest) value

-- The digits of a number are read as that number, whatever follows.
atoi_digits-digits :
    (fuel n : ℕ) (rest : Bytes)
    → n < fuel
    → atoi_digits 0 (digits fuel n ++ rest) ≡ atoi_digits n rest
unfolding digits
atoi_digits-digits zero n rest h = ground arith
atoi_digits-digits (suc fuel) n rest h = elim (Bool-cases (ltb n 10)) [
  | inl e ↦
      let small : n ≤ 9 = ground arith in
      let value : 0 * 10 + n ≡ n = omega arith in
      rw e (read_digit 0 n rest small ∙ ap (λ x. atoi_digits x rest) value)
  | inr e ↦
      let big : n / 10 < fuel = ground arith in
      let value : n / 10 * 10 + n % 10 ≡ n = omega arith in
      rw e (
        ap (atoi_digits 0) (append_assoc (digits fuel (n / 10)) ((n % 10 + 48) ∷ []) rest)
        ∙ atoi_digits-digits fuel (n / 10) ((n % 10 + 48) ∷ rest) big
        ∙ read_digit (n / 10) (n % 10) rest (omega arith)
        ∙ ap (λ x. atoi_digits x rest) value)
]

append_some : (s : Bytes) (c : ℕ) → (d : ℕ) × (t : Bytes) × (s ++ (c ∷ []) ≡ d ∷ t)
append_some [] c = (c, [], refl)
append_some (b ∷ s) c = (b, s ++ (c ∷ []), refl)

digits_some : (fuel n : ℕ) → (d : ℕ) × (t : Bytes) × (digits (suc fuel) n ≡ d ∷ t)
unfolding digits
digits_some fuel n = elim (Bool-cases (ltb n 10)) [
  | inl e ↦ rw e (n + 48, [], refl)
  | inr e ↦ rw e (append_some (digits fuel (n / 10)) (n % 10 + 48))
]

-- A text that starts with a digit has no white space and no sign in front.
atoi_sign-digit :
    (c : ℕ) (s : Bytes) → 48 ≤ c → c ≤ 57 → atoi_sign (trim (c ∷ s)) ≡ pos (atoi_digits 0 (c ∷ s))
unfolding atoi_sign
atoi_sign-digit c s l u =
    let blank : (c == 32 || (leb 9 c && leb c 13)) ≡ false = ground arith in
    let minus : (c == 45) ≡ false = ground arith in
    let plus : (c == 43) ≡ false = ground arith in
    ap atoi_sign (if_false (c == 32 || (leb 9 c && leb c 13)) (trim s) (c ∷ s) blank)
    ∙ if_false (c == 45) (neg (pos (atoi_digits 0 s)))
        (if c == 43 then pos (atoi_digits 0 s) else pos (atoi_digits 0 (c ∷ s))) minus
    ∙ if_false (c == 43) (pos (atoi_digits 0 s)) (pos (atoi_digits 0 (c ∷ s))) plus

atoi-to_string : (n : ℕ) → n < 2_147_483_648 → atoi (to_string n) ≡ ok (pos n)
unfolding atoi to_string atoi_digits
atoi-to_string n h =
    let (c, s, e) = digits_some n n in
    let here : digits (n + 1) n ≡ c ∷ s =
      ap (λ f. digits f n) (let f : n + 1 ≡ suc n = omega arith in f) ∙ e in
    let (l, u, d) : Decimal (c ∷ s) = subst Decimal here (digits-Decimal (n + 1) n) in
    let read : atoi_sign (trim (to_string n)) ≡ pos n =
      ap (λ t. atoi_sign (trim t)) here
      ∙ atoi_sign-digit c s l u
      ∙ ap (λ t. pos (atoi_digits 0 t)) (sym here ∙ sym (append-nil (digits (n + 1) n)))
      ∙ ap pos (atoi_digits-digits (n + 1) n [] (omega arith)) in
    let fits : in_int32 (pos n) ≡ true = ground arith in
    ap (λ z. if in_int32 z then ok z else fault) read
    ∙ if_true (in_int32 (pos n)) (ok (pos n)) fault fits

until_zero-Decimal : (s : Bytes) → Decimal s → until_zero s ≡ s
until_zero-Decimal [] d = refl
until_zero-Decimal (c ∷ s) (l, u, d) =
    let apart : (c == 0) ≡ false = ground arith in
    if_false (c == 0) [] (c ∷ until_zero s) apart ∙ ap (λ t. c ∷ t) (until_zero-Decimal s d)

-- No byte of the text is a colon.
abbrev pub NoColon : Bytes → Type 0
NoColon [] = Unit
NoColon (c ∷ s) = (c ≢ 58) × NoColon s

find_colon :
    (ip rest : Bytes) → NoColon ip → find_first_of (58 ∷ []) (ip ++ (58 ∷ rest)) ≡ some (length ip)
unfolding find_first_of
find_colon [] rest h = refl
find_colon (c ∷ ip) rest (n, h) =
    let apart : (c == 58 || false) ≡ false = ground arith in
    if_false (c == 58 || false) (some 0) (next (find_first_of (58 ∷ []) (ip ++ (58 ∷ rest)))) apart
    ∙ ap next (find_colon ip rest h)

drop_past : (ip rest : Bytes) (n : ℕ) → n ≡ length ip + 1 → drop n (ip ++ (58 ∷ rest)) ≡ rest
drop_past ip rest zero h = ground arith
drop_past [] rest (suc zero) h = refl
drop_past [] rest (suc (suc n)) h = ground arith
drop_past (c ∷ ip) rest (suc n) h = drop_past ip rest n (omega arith)

module _ (inet_addr : Bytes → ℕ) (ip : Bytes) (port : ℕ) (no_colon : NoColon ip)
    (fits : port < 2_147_483_648) where
  port_read : atoi (port_text (length ip) (text_of ip port)) ≡ ok (pos port)
  unfolding text_of
  port_read =
      ap (λ t. atoi (until_zero t)) (drop_past ip (to_string port) (length ip + 1) refl)
      ∙ ap atoi (until_zero-Decimal (to_string port) (to_string-Decimal port))
      ∙ atoi-to_string port fits

  host_read : take (length ip) (text_of ip port) ≡ ip
  unfolding text_of
  host_read = take-append (length ip) ip (58 ∷ to_string port) refl

  of_text_read : of_text inet_addr (text_of ip port) ≡ ok (of_parts inet_addr ip (port % 65_536))
  unfolding of_text text_of
  of_text_read =
      ap
        (λ o. elim o as (λ o'. Outcome IpAddress) [
          | none ↦ ok (record { ip = []; port = none; addr = none })
          | some i ↦ atoi (port_text i (text_of ip port)) >>= λ p.
              ok (of_parts inet_addr (take i (text_of ip port)) (to_uint16 p))
        ])
        (find_colon ip (to_string port) no_colon)
      ∙ ap
          (λ o.
            o >>= λ p. ok (of_parts inet_addr (take (length ip) (text_of ip port)) (to_uint16 p)))
          port_read
      ∙ ap (λ t. ok (of_parts inet_addr t (port % 65_536))) host_read

  check_read :
      (inet_addr (until_zero ip) == 4_294_967_295) ≡ false
      → check_port (pos port) ≡ true
      → check_valid_ip_addr inet_addr (text_of ip port) ≡ ok true
  unfolding check_valid_ip_addr text_of
  check_read n c =
      let last : Bytes → ℤ → Bool = λ t p.
        if check_port p
        then (if inet_addr (until_zero t) == 4_294_967_295 then false else true)
        else false in
      ap
        (λ o. elim o as (λ o'. Outcome Bool) [
          | none ↦ ok false
          | some i ↦
              atoi (port_text i (text_of ip port)) >>= λ p. ok (last (take i (text_of ip port)) p)
        ])
        (find_colon ip (to_string port) no_colon)
      ∙ ap (λ o. o >>= λ p. ok (last (take (length ip) (text_of ip port)) p)) port_read
      ∙ ap (λ t. ok (last t (pos port))) host_read
      ∙ ap ok (
          if_true (check_port (pos port))
            (if inet_addr (until_zero ip) == 4_294_967_295 then false else true) false c
          ∙ if_false (inet_addr (until_zero ip) == 4_294_967_295) false true n)

-- For a host without a colon that inet_addr reads, and a port of at most 2 ^ 16, the text of the address is
-- valid, and is read as the address with that host and port, but for the port 2 ^ 16, which is read as 0.
pub of_text-text_of :
    (inet_addr : Bytes → ℕ) (ip : Bytes) (port : ℕ)
    → NoColon ip
    → (inet_addr (until_zero ip) == 4_294_967_295) ≡ false
    → port ≤ 65_536
    → (check_valid_ip_addr inet_addr (text_of ip port) ≡ ok true)
      × (of_text inet_addr (text_of ip port)
          ≡ ok (of_parts inet_addr ip (if port == 65_536 then 0 else port)))
unfolding check_port
of_text-text_of inet_addr ip port h n l =
    let fits : port < 2_147_483_648 = omega arith in
    let valid : check_port (pos port) ≡ true = ground arith in
    let wraps : port % 65_536 ≡ (if port == 65_536 then 0 else port) =
      elim (Bool-cases (port == 65_536)) [
        | inl e ↦
            (let same : port ≡ 65_536 = (==_iff port 65_536).0 e in
              rw e (ap (λ p. p % 65_536) same))
        | inr e ↦ (let small : port < 65_536 = ground arith in rw e (omega arith))
      ] in
    (
      check_read inet_addr ip port h fits n valid,
      of_text_read inet_addr ip port h fits ∙ ap (λ p. ok (of_parts inet_addr ip p)) wraps,
    )
