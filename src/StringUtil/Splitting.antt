-- ===== src/StringUtil/Splitting.antt =====
-- SplitStrToVector on one separating byte, and how many rounds its loop needs.
use tirpc.Prelude.{
  ℕ, zero, suc, ◌+◌, ◌-◌, ◌≤◌, ◌<◌, ◌≡◌, ◌≢◌, refl, sym, ap, ◌∙◌, subst, ◌⊎◌, inl, inr, false, List,
  [], ◌∷◌, ◌++◌, Option, none, some, if◌then◌else◌, ltb, ◌==◌, ==_iff, le→ltb, Bytes, Outcome, ok,
  ◌>>=◌, arith, Bool-cases, length, take, drop, length-append, length-take, length-drop, append-nil,
  append_assoc, find_first_of, substr,
}
use tirpc.StringUtil.{keep, split_at, split_loop, ending, with_end, split_str_to_vector}
use tirpc.StringUtil.Searches.{Without, find_first_of-at, substr-at}

-- The pieces between the bytes `c`, without the empty ones; `cur` stands in front of the text.
abbrev pub pieces : ℕ → Bytes → Bytes → List Bytes
pieces c cur [] = keep cur []
pieces c cur (x ∷ s) =
    let closed = pieces c [] s in
    let longer = pieces c (cur ++ (x ∷ [])) s in if x == c then keep cur closed else longer

-- The text is empty, or its last byte is `c`.
abbrev Ends : ℕ → Bytes → Type 0
Ends c [] = Unit
Ends c (x ∷ []) = x ≡ c
Ends c (x ∷ y ∷ s) = Ends c (y ∷ s)

Ends-append : (c : ℕ) (s : Bytes) → Ends c (s ++ (c ∷ []))
Ends-append c [] = refl
Ends-append c (x ∷ []) = refl
Ends-append c (x ∷ y ∷ s) = Ends-append c (y ∷ s)

-- A text that ends with `c`, cut behind its first `c`.
record Cut (c : ℕ) (s : Bytes) : Type 0 where
  front : Bytes
  back : Bytes
  parts : s ≡ front ++ (c ∷ back)
  first : Without c front
  ends : Ends c back

Ends-tail : (c x : ℕ) (s : Bytes) → Ends c (x ∷ s) → Ends c s
Ends-tail c x [] h = tt
Ends-tail c x (y ∷ s) h = h

cut_here : (c x : ℕ) (s : Bytes) → x ≡ c → Ends c (x ∷ s) → Cut c (x ∷ s)
cut_here c x s e h = record {
  front = [];
  back = s;
  parts = ap (λ y. y ∷ s) e;
  first = tt;
  ends = Ends-tail c x s h;
}

cut_later : (c x : ℕ) (s : Bytes) → x ≢ c → Cut c s → Cut c (x ∷ s)
cut_later c x s n k = record {
  front = x ∷ k.front;
  back = k.back;
  parts = ap (λ r. x ∷ r) k.parts;
  first = (n, k.first);
  ends = k.ends;
}

same_or_not : (x c : ℕ) → (x ≡ c) ⊎ (x ≢ c)
same_or_not x c = elim (Bool-cases (x == c)) [
  | inl e ↦ inl ((==_iff x c).0 e)
  | inr e ↦ inr (ground arith)
]

cut : (c x : ℕ) (s : Bytes) → Ends c (x ∷ s) → Cut c (x ∷ s)
cut c x [] h = cut_here c x [] h h
cut c x (y ∷ s) h = elim (same_or_not x c) [
  | inl e ↦ cut_here c x (y ∷ s) e h
  | inr n ↦ cut_later c x (y ∷ s) n (cut c y s h)
]

pieces-Without :
    (c : ℕ) (cur xs ys : Bytes)
    → Without c xs
    → pieces c cur (xs ++ (c ∷ ys)) ≡ keep (cur ++ xs) (pieces c [] ys)
pieces-Without c cur [] ys w = rw ((==_iff c c).1 refl) (rw (append-nil cur) refl)
pieces-Without c cur (x ∷ xs) ys (n, w) =
    let d : (x == c) ≡ false = ground arith in
    rw d (
      pieces-Without c (cur ++ (x ∷ [])) xs ys w
      ∙ ap (λ r. keep r (pieces c [] ys)) (append_assoc cur (x ∷ []) xs))

-- A separator behind the text changes nothing.
pieces_ended : (c : ℕ) (cur s : Bytes) → pieces c cur (s ++ (c ∷ [])) ≡ pieces c cur s
pieces_ended c cur [] = rw ((==_iff c c).1 refl) refl
pieces_ended c cur (x ∷ s) = elim (Bool-cases (x == c)) [
  | inl e ↦ rw e (ap (keep cur) (pieces_ended c [] s))
  | inr e ↦ rw e (pieces_ended c (cur ++ (x ∷ [])) s)
]

-- One round at a known place.
split_at-Cut :
    (c : ℕ) (tmp xs ys : Bytes) (rest : Bytes → Outcome (List Bytes))
    → tmp ≡ xs ++ (c ∷ ys)
    → split_at (c ∷ []) tmp rest (some (length xs)) ≡ (rest ys >>= λ ps. ok (keep xs ps))
unfolding split_at
split_at-Cut c tmp xs ys rest e =
    let l : length tmp ≡ length xs + suc (length ys) = ap length e ∙ length-append xs (c ∷ ys) in
    let behind : tmp ≡ (xs ++ (c ∷ [])) ++ (ys ++ []) =
      e
      ∙ sym (append_assoc xs (c ∷ []) ys)
      ∙ ap (λ r. (xs ++ (c ∷ [])) ++ r) (sym (append-nil ys)) in
    rw (substr-at tmp [] xs (c ∷ ys) 0 (length xs) e refl refl) (
      rw
        (substr-at tmp (xs ++ (c ∷ [])) ys [] (length xs + 1) (length tmp - length xs - 1) behind
          (sym (length-append xs (c ∷ []))) (omega (arith, l)))
        refl)

split_loop_blank : (n : ℕ) (sep : Bytes) → split_loop n sep [] ≡ ok []
unfolding split_loop split_at find_first_of
split_loop_blank zero sep = refl
split_loop_blank (suc n) sep = refl

split_loop-pieces :
    (n c : ℕ) (tmp : Bytes)
    → Ends c tmp
    → length tmp ≤ n
    → split_loop n (c ∷ []) tmp ≡ ok (pieces c [] tmp)
unfolding split_loop
split_loop-pieces n c [] h l = split_loop_blank n (c ∷ [])
split_loop-pieces zero c (x ∷ s) h l = (let f : ⊥ = omega arith in elim f [ ])
split_loop-pieces (suc n) c (x ∷ s) h l =
    let k = cut c x s h in
    let at : find_first_of (c ∷ []) (x ∷ s) ≡ some (length k.front) =
      ap (find_first_of (c ∷ [])) k.parts ∙ find_first_of-at c k.front k.back k.first in
    let shorter : length (x ∷ s) ≡ length k.front + suc (length k.back) =
      ap length k.parts ∙ length-append k.front (c ∷ k.back) in
    ap (split_at (c ∷ []) (x ∷ s) (split_loop n (c ∷ []))) at
    ∙ split_at-Cut c (x ∷ s) k.front k.back (split_loop n (c ∷ [])) k.parts
    ∙ ap (λ o. o >>= λ ps. ok (keep k.front ps))
        (split_loop-pieces n c k.back k.ends (omega (arith, shorter)))
    ∙ sym (ap ok (ap (pieces c []) k.parts ∙ pieces-Without c [] k.front k.back k.first))

-- The last byte of a text.
pub last_byte : (x : ℕ) (s : Bytes) → (q : Bytes) × (y : ℕ) × (x ∷ s ≡ q ++ (y ∷ []))
last_byte x [] = ([], x, refl)
last_byte x (y ∷ s) = let (q, z, e) = last_byte y s in (x ∷ q, z, ap (λ r. x ∷ r) e)

pub ending-last :
    (q : Bytes) (y : ℕ) (s : Bytes) (c : ℕ) → s ≡ q ++ (y ∷ []) → ending s (c ∷ []) ≡ ok (y ∷ [])
unfolding ending
ending-last q y s c e =
    let l : length s ≡ length q + 1 = ap length e ∙ length-append q (y ∷ []) in
    let e' : s ≡ q ++ ((y ∷ []) ++ []) = e in
    rw (le→ltb (length s) 1 (omega (arith, l)))
      (substr-at s q (y ∷ []) [] (length s - 1) 1 e' (omega (arith, l)) refl)

-- What the loop is given: it ends with the separator, and has the pieces of the text.
record Ready (c : ℕ) (s : Bytes) : Type 0 where
  tmp : Bytes
  made : with_end s (c ∷ []) ≡ ok tmp
  ends : Ends c tmp
  same : pieces c [] tmp ≡ pieces c [] s

ready : (c : ℕ) (q : Bytes) (y : ℕ) (s : Bytes) → s ≡ q ++ (y ∷ []) → Ready c s
unfolding with_end
ready c q y s e = elim (same_or_not y c) [
  | inl h ↦ record {
    tmp = s;
    made = rw (ending-last q y s c e) (rw ((==_iff y c).1 h) refl);
    ends = subst (Ends c) (sym e) (subst (λ z. Ends c (q ++ (z ∷ []))) (sym h) (Ends-append c q));
    same = refl;
  }
  | inr n ↦ record {
    tmp = s ++ (c ∷ []);
    made = rw (ending-last q y s c e) (rw (other y c n) refl);
    ends = Ends-append c s;
    same = pieces_ended c [] s;
  }
]
  where
    other : (y c : ℕ) → y ≢ c → (y == c) ≡ false
    other y c h = ground arith

-- With one separating byte, SplitStrToVector gives the pieces between the separators without the
-- empty ones, for any text.
pub split_str_to_vector-pieces :
    (c : ℕ) (s : Bytes) → split_str_to_vector s (c ∷ []) ≡ ok (pieces c [] s)
unfolding split_str_to_vector
split_str_to_vector-pieces c [] = refl
split_str_to_vector-pieces c (x ∷ s) =
    let (q, y, e) = last_byte x s in
    let r = ready c q y (x ∷ s) e in
    rw r.made (split_loop-pieces (length r.tmp) c r.tmp r.ends (omega arith) ∙ ap ok r.same)

-- Rounds that agree on shorter texts.
split_at_steady :
    (sep tmp : Bytes) (f g : Bytes → Outcome (List Bytes))
    → 0 < length sep
    → 0 < length tmp
    → ((t : Bytes) → length t < length tmp → f t ≡ g t)
    → (o : Option ℕ) → split_at sep tmp f o ≡ split_at sep tmp g o
unfolding split_at substr
split_at_steady sep tmp f g h k agree none = refl
split_at_steady sep tmp f g h k agree (some i) =
    let z = le→ltb (length tmp) 0 (omega arith) in
    elim (Bool-cases (ltb (length tmp) (i + length sep))) [
      | inl e ↦ rw (z, e) refl
      | inr e ↦
          let t = take (length tmp - i - length sep) (drop (i + length sep) tmp) in
          let less : length t < length tmp = omega (
            arith,
            length-take (length tmp - i - length sep) (drop (i + length sep) tmp),
            length-drop (i + length sep) tmp,
          ) in
          rw (z, e) (ap (λ o. o >>= λ xs. ok (keep (take i tmp) xs)) (agree t less))
    ]

-- However many more rounds than bytes the loop of SplitStrToVector is allowed, with a separator that
-- is not empty, its outcome is the same: it ends by itself.
split_loop_steady :
    (n m : ℕ) (sep tmp : Bytes)
    → 0 < length sep
    → length tmp ≤ n
    → length tmp ≤ m
    → split_loop n sep tmp ≡ split_loop m sep tmp
unfolding split_loop
split_loop_steady n m sep [] h k l = split_loop_blank n sep ∙ sym (split_loop_blank m sep)
split_loop_steady zero m sep (x ∷ s) h k l = (let f : ⊥ = omega arith in elim f [ ])
split_loop_steady (suc n) zero sep (x ∷ s) h k l = (let f : ⊥ = omega arith in elim f [ ])
split_loop_steady (suc n) (suc m) sep (x ∷ s) h k l =
    split_at_steady sep (x ∷ s) (split_loop n sep) (split_loop m sep) h (omega arith)
      (λ t less. split_loop_steady n m sep t h (omega arith) (omega arith))
      (find_first_of sep (x ∷ s))
