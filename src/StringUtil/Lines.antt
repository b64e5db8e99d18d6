-- ===== src/StringUtil/Lines.antt =====
-- SplitStrToVector on "\r\n", which it searches for byte by byte.
use tirpc.Prelude.{
  ℕ, suc, ◌+◌, ◌-◌, ◌≡◌, ◌≢◌, refl, sym, subst, ap, ◌∙◌, false, [], ◌∷◌, ◌++◌, some, le→ltb, ◌==◌,
  Bytes, ok, throws, ◌>>=◌, arith, length, length-append, append_assoc, find_first_of, next, substr,
}
use tirpc.StringUtil.{keep, split_at, split_loop, ending, with_end, split_str_to_vector}
use tirpc.StringUtil.Splitting.{last_byte}
use tirpc.StringUtil.Searches.{Without, substr-at}

find_first_of-line :
    (xs ys : Bytes)
    → Without 13 xs
    → Without 10 xs
    → find_first_of (13 ∷ 10 ∷ []) (xs ++ (10 ∷ ys)) ≡ some (length xs)
unfolding find_first_of
find_first_of-line [] ys w v = refl
find_first_of-line (x ∷ xs) ys (n, w) (n', v) =
    rw (differs x 13 n) (rw (differs x 10 n') (ap next (find_first_of-line xs ys w v)))
  where
    differs : (a b : ℕ) → a ≢ b → (a == b) ≡ false
    differs a b h = ground arith

-- The second round has one byte left, and asks for what stands behind the second one.
second_round : (n : ℕ) → split_loop (suc n) (13 ∷ 10 ∷ []) (10 ∷ []) ≡ throws
unfolding split_loop split_at find_first_of substr
second_round n = refl

first_round :
    (n : ℕ) (xs : Bytes)
    → Without 13 xs
    → Without 10 xs
    → split_loop (suc (suc n)) (13 ∷ 10 ∷ []) (xs ++ (10 ∷ 13 ∷ 10 ∷ [])) ≡ throws
unfolding split_loop split_at
first_round n xs w v =
    let tmp = xs ++ (10 ∷ 13 ∷ 10 ∷ []) in
    let l : length tmp ≡ length xs + 3 = length-append xs (10 ∷ 13 ∷ 10 ∷ []) in
    let e : tmp ≡ (xs ++ (10 ∷ 13 ∷ [])) ++ (10 ∷ []) =
      sym (append_assoc xs (10 ∷ 13 ∷ []) (10 ∷ [])) in
    ap (split_at (13 ∷ 10 ∷ []) tmp (split_loop (suc n) (13 ∷ 10 ∷ [])))
      (find_first_of-line xs (13 ∷ 10 ∷ []) w v)
    ∙ rw (substr-at tmp [] xs (10 ∷ 13 ∷ 10 ∷ []) 0 (length xs) refl refl refl) (
        rw
          (substr-at tmp (xs ++ (10 ∷ 13 ∷ [])) (10 ∷ []) [] (length xs + 2)
            (length tmp - length xs - 2) e (sym (length-append xs (10 ∷ 13 ∷ [])))
            (omega (arith, l)))
          (ap (λ o. o >>= λ ps. ok (keep xs ps)) (second_round n)))

Without-last : (q : Bytes) (y c : ℕ) → Without c (q ++ (y ∷ [])) → y ≢ c
Without-last [] y c (n, w) = n
Without-last (x ∷ q) y c (n, w) = Without-last q y c w

-- The text ends with "\n" but not with "\r\n".
with_end-line :
    (s q : Bytes) (y : ℕ)
    → s ≡ q ++ (y ∷ 10 ∷ [])
    → y ≢ 13
    → with_end s (13 ∷ 10 ∷ []) ≡ ok (s ++ (13 ∷ 10 ∷ []))
unfolding with_end ending
with_end-line s q y e n =
    let l : length s ≡ length q + 2 = ap length e ∙ length-append q (y ∷ 10 ∷ []) in
    rw (le→ltb (length s) 2 (omega (arith, l))) (
      rw (substr-at s q (y ∷ 10 ∷ []) [] (length s - 2) 2 e (omega (arith, l)) refl)
        (rw (differs y n) refl))
  where
    differs : (y : ℕ) → y ≢ 13 → (y == 13) ≡ false
    differs y n = ground arith

-- A text of at least one byte without line ends and "\n" behind it makes SplitStrToVector on "\r\n"
-- throw std::out_of_range.
pub split_str_to_vector_throws :
    (x : ℕ) (xs : Bytes)
    → Without 13 (x ∷ xs)
    → Without 10 (x ∷ xs)
    → split_str_to_vector (x ∷ (xs ++ (10 ∷ []))) (13 ∷ 10 ∷ []) ≡ throws
unfolding split_str_to_vector
split_str_to_vector_throws x xs w v =
    let (q, y, e) = last_byte x xs in
    let s = x ∷ (xs ++ (10 ∷ [])) in
    let e' : s ≡ q ++ (y ∷ 10 ∷ []) =
      ap (λ r. r ++ (10 ∷ [])) e ∙ append_assoc q (y ∷ []) (10 ∷ []) in
    let regroup : s ++ (13 ∷ 10 ∷ []) ≡ (x ∷ xs) ++ (10 ∷ 13 ∷ 10 ∷ []) =
      append_assoc (x ∷ xs) (10 ∷ []) (13 ∷ 10 ∷ []) in
    let l : length ((x ∷ xs) ++ (10 ∷ 13 ∷ 10 ∷ [])) ≡ suc (suc (length xs + 2)) =
      omega (arith, length-append (x ∷ xs) (10 ∷ 13 ∷ 10 ∷ [])) in
    let go = λ (t : Bytes). split_loop (length t) (13 ∷ 10 ∷ []) t in
    ap (λ o. o >>= go) (with_end-line s q y e' (Without-last q y 13 (subst (Without 13) e w)))
    ∙ ap go regroup
    ∙ ap (λ n. split_loop n (13 ∷ 10 ∷ []) ((x ∷ xs) ++ (10 ∷ 13 ∷ 10 ∷ []))) l
    ∙ first_round (length xs + 2) (x ∷ xs) w v
