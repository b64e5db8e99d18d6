-- ===== src/StringUtil/Searches.antt =====
-- Searches and pieces of texts whose parts are known.
use tirpc.Prelude.{
  ℕ, ◌+◌, ◌≡◌, ◌≢◌, refl, sym, ap, ◌∙◌, true, false, [], ◌∷◌, ◌++◌, none, some, ◌==◌, ==_iff,
  le→ltb, Bytes, ok, arith, length, take, drop, length-append, take-append, drop-append, next,
  find_first_of, find_last_of, find, starts_with, substr, substr_from,
}

-- The byte does not stand in the text.
abbrev pub Without : ℕ → Bytes → Type 0
Without c [] = Unit
Without c (x ∷ xs) = (x ≢ c) × Without c xs

same_byte : (c : ℕ) → (c == c) ≡ true
same_byte c = (==_iff c c).1 refl

pub other_byte : (x c : ℕ) → x ≢ c → (x == c) ≡ false
other_byte x c h = ground arith

pub find_first_of-at :
    (c : ℕ) (xs ys : Bytes)
    → Without c xs
    → find_first_of (c ∷ []) (xs ++ (c ∷ ys)) ≡ some (length xs)
unfolding find_first_of
find_first_of-at c [] ys w = rw (same_byte c) refl
find_first_of-at c (x ∷ xs) ys (h, w) = rw (other_byte x c h) (ap next (find_first_of-at c xs ys w))

pub find_first_of-none : (c : ℕ) (xs : Bytes) → Without c xs → find_first_of (c ∷ []) xs ≡ none
unfolding find_first_of
find_first_of-none c [] w = refl
find_first_of-none c (x ∷ xs) (h, w) = rw (other_byte x c h) (ap next (find_first_of-none c xs w))

find_last_of-none : (c : ℕ) (xs : Bytes) → Without c xs → find_last_of (c ∷ []) xs ≡ none
unfolding find_last_of
find_last_of-none c [] w = refl
find_last_of-none c (x ∷ xs) (h, w) = rw (find_last_of-none c xs w) (rw (other_byte x c h) refl)

pub find_last_of-at :
    (c : ℕ) (xs ys : Bytes)
    → Without c ys
    → find_last_of (c ∷ []) (xs ++ (c ∷ ys)) ≡ some (length xs)
unfolding find_last_of
find_last_of-at c [] ys w = rw (find_last_of-none c ys w) (rw (same_byte c) refl)
find_last_of-at c (x ∷ xs) ys w = rw (find_last_of-at c xs ys w) refl

pub find_crlf :
    (xs ys : Bytes) → Without 13 xs → find (13 ∷ 10 ∷ []) (xs ++ (13 ∷ 10 ∷ ys)) ≡ some (length xs)
unfolding find starts_with
find_crlf [] ys w = refl
find_crlf (x ∷ xs) ys (h, w) = rw (other_byte 13 x (λ e. h (sym e))) (ap next (find_crlf xs ys w))

pub substr-at :
    (s xs ys zs : Bytes) (p n : ℕ)
    → s ≡ xs ++ (ys ++ zs)
    → p ≡ length xs
    → n ≡ length ys
    → substr s p n ≡ ok ys
unfolding substr
substr-at s xs ys zs p n e h k =
    let room : length s ≡ length xs + length (ys ++ zs) =
      ap length e ∙ length-append xs (ys ++ zs) in
    let e' : drop p s ≡ ys ++ zs = ap (drop p) e ∙ drop-append p xs (ys ++ zs) h in
    rw (le→ltb (length s) p (omega (arith, room))) (ap ok (ap (take n) e' ∙ take-append n ys zs k))

pub substr_from-at :
    (s xs ys : Bytes) (p : ℕ) → s ≡ xs ++ ys → p ≡ length xs → substr_from s p ≡ ok ys
unfolding substr_from
substr_from-at s xs ys p e h =
    let room : length s ≡ length xs + length ys = ap length e ∙ length-append xs ys in
    rw (le→ltb (length s) p (omega (arith, room))) (ap ok (ap (drop p) e ∙ drop-append p xs ys h))
