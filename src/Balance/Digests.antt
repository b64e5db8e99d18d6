-- ===== src/Balance/Digests.antt =====
-- Digests that are too short.
use tirpc.Balance.{word_bytes, gen_digest, hash}
use tirpc.Prelude.{
  ℕ, zero, suc, ◌+◌, ◌*◌, ◌/◌, ◌≤◌, ◌<◌, ◌≡◌, refl, ◌⊎◌, inl, inr, Bool-cases, [], ◌∷◌, ◌++◌, none,
  ◌==◌, pos, fault, Bytes, byte_at, length, length-append, get_elem?, arith,
}

-- A number of at most `k` bytes.
abbrev Below : ℕ → ℕ → Type 0
Below zero n = n ≡ 0
Below (suc k) n = Below k (n / 256)

length-word_bytes : (rounds k n : ℕ) → Below k n → length (word_bytes rounds n) ≤ k
unfolding word_bytes
length-word_bytes zero k n h = omega arith
length-word_bytes (suc rounds) zero n h = rw h (omega arith)
length-word_bytes (suc rounds) (suc k) n h = elim (Bool-cases (n == 0)) [
  | inl z ↦ rw z (omega arith)
  | inr more ↦ rw more (omega (arith, length-word_bytes rounds k (n / 256) h))
]

length-word_bytes_rounds : (rounds n : ℕ) → length (word_bytes rounds n) ≤ rounds
unfolding word_bytes
length-word_bytes_rounds zero n = omega arith
length-word_bytes_rounds (suc rounds) n = elim (Bool-cases (n == 0)) [
  | inl z ↦ rw z (omega arith)
  | inr more ↦ rw more (omega (arith, length-word_bytes_rounds rounds (n / 256)))
]

short_word : (n : ℕ) → n < 16_777_216 → length (word_bytes 4 n) ≤ 3
short_word n h = length-word_bytes 4 3 n (omega arith)

get_elem?-beyond : (xs : Bytes) (i : ℕ) → length xs ≤ i → get_elem? xs i ≡ none
get_elem?-beyond [] i h = refl
get_elem?-beyond (x ∷ xs) zero h = absurd (omega arith)
get_elem?-beyond (x ∷ xs) (suc i) h = get_elem?-beyond xs i (omega arith)

one_short :
    (a b c d : ℕ)
    → (a < 16_777_216) ⊎ ((b < 16_777_216) ⊎ ((c < 16_777_216) ⊎ (d < 16_777_216)))
    → length (word_bytes 4 a)
        + (length (word_bytes 4 b) + (length (word_bytes 4 c) + length (word_bytes 4 d)))
      ≤ 15
one_short a b c d (inl h) = omega (
  arith,
  short_word a h,
  length-word_bytes_rounds 4 b,
  length-word_bytes_rounds 4 c,
  length-word_bytes_rounds 4 d,
)
one_short a b c d (inr (inl h)) = omega (
  arith,
  length-word_bytes_rounds 4 a,
  short_word b h,
  length-word_bytes_rounds 4 c,
  length-word_bytes_rounds 4 d,
)
one_short a b c d (inr (inr (inl h))) = omega (
  arith,
  length-word_bytes_rounds 4 a,
  length-word_bytes_rounds 4 b,
  short_word c h,
  length-word_bytes_rounds 4 d,
)
one_short a b c d (inr (inr (inr h))) = omega (
  arith,
  length-word_bytes_rounds 4 a,
  length-word_bytes_rounds 4 b,
  length-word_bytes_rounds 4 c,
  short_word d h,
)

length-gen_digest :
    (a b c d : ℕ)
    → length (gen_digest a b c d)
      ≡ length (word_bytes 4 a)
        + (length (word_bytes 4 b) + (length (word_bytes 4 c) + length (word_bytes 4 d)))
unfolding gen_digest
length-gen_digest a b c d = omega (
  arith,
  length-append (word_bytes 4 a) (word_bytes 4 b ++ (word_bytes 4 c ++ word_bytes 4 d)),
  length-append (word_bytes 4 b) (word_bytes 4 c ++ word_bytes 4 d),
  length-append (word_bytes 4 c) (word_bytes 4 d),
)

byte_at-beyond : (xs : Bytes) (i : ℕ) → length xs ≤ i → byte_at xs (pos i) ≡ fault
unfolding byte_at
byte_at-beyond xs i h = rw (get_elem?-beyond xs i h, byte_at) refl

hash-beyond : (xs : Bytes) (number : ℕ) → length xs ≤ 3 + number * 4 → hash xs number ≡ fault
unfolding hash
hash-beyond xs number h = rw (byte_at-beyond xs (3 + number * 4) h, hash) refl

-- Where one word of the state is below 2 ^ 24, the digest has less than 16 bytes, and the hash of its
-- last four reads outside of it.
pub hash_short :
    (a b c d : ℕ)
    → (a < 16_777_216) ⊎ ((b < 16_777_216) ⊎ ((c < 16_777_216) ⊎ (d < 16_777_216)))
    → hash (gen_digest a b c d) 3 ≡ fault
hash_short a b c d h =
    hash-beyond (gen_digest a b c d) 3
      (omega (arith, length-gen_digest a b c d, one_short a b c d h))
