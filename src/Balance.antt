-- ===== src/Balance.antt =====
-- net/tcp/load_balance.hpp: the choice of an address, and the digest of common/md5.cpp that it hashes.
-- The words of the state of MD5 are arguments.
pub mod Digests
pub mod Selectors
use tirpc.Prelude.{
  ℕ, zero, suc, ◌+◌, ◌*◌, ◌/◌, ◌%◌, List, [], ◌∷◌, ◌++◌, Option, none, some, ◌==◌, leb,
  if◌then◌else◌, pos, Outcome, ok, fault, ◌>>=◌, Bytes, byte_at, length, get_elem?,
}

-- while (n != 0) { result.push_back(n & 0xFF); n >>= 8; }, in at most `rounds` rounds; a word has four bytes.
unfoldable pub word_bytes : ℕ → ℕ → Bytes
word_bytes zero n = []
word_bytes (suc rounds) n =
    let rest = word_bytes rounds (n / 256) in if n == 0 then [] else (n % 256) ∷ rest

unfoldable pub gen_digest : ℕ → ℕ → ℕ → ℕ → Bytes
unfolding word_bytes
gen_digest a b c d = word_bytes 4 a ++ (word_bytes 4 b ++ (word_bytes 4 c ++ word_bytes 4 d))

-- ConsistentHashSelector::hash
unfoldable pub hash : Bytes → ℕ → Outcome ℕ
hash digest number = byte_at digest (pos (3 + number * 4)) >>= λ b3.
    byte_at digest (pos (2 + number * 4)) >>= λ b2. byte_at digest (pos (1 + number * 4)) >>= λ b1.
    byte_at digest (pos (number * 4)) >>= λ b0. ok (b3 * 16_777_216 + b2 * 65_536 + b1 * 256 + b0)

module _ {A : Type 0} where
  abbrev pub first_of : List (ℕ × A) → Outcome A
  first_of [] = fault
  first_of ((k, a) ∷ m) = ok a

  -- The first entry whose key is not below the code, of a map in the order of its keys.
  unfoldable pub lower_bound : ℕ → List (ℕ × A) → List (ℕ × A)
  lower_bound code [] = []
  lower_bound code ((k, a) ∷ m) =
      let rest = lower_bound code m in if leb code k then (k, a) ∷ m else rest

  -- selectForKey goes round to the first entry behind the last one.
  unfoldable pub select_for_key : ℕ → List (ℕ × A) → Outcome A
  unfolding lower_bound
  select_for_key code m = elim (lower_bound code m) [ [] ↦ first_of m | e ∷ rest ↦ ok e.1 ]

  -- RoundLoadBalanceStrategy::select, with index_ before and after.
  unfoldable pub round_select : ℕ → List A → Outcome (A × ℕ)
  round_select index addrs =
      let i = if leb (length addrs) index then 0 else index in
      elim (get_elem? addrs i) [ none ↦ fault | some a ↦ ok (a, i + 1) ]
