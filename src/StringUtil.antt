-- ===== src/StringUtil.antt =====
-- StringUtil of common/util.cpp.
pub mod Searches
pub mod Splitting
pub mod Lines
use tirpc.Prelude.{
  ℕ, zero, suc, ◌+◌, ◌-◌, Bool, true, false, not, ◌&&◌, ◌||◌, List, [], ◌∷◌, ◌++◌, Option, none,
  some, if◌then◌else◌, ltb, ◌==◌, Bytes, Outcome, ok, throws, ◌>>=◌, length, same_text,
  find_first_of, substr, Map, assign, until_zero,
}

abbrev pub is_blank : Bytes → Bool
is_blank [] = true
is_blank (c ∷ s) = false

-- A piece that is not empty is kept.
abbrev pub keep : Bytes → List Bytes → List Bytes
keep [] xs = xs
keep (c ∷ x) xs = (c ∷ x) ∷ xs

-- One round of SplitStrToVector at the place that it has found, with the rounds that follow.
unfoldable pub split_at :
    Bytes → Bytes → (Bytes → Outcome (List Bytes)) → Option ℕ → Outcome (List Bytes)
split_at split_str tmp rest none = ok []
split_at split_str tmp rest (some i) = substr tmp 0 i >>= λ x.
    substr tmp (i + length split_str) (length tmp - i - length split_str) >>= λ tmp'.
    rest tmp' >>= λ xs. ok (keep x xs)

-- The loop, on as many rounds as there are bytes: each round takes some away.
unfoldable pub split_loop : ℕ → Bytes → Bytes → Outcome (List Bytes)
unfolding split_at
split_loop zero split_str tmp = ok []
split_loop (suc n) split_str tmp =
    split_at split_str tmp (split_loop n split_str) (find_first_of split_str tmp)

-- tmp.substr(tmp.length() - split_str.length(), ...) wraps round below 0, and then throws.
unfoldable pub ending : Bytes → Bytes → Outcome Bytes
ending tmp split_str =
    if ltb (length tmp) (length split_str)
    then throws
    else substr tmp (length tmp - length split_str) (length split_str)

unfoldable pub with_end : Bytes → Bytes → Outcome Bytes
unfolding ending
with_end tmp split_str = do
  e ← ending tmp split_str
  ok (if same_text e split_str then tmp else tmp ++ split_str)

-- SplitStrToVector into an empty vector.
unfoldable pub split_str_to_vector : Bytes → Bytes → Outcome (List Bytes)
unfolding with_end split_loop
split_str_to_vector str split_str =
    if is_blank str || is_blank split_str
    then ok []
    else with_end str split_str >>= λ tmp. split_loop (length tmp) split_str tmp

-- One piece into the map.
unfoldable pub put_pair : Bytes → Bytes → Map → Outcome Map
put_pair joiner i res = elim (find_first_of joiner i) [
  | none ↦ ok res
  | some zero ↦ ok res
  | some (suc j) ↦ substr i 0 (suc j) >>= λ key.
      substr i (suc j + length joiner) (length i - suc j - length joiner) >>= λ value.
      ok (assign (until_zero key) value res)
]

unfoldable pub put_pairs : Bytes → List Bytes → Map → Outcome Map
unfolding put_pair
put_pairs joiner [] res = ok res
put_pairs joiner (i ∷ vec) res = put_pair joiner i res >>= put_pairs joiner vec

unfoldable pub split_str_to_map : Bytes → Bytes → Bytes → Map → Outcome Map
unfolding split_str_to_vector put_pairs
split_str_to_map str split_str joiner res =
    if is_blank str || is_blank split_str || is_blank joiner
    then ok res
    else split_str_to_vector str split_str >>= λ vec. put_pairs joiner vec res
