-- ===== src/Tests/ConfigTests.antt =====
-- A file with one section, whose nodes are numbers: the root, the section and its scalar.
use tirpc.Config.{ConfigVar, lookup_base, load_from_yaml, list_all_member, is_valid_name}
use tirpc.Config.Loading.{AllBelow, Becomes, last_value, texts_for, load_from_yaml-Becomes}
use tirpc.Prelude.{
  ℕ, zero, suc, ◌==◌, ==_iff, Bool, true, false, List, [], ◌∷◌, Option, none, some, Bytes, codes,
  ◌≡◌, refl, arith,
}

abbrev is_map : ℕ → Bool
is_map zero = true
is_map (suc zero) = true
is_map (suc (suc n)) = false

abbrev entries : ℕ → List (Bytes × ℕ)
entries zero = (codes "log", 1) ∷ []
entries (suc zero) = (codes "max", 2) ∷ []
entries (suc (suc n)) = []

abbrev height : ℕ → ℕ
height zero = 2
height (suc zero) = 1
height (suc (suc n)) = 0

falling : (n : ℕ) → AllBelow height (height n) (entries n)
falling zero = (omega arith, tt)
falling (suc zero) = (omega arith, tt)
falling (suc (suc n)) = tt

abbrev text_of : ℕ → Bytes
text_of n = 55 ∷ []

-- One digit.
abbrev digit : ℕ → Bytes → Option ℕ
digit kind [] = none
digit kind (c ∷ []) = some c
digit kind (c ∷ d ∷ s) = none

abbrev size : ConfigVar ℕ
size = record { name = codes "log.max"; desc = []; kind = 0; value = 5; cbs = []; notified = [] }

load_from_yaml-Becomes_example :
    Becomes ◌==◌ digit text_of size
      (last_value
        (digit 0)
        (texts_for text_of (codes "log.max") (list_all_member is_map entries 3 [] 0))
        5)
      (lookup_base
        (codes "log.max")
        (load_from_yaml ◌==◌ digit text_of is_map entries 4 0 ((codes "log.max", size) ∷ [])))
unfolding lookup_base
load_from_yaml-Becomes_example =
    load_from_yaml-Becomes ◌==◌ digit text_of is_map entries height (λ v w. (==_iff v w).0) falling
      4 0 (codes "log.max") ((codes "log.max", size) ∷ []) size (omega arith) refl

-- The text of the file is found.
found : texts_for text_of (codes "log.max") (list_all_member is_map entries 3 [] 0) ≡ (55 ∷ []) ∷ []
unfolding list_all_member is_valid_name
found = refl
