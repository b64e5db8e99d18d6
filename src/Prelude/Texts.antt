-- ===== src/Prelude/Texts.antt =====
-- std::string, as the list of its bytes.
use Prim.Native.Char.{code}
use Prim.Native.String.{String}
use Prim.Native.Nat.{ℕ, zero, suc, ◌+◌, ◌-◌, ◌/◌, ◌%◌}
use mathlib.Core.Bool.{Bool, true, false, ◌&&◌, ◌||◌}
use mathlib.Core.List.{List, [], ◌∷◌, ◌++◌}
use mathlib.Core.Option.{Option, none, some}
use tirpc.Prelude.Lists.{length, take, drop}
use tirpc.Prelude.Memory.{Bytes}
use tirpc.Prelude.Results.{Outcome, ok, throws}
use tirpc.Prelude.Tests.{ltb, leb, ◌==◌, if◌then◌else◌}

-- The bytes of a text in ASCII.
abbrev pub codes : String → Bytes
codes String.[] = []
codes (String.◌∷◌ c s) = code c ∷ codes s

abbrev pub same_text : Bytes → Bytes → Bool
same_text [] [] = true
same_text [] (c ∷ t) = false
same_text (b ∷ s) [] = false
same_text (b ∷ s) (c ∷ t) = b == c && same_text s t

-- operator< of std::string, which orders a std::map.
abbrev pub text_lt : Bytes → Bytes → Bool
text_lt s [] = false
text_lt [] (c ∷ t) = true
text_lt (b ∷ s) (c ∷ t) = ltb b c || (b == c && text_lt s t)

abbrev pub one_of : ℕ → Bytes → Bool
one_of c [] = false
one_of c (x ∷ xs) = c == x || one_of c xs

abbrev pub next : Option ℕ → Option ℕ
next none = none
next (some i) = some (suc i)

-- s.find_first_of(any), where `none` is npos.
unfoldable pub find_first_of : Bytes → Bytes → Option ℕ
find_first_of any [] = none
find_first_of any (c ∷ s) =
    let rest = find_first_of any s in if one_of c any then some 0 else next rest

-- s.find_last_of(any)
unfoldable pub find_last_of : Bytes → Bytes → Option ℕ
find_last_of any [] = none
find_last_of any (c ∷ s) = elim (find_last_of any s) [
  | some i ↦ some (suc i)
  | none ↦ if one_of c any then some 0 else none
]

unfoldable pub starts_with : Bytes → Bytes → Bool
starts_with [] s = true
starts_with (p ∷ ps) [] = false
starts_with (p ∷ ps) (c ∷ s) = p == c && starts_with ps s

-- s.find(pattern), for a pattern that is not empty.
unfoldable pub find : Bytes → Bytes → Option ℕ
unfolding starts_with
find pattern [] = none
find pattern (c ∷ s) =
    let rest = find pattern s in if starts_with pattern (c ∷ s) then some 0 else next rest

-- s.substr(pos, n) throws behind the end of the text, and stops there.
unfoldable pub substr : Bytes → ℕ → ℕ → Outcome Bytes
substr s pos n = if ltb (length s) pos then throws else ok (take n (drop pos s))

-- s.substr(pos)
unfoldable pub substr_from : Bytes → ℕ → Outcome Bytes
substr_from s pos = if ltb (length s) pos then throws else ok (drop pos s)

-- toupper in the C locale.
abbrev pub to_upper : ℕ → ℕ
to_upper c = if leb 97 c && leb c 122 then c - 32 else c

-- std::map<std::string, std::string>, in the order of its keys.
abbrev pub Map : Type 0
Map = List (Bytes × Bytes)

-- m[key], of which the first reading puts in an empty text.
unfoldable pub value_at : Bytes → Map → Bytes
value_at key [] = []
value_at key ((k, v) ∷ m) = if same_text k key then v else value_at key m

-- m[key] = value
unfoldable pub assign : Bytes → Bytes → Map → Map
assign key v [] = (key, v) ∷ []
assign key v ((k, w) ∷ m) =
    let rest = assign key v m in
    if same_text k key
    then (k, v) ∷ m
    else if text_lt key k
    then (key, v) ∷ (k, w) ∷ m
    else (k, w) ∷ rest

-- std::to_string of a number that is not negative.
unfoldable pub digits : ℕ → ℕ → Bytes
digits zero n = []
digits (suc fuel) n =
    let more = digits fuel (n / 10) in
    if ltb n 10 then (n + 48) ∷ [] else more ++ ((n % 10 + 48) ∷ [])

unfoldable pub to_string : ℕ → Bytes
unfolding digits
to_string n = digits (n + 1) n

-- key.c_str(), converted back.
abbrev pub until_zero : Bytes → Bytes
until_zero [] = []
until_zero (c ∷ s) = if c == 0 then [] else c ∷ until_zero s
