-- ===== src/Prelude/Indexing.antt =====
-- Lists read and written at an index.
use Prim.Native.Nat.{ℕ, zero, suc, ◌<◌}
use mathlib.Core.Path.{◌≡◌, refl, ap}
use mathlib.Core.Logic.{◌≢◌, ◌⊎◌, inl, inr}
use mathlib.Core.List.{List, [], ◌∷◌, ◌++◌}
use mathlib.Core.Option.{some}
use native.Mathlib.Omega.{arith}
use tirpc.Prelude.Lists.{length, get_elem?, set}

pub get_elem?-new :
    {A : Type 0} (xs : List A) (x : A) (i : ℕ) (y : A)
    → get_elem? xs i ≡ some y
    → get_elem? (xs ++ (x ∷ [])) i ≡ some y
get_elem?-new [] x i y h = ground arith
get_elem?-new (z ∷ xs) x zero y h = h
get_elem?-new (z ∷ xs) x (suc i) y h = get_elem?-new xs x i y h

pub get_elem?_bound :
    {A : Type 0} (xs : List A) (i : ℕ) (y : A) → get_elem? xs i ≡ some y → i < length xs
get_elem?_bound [] i y h = ground arith
get_elem?_bound (x ∷ xs) zero y h = omega arith
get_elem?_bound (x ∷ xs) (suc i) y h = let rest = get_elem?_bound xs i y h in omega arith

-- What stands in a list behind a write.
pub get_elem?-set :
    {A : Type 0} (xs : List A) (i : ℕ) (v : A) (k : ℕ) (w : A)
    → get_elem? (set xs i v) k ≡ some w
    → ((k ≡ i) × (w ≡ v)) ⊎ ((k ≢ i) × (get_elem? xs k ≡ some w))
get_elem?-set [] i v k w h = ground arith
get_elem?-set (x ∷ xs) zero v zero w h = inl (refl, ground arith)
get_elem?-set (x ∷ xs) zero v (suc k) w h = inr (omega arith, h)
get_elem?-set (x ∷ xs) (suc i) v zero w h = inr (omega arith, h)
get_elem?-set (x ∷ xs) (suc i) v (suc k) w h = elim (get_elem?-set xs i v k w h) [
  | inl (e, f) ↦ inl (ap suc e, f)
  | inr (e, f) ↦ inr (omega arith, f)
]

pub get_elem?_in :
    {A : Type 0} (xs : List A) (i : ℕ) → i < length xs → (x : A) × get_elem? xs i ≡ some x
get_elem?_in [] i h = ground arith
get_elem?_in (x ∷ xs) zero h = (x, refl)
get_elem?_in (x ∷ xs) (suc i) h = get_elem?_in xs i (omega arith)
