-- ===== src/Coroutine/Pool/Finding.antt =====
-- The search for a free coroutine.
use tirpc.Coroutine.Pool.{Pool, find_free}
use tirpc.Coroutine.Switch.{Coroutine, Thread, deref}
use tirpc.Prelude.{
  ℕ, suc, ◌+◌, Bool, true, false, not, ◌&&◌, List, [], ◌∷◌, Option, none, some, if◌then◌else◌,
  get_elem?, Outcome, ok, fault, ◌>>=◌, ◌≡◌, refl, ap, ◌∙◌, arith,
}

-- The search ends at the index of a coroutine that is not in its function and not used.
abbrev pub Finds : Pool → Thread → ℕ → List (ℕ × Bool) → Option (ℕ × ℕ) → Type 0
Finds pool t i cors none = Unit
Finds pool t i cors (some (j, p)) = (k : ℕ) × (j ≡ i + k) × (get_elem? cors k ≡ some (p, false))

found-Finds :
    (pool : Pool) (t : Thread) (busy used : Bool) (p : ℕ) (cors : List (ℕ × Bool)) (i : ℕ)
    (rest : Outcome (Option (ℕ × ℕ)))
    → ((o : Option (ℕ × ℕ)) × (rest ≡ ok o) × Finds pool t (i + 1) cors o)
    → (o : Option (ℕ × ℕ)) × ((if not busy && not used then ok (some (i, p)) else rest) ≡ ok o)
      × Finds pool t i ((p, used) ∷ cors) o
found-Finds pool t false false p cors i rest h = (some (i, p), refl, (0, omega arith, refl))
found-Finds pool t false true p cors i rest (none, e, f) = (none, e, tt)
found-Finds pool t false true p cors i rest (some (j, q), e, (k, f, g)) =
    (some (j, q), e, (suc k, omega arith, g))
found-Finds pool t true used p cors i rest (none, e, f) = (none, e, tt)
found-Finds pool t true used p cors i rest (some (j, q), e, (k, f, g)) =
    (some (j, q), e, (suc k, omega arith, g))

pub find_free-Finds :
    (pool : Pool) (t : Thread) (cors : List (ℕ × Bool)) (i : ℕ)
    → ((k p : ℕ) (used : Bool)
        → get_elem? cors k ≡ some (p, used)
        → (co : Coroutine) × get_elem? t.cors p ≡ some co)
    → (o : Option (ℕ × ℕ)) × (find_free cors i t ≡ ok o) × Finds pool t i cors o
unfolding find_free deref
find_free-Finds pool t [] i h = (none, refl, tt)
find_free-Finds pool t ((p, used) ∷ cors) i h =
    let (co, e) = h 0 p used refl in
    let (o, f, g) =
      found-Finds pool t co.is_in_cofunc used p cors i (find_free cors (i + 1) t)
        (find_free-Finds pool t cors (i + 1) (λ k. h (suc k))) in
    (
      o,
      ap
            (λ c.
              elim c as (λ o'. Outcome Coroutine) [ none ↦ fault | some co' ↦ ok co' ] >>= λ co'.
              if not co'.is_in_cofunc && not used
              then ok (some (i, p))
              else find_free cors (i + 1) t)
            e
          ∙ f,
      g,
    )
