-- ===== src/TimeWheel/Lifetime.antt =====
-- How long a connection lives that is not refreshed.
use tirpc.TimeWheel.{add_back, fresh, loop_func, contains, held, Event, freshes, ticks, event, run}
use tirpc.Prelude.{
  ℕ, zero, suc, ◌≤◌, ◌<◌, ◌≡◌, ◌≢◌, refl, sym, ap, ◌∙◌, Bool, true, false, ◌||◌, List, [], ◌∷◌,
  ◌++◌, ◌==◌, ==_iff, ltb, lt→ltb, le→ltb, ok, ◌>>=◌, length, drop, drop_all, arith, length-append,
}
use native.Mathlib.Decide.{dec_lt}

-- The calls of LoopFunc in a sequence.
abbrev pub tick_count : List Event → ℕ
tick_count [] = 0
tick_count (freshes s ∷ es) = tick_count es
tick_count (ticks ∷ es) = suc (tick_count es)

abbrev pub Unfreshed : ℕ → List Event → Type 0
Unfreshed s [] = Unit
Unfreshed s (freshes t ∷ es) = (s ≢ t) × Unfreshed s es
Unfreshed s (ticks ∷ es) = Unfreshed s es

differs : (m n : ℕ) → m ≢ n → (m == n) ≡ false
differs m n h = ground arith

or_true : (b : Bool) → (b || true) ≡ true
or_true true = refl
or_true false = refl

contains-append : (s t : ℕ) (b : List ℕ) → s ≢ t → contains s (b ++ (t ∷ [])) ≡ contains s b
contains-append s t [] h = rw (differs s t h) refl
contains-append s t (x ∷ b) h = ap (λ r. (s == x) || r) (contains-append s t b h)

contains_last : (s : ℕ) (b : List ℕ) → contains s (b ++ (s ∷ [])) ≡ true
contains_last s [] = rw ((==_iff s s).1 refl) refl
contains_last s (x ∷ b) = rw (contains_last s b) (or_true (s == x))

held-other :
    (s t k : ℕ) (b : List ℕ) (w : List (List ℕ))
    → s ≢ t
    → held s (drop k (add_back t b w)) ≡ held s (drop k (b ∷ w))
unfolding add_back
held-other s t zero b [] h = rw (contains-append s t b h) refl
held-other s t (suc zero) b [] h = refl
held-other s t (suc (suc k)) b [] h = refl
held-other s t zero b (c ∷ w) h = ap (λ r. contains s b || r) (held-other s t zero c w h)
held-other s t (suc k) b (c ∷ w) h = held-other s t k c w h

held-add_back :
    (s k : ℕ) (b : List ℕ) (w : List (List ℕ))
    → k ≤ length w
    → held s (drop k (add_back s b w)) ≡ true
unfolding add_back
held-add_back s zero b [] h = rw (contains_last s b) refl
held-add_back s (suc k) b [] h = (let f : ⊥ = omega arith in elim f [ ])
held-add_back s zero b (c ∷ w) h =
    rw (held-add_back s zero c w (omega arith)) (or_true (contains s b))
held-add_back s (suc k) b (c ∷ w) h = held-add_back s k c w (omega arith)

held-tick : (s k : ℕ) (w : List (List ℕ)) → held s (drop k (w ++ ([] ∷ []))) ≡ held s (drop k w)
held-tick s zero [] = refl
held-tick s (suc zero) [] = refl
held-tick s (suc (suc k)) [] = refl
held-tick s zero (b ∷ w) = ap (λ r. contains s b || r) (held-tick s zero w)
held-tick s (suc k) (b ∷ w) = held-tick s k w

length-add_back :
    (t : ℕ) (b : List ℕ) (w : List (List ℕ)) → length (add_back t b w) ≡ suc (length w)
unfolding add_back
length-add_back t b [] = refl
length-add_back t b (c ∷ w) = ap suc (length-add_back t c w)

-- The sequence succeeds, and the wheel then holds `s` where the buckets held it that are left.
unfoldable Leaves : ℕ → List Event → List (List ℕ) → Type 0
Leaves s es w =
    (w' : List (List ℕ)) × (run es w ≡ ok w') × (held s w' ≡ held s (drop (tick_count es) w))

run-held :
    (s : ℕ) (es : List Event) (w : List (List ℕ)) → Unfreshed s es → 0 < length w → Leaves s es w
unfolding run event fresh loop_func Leaves
run-held s [] w u h = (w, refl, refl)
run-held s (e ∷ es) [] u h = (let f : ⊥ = omega arith in elim f [ ])
run-held s (freshes t ∷ es) (b ∷ w) (n, u) h =
    let (w', e, e') = run-held s es (add_back t b w) u (omega (arith, length-add_back t b w)) in
    (w', e, e' ∙ held-other s t (tick_count es) b w n)
run-held s (ticks ∷ es) (b ∷ w) u h =
    let (w', e, e') = run-held s es (w ++ ([] ∷ [])) u (omega (arith, length-append w ([] ∷ []))) in
    (w', e, e' ∙ held-tick s (tick_count es) w)

held-fresh :
    (s k : ℕ) (b : List ℕ) (w : List (List ℕ))
    → held s (drop k (add_back s b w)) ≡ ltb k (suc (length w))
held-fresh s k b w = elim (dec_lt k (suc (length w))) [
  | yes l ↦ held-add_back s k b w (omega arith) ∙ sym (lt→ltb k _ l)
  | no l ↦
      rw (drop_all k (add_back s b w) (omega (arith, length-add_back s b w)))
        (sym (le→ltb k (suc (length w)) (omega arith)))
]

-- What becomes of a slot that is refreshed and then left alone.
abbrev pub Lives : ℕ → List Event → List (List ℕ) → Type 0
Lives s es w =
    (w' : List (List ℕ)) × ((fresh s w >>= run es) ≡ ok w')
    × (held s w' ≡ ltb (tick_count es) (length w))

-- On a wheel with a bucket, a slot that Fresh has just put in, and any sequence of calls of LoopFunc
-- and of Fresh for other slots, without undefined behaviour, leave a wheel that holds the slot
-- exactly if LoopFunc was called fewer times than there are buckets.
pub fresh-Lives :
    (s : ℕ) (es : List Event) (w : List (List ℕ)) → Unfreshed s es → 0 < length w → Lives s es w
unfolding fresh Leaves
fresh-Lives s es [] u h = (let f : ⊥ = omega arith in elim f [ ])
fresh-Lives s es (b ∷ w) u h =
    let (w', e, e') = run-held s es (add_back s b w) u (omega (arith, length-add_back s b w)) in
    (w', e, e' ∙ held-fresh s (tick_count es) b w)
