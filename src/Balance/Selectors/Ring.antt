-- ===== src/Balance/Selectors/Ring.antt =====
-- The virtual nodes of a selector, and which of them a code is given.
use tirpc.Balance.{lower_bound, select_for_key}
use tirpc.Balance.Selectors.{Selector, through_int, add_groups, add_invokers, new_selector}
use tirpc.Prelude.{
  ℕ, ◌%◌, ◌<◌, ◌≤◌, List, [], ◌∷◌, ◌++◌, if_true, if_false, ltb, leb, Bytes, Outcome, ok, ◌≡◌, ◌↔◌,
  ◌⊎◌, refl, ap, ◌∙◌, subst, arith, Bool-cases, inl, inr,
}
use tirpc.Balance.Selectors.Building.{
  bind_ok, ok_eq, EachBelow, IsRing, HasNode, add_groups-Keeps, add_groups-HasNode,
  add_invokers-Keeps,
}

-- The node `(k, a)` stands in the ring at the first key that is not below the code or, where all keys are
-- below it, in front.
abbrev pub Nearest : ℕ → List (ℕ × Bytes) → Bytes → Type 0
Nearest code nodes a =
    (before after : List (ℕ × Bytes)) × (k : ℕ) × (nodes ≡ before ++ ((k, a) ∷ after))
    × (((code ≤ k) × EachBelow code before) ⊎ ((before ≡ []) × EachBelow code nodes))

abbrev Found : ℕ → List (ℕ × Bytes) → Type 0
Found code nodes =
    (EachBelow code nodes × (lower_bound code nodes ≡ []))
    ⊎ ((before after : List (ℕ × Bytes)) × (k : ℕ) × (a : Bytes) × (nodes
          ≡ before ++ ((k, a) ∷ after))
        × (code ≤ k)
        × EachBelow code before
        × (lower_bound code nodes ≡ (k, a) ∷ after))

lower_bound-Found : (code : ℕ) (nodes : List (ℕ × Bytes)) → Found code nodes
unfolding lower_bound
lower_bound-Found code [] = inl (tt, refl)
lower_bound-Found code ((k, a) ∷ nodes) = elim (Bool-cases (leb code k)) [
  | inl e ↦ inr (
    [],
    nodes,
    k,
    a,
    refl,
    ground arith,
    tt,
    if_true (leb code k) ((k, a) ∷ nodes) (lower_bound code nodes) e,
  )
  | inr e ↦
      let step = if_false (leb code k) ((k, a) ∷ nodes) (lower_bound code nodes) e in
      let l : k < code = ground arith in
      elim (lower_bound-Found code nodes) [
        | inl (b, f) ↦ inl ((l, b), step ∙ f)
        | inr (before, after, j, c, f, g, b, h) ↦
            inr ((k, a) ∷ before, after, j, c, ap (λ m. (k, a) ∷ m) f, g, (l, b), step ∙ h)
      ]
]

select_for_key-Nearest :
    (code : ℕ) (nodes : List (ℕ × Bytes))
    → HasNode nodes
    → (a : Bytes) × (select_for_key code nodes ≡ ok a) × Nearest code nodes a
unfolding select_for_key
select_for_key-Nearest code [] h = elim h [ ]
select_for_key-Nearest code ((k, a) ∷ nodes) h =
    let pick : List (ℕ × Bytes) → Outcome Bytes =
      λ l. elim l as (λ l'. Outcome Bytes) [ [] ↦ ok a | e ∷ rest ↦ ok e.1 ] in
    elim (lower_bound-Found code ((k, a) ∷ nodes)) [
      | inl (b, e) ↦ (a, ap pick e, ([], nodes, k, refl, inr (refl, b)))
      | inr (before, after, j, c, f, g, b, e) ↦ (c, ap pick e, (before, after, j, f, inl (g, b)))
    ]

-- A selector that is built from at least one address with 160 replicas each: its keys rise, its nodes stand
-- for some of the addresses, and for any code an address is selected, that of the first node whose key is
-- not below the code or, where there is none, that of the first node of all.
pub new_selector-Nearest :
    (md5 : Bytes → Bytes) (std_hash : Bytes → ℕ) (first : Bytes) (more : List Bytes)
    (identity code : ℕ) (s : Selector)
    → new_selector md5 std_hash (first ∷ more) 160 identity ≡ ok s
    → IsRing (first ∷ more) s.virtual_invokers
      × ((a : Bytes) × (select_for_key code s.virtual_invokers ≡ ok a)
          × Nearest code s.virtual_invokers a)
unfolding new_selector add_invokers
new_selector-Nearest md5 std_hash first more identity code s e =
    let addrs = first ∷ more in
    let (nodes, f, g) =
      bind_ok (add_invokers md5 std_hash 160 addrs [])
        (λ m. ok (record { virtual_invokers = m; identity_hash_code = through_int identity })) s
        e in
    let same : nodes ≡ s.virtual_invokers = ap (λ t. t.virtual_invokers) (ok_eq _ s g) in
    let (mid, f', g') =
      bind_ok (add_groups md5 std_hash 40 0 first []) (add_invokers md5 std_hash 160 more) nodes
        f in
    let (r, t) = add_invokers-Keeps md5 std_hash addrs 160 more mid nodes (λ b i. inr i) g' in
    let some_node = t (add_groups-HasNode md5 std_hash addrs 39 0 first [] mid (inl refl) f') in
    let ring = r ((add_groups-Keeps md5 std_hash addrs 40 0 first [] mid (inl refl) f').0 tt) in
    (
      subst (IsRing addrs) same ring,
      select_for_key-Nearest code s.virtual_invokers (subst HasNode same some_node),
    )

-- A hash of 64 bits that goes through an `int` stays itself exactly where it is below 2 ^ 31 or at least
-- 2 ^ 64 - 2 ^ 31: a selector that was built under another one is not found again.
through_int-same :
    (h : ℕ)
    → h < 18_446_744_073_709_551_616
    → (through_int h ≡ h) ↔ ((h < 2_147_483_648) ⊎ (18_446_744_071_562_067_968 ≤ h))
unfolding through_int
through_int-same h l = elim (Bool-cases (ltb (h % 4_294_967_296) 2_147_483_648)) [
  | inl e ↦ rw e (ground arith)
  | inr e ↦ rw e (ground arith)
]
