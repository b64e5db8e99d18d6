-- ===== src/Balance/Selectors/Building.antt =====
-- What the constructor of a selector keeps while it adds virtual nodes.
use tirpc.Balance.{hash}
use tirpc.Balance.Selectors.{put_invoker, add_nodes, add_groups, add_invokers}
use tirpc.Prelude.{
  ℕ, zero, suc, ◌+◌, ◌/◌, ◌<◌, List, [], ◌∷◌, ◌++◌, if◌then◌else◌, if_true, if_false, ◌==◌, ==_iff,
  ltb, Bytes, to_string, Outcome, ok, fault, throws, ◌>>=◌, ◌≡◌, ◌⊎◌, refl, sym, ap, ◌∙◌, subst,
  arith, Bool-cases, inl, inr,
}

-- What a call that succeeds has gone through.
pub bind_ok :
    {A B : Type 0} (x : Outcome A) (f : A → Outcome B) (b : B)
    → (x >>= f) ≡ ok b
    → (a : A) × (x ≡ ok a) × (f a ≡ ok b)
bind_ok (ok a) f b h = (a, refl, h)
bind_ok fault f b h = ground arith
bind_ok throws f b h = ground arith

pub ok_eq : {A : Type 0} (a b : A) → ok a ≡ ok b → a ≡ b
ok_eq a b h = ap (λ o. elim o [ ok c ↦ c | fault ↦ a | throws ↦ a ]) h

abbrev pub In : Bytes → List Bytes → Type 0
In a [] = ⊥
In a (b ∷ as') = (a ≡ b) ⊎ In a as'

-- Every key is above `k`.
abbrev pub Above : ℕ → List (ℕ × Bytes) → Type 0
Above k [] = Unit
Above k ((j, b) ∷ nodes) = (k < j) × Above k nodes

abbrev pub EachBelow : ℕ → List (ℕ × Bytes) → Type 0
EachBelow code [] = Unit
EachBelow code ((j, b) ∷ nodes) = (j < code) × EachBelow code nodes

-- The keys rise, and the addresses are some of `addrs`.
abbrev pub IsRing : List Bytes → List (ℕ × Bytes) → Type 0
IsRing addrs [] = Unit
IsRing addrs ((k, a) ∷ nodes) = Above k nodes × In a addrs × IsRing addrs nodes

abbrev pub HasNode : List (ℕ × Bytes) → Type 0
HasNode [] = ⊥
HasNode (e ∷ nodes) = Unit

Above-weaken : (k m : ℕ) (nodes : List (ℕ × Bytes)) → m < k → Above k nodes → Above m nodes
Above-weaken k m [] h a = tt
Above-weaken k m ((j, b) ∷ nodes) h (l, a) = (omega arith, Above-weaken k m nodes h a)

-- The three ways of an assignment to an entry.
if_both_ways :
    (P : List (ℕ × Bytes) → Type 0) (m k : ℕ) (x y z : List (ℕ × Bytes))
    → (k ≡ m → P x)
    → (m < k → P y)
    → (k < m → P z)
    → P (if k == m then x else if ltb m k then y else z)
if_both_ways P m k x y z p q r = elim (Bool-cases (k == m)) [
  | inl e ↦ subst P (sym (if_true (k == m) x (if ltb m k then y else z) e)) (p ((==_iff k m).0 e))
  | inr e ↦ elim (Bool-cases (ltb m k)) [
    | inl f ↦
        subst P (sym (if_false (k == m) x (if ltb m k then y else z) e ∙ if_true (ltb m k) y z f))
          (q (ground arith))
    | inr f ↦
        subst P (sym (if_false (k == m) x (if ltb m k then y else z) e ∙ if_false (ltb m k) y z f))
          (r (ground arith))
  ]
]

put_invoker-Above :
    (k m : ℕ) (a : Bytes) (nodes : List (ℕ × Bytes))
    → k < m
    → Above k nodes
    → Above k (put_invoker m a nodes)
unfolding put_invoker
put_invoker-Above k m a [] h s = (h, tt)
put_invoker-Above k m a ((j, b) ∷ nodes) h (l, s) =
    if_both_ways (Above k) m j _ _ _ (λ e. (l, s)) (λ e. (h, (l, s)))
      (λ e. (l, put_invoker-Above k m a nodes h s))

pub put_invoker-IsRing :
    (addrs : List Bytes) (m : ℕ) (a : Bytes) (nodes : List (ℕ × Bytes))
    → In a addrs
    → IsRing addrs nodes
    → IsRing addrs (put_invoker m a nodes)
unfolding put_invoker
put_invoker-IsRing addrs m a [] h r = (tt, h, tt)
put_invoker-IsRing addrs m a ((k, b) ∷ nodes) h (s, i, r) =
    if_both_ways (IsRing addrs) m k _ _ _ (λ e. (s, h, r))
      (λ e. ((e, Above-weaken k m nodes e s), h, (s, i, r)))
      (λ e. (put_invoker-Above k m a nodes e s, i, put_invoker-IsRing addrs m a nodes h r))

put_invoker-HasNode :
    (m : ℕ) (a : Bytes) (nodes : List (ℕ × Bytes)) → HasNode (put_invoker m a nodes)
unfolding put_invoker
put_invoker-HasNode m a [] = tt
put_invoker-HasNode m a ((k, b) ∷ nodes) =
    if_both_ways HasNode m k _ _ _ (λ e. tt) (λ e. tt) (λ e. tt)

-- What the loops of the constructor keep, from the nodes `old` to the nodes `new`.
abbrev pub Keeps : List Bytes → List (ℕ × Bytes) → List (ℕ × Bytes) → Type 0
Keeps addrs old new = (IsRing addrs old → IsRing addrs new) × (HasNode old → HasNode new)

add_nodes-Keeps :
    (addrs : List Bytes) (n h : ℕ) (digest a : Bytes) (nodes nodes' : List (ℕ × Bytes))
    → In a addrs
    → add_nodes n h digest a nodes ≡ ok nodes'
    → Keeps addrs nodes nodes'
unfolding add_nodes
add_nodes-Keeps addrs zero h digest a nodes nodes' i e =
    let same = ok_eq nodes nodes' e in (subst (IsRing addrs) same, subst HasNode same)
add_nodes-Keeps addrs (suc n) h digest a nodes nodes' i e =
    let (m, f, g) =
      bind_ok (hash digest h) (λ m. add_nodes n (h + 1) digest a (put_invoker m a nodes)) nodes'
        e in
    let (r, s) = add_nodes-Keeps addrs n (h + 1) digest a (put_invoker m a nodes) nodes' i g in
    ((λ k. r (put_invoker-IsRing addrs m a nodes i k)), (λ k. s (put_invoker-HasNode m a nodes)))

add_nodes-HasNode :
    (addrs : List Bytes) (n h : ℕ) (digest a : Bytes) (nodes nodes' : List (ℕ × Bytes))
    → In a addrs
    → add_nodes (suc n) h digest a nodes ≡ ok nodes'
    → HasNode nodes'
unfolding add_nodes
add_nodes-HasNode addrs n h digest a nodes nodes' i e =
    let (m, f, g) =
      bind_ok (hash digest h) (λ m. add_nodes n (h + 1) digest a (put_invoker m a nodes)) nodes'
        e in
    (add_nodes-Keeps addrs n (h + 1) digest a (put_invoker m a nodes) nodes' i g).1
      (put_invoker-HasNode m a nodes)

module _ (md5 : Bytes → Bytes) (std_hash : Bytes → ℕ) (addrs : List Bytes) where
  pub add_groups-Keeps :
      (n i : ℕ) (a : Bytes) (nodes nodes' : List (ℕ × Bytes))
      → In a addrs
      → add_groups md5 std_hash n i a nodes ≡ ok nodes'
      → Keeps addrs nodes nodes'
  unfolding add_groups
  add_groups-Keeps zero i a nodes nodes' h e =
      let same = ok_eq nodes nodes' e in (subst (IsRing addrs) same, subst HasNode same)
  add_groups-Keeps (suc n) i a nodes nodes' h e =
      let (mid, f, g) =
        bind_ok (add_nodes 4 0 (md5 (a ++ to_string i)) a nodes)
          (add_groups md5 std_hash n (i + 1) a) nodes' e in
      let (r, s) = add_nodes-Keeps addrs 4 0 (md5 (a ++ to_string i)) a nodes mid h f in
      let (r', s') = add_groups-Keeps n (i + 1) a mid nodes' h g in
      ((λ k. r' (r k)), (λ k. s' (s k)))

  pub add_groups-HasNode :
      (n i : ℕ) (a : Bytes) (nodes nodes' : List (ℕ × Bytes))
      → In a addrs
      → add_groups md5 std_hash (suc n) i a nodes ≡ ok nodes'
      → HasNode nodes'
  unfolding add_groups
  add_groups-HasNode n i a nodes nodes' h e =
      let (mid, f, g) =
        bind_ok (add_nodes 4 0 (md5 (a ++ to_string i)) a nodes)
          (add_groups md5 std_hash n (i + 1) a) nodes' e in
      (add_groups-Keeps n (i + 1) a mid nodes' h g).1
        (add_nodes-HasNode addrs 3 0 (md5 (a ++ to_string i)) a nodes mid h f)

  pub add_invokers-Keeps :
      (replicas : ℕ) (more : List Bytes) (nodes nodes' : List (ℕ × Bytes))
      → ((a : Bytes) → In a more → In a addrs)
      → add_invokers md5 std_hash replicas more nodes ≡ ok nodes'
      → Keeps addrs nodes nodes'
  unfolding add_invokers
  add_invokers-Keeps replicas [] nodes nodes' h e =
      let same = ok_eq nodes nodes' e in (subst (IsRing addrs) same, subst HasNode same)
  add_invokers-Keeps replicas (a ∷ more) nodes nodes' h e =
      let (mid, f, g) =
        bind_ok (add_groups md5 std_hash (replicas / 4) 0 a nodes)
          (add_invokers md5 std_hash replicas more) nodes' e in
      let (r, s) = add_groups-Keeps (replicas / 4) 0 a nodes mid (h a (inl refl)) f in
      let (r', s') = add_invokers-Keeps replicas more mid nodes' (λ b i. h b (inr i)) g in
      ((λ k. r' (r k)), (λ k. s' (s k)))
