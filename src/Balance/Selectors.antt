-- ===== src/Balance/Selectors.antt =====
-- ConsistentHashLoadBalanceStrategy of net/tcp/load_balance.hpp. Addresses are their texts; MD5::digest and
-- std::hash are arguments. The map of virtual nodes is ordered by its keys.
pub mod Building
pub mod Ring
use tirpc.Balance.{hash, select_for_key}
use tirpc.Prelude.{
  ℕ, zero, suc, ◌+◌, ◌*◌, ◌/◌, ◌%◌, Bool, true, false, List, [], ◌∷◌, ◌++◌, Option, none, some,
  if◌then◌else◌, ◌==◌, ltb, take, drop, Bytes, find_first_of, same_text, to_string, Outcome, ok,
  throws, ◌>>=◌,
}

pub record Selector : Type 0 where
  pub virtual_invokers : List (ℕ × Bytes)
  pub identity_hash_code : ℕ

-- A size_t that is passed as an `int` and kept as a size_t.
unfoldable pub through_int : ℕ → ℕ
through_int h =
    let low = h % 4_294_967_296 in
    if ltb low 2_147_483_648 then low else low + 18_446_744_069_414_584_320

unfoldable pub put_invoker : ℕ → Bytes → List (ℕ × Bytes) → List (ℕ × Bytes)
put_invoker m a [] = (m, a) ∷ []
put_invoker m a ((k, b) ∷ nodes) =
    let rest = put_invoker m a nodes in
    if k == m then (k, a) ∷ nodes else if ltb m k then (m, a) ∷ (k, b) ∷ nodes else (k, b) ∷ rest

-- The four virtual nodes of a digest, from number `h` on.
unfoldable pub add_nodes : ℕ → ℕ → Bytes → Bytes → List (ℕ × Bytes) → Outcome (List (ℕ × Bytes))
unfolding hash put_invoker
add_nodes zero h digest a nodes = ok nodes
add_nodes (suc n) h digest a nodes =
    hash digest h >>= λ m. add_nodes n (h + 1) digest a (put_invoker m a nodes)

-- The selector of a service: the entry of a map, and an assignment to it.
unfoldable pub find_selector : Bytes → List (Bytes × Selector) → Option Selector
find_selector name [] = none
find_selector name ((k, s) ∷ m) =
    let rest = find_selector name m in if same_text k name then some s else rest

unfoldable pub put_selector : Bytes → Selector → List (Bytes × Selector) → List (Bytes × Selector)
put_selector name s [] = (name, s) ∷ []
put_selector name s ((k, t) ∷ m) =
    let rest = put_selector name s m in if same_text k name then (k, s) ∷ m else (k, t) ∷ rest

-- The selector that is there, unless the addresses have another hash.
unfoldable pub reusable : ℕ → Option Selector → Option Selector
reusable h none = none
reusable h (some s) = if s.identity_hash_code == h then some s else none

module _ (md5 : Bytes → Bytes) (std_hash : Bytes → ℕ) where
  unfoldable pub add_groups : ℕ → ℕ → Bytes → List (ℕ × Bytes) → Outcome (List (ℕ × Bytes))
  unfolding add_nodes
  add_groups zero i a nodes = ok nodes
  add_groups (suc n) i a nodes =
      add_nodes 4 0 (md5 (a ++ to_string i)) a nodes >>= add_groups n (i + 1) a

  unfoldable pub add_invokers : ℕ → List Bytes → List (ℕ × Bytes) → Outcome (List (ℕ × Bytes))
  unfolding add_groups
  add_invokers replicas [] nodes = ok nodes
  add_invokers replicas (a ∷ as') nodes =
      add_groups (replicas / 4) 0 a nodes >>= add_invokers replicas as'

  -- ConsistentHashSelector(invokers, replicas, identity)
  unfoldable pub new_selector : List Bytes → ℕ → ℕ → Outcome Selector
  unfolding add_invokers through_int
  new_selector invokers replicas identity = add_invokers replicas invokers [] >>= λ nodes.
      ok (record { virtual_invokers = nodes; identity_hash_code = through_int identity })

  -- hashCode, from the result so far on.
  unfoldable pub hash_code_from : ℕ → List Bytes → ℕ
  hash_code_from result [] = result
  hash_code_from result (a ∷ as') =
      hash_code_from ((31 * result + std_hash a) % 18_446_744_073_709_551_616) as'

  unfoldable pub hash_code : List Bytes → ℕ
  unfolding hash_code_from
  hash_code addrs = hash_code_from 1 addrs

  -- ConsistentHashSelector::select
  unfoldable pub select_node : Bytes → Selector → Outcome Bytes
  unfolding hash select_for_key
  select_node key s = hash (md5 key) 0 >>= λ code. select_for_key code s.virtual_invokers

  -- The selector for the call: the one that is there, or a new one.
  unfoldable pub selector_for : ℕ → List Bytes → Option Selector → Outcome Selector
  unfolding new_selector
  selector_for h addrs (some s) = ok s
  selector_for h addrs none = new_selector addrs 160 h

  abbrev pub kept :
      Option Selector → Bytes → Selector → List (Bytes × Selector) → List (Bytes × Selector)
  kept (some t) name s m = m
  kept none name s m = put_selector name s m

  -- ConsistentHashLoadBalanceStrategy::select; substr throws where the name has no dot.
  unfoldable pub consistent_select :
      List Bytes
      → Bytes
      → Bytes
      → List (Bytes × Selector)
      → Outcome (Bytes × List (Bytes × Selector))
  unfolding hash_code find_first_of find_selector put_selector reusable selector_for select_node
  consistent_select addrs full_name pb_data m = elim (find_first_of (46 ∷ []) full_name) [
    | none ↦ throws
    | some i ↦
        let h = hash_code addrs in
        let name = take i full_name in
        let old = reusable h (find_selector name m) in
        selector_for h addrs old >>= λ s.
        select_node (drop i full_name ++ pb_data) s >>= λ a. ok (a, kept old name s m)
  ]
