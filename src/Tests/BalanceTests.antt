-- ===== src/Tests/BalanceTests.antt =====
-- Addresses and digests.
use tirpc.Balance.{gen_digest, hash, round_select, select_for_key, lower_bound}
use tirpc.Balance.Digests.{hash_short}
use tirpc.Balance.Selectors.{
  Selector, new_selector, add_invokers, add_groups, add_nodes, put_invoker, through_int,
}
use tirpc.Balance.Selectors.Building.{IsRing}
use tirpc.Balance.Selectors.Ring.{Nearest, new_selector-Nearest}
use tirpc.Prelude.{ℕ, Bytes, take, byte_at, ◌++◌, [], ◌∷◌, ◌≡◌, refl, inl, ok, fault, arith}

hash_short_example : hash (gen_digest 7 4_000_000_000 4_000_000_000 4_000_000_000) 3 ≡ fault
hash_short_example = hash_short 7 4_000_000_000 4_000_000_000 4_000_000_000 (inl (omega arith))

round_starts_over : round_select {A = ℕ} 2 (5 ∷ 6 ∷ []) ≡ ok (5, 1)
unfolding round_select
round_starts_over = refl

goes_round : select_for_key {A = ℕ} 9 ((3, 70) ∷ (8, 71) ∷ []) ≡ ok 70
unfolding select_for_key lower_bound
goes_round = refl

-- A digest that tells texts apart by their first byte only.
abbrev short_digest : Bytes → Bytes
short_digest s = take 1 s ++ (0 ∷ 0 ∷ 0 ∷ 2 ∷ 0 ∷ 0 ∷ 0 ∷ 3 ∷ 0 ∷ 0 ∷ 0 ∷ 4 ∷ 0 ∷ 0 ∷ 0 ∷ [])

-- The selector of the addresses "1" and "2".
abbrev two_addresses : Selector
two_addresses = record {
  virtual_invokers =
      (2, 50 ∷ []) ∷ (3, 50 ∷ []) ∷ (4, 50 ∷ []) ∷ (49, 49 ∷ []) ∷ (50, 50 ∷ []) ∷ [];
  identity_hash_code = 7;
}

new_selector-Nearest_example :
    IsRing ((49 ∷ []) ∷ (50 ∷ []) ∷ []) two_addresses.virtual_invokers
    × ((a : Bytes) × (select_for_key 10 two_addresses.virtual_invokers ≡ ok a)
        × Nearest 10 two_addresses.virtual_invokers a)
unfolding new_selector add_invokers add_groups add_nodes put_invoker through_int hash byte_at
new_selector-Nearest_example =
    new_selector-Nearest short_digest (λ s. 5) (49 ∷ []) ((50 ∷ []) ∷ []) 7 10 two_addresses refl
