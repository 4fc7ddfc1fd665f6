-- ===== src/Supply/Balanced.antt =====
-- The parts of the total supply in `compute_circulating_supply_for_block`
-- (aggregated/circulating_supply/mod.rs).
use near_indexer_for_explore.Base.{
  ℕ, ◌+◌, ◌^◌, ◌≤◌, ◌<◌, String, Option, some, List, [], ◌∷◌, length, ltb, if◌then◌else◌, ◌≡◌, refl,
  ap, ◌∙◌, arith,
}
use near_indexer_for_explore.Base.Words.{to_u64-below, to_u128-below, add_u128, sub_u128, as_i32}
use near_indexer_for_explore.Lockup.{Balance}
use near_indexer_for_explore.Supply.{
  ViewClient, Block, CirculatingSupply, lockup_locked_amount, sum_lockups, sum_balances,
  foundation_locked_account_ids, compute_circulating_supply_for_block,
}

-- Every account has its amount: what the calls return, in order.
abbrev pub Amounts : (String → Option Balance) → List String → List Balance → Type 0
Amounts f [] [] = Unit
Amounts f (id ∷ ids) (v ∷ vs) = (f id ≡ some v) × Amounts f ids vs
Amounts f _ _ = ⊥

abbrev pub total : List Balance → ℕ
total [] = 0
total (v ∷ vs) = v + total vs

abbrev pub count_positive : List Balance → ℕ
count_positive [] = 0
count_positive (v ∷ vs) = if ltb 0 v then 1 + count_positive vs else count_positive vs

add_next :
    (acc v rest : ℕ)
    → acc + (v + rest) < 2 ^ 128
    → (add_u128 acc v + rest < 2 ^ 128) × (add_u128 acc v ≡ acc + v)
add_next acc v rest h = (omega arith, omega arith)

some_pair : {a b x y : ℕ} → a ≡ b → x ≡ y → ◌≡◌ {A = Option (ℕ × ℕ)} (some (a, x)) (some (b, y))
some_pair p q = λ i. some (p i, q i)

module _ (view : ViewClient) where
  sum_lockups-eq :
      (t : ℕ) (ids : List String) (vs : List Balance) (acc : Balance) (n : ℕ)
      → Amounts (lockup_locked_amount view t) ids vs
      → acc + total vs < 2 ^ 128
      → sum_lockups view t ids (acc, n) ≡ some (acc + total vs, n + count_positive vs)
  unfolding sum_lockups
  sum_lockups-eq t [] [] acc n h k = some_pair (omega arith) (omega arith)
  sum_lockups-eq t (id ∷ ids) (v ∷ vs) acc n (e, h) k =
      let (small, same) = add_next acc v (total vs) k in
      rw e (
        sum_lockups-eq t ids vs (add_u128 acc v) (if ltb 0 v then n + 1 else n) h small
        ∙ some_pair (ground (arith, same)) (ground arith))
  sum_lockups-eq t [] (v ∷ vs) acc n h k = elim h [ ]
  sum_lockups-eq t (id ∷ ids) [] acc n h k = elim h [ ]

  sum_balances-eq :
      (ids : List String) (vs : List Balance) (acc : Balance)
      → Amounts view.balance ids vs
      → acc + total vs < 2 ^ 128
      → sum_balances view ids acc ≡ some (acc + total vs)
  unfolding sum_balances
  sum_balances-eq [] [] acc h k = ap some (omega arith)
  sum_balances-eq (id ∷ ids) (v ∷ vs) acc (e, h) k =
      let (small, same) = add_next acc v (total vs) k in
      rw e (sum_balances-eq ids vs (add_u128 acc v) h small ∙ ap some (omega (arith, same)))
  sum_balances-eq [] (v ∷ vs) acc h k = elim h [ ]
  sum_balances-eq (id ∷ ids) [] acc h k = elim h [ ]

  -- The timestamp and the height of the block fit into u64. Every lockup account has a locked amount and both foundation accounts a balance, and together
  -- they do not exceed the total supply of the block. Then the supply is computed, without
  -- wrapping: circulating, foundation and locked tokens add up to the total supply, the latter
  -- are the sums of the amounts, and the unfinished contracts are those with tokens left.
  pub compute_circulating_supply-Balanced :
      (ids : List String) (block : Block) (vs ws : List Balance)
      → Amounts (lockup_locked_amount view block.block_timestamp) ids vs
      → Amounts view.balance foundation_locked_account_ids ws
      → total ws + total vs ≤ block.total_supply
      → block.total_supply < 2 ^ 128
      → block.block_timestamp < 2 ^ 64
      → block.block_height < 2 ^ 64
      → (s : CirculatingSupply) × (compute_circulating_supply_for_block view ids block ≡ some s)
        × (s.circulating_tokens_supply + s.foundation_locked_tokens + s.lockups_locked_tokens
            ≡ block.total_supply)
        × (s.foundation_locked_tokens ≡ total ws)
        × (s.lockups_locked_tokens ≡ total vs)
        × (s.unfinished_lockup_contracts_count ≡ as_i32 (count_positive vs))
  unfolding compute_circulating_supply_for_block
  compute_circulating_supply-Balanced ids block vs ws h hw below bound early low =
      let time = to_u64-below block.block_timestamp early in
      let height = to_u64-below block.block_height low in
      let supply = to_u128-below block.total_supply bound in
      let locked = sum_lockups-eq block.block_timestamp ids vs 0 0 h (omega arith) in
      let foundation = sum_balances-eq foundation_locked_account_ids ws 0 hw (omega arith) in
      (
        record {
          computed_at_block_timestamp = block.block_timestamp;
          computed_at_block_hash = block.block_hash;
          circulating_tokens_supply =
              sub_u128 (sub_u128 block.total_supply (0 + total ws)) (0 + total vs);
          total_tokens_supply = block.total_supply;
          total_lockup_contracts_count = as_i32 (length ids);
          unfinished_lockup_contracts_count = as_i32 (0 + count_positive vs);
          foundation_locked_tokens = 0 + total ws;
          lockups_locked_tokens = 0 + total vs;
        },
        rw (time, height, supply, locked, foundation) refl,
        omega arith,
        omega arith,
        omega arith,
        omega arith,
      )
