-- ===== src/Supply.antt =====
-- aggregated/circulating_supply/mod.rs with the state that aggregated/circulating_supply/lockup.rs
-- reads: the circulating supply at a block. The answers of the view client at the height of the
-- block, decoded, are a parameter; `none` is an error or a panic.
pub mod Balanced
pub mod Daily
mod Tests
use near_indexer_for_explore.Base.{
  ℕ, ◌+◌, ◌*◌, String, Bool, true, false, Option, none, some, List, [], ◌∷◌, length, ltb,
  if◌then◌else◌, ◌==◌, String-eq,
}
use near_indexer_for_explore.Base.Words.{add_u128, sub_u128, as_i32, to_u64, to_u128, ◌>>=◌}
use near_indexer_for_explore.Lockup.{
  Balance, LockupContract, LockupInformation, transfers_enabled, get_locked_amount,
}

-- `TRANSFERS_ENABLED`, in nanoseconds.
abbrev pub transfers_enabled_timestamp : ℕ
transfers_enabled_timestamp = 1602614338293769340

pub record ViewClient : Type 0 where
  -- The state of a lockup contract, as `try_from_slice` reads it.
  pub lockup_state : String → Option LockupContract
  pub code_hash : String → Option String
  pub balance : String → Option Balance

abbrev pub with_transfers_enabled : LockupContract → LockupContract
with_transfers_enabled state = record state {
  lockup_information = record state.lockup_information {
    transfers_information = transfers_enabled transfers_enabled_timestamp;
  };
}

unfoldable pub get_lockup_contract_state : ViewClient → String → Option LockupContract
get_lockup_contract_state view account_id =
    view.lockup_state account_id >>= λ state. some (with_transfers_enabled state)

unfoldable pub is_bug_inside_contract : String → Option Bool
is_bug_inside_contract code_hash =
    if code_hash == "3kVY9qcVRoW3B5498SMX6R3rtSLiCdmBzKs7zcnzDJ7Q"
    then some true
    else if code_hash == "DiC9bKCqUHqoYqUXovAnqugiuntHWnM3cAc7KrgaHTu"
    then some true
    else if code_hash == "Cw7bnyp4B6ypwvgZuMmJtY6rHsxP2D4PC8deqeJ3HP7D"
    then some false
    else if code_hash == "4Pfw2RU6e35dUsHQQoFYfwX8KFFvSRNwMSNLXuSFHXrC"
    then some false
    else none

pub record Block : Type 0 where
  pub block_height : ℕ
  pub block_hash : String
  pub prev_block_hash : String
  pub block_timestamp : ℕ
  pub total_supply : Balance
  pub gas_price : Balance
  pub author_account_id : String

pub record CirculatingSupply : Type 0 where
  pub computed_at_block_timestamp : ℕ
  pub computed_at_block_hash : String
  pub circulating_tokens_supply : Balance
  pub total_tokens_supply : Balance
  pub total_lockup_contracts_count : ℕ
  pub unfinished_lockup_contracts_count : ℕ
  pub foundation_locked_tokens : Balance
  pub lockups_locked_tokens : Balance

abbrev pub foundation_locked_account_ids : List String
foundation_locked_account_ids = "lockup.near" ∷ "contributors.near" ∷ []

module _ (view : ViewClient) where
  -- The locked amount of one lockup account.
  unfoldable pub lockup_locked_amount : ℕ → String → Option Balance
  unfolding get_lockup_contract_state is_bug_inside_contract
  lockup_locked_amount block_timestamp account_id =
      get_lockup_contract_state view account_id >>= λ state.
      view.code_hash account_id >>= λ code_hash.
      is_bug_inside_contract code_hash >>= λ is_lockup_with_bug.
      get_locked_amount state block_timestamp is_lockup_with_bug

  -- `lockups_locked_tokens` and `unfinished_lockup_contracts_count` after the accounts.
  unfoldable pub sum_lockups : ℕ → List String → Balance × ℕ → Option (Balance × ℕ)
  unfolding lockup_locked_amount
  sum_lockups block_timestamp [] acc = some acc
  sum_lockups block_timestamp (account_id ∷ rest) acc =
      lockup_locked_amount block_timestamp account_id >>= λ locked_amount.
      sum_lockups block_timestamp rest
        (add_u128 acc.0 locked_amount, if ltb 0 locked_amount then acc.1 + 1 else acc.1)

  unfoldable pub sum_balances : List String → Balance → Option Balance
  sum_balances [] acc = some acc
  sum_balances (account_id ∷ rest) acc =
      view.balance account_id >>= λ amount. sum_balances rest (add_u128 acc amount)

  unfoldable pub compute_circulating_supply_for_block :
      List String → Block → Option CirculatingSupply
  unfolding sum_lockups sum_balances
  compute_circulating_supply_for_block lockup_account_ids block =
      to_u64 block.block_timestamp >>= λ block_timestamp.
      to_u64 block.block_height >>= λ block_height. to_u128 block.total_supply >>= λ total_supply.
      sum_lockups block_timestamp lockup_account_ids (0, 0) >>= λ lockups.
      sum_balances foundation_locked_account_ids 0 >>= λ foundation_locked_tokens. some (record {
        computed_at_block_timestamp = block_timestamp;
        computed_at_block_hash = block.block_hash;
        circulating_tokens_supply =
            sub_u128 (sub_u128 total_supply foundation_locked_tokens) lockups.0;
        total_tokens_supply = total_supply;
        total_lockup_contracts_count = as_i32 (length lockup_account_ids);
        unfinished_lockup_contracts_count = as_i32 lockups.1;
        foundation_locked_tokens = foundation_locked_tokens;
        lockups_locked_tokens = lockups.0;
      })
