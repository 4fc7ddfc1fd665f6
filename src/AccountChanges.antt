-- ===== src/AccountChanges.antt =====
-- db_adapters/account_changes.rs and models/account_changes.rs, with `StateChangeReasonKind` of
-- models/enums.rs: the rows of the state changes of a shard. `none` is the panic on a cause that
-- is never sent.
pub mod Rows
mod Tests
use near_indexer_for_explore.Base.{ℕ, ◌+◌, String, Option, none, some, List, [], ◌∷◌}
use near_indexer_for_explore.Base.Words.{as_i32, ◌>>=◌}
use near_indexer_for_explore.Chain.{
  AccountView, StateChangeCauseView, not_writable_to_disk, initial_state, transaction_processing,
  action_receipt_processing_started, action_receipt_gas_reward, receipt_processing,
  postponed_receipt, updated_delayed_receipts, validator_accounts_update, migration, resharding,
  StateChangeValueView, account_update, account_deletion, other_change, StateChangeWithCauseView,
}

pub data StateChangeReasonKind : Type 0 where
  transaction_reason processing_started_reason gas_reward_reason : StateChangeReasonKind
  receipt_reason postponed_reason delayed_reason validators_reason : StateChangeReasonKind
  migration_reason resharding_reason : StateChangeReasonKind

abbrev pub reason_of : StateChangeCauseView → Option StateChangeReasonKind
reason_of (transaction_processing tx_hash) = some transaction_reason
reason_of (action_receipt_processing_started receipt_hash) = some processing_started_reason
reason_of (action_receipt_gas_reward receipt_hash) = some gas_reward_reason
reason_of (receipt_processing receipt_hash) = some receipt_reason
reason_of (postponed_receipt receipt_hash) = some postponed_reason
reason_of updated_delayed_receipts = some delayed_reason
reason_of validator_accounts_update = some validators_reason
reason_of migration = some migration_reason
reason_of resharding = some resharding_reason
reason_of not_writable_to_disk = none
reason_of initial_state = none

pub record AccountChange : Type 0 where
  pub affected_account_id : String
  pub changed_in_block_timestamp : ℕ
  pub changed_in_block_hash : String
  pub caused_by_transaction_hash : Option String
  pub caused_by_receipt_id : Option String
  pub update_reason : StateChangeReasonKind
  pub affected_account_nonstaked_balance : ℕ
  pub affected_account_staked_balance : ℕ
  pub affected_account_storage_usage : ℕ
  pub index_in_block : ℕ

abbrev pub transaction_of : StateChangeCauseView → Option String
transaction_of (transaction_processing tx_hash) = some tx_hash
transaction_of _ = none

abbrev pub receipt_of : StateChangeCauseView → Option String
receipt_of (action_receipt_processing_started receipt_hash) = some receipt_hash
receipt_of (action_receipt_gas_reward receipt_hash) = some receipt_hash
receipt_of (receipt_processing receipt_hash) = some receipt_hash
receipt_of (postponed_receipt receipt_hash) = some receipt_hash
receipt_of _ = none

-- The account that a change is about, and what is left of it; `none` for any other change.
abbrev pub affected : StateChangeValueView → Option (String × Option AccountView)
affected (account_update account_id account) = some (account_id, some account)
affected (account_deletion account_id) = some (account_id, none)
affected other_change = none

-- A number of the account, or 0 if it is gone.
abbrev pub or_zero : (AccountView → ℕ) → Option AccountView → ℕ
or_zero f none = 0
or_zero f (some account) = f account

module _ (block_hash : String) (block_timestamp : ℕ) where
  abbrev pub change_with :
      StateChangeReasonKind → StateChangeCauseView → String × Option AccountView → ℕ → AccountChange
  change_with reason cause (account_id, account) index = record {
    affected_account_id = account_id;
    changed_in_block_timestamp = block_timestamp;
    changed_in_block_hash = block_hash;
    caused_by_transaction_hash = transaction_of cause;
    caused_by_receipt_id = receipt_of cause;
    update_reason = reason;
    affected_account_nonstaked_balance = or_zero (λ a. a.amount) account;
    affected_account_staked_balance = or_zero (λ a. a.locked) account;
    affected_account_storage_usage = or_zero (λ a. a.storage_usage) account;
    index_in_block = index;
  }

  -- The rest of `from_state_change_with_cause`, once the account is known.
  abbrev pub change_of :
      StateChangeCauseView → String × Option AccountView → ℕ → Option AccountChange
  change_of cause a index = reason_of cause >>= λ reason. some (change_with reason cause a index)

  -- A panic, or a row if there is one.
  abbrev pub keep_change :
      StateChangeCauseView
      → Option (String × Option AccountView)
      → ℕ
      → Option (Option AccountChange)
  keep_change cause none index = some none
  keep_change cause (some a) index = change_of cause a index >>= λ row. some (some row)

  abbrev pub from_state_change_with_cause :
      StateChangeWithCauseView → ℕ → Option (Option AccountChange)
  from_state_change_with_cause change index = keep_change change.cause (affected change.value) index

  abbrev pub push_front : Option AccountChange → List AccountChange → List AccountChange
  push_front none rows = rows
  push_front (some row) rows = row ∷ rows

  -- `store_account_changes_for_shard`, from the index on.
  unfoldable pub account_changes_models :
      ℕ → List StateChangeWithCauseView → Option (List AccountChange)
  account_changes_models i [] = some []
  account_changes_models i (change ∷ rest) =
      from_state_change_with_cause change (as_i32 i) >>= λ row.
      account_changes_models (i + 1) rest >>= λ rows. some (push_front row rows)
