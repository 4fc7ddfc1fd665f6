-- ===== src/Tables.antt =====
-- The tables of src/schema.rs that a message is stored in: their rows, the columns that are unique,
-- and the references between them.
use near_indexer_for_explore.Base.{
  ℕ, String, ◌≡◌, ◌↔◌, Bool, true, false, ◌&&◌, List, [], ◌∷◌, arith, Eq, ◌==◌, String-eq, pair-eq,
  map, refl, eq_iff,
}
use near_indexer_for_explore.Text.{decimal}
use near_indexer_for_explore.Supply.{Block}
use near_indexer_for_explore.Blocks.{Chunk}
use near_indexer_for_explore.Accounts.{Account}
use near_indexer_for_explore.AccessKeys.{AccessKey}
use near_indexer_for_explore.AccountChanges.{
  AccountChange, StateChangeReasonKind, transaction_reason, processing_started_reason,
  gas_reward_reason, receipt_reason, postponed_reason, delayed_reason, validators_reason,
  migration_reason, resharding_reason,
}
use near_indexer_for_explore.Transactions.{Transaction, TransactionAction}
use near_indexer_for_explore.Receipts.Rows.{
  Receipt, DataReceipt, ActionReceipt, ActionReceiptAction, ActionReceiptInputData,
  ActionReceiptOutputData,
}
use near_indexer_for_explore.Outcomes.{ExecutionOutcome, ExecutionOutcomeReceipt}
use near_indexer_for_explore.Assets.Rows.{
  EventKind, mint, transfer, burn, FungibleTokenEvent, NonFungibleTokenEvent, or_empty,
}
use near_indexer_for_explore.Database.{Statement, insert_do_nothing, update}

pub data Row : Type 0 where
  block_row : Block → Row
  chunk_row : Chunk → Row
  transaction_row : Transaction → Row
  transaction_action_row : TransactionAction → Row
  receipt_row : Receipt → Row
  data_receipt_row : DataReceipt → Row
  action_receipt_row : ActionReceipt → Row
  action_receipt_action_row : ActionReceiptAction → Row
  output_data_row : ActionReceiptOutputData → Row
  input_data_row : ActionReceiptInputData → Row
  execution_outcome_row : ExecutionOutcome → Row
  execution_outcome_receipt_row : ExecutionOutcomeReceipt → Row
  account_row : Account → Row
  access_key_row : AccessKey → Row
  account_change_row : AccountChange → Row
  ft_event_row : FungibleTokenEvent → Row
  nft_event_row : NonFungibleTokenEvent → Row

abbrev pub same_texts : List String → List String → Bool
same_texts [] [] = true
same_texts (a ∷ xs) (b ∷ ys) = a == b && same_texts xs ys
same_texts _ _ = false

pub same_texts_iff : (xs ys : List String) → (same_texts xs ys ≡ true) ↔ (xs ≡ ys)
same_texts_iff [] [] = ((λ h. refl), (λ h. refl))
same_texts_iff [] (b ∷ ys) = ((λ h. cc), (λ h. cc))
same_texts_iff (a ∷ xs) [] = ((λ h. cc), (λ h. cc))
same_texts_iff (a ∷ xs) (b ∷ ys) = (
  (λ h. ground (arith, eq_iff a b, same_texts_iff xs ys)),
  (λ h. ground (arith, eq_iff a b, same_texts_iff xs ys)),
)

instance abbrev pub texts-eq : Eq (List String)
texts-eq = record { beq = same_texts; beq_iff = same_texts_iff }

-- A table, and the texts of the columns that are unique in it.
abbrev pub Key : Type 0
Key = String × List String

-- The values of the enum types of the database.
abbrev reason_text : StateChangeReasonKind → String
reason_text transaction_reason = "TRANSACTION_PROCESSING"
reason_text processing_started_reason = "ACTION_RECEIPT_PROCESSING_STARTED"
reason_text gas_reward_reason = "ACTION_RECEIPT_GAS_REWARD"
reason_text receipt_reason = "RECEIPT_PROCESSING"
reason_text postponed_reason = "POSTPONED_RECEIPT"
reason_text delayed_reason = "UPDATED_DELAYED_RECEIPTS"
reason_text validators_reason = "VALIDATOR_ACCOUNTS_UPDATE"
reason_text migration_reason = "MIGRATION"
reason_text resharding_reason = "RESHARDING"

abbrev event_text : EventKind → String
event_text mint = "MINT"
event_text transfer = "TRANSFER"
event_text burn = "BURN"

abbrev pub block_key : String → Key
block_key block_hash = ("blocks", block_hash ∷ [])

abbrev pub chunk_key : String → Key
chunk_key chunk_hash = ("chunks", chunk_hash ∷ [])

abbrev pub transaction_key : String → Key
transaction_key transaction_hash = ("transactions", transaction_hash ∷ [])

abbrev pub transaction_action_key : String → ℕ → Key
transaction_action_key transaction_hash index =
    ("transaction_actions", transaction_hash ∷ decimal index ∷ [])

abbrev pub receipt_row_key : String → Key
receipt_row_key receipt_id = ("receipts", receipt_id ∷ [])

abbrev pub outcome_key : String → Key
outcome_key receipt_id = ("execution_outcomes", receipt_id ∷ [])

abbrev pub outcome_receipt_key : String → ℕ → String → Key
outcome_receipt_key executed_receipt_id index produced_receipt_id =
    ("execution_outcome_receipts", executed_receipt_id ∷ decimal index ∷ produced_receipt_id ∷ [])

abbrev pub account_key : String → Key
account_key account_id = ("accounts", account_id ∷ [])

abbrev pub access_key_key : String × String → Key
access_key_key (public_key, account_id) = ("access_keys", public_key ∷ account_id ∷ [])

-- The unique indexes on account changes tell apart which cause there is.
abbrev pub account_change_key : AccountChange → Key
account_change_key r = (
  "account_changes",
  r.affected_account_id
      ∷ r.changed_in_block_hash
      ∷ or_empty r.caused_by_transaction_hash
      ∷ or_empty r.caused_by_receipt_id
      ∷ reason_text r.update_reason
      ∷ decimal r.affected_account_nonstaked_balance
      ∷ decimal r.affected_account_staked_balance
      ∷ decimal r.affected_account_storage_usage
      ∷ [],
)

-- The primary keys; `accounts` and `account_changes` have a serial number for it, and unique
-- columns besides.
abbrev pub key : Row → Key
key (block_row r) = block_key r.block_hash
key (chunk_row r) = chunk_key r.chunk_hash
key (transaction_row r) = transaction_key r.transaction_hash
key (transaction_action_row r) = transaction_action_key r.transaction_hash r.index_in_transaction
key (receipt_row r) = receipt_row_key r.receipt_id
key (data_receipt_row r) = ("data_receipts", r.data_id ∷ [])
key (action_receipt_row r) = ("action_receipts", r.receipt_id ∷ [])
key (action_receipt_action_row r) =
    ("action_receipt_actions", r.receipt_id ∷ decimal r.index_in_action_receipt ∷ [])
key (output_data_row r) =
    ("action_receipt_output_data", r.output_data_id ∷ r.output_from_receipt_id ∷ [])
key (input_data_row r) = ("action_receipt_input_data", r.input_data_id ∷ r.input_to_receipt_id ∷ [])
key (execution_outcome_row r) = outcome_key r.receipt_id
key (execution_outcome_receipt_row r) =
    outcome_receipt_key r.executed_receipt_id r.index_in_execution_outcome r.produced_receipt_id
key (account_row r) = account_key r.account_id
key (access_key_row r) = access_key_key (r.public_key, r.account_id)
key (account_change_row r) = account_change_key r
key (ft_event_row r) = (
  "assets__fungible_token_events",
  r.emitted_for_receipt_id
      ∷ decimal r.emitted_at_block_timestamp
      ∷ decimal r.emitted_in_shard_id
      ∷ decimal r.emitted_index_of_event_entry_in_shard
      ∷ r.emitted_by_contract_account_id
      ∷ r.amount
      ∷ event_text r.event_kind
      ∷ r.token_old_owner_account_id
      ∷ r.token_new_owner_account_id
      ∷ r.event_memo
      ∷ [],
)
key (nft_event_row r) = (
  "assets__non_fungible_token_events",
  r.emitted_for_receipt_id
      ∷ decimal r.emitted_at_block_timestamp
      ∷ decimal r.emitted_in_shard_id
      ∷ decimal r.emitted_index_of_event_entry_in_shard
      ∷ r.emitted_by_contract_account_id
      ∷ r.token_id
      ∷ event_text r.event_kind
      ∷ r.token_old_owner_account_id
      ∷ r.token_new_owner_account_id
      ∷ r.token_authorized_account_id
      ∷ r.event_memo
      ∷ [],
)

-- The references of a row to its block and chunk, of a transaction's actions to the transaction, and
-- of the rows of a receipt to the receipt. The other foreign keys are left out.
abbrev pub parents : Row → List Key
parents (chunk_row r) = block_key r.included_in_block_hash ∷ []
parents (transaction_row r) =
    block_key r.included_in_block_hash ∷ chunk_key r.included_in_chunk_hash ∷ []
parents (receipt_row r) =
    block_key r.included_in_block_hash ∷ chunk_key r.included_in_chunk_hash ∷ []
parents (transaction_action_row r) = transaction_key r.transaction_hash ∷ []
parents (action_receipt_row r) = receipt_row_key r.receipt_id ∷ []
parents (action_receipt_action_row r) = receipt_row_key r.receipt_id ∷ []
parents (output_data_row r) = receipt_row_key r.output_from_receipt_id ∷ []
parents (input_data_row r) = receipt_row_key r.input_to_receipt_id ∷ []
parents (data_receipt_row r) = receipt_row_key r.receipt_id ∷ []
parents (account_change_row r) = block_key r.changed_in_block_hash ∷ []
parents _ = []

abbrev if_account : (Account → Bool) → Row → Bool
if_account p (account_row r) = p r
if_account p _ = false

abbrev pub set_account : (Account → Account) → Row → Row
set_account f (account_row r) = account_row (f r)
set_account f row = row

abbrev if_account_key : (String → Bool) → Key → Bool
if_account_key on_key (table, account_id ∷ []) = table == "accounts" && on_key account_id
if_account_key on_key _ = false

-- A statement on the table `accounts`, on all the tables.
abbrev pub on_accounts : Statement String Account → Statement Key Row
on_accounts (insert_do_nothing rows) = insert_do_nothing (map account_row rows)
on_accounts (update on_key p f) = update (if_account_key on_key) (if_account p) (set_account f)

abbrev if_access_key : (AccessKey → Bool) → Row → Bool
if_access_key p (access_key_row r) = p r
if_access_key p _ = false

abbrev pub set_access_key : (AccessKey → AccessKey) → Row → Row
set_access_key f (access_key_row r) = access_key_row (f r)
set_access_key f row = row

abbrev if_access_key_key : (String × String → Bool) → Key → Bool
if_access_key_key on_key (table, public_key ∷ account_id ∷ []) =
    table == "access_keys" && on_key (public_key, account_id)
if_access_key_key on_key _ = false

-- A statement on the table `access_keys`, on all the tables.
abbrev pub on_access_keys : Statement (String × String) AccessKey → Statement Key Row
on_access_keys (insert_do_nothing rows) = insert_do_nothing (map access_key_row rows)
on_access_keys (update on_key p f) =
    update (if_access_key_key on_key) (if_access_key p) (set_access_key f)
