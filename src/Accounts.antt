-- ===== src/Accounts.antt =====
-- db_adapters/accounts.rs and models/accounts.rs: which accounts the receipts of a shard create,
-- delete and recreate, and the statements that bring the table `accounts` up to date.
pub mod Collect
pub mod Settle
mod Tests
use Prim.Native.String.{len}
use near_indexer_for_explore.Base.{
  ℕ, String, Bool, Option, none, some, List, [], ◌∷◌, ◌++◌, map, filter, not, ◌&&◌, is_some,
  is_empty, eqb, ltb, ◌==◌, String-eq, if◌then◌else◌,
}
use near_indexer_for_explore.Base.Map.{Map, values, insert, upsert}
use near_indexer_for_explore.Chain.{
  ActionView, create_account, transfer, delete_account, ReceiptView, ReceiptEnumView, action, datum,
  OutcomeWithReceipt, is_successful,
}
use near_indexer_for_explore.Database.{Statement, Future, insert_do_nothing, update}

pub record Account : Type 0 where
  pub account_id : String
  pub created_by_receipt_id : Option String
  pub deleted_by_receipt_id : Option String
  pub last_update_block_height : ℕ

abbrev pub new_from_receipt : String → String → ℕ → Account
new_from_receipt account_id created_by_receipt_id last_update_block_height = record {
  account_id = account_id;
  created_by_receipt_id = some created_by_receipt_id;
  deleted_by_receipt_id = none;
  last_update_block_height = last_update_block_height;
}

abbrev pub new_from_genesis : String → ℕ → Account
new_from_genesis account_id last_update_block_height = record {
  account_id = account_id;
  created_by_receipt_id = none;
  deleted_by_receipt_id = none;
  last_update_block_height = last_update_block_height;
}

-- An account id of 64 bytes is that of an implicit account.
abbrev pub has_implicit_length : String → Bool
has_implicit_length account_id = eqb (len account_id) 64

abbrev deleted_only : ReceiptView → ℕ → Account
deleted_only receipt block_height = record {
  account_id = receipt.receiver_id;
  created_by_receipt_id = none;
  deleted_by_receipt_id = some receipt.receipt_id;
  last_update_block_height = block_height;
}

-- The `match action` of `handle_accounts`.
visit_action : ReceiptView → ℕ → ActionView → Map String Account → Map String Account
visit_action receipt block_height create_account accounts =
    insert receipt.receiver_id
      (new_from_receipt receipt.receiver_id receipt.receipt_id block_height) accounts
visit_action receipt block_height (transfer deposit) accounts =
    if has_implicit_length receipt.receiver_id
    then insert receipt.receiver_id
        (new_from_receipt receipt.receiver_id receipt.receipt_id block_height) accounts
    else accounts
visit_action receipt block_height (delete_account beneficiary_id) accounts =
    upsert receipt.receiver_id
      (λ existing_account. record existing_account {
        deleted_by_receipt_id = some receipt.receipt_id;
      })
      (deleted_only receipt block_height) accounts
visit_action receipt block_height _ accounts = accounts

visit_actions : ReceiptView → ℕ → List ActionView → Map String Account → Map String Account
visit_actions receipt block_height [] accounts = accounts
visit_actions receipt block_height (a ∷ rest) accounts =
    visit_actions receipt block_height rest (visit_action receipt block_height a accounts)

abbrev pub actions_of : ReceiptEnumView → List ActionView
actions_of (action body) = body.actions
actions_of (datum data_id bytes) = []

abbrev pub successful_receipts : List OutcomeWithReceipt → List ReceiptView
successful_receipts outcomes =
    map (λ o. o.receipt) (filter (λ o. is_successful o.execution_outcome.outcome.status) outcomes)

visit_receipts : ℕ → List ReceiptView → Map String Account → Map String Account
visit_receipts block_height [] accounts = accounts
visit_receipts block_height (receipt ∷ rest) accounts =
    visit_receipts block_height rest
      (visit_actions receipt block_height (actions_of receipt.receipt) accounts)

-- The map `accounts` after the loop over the receipts.
pub collect_accounts : List OutcomeWithReceipt → ℕ → Map String Account
unfolding visit_receipts visit_actions visit_action
collect_accounts outcomes block_height =
    visit_receipts block_height (successful_receipts outcomes) []

abbrev pub is_created : Account → Bool
is_created model = is_some model.created_by_receipt_id

-- The filter on the height of the last update.
abbrev pub is_stale : Account → Account → Bool
is_stale value row = ltb row.last_update_block_height value.last_update_block_height

abbrev pub delete_statement : Account → Statement String Account
delete_statement value =
    update (λ account_id. account_id == value.account_id) (is_stale value)
      (λ row. record row {
        deleted_by_receipt_id = value.deleted_by_receipt_id;
        last_update_block_height = value.last_update_block_height;
      })

abbrev pub overwrite : Account → Account → Account
overwrite value row = record row {
  created_by_receipt_id = value.created_by_receipt_id;
  deleted_by_receipt_id = value.deleted_by_receipt_id;
  last_update_block_height = value.last_update_block_height;
}

abbrev pub recreate_statement : Account → Statement String Account
recreate_statement value =
    update (λ account_id. account_id == value.account_id)
      (λ row. is_some row.deleted_by_receipt_id && is_stale value row) (overwrite value)

abbrev pub update_statement : Account → Statement String Account
update_statement value =
    update (λ account_id. account_id == value.account_id) (is_stale value) (overwrite value)

abbrev pub is_implicit_to_recreate : Account → Bool
is_implicit_to_recreate model =
    has_implicit_length model.account_id && not (is_some model.deleted_by_receipt_id)

-- `delete_accounts_future` and `create_or_update_accounts_future`.
abbrev pub delete_accounts_future : List Account → Future String Account
delete_accounts_future accounts_to_delete = map delete_statement accounts_to_delete

abbrev pub create_or_update_accounts_future : List Account → Future String Account
create_or_update_accounts_future accounts =
    insert_do_nothing accounts
    ∷ (map recreate_statement (filter is_implicit_to_recreate accounts)
        ++ map update_statement (filter (λ model. not (is_implicit_to_recreate model)) accounts))

-- The futures that `handle_accounts` joins; there are none where there are no outcomes.
unfoldable pub handle_accounts : List OutcomeWithReceipt → ℕ → List (Future String Account)
handle_accounts outcomes block_height =
    if is_empty outcomes
    then []
    else let accounts = values (collect_accounts outcomes block_height) in
      delete_accounts_future (filter (λ model. not (is_created model)) accounts)
      ∷ create_or_update_accounts_future (filter is_created accounts)
      ∷ []

pub store_accounts_from_genesis : List Account → Future String Account
store_accounts_from_genesis accounts_models = insert_do_nothing accounts_models ∷ []
