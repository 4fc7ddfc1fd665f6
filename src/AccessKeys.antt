-- ===== src/AccessKeys.antt =====
-- db_adapters/access_keys.rs and models/access_keys.rs: which keys the receipts of a shard add
-- and delete, and the statements that bring the table `access_keys` up to date. Decoding the key
-- of an implicit account (crates `hex` and `near_crypto`) is a parameter.
pub mod Collect
pub mod Settle
pub mod Race
mod Tests
use near_indexer_for_explore.Base.{
  ℕ, String, Bool, true, false, Option, none, some, List, [], ◌∷◌, map, filter, not, ◌&&◌, is_some,
  is_empty, ltb, ◌==◌, String-eq, pair-eq, if◌then◌else◌,
}
use near_indexer_for_explore.Base.Map.{Map, values, insert, upsert}
use near_indexer_for_explore.Chain.{
  ActionView, transfer, add_key, delete_key, delete_account, AccessKeyView, AccessKeyPermissionView,
  function_call, full_access, ReceiptView, OutcomeWithReceipt,
}
use near_indexer_for_explore.Accounts.{has_implicit_length, actions_of, successful_receipts}
use near_indexer_for_explore.Database.{Statement, Future, insert_do_nothing, update}

-- models/enums.rs.
pub data AccessKeyPermission : Type 0 where
  full_access_kind function_call_kind : AccessKeyPermission

abbrev pub permission_of : AccessKeyPermissionView → AccessKeyPermission
permission_of (function_call allowance receiver_id method_names) = function_call_kind
permission_of full_access = full_access_kind

pub record AccessKey : Type 0 where
  pub public_key : String
  pub account_id : String
  pub created_by_receipt_id : Option String
  pub deleted_by_receipt_id : Option String
  pub permission_kind : AccessKeyPermission
  pub last_update_block_height : ℕ

abbrev pub KeyId : Type 0
KeyId = String × String

abbrev pub key_id : AccessKey → KeyId
key_id k = (k.public_key, k.account_id)

abbrev pub from_action_view : String → String → AccessKeyView → String → ℕ → AccessKey
from_action_view public_key account_id access_key create_by_receipt_id height = record {
  public_key = public_key;
  account_id = account_id;
  created_by_receipt_id = some create_by_receipt_id;
  deleted_by_receipt_id = none;
  permission_kind = permission_of access_key.permission;
  last_update_block_height = height;
}

abbrev pub from_genesis : String → String → AccessKeyPermissionView → ℕ → AccessKey
from_genesis public_key account_id permission height = record {
  public_key = public_key;
  account_id = account_id;
  created_by_receipt_id = none;
  deleted_by_receipt_id = none;
  permission_kind = permission_of permission;
  last_update_block_height = height;
}

-- The two maps of `handle_access_keys`.
pub record Collected : Type 0 where
  pub access_keys : Map KeyId AccessKey
  pub deleted_accounts : Map String String

abbrev pub mark_deleted : String → AccessKey → AccessKey
mark_deleted receipt_id k = record k { deleted_by_receipt_id = some receipt_id }

-- `iter_mut().filter(..).for_each(..)`.
delete_keys_of : String → String → Map KeyId AccessKey → Map KeyId AccessKey
delete_keys_of account_id receipt_id [] = []
delete_keys_of account_id receipt_id ((id, k) ∷ m) =
    (id, if id.1 == account_id then mark_deleted receipt_id k else k)
    ∷ delete_keys_of account_id receipt_id m

abbrev deleted_only : ReceiptView → ℕ → String → AccessKey
deleted_only receipt block_height public_key = record {
  public_key = public_key;
  account_id = receipt.receiver_id;
  created_by_receipt_id = none;
  deleted_by_receipt_id = some receipt.receipt_id;
  permission_kind = full_access_kind;
  last_update_block_height = block_height;
}

abbrev implicit_access_key : AccessKeyView
implicit_access_key = record { nonce = 0; permission = full_access }

abbrev insert_key : ReceiptView → ℕ → String → AccessKeyView → Collected → Collected
insert_key receipt block_height public_key access_key c = record c {
  access_keys =
      insert (public_key, receipt.receiver_id)
        (from_action_view public_key receipt.receiver_id access_key receipt.receipt_id block_height)
        c.access_keys;
}

module _ (implicit_public_key : String → Option String) where
  -- The `match action` of `handle_access_keys`.
  visit_action : ReceiptView → ℕ → ActionView → Collected → Collected
  visit_action receipt block_height (delete_account beneficiary_id) c = record {
    access_keys = delete_keys_of receipt.receiver_id receipt.receipt_id c.access_keys;
    deleted_accounts = insert receipt.receiver_id receipt.receipt_id c.deleted_accounts;
  }
  visit_action receipt block_height (add_key public_key access_key) c =
      insert_key receipt block_height public_key access_key c
  visit_action receipt block_height (delete_key public_key) c = record c {
    access_keys =
        upsert (public_key, receipt.receiver_id) (mark_deleted receipt.receipt_id)
          (deleted_only receipt block_height public_key) c.access_keys;
  }
  visit_action receipt block_height (transfer deposit) c =
      if has_implicit_length receipt.receiver_id
      then elim (implicit_public_key receipt.receiver_id) [
        | none ↦ c
        | some public_key ↦ insert_key receipt block_height public_key implicit_access_key c
      ]
      else c
  visit_action receipt block_height _ c = c

  visit_actions : ReceiptView → ℕ → List ActionView → Collected → Collected
  visit_actions receipt block_height [] c = c
  visit_actions receipt block_height (a ∷ rest) c =
      visit_actions receipt block_height rest (visit_action receipt block_height a c)

  visit_receipts : ℕ → List ReceiptView → Collected → Collected
  visit_receipts block_height [] c = c
  visit_receipts block_height (receipt ∷ rest) c =
      visit_receipts block_height rest
        (visit_actions receipt block_height (actions_of receipt.receipt) c)

  pub collect_access_keys : List OutcomeWithReceipt → ℕ → Collected
  unfolding visit_receipts visit_actions visit_action delete_keys_of
  collect_access_keys outcomes block_height =
      visit_receipts block_height (successful_receipts outcomes)
        (record { access_keys = []; deleted_accounts = [] })

abbrev pub is_created : AccessKey → Bool
is_created model = is_some model.created_by_receipt_id

abbrev pub is_stale : ℕ → AccessKey → Bool
is_stale height row = ltb row.last_update_block_height height

abbrev pub delete_account_statement : ℕ → String × String → Statement KeyId AccessKey
delete_account_statement height (account_id, deleted_by_receipt_id) =
    update (λ id. id.1 == account_id)
      (λ row. not (is_some row.deleted_by_receipt_id) && is_stale height row)
      (λ row. record row {
        deleted_by_receipt_id = some deleted_by_receipt_id;
        last_update_block_height = height;
      })

abbrev pub update_statement : AccessKey → Statement KeyId AccessKey
update_statement value =
    update (λ id. id == key_id value) (is_stale value.last_update_block_height)
      (λ row. record row {
        deleted_by_receipt_id = value.deleted_by_receipt_id;
        last_update_block_height = value.last_update_block_height;
      })

abbrev pub add_statement : AccessKey → Statement KeyId AccessKey
add_statement value =
    update (λ id. id == key_id value) (is_stale value.last_update_block_height)
      (λ row. record row {
        created_by_receipt_id = value.created_by_receipt_id;
        deleted_by_receipt_id = value.deleted_by_receipt_id;
        last_update_block_height = value.last_update_block_height;
      })

-- `delete_access_keys_for_deleted_accounts`, `update_access_keys_future`,
-- `add_access_keys_future`.
abbrev pub delete_future : ℕ → Map String String → Future KeyId AccessKey
delete_future height deleted_accounts = map (delete_account_statement height) deleted_accounts

abbrev pub update_future : List AccessKey → Future KeyId AccessKey
update_future access_keys_to_update = map update_statement access_keys_to_update

abbrev pub add_future : List AccessKey → Future KeyId AccessKey
add_future access_keys_to_insert =
    insert_do_nothing access_keys_to_insert ∷ map add_statement access_keys_to_insert

abbrev pub futures_of : ℕ → Collected → List (Future KeyId AccessKey)
futures_of height c =
    delete_future height c.deleted_accounts
    ∷ update_future (filter (λ model. not (is_created model)) (values c.access_keys))
    ∷ add_future (filter is_created (values c.access_keys))
    ∷ []

-- The futures that `handle_access_keys` joins; there are none where there are no outcomes.
unfoldable pub handle_access_keys :
    (String → Option String) → List OutcomeWithReceipt → ℕ → List (Future KeyId AccessKey)
handle_access_keys implicit_public_key outcomes block_height =
    if is_empty outcomes
    then []
    else futures_of block_height (collect_access_keys implicit_public_key outcomes block_height)

pub store_access_keys_from_genesis : List AccessKey → Future KeyId AccessKey
store_access_keys_from_genesis access_keys_models = insert_do_nothing access_keys_models ∷ []
