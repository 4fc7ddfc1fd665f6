-- ===== src/AccessKeys/Tests.antt =====
-- A key whose account is deleted and created again with the same key in one shard, for the
-- theorems on access_keys.rs.
use near_indexer_for_explore.Base.{
  String, ◌≡◌, refl, arith, Option, none, some, List, [], ◌∷◌, filter, ◌==◌, String-eq, pair-eq,
  not, if◌then◌else◌,
}
use near_indexer_for_explore.Base.Map.{get, values}
use near_indexer_for_explore.Chain.{
  ActionView, add_key, delete_key, AccessKeyView, full_access, action, success_value,
  OutcomeWithReceipt,
}
use near_indexer_for_explore.Database.{Future, Table}
use near_indexer_for_explore.Database.Functional.{function_table}
use near_indexer_for_explore.Database.Concurrent.{Run}
use near_indexer_for_explore.Database.Sequential.{run_all, run_first, Run-trans, Run-there}
use near_indexer_for_explore.AccessKeys.{
  AccessKey, KeyId, key_id, Collected, from_genesis, from_action_view, is_created, delete_future,
  update_future, add_future, futures_of, collect_access_keys, handle_access_keys, visit_receipts,
  visit_actions, visit_action,
}
use near_indexer_for_explore.AccessKeys.Settle.{
  settle, handle_access_keys-row, handle_access_keys-permission, PermissionIs,
}
use near_indexer_for_explore.AccessKeys.Race.{Raced, futures_of-race}

abbrev keys_table : Table key_id
keys_table = function_table key_id

abbrev Rows : Type 0
Rows = KeyId → Option AccessKey

abbrev old_key : AccessKey
old_key = from_genesis "pk" "bob" full_access 1

abbrev before : Rows
before k = if ("pk", "bob") == k then some old_key else none

abbrev full_access_key : AccessKeyView
full_access_key = record { nonce = 0; permission = full_access }

abbrev added_again : AccessKey
added_again = from_action_view "pk" "bob" full_access_key "r2" 7

-- The account is deleted by the receipt r1, and the key is added by the receipt r2.
abbrev collected : Collected
collected = record {
  access_keys = (("pk", "bob"), added_again) ∷ [];
  deleted_accounts = ("bob", "r1") ∷ [];
}

key-Raced : Raced keys_table 7 collected ("pk", "bob") before old_key added_again "r1"
key-Raced = record {
  was = refl;
  live = refl;
  before = omega arith;
  account_deleted = refl;
  distinct = (refl, tt);
  found = refl;
  created = refl;
  added = refl;
  at_height = refl;
}

futures_of-race_example :
    (u u' : Rows) × Run keys_table (futures_of 7 collected) before ([] ∷ [] ∷ [] ∷ []) u
    × Run keys_table (futures_of 7 collected) before ([] ∷ [] ∷ [] ∷ []) u'
    × (u ("pk", "bob")
        ≡ some (record old_key { deleted_by_receipt_id = some "r1"; last_update_block_height = 7 }))
    × (u' ("pk", "bob")
        ≡ some (record old_key {
          created_by_receipt_id = some "r2";
          deleted_by_receipt_id = none;
          last_update_block_height = 7;
        }))
futures_of-race_example =
    futures_of-race keys_table 7 collected ("pk", "bob") before old_key added_again "r1" key-Raced

abbrev outcome : String → List ActionView → OutcomeWithReceipt
outcome receipt_id actions = record {
  execution_outcome = record {
    block_hash = "block";
    id = receipt_id;
    outcome = record {
      logs = [];
      receipt_ids = [];
      gas_burnt = 0;
      tokens_burnt = 0;
      executor_id = "bob";
      status = success_value;
    };
  };
  receipt = record {
    predecessor_id = "bob";
    receiver_id = "bob";
    receipt_id = receipt_id;
    receipt = action (record {
      signer_id = "bob";
      signer_public_key = "pk";
      gas_price = 1;
      output_data_receivers = [];
      input_data_ids = [];
      actions = actions;
    });
  };
}

abbrev first_outcome : OutcomeWithReceipt
first_outcome = outcome "r3" (delete_key "pk" ∷ [])

abbrev later_outcomes : List OutcomeWithReceipt
later_outcomes = outcome "r4" (add_key "pk2" full_access_key ∷ []) ∷ []

abbrev no_implicit_key : String → Option String
no_implicit_key account_id = none

abbrev shard_keys : Collected
shard_keys = collect_access_keys no_implicit_key (first_outcome ∷ later_outcomes) 7

abbrev deletions : Future KeyId AccessKey
deletions = delete_future 7 shard_keys.deleted_accounts

abbrev updates : Future KeyId AccessKey
updates = update_future (filter (λ model. not (is_created model)) (values shard_keys.access_keys))

abbrev additions : Future KeyId AccessKey
additions = add_future (filter is_created (values shard_keys.access_keys))

abbrev after : Rows → Rows
after t = run_all keys_table additions (run_all keys_table updates (run_all keys_table deletions t))

handled :
    (t : Rows)
    → Run keys_table
        (handle_access_keys no_implicit_key (first_outcome ∷ later_outcomes) 7)
        t
        ([] ∷ [] ∷ [] ∷ [])
        (after t)
unfolding handle_access_keys
handled t = Run-trans keys_table (run_first keys_table deletions (updates ∷ additions ∷ []) t) (
    Run-there keys_table [] (
      Run-trans keys_table (run_first keys_table updates (additions ∷ []) _)
        (Run-there keys_table [] (run_first keys_table additions [] _))))

not_deleted :
    get "bob"
      (collect_access_keys no_implicit_key (first_outcome ∷ later_outcomes) 7).deleted_accounts
    ≡ none
unfolding collect_access_keys visit_receipts visit_actions visit_action
not_deleted = refl

handle_access_keys-row_example :
    after before ("pk", "bob")
    ≡ settle (get ("pk", "bob") shard_keys.access_keys) (before ("pk", "bob"))
handle_access_keys-row_example =
    handle_access_keys-row no_implicit_key keys_table first_outcome later_outcomes 7 ("pk", "bob")
      not_deleted (handled before)

handle_access_keys-permission_example :
    PermissionIs old_key.permission_kind (after before ("pk", "bob"))
handle_access_keys-permission_example =
    handle_access_keys-permission no_implicit_key keys_table first_outcome later_outcomes 7
      ("pk", "bob") old_key refl not_deleted (handled before)
