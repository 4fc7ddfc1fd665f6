-- ===== src/Accounts/Tests.antt =====
-- An account that is created, deleted and created again in one shard, for the theorems on
-- accounts.rs.
use near_indexer_for_explore.Base.{
  String, ◌≡◌, Option, none, some, List, [], ◌∷◌, filter, ◌==◌, String-eq, not, if◌then◌else◌,
}
use near_indexer_for_explore.Base.Map.{get, values}
use near_indexer_for_explore.Chain.{
  ActionView, create_account, delete_account, transfer, action, success_value, failure,
  ExecutionStatusView, OutcomeWithReceipt,
}
use near_indexer_for_explore.Database.{Future, Table}
use near_indexer_for_explore.Database.Functional.{function_table}
use near_indexer_for_explore.Database.Concurrent.{Run}
use near_indexer_for_explore.Database.Sequential.{run_all, run_first, Run-trans, Run-there}
use near_indexer_for_explore.Accounts.{
  Account, new_from_genesis, is_created, delete_accounts_future, create_or_update_accounts_future,
  collect_accounts, handle_accounts, successful_receipts,
}
use near_indexer_for_explore.Accounts.Collect.{account_key, track, get-collect_accounts}
use near_indexer_for_explore.Accounts.Settle.{settle, handle_accounts-row}

abbrev outcome : String → String → List ActionView → ExecutionStatusView → OutcomeWithReceipt
outcome receiver receipt_id actions status = record {
  execution_outcome = record {
    block_hash = "block";
    id = receipt_id;
    outcome = record {
      logs = [];
      receipt_ids = [];
      gas_burnt = 0;
      tokens_burnt = 0;
      executor_id = receiver;
      status = status;
    };
  };
  receipt = record {
    predecessor_id = "alice";
    receiver_id = receiver;
    receipt_id = receipt_id;
    receipt = action (record {
      signer_id = "alice";
      signer_public_key = "key";
      gas_price = 1;
      output_data_receivers = [];
      input_data_ids = [];
      actions = actions;
    });
  };
}

abbrev first_outcome : OutcomeWithReceipt
first_outcome = outcome "bob" "r1" (create_account ∷ transfer 5 ∷ []) success_value

abbrev later_outcomes : List OutcomeWithReceipt
later_outcomes =
    outcome "carol" "r2" (create_account ∷ []) failure
    ∷ outcome "bob" "r3" (delete_account "alice" ∷ []) success_value
    ∷ outcome "dave" "r4" (delete_account "alice" ∷ []) success_value
    ∷ []

get-collect_accounts_example :
    get "bob" (collect_accounts (first_outcome ∷ later_outcomes) 7)
    ≡ track 7
        (filter
          (λ r. r.receiver_id == "bob")
          (successful_receipts (first_outcome ∷ later_outcomes)))
        none
get-collect_accounts_example = get-collect_accounts (first_outcome ∷ later_outcomes) 7 "bob"

abbrev accounts : Table account_key
accounts = function_table account_key

abbrev Rows : Type 0
Rows = String → Option Account

-- Dave's account is from the genesis, and there is no other.
abbrev before : Rows
before k = if "dave" == k then some (new_from_genesis "dave" 1) else none

abbrev deletions : Future String Account
deletions = delete_accounts_future (
    filter (λ model. not (is_created model))
      (values (collect_accounts (first_outcome ∷ later_outcomes) 7)))

abbrev creations : Future String Account
creations =
    create_or_update_accounts_future
      (filter is_created (values (collect_accounts (first_outcome ∷ later_outcomes) 7)))

abbrev after : Rows → Rows
after t = run_all accounts creations (run_all accounts deletions t)

handled :
    (t : Rows)
    → Run accounts (handle_accounts (first_outcome ∷ later_outcomes) 7) t ([] ∷ [] ∷ []) (after t)
unfolding handle_accounts
handled t =
    Run-trans accounts (run_first accounts deletions (creations ∷ []) t)
      (Run-there accounts [] (run_first accounts creations [] _))

handle_accounts-row_example :
    after before "dave"
    ≡ settle (get "dave" (collect_accounts (first_outcome ∷ later_outcomes) 7)) (before "dave")
handle_accounts-row_example =
    handle_accounts-row accounts first_outcome later_outcomes 7 "dave" (handled before)
