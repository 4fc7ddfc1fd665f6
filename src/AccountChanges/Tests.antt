-- ===== src/AccountChanges/Tests.antt =====
-- An update, a deletion and a change of something else, for the theorem on account_changes.rs.
use near_indexer_for_explore.Base.{◌≡◌, some, List, [], ◌∷◌}
use near_indexer_for_explore.Chain.{
  StateChangeWithCauseView, transaction_processing, receipt_processing, initial_state,
  account_update, account_deletion, other_change,
}
use near_indexer_for_explore.AccountChanges.{AccountChange, account_changes_models}
use near_indexer_for_explore.AccountChanges.Rows.{RowsOf, account_changes_models-RowsOf}

abbrev changes : List StateChangeWithCauseView
changes =
    record {
      cause = transaction_processing "tx1";
      value =
          account_update "bob"
            (record { amount = 5; locked = 0; code_hash = "none"; storage_usage = 182 });
    }
    ∷ record { cause = initial_state; value = other_change }
    ∷ record { cause = receipt_processing "r1"; value = account_deletion "carol" }
    ∷ []

account_changes_models-RowsOf_example :
    (rows : List AccountChange) × (account_changes_models "block" 100 0 changes ≡ some rows)
    × RowsOf "block" 100 changes rows
account_changes_models-RowsOf_example =
    account_changes_models-RowsOf "block" 100 0 changes (tt, (tt, (tt, tt)))
