-- ===== src/AccountChanges/Rows.antt =====
-- When the rows of the state changes are stored, and what they say.
use near_indexer_for_explore.Base.{
  ℕ, ◌+◌, ◌≡◌, refl, String, Option, none, some, List, [], ◌∷◌, map, All, is_some, false, ◌&&◌,
  filter_map,
}
use near_indexer_for_explore.Base.Words.{as_i32}
use near_indexer_for_explore.Chain.{
  AccountView, StateChangeCauseView, not_writable_to_disk, initial_state, transaction_processing,
  action_receipt_processing_started, action_receipt_gas_reward, receipt_processing,
  postponed_receipt, updated_delayed_receipts, validator_accounts_update, migration, resharding,
  StateChangeValueView, account_update, account_deletion, other_change, StateChangeWithCauseView,
}
use near_indexer_for_explore.AccountChanges.{
  AccountChange, reason_of, account_changes_models, change_of, change_with, StateChangeReasonKind,
  transaction_of, receipt_of,
}

-- The cause of a change is one that is written to disk.
abbrev pub Written : StateChangeCauseView → Type 0
Written not_writable_to_disk = ⊥
Written initial_state = ⊥
Written _ = Unit

-- Every change of an account has a cause that is written.
abbrev ChangeExpected : StateChangeCauseView → StateChangeValueView → Type 0
ChangeExpected cause other_change = Unit
ChangeExpected cause (account_update id account) = Written cause
ChangeExpected cause (account_deletion id) = Written cause

abbrev pub Expected : StateChangeWithCauseView → Type 0
Expected c = ChangeExpected c.cause c.value

abbrev account_of : StateChangeValueView → Option String
account_of (account_update id account) = some id
account_of (account_deletion id) = some id
account_of other_change = none

-- The accounts that the changes of a shard are about, in order.
abbrev pub accounts_of : List StateChangeWithCauseView → List String
accounts_of = filter_map (λ c. account_of c.value)

-- At most one of the two causes is set.
abbrev pub OneCause : AccountChange → Type 0
OneCause row = (is_some row.caused_by_transaction_hash && is_some row.caused_by_receipt_id) ≡ false

one_cause :
    (cause : StateChangeCauseView)
    → (is_some (transaction_of cause) && is_some (receipt_of cause)) ≡ false
one_cause not_writable_to_disk = refl
one_cause initial_state = refl
one_cause (transaction_processing h) = refl
one_cause (action_receipt_processing_started h) = refl
one_cause (action_receipt_gas_reward h) = refl
one_cause (receipt_processing h) = refl
one_cause (postponed_receipt h) = refl
one_cause updated_delayed_receipts = refl
one_cause validator_accounts_update = refl
one_cause migration = refl
one_cause resharding = refl

has_reason :
    (cause : StateChangeCauseView)
    → Written cause
    → (r : StateChangeReasonKind) × (reason_of cause ≡ some r)
has_reason not_writable_to_disk h = elim h [ ]
has_reason initial_state h = elim h [ ]
has_reason (transaction_processing x) h = (_, refl)
has_reason (action_receipt_processing_started x) h = (_, refl)
has_reason (action_receipt_gas_reward x) h = (_, refl)
has_reason (receipt_processing x) h = (_, refl)
has_reason (postponed_receipt x) h = (_, refl)
has_reason updated_delayed_receipts h = (_, refl)
has_reason validator_accounts_update h = (_, refl)
has_reason migration h = (_, refl)
has_reason resharding h = (_, refl)

module _ (block_hash : String) (block_timestamp : ℕ) where
  -- The rows of some changes.
  abbrev pub RowsOf : List StateChangeWithCauseView → List AccountChange → Type 0
  RowsOf changes rows =
      (map (λ r. r.affected_account_id) rows ≡ accounts_of changes) × All OneCause rows

  row_of :
      (cause : StateChangeCauseView) (a : String × Option AccountView) (i : ℕ)
      → Written cause
      → (row : AccountChange) × (change_of block_hash block_timestamp cause a i ≡ some row)
        × (row.affected_account_id ≡ a.0)
        × OneCause row
  row_of cause (id, account) i h =
      let (reason, e) = has_reason cause h in
      (
        change_with block_hash block_timestamp reason cause (id, account) i,
        rw e refl,
        refl,
        one_cause cause,
      )

  -- If no change of an account has a cause that is never written to disk, the rows are made
  -- without panic, one for each update or deletion of an account, in order, and none says
  -- that both a transaction and a receipt has caused it.
  pub account_changes_models-RowsOf :
      (i : ℕ) (changes : List StateChangeWithCauseView)
      → All Expected changes
      → (rows : List AccountChange) × (account_changes_models block_hash block_timestamp i changes
          ≡ some rows)
        × RowsOf changes rows
  unfolding account_changes_models
  account_changes_models-RowsOf i [] h = ([], refl, (refl, tt))
  account_changes_models-RowsOf i (c ∷ changes) (hc, h) =
      let (rows, e, (accounts, causes)) = account_changes_models-RowsOf (i + 1) changes h in
      go c.cause c.value hc rows e accounts causes
    where
      go :
          (cause : StateChangeCauseView) (v : StateChangeValueView)
          → ChangeExpected cause v
          → (rows : List AccountChange)
          → account_changes_models block_hash block_timestamp (i + 1) changes ≡ some rows
          → map (λ r. r.affected_account_id) rows ≡ accounts_of changes
          → All OneCause rows
          → (all : List AccountChange) × (account_changes_models block_hash block_timestamp i
                (record { cause = cause; value = v } ∷ changes)
              ≡ some all)
            × RowsOf (record { cause = cause; value = v } ∷ changes) all
      go cause other_change hc rows e accounts causes = (rows, rw e refl, (accounts, causes))
      go cause (account_update id account) hc rows e accounts causes =
          let (row, made, same, one) = row_of cause (id, some account) (as_i32 i) hc in
          (row ∷ rows, rw made (rw e refl), (rw (same, accounts) refl, (one, causes)))
      go cause (account_deletion id) hc rows e accounts causes =
          let (row, made, same, one) = row_of cause (id, none) (as_i32 i) hc in
          (row ∷ rows, rw made (rw e refl), (rw (same, accounts) refl, (one, causes)))
