-- ===== src/Genesis.antt =====
-- db_adapters/genesis.rs: the records of the genesis, stored in portions.
pub mod Portions
mod Tests
use near_indexer_for_explore.Base.{ℕ, String, List, [], ◌∷◌, ◌++◌, length, eqb, if◌then◌else◌}
use near_indexer_for_explore.Chain.{AccessKeyView}
use near_indexer_for_explore.Accounts.{Account, new_from_genesis}
use near_indexer_for_explore.AccessKeys.{AccessKey, from_genesis}

-- `other_record` is any record but the two that are stored.
pub data StateRecord : Type 0 where
  account_record : String → StateRecord
  access_key_record : String → String → AccessKeyView → StateRecord
  other_record : StateRecord

-- A call of `store_accounts_from_genesis` or of `store_access_keys_from_genesis`.
pub data Portion : Type 0 where
  accounts_portion : List Account → Portion
  keys_portion : List AccessKey → Portion

-- The vectors, and the calls so far.
pub record Progress : Type 0 where
  pub accounts_to_store : List Account
  pub access_keys_to_store : List AccessKey
  pub stored : List Portion

abbrev pub portion_size : ℕ
portion_size = 5000

abbrev pub store_full_accounts : Progress → Progress
store_full_accounts p =
    if eqb (length p.accounts_to_store) portion_size
    then record p {
      accounts_to_store = [];
      stored = p.stored ++ accounts_portion p.accounts_to_store ∷ [];
    }
    else p

abbrev pub store_full_keys : Progress → Progress
store_full_keys p =
    if eqb (length p.access_keys_to_store) portion_size
    then record p {
      access_keys_to_store = [];
      stored = p.stored ++ keys_portion p.access_keys_to_store ∷ [];
    }
    else p

module _ (genesis_height : ℕ) where
  abbrev pub take_record : StateRecord → Progress → Progress
  take_record (account_record account_id) p = record p {
    accounts_to_store = p.accounts_to_store ++ new_from_genesis account_id genesis_height ∷ [];
  }
  take_record (access_key_record account_id public_key access_key) p = record p {
    access_keys_to_store =
        p.access_keys_to_store
        ++ from_genesis public_key account_id access_key.permission genesis_height ∷ [];
  }
  take_record other_record p = p

  -- The closure of `for_each_record`, over the records.
  unfoldable pub for_each_record : List StateRecord → Progress → Progress
  for_each_record [] p = p
  for_each_record (r ∷ rest) p =
      for_each_record rest (take_record r (store_full_keys (store_full_accounts p)))

  -- All calls that store records, in order.
  unfoldable pub store_genesis_records : List StateRecord → List Portion
  unfolding for_each_record
  store_genesis_records records =
      let p =
        for_each_record records
          (record { accounts_to_store = []; access_keys_to_store = []; stored = [] }) in
      p.stored ++ (accounts_portion p.accounts_to_store ∷ keys_portion p.access_keys_to_store ∷ [])
