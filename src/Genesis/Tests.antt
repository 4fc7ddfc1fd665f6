-- ===== src/Genesis/Tests.antt =====
-- Two records, for the theorem on genesis.rs.
use near_indexer_for_explore.Base.{◌≡◌, List, [], ◌∷◌, flat_map, All}
use near_indexer_for_explore.Chain.{full_access}
use near_indexer_for_explore.Genesis.{
  StateRecord, account_record, access_key_record, other_record, store_genesis_records,
}
use near_indexer_for_explore.Genesis.Portions.{
  portion_accounts, portion_keys, account_of, key_of, Bounded, store_genesis_records-rows,
}

abbrev records : List StateRecord
records =
    account_record "bob"
    ∷ other_record
    ∷ access_key_record "bob" "pk" (record { nonce = 0; permission = full_access })
    ∷ []

store_genesis_records-rows_example :
    (flat_map portion_accounts (store_genesis_records 1 records) ≡ flat_map (account_of 1) records)
    × (flat_map portion_keys (store_genesis_records 1 records) ≡ flat_map (key_of 1) records)
    × All Bounded (store_genesis_records 1 records)
store_genesis_records-rows_example = store_genesis_records-rows 1 records
