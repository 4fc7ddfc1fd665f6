-- ===== src/Transactions/Tests.antt =====
-- A transaction whose hash has collided, for the theorem on transactions.rs.
use near_indexer_for_explore.Base.{
  none≢some, ℕ, ◌≡◌, refl, String, Option, none, some, List, [], ◌∷◌, ◌++◌, map, flat_map,
}
use near_indexer_for_explore.Chain.{ChunkView, TransactionWithOutcome, transfer, success_receipt_id}
use near_indexer_for_explore.Cache.{ReceiptOrDataId}
use near_indexer_for_explore.Cache.Functional.{Entries, function_cache}
use near_indexer_for_explore.Receipts.Search.Sound.{SoundCache}
use near_indexer_for_explore.Serializers.{Json}
use near_indexer_for_explore.Transactions.{
  TransactionRows, store_transactions, store_chunk_transactions,
}
use near_indexer_for_explore.Transactions.Passes.{
  IsFirstPass, IsSecondPass, store_transactions-rows,
}
use near_indexer_for_explore.Transactions.Stored.{
  Models, action_hash, hash_per_action, store_chunk_transactions-rows,
}

abbrev tx : TransactionWithOutcome
tx = record {
  transaction = record {
    signer_id = "alice";
    public_key = "key";
    nonce = 1;
    receiver_id = "bob";
    actions = transfer 5 ∷ [];
    signature = "sig";
    hash = "tx1";
  };
  outcome = record {
    block_hash = "block";
    id = "tx1";
    outcome = record {
      logs = [];
      receipt_ids = "r1" ∷ [];
      gas_burnt = 1;
      tokens_burnt = 1;
      executor_id = "alice";
      status = success_receipt_id;
    };
  };
}

abbrev collided : List (ℕ × TransactionWithOutcome)
collided = (0, tx) ∷ []

abbrev empty_cache : Entries
empty_cache k = none

abbrev no_args : String → Option Json
no_args s = none

abbrev FromCollided : ReceiptOrDataId → String → Type 0
FromCollided k h = h ≡ "tx1_issue84_9"

empty_sound : SoundCache FromCollided function_cache empty_cache
empty_sound k h there = absurd (none≢some there)

store_chunk_transactions-rows_example :
    (r : TransactionRows × Entries) × (store_chunk_transactions function_cache no_args "block" 100
        "chunk" "_issue84_9" collided empty_cache
      ≡ some r)
    × Models FromCollided function_cache no_args "block" 100 "chunk" "_issue84_9" collided
        (r.0.transactions, r.1)
    × (map action_hash r.0.transaction_actions ≡ flat_map hash_per_action collided)
store_chunk_transactions-rows_example =
    store_chunk_transactions-rows FromCollided function_cache no_args "block" 100 "chunk"
      "_issue84_9" collided empty_cache empty_sound (("r1", (refl, refl)), tt)

abbrev chunks : List ChunkView
chunks =
    record {
      author = "author.near";
      header = record {
        chunk_hash = "chunk";
        shard_id = 0;
        signature = "sig";
        gas_limit = 1;
        gas_used = 1;
      };
      transactions = tx ∷ [];
      receipts = [];
    }
    ∷ []

-- The database knows no receipt id of the block, so that there is a second pass.
abbrev none_inserted : List TransactionRows → List String
none_inserted rows = []

store_transactions-rows_example :
    (first : List TransactionRows) × (second : List TransactionRows) × (c' : Entries)
    × (store_transactions function_cache no_args "block" 100 9 chunks
          (λ rows. some (none_inserted rows))
          empty_cache
        ≡ some (first ++ second, c'))
    × IsFirstPass function_cache no_args "block" 100 chunks first
    × IsSecondPass function_cache no_args "block" 100 9 chunks (none_inserted first) second
store_transactions-rows_example =
    store_transactions-rows function_cache no_args "block" 100 9 chunks none_inserted empty_cache
      ((refl, tt), tt)
