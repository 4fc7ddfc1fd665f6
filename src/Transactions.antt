-- ===== src/Transactions.antt =====
-- db_adapters/transactions.rs and models/transactions.rs: the transactions of the chunks of a
-- block, with the second pass for transactions whose hashes collide. Chunks are taken in order.
-- A missing receipt id is a panic, `none`. The receipt ids that the database lists after the
-- first pass are a parameter; `none` is its error.
pub mod Stored
pub mod Pairs
pub mod Passes
mod Tests
use Prim.Native.String.{◌++◌ as text_append}
use near_indexer_for_explore.Base.{
  ℕ, ◌+◌, String, Bool, not, Option, none, some, List, [], ◌∷◌, ◌++◌, filter, flat_map, map_from,
  length, eqb, if◌then◌else◌,
}
use near_indexer_for_explore.Base.Words.{as_i32, ◌>>=◌}
use near_indexer_for_explore.Chain.{
  ActionView, ExecutionStatusView, SignedTransactionView, TransactionWithOutcome, ChunkView,
}
use near_indexer_for_explore.Cache.{ReceiptOrDataId, receipt_key, ReceiptsCache}
use near_indexer_for_explore.Receipts.Rows.{contains}
use near_indexer_for_explore.Serializers.{
  Json, ActionKind, extract_action_type_and_value_from_action_view,
}
use near_indexer_for_explore.Text.{decimal}

-- The status is the variant of the outcome's.
pub record Transaction : Type 0 where
  pub transaction_hash : String
  pub included_in_block_hash : String
  pub included_in_chunk_hash : String
  pub index_in_chunk : ℕ
  pub block_timestamp : ℕ
  pub signer_account_id : String
  pub signer_public_key : String
  pub nonce : ℕ
  pub receiver_account_id : String
  pub signature : String
  pub status : ExecutionStatusView
  pub converted_into_receipt_id : String
  pub receipt_conversion_gas_burnt : ℕ
  pub receipt_conversion_tokens_burnt : ℕ

pub record TransactionAction : Type 0 where
  pub transaction_hash : String
  pub index_in_transaction : ℕ
  pub action_kind : ActionKind
  pub args : Json

abbrev pub from_indexer_transaction :
    TransactionWithOutcome → String → String → String → String → ℕ → ℕ → Transaction
from_indexer_transaction tx transaction_hash receipt_id block_hash chunk_hash block_timestamp
      index =
    record {
      transaction_hash = transaction_hash;
      included_in_block_hash = block_hash;
      included_in_chunk_hash = chunk_hash;
      index_in_chunk = index;
      block_timestamp = block_timestamp;
      signer_account_id = tx.transaction.signer_id;
      signer_public_key = tx.transaction.public_key;
      nonce = tx.transaction.nonce;
      receiver_account_id = tx.transaction.receiver_id;
      signature = tx.transaction.signature;
      status = tx.outcome.outcome.status;
      converted_into_receipt_id = receipt_id;
      receipt_conversion_gas_burnt = tx.outcome.outcome.gas_burnt;
      receipt_conversion_tokens_burnt = tx.outcome.outcome.tokens_burnt;
    }

abbrev first : List String → Option String
first [] = none
first (x ∷ xs) = some x

-- `receipt_ids.first()` of the outcome of a transaction.
abbrev pub converted_into : TransactionWithOutcome → Option String
converted_into tx = first tx.outcome.outcome.receipt_ids

-- The rows of one call of `store_chunk_transactions`.
pub record TransactionRows : Type 0 where
  pub transactions : List Transaction
  pub transaction_actions : List TransactionAction

abbrev pub enumerate_from : {A : Type 0} → ℕ → List A → List (ℕ × A)
enumerate_from i [] = []
enumerate_from i (x ∷ xs) = (i, x) ∷ enumerate_from (i + 1) xs

-- `TransactionAction::from_action_view`.
abbrev pub from_action_view : (String → Option Json) → String → ℕ → ActionView → TransactionAction
from_action_view decode_args transaction_hash index a = record {
  transaction_hash = transaction_hash;
  index_in_transaction = index;
  action_kind = (extract_action_type_and_value_from_action_view decode_args a).0;
  args = (extract_action_type_and_value_from_action_view decode_args a).1;
}

abbrev pub action_models :
    (String → Option Json) → ℕ × TransactionWithOutcome → List TransactionAction
action_models decode_args (n, tx) =
    map_from (λ i a. from_action_view decode_args tx.transaction.hash (as_i32 i) a) 0
      tx.transaction.actions

module _ (C : ReceiptsCache) (decode_args : String → Option Json) (block_hash : String)
    (block_timestamp : ℕ) where
  open C use {Cache, cache_set}

  unfoldable pub transaction_models :
      String
      → String
      → List (ℕ × TransactionWithOutcome)
      → Cache
      → Option (List Transaction × Cache)
  transaction_models chunk_hash suffix [] c = some ([], c)
  transaction_models chunk_hash suffix ((i, tx) ∷ rest) c = converted_into tx >>= λ receipt_id.
      let transaction_hash = text_append tx.transaction.hash suffix in
      let model =
        from_indexer_transaction tx transaction_hash receipt_id block_hash chunk_hash
          block_timestamp (as_i32 i) in
      transaction_models chunk_hash suffix rest
        (cache_set (receipt_key receipt_id) transaction_hash c)
      >>= λ r. some (model ∷ r.0, r.1)

  unfoldable pub store_chunk_transactions :
      String → String → List (ℕ × TransactionWithOutcome) → Cache → Option (TransactionRows × Cache)
  unfolding transaction_models
  store_chunk_transactions chunk_hash suffix txs c =
      transaction_models chunk_hash suffix txs c >>= λ r. some (
        record {
          transactions = r.0;
          transaction_actions = flat_map (action_models decode_args) txs;
        },
        r.1,
      )

  -- A pass over the chunks, each with the transactions that `select` leaves.
  unfoldable pub store_pass :
      String
      → (List (ℕ × TransactionWithOutcome) → List (ℕ × TransactionWithOutcome))
      → List ChunkView
      → Cache
      → Option (List TransactionRows × Cache)
  unfolding store_chunk_transactions
  store_pass suffix select [] c = some ([], c)
  store_pass suffix select (chunk ∷ rest) c =
      store_chunk_transactions chunk.header.chunk_hash suffix
        (select (enumerate_from 0 chunk.transactions)) c
      >>= λ r. store_pass suffix select rest r.1 >>= λ s. some (r.0 ∷ s.0, s.1)

  abbrev pub not_inserted : List String → ℕ × TransactionWithOutcome → Bool
  not_inserted inserted (i, tx) = elim (converted_into tx) [
    | none ↦ Bool.true
    | some receipt_id ↦ not (contains receipt_id inserted)
  ]

  -- `tried_to_insert_transactions_count`.
  abbrev pub count_transactions : List ChunkView → ℕ
  count_transactions [] = 0
  count_transactions (chunk ∷ rest) = length chunk.transactions + count_transactions rest

  abbrev pub second_pass :
      ℕ
      → List ChunkView
      → List TransactionRows × Cache
      → List String
      → Option (List TransactionRows × Cache)
  second_pass block_height chunks first_pass inserted =
      if eqb (length inserted) (count_transactions chunks)
      then some first_pass
      else store_pass (text_append "_issue84_" (decimal block_height))
          (filter (not_inserted inserted)) chunks first_pass.1
        >>= λ s. some (first_pass.0 ++ s.0, s.1)

  -- The rows of both passes; `inserted` lists the receipt ids of the block that the database holds
  -- after the rows of the first pass.
  unfoldable pub store_transactions :
      ℕ
      → List ChunkView
      → (List TransactionRows → Option (List String))
      → Cache
      → Option (List TransactionRows × Cache)
  unfolding store_pass
  store_transactions block_height chunks inserted c =
      store_pass "" (λ txs. txs) chunks c >>= λ first_pass.
      inserted first_pass.0 >>= λ ids. second_pass block_height chunks first_pass ids
