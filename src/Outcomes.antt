-- ===== src/Outcomes.antt =====
-- db_adapters/execution_outcomes.rs and models/execution_outcomes.rs: the outcomes of the
-- receipts of a chunk, and what the cache learns of the receipts that they produce.
pub mod Sound
mod Tests
use near_indexer_for_explore.Base.{ℕ, ◌+◌, String, Option, none, some, List, [], ◌∷◌, ◌++◌}
use near_indexer_for_explore.Base.Words.{as_i32}
use near_indexer_for_explore.Chain.{
  ExecutionStatusView, ExecutionOutcomeView, ExecutionOutcomeWithIdView, OutcomeWithReceipt,
}
use near_indexer_for_explore.Cache.{ReceiptOrDataId, receipt_key, ReceiptsCache}

pub record ExecutionOutcome : Type 0 where
  pub receipt_id : String
  pub executed_in_block_hash : String
  pub executed_in_block_timestamp : ℕ
  pub index_in_chunk : ℕ
  pub gas_burnt : ℕ
  pub tokens_burnt : ℕ
  pub executor_account_id : String
  pub status : ExecutionStatusView
  pub shard_id : ℕ

pub record ExecutionOutcomeReceipt : Type 0 where
  pub executed_receipt_id : String
  pub index_in_execution_outcome : ℕ
  pub produced_receipt_id : String

abbrev pub from_execution_outcome : ExecutionOutcomeWithIdView → ℕ → ℕ → ℕ → ExecutionOutcome
from_execution_outcome e index_in_chunk block_timestamp shard_id = record {
  receipt_id = e.id;
  executed_in_block_hash = e.block_hash;
  executed_in_block_timestamp = block_timestamp;
  index_in_chunk = index_in_chunk;
  gas_burnt = e.outcome.gas_burnt;
  tokens_burnt = e.outcome.tokens_burnt;
  executor_account_id = e.outcome.executor_id;
  status = e.outcome.status;
  shard_id = shard_id;
}

module _ (C : ReceiptsCache) where
  open C use {Cache, cache_set, cache_remove}

  abbrev pub set_parent : Option String → String → Cache → Cache
  set_parent none receipt_id c = c
  set_parent (some transaction_hash) receipt_id c =
      cache_set (receipt_key receipt_id) transaction_hash c

  -- The receipts that one outcome produces, from the index on.
  unfoldable pub produced :
      String → Option String → ℕ → List String → Cache → List ExecutionOutcomeReceipt × Cache
  produced id parent i [] c = ([], c)
  produced id parent i (receipt_id ∷ rest) c =
      let (rows, c') = produced id parent (i + 1) rest (set_parent parent receipt_id c) in
      (
        record {
          executed_receipt_id = id;
          index_in_execution_outcome = as_i32 i;
          produced_receipt_id = receipt_id;
        }
            ∷ rows,
        c',
      )

  -- The two lists of models and the cache after the outcomes of a chunk, from the index on.
  unfoldable pub outcome_models :
      ℕ
      → ℕ
      → ℕ
      → List OutcomeWithReceipt
      → Cache
      → (List ExecutionOutcome × List ExecutionOutcomeReceipt) × Cache
  unfolding produced
  outcome_models shard_id block_timestamp i [] c = (([], []), c)
  outcome_models shard_id block_timestamp i (o ∷ rest) c =
      let e = o.execution_outcome in
      let (parent, c1) = cache_remove (receipt_key e.id) c in
      let (rows, c2) = produced e.id parent 0 e.outcome.receipt_ids c1 in
      let (models, c3) = outcome_models shard_id block_timestamp (i + 1) rest c2 in
      (
        (from_execution_outcome e (as_i32 i) block_timestamp shard_id ∷ models.0, rows ++ models.1),
        c3,
      )
