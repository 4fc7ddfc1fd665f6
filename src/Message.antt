-- ===== src/Message.antt =====
-- `handle_message` of src/main.rs and the adapters that it calls, as processes: db_adapters/blocks,
-- chunks, transactions, receipts, execution_outcomes, accounts, access_keys, account_changes and
-- assets/events. The models of the rows are those of the components; decoding arguments, implicit
-- keys and events is a parameter, and so are the answers of the search for parents, by chunk.
pub mod Models
pub mod Owned
pub mod Adapters
pub mod Keeps
pub mod Passes
pub mod Guarded
pub mod Complete
mod Tests
use Prim.Native.String.{◌++◌ as text_append}
use near_indexer_for_explore.Base.{
  ℕ, String, Bool, true, false, not, Option, none, some, List, [], ◌∷◌, map, filter, is_empty,
  length, eqb, if◌then◌else◌,
}
use near_indexer_for_explore.Chain.{
  OutcomeWithReceipt, ChunkView, ReceiptView, ShardView, StateChangeWithCauseView,
  TransactionWithOutcome,
}
use near_indexer_for_explore.Text.{decimal}
use near_indexer_for_explore.Cache.{ReceiptsCache}
use near_indexer_for_explore.Database.{Statement, Future, insert_do_nothing}
use near_indexer_for_explore.Blocks.{BlockView, from_block_view, chunks_of, chunk_models}
use near_indexer_for_explore.Transactions.{
  TransactionRows, enumerate_from, not_inserted, count_transactions,
}
use near_indexer_for_explore.Transactions
use near_indexer_for_explore.Receipts.Search.{
  Hashes, Queries, Progress, searching, found, repeating, find_tx_hashes_for_receipts,
}
use near_indexer_for_explore.Receipts.Search
use near_indexer_for_explore.Receipts.Rows.{ReceiptRows, chunk_rows, cache_outputs}
use near_indexer_for_explore.Outcomes.{ExecutionOutcome, ExecutionOutcomeReceipt, outcome_models}
use near_indexer_for_explore.Accounts
use near_indexer_for_explore.AccessKeys
use near_indexer_for_explore.AccountChanges.{AccountChange, account_changes_models}
use near_indexer_for_explore.Assets.{NearEvent, Sorted, collect_events}
use near_indexer_for_explore.Assets.Rows.{compose_ft_db_events, compose_nft_db_events}
use near_indexer_for_explore.Assets.Batches.{chunks}
use near_indexer_for_explore.Serializers.{Json}
use near_indexer_for_explore.Process.{
  Process, done, failed, panicked, stuck, locked, asked, attempts, batch, after, both, join_all,
  in_order, in_batches,
}
use near_indexer_for_explore.Tables

pub record StreamerMessage : Type 0 where
  pub block : BlockView
  pub shards : List ShardView

-- The code of dependencies that the handler calls, and the rounds of the search for parents.
pub record Environment : Type 1 where
  pub receipts_cache : ReceiptsCache
  pub decode_args : String → Option Json
  pub implicit_public_key : String → Option String
  pub parse_event : String → Option NearEvent
  pub queries : String → Queries
  pub rounds : ℕ

module _ (E : Environment) where
  open E use {receipts_cache, decode_args, implicit_public_key, parse_event, queries, rounds}
  open (E.receipts_cache) use {Cache}

  abbrev pub Task : Type 0
  Task = Process Tables.Key Tables.Row Cache

  -- `await_retry_or_panic!` on an insert that does nothing on a conflict.
  abbrev pub insert_rows : {A : Type 0} → (A → Tables.Row) → List A → Task → Task
  insert_rows inject models next = attempts 10 (insert_do_nothing (map inject models)) next

  abbrev pub store_block : BlockView → Task
  store_block block = insert_rows Tables.block_row (from_block_view block ∷ []) done

  abbrev pub store_chunks : List ShardView → String → Task
  store_chunks shards block_hash =
      if is_empty shards
      then done
      else if is_empty (chunk_models block_hash shards)
      then done
      else insert_rows Tables.chunk_row (chunk_models block_hash shards) done

  -- The cache that a computation with it leaves; a panic leaves it.
  abbrev left_by : {A : Type 0} → (Cache → Option (A × Cache)) → Cache → Cache
  left_by f c = elim (f c) [ none ↦ c | some r ↦ r.1 ]

  abbrev pub insert_transactions : Option (TransactionRows × Cache) → Task
  insert_transactions none = panicked
  insert_transactions (some r) =
      insert_rows Tables.transaction_row r.0.transactions
        (insert_rows Tables.transaction_action_row r.0.transaction_actions done)

  abbrev pub store_chunk_transactions :
      String → ℕ → String → ChunkView → List (ℕ × TransactionWithOutcome) → Task
  store_chunk_transactions block_hash block_timestamp suffix chunk transactions =
      let models =
        Transactions.store_chunk_transactions receipts_cache decode_args block_hash block_timestamp
          chunk.header.chunk_hash suffix transactions in
      locked (left_by models) (λ c. insert_transactions (models c))

  abbrev pub store_chunks_transactions :
      String
      → ℕ
      → String
      → (List (ℕ × TransactionWithOutcome) → List (ℕ × TransactionWithOutcome))
      → List ChunkView
      → Task
  store_chunks_transactions block_hash block_timestamp suffix select chunk_views = join_all (
      map
        (λ chunk.
          store_chunk_transactions block_hash block_timestamp suffix chunk
            (select (enumerate_from 0 chunk.transactions)))
        chunk_views)

  -- What follows the answer of `collect_converted_to_receipt_ids`.
  abbrev pub store_collided : String → ℕ → ℕ → List ChunkView → Option (List String) → Task
  store_collided block_hash block_timestamp block_height chunk_views none = failed
  store_collided block_hash block_timestamp block_height chunk_views (some inserted) =
      if eqb (length inserted)
        (count_transactions receipts_cache decode_args block_hash block_timestamp chunk_views)
      then done
      else store_chunks_transactions block_hash block_timestamp
          (text_append "_issue84_" (decimal block_height))
          (filter (not_inserted receipts_cache decode_args block_hash block_timestamp inserted))
          chunk_views

  abbrev pub store_transactions : List ShardView → String → ℕ → ℕ → Task
  store_transactions shards block_hash block_timestamp block_height =
      after
        (store_chunks_transactions block_hash block_timestamp "" (λ txs. txs) (chunks_of shards))
        (asked (store_collided block_hash block_timestamp block_height (chunks_of shards)))

  abbrev pub store_receipt_actions : ReceiptRows → Task
  store_receipt_actions rows = insert_rows Tables.action_receipt_row rows.action_receipts (
      insert_rows Tables.action_receipt_action_row rows.action_receipt_actions (
        insert_rows Tables.output_data_row rows.action_receipt_output_data
          (insert_rows Tables.input_data_row rows.action_receipt_input_data done)))

  abbrev pub store_receipt_data : ReceiptRows → Task
  store_receipt_data rows = insert_rows Tables.data_receipt_row rows.data_receipts done

  -- `save_receipts`, then the rows of the two kinds.
  abbrev pub save_receipts : ReceiptRows → Task
  save_receipts rows =
      after (insert_rows Tables.receipt_row rows.receipts done)
        (both (store_receipt_actions rows) (store_receipt_data rows))

  abbrev pub store_found : String → String → ℕ → List ReceiptView → Progress → Task
  store_found block_hash chunk_hash block_timestamp receipts (searching left hashes) = stuck
  store_found block_hash chunk_hash block_timestamp receipts repeating = stuck
  store_found block_hash chunk_hash block_timestamp receipts Search.failed = failed
  store_found block_hash chunk_hash block_timestamp receipts (found hashes) =
      locked (cache_outputs hashes receipts_cache receipts) (λ c.
        save_receipts
          (chunk_rows hashes decode_args block_hash chunk_hash block_timestamp receipts))

  abbrev pub store_chunk_receipts : Bool → String → ℕ → ChunkView → Task
  store_chunk_receipts strict_mode block_hash block_timestamp chunk =
      let search =
        find_tx_hashes_for_receipts (queries chunk.header.chunk_hash) strict_mode receipts_cache
          rounds chunk.receipts in
      locked (λ c. (search c).1)
        (λ c.
          store_found block_hash chunk.header.chunk_hash block_timestamp chunk.receipts
            (search c).0)

  abbrev pub store_receipts : Bool → List ShardView → String → ℕ → Task
  store_receipts strict_mode shards block_hash block_timestamp = join_all (
      map (store_chunk_receipts strict_mode block_hash block_timestamp)
        (filter (λ chunk. not (is_empty chunk.receipts)) (chunks_of shards)))

  abbrev pub insert_outcomes : List ExecutionOutcome × List ExecutionOutcomeReceipt → Task
  insert_outcomes (outcomes, receipts) =
      insert_rows Tables.execution_outcome_row outcomes
        (insert_rows Tables.execution_outcome_receipt_row receipts done)

  abbrev pub store_execution_outcomes_for_chunk : ℕ → ShardView → Task
  store_execution_outcomes_for_chunk block_timestamp shard =
      let models =
        outcome_models receipts_cache shard.shard_id block_timestamp 0
          shard.receipt_execution_outcomes in
      locked (λ c. (models c).1) (λ c. insert_outcomes (models c).0)

  abbrev pub store_execution_outcomes : List ShardView → ℕ → Task
  store_execution_outcomes shards block_timestamp =
      join_all (map (store_execution_outcomes_for_chunk block_timestamp) shards)

  -- The futures that an adapter joins, on all the tables.
  abbrev pub join_futures :
      {K R : Type 0} → (Statement K R → Statement Tables.Key Tables.Row) → List (Future K R) → Task
  join_futures on_table futures = join_all (map (λ f. in_order 10 (map on_table f)) futures)

  abbrev pub handle_accounts : ℕ → ShardView → Task
  handle_accounts block_height shard =
      join_futures Tables.on_accounts
        (Accounts.handle_accounts shard.receipt_execution_outcomes block_height)

  abbrev pub handle_access_keys : ℕ → ShardView → Task
  handle_access_keys block_height shard = join_futures Tables.on_access_keys (
      AccessKeys.handle_access_keys implicit_public_key shard.receipt_execution_outcomes
        block_height)

  abbrev pub insert_changes : Option (List AccountChange) → Task
  insert_changes none = panicked
  insert_changes (some models) = insert_rows Tables.account_change_row models done

  abbrev pub store_account_changes_for_shard : String → ℕ → ShardView → Task
  store_account_changes_for_shard block_hash block_timestamp shard =
      if is_empty shard.state_changes
      then done
      else insert_changes (account_changes_models block_hash block_timestamp 0 shard.state_changes)

  -- The loops of `store_ft_events` and `store_nft_events`.
  abbrev pub store_batches : {A : Type 0} → (A → Tables.Row) → List (List A) → Task
  store_batches inject batches = in_batches (map (map inject) batches)

  abbrev pub collect_and_store_events : ℕ → ShardView → Task
  collect_and_store_events block_timestamp shard =
      let events = collect_events parse_event shard in
      both
        (store_batches Tables.ft_event_row
          (chunks (compose_ft_db_events block_timestamp shard.shard_id events.ft)))
        (store_batches Tables.nft_event_row
          (chunks (compose_nft_db_events block_timestamp shard.shard_id events.nft)))

  -- The last `try_join!`, by mode.
  abbrev pub handle_outcomes : Bool → StreamerMessage → Task
  handle_outcomes strict_mode m =
      let header = m.block.header in
      let execution_outcomes_future = store_execution_outcomes m.shards header.timestamp in
      let accounts_future = join_all (map (handle_accounts header.height) m.shards) in
      let assets_events_future =
        join_all (map (collect_and_store_events header.timestamp) m.shards) in
      if strict_mode
      then both execution_outcomes_future (
          both accounts_future (
            both (join_all (map (handle_access_keys header.height) m.shards)) (
              both assets_events_future (
                join_all
                  (map (store_account_changes_for_shard header.hash header.timestamp) m.shards)))))
      else both execution_outcomes_future (both accounts_future assets_events_future)

  unfoldable pub handle_message : Bool → StreamerMessage → Task
  handle_message strict_mode m =
      let header = m.block.header in
      after (store_block m.block) (
        after (store_chunks m.shards header.hash) (
          after
            (both (store_transactions m.shards header.hash header.timestamp header.height)
              (store_receipts strict_mode m.shards header.hash header.timestamp))
            (handle_outcomes strict_mode m)))
