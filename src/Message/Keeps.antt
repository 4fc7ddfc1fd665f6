-- ===== src/Message/Keeps.antt =====
-- The keys that the statements of `handle_message` leave alone.
use near_indexer_for_explore.Base.{
  ℕ, String, Bool, true, false, not, Option, none, some, List, [], ◌∷◌, filter, is_empty, length,
  eqb, inl, inr, Bool-cases, if◌then◌else◌, String-eq, pair-eq,
}
use Prim.Native.String.{◌++◌ as text_append}
use near_indexer_for_explore.Text.{decimal}
use near_indexer_for_explore.Accounts
use near_indexer_for_explore.AccessKeys
use near_indexer_for_explore.Blocks.{chunks_of, chunk_models}
use near_indexer_for_explore.Assets.{collect_events}
use near_indexer_for_explore.Assets.Rows.{compose_ft_db_events, compose_nft_db_events}
use near_indexer_for_explore.Assets.Batches.{chunks}
use near_indexer_for_explore.Chain.{ChunkView, ReceiptView, ShardView, TransactionWithOutcome}
use near_indexer_for_explore.Tables.{
  Key, Row, texts-eq, key, parents, block_key, chunk_key, transaction_key, on_accounts,
  on_access_keys,
}
use near_indexer_for_explore.Tables
use near_indexer_for_explore.Receipts.Search.{
  Progress, searching, found, repeating, find_tx_hashes_for_receipts,
}
use near_indexer_for_explore.Receipts.Search
use near_indexer_for_explore.AccountChanges.{AccountChange, account_changes_models}
use near_indexer_for_explore.Transactions.{Transaction, TransactionAction, TransactionRows}
use near_indexer_for_explore.Transactions
use near_indexer_for_explore.Process.{done}
use near_indexer_for_explore.Process.Present.{Keeps}
use near_indexer_for_explore.Process.Joined.{join_all-Keeps}
use near_indexer_for_explore.Message.{
  Environment, StreamerMessage, Task, insert_rows, store_chunks, insert_transactions,
  store_chunk_transactions, store_chunks_transactions, store_collided, store_transactions,
  store_found, store_chunk_receipts, store_execution_outcomes_for_chunk, handle_accounts,
  handle_access_keys, insert_changes, store_account_changes_for_shard, store_batches,
  collect_and_store_events, handle_outcomes, handle_message,
}
use near_indexer_for_explore.Message.Adapters.{
  handle_accounts-free, handle_access_keys-free, join_futures-Keeps,
}

module _ (E : Environment) where
  open (E.receipts_cache) use {Cache}

  if-Keeps : (b : Bool) (p q : Task E) → Keeps key p → Keeps key q → Keeps key (if b then p else q)
  if-Keeps true p q h g = h
  if-Keeps false p q h g = g

  insert_transactions-Keeps :
      (o : Option (TransactionRows × Cache)) → Keeps key (insert_transactions E o)
  unfolding Keeps
  insert_transactions-Keeps none = tt
  insert_transactions-Keeps (some r) = (tt, (tt, tt))

  store_chunk_transactions-Keeps :
      (block_hash : String) (block_timestamp : ℕ) (suffix : String) (chunk : ChunkView)
      (txs : List (ℕ × TransactionWithOutcome))
      → Keeps key (store_chunk_transactions E block_hash block_timestamp suffix chunk txs)
  unfolding Keeps
  store_chunk_transactions-Keeps block_hash block_timestamp suffix chunk txs = λ c.
      insert_transactions-Keeps (
        Transactions.store_chunk_transactions E.receipts_cache E.decode_args block_hash
          block_timestamp chunk.header.chunk_hash suffix txs c)

  store_chunks_transactions-Keeps :
      (block_hash : String) (block_timestamp : ℕ) (suffix : String)
      (select : List (ℕ × TransactionWithOutcome) → List (ℕ × TransactionWithOutcome))
      (chunks : List ChunkView)
      → Keeps key (store_chunks_transactions E block_hash block_timestamp suffix select chunks)
  store_chunks_transactions-Keeps block_hash block_timestamp suffix select chunks =
      join_all-Keeps key
        (λ chunk.
          store_chunk_transactions E block_hash block_timestamp suffix chunk
            (select (Transactions.enumerate_from 0 chunk.transactions)))
        chunks
        (λ chunk.
          store_chunk_transactions-Keeps block_hash block_timestamp suffix chunk
            (select (Transactions.enumerate_from 0 chunk.transactions)))

  store_collided-Keeps :
      (block_hash : String) (block_timestamp block_height : ℕ) (chunks : List ChunkView)
      (o : Option (List String))
      → Keeps key (store_collided E block_hash block_timestamp block_height chunks o)
  unfolding Keeps
  store_collided-Keeps block_hash block_timestamp block_height chunks none = tt
  store_collided-Keeps block_hash block_timestamp block_height chunks (some inserted) =
      let env =
        Transactions.count_transactions E.receipts_cache E.decode_args block_hash block_timestamp
          chunks in
      elim (Bool-cases (eqb (length inserted) env)) [
        | inl same ↦ rw (same, store_collided) tt
        | inr fewer ↦
            rw (fewer, store_collided)
              (store_chunks_transactions-Keeps block_hash block_timestamp
                (text_append "_issue84_" (decimal block_height))
                (filter (
                  Transactions.not_inserted E.receipts_cache E.decode_args block_hash
                    block_timestamp inserted))
                chunks)
      ]

  store_found-Keeps :
      (block_hash chunk_hash : String) (block_timestamp : ℕ) (receipts : List ReceiptView)
      (p : Progress)
      → Keeps key (store_found E block_hash chunk_hash block_timestamp receipts p)
  unfolding Keeps
  store_found-Keeps block_hash chunk_hash block_timestamp receipts (searching left hashes) = tt
  store_found-Keeps block_hash chunk_hash block_timestamp receipts repeating = tt
  store_found-Keeps block_hash chunk_hash block_timestamp receipts Search.failed = tt
  store_found-Keeps block_hash chunk_hash block_timestamp receipts (found hashes) =
      λ c. ((tt, tt), ((tt, (tt, (tt, (tt, tt)))), (tt, tt)))

  insert_changes-Keeps : (o : Option (List AccountChange)) → Keeps key (insert_changes E o)
  unfolding Keeps
  insert_changes-Keeps none = tt
  insert_changes-Keeps (some models) = (tt, tt)

  store_batches-Keeps :
      {A : Type 0} (inject : A → Row) (batches : List (List A))
      → Keeps key (store_batches E inject batches)
  unfolding Keeps
  store_batches-Keeps inject [] = tt
  store_batches-Keeps inject (models ∷ rest) = store_batches-Keeps inject rest

  store_chunks-Keeps :
      (shards : List ShardView) (block_hash : String) → Keeps key (store_chunks E shards block_hash)
  unfolding Keeps
  store_chunks-Keeps shards block_hash =
      let insert = insert_rows E Tables.chunk_row (chunk_models block_hash shards) done in
      if-Keeps (is_empty shards) done
        (if is_empty (chunk_models block_hash shards) then done else insert) tt
        (if-Keeps (is_empty (chunk_models block_hash shards)) done insert tt (tt, tt))

  store_transactions-Keeps :
      (shards : List ShardView) (block_hash : String) (block_timestamp block_height : ℕ)
      → Keeps key (store_transactions E shards block_hash block_timestamp block_height)
  unfolding Keeps
  store_transactions-Keeps shards block_hash block_timestamp block_height = (
    store_chunks_transactions-Keeps block_hash block_timestamp "" (λ txs. txs) (chunks_of shards),
    store_collided-Keeps block_hash block_timestamp block_height (chunks_of shards),
  )

  store_chunk_receipts-Keeps :
      (strict_mode : Bool) (block_hash : String) (block_timestamp : ℕ) (chunk : ChunkView)
      → Keeps key (store_chunk_receipts E strict_mode block_hash block_timestamp chunk)
  unfolding Keeps
  store_chunk_receipts-Keeps strict_mode block_hash block_timestamp chunk = λ c.
      store_found-Keeps block_hash chunk.header.chunk_hash block_timestamp chunk.receipts
        (find_tx_hashes_for_receipts (E.queries chunk.header.chunk_hash) strict_mode
          E.receipts_cache E.rounds chunk.receipts c).0

  store_execution_outcomes_for_chunk-Keeps :
      (block_timestamp : ℕ) (shard : ShardView)
      → Keeps key (store_execution_outcomes_for_chunk E block_timestamp shard)
  unfolding Keeps
  store_execution_outcomes_for_chunk-Keeps block_timestamp shard = λ c. (tt, (tt, tt))

  collect_and_store_events-Keeps :
      (block_timestamp : ℕ) (shard : ShardView)
      → Keeps key (collect_and_store_events E block_timestamp shard)
  unfolding Keeps
  collect_and_store_events-Keeps block_timestamp shard =
      let events = collect_events E.parse_event shard in
      (
        store_batches-Keeps Tables.ft_event_row
            (chunks (compose_ft_db_events block_timestamp shard.shard_id events.ft)),
        store_batches-Keeps Tables.nft_event_row
            (chunks (compose_nft_db_events block_timestamp shard.shard_id events.nft)),
      )

  store_account_changes_for_shard-Keeps :
      (block_hash : String) (block_timestamp : ℕ) (shard : ShardView)
      → Keeps key (store_account_changes_for_shard E block_hash block_timestamp shard)
  unfolding Keeps
  store_account_changes_for_shard-Keeps block_hash block_timestamp shard =
      let models = account_changes_models block_hash block_timestamp 0 shard.state_changes in
      if-Keeps (is_empty shard.state_changes) done (insert_changes E models) tt
        (insert_changes-Keeps models)

  handle_outcomes-Keeps :
      (strict_mode : Bool) (m : StreamerMessage) → Keeps key (handle_outcomes E strict_mode m)
  unfolding Keeps
  handle_outcomes-Keeps strict_mode m =
      let t = m.block.header.timestamp in
      let h = m.block.header.height in
      let outcomes =
        join_all-Keeps key (store_execution_outcomes_for_chunk E t) m.shards
          (store_execution_outcomes_for_chunk-Keeps t) in
      let accounts = join_all-Keeps key (handle_accounts E h) m.shards (λ shard.
        join_futures-Keeps E on_accounts
          (Accounts.handle_accounts shard.receipt_execution_outcomes h)
          (handle_accounts-free shard.receipt_execution_outcomes h)) in
      let events =
        join_all-Keeps key (collect_and_store_events E t) m.shards
          (collect_and_store_events-Keeps t) in
      let keys = join_all-Keeps key (handle_access_keys E h) m.shards (λ shard.
        join_futures-Keeps E on_access_keys
          (AccessKeys.handle_access_keys E.implicit_public_key shard.receipt_execution_outcomes h)
          (handle_access_keys-free E.implicit_public_key shard.receipt_execution_outcomes h)) in
      let changes =
        join_all-Keeps key (store_account_changes_for_shard E m.block.header.hash t) m.shards
          (store_account_changes_for_shard-Keeps m.block.header.hash t) in
      elim strict_mode as (λ b. Keeps key (handle_outcomes E b m)) [
        | true ↦ (outcomes, (accounts, (keys, (events, changes))))
        | false ↦ (outcomes, (accounts, events))
      ]

  -- No statement of the handler changes a key.
  pub handle_message-Keeps :
      (strict_mode : Bool) (m : StreamerMessage) → Keeps key (handle_message E strict_mode m)
  unfolding Keeps handle_message
  handle_message-Keeps strict_mode m =
      let header = m.block.header in
      (
        (tt, tt),
        (
          store_chunks-Keeps m.shards header.hash,
          (
            (
              store_transactions-Keeps m.shards header.hash header.timestamp header.height,
              join_all-Keeps key (store_chunk_receipts E strict_mode header.hash header.timestamp)
                  (filter (λ chunk. not (is_empty chunk.receipts)) (chunks_of m.shards))
                  (store_chunk_receipts-Keeps strict_mode header.hash header.timestamp),
            ),
            handle_outcomes-Keeps strict_mode m,
          ),
        ),
      )
